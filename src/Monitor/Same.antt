-- ===== src/Monitor/Same.antt =====
-- custom_components/doorfast/monitor.py: the stretches that leave the terminal epoch, the unload and
-- the numbers of the leases alone.
use doorfastforha.Prelude.{
  ℕ, ◌≡◌, refl, ◌∙◌, String, Bool, true, false, Option, none, some, arith, Option-cases, inl, inr,
}
use doorfastforha.Value.{Value, Fields}
use doorfastforha.SessionDiagnostics.{Operation}
use doorfastforha.Monitor.{
  MonitorCoordinator, MonitorLease, set_response, cancel_grace, response_generation, or_else,
}
use doorfastforha.Monitor.Lifecycle.{start_begin, start_adopt, start_settle, adopt, refuse}
use doorfastforha.Monitor.Recovery.{recover_stopped, recover_start, recover_adopt, recover_settle}
use doorfastforha.Monitor.Acquire.{acquire_admit, wait_ready, cleanup_end}
use doorfastforha.Monitor.Register.{register_rollback, register_failed}
use doorfastforha.Monitor.Release.{
  release_begin, release_failed, release_end, grace_over, stop_begin, stop_end,
}
use doorfastforha.Monitor.Status.Cases.{conclude_cases}
use doorfastforha.Monitor.Status.{conclude, finish, take_response, Report, Verdict}
use doorfastforha.Monitor.Lifecycle.{start_failed}
use doorfastforha.Monitor.Acquire.{acquire_end, acquire_failed}
use doorfastforha.Monitor.Call.{hangup_end, call_end, Conditions}
use doorfastforha.Monitor.Call.{
  call_begin, call_settle, hangup_begin, hangup_reply, begin_call_request, Reply,
}
use doorfastforha.Monitor.CallStatus.{
  show_native, apply_call_status_cases, apply_call_status, take_call_status, follow_operation,
  follow_native, follow_accepted,
}

-- A stretch that hands nothing out and ends nothing.
unfoldable pub Same : MonitorCoordinator → MonitorCoordinator → Type 0
Same m n =
    (n.terminal_epoch ≡ m.terminal_epoch)
    × (n.unloaded ≡ m.unloaded)
    × (n.next_lease_id ≡ m.next_lease_id)

set_response-Same :
    (a : Bool) (d : Fields) (m n : MonitorCoordinator) → set_response a d m ≡ some n → Same m n
unfolding Same set_response
set_response-Same a d m n h = ground arith

begin_call_request-Same : (m n : MonitorCoordinator) → begin_call_request m ≡ some n → Same m n
unfolding Same begin_call_request
begin_call_request-Same m n h = ground arith

pub start_begin-Same : (t e old : ℕ) (m : MonitorCoordinator) → Same m (start_begin t e old m).0
unfolding Same start_begin cancel_grace
start_begin-Same t e old m = ground arith

pub recover_stopped-Same : (e g : ℕ) (m : MonitorCoordinator) → Same m (recover_stopped e g m).0
unfolding Same recover_stopped
recover_stopped-Same e g m = ground arith

pub recover_start-Same : (e g : ℕ) (m : MonitorCoordinator) → Same m (recover_start e g m).0
unfolding Same recover_start
recover_start-Same e g m = ground arith

pub acquire_admit-Same : (e t : ℕ) (m : MonitorCoordinator) → Same m (acquire_admit e t m).0
unfolding Same acquire_admit
acquire_admit-Same e t m = ground arith

pub cleanup_end-Same : (g e : ℕ) (m : MonitorCoordinator) → Same m (cleanup_end g e m)
unfolding Same cleanup_end
cleanup_end-Same g e m = ground arith

pub wait_ready-Same : (g : ℕ) (m : MonitorCoordinator) → Same m (wait_ready g m).0
unfolding Same wait_ready
wait_ready-Same g m = ground arith

pub register_rollback-Same : (g : ℕ) (m : MonitorCoordinator) → Same m (register_rollback g m)
unfolding Same register_rollback
register_rollback-Same g m = ground arith

pub register_failed-Same : (g : ℕ) (m : MonitorCoordinator) → Same m (register_failed g m)
unfolding Same register_failed
register_failed-Same g m = ground arith

pub release_begin-Same :
    (t : ℕ) (l : MonitorLease) (m : MonitorCoordinator) → Same m (release_begin t l m).0
unfolding Same release_begin cancel_grace
release_begin-Same t l m = ground arith

pub release_failed-Same :
    (g : ℕ) (l : MonitorLease) (m : MonitorCoordinator) → Same m (release_failed g l m)
unfolding Same release_failed
release_failed-Same g l m = ground arith

pub release_end-Same : (g t : ℕ) (m : MonitorCoordinator) → Same m (release_end g t m)
unfolding Same release_end
release_end-Same g t m = ground arith

pub grace_over-Same : (t : ℕ) (m : MonitorCoordinator) → Same m (grace_over t m)
unfolding Same grace_over
grace_over-Same t m = ground arith

pub stop_begin-Same : (t : ℕ) (o : Option ℕ) (m : MonitorCoordinator) → Same m (stop_begin t o m).0
unfolding Same stop_begin cancel_grace
stop_begin-Same t o m = ground arith

pub adopt-Same :
    (p : Bool) (e g : ℕ) (d : Fields) (m : MonitorCoordinator) → Same m (adopt p e g d m).0
unfolding Same
adopt-Same p e g d m = elim (Option-cases (set_response true d m)) [
  | inl bad ↦ ground arith
  | inr (n, good) ↦ let k = set_response-Same true d m n good in ground arith
]

refuse-Same : (e g : ℕ) (m : MonitorCoordinator) → Same m (refuse e g m).0
unfolding Same
refuse-Same e g m = ground arith

pub start_adopt-Same :
    (p : Bool) (e old : ℕ) (d : Fields) (m : MonitorCoordinator)
    → Same m (start_adopt p e old d m).0
unfolding Same start_adopt start_settle
start_adopt-Same p e old d m = elim (Option-cases (response_generation d)) [
  | inl bad ↦ ground arith
  | inr (g, good) ↦ let k = adopt-Same p e g d (record m { start_inflight = false }) in ground arith
]

pub recover_adopt-Same :
    (p : Bool) (e old : ℕ) (d : Fields) (m : MonitorCoordinator)
    → Same m (recover_adopt p e old d m).0
unfolding Same recover_adopt recover_settle
recover_adopt-Same p e old d m = elim (Option-cases (response_generation d)) [
  | inl bad ↦ ground arith
  | inr (g, good) ↦ let k = adopt-Same p e g d (record m { start_inflight = false }) in ground arith
]

pub stop_end-Same :
    (t : Bool) (g e : ℕ) (o : Option Fields) (m : MonitorCoordinator)
    → Same m (stop_end t g e o m).0
unfolding stop_end Same
stop_end-Same t g e none m = ground arith
stop_end-Same t g e (some d) m = elim (Option-cases (set_response true d m)) [
  | inl bad ↦ ground arith
  | inr (n, good) ↦ let k = set_response-Same true d m n good in ground arith
]

pub call_begin-Same :
    (a b c : Value) (d : Fields) (m : MonitorCoordinator) → Same m (call_begin a b c d m).0
unfolding Same call_begin begin_call_request
call_begin-Same a b c d m = ground arith

call_settle-Same :
    (e : ℕ) (r : Reply) (d : Fields) (m : MonitorCoordinator) → Same m (call_settle e r d m).0
unfolding Same call_settle
call_settle-Same e r d m = ground arith

pub hangup_begin-Same :
    (v : Value) (d : Fields) (m : MonitorCoordinator) → Same m (hangup_begin v d m).0
unfolding Same hangup_begin begin_call_request
hangup_begin-Same v d m = ground arith

pub hangup_reply-Same :
    (e : ℕ) (r : Reply) (d : Fields) (m : MonitorCoordinator) → Same m (hangup_reply e r d m).0
unfolding Same hangup_reply
hangup_reply-Same e r d m = ground arith

Same-by :
    (m n : MonitorCoordinator)
    → n.terminal_epoch ≡ m.terminal_epoch
    → n.unloaded ≡ m.unloaded
    → n.next_lease_id ≡ m.next_lease_id
    → Same m n
unfolding Same
Same-by m n e u i = (e, u, i)

Same-trans : (a b c : MonitorCoordinator) → Same a b → Same b c → Same a c
unfolding Same
Same-trans a b c (e, u, i) (f, v, j) = (f ∙ e, v ∙ u, j ∙ i)

follow_operation-Same :
    (t o : Option Operation) (b : Bool) (m : MonitorCoordinator) → Same m (follow_operation t o b m)
unfolding Same follow_operation
follow_operation-Same t o b m = ground arith

show_native-Same :
    (a b c : Bool) (g : ℕ) (t : String) (m : MonitorCoordinator) → Same m (show_native a b c g t m)
unfolding Same show_native
show_native-Same true b c g t m = (refl, refl, refl)
show_native-Same false true c g t m = (refl, refl, refl)
show_native-Same false false true g t m = (refl, refl, refl)
show_native-Same false false false g t m = (refl, refl, refl)

follow_native-Same :
    (t : Option Operation) (b : Bool) (d : Fields) (m : MonitorCoordinator)
    → Same m (follow_native t b d m)
unfolding follow_native
follow_native-Same t b d m = show_native-Same b _ _ _ _ m

follow_accepted-Same :
    (t : Option Operation) (m : MonitorCoordinator) → Same m (follow_accepted t m)
unfolding Same follow_accepted
follow_accepted-Same t m = ground arith

take_call_status-Same :
    (o : Option Operation) (d : Fields) (m : MonitorCoordinator) → Same m (take_call_status o d m)
unfolding take_call_status
take_call_status-Same o d m =
    Same-trans m _ _ (follow_operation-Same _ o _ m)
      (Same-trans _ _ _ (follow_native-Same _ _ _ _) (follow_accepted-Same _ _))

pub apply_call_status-Same :
    (c : Fields) (e : Option ℕ) (d : Fields) (m : MonitorCoordinator)
    → Same m (or_else (apply_call_status c e d m) m)
apply_call_status-Same c e d m =
    let k = Same-by m m refl refl refl in
    apply_call_status_cases (λ o. Same m (or_else o m)) c e d m k k
      (λ _ _. take_call_status-Same _ d m)

take_response-Same : (d : Fields) (m : MonitorCoordinator) → Same m (take_response d m).0
unfolding Same take_response
take_response-Same d m = elim (Option-cases (set_response false d m)) [
  | inl bad ↦ ground arith
  | inr (n, good) ↦ let k = set_response-Same false d m n good in ground arith
]

finish-Same :
    (t : ℕ) (o : Option ℕ) (s : String) (n : ℕ) (m : MonitorCoordinator)
    → Same m (finish t o s n m).0
unfolding Same cancel_grace finish
finish-Same t o s n m = ground arith

-- The verdict apart.
abbrev Keeps : MonitorCoordinator → MonitorCoordinator × Verdict → Type 0
Keeps m r = Same m r.0

pub conclude-Same : (t : ℕ) (r : Report) (m : MonitorCoordinator) → Same m (conclude t r m).0
conclude-Same t r m =
    conclude_cases (Keeps m) t r m (Same-by m m refl refl refl) (λ o s _. finish-Same t o s _ m)
      (take_response-Same r.merged m)

pub start_failed-Same : (m : MonitorCoordinator) → Same m (start_failed m)
unfolding Same start_failed
start_failed-Same m = (refl, refl, refl)

pub acquire_end-Same : (e t : ℕ) (m : MonitorCoordinator) → Same m (acquire_end e t m)
unfolding Same acquire_end
acquire_end-Same e t m = (refl, refl, refl)

pub acquire_failed-Same :
    (e t : ℕ) (g : Option ℕ) (m : MonitorCoordinator) → Same m (acquire_failed e t g m).0
unfolding acquire_failed
acquire_failed-Same e t g m = acquire_end-Same e t m

pub hangup_end-Same :
    (c : Conditions) (d : Fields) (m : MonitorCoordinator) → Same m (hangup_end c d m)
unfolding Same hangup_end
hangup_end-Same c d m = (refl, refl, refl)

pub call_end-Same :
    (e : ℕ) (r : Reply) (d : Fields) (m : MonitorCoordinator) → Same m (call_end e r d m).0
unfolding Same call_end
call_end-Same e r d m = call_settle-Same e r d (record m { call_locked = false })
