-- ===== src/Monitor/Later.antt =====
-- custom_components/doorfast/monitor.py: what no schedule of the stretches takes back.
use doorfastforha.Prelude.{ℕ, ◌≤◌, ◌≡◌, ◌∙◌, Bool, true, List, [], ◌∷◌, Option, none, some, arith}
use doorfastforha.Value.{Value}
use doorfastforha.Monitor.{
  MonitorCoordinator, MonitorLease, Answer, returned, raised, begin_terminal,
}
use doorfastforha.Monitor.Register.{register_provisional, register_end, hand_out}
use doorfastforha.Monitor.Status.Cases.{apply_status_cases, judge_cases}
use doorfastforha.Monitor.Status.{apply_status, judge, fence, Report, Verdict}
use doorfastforha.Monitor.Schedule.{
  Stretch, advance, leased, prepend, Op, apply, run, begins_start, adopts_start, leaves_recovered,
  begins_recovery, adopts_recovery, is_admitted, cleans_up, registers_provisional, registers,
  requests, fails_start, waits, ends_request, fails_request, rolls_back, fails_viewer,
  begins_release, fails_release, ends_release, ends_grace, begins_stop, ends_stop, terminates,
  reports, begins_call, ends_call, begins_hangup, hangup_replies, ends_hangup, reports_call,
}
use doorfastforha.Monitor.Same.{
  start_failed-Same, acquire_end-Same, acquire_failed-Same, hangup_end-Same, call_end-Same, Same,
  start_begin-Same, recover_stopped-Same, recover_start-Same, acquire_admit-Same, cleanup_end-Same,
  wait_ready-Same, register_rollback-Same, register_failed-Same, release_begin-Same,
  release_failed-Same, release_end-Same, grace_over-Same, stop_begin-Same, start_adopt-Same,
  recover_adopt-Same, stop_end-Same, call_begin-Same, hangup_begin-Same, hangup_reply-Same,
  apply_call_status-Same, conclude-Same,
}

-- What is never taken back.
unfoldable pub Later : MonitorCoordinator → MonitorCoordinator → Type 0
Later m n =
    (m.terminal_epoch ≤ n.terminal_epoch)
    × (m.unloaded ≡ true → n.unloaded ≡ true)
    × (m.next_lease_id ≤ n.next_lease_id)

Same-Later : (m n : MonitorCoordinator) → Same m n → Later m n
unfolding Same Later
Same-Later m n (e, u, i) = (ground arith, λ h. u ∙ h, ground arith)

Later-trans : (a b c : MonitorCoordinator) → Later a b → Later b c → Later a c
unfolding Later
Later-trans a b c (e, u, i) (f, v, j) = (omega arith, λ h. v (u h), omega arith)

Later-refl : (m : MonitorCoordinator) → Later m m
unfolding Later
Later-refl m = (omega arith, λ h. h, omega arith)

begin_terminal-Later : (u : Bool) (m : MonitorCoordinator) → Later m (begin_terminal u m).0
unfolding begin_terminal Later
begin_terminal-Later u m = ground arith

fence-Later : (r : Report) (m : MonitorCoordinator) → Later m (fence r m)
unfolding Later fence
fence-Later r m = ground arith

abbrev Passes : MonitorCoordinator → MonitorCoordinator × Verdict → Type 0
Passes m r = Later m r.0

judge-Later : (t : ℕ) (r : Report) (m : MonitorCoordinator) → Later m (judge t r m).0
judge-Later t r m =
    judge_cases (Passes m) t r m (Later-refl m) (Later-refl m) (λ _ _ _. fence-Later r m)
      λ _ _. Later-trans m _ _ (fence-Later r m) (Same-Later _ _ (conclude-Same t r (fence r m)))

apply_status-Later : (t : ℕ) (v : Value) (m : MonitorCoordinator) → Later m (apply_status t v m).0
apply_status-Later t v m =
    apply_status_cases (Passes m) t v m (Later-refl m) (λ r _. judge-Later t r m)

leased_cases :
    (P : MonitorCoordinator → Type 0) (r : MonitorCoordinator × Answer MonitorLease)
    → P r.0
    → P (leased r).0
leased_cases P (m, returned l) x = x
leased_cases P (m, raised f) x = x

prepend_cases :
    (P : MonitorCoordinator → Type 0) (o : Option MonitorLease)
    (r : MonitorCoordinator × List MonitorLease)
    → P r.0
    → P (prepend o r).0
prepend_cases P none r x = x
prepend_cases P (some l) r x = x

provisional-Later : (g e : ℕ) (m : MonitorCoordinator) → Later m (register_provisional g e m).0
unfolding Later register_provisional hand_out
provisional-Later g e m = ground arith

register_end-Later : (g e : ℕ) (m : MonitorCoordinator) → Later m (register_end g e m).0
unfolding Later register_end hand_out
register_end-Later g e m = ground arith

-- Over a schedule the epoch does not fall, an unload is for good, and the numbers of leases ascend.
pub advance-Later : (m : MonitorCoordinator) (s : Stretch) → Later m (advance m s).0
unfolding advance
advance-Later m (begins_start e t old) = Same-Later m _ (start_begin-Same t e old m)
advance-Later m (adopts_start e p old d) = Same-Later m _ (start_adopt-Same p e old d m)
advance-Later m (leaves_recovered e g) = Same-Later m _ (recover_stopped-Same e g m)
advance-Later m (begins_recovery e old) = Same-Later m _ (recover_start-Same e old m)
advance-Later m (adopts_recovery e p old d) = Same-Later m _ (recover_adopt-Same p e old d m)
advance-Later m (is_admitted e t) = Same-Later m _ (acquire_admit-Same e t m)
advance-Later m (cleans_up e g) = Same-Later m _ (cleanup_end-Same g e m)
advance-Later m (registers_provisional e g) =
    leased_cases (Later m) (register_provisional g e m) (provisional-Later g e m)
advance-Later m (registers e g) =
    leased_cases (Later m) (register_end g e m) (register_end-Later g e m)

pub apply-Later : (m : MonitorCoordinator) (op : Op) → Later m (apply m op).0
unfolding apply
apply-Later m (requests s) = advance-Later m s
apply-Later m fails_start = Same-Later m _ (start_failed-Same m)
apply-Later m (waits g) = Same-Later m _ (wait_ready-Same g m)
apply-Later m (ends_request e t) = Same-Later m _ (acquire_end-Same e t m)
apply-Later m (fails_request e t g) = Same-Later m _ (acquire_failed-Same e t g m)
apply-Later m (rolls_back g) = Same-Later m _ (register_rollback-Same g m)
apply-Later m (fails_viewer g) = Same-Later m _ (register_failed-Same g m)
apply-Later m (begins_release t l) = Same-Later m _ (release_begin-Same t l m)
apply-Later m (fails_release g l) = Same-Later m _ (release_failed-Same g l m)
apply-Later m (ends_release g t) = Same-Later m _ (release_end-Same g t m)
apply-Later m (ends_grace t) = Same-Later m _ (grace_over-Same t m)
apply-Later m (begins_stop t g) = Same-Later m _ (stop_begin-Same t g m)
apply-Later m (ends_stop t g e d) = Same-Later m _ (stop_end-Same t g e d m)
apply-Later m (terminates u) = begin_terminal-Later u m
apply-Later m (reports t v) = apply_status-Later t v m
apply-Later m (begins_call a b c d) = Same-Later m _ (call_begin-Same a b c d m)
apply-Later m (ends_call e r d) = Same-Later m _ (call_end-Same e r d m)
apply-Later m (begins_hangup v d) = Same-Later m _ (hangup_begin-Same v d m)
apply-Later m (hangup_replies e r d) = Same-Later m _ (hangup_reply-Same e r d m)
apply-Later m (ends_hangup c d) = Same-Later m _ (hangup_end-Same c d m)
apply-Later m (reports_call c e d) = Same-Later m _ (apply_call_status-Same c e d m)

pub run-Later : (m : MonitorCoordinator) (ops : List Op) → Later m (run m ops).0
unfolding run
run-Later m [] = Later-refl m
run-Later m (op ∷ ops) =
    prepend_cases (Later m) (apply m op).1 _
      (Later-trans m _ _ (apply-Later m op) (run-Later (apply m op).0 ops))
