-- ===== src/Monitor/Settled/Runs.antt =====
-- custom_components/doorfast/monitor.py: the fields of a generation stay in order over any schedule.
use doorfastforha.Prelude.{
  ℕ, ◌≡◌, refl, String, Bool, true, false, List, [], ◌∷◌, Option, none, some, arith, Option-cases,
  inl, inr, contains, string_eq,
}
use doorfastforha.Value.{Value, Fields}
use doorfastforha.SessionDiagnostics.{Operation}
use doorfastforha.Monitor.{
  MonitorCoordinator, MonitorLease, set_response, cancel_grace, create, idle_states, or_else,
}
use doorfastforha.Monitor.Status.Cases.{apply_status_cases, judge_cases, conclude_cases}
use doorfastforha.Monitor.Status.{Report, Verdict, finish, take_response, conclude, fence, judge}
use doorfastforha.Monitor.Call.{
  Reply, Conditions, call_begin, call_end, call_settle, hangup_begin, hangup_reply, hangup_end,
  begin_call_request,
}
use doorfastforha.Monitor.CallStatus.{
  show_native, apply_call_status_cases, apply_call_status, take_call_status, follow_operation,
  follow_native, follow_accepted,
}
use doorfastforha.Monitor.Schedule.{
  Stretch, advance, prepend, Op, apply, run, begins_start, adopts_start, leaves_recovered,
  begins_recovery, adopts_recovery, is_admitted, cleans_up, registers_provisional, registers,
  requests, fails_start, waits, ends_request, fails_request, rolls_back, fails_viewer,
  begins_release, fails_release, ends_release, ends_grace, begins_stop, ends_stop, terminates,
  reports, begins_call, ends_call, begins_hangup, hangup_replies, ends_hangup, reports_call,
}
use doorfastforha.Monitor.Settled.{
  is_settled, Settled, start_begin-Settled, start_adopt-Settled, recover_stopped-Settled,
  recover_start-Settled, recover_adopt-Settled, acquire_admit-Settled, cleanup_end-Settled,
  register_provisional-Settled, register_end-Settled, wait_ready-Settled, register_rollback-Settled,
  register_failed-Settled, release_begin-Settled, release_failed-Settled, release_end-Settled,
  grace_over-Settled, stop_begin-Settled, stop_end-Settled, begin_terminal-Settled,
  start_failed-Settled, acquire_end-Settled, acquire_failed-Settled, set_response-Settled,
}

finish-Settled :
    (t : ℕ) (o : Option ℕ) (s : String) (n : ℕ) (m : MonitorCoordinator)
    → contains s idle_states ≡ true
    → Settled (finish t o s n m).0
unfolding finish is_settled cancel_grace
finish-Settled t o s n m h = ground arith

take_response-Settled :
    (d : Fields) (m : MonitorCoordinator) → Settled m → Settled (take_response d m).0
unfolding take_response
take_response-Settled d m i = elim (Option-cases (set_response false d m)) [
  | inl bad ↦ ground arith
  | inr (n, good) ↦ let k = set_response-Settled false d m n good in ground arith
]

fence-Settled : (r : Report) (m : MonitorCoordinator) → Settled m → Settled (fence r m)
unfolding fence is_settled
fence-Settled r m i = ground arith

-- The verdict apart.
abbrev Judged : MonitorCoordinator × Verdict → Type 0
Judged r = Settled r.0

conclude-Settled :
    (t : ℕ) (r : Report) (m : MonitorCoordinator) → Settled m → Settled (conclude t r m).0
conclude-Settled t r m i =
    conclude_cases Judged t r m i (λ o s h. finish-Settled t o s _ m h)
      (take_response-Settled r.merged m i)

judge-Settled : (t : ℕ) (r : Report) (m : MonitorCoordinator) → Settled m → Settled (judge t r m).0
judge-Settled t r m i =
    let k = fence-Settled r m i in
    judge_cases Judged t r m i i (λ _ _ _. k) (λ _ _. conclude-Settled t r (fence r m) k)

-- The fields of the call are others.
call_begin-Settled :
    (a b c : Value) (d : Fields) (m : MonitorCoordinator)
    → Settled m
    → Settled (call_begin a b c d m).0
unfolding is_settled call_begin begin_call_request
call_begin-Settled a b c d m i = ground arith

call_end-Settled :
    (e : ℕ) (r : Reply) (d : Fields) (m : MonitorCoordinator)
    → Settled m
    → Settled (call_end e r d m).0
unfolding is_settled call_end call_settle
call_end-Settled e r d m i = ground arith

hangup_begin-Settled :
    (v : Value) (d : Fields) (m : MonitorCoordinator) → Settled m → Settled (hangup_begin v d m).0
unfolding is_settled hangup_begin begin_call_request
hangup_begin-Settled v d m i = ground arith

hangup_reply-Settled :
    (e : ℕ) (r : Reply) (d : Fields) (m : MonitorCoordinator)
    → Settled m
    → Settled (hangup_reply e r d m).0
unfolding is_settled hangup_reply
hangup_reply-Settled e r d m i = ground arith

hangup_end-Settled :
    (c : Conditions) (d : Fields) (m : MonitorCoordinator) → Settled m → Settled (hangup_end c d m)
unfolding is_settled hangup_end
hangup_end-Settled c d m i = i

follow_operation-Settled :
    (t o : Option Operation) (b : Bool) (m : MonitorCoordinator)
    → Settled m
    → Settled (follow_operation t o b m)
unfolding is_settled follow_operation
follow_operation-Settled none o b m i = ground arith
follow_operation-Settled (some t) o b m i = i

show_native-Settled :
    (a b c : Bool) (g : ℕ) (t : String) (m : MonitorCoordinator)
    → Settled m
    → Settled (show_native a b c g t m)
unfolding is_settled show_native
show_native-Settled true b c g t m i = i
show_native-Settled false true c g t m i = i
show_native-Settled false false true g t m i = i
show_native-Settled false false false g t m i = i

follow_native-Settled :
    (t : Option Operation) (b : Bool) (d : Fields) (m : MonitorCoordinator)
    → Settled m
    → Settled (follow_native t b d m)
unfolding follow_native
follow_native-Settled t b d m i = show_native-Settled b _ _ _ _ m i

follow_accepted-Settled :
    (t : Option Operation) (m : MonitorCoordinator) → Settled m → Settled (follow_accepted t m)
unfolding is_settled follow_accepted
follow_accepted-Settled t m i = ground arith

take_call_status-Settled :
    (o : Option Operation) (d : Fields) (m : MonitorCoordinator)
    → Settled m
    → Settled (take_call_status o d m)
unfolding take_call_status
take_call_status-Settled o d m i =
    follow_accepted-Settled _ _ (follow_native-Settled _ _ _ _ (follow_operation-Settled _ o _ m i))

apply_call_status-Settled :
    (c : Fields) (e : Option ℕ) (d : Fields) (m : MonitorCoordinator)
    → Settled m
    → Settled (or_else (apply_call_status c e d m) m)
apply_call_status-Settled c e d m i =
    apply_call_status_cases (λ o. Settled (or_else o m)) c e d m i i
      (λ _ _. take_call_status-Settled _ d m i)

prepend_cases :
    (o : Option MonitorLease) (r : MonitorCoordinator × List MonitorLease)
    → Settled r.0
    → Settled (prepend o r).0
prepend_cases none r x = x
prepend_cases (some l) r x = x

advance-Settled : (m : MonitorCoordinator) (s : Stretch) → Settled m → Settled (advance m s).0
unfolding advance
advance-Settled m (begins_start e t old) i = start_begin-Settled t e old m i
advance-Settled m (adopts_start e p old d) i = start_adopt-Settled p e old d m i
advance-Settled m (leaves_recovered e g) i = recover_stopped-Settled e g m i
advance-Settled m (begins_recovery e old) i = recover_start-Settled e old m i
advance-Settled m (adopts_recovery e p old d) i = recover_adopt-Settled p e old d m i
advance-Settled m (is_admitted e t) i = acquire_admit-Settled e t m i
advance-Settled m (cleans_up e g) i = cleanup_end-Settled g e m i
advance-Settled m (registers_provisional e g) i = register_provisional-Settled g e m i
advance-Settled m (registers e g) i = register_end-Settled g e m i

apply-Settled : (m : MonitorCoordinator) (op : Op) → Settled m → Settled (apply m op).0
unfolding apply
apply-Settled m (requests s) i = advance-Settled m s i
apply-Settled m fails_start i = start_failed-Settled m i
apply-Settled m (waits g) i = wait_ready-Settled g m i
apply-Settled m (ends_request e t) i = acquire_end-Settled e t m i
apply-Settled m (fails_request e t g) i = acquire_failed-Settled e t g m i
apply-Settled m (rolls_back g) i = register_rollback-Settled g m i
apply-Settled m (fails_viewer g) i = register_failed-Settled g m i
apply-Settled m (begins_release t l) i = release_begin-Settled t l m i
apply-Settled m (fails_release g l) i = release_failed-Settled g l m i
apply-Settled m (ends_release g t) i = release_end-Settled g t m i
apply-Settled m (ends_grace t) i = grace_over-Settled t m i
apply-Settled m (begins_stop t g) i = stop_begin-Settled t g m i
apply-Settled m (ends_stop t g e d) i = stop_end-Settled t g e d m i
apply-Settled m (terminates u) i = begin_terminal-Settled u m i
apply-Settled m (reports t v) i = apply_status_cases Judged t v m i (λ r _. judge-Settled t r m i)
apply-Settled m (begins_call a b c d) i = call_begin-Settled a b c d m i
apply-Settled m (ends_call e r d) i = call_end-Settled e r d m i
apply-Settled m (begins_hangup v d) i = hangup_begin-Settled v d m i
apply-Settled m (hangup_replies e r d) i = hangup_reply-Settled e r d m i
apply-Settled m (ends_hangup c d) i = hangup_end-Settled c d m i
apply-Settled m (reports_call c e d) i = apply_call_status-Settled c e d m i

run-Settled_from : (m : MonitorCoordinator) (ops : List Op) → Settled m → Settled (run m ops).0
unfolding run
run-Settled_from m [] i = i
run-Settled_from m (op ∷ ops) i =
    prepend_cases (apply m op).1 _ (run-Settled_from (apply m op).0 ops (apply-Settled m op i))

-- Over any interleaving of stretches of a new coordinator, without a generation it is not ready, no
-- publisher is known of and the state is an idle one; a generation is positive, and while a generation
-- is held, the one that can be recovered is the same, and it is stopping.
pub run-Settled :
    (runtime station : String) (epoch : ℕ) (ops : List Op)
    → is_settled (run (create runtime station epoch) ops).0 ≡ true
unfolding create is_settled
run-Settled runtime station epoch ops = run-Settled_from (create runtime station epoch) ops refl
