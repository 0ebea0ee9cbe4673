-- ===== src/Monitor/Leases.antt =====
-- custom_components/doorfast/monitor.py: the numbers under which leases are handed out.
use doorfastforha.Prelude.{ℕ, ◌≤◌, ◌<◌, List, [], ◌∷◌, Option, none, some, arith}
use doorfastforha.Monitor.{MonitorCoordinator, MonitorLease}
use doorfastforha.Monitor.Register.{register_provisional, register_end, hand_out}
use doorfastforha.Monitor.Schedule.{
  Stretch, advance, leased, prepend, Op, apply, run, begins_start, adopts_start, leaves_recovered,
  begins_recovery, adopts_recovery, is_admitted, cleans_up, registers_provisional, registers,
  requests, fails_start, waits, ends_request, fails_request, rolls_back, fails_viewer,
  begins_release, fails_release, ends_release, ends_grace, begins_stop, ends_stop, terminates,
  reports, begins_call, ends_call, begins_hangup, hangup_replies, ends_hangup, reports_call,
}
use doorfastforha.Monitor.Later.{Later, apply-Later, advance-Later}

-- The numbers of the leases ascend strictly, from above `n`.
abbrev pub Ascends : ℕ → List MonitorLease → Type 0
Ascends n [] = Unit {0}
Ascends n (l ∷ ls) = (n < l.lease_id) × Ascends l.lease_id ls

Ascends-weaken : (a b : ℕ) (ls : List MonitorLease) → a ≤ b → Ascends b ls → Ascends a ls
Ascends-weaken a b [] h x = tt
Ascends-weaken a b (l ∷ ls) h x = (omega (arith, x.0), x.1)

-- A lease that is handed out has a number that no lease had before.
abbrev Numbered : MonitorCoordinator → MonitorCoordinator × Option MonitorLease → Type 0
Numbered m (n, none) = m.next_lease_id ≤ n.next_lease_id
Numbered m (n, some l) = (m.next_lease_id < l.lease_id) × (l.lease_id ≤ n.next_lease_id)

provisional-Numbered :
    (g e : ℕ) (m : MonitorCoordinator) → Numbered m (leased (register_provisional g e m))
unfolding register_provisional hand_out
provisional-Numbered g e m = ground arith

register_end-Numbered :
    (g e : ℕ) (m : MonitorCoordinator) → Numbered m (leased (register_end g e m))
unfolding register_end hand_out
register_end-Numbered g e m = ground arith

advance-Numbered : (m : MonitorCoordinator) (s : Stretch) → Numbered m (advance m s)
unfolding advance Later
advance-Numbered m (begins_start e t old) = (advance-Later m (begins_start e t old)).2
advance-Numbered m (adopts_start e p old d) = (advance-Later m (adopts_start e p old d)).2
advance-Numbered m (leaves_recovered e g) = (advance-Later m (leaves_recovered e g)).2
advance-Numbered m (begins_recovery e old) = (advance-Later m (begins_recovery e old)).2
advance-Numbered m (adopts_recovery e p old d) = (advance-Later m (adopts_recovery e p old d)).2
advance-Numbered m (is_admitted e t) = (advance-Later m (is_admitted e t)).2
advance-Numbered m (cleans_up e g) = (advance-Later m (cleans_up e g)).2
advance-Numbered m (registers_provisional e g) = provisional-Numbered g e m
advance-Numbered m (registers e g) = register_end-Numbered g e m

apply-Numbered : (m : MonitorCoordinator) (op : Op) → Numbered m (apply m op)
unfolding apply Later
apply-Numbered m (requests s) = advance-Numbered m s
apply-Numbered m fails_start = (apply-Later m fails_start).2
apply-Numbered m (waits g) = (apply-Later m (waits g)).2
apply-Numbered m (ends_request e t) = (apply-Later m (ends_request e t)).2
apply-Numbered m (fails_request e t g) = (apply-Later m (fails_request e t g)).2
apply-Numbered m (rolls_back g) = (apply-Later m (rolls_back g)).2
apply-Numbered m (fails_viewer g) = (apply-Later m (fails_viewer g)).2
apply-Numbered m (begins_release t l) = (apply-Later m (begins_release t l)).2
apply-Numbered m (fails_release g l) = (apply-Later m (fails_release g l)).2
apply-Numbered m (ends_release g t) = (apply-Later m (ends_release g t)).2
apply-Numbered m (ends_grace t) = (apply-Later m (ends_grace t)).2
apply-Numbered m (begins_stop t g) = (apply-Later m (begins_stop t g)).2
apply-Numbered m (ends_stop t g e d) = (apply-Later m (ends_stop t g e d)).2
apply-Numbered m (terminates u) = (apply-Later m (terminates u)).2
apply-Numbered m (reports t v) = (apply-Later m (reports t v)).2
apply-Numbered m (begins_call a b c d) = (apply-Later m (begins_call a b c d)).2
apply-Numbered m (ends_call e r d) = (apply-Later m (ends_call e r d)).2
apply-Numbered m (begins_hangup v d) = (apply-Later m (begins_hangup v d)).2
apply-Numbered m (hangup_replies e r d) = (apply-Later m (hangup_replies e r d)).2
apply-Numbered m (ends_hangup c d) = (apply-Later m (ends_hangup c d)).2
apply-Numbered m (reports_call c e d) = (apply-Later m (reports_call c e d)).2

-- Over any interleaving of stretches, the leases that are handed out have strictly ascending numbers,
-- above those handed out before.
pub run-Ascends : (m : MonitorCoordinator) (ops : List Op) → Ascends m.next_lease_id (run m ops).1
unfolding run
run-Ascends m [] = tt
run-Ascends m (op ∷ ops) =
    prepend-Ascends (apply m op) (apply-Numbered m op) (λ n. run-Ascends n ops)
  where
    prepend-Ascends :
        (r : MonitorCoordinator × Option MonitorLease)
        → Numbered m r
        → ((n : MonitorCoordinator) → Ascends n.next_lease_id (run n ops).1)
        → Ascends m.next_lease_id (prepend r.1 (run r.0 ops)).1
    prepend-Ascends (n, none) le rest = Ascends-weaken _ _ _ le (rest n)
    prepend-Ascends (n, some l) (lt, le) rest = (lt, Ascends-weaken _ _ _ le (rest n))
