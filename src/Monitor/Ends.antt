-- ===== src/Monitor/Ends.antt =====
-- custom_components/doorfast/monitor.py: what a terminal report ends.
use doorfastforha.Prelude.{
  ℕ, ◌+◌, ◌≡◌, ◌∙◌, ap, String, true, false, List, [], Option, none, some, arith,
}
use doorfastforha.Value.{Value}
use doorfastforha.Monitor.{MonitorCoordinator, MonitorLease, lease_owned, cancel_grace}
use doorfastforha.Monitor.Status.{
  Report, Verdict, applied, read_report, finish, fence, judge, apply_status, is_old, is_other,
  is_hashable, is_terminal, terminal_target,
}
use doorfastforha.Monitor.Status.Cases.{conclude-terminal}
use doorfastforha.Monitor.Reports.{fence-is_old, fence-is_other, apply_status-read}
use doorfastforha.Monitor.Schedule.{Op, run}
use doorfastforha.Monitor.Later.{Later, run-Later}
use doorfastforha.Monitor.Fence.{lease_owned-epoch, lease_owned-Past}

-- The report was applied and has ended the generation, its viewers and its epoch.
pub Ended : MonitorCoordinator → MonitorCoordinator × Verdict → Type 0
Ended m (n, v) =
    (v ≡ applied)
    × (n.generation ≡ none)
    × (n.leases ≡ [])
    × (n.ready ≡ false)
    × (n.terminal_epoch ≡ m.terminal_epoch + 1)

terminal_target-is_terminal :
    (r : Report) (m : MonitorCoordinator) (g : ℕ)
    → terminal_target r m ≡ some g
    → is_terminal r ≡ true
unfolding terminal_target
terminal_target-is_terminal r m g h = ground arith

fence-terminal_epoch :
    (r : Report) (m : MonitorCoordinator) (g : ℕ)
    → terminal_target r m ≡ some g
    → is_old r m ≡ false
    → (fence r m).terminal_epoch ≡ m.terminal_epoch + 1
unfolding fence is_old
fence-terminal_epoch r m g h newer = ground arith

finish-Ended :
    (t : ℕ) (o : Option ℕ) (s : String) (k : ℕ) (m n : MonitorCoordinator)
    → n.terminal_epoch ≡ m.terminal_epoch + 1
    → Ended m (finish t o s k n)
unfolding Ended finish cancel_grace
finish-Ended t o s k m n h = ground arith

judge-Ended :
    (t : ℕ) (r : Report) (m : MonitorCoordinator) (g : ℕ)
    → is_old r m ≡ false
    → is_other r m ≡ false
    → is_hashable r.event ≡ true
    → terminal_target r m ≡ some g
    → Ended m (judge t r m)
unfolding judge
judge-Ended t r m g newer own readable target =
    rw (judge, fence-is_old r m, newer, own, readable)
      (conclude-terminal (Ended m) t r (fence r m) (terminal_target-is_terminal r m g target)
        (fence-is_other r m own)
        (λ o s.
          finish-Ended t o s r.revision m (fence r m) (fence-terminal_epoch r m g target newer)))

-- A report that a preemption or a failure has ended the known generation, or that of a start in
-- flight, if it is not an old one, leaves no generation, no lease and no readiness; and no
-- interleaving of stretches makes a lease that was owned before owned again.
pub apply_status-Ended :
    (t : ℕ) (v : Value) (m : MonitorCoordinator) (r : Report) (g : ℕ)
    → read_report v m ≡ some r
    → is_old r m ≡ false
    → is_other r m ≡ false
    → is_hashable r.event ≡ true
    → terminal_target r m ≡ some g
    → Ended m (apply_status t v m)
      × ((ops : List Op) (l : MonitorLease)
          → lease_owned m l ≡ true
          → lease_owned (run (apply_status t v m).0 ops).0 l ≡ false)
unfolding Later Ended
apply_status-Ended t v m r g read newer own readable target =
    let same = apply_status-read t v m r read in
    let ended = judge-Ended t r m g newer own readable target in
    let n = (apply_status t v m).0 in
    let up : n.terminal_epoch ≡ m.terminal_epoch + 1 =
      ap (λ o. o.0.terminal_epoch) same ∙ ended.4 in
    (
      rw same ended,
      λ ops l owned.
          let (_, epoch) = lease_owned-epoch m l owned in
          let (le, _, _) = run-Later n ops in lease_owned-Past (run n ops).0 l (omega arith),
    )
