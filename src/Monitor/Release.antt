-- ===== src/Monitor/Release.antt =====
-- custom_components/doorfast/monitor.py: `async_release_viewer`, the grace period and
-- `_stop_generation`. The last release awaits the bridge between `release_begin` and `release_end`.
use doorfastforha.Prelude.{
  ℕ, Bool, true, false, ◌||◌, ◌&&◌, not, Option, none, some, if◌then◌else◌, ◌==◌, nat_eq, lookup,
  insert, delete, is_some,
}
use doorfastforha.Value.{Fields}
use doorfastforha.Monitor.{
  MonitorCoordinator, MonitorLease, same_lease, holds, viewer_count, set_response, cancel_grace,
  clear,
}

-- The generation whose last viewer is gone, if it is; the viewer edge is switched off if the lease
-- has switched it on.
unfoldable pub release_begin : ℕ → MonitorLease → MonitorCoordinator → MonitorCoordinator × Option ℕ
release_begin task lease m =
    let n = record m { leases = delete lease.lease_id m.leases } in
    if not (elim (lookup lease.lease_id m.leases) [ none ↦ false | some k ↦ same_lease k lease ])
    then (m, none)
    else elim m.generation [
      | none ↦ (n, none)
      | some g ↦
          if not (viewer_count n == 0) || not (lease.generation == g)
          then (n, none)
          else (cancel_grace task n, some g)
    ]

-- The bridge did not switch the viewer edge off.
unfoldable pub release_failed : ℕ → MonitorLease → MonitorCoordinator → MonitorCoordinator
release_failed g lease m =
    if holds m.generation g then record m { leases = insert lease.lease_id lease m.leases } else m

-- The grace period begins, as a new task.
unfoldable pub release_end : ℕ → ℕ → MonitorCoordinator → MonitorCoordinator
release_end g new_task m =
    if not (holds m.generation g) || not (viewer_count m == 0)
    then m
    else record m { stop_task = some new_task }

-- `finally` of `_stop_after_grace`.
unfoldable pub grace_over : ℕ → MonitorCoordinator → MonitorCoordinator
grace_over task m = if holds m.stop_task task then record m { stop_task = none } else m

-- The generation that is stopped on the bridge, with the epoch.
unfoldable pub stop_begin : ℕ → Option ℕ → MonitorCoordinator → MonitorCoordinator × Option (ℕ × ℕ)
stop_begin task asked m = elim m.generation [
  | none ↦ (clear m, none)
  | some g ↦
      if is_some asked && not (holds asked g)
      then (m, none)
      else (cancel_grace task m, some (g, m.terminal_epoch))
]

-- Behind the stop, whose reply is None if it raised; whether this stretch raises.
unfoldable pub stop_end :
    Bool → ℕ → ℕ → Option Fields → MonitorCoordinator → MonitorCoordinator × Bool
stop_end terminal active stop_epoch reply m =
    if not (holds m.generation active) then (m, false) else elim reply [
      | none ↦ (clear m, false)
      | some d ↦
          if not terminal && stop_epoch == m.terminal_epoch
          then elim (set_response true d m) [ none ↦ (m, true) | some n ↦ (clear n, false) ]
          else (clear m, false)
    ]
