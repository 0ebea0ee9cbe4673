-- ===== src/Monitor/Register.antt =====
-- custom_components/doorfast/monitor.py, `_register_provisional_lease` and `_register_lease`. A lease
-- of the first viewer is registered after the bridge has switched the viewer edge on.
use doorfastforha.Prelude.{
  ℕ, ◌+◌, Bool, true, false, ◌||◌, not, none, if◌then◌else◌, ◌==◌, string_eq, nat_eq, insert,
}
use doorfastforha.Monitor.{
  MonitorCoordinator, MonitorLease, Answer, returned, raised, terminated, retry_acquire, holds,
  is_over, is_down, viewer_count, clear,
}
use doorfastforha.Monitor.Acquire.{owns}

-- A lease of the current epoch under the next number; the request owns no generation any more.
unfoldable pub hand_out :
    Bool → ℕ → ℕ → MonitorCoordinator → MonitorCoordinator × Answer MonitorLease
hand_out edge g request_epoch m =
    let lease : MonitorLease = record {
      generation = g;
      lease_id = m.next_lease_id + 1;
      epoch = m.terminal_epoch;
      viewer_edge_enabled = edge;
    } in
    (
      record m {
        next_lease_id = m.next_lease_id + 1;
        leases = insert (m.next_lease_id + 1) lease m.leases;
        pending_owned_generation =
            if owns m request_epoch g then none else m.pending_owned_generation;
      },
      returned lease,
    )

unfoldable pub register_provisional :
    ℕ → ℕ → MonitorCoordinator → MonitorCoordinator × Answer MonitorLease
register_provisional g request_epoch m =
    if is_over request_epoch m || (not (holds m.generation g) || is_down m.state)
    then (m, raised retry_acquire)
    else hand_out false g request_epoch m

-- The generation cannot take a viewer with the edge.
abbrev pub is_unready : ℕ → MonitorCoordinator → Bool
is_unready g m = not (holds m.generation g) || (not m.ready || is_down m.state)

-- Whether the viewer edge has to be switched on.
unfoldable pub register_begin : ℕ → ℕ → MonitorCoordinator → Answer Bool
register_begin g request_epoch m =
    if is_over request_epoch m
    then raised terminated
    else if is_unready g m
    then raised retry_acquire
    else returned (viewer_count m == 0)

-- The end of `rollback_viewer_edge`.
unfoldable pub register_rollback : ℕ → MonitorCoordinator → MonitorCoordinator
register_rollback g m =
    if holds m.generation g then record (clear m) { recoverable_generation = none } else m

-- The viewer edge was refused and the generation was stopped.
unfoldable pub register_failed : ℕ → MonitorCoordinator → MonitorCoordinator
register_failed g m = if holds m.generation g then clear m else m

unfoldable pub register_valid : ℕ → ℕ → MonitorCoordinator → Bool
register_valid g request_epoch m = not (is_over request_epoch m || is_unready g m)

-- What a request that was not valid raises behind the rollback.
unfoldable pub register_refused : ℕ → MonitorCoordinator → Answer MonitorLease
register_refused request_epoch m =
    raised (if is_over request_epoch m then terminated else retry_acquire)

unfoldable pub register_end : ℕ → ℕ → MonitorCoordinator → MonitorCoordinator × Answer MonitorLease
register_end g request_epoch m =
    if is_over request_epoch m || is_unready g m
    then (m, raised retry_acquire)
    else hand_out true g request_epoch m
