-- ===== src/Monitor/Recovery.antt =====
-- custom_components/doorfast/monitor.py, `_recover_generation`: between its stretches the bridge is
-- asked to stop the old generation and to start a new one.
use doorfastforha.Prelude.{
  ℕ, Bool, true, false, ◌||◌, ◌&&◌, not, Option, none, some, if◌then◌else◌, ◌==◌, str_eq, is_some,
}
use doorfastforha.Value.{Fields}
use doorfastforha.Monitor.{
  MonitorCoordinator, Answer, returned, raised, terminated, value_error, holds, is_over,
  viewer_count, response_generation, clear,
}
use doorfastforha.Monitor.Lifecycle.{
  Adoption, adopted, follow_generation, own, is_known, adopt, refuse,
}

pub data Recovery : Type 0 where
  follows : ℕ → Recovery
  stops : ℕ → Recovery
  restarts : Recovery

-- A shared publication is not restarted.
abbrev pub is_established : MonitorCoordinator → Bool
is_established m =
    elim m.publisher_running [ some true ↦ true | _ ↦ false ] || not (viewer_count m == 0)

abbrev pub recover_from : ℕ → ℕ → MonitorCoordinator → Recovery
recover_from old g m = if is_established m then follows g else elim (follow_generation m old) [
  | some h ↦ follows h
  | none ↦ if g == old && str_eq m.state "stopping" then stops g else restarts
]

unfoldable pub recover_begin : ℕ → ℕ → MonitorCoordinator → Answer Recovery
recover_begin request_epoch old m =
    if is_over request_epoch m
    then raised terminated
    else elim m.generation [ none ↦ returned restarts | some g ↦ returned (recover_from old g m) ]

-- Behind the stop of the old generation.
unfoldable pub recover_stopped : ℕ → ℕ → MonitorCoordinator → MonitorCoordinator × Answer (Unit {0})
recover_stopped request_epoch stopping m =
    if is_over request_epoch m
    then (m, raised terminated)
    else if holds m.generation stopping
    then (clear m, returned tt)
    else (m, returned tt)

-- A generation to follow, or None when a start is sent.
unfoldable pub recover_start : ℕ → ℕ → MonitorCoordinator → MonitorCoordinator × Answer (Option ℕ)
recover_start request_epoch old m =
    if is_over request_epoch m then (m, raised terminated) else elim (follow_generation m old) [
      | none ↦ (record m { start_inflight = true }, returned none)
      | some g ↦ (m, returned (some g))
    ]

-- The conditions under which a recovery takes the response over.
abbrev pub recover_takes : ℕ → ℕ → MonitorCoordinator → Bool
recover_takes old accepted m =
    (not (is_some m.generation) && not (holds m.recoverable_generation accepted))
    || holds m.generation old

unfoldable pub recover_settle :
    Bool → ℕ → ℕ → ℕ → Fields → MonitorCoordinator → MonitorCoordinator × Answer Adoption
recover_settle pending_acquire request_epoch old accepted response m =
    if is_over request_epoch m || not (recover_takes old accepted m)
    then refuse request_epoch accepted m
    else if is_known response accepted m
    then (own pending_acquire request_epoch accepted m, returned (adopted accepted))
    else adopt pending_acquire request_epoch accepted response m

unfoldable pub recover_adopt :
    Bool → ℕ → ℕ → Fields → MonitorCoordinator → MonitorCoordinator × Answer Adoption
recover_adopt pending_acquire request_epoch old response m = elim (response_generation response) [
  | none ↦ (m, raised value_error)
  | some accepted ↦
      recover_settle pending_acquire request_epoch old accepted response
        (record m { start_inflight = false })
]
