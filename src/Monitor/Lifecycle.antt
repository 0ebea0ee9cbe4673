-- ===== src/Monitor/Lifecycle.antt =====
-- custom_components/doorfast/monitor.py: `async_start`, `_start_generation` and the reading of the
-- reply of a stop. A start awaits the bridge between `start_begin` and `start_adopt`; if it fails,
-- `start_failed` runs instead.
use doorfastforha.Prelude.{
  ℕ, Bool, true, false, ◌||◌, ◌&&◌, not, Option, none, some, if◌then◌else◌, ltb, leb, contains,
  string_eq, str_eq, is_some, pos, negsuc,
}
use doorfastforha.Value.{Value, null, int, dict, Fields}
use doorfastforha.Monitor.{
  MonitorCoordinator, Answer, returned, raised, terminated, value_error, holds, is_over,
  idle_states, response_generation, get_or, set_response, cancel_grace,
}

-- What an exchange with the bridge gives: a reply, or an error with its `status`.
pub data Exchange : Type 0 where
  replied : Value → Exchange
  failed : Option ℕ → Exchange

-- `_stop_remote`: a dictionary, None, or an exception, which is `none`.
unfoldable pub stop_remote : Exchange → Option (Option Fields)
stop_remote (replied null) = some none
stop_remote (replied (dict d)) = some (some d)
stop_remote (replied v) = none
stop_remote (failed status) = if holds status 409 then some none else none

-- The first stretch of `async_start`: the active generation, or the epoch and the generation with
-- which `_start_generation` is called.
pub data Begun : Type 0 where
  active : ℕ → Begun
  starts : ℕ → ℕ → Begun

unfoldable pub start : MonitorCoordinator → Begun
start m = elim m.generation [
  | none ↦ starts m.terminal_epoch 0
  | some g ↦ if contains m.state idle_states then starts m.terminal_epoch g else active g
]

-- `follow_generation`.
abbrev pub follow_generation : MonitorCoordinator → ℕ → Option ℕ
follow_generation m old = elim m.generation [
  | none ↦ none
  | some g ↦ if ltb old g then some g else none
]

-- A generation to follow, or None when a start is sent.
unfoldable pub start_begin : ℕ → ℕ → ℕ → MonitorCoordinator → MonitorCoordinator × Answer (Option ℕ)
start_begin task request_epoch old m =
    if is_over request_epoch m then (m, raised terminated) else elim (follow_generation m old) [
      | none ↦ (record (cancel_grace task m) { start_inflight = true }, returned none)
      | some g ↦ (m, returned (some g))
    ]

unfoldable pub start_failed : MonitorCoordinator → MonitorCoordinator
start_failed m = record m { start_inflight = false }

-- What becomes of an accepted generation: the request returns one, or stops the accepted one.
pub data Adoption : Type 0 where
  adopted : ℕ → Adoption
  discarded : ℕ → Adoption

abbrev pub own : Bool → ℕ → ℕ → MonitorCoordinator → MonitorCoordinator
own pending_acquire request_epoch g m =
    if pending_acquire then record m { pending_owned_generation = some (request_epoch, g) } else m

-- An int that is at most the revision.
abbrev pub is_at_most : Value → ℕ → Bool
is_at_most (int (pos n)) revision = leb n revision
is_at_most (int (negsuc n)) revision = true
is_at_most v revision = false

-- The reply tells of the current generation what is known already.
abbrev pub is_known : Fields → ℕ → MonitorCoordinator → Bool
is_known response accepted m =
    holds m.generation accepted
    && (ltb 0 m.status_revision
        && is_at_most (get_or response "status_revision" (int (pos 0))) m.status_revision)

-- `_set_response_locked`, and the request owns what it adopts.
abbrev pub adopt : Bool → ℕ → ℕ → Fields → MonitorCoordinator → MonitorCoordinator × Answer Adoption
adopt pending_acquire request_epoch accepted response m = elim (set_response true response m) [
  | none ↦ (m, raised value_error)
  | some n ↦ (own pending_acquire request_epoch accepted n, returned (adopted accepted))
]

-- The response is not adopted: the current generation stands, or the accepted one is stopped.
abbrev pub refuse : ℕ → ℕ → MonitorCoordinator → MonitorCoordinator × Answer Adoption
refuse request_epoch accepted m = elim m.generation [
  | none ↦ (m, returned (discarded accepted))
  | some g ↦ (m, returned (if is_over request_epoch m then discarded accepted else adopted g))
]

-- The conditions under which a start takes the response over.
abbrev pub start_takes : ℕ → ℕ → MonitorCoordinator → Bool
start_takes old accepted m =
    (not (is_some m.generation) && not (holds m.recoverable_generation accepted))
    || (holds m.generation old || holds m.generation accepted)

unfoldable pub start_settle :
    Bool → ℕ → ℕ → ℕ → Fields → MonitorCoordinator → MonitorCoordinator × Answer Adoption
start_settle pending_acquire request_epoch old accepted response m =
    if is_over request_epoch m || not (start_takes old accepted m)
    then refuse request_epoch accepted m
    else if (holds m.generation accepted && str_eq m.state "stopping")
        || ((not (is_some m.generation) && holds m.recoverable_generation accepted)
            || is_known response accepted m)
    then (own pending_acquire request_epoch accepted m, returned (adopted accepted))
    else adopt pending_acquire request_epoch accepted response m

-- A reply with no generation raises before the flag of the start is taken back.
unfoldable pub start_adopt :
    Bool → ℕ → ℕ → Fields → MonitorCoordinator → MonitorCoordinator × Answer Adoption
start_adopt pending_acquire request_epoch old response m = elim (response_generation response) [
  | none ↦ (m, raised value_error)
  | some accepted ↦
      start_settle pending_acquire request_epoch old accepted response
        (record m { start_inflight = false })
]
