-- ===== src/Monitor/Status.antt =====
-- custom_components/doorfast/monitor.py, `async_apply_status`. Nothing is awaited in it while the
-- lock is free, and the lock is held across no await, so it is one stretch in two parts: the part
-- before the lock already fences the requests that a terminal report ends.
pub mod Cases
use doorfastforha.Prelude.{
  ℕ, ◌+◌, String, Bool, true, false, ◌||◌, ◌&&◌, not, List, [], ◌∷◌, Option, none, some,
  if◌then◌else◌, ltb, leb, any, string_eq, ◌>>=◌, ◌>>◌, guard, is_some, pos,
}
use doorfastforha.Value.{
  Value, int, list, dict, Fields, get, has, put, as_dict, as_nat, is_text, positive,
}
use doorfastforha.Monitor.{
  MonitorCoordinator, idle_states, known_generation, names_no_other, validate_identity, get_or,
  set_response, cancel_grace, clear,
}

pub data Verdict : Type 0 where
  applied : Verdict
  ignored : Verdict
  rejected : Verdict

-- `if name in payload: merged[name] = payload[name]`.
abbrev pub overlay : String → Fields → Fields → Fields
overlay k payload merged = if has payload k then put k (get payload k) merged else merged

unfoldable pub merge : Fields → Fields
merge payload =
    let merged : Fields = elim (as_dict (get payload "status")) [
      | none ↦ payload
      | some s ↦ overlay "status_revision" payload (overlay "generation" payload s)
    ] in
    overlay "station_id" payload (overlay "runtime_id" payload merged)

-- `v in {...}` with texts: a list or a dictionary raises.
abbrev pub is_one_of : List String → Value → Bool
is_one_of texts v = any (λ t. is_text v t) texts

abbrev pub is_hashable : Value → Bool
is_hashable (list _) = false
is_hashable (dict _) = false
is_hashable v = true

-- The report as read, with the revision before the lock.
pub record Report : Type 0 where
  pub merged : Fields
  pub event : Value
  pub revision : ℕ

-- `generation in (None, 0)`.
abbrev pub is_absent : Value → Bool
is_absent v = names_no_other v none

abbrev pub has_revision : Report → Bool
has_revision r = has r.merged "status_revision"

-- The checks that need no more of the state than its identity and its revision.
unfoldable pub read_report : Value → MonitorCoordinator → Option Report
read_report payload m = do
  d ← as_dict payload
  let merged = merge d
  guard (validate_identity false merged m)
  guard (is_absent (get merged "generation") || is_some (positive (get merged "generation")))
  revision ← as_nat (get_or merged "status_revision" (int (pos m.status_revision)))
  some (record { merged = merged; event = get d "event"; revision = revision })

-- `has_revision and revision <= self._status_revision`.
unfoldable pub is_old : Report → MonitorCoordinator → Bool
is_old r m = has_revision r && leb r.revision m.status_revision

unfoldable pub is_other : Report → MonitorCoordinator → Bool
is_other r m =
    is_some (known_generation m)
    && not (names_no_other (get r.merged "generation") (known_generation m))

unfoldable pub is_terminal : Report → Bool
is_terminal r =
    is_one_of ("monitor_preempted" ∷ "monitor_failed" ∷ []) r.event
    || is_text (get r.merged "state") "failed"

-- The generation that a terminal report is about: the known one, or that of a start in flight.
unfoldable pub terminal_target : Report → MonitorCoordinator → Option ℕ
terminal_target r m =
    let current : Option ℕ = elim (known_generation m) [
      | none ↦ if m.start_inflight then positive (get r.merged "generation") else none
      | some g ↦ some g
    ] in
    if is_terminal r && names_no_other (get r.merged "generation") current then current else none

-- The mutation before the lock.
unfoldable pub fence : Report → MonitorCoordinator → MonitorCoordinator
fence r m =
    if is_some (terminal_target r m) && (not (has_revision r) || ltb m.status_revision r.revision)
    then record m { terminal_epoch = m.terminal_epoch + 1; recoverable_generation = none }
    else m

-- The end of the generation, which may be recovered.
unfoldable pub finish :
    ℕ → Option ℕ → String → ℕ → MonitorCoordinator → MonitorCoordinator × Verdict
finish task recoverable state revision m = (
  record (clear (cancel_grace task m)) {
    state = state;
    recoverable_generation = recoverable;
    status_revision = revision;
  },
  applied,
)

-- `_set_response_locked` of the merged report.
unfoldable pub take_response : Fields → MonitorCoordinator → MonitorCoordinator × Verdict
take_response merged m = elim (set_response false merged m) [
  | none ↦ (m, rejected)
  | some n ↦ (n, applied)
]

-- The state of the report that ends the generation: "stopped" is shown as idle.
abbrev pub end_state : Value → String
end_state v =
    if is_text v "failed"
    then "failed"
    else if is_text v "unavailable"
    then "unavailable"
    else "idle"

-- What follows in the lock, once the report is not an old one.
unfoldable pub conclude : ℕ → Report → MonitorCoordinator → MonitorCoordinator × Verdict
conclude task r m =
    let state = get r.merged "state" in
    if is_other r m
    then (m, rejected)
    else if is_one_of ("monitor_preempted" ∷ "monitor_stopped" ∷ []) r.event
    then finish task (if is_text r.event "monitor_stopped" then known_generation m else none) "idle"
        r.revision m
    else if is_text r.event "monitor_failed"
    then finish task none "failed" r.revision m
    else if not (is_hashable state)
    then (m, rejected)
    else if is_one_of idle_states state
    then finish task (if is_text state "stopped" then known_generation m else none)
        (end_state state) r.revision m
    else take_response r.merged m

-- A report as read: what comes before the lock, and in it.
unfoldable pub judge : ℕ → Report → MonitorCoordinator → MonitorCoordinator × Verdict
judge task r m =
    if is_old r m
    then (m, ignored)
    else if is_other r m || not (is_hashable r.event)
    then (m, rejected)
    else if is_old r (fence r m)
    then (fence r m, ignored)
    else conclude task r (fence r m)

unfoldable pub apply_status : ℕ → Value → MonitorCoordinator → MonitorCoordinator × Verdict
apply_status task payload m = elim (read_report payload m) [
  | none ↦ (m, rejected)
  | some r ↦ judge task r m
]
