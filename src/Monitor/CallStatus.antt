-- ===== src/Monitor/CallStatus.antt =====
-- custom_components/doorfast/monitor.py, `async_apply_call_status`: what a status of the bridge says of
-- the station's call. A raised exception is `none`; it is raised before anything is changed.
use doorfastforha.Prelude.{
  ℕ, ◌≡◌, arith, if_cases, Option-cases, inl, inr, String, Bool, true, false, ◌||◌, ◌&&◌, not, List,
  [], ◌∷◌, Option, none, some, if◌then◌else◌, ltb, ◌==◌, contains, string_eq, str_eq, is_some,
  ◌>>=◌, pos, Dict, lookup,
}
use doorfastforha.Value.{bool, int, str, dict, Fields, end, field, get, has, as_text, is_text}
use doorfastforha.ClientTypes.{uint64}
use doorfastforha.SessionDiagnostics.{Operation, station_call_operation, station_call_phase}
use doorfastforha.Monitor.{MonitorCoordinator, or_else}
use doorfastforha.Monitor.Status.{is_hashable, is_one_of}
use doorfastforha.Monitor.Call.{is_calling, same_runtime, native_of, is_in_call}

-- `_STATION_CALL_STAGE_ORDER`: another text raises.
abbrev pub station_call_stage_order : Dict String ℕ
station_call_stage_order =
    ("idle", 0)
    ∷ ("preparing", 1)
    ∷ ("calling", 2)
    ∷ ("talking", 3)
    ∷ ("ending", 4)
    ∷ ("ended", 5)
    ∷ ("failed", 5)
    ∷ []

-- The status is for this coordinator, now.
unfoldable pub admits : Fields → Option ℕ → Fields → MonitorCoordinator → Bool
admits client request_epoch status m =
    not m.unloaded
    && (not m.call_locked
        && (is_text (get status "runtime_id") m.runtime_id
            && (elim request_epoch [ none ↦ true | some e ↦ e == m.call_request_epoch ]
                && same_runtime client m)))

-- An operation before the current one.
abbrev pub is_earlier : Option Operation → Option Operation → Bool
is_earlier (some op) (some current) = ltb op.operation_id current.operation_id
is_earlier op current = false

-- The operation, if it is of this station.
unfoldable pub target_of : Option Operation → String → Option Operation
target_of none station = none
target_of (some op) station = elim op.station_id [
  | none ↦ none
  | some s ↦ if str_eq s station then some op else none
]

-- The stage of the same operation would go back.
unfoldable pub goes_back : Operation → Option Operation → Option Bool
goes_back target none = some false
goes_back target (some current) =
    if target.operation_id == current.operation_id
    then (lookup target.stage station_call_stage_order >>= λ a.
        lookup current.stage station_call_stage_order >>= λ b. some (ltb a b))
    else some false

-- `matching_native`, with the session of the native call and its generation.
abbrev pub native_sessions : List String
native_sessions = "preview" ∷ "ringing" ∷ "talking" ∷ "ending" ∷ []

abbrev pub matching_native : Fields → String → Option ℕ
matching_native native station =
    if is_text (get native "station_id") station && is_one_of native_sessions (get native "session")
    then uint64 1 (get native "generation")
    else none

-- The test of the session raises if the session is a list or a dictionary.
unfoldable pub session_readable : Fields → String → Bool
session_readable native station =
    not (is_text (get native "station_id") station)
    || (not (is_some (uint64 1 (get native "generation"))) || is_hashable (get native "session"))

-- The operation and the state as the target has them.
unfoldable pub follow_operation :
    Option Operation → Option Operation → Bool → MonitorCoordinator → MonitorCoordinator
follow_operation (some target) operation talking m = record m {
  operation = some target;
  call_error = if str_eq target.error "none" then none else some target.error;
  call_state = if str_eq target.stage "talking" && not talking then "calling" else target.stage;
}
follow_operation none operation talking m =
    if not (is_some m.operation) || is_some operation then record m { call_state = "idle" } else m

-- The native call has the last word: whether it talks, shows its session, or is that of the operation.
unfoldable pub show_native :
    Bool → Bool → Bool → ℕ → String → MonitorCoordinator → MonitorCoordinator
show_native talking shows same g session m =
    if talking
    then record m { call_state = "talking"; native_generation = g }
    else if shows
    then record m { call_state = session; native_generation = g }
    else if same
    then record m { native_generation = g }
    else record m { native_generation = 0 }

unfoldable pub follow_native :
    Option Operation → Bool → Fields → MonitorCoordinator → MonitorCoordinator
follow_native target talking native m =
    let g = or_else (uint64 1 (get native "generation")) 0 in
    let over : Bool = elim target [
      | none ↦ true
      | some t ↦ contains t.stage ("ended" ∷ "failed" ∷ [])
    ] in
    let same : Bool = elim target [ none ↦ false | some t ↦ t.call_generation == g ] in
    let matching = is_some (matching_native native m.station_id) in
    show_native talking (matching && over) (matching && same) g
      (or_else (as_text (get native "session")) "") m

-- `{"runtime_id": ..., "queued": False}`.
abbrev pub accepted_fields : Operation → MonitorCoordinator → Fields
accepted_fields t m = field "runtime_id" (str m.runtime_id) (
    field "station_id" (str m.station_id) (
      field "operation_id" (int (pos t.operation_id)) (
        field "generation" (int (pos t.media_generation))
          (field "state" (str t.stage) (field "queued" (bool false) end)))))

unfoldable pub follow_accepted : Option Operation → MonitorCoordinator → MonitorCoordinator
follow_accepted target m =
    if not (is_calling m.call_state)
    then record m { accepted_call = none }
    else elim target [ none ↦ m | some t ↦ record m { accepted_call = some (accepted_fields t m) } ]

-- A status that is not behind what is known.
unfoldable pub take_call_status :
    Option Operation → Fields → MonitorCoordinator → MonitorCoordinator
take_call_status operation status m =
    let target = target_of operation m.station_id in
    let talking = is_in_call (station_call_phase (dict status) (str m.station_id)) in
    follow_accepted target (
      follow_native target talking (native_of status) (follow_operation target operation talking m))

-- A malformed operation, or one before the current, is not taken.
unfoldable pub is_unusable : Option Operation → Fields → MonitorCoordinator → Bool
is_unusable operation status m =
    (has status "station_call" && not (is_some operation)) || is_earlier operation m.operation

unfoldable pub apply_call_status :
    Fields → Option ℕ → Fields → MonitorCoordinator → Option MonitorCoordinator
apply_call_status client request_epoch status m =
    let operation = station_call_operation (dict status) in
    if not (admits client request_epoch status m) || is_unusable operation status m
    then some m
    else if not (session_readable (native_of status) m.station_id)
    then none
    else elim (target_of operation m.station_id) [
      | none ↦ some (take_call_status operation status m)
      | some t ↦ goes_back t m.operation >>= λ back.
          some (if back then m else take_call_status operation status m)
    ]

-- A property of the outcome holds if it holds of a refusal, of the coordinator as it was, and of one
-- that takes a status that is not behind.
pub apply_call_status_cases {ℓ} :
    (P : Option MonitorCoordinator → Type ℓ) (client : Fields) (request_epoch : Option ℕ)
    (status : Fields) (m : MonitorCoordinator)
    → let o = station_call_operation (dict status) in
      P none
      → P (some m)
      → (is_unusable o status m ≡ false
          → ((t : Operation)
              → target_of o m.station_id ≡ some t
              → goes_back t m.operation ≡ some false)
          → P (some (take_call_status o status m)))
      → P (apply_call_status client request_epoch status m)
unfolding apply_call_status
apply_call_status_cases P client request_epoch status m x y z =
    let o = station_call_operation (dict status) in
    if_cases P (not (admits client request_epoch status m) || is_unusable o status m) (λ _. y)
      λ fresh.
        if_cases P (not (session_readable (native_of status) m.station_id)) (λ _. x)
          λ _. elim (Option-cases (target_of o m.station_id)) [
            | inl other ↦ rw other (z (ground arith) (λ t own. ground arith))
            | inr (t, own) ↦ elim (Option-cases (goes_back t m.operation)) [
              | inl unknown ↦ rw (own, unknown) x
              | inr (true, found) ↦ rw (own, found) y
              | inr (false, found) ↦ rw (own, found) (z (ground arith) (λ u also. ground arith))
            ]
          ]
