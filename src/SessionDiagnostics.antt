-- ===== src/SessionDiagnostics.antt =====
-- custom_components/doorfast/session_diagnostics.py: the outbound call operation of a status and the
-- phase of a station's call. Python's None is `none`.
pub mod Phase
pub mod Reports
use doorfastforha.Prelude.{
  ℕ, zero, suc, ◌+◌, ◌≤◌, ◌≡◌, String, Bool, true, false, ◌||◌, ◌&&◌, not, List, [], ◌∷◌, Option,
  none, some, if◌then◌else◌, ltb, leb, ◌==◌, contains, string_eq, all, length, ◌>>=◌, ◌>>◌, guard,
  str_eq, is_some,
}
use doorfastforha.Value.{
  Value, null, bool, int, float, str, list, dict, Fields, get, has, as_dict, as_list, as_text,
  is_text, is_false, codes,
}
use doorfastforha.ClientTypes.{require_station_id, uint64, is_runtime_id}

abbrev pub call_timers : List String
call_timers = "none" ∷ "confirmation" ∷ "session" ∷ []

abbrev pub station_call_stages : List String
station_call_stages =
    "idle" ∷ "preparing" ∷ "calling" ∷ "talking" ∷ "ending" ∷ "ended" ∷ "failed" ∷ []

abbrev pub station_call_timers : List String
station_call_timers = "startup" ∷ call_timers

abbrev pub station_call_errors : List String
station_call_errors =
    "none" ∷ "busy" ∷ "station_unavailable" ∷ "ack_timeout" ∷ "dispatch_failed" ∷ "dispatch_timeout"
    ∷ "media_failed" ∷ "preempted" ∷ "cancelled" ∷ "runtime_reset" ∷ "unknown" ∷ []

-- The validated record; the station of an idle one is None.
pub record Operation : Type 0 where
  pub runtime_id : String
  pub station_id : Option String
  pub stage : String
  pub timer : String
  pub error : String
  pub operation_id : ℕ
  pub media_generation : ℕ
  pub call_generation : ℕ
  pub remaining_ms : ℕ

-- A text among the allowed ones.
unfoldable pub one_of : List String → Value → Option String
one_of allowed v = do s ← as_text v; guard (contains s allowed); some s

-- The conditions that tie the fields to the stage.
unfoldable pub is_coherent : Value → Operation → Bool
is_coherent station op =
    let all_zero =
      op.operation_id == 0
      && (op.media_generation == 0 && (op.call_generation == 0 && op.remaining_ms == 0)) in
    let matches_stage =
      if str_eq op.stage "idle"
      then is_text station "" && (all_zero && (str_eq op.timer "none" && str_eq op.error "none"))
      else is_some op.station_id && not (op.operation_id == 0) in
    matches_stage
    && (not (contains op.stage ("ended" ∷ "failed" ∷ []))
        || (str_eq op.timer "none" && op.remaining_ms == 0))

unfoldable pub station_call_operation : Value → Option Operation
station_call_operation status = do
  d ← as_dict status
  r ← as_dict (get d "station_call")
  runtime ← as_text (get d "runtime_id")
  guard (is_runtime_id (codes runtime))
  stage ← one_of station_call_stages (get r "stage")
  timer ← one_of station_call_timers (get r "timer")
  error ← one_of station_call_errors (get r "error")
  operation ← uint64 0 (get r "operation_id")
  media ← uint64 0 (get r "media_generation")
  call ← uint64 0 (get r "call_generation")
  remaining ← uint64 0 (get r "remaining_ms")
  let op : Operation = record {
    runtime_id = runtime;
    station_id = require_station_id (get r "station_id");
    stage = stage;
    timer = timer;
    error = error;
    operation_id = operation;
    media_generation = media;
    call_generation = call;
    remaining_ms = remaining;
  }
  guard (is_coherent (get r "station_id") op)
  some op

pub data CallPhase : Type 0 where
  calling : CallPhase
  stopping : CallPhase
  in_call : CallPhase

-- `isinstance(item, dict)` for every item.
abbrev pub records : List Value → Option (List Fields)
records [] = some []
records (v ∷ vs) = as_dict v >>= λ d. records vs >>= λ ds. some (d ∷ ds)

abbrev pub of_station : String → List Fields → List Fields
of_station station [] = []
of_station station (d ∷ ds) =
    let rest = of_station station ds in
    if is_text (get d "station_id") station then d ∷ rest else rest

abbrev pub only : List Fields → Option Fields
only [] = none
only (d ∷ []) = some d
only (d ∷ _ ∷ _) = none

-- The one record of the station, with its generation.
unfoldable pub matching_record : Value → String → Option (Fields × ℕ)
matching_record v station = do
  vs ← as_list v
  ds ← records vs
  d ← only (of_station station ds)
  g ← uint64 1 (get d "generation")
  some (d, g)

abbrev pub session_states : List String
session_states = "requesting" ∷ "queued" ∷ "awaiting_video" ∷ "publishing" ∷ "viewing" ∷ []

-- The native owner of the call: talking, to the station, with its generation.
unfoldable pub native_call : Fields → String → Option ℕ
native_call d station = do
  call ← as_dict (get d "call")
  guard (is_text (get call "session") "talking")
  guard (is_text (get call "station_id") station && not (str_eq station "unknown"))
  uint64 1 (get call "generation")

-- The media session that an outbound call maps to.
unfoldable pub mapped_session : Fields → String → Operation → ℕ → Option (Unit {0})
mapped_session d station op generation = do
  media ← as_dict (get d "media")
  guard (not (is_false (get media "available")))
  (session, g) ← matching_record (get media "sessions") station
  state ← one_of session_states (get session "state")
  guard (
      op.call_generation == generation
      && (op.media_generation == g && is_text (get session "purpose") "call"))

-- A call with no active operation is in progress as its native owner says.
unfoldable pub owned_phase : Fields → String → Option CallPhase
owned_phase d station = native_call d station >>= λ _. some in_call

unfoldable pub outbound_phase : Fields → String → Operation → Option CallPhase
outbound_phase d station op =
    if not (elim op.station_id [ none ↦ false | some s ↦ str_eq s station ])
    then none
    else if contains op.stage ("preparing" ∷ "calling" ∷ [])
    then some calling
    else if str_eq op.stage "ending"
    then some stopping
    else (native_call d station >>= λ g. mapped_session d station op g >>= λ _. some in_call)

abbrev pub active_stages : List String
active_stages = "preparing" ∷ "calling" ∷ "talking" ∷ "ending" ∷ []

-- The phase, with the validated operation if there is one.
abbrev pub phase_of : Fields → String → Option Operation → Option CallPhase
phase_of d s none = if has d "station_call" then none else owned_phase d s
phase_of d s (some op) =
    if contains op.stage active_stages then outbound_phase d s op else owned_phase d s

unfoldable pub station_call_phase : Value → Value → Option CallPhase
station_call_phase status station = do
  d ← as_dict status
  s ← require_station_id station
  phase_of d s (station_call_operation status)
