-- ===== src/Monitor/Call.antt =====
-- custom_components/doorfast/monitor.py: `_begin_call_request`, `_call_request_current`, `async_call`
-- and `async_hangup`. Both hold the call lock while they await the bridge, between `_begin` and `_end`.
-- The status of the client, and the reply, are arguments. A raised exception is `none`.
use doorfastforha.Prelude.{
  ℕ, ◌+◌, String, Bool, true, false, ◌||◌, ◌&&◌, not, [], ◌∷◌, Option, none, some, if◌then◌else◌,
  ◌==◌, contains, string_eq, str_eq, is_some,
}
use doorfastforha.Value.{
  Value, str, dict, Fields, end, get, as_dict, as_text, is_text, is_true, equals_int, positive,
}
use doorfastforha.ClientTypes.{uint64}
use doorfastforha.SessionDiagnostics.{
  Operation, CallPhase, in_call, station_call_operation, station_call_phase,
}
use doorfastforha.Control.{validate_call_parameters, validate_reply, stable_error}
use doorfastforha.Monitor.{MonitorCoordinator, get_or, or_else, holds}

-- The states of a call that is under way.
abbrev pub is_calling : String → Bool
is_calling s = contains s ("preparing" ∷ "calling" ∷ "talking" ∷ [])

-- The new request has the next number, which the client keeps for the station.
unfoldable pub begin_call_request : MonitorCoordinator → Option MonitorCoordinator
begin_call_request m =
    if m.unloaded then none else some (record m { call_request_epoch = m.call_request_epoch + 1 })

-- The status of the client names this runtime, or none.
abbrev pub same_runtime : Fields → MonitorCoordinator → Bool
same_runtime client m = is_text (get_or client "runtime_id" (str m.runtime_id)) m.runtime_id

unfoldable pub call_request_current : ℕ → Fields → MonitorCoordinator → Bool
call_request_current epoch client m =
    not m.unloaded && (epoch == m.call_request_epoch && same_runtime client m)

-- The bridge's answer to a request, or the `code` of its error.
pub data Reply : Type 0 where
  replied : Value → Reply
  failed : Option String → Reply

pub data CallBegun : Type 0 where
  repeats : Fields → CallBegun
  sends : ℕ → CallBegun
  raises : CallBegun

-- The call is under way: the accepted reply is returned again.
abbrev pub repeated : MonitorCoordinator → Option Fields
repeated m = if is_calling m.call_state then m.accepted_call else none

unfoldable pub call_begin :
    Value → Value → Value → Fields → MonitorCoordinator → MonitorCoordinator × CallBegun
call_begin primary secondary duration client m =
    if not (validate_call_parameters primary secondary duration)
    then (m, raises)
    else elim (repeated m) [
      | some d ↦ (m, repeats d)
      | none ↦ elim (begin_call_request m) [
        | none ↦ (m, raises)
        | some n ↦
            let sent = record n {
              operation = none;
              native_generation = 0;
              accepted_call = none;
              call_state = "calling";
              call_error = none;
            } in
            if call_request_current sent.call_request_epoch client sent
            then (record sent { call_locked = true }, sends sent.call_request_epoch)
            else (sent, raises)
      ]
    ]

-- The operation that the accepted reply names, if its number is not 0.
abbrev pub accepted_operation : Fields → MonitorCoordinator → Option Operation
accepted_operation d m = elim (positive (get d "operation_id")) [
  | none ↦ none
  | some id ↦ some (record {
    runtime_id = m.runtime_id;
    station_id = some m.station_id;
    stage = "preparing";
    timer = "none";
    error = "none";
    operation_id = id;
    media_generation = or_else (uint64 0 (get d "generation")) 0;
    call_generation = 0;
    remaining_ms = 0;
  })
]

-- The `except` clause: only the current request is the one that failed.
abbrev pub call_failed : ℕ → Option String → Fields → MonitorCoordinator → MonitorCoordinator
call_failed epoch code client m =
    if call_request_current epoch client m
    then record m { call_state = "failed"; call_error = some (stable_error code) }
    else m

unfoldable pub call_settle :
    ℕ → Reply → Fields → MonitorCoordinator → MonitorCoordinator × Option Fields
call_settle epoch (failed code) client m = (call_failed epoch code client m, none)
call_settle epoch (replied v) client m = elim (validate_reply v m.runtime_id m.station_id) [
  | none ↦ (call_failed epoch none client m, none)
  | some d ↦
      if call_request_current epoch client m
      then (
        record m {
          accepted_call = some d;
          operation = accepted_operation d m;
          call_state = "calling";
        },
        some d,
      )
      else (m, none)
]

-- The rest of `async_call`, which gives the lock back.
unfoldable pub call_end :
    ℕ → Reply → Fields → MonitorCoordinator → MonitorCoordinator × Option Fields
call_end epoch reply client m = call_settle epoch reply client (record m { call_locked = false })

-- What the request to hang up is bound to.
pub record Conditions : Type 0 where
  pub operation_id : Option ℕ
  pub generation : Option ℕ

unfoldable pub hangup_conditions : MonitorCoordinator → Conditions
hangup_conditions m = elim m.operation [
  | none ↦ record { operation_id = none; generation = none }
  | some op ↦
      if contains m.call_state ("ended" ∷ "failed" ∷ [])
        || (m.native_generation == 0 || op.call_generation == m.native_generation)
      then record {
        operation_id = some op.operation_id;
        generation = if op.media_generation == 0 then none else some op.media_generation;
      }
      else record { operation_id = none; generation = none }
]

abbrev pub native_of : Fields → Fields
native_of status = or_else (as_dict (get status "call")) end

-- The operation of the status is the one that the request is bound to, with the native call.
abbrev pub is_bound : Conditions → Fields → String → Bool
is_bound c status station = elim c.operation_id [
  | none ↦ true
  | some id ↦ elim (station_call_operation (dict status)) [
    | none ↦ false
    | some op ↦
        elim op.station_id [ none ↦ false | some s ↦ str_eq s station ]
        && (op.operation_id == id
            && (holds c.generation op.media_generation
                && equals_int (get (native_of status) "generation") op.call_generation))
  ]
]

abbrev pub is_in_call : Option CallPhase → Bool
is_in_call (some in_call) = true
is_in_call _ = false

-- The native generation whose audio the hangup releases; 0 is none.
unfoldable pub control_generation : Conditions → Fields → MonitorCoordinator → ℕ
control_generation c status m =
    if is_text (get status "runtime_id") m.runtime_id
      && (is_in_call (station_call_phase (dict status) (str m.station_id))
          && is_bound c status m.station_id)
    then or_else (uint64 1 (get (native_of status) "generation")) 0
    else 0

-- The request that is sent: its number, its conditions and the native generation.
abbrev pub Hangup : Type 0
Hangup = ℕ × Conditions × ℕ

unfoldable pub hangup_begin :
    Value → Fields → MonitorCoordinator → MonitorCoordinator × Option Hangup
hangup_begin reason client m =
    if elim (as_text reason) [ none ↦ true | some s ↦ str_eq s "" ]
    then (m, none)
    else elim (begin_call_request m) [
      | none ↦ (m, none)
      | some n ↦
          let c = hangup_conditions n in
          if call_request_current n.call_request_epoch client n
          then (
            record n { call_locked = true },
            some (n.call_request_epoch, c, control_generation c client n),
          )
          else (n, none)
    ]

-- The `except` clause of `async_hangup`.
abbrev pub hangup_failed : ℕ → Option String → Fields → MonitorCoordinator → MonitorCoordinator
hangup_failed epoch code client m =
    let n = record m { call_locked = false } in
    if call_request_current epoch client n
    then record n { call_error = some (stable_error code) }
    else n

-- The reply, if the request is still the current one; the audio is released before the end.
unfoldable pub hangup_reply :
    ℕ → Reply → Fields → MonitorCoordinator → MonitorCoordinator × Option Fields
hangup_reply epoch (failed code) client m = (hangup_failed epoch code client m, none)
hangup_reply epoch (replied v) client m = elim (validate_reply v m.runtime_id m.station_id) [
  | none ↦ (hangup_failed epoch none client m, none)
  | some d ↦
      if call_request_current epoch client m
      then (m, some d)
      else (record m { call_locked = false }, none)
]

abbrev pub hangup_state : Fields → String
hangup_state d =
    if is_true (get d "queued")
    then "ending"
    else or_else (as_text (get_or d "state" (str "idle"))) "idle"

unfoldable pub hangup_end : Conditions → Fields → MonitorCoordinator → MonitorCoordinator
hangup_end c d m = record m {
  call_locked = false;
  call_state = hangup_state d;
  call_error = none;
  operation = elim m.operation [
    | none ↦ none
    | some op ↦
        if is_some c.operation_id then some (record op { stage = hangup_state d }) else some op
  ];
}
