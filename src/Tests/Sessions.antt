-- ===== src/Tests/Sessions.antt =====
-- custom_components/doorfast/session_diagnostics.py and pcm.py.
use doorfastforha.Prelude.{
  ℕ, zero, suc, ◌≡◌, refl, String, true, List, [], ◌∷◌, none, some, pos, arith, string_eq,
}
use doorfastforha.Value.{Value, bool, int, str, list, dict, nil, cons, Fields, end, field}
use doorfastforha.ClientTypes.{require_station_id, is_station_id, uint64, is_runtime_id}
use doorfastforha.SessionDiagnostics.{
  Operation, in_call, station_call_operation, station_call_phase, one_of, is_coherent,
  outbound_phase, native_call, mapped_session, matching_record,
}
use doorfastforha.SessionDiagnostics.Phase.{station_call_phase_unique}
use doorfastforha.Pcm.Wire.{Reply}
use doorfastforha.Pcm.{value, raised, failed, Producer, active, create, submit}
use doorfastforha.Pcm.Lease.{Leased, IsValid}
use doorfastforha.Pcm.Lease.Submit.{Submitted, submit-Submitted}
use doorfastforha.Pcm.Lease.Runs.{Op, starts, submits, steps, steps-IsValid}

abbrev runtime : String
runtime = "0123456789abcdef"

-- An outbound call that talks, with its media session.
abbrev status_fields : Fields
status_fields = field "runtime_id" (str runtime) (
    field "station_call"
      (dict (
        field "stage" (str "talking") (
          field "timer" (str "session") (
            field "error" (str "none") (
              field "operation_id" (int (pos 4)) (
                field "media_generation" (int (pos 7)) (
                  field "call_generation" (int (pos 3)) (
                    field "remaining_ms" (int (pos 1000))
                      (field "station_id" (str "front") end)))))))))
      (field "call"
        (dict (
          field "session" (str "talking")
            (field "station_id" (str "front") (field "generation" (int (pos 3)) end))))
        (field "audio_tx" (dict (field "active" (bool true) (field "generation" (int (pos 3)) end)))
          (field "media"
            (dict (
              field "sessions"
                (list (
                  cons
                    (dict (
                      field "station_id" (str "front") (
                        field "generation" (int (pos 7))
                          (field "state" (str "viewing") (field "purpose" (str "call") end)))))
                    nil))
                end))
            end))))

abbrev operation : Operation
operation = record {
  runtime_id = runtime;
  station_id = some "front";
  stage = "talking";
  timer = "session";
  error = "none";
  operation_id = 4;
  media_generation = 7;
  call_generation = 3;
  remaining_ms = 1000;
}

operation_read : station_call_operation (dict status_fields) ≡ some operation
unfolding station_call_operation one_of is_coherent require_station_id is_station_id uint64
    is_runtime_id
operation_read = refl

talks : station_call_phase (dict status_fields) (str "front") ≡ some in_call
unfolding station_call_operation one_of is_coherent require_station_id is_station_id uint64
    is_runtime_id station_call_phase outbound_phase native_call mapped_session matching_record
talks = refl

station_call_phase_unique_example : ◌≡◌ {A = Value} (str "front") (str "front")
station_call_phase_unique_example =
    station_call_phase_unique (dict status_fields) (str "front") (str "front") in_call in_call talks
      talks

abbrev token : String
token = "0123456789abcdef0123456789abcdef"

abbrev opened : Reply
opened = record {
  status = 200;
  payload = dict (
      field "status" (str "success") (
        field "runtime_id" (str runtime) (
          field "generation" (int (pos 3)) (
            field "accepted_frames" (int (pos 0)) (
              field "next_sequence" (int (pos 10))
                (field "lease_ms" (int (pos 2000)) (field "audio_session" (str token) end)))))));
}

abbrev accepted : Reply
accepted = record {
  status = 200;
  payload = dict (
      field "status" (str "success") (
        field "runtime_id" (str runtime) (
          field "generation" (int (pos 3)) (
            field "accepted_frames" (int (pos 1)) (
              field "next_sequence" (int (pos 11))
                (field "lease_ms" (int (pos 2000)) (field "audio_session" (str "") end)))))));
}

abbrev silence : ℕ → List ℕ
silence zero = []
silence (suc n) = 0 ∷ silence n

abbrev producer : Producer
producer = record {
  station_id = some "front";
  expected_generation = none;
  expected_runtime_id = none;
  state = active;
  runtime = some runtime;
  generation = some 3;
  token = some token;
  sequence = 10;
  call_identity = some (runtime, some "front", 3);
}

leased : Leased producer runtime 3
leased = record {
  running = refl;
  on_runtime = refl;
  on_generation = refl;
  token = token;
  has_token = refl;
  bounded = omega arith;
  station = some "front";
  of_call = refl;
}

submit-Submitted_example : Submitted producer runtime 3 (silence 320 ∷ []) (
    submit producer (silence 320 ∷ []) (value accepted) (value (dict status_fields)) (value opened))
submit-Submitted_example =
    submit-Submitted producer runtime 3 (silence 320 ∷ []) (value accepted)
      (value (dict status_fields)) (value opened) leased

abbrev ops : List Op
ops =
    starts (value (dict status_fields)) (value opened)
    ∷ submits (silence 320 ∷ []) (value accepted) (value (dict status_fields)) (value opened)
    ∷ submits (silence 320 ∷ []) (raised failed) (value (dict status_fields)) (value opened)
    ∷ []

steps-IsValid_example : IsValid (steps (create (some "front") none none) ops)
steps-IsValid_example = steps-IsValid (some "front") none none ops
