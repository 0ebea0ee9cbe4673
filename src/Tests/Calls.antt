-- ===== src/Tests/Calls.antt =====
-- custom_components/doorfast/events.py: call events at the gate and through `process_event`.
use doorfastforha.Prelude.{
  ℕ, ◌<◌, ◌≡◌, refl, String, true, List, [], ◌∷◌, Option, none, some, pos, arith, string_eq, nat_eq,
  pair_eq,
}
use doorfastforha.Value.{Value, int, str, dict, Fields, end, field}
use doorfastforha.Events.Validate.{
  Event, validate_event, with_monitor, is_call_event, is_monitor_event, to_value,
}
use doorfastforha.Events.Validate.Sound.{IsEvent, validate_event-IsEvent, validate_event-to_value}
use doorfastforha.Events.Gate.{init, accept, enter_runtime, floor, record_call}
use doorfastforha.Events.Gate.Window.{evict, IsDistinct}
use doorfastforha.Events.Gate.Calls.{IsConsistent, init-IsConsistent, accept-IsConsistent}
use doorfastforha.Events.Gate.Once.{Rising}
use doorfastforha.Events.Gate.Runs.{Call, run}
use doorfastforha.Events.Gate.Runs.Orderly.{run-init_once}
use doorfastforha.Events.Process.{
  Client, World, success, ignored, process_event, process_call, apply_call, dispatched,
  call_generation,
}
use doorfastforha.Events.Process.Delivery.{process_event_again}

abbrev runtime : Option String
runtime = some "0123456789abcdef"

abbrev ring : ℕ × String
ring = (5, "incoming_call")

abbrev calls : List Call
calls =
    record { key = ring; current = none }
    ∷ record { key = (5, "hangup"); current = some (pos 5) }
    ∷ record { key = ring; current = some (pos 5) }
    ∷ record { key = (6, "incoming_call"); current = none }
    ∷ record { key = (5, "timeout"); current = some (pos 6) }
    ∷ []

-- The second ring and the event of the old generation are dropped.
run-calls :
    run runtime (init 128) calls ≡ (5, "incoming_call") ∷ (5, "hangup") ∷ (6, "incoming_call") ∷ []
unfolding run init accept enter_runtime floor record_call evict
run-calls = refl

abbrev call_names : List String
call_names = "incoming_call" ∷ "call_established" ∷ "hangup" ∷ "timeout" ∷ "preempted" ∷ []

run-init_once_example :
    IsDistinct (run runtime (init 128) calls) × Rising (run runtime (init 128) calls)
run-init_once_example =
    run-init_once 128 call_names runtime calls (omega arith)
      (refl, (refl, (refl, (refl, (refl, tt)))))

accept-IsConsistent_example : IsConsistent (accept (init 128) ring none runtime).0
accept-IsConsistent_example =
    accept-IsConsistent (init 128) ring none runtime (init-IsConsistent 128)

ring_accepted : (accept (init 128) ring none runtime).1 ≡ true
unfolding init accept enter_runtime floor
ring_accepted = refl

has_room : 0 < (init 128).capacity
unfolding init
has_room = omega arith

abbrev ring_value : Value
ring_value = dict (
    field "schema_version" (int (pos 1)) (
      field "event_id" (int (pos 9)) (
        field "event" (str "incoming_call")
          (field "generation" (int (pos 5)) (field "timestamp_ms" (int (pos 1000)) end)))))

abbrev ring_event : Event
ring_event = record {
  event_id = 9;
  event = "incoming_call";
  generation = 5;
  timestamp_ms = 1000;
  monitor = none;
}

ring_valid : validate_event ring_value ≡ some ring_event
unfolding validate_event with_monitor is_call_event is_monitor_event
ring_valid = refl

validate_event-IsEvent_example : IsEvent ring_event
validate_event-IsEvent_example = validate_event-IsEvent ring_value {e = ring_event} ring_valid

validate_event-to_value_example : validate_event (to_value ring_event) ≡ some ring_event
validate_event-to_value_example =
    validate_event-to_value ring_event (validate_event-IsEvent ring_value ring_valid)

abbrev idle_status : Fields
idle_status = field "runtime_id" (str "0123456789abcdef") end

abbrev bridge : Client
bridge = record { status = idle_status; online = true }

abbrev world : World
world = record {
  refreshed = some bridge;
  station_ids = some ("front" ∷ []);
  monitor = none;
  sync_monitor = none;
  applies = true;
  ring_state = λ _. true;
}

ring_dispatched : (process_event world (init 128) bridge ring_value).response ≡ success
unfolding process_event validate_event with_monitor is_call_event is_monitor_event process_call
    apply_call dispatched call_generation init accept enter_runtime floor
ring_dispatched = refl

process_event_again_example :
    (process_event world
      (process_event world (init 128) bridge ring_value).gate
      bridge
      ring_value).response
    ≡ ignored
process_event_again_example =
    process_event_again world world (init 128) bridge bridge bridge bridge ring_value ring_event
      ring_valid refl refl refl refl (init-IsConsistent 128) has_room ring_dispatched
