-- ===== src/Tests/Monitors.antt =====
-- custom_components/doorfast/events.py: monitor events at the gate and their validation;
-- custom_components/doorfast/stations.py: a refresh.
use doorfastforha.Prelude.{
  ℕ, ◌≡◌, refl, String, Bool, true, false, List, [], ◌∷◌, none, some, string_eq,
}
use doorfastforha.Value.{str, end, field}
use doorfastforha.Events.Validate.{
  Event, MonitorPart, validate_event, with_monitor, is_call_event, is_monitor_event, is_sensitive,
  monitor_part, validate_monitor_status, is_station_name, is_runtime_name, visit, visit_fields,
  json_size, json_size_fields, text_size, escape_size, to_value,
}
use doorfastforha.Events.Validate.Sound.{here, validate_event_private}
use doorfastforha.Events.Gate.{init, accept_monitor, stale, record_monitor}
use doorfastforha.Events.Gate.Window.{evict}
use doorfastforha.Events.Gate.Monitors.{Call, step, run, Climbing, run-Climbing}
use doorfastforha.ClientTypes.{DoorfastStation, DoorfastStationSnapshot}
use doorfastforha.Stations.{
  Registry, Monitor, Notice, create, refresh, replace_runtime, remove_unless, add_each, add_station,
  changed, advance, remove, update_each, update_station,
}

abbrev runtime : String
runtime = "0123456789abcdef"

abbrev monitored : ℕ → ℕ → ℕ → Call
monitored event_id generation revision = record {
  mark = record {
    runtime_id = runtime;
    station_id = "front";
    event_id = event_id;
    generation = generation;
    status_revision = revision;
  };
  current_generation = none;
  current_revision = none;
  runtime = some runtime;
}

abbrev calls : List Call
calls = monitored 1 2 5 ∷ monitored 2 2 4 ∷ monitored 3 2 6 ∷ monitored 4 3 1 ∷ monitored 5 2 7 ∷ []

-- The earlier revision and the older generation are dropped.
run_monitored : run (runtime, "front") (init 128) calls ≡ (2, 5) ∷ (2, 6) ∷ (3, 1) ∷ []
unfolding run step init accept_monitor stale record_monitor evict
run_monitored = refl

run-Climbing_example : Climbing (run (runtime, "front") (init 128) calls)
run-Climbing_example = run-Climbing (runtime, "front") (init 128) calls

monitored_accepted : (step (init 128) (monitored 1 2 5)).1 ≡ true
unfolding step init accept_monitor stale
monitored_accepted = refl

abbrev part : MonitorPart
part = record {
  status_revision = 5;
  runtime_id = runtime;
  station_id = "front";
  status = field "state" (str "viewing") end;
}

abbrev event : Event
event = record {
  event_id = 1;
  event = "monitor_confirmed";
  generation = 2;
  timestamp_ms = 1000;
  monitor = some part;
}

event_valid : validate_event (to_value event) ≡ some event
unfolding validate_event to_value with_monitor is_call_event is_monitor_event monitor_part
    validate_monitor_status is_station_name is_runtime_name visit visit_fields json_size
    json_size_fields is_sensitive text_size escape_size
event_valid = refl

validate_event_private_example : is_sensitive "state" ≡ false
validate_event_private_example =
    validate_event_private (to_value event) event part "state" event_valid refl here

abbrev station : String → Bool → DoorfastStation
station id enabled = record {
  station_id = id;
  name = "Door";
  logical_address = "32:00:00:00:00:01";
  enabled = enabled;
  stream_name = "door";
  route_source = "none";
  route_fresh = false;
  monitorable = true;
  last_seen_ms = none;
}

abbrev snapshot : ℕ → List DoorfastStation → DoorfastStationSnapshot
snapshot revision stations = record {
  runtime_id = runtime;
  revision = revision;
  stations = stations;
}

abbrev both : DoorfastStationSnapshot
both = snapshot 1 (station "front" true ∷ station "back" false ∷ [])

abbrev back : DoorfastStationSnapshot
back = snapshot 2 (station "front" false ∷ station "back" true ∷ [])

abbrev always : Monitor → Bool
always m = true

abbrev first : Registry
first = (refresh always create both).0

abbrev second : Registry × List Notice
second = ((refresh always first back).0, (refresh always first back).1)

back_changes : refresh always first back ≡ (second.0, second.1, changed)
unfolding refresh create replace_runtime remove_unless add_each add_station advance remove
    update_each update_station
back_changes = refl
