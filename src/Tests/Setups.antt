-- ===== src/Tests/Setups.antt =====
-- custom_components/doorfast/setup_lifecycle.py: a synchronization and a rollback.
use doorfastforha.Prelude.{
  ◌≡◌, String, true, false, [], ◌∷◌, none, some, contains, string_eq, str_eq, lookup, keys, pos,
}
use doorfastforha.Value.{Value, null, str, int, dict, list, nil, cons, Fields, end, field}
use doorfastforha.Monitor.{MonitorCoordinator, create}
use doorfastforha.Setup.{Coordinators, Before, sync_end}
use doorfastforha.Setup.Guarded.{Risen}
use doorfastforha.Setup.Guarded.Synced.{sync_end-Risen}
use doorfastforha.Setup.Rollback.{
  Step, Ending, fails, Acquired, Data, resource_keys, rollback_entry_setup,
}
use doorfastforha.Setup.Rollback.Listed.{IsCleared, rollback_entry_setup-IsCleared}

abbrev main : MonitorCoordinator
main = record (create "runtime-a" "gate_main" 0) {
  generation = some 7;
  state = "requesting";
  status_revision = 3;
}

abbrev side : MonitorCoordinator
side = create "runtime-a" "gate_side" 0

abbrev stations : Coordinators
stations = ("gate_main", main) ∷ ("gate_side", side) ∷ []

abbrev client : Fields
client = field "runtime_id" (str "runtime-a") end

abbrev before : Before
before = record {
  snapshot = client;
  epochs = none;
  markers = ("gate_main", (some 7, 3)) ∷ ("gate_side", (none, 0)) ∷ [];
}

-- Both stations have a session.
abbrev reply : Value
reply = dict (
    field "runtime_id" (str "runtime-a") (
      field "status_revision" (int (pos 5)) (
        field "sessions"
          (list (
            cons
              (dict (
                field "station_id" (str "gate_main")
                  (field "generation" (int (pos 7)) (field "state" (str "publishing") end))))
              (cons
                (dict (
                  field "station_id" (str "gate_side")
                    (field "generation" (int (pos 8)) (field "state" (str "publishing") end))))
                nil)))
          end)))

sync_end-Risen_example :
    Risen stations (sync_end 1 before client reply (some "gate_main") null stations).0
    × ((id j : String)
        → some "gate_main" ≡ some id
        → contains id (keys stations) ≡ true
        → str_eq id j ≡ false
        → lookup j (sync_end 1 before client reply (some "gate_main") null stations).0
          ≡ lookup j stations)
sync_end-Risen_example = sync_end-Risen 1 before client reply (some "gate_main") null stations

-- Every step raises an Exception.
abbrev all_fail : Step → Ending
all_fail s = fails

abbrev everything : Acquired
everything = record {
  provider = true;
  webrtc = true;
  monitor = true;
  station_registry = true;
  platforms_forward_attempted = true;
  frontend_registered = true;
  view_created = true;
}

abbrev tables : Data
tables =
    ("doorfast", some ("first" ∷ []))
    ∷ ("doorfast_stations", some ("first" ∷ "second" ∷ []))
    ∷ ("doorfast_monitors", none)
    ∷ []

rollback_entry_setup-IsCleared_example :
    IsCleared all_fail "first"
      ("doorfast" ∷ resource_keys)
      (rollback_entry_setup all_fail "first" everything ("open_door" ∷ []) tables)
rollback_entry_setup-IsCleared_example =
    rollback_entry_setup-IsCleared all_fail "first" everything ("open_door" ∷ []) tables
