-- ===== src/Setup.antt =====
-- custom_components/doorfast/setup_lifecycle.py, `sync_monitor_state` for a station registry.
-- A synchronization awaits the bridge between `capture` and `sync_end`; the coordinators
-- await nothing while they take a status. The registry is taken to keep its stations meanwhile.
pub mod Guarded
pub mod Rollback
use doorfastforha.Prelude.{
  ℕ, String, Bool, true, false, ◌||◌, ◌&&◌, not, List, [], ◌∷◌, Option, none, some, if◌then◌else◌,
  ltb, ◌==◌, contains, string_eq, is_some, Dict, lookup, insert, keys, map, pos, negsuc, ℤ, ◌>>=◌,
}
use doorfastforha.Value.{
  Value, null, int, str, dict, Fields, end, field, get, has, put, as_dict, as_list, as_text, as_int,
  as_nat, is_text,
}
use doorfastforha.Monitor.{MonitorCoordinator, get_or, or_else}
use doorfastforha.Monitor.CallStatus.{apply_call_status}
use doorfastforha.Monitor.Status.{Verdict, applied, ignored, rejected, apply_status}

abbrev pub Coordinators : Type 0
Coordinators = Dict String MonitorCoordinator

-- The generation and the revision of a coordinator.
abbrev pub Marker : Type 0
Marker = Option ℕ × ℕ

abbrev pub marker : MonitorCoordinator → Marker
marker m = (m.generation, m.status_revision)

abbrev pub same_marker : Marker → Marker → Bool
same_marker (none, r) (none, s) = r == s
same_marker (some g, r) (some h, s) = g == h && r == s
same_marker _ _ = false

-- What is read before the bridge is asked. The epochs are those of the client's status, if it has any.
pub record Before : Type 0 where
  pub snapshot : Fields
  pub epochs : Option (Dict String ℕ)
  pub markers : Dict String Marker

unfoldable pub capture : Fields → Option (Dict String ℕ) → Coordinators → Before
capture status epochs cs = record {
  snapshot = status;
  epochs = epochs;
  markers = map (λ p. (p.0, marker p.1)) cs;
}

-- The last session of the station.
unfoldable pub latest : String → List Value → Option Fields
latest id [] = none
latest id (v ∷ vs) = elim (latest id vs) [
  | some d ↦ some d
  | none ↦ elim (as_dict v) [
    | none ↦ none
    | some d ↦ if is_text (get d "station_id") id then some d else none
  ]
]

-- The aggregate revision is newer than that of the session, or the session has none.
abbrev pub is_authoritative : Value → Value → Bool
is_authoritative global session = elim (as_nat global) [
  | none ↦ false
  | some g ↦ elim (as_int session) [ some (pos s) ↦ ltb s g | _ ↦ true ]
]

unfoldable pub session_item : Fields → String → String → Fields → Fields
session_item reply runtime id session =
    let item = put "station_id" (str id) (put "runtime_id" (str runtime) session) in
    if is_authoritative (get reply "status_revision") (get item "status_revision")
    then put "status_revision" (get reply "status_revision") item
    else item

-- What stands for a station without a session.
unfoldable pub idle_item : Fields → String → String → Fields
idle_item reply runtime id = field "runtime_id" (str runtime) (
    field "station_id" (str id) (
      field "generation" (int (pos 0)) (
        field "state" (str "idle") (
          field "status_revision" (int (or_else (as_int (get reply "status_revision")) (pos 0)))
            end))))

abbrev pub item_for : Fields → String → List Value → String → Fields
item_for reply runtime sessions id = elim (latest id sessions) [
  | none ↦ idle_item reply runtime id
  | some d ↦ session_item reply runtime id d
]

-- A rejected report raises.
abbrev pub completes : MonitorCoordinator × Verdict → MonitorCoordinator × Bool
completes (m, rejected) = (m, false)
completes (m, v) = (m, true)

abbrev pub epoch_for : Before → String → Option ℕ
epoch_for b id = elim b.epochs [ none ↦ none | some es ↦ some (or_else (lookup id es) 0) ]

-- The coordinator has not moved since before the bridge was asked.
abbrev pub is_unmoved : Before → String → MonitorCoordinator → Bool
is_unmoved b id m = elim (lookup id b.markers) [ none ↦ false | some k ↦ same_marker (marker m) k ]

-- One station of the loop; whether the loop goes on.
unfoldable pub sync_station :
    ℕ → Before → Fields → Fields → String → MonitorCoordinator → MonitorCoordinator × Bool
sync_station task b client item id m =
    elim (apply_call_status client (epoch_for b id) b.snapshot m) [
      | none ↦ (m, false)
      | some n ↦
          if is_unmoved b id n then completes (apply_status task (dict item) n) else (n, true)
    ]

module _ (task : ℕ) (b : Before) (client : Fields) (items : String → Fields) where
  unfoldable pub sync_each : List String → Coordinators → Coordinators × Bool
  sync_each [] cs = (cs, true)
  sync_each (id ∷ ids) cs = elim (lookup id cs) [
    | none ↦ (cs, false)
    | some m ↦
        let r = sync_station task b client (items id) id m in
        elim r.1 [ false ↦ (insert id r.0 cs, false) | true ↦ sync_each ids (insert id r.0 cs) ]
  ]

-- The event that was relayed for the station.
unfoldable pub sync_event : ℕ → Option String → Value → Coordinators → Coordinators × Bool
sync_event task none event cs = (cs, true)
sync_event task (some id) event cs = elim (as_dict event) [
  | none ↦ (cs, true)
  | some d ↦
      if is_text (get d "station_id") id
      then elim (lookup id cs) [
        | none ↦ (cs, true)
        | some m ↦ let r = completes (apply_status task (dict d) m) in (insert id r.0 cs, r.1)
      ]
      else (cs, true)
]

-- The stations that are synchronized: the one that is asked for, or all.
abbrev pub targets : Option String → Coordinators → List String
targets none cs = keys cs
targets (some id) cs = if contains id (keys cs) then id ∷ [] else keys cs

-- The sessions, if the reply is about the runtime that was expected, and the client still is.
unfoldable pub usable_sessions : Before → Fields → Fields → Option (String × List Value)
usable_sessions b client reply = as_text (get b.snapshot "runtime_id") >>= λ runtime.
    as_list (get reply "sessions") >>= λ sessions.
    if is_text (get_or reply "runtime_id" (str runtime)) runtime
      && is_text (get client "runtime_id") runtime
    then some (runtime, sessions)
    else none

abbrev pub then_event : ℕ → Option String → Value → Coordinators × Bool → Coordinators × Bool
then_event task target event (cs, false) = (cs, false)
then_event task target event (cs, true) = sync_event task target event cs

-- The coordinators behind the reply, and whether the sessions of WebRTC are reconciled then; if not,
-- an exception was raised.
unfoldable pub sync_end :
    ℕ → Before → Fields → Value → Option String → Value → Coordinators → Coordinators × Bool
sync_end task b client reply target event cs = elim (as_dict reply) [
  | none ↦ (cs, false)
  | some d ↦ elim (usable_sessions b client d) [
    | none ↦ (cs, true)
    | some (runtime, sessions) ↦
        then_event task target event
          (sync_each task b client (item_for d runtime sessions) (targets target cs) cs)
  ]
]
