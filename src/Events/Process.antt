-- ===== src/Events/Process.antt =====
-- custom_components/doorfast/events.py, `process_event` and `_monitor_session`: a delivered event is
-- validated, checked against a fresh status, gated, applied and dispatched. What the callbacks do
-- is an argument: `none` or `false` where they raise.
pub mod Delivery
use doorfastforha.Prelude.{
  ℕ, String, Bool, true, false, ◌||◌, ◌&&◌, not, List, [], ◌∷◌, ◌++◌, Option, none, some, ℤ, pos,
  if◌then◌else◌, contains, string_eq, str_eq, is_some,
}
use doorfastforha.Value.{
  Value, null, bool, int, float, str, list, dict, Fields, end, field, get, put, as_dict, as_list,
  as_text, as_int, is_text,
}
use doorfastforha.Events.Validate.{Event, MonitorPart, validate_event, is_monitor_event, to_value}
use doorfastforha.Events.Gate.{EventGate, MonitorMark, accept, accept_monitor}

-- What is read of `DoorfastClient`.
pub record Client : Type 0 where
  pub status : Fields
  pub online : Bool

-- What is read of a station's `MonitorCoordinator`.
pub record Owner : Type 0 where
  pub runtime_id : String
  pub generation : Option ℕ
  pub status_revision : ℕ

pub data Effect : Type 0 where
  -- The event is handed to the station's coordinator.
  applied : String → Event → Effect
  dispatch_status : Fields → Effect
  dispatch_latest : Event → Effect
  dispatch_ring : Bool → Effect

pub data Response : Type 0 where
  invalid : Response
  unavailable : Response
  ignored : Response
  success : Response
  -- `async_apply_status` raises, and `process_event` with it.
  raised : Response

-- What surrounds one delivery.
pub record World : Type 0 where
  -- The client after `refresh`; `none` if that raises.
  pub refreshed : Option Client
  pub station_ids : Option (List String)
  -- The registry, if there is one; `none` of a station is its KeyError.
  pub monitor : Option (String → Option Owner)
  -- Whether `sync_monitor` returns, if it is given.
  pub sync_monitor : Option Bool
  -- Whether the coordinator's `async_apply_status` returns.
  pub applies : Bool
  pub ring_state : Fields → Bool

pub record Outcome : Type 0 where
  pub response : Response
  pub gate : EventGate
  pub client : Client
  pub effects : List Effect

-- The first session that is an object of this station.
abbrev pub find_session : List Value → String → Option Fields
find_session [] station = none
find_session (dict d ∷ vs) station =
    if is_text (get d "station_id") station then some d else find_session vs station
find_session (_ ∷ vs) station = find_session vs station

-- A media snapshot of an old bridge: of this station, or of none.
abbrev pub legacy_session : Fields → String → Option Fields
legacy_session media station = elim (get media "station_id") [
  | null ↦ some media
  | str s ↦ if str_eq s station then some media else none
  | _ ↦ none
]

unfoldable pub monitor_session : Fields → String → Option Fields
monitor_session status station = elim (as_dict (get status "media")) [
  | none ↦ none
  | some media ↦ elim (as_list (get media "sessions")) [
    | some sessions ↦ find_session sessions station
    | none ↦ legacy_session media station
  ]
]

abbrev pub session_int : Option Fields → String → Option ℤ
session_int none name = none
session_int (some d) name = as_int (get d name)

abbrev pub owner_generation : Owner → Option ℤ
owner_generation o = elim o.generation [ none ↦ none | some n ↦ some (pos n) ]

-- The client's runtime is a text, and not the owner's.
abbrev pub runtime_moved : Fields → Owner → Bool
runtime_moved status o = elim (as_text (get status "runtime_id")) [
  | none ↦ false
  | some r ↦ not (str_eq r o.runtime_id)
]

abbrev pub mark : Event → MonitorPart → MonitorMark
mark e p = record {
  runtime_id = p.runtime_id;
  station_id = p.station_id;
  event_id = e.event_id;
  generation = e.generation;
  status_revision = p.status_revision;
}

-- The gate's verdict on a monitor event: with its owner, or with the bridge's media session.
abbrev pub gate_monitor : EventGate → Fields → Option Owner → Event → MonitorPart → EventGate × Bool
gate_monitor g status (some o) e p =
    if runtime_moved status o
    then (g, false)
    else accept_monitor g (mark e p) (owner_generation o) (some (pos o.status_revision))
        (some o.runtime_id)
gate_monitor g status none e p =
    let media = monitor_session status p.station_id in
    accept_monitor g (mark e p) (session_int media "generation")
      (session_int media "status_revision") (as_text (get status "runtime_id"))

abbrev pub call_generation : Fields → Option ℤ
call_generation status = session_int (as_dict (get status "call")) "generation"

-- The last lines of `process_event`.
unfoldable pub dispatched : World → EventGate → Client → List Effect → Event → Outcome
dispatched w g c done e = record {
  response = success;
  gate = g;
  client = c;
  effects =
      done
      ++ dispatch_status c.status ∷ dispatch_latest e ∷ dispatch_ring (w.ring_state c.status) ∷ [];
}

abbrev pub stopped : Response → EventGate → Client → Outcome
stopped r g c = record { response = r; gate = g; client = c; effects = [] }

abbrev pub offline : Client → Client
offline c = record c { online = false }

-- An accepted monitor event: by `sync_monitor`, if it is given, or by the owner, or noted in the status.
unfoldable pub apply_monitor_by :
    Option Bool → Option Owner → World → EventGate → Client → Event → String → Outcome
apply_monitor_by (some true) owner w g c e station = dispatched w g c (applied station e ∷ []) e
apply_monitor_by (some false) owner w g c e station = stopped unavailable g (offline c)
apply_monitor_by none (some o) w g c e station =
    if w.applies then dispatched w g c (applied station e ∷ []) e else stopped raised g c
apply_monitor_by none none w g c e station =
    dispatched w g (record c { status = put "media_event" (to_value e) c.status }) [] e

unfoldable pub apply_monitor : World → EventGate → Client → Option Owner → Event → String → Outcome
apply_monitor w g c owner e station = apply_monitor_by w.sync_monitor owner w g c e station

-- An accepted call event.
unfoldable pub apply_call : World → EventGate → Client → Event → Outcome
apply_call w g c e =
    let status =
      put "event_generation" (int (pos e.generation))
        (put "event_id" (int (pos e.event_id)) (put "event" (str e.event) c.status)) in
    dispatched w g (record c { status = status }) [] e

unfoldable pub process_call : World → EventGate → Client → Event → Outcome
process_call w g c e =
    let (h, accepted) =
      accept g (e.generation, e.event) (call_generation c.status)
        (as_text (get c.status "runtime_id")) in
    if accepted then apply_call w h c e else stopped ignored h c

-- The station is one of those that the caller names.
abbrev pub is_listed : Option (List String) → String → Bool
is_listed none station = true
is_listed (some ids) station = contains station ids

unfoldable pub gated_monitor :
    World → EventGate → Client → Option Owner → Event → MonitorPart → Outcome
gated_monitor w g c owner e p =
    let (h, accepted) = gate_monitor g c.status owner e p in
    if accepted then apply_monitor w h c owner e p.station_id else stopped ignored h c

unfoldable pub process_monitor : World → EventGate → Client → Event → MonitorPart → Outcome
process_monitor w g c e p =
    if is_listed w.station_ids p.station_id
    then elim w.monitor [
      | none ↦ gated_monitor w g c none e p
      | some registry ↦ elim (registry p.station_id) [
        | none ↦ stopped ignored g c
        | some o ↦ gated_monitor w g c (some o) e p
      ]
    ]
    else stopped ignored g c

unfoldable pub process_event : World → EventGate → Client → Value → Outcome
process_event w g c payload = elim (validate_event payload) [
  | none ↦ stopped invalid g c
  | some e ↦ elim w.refreshed [
    | none ↦ stopped unavailable g (offline c)
    | some fresh ↦ elim e.monitor [
      | some p ↦ process_monitor w g fresh e p
      | none ↦ process_call w g fresh e
    ]
  ]
]
