-- ===== src/Client/Previews.antt =====
-- custom_components/doorfast/client.py: start, stop and status of a monitor, and the fence of a stopped
-- preview: `_call_owns_station`, `_fence_stopped_previews`, `start_monitor`, `stop_monitor`,
-- `set_monitor_viewer` and `monitor_status`. A raised TypeError or ValueError is `none`.
use doorfastforha.Prelude.{
  ℕ, ◌+◌, String, Bool, true, false, ◌&&◌, not, List, [], ◌∷◌, ◌++◌, Option, none, some,
  if◌then◌else◌, ◌==◌, str_eq, any, contains, string_eq, lookup, insert, ◌>>=◌, pos, is_some,
}
use doorfastforha.Value.{
  Value, null, bool, int, str, list, dict, Fields, end, field, get, has, put, as_dict, as_list,
  as_text, as_bool, as_nat, is_text, is_false, equals_int, positive,
}
use doorfastforha.Value.Equal.{same_value, among, from_list}
use doorfastforha.ClientTypes.{uint64, require_station_id}
use doorfastforha.Control.{optional}
use doorfastforha.SessionDiagnostics.{Operation, station_call_operation, active_stages}
use doorfastforha.Client.{Accepted, Fence, DoorfastClient}

abbrev pub same_accepted : Option Accepted → Option Accepted → Bool
same_accepted none none = true
same_accepted (some a) (some b) =
    str_eq a.runtime_id b.runtime_id && (a.generation == b.generation && a.count == b.count)
same_accepted _ _ = false

-- The media generation is the one that is asked for; None asks for any.
abbrev pub is_asked : ℕ → Value → Bool
is_asked g null = true
is_asked g v = equals_int v g

-- The operation of the station, in a stage that owns it.
abbrev pub operation_owns : Operation → String → Bool
operation_owns op station =
    elim op.station_id [ none ↦ false | some s ↦ str_eq s station ]
    && contains op.stage active_stages

-- A session of the station for a call, on that media generation.
abbrev pub is_call_session : String → Value → Value → Bool
is_call_session station generation item = elim (as_dict item) [
  | none ↦ false
  | some d ↦
      is_text (get d "station_id") station
      && (same_value (get d "generation") generation && is_text (get d "purpose") "call")
]

-- Without a media generation the native call owns the station; else its session must be there.
abbrev pub media_owns : Fields → String → Value → Bool
media_owns status station null = true
media_owns status station generation = elim (as_dict (get status "media")) [
  | none ↦ false
  | some media ↦ elim (as_list (get media "sessions")) [
    | none ↦ false
    | some items ↦ any (is_call_session station generation) items
  ]
]

abbrev pub native_sessions : List String
native_sessions = "preview" ∷ "ringing" ∷ "talking" ∷ "ending" ∷ []

unfoldable pub native_owns : Fields → String → Value → Option Bool
native_owns status station generation = elim (as_dict (get status "call")) [
  | none ↦ some false
  | some native ↦ if not (is_text (get native "station_id") station) then some false else do
    active ← among native_sessions (get native "session")
    some (
        active
        && (is_some (uint64 1 (get native "generation")) && media_owns status station generation))
]

unfoldable pub call_owns_station : Fields → String → Value → Option Bool
call_owns_station status station generation = elim (station_call_operation (dict status)) [
  | none ↦ native_owns status station generation
  | some op ↦
      if operation_owns op station
      then some (is_asked op.media_generation generation)
      else native_owns status station generation
]

-- `(status.get("runtime_id"), item.get("generation")) == (runtime, generation)`.
abbrev pub has_identity : Fields → Fields → String → ℕ → Bool
has_identity status item runtime generation =
    is_text (get status "runtime_id") runtime && equals_int (get item "generation") generation

-- A call was accepted since the stop, on the generation of the stopped preview.
unfoldable pub is_borrowed : Fields → Fields → Fence → Option Accepted → Bool
is_borrowed status item fence none = false
is_borrowed status item fence (some a) =
    not (same_accepted (some a) fence.accepted)
    && has_identity status item a.runtime_id a.generation

-- The fence of the row's station.
unfoldable pub fence_of : DoorfastClient → Fields → Option (String × Fence)
fence_of c item = do
  station ← as_text (get item "station_id")
  fence ← lookup station c.preview_stop_fences
  some (station, fence)

-- The row is the stopped preview, and no call has taken it.
unfoldable pub is_fenced : DoorfastClient → Fields → Fields → String → Fence → Option Bool
is_fenced c status item station fence =
    if has_identity status item fence.runtime_id fence.generation
      && (not (is_borrowed status item fence (lookup station c.accepted_station_calls))
          && is_text (get item "purpose") "preview")
    then (call_owns_station status station (get item "generation") >>= λ owns. some (not owns))
    else some false

abbrev pub ended_states : List String
ended_states = "idle" ∷ "stopped" ∷ "failed" ∷ []

-- `{**item, "state": "stopping", "ready": False, "source_live": False}`.
unfoldable pub stopping : Fields → Fields
stopping item =
    put "source_live" (bool false) (put "ready" (bool false) (put "state" (str "stopping") item))

-- A row that is fenced: it owns nothing, and is shown as stopping.
unfoldable pub held_row : Bool → Fields → Option (List Value)
held_row true item = some []
held_row false item = do
  ended ← among ended_states (get item "state")
  some (dict (if ended then item else stopping item) ∷ [])

-- What becomes of a row: nothing, or a row.
unfoldable pub fence_row : DoorfastClient → Fields → Bool → Value → Option (List Value)
fence_row c status ownership (dict item) = elim (fence_of c item) [
  | none ↦ some (dict item ∷ [])
  | some (station, fence) ↦ do
    fenced ← is_fenced c status item station fence
    if fenced then held_row ownership item else some (dict item ∷ [])
]
fence_row c status ownership v = some (v ∷ [])

unfoldable pub fence_rows : DoorfastClient → Fields → Bool → List Value → Option (List Value)
fence_rows c status ownership [] = some []
fence_rows c status ownership (v ∷ vs) = do
  row ← fence_row c status ownership v
  rows ← fence_rows c status ownership vs
  some (row ++ rows)

unfoldable pub fence_stopped_previews : DoorfastClient → Fields → Fields → Bool → Option Fields
fence_stopped_previews c status media ownership = elim (as_list (get media "sessions")) [
  | none ↦ some media
  | some items ↦ do
    rows ← fence_rows c status ownership items
    some (put "sessions" (list (from_list rows)) media)
]

-- A lifecycle edge was accepted: refreshes that have begun are superseded.
unfoldable pub supersede : DoorfastClient → DoorfastClient
supersede c = record c { refresh_sequence = c.refresh_sequence + 1 }

unfoldable pub start_monitor_begin : String → Value → Option Fields
start_monitor_begin runtime station = do
  s ← require_station_id station
  some (field "runtime_id" (str runtime) (field "station_id" (str s) end))

unfoldable pub start_monitor_end : Fields → DoorfastClient → DoorfastClient × Fields
start_monitor_end response c = (supersede c, response)

-- What a stop carries over its request.
pub record StopRequest : Type 0 where
  pub runtime_id : String
  pub station_id : String
  pub generation : ℕ
  pub accepted : Option Accepted

unfoldable pub stop_monitor_begin : String → Value → Value → DoorfastClient → Option StopRequest
stop_monitor_begin runtime station generation c = do
  g ← positive generation
  s ← require_station_id station
  some (record {
    runtime_id = runtime;
    station_id = s;
    generation = g;
    accepted = lookup s c.accepted_station_calls;
  })

abbrev pub is_generation : ℕ → Value → Bool
is_generation g v = elim (as_nat v) [ none ↦ false | some n ↦ n == g ]

unfoldable pub is_stop_reply : StopRequest → Fields → Bool
is_stop_reply r response =
    optional (λ v. is_text v r.runtime_id) response "runtime_id"
    && (optional (λ v. is_text v r.station_id) response "station_id"
        && optional (is_generation r.generation) response "generation")

unfoldable pub raise_fence : StopRequest → DoorfastClient → DoorfastClient
raise_fence r c = record c {
  preview_stop_fences =
      insert r.station_id
        (record { runtime_id = r.runtime_id; generation = r.generation; accepted = r.accepted })
        c.preview_stop_fences;
}

abbrev pub is_row_of : String → Value → Bool
is_row_of station item = elim (as_dict item) [
  | none ↦ false
  | some d ↦ is_text (get d "station_id") station
]

-- The row of a stop that the bridge has not listed.
abbrev pub pending_row : StopRequest → Value
pending_row r = dict (
    field "station_id" (str r.station_id) (
      field "generation" (int (pos r.generation)) (
        field "purpose" (str "preview") (
          field "state" (str "stopping")
            (field "ready" (bool false) (field "source_live" (bool false) end))))))

-- The media with the pending stop, if the bridge has not listed the station.
unfoldable pub with_pending : StopRequest → Fields → DoorfastClient → Option Fields
with_pending r media c = elim (as_list (get media "sessions")) [
  | none ↦ some media
  | some items ↦ if is_false (get media "available") then some media else do
    owned ← call_owns_station c.status r.station_id null
    some (
        if not owned
          && (same_accepted (lookup r.station_id c.accepted_station_calls) r.accepted
              && not (any (is_row_of r.station_id) items))
        then put "sessions" (list (from_list (items ++ pending_row r ∷ []))) media
        else media)
]

-- The status with the stop in it.
unfoldable pub show_stop : StopRequest → DoorfastClient → Option Fields
show_stop r c = elim (as_dict (get c.status "media")) [
  | none ↦ some c.status
  | some media ↦ do
    m ← with_pending r media c
    fenced ← fence_stopped_previews c c.status m false
    some (put "media" (dict fenced) c.status)
]

-- The shared status with the stop, and the status for the callback if there is one; `none` is the
-- exception.
unfoldable pub conclude_stop :
    DoorfastClient → Option Fields → DoorfastClient × Option (Option Fields)
conclude_stop c none = (c, none)
conclude_stop c (some status) = (record c { status = status }, some (some status))

unfoldable pub stop_monitor_end :
    StopRequest → Fields → DoorfastClient → DoorfastClient × Option (Option Fields)
stop_monitor_end r response c =
    if not (is_stop_reply r response)
    then (c, none)
    else if not (is_text (get c.status "runtime_id") r.runtime_id)
    then (supersede c, some none)
    else conclude_stop (raise_fence r (supersede c)) (show_stop r (raise_fence r (supersede c)))

unfoldable pub set_monitor_viewer : String → Value → Value → Value → Option Fields
set_monitor_viewer runtime station generation active = do
  g ← positive generation
  a ← as_bool active
  s ← require_station_id station
  some (
      field "runtime_id" (str runtime) (
        field "station_id" (str s)
          (field "generation" (int (pos g)) (field "active" (bool a) end))))

-- `request_runtime` of `monitor_status`.
unfoldable pub monitor_status_begin : DoorfastClient → Value
monitor_status_begin c = get c.status "runtime_id"

-- An older bridge's reply is bound to the runtime that was asked.
unfoldable pub bind_runtime : Value → Fields → Fields
bind_runtime asked reply = elim (as_text asked) [
  | none ↦ reply
  | some t ↦ if has reply "runtime_id" then reply else put "runtime_id" (str t) reply
]

unfoldable pub monitor_status_end : Value → Fields → DoorfastClient → Option Fields
monitor_status_end asked reply c =
    let bound = bind_runtime asked reply in
    if same_value (get bound "runtime_id") (get c.status "runtime_id")
    then fence_stopped_previews c c.status bound true
    else some bound
