-- ===== src/Events/Validate.antt =====
-- custom_components/doorfast/events.py, `validate_event` and `_validate_monitor_status`. A raised
-- ValueError or TypeError is `none`; the caller treats both alike.
pub mod Sound
use doorfastforha.Prelude.{
  ℕ, zero, suc, ◌+◌, ◌/◌, ◌≤◌, String, Bool, true, false, ◌||◌, ◌&&◌, not, List, [], ◌∷◌, map,
  Option, none, some, ℤ, pos, negsuc, if◌then◌else◌, ltb, leb, ◌==◌, contains, string_eq, all,
  length, any, str_eq, ◌>>=◌, ◌>>◌, guard,
}
use doorfastforha.Value.{
  Value, null, bool, int, float, str, list, dict, Items, nil, cons, Fields, end, field, get,
  as_dict, as_text, positive, equals_int, codes, codes_eq, is_ascii, is_lower, is_upper,
  is_identifier_char,
}

abbrev pub call_event_names : List String
call_event_names = "incoming_call" ∷ "call_established" ∷ "hangup" ∷ "timeout" ∷ "preempted" ∷ []

abbrev pub monitor_event_names : List String
monitor_event_names =
    "monitor_requested" ∷ "monitor_confirmed" ∷ "monitor_media_ready" ∷ "monitor_publishing"
    ∷ "monitor_failed" ∷ "monitor_stopped" ∷ "monitor_preempted" ∷ []

-- `event in CALL_EVENT_NAMES` and `event in MONITOR_EVENT_NAMES`.
unfoldable pub is_call_event : String → Bool
is_call_event event = contains event call_event_names

unfoldable pub is_monitor_event : String → Bool
is_monitor_event event = contains event monitor_event_names

abbrev pub sensitive_keys : List (List ℕ)
sensitive_keys =
    map codes ("password" ∷ "token" ∷ "authorization" ∷ "sdp" ∷ "candidate" ∷ "url" ∷ [])

abbrev pub max_status_bytes : ℕ
max_status_bytes = 16384

-- `str.lower` of a character, exact for comparisons with ASCII words: beside A to Z, only the
-- Kelvin sign is lowered to an ASCII letter.
abbrev pub lower : ℕ → ℕ
lower c = if is_upper c then c + 32 else if c == 0x212A then b'k' else c

-- `key.lower() in _SENSITIVE_KEYS`.
unfoldable pub is_sensitive : String → Bool
is_sensitive k = any (codes_eq (map lower (codes k))) sensitive_keys

-- `visit`: no dictionary at any depth has a sensitive key.
unfoldable mutual
  pub visit : Value → Bool
  visit (dict d) = visit_fields d
  visit (list l) = visit_items l
  visit null = true
  visit (bool b) = true
  visit (int n) = true
  visit (float n t) = true
  visit (str s) = true

  pub visit_items : Items → Bool
  visit_items nil = true
  visit_items (cons v l) = visit v && visit_items l

  pub visit_fields : Fields → Bool
  visit_fields end = true
  visit_fields (field k v d) = not (is_sensitive k) && (visit v && visit_fields d)

-- The number of decimal digits; each division by ten takes one unit of fuel.
unfoldable pub digits : ℕ → ℕ → ℕ
digits zero n = 1
digits (suc fuel) n = let rest = digits fuel (n / 10) in if ltb n 10 then 1 else suc rest

unfoldable pub int_size : ℤ → ℕ
unfolding digits
int_size (pos n) = digits n n
int_size (negsuc n) = 1 + digits (suc n) (suc n)

-- `ensure_ascii`: the length of a character's escape.
unfoldable pub escape_size : ℕ → ℕ
escape_size c =
    if c == b'"' || c == b'\\'
    then 2
    else if leb 8 c && leb c 13 && not (c == 11)
    then 2
    else if leb 32 c && leb c 126
    then 1
    else if leb c 0xFFFF
    then 6
    else 12

unfoldable pub text_size : List ℕ → ℕ
unfolding escape_size
text_size [] = 2
text_size (c ∷ cs) = escape_size c + text_size cs

-- `len(json.dumps(value, separators=(",", ":"), ensure_ascii=True))`.
unfoldable mutual
  unfolding text_size int_size

  pub json_size : Value → ℕ
  json_size null = 4
  json_size (bool true) = 4
  json_size (bool false) = 5
  json_size (int n) = int_size n
  json_size (float n t) = length (codes t)
  json_size (str s) = text_size (codes s)
  json_size (list l) = 2 + json_size_items l
  json_size (dict d) = 2 + json_size_fields d

  pub json_size_items : Items → ℕ
  json_size_items nil = 0
  json_size_items (cons v nil) = json_size v
  json_size_items (cons v (cons w l)) = json_size v + 1 + json_size_items (cons w l)

  pub json_size_fields : Fields → ℕ
  json_size_fields end = 0
  json_size_fields (field k v end) = text_size (codes k) + 1 + json_size v
  json_size_fields (field k v (field j w d)) =
      text_size (codes k) + 1 + json_size v + 1 + json_size_fields (field j w d)

unfoldable pub validate_monitor_status : Value → Option Fields
validate_monitor_status v = elim (as_dict v) [
  | none ↦ none
  | some d ↦ if visit v && leb (json_size v) max_status_bytes then some d else none
]

-- The station identifier's test, as this file writes it.
unfoldable pub is_station_name : List ℕ → Bool
is_station_name [] = false
is_station_name (c ∷ cs) =
    leb (length (c ∷ cs)) 32 && (is_ascii (c ∷ cs) && (is_lower c && all is_identifier_char cs))

unfoldable pub is_runtime_name : List ℕ → Bool
is_runtime_name cs = not (length cs == 0) && (leb (length cs) 64 && is_ascii cs)

-- The part of a normalized event that only monitor events have.
pub record MonitorPart : Type 0 where
  pub status_revision : ℕ
  pub runtime_id : String
  pub station_id : String
  pub status : Fields

pub record Event : Type 0 where
  pub event_id : ℕ
  pub event : String
  pub generation : ℕ
  pub timestamp_ms : ℕ
  pub monitor : Option MonitorPart

unfoldable pub monitor_part : Fields → Option MonitorPart
monitor_part d = do
  runtime ← as_text (get d "runtime_id")
  guard (is_runtime_name (codes runtime))
  station ← as_text (get d "station_id")
  guard (is_station_name (codes station))
  revision ← positive (get d "status_revision")
  status ← validate_monitor_status (get d "status")
  some (record {
    status_revision = revision;
    runtime_id = runtime;
    station_id = station;
    status = status;
  })

-- The last lines of `validate_event`: a call event has no monitor part.
unfoldable pub with_monitor : Fields → String → Option (Option MonitorPart)
with_monitor d event =
    if is_monitor_event event then (monitor_part d >>= λ p. some (some p)) else some none

unfoldable pub validate_event : Value → Option Event
validate_event payload = do
  d ← as_dict payload
  guard (equals_int (get d "schema_version") 1)
  event ← as_text (get d "event")
  guard (is_call_event event || is_monitor_event event)
  event_id ← positive (get d "event_id")
  generation ← positive (get d "generation")
  timestamp_ms ← positive (get d "timestamp_ms")
  monitor ← with_monitor d event
  some (record {
    event_id = event_id;
    event = event;
    generation = generation;
    timestamp_ms = timestamp_ms;
    monitor = monitor;
  })

-- The dictionary that `validate_event` returns.
abbrev pub monitor_fields : Option MonitorPart → Fields
monitor_fields none = end
monitor_fields (some p) = field "status_revision" (int (pos p.status_revision)) (
    field "runtime_id" (str p.runtime_id)
      (field "station_id" (str p.station_id) (field "status" (dict p.status) end)))

unfoldable pub to_value : Event → Value
to_value e = dict (
    field "schema_version" (int (pos 1)) (
      field "event_id" (int (pos e.event_id)) (
        field "event" (str e.event) (
          field "generation" (int (pos e.generation))
            (field "timestamp_ms" (int (pos e.timestamp_ms)) (monitor_fields e.monitor))))))
