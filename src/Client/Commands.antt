-- ===== src/Client/Commands.antt =====
-- custom_components/doorfast/client.py: the commands and their requests, `call_station`,
-- `hangup_station`, `answer`, `hangup`, `call_elevator`, and `_request`. A raised exception is `none`.
use doorfastforha.Prelude.{
  ℕ, ◌+◌, String, Bool, true, false, ◌||◌, ◌&&◌, not, List, [], ◌∷◌, Option, none, some,
  if◌then◌else◌, ◌==◌, leb, str_eq, contains, string_eq, lookup, insert, ◌>>=◌, ◌>>◌, guard, pos,
}
use doorfastforha.Value.{
  Value, null, int, str, Fields, end, field, get, has, as_dict, as_text, is_text, positive,
}
use doorfastforha.ClientTypes.{require_station_id}
use doorfastforha.Control.{
  resolve_generation, validate_reply, validate_call_parameters, positive_condition, stable_error,
}
use doorfastforha.Client.{Accepted, DoorfastClient, current_runtime_id}

-- A response of the HTTP library: its status, and its body as JSON unless it is not JSON.
pub record HttpResponse : Type 0 where
  pub status : ℕ
  pub json : Option Value

pub data Sent : Type 0 where
  -- The object that the bridge has replied with.
  replied : Fields → Sent
  -- `DoorfastTransportError` with its code.
  refused : String → Sent
  -- Any other exception.
  failed : Sent

-- `response.json()` must be an object.
abbrev object_of : Option Value → Sent
object_of none = failed
object_of (some v) = elim (as_dict v) [ none ↦ failed | some d ↦ replied d ]

-- A POST to call or hang up a station.
unfoldable pub is_station_control : String → String → Option Fields → Bool
is_station_control method path none = false
is_station_control method path (some payload) =
    str_eq method "POST"
    && (contains path ("/api/v1/call" ∷ "/api/v1/hangup" ∷ []) && has payload "station_id")

-- `data["error"]["code"]`, where these are objects.
unfoldable pub error_code : Option Value → Option String
error_code body = do v ← body; d ← as_dict v; e ← as_dict (get d "error"); as_text (get e "code")

-- `_request` from the response on; `raises` says for which statuses `raise_for_status` raises.
unfoldable pub request_end : (ℕ → Bool) → String → String → Option Fields → HttpResponse → Sent
request_end raises method path payload r =
    if is_station_control method path payload && leb 400 r.status
    then refused (stable_error (error_code r.json))
    else if raises r.status
    then failed
    else object_of r.json

-- `answer` and `hangup` of the call's generation.
unfoldable pub answer_request : Value → Value → Value → Value → DoorfastClient → Option Fields
answer_request generation primary secondary duration c = do
  g ← resolve_generation c.status generation
  runtime ← current_runtime_id c.status
  some (
      field "runtime_id" (str runtime) (
        field "generation" (int (pos g)) (
          field "primary_media_port" primary
            (field "secondary_media_port" secondary (field "duration_seconds" duration end)))))

unfoldable pub hangup_request : Value → Value → DoorfastClient → Option Fields
hangup_request generation reason c = do
  g ← resolve_generation c.status generation
  runtime ← current_runtime_id c.status
  some (
      field "runtime_id" (str runtime)
        (field "generation" (int (pos g)) (field "reason" reason end)))

unfoldable pub call_elevator_request : String → DoorfastClient → Option Fields
call_elevator_request direction c = do
  guard (contains direction ("up" ∷ "down" ∷ []))
  runtime ← current_runtime_id c.status
  some (field "runtime_id" (str runtime) (field "direction" (str direction) end))

-- A call of a station: the runtime and the station that it is sent for.
unfoldable pub call_station_begin :
    Value → Value → Value → Value → DoorfastClient → Option (String × String)
call_station_begin station primary secondary duration c = do
  s ← require_station_id station
  guard (validate_call_parameters primary secondary duration)
  runtime ← current_runtime_id c.status
  some (runtime, s)

abbrev pub live_call_states : List String
live_call_states = "preparing" ∷ "calling" ∷ "talking" ∷ "preview" ∷ "ringing" ∷ []

-- The generation of an accepted call that has begun.
unfoldable pub accepted_generation : String → Fields → DoorfastClient → Option ℕ
accepted_generation runtime reply c = do
  guard (is_text (get c.status "runtime_id") runtime)
  g ← positive (get reply "generation")
  state ← as_text (get reply "state")
  guard (contains state live_call_states)
  some g

-- How many calls of the station were accepted, with this one.
abbrev pub next_count : Option Accepted → ℕ
next_count none = 1
next_count (some a) = a.count + 1

unfoldable pub note_call : String → String → ℕ → DoorfastClient → DoorfastClient
note_call runtime station g c = record c {
  accepted_station_calls =
      insert station
        (record {
          runtime_id = runtime;
          generation = g;
          count = next_count (lookup station c.accepted_station_calls);
        })
        c.accepted_station_calls;
}

unfoldable pub call_station_end :
    String → String → Value → DoorfastClient → DoorfastClient × Option Fields
call_station_end runtime station response c = elim (validate_reply response runtime station) [
  | none ↦ (c, none)
  | some reply ↦ elim (accepted_generation runtime reply c) [
    | none ↦ (c, some reply)
    | some g ↦ (note_call runtime station g c, some reply)
  ]
]

-- `payload[key] = positive_condition(value)`, unless the value is None.
abbrev pub with_condition : String → Value → Fields → Option Fields
with_condition key null d = some d
with_condition key v d = positive_condition v >>= λ n. some (field key (int (pos n)) d)

-- What the hangup of a station is sent with; the order of the keys is of no account.
unfoldable pub hangup_station_request :
    Value → String → Value → Value → DoorfastClient → Option Fields
hangup_station_request station reason generation operation c = do
  s ← require_station_id station
  guard (not (str_eq reason ""))
  runtime ← current_runtime_id c.status
  d ←
      with_condition "operation_id" operation
        (field "runtime_id" (str runtime) (field "station_id" (str s) end))
  with_condition "generation" generation d

-- The reply does not contradict a condition of the request.
abbrev pub keeps_condition : String → Fields → Fields → Bool
keeps_condition key payload reply = elim (positive (get payload key)) [
  | none ↦ true
  | some n ↦
      not (has reply key) || elim (positive (get reply key)) [ none ↦ false | some m ↦ m == n ]
]

unfoldable pub hangup_station_end : Fields → String → String → Value → Option Fields
hangup_station_end payload runtime station response = do
  reply ← validate_reply response runtime station
  guard (keeps_condition "operation_id" payload reply)
  guard (keeps_condition "generation" payload reply)
  some reply
