-- ===== src/Access.antt =====
-- custom_components/doorfast/access_status.py: which unlock capability and which unlock record of a
-- status belong to a station, and which replies to an unlock are accepted. An empty dictionary, None
-- and a raised ValueError are `none`.
pub mod Owned
use doorfastforha.Prelude.{
  ℕ, String, Bool, true, false, ◌||◌, ◌&&◌, not, List, [], ◌∷◌, Option, none, some, if◌then◌else◌,
  ◌==◌, leb, contains, string_eq, all, length, ◌>>=◌, ◌>>◌, guard, str_eq,
}
use doorfastforha.Value.{
  Value, null, bool, int, float, str, list, dict, Fields, get, has, as_dict, as_list, as_text,
  as_bool, as_nat, is_text, is_true, codes, is_hex, is_lower, is_identifier_char,
}
use doorfastforha.ClientTypes.{first_is_lower, is_runtime_id}
use doorfastforha.SessionDiagnostics.{one_of, of_station, only}

-- `_valid_field("station_id", value)`: the pattern [a-z][a-z0-9_]{0,31}.
unfoldable pub is_station_field : String → Bool
is_station_field s = leb (length (codes s)) 32 && first_is_lower (codes s)

-- `_hex_id`, with and without `request`.
unfoldable pub is_hex_id : String → Bool
is_hex_id s = is_runtime_id (codes s)

unfoldable pub is_request_id : String → Bool
is_request_id s = is_hex_id s && not (str_eq s "0000000000000000")

abbrev pub operation_phases : List String
operation_phases =
    "waiting_media" ∷ "waiting_reply" ∷ "protocol_completed" ∷ "protocol_rejected"
    ∷ "preparation_timeout" ∷ "expired" ∷ "cancelled" ∷ "send_failed" ∷ []

abbrev pub reasons : List String
reasons =
    "none" ∷ "disabled" ∷ "material_missing" ∷ "material_invalid" ∷ "store_unavailable"
    ∷ "station_unavailable" ∷ []

-- `_version_one`, with the access record.
unfoldable pub version_one : Value → Option Fields
version_one v = do
  access ← as_dict v
  version ← as_nat (get access "version")
  guard (version == 1)
  some access

-- The rows that are objects.
abbrev pub objects : List Value → List Fields
objects [] = []
objects (v ∷ vs) = let rest = objects vs in elim (as_dict v) [ none ↦ rest | some d ↦ d ∷ rest ]

pub record Configuration : Type 0 where
  pub mode : String
  pub configured : Bool
  pub credential_source : String
  pub reason : String

abbrev pub is_source_of : String → String → Bool
is_source_of mode source =
    (str_eq mode "inherit" && str_eq source "global")
    || (str_eq mode "direct" && str_eq source "station")

unfoldable pub is_consistent : Configuration → Bool
is_consistent c =
    if c.configured
    then str_eq c.reason "none" && is_source_of c.mode c.credential_source
    else str_eq c.credential_source "none"
      && (not (str_eq c.reason "none")
          && (not (str_eq c.reason "disabled") || str_eq c.mode "disabled"))

unfoldable pub station_unlock_configuration : Fields → String → Option Configuration
station_unlock_configuration status station = do
  guard (is_station_field station)
  runtime ← as_text (get status "runtime_id")
  guard (is_hex_id runtime)
  access ← version_one (get status "access")
  rows ← as_list (get access "stations")
  row ← only (of_station station (objects rows))
  mode ← one_of ("inherit" ∷ "direct" ∷ "disabled" ∷ []) (get row "mode")
  configured ← as_bool (get row "configured")
  source ← one_of ("none" ∷ "global" ∷ "station" ∷ []) (get row "credential_source")
  reason ← one_of reasons (get row "reason")
  let c : Configuration = record {
    mode = mode;
    configured = configured;
    credential_source = source;
    reason = reason;
  }
  guard (is_consistent c)
  some c

-- The rows of the runtime with the request's number.
abbrev pub of_request : String → String → List Fields → List Fields
of_request runtime request [] = []
of_request runtime request (d ∷ ds) =
    let rest = of_request runtime request ds in
    if is_text (get d "runtime_id") runtime && is_text (get d "request_id") request
    then d ∷ rest
    else rest

unfoldable pub station_unlock_record : Fields → String → Option Fields
station_unlock_record status station = do
  guard (is_station_field station)
  access ← version_one (get status "access")
  runtime ← as_text (get status "runtime_id")
  guard (is_hex_id runtime)
  rows ← as_list (get access "requests")
  row ← only (of_station station (objects rows))
  guard (is_text (get row "runtime_id") runtime)
  request ← as_text (get row "request_id")
  guard (is_request_id request)
  phase ← one_of operation_phases (get row "phase")
  guard (length (of_request runtime request (objects rows)) == 1)
  some row

pub data Acceptance : Type 0 where
  -- The reply of an older bridge, under the key that says so.
  legacy : String → Acceptance
  -- The station, the runtime, the request and its phase.
  submitted : String → String → String → String → Acceptance

abbrev pub is_runtime_of : Option String → String → Bool
is_runtime_of none runtime = true
is_runtime_of (some r) runtime = str_eq runtime r

-- A reply without an identity.
unfoldable pub accept_legacy : Fields → String → Option Acceptance
accept_legacy d station =
    let key = if has d "submitted" then "submitted" else "queued" in
    (guard
        (is_true (get d key) && (not (has d "station_id") || is_text (get d "station_id") station))
      >> some (legacy key))

unfoldable pub accept_submitted : Fields → Option String → String → Option Acceptance
accept_submitted d runtime station = do
  guard (is_true (get d "submitted"))
  guard (is_text (get d "station_id") station)
  owner ← as_text (get d "runtime_id")
  guard (is_hex_id owner)
  guard (is_runtime_of runtime owner)
  request ← as_text (get d "request_id")
  guard (is_request_id request)
  phase ← one_of operation_phases (get d "phase")
  some (submitted station owner request phase)

unfoldable pub validate_unlock_reply : Value → Option String → String → Option Acceptance
validate_unlock_reply reply runtime station = do
  d ← as_dict reply
  if has d "runtime_id" || (has d "request_id" || has d "phase")
      then accept_submitted d runtime station
      else accept_legacy d station
