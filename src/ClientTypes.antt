-- ===== src/ClientTypes.antt =====
-- custom_components/doorfast/client_types.py: the validators of station data and of the identity of
-- an audio stream. A raised ValueError (TypeError, AudioStreamError) is `none`.
pub mod Names
use doorfastforha.Prelude.{
  ℕ, zero, suc, ◌+◌, ◌≤◌, ◌≡◌, String, Bool, true, false, ◌||◌, ◌&&◌, not, List, [], ◌∷◌, Option,
  none, some, if◌then◌else◌, ltb, leb, ◌==◌, contains, string_eq, all, length, ◌>>=◌, ◌>>◌, guard,
  str_eq,
}
use doorfastforha.Value.{
  Value, null, bool, int, float, str, list, dict, Fields, get, as_dict, as_text, as_bool, as_nat,
  is_text, codes, codes_eq, is_ascii, is_lower, is_upper, is_digit, is_hex, is_identifier_char,
  uint64_limit,
}
use doorfastforha.Audio.Hub.{AudioIdentity}

abbrev pub first_is_lower : List ℕ → Bool
first_is_lower [] = false
first_is_lower (c ∷ cs) = is_lower c && all is_identifier_char cs

-- The test of `require_station_id` on the characters of a text.
unfoldable pub is_station_id : List ℕ → Bool
is_station_id cs = is_ascii cs && (leb 1 (length cs) && (leb (length cs) 32 && first_is_lower cs))

unfoldable pub require_station_id : Value → Option String
require_station_id v = do s ← as_text v; guard (is_station_id (codes s)); some s

unfoldable pub require_text : Value → ℕ → Option String
require_text v maximum = do
  s ← as_text v
  let cs = codes s
  guard (not (length cs == 0) && (is_ascii cs && leb (length cs) maximum))
  some s

-- `value[2::3]`, from the state that counts down to the next taken character.
abbrev pub every_third : ℕ → List ℕ → List ℕ
every_third n [] = []
every_third zero (c ∷ cs) = c ∷ every_third 2 cs
every_third (suc n) (c ∷ cs) = every_third n cs

-- A character in front of the first part.
abbrev pub onto_first : ℕ → List (List ℕ) → List (List ℕ)
onto_first c [] = (c ∷ []) ∷ []
onto_first c (p ∷ ps) = (c ∷ p) ∷ ps

-- `value.split(":")`.
abbrev pub split_colon : List ℕ → List (List ℕ)
split_colon [] = [] ∷ []
split_colon (c ∷ cs) =
    let rest = split_colon cs in if c == b':' then [] ∷ rest else onto_first c rest

abbrev pub first_is : List ℕ → List (List ℕ) → Bool
first_is t [] = false
first_is t (p ∷ ps) = codes_eq p t

unfoldable pub is_logical_address : List ℕ → Bool
is_logical_address cs =
    let parts = split_colon cs in
    length cs == 17
    && (codes_eq (every_third 2 cs) (codes ":::::")
        && (length parts == 6
            && (first_is (codes "32") parts && all (λ p. length p == 2 && all is_hex p) parts)))

unfoldable pub require_logical_address : Value → Option String
require_logical_address v = do s ← as_text v; guard (is_logical_address (codes s)); some s

abbrev pub is_stream_char : ℕ → Bool
is_stream_char c = is_lower c || (is_upper c || (is_digit c || (c == b'_' || c == b'-')))

unfoldable pub require_stream_name : Value → Option String
require_stream_name v = do
  s ← as_text v
  let cs = codes s
  guard (leb 1 (length cs) && (leb (length cs) 64 && (is_ascii cs && all is_stream_char cs)))
  some s

unfoldable pub require_route_source : Value → Option String
require_route_source v = do
  s ← as_text v
  guard (contains s ("none" ∷ "discovered" ∷ "configured" ∷ []))
  some s

-- None or an integer of at least 0; the outer option is the exception.
unfoldable pub optional_non_negative_int : Value → Option (Option ℕ)
optional_non_negative_int null = some none
optional_non_negative_int v = do n ← as_nat v; some (some n)

pub record DoorfastStation : Type 0 where
  pub station_id : String
  pub name : String
  pub logical_address : String
  pub enabled : Bool
  pub stream_name : String
  pub route_source : String
  pub route_fresh : Bool
  pub monitorable : Bool
  pub last_seen_ms : Option ℕ

unfoldable pub reachable : DoorfastStation → Bool
reachable s = s.enabled && (s.route_fresh && s.monitorable)

unfoldable pub from_payload : Value → Option DoorfastStation
from_payload v = do
  d ← as_dict v
  station_id ← require_station_id (get d "id")
  name ← require_text (get d "name") 128
  address ← require_logical_address (get d "logical_address")
  enabled ← as_bool (get d "enabled")
  stream ← require_stream_name (get d "stream_name")
  source ← require_route_source (get d "route_source")
  fresh ← as_bool (get d "route_fresh")
  monitorable ← as_bool (get d "monitorable")
  seen ← optional_non_negative_int (get d "last_seen_ms")
  some (record {
    station_id = station_id;
    name = name;
    logical_address = address;
    enabled = enabled;
    stream_name = stream;
    route_source = source;
    route_fresh = fresh;
    monitorable = monitorable;
    last_seen_ms = seen;
  })

pub record DoorfastStationSnapshot : Type 0 where
  pub runtime_id : String
  pub revision : ℕ
  pub stations : List DoorfastStation

-- `type(value) is int and minimum <= value < (1 << 64)`.
unfoldable pub uint64 : ℕ → Value → Option ℕ
uint64 minimum v = do n ← as_nat v; guard (leb minimum n && ltb n uint64_limit); some n

-- Sixteen hexadecimal digits.
unfoldable pub is_runtime_id : List ℕ → Bool
is_runtime_id cs = length cs == 16 && all is_hex cs
