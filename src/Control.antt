-- ===== src/Control.antt =====
-- custom_components/doorfast/station_control.py, generation.py and routing.py: replies to station
-- commands, and what a command is bound to. A raised ValueError or TypeError is `none`.
pub mod Bound
use doorfastforha.Prelude.{
  ℕ, zero, suc, String, Bool, true, false, ◌||◌, ◌&&◌, not, List, [], ◌∷◌, Option, none, some,
  if◌then◌else◌, ◌==◌, ltb, contains, string_eq, all, length, ◌>>=◌, ◌>>◌, guard, str_eq, is_some,
  Dict, lookup, Eq, pos, ℤ,
}
use doorfastforha.Value.{
  Value, null, bool, int, float, str, list, dict, Fields, end, field, get, has, as_dict, as_text,
  as_bool, as_nat, is_text, positive,
}
use doorfastforha.ClientTypes.{uint64}
use doorfastforha.SessionDiagnostics.{station_call_stages, station_call_errors}

-- A field that is absent, or passes the test.
abbrev pub optional : (Value → Bool) → Fields → String → Bool
optional ok d k = not (has d k) || ok (get d k)

abbrev pub is_bool : Value → Bool
is_bool v = is_some (as_bool v)

-- `reply["state"] in _STATION_CALL_STAGES | {"ringing", "preview"}`.
abbrev pub is_state : Value → Bool
is_state v = elim (as_text v) [
  | none ↦ false
  | some s ↦ contains s ("ringing" ∷ "preview" ∷ station_call_stages)
]

abbrev pub reply_keys : List String
reply_keys = "runtime_id" ∷ "station_id" ∷ "generation" ∷ "operation_id" ∷ "state" ∷ "queued" ∷ []

-- The fields of those names, in their order.
abbrev pub restrict : List String → Fields → Fields
restrict keys end = end
restrict keys (field k v d) =
    let rest = restrict keys d in if contains k keys then field k v rest else rest

-- `reply.get("operation_id", 0) > 0`, once it is known to be an unsigned integer.
abbrev pub has_operation : Fields → Bool
has_operation d = is_some (positive (get d "operation_id"))

unfoldable pub is_reply : Fields → String → String → Bool
is_reply d runtime station =
    (optional (λ v. is_text v runtime) d "runtime_id"
      && optional (λ v. is_text v station) d "station_id")
    && ((optional (λ v. is_some (uint64 0 v)) d "generation"
          && optional (λ v. is_some (uint64 0 v)) d "operation_id")
        && ((optional is_bool d "queued" && optional is_state d "state")
            && (not (has_operation d)
                || all (has d)
                    ("runtime_id" ∷ "station_id" ∷ "generation" ∷ "state" ∷ "queued" ∷ []))))

unfoldable pub validate_reply : Value → String → String → Option Fields
validate_reply reply runtime station = do
  d ← as_dict reply
  guard (is_reply d runtime station)
  some (restrict reply_keys d)

unfoldable pub positive_condition : Value → Option ℕ
positive_condition v = uint64 1 v

-- `validate_call_parameters`: whether it returns.
abbrev pub validate_call_parameters : Value → Value → Value → Bool
validate_call_parameters primary secondary duration =
    is_some (positive primary) && (is_some (positive secondary) && is_some (positive duration))

-- `_ADMISSION_ERRORS.get(code, code)`.
abbrev pub admission_error : String → String
admission_error code =
    if str_eq code "capacity_busy"
    then "busy"
    else if contains code ("station_not_found" ∷ "station_disabled" ∷ "route_unavailable" ∷ [])
    then "station_unavailable"
    else if str_eq code "encoder_failed"
    then "media_failed"
    else code

-- `stable_error`, on the code of the error, if that is a text.
unfoldable pub stable_error : Option String → String
stable_error none = "unknown"
stable_error (some code) =
    let known = admission_error code in
    if contains known station_call_errors then known else "unknown"

-- generation.py: an explicit generation, or that of the call; None is `null`.
abbrev pub candidate : Fields → Value → Value
candidate status null = elim (as_dict (get status "call")) [
  | none ↦ null
  | some call ↦ get call "generation"
]
candidate status v = v

unfoldable pub resolve_generation : Fields → Value → Option ℕ
resolve_generation status generation = positive (candidate status generation)

unfoldable pub is_ringing : Fields → Bool
is_ringing status = elim (as_dict (get status "call")) [
  | none ↦ false
  | some call ↦ is_text (get call "session") "ringing"
]

-- routing.py: the client that is named, or the only one.
unfoldable pub select_client : {A : Type 0} → Dict String A → Option String → Option A
select_client clients (some entry) = lookup entry clients
select_client [] none = none
select_client ((id, c) ∷ []) none = some c
select_client ((id, c) ∷ p ∷ ps) none = none
