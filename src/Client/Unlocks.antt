-- ===== src/Client/Unlocks.antt =====
-- custom_components/doorfast/client.py: `unlock_station`, `_unlock_record_is_newer` and
-- `_fence_unlock_status`. A raised ValueError is `none`; the request's duration is an argument.
pub mod Fenced
use doorfastforha.Prelude.{
  ℕ, ◌+◌, String, Bool, true, false, ◌||◌, ◌&&◌, not, List, [], ◌∷◌, ◌++◌, Option, none, some,
  if◌then◌else◌, ◌==◌, ltb, str_eq, any, all, string_eq, Dict, lookup, insert, ◌>>=◌, ◌>>◌, guard,
  pos, is_some,
}
use doorfastforha.Value.{
  Value, null, bool, int, str, list, dict, Fields, end, field, get, has, put, as_dict, as_list,
  as_text, is_text, codes,
}
use doorfastforha.Value.Equal.{same_value, from_list}
use doorfastforha.ClientTypes.{require_station_id}
use doorfastforha.Access.{
  version_one, station_unlock_record, Acceptance, legacy, submitted, validate_unlock_reply,
}
use doorfastforha.Client.{DoorfastClient, current_runtime_id, same_text}

-- Python's order of texts, on their code points.
abbrev pub lex_lt : List ℕ → List ℕ → Bool
lex_lt [] [] = false
lex_lt [] (y ∷ ys) = true
lex_lt (x ∷ xs) [] = false
lex_lt (x ∷ xs) (y ∷ ys) = ltb x y || (x == y && lex_lt xs ys)

abbrev pub text_lt : String → String → Bool
text_lt s t = lex_lt (codes s) (codes t)

abbrev pub text_of : Value → String
text_of v = elim (as_text v) [ none ↦ "" | some s ↦ s ]

-- `row["request_id"]` and `row["phase"]` of an unlock record, which are texts.
abbrev pub request_of : Fields → String
request_of row = text_of (get row "request_id")

abbrev pub phase_order : Fields → ℕ
phase_order row =
    let phase = text_of (get row "phase") in
    if str_eq phase "waiting_media" then 0 else if str_eq phase "waiting_reply" then 1 else 2

unfoldable pub unlock_record_is_newer : Fields → Fields → Bool
unlock_record_is_newer candidate previous =
    if not (str_eq (request_of candidate) (request_of previous))
    then text_lt (request_of previous) (request_of candidate)
    else ltb (phase_order previous) (phase_order candidate)

-- `isinstance(row, dict) and isinstance(row.get("station_id"), str)`.
abbrev pub station_of : Value → Option String
station_of row = as_dict row >>= λ d. as_text (get d "station_id")

-- `sorted(...)`, by insertion.
abbrev pub place : String → List String → List String
place s [] = s ∷ []
place s (t ∷ ts) = if text_lt t s then t ∷ place s ts else s ∷ t ∷ ts

abbrev pub sorted : List String → List String
sorted [] = []
sorted (s ∷ ss) = place s (sorted ss)

-- A station whose row is missing gets its earlier record back.
unfoldable pub keep_accepted : Fields → List String → List Value → List Value
keep_accepted previous [] rows = rows
keep_accepted previous (s ∷ ss) rows = keep_accepted previous ss (
    if any (λ row. same_text (station_of row) s) rows
    then rows
    else elim (station_unlock_record previous s) [
      | none ↦ rows
      | some record_of ↦ rows ++ dict record_of ∷ []
    ])

-- The row has a valid unlock record of its station.
abbrev pub is_recorded : Fields → Value → Bool
is_recorded status row = elim (station_of row) [
  | none ↦ false
  | some s ↦ is_some (station_unlock_record status s)
]

-- `{**d, "request_to_acceptance_ms": v}`.
abbrev pub with_latency : Value → Fields → Fields
with_latency v d = put "request_to_acceptance_ms" v d

-- The later one of two records of a station; of the same request the latency stays.
unfoldable pub later_record : Value → Fields → Fields → Value
later_record row candidate previous =
    if unlock_record_is_newer previous candidate
    then dict previous
    else if str_eq (request_of candidate) (request_of previous)
        && has previous "request_to_acceptance_ms"
    then dict (with_latency (get previous "request_to_acceptance_ms") candidate)
    else row

unfoldable pub fence_record : Fields → Fields → Value → Value
fence_record previous status row = elim (station_of row) [
  | none ↦ row
  | some s ↦ elim (station_unlock_record status s) [
    | none ↦ row
    | some candidate ↦ elim (station_unlock_record previous s) [
      | none ↦ row
      | some p ↦ later_record row candidate p
    ]
  ]
]

abbrev pub fence_records : Fields → Fields → List Value → List Value
fence_records previous status [] = []
fence_records previous status (row ∷ rows) =
    fence_record previous status row ∷ fence_records previous status rows

-- The status with its rows fenced, if it is of the shared status' runtime.
unfoldable pub fenced_unlocks : Fields → List String → Fields → Option Fields
fenced_unlocks previous accepted status = do
  access ← version_one (get status "access")
  guard (same_value (get status "runtime_id") (get previous "runtime_id"))
  listed ← as_list (get access "requests")
  let rows =
      if all (is_recorded status) listed
      then keep_accepted previous (sorted accepted) listed
      else listed
  let requests = list (from_list (fence_records previous status rows))
  some (put "access" (dict (put "requests" requests access)) status)

-- `_fence_unlock_status`, from the shared status.
unfoldable pub fence_unlock_status : Fields → List String → Fields → Fields
fence_unlock_status previous accepted status = elim (fenced_unlocks previous accepted status) [
  | none ↦ status
  | some s ↦ s
]

-- What an unlock carries over its request.
pub record UnlockRequest : Type 0 where
  pub station_id : String
  pub runtime : Option String
  pub epoch : ℕ

abbrev pub epoch_of : String → Dict String ℕ → ℕ
epoch_of station epochs = elim (lookup station epochs) [ none ↦ 0 | some n ↦ n ]

unfoldable pub unlock_begin : Value → DoorfastClient → DoorfastClient × Option UnlockRequest
unlock_begin station c = elim (require_station_id station) [
  | none ↦ (c, none)
  | some s ↦
      (let epoch = epoch_of s c.unlock_epochs + 1 in
        (
          record c { unlock_epochs = insert s epoch c.unlock_epochs },
          some (record { station_id = s; runtime = current_runtime_id c.status; epoch = epoch }),
        ))
]

-- The row of an accepted unlock.
abbrev pub accepted_row : String → String → String → String → ℕ → Fields
accepted_row station owner request phase duration = field "station_id" (str station) (
    field "runtime_id" (str owner) (
      field "request_id" (str request) (
        field "phase" (str phase) (
          field "physical_result_confirmed" (bool false)
            (field "request_to_acceptance_ms" (int (pos duration)) end)))))

-- The row that is to be shown, if the record that is there is not of a later request.
unfoldable pub shown_row : Fields → Option Fields → ℕ → Option Fields
shown_row row none duration = some row
shown_row row (some old) duration =
    if unlock_record_is_newer row old
    then some row
    else if str_eq (request_of old) (request_of row)
    then some (with_latency (int (pos duration)) old)
    else none

-- The rows of other stations.
abbrev pub other_rows : String → List Value → List Value
other_rows station [] = []
other_rows station (v ∷ vs) =
    let rest = other_rows station vs in
    elim (as_dict v) [
      | none ↦ rest
      | some d ↦ if is_text (get d "station_id") station then rest else v ∷ rest
    ]

abbrev pub fields_of : Value → Fields
fields_of v = elim (as_dict v) [ none ↦ end | some d ↦ d ]

abbrev pub rows_of : Value → List Value
rows_of v = elim (as_list v) [ none ↦ [] | some rows ↦ rows ]

unfoldable pub show_unlock : String → Fields → Fields → Fields
show_unlock station row status =
    let access = fields_of (get status "access") in
    let rows = other_rows station (rows_of (get access "requests")) ++ dict row ∷ [] in
    put "access"
      (dict (put "requests" (list (from_list rows)) (put "version" (int (pos 1)) access))) status

unfoldable pub accept_unlock : String → Fields → DoorfastClient → DoorfastClient
accept_unlock station row c = record c {
  status = show_unlock station row c.status;
  unlock_acceptance_epochs =
      insert station (epoch_of station c.unlock_acceptance_epochs + 1) c.unlock_acceptance_epochs;
}

-- No later unlock of the station has begun, in the runtime of the request.
unfoldable pub is_latest_unlock : UnlockRequest → DoorfastClient → Bool
is_latest_unlock r c = elim r.runtime [
  | none ↦ false
  | some runtime ↦ elim (lookup r.station_id c.unlock_epochs) [
    | none ↦ false
    | some epoch ↦ epoch == r.epoch && same_text (current_runtime_id c.status) runtime
  ]
]

unfoldable pub take_unlock : UnlockRequest → Option Fields → DoorfastClient → DoorfastClient
take_unlock r none c = c
take_unlock r (some row) c = accept_unlock r.station_id row c

-- What an accepted reply does; a reply of an older bridge names no request.
unfoldable pub follow_unlock : UnlockRequest → ℕ → Acceptance → DoorfastClient → DoorfastClient
follow_unlock r duration (legacy key) c = c
follow_unlock r duration (submitted station owner request phase) c =
    if is_latest_unlock r c
    then take_unlock r
        (shown_row (accepted_row station owner request phase duration)
          (station_unlock_record c.status r.station_id) duration)
        c
    else c

unfoldable pub unlock_end :
    UnlockRequest → Value → ℕ → DoorfastClient → DoorfastClient × Option Acceptance
unlock_end r reply duration c = elim (validate_unlock_reply reply r.runtime r.station_id) [
  | none ↦ (c, none)
  | some acceptance ↦ (follow_unlock r duration acceptance c, some acceptance)
]

-- `unlock` with no station: that of the call.
abbrev pub unlock_target : Value → DoorfastClient → Value
unlock_target null c = elim (as_dict (get c.status "call")) [
  | none ↦ null
  | some call ↦ get call "station_id"
]
unlock_target station c = station
