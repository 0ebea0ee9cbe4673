-- ===== src/SessionDiagnostics/Reports.antt =====
-- custom_components/doorfast/session_diagnostics.py: the reports on calls and monitor sessions. A
-- report is a record in place of the dictionary, without the prefix of its keys.
use doorfastforha.Prelude.{
  ℕ, ◌≡◌, refl, String, ◌&&◌, not, List, [], ◌∷◌, Option, none, some, if◌then◌else◌, ◌==◌,
  string_eq, ◌>>=◌, guard, ◌>>◌, str_eq, is_some, any,
}
use doorfastforha.Value.{Value, Fields, end, get, as_dict, as_list, as_nat, is_text, is_false}
use doorfastforha.ClientTypes.{require_station_id, uint64}
use doorfastforha.SessionDiagnostics.{
  Operation, call_timers, one_of, station_call_operation, records, matching_record,
}

abbrev pub media_timers : List String
media_timers = "first_frame" ∷ "reconnect" ∷ call_timers

abbrev pub media_ends : List String
media_ends =
    "none" ∷ "local_hangup" ∷ "peer_hangup" ∷ "session_timeout" ∷ "confirmation_timeout"
    ∷ "preempted" ∷ "runtime_reset" ∷ "unknown" ∷ []

abbrev pub call_ends : List String
call_ends = "heartbeat_timeout" ∷ media_ends

-- The faults that calls and media share.
abbrev pub common_faults : List String
common_faults =
    "none" ∷ "dispatch_failed" ∷ "dispatch_timeout" ∷ "confirmation_rejected"
    ∷ "confirmation_timeout" ∷ "preempted" ∷ "cancelled" ∷ "runtime_reset" ∷ "unknown" ∷ []

abbrev pub call_faults : List String
call_faults = "heartbeat_timeout" ∷ common_faults

abbrev pub media_faults : List String
media_faults =
    "first_frame_timeout" ∷ "source_stalled" ∷ "encoder_failed" ∷ "publisher_failed"
    ∷ "capacity_busy" ∷ common_faults

-- `_enum`.
unfoldable pub enum : List String → Value → String
enum allowed v = elim (one_of allowed v) [ none ↦ "unknown" | some s ↦ s ]

pub record Codes : Type 0 where
  pub timer : String
  pub remaining_ms : Option ℕ
  pub end_reason : String
  pub fault : String

-- `_fields`.
unfoldable pub codes_of : Fields → List String → List String → List String → String → Codes
codes_of d timers ends faults fault_field =
    let timer = enum timers (get d "timer") in
    record {
      timer = timer;
      remaining_ms = if str_eq timer "unknown" then none else uint64 0 (get d "remaining_ms");
      end_reason = enum ends (get d "end_reason");
      fault = enum faults (get d fault_field);
    }

-- `station_call_diagnostics`: the operation, if it is the station's.
unfoldable pub station_call_diagnostics : Value → Value → Option Operation
station_call_diagnostics status station_id = do
  station ← require_station_id station_id
  op ← station_call_operation status
  owner ← op.station_id
  guard (str_eq owner station)
  some op

pub record CallReport : Type 0 where
  pub codes : Codes
  pub last_station_id : Option String
  pub last_generation : Option ℕ

abbrev pub call_of : Value → Fields
call_of status = elim (as_dict status) [
  | none ↦ end
  | some d ↦ elim (as_dict (get d "call")) [ none ↦ end | some call ↦ call ]
]

-- A station, unless it is the word that stands for an unknown one.
unfoldable pub known_station : Value → Option String
known_station v = do
  station ← require_station_id v
  guard (not (str_eq station "unknown"))
  some station

unfoldable pub call_diagnostics : Value → CallReport
call_diagnostics status =
    let call = call_of status in
    let station = known_station (get call "last_station_id") in
    let generation = uint64 1 (get call "last_generation") in
    record {
      codes = codes_of call call_timers call_ends call_faults "fault";
      last_station_id = if is_some generation then station else none;
      last_generation = if is_some station then generation else none;
    }

-- The codes of a monitor session, and the generation of its last result.
abbrev pub MonitorReport : Type 0
MonitorReport = Codes × Option ℕ

unfoldable pub media_codes : Fields → Codes
media_codes d = codes_of d media_timers media_ends media_faults "failure_reason"

-- The last result of the station, if it is over.
unfoldable pub terminal_record : Fields → String → Option (Fields × ℕ)
terminal_record media station = do
  r ← matching_record (get media "last_results") station
  remaining ← as_nat (get r.0 "remaining_ms")
  guard (is_text (get r.0 "timer") "none" && remaining == 0)
  some r

abbrev pub report : Option (Fields × ℕ) → Codes
report none = media_codes end
report (some (d, g)) = media_codes d

-- A record of the station among the sessions blocks the last result, even if it is invalid.
unfoldable pub current_record :
    Fields → String → List Fields → Option (Fields × ℕ) → Option (Fields × ℕ)
current_record media station sessions terminal =
    if any (λ d. is_text (get d "station_id") station) sessions
    then matching_record (get media "sessions") station
    else terminal

unfoldable pub available_media : Value → Option Fields
available_media status = do
  d ← as_dict status
  media ← as_dict (get d "media")
  guard (not (is_false (get media "available")))
  some media

abbrev pub generation_of : Option (Fields × ℕ) → Option ℕ
generation_of none = none
generation_of (some (d, g)) = some g

abbrev pub station_report : Fields → String → MonitorReport
station_report media station =
    let terminal = terminal_record media station in
    elim (as_list (get media "sessions") >>= records) [
      | none ↦ (media_codes end, generation_of terminal)
      | some sessions ↦
          (report (current_record media station sessions terminal), generation_of terminal)
    ]

unfoldable pub station_diagnostics : Value → Value → MonitorReport
station_diagnostics status station_id = elim (require_station_id station_id) [
  | none ↦ (media_codes end, none)
  | some station ↦ elim (available_media status) [
    | none ↦ (media_codes end, none)
    | some media ↦ station_report media station
  ]
]

-- A call's last station and last generation are reported together or not at all.
call_diagnostics_paired :
    (status : Value)
    → is_some (call_diagnostics status).last_station_id
      ≡ is_some (call_diagnostics status).last_generation
unfolding call_diagnostics
call_diagnostics_paired status =
    paired (known_station (get (call_of status) "last_station_id"))
      (uint64 1 (get (call_of status) "last_generation"))
  where
    paired :
        (s : Option String) (g : Option ℕ)
        → is_some (if is_some g then s else none) ≡ is_some (if is_some s then g else none)
    paired none none = refl
    paired none (some g) = refl
    paired (some s) none = refl
    paired (some s) (some g) = refl
