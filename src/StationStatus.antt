-- ===== src/StationStatus.antt =====
-- custom_components/doorfast/station_status.py, `preview_attributes`: what is shown of a station's
-- video. The dictionary is a record; a key that is left out is `none`.
pub mod Live
use doorfastforha.Prelude.{
  ℕ, ◌-◌, ◌≡◌, refl, String, Bool, true, false, ◌||◌, ◌&&◌, not, List, [], ◌∷◌, Option, none, some,
  if◌then◌else◌, ◌==◌, leb, contains, string_eq, ◌>>=◌, str_eq, is_some, any, arith, if_cases,
  Bool-cases, inl, inr,
}
use doorfastforha.Value.{
  Value, str, dict, Fields, get, as_dict, as_list, as_text, as_bool, is_text, is_true, is_false,
}
use doorfastforha.ClientTypes.{uint64}
use doorfastforha.SessionDiagnostics.{
  Operation, CallPhase, calling, stopping, in_call, station_call_phase, records, of_station, one_of,
}
use doorfastforha.SessionDiagnostics.Reports.{
  MonitorReport, station_diagnostics, station_call_diagnostics, available_media,
}

pub record Preview : Type 0 where
  pub phase : Option String
  pub source_live : Option Bool
  pub monitor : MonitorReport
  pub operation : Option Operation
  pub preempted_generation : Option ℕ
  pub numbers : List (String × ℕ)
  pub first_frame_latency_ms : Option ℕ

abbrev pub phase_name : Option CallPhase → Option String
phase_name none = none
phase_name (some calling) = some "calling"
phase_name (some stopping) = some "stopping"
phase_name (some in_call) = some "in_call"

abbrev pub is_ended : Value → Bool
is_ended v = is_some (one_of ("idle" ∷ "stopping" ∷ "preempted" ∷ "failed" ∷ []) v)

-- A session that makes a call.
abbrev pub makes_call : Fields → Bool
makes_call d =
    is_text (get d "purpose") "call"
    && is_some
        (one_of ("requesting" ∷ "awaiting_video" ∷ "publishing" ∷ "viewing" ∷ []) (get d "state"))

-- No session is the station's: idle, or preempted by an active call.
unfoldable pub without_session :
    Option CallPhase → Fields → List Fields → String → Preview → Preview
without_session (some p) media sessions station base = base
without_session none media sessions station base =
    elim (uint64 1 (get media "preempted_generation")) [
      | none ↦ record base { phase = some "idle" }
      | some g ↦
          if is_text (get media "preempted_station_id") station && any makes_call sessions
          then record base {
            phase = some "preempted";
            source_live = some false;
            preempted_generation = some g;
          }
          else record base { phase = some "idle" }
    ]

abbrev pub source_phase : Option Bool → Option String
source_phase none = none
source_phase (some true) = some "live"
source_phase (some false) = some "reconnecting"

-- The phase of the station's one session, while no call has a phase.
unfoldable pub session_phase : Fields → Option String
session_phase d =
    let state = get d "state" in
    if is_ended state
    then as_text state
    else if is_text (get d "purpose") "call"
    then some "requesting"
    else if is_text state "requesting" || is_text state "queued"
    then some "requesting"
    else if is_text state "awaiting_video"
    then some "awaiting_video"
    else if (is_text state "publishing" || is_text state "viewing") && is_true (get d "ready")
    then source_phase (as_bool (get d "source_live"))
    else none

abbrev pub number_fields : List String
number_fields =
    "generation" ∷ "started_ms" ∷ "confirmed_ms" ∷ "first_frame_ms" ∷ "publication_ms"
    ∷ "control_requests" ∷ "busy_replies" ∷ "queue_drops" ∷ "last_error" ∷ []

abbrev pub numbers_of : Fields → List String → List (String × ℕ)
numbers_of d [] = []
numbers_of d (k ∷ ks) =
    let rest = numbers_of d ks in elim (uint64 0 (get d k)) [ none ↦ rest | some n ↦ (k, n) ∷ rest ]

-- From the start to the first frame, if there was one.
unfoldable pub latency : Option ℕ → Option ℕ → Option ℕ
latency (some started) (some first) =
    if leb 1 first && leb started first then some (first - started) else none
latency _ _ = none

unfoldable pub with_session : Option CallPhase → Fields → Preview → Preview
with_session call d base = record base {
  phase = if is_some call then base.phase else session_phase d;
  source_live = if is_ended (get d "state") then some false else as_bool (get d "source_live");
  numbers = numbers_of d number_fields;
  first_frame_latency_ms =
      latency (uint64 0 (get d "started_ms")) (uint64 0 (get d "first_frame_ms"));
}

abbrev pub of_sessions :
    Option CallPhase → Fields → List Fields → String → List Fields → Preview → Preview
of_sessions call media sessions station [] base = without_session call media sessions station base
of_sessions call media sessions station (d ∷ []) base = with_session call d base
of_sessions call media sessions station (d ∷ _ ∷ _) base = base

abbrev pub shown : Option CallPhase → String → Option (Fields × List Fields) → Preview → Preview
shown call station none base = base
shown call station (some (media, sessions)) base =
    of_sessions call media sessions station (of_station station sessions) base

-- The media record, if it is available, with its sessions.
unfoldable pub media_sessions : Fields → Option (Fields × List Fields)
media_sessions status = do
  media ← available_media (dict status)
  vs ← as_list (get media "sessions")
  ds ← records vs
  some (media, ds)

unfoldable pub preview_attributes : Fields → String → Preview
preview_attributes status station =
    let call = station_call_phase (dict status) (str station) in
    shown call station (media_sessions status) (record {
      phase = phase_name call;
      source_live = none;
      monitor = station_diagnostics (dict status) (str station);
      operation = station_call_diagnostics (dict status) (str station);
      preempted_generation = none;
      numbers = [];
      first_frame_latency_ms = none;
    })
