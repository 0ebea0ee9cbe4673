-- ===== src/Pcm/Wire.antt =====
-- custom_components/doorfast/pcm.py: what the producer reads from statuses and from the replies of
-- the bridge. A reading that the source refuses is `none`; the producer says with which code.
use doorfastforha.Prelude.{
  ℕ, ◌+◌, String, Bool, true, false, ◌||◌, ◌&&◌, not, List, [], ◌∷◌, Option, none, some,
  if◌then◌else◌, ◌==◌, contains, string_eq, length, any, is_some, all, ◌>>=◌, ◌>>◌, guard, str_eq,
}
use doorfastforha.Value.{
  Value, list, dict, Fields, get, has, as_dict, as_text, is_text, is_true, codes, is_hex,
}
use doorfastforha.ClientTypes.{uint64, is_runtime_id}
use doorfastforha.SessionDiagnostics.{CallPhase, in_call, station_call_phase}

-- client_types.py, `PcmHttpReply`.
pub record Reply : Type 0 where
  pub status : ℕ
  pub payload : Value

-- The status of the bridge, up to the tests that raise `status_invalid`.
pub record Sampled : Type 0 where
  pub runtime : String
  pub status : Fields
  pub call : Fields
  pub audio_tx : Fields

unfoldable pub sample : Value → Option Sampled
sample v = do
  d ← as_dict v
  runtime ← as_text (get d "runtime_id")
  guard (is_runtime_id (codes runtime))
  call ← as_dict (get d "call")
  audio_tx ← as_dict (get d "audio_tx")
  some (record { runtime = runtime; status = d; call = call; audio_tx = audio_tx })

abbrev pub is_in_call : Option CallPhase → Bool
is_in_call (some in_call) = true
is_in_call _ = false

abbrev pub is_for : Option String → Value → Bool
is_for none actual = true
is_for (some station) actual = is_text actual station

-- The generation of a call that is ready for the microphone; the tests that raise `status_not_ready`.
unfoldable pub ready : Sampled → Option String → Option ℕ
ready s station = do
  guard (is_text (get s.call "session") "talking")
  generation ← uint64 0 (get s.call "generation")
  guard (not (generation == 0) && is_true (get s.audio_tx "active"))
  audio_generation ← uint64 0 (get s.audio_tx "generation")
  guard (audio_generation == generation && is_for station (get s.call "station_id"))
  guard (
      not (has s.status "station_call")
      || is_in_call (station_call_phase (dict s.status) (get s.call "station_id")))
  some generation

-- The identity and the counts that every reply about a session carries.
pub record Common : Type 0 where
  pub runtime : String
  pub generation : ℕ
  pub accepted : ℕ
  pub next_sequence : ℕ

unfoldable pub common_payload : Fields → Option Common
common_payload d = do
  runtime ← as_text (get d "runtime_id")
  guard (is_runtime_id (codes runtime))
  generation ← uint64 0 (get d "generation")
  accepted ← uint64 0 (get d "accepted_frames")
  next ← uint64 0 (get d "next_sequence")
  some (record {
    runtime = runtime;
    generation = generation;
    accepted = accepted;
    next_sequence = next;
  })

pub data Operation : Type 0 where
  opening : Operation
  submitting : ℕ → ℕ → Operation
  ending : ℕ → Operation

-- `_TOKEN_RE`.
abbrev pub is_token : List ℕ → Bool
is_token cs = length cs == 32 && all is_hex cs

-- What each operation asks of the lease, the token and the counts.
abbrev pub fits : Operation → ℕ → String → Common → Bool
fits opening lease token c = lease == 2000 && (is_token (codes token) && c.accepted == 0)
fits (submitting frames sequence) lease token c =
    lease == 2000
    && (str_eq token "" && (c.accepted == frames && c.next_sequence == sequence + frames))
fits (ending sequence) lease token c =
    lease == 0 && (str_eq token "" && (c.accepted == 0 && c.next_sequence == sequence))

-- `_validate_success`: the token and the counts.
unfoldable pub validate_success : Reply → String → ℕ → Operation → Option (String × Common)
validate_success reply runtime generation operation = do
  guard (reply.status == 200)
  d ← as_dict reply.payload
  c ← common_payload d
  lease ← uint64 0 (get d "lease_ms")
  token ← as_text (get d "audio_session")
  guard (
      is_text (get d "status") "success"
      && (str_eq c.runtime runtime && c.generation == generation))
  guard (fits operation lease token c)
  some (token, c)

abbrev pub route_conflicts : Operation → List String
route_conflicts opening =
    "audio_tx_inactive" ∷ "call_not_talking" ∷ "generation_mismatch" ∷ "producer_busy"
    ∷ "runtime_mismatch" ∷ []
route_conflicts (submitting _ _) =
    "audio_tx_inactive" ∷ "call_not_talking" ∷ "generation_mismatch" ∷ "runtime_mismatch"
    ∷ "sequence_duplicate" ∷ "sequence_gap" ∷ "session_expired" ∷ "session_mismatch" ∷ []
route_conflicts (ending _) =
    "audio_tx_inactive" ∷ "call_not_talking" ∷ "generation_mismatch" ∷ "runtime_mismatch"
    ∷ "session_expired" ∷ "session_mismatch" ∷ []

abbrev pub route_outages : Operation → List String
route_outages opening =
    "clock_unavailable" ∷ "random_unavailable" ∷ "state_unavailable" ∷ "status_unavailable" ∷ []
route_outages (submitting _ _) =
    "clock_unavailable" ∷ "pacing_unavailable" ∷ "send_unavailable" ∷ "state_unavailable"
    ∷ "status_unavailable" ∷ []
route_outages (ending _) = "state_unavailable" ∷ "status_unavailable" ∷ []

unfoldable pub route_errors : Operation → ℕ → Option (List String)
route_errors operation status =
    if status == 409
    then some (route_conflicts operation)
    else if status == 503
    then some (route_outages operation)
    else none

abbrev pub identity_fields : List String
identity_fields = "runtime_id" ∷ "generation" ∷ "accepted_frames" ∷ "next_sequence" ∷ []

-- An error reply: its code, and the session that it speaks of, unless it speaks of none.
unfoldable pub validate_error : Reply → Operation → Option (String × Option Common)
validate_error reply operation = do
  allowed ← route_errors operation reply.status
  d ← as_dict reply.payload
  code ← as_text (get d "error")
  guard (contains code allowed && not (has d "status"))
  if any (has d) identity_fields
      then (guard (all (has d) identity_fields) >> common_payload d >>= λ c. some (code, some c))
      else (guard
            (reply.status == 503 && contains code ("state_unavailable" ∷ "status_unavailable" ∷ []))
          >> some (code, none))

-- A list or a dictionary as the code: the source's lookup among the allowed codes raises a TypeError.
unfoldable pub has_unhashable_code : Reply → Operation → Bool
has_unhashable_code reply operation =
    is_some (route_errors operation reply.status) && elim (as_dict reply.payload) [
      | none ↦ false
      | some d ↦ elim (get d "error") [ list _ ↦ true | dict _ ↦ true | _ ↦ false ]
    ]
