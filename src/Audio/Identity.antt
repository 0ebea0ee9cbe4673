-- ===== src/Audio/Identity.antt =====
-- custom_components/doorfast/client_types.py, `AudioIdentity.from_status`: the identity that may read
-- a station's sound. A raised AudioStreamError is `none`; an expectation of None is `null`.
use doorfastforha.Prelude.{
  ℕ, ◌≡◌, refl, Bool, true, false, ◌&&◌, Option, none, some, ◌==◌, ◌>>=◌, ◌>>◌, guard, >>=-eq-some,
  >>-eq-some, some_inj, subst,
}
use doorfastforha.Value.{Value, null, str, get, as_dict, as_text, as_nat, is_text, codes}
use doorfastforha.ClientTypes.{require_station_id, uint64, is_runtime_id}
use doorfastforha.SessionDiagnostics.{CallPhase, calling, stopping, in_call, station_call_phase}
use doorfastforha.Audio.Hub.{AudioIdentity}

-- `expected_generation`: None, or an integer from 1 to 2^64 - 1; the outer option is the exception.
abbrev pub expected : Value → Option (Option ℕ)
expected null = some none
expected v = uint64 1 v >>= λ n. some (some n)

abbrev pub is_expected : Option ℕ → ℕ → Bool
is_expected none generation = true
is_expected (some n) generation = generation == n

abbrev pub is_talking : Option CallPhase → Bool
is_talking (some in_call) = true
is_talking _ = false

unfoldable pub from_status : Value → Value → Value → Option AudioIdentity
from_status status station_id expected_generation = do
  station ← require_station_id station_id
  wanted ← expected expected_generation
  d ← as_dict status
  runtime ← as_text (get d "runtime_id")
  guard (is_runtime_id (codes runtime))
  call ← as_dict (get d "call")
  audio ← as_dict (get d "audio")
  guard (is_text (get call "session") "talking" && is_text (get call "station_id") station)
  version ← as_nat (get audio "pcm_stream_version")
  guard (version == 1)
  generation ← uint64 1 (get call "generation")
  guard (is_expected wanted generation)
  guard (is_talking (station_call_phase status (str station)))
  some (record { runtime_id = runtime; station_id = station; generation = generation })

is_talking-eq : (p : Option CallPhase) → is_talking p ≡ true → p ≡ some in_call
is_talking-eq none h = cc
is_talking-eq (some in_call) h = refl
is_talking-eq (some calling) h = cc
is_talking-eq (some stopping) h = cc

-- An identity is given out only to the station whose call is in progress, and only on the generation
-- that the caller expects, if it expects one.
pub from_status-in_call :
    (status station wanted : Value) (i : AudioIdentity)
    → from_status status station wanted ≡ some i
    → (station_call_phase status (str i.station_id) ≡ some in_call)
      × ((e : Option ℕ) × (expected wanted ≡ some e) × (is_expected e i.generation ≡ true))
unfolding from_status
from_status-in_call status station_id wanted i h =
    let (station, _, h1) = >>=-eq-some (require_station_id station_id) _ h in
    let (e, expects, h2) = >>=-eq-some (expected wanted) _ h1 in
    let (d, _, h3) = >>=-eq-some (as_dict status) _ h2 in
    let (runtime, _, h4) = >>=-eq-some (as_text (get d "runtime_id")) _ h3 in
    let (_, h5) = >>-eq-some (is_runtime_id (codes runtime)) _ h4 in
    let (call, _, h6) = >>=-eq-some (as_dict (get d "call")) _ h5 in
    let (audio, _, h7) = >>=-eq-some (as_dict (get d "audio")) _ h6 in
    let (_, h8) =
      >>-eq-some (is_text (get call "session") "talking" && is_text (get call "station_id") station)
        _ h7 in
    let (version, _, h9) = >>=-eq-some (as_nat (get audio "pcm_stream_version")) _ h8 in
    let (_, h10) = >>-eq-some (version == 1) _ h9 in
    let (generation, _, h11) = >>=-eq-some (uint64 1 (get call "generation")) _ h10 in
    let (fits, h12) = >>-eq-some (is_expected e generation) _ h11 in
    let (talks, h13) =
      >>-eq-some (is_talking (station_call_phase status (str station)))
        (some (record { runtime_id = runtime; station_id = station; generation = generation }))
        h12 in
    subst
      (λ (j : AudioIdentity).
        (station_call_phase status (str j.station_id) ≡ some in_call)
        × ((f : Option ℕ) × (expected wanted ≡ some f) × (is_expected f j.generation ≡ true)))
      (some_inj h13)
      (is_talking-eq (station_call_phase status (str station)) talks, (e, expects, fits))
