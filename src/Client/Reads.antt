-- ===== src/Client/Reads.antt =====
-- custom_components/doorfast/client.py, `read_audio_chunk`: one read of a station's audio. An
-- AudioStreamError is `err` with its code; `loads` is `json.loads` of the decoded body, with `none` for
-- what is no JSON.
pub mod Chunks
pub mod Bodies
use doorfastforha.Prelude.{
  ℕ, ◌+◌, ◌<◌, String, Bool, true, false, ◌||◌, ◌&&◌, not, List, [], ◌∷◌, ◌++◌, Option, none, some,
  if◌then◌else◌, ◌==◌, ltb, leb, all, length, str_eq, Dict, lookup, string_eq, is_some,
}
use doorfastforha.Value.{
  Value, get, as_dict, as_text, codes, codes_eq, is_digit, is_ascii, uint64_limit,
}
use doorfastforha.ClientTypes.{is_station_id, is_runtime_id}
use doorfastforha.Audio.Hub.{
  AudioIdentity, AudioChunk, AudioReadReply, chunk, empty, retry, resync, Result, ok, err,
}
use doorfastforha.Audio.Wav.{decode_pcm_wav}
use doorfastforha.Client.Media.{decimal, audio_header_int}

infixl 5 ◌>>=◌ ◌>>◌
abbrev pub ◌>>=◌ {ℓ κ} : {A : Type ℓ} {B : Type κ} → Result A → (A → Result B) → Result B
reply >>= next = elim reply [ err code ↦ err code | ok a ↦ next a ]

abbrev pub ◌>>◌ {κ} : {B : Type κ} → Result (Unit {0}) → Result B → Result B
m >> k = m >>= λ _. k

-- `if not b: raise AudioStreamError(code)`.
abbrev pub require : Bool → String → Result (Unit {0})
require true code = ok tt
require false code = err code

abbrev pub Headers : Type 0
Headers = Dict String String

abbrev pub has_text : Headers → String → List ℕ → Bool
has_text headers name text = elim (lookup name headers) [
  | none ↦ false
  | some raw ↦ codes_eq (codes raw) text
]

-- `_audio_response_identity`.
unfoldable pub audio_response_identity : Headers → AudioIdentity → Bool
audio_response_identity headers identity =
    has_text headers "X-Doorfast-Runtime-Id" (codes identity.runtime_id)
    && (has_text headers "X-Doorfast-Station-Id" (codes identity.station_id)
        && has_text headers "X-Doorfast-Generation" (decimal identity.generation))

-- `_audio_response_u64`.
unfoldable pub audio_response_u64 : Headers → String → Result ℕ
audio_response_u64 headers name = elim (audio_header_int (lookup name headers)) [
  | none ↦ err "audio_invalid_response"
  | some n ↦ if ltb n uint64_limit then ok n else err "audio_invalid_response"
]

-- The loop of `_bounded_audio_body` over the parts that are read; an empty part is the end.
unfoldable pub bounded_audio_body : List ℕ → List (List ℕ) → Result (List ℕ)
bounded_audio_body body [] = if length body == 4096 then err "audio_invalid_response" else ok body
bounded_audio_body body ([] ∷ parts) =
    if length body == 4096 then err "audio_invalid_response" else ok body
bounded_audio_body body ((b ∷ bs) ∷ parts) =
    let longer = body ++ b ∷ bs in
    let rest = bounded_audio_body longer parts in
    if length body == 4096 || ltb 4096 (length longer) then err "audio_invalid_response" else rest

-- `_audio_error_code`.
unfoldable pub audio_error_code : (List ℕ → Option Value) → List ℕ → Result String
audio_error_code loads body = elim (loads body) [
  | none ↦ err "audio_invalid_response"
  | some v ↦ elim (as_dict v) [
    | none ↦ err "audio_invalid_response"
    | some d ↦ elim (as_text (get d "code")) [
      | none ↦ err "audio_invalid_response"
      | some code ↦ ok code
    ]
  ]
]

-- The tests before a request is sent.
unfoldable pub read_begin : AudioIdentity → Option ℕ → Result (Unit {0})
read_begin identity after = do
  require (is_station_id (codes identity.station_id)) "audio_identity_mismatch"
  require
      (is_runtime_id (codes identity.runtime_id)
        && (leb 1 identity.generation && ltb identity.generation uint64_limit))
      "audio_identity_mismatch"
  require (elim after [ none ↦ true | some n ↦ ltb n uint64_limit ]) "invalid_request"

-- The chunk continues what was read before.
abbrev pub follows : Option ℕ → ℕ → ℕ → Bool
follows after before own = ltb before own && elim after [ none ↦ true | some n ↦ before == n ]

abbrev pub is_telephone_audio : Headers → Bool
is_telephone_audio headers =
    has_text headers "X-Doorfast-Audio-Format" (codes "s16le")
    && (has_text headers "X-Doorfast-Audio-Sample-Rate" (codes "8000")
        && has_text headers "X-Doorfast-Audio-Channels" (codes "1"))

-- `X-Doorfast-Audio-Discontinuity`, which is "0" or "1".
abbrev pub discontinuity_of : Headers → Result Bool
discontinuity_of headers =
    if has_text headers "X-Doorfast-Audio-Discontinuity" (codes "1")
    then ok true
    else if has_text headers "X-Doorfast-Audio-Discontinuity" (codes "0")
    then ok false
    else err "audio_invalid_response"

abbrev pub decoded : List ℕ → Result (List ℕ)
decoded body = elim (decode_pcm_wav body) [
  | none ↦ err "audio_invalid_response"
  | some pcm ↦ ok pcm
]

-- The chunk of a reply with status 200.
unfoldable pub read_chunk : AudioIdentity → Option ℕ → Headers → List ℕ → Result AudioChunk
read_chunk identity after headers body = do
  require (audio_response_identity headers identity) "audio_identity_mismatch"
  before ← audio_response_u64 headers "X-Doorfast-Audio-Previous-Revision"
  own ← audio_response_u64 headers "X-Doorfast-Audio-Revision"
  require (follows after before own) "audio_invalid_response"
  dropped ← audio_response_u64 headers "X-Doorfast-Audio-Dropped-Bytes"
  gap ← discontinuity_of headers
  timestamp ← audio_response_u64 headers "X-Doorfast-Audio-Timestamp-Ms"
  latest ← audio_response_u64 headers "X-Doorfast-Audio-Latest-Timestamp-Ms"
  require (leb timestamp latest) "audio_invalid_response"
  require (is_telephone_audio headers) "audio_invalid_response"
  pcm ← decoded body
  ok (record {
    identity = identity;
    previous_revision = before;
    revision = own;
    pcm = pcm;
    timestamp_ms = timestamp;
    latest_timestamp_ms = latest;
    dropped_samples = dropped;
    discontinuity = gap;
  })

-- A reply with an error code: the code that is expected has an outcome, any other is invalid.
abbrev pub expect : String → Result AudioReadReply → String → Result AudioReadReply
expect code outcome actual = if str_eq actual code then outcome else err "audio_invalid_response"

-- Whatever the status, from the body on.
unfoldable pub read_reply :
    (List ℕ → Option Value)
    → AudioIdentity
    → Option ℕ
    → ℕ
    → Headers
    → List ℕ
    → Result AudioReadReply
read_reply loads identity after status headers body =
    if status == 400
    then (audio_error_code loads body >>= expect "invalid_request" (err "invalid_request"))
    else if status == 404
    then require (audio_response_identity headers identity) "audio_identity_mismatch"
      >> (audio_error_code loads body >>= expect "audio_unavailable" (ok empty))
    else if status == 409
    then (audio_error_code loads body >>= λ code.
        if str_eq code "audio_identity_mismatch"
        then err "audio_identity_mismatch"
        else expect "audio_cursor_expired" (ok resync) code)
    else if status == 503
    then (audio_error_code loads body >>= expect "audio_temporarily_unavailable" (ok retry))
    else if status == 200
    then (read_chunk identity after headers body >>= λ c. ok (chunk c))
    else err "audio_invalid_response"

unfoldable pub read_end :
    (List ℕ → Option Value)
    → AudioIdentity
    → Option ℕ
    → ℕ
    → Headers
    → List (List ℕ)
    → Result AudioReadReply
read_end loads identity after status headers parts =
    if status == 304
    then require (audio_response_identity headers identity) "audio_identity_mismatch" >> ok empty
    else (bounded_audio_body [] parts >>= read_reply loads identity after status headers)
