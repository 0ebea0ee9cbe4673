-- ===== src/Client/Reads/Chunks.antt =====
-- custom_components/doorfast/client.py, `read_audio_chunk`: what a chunk that it returns has.
use doorfastforha.Prelude.{
  ℕ, ◌%◌, ◌≡◌, ◌≤◌, ◌<◌, inl, inr, refl, ap, subst, leb→le, ◌∙◌, String, Bool, true, false, List,
  [], Option, none, some, ◌==◌, leb, length, arith, if_cases, Bool-cases, str_eq, lookup,
  Option-cases, &&_iff, string_eq,
}
use doorfastforha.Value.{Value, uint64_limit, codes, codes_eq_iff}
use doorfastforha.Audio.Hub.{
  AudioIdentity, AudioChunk, AudioReadReply, chunk, empty, retry, Result, ok, err,
}
use doorfastforha.Audio.Wav.{decode_pcm_wav, max_pcm_bytes}
use doorfastforha.Audio.Wav.Bounds.{decode_pcm_wav_bounds}
use doorfastforha.Client.Media.{audio_header_int, decimal}
use doorfastforha.Client.Reads.Bodies.{joined, bounded_audio_body-joined}
use doorfastforha.Client.Reads.{
  has_text, ◌>>=◌, ◌>>◌, require, Headers, audio_response_identity, audio_response_u64,
  bounded_audio_body, audio_error_code, follows, is_telephone_audio, discontinuity_of, decoded,
  read_chunk, expect, read_reply, read_end,
}

ok_inj {ℓ} : {A : Type ℓ} {a b : A} → ok a ≡ ok b → a ≡ b
ok_inj {a} h = ap (λ r. elim r [ ok x ↦ x | err e ↦ a ]) h

-- The parts of a step that does not raise.
>>=-eq-ok {ℓ κ} :
    {A : Type ℓ} {B : Type κ} (reply : Result A) (next : A → Result B) {last : B}
    → (reply >>= next) ≡ ok last
    → (first : A) × (reply ≡ ok first) × (next first ≡ ok last)
>>=-eq-ok (err code) next h = cc
>>=-eq-ok (ok first) next h = (first, refl, h)

require-eq-ok {ℓ} :
    {B : Type ℓ} (t : Bool) (code : String) (k : Result B) {b : B}
    → (require t code >> k) ≡ ok b
    → (t ≡ true) × (k ≡ ok b)
require-eq-ok true code k h = (refl, h)
require-eq-ok false code k h = cc

u64-lt :
    (headers : Headers) (name : String) (n : ℕ)
    → audio_response_u64 headers name ≡ ok n
    → n < uint64_limit
unfolding audio_response_u64
u64-lt headers name n h = ground arith

-- What follows the cursor, if there is one.
abbrev pub Starts : Option ℕ → ℕ → Type 0
Starts none before = Unit
Starts (some n) before = before ≡ n

-- A header that has the text.
abbrev pub Says : Headers → String → List ℕ → Type 0
Says headers name text = (raw : String) × (lookup name headers ≡ some raw) × (codes raw ≡ text)

-- The chunk that the headers and the body give for the identity and the cursor.
pub record IsRead (identity : AudioIdentity) (after : Option ℕ) (headers : Headers) (body : List ℕ)
    (c : AudioChunk) : Type 0 where
  pub names_runtime : Says headers "X-Doorfast-Runtime-Id" (codes identity.runtime_id)
  pub names_station : Says headers "X-Doorfast-Station-Id" (codes identity.station_id)
  pub names_generation : Says headers "X-Doorfast-Generation" (decimal identity.generation)
  pub owner : c.identity ≡ identity
  pub says_before :
      audio_header_int (lookup "X-Doorfast-Audio-Previous-Revision" headers)
      ≡ some c.previous_revision
  pub says_own : audio_header_int (lookup "X-Doorfast-Audio-Revision" headers) ≡ some c.revision
  pub sound : decode_pcm_wav body ≡ some c.pcm
  pub starts : Starts after c.previous_revision
  pub ascends : c.previous_revision < c.revision
  pub revision : c.revision < uint64_limit
  pub timely : c.timestamp_ms ≤ c.latest_timestamp_ms
  pub timestamp : c.latest_timestamp_ms < uint64_limit
  pub dropped : c.dropped_samples < uint64_limit
  pub some_pcm : 0 < length c.pcm
  pub bounded : length c.pcm ≤ max_pcm_bytes
  pub even : length c.pcm % 2 ≡ 0

has_text-Says :
    (headers : Headers) (name : String) (text : List ℕ)
    → has_text headers name text ≡ true
    → Says headers name text
has_text-Says headers name text h = elim (Option-cases (lookup name headers)) [
  | inl e ↦ absurd (ground arith)
  | inr (raw, e) ↦ (raw, e, (codes_eq_iff (codes raw) text).0 (rw (e, has_text) at h))
]

u64-header :
    (headers : Headers) (name : String) (n : ℕ)
    → audio_response_u64 headers name ≡ ok n
    → audio_header_int (lookup name headers) ≡ some n
unfolding audio_response_u64
u64-header headers name n h = elim (Option-cases (audio_header_int (lookup name headers))) [
  | inl e ↦ absurd (ground arith)
  | inr (m, e) ↦ e ∙ ap some (ground arith)
]

-- The three headers of an identity.
audio_response_identity-Says :
    (headers : Headers) (identity : AudioIdentity)
    → audio_response_identity headers identity ≡ true
    → Says headers "X-Doorfast-Runtime-Id" (codes identity.runtime_id)
      × Says headers "X-Doorfast-Station-Id" (codes identity.station_id)
      × Says headers "X-Doorfast-Generation" (decimal identity.generation)
unfolding audio_response_identity
audio_response_identity-Says headers identity h =
    let (runtime, more) =
      (&&_iff (has_text headers "X-Doorfast-Runtime-Id" (codes identity.runtime_id)) _).0 h in
    let (station, generation) =
      (&&_iff (has_text headers "X-Doorfast-Station-Id" (codes identity.station_id)) _).0 more in
    (
      has_text-Says headers "X-Doorfast-Runtime-Id" _ runtime,
      has_text-Says headers "X-Doorfast-Station-Id" _ station,
      has_text-Says headers "X-Doorfast-Generation" _ generation,
    )

follows-Starts :
    (after : Option ℕ) (before own : ℕ)
    → follows after before own ≡ true
    → Starts after before × (before < own)
follows-Starts none before own h = ground arith
follows-Starts (some n) before own h = ground arith

decoded-eq : (body pcm : List ℕ) → decoded body ≡ ok pcm → decode_pcm_wav body ≡ some pcm
decoded-eq body pcm h = ground arith

read_chunk-IsRead :
    (identity : AudioIdentity) (after : Option ℕ) (headers : Headers) (body : List ℕ)
    (c : AudioChunk)
    → read_chunk identity after headers body ≡ ok c
    → IsRead identity after headers body c
unfolding read_chunk
read_chunk-IsRead identity after headers body c h =
    let (owned, h1) =
      require-eq-ok (audio_response_identity headers identity) "audio_identity_mismatch" _ h in
    let (before, e1, h2) =
      >>=-eq-ok (audio_response_u64 headers "X-Doorfast-Audio-Previous-Revision") _ h1 in
    let (own, e2, h3) = >>=-eq-ok (audio_response_u64 headers "X-Doorfast-Audio-Revision") _ h2 in
    let (goes, h4) = require-eq-ok (follows after before own) "audio_invalid_response" _ h3 in
    let (dropped, e5, h5) =
      >>=-eq-ok (audio_response_u64 headers "X-Doorfast-Audio-Dropped-Bytes") _ h4 in
    let (gap, e6, h6) = >>=-eq-ok (discontinuity_of headers) _ h5 in
    let (time, e7, h7) =
      >>=-eq-ok (audio_response_u64 headers "X-Doorfast-Audio-Timestamp-Ms") _ h6 in
    let (latest, e8, h8) =
      >>=-eq-ok (audio_response_u64 headers "X-Doorfast-Audio-Latest-Timestamp-Ms") _ h7 in
    let (timely, h9) = require-eq-ok (leb time latest) "audio_invalid_response" _ h8 in
    let (_, h10) = require-eq-ok (is_telephone_audio headers) "audio_invalid_response" _ h9 in
    let (pcm, e11, h11) = >>=-eq-ok (decoded body) _ h10 in
    let (starts, ascends) = follows-Starts after before own goes in
    let (some_pcm, bounded, even) = decode_pcm_wav_bounds body pcm (decoded-eq body pcm e11) in
    let (names_runtime, names_station, names_generation) =
      audio_response_identity-Says headers identity owned in
    subst (IsRead identity after headers body) (ok_inj h11) (record {
      names_runtime = names_runtime;
      names_station = names_station;
      names_generation = names_generation;
      says_before = u64-header headers "X-Doorfast-Audio-Previous-Revision" before e1;
      says_own = u64-header headers "X-Doorfast-Audio-Revision" own e2;
      sound = decoded-eq body pcm e11;
      owner = refl;
      starts = starts;
      ascends = ascends;
      revision = u64-lt headers "X-Doorfast-Audio-Revision" own e2;
      timely = leb→le time latest timely;
      timestamp = u64-lt headers "X-Doorfast-Audio-Latest-Timestamp-Ms" latest e8;
      dropped = u64-lt headers "X-Doorfast-Audio-Dropped-Bytes" dropped e5;
      some_pcm = some_pcm;
      bounded = bounded;
      even = even;
    })

chunk_inj : {c d : AudioChunk} → chunk c ≡ chunk d → c ≡ d
chunk_inj h = cc

empty-ne-chunk : (c : AudioChunk) → ¬ (empty ≡ chunk c)
empty-ne-chunk c h = cc

-- An error code has no chunk.
no_chunk :
    (code : String) (outcome : Result AudioReadReply) (actual : Result String) (c : AudioChunk)
    → ¬ (outcome ≡ ok (chunk c))
    → ¬ ((actual >>= expect code outcome) ≡ ok (chunk c))
no_chunk code outcome (ok text) c none_there h = elim (Bool-cases (str_eq text code)) [
  | inl e ↦ none_there (rw e at h)
  | inr e ↦ absurd (ground arith)
]
no_chunk code outcome (err e) c none_there h = absurd (ground arith)

read_reply-IsRead :
    (loads : List ℕ → Option Value) (identity : AudioIdentity) (after : Option ℕ) (status : ℕ)
    (headers : Headers) (body : List ℕ) (c : AudioChunk)
    → read_reply loads identity after status headers body ≡ ok (chunk c)
    → IsRead identity after headers body c
unfolding read_reply
read_reply-IsRead loads identity after status headers body c =
    let P : Result AudioReadReply → Type 0 =
      λ r. r ≡ ok (chunk c) → IsRead identity after headers body c in
    let code = audio_error_code loads body in
    if_cases P (status == 400)
      (λ _ h. absurd (no_chunk "invalid_request" (err "invalid_request") code c (λ k. cc) h))
      (λ _.
        if_cases P (status == 404)
          (λ _ h. absurd (
            no_chunk "audio_unavailable" (ok empty) code c (λ k. cc)
              (require-eq-ok (audio_response_identity headers identity) "audio_identity_mismatch" _
                h).1))
          (λ _.
            if_cases P (status == 409)
              (λ _ h. let (text, _, k) = >>=-eq-ok code _ h in absurd (ground arith))
              (λ _.
                if_cases P (status == 503)
                  (λ _ h.
                    absurd (no_chunk "audio_temporarily_unavailable" (ok retry) code c (λ k. cc) h))
                  (λ _.
                    if_cases P (status == 200)
                      (λ _ h.
                        let (d, e, k) = >>=-eq-ok (read_chunk identity after headers body) _ h in
                        read_chunk-IsRead identity after headers body c
                          (e ∙ ap ok (chunk_inj (ok_inj k))))
                      (λ _ h. absurd (ground arith))))))

-- Whatever the bridge replies, a chunk is returned only if the reply's headers name the runtime, the
-- station and the generation that were asked for; its revisions are those of the headers and its
-- samples those of the bytes that were read; it starts at the cursor that was given and ascends; its
-- numbers are below 2^64, its time is not after the latest
-- one, and its samples are not empty, even in number and at most 3200 bytes.
pub read_end-IsRead :
    (loads : List ℕ → Option Value) (identity : AudioIdentity) (after : Option ℕ) (status : ℕ)
    (headers : Headers) (parts : List (List ℕ)) (c : AudioChunk)
    → read_end loads identity after status headers parts ≡ ok (chunk c)
    → IsRead identity after headers (joined parts) c
unfolding read_end
read_end-IsRead loads identity after status headers parts c =
    let P : Result AudioReadReply → Type 0 =
      λ r. r ≡ ok (chunk c) → IsRead identity after headers (joined parts) c in
    if_cases P (status == 304)
      (λ _ h. absurd (
        empty-ne-chunk c (
          ok_inj
            (require-eq-ok (audio_response_identity headers identity) "audio_identity_mismatch"
              (ok empty) h).1)))
      (λ _ h.
        let (body, taken, k) = >>=-eq-ok (bounded_audio_body [] parts) _ h in
        let (same, _) = bounded_audio_body-joined parts body taken in
        subst (λ b. IsRead identity after headers b c) same
          (read_reply-IsRead loads identity after status headers body c k))
