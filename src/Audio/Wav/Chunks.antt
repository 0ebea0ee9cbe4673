-- ===== src/Audio/Wav/Chunks.antt =====
-- custom_components/doorfast/audio.py, `decode_pcm_wav` on well-formed files: a file is a list of
-- chunks, and the loop over the bytes is a fold over the chunks.
use mathlib.Core.List.{append_assoc}
use doorfastforha.Prelude.{
  ℕ, zero, suc, ◌+◌, ◌/◌, ◌%◌, ◌≤◌, ◌<◌, ◌≡◌, refl, List, [], ◌∷◌, ◌++◌, Option, none, some,
  if◌then◌else◌, ◌==◌, length, take, drop, arith, length-append, take-append_length,
  drop-append_length, All, ◌∙◌, Option-cases, inl, inr,
}
use doorfastforha.Audio.Wav.{
  Found, Scan, invalid, scanned, scan, take_chunk, finish, decode_pcm_wav, le32, nothing_found,
  unpack_format,
}

pub record Chunk : Type 0 where
  pub c0 : ℕ
  pub c1 : ℕ
  pub c2 : ℕ
  pub c3 : ℕ
  pub payload : List ℕ
  -- The byte that pads a payload of odd length.
  pub pad : ℕ

abbrev pub chunk_id : Chunk → List ℕ
chunk_id c = c.c0 ∷ c.c1 ∷ c.c2 ∷ c.c3 ∷ []

-- `struct.pack("<I", n)`, in front of a list.
abbrev pub le32_bytes : ℕ → List ℕ → List ℕ
le32_bytes n rest = (n % 256) ∷ (n / 256 % 256) ∷ (n / 65536 % 256) ∷ (n / 16777216 % 256) ∷ rest

abbrev pub padded : Chunk → List ℕ
padded c = c.payload ++ (if length c.payload % 2 == 1 then c.pad ∷ [] else [])

abbrev pub chunk_bytes : Chunk → List ℕ → List ℕ
chunk_bytes c rest = c.c0 ∷ c.c1 ∷ c.c2 ∷ c.c3 ∷ le32_bytes (length c.payload) (padded c ++ rest)

abbrev pub body : List Chunk → List ℕ
body [] = []
body (c ∷ cs) = chunk_bytes c (body cs)

abbrev pub IsChunk : Chunk → Type 0
IsChunk c = length c.payload < 4294967296

-- The chunks in order, each by its identifier.
pub collect : List Chunk → Found → Option Found
collect [] s = some s
collect (c ∷ cs) s = elim (take_chunk (chunk_id c) (length c.payload) c.payload s) [
  | none ↦ none
  | some t ↦ collect cs t
]

abbrev pub outcome : Option Found → Scan
outcome none = invalid
outcome (some s) = scanned s

le32-le32_bytes : (n : ℕ) (rest : List ℕ) → n < 4294967296 → le32 (le32_bytes n rest) ≡ n
le32-le32_bytes n rest h = omega arith

length-padded : (c : Chunk) → length (padded c) ≡ length c.payload + length c.payload % 2
length-padded c = ground (arith, length-append c.payload (c.pad ∷ []), length-append c.payload [])

take-padded : (c : Chunk) (rest : List ℕ) → take (length c.payload) (padded c ++ rest) ≡ c.payload
take-padded c rest = rw (append_assoc) (take-append_length c.payload _)

drop-padded :
    (c : Chunk) (rest : List ℕ)
    → drop (length c.payload + length c.payload % 2) (padded c ++ rest) ≡ rest
drop-padded c rest = rw (← length-padded c) (drop-append_length (padded c) rest)

length-chunk :
    (c : Chunk) (rest : List ℕ)
    → length (padded c ++ rest) ≡ length c.payload + length c.payload % 2 + length rest
length-chunk c rest = omega (arith, length-append (padded c) rest, length-padded c)

scan-body :
    (fuel : ℕ) (cs : List Chunk) (s : Found)
    → length (body cs) ≤ fuel
    → All IsChunk cs
    → scan fuel (body cs) s ≡ outcome (collect cs s)
unfolding scan collect
scan-body fuel [] s h a = refl
scan-body zero (c ∷ cs) s h a = absurd (omega arith)
scan-body (suc fuel) (c ∷ cs) s h a =
    let n = length-chunk c (body cs) in
    let size = le32-le32_bytes (length c.payload) (padded c ++ body cs) a.0 in
    let front = take-padded c (body cs) in
    let back = drop-padded c (body cs) in
    elim (Option-cases (take_chunk (chunk_id c) (length c.payload) c.payload s)) [
      | inl e ↦ rw (size, front, back, e) (ground (arith, n))
      | inr (t, e) ↦ rw (size, front, back, e) (ground (arith, n, scan-body fuel cs t))
    ]

-- A WAV file of the chunks.
abbrev pub wav : List Chunk → List ℕ
wav cs =
    b'R'
    ∷ b'I'
    ∷ b'F'
    ∷ b'F'
    ∷ le32_bytes (4 + length (body cs)) (b'W' ∷ b'A' ∷ b'V' ∷ b'E' ∷ body cs)

-- On every file of chunks whose sizes fit their 32-bit fields, of any number and in any order, unknown
-- ones among them, decoding is the fold over the chunks with the final tests.
pub decode_pcm_wav-wav :
    (cs : List Chunk)
    → All IsChunk cs
    → 4 + length (body cs) < 4294967296
    → decode_pcm_wav (wav cs) ≡ finish (outcome (collect cs nothing_found))
unfolding decode_pcm_wav
decode_pcm_wav-wav cs a h =
    rw
      (
        le32-le32_bytes (4 + length (body cs)) (b'W' ∷ b'A' ∷ b'V' ∷ b'E' ∷ body cs) h,
        scan-body (length (wav cs)) cs nothing_found (omega arith) a,
      )
      (ground arith)

-- The usual file: a format chunk for telephone audio, then the samples.
abbrev pub telephone_format : Chunk
telephone_format = record {
  c0 = b'f';
  c1 = b'm';
  c2 = b't';
  c3 = b' ';
  payload = 1 ∷ 0 ∷ 1 ∷ 0 ∷ 64 ∷ 31 ∷ 0 ∷ 0 ∷ 128 ∷ 62 ∷ 0 ∷ 0 ∷ 2 ∷ 0 ∷ 16 ∷ 0 ∷ [];
  pad = 0;
}

abbrev pub samples : List ℕ → Chunk
samples pcm = record { c0 = b'd'; c1 = b'a'; c2 = b't'; c3 = b'a'; payload = pcm; pad = 0 }

-- Decoding a telephone-format file gives back its samples, if they are not empty, even in number of
-- bytes and at most 3200 bytes.
pub decode_pcm_wav-samples :
    (pcm : List ℕ)
    → 0 < length pcm
    → length pcm ≤ 3200
    → length pcm % 2 ≡ 0
    → decode_pcm_wav (wav (telephone_format ∷ samples pcm ∷ [])) ≡ some pcm
unfolding finish collect take_chunk unpack_format
decode_pcm_wav-samples pcm low high even =
    decode_pcm_wav-wav (telephone_format ∷ samples pcm ∷ []) (omega arith)
      (omega (arith, length-chunk (samples pcm) []))
    ∙ ground arith
