-- ===== src/Audio/Wav.antt =====
-- custom_components/doorfast/audio.py, `decode_pcm_wav`. A body is a list of bytes; the position
-- `offset` is the rest of the body from there on. A raised AudioStreamError is `none`.
pub mod Chunks
pub mod Bounds
use doorfastforha.Prelude.{
  ℕ, zero, suc, ◌+◌, ◌-◌, ◌*◌, ◌%◌, ◌≤◌, Bool, true, false, ◌||◌, ◌&&◌, not, List, [], ◌∷◌, Option,
  none, some, if◌then◌else◌, ltb, leb, ◌==◌, length, take, drop, is_some, ◌>>=◌, ◌>>◌, guard,
}
use doorfastforha.Value.{codes, codes_eq}

abbrev pub max_pcm_bytes : ℕ
max_pcm_bytes = 3200

-- `struct.unpack("<H")` and `struct.unpack("<I")`.
abbrev pub le16 : List ℕ → ℕ
le16 (a ∷ b ∷ _) = a + 256 * b
le16 _ = 0

abbrev pub le32 : List ℕ → ℕ
le32 (a ∷ b ∷ c ∷ d ∷ _) = a + 256 * b + 65536 * c + 16777216 * d
le32 _ = 0

-- The six fields of a "fmt " chunk.
pub record Format : Type 0 where
  pub audio_format : ℕ
  pub channels : ℕ
  pub sample_rate : ℕ
  pub byte_rate : ℕ
  pub block_align : ℕ
  pub bits : ℕ

-- `struct.unpack("<HHIIHH", chunk)`.
unfoldable pub unpack_format : List ℕ → Format
unpack_format chunk = record {
  audio_format = le16 chunk;
  channels = le16 (drop 2 chunk);
  sample_rate = le32 (drop 4 chunk);
  byte_rate = le32 (drop 8 chunk);
  block_align = le16 (drop 12 chunk);
  bits = le16 (drop 14 chunk);
}

-- The loop's variables `fmt` and `pcm`.
pub record Found : Type 0 where
  pub fmt : Option Format
  pub pcm : Option (List ℕ)

abbrev pub fmt_id : List ℕ
fmt_id = codes "fmt "

abbrev pub data_id : List ℕ
data_id = codes "data"

-- One chunk of the body: `none` where the loop raises.
unfoldable pub take_chunk : List ℕ → ℕ → List ℕ → Found → Option Found
take_chunk id size chunk s =
    if codes_eq id fmt_id
    then (if is_some s.fmt || not (size == 16)
        then none
        else some (record s { fmt = some (unpack_format chunk) }))
    else if codes_eq id data_id
    then (if is_some s.pcm || ltb max_pcm_bytes size
        then none
        else some (record s { pcm = some chunk }))
    else some s

pub data Scan : Type 0 where
  exhausted : Scan
  invalid : Scan
  scanned : Found → Scan

-- What follows a chunk, if it was taken.
abbrev pub proceed : Option Found → (Found → Scan) → Scan
proceed none k = invalid
proceed (some s) k = k s

-- The loop, on fuel; a round takes eight bytes at least.
unfoldable pub scan : ℕ → List ℕ → Found → Scan
scan fuel [] s = scanned s
scan zero (x ∷ xs) s = exhausted
scan (suc fuel) (x ∷ xs) s =
    let raw = x ∷ xs in
    let size = le32 (drop 4 raw) in
    let padded = size + size % 2 in
    let next =
      proceed (take_chunk (take 4 raw) size (take size (drop 8 raw)) s)
        (λ t. scan fuel (drop padded (drop 8 raw)) t) in
    if ltb (length raw) 8
    then invalid
    else if ltb (length raw) (8 + size) || ltb (length raw) (8 + padded)
    then invalid
    else next

-- The last tests: both chunks are there, and the format is mono 16-bit PCM at 8 kHz.
abbrev pub is_telephone : Format → Bool
is_telephone f =
    f.audio_format == 1
    && (f.channels == 1
        && (f.sample_rate == 8000
            && (f.byte_rate == 16000 && (f.block_align == 2 && f.bits == 16))))

unfoldable pub finish : Scan → Option (List ℕ)
finish exhausted = none
finish invalid = none
finish (scanned s) = do
  f ← s.fmt
  pcm ← s.pcm
  guard (not (length pcm == 0) && length pcm % 2 == 0)
  guard (is_telephone f)
  some pcm

abbrev pub nothing_found : Found
nothing_found = record { fmt = none; pcm = none }

unfoldable pub decode_pcm_wav : List ℕ → Option (List ℕ)
unfolding scan finish
decode_pcm_wav raw =
    if ltb (length raw) 12
    then none
    else if not (codes_eq (take 4 raw) (codes "RIFF"))
        || not (codes_eq (take 4 (drop 8 raw)) (codes "WAVE"))
    then none
    else if not (le32 (drop 4 raw) + 8 == length raw)
    then none
    else finish (scan (length raw) (drop 12 raw) nothing_found)
