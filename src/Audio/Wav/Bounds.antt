-- ===== src/Audio/Wav/Bounds.antt =====
-- custom_components/doorfast/audio.py, `decode_pcm_wav` on any input: what is returned is bounded,
-- and the loop ends.
use doorfastforha.Prelude.{
  ℕ, zero, suc, ◌+◌, ◌%◌, ◌≤◌, ◌<◌, ◌≡◌, ◌≢◌, List, [], ◌∷◌, Option, none, some, ltb, length, take,
  drop, arith, length-take-le, length-drop, Bool-cases, Option-cases, inl, inr, ◌||◌, subst,
}
use doorfastforha.Audio.Wav.{
  Found, Scan, exhausted, invalid, scanned, scan, proceed, take_chunk, finish, decode_pcm_wav,
  max_pcm_bytes, le32, nothing_found,
}

-- The samples found so far are bounded.
abbrev Bounded : Option (List ℕ) → Type 0
Bounded none = Unit {0}
Bounded (some pcm) = length pcm ≤ max_pcm_bytes

abbrev ScanBounded : Scan → Type 0
ScanBounded (scanned s) = Bounded s.pcm
ScanBounded exhausted = Unit {0}
ScanBounded invalid = Unit {0}

take_chunk-Bounded :
    (id : List ℕ) (size : ℕ) (chunk : List ℕ) (s : Found)
    → length chunk ≤ size
    → Bounded s.pcm
    → ScanBounded (proceed (take_chunk id size chunk s) scanned)
unfolding take_chunk
take_chunk-Bounded id size chunk s h b = ground arith

-- What one round does: it fails, or takes a chunk and goes on behind it.
scan_cases {ℓ} :
    (P : Scan → Type ℓ) (fuel x : ℕ) (xs : List ℕ) (s : Found)
    → P invalid
    → ((n size : ℕ) (chunk : List ℕ) (t : Found)
        → length chunk ≤ size
        → take_chunk (take 4 (x ∷ xs)) size chunk s ≡ some t
        → P (scan fuel (drop n (drop 7 xs)) t))
    → P (scan (suc fuel) (x ∷ xs) s)
unfolding scan
scan_cases P fuel x xs s bad good =
    let raw = x ∷ xs in
    let size = le32 (drop 4 raw) in
    elim (Bool-cases (ltb (length raw) 8)) [
      | inl short ↦ rw short bad
      | inr long ↦
          elim (Bool-cases
            (ltb (length raw) (8 + size) || ltb (length raw) (8 + (size + size % 2)))) [
              | inl over ↦ rw (long, over) bad
              | inr fits ↦
                  elim (Option-cases (take_chunk (take 4 raw) size (take size (drop 8 raw)) s)) [
                    | inl e ↦ rw (long, fits, e) bad
                    | inr (t, e) ↦
                        rw (long, fits, e)
                          (good (size + size % 2) size _ t (length-take-le size (drop 8 raw)) e)
                  ]
            ]
    ]

scan-Bounded : (fuel : ℕ) (raw : List ℕ) (s : Found) → Bounded s.pcm → ScanBounded (scan fuel raw s)
unfolding scan
scan-Bounded fuel [] s b = b
scan-Bounded zero (x ∷ xs) s b = tt
scan-Bounded (suc fuel) (x ∷ xs) s b = scan_cases ScanBounded fuel x xs s tt λ n size chunk t h e.
    scan-Bounded fuel (drop n (drop 7 xs)) t (
      subst (λ o. ScanBounded (proceed o scanned)) e
        (take_chunk-Bounded (take 4 (x ∷ xs)) size chunk s h b))

-- A round takes eight bytes at least, so fuel for every byte is more than enough.
pub scan_total :
    (fuel : ℕ) (raw : List ℕ) (s : Found) → length raw ≤ fuel → scan fuel raw s ≢ exhausted
unfolding scan
scan_total fuel [] s h = λ e. cc
scan_total zero (x ∷ xs) s h = absurd (omega arith)
scan_total (suc fuel) (x ∷ xs) s h =
    scan_cases (λ r. r ≢ exhausted) fuel x xs s (λ e. cc)
      λ n size chunk t _ e.
        scan_total fuel (drop n (drop 7 xs)) t
          (omega (arith, length-drop n (drop 7 xs), length-drop 7 xs))

finish-bounds :
    (r : Scan) {pcm : List ℕ}
    → ScanBounded r
    → finish r ≡ some pcm
    → (0 < length pcm) × (length pcm ≤ max_pcm_bytes) × (length pcm % 2 ≡ 0)
unfolding finish
finish-bounds (scanned s) b h = ground arith
finish-bounds exhausted b h = cc
finish-bounds invalid b h = cc

-- Whatever the bytes, samples that are returned are not empty, whole 16-bit samples, and at most
-- 3200 bytes.
pub decode_pcm_wav_bounds :
    (raw pcm : List ℕ)
    → decode_pcm_wav raw ≡ some pcm
    → (0 < length pcm) × (length pcm ≤ max_pcm_bytes) × (length pcm % 2 ≡ 0)
unfolding decode_pcm_wav
decode_pcm_wav_bounds raw pcm h =
    finish-bounds _ (scan-Bounded (length raw) (drop 12 raw) nothing_found tt) (ground arith)
