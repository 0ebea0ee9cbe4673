-- ===== src/Tests/Streams.antt =====
-- custom_components/doorfast/audio.py: WAV files, and a hub with two listeners.
use doorfastforha.Prelude.{
  ℕ, ◌+◌, ◌≤◌, ◌<◌, ◌%◌, ◌≡◌, ◌≢◌, ◌⊎◌, refl, false, List, [], ◌∷◌, none, some, length, arith,
}
use doorfastforha.Audio.Wav.{
  exhausted, scan, take_chunk, unpack_format, finish, decode_pcm_wav, nothing_found, max_pcm_bytes,
}
use doorfastforha.Audio.Wav.Chunks.{
  Chunk, wav, body, collect, outcome, telephone_format, samples, decode_pcm_wav-wav,
  decode_pcm_wav-samples,
}
use doorfastforha.Audio.Wav.Bounds.{scan_total, decode_pcm_wav_bounds}
use doorfastforha.Audio.Hub.{
  AudioIdentity, AudioChunk, chunk, Listener, init, replied, cached, hand_out, add, check_open,
  check_listener, read_begin, read_cached, read_locked, read_done, store, append_entry, serve,
}
use doorfastforha.Audio.Hub.Cache.{Kept, cached_honest}
use doorfastforha.Audio.Hub.Delivery.{
  Op, adds, begins, reads_cached, reads_locked, reads_done, removes, apply, run, Rises, run-Rises,
  run_bounds,
}

abbrev pcm : List ℕ
pcm = 1 ∷ 0 ∷ 2 ∷ 0 ∷ []

abbrev file : List Chunk
file = telephone_format ∷ samples pcm ∷ []

decode_pcm_wav-wav_example :
    decode_pcm_wav (wav file) ≡ finish (outcome (collect file nothing_found))
decode_pcm_wav-wav_example = decode_pcm_wav-wav file (omega arith, (omega arith, tt)) (omega arith)

decode_pcm_wav-samples_example : decode_pcm_wav (wav file) ≡ some pcm
decode_pcm_wav-samples_example = decode_pcm_wav-samples pcm (omega arith) (omega arith) refl

file_decodes : decode_pcm_wav (wav file) ≡ some pcm
unfolding decode_pcm_wav scan take_chunk unpack_format finish
file_decodes = refl

decode_pcm_wav_bounds_example :
    (0 < length pcm) × (length pcm ≤ max_pcm_bytes) × (length pcm % 2 ≡ 0)
decode_pcm_wav_bounds_example = decode_pcm_wav_bounds (wav file) pcm file_decodes

scan_total_example : scan 36 (body file) nothing_found ≢ exhausted
scan_total_example = scan_total 36 (body file) nothing_found (omega arith)

abbrev identity : AudioIdentity
identity = record { runtime_id = "0123456789abcdef"; station_id = "front"; generation = 3 }

abbrev piece : ℕ → AudioChunk
piece revision = record {
  identity = identity;
  previous_revision = revision;
  revision = revision + 1;
  pcm = pcm;
  timestamp_ms = 20;
  latest_timestamp_ms = 20;
  dropped_samples = 0;
  discontinuity = false;
}

-- Two listeners read; the second gets from the cache what the first one fetched.
abbrev ops : List Op
ops =
    adds "a" 0
    ∷ adds "b" 0
    ∷ begins "a" 1
    ∷ reads_cached "a" 0 0 1
    ∷ reads_locked "a" 0 0 1
    ∷ reads_done "a" 0 0 1 2 (replied (chunk (piece 6)))
    ∷ begins "b" 3
    ∷ reads_cached "b" 1 0 3
    ∷ reads_done "a" 0 0 3 4 (replied (chunk (piece 7)))
    ∷ removes "b"
    ∷ []

run-ops : (run (init identity) ops).1 ≡ (0, 7) ∷ (1, 7) ∷ (0, 8) ∷ []
unfolding run init apply add check_open check_listener read_begin read_cached read_locked read_done
    store append_entry serve cached hand_out
run-ops = refl

run-Rises_example : Rises 0 0 (run (init identity) ops).1
run-Rises_example = run-Rises identity ops 0

run_bounds_example :
    (length (run (init identity) ops).0.listeners ≤ 4)
    × (length (run (init identity) ops).0.cache ≤ 4)
run_bounds_example = run_bounds identity ops

abbrev listener : Listener
listener = record { serial = 0; cursor = some 6; discontinuity = false }

piece-cached : (cached ((piece 6, 0) ∷ []) (some 6) 20 1 listener).1 ≡ some (piece 6)
unfolding cached hand_out
piece-cached = refl

cached_honest_example :
    (listener.discontinuity ≡ false)
    × Kept (some 6) listener.cursor
    × ((listener.cursor ≡ none) ⊎ (listener.cursor ≡ some (piece 6).previous_revision))
cached_honest_example =
    cached_honest ((piece 6, 0) ∷ []) (some 6) 20 1 listener (piece 6) piece-cached refl
