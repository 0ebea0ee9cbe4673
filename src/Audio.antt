-- ===== src/Audio.antt =====
-- custom_components/doorfast/audio.py: the WAV decoder and the shared listener hub.
pub mod Wav
pub mod Hub
pub mod Identity
