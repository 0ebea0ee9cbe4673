-- ===== src/Client.antt =====
-- custom_components/doorfast/client.py: the state of `DoorfastClient` and what it reads from its status.
-- A request is sent between two stretches of an operation: the first reads what is carried over the
-- await, the second takes the reply. The operations are the children's.
pub mod Previews
pub mod Unlocks
pub mod Refresh
pub mod Commands
pub mod Media
pub mod Reads
pub mod Snapshot
pub mod Schedule
pub mod Current
pub mod Superseded
pub mod Forward
pub mod Frames
pub mod Cursor
pub mod Stopped
use doorfastforha.Prelude.{
  ℕ, String, Bool, true, false, ◌||◌, ◌&&◌, not, List, [], ◌∷◌, Option, none, some, if◌then◌else◌,
  ◌==◌, str_eq, Dict, lookup, string_eq, ◌>>=◌, ◌>>◌, guard, length,
}
use doorfastforha.Value.{
  Value, null, bool, int, float, str, list, dict, Fields, end, get, as_dict, as_text, as_nat,
  is_true, positive, codes,
}
use doorfastforha.ClientTypes.{is_runtime_id}

-- An accepted call of a station: its runtime, its generation, and how many came before it.
pub record Accepted : Type 0 where
  pub runtime_id : String
  pub generation : ℕ
  pub count : ℕ

-- The stop of a preview: its runtime and generation, and the call that the stop has seen accepted.
pub record Fence : Type 0 where
  pub runtime_id : String
  pub generation : ℕ
  pub accepted : Option Accepted

pub record DoorfastClient : Type 0 where
  pub status : Fields
  pub online : Bool
  pub video_generation : Option ℕ
  pub video_etag : Option String
  pub video_frame : Option (List ℕ)
  pub audio_generation : Option ℕ
  pub audio_revision : Option ℕ
  pub audio_etag : Option String
  pub refresh_sequence : ℕ
  pub unlock_epochs : Dict String ℕ
  pub unlock_acceptance_epochs : Dict String ℕ
  pub station_control_epochs : Dict String ℕ
  pub status_control_epochs : Dict String ℕ
  pub accepted_station_calls : Dict String Accepted
  pub preview_stop_fences : Dict String Fence

unfoldable pub init : DoorfastClient
init = record {
  status = end;
  online = false;
  video_generation = none;
  video_etag = none;
  video_frame = none;
  audio_generation = none;
  audio_revision = none;
  audio_etag = none;
  refresh_sequence = 0;
  unlock_epochs = [];
  unlock_acceptance_epochs = [];
  station_control_epochs = [];
  status_control_epochs = [];
  accepted_station_calls = [];
  preview_stop_fences = [];
}

-- Equality of optional numbers and texts.
abbrev pub same_nat : Option ℕ → Option ℕ → Bool
same_nat none none = true
same_nat (some a) (some b) = a == b
same_nat _ _ = false

abbrev pub same_text : Option String → String → Bool
same_text none t = false
same_text (some s) t = str_eq s t

-- `_current_runtime_id` of a status.
unfoldable pub current_runtime_id : Fields → Option String
current_runtime_id status = do
  runtime ← as_text (get status "runtime_id")
  guard (is_runtime_id (codes runtime))
  some runtime

-- `_current_video_generation` of a status.
unfoldable pub current_video_generation : Fields → Option ℕ
current_video_generation status = do
  call ← as_dict (get status "call")
  video ← as_dict (get status "video")
  guard (is_true (get video "ready"))
  generation ← positive (get call "generation")
  shown ← as_nat (get video "generation")
  guard (shown == generation)
  some generation

unfoldable pub clear_video_cache : DoorfastClient → DoorfastClient
clear_video_cache c = record c { video_generation = none; video_etag = none; video_frame = none }

unfoldable pub video_request_is_current : String → ℕ → DoorfastClient → Bool
video_request_is_current runtime generation c =
    same_text (current_runtime_id c.status) runtime
    && same_nat (current_video_generation c.status) (some generation)

unfoldable pub clear_video_cache_for_request : String → ℕ → DoorfastClient → DoorfastClient
clear_video_cache_for_request runtime generation c =
    if video_request_is_current runtime generation c then clear_video_cache c else c

-- `_current_audio_generation` of a status.
unfoldable pub current_audio_generation : Fields → Option ℕ
current_audio_generation status = do
  call ← as_dict (get status "call")
  audio ← as_dict (get status "audio")
  guard (is_true (get audio "snapshot_ready"))
  generation ← positive (get call "generation")
  heard ← as_nat (get audio "generation")
  _ ← positive (get audio "snapshot_packet_count")
  guard (heard == generation)
  some generation

unfoldable pub clear_audio_cursor : DoorfastClient → DoorfastClient
clear_audio_cursor c = record c {
  audio_generation = none;
  audio_revision = none;
  audio_etag = none;
}

unfoldable pub audio_request_is_current : String → ℕ → Option ℕ → DoorfastClient → Bool
audio_request_is_current runtime generation previous c =
    same_text (current_runtime_id c.status) runtime
    && (same_nat (current_audio_generation c.status) (some generation)
        && (same_nat c.audio_revision previous && elim previous [
          | none ↦ same_nat c.audio_generation none
          | some p ↦ same_nat c.audio_generation (some generation)
        ]))

unfoldable pub clear_audio_cursor_for_request :
    String → ℕ → Option ℕ → DoorfastClient → DoorfastClient
clear_audio_cursor_for_request runtime generation previous c =
    if audio_request_is_current runtime generation previous c then clear_audio_cursor c else c
