-- ===== src/Client/Schedule.antt =====
-- custom_components/doorfast/client.py: any interleaving of the stretches of `DoorfastClient`'s
-- operations. What an operation carries over its request is any value, so every schedule of concurrent
-- tasks, with any cancellation, is a list of these.
use doorfastforha.Prelude.{ℕ, String, Bool, List, [], ◌∷◌, ◌++◌, Dict, refl, ◌≡◌}
use doorfastforha.Value.{Value, Fields}
use doorfastforha.Client.{DoorfastClient}
use doorfastforha.Client.Previews.{StopRequest, start_monitor_end, stop_monitor_end}
use doorfastforha.Client.Unlocks.{UnlockRequest, unlock_begin, unlock_end}
use doorfastforha.Client.Refresh.{RefreshRequest, refresh_begin, refresh_end}
use doorfastforha.Client.Commands.{call_station_end}
use doorfastforha.Client.Media.{
  MediaRequest, HttpReply, video_begin, video_end, audio_begin, audio_end,
}

pub data Op : Type 0 where
  begins_refresh : Op
  ends_refresh : RefreshRequest → Fields → Op
  starts_monitor : Fields → Op
  stops_monitor : StopRequest → Fields → Op
  begins_unlock : Value → Op
  ends_unlock : UnlockRequest → Value → ℕ → Op
  calls_station : String → String → Value → Op
  begins_video : Op
  ends_video : (ℕ → Bool) → MediaRequest → HttpReply → Op
  begins_audio : Op
  ends_audio : (ℕ → Bool) → MediaRequest → HttpReply → Op
  -- A monitor has begun a request for a station.
  controls : Dict String ℕ → Op

unfoldable pub apply : Op → DoorfastClient → DoorfastClient
apply begins_refresh c = (refresh_begin c).0
apply (ends_refresh r reply) c = (refresh_end r reply c).0
apply (starts_monitor reply) c = (start_monitor_end reply c).0
apply (stops_monitor r reply) c = (stop_monitor_end r reply c).0
apply (begins_unlock station) c = (unlock_begin station c).0
apply (ends_unlock r reply duration) c = (unlock_end r reply duration c).0
apply (calls_station runtime station reply) c = (call_station_end runtime station reply c).0
apply begins_video c = (video_begin c).0
apply (ends_video raises r reply) c = (video_end raises r reply c).0
apply begins_audio c = (audio_begin c).0
apply (ends_audio raises r reply) c = (audio_end raises r reply c).0
apply (controls epochs) c = record c { station_control_epochs = epochs }

unfoldable pub run : List Op → DoorfastClient → DoorfastClient
run [] c = c
run (op ∷ ops) c = run ops (apply op c)

pub run-append :
    (ops later : List Op) (c : DoorfastClient) → run (ops ++ later) c ≡ run later (run ops c)
unfolding run
run-append [] later c = refl
run-append (op ∷ ops) later c = run-append ops later (apply op c)
