-- ===== src/Tests/Clients.antt =====
-- custom_components/doorfast/client.py: the client at concrete states.
use doorfastforha.Prelude.{
  ℕ, ◌≡◌, refl, String, Bool, true, false, List, [], ◌∷◌, ◌++◌, none, some, pos, All, string_eq,
}
use doorfastforha.Value.{Value, str, int, bool, list, dict, cons, nil, Fields, end, field, get, put}
use doorfastforha.Value.Equal.{same_value}
use doorfastforha.Access.{version_one}
use doorfastforha.ClientTypes.{is_runtime_id, uint64, require_station_id, is_station_id}
use doorfastforha.SessionDiagnostics.{Operation, station_call_operation, one_of, is_coherent}
use doorfastforha.Client.{
  DoorfastClient, init, current_runtime_id, current_video_generation, current_audio_generation,
  video_request_is_current, clear_video_cache, clear_audio_cursor, clear_video_cache_for_request,
  audio_request_is_current,
}
use doorfastforha.Client.Previews.{
  StopRequest, stop_monitor_end, is_stop_reply, raise_fence, supersede, show_stop, with_pending,
  call_owns_station, native_owns, fence_stopped_previews, fence_rows, fence_row, fence_of,
  is_fenced, is_borrowed, held_row, stopping, conclude_stop, monitor_status_end, bind_runtime,
  start_monitor_end,
}
use doorfastforha.Client.Unlocks.{fence_unlock_status, fenced_unlocks}
use doorfastforha.Client.Refresh.{
  RefreshRequest, refresh_begin, refresh_end, same_epochs, is_outdated, goes_back, adopt, share,
  unfenced, runtime_changed, fence_media, drop_video, drop_audio,
}
use doorfastforha.Client.Media.{
  MediaRequest, HttpReply, video_end, audio_end, cached_frame, take_frame, keep_frame, decimal,
  video_begin, video_request, take_chunk, reply_revisions, audio_header_int, is_chunk, continues,
  move_cursor,
}
use doorfastforha.Client.Schedule.{
  Op, apply, run, begins_refresh, ends_refresh, starts_monitor, begins_video, ends_video, controls,
}
use doorfastforha.Client.Current.{IsCurrent}
use doorfastforha.Client.Current.Runs.{run-IsCurrent}
use doorfastforha.Client.Superseded.{between, refresh_end-superseded}
use doorfastforha.Client.Forward.{operation, Forward}
use doorfastforha.Client.Forward.Runs.{Stays, run-Forward}
use doorfastforha.Client.Cursor.{Advances, audio_end-Advances}
use doorfastforha.Client.Stopped.{is_preview, HeldValue}
use doorfastforha.Client.Stopped.Acknowledged.{
  media_rows, stop_monitor_end-monitor_status, stop_monitor_end-held,
}
use doorfastforha.Client.Frames.{Listed, frames, replied}
use doorfastforha.Client.Frames.Shown.{video_end-frames}

abbrev runtime : String
runtime = "0123456789abcdef"

-- A call of generation 7 with a frame and sound, and its operation at a stage.
abbrev talking : String → Fields
talking stage = field "runtime_id" (str runtime) (
    field "call"
      (dict (
        field "generation" (int (pos 7))
          (field "session" (str "talking") (field "station_id" (str "front") end))))
      (field "video" (dict (field "ready" (bool true) (field "generation" (int (pos 7)) end))) (
        field "audio"
          (dict (
            field "snapshot_ready" (bool true)
              (field "generation" (int (pos 7)) (field "snapshot_packet_count" (int (pos 3)) end))))
          (field "station_call"
            (dict (
              field "station_id" (str "front") (
                field "stage" (str stage) (
                  field "timer" (str "none") (
                    field "error" (str "none") (
                      field "operation_id" (int (pos 4)) (
                        field "media_generation" (int (pos 7)) (
                          field "call_generation" (int (pos 7))
                            (field "remaining_ms" (int (pos 0)) end)))))))))
            end))))

abbrev first_refresh : RefreshRequest
first_refresh = record {
  sequence = 1;
  control_epochs = [];
  unlock_epochs = [];
  acceptance_epochs = [];
}

abbrev frame_request : MediaRequest
frame_request = record {
  runtime = runtime;
  generation = 7;
  previous = none;
  latest = 0;
  etag = none;
}

abbrev frame_reply : HttpReply
frame_reply = record {
  status = 200;
  headers = ("X-Doorfast-Generation", "7") ∷ ("ETag", "a") ∷ [];
  body = 1 ∷ 2 ∷ [];
}

abbrev raises : ℕ → Bool
raises status = false

abbrev session : List Op
session =
    begins_refresh
    ∷ ends_refresh first_refresh (talking "calling")
    ∷ begins_video
    ∷ ends_video raises frame_request frame_reply
    ∷ []

run-IsCurrent_example : IsCurrent (run session init)
run-IsCurrent_example = run-IsCurrent session

refresh_end-superseded_example :
    (refresh_end
      (refresh_begin init).1
      (talking "calling")
      (between [] (starts_monitor end) (begins_video ∷ []) init)).0
    ≡ between [] (starts_monitor end) (begins_video ∷ []) init
refresh_end-superseded_example =
    refresh_end-superseded [] (begins_video ∷ []) (starts_monitor end) (talking "calling") init tt

abbrev unchanged_reply : HttpReply
unchanged_reply = record { status = 304; headers = []; body = [] }

cached_again :
    (video_end raises frame_request unchanged_reply (run session init)).1 ≡ some (some (1 ∷ 2 ∷ []))
unfolding run apply video_end cached_frame video_request_is_current current_runtime_id take_frame
    keep_frame decimal video_begin video_request refresh_end refresh_begin init same_epochs
    is_outdated goes_back station_call_operation adopt share unfenced runtime_changed fence_media
    drop_video drop_audio clear_video_cache clear_audio_cursor clear_video_cache_for_request
    current_video_generation current_audio_generation fence_unlock_status fenced_unlocks version_one
    is_runtime_id one_of uint64 require_station_id is_station_id is_coherent put
cached_again = refl

video_end-frames_example :
    (current_video_generation (run session init).status ≡ some 7)
    × Listed (7, 1 ∷ 2 ∷ []) (frames session ++ replied frame_request unchanged_reply)
video_end-frames_example =
    video_end-frames session raises frame_request unchanged_reply (1 ∷ 2 ∷ []) cached_again

-- The status of a call that is made, at the start of the second refresh.
abbrev calling : DoorfastClient
calling = record init { status = talking "calling"; refresh_sequence = 1 }

abbrev operation_at : String → Operation
operation_at stage = record {
  runtime_id = runtime;
  station_id = some "front";
  stage = stage;
  timer = "none";
  error = "none";
  operation_id = 4;
  media_generation = 7;
  call_generation = 7;
  remaining_ms = 0;
}

abbrev later : List Op
later = ends_refresh first_refresh (talking "talking") ∷ []

calling_first : operation calling ≡ some (operation_at "calling")
unfolding init station_call_operation is_runtime_id one_of uint64 require_station_id is_station_id
    is_coherent
calling_first = refl

talking_last : operation (run later calling) ≡ some (operation_at "talking")
unfolding init station_call_operation is_runtime_id one_of uint64 require_station_id is_station_id
    is_coherent run apply video_end cached_frame video_request_is_current current_runtime_id
    take_frame keep_frame decimal video_begin video_request refresh_end refresh_begin same_epochs
    is_outdated goes_back adopt share unfenced runtime_changed fence_media drop_video drop_audio
    clear_video_cache clear_audio_cursor clear_video_cache_for_request current_video_generation
    current_audio_generation fence_unlock_status fenced_unlocks version_one put
talking_last = refl

later-Stays : Stays runtime later calling
unfolding init station_call_operation is_runtime_id one_of uint64 require_station_id is_station_id
    is_coherent run apply video_end cached_frame video_request_is_current current_runtime_id
    take_frame keep_frame decimal video_begin video_request refresh_end refresh_begin same_epochs
    is_outdated goes_back adopt share unfenced runtime_changed fence_media drop_video drop_audio
    clear_video_cache clear_audio_cursor clear_video_cache_for_request current_video_generation
    current_audio_generation fence_unlock_status fenced_unlocks version_one put
later-Stays = ((operation_at "calling", refl, refl), (operation_at "talking", refl, refl))

run-Forward_example : Forward (operation_at "calling") (operation_at "talking")
run-Forward_example =
    run-Forward runtime later calling (operation_at "calling") (operation_at "talking") later-Stays
      calling_first talking_last

abbrev chunk_request : MediaRequest
chunk_request = record {
  runtime = runtime;
  generation = 7;
  previous = none;
  latest = 3;
  etag = none;
}

abbrev chunk_reply : HttpReply
chunk_reply = record {
  status = 200;
  headers =
      ("X-Doorfast-Generation", "7")
      ∷ ("X-Doorfast-Audio-Previous-Revision", "2")
      ∷ ("X-Doorfast-Audio-Revision", "4")
      ∷ [];
  body = 1 ∷ [];
}

chunk_taken : (audio_end raises chunk_request chunk_reply calling).1 ≡ some (some (1 ∷ []))
unfolding init audio_end take_chunk reply_revisions audio_header_int is_chunk continues
    audio_request_is_current current_runtime_id current_audio_generation is_runtime_id move_cursor
chunk_taken = refl

audio_end-Advances_example :
    Advances chunk_request chunk_reply calling
      (audio_end raises chunk_request chunk_reply calling).0
    × ((1 ∷ []) ≡ chunk_reply.body)
audio_end-Advances_example =
    audio_end-Advances raises chunk_request chunk_reply calling (1 ∷ []) chunk_taken

abbrev preview : String → Fields
preview state = field "station_id" (str "front") (
    field "generation" (int (pos 9))
      (field "purpose" (str "preview") (field "state" (str state) end)))

abbrev media : Fields
media = field "sessions" (list (cons (dict (preview "publishing")) nil)) end

abbrev previewing : DoorfastClient
previewing = record init {
  status = field "runtime_id" (str runtime) (field "media" (dict media) end);
}

abbrev stop_request : StopRequest
stop_request = record {
  runtime_id = runtime;
  station_id = "front";
  generation = 9;
  accepted = none;
}

abbrev stopped : DoorfastClient
stopped = (stop_monitor_end stop_request end previewing).0

abbrev shown : Fields
shown = field "runtime_id" (str runtime) (
    field "media"
      (dict (
        field "sessions"
          (list (
            cons
              (dict (
                field "station_id" (str "front") (
                  field "generation" (int (pos 9)) (
                    field "purpose" (str "preview") (
                      field "state" (str "stopping")
                        (field "ready" (bool false) (field "source_live" (bool false) end)))))))
              nil))
          end))
      end)

stop_shares : stop_monitor_end stop_request end previewing ≡ (stopped, some (some shown))
unfolding init stop_monitor_end is_stop_reply raise_fence supersede show_stop with_pending
    call_owns_station native_owns station_call_operation is_runtime_id fence_stopped_previews
    fence_rows fence_row fence_of is_fenced is_borrowed held_row stopping conclude_stop put
    monitor_status_end bind_runtime same_value
stop_shares = refl

previewing_unowned : (v : Value) → call_owns_station previewing.status "front" v ≡ some false
unfolding init stop_monitor_end is_stop_reply raise_fence supersede show_stop with_pending
    call_owns_station native_owns station_call_operation is_runtime_id fence_stopped_previews
    fence_rows fence_row fence_of is_fenced is_borrowed held_row stopping conclude_stop put
    monitor_status_end bind_runtime same_value one_of uint64 require_station_id is_station_id
    is_coherent
previewing_unowned v = refl

abbrev after_stop : List Op
after_stop = begins_refresh ∷ starts_monitor end ∷ controls (("front", 2) ∷ []) ∷ begins_video ∷ []

abbrev late_reply : Fields
late_reply =
    field "runtime_id" (str runtime)
      (field "sessions" (list (cons (dict (preview "publishing")) (cons (str "row") nil))) end)

abbrev late_shown : Fields
late_shown = field "runtime_id" (str runtime) (field "sessions" (list (cons (str "row") nil)) end)

late_status : monitor_status_end (str runtime) late_reply (run after_stop stopped) ≡ some late_shown
unfolding init stop_monitor_end is_stop_reply raise_fence supersede show_stop with_pending
    call_owns_station native_owns station_call_operation is_runtime_id fence_stopped_previews
    fence_rows fence_row fence_of is_fenced is_borrowed held_row stopping conclude_stop put
    monitor_status_end bind_runtime same_value one_of uint64 require_station_id is_station_id
    is_coherent run apply refresh_begin video_begin video_request clear_video_cache
    current_runtime_id current_video_generation start_monitor_end
late_status = refl

late_runtime : same_value (str runtime) (get (run after_stop stopped).status "runtime_id") ≡ true
unfolding init stop_monitor_end is_stop_reply raise_fence supersede show_stop with_pending
    call_owns_station native_owns station_call_operation is_runtime_id fence_stopped_previews
    fence_rows fence_row fence_of is_fenced is_borrowed held_row stopping conclude_stop put
    monitor_status_end bind_runtime same_value one_of uint64 require_station_id is_station_id
    is_coherent run apply refresh_begin video_begin video_request clear_video_cache
    current_runtime_id current_video_generation start_monitor_end
late_runtime = refl

late_unowned :
    (v : Value) → call_owns_station (run after_stop stopped).status "front" v ≡ some false
unfolding init stop_monitor_end is_stop_reply raise_fence supersede show_stop with_pending
    call_owns_station native_owns station_call_operation is_runtime_id fence_stopped_previews
    fence_rows fence_row fence_of is_fenced is_borrowed held_row stopping conclude_stop put
    monitor_status_end bind_runtime same_value one_of uint64 require_station_id is_station_id
    is_coherent run apply refresh_begin video_begin video_request clear_video_cache
    current_runtime_id current_video_generation start_monitor_end
late_unowned v = refl

stop_monitor_end-monitor_status_example :
    All (λ v. is_preview stop_request v ≡ false) (str "row" ∷ [])
unfolding init run apply refresh_begin start_monitor_end supersede video_begin video_request
    clear_video_cache current_runtime_id current_video_generation stop_monitor_end is_stop_reply
    raise_fence show_stop with_pending conclude_stop call_owns_station station_call_operation
    native_owns fence_stopped_previews fence_rows fence_row fence_of is_fenced is_borrowed held_row
    put is_runtime_id
stop_monitor_end-monitor_status_example =
    stop_monitor_end-monitor_status stop_request end previewing stopped shown after_stop
      (str runtime) late_reply late_shown stop_shares (tt, (tt, (tt, (tt, tt)))) refl late_unowned
      late_status late_runtime

stop_monitor_end-held_example :
    All (λ v. is_preview stop_request v ≡ true → HeldValue v) (media_rows shown)
unfolding init
stop_monitor_end-held_example =
    stop_monitor_end-held stop_request end previewing stopped shown stop_shares refl
      previewing_unowned
