-- ===== src/Client/Current/Runs.antt =====
-- custom_components/doorfast/client.py: the caches over any interleaving.
use doorfastforha.Prelude.{
  ℕ, refl, String, Bool, true, ◌||◌, not, List, [], ◌∷◌, Option, none, some, ◌==◌, if_cases,
  Option-cases, inl, inr, arith,
}
use doorfastforha.Value.{Value, Fields}
use doorfastforha.Client.{
  DoorfastClient, init, same_nat, current_video_generation, current_audio_generation,
  clear_video_cache, video_request_is_current, clear_video_cache_for_request, clear_audio_cursor,
  audio_request_is_current, clear_audio_cursor_for_request,
}
use doorfastforha.Client.Previews.{start_monitor_end}
use doorfastforha.Client.Unlocks.{unlock_begin}
use doorfastforha.Client.Refresh.{
  RefreshRequest, refresh_begin, refresh_end, adopt, drop_video, drop_audio, share, unfenced,
}
use doorfastforha.Client.Refresh.Cases.{refresh_end_cases}
use doorfastforha.Client.Commands.{call_station_end, note_call}
use doorfastforha.Client.Media.{
  MediaRequest, HttpReply, video_begin, video_end, audio_begin, audio_end, take_chunk, is_chunk,
  reply_revisions, video_request, audio_request,
}
use doorfastforha.Client.Schedule.{
  Op, apply, run, begins_refresh, ends_refresh, starts_monitor, stops_monitor, begins_unlock,
  ends_unlock, calls_station, begins_video, ends_video, begins_audio, ends_audio, controls,
}
use doorfastforha.Client.Current.{
  Covers, Paired, IsCurrent, clear_video-IsCurrent, clear_audio-IsCurrent, Kept,
  supersede-IsCurrent, stop-IsCurrent, unlock-IsCurrent, Covers-same, take_frame-IsCurrent,
  move_cursor-IsCurrent,
}

take_chunk-IsCurrent :
    (r : MediaRequest) (reply : HttpReply) (c : DoorfastClient)
    → IsCurrent c
    → IsCurrent (take_chunk r reply c).0
unfolding take_chunk
take_chunk-IsCurrent r reply c h =
    let refused : IsCurrent (clear_audio_cursor_for_request r.runtime r.generation r.previous c) =
      unfold clear_audio_cursor_for_request in
      if_cases IsCurrent (audio_request_is_current r.runtime r.generation r.previous c)
        (λ _. clear_audio-IsCurrent c h) (λ _. h) in
    elim (Option-cases (reply_revisions reply)) [
      | inl e ↦ rw (e, take_chunk) refused
      | inr ((before, own), e) ↦
          rw (e, take_chunk)
            (if_cases Kept (is_chunk r before own reply c)
              (λ good. move_cursor-IsCurrent r before own reply c good h) (λ _. refused))
    ]

video_begin-IsCurrent : (c : DoorfastClient) → IsCurrent c → IsCurrent (video_begin c).0
unfolding video_begin
video_begin-IsCurrent c h = elim (Option-cases (video_request c)) [
  | inl e ↦ rw (e, video_begin) (clear_video-IsCurrent c h)
  | inr (r, e) ↦ rw (e, video_begin) h
]

audio_begin-IsCurrent : (c : DoorfastClient) → IsCurrent c → IsCurrent (audio_begin c).0
unfolding audio_begin
audio_begin-IsCurrent c h = elim (Option-cases (audio_request c)) [
  | inl e ↦ rw (e, audio_begin) (clear_audio-IsCurrent c h)
  | inr (r, e) ↦ rw (e, audio_begin) h
]

video_end-IsCurrent :
    (raises : ℕ → Bool) (r : MediaRequest) (reply : HttpReply) (c : DoorfastClient)
    → IsCurrent c
    → IsCurrent (video_end raises r reply c).0
unfolding video_end clear_video_cache_for_request
video_end-IsCurrent raises r reply c h =
    if_cases Kept (reply.status == 304 || reply.status == 503) (λ _. h)
      (λ _.
        if_cases Kept (reply.status == 404 || reply.status == 409)
          (λ _.
            if_cases IsCurrent (video_request_is_current r.runtime r.generation c)
              (λ _. clear_video-IsCurrent c h) (λ _. h))
          (λ _.
            if_cases Kept (raises reply.status) (λ _. h) (λ _. take_frame-IsCurrent r reply c h)))

audio_end-IsCurrent :
    (raises : ℕ → Bool) (r : MediaRequest) (reply : HttpReply) (c : DoorfastClient)
    → IsCurrent c
    → IsCurrent (audio_end raises r reply c).0
unfolding audio_end clear_audio_cursor_for_request
audio_end-IsCurrent raises r reply c h =
    if_cases Kept (reply.status == 304 || reply.status == 503) (λ _. h)
      (λ _.
        if_cases Kept (reply.status == 404 || reply.status == 409)
          (λ _.
            if_cases IsCurrent (audio_request_is_current r.runtime r.generation r.previous c)
              (λ _. clear_audio-IsCurrent c h) (λ _. h))
          (λ _.
            if_cases Kept (raises reply.status) (λ _. h) (λ _. take_chunk-IsCurrent r reply c h)))

-- What a refresh keeps of the caches is of the shared status.
drop_video-Covers :
    (changed : Bool) (c : DoorfastClient)
    → Covers
        (drop_video changed c).video_generation
        (current_video_generation (drop_video changed c).status)
unfolding drop_video clear_video_cache
drop_video-Covers changed c =
    if_cases (λ (d : DoorfastClient). Covers d.video_generation (current_video_generation d.status))
      (changed || not (same_nat (current_video_generation c.status) c.video_generation)) (λ _. tt)
      (λ e. Covers-same c.video_generation (current_video_generation c.status) (ground arith))

abbrev HasFrame : DoorfastClient → Type 0
HasFrame c = Paired c.video_generation c.video_frame

abbrev HasCursor : DoorfastClient → Type 0
HasCursor c = Paired c.audio_generation c.audio_revision

drop_video-Paired :
    (changed : Bool) (c : DoorfastClient)
    → HasFrame c
    → HasCursor c
    → HasFrame (drop_video changed c) × HasCursor (drop_video changed c)
unfolding drop_video clear_video_cache
drop_video-Paired changed c frame cursor =
    if_cases (λ (d : DoorfastClient). HasFrame d × HasCursor d) _ (λ _. (refl, cursor))
      (λ _. (frame, cursor))

drop_audio-IsCurrent :
    (changed : Bool) (c : DoorfastClient)
    → Covers c.video_generation (current_video_generation c.status)
    → HasFrame c
    → HasCursor c
    → IsCurrent (drop_audio changed c)
unfolding drop_audio clear_audio_cursor
drop_audio-IsCurrent changed c video frame cursor =
    if_cases IsCurrent
      (changed || not (same_nat (current_audio_generation c.status) c.audio_generation))
      (λ _. record { video = video; audio = tt; frame = frame; cursor = refl })
      (λ e. record {
        video = video;
        audio = Covers-same c.audio_generation (current_audio_generation c.status) (ground arith);
        frame = frame;
        cursor = cursor;
      })

share-IsCurrent :
    (r : RefreshRequest) (changed : Bool) (o : Option Fields) (c : DoorfastClient)
    → IsCurrent c
    → IsCurrent (share r changed o c).0
unfolding share
share-IsCurrent r changed none c h = h
share-IsCurrent r changed (some s) c h =
    let shown : DoorfastClient = record c {
      status = s;
      status_control_epochs = r.control_epochs;
      online = true;
    } in
    let held = drop_video-Paired changed shown h.frame h.cursor in
    drop_audio-IsCurrent changed (drop_video changed shown) (drop_video-Covers changed shown) held.0
      held.1

unfenced-IsCurrent :
    (changed : Bool) (c : DoorfastClient) → IsCurrent c → IsCurrent (unfenced changed c)
unfolding unfenced
unfenced-IsCurrent changed c h = ground arith

refresh-IsCurrent :
    (r : RefreshRequest) (reply : Fields) (c : DoorfastClient)
    → IsCurrent c
    → IsCurrent (refresh_end r reply c).0
unfolding adopt
refresh-IsCurrent r reply c h =
    refresh_end_cases r reply c Kept (λ _. h)
      (λ _. share-IsCurrent r _ _ _ (unfenced-IsCurrent _ c h))

call-IsCurrent :
    (runtime station : String) (reply : Value) (c : DoorfastClient)
    → IsCurrent c
    → IsCurrent (call_station_end runtime station reply c).0
unfolding call_station_end note_call
call-IsCurrent runtime station reply c h = ground arith

unlock_begin-IsCurrent :
    (station : Value) (c : DoorfastClient) → IsCurrent c → IsCurrent (unlock_begin station c).0
unfolding unlock_begin
unlock_begin-IsCurrent station c h = ground arith

apply-IsCurrent : (op : Op) (c : DoorfastClient) → IsCurrent c → IsCurrent (apply op c)
unfolding apply refresh_begin start_monitor_end
apply-IsCurrent begins_refresh c h = ground arith
apply-IsCurrent (ends_refresh r reply) c h = refresh-IsCurrent r reply c h
apply-IsCurrent (starts_monitor reply) c h = supersede-IsCurrent c h
apply-IsCurrent (stops_monitor r reply) c h = stop-IsCurrent r reply c h
apply-IsCurrent (begins_unlock station) c h = unlock_begin-IsCurrent station c h
apply-IsCurrent (ends_unlock r reply n) c h = unlock-IsCurrent r reply n c h
apply-IsCurrent (calls_station runtime station reply) c h = call-IsCurrent runtime station reply c h
apply-IsCurrent begins_video c h = video_begin-IsCurrent c h
apply-IsCurrent (ends_video raises r reply) c h = video_end-IsCurrent raises r reply c h
apply-IsCurrent begins_audio c h = audio_begin-IsCurrent c h
apply-IsCurrent (ends_audio raises r reply) c h = audio_end-IsCurrent raises r reply c h
apply-IsCurrent (controls epochs) c h = ground arith

run_keeps : (ops : List Op) (c : DoorfastClient) → IsCurrent c → IsCurrent (run ops c)
unfolding run
run_keeps [] c h = h
run_keeps (op ∷ ops) c h = run_keeps ops (apply op c) (apply-IsCurrent op c h)

-- Over any interleaving of a new client's stretches a cached frame and a cursor for audio are of the
-- generation that the shared status names, and each is there exactly when its generation is.
pub run-IsCurrent : (ops : List Op) → IsCurrent (run ops init)
unfolding init
run-IsCurrent ops =
    run_keeps ops init (record { video = tt; audio = tt; frame = refl; cursor = refl })
