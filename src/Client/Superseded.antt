-- ===== src/Client/Superseded.antt =====
-- custom_components/doorfast/client.py, `_refresh_sequence`: which refreshes are superseded.
use doorfastforha.Prelude.{ℕ, ◌≤◌, ◌<◌, ◌≡◌, Bool, true, List, [], ◌∷◌, ◌++◌, arith}
use doorfastforha.Value.{Value, Fields}
use doorfastforha.Client.{
  DoorfastClient, clear_video_cache, clear_video_cache_for_request, clear_audio_cursor,
  clear_audio_cursor_for_request,
}
use doorfastforha.Client.Previews.{
  StopRequest, start_monitor_end, stop_monitor_end, conclude_stop, supersede, raise_fence,
  is_stop_reply,
}
use doorfastforha.Client.Unlocks.{
  UnlockRequest, unlock_begin, unlock_end, follow_unlock, take_unlock, accept_unlock,
}
use doorfastforha.Client.Refresh.{
  RefreshRequest, refresh_begin, refresh_end, adopt, share, unfenced, drop_video, drop_audio,
}
use doorfastforha.Client.Refresh.Cases.{refresh_end_cases}
use doorfastforha.Client.Commands.{call_station_end, note_call}
use doorfastforha.Client.Media.{
  MediaRequest, HttpReply, video_begin, video_end, take_frame, keep_frame, audio_begin, audio_end,
  take_chunk, move_cursor,
}
use doorfastforha.Client.Schedule.{
  Op, apply, run, run-append, begins_refresh, ends_refresh, starts_monitor, stops_monitor,
  begins_unlock, ends_unlock, calls_station, begins_video, ends_video, begins_audio, ends_audio,
  controls,
}

-- The sequence of a client with which a stretch ends.
abbrev Grows {ℓ} : {A : Type ℓ} → DoorfastClient → DoorfastClient × A → Type 0
Grows c p = c.refresh_sequence ≤ p.0.refresh_sequence

stop-Grows :
    (r : StopRequest) (reply : Fields) (c : DoorfastClient) → Grows c (stop_monitor_end r reply c)
unfolding stop_monitor_end conclude_stop supersede raise_fence
stop-Grows r reply c = ground arith

follow-sequence :
    (r : UnlockRequest) (reply : Value) (n : ℕ) (c : DoorfastClient)
    → Grows c (unlock_end r reply n c)
unfolding unlock_end follow_unlock take_unlock accept_unlock
follow-sequence r reply n c = ground arith

video-sequence :
    (raises : ℕ → Bool) (r : MediaRequest) (reply : HttpReply) (c : DoorfastClient)
    → Grows c (video_end raises r reply c)
unfolding video_end take_frame keep_frame clear_video_cache_for_request clear_video_cache
video-sequence raises r reply c = ground arith

audio-sequence :
    (raises : ℕ → Bool) (r : MediaRequest) (reply : HttpReply) (c : DoorfastClient)
    → Grows c (audio_end raises r reply c)
unfolding audio_end take_chunk move_cursor clear_audio_cursor_for_request clear_audio_cursor
audio-sequence raises r reply c = ground arith

refresh-sequence :
    (r : RefreshRequest) (reply : Fields) (c : DoorfastClient) → Grows c (refresh_end r reply c)
unfolding adopt share unfenced drop_video drop_audio clear_video_cache clear_audio_cursor
refresh-sequence r reply c =
    refresh_end_cases r reply c (Grows c) (λ _. omega arith) (λ _. ground arith)

apply-sequence : (op : Op) (c : DoorfastClient) → c.refresh_sequence ≤ (apply op c).refresh_sequence
unfolding apply refresh_begin start_monitor_end supersede unlock_begin call_station_end note_call
    video_begin audio_begin clear_video_cache clear_audio_cursor
apply-sequence (ends_refresh r reply) c = refresh-sequence r reply c
apply-sequence (stops_monitor r reply) c = stop-Grows r reply c
apply-sequence (ends_unlock r reply n) c = follow-sequence r reply n c
apply-sequence (ends_video raises r reply) c = video-sequence raises r reply c
apply-sequence (ends_audio raises r reply) c = audio-sequence raises r reply c
apply-sequence _ c = ground arith

run-sequence :
    (ops : List Op) (c : DoorfastClient) → c.refresh_sequence ≤ (run ops c).refresh_sequence
unfolding run
run-sequence [] c = omega arith
run-sequence (op ∷ ops) c = omega (arith, apply-sequence op c, run-sequence ops (apply op c))

-- A newer refresh has begun, a start was accepted, or a stop of that identity was.
abbrev pub Supersedes : Op → Type 0
Supersedes begins_refresh = Unit
Supersedes (starts_monitor reply) = Unit
Supersedes (stops_monitor r reply) = is_stop_reply r reply ≡ true
Supersedes _ = ⊥

apply-Supersedes :
    (op : Op) (c : DoorfastClient)
    → Supersedes op
    → c.refresh_sequence < (apply op c).refresh_sequence
unfolding apply refresh_begin start_monitor_end stop_monitor_end conclude_stop supersede raise_fence
apply-Supersedes begins_refresh c h = ground arith
apply-Supersedes (starts_monitor reply) c h = ground arith
apply-Supersedes (stops_monitor r reply) c h = ground arith
apply-Supersedes (ends_refresh r reply) c h = absurd h
apply-Supersedes (begins_unlock station) c h = absurd h
apply-Supersedes (ends_unlock r reply n) c h = absurd h
apply-Supersedes (calls_station runtime station reply) c h = absurd h
apply-Supersedes begins_video c h = absurd h
apply-Supersedes (ends_video raises r reply) c h = absurd h
apply-Supersedes begins_audio c h = absurd h
apply-Supersedes (ends_audio raises r reply) c h = absurd h
apply-Supersedes (controls epochs) c h = absurd h

-- The client when a refresh that began before these stretches ends.
abbrev pub between : List Op → Op → List Op → DoorfastClient → DoorfastClient
between before op later c = run (before ++ op ∷ later) (refresh_begin c).0

between-sequence :
    (before later : List Op) (op : Op) (c : DoorfastClient)
    → Supersedes op
    → (refresh_begin c).1.sequence < (between before op later c).refresh_sequence
unfolding refresh_begin run
between-sequence before later op c h =
    let begun = (refresh_begin c).0 in
    rw (run-append before (op ∷ later) begun) (
      omega (
        arith,
        run-sequence before begun,
        apply-Supersedes op (run before begun) h,
        run-sequence later (apply op (run before begun)),
      ))

-- A refresh that has begun before a newer one, or before a monitor was started or stopped, leaves the
-- client as it is, whatever else runs in between and whatever the bridge replies.
pub refresh_end-superseded :
    (before later : List Op) (op : Op) (reply : Fields) (c : DoorfastClient)
    → Supersedes op
    → (refresh_end (refresh_begin c).1 reply (between before op later c)).0
      ≡ between before op later c
unfolding refresh_end
refresh_end-superseded before later op reply c h =
    let newer = between-sequence before later op c h in ground arith
