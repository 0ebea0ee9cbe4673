-- ===== src/Client/Frames.antt =====
-- custom_components/doorfast/client.py, `latest_video_frame`: where a frame comes from.
pub mod Shown
use doorfastforha.Prelude.{
  ℕ, ◌≡◌, ◌⊎◌, inl, inr, refl, sym, ap, ◌∙◌, String, Bool, true, false, not, ◌&&◌, ◌||◌, List, [],
  ◌∷◌, ◌++◌, Option, none, some, ◌==◌, length, arith, if◌then◌else◌, if_cases, &&_iff, some_inj,
}
use mathlib.Core.List.{append-nil, append_assoc}
use doorfastforha.Value.{Value, Fields, null}
use doorfastforha.Client.{
  DoorfastClient, init, same_nat, current_video_generation, clear_video_cache,
  video_request_is_current, clear_video_cache_for_request, clear_audio_cursor,
  clear_audio_cursor_for_request,
}
use doorfastforha.Client.Previews.{
  StopRequest, start_monitor_end, stop_monitor_end, conclude_stop, supersede, raise_fence,
}
use doorfastforha.Client.Unlocks.{
  UnlockRequest, unlock_begin, unlock_end, follow_unlock, take_unlock, accept_unlock,
}
use doorfastforha.Client.Refresh.{
  RefreshRequest, refresh_begin, refresh_end, adopt, share, unfenced, drop_video, drop_audio,
}
use doorfastforha.Client.Refresh.Cases.{refresh_end_cases}
use doorfastforha.Client.Commands.{call_station_end, note_call}
use doorfastforha.Client.Media.{
  MediaRequest, HttpReply, video_begin, video_end, take_frame, keep_frame, cached_frame,
  has_generation, audio_begin, audio_end, take_chunk, move_cursor,
}
use doorfastforha.Client.Current.{same_nat-eq}
use doorfastforha.Client.Schedule.{
  Op, apply, run, begins_refresh, ends_refresh, starts_monitor, stops_monitor, begins_unlock,
  ends_unlock, calls_station, begins_video, ends_video, begins_audio, ends_audio, controls,
}

-- A frame with its generation.
abbrev pub Frame : Type 0
Frame = ℕ × List ℕ

-- The body of a reply to a request for a frame, if it says that it is of the request's generation.
abbrev pub replied : MediaRequest → HttpReply → List Frame
replied r reply = if has_generation r.generation reply then (r.generation, reply.body) ∷ [] else []

abbrev pub frames_of : Op → List Frame
frames_of (ends_video raises r reply) = replied r reply
frames_of _ = []

-- The frames that the bridge has replied with.
abbrev pub frames : List Op → List Frame
frames [] = []
frames (op ∷ ops) = frames_of op ++ frames ops

abbrev pub Listed : Frame → List Frame → Type 0
Listed p [] = ⊥
Listed p (q ∷ qs) = (q ≡ p) ⊎ Listed p qs

pub Listed-left : (p : Frame) (ps qs : List Frame) → Listed p ps → Listed p (ps ++ qs)
Listed-left p [] qs h = absurd h
Listed-left p (x ∷ ps) qs (inl e) = inl e
Listed-left p (x ∷ ps) qs (inr h) = inr (Listed-left p ps qs h)

pub Listed-right : (p : Frame) (ps qs : List Frame) → Listed p qs → Listed p (ps ++ qs)
Listed-right p [] qs h = h
Listed-right p (x ∷ ps) qs h = inr (Listed-right p ps qs h)

-- The cached frame is one of those.
pub record Sourced (fs : List Frame) (c : DoorfastClient) : Type 0 where
  pub source :
      (g : ℕ) (f : List ℕ) → c.video_generation ≡ some g → c.video_frame ≡ some f → Listed (g, f) fs

-- The cache is as it was, or empty.
abbrev Spares : DoorfastClient → DoorfastClient → Type 0
Spares c d =
    ((d.video_generation ≡ c.video_generation) × (d.video_frame ≡ c.video_frame))
    ⊎ (d.video_generation ≡ none)

stop-Spares :
    (r : StopRequest) (reply : Fields) (c : DoorfastClient)
    → Spares c (stop_monitor_end r reply c).0
unfolding stop_monitor_end conclude_stop supersede raise_fence
stop-Spares r reply c = inl (ground arith, ground arith)

unlock-Spares :
    (r : UnlockRequest) (reply : Value) (n : ℕ) (c : DoorfastClient)
    → Spares c (unlock_end r reply n c).0
unfolding unlock_end follow_unlock take_unlock accept_unlock
unlock-Spares r reply n c = inl (ground arith, ground arith)

audio-Spares :
    (raises : ℕ → Bool) (r : MediaRequest) (reply : HttpReply) (c : DoorfastClient)
    → Spares c (audio_end raises r reply c).0
unfolding audio_end take_chunk move_cursor clear_audio_cursor_for_request clear_audio_cursor
audio-Spares raises r reply c = inl (ground arith, ground arith)

call-Spares :
    (runtime station : String) (reply : Value) (c : DoorfastClient)
    → Spares c (call_station_end runtime station reply c).0
unfolding call_station_end note_call
call-Spares runtime station reply c = inl (ground arith, ground arith)

begin-Spares :
    (station : Value) (c : DoorfastClient)
    → Spares c (unlock_begin station c).0 × Spares c (audio_begin c).0
unfolding unlock_begin audio_begin clear_audio_cursor
begin-Spares station c = (inl (ground arith, ground arith), inl (ground arith, ground arith))

video_begin-Spares : (c : DoorfastClient) → Spares c (video_begin c).0
unfolding video_begin clear_video_cache
video_begin-Spares c = ground arith

drops-Spares :
    (changed : Bool) (c d : DoorfastClient)
    → d.video_generation ≡ c.video_generation
    → d.video_frame ≡ c.video_frame
    → Spares c (drop_audio changed (drop_video changed d))
unfolding drop_audio drop_video clear_video_cache clear_audio_cursor
drops-Spares changed c d h k = ground arith

refresh-Spares :
    (r : RefreshRequest) (reply : Fields) (c : DoorfastClient) → Spares c (refresh_end r reply c).0
unfolding adopt share unfenced drop_audio drop_video clear_video_cache clear_audio_cursor
refresh-Spares r reply c =
    refresh_end_cases r reply c (λ p. Spares c p.0) (λ _. inl (refl, refl)) (λ _. ground arith)

Sourced-Spares :
    (fs gs : List Frame) (c d : DoorfastClient) → Spares c d → Sourced fs c → Sourced (fs ++ gs) d
Sourced-Spares fs gs c d (inl (e, e')) s = record {
  source = λ g f h k. Listed-left (g, f) fs gs (s.source g f (sym e ∙ h) (sym e' ∙ k));
}
Sourced-Spares fs gs c d (inr e) s = record { source = λ g f h k. cc }

clears-Spares :
    (r : MediaRequest) (c : DoorfastClient)
    → Spares c (clear_video_cache_for_request r.runtime r.generation c)
unfolding clear_video_cache_for_request clear_video_cache
clears-Spares r c = ground arith

take_frame-Sourced :
    (fs : List Frame) (r : MediaRequest) (reply : HttpReply) (c : DoorfastClient)
    → Sourced fs c
    → Sourced (fs ++ replied r reply) (take_frame r reply c).0
unfolding take_frame keep_frame clear_video_cache_for_request clear_video_cache
take_frame-Sourced fs r reply c s =
    if_cases (λ (p : DoorfastClient × Option (List ℕ)). Sourced (fs ++ replied r reply) p.0)
      (has_generation r.generation reply
        && (not (length reply.body == 0) && video_request_is_current r.runtime r.generation c))
      (λ e. record {
        source = λ g f h k.
            let own : has_generation r.generation reply ≡ true = ((&&_iff _ _).0 e).0 in
            rw own (Listed-right (g, f) fs ((r.generation, reply.body) ∷ []) (inl (ground arith)));
      })
      (λ _.
        Sourced-Spares fs (replied r reply) c
          (clear_video_cache_for_request r.runtime r.generation c) (clears-Spares r c) s)

video_end-Sourced :
    (fs : List Frame) (raises : ℕ → Bool) (r : MediaRequest) (reply : HttpReply)
    (c : DoorfastClient)
    → Sourced fs c
    → Sourced (fs ++ replied r reply) (video_end raises r reply c).0
unfolding video_end
video_end-Sourced fs raises r reply c s =
    let same : Sourced (fs ++ replied r reply) c =
      Sourced-Spares fs (replied r reply) c c (inl (refl, refl)) s in
    let P : DoorfastClient × Option (Option (List ℕ)) → Type 0 =
      λ p. Sourced (fs ++ replied r reply) p.0 in
    if_cases P (reply.status == 304 || reply.status == 503) (λ _. same)
      (λ _.
        if_cases P (reply.status == 404 || reply.status == 409)
          (λ _.
            Sourced-Spares fs (replied r reply) c
              (clear_video_cache_for_request r.runtime r.generation c) (clears-Spares r c) s)
          (λ _.
            if_cases P (raises reply.status) (λ _. same) (λ _. take_frame-Sourced fs r reply c s)))

apply-Sourced :
    (fs : List Frame) (op : Op) (c : DoorfastClient)
    → Sourced fs c
    → Sourced (fs ++ frames_of op) (apply op c)
unfolding apply refresh_begin start_monitor_end supersede
apply-Sourced fs (ends_video raises r reply) c s = video_end-Sourced fs raises r reply c s
apply-Sourced fs begins_refresh c s = Sourced-Spares fs [] c _ (inl (refl, refl)) s
apply-Sourced fs (ends_refresh r reply) c s = Sourced-Spares fs [] c _ (refresh-Spares r reply c) s
apply-Sourced fs (starts_monitor reply) c s = Sourced-Spares fs [] c _ (inl (refl, refl)) s
apply-Sourced fs (stops_monitor r reply) c s = Sourced-Spares fs [] c _ (stop-Spares r reply c) s
apply-Sourced fs (begins_unlock station) c s = Sourced-Spares fs [] c _ (begin-Spares station c).0 s
apply-Sourced fs (ends_unlock r reply n) c s =
    Sourced-Spares fs [] c _ (unlock-Spares r reply n c) s
apply-Sourced fs (calls_station runtime station reply) c s =
    Sourced-Spares fs [] c _ (call-Spares runtime station reply c) s
apply-Sourced fs begins_video c s = Sourced-Spares fs [] c _ (video_begin-Spares c) s
apply-Sourced fs begins_audio c s = Sourced-Spares fs [] c _ (begin-Spares null c).1 s
apply-Sourced fs (ends_audio raises r reply) c s =
    Sourced-Spares fs [] c _ (audio-Spares raises r reply c) s
apply-Sourced fs (controls epochs) c s = Sourced-Spares fs [] c _ (inl (refl, refl)) s

pub run-Sourced :
    (fs : List Frame) (ops : List Op) (c : DoorfastClient)
    → Sourced fs c
    → Sourced (fs ++ frames ops) (run ops c)
unfolding run
run-Sourced fs [] c s = rw append-nil s
run-Sourced fs (op ∷ ops) c s =
    rw (← append_assoc fs (frames_of op) (frames ops))
      (run-Sourced (fs ++ frames_of op) ops (apply op c) (apply-Sourced fs op c s))
