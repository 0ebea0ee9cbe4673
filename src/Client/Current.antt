-- ===== src/Client/Current.antt =====
-- custom_components/doorfast/client.py: the frame cache and the audio cursor against the shared status.
pub mod Runs
use doorfastforha.Prelude.{
  length, ℕ, ◌≡◌, ◌⊎◌, refl, sym, ap, subst, ◌∙◌, String, Bool, true, false, ◌||◌, ◌&&◌, not, List,
  [], ◌∷◌, Option, none, some, ◌==◌, if_cases, Option-cases, inl, inr, arith,
}
use doorfastforha.Value.{Value, Fields, put, dict, get, as_dict, is_text}
use doorfastforha.Value.Put.{get-put}
use doorfastforha.Access.{Acceptance, legacy, submitted, validate_unlock_reply}
use doorfastforha.Client.{
  DoorfastClient, init, same_nat, current_video_generation, current_audio_generation,
  clear_video_cache, video_request_is_current, clear_video_cache_for_request, clear_audio_cursor,
  audio_request_is_current, clear_audio_cursor_for_request,
}
use doorfastforha.Client.Previews.{
  StopRequest, start_monitor_end, stop_monitor_end, show_stop, supersede, raise_fence, with_pending,
  fence_stopped_previews, is_stop_reply, conclude_stop,
}
use doorfastforha.Client.Unlocks.{
  UnlockRequest, follow_unlock, take_unlock, unlock_begin, unlock_end, accept_unlock, show_unlock,
  is_latest_unlock,
}
use doorfastforha.Client.Refresh.{
  RefreshRequest, refresh_begin, refresh_end, adopt, drop_video, drop_audio, fence_media, share,
  unfenced,
}
use doorfastforha.Client.Refresh.Cases.{refresh_end_cases}
use doorfastforha.Client.Commands.{call_station_end, note_call}
use doorfastforha.Client.Media.{
  MediaRequest, HttpReply, video_begin, video_end, take_frame, keep_frame, audio_begin, audio_end,
  take_chunk, move_cursor, is_chunk, has_generation, reply_revisions, video_request, audio_request,
}
use doorfastforha.Client.Schedule.{
  Op, apply, run, begins_refresh, ends_refresh, starts_monitor, stops_monitor, begins_unlock,
  ends_unlock, calls_station, begins_video, ends_video, begins_audio, ends_audio, controls,
}

pub same_nat-eq : (a b : Option ℕ) → same_nat a b ≡ true → a ≡ b
same_nat-eq none none h = refl
same_nat-eq none (some b) h = cc
same_nat-eq (some a) none h = cc
same_nat-eq (some a) (some b) h = ground arith

-- What is held is of the current generation.
abbrev pub Covers : Option ℕ → Option ℕ → Type 0
Covers none current = Unit
Covers (some g) current = current ≡ some g

-- One is there exactly when the other is.
abbrev pub Paired {ℓ} : {A : Type ℓ} → Option ℕ → Option A → Type ℓ
Paired {A} none o = o ≡ none
Paired {A} (some g) o = (a : A) × (o ≡ some a)

pub record IsCurrent (c : DoorfastClient) : Type 0 where
  pub video : Covers c.video_generation (current_video_generation c.status)
  pub audio : Covers c.audio_generation (current_audio_generation c.status)
  pub frame : Paired c.video_generation c.video_frame
  pub cursor : Paired c.audio_generation c.audio_revision

video-put-media :
    (v : Value) (s : Fields)
    → current_video_generation (put "media" v s) ≡ current_video_generation s
unfolding current_video_generation
video-put-media v s = simp get-put

video-put-access :
    (v : Value) (s : Fields)
    → current_video_generation (put "access" v s) ≡ current_video_generation s
unfolding current_video_generation
video-put-access v s = simp get-put

audio-put-media :
    (v : Value) (s : Fields)
    → current_audio_generation (put "media" v s) ≡ current_audio_generation s
unfolding current_audio_generation
audio-put-media v s = simp get-put

audio-put-access :
    (v : Value) (s : Fields)
    → current_audio_generation (put "access" v s) ≡ current_audio_generation s
unfolding current_audio_generation
audio-put-access v s = simp get-put

-- The status reads the same for media of the call.
abbrev Alike : Fields → Fields → Type 0
Alike s t =
    (current_video_generation t ≡ current_video_generation s)
    × (current_audio_generation t ≡ current_audio_generation s)

-- What a status with fenced media is: the one it was, or that with other media.
abbrev pub MediaOf : Fields → Fields → Type 0
MediaOf s t = (t ≡ s) ⊎ ((v : Value) × (t ≡ put "media" v s))

pub show_stop-MediaOf :
    (r : StopRequest) (c : DoorfastClient) (s : Fields)
    → show_stop r c ≡ some s
    → MediaOf c.status s
unfolding show_stop
show_stop-MediaOf r c s h = elim (Option-cases (as_dict (get c.status "media"))) [
  | inl e ↦ inl (ground arith)
  | inr (media, e) ↦ elim (Option-cases (with_pending r media c)) [
    | inl bad ↦ absurd (ground arith)
    | inr (m, pending) ↦ elim (Option-cases (fence_stopped_previews c c.status m false)) [
      | inl bad ↦ absurd (ground arith)
      | inr (fenced, e2) ↦ inr (dict fenced, ground arith)
    ]
  ]
]

pub fence_media-MediaOf :
    (c : DoorfastClient) (s t : Fields) → fence_media c s ≡ some t → MediaOf s t
unfolding fence_media
fence_media-MediaOf c s t h = elim (Option-cases (as_dict (get s "media"))) [
  | inl e ↦ inl (ground arith)
  | inr (media, e) ↦ elim (Option-cases (fence_stopped_previews c s media false)) [
    | inl bad ↦ absurd (ground arith)
    | inr (fenced, e2) ↦ inr (dict fenced, ground arith)
  ]
]

media-Alike : (s t : Fields) → MediaOf s t → Alike s t
media-Alike s t (inl e) = (ap current_video_generation e, ap current_audio_generation e)
media-Alike s t (inr (v, e)) = (
  ap current_video_generation e ∙ video-put-media v s,
  ap current_audio_generation e ∙ audio-put-media v s,
)

accept-Alike : (station : String) (row s : Fields) → Alike s (show_unlock station row s)
unfolding show_unlock
accept-Alike station row s = (video-put-access _ s, audio-put-access _ s)

-- A client with that status and the same cache.
with_status-IsCurrent :
    (c : DoorfastClient) (s : Fields)
    → Alike c.status s
    → IsCurrent c
    → IsCurrent (record c { status = s })
with_status-IsCurrent c s a h = record {
  video = subst (Covers c.video_generation) (sym a.0) h.video;
  audio = subst (Covers c.audio_generation) (sym a.1) h.audio;
  frame = h.frame;
  cursor = h.cursor;
}

pub clear_video-IsCurrent : (c : DoorfastClient) → IsCurrent c → IsCurrent (clear_video_cache c)
unfolding clear_video_cache
clear_video-IsCurrent c h = record { video = tt; audio = h.audio; frame = refl; cursor = h.cursor }

pub clear_audio-IsCurrent : (c : DoorfastClient) → IsCurrent c → IsCurrent (clear_audio_cursor c)
unfolding clear_audio_cursor
clear_audio-IsCurrent c h = record { video = h.video; audio = tt; frame = h.frame; cursor = refl }

conclude_stop-IsCurrent :
    (c : DoorfastClient) (o : Option Fields)
    → ((s : Fields) → o ≡ some s → Alike c.status s)
    → IsCurrent c
    → IsCurrent (conclude_stop c o).0
unfolding conclude_stop
conclude_stop-IsCurrent c none a h = h
conclude_stop-IsCurrent c (some s) a h = with_status-IsCurrent c s (a s refl) h

-- The client of an outcome.
abbrev pub Kept {ℓ} : {A : Type ℓ} → DoorfastClient × A → Type 0
Kept p = IsCurrent p.0

pub supersede-IsCurrent : (c : DoorfastClient) → IsCurrent c → IsCurrent (supersede c)
unfolding supersede
supersede-IsCurrent c h = ground arith

raise_fence-IsCurrent :
    (r : StopRequest) (c : DoorfastClient) → IsCurrent c → IsCurrent (raise_fence r (supersede c))
unfolding supersede raise_fence
raise_fence-IsCurrent r c h = ground arith

-- A stop: the media of the status, and what no cache reads.
pub stop-IsCurrent :
    (r : StopRequest) (reply : Fields) (c : DoorfastClient)
    → IsCurrent c
    → IsCurrent (stop_monitor_end r reply c).0
unfolding stop_monitor_end supersede raise_fence
stop-IsCurrent r reply c h =
    let fenced = raise_fence r (supersede c) in
    if_cases Kept (not (is_stop_reply r reply)) (λ _. h)
      (λ _.
        if_cases Kept (not (is_text (get c.status "runtime_id") r.runtime_id))
          (λ _. supersede-IsCurrent c h)
          (λ _.
            conclude_stop-IsCurrent fenced (show_stop r fenced)
              (λ s e. media-Alike c.status s (show_stop-MediaOf r fenced s e))
              (raise_fence-IsCurrent r c h)))

follow_unlock-IsCurrent :
    (r : UnlockRequest) (n : ℕ) (a : Acceptance) (c : DoorfastClient)
    → IsCurrent c
    → IsCurrent (follow_unlock r n a c)
unfolding follow_unlock
follow_unlock-IsCurrent r n (legacy key) c h = h
follow_unlock-IsCurrent r n (submitted station owner request phase) c h =
    if_cases IsCurrent (is_latest_unlock r c) (λ _. taken _) (λ _. h)
  where
    taken : (o : Option Fields) → IsCurrent (take_unlock r o c)
    taken none = unfold take_unlock in h
    taken (some row) =
        let alike = accept-Alike r.station_id row c.status in
        unfold take_unlock accept_unlock in
        record {
          video = subst (Covers c.video_generation) (sym alike.0) h.video;
          audio = subst (Covers c.audio_generation) (sym alike.1) h.audio;
          frame = h.frame;
          cursor = h.cursor;
        }

pub unlock-IsCurrent :
    (r : UnlockRequest) (reply : Value) (n : ℕ) (c : DoorfastClient)
    → IsCurrent c
    → IsCurrent (unlock_end r reply n c).0
unfolding unlock_end
unlock-IsCurrent r reply n c h =
    elim (Option-cases (validate_unlock_reply reply r.runtime r.station_id)) [
      | inl e ↦ rw (e, unlock_end) h
      | inr (a, e) ↦ rw (e, unlock_end) (follow_unlock-IsCurrent r n a c h)
    ]

pub Covers-same : (held current : Option ℕ) → same_nat current held ≡ true → Covers held current
Covers-same none current h = tt
Covers-same (some g) current h = same_nat-eq current (some g) h

pub take_frame-IsCurrent :
    (r : MediaRequest) (reply : HttpReply) (c : DoorfastClient)
    → IsCurrent c
    → IsCurrent (take_frame r reply c).0
unfolding take_frame keep_frame clear_video_cache_for_request video_request_is_current
take_frame-IsCurrent r reply c h =
    if_cases Kept
      (has_generation r.generation reply
        && (not (length reply.body == 0) && video_request_is_current r.runtime r.generation c))
      (λ e. record {
        video = same_nat-eq (current_video_generation c.status) (some r.generation) (ground arith);
        audio = h.audio;
        frame = (reply.body, refl);
        cursor = h.cursor;
      })
      (λ _.
        if_cases IsCurrent (video_request_is_current r.runtime r.generation c)
          (λ _. clear_video-IsCurrent c h) (λ _. h))

pub move_cursor-IsCurrent :
    (r : MediaRequest) (before own : ℕ) (reply : HttpReply) (c : DoorfastClient)
    → is_chunk r before own reply c ≡ true
    → IsCurrent c
    → IsCurrent (move_cursor r own reply c)
unfolding move_cursor is_chunk audio_request_is_current
move_cursor-IsCurrent r before own reply c e h = record {
  video = h.video;
  audio = same_nat-eq (current_audio_generation c.status) (some r.generation) (ground arith);
  frame = h.frame;
  cursor = (own, refl);
}
