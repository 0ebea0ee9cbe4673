-- ===== src/Client/Stopped/Later.antt =====
-- custom_components/doorfast/client.py: the fence of a stop while other operations run.
use doorfastforha.Prelude.{
  ◌≡◌, inl, inr, refl, sym, ap, ◌∙◌, String, Bool, true, false, not, List, [], ◌∷◌, Option, none,
  some, str_eq, string_eq, lookup, lookup-insert, arith, if_cases, Option-cases, ℕ, >>=-eq-some,
  >>-eq-some, some_inj,
}
use doorfastforha.Value.{Value, Fields, get, put, as_text, as_list, is_text, is_text-eq}
use doorfastforha.Value.Equal.{same_value}
use doorfastforha.Value.Put.{get-put}
use doorfastforha.Access.{version_one, Acceptance, legacy, submitted, validate_unlock_reply}
use doorfastforha.Client.{
  DoorfastClient, clear_video_cache, clear_audio_cursor, clear_video_cache_for_request,
  clear_audio_cursor_for_request,
}
use doorfastforha.Client.Previews.{
  StopRequest, supersede, raise_fence, show_stop, is_stop_reply, conclude_stop, start_monitor_end,
  stop_monitor_end,
}
use doorfastforha.Client.Unlocks.{
  UnlockRequest, unlock_begin, unlock_end, follow_unlock, take_unlock, accept_unlock, show_unlock,
  is_latest_unlock, fenced_unlocks, fence_unlock_status,
}
use doorfastforha.Client.Refresh.{
  RefreshRequest, refresh_begin, refresh_end, adopt, share, unfenced, drop_video, drop_audio,
  runtime_changed, fence_media, sampled, moved,
}
use doorfastforha.Client.Refresh.Cases.{refresh_end_cases}
use doorfastforha.Client.Commands.{call_station_end, note_call}
use doorfastforha.Client.Media.{
  MediaRequest, HttpReply, video_begin, video_end, take_frame, keep_frame, audio_begin, audio_end,
  take_chunk, move_cursor,
}
use doorfastforha.Client.Current.{MediaOf, show_stop-MediaOf, fence_media-MediaOf}
use doorfastforha.Client.Schedule.{
  Op, apply, run, begins_refresh, ends_refresh, starts_monitor, stops_monitor, begins_unlock,
  ends_unlock, calls_station, begins_video, ends_video, begins_audio, ends_audio, controls,
}

-- The stretch is no refresh with a status of another runtime, and no other stop for the station.
abbrev pub Sustains : StopRequest → Op → Type 0
Sustains r (ends_refresh q reply) = is_text (get reply "runtime_id") r.runtime_id ≡ true
Sustains r (stops_monitor q reply) = str_eq q.station_id r.station_id ≡ false
Sustains r _ = Unit {0}

abbrev pub Sustained : StopRequest → List Op → Type 0
Sustained r [] = Unit {0}
Sustained r (op ∷ ops) = Sustains r op × Sustained r ops

-- The fence of the stop is held, in the runtime of the stop.
pub record HasFence (r : StopRequest) (c : DoorfastClient) : Type 0 where
  pub fenced :
      lookup r.station_id c.preview_stop_fences
      ≡ some
          (record { runtime_id = r.runtime_id; generation = r.generation; accepted = r.accepted })
  pub runtime : is_text (get c.status "runtime_id") r.runtime_id ≡ true

-- The runtime and the fences are as they were.
abbrev Steady : DoorfastClient → DoorfastClient → Type 0
Steady c d =
    (get d.status "runtime_id" ≡ get c.status "runtime_id")
    × (d.preview_stop_fences ≡ c.preview_stop_fences)

HasFence-Steady :
    (r : StopRequest) (c d : DoorfastClient) → Steady c d → HasFence r c → HasFence r d
HasFence-Steady r c d (runtime, fences) h = record {
  fenced = ap (lookup r.station_id) fences ∙ h.fenced;
  runtime = ap (λ v. is_text v r.runtime_id) runtime ∙ h.runtime;
}

runtime-put-access :
    (v : Value) (s : Fields) → get (put "access" v s) "runtime_id" ≡ get s "runtime_id"
runtime-put-access v s = simp get-put

pub runtime-MediaOf : (s t : Fields) → MediaOf s t → get t "runtime_id" ≡ get s "runtime_id"
runtime-MediaOf s t (inl e) = ap (λ d. get d "runtime_id") e
runtime-MediaOf s t (inr (v, e)) = ap (λ d. get d "runtime_id") e ∙ simp get-put

call-Steady :
    (runtime station : String) (reply : Value) (c : DoorfastClient)
    → Steady c (call_station_end runtime station reply c).0
unfolding call_station_end note_call
call-Steady runtime station reply c = (ground arith, ground arith)

video-Steady :
    (raises : ℕ → Bool) (r : MediaRequest) (reply : HttpReply) (c : DoorfastClient)
    → Steady c (video_begin c).0 × Steady c (video_end raises r reply c).0
unfolding video_begin video_end take_frame keep_frame clear_video_cache_for_request
    clear_video_cache
video-Steady raises r reply c = ((ground arith, ground arith), (ground arith, ground arith))

audio-Steady :
    (raises : ℕ → Bool) (r : MediaRequest) (reply : HttpReply) (c : DoorfastClient)
    → Steady c (audio_begin c).0 × Steady c (audio_end raises r reply c).0
unfolding audio_begin audio_end take_chunk move_cursor clear_audio_cursor_for_request
    clear_audio_cursor
audio-Steady raises r reply c = ((ground arith, ground arith), (ground arith, ground arith))

begin-Steady : (station : Value) (c : DoorfastClient) → Steady c (unlock_begin station c).0
unfolding unlock_begin
begin-Steady station c = (ground arith, ground arith)

follow_unlock-Steady :
    (r : UnlockRequest) (n : ℕ) (a : Acceptance) (c : DoorfastClient)
    → Steady c (follow_unlock r n a c)
unfolding follow_unlock
follow_unlock-Steady r n (legacy key) c = (refl, refl)
follow_unlock-Steady r n (submitted station owner request phase) c =
    if_cases (Steady c) (is_latest_unlock r c) (λ _. taken _) (λ _. (refl, refl))
  where
    taken : (o : Option Fields) → Steady c (take_unlock r o c)
    taken none = unfold take_unlock in (refl, refl)
    taken (some row) =
        unfold take_unlock accept_unlock show_unlock in (runtime-put-access _ c.status, refl)

unlock-Steady :
    (r : UnlockRequest) (reply : Value) (n : ℕ) (c : DoorfastClient)
    → Steady c (unlock_end r reply n c).0
unfolding unlock_end
unlock-Steady r reply n c =
    elim (Option-cases (validate_unlock_reply reply r.runtime r.station_id)) [
      | inl e ↦ rw (e, unlock_end) (refl, refl)
      | inr (a, e) ↦ rw (e, unlock_end) (follow_unlock-Steady r n a c)
    ]

fenced_unlocks-runtime :
    (previous status t : Fields) (accepted : List String)
    → fenced_unlocks previous accepted status ≡ some t
    → get t "runtime_id" ≡ get status "runtime_id"
unfolding fenced_unlocks
fenced_unlocks-runtime previous status t accepted h =
    let (access, _, k) = >>=-eq-some (version_one (get status "access")) _ h in
    let (_, k1) =
      >>-eq-some (same_value (get status "runtime_id") (get previous "runtime_id")) _ k in
    let (listed, _, k2) = >>=-eq-some (as_list (get access "requests")) _ k1 in
    ap (λ d. get d "runtime_id") (sym (some_inj k2)) ∙ runtime-put-access _ status

-- A status behind the fence of the unlock records is of its runtime.
sampled-runtime :
    (q : RefreshRequest) (reply : Fields) (c : DoorfastClient)
    → get (sampled q reply c) "runtime_id" ≡ get reply "runtime_id"
unfolding fence_unlock_status
sampled-runtime q reply c =
    let accepted = moved q.acceptance_epochs c.unlock_acceptance_epochs in
    elim (Option-cases (fenced_unlocks c.status accepted reply)) [
      | inl e ↦ rw (e, sampled, fence_unlock_status) refl
      | inr (t, e) ↦
          rw (e, sampled, fence_unlock_status) (fenced_unlocks-runtime c.status reply t accepted e)
    ]

-- Neither the runtime nor the fences are of concern to the caches.
drops-HasFence :
    (r : StopRequest) (changed : Bool) (c : DoorfastClient)
    → HasFence r c
    → HasFence r (drop_audio changed (drop_video changed c))
unfolding drop_audio drop_video clear_video_cache clear_audio_cursor
drops-HasFence r changed c h = HasFence-Steady r c _ (ground arith, ground arith) h

runtime_changed-same :
    (previous status : Fields) (runtime : String)
    → is_text (get previous "runtime_id") runtime ≡ true
    → is_text (get status "runtime_id") runtime ≡ true
    → runtime_changed previous status ≡ false
unfolding runtime_changed
runtime_changed-same previous status runtime h k =
    let at = is_text-eq (get previous "runtime_id") runtime h in
    rw (ap as_text at, k, runtime_changed) (ground arith)

adopt-HasFence :
    (r : StopRequest) (q : RefreshRequest) (s : Fields) (c : DoorfastClient)
    → is_text (get s "runtime_id") r.runtime_id ≡ true
    → HasFence r c
    → HasFence r (adopt q s c).0
unfolding adopt unfenced
adopt-HasFence r q s c of h =
    let same = runtime_changed-same c.status s r.runtime_id h.runtime of in
    rw (same, adopt) (shared (fence_media c s) refl)
  where
    shared : (o : Option Fields) → fence_media c s ≡ o → HasFence r (share q false o c).0
    shared none e = unfold share in h
    shared (some t) e =
        unfold share in
        drops-HasFence r false _ (record {
          fenced = h.fenced;
          runtime =
              ap (λ v. is_text v r.runtime_id) (runtime-MediaOf s t (fence_media-MediaOf c s t e))
              ∙ of;
        })

refresh-HasFence :
    (r : StopRequest) (q : RefreshRequest) (reply : Fields) (c : DoorfastClient)
    → is_text (get reply "runtime_id") r.runtime_id ≡ true
    → HasFence r c
    → HasFence r (refresh_end q reply c).0
refresh-HasFence r q reply c of h =
    refresh_end_cases q reply c (λ p. HasFence r p.0) (λ _. h)
      (λ _.
        adopt-HasFence r q (sampled q reply c) c
          (ap (λ v. is_text v r.runtime_id) (sampled-runtime q reply c) ∙ of) h)

stop-HasFence :
    (r q : StopRequest) (reply : Fields) (c : DoorfastClient)
    → str_eq q.station_id r.station_id ≡ false
    → HasFence r c
    → HasFence r (stop_monitor_end q reply c).0
unfolding stop_monitor_end
stop-HasFence r q reply c other h =
    let f = raise_fence q (supersede c) in
    let P : DoorfastClient × Option (Option Fields) → Type 0 = λ p. HasFence r p.0 in
    if_cases P (not (is_stop_reply q reply)) (λ _. h)
      (λ _.
        if_cases P (not (is_text (get c.status "runtime_id") q.runtime_id))
          (λ _. unfold supersede in record { fenced = h.fenced; runtime = h.runtime })
          (λ _. concluded (show_stop q f) refl))
  where
    raised :
        lookup r.station_id (raise_fence q (supersede c)).preview_stop_fences
        ≡ lookup r.station_id c.preview_stop_fences
    raised =
        unfold raise_fence supersede in
        lookup-insert q.station_id r.station_id _ c.preview_stop_fences ∙ rw other refl

    concluded :
        (o : Option Fields)
        → show_stop q (raise_fence q (supersede c)) ≡ o
        → HasFence r (conclude_stop (raise_fence q (supersede c)) o).0
    concluded none e =
        unfold conclude_stop in
        record { fenced = raised ∙ h.fenced; runtime = unfold raise_fence supersede in h.runtime }
    concluded (some s) e =
        unfold conclude_stop in
        record {
          fenced = raised ∙ h.fenced;
          runtime =
              ap (λ v. is_text v r.runtime_id)
                (runtime-MediaOf (raise_fence q (supersede c)).status s
                  (show_stop-MediaOf q (raise_fence q (supersede c)) s e))
              ∙ (unfold raise_fence supersede in h.runtime);
        }

apply-HasFence :
    (r : StopRequest) (op : Op) (c : DoorfastClient)
    → Sustains r op
    → HasFence r c
    → HasFence r (apply op c)
unfolding apply refresh_begin start_monitor_end supersede
apply-HasFence r begins_refresh c s h = record { fenced = h.fenced; runtime = h.runtime }
apply-HasFence r (ends_refresh q reply) c s h = refresh-HasFence r q reply c s h
apply-HasFence r (starts_monitor reply) c s h = record { fenced = h.fenced; runtime = h.runtime }
apply-HasFence r (stops_monitor q reply) c s h = stop-HasFence r q reply c s h
apply-HasFence r (begins_unlock station) c s h = HasFence-Steady r c _ (begin-Steady station c) h
apply-HasFence r (ends_unlock q reply n) c s h = HasFence-Steady r c _ (unlock-Steady q reply n c) h
apply-HasFence r (calls_station runtime station reply) c s h =
    HasFence-Steady r c _ (call-Steady runtime station reply c) h
apply-HasFence r begins_video c s h =
    HasFence-Steady r c (video_begin c).0
      (unfold video_begin clear_video_cache in (ground arith, ground arith)) h
apply-HasFence r (ends_video raises q reply) c s h =
    HasFence-Steady r c _ (video-Steady raises q reply c).1 h
apply-HasFence r begins_audio c s h =
    HasFence-Steady r c (audio_begin c).0
      (unfold audio_begin clear_audio_cursor in (ground arith, ground arith)) h
apply-HasFence r (ends_audio raises q reply) c s h =
    HasFence-Steady r c _ (audio-Steady raises q reply c).1 h
apply-HasFence r (controls epochs) c s h = record { fenced = h.fenced; runtime = h.runtime }

-- Through stretches that sustain it, the fence stays.
pub run-HasFence :
    (r : StopRequest) (ops : List Op) (c : DoorfastClient)
    → Sustained r ops
    → HasFence r c
    → HasFence r (run ops c)
unfolding run
run-HasFence r [] c s h = h
run-HasFence r (op ∷ ops) c (s, more) h =
    run-HasFence r ops (apply op c) more (apply-HasFence r op c s h)
