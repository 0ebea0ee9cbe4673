-- ===== src/Client/Forward.antt =====
-- custom_components/doorfast/client.py: the outbound call operation of the shared status.
pub mod Runs
use doorfastforha.Prelude.{
  ℕ, ◌≤◌, ◌<◌, ◌≡◌, ◌⊎◌, inl, inr, refl, sym, ap, ◌∙◌, subst, String, Bool, true, false, ◌&&◌, ◌||◌,
  List, [], ◌∷◌, Option, none, some, ltb, ◌==◌, str_eq, eq_iff, arith, Option-cases, if_cases, not,
  some_inj,
}
use doorfastforha.Value.{Value, null, Fields, dict, put, get, is_text}
use doorfastforha.Access.{Acceptance, legacy, submitted, validate_unlock_reply}
use doorfastforha.Value.Put.{get-put}
use doorfastforha.SessionDiagnostics.{Operation, station_call_operation}
use doorfastforha.Client.{
  DoorfastClient, clear_video_cache, clear_video_cache_for_request, clear_audio_cursor,
  clear_audio_cursor_for_request,
}
use doorfastforha.Client.Previews.{
  StopRequest, start_monitor_end, stop_monitor_end, conclude_stop, show_stop, supersede,
  raise_fence, is_stop_reply,
}
use doorfastforha.Client.Unlocks.{
  UnlockRequest, unlock_begin, unlock_end, follow_unlock, take_unlock, accept_unlock, show_unlock,
  is_latest_unlock,
}
use doorfastforha.Client.Refresh.{
  RefreshRequest, refresh_begin, refresh_end, adopt, share, unfenced, drop_video, drop_audio,
  sampled, fence_media, stage_rank, runtime_changed, goes_back,
}
use doorfastforha.Client.Refresh.Cases.{refresh_end_cases}
use doorfastforha.Client.Current.{MediaOf, show_stop-MediaOf, fence_media-MediaOf}
use doorfastforha.Client.Commands.{call_station_end, note_call}
use doorfastforha.Client.Media.{
  MediaRequest, HttpReply, video_begin, video_end, take_frame, keep_frame, audio_begin, audio_end,
  take_chunk, move_cursor,
}
use doorfastforha.Client.Schedule.{
  Op, apply, run, begins_refresh, ends_refresh, starts_monitor, stops_monitor, begins_unlock,
  ends_unlock, calls_station, begins_video, ends_video, begins_audio, ends_audio, controls,
}

-- The validated operation of the shared status.
abbrev pub operation : DoorfastClient → Option Operation
operation c = station_call_operation (dict c.status)

-- The later operation, or the same at a stage that is not earlier.
abbrev pub Forward : Operation → Operation → Type 0
Forward a b =
    (a.operation_id < b.operation_id)
    ⊎ ((a.operation_id ≡ b.operation_id) × (stage_rank a.stage ≤ stage_rank b.stage))

operation-put-media :
    (v : Value) (s : Fields)
    → station_call_operation (dict (put "media" v s)) ≡ station_call_operation (dict s)
unfolding station_call_operation
operation-put-media v s = simp get-put

operation-put-access :
    (v : Value) (s : Fields)
    → station_call_operation (dict (put "access" v s)) ≡ station_call_operation (dict s)
unfolding station_call_operation
operation-put-access v s = simp get-put

pub operation-MediaOf :
    (s t : Fields) → MediaOf s t → station_call_operation (dict t) ≡ station_call_operation (dict s)
operation-MediaOf s t (inl e) = ap (λ x. station_call_operation (dict x)) e
operation-MediaOf s t (inr (v, e)) =
    ap (λ x. station_call_operation (dict x)) e ∙ operation-put-media v s

not_earlier :
    (same : Bool) (m n x y : ℕ)
    → (same && (ltb n m || (n == m && ltb y x))) ≡ false
    → same ≡ true
    → (m < n) ⊎ ((m ≡ n) × (x ≤ y))
not_earlier same m n x y h e = ground arith

-- Where the code's test passes, the operation goes forward.
pub goes_back-Forward :
    (a b : Operation)
    → goes_back (some a) (some b) ≡ false
    → a.runtime_id ≡ b.runtime_id
    → Forward a b
unfolding goes_back
goes_back-Forward a b h e =
    not_earlier (str_eq a.runtime_id b.runtime_id) a.operation_id b.operation_id
      (stage_rank a.stage) (stage_rank b.stage) h ((eq_iff a.runtime_id b.runtime_id).1 e)

pub Forward-refl : (a b : Operation) → a ≡ b → Forward a b
Forward-refl a b e = inr (
  ap (λ o. o.operation_id) e,
  subst (λ o. stage_rank a.stage ≤ stage_rank o.stage) e (omega arith),
)

pub Forward-trans : (a b c : Operation) → Forward a b → Forward b c → Forward a c
Forward-trans a b c (inl h) (inl k) = inl (omega arith)
Forward-trans a b c (inl h) (inr k) = inl (omega (arith, k.0))
Forward-trans a b c (inr h) (inl k) = inl (omega (arith, h.0))
Forward-trans a b c (inr h) (inr k) = inr (h.0 ∙ k.0, omega (arith, h.1, k.1))

-- The client's operation goes forward, if it is of the same runtime.
pub record Moves (c d : DoorfastClient) : Type 0 where
  pub forward :
      (a b : Operation)
      → operation c ≡ some a
      → operation d ≡ some b
      → a.runtime_id ≡ b.runtime_id
      → Forward a b

pub same-Moves : (c d : DoorfastClient) → operation d ≡ operation c → Moves c d
same-Moves c d e = record { forward = λ a b h k _. Forward-refl a b (some_inj (sym h ∙ sym e ∙ k)) }

pub stop-operation :
    (r : StopRequest) (reply : Fields) (c : DoorfastClient)
    → operation (stop_monitor_end r reply c).0 ≡ operation c
unfolding stop_monitor_end supersede raise_fence
stop-operation r reply c =
    let fenced = raise_fence r (supersede c) in
    if_cases (λ (p : DoorfastClient × Option (Option Fields)). operation p.0 ≡ operation c)
      (not (is_stop_reply r reply)) (λ _. refl)
      (λ _.
        if_cases (λ (p : DoorfastClient × Option (Option Fields)). operation p.0 ≡ operation c)
          (not (is_text (get c.status "runtime_id") r.runtime_id)) (λ _. refl)
          (λ _. concluded (show_stop r fenced) (show_stop-MediaOf r fenced)))
  where
    concluded :
        (o : Option Fields)
        → ((s : Fields) → o ≡ some s → MediaOf c.status s)
        → operation (conclude_stop (raise_fence r (supersede c)) o).0 ≡ operation c
    concluded none _ = unfold conclude_stop in refl
    concluded (some s) f = unfold conclude_stop in operation-MediaOf c.status s (f s refl)

take_unlock-operation :
    (r : UnlockRequest) (o : Option Fields) (c : DoorfastClient)
    → operation (take_unlock r o c) ≡ operation c
unfolding take_unlock accept_unlock show_unlock
take_unlock-operation r none c = refl
take_unlock-operation r (some row) c = operation-put-access _ c.status

follow_unlock-operation :
    (r : UnlockRequest) (n : ℕ) (a : Acceptance) (c : DoorfastClient)
    → operation (follow_unlock r n a c) ≡ operation c
unfolding follow_unlock
follow_unlock-operation r n (legacy key) c = refl
follow_unlock-operation r n (submitted station owner request phase) c =
    if_cases (λ d. operation d ≡ operation c) (is_latest_unlock r c)
      (λ _. take_unlock-operation r _ c) (λ _. refl)

pub unlock-operation :
    (r : UnlockRequest) (reply : Value) (n : ℕ) (c : DoorfastClient)
    → operation (unlock_end r reply n c).0 ≡ operation c
unfolding unlock_end
unlock-operation r reply n c =
    elim (Option-cases (validate_unlock_reply reply r.runtime r.station_id)) [
      | inl e ↦ rw (e, unlock_end) refl
      | inr (a, e) ↦ rw (e, unlock_end) (follow_unlock-operation r n a c)
    ]

-- The streams keep the status.
pub video-status :
    (raises : ℕ → Bool) (r : MediaRequest) (reply : HttpReply) (c : DoorfastClient)
    → (video_end raises r reply c).0.status ≡ c.status
unfolding video_end take_frame keep_frame clear_video_cache_for_request clear_video_cache
video-status raises r reply c = ground arith

pub audio-status :
    (raises : ℕ → Bool) (r : MediaRequest) (reply : HttpReply) (c : DoorfastClient)
    → (audio_end raises r reply c).0.status ≡ c.status
unfolding audio_end take_chunk move_cursor clear_audio_cursor_for_request clear_audio_cursor
audio-status raises r reply c = ground arith

pub drops-status :
    (changed : Bool) (c : DoorfastClient)
    → (drop_audio changed (drop_video changed c)).status ≡ c.status
unfolding drop_audio drop_video clear_video_cache clear_audio_cursor
drops-status changed c = ground arith

pub unfenced-status : (changed : Bool) (c : DoorfastClient) → (unfenced changed c).status ≡ c.status
unfolding unfenced
unfenced-status changed c = ground arith
