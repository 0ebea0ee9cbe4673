-- ===== src/Client/Frames/Shown.antt =====
-- custom_components/doorfast/client.py, the frame that `video_frame` returns.
use doorfastforha.Prelude.{
  ℕ, ◌≡◌, inl, refl, ap, Bool, true, false, not, ◌&&◌, ◌||◌, List, [], ◌∷◌, ◌++◌, Option, none,
  some, ◌==◌, length, if◌then◌else◌, if_cases, &&_iff, some_inj,
}
use doorfastforha.Client.{
  DoorfastClient, init, same_nat, current_video_generation, video_request_is_current,
}
use doorfastforha.Client.Media.{
  MediaRequest, HttpReply, video_end, take_frame, cached_frame, has_generation,
}
use doorfastforha.Client.Current.{same_nat-eq}
use doorfastforha.Client.Schedule.{Op, run}
use doorfastforha.Client.Frames.{
  Frame, replied, frames, Listed, Listed-left, Listed-right, Sourced, run-Sourced,
}

if-eq-some {ℓ} :
    {A : Type ℓ} (b : Bool) (o : Option A) {a : A}
    → (if b then o else none) ≡ some a
    → (b ≡ true) × (o ≡ some a)
if-eq-some true o h = (refl, h)
if-eq-some false o h = cc

cached_frame-Listed :
    (fs : List Frame) (r : MediaRequest) (c : DoorfastClient) (f : List ℕ)
    → Sourced fs c
    → cached_frame r c ≡ some f
    → (current_video_generation c.status ≡ some r.generation) × Listed (r.generation, f) fs
unfolding cached_frame video_request_is_current
cached_frame-Listed fs r c f s h =
    let (test, frame) = if-eq-some _ c.video_frame h in
    let (current, own) = (&&_iff _ (same_nat c.video_generation (some r.generation))).0 test in
    let shown =
      ((&&_iff _ (same_nat (current_video_generation c.status) (some r.generation))).0 current).1 in
    (same_nat-eq _ _ shown, s.source r.generation f (same_nat-eq _ _ own) frame)

-- The frame that an outcome has is of the current generation, and listed.
abbrev Shows : List Frame → MediaRequest → DoorfastClient → List ℕ → Type 0
Shows fs r c f =
    (current_video_generation c.status ≡ some r.generation) × Listed (r.generation, f) fs

take_frame-Shows :
    (fs : List Frame) (r : MediaRequest) (reply : HttpReply) (c : DoorfastClient) (f : List ℕ)
    → (take_frame r reply c).1 ≡ some f
    → Shows (fs ++ replied r reply) r c f
unfolding take_frame video_request_is_current
take_frame-Shows fs r reply c f =
    if_cases
      (λ (p : DoorfastClient × Option (List ℕ)). p.1 ≡ some f → Shows (fs ++ replied r reply) r c f)
      (has_generation r.generation reply
        && (not (length reply.body == 0) && video_request_is_current r.runtime r.generation c))
      (λ e h.
        let (own, rest) = (&&_iff (has_generation r.generation reply) _).0 e in
        let current = ((&&_iff (not (length reply.body == 0)) _).0 rest).1 in
        let shown =
          ((&&_iff _ (same_nat (current_video_generation c.status) (some r.generation))).0
            current).1 in
        (
          same_nat-eq _ _ shown,
          rw own (
              Listed-right (r.generation, f) fs ((r.generation, reply.body) ∷ [])
                (inl (ap (λ b. (r.generation, b)) (some_inj h)))),
        ))
      (λ _ h. cc)

video_end-Shows :
    (fs : List Frame) (raises : ℕ → Bool) (r : MediaRequest) (reply : HttpReply)
    (c : DoorfastClient) (f : List ℕ)
    → Sourced fs c
    → (video_end raises r reply c).1 ≡ some (some f)
    → Shows (fs ++ replied r reply) r c f
unfolding video_end
video_end-Shows fs raises r reply c f s =
    let P : DoorfastClient × Option (Option (List ℕ)) → Type 0 =
      λ p. p.1 ≡ some (some f) → Shows (fs ++ replied r reply) r c f in
    if_cases P (reply.status == 304 || reply.status == 503)
      (λ _ h.
        let (current, listed) = cached_frame-Listed fs r c f s (some_inj h) in
        (current, Listed-left (r.generation, f) fs (replied r reply) listed))
      (λ _.
        if_cases P (reply.status == 404 || reply.status == 409) (λ _ h. cc)
          (λ _.
            if_cases P (raises reply.status) (λ _ h. cc)
              (λ _ h. take_frame-Shows fs r reply c f (some_inj h))))

-- Whatever ran before, a frame that is returned is of the generation that is current then, and the
-- bridge has replied with it under that generation, now or before.
pub video_end-frames :
    (ops : List Op) (raises : ℕ → Bool) (r : MediaRequest) (reply : HttpReply) (f : List ℕ)
    → (video_end raises r reply (run ops init)).1 ≡ some (some f)
    → (current_video_generation (run ops init).status ≡ some r.generation)
      × Listed (r.generation, f) (frames ops ++ replied r reply)
video_end-frames ops raises r reply f =
    video_end-Shows (frames ops) raises r reply (run ops init) f
      (run-Sourced [] ops init (unfold init in record { source = λ g f h. cc }))
