-- ===== src/Client/Cursor.antt =====
-- custom_components/doorfast/client.py, `latest_audio_chunk`: the cursor behind a chunk.
use doorfastforha.Prelude.{
  ℕ, ◌≡◌, ◌<◌, ◌≤◌, inl, inr, refl, Bool, true, ◌||◌, List, Option, none, some, ◌==◌, arith,
  if_cases, Option-cases, some_inj, >>=-eq-some, sym, ◌∙◌, ap, length,
}
use doorfastforha.Client.{DoorfastClient, current_audio_generation, audio_request_is_current}
use doorfastforha.Client.Media.{
  MediaRequest, HttpReply, audio_end, take_chunk, move_cursor, is_chunk, continues, reply_revisions,
  header,
}
use doorfastforha.Client.Current.{same_nat-eq}

-- How a chunk with these revisions continues the client.
abbrev pub Continues : MediaRequest → DoorfastClient → ℕ → ℕ → Option ℕ → Type 0
Continues r c before own none = (c.audio_revision ≡ none) × (r.latest ≤ own)
Continues r c before own (some cursor) = (c.audio_revision ≡ some cursor) × (before ≡ cursor)

-- The client behind a chunk of the reply, with the revisions that the reply's headers give.
pub record Advances (r : MediaRequest) (reply : HttpReply) (c d : DoorfastClient) : Type 0 where
  pub before : ℕ
  pub own : ℕ
  pub says_before : header reply "X-Doorfast-Audio-Previous-Revision" ≡ some before
  pub says_own : header reply "X-Doorfast-Audio-Revision" ≡ some own
  pub says_generation : header reply "X-Doorfast-Generation" ≡ some r.generation
  pub has_body : 0 < length reply.body
  pub ascends : before < own
  pub continued : Continues r c before own r.previous
  pub current : current_audio_generation c.status ≡ some r.generation
  pub generation : d.audio_generation ≡ some r.generation
  pub revision : d.audio_revision ≡ some own
  pub status : d.status ≡ c.status

is_chunk-Continues :
    (r : MediaRequest) (before own : ℕ) (reply : HttpReply) (c : DoorfastClient)
    (previous : Option ℕ)
    → r.previous ≡ previous
    → is_chunk r before own reply c ≡ true
    → (before < own) × Continues r c before own previous
unfolding is_chunk continues audio_request_is_current
is_chunk-Continues r before own reply c none e h =
    (ground arith, (same_nat-eq _ _ (ground arith), ground arith))
is_chunk-Continues r before own reply c (some p) e h =
    (ground arith, (same_nat-eq _ _ (ground arith), ground arith))

is_chunk-current :
    (r : MediaRequest) (before own : ℕ) (reply : HttpReply) (c : DoorfastClient)
    → is_chunk r before own reply c ≡ true
    → current_audio_generation c.status ≡ some r.generation
unfolding is_chunk audio_request_is_current
is_chunk-current r before own reply c h = same_nat-eq _ _ (ground arith)

is_chunk-header :
    (r : MediaRequest) (before own : ℕ) (reply : HttpReply) (c : DoorfastClient)
    → is_chunk r before own reply c ≡ true
    → (header reply "X-Doorfast-Generation" ≡ some r.generation) × (0 < length reply.body)
unfolding is_chunk
is_chunk-header r before own reply c h = (same_nat-eq _ _ (ground arith), ground arith)

reply_revisions-header :
    (reply : HttpReply) (before own : ℕ)
    → reply_revisions reply ≡ some (before, own)
    → (header reply "X-Doorfast-Audio-Previous-Revision" ≡ some before)
      × (header reply "X-Doorfast-Audio-Revision" ≡ some own)
unfolding reply_revisions
reply_revisions-header reply before own h =
    let (b, says_before, k) = >>=-eq-some (header reply "X-Doorfast-Audio-Previous-Revision") _ h in
    let (o, says_own, same) = >>=-eq-some (header reply "X-Doorfast-Audio-Revision") _ k in
    (
      says_before ∙ ap (λ p. some p.0) (some_inj same),
      says_own ∙ ap (λ p. some p.1) (some_inj same),
    )

-- An outcome with a chunk advances the cursor.
abbrev Chunked :
    MediaRequest → HttpReply → DoorfastClient → List ℕ → DoorfastClient × Option (List ℕ) → Type 0
Chunked r reply c body p = p.1 ≡ some body → Advances r reply c p.0 × (body ≡ reply.body)

take_chunk-Advances :
    (r : MediaRequest) (reply : HttpReply) (c : DoorfastClient) (body : List ℕ)
    → Chunked r reply c body (take_chunk r reply c)
unfolding take_chunk
take_chunk-Advances r reply c body = elim (Option-cases (reply_revisions reply)) [
  | inl e ↦ rw (e, take_chunk) (λ h. cc)
  | inr ((before, own), e) ↦
      rw (e, take_chunk)
        (if_cases (Chunked r reply c body) (is_chunk r before own reply c)
          (λ good shown.
            let (ascends, continued) =
              is_chunk-Continues r before own reply c r.previous refl good in
            let (says_before, says_own) = reply_revisions-header reply before own e in
            let (says_generation, has_body) = is_chunk-header r before own reply c good in
            unfold move_cursor in
            (
              record {
                says_before = says_before;
                says_own = says_own;
                says_generation = says_generation;
                has_body = has_body;
                before = before;
                own = own;
                ascends = ascends;
                continued = continued;
                current = is_chunk-current r before own reply c good;
                generation = refl;
                revision = refl;
                status = refl;
              },
              sym (some_inj shown),
            ))
          (λ _ h. cc))
]

-- A chunk is handed out only for the current generation, is the body of a reply that names that
-- generation, and is not empty; it starts, by the reply's headers, at the cursor that the client still
-- has, or without one reaches what the status had seen, and the cursor moves up to its own revision.
pub audio_end-Advances :
    (raises : ℕ → Bool) (r : MediaRequest) (reply : HttpReply) (c : DoorfastClient) (body : List ℕ)
    → (audio_end raises r reply c).1 ≡ some (some body)
    → Advances r reply c (audio_end raises r reply c).0 × (body ≡ reply.body)
unfolding audio_end
audio_end-Advances raises r reply c body =
    let P : DoorfastClient × Option (Option (List ℕ)) → Type 0 =
      λ p. p.1 ≡ some (some body) → Advances r reply c p.0 × (body ≡ reply.body) in
    if_cases P (reply.status == 304 || reply.status == 503) (λ _ h. cc)
      (λ _.
        if_cases P (reply.status == 404 || reply.status == 409) (λ _ h. cc)
          (λ _.
            if_cases P (raises reply.status) (λ _ h. cc)
              (λ _ h. take_chunk-Advances r reply c body (some_inj h))))
