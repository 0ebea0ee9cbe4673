-- ===== src/Client/Stopped/Rows.antt =====
-- custom_components/doorfast/client.py, the rows of a status behind the fence of a stop.
use doorfastforha.Prelude.{
  ◌≡◌, inl, inr, refl, sym, ap, ◌∙◌, subst, String, Bool, true, false, not, List, [], ◌∷◌, Option,
  none, some, eq_iff, string_eq, lookup, insert, lookup-insert, arith, if_cases, Option-cases,
  Bool-cases, some_inj, >>=-eq-some, All, All-append, Dict, if◌then◌else◌,
}
use doorfastforha.Value.{
  Value, null, bool, int, float, str, list, dict, Fields, get, put, as_list, is_text,
}
use doorfastforha.Value.Equal.{from_list}
use doorfastforha.Value.Put.{get-put, to_list-from_list}
use doorfastforha.Client.{Fence, DoorfastClient}
use doorfastforha.Client.Previews.{
  StopRequest, fence_of, is_fenced, held_row, fence_row, fence_rows, fence_stopped_previews,
  supersede, is_stop_reply, raise_fence, show_stop, conclude_stop, stop_monitor_end,
}
use doorfastforha.Client.Stopped.{
  is_preview, IsStopped, Fits, one_row-Fits, held_row-Fits, preview_fence, preview_fenced,
}

none-ne-some {ℓ} : {A : Type ℓ} {a : A} → ¬ (none ≡ some a)
none-ne-some h = cc

pub true-ne-false : ¬ (true ≡ false)
true-ne-false h = cc

pub media_of : (v : Value) (s : Fields) → get (put "media" v s) "media" ≡ v
media_of v s = simp get-put

sessions_of :
    (rows : List Value) (media : Fields)
    → as_list (get (put "sessions" (list (from_list rows)) media) "sessions") ≡ some rows
sessions_of rows media = simp (get-put, to_list-from_list)

pub lookup-insert_self :
    (k : String) (f : Fence) (m : Dict String Fence) → lookup k (insert k f m) ≡ some f
lookup-insert_self k f m = lookup-insert k k f m ∙ rw ((eq_iff k k).1 refl) refl

module _ (r : StopRequest) (status : Fields) (c : DoorfastClient) (h : IsStopped r status c) where
  dict_row-Fits :
      (ownership : Bool) (item : Fields) (rows : List Value)
      → fence_row c status ownership (dict item) ≡ some rows
      → All (Fits r ownership) rows
  unfolding fence_row
  dict_row-Fits ownership item rows k = elim (Bool-cases (is_preview r (dict item))) [
    | inl p ↦
        held_row-Fits r ownership item rows (
          rw (preview_fence r status c h item p, fence_row, preview_fenced r status c h item p) at
            k)
    | inr p ↦ elim (Option-cases (fence_of c item)) [
      | inl e ↦ one_row-Fits r ownership (dict item) rows p (rw (e, fence_row) at k)
      | inr ((station, fence), e) ↦
          (let (fenced, _, k') =
              >>=-eq-some (is_fenced c status item station fence) _ (rw (e, fence_row) at k) in
            one_row fenced k' p)
    ]
  ]
    where
      one_row :
          (fenced : Bool)
          → (if fenced then held_row ownership item else some (dict item ∷ [])) ≡ some rows
          → is_preview r (dict item) ≡ false
          → All (Fits r ownership) rows
      one_row true k p = held_row-Fits r ownership item rows k
      one_row false k p = one_row-Fits r ownership (dict item) rows p k

  row-Fits :
      (ownership : Bool) (v : Value) (rows : List Value)
      → fence_row c status ownership v ≡ some rows
      → All (Fits r ownership) rows
  unfolding fence_row
  row-Fits ownership (dict item) rows k = dict_row-Fits ownership item rows k
  row-Fits ownership null rows k = one_row-Fits r ownership _ rows refl k
  row-Fits ownership (bool b) rows k = one_row-Fits r ownership _ rows refl k
  row-Fits ownership (int n) rows k = one_row-Fits r ownership _ rows refl k
  row-Fits ownership (float n t) rows k = one_row-Fits r ownership _ rows refl k
  row-Fits ownership (str t) rows k = one_row-Fits r ownership _ rows refl k
  row-Fits ownership (list l) rows k = one_row-Fits r ownership _ rows refl k

  rows-Fits :
      (ownership : Bool) (vs rows : List Value)
      → fence_rows c status ownership vs ≡ some rows
      → All (Fits r ownership) rows
  unfolding fence_rows
  rows-Fits ownership [] rows k = subst (All (Fits r ownership)) (some_inj k) tt
  rows-Fits ownership (v ∷ vs) rows k =
      let (row, e1, k1) = >>=-eq-some (fence_row c status ownership v) _ k in
      let (rest, e2, k2) = >>=-eq-some (fence_rows c status ownership vs) _ k1 in
      subst (All (Fits r ownership)) (some_inj k2) (
        All-append (Fits r ownership) row rest (row-Fits ownership v row e1)
          (rows-Fits ownership vs rest e2))

  -- The rows of the fenced media.
  pub media-Fits :
      (ownership : Bool) (media fenced : Fields) (items : List Value)
      → fence_stopped_previews c status media ownership ≡ some fenced
      → as_list (get fenced "sessions") ≡ some items
      → All (Fits r ownership) items
  unfolding fence_stopped_previews
  media-Fits ownership media fenced items k l =
      elim (Option-cases (as_list (get media "sessions"))) [
        | inl e ↦
            (let same : media ≡ fenced = some_inj (rw (e, fence_stopped_previews) at k) in
              absurd (none-ne-some (sym e ∙ ap (λ m. as_list (get m "sessions")) same ∙ l)))
        | inr (vs, e) ↦
            (let (rows, e1, k1) =
                >>=-eq-some (fence_rows c status ownership vs) _
                  (rw (e, fence_stopped_previews) at k) in
              subst (All (Fits r ownership))
                (some_inj (
                  sym (sessions_of rows media)
                  ∙ ap (λ m. as_list (get m "sessions")) (some_inj k1)
                  ∙ l))
                (rows-Fits ownership vs rows e1))
      ]

concluded :
    (f d : DoorfastClient) (o : Option Fields) (s : Fields)
    → conclude_stop f o ≡ (d, some (some s))
    → (o ≡ some s) × (record f { status = s } ≡ d)
unfolding conclude_stop
concluded f d none s h = absurd (none-ne-some (ap (λ p. p.1) h))
concluded f d (some t) s h =
    let same : t ≡ s = some_inj (some_inj (ap (λ p. p.1) h)) in
    (ap some same, ap (λ (x : Fields). record f { status = x }) (sym same) ∙ ap (λ p. p.0) h)

-- What a stop has done that has shared a status.
pub stop_shares :
    (r : StopRequest) (response : Fields) (c d : DoorfastClient) (s : Fields)
    → stop_monitor_end r response c ≡ (d, some (some s))
    → (is_text (get c.status "runtime_id") r.runtime_id ≡ true)
      × (show_stop r (raise_fence r (supersede c)) ≡ some s)
      × (record (raise_fence r (supersede c)) { status = s } ≡ d)
unfolding stop_monitor_end
stop_shares r response c d s =
    let fenced = raise_fence r (supersede c) in
    let P : DoorfastClient × Option (Option Fields) → Type 0 = λ p.
      p ≡ (d, some (some s))
      → (is_text (get c.status "runtime_id") r.runtime_id ≡ true)
        × (show_stop r fenced ≡ some s)
        × (record fenced { status = s } ≡ d) in
    if_cases P (not (is_stop_reply r response)) (λ _ h. absurd (none-ne-some (ap (λ p. p.1) h)))
      (λ _.
        if_cases P (not (is_text (get c.status "runtime_id") r.runtime_id))
          (λ _ h. absurd (none-ne-some (some_inj (ap (λ p. p.1) h))))
          (λ e h.
            let (shown, left) = concluded fenced d (show_stop r fenced) s h in
            (ground arith, shown, left)))

-- The rows of the media of a status.
abbrev pub rows_of : Fields → List Value
rows_of media = elim (as_list (get media "sessions")) [ none ↦ [] | some items ↦ items ]

pub rows_of-Fits :
    (r : StopRequest) (status : Fields) (c : DoorfastClient) (ownership : Bool)
    (media fenced : Fields)
    → IsStopped r status c
    → fence_stopped_previews c status media ownership ≡ some fenced
    → All (Fits r ownership) (rows_of fenced)
rows_of-Fits r status c ownership media fenced h k =
    elim (Option-cases (as_list (get fenced "sessions"))) [
      | inl e ↦ rw (e, rows_of) tt
      | inr (items, e) ↦ rw (e, rows_of) (media-Fits r status c h ownership media fenced items k e)
    ]
