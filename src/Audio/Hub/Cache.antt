-- ===== src/Audio/Hub/Cache.antt =====
-- custom_components/doorfast/audio.py, `AudioListenerHub._cached`: which chunk a listener gets.
use doorfastforha.Prelude.{
  ℕ, suc, ◌≤◌, ◌<◌, ◌≡◌, refl, true, false, List, [], ◌∷◌, Option, none, some, arith, All, All-map,
  Bool-cases, inl, inr, ◌⊎◌, subst, if_cases, sym, ◌∙◌, ap,
}
use doorfastforha.Audio.Hub.{
  AudioChunk, Entry, Listener, first_fresh, is_fresh, newest, newest_of, is_late, through, cached,
  hand_out, catch_up,
}

abbrev pub rev : Entry → ℕ
rev e = e.0.revision

-- Revisions grow along the cache.
abbrev pub Ascending : List Entry → Type 0
Ascending [] = Unit {0}
Ascending (e ∷ es) = All (λ f. rev e < rev f) es × Ascending es

-- What the cache can still give a listener with the cursor has revision `d` or later.
abbrev pub Passed : ℕ → Option ℕ → List Entry → Type 0
Passed d cursor = All (λ e. is_fresh cursor e ≡ true → d ≤ rev e)

first_fresh_lem {κ} :
    (P : Entry → Type κ) (cursor : Option ℕ) (cache : List Entry) (e : Entry)
    → first_fresh cursor cache ≡ some e
    → All P cache
    → P e × (is_fresh cursor e ≡ true)
first_fresh_lem P cursor [] e h a = cc
first_fresh_lem P cursor (x ∷ xs) e h a = elim (Bool-cases (is_fresh cursor x)) [
  | inl fresh ↦
      let same : x ≡ e = ground arith in
      (subst P same a.0, subst (λ y. is_fresh cursor y ≡ true) same fresh)
  | inr old ↦ first_fresh_lem P cursor xs e (ground arith) a.1
]

-- The last entry is as new as any.
newest-All :
    (e : Entry) (es : List Entry)
    → Ascending (e ∷ es)
    → All (λ f. rev f ≤ rev (newest e es)) (e ∷ es)
newest-All e [] a = (omega arith, tt)
newest-All e (f ∷ fs) a = let r = newest-All f fs a.1 in (omega (arith, r.0, a.0.0), r)

newest_of-All :
    (d : Entry) (cache : List Entry)
    → Ascending cache
    → All (λ f. rev f ≤ rev (newest_of d cache)) cache
newest_of-All d [] a = tt
newest_of-All d (e ∷ es) a = newest-All e es a

-- A cursor that has moved up leaves less to give.
Passed-mono :
    (d : ℕ) (cursor later : Option ℕ) (cache : List Entry)
    → ((e : Entry) → is_fresh later e ≡ true → is_fresh cursor e ≡ true)
    → Passed d cursor cache
    → Passed d later cache
Passed-mono d cursor later cache up p =
    All-map _ _ cache (λ e (h : is_fresh cursor e ≡ true → d ≤ rev e) f. h (up e f)) p

through-Passed :
    (d : ℕ) (discarded : Option ℕ) (l : Listener) (cache : List Entry)
    → Passed d l.cursor cache
    → Passed d (through discarded l).cursor cache
through-Passed d discarded l cache p =
    Passed-mono d l.cursor (through discarded l).cursor cache (λ e f. ground arith) p

Passed-at : (d : ℕ) (cache : List Entry) → Passed (suc d) (some d) cache
Passed-at d [] = tt
Passed-at d (e ∷ es) = ((λ f. ground arith), Passed-at d es)

-- What a look into the cache may come to, for a listener that has got all below `d`.
abbrev pub Newer : ℕ → List Entry → ℕ → Listener × Option AudioChunk → Type 0
Newer d cache serial (l, none) = Passed d l.cursor cache × (l.serial ≡ serial)
Newer d cache serial (l, some c) =
    (d ≤ c.revision) × Passed (suc c.revision) l.cursor cache × (l.serial ≡ serial)

module _ (cache : List Entry) (latest now d : ℕ) (m : Listener) (a : Ascending cache)
    (q : Passed d m.cursor cache) where
  catch_up-Newer : (n : Entry) → d ≤ rev n → Newer d cache m.serial (catch_up latest now m n)
  catch_up-Newer n low =
      if_cases (Newer d cache m.serial) (is_late now latest n)
        (λ _. (
          All-map _ _ cache
              (λ x (h : is_fresh (some (rev n)) x ≡ true → rev n < rev x) t. omega (arith, h t))
              (Passed-at (rev n) cache),
          refl,
        ))
        (λ _. (low, Passed-at (rev n) cache, refl))

  hand_out-Newer :
      (o : Option Entry)
      → first_fresh m.cursor cache ≡ o
      → Newer d cache m.serial (hand_out cache latest now m o)
  unfolding hand_out
  hand_out-Newer none e = (q, refl)
  hand_out-Newer (some f) e =
      let (up, fresh) = first_fresh_lem _ m.cursor cache f e q in
      let low : d ≤ rev f = up fresh in
      let (le, _) = first_fresh_lem _ m.cursor cache f e (newest_of-All f cache a) in
      if_cases (Newer d cache m.serial) (is_late now latest f)
        (λ _. catch_up-Newer (newest_of f cache) (omega arith))
        (λ _. (low, Passed-at (rev f) cache, refl))

serial-through : (discarded : Option ℕ) (l : Listener) → (through discarded l).serial ≡ l.serial
serial-through discarded l = ground arith

-- Every chunk that a listener gets is newer than all that it got before, and what it can get
-- afterwards is newer still.
pub cached-Newer :
    (cache : List Entry) (discarded : Option ℕ) (latest now d : ℕ) (l : Listener)
    → Ascending cache
    → Passed d l.cursor cache
    → Newer d cache l.serial (cached cache discarded latest now l)
unfolding cached
cached-Newer cache discarded latest now d l a p =
    let m = through discarded l in
    subst (λ s. Newer d cache s (hand_out cache latest now m (first_fresh m.cursor cache)))
      (serial-through discarded l)
      (hand_out-Newer cache latest now d m a (through-Passed d discarded l cache p)
        (first_fresh m.cursor cache) refl)

hand_out_honest :
    (cache : List Entry) (latest now : ℕ) (m : Listener) (o : Option Entry) (c : AudioChunk)
    → (hand_out cache latest now m o).1 ≡ some c
    → c.discontinuity ≡ false
    → (m.discontinuity ≡ false) × ((m.cursor ≡ none) ⊎ (m.cursor ≡ some c.previous_revision))
unfolding hand_out
hand_out_honest cache latest now m none c h u = cc
hand_out_honest cache latest now m (some f) c h u = ground arith

-- Nothing above the cursor has been discarded.
abbrev pub Kept : Option ℕ → Option ℕ → Type 0
Kept none cursor = Unit {0}
Kept (some d) none = ⊥
Kept (some d) (some cursor) = d ≤ cursor

through_honest :
    (discarded : Option ℕ) (l : Listener)
    → (through discarded l).discontinuity ≡ false
    → (through discarded l ≡ l) × Kept discarded l.cursor
through_honest none l h = (refl, tt)
through_honest (some d) l h = kept l.cursor refl
  where
    kept : (o : Option ℕ) → l.cursor ≡ o → (through (some d) l ≡ l) × Kept (some d) o
    kept none e = ground arith
    kept (some n) e = ground arith

-- A chunk that goes out unmarked is for a listener that is not marked and for which nothing that it has
-- not got was discarded, and it continues the listener's last chunk, or is the listener's first.
pub cached_honest :
    (cache : List Entry) (discarded : Option ℕ) (latest now : ℕ) (l : Listener) (c : AudioChunk)
    → (cached cache discarded latest now l).1 ≡ some c
    → c.discontinuity ≡ false
    → (l.discontinuity ≡ false)
      × Kept discarded l.cursor
      × ((l.cursor ≡ none) ⊎ (l.cursor ≡ some c.previous_revision))
unfolding cached
cached_honest cache discarded latest now l c h u =
    let m = through discarded l in
    let (unmarked, starts) =
      hand_out_honest cache latest now m (first_fresh m.cursor cache) c h u in
    let (same, kept) = through_honest discarded l unmarked in
    (
      sym (ap (λ k. k.discontinuity) same) ∙ unmarked,
      kept,
      subst (λ (k : Listener). (k.cursor ≡ none) ⊎ (k.cursor ≡ some c.previous_revision)) same
          starts,
    )

-- What is given was cached.
abbrev pub Gives : (ℕ → Type 0) → Listener × Option AudioChunk → Type 0
Gives P (l, none) = Unit {0}
Gives P (l, some c) = P c.revision

newest_lem : (P : Entry → Type 0) (e : Entry) (es : List Entry) → All P (e ∷ es) → P (newest e es)
newest_lem P e [] a = a.0
newest_lem P e (f ∷ fs) a = newest_lem P f fs a.1

newest_of_lem :
    (P : Entry → Type 0) (d : Entry) (cache : List Entry)
    → P d
    → All P cache
    → P (newest_of d cache)
newest_of_lem P d [] p a = p
newest_of_lem P d (e ∷ es) p a = newest_lem P e es a

hand_out-Gives :
    (P : ℕ → Type 0) (cache : List Entry) (latest now : ℕ) (m : Listener) (o : Option Entry)
    → first_fresh m.cursor cache ≡ o
    → All (λ e. P (rev e)) cache
    → Gives P (hand_out cache latest now m o)
unfolding hand_out
hand_out-Gives P cache latest now m none e a = tt
hand_out-Gives P cache latest now m (some f) e a =
    let (p, _) = first_fresh_lem (λ x. P (rev x)) m.cursor cache f e a in
    let n = newest_of f cache in
    if_cases (Gives P) (is_late now latest f)
      (λ _.
        if_cases (Gives P) (is_late now latest n) (λ _. tt)
          (λ _. newest_of_lem (λ x. P (rev x)) f cache p a))
      (λ _. p)

pub cached-Gives :
    (P : ℕ → Type 0) (cache : List Entry) (discarded : Option ℕ) (latest now : ℕ) (l : Listener)
    → All (λ e. P (rev e)) cache
    → Gives P (cached cache discarded latest now l)
unfolding cached
cached-Gives P cache discarded latest now l a =
    let m = through discarded l in
    hand_out-Gives P cache latest now m (first_fresh m.cursor cache) refl a

pub Passed-zero : (cursor : Option ℕ) (cache : List Entry) → Passed 0 cursor cache
Passed-zero cursor [] = tt
Passed-zero cursor (e ∷ es) = ((λ _. omega arith), Passed-zero cursor es)

Newer-serial :
    (d : ℕ) (cache : List Entry) (serial : ℕ) (r : Listener × Option AudioChunk)
    → Newer d cache serial r
    → r.0.serial ≡ serial
Newer-serial d cache serial (l, none) n = n.1
Newer-serial d cache serial (l, some c) n = n.2

pub serial-cached :
    (cache : List Entry) (discarded : Option ℕ) (latest now : ℕ) (l : Listener)
    → Ascending cache
    → (cached cache discarded latest now l).0.serial ≡ l.serial
serial-cached cache discarded latest now l a =
    Newer-serial 0 cache l.serial (cached cache discarded latest now l)
      (cached-Newer cache discarded latest now 0 l a (Passed-zero l.cursor cache))
