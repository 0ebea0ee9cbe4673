-- ===== src/Audio/Hub/Invariant/Stored.antt =====
-- custom_components/doorfast/audio.py, a chunk that is stored, and a listener that is added.
use doorfastforha.Prelude.{
  ℕ, ◌+◌, ◌≤◌, ◌<◌, ◌≡◌, String, true, false, List, [], ◌∷◌, ◌++◌, Option, none, some, length,
  arith, All, All-map, All-append, Bool-cases, Option-cases, inl, inr, ◌⊎◌, lookup, insert,
  if_cases, ◌==◌, drop, string_eq, length-append, length-drop,
}
use doorfastforha.Audio.Hub.Cache.{rev, Ascending, Passed, Passed-zero}
use doorfastforha.Audio.Hub.Listeners.{
  Serials, insert_new-All, insert_new-Separate, length-insert_new, length-rewind, rewind-All,
  rewind-Separate,
}
use doorfastforha.Audio.Hub.{
  Hub, AudioChunk, Entry, Listener, store, append_entry, above_water, resynchronize, is_fresh, add,
}
use doorfastforha.Audio.Hub.Invariant.{Below, Reached, Inv, close-Inv, check_open_cases}

-- A new chunk lies above all that was delivered.
fresh-above :
    (d : ℕ) (hw : Option ℕ) (revision : ℕ)
    → Reached d hw
    → above_water hw revision ≡ true
    → d ≤ revision
fresh-above d none revision r a = omega arith
fresh-above d (some w) revision r a = ground arith

pub resynchronize-Inv : (s d : ℕ) (h : Hub) → Inv s d h → Inv s d (resynchronize h)
unfolding resynchronize
resynchronize-Inv s d h i = record {
  few_listeners = omega (arith, length-rewind h.listeners, i.few_listeners);
  few_cached = omega arith;
  ascending = tt;
  water = tt;
  separate = rewind-Separate h.listeners i.separate;
  born =
      rewind-All (λ p. p.1.serial < h.next_serial) (λ p. p.1.serial < h.next_serial) h.listeners
        (λ j x b. b) i.born;
  owned =
      rewind-All (λ p. p.1.serial < h.next_serial) (λ p. p.1.serial ≡ s → Passed d p.1.cursor [])
        h.listeners (λ j x b _. tt) i.born;
  reached = i.reached;
  unborn = i.unborn;
  quiet = i.quiet;
}

-- Everything in the cache lies below a chunk that the gate of the high-water mark lets in.
water-rises :
    (hw : Option ℕ) (revision : ℕ) (cache : List Entry)
    → above_water hw revision ≡ true
    → All (λ e. Below (rev e) hw) cache
    → All (λ e. rev e < revision) cache
water-rises hw revision cache a w = All-map _ _ cache (step hw a) w
  where
    step :
        (hw : Option ℕ)
        → above_water hw revision ≡ true
        → (e : Entry) → Below (rev e) hw
        → rev e < revision
    step none a e b = absurd b
    step (some w) a e b = ground arith

Ascending-snoc :
    (cache : List Entry) (e : Entry)
    → Ascending cache
    → All (λ f. rev f < rev e) cache
    → Ascending (cache ++ e ∷ [])
Ascending-snoc [] e a h = (tt, tt)
Ascending-snoc (x ∷ xs) e a h =
    (All-append (λ f. rev x < rev f) xs (e ∷ []) a.0 (h.0, tt), Ascending-snoc xs e a.1 h.1)

-- The entry has been appended to a cache with the invariant's facts, which lost at most its head.
appended-Inv :
    (s d : ℕ) (h : Hub) (cache : List Entry) (e : Entry) (after discarded : Option ℕ) (latest : ℕ)
    → length cache ≤ 3
    → Ascending cache
    → All (λ f. rev f < rev e) cache
    → Serials (λ n. n < h.next_serial) h.listeners
    → All (λ (p : String × Listener). p.1.serial ≡ s → Passed d p.1.cursor cache) h.listeners
    → d ≤ rev e
    → Inv s d h
    → Inv s d (record h {
      cache = cache ++ e ∷ [];
      after = after;
      discarded_through = discarded;
      high_water = some (rev e);
      latest_timestamp_ms = latest;
    })
appended-Inv s d h cache e after discarded latest few a low born owned le i = record {
  few_listeners = i.few_listeners;
  few_cached = omega (arith, length-append cache (e ∷ []));
  ascending = Ascending-snoc cache e a low;
  water =
      All-append (λ f. rev f ≤ rev e) cache (e ∷ [])
        (All-map _ _ cache (λ f (b : rev f < rev e). omega arith) low) (omega arith, tt);
  separate = i.separate;
  born = i.born;
  owned =
      All-map _ _ h.listeners
        (λ p (o : p.1.serial ≡ s → Passed d p.1.cursor cache) mine.
          All-append (λ f. is_fresh p.1.cursor f ≡ true → d ≤ rev f) cache (e ∷ []) (o mine)
            ((λ _. le), tt))
        owned;
  reached = inr (omega arith);
  unborn = i.unborn;
  quiet = i.quiet;
}

Ascending-drop : (cache : List Entry) → Ascending cache → Ascending (drop 1 cache)
Ascending-drop [] a = tt
Ascending-drop (x ∷ xs) a = a.1

All-drop {κ} : (P : Entry → Type κ) (cache : List Entry) → All P cache → All P (drop 1 cache)
All-drop P [] a = tt
All-drop P (x ∷ xs) a = a.1

-- A stored chunk goes into the cache only above the high-water mark, and the cache stays within four.
pub store-Inv :
    (s d : ℕ) (h : Hub) (c : AudioChunk) (now : ℕ)
    → h.closed ≡ false
    → Inv s d h
    → Inv s d (store h c now)
unfolding store append_entry
store-Inv s d h c now on i =
    let e : Entry = (c, now) in
    if_cases (Inv s d) (above_water h.high_water c.revision)
      (λ above.
        let low = water-rises h.high_water c.revision h.cache above i.water in
        let le : d ≤ c.revision =
          fresh-above d h.high_water c.revision (open_reached i.reached) above in
        if_cases (Inv s d) (length h.cache == 4)
          (λ full.
            appended-Inv s d h (drop 1 h.cache) e _ _ _
              (omega (arith, length-drop 1 h.cache, i.few_cached))
              (Ascending-drop h.cache i.ascending) (All-drop (λ f. rev f < c.revision) h.cache low)
              i.born
              (All-map _ _ h.listeners
                (λ p (o : p.1.serial ≡ s → Passed d p.1.cursor h.cache) mine.
                  All-drop (λ f. is_fresh p.1.cursor f ≡ true → d ≤ rev f) h.cache (o mine))
                i.owned)
              le i)
          (λ room.
            appended-Inv s d h h.cache e _ _ _ (ground (arith, i.few_cached)) i.ascending low i.born
              i.owned le i))
      (λ _. record {
        few_listeners = i.few_listeners;
        few_cached = i.few_cached;
        ascending = i.ascending;
        water = i.water;
        separate = i.separate;
        born = i.born;
        owned = i.owned;
        reached = i.reached;
        unborn = i.unborn;
        quiet = i.quiet;
      })
  where
    open_reached : (h.closed ≡ true) ⊎ Reached d h.high_water → Reached d h.high_water
    open_reached (inl shut) = cc
    open_reached (inr r) = r

added-Inv :
    (s d : ℕ) (h : Hub) (id : String)
    → lookup id h.listeners ≡ none
    → length h.listeners ≤ 3
    → Inv s d h
    → Inv s d (record h {
      listeners =
          insert id
            (record { serial = h.next_serial; cursor = none; discontinuity = false })
            h.listeners;
      next_serial = h.next_serial + 1;
    })
added-Inv s d h id absent few i = record {
  few_listeners = omega (arith, length-insert_new id l h.listeners absent);
  few_cached = i.few_cached;
  ascending = i.ascending;
  water = i.water;
  separate = insert_new-Separate id l h.listeners absent i.born i.separate;
  born =
      insert_new-All (λ (p : String × Listener). p.1.serial < h.next_serial + 1) id l h.listeners
        absent (omega arith)
        (All-map _ _ h.listeners (λ p (b : p.1.serial < h.next_serial). omega arith) i.born);
  owned =
      insert_new-All (λ (p : String × Listener). p.1.serial ≡ s → Passed d p.1.cursor h.cache) id l
        h.listeners absent (λ mine. rw (i.unborn (omega arith)) (Passed-zero none h.cache)) i.owned;
  reached = i.reached;
  unborn = λ le. i.unborn (omega arith);
  quiet = i.quiet;
}
  where
    l : Listener
    l = record { serial = h.next_serial; cursor = none; discontinuity = false }

pub add-Inv : (s d : ℕ) (h : Hub) (id : String) (now : ℕ) → Inv s d h → Inv s d (add h id now).0
unfolding add
add-Inv s d h id now i =
    check_open_cases (λ r. Inv s d r.0) h h.epoch now _ i (close-Inv s d h i)
      λ on. elim (Option-cases (lookup id h.listeners)) [
        | inr (l, known) ↦ rw known i
        | inl absent ↦ elim (Bool-cases (length h.listeners == 4)) [
          | inl full ↦ rw (absent, full) i
          | inr room ↦
              rw (absent, room) (added-Inv s d h id absent (ground (arith, i.few_listeners)) i)
        ]
      ]
