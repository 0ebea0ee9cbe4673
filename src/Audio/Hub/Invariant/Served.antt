-- ===== src/Audio/Hub/Invariant/Served.antt =====
-- custom_components/doorfast/audio.py, serving a listener.
use doorfastforha.Prelude.{
  ℕ, suc, ◌≤◌, ◌<◌, ◌≡◌, ◌≢◌, refl, String, true, false, Option, none, some, arith, All, All-map,
  inl, inr, ◌⊎◌, lookup, insert, subst, sym, ◌∙◌, string_eq,
}
use native.Mathlib.Decide.{ℕ_discrete}
use doorfastforha.Audio.Hub.Cache.{Passed, Newer, cached-Newer, Gives, cached-Gives, serial-cached}
use doorfastforha.Audio.Hub.Listeners.{insert-All, lookup-All, insert-Separate, length-insert}
use doorfastforha.Audio.Hub.{Hub, AudioChunk, Listener, serve, cached}
use doorfastforha.Audio.Hub.Invariant.{Below, Reached, Inv}

-- The table with the one listener replaced by a later state of the same object.
replaced-Inv :
    (s d e : ℕ) (h : Hub) (id : String) (l l' : Listener)
    → lookup id h.listeners ≡ some l
    → l'.serial ≡ l.serial
    → (l.serial ≡ s → Passed e l'.cursor h.cache)
    → ((h.closed ≡ true) ⊎ Reached e h.high_water)
    → Inv s d h
    → (l.serial ≡ s) ⊎ (e ≡ d)
    → Inv s e (record h { listeners = insert id l' h.listeners })
replaced-Inv s d e h id l l' found same passed reached i how = record {
  few_listeners = omega (arith, length-insert id l l' h.listeners found, i.few_listeners);
  few_cached = i.few_cached;
  ascending = i.ascending;
  water = i.water;
  separate = insert-Separate id l l' h.listeners found same i.separate;
  born =
      insert-All (λ (p : String × Listener). p.1.serial < h.next_serial) id l l' h.listeners found
        i.separate
        (λ j.
          omega
            (arith, (lookup-All (λ p. p.1.serial < h.next_serial) id l h.listeners found i.born).1))
        (All-map _ _ h.listeners (λ p b _. b) i.born);
  owned =
      insert-All (λ (p : String × Listener). p.1.serial ≡ s → Passed e p.1.cursor h.cache) id l l'
        h.listeners found i.separate (λ j eq. passed (sym same ∙ eq)) (others how);
  reached = reached;
  unborn = new how;
  quiet = i.quiet;
}
  where
    serial : l.serial < h.next_serial
    serial =
        (lookup-All (λ (p : String × Listener). p.1.serial < h.next_serial) id l h.listeners found
          i.born).1

    others :
        (l.serial ≡ s) ⊎ (e ≡ d)
        → All
            (λ (p : String × Listener).
              p.1.serial ≢ l.serial → p.1.serial ≡ s → Passed e p.1.cursor h.cache)
            h.listeners
    others (inl mine) =
        All-map _ _ h.listeners
          (λ p (_ : p.1.serial ≡ s → Passed d p.1.cursor h.cache) ne eq.
            absurd (ne (eq ∙ sym mine)))
          i.owned
    others (inr eq) =
        All-map _ _ h.listeners
          (λ p (o : p.1.serial ≡ s → Passed d p.1.cursor h.cache) _ q.
            subst (λ n. Passed n p.1.cursor h.cache) (sym eq) (o q))
          i.owned

    new : (l.serial ≡ s) ⊎ (e ≡ d) → h.next_serial ≤ s → e ≡ 0
    new (inl mine) le = absurd (omega (arith, serial))
    new (inr eq) le = eq ∙ i.unborn le

-- What serving a listener comes to.
abbrev pub Served : ℕ → ℕ → ℕ → Hub × Option AudioChunk → Type 0
Served s d serial (h, none) = Inv s d h
Served s d serial (h, some c) =
    ((serial ≡ s) → (d ≤ c.revision) × Inv s (suc c.revision) h) × (serial ≢ s → Inv s d h)

module _ (s d : ℕ) (h : Hub) (id : String) (l : Listener) (found : lookup id h.listeners ≡ some l)
    (on : h.closed ≡ false) (i : Inv s d h) where
  Reached-Below : (n : ℕ) (hw : Option ℕ) → Below n hw → Reached (suc n) hw
  Reached-Below n none b = absurd b
  Reached-Below n (some w) b = omega arith

  abbrev with_listener : Listener → Hub
  with_listener l' = record h { listeners = insert id l' h.listeners }

  other-Inv : (l' : Listener) → l'.serial ≡ l.serial → l.serial ≢ s → Inv s d (with_listener l')
  other-Inv l' same ne =
      replaced-Inv s d d h id l l' found same (λ eq. absurd (ne eq)) i.reached i (inr refl)

  Served-Inv :
      (r : Listener × Option AudioChunk)
      → r.0.serial ≡ l.serial
      → Gives (λ n. Below n h.high_water) r
      → (l.serial ≡ s → Newer d h.cache l.serial r)
      → Dec (l.serial ≡ s)
      → Served s d l.serial (with_listener r.0, r.1)
  Served-Inv (l', none) same b n (yes mine) =
      replaced-Inv s d d h id l l' found same (λ eq. (n eq).0) i.reached i (inr refl)
  Served-Inv (l', none) same b n (no other) = other-Inv l' same other
  Served-Inv (l', some c) same b n dec = (
    (λ mine. (
      (n mine).0,
      replaced-Inv s d (suc c.revision) h id l l' found same (λ eq. (n eq).1)
          (inr (Reached-Below c.revision h.high_water b)) i (inl mine),
    )),
    λ other. other-Inv l' same other,
  )

pub serve-Inv :
    (s d : ℕ) (h : Hub) (id : String) (now : ℕ) (l : Listener)
    → lookup id h.listeners ≡ some l
    → h.closed ≡ false
    → Inv s d h
    → Served s d l.serial (serve h id now l)
unfolding serve
serve-Inv s d h id now l found on i =
    let r = cached h.cache h.discarded_through h.latest_timestamp_ms now l in
    Served-Inv s d h id l found on i r
      (serial-cached h.cache h.discarded_through h.latest_timestamp_ms now l i.ascending)
      (cached-Gives (λ n. Below n h.high_water) h.cache h.discarded_through h.latest_timestamp_ms
        now l i.water)
      (λ mine. cached-Newer h.cache h.discarded_through h.latest_timestamp_ms now d l i.ascending (
        (lookup-All (λ (p : String × Listener). p.1.serial ≡ s → Passed d p.1.cursor h.cache) id l
            h.listeners found i.owned).1
          mine))
      (ℕ_discrete l.serial s)
