-- ===== src/Events/Gate/Runs.antt =====
-- custom_components/doorfast/events.py, `EventGate.accept` over a sequence of calls that name one
-- runtime: the accepted events are distinct and their generations do not fall.
pub mod Orderly
use doorfastforha.Prelude.{
  ℕ, ◌≤◌, ◌<◌, ◌≡◌, refl, String, Bool, true, false, List, [], ◌∷◌, ◌++◌, Option, none, some, ltb,
  length, contains, ℤ, arith, Bool-cases, inl, inr, eq_iff, All, All-map, nat_eq, string_eq,
  pair_eq, subst, ap, if◌then◌else◌, sym, str_eq,
}
use doorfastforha.Events.Gate.Window.{
  IsDistinct, contains-snoc, evict-contains_last, snoc-IsDistinct,
}
use doorfastforha.Events.Gate.Calls.{IsConsistent, enter_runtime-IsConsistent, init-IsConsistent}
use doorfastforha.Events.Gate.Once.{
  IsWindow, Retired, Rising, le-floor, record_call-IsWindow, record_call-contains,
}
use doorfastforha.Events.Gate.{
  is_runtime, EventGate, init, enter_runtime, floor, record_call, accept,
}

-- A call of `accept`: the event's key and the generation that the bridge reports.
pub record Call : Type 0 where
  pub key : ℕ × String
  pub current : Option ℤ

-- The keys of the accepted events, in order.
unfoldable pub run : Option String → EventGate → List Call → List (ℕ × String)
run runtime g [] = []
run runtime g (c ∷ cs) =
    let (h, accepted) = accept g c.key c.current runtime in
    let rest = run runtime h cs in if accepted then c.key ∷ rest else rest

pub settled :
    (g : EventGate) (runtime : Option String)
    → enter_runtime (enter_runtime g runtime) runtime ≡ enter_runtime g runtime
unfolding enter_runtime
settled g none = refl
settled g (some r) = ground (arith, eq_iff r r)

pub settled-record_call :
    (g : EventGate) (key : ℕ × String) (runtime : Option String)
    → enter_runtime g runtime ≡ g
    → enter_runtime (record_call g key) runtime ≡ record_call g key
unfolding enter_runtime record_call
settled-record_call g key none e = refl
settled-record_call g key (some r) e =
    ground (arith, eq_iff r r, ap (λ (h : EventGate). h.runtime_id) e)

-- What one call does, by the gate's two tests.
pub accept_cases {ℓ} :
    (P : EventGate × Bool → Type ℓ) (g : EventGate) (c : Call) (runtime : Option String)
    → P (enter_runtime g runtime, false)
    → (contains c.key (enter_runtime g runtime).seen ≡ false
        → (enter_runtime g runtime).highest_generation ≤ c.key.0
        → P (record_call (enter_runtime g runtime) c.key, true))
    → P (accept g c.key c.current runtime)
unfolding accept
accept_cases P g c runtime dropped kept =
    let h = enter_runtime g runtime in
    elim (Bool-cases (contains c.key h.seen)) [
      | inl old ↦ rw old dropped
      | inr new ↦ elim (Bool-cases (ltb c.key.0 (floor h.highest_generation c.current))) [
        | inl low ↦ rw (new, low) dropped
        | inr fine ↦
            rw (new, fine) (kept new (ground (arith, le-floor h.highest_generation c.current)))
      ]
    ]

settled-accept :
    (g : EventGate) (c : Call) (runtime : Option String)
    → enter_runtime (accept g c.key c.current runtime).0 runtime
      ≡ (accept g c.key c.current runtime).0
settled-accept g c runtime =
    accept_cases (λ r. enter_runtime r.0 runtime ≡ r.0) g c runtime (settled g runtime)
      (λ _ _. settled-record_call (enter_runtime g runtime) c.key runtime (settled g runtime))

enter_runtime-contains :
    (g : EventGate) (key : ℕ × String) (later : Option ℤ) (runtime : Option String)
    → enter_runtime g runtime ≡ g
    → contains key g.seen ≡ true
    → (accept g key later runtime).1 ≡ false
unfolding accept
enter_runtime-contains g key later runtime e m = rw (e, m)

capacity-enter_runtime :
    (g : EventGate) (runtime : Option String) → (enter_runtime g runtime).capacity ≡ g.capacity
unfolding enter_runtime
capacity-enter_runtime g none = refl
capacity-enter_runtime g (some r) = ground arith

record_call-contains_self :
    (h : EventGate) (key : ℕ × String)
    → IsConsistent h
    → 0 < h.capacity
    → contains key h.seen ≡ false
    → contains key (record_call h key).seen ≡ true
unfolding record_call
record_call-contains_self h key c room new =
    evict-contains_last h.capacity key (h.seen ++ key ∷ []) h.order
      (ap (λ l. l ++ key ∷ []) c.agree)
      (snoc-IsDistinct key h.order (subst (λ l. contains key l ≡ false) c.agree new) c.distinct)
      room

-- An event that was accepted by a consistent gate with room for an event is dropped when it is
-- delivered again in the same runtime, whatever generation the bridge reports then.
pub accept_replay :
    (g : EventGate) (key : ℕ × String) (current later : Option ℤ) (runtime : Option String)
    → IsConsistent g
    → 0 < g.capacity
    → (accept g key current runtime).1 ≡ true
    → (accept (accept g key current runtime).0 key later runtime).1 ≡ false
accept_replay g key current later runtime c room =
    let h = enter_runtime g runtime in
    let same = settled g runtime in
    accept_cases (λ r. r.1 ≡ true → (accept r.0 key later runtime).1 ≡ false) g
      (record { key = key; current = current }) runtime (λ e. cc)
      λ new fine e.
        enter_runtime-contains (record_call h key) key later runtime
          (settled-record_call h key runtime same)
          (record_call-contains_self h key (enter_runtime-IsConsistent g runtime c)
            (rw capacity-enter_runtime room) new)
