-- ===== src/Events/Gate/Calls.antt =====
-- custom_components/doorfast/events.py, `EventGate.accept`: what the call gate guarantees.
use doorfastforha.Prelude.{
  ℕ, ◌≤◌, ◌≡◌, refl, String, false, [], ◌∷◌, ◌++◌, Option, none, some, ltb, length, contains, ℤ,
  arith, Bool-cases, inl, inr, nat_eq, subst, ap, string_eq, pair_eq,
}
use doorfastforha.Events.Gate.Window.{IsDistinct, evict-agree, snoc-IsDistinct}
use doorfastforha.Events.Gate.{EventGate, init, enter_runtime, floor, record_call, accept}

-- The set and the deque hold the same distinct keys, within the capacity.
pub record IsConsistent (g : EventGate) : Type 0 where
  pub agree : g.seen ≡ g.order
  pub distinct : IsDistinct g.order
  pub bounded : length g.order ≤ g.capacity

pub init-IsConsistent : (capacity : ℕ) → IsConsistent (init capacity)
unfolding init
init-IsConsistent capacity = record { agree = refl; distinct = tt; bounded = omega arith }

pub enter_runtime-IsConsistent :
    (g : EventGate) (runtime : Option String)
    → IsConsistent g
    → IsConsistent (enter_runtime g runtime)
unfolding enter_runtime
enter_runtime-IsConsistent g none c = c
enter_runtime-IsConsistent g (some r) c = ground arith

pub record_call-IsConsistent :
    (g : EventGate) (key : ℕ × String)
    → contains key g.seen ≡ false
    → IsConsistent g
    → IsConsistent (record_call g key)
unfolding record_call
record_call-IsConsistent g key new c =
    let d =
      snoc-IsDistinct key g.order (subst (λ l. contains key l ≡ false) c.agree new) c.distinct in
    let e =
      evict-agree g.capacity (g.seen ++ key ∷ []) (g.order ++ key ∷ [])
        (ap (λ l. l ++ key ∷ []) c.agree) d in
    record { agree = e.0; distinct = e.1; bounded = e.2 }

-- Every call keeps a consistent gate consistent, whether it accepts the event or drops it.
pub accept-IsConsistent :
    (g : EventGate) (key : ℕ × String) (current : Option ℤ) (runtime : Option String)
    → IsConsistent g
    → IsConsistent (accept g key current runtime).0
unfolding accept
accept-IsConsistent g key current runtime c =
    let h = enter_runtime g runtime in
    let d : IsConsistent h = enter_runtime-IsConsistent g runtime c in
    elim (Bool-cases (contains key h.seen)) [
      | inl old ↦ rw old d
      | inr new ↦ elim (Bool-cases (ltb key.0 (floor h.highest_generation current))) [
        | inl low ↦ rw (new, low) d
        | inr fine ↦ rw (new, fine) (record_call-IsConsistent h key new d)
      ]
    ]
