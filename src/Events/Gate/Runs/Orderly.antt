-- ===== src/Events/Gate/Runs/Orderly.antt =====
-- custom_components/doorfast/events.py, what the gate remembers of the calls that it has accepted.
use doorfastforha.Prelude.{
  ℕ, ◌≤◌, ◌≡◌, refl, String, Bool, true, false, List, [], ◌∷◌, Option, none, some, ltb, length,
  contains, arith, Bool-cases, inl, inr, eq_iff, All, All-map, nat_eq, string_eq, pair_eq, subst,
  if◌then◌else◌, sym, str_eq,
}
use doorfastforha.Events.Gate.Window.{IsDistinct, contains-snoc}
use doorfastforha.Events.Gate.Calls.{init-IsConsistent}
use doorfastforha.Events.Gate.Once.{
  IsWindow, Retired, Rising, le-floor, record_call-IsWindow, record_call-contains,
}
use doorfastforha.Events.Gate.{is_runtime, EventGate, init, enter_runtime, record_call, accept}
use doorfastforha.Events.Gate.Runs.{Call, run, settled, settled-record_call, accept_cases}

All-contains {κ} :
    (P : ℕ × String → Type κ) (k : ℕ × String) (xs : List (ℕ × String))
    → contains k xs ≡ true
    → All P xs
    → P k
All-contains P k [] m h = cc
All-contains P k (x ∷ xs) m h = elim (Bool-cases (pair_eq.beq k x)) [
  | inl same ↦ subst P (sym ((pair_eq.beq_iff k x).0 same)) h.0
  | inr other ↦ All-contains P k xs (ground arith) h.1
]

module _ (names : List String) (h : EventGate) (key : ℕ × String) (w : IsWindow names h) where
  module _ (new : contains key h.seen ≡ false) (fine : h.highest_generation ≤ key.0)
      (known : contains key.1 names ≡ true) where
    Retired-key : Retired (record_call h key) key
    Retired-key = inr (
        record_call-contains names h key w new fine known key
          (rw contains-snoc (ground (arith, eq_iff key.1 key.1))) refl)

    Retired-record_call : (k : ℕ × String) → Retired h k → Retired (record_call h key) k
    unfolding record_call
    Retired-record_call k (inl low) = inl (omega arith)
    Retired-record_call k (inr m) =
        let m' : contains k h.order ≡ true =
          subst (λ l. contains k l ≡ true) w.consistent.agree m in
        let le : k.0 ≤ h.highest_generation =
          All-contains (λ x. x.0 ≤ h.highest_generation) k h.order m' w.topped in
        elim (Bool-cases (ltb k.0 key.0)) [
          | inl low ↦ inl (ground arith)
          | inr same ↦ inr (
              record_call-contains names h key w new fine known k (rw contains-snoc (rw m'))
                (ground arith))
        ]

-- A key that passes both tests is not retired.
Retired-other :
    (h : EventGate) (key k : ℕ × String)
    → contains key h.seen ≡ false
    → h.highest_generation ≤ key.0
    → Retired h k
    → pair_eq.beq k key ≡ false
Retired-other h key k new fine t = elim (Bool-cases (pair_eq.beq k key)) [
  | inr other ↦ other
  | inl same ↦
      let e : k ≡ key = (pair_eq.beq_iff k key).0 same in
      let t' : Retired h key = subst (Retired h) e t in ground arith
]

-- A retired key is dropped, so what a run accepts is new to it.
Retired-dropped :
    (g : EventGate) (c : Call) (runtime : Option String)
    → Retired (enter_runtime g runtime) c.key
    → accept g c.key c.current runtime ≡ (enter_runtime g runtime, false)
unfolding accept
Retired-dropped g c runtime (inl low) =
    ground (arith, le-floor (enter_runtime g runtime).highest_generation c.current)
Retired-dropped g c runtime (inr old) = rw old

-- What a run promises from a gate onwards.
record IsOrderly (g : EventGate) (accepted : List (ℕ × String)) : Type 0 where
  distinct : IsDistinct accepted
  rising : Rising accepted
  above : All (λ (k : ℕ × String). g.highest_generation ≤ k.0) accepted
  fresh : (k : ℕ × String) → Retired g k → contains k accepted ≡ false

enter_runtime-IsWindow :
    (names : List String) (runtime : Option String) (g : EventGate)
    → IsWindow names g
    → IsWindow names (enter_runtime g runtime)
unfolding enter_runtime
enter_runtime-IsWindow names none g w = w
enter_runtime-IsWindow names (some r) g w = elim (Bool-cases (str_eq r "")) [
  | inl empty ↦ rw empty w
  | inr given ↦ elim (Bool-cases (is_runtime g.runtime_id r)) [
    | inl same ↦ rw (given, same) w
    | inr other ↦
        rw (given, other)
          (record {
            consistent = record { agree = refl; distinct = tt; bounded = omega arith };
            roomy = w.roomy;
            rising = tt;
            named = tt;
            topped = tt;
          })
  ]
]

highest-record_call :
    (h : EventGate) (key : ℕ × String)
    → h.highest_generation ≤ key.0
    → (record_call h key).highest_generation ≡ key.0
unfolding record_call
highest-record_call h key fine = omega arith

module _ (names : List String) (runtime : Option String) where
  abbrev Known : List Call → Type 0
  Known = All (λ c. contains c.key.1 names ≡ true)

  accepted-IsOrderly :
      (h : EventGate) (key : ℕ × String) (rest : List (ℕ × String))
      → IsWindow names h
      → contains key h.seen ≡ false
      → h.highest_generation ≤ key.0
      → contains key.1 names ≡ true
      → IsOrderly (record_call h key) rest
      → IsOrderly h (key ∷ rest)
  accepted-IsOrderly h key rest w new fine known r =
      let top = highest-record_call h key fine in
      record {
        distinct = (r.fresh key (Retired-key names h key w new fine known), r.distinct);
        rising = (subst (λ n. All (λ (k : ℕ × String). n ≤ k.0) rest) top r.above, r.rising);
        above = (
          fine,
          All-map _ _ rest (λ k (p : (record_call h key).highest_generation ≤ k.0). omega arith)
              r.above,
        );
        fresh = λ k t. rw (
          Retired-other h key k new fine t,
          r.fresh k (Retired-record_call names h key w new fine known k t),
        );
      }

  run-IsOrderly :
      (g : EventGate) (cs : List Call)
      → IsWindow names (enter_runtime g runtime)
      → Known cs
      → IsOrderly (enter_runtime g runtime) (run runtime g cs)
  unfolding run
  run-IsOrderly g [] w n = record { distinct = tt; rising = tt; above = tt; fresh = λ k t. refl }
  run-IsOrderly g (c ∷ cs) w n =
      let h = enter_runtime g runtime in
      let same = settled g runtime in
      accept_cases
        (λ (r : EventGate × Bool).
          let rest = run runtime r.0 cs in IsOrderly h (if r.1 then c.key ∷ rest else rest))
        g c runtime
        (subst (λ x. IsOrderly x (run runtime h cs)) same
          (run-IsOrderly h cs (subst (IsWindow names) (sym same) w) n.1))
        λ new fine.
          let h' = record_call h c.key in
          let same' = settled-record_call h c.key runtime same in
          let w' = record_call-IsWindow names h c.key w new fine n.0 in
          accepted-IsOrderly h c.key (run runtime h' cs) w new fine n.0 (
            subst (λ x. IsOrderly x (run runtime h' cs)) same'
              (run-IsOrderly h' cs (subst (IsWindow names) (sym same') w') n.1))

init-IsWindow :
    (capacity : ℕ) (names : List String) → length names ≤ capacity → IsWindow names (init capacity)
unfolding init
init-IsWindow capacity names h = record {
  consistent = init-IsConsistent capacity;
  roomy = h;
  rising = tt;
  named = tt;
  topped = tt;
}

-- However long the run, a gate with room for one key of each of the names that the events have
-- accepts no call event twice while the runtime stays the same, and the accepted generations never
-- fall.
pub run-init_once :
    (capacity : ℕ) (names : List String) (runtime : Option String) (cs : List Call)
    → length names ≤ capacity
    → Known names runtime cs
    → IsDistinct (run runtime (init capacity) cs) × Rising (run runtime (init capacity) cs)
run-init_once capacity names runtime cs h n =
    let w = enter_runtime-IsWindow names runtime (init capacity) (init-IsWindow capacity names h) in
    let r = run-IsOrderly names runtime (init capacity) cs w n in (r.distinct, r.rising)
