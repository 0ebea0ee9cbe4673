-- ===== src/Events/Gate/Once.antt =====
-- custom_components/doorfast/events.py, `EventGate.accept` over a whole run: no call event is
-- accepted twice, although the window of remembered keys is bounded and forgets.
use doorfastforha.Prelude.{
  ℕ, ◌≤◌, ◌<◌, ◌≡◌, refl, String, true, false, List, [], ◌∷◌, ◌++◌, Option, none, some, ltb, length,
  contains, ℤ, pos, negsuc, arith, Bool-cases, inl, inr, ◌⊎◌, suc, eq_iff, All, All-append, All-map,
  map, nat_eq, string_eq, pair_eq, subst, ap, ==_iff,
}
use doorfastforha.Events.Gate.Window.{
  evict, IsDistinct, evict-All, AllIn, length-le_of_AllIn, discard, discard_head, snoc-IsDistinct,
}
use doorfastforha.Events.Gate.Calls.{IsConsistent, record_call-IsConsistent}
use doorfastforha.Events.Gate.{EventGate, floor, record_call}

-- Generations do not fall along the window.
abbrev pub Rising : List (ℕ × String) → Type 0
Rising [] = Unit
Rising (x ∷ xs) = All (λ (y : ℕ × String). x.0 ≤ y.0) xs × Rising xs

Rising-snoc :
    (xs : List (ℕ × String)) (k : ℕ × String)
    → Rising xs
    → All (λ (y : ℕ × String). y.0 ≤ k.0) xs
    → Rising (xs ++ k ∷ [])
Rising-snoc [] k r h = (tt, tt)
Rising-snoc (x ∷ xs) k r h =
    (All-append (λ (y : ℕ × String). x.0 ≤ y.0) xs (k ∷ []) r.0 (h.0, tt), Rising-snoc xs k r.1 h.1)

evict-Rising :
    (capacity : ℕ) (seen order : List (ℕ × String))
    → Rising order
    → Rising (evict capacity seen order).1
unfolding evict
evict-Rising capacity seen [] r = tt
evict-Rising capacity seen (k ∷ order) r = elim (Bool-cases (ltb capacity (length (k ∷ order)))) [
  | inl over ↦ rw over (evict-Rising capacity (discard k seen) order r.1)
  | inr fits ↦ rw fits r
]

abbrev names_of : List (ℕ × String) → List String
names_of = map (λ k. k.1)

-- Distinct keys of one generation have distinct names.
contains-names_of :
    (x : ℕ × String) (xs : List (ℕ × String))
    → contains x xs ≡ false
    → All (λ (y : ℕ × String). y.0 ≡ x.0) xs
    → contains x.1 (names_of xs) ≡ false
contains-names_of x [] h e = refl
contains-names_of (g, n) ((a, b) ∷ xs) h e =
    ground (arith, ==_iff g a, eq_iff n b, contains-names_of (g, n) xs, e.0)

names_of-IsDistinct :
    (g : ℕ) (xs : List (ℕ × String))
    → IsDistinct xs
    → All (λ (y : ℕ × String). y.0 ≡ g) xs
    → IsDistinct (names_of xs)
names_of-IsDistinct g [] d e = tt
names_of-IsDistinct g (x ∷ xs) d e = (
  contains-names_of x xs d.0 (All-map _ _ xs (λ y (p : y.0 ≡ g). omega arith) e.1),
  names_of-IsDistinct g xs d.1 e.1,
)

abbrev Named : List String → List (ℕ × String) → Type 0
Named names = All (λ (k : ℕ × String). contains k.1 names ≡ true)

names_of-AllIn :
    (names : List String) (xs : List (ℕ × String)) → Named names xs → AllIn (names_of xs) names
names_of-AllIn names [] h = tt
names_of-AllIn names (x ∷ xs) h = (h.0, names_of-AllIn names xs h.1)

length-names_of : (xs : List (ℕ × String)) → length (names_of xs) ≡ length xs
length-names_of [] = refl
length-names_of (x ∷ xs) = ap suc (length-names_of xs)

-- A window of one generation holds no more keys than there are names.
length-le_of_generation :
    (g : ℕ) (names : List String) (xs : List (ℕ × String))
    → IsDistinct xs
    → Named names xs
    → All (λ (y : ℕ × String). y.0 ≡ g) xs
    → length xs ≤ length names
length-le_of_generation g names xs d h e = omega (
  arith,
  length-names_of xs,
  length-le_of_AllIn (names_of xs) names (names_of-IsDistinct g xs d e) (names_of-AllIn names xs h),
)

All-between :
    (g : ℕ) (xs : List (ℕ × String))
    → All (λ (y : ℕ × String). g ≤ y.0) xs
    → All (λ (y : ℕ × String). y.0 ≤ g) xs
    → All (λ (y : ℕ × String). y.0 ≡ g) xs
All-between g [] l u = tt
All-between g (x ∷ xs) l u = (omega arith, All-between g xs l.1 u.1)

-- Eviction never drops a key of the latest generation.
evict-contains :
    (capacity : ℕ) (names : List String) (k : ℕ × String) (order : List (ℕ × String))
    → length names ≤ capacity
    → contains k order ≡ true
    → Rising order
    → IsDistinct order
    → Named names order
    → All (λ (y : ℕ × String). y.0 ≤ k.0) order
    → contains k (evict capacity order order).0 ≡ true
unfolding evict
evict-contains capacity names k [] c m r d h u = cc
evict-contains capacity names k (x ∷ order) c m r d h u =
    elim (Bool-cases (ltb capacity (length (x ∷ order)))) [
      | inr fits ↦ rw fits m
      | inl over ↦
          rw (over, discard_head x order d.0)
            (evict-contains capacity names k order c (stays over) r.1 d.1 h.1 u.1)
    ]
  where
    stays : ltb capacity (length (x ∷ order)) ≡ true → contains k order ≡ true
    stays over = elim (Bool-cases (pair_eq.beq k x)) [
      | inr other ↦ ground arith
      | inl same ↦
          let e : k ≡ x = (pair_eq.beq_iff k x).0 same in
          let l : All (λ (y : ℕ × String). y.0 ≡ x.0) (x ∷ order) =
            All-between x.0 (x ∷ order) (omega arith, r.0)
              (subst (λ (z : ℕ × String). All (λ (y : ℕ × String). y.0 ≤ z.0) (x ∷ order)) e u) in
          absurd (ground (arith, length-le_of_generation x.0 names (x ∷ order) d h l))
    ]

-- The call gate between two events: `names` are the event names that it is given.
pub record IsWindow (names : List String) (g : EventGate) : Type 0 where
  pub consistent : IsConsistent g
  pub roomy : length names ≤ g.capacity
  pub rising : Rising g.order
  pub named : Named names g.order
  pub topped : All (λ (k : ℕ × String). k.0 ≤ g.highest_generation) g.order

-- A key that the gate will never accept again in this runtime.
abbrev pub Retired : EventGate → ℕ × String → Type 0
Retired g k = (k.0 < g.highest_generation) ⊎ (contains k g.seen ≡ true)

pub le-floor : (highest : ℕ) (current : Option ℤ) → highest ≤ floor highest current
unfolding floor
le-floor h none = omega arith
le-floor h (some (pos n)) = omega arith
le-floor h (some (negsuc n)) = omega arith

module _ (names : List String) (g : EventGate) (key : ℕ × String) (w : IsWindow names g) where
  module _ (new : contains key g.seen ≡ false) (fine : g.highest_generation ≤ key.0)
      (known : contains key.1 names ≡ true) where
    abbrev window : List (ℕ × String)
    window = g.order ++ key ∷ []

    window-IsDistinct : IsDistinct window
    window-IsDistinct =
        snoc-IsDistinct key g.order (subst (λ l. contains key l ≡ false) w.consistent.agree new)
          w.consistent.distinct

    window-Rising : Rising window
    window-Rising =
        Rising-snoc g.order key w.rising
          (All-map _ _ g.order (λ y (p : y.0 ≤ g.highest_generation). omega arith) w.topped)

    window-Named : Named names window
    window-Named =
        All-append (λ (k : ℕ × String). contains k.1 names ≡ true) g.order (key ∷ []) w.named
          (known, tt)

    window_topped : All (λ (k : ℕ × String). k.0 ≤ key.0) window
    window_topped =
        All-append (λ (k : ℕ × String). k.0 ≤ key.0) g.order (key ∷ [])
          (All-map _ _ g.order (λ y (p : y.0 ≤ g.highest_generation). omega arith) w.topped)
          (omega arith, tt)

    pub record_call-IsWindow : IsWindow names (record_call g key)
    unfolding record_call
    record_call-IsWindow = record {
      consistent = record_call-IsConsistent g key new w.consistent;
      roomy = w.roomy;
      rising = evict-Rising g.capacity (g.seen ++ key ∷ []) (g.order ++ key ∷ []) window-Rising;
      named = evict-All _ g.capacity (g.seen ++ key ∷ []) (g.order ++ key ∷ []) window-Named;
      topped =
          evict-All _ g.capacity (g.seen ++ key ∷ []) (g.order ++ key ∷ [])
            (All-map _ _ _ (λ y (p : y.0 ≤ key.0). omega arith) window_topped);
    }

    pub record_call-contains :
        (k : ℕ × String)
        → contains k (g.order ++ key ∷ []) ≡ true
        → k.0 ≡ key.0
        → contains k (record_call g key).seen ≡ true
    unfolding record_call
    record_call-contains k m e = rw w.consistent.agree (
        evict-contains g.capacity names k (g.order ++ key ∷ []) w.roomy m window-Rising
          window-IsDistinct window-Named
          (All-map _ _ _ (λ y (p : y.0 ≤ key.0). omega arith) window_topped))
