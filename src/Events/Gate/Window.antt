-- ===== src/Events/Gate/Window.antt =====
-- custom_components/doorfast/events.py, the bounded window of recent keys that both gates keep: a
-- set for the test and a deque for the order of eviction.
use doorfastforha.Prelude.{
  ℕ, ◌≤◌, ◌<◌, ◌≡◌, refl, true, false, List, [], ◌∷◌, ◌++◌, if◌then◌else◌, ltb, length, Eq,
  contains, arith, Bool-cases, inl, inr, All,
}

module _ {ℓ} {K : Type ℓ} ⦃e : Eq K⦄ where
  -- `set.discard(key)`.
  abbrev pub discard : K → List K → List K
  discard k [] = []
  discard k (x ∷ xs) = let rest = discard k xs in if e.beq k x then rest else x ∷ rest

  -- `while len(order) > capacity: seen.discard(order.popleft())`, as (seen, order).
  unfoldable pub evict : ℕ → List K → List K → List K × List K
  evict capacity seen [] = (seen, [])
  evict capacity seen (k ∷ order) =
      let rest = evict capacity (discard k seen) order in
      if ltb capacity (length (k ∷ order)) then rest else (seen, k ∷ order)

  -- No key stands twice.
  abbrev pub IsDistinct : List K → Type 0
  IsDistinct [] = Unit
  IsDistinct (x ∷ xs) = (contains x xs ≡ false) × IsDistinct xs

  discard_absent : (k : K) (xs : List K) → contains k xs ≡ false → discard k xs ≡ xs
  discard_absent k [] h = refl
  discard_absent k (x ∷ xs) h = ground (arith, discard_absent k xs)

  pub discard_head : (k : K) (xs : List K) → contains k xs ≡ false → discard k (k ∷ xs) ≡ xs
  discard_head k xs h = ground (arith, e.beq_iff k k, discard_absent k xs)

  pub contains-snoc :
      (k a : K) (xs : List K)
      → contains a (xs ++ k ∷ []) ≡ (if contains a xs then true else e.beq a k)
  contains-snoc k a [] = ground arith
  contains-snoc k a (x ∷ xs) = ground (arith, contains-snoc k a xs)

  -- The key that came last is still there, unless the window is empty by design.
  pub evict-contains_last :
      (capacity : ℕ) (k : K) (seen order : List K)
      → seen ≡ order ++ k ∷ []
      → IsDistinct (order ++ k ∷ [])
      → 0 < capacity
      → contains k (evict capacity seen (order ++ k ∷ [])).0 ≡ true
  unfolding evict
  evict-contains_last capacity k seen [] s d h = ground (arith, e.beq_iff k k)
  evict-contains_last capacity k seen (x ∷ order) s d h = ground (
    arith,
    contains-snoc k k (x ∷ order),
    e.beq_iff k k,
    discard_head x (order ++ k ∷ []) d.0,
    evict-contains_last capacity k (discard x seen) order,
  )

  -- Eviction keeps the two structures the same, without repetition, and within the capacity.
  pub evict-agree :
      (capacity : ℕ) (seen order : List K)
      → seen ≡ order
      → IsDistinct order
      → (let (s, o) = evict capacity seen order in (s ≡ o) × IsDistinct o × (length o ≤ capacity))
  unfolding evict
  evict-agree capacity seen [] s d = (s, tt, omega arith)
  evict-agree capacity seen (k ∷ order) s d =
      ground (arith, discard_head k order d.0, evict-agree capacity (discard k seen) order)

  pub snoc-IsDistinct :
      (k : K) (xs : List K) → contains k xs ≡ false → IsDistinct xs → IsDistinct (xs ++ k ∷ [])
  snoc-IsDistinct k [] h d = (refl, tt)
  snoc-IsDistinct k (x ∷ xs) h d =
      ground (arith, contains-snoc k x xs, e.beq_iff x k, e.beq_iff k x, snoc-IsDistinct k xs)

  pub evict-All {κ} :
      (P : K → Type κ) (capacity : ℕ) (seen order : List K)
      → All P order
      → All P (evict capacity seen order).1
  unfolding evict
  evict-All P capacity seen [] h = tt
  evict-All P capacity seen (k ∷ order) h = elim (Bool-cases (ltb capacity (length (k ∷ order)))) [
    | inl over ↦ rw over (evict-All P capacity (discard k seen) order h.1)
    | inr fits ↦ rw fits h
  ]

  contains-discard :
      (a k : K) (xs : List K)
      → contains a (discard k xs) ≡ (if e.beq k a then false else contains a xs)
  contains-discard a k [] = ground arith
  contains-discard a k (x ∷ xs) =
      ground (arith, contains-discard a k xs, e.beq_iff k x, e.beq_iff a x, e.beq_iff k a)

  length-discard-le : (k : K) (xs : List K) → length (discard k xs) ≤ length xs
  length-discard-le k [] = omega arith
  length-discard-le k (x ∷ xs) = ground (arith, length-discard-le k xs)

  length-discard-lt :
      (k : K) (xs : List K) → contains k xs ≡ true → length (discard k xs) < length xs
  length-discard-lt k [] h = cc
  length-discard-lt k (x ∷ xs) h = ground (arith, length-discard-lt k xs, length-discard-le k xs)

  abbrev pub AllIn : List K → List K → Type 0
  AllIn xs names = All (λ x. contains x names ≡ true) xs

  AllIn-discard :
      (k : K) (xs names : List K)
      → contains k xs ≡ false
      → AllIn xs names
      → AllIn xs (discard k names)
  AllIn-discard k [] names new h = tt
  AllIn-discard k (x ∷ xs) names new h = (
    rw contains-discard (ground (arith, h.0, e.beq_iff k x)),
    AllIn-discard k xs names (ground arith) h.1,
  )

  -- The pigeonhole principle: distinct values out of a list are no more than the list.
  pub length-le_of_AllIn :
      (xs names : List K) → IsDistinct xs → AllIn xs names → length xs ≤ length names
  length-le_of_AllIn [] names d h = omega arith
  length-le_of_AllIn (x ∷ xs) names d h = omega (
    arith,
    length-discard-lt x names h.0,
    length-le_of_AllIn xs (discard x names) d.1 (AllIn-discard x xs names d.0 h.1),
  )
