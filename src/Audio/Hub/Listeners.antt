-- ===== src/Audio/Hub/Listeners.antt =====
-- custom_components/doorfast/audio.py, the table of listeners of `AudioListenerHub`.
use doorfastforha.Prelude.{
  ℕ, suc, ◌≤◌, ◌<◌, ◌≡◌, ◌≢◌, refl, String, true, List, [], ◌∷◌, none, some, length, arith, All,
  All-map, Bool-cases, inl, inr, string_eq, lookup, insert, delete, str_eq, if_cases, subst,
  All-apply, ap, sym, ◌∙◌,
}
use doorfastforha.Audio.Hub.{Listener, rewind}

abbrev pub Table : Type 0
Table = List (String × Listener)

abbrev pub Serials : (ℕ → Type 0) → Table → Type 0
Serials P = All (λ (p : String × Listener). P p.1.serial)

-- No two listeners are one object.
abbrev pub Separate : Table → Type 0
Separate [] = Unit {0}
Separate (p ∷ ps) = Serials (λ n. p.1.serial ≢ n) ps × Separate ps

pub lookup-All {κ} :
    (P : String × Listener → Type κ) (id : String) (l : Listener) (t : Table)
    → lookup id t ≡ some l
    → All P t
    → (j : String) × P (j, l)
lookup-All P id l [] e a = cc
lookup-All P id l ((j, x) ∷ t) e a = elim (Bool-cases (str_eq j id)) [
  | inl same ↦ (j, subst (λ y. P (j, y)) (ground arith) a.0)
  | inr other ↦ lookup-All P id l t (ground arith) a.1
]

module _ {κ} (P : String × Listener → Type κ) where
  pub delete-All : (id : String) (t : Table) → All P t → All P (delete id t)
  delete-All id [] a = tt
  delete-All id (p ∷ t) a =
      if_cases (All P) (str_eq p.0 id) (λ _. delete-All id t a.1) (λ _. (a.0, delete-All id t a.1))

  -- The replaced entry is the one that was found; all others keep their serials apart from it.
  pub insert-All :
      (id : String) (l l' : Listener) (t : Table)
      → lookup id t ≡ some l
      → Separate t
      → ((j : String) → P (j, l'))
      → All (λ p. p.1.serial ≢ l.serial → P p) t
      → All P (insert id l' t)
  insert-All id l l' [] e s h a = cc
  insert-All id l l' ((j, x) ∷ t) e s h a = elim (Bool-cases (str_eq j id)) [
    | inl same ↦
        let same_x : x ≡ l = ground arith in
        rw same (
          h j,
          All-apply (λ (p : String × Listener). p.1.serial ≢ l.serial) P t a.1
              (All-map _ _ t
                (λ p (ne : x.serial ≢ p.1.serial) eq.
                  ne (ap (λ (y : Listener). y.serial) same_x ∙ sym eq))
                s.0),
        )
    | inr other ↦
        let found : lookup id t ≡ some l = ground arith in
        let (_, ne) = lookup-All (λ p. x.serial ≢ p.1.serial) id l t found s.0 in
        rw other (a.0 ne, insert-All id l l' t found s.1 h a.1)
  ]

  -- An added entry comes to all the others.
  pub insert_new-All :
      (id : String) (l' : Listener) (t : Table)
      → lookup id t ≡ none
      → P (id, l')
      → All P t
      → All P (insert id l' t)
  insert_new-All id l' [] e h a = (h, tt)
  insert_new-All id l' ((j, x) ∷ t) e h a = elim (Bool-cases (str_eq j id)) [
    | inl same ↦ ground arith
    | inr other ↦ rw other (a.0, insert_new-All id l' t (ground arith) h a.1)
  ]

pub delete-Separate : (id : String) (t : Table) → Separate t → Separate (delete id t)
delete-Separate id [] s = tt
delete-Separate id (p ∷ t) s =
    if_cases Separate (str_eq p.0 id) (λ _. delete-Separate id t s.1)
      (λ _. (delete-All (λ q. p.1.serial ≢ q.1.serial) id t s.0, delete-Separate id t s.1))

pub insert-Separate :
    (id : String) (l l' : Listener) (t : Table)
    → lookup id t ≡ some l
    → l'.serial ≡ l.serial
    → Separate t
    → Separate (insert id l' t)
insert-Separate id l l' [] e q s = cc
insert-Separate id l l' ((j, x) ∷ t) e q s = elim (Bool-cases (str_eq j id)) [
  | inl same ↦
      let same_x : x ≡ l = ground arith in
      rw same (
        All-map _ _ t
            (λ p (ne : x.serial ≢ p.1.serial) eq.
              ne (ap (λ (y : Listener). y.serial) same_x ∙ sym q ∙ eq))
            s.0,
        s.1,
      )
  | inr other ↦
      let found : lookup id t ≡ some l = ground arith in
      let (_, ne) = lookup-All (λ p. x.serial ≢ p.1.serial) id l t found s.0 in
      rw other (
        insert-All (λ p. x.serial ≢ p.1.serial) id l l' t found s.1 (λ _ eq. ne (eq ∙ q))
            (All-map _ _ t (λ p n _. n) s.0),
        insert-Separate id l l' t found q s.1,
      )
]

pub insert_new-Separate :
    (id : String) (l' : Listener) (t : Table)
    → lookup id t ≡ none
    → Serials (λ n. n < l'.serial) t
    → Separate t
    → Separate (insert id l' t)
insert_new-Separate id l' [] e f s = (tt, tt)
insert_new-Separate id l' ((j, x) ∷ t) e f s = elim (Bool-cases (str_eq j id)) [
  | inl same ↦ ground arith
  | inr other ↦ rw other (
    insert_new-All (λ p. x.serial ≢ p.1.serial) id l' t (ground arith) (λ eq. omega arith) s.0,
    insert_new-Separate id l' t (ground arith) f.1 s.1,
  )
]

pub length-insert_new :
    (id : String) (l : Listener) (t : Table)
    → lookup id t ≡ none
    → length (insert id l t) ≡ suc (length t)
length-insert_new id l [] e = refl
length-insert_new id l ((j, x) ∷ t) e = ground (arith, length-insert_new id l t)

pub length-insert :
    (id : String) (l l' : Listener) (t : Table)
    → lookup id t ≡ some l
    → length (insert id l' t) ≡ length t
length-insert id l l' [] e = cc
length-insert id l l' ((j, x) ∷ t) e = ground (arith, length-insert id l l' t)

pub length-delete-le : (id : String) (t : Table) → length (delete id t) ≤ length t
length-delete-le id [] = omega arith
length-delete-le id ((j, x) ∷ t) = ground (arith, length-delete-le id t)

pub length-rewind : (t : Table) → length (rewind t) ≡ length t
length-rewind [] = refl
length-rewind ((j, x) ∷ t) = ap suc (length-rewind t)

-- `rewind` keeps the serials.
pub rewind-All {κ μ} :
    (P : String × Listener → Type κ) (Q : String × Listener → Type μ) (t : Table)
    → ((j : String) (x : Listener)
        → P (j, x)
        → Q (j, record x { cursor = none; discontinuity = true }))
    → All P t
    → All Q (rewind t)
rewind-All P Q [] f a = tt
rewind-All P Q ((j, x) ∷ t) f a = (f j x a.0, rewind-All P Q t f a.1)

pub rewind-Separate : (t : Table) → Separate t → Separate (rewind t)
rewind-Separate [] s = tt
rewind-Separate ((j, x) ∷ t) s = (
  rewind-All (λ p. x.serial ≢ p.1.serial) (λ p. x.serial ≢ p.1.serial) t (λ j y h. h) s.0,
  rewind-Separate t s.1,
)
