-- ===== src/Client/Unlocks/Fenced.antt =====
-- custom_components/doorfast/client.py, `_fence_unlock_status`: the record of a station behind
-- the fence, beside the one that was there and the one that was read.
use doorfastforha.Prelude.{
  ◌≡◌, refl, ap, ◌∙◌, String, true, false, ◌&&◌, ℕ, List, [], ◌∷◌, some, str_eq, eq_iff, arith,
  if_cases, inl, inr, ◌⊎◌, ==_iff, string_eq, ltb, ◌≤◌, Bool-cases, subst, sym,
}
use doorfastforha.Value.{Value, codes, dict, Fields, get, has}
use doorfastforha.Value.Put.{get-put}
use doorfastforha.Access.{station_unlock_record}
use doorfastforha.Client.Unlocks.{
  unlock_record_is_newer, request_of, lex_lt, text_of, station_of, later_record, fence_record,
  with_latency, text_lt, phase_order,
}

lex_irrefl : (xs : List ℕ) → lex_lt xs xs ≡ false
lex_irrefl [] = refl
lex_irrefl (x ∷ xs) = ground (arith, lex_irrefl xs)

lex_asym : (xs ys : List ℕ) → lex_lt xs ys ≡ true → lex_lt ys xs ≡ false
lex_asym [] [] h = refl
lex_asym [] (y ∷ ys) h = refl
lex_asym (x ∷ xs) [] h = ground arith
lex_asym (x ∷ xs) (y ∷ ys) h = ground (arith, h, ==_iff x y, ==_iff y x, lex_asym xs ys)

newer_irrefl : (p : Fields) → unlock_record_is_newer p p ≡ false
unfolding unlock_record_is_newer
newer_irrefl p = ground (arith, eq_iff (request_of p) (request_of p))

newer_asym : (p q : Fields) → unlock_record_is_newer p q ≡ true → unlock_record_is_newer q p ≡ false
unfolding unlock_record_is_newer
newer_asym p q h = ground (
  arith,
  eq_iff (request_of p) (request_of q),
  eq_iff (request_of q) (request_of p),
  lex_asym (codes (request_of p)) (codes (request_of q)),
)

request_of-with_latency : (v : Value) (d : Fields) → request_of (with_latency v d) ≡ request_of d
request_of-with_latency v d = ap text_of (get-put "request_to_acceptance_ms" "request_id" v d)

newer-with_latency :
    (p : Fields) (v : Value) (d : Fields)
    → unlock_record_is_newer p (with_latency v d) ≡ unlock_record_is_newer p d
unfolding unlock_record_is_newer
newer-with_latency p v d =
    rw (request_of-with_latency v d) (rw (get-put "request_to_acceptance_ms" "phase" v d) refl)

-- The second record is of no earlier request than the first, and of the same request it is at no
-- earlier phase.
abbrev pub NotBefore : Fields → Fields → Type 0
NotBefore p q =
    (text_lt (request_of q) (request_of p) ≡ false)
    × (request_of q ≡ request_of p → phase_order p ≤ phase_order q)

NotBefore-newer : (p q : Fields) → unlock_record_is_newer p q ≡ false → NotBefore p q
unfolding unlock_record_is_newer
NotBefore-newer p q h = elim (Bool-cases (str_eq (request_of p) (request_of q))) [
  | inl same ↦
      let at = (eq_iff (request_of p) (request_of q)).0 same in
      (
        subst (λ s. text_lt (request_of q) s ≡ false) (sym at) (lex_irrefl (codes (request_of q))),
        λ _. reached (phase_order p) (phase_order q) (rw same at h),
      )
  | inr other ↦ (rw other at h, λ at. absurd (ground (arith, eq_iff (request_of p) (request_of q))))
]
  where
    reached : (m n : ℕ) → ltb n m ≡ false → m ≤ n
    reached m n k = ground arith

-- At least as late as two records, and of a request of one of them.
pub record IsLatest (p row q : Fields) : Type 0 where
  pub not_earlier : NotBefore p q
  pub not_outdated : NotBefore row q
  pub request : (request_of q ≡ request_of p) ⊎ (request_of q ≡ request_of row)

IsLatest-self : (p row : Fields) → unlock_record_is_newer p row ≡ false → IsLatest p row row
IsLatest-self p row later = record {
  not_earlier = NotBefore-newer p row later;
  not_outdated = NotBefore-newer row row (newer_irrefl row);
  request = inr refl;
}

IsLatest-with_latency :
    (p row : Fields) (v : Value)
    → unlock_record_is_newer p row ≡ false
    → IsLatest p row (with_latency v row)
IsLatest-with_latency p row v later = record {
  not_earlier = NotBefore-newer p (with_latency v row) (newer-with_latency p v row ∙ later);
  not_outdated =
      NotBefore-newer row (with_latency v row) (newer-with_latency row v row ∙ newer_irrefl row);
  request = inr (request_of-with_latency v row);
}

later_record-IsLatest :
    (p row : Fields) → (q : Fields) × (later_record (dict row) row p ≡ dict q) × IsLatest p row q
unfolding later_record
later_record-IsLatest p row =
    if_cases (λ v. (q : Fields) × (v ≡ dict q) × IsLatest p row q) (unlock_record_is_newer p row)
      (λ newer. (
        p,
        refl,
        record {
          not_earlier = NotBefore-newer p p (newer_irrefl p);
          not_outdated = NotBefore-newer row p (newer_asym p row newer);
          request = inl refl;
        },
      ))
      (λ later.
        if_cases (λ v. (q : Fields) × (v ≡ dict q) × IsLatest p row q)
          (str_eq (request_of row) (request_of p) && has p "request_to_acceptance_ms")
          (λ same. (
            with_latency (get p "request_to_acceptance_ms") row,
            refl,
            IsLatest-with_latency p row (get p "request_to_acceptance_ms") later,
          ))
          (λ other. (row, refl, IsLatest-self p row later)))

-- A row that is its station's unlock record, of a station with a previous record, is fenced to a
-- record of the request of one of them, whose request is in the order of texts before that of neither,
-- and whose phase is before that of neither as far as they are of its request.
pub fence_record-IsLatest :
    (previous status row p : Fields) (station : String)
    → station_of (dict row) ≡ some station
    → station_unlock_record status station ≡ some row
    → station_unlock_record previous station ≡ some p
    → (q : Fields) × (fence_record previous status (dict row) ≡ dict q) × IsLatest p row q
unfolding fence_record
fence_record-IsLatest previous status row p station owner recorded before =
    rw (owner, recorded, before, fence_record) (later_record-IsLatest p row)
