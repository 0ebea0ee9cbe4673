-- ===== src/Pcm/Lease/Replies.antt =====
-- custom_components/doorfast/pcm.py, what the readings of replies bound.
use doorfastforha.Prelude.{
  ℕ, ◌<◌, ◌≡◌, refl, String, true, ◌&&◌, not, Option, none, some, ltb, leb, ◌==◌, contains,
  string_eq, arith, if_cases, inl, inr, Option-cases, >>=-eq-some, >>-eq-some, some_inj, &&_iff, ap,
  subst, any, all,
}
use doorfastforha.Value.{Value, Fields, as_nat, as_dict, get, as_text, uint64_limit, codes, has}
use doorfastforha.ClientTypes.{uint64, is_runtime_id}
use doorfastforha.Pcm.Wire.{
  Reply, Common, Operation, opening, fits, common_payload, validate_success, validate_error,
  route_errors, identity_fields,
}
use doorfastforha.Pcm.{
  Answer, value, raised, ◌>>=◌, require, read_error, open_refused, open_session, is_session,
}

-- A property of the value, if there is one.
abbrev pub Holds : {A : Type 0} → (A → Type 0) → Answer A → Type 0
Holds P (value a) = P a
Holds P (raised e) = Unit {0}

pub bind-Holds :
    {A B : Type 0} (P : A → Type 0) (Q : B → Type 0) (m : Answer A) (f : A → Answer B)
    → Holds P m
    → ((a : A) → P a → Holds Q (f a))
    → Holds Q (m >>= f)
bind-Holds P Q (value a) f h k = k a h
bind-Holds P Q (raised e) f h k = tt

pub require-Holds :
    {A : Type 0} (P : A → Type 0) (code : String) (o : Option A)
    → ((a : A) → o ≡ some a → P a)
    → Holds P (require code o)
require-Holds P code none h = tt
require-Holds P code (some a) h = h a refl

pub any-Holds : {A : Type 0} (m : Answer A) → Holds (λ _. Unit {0}) m
any-Holds (value a) = tt
any-Holds (raised e) = tt

uint64_bound : (m : ℕ) (v : Value) (n : ℕ) → uint64 m v ≡ some n → n < uint64_limit
unfolding uint64
uint64_bound m v n h =
    let (k, _, h1) = >>=-eq-some (as_nat v) _ h in
    let (t, h2) = >>-eq-some (leb m k && ltb k uint64_limit) (some k) h1 in
    let same : k ≡ n = some_inj h2 in
    let below : ltb k uint64_limit ≡ true = ((&&_iff (leb m k) _).0 t).1 in ground arith

common_payload_bound :
    (d : Fields) (c : Common) → common_payload d ≡ some c → c.next_sequence < uint64_limit
unfolding common_payload
common_payload_bound d c h =
    let (r, _, h1) = >>=-eq-some (as_text (get d "runtime_id")) _ h in
    let (_, h2) = >>-eq-some (is_runtime_id (codes r)) _ h1 in
    let (g, _, h3) = >>=-eq-some (uint64 0 (get d "generation")) _ h2 in
    let (a, _, h4) = >>=-eq-some (uint64 0 (get d "accepted_frames")) _ h3 in
    let (n, is_n, h5) = >>=-eq-some (uint64 0 (get d "next_sequence")) _ h4 in
    subst (λ k. k < uint64_limit) (ap (λ (x : Common). x.next_sequence) (some_inj h5))
      (uint64_bound 0 (get d "next_sequence") n is_n)

pub validate_success_lem :
    (reply : Reply) (runtime : String) (generation : ℕ) (operation : Operation) (token : String)
    (c : Common)
    → validate_success reply runtime generation operation ≡ some (token, c)
    → (c.next_sequence < uint64_limit) × ((lease : ℕ) × (fits operation lease token c ≡ true))
unfolding validate_success
validate_success_lem reply runtime generation operation token c h =
    let (_, h1) = >>-eq-some (reply.status == 200) _ h in
    let (d, _, h2) = >>=-eq-some (as_dict reply.payload) _ h1 in
    let (e, is_e, h3) = >>=-eq-some (common_payload d) _ h2 in
    let (lease, _, h4) = >>=-eq-some (uint64 0 (get d "lease_ms")) _ h3 in
    let (t, _, h5) = >>=-eq-some (as_text (get d "audio_session")) _ h4 in
    let (_, h6) = >>-eq-some _ _ h5 in
    let (ok, h7) = >>-eq-some (fits operation lease t e) (some (t, e)) h6 in
    let same : (t, e) ≡ (token, c) = some_inj h7 in
    (
      subst (λ (p : String × Common). p.1.next_sequence < uint64_limit) same
          (common_payload_bound d e is_e),
      (lease, subst (λ (p : String × Common). fits operation lease p.0 p.1 ≡ true) same ok),
    )

-- The sequence in an error reply is in range.
abbrev pub InRange : String × Option Common → Type 0
InRange (code, none) = Unit {0}
InRange (code, some c) = c.next_sequence < uint64_limit

validate_error-InRange :
    (reply : Reply) (operation : Operation) (r : String × Option Common)
    → validate_error reply operation ≡ some r
    → InRange r
unfolding validate_error
validate_error-InRange reply operation r h =
    let (allowed, _, h1) = >>=-eq-some (route_errors operation reply.status) _ h in
    let (d, _, h2) = >>=-eq-some (as_dict reply.payload) _ h1 in
    let (code, _, h3) = >>=-eq-some (as_text (get d "error")) _ h2 in
    let (_, h4) = >>-eq-some (contains code allowed && not (has d "status")) _ h3 in
    if_cases (λ o. o ≡ some r → InRange r) (any (has d) identity_fields)
      (λ _ h5.
        let (c, is_c, h6) = >>=-eq-some _ _ h5 in
        let (_, h7) = >>-eq-some (all (has d) identity_fields) (common_payload d) is_c in
        subst InRange (some_inj h6) (common_payload_bound d c h7))
      (λ _ h5. let (_, h6) = >>-eq-some _ (some (code, none)) h5 in subst InRange (some_inj h6) tt)
      h4

pub read_error-InRange :
    (reply : Reply) (operation : Operation) → Holds InRange (read_error reply operation)
unfolding read_error
read_error-InRange reply operation = elim (Option-cases (validate_error reply operation)) [
  | inl bad ↦ rw (bad, Holds) tt
  | inr (r, good) ↦ rw (good, Holds) (validate_error-InRange reply operation r good)
]

-- A session that opens begins in range.
pub open_session_bound :
    (answer : Answer Reply) (runtime : String) (generation : ℕ)
    → Holds (λ (p : String × ℕ). p.1 < uint64_limit) (open_session answer runtime generation)
unfolding open_session
open_session_bound answer runtime generation =
    bind-Holds (λ _. Unit {0}) _ answer _ (any-Holds answer)
      λ reply _.
        if_cases (Holds (λ (p : String × ℕ). p.1 < uint64_limit)) (reply.status == 200)
          (λ _.
            bind-Holds (λ (p : String × Common). p.1.next_sequence < uint64_limit) _
              (require "invalid_response" (validate_success reply runtime generation opening)) _
              (require-Holds _ "invalid_response" _
                λ r good. (validate_success_lem reply runtime generation opening r.0 r.1 good).0)
              (λ r b. b))
          (λ _.
            bind-Holds (λ _. Unit {0}) _ (read_error reply opening) _ (any-Holds _)
              (λ r _. never r))
  where
    never :
        (r : String × Option Common)
        → Holds (λ (p : String × ℕ). p.1 < uint64_limit) (open_refused runtime generation r)
    never (code, none) = tt
    never (code, some c) =
        if_cases (Holds (λ (p : String × ℕ). p.1 < uint64_limit)) (is_session c runtime generation)
          (λ _. tt) (λ _. tt)
