-- ===== src/Pcm/Lease/Settled.antt =====
-- custom_components/doorfast/pcm.py, a submission that has an outcome.
use doorfastforha.Prelude.{
  ℕ, ◌+◌, ◌≤◌, ◌<◌, ◌≡◌, refl, String, true, false, not, [], ◌∷◌, Option, none, some, ltb, ◌==◌,
  contains, string_eq, str_eq, arith, if_cases, &&_iff, ==_iff,
}
use doorfastforha.Value.{Value, uint64_limit}
use doorfastforha.Pcm.Wire.{Reply, Common, submitting, fits, validate_success}
use doorfastforha.Pcm.{
  Answer, require, Producer, read_error, open_session, recover_identity, SubmitOutcome,
  recovered_with, reopened, refused, settled, is_session,
}
use doorfastforha.Pcm.Lease.{Leased}
use doorfastforha.Pcm.Lease.Replies.{
  Holds, bind-Holds, require-Holds, validate_success_lem, InRange, read_error-InRange,
  open_session_bound,
}
use doorfastforha.Pcm.Lease.Confirmed.{Confirmed, recover_identity-Confirmed, Confirmed-Leased}

-- What a submission that has an outcome leaves behind.
pub record Settled (p : Producer) (runtime : String) (generation frames : ℕ) (q : Producer)
    (o : SubmitOutcome) : Type 0 where
  pub same_call : Leased q runtime generation
  pub follows : q.sequence ≡ o.next_sequence
  pub within : o.accepted_frames ≤ frames
  pub all_accepted :
      o.complete ≡ true → (o.accepted_frames ≡ frames) × (o.next_sequence ≡ p.sequence + frames)

pub true_ne : false ≡ true → ⊥
true_ne e = cc

module _ (p : Producer) (runtime : String) (generation frames : ℕ)
    (l : Leased p runtime generation) where
  abbrev pub Result : Producer × SubmitOutcome → Type 0
  Result r = Settled p runtime generation frames r.0 r.1

  recovered_with-Settled :
      (n accepted : ℕ) (status : Answer Value)
      → n < uint64_limit
      → accepted ≤ frames
      → Holds Result (recovered_with (record p { sequence = n }) runtime generation status accepted)
  recovered_with-Settled n accepted status b w =
      bind-Holds (Confirmed (record p { sequence = n }) runtime generation) Result
        (recover_identity (record p { sequence = n }) runtime generation status) _
        (recover_identity-Confirmed (record p { sequence = n }) runtime generation status)
        λ q c. record {
          same_call = (Confirmed-Leased p q runtime generation n l b c).0;
          follows = refl;
          within = w;
          all_accepted = λ u. absurd (true_ne u);
        }

  reopened-Settled :
      (status : Answer Value) (reply : Answer Reply)
      → Holds Result (reopened p runtime generation status reply)
  reopened-Settled status reply =
      bind-Holds (Confirmed p runtime generation) Result
        (recover_identity p runtime generation status) _
        (recover_identity-Confirmed p runtime generation status)
        λ q c.
          bind-Holds (λ (t : String × ℕ). t.1 < uint64_limit) Result
            (open_session reply runtime generation) _ (open_session_bound reply runtime generation)
            λ t b.
              let (m, _) = Confirmed-Leased p q runtime generation p.sequence l l.bounded c in
              record {
                same_call = record {
                  running = m.running;
                  on_runtime = refl;
                  on_generation = refl;
                  token = t.0;
                  has_token = refl;
                  bounded = b;
                  station = m.station;
                  of_call = m.of_call;
                };
                follows = refl;
                within = omega arith;
                all_accepted = λ u. absurd (true_ne u);
              }

  refused-Settled :
      (http : ℕ) (status : Answer Value) (reply : Answer Reply) (r : String × Option Common)
      → InRange r
      → Holds Result (refused p runtime generation frames http status reply r)
  unfolding refused
  refused-Settled http status reply (code, none) b =
      recovered_with-Settled p.sequence 0 status l.bounded (omega arith)
  refused-Settled http status reply (code, some c) b =
      let H = Holds Result in
      if_cases H (not (is_session c runtime generation)) (λ _. tt)
        λ _.
          if_cases H (ltb frames c.accepted) (λ _. tt)
            λ few.
              if_cases H (http == 503)
                (λ _.
                  if_cases H (c.next_sequence == p.sequence + c.accepted)
                    (λ _. recovered_with-Settled c.next_sequence c.accepted status b (ground arith))
                    (λ _. tt))
                (λ _.
                  if_cases H (not (c.accepted == 0)) (λ _. tt)
                    λ _.
                      if_cases H (contains code ("sequence_duplicate" ∷ "sequence_gap" ∷ []))
                        (λ _. recovered_with-Settled c.next_sequence 0 status b (omega arith))
                        (λ _.
                          if_cases H (str_eq code "session_expired")
                            (λ _. reopened-Settled status reply) (λ _. tt)))

  pub settled-Settled :
      (answer : Reply) (status : Answer Value) (reply : Answer Reply)
      → Holds Result (settled p runtime generation frames answer status reply)
  unfolding settled
  settled-Settled answer status reply =
      let operation = submitting frames p.sequence in
      if_cases (Holds Result) (answer.status == 200)
        (λ _.
          bind-Holds
            (λ (r : String × Common).
              (r.1.next_sequence < uint64_limit)
              × ((lease : ℕ) × (fits operation lease r.0 r.1 ≡ true)))
            Result
            (require "invalid_response" (validate_success answer runtime generation operation)) _
            (require-Holds _ "invalid_response" _
              (λ r good. validate_success_lem answer runtime generation operation r.0 r.1 good))
            (λ (token, c) (b, (lease, ok)). accepted_all token c lease b ok))
        (λ _.
          bind-Holds InRange Result (read_error answer operation) _
            (read_error-InRange answer operation) (refused-Settled answer.status status reply))
    where
      accepted_all :
          (token : String) (c : Common) (lease : ℕ)
          → c.next_sequence < uint64_limit
          → fits (submitting frames p.sequence) lease token c ≡ true
          → Settled p runtime generation frames
              (record p { sequence = c.next_sequence })
              (record {
                accepted_frames = c.accepted;
                next_sequence = c.next_sequence;
                complete = true;
                recovered = false;
              })
      accepted_all token c lease b ok =
          let (_, ok1) = (&&_iff (lease == 2000) _).0 ok in
          let (_, ok2) = (&&_iff (str_eq token "") _).0 ok1 in
          let (a, n) = (&&_iff (c.accepted == frames) _).0 ok2 in
          record {
            same_call = record {
              running = l.running;
              on_runtime = l.on_runtime;
              on_generation = l.on_generation;
              token = l.token;
              has_token = l.has_token;
              bounded = b;
              station = l.station;
              of_call = l.of_call;
            };
            follows = refl;
            within = ground arith;
            all_accepted = λ _. (
              (==_iff c.accepted frames).0 a,
              (==_iff c.next_sequence (p.sequence + frames)).0 n,
            );
          }
