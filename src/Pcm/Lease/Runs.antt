-- ===== src/Pcm/Lease/Runs.antt =====
-- custom_components/doorfast/pcm.py, the operations one after another.
use doorfastforha.Prelude.{
  ℕ, ◌<◌, ◌≡◌, refl, String, not, List, [], ◌∷◌, Option, string_eq, if_cases, inl, inr,
  Option-cases, sym, ◌∙◌, ap, subst,
}
use doorfastforha.Value.{Value, uint64_limit}
use doorfastforha.Pcm.Wire.{Reply}
use doorfastforha.Pcm.{
  Answer, value, raised, idle, is_active, Producer, create, fresh_identity, open_session, or_clear,
  started, start, SubmitOutcome, held, is_batch, submit, stop,
}
use doorfastforha.Pcm.Lease.{Leased, IsValid, rests, leases}
use doorfastforha.Pcm.Lease.Replies.{Holds, bind-Holds, any-Holds, open_session_bound}
use doorfastforha.Pcm.Lease.Confirmed.{clear-Idle}
use doorfastforha.Pcm.Lease.Settled.{true_ne}
use doorfastforha.Pcm.Lease.Submit.{Submitted, submit-Submitted, untouched, dropped, kept, done}

-- The operations, with what their awaits come to.
pub data Op : Type 0 where
  starts : Answer Value → Answer Reply → Op
  submits : List (List ℕ) → Answer Reply → Answer Value → Answer Reply → Op
  stops : Answer Reply → Op

unfoldable pub step : Producer → Op → Producer
step p (starts status reply) = (start p status reply).0
step p (submits frames answer status reply) = (submit p frames answer status reply).0
step p (stops answer) = (stop p answer).0

unfoldable pub steps : Producer → List Op → Producer
steps p [] = p
steps p (op ∷ ops) = steps (step p op) ops

Submitted-IsValid :
    (p : Producer) (runtime : String) (generation : ℕ) (frames : List (List ℕ))
    (r : Producer × Answer SubmitOutcome)
    → Leased p runtime generation
    → Submitted p runtime generation frames r
    → IsValid r.0
Submitted-IsValid p runtime generation frames _ l (untouched e why) = leases runtime generation l
Submitted-IsValid p runtime generation frames _ l (dropped q e i) = rests i
Submitted-IsValid p runtime generation frames _ l (kept q m e) = leases runtime generation m
Submitted-IsValid p runtime generation frames _ l (done q o s) =
    leases runtime generation s.same_call

submit-idle :
    (p : Producer) (frames : List (List ℕ)) (answer : Answer Reply) (status : Answer Value)
    (reply : Answer Reply)
    → p.state ≡ idle
    → (submit p frames answer status reply).0 ≡ p
unfolding submit
submit-idle p frames answer status reply rest =
    let P : Producer × Answer SubmitOutcome → Type 0 = λ r. r.0 ≡ p in
    if_cases P (not (is_batch frames)) (λ _. refl)
      λ _.
        if_cases P (not (is_active p.state)) (λ _. refl)
          (λ on. absurd (true_ne (sym on ∙ ap (λ s. not (is_active s)) rest)))

start-IsValid :
    (p : Producer) (status : Answer Value) (reply : Answer Reply)
    → IsValid p
    → IsValid (start p status reply).0
unfolding start
start-IsValid p status reply i =
    if_cases (λ (r : Producer × Answer (Unit {0})). IsValid r.0) (is_active p.state) (λ _. i)
      λ _. finished (started p status reply) (
        bind-Holds (λ _. Unit {0}) _ (fresh_identity p status) _ (any-Holds _)
          λ c _.
            bind-Holds (λ (t : String × ℕ). t.1 < uint64_limit) (λ s. IsValid s.0)
              (open_session reply c.0 c.2) _ (open_session_bound reply c.0 c.2)
              λ t b. leases c.0 c.2 (record {
                running = refl;
                on_runtime = refl;
                on_generation = refl;
                token = t.0;
                has_token = refl;
                bounded = b;
                station = c.1;
                of_call = refl;
              }))
  where
    finished :
        (r : Answer (Producer × Unit {0})) → Holds (λ s. IsValid s.0) r → IsValid (or_clear p r).0
    finished (value (q, u)) h = h
    finished (raised e) h = rests (clear-Idle p)

stop-IsValid : (p : Producer) (answer : Answer Reply) → IsValid p → IsValid (stop p answer).0
unfolding stop
stop-IsValid p answer i =
    let P : Producer × Answer (Unit {0}) → Type 0 = λ r. IsValid r.0 in
    if_cases P (is_active p.state)
      (λ _. elim (Option-cases (held p)) [
        | inl no_lease ↦ rw no_lease (rests (clear-Idle p))
        | inr (s, lease) ↦ rw lease (rests (clear-Idle p))
      ])
      (λ _. i)

step-IsValid : (p : Producer) (op : Op) → IsValid p → IsValid (step p op)
unfolding step
step-IsValid p (starts status reply) i = start-IsValid p status reply i
step-IsValid p (submits frames answer status reply) (rests r) =
    subst IsValid (sym (submit-idle p frames answer status reply r.at_rest)) (rests r)
step-IsValid p (submits frames answer status reply) (leases runtime generation l) =
    Submitted-IsValid p runtime generation frames _ l
      (submit-Submitted p runtime generation frames answer status reply l)
step-IsValid p (stops answer) i = stop-IsValid p answer i

steps-IsValid_from : (p : Producer) (ops : List Op) → IsValid p → IsValid (steps p ops)
unfolding steps
steps-IsValid_from p [] i = i
steps-IsValid_from p (op ∷ ops) i = steps-IsValid_from (step p op) ops (step-IsValid p op i)

-- After any operations, with any replies, failures and cancellations, the producer either keeps no
-- private data, or holds one session bound to the validated call, at a sequence below 2^64.
pub steps-IsValid :
    (station : Option String) (generation : Option ℕ) (runtime : Option String) (ops : List Op)
    → IsValid (steps (create station generation runtime) ops)
unfolding create
steps-IsValid station generation runtime ops = steps-IsValid_from _ ops (
    rests (record {
      at_rest = refl;
      no_runtime = refl;
      no_generation = refl;
      no_token = refl;
      no_sequence = refl;
      no_call = refl;
    }))
