-- ===== src/Pcm/Lease/Submit.antt =====
-- custom_components/doorfast/pcm.py, what `submit` leaves behind.
use doorfastforha.Prelude.{
  ℕ, ◌+◌, ◌≡◌, refl, String, not, List, none, some, if◌then◌else◌, leb, string_eq, length, if_cases,
  sym, subst, All, all, ◌≤◌, [], ◌∷◌, true, arith, ◌==◌,
}
use doorfastforha.Value.{Value, uint64_limit}
use doorfastforha.Pcm.Wire.{Reply}
use doorfastforha.Pcm.{
  active, State, Raised, error, failed, cancelled, Answer, value, raised, is_active, Producer,
  clear, or_clear, recover_identity, SubmitOutcome, lost, answered, held, is_batch, submit,
}
use doorfastforha.Pcm.Lease.{Idle, Leased}
use doorfastforha.Pcm.Lease.Replies.{Holds}
use doorfastforha.Pcm.Lease.Confirmed.{
  Confirmed, recover_identity-Confirmed, clear-Idle, Confirmed-Leased,
}
use doorfastforha.Pcm.Lease.Settled.{Settled, settled-Settled}

-- One to five frames of 320 bytes each.
abbrev pub IsBatch : List (List ℕ) → Type 0
IsBatch frames = (1 ≤ length frames) × (length frames ≤ 5) × All (λ f. length f ≡ 320) frames

-- Why a submission is refused before anything is sent: by the arguments or by the range alone.
pub data Refused (p : Producer) (frames : List (List ℕ)) : Raised → Type 0 where
  malformed : ¬ (IsBatch frames) → Refused p frames failed
  out_of_range :
      IsBatch frames
      → uint64_limit ≤ p.sequence + length frames
      → Refused p frames (error "sequence_overflow")

-- What `submit` leaves behind, for a producer with the lease.
pub data Submitted (p : Producer) (runtime : String) (generation : ℕ) (frames : List (List ℕ))
    : Producer × Answer SubmitOutcome → Type 0 where
  -- Nothing is sent, whatever the bridge would answer.
  untouched :
      (e : Raised) → Refused p frames e → Submitted p runtime generation frames (p, raised e)
  -- The lease is dropped with the error.
  dropped :
      (q : Producer) (e : Raised) → Idle q → Submitted p runtime generation frames (q, raised e)
  -- The reply was lost: the lease stands at the same sequence.
  kept :
      (q : Producer)
      → Leased q runtime generation
      → q.sequence ≡ p.sequence
      → Submitted p runtime generation frames (q, raised (error "response_lost"))
  done :
      (q : Producer) (o : SubmitOutcome)
      → Settled p runtime generation (length frames) q o
      → Submitted p runtime generation frames (q, value o)

all-All :
    (frames : List (List ℕ))
    → All (λ f. length f ≡ 320) frames
    → all (λ f. length f == 320) frames ≡ true
all-All [] a = refl
all-All (f ∷ fs) a = let rest = all-All fs a.1 in ground (arith, a.0, rest)

All-all :
    (frames : List (List ℕ))
    → all (λ f. length f == 320) frames ≡ true
    → All (λ f. length f ≡ 320) frames
All-all [] h = tt
All-all (f ∷ fs) h = (ground arith, All-all fs (ground arith))

is_batch-IsBatch : (frames : List (List ℕ)) → is_batch frames ≡ true → IsBatch frames
is_batch-IsBatch frames h = (ground arith, ground arith, All-all frames (ground arith))

IsBatch-is_batch : (frames : List (List ℕ)) → IsBatch frames → is_batch frames ≡ true
IsBatch-is_batch frames (low, high, sizes) = let each = all-All frames sizes in ground arith

module _ (p : Producer) (runtime : String) (generation : ℕ) (frames : List (List ℕ))
    (l : Leased p runtime generation) where
  or_clear-Submitted :
      (r : Answer (Producer × SubmitOutcome))
      → Holds (λ s. Settled p runtime generation (length frames) s.0 s.1) r
      → Submitted p runtime generation frames (or_clear p r)
  or_clear-Submitted (value (q, o)) h = done q o h
  or_clear-Submitted (raised e) h = dropped (clear p) e (clear-Idle p)

  lost-Submitted :
      (status : Answer Value)
      → Submitted p runtime generation frames (lost p runtime generation status)
  unfolding lost
  lost-Submitted status =
      confirmed (recover_identity p runtime generation status)
        (recover_identity-Confirmed p runtime generation status)
    where
      confirmed :
          (a : Answer Producer)
          → Holds (Confirmed p runtime generation) a
          → Submitted p runtime generation frames (elim a [
            | value q ↦ (q, raised (error "response_lost"))
            | raised e ↦ (clear p, raised e)
          ])
      confirmed (value q) c =
          let (m, e) = Confirmed-Leased p q runtime generation p.sequence l l.bounded c in
          kept q m e
      confirmed (raised e) c = dropped (clear p) e (clear-Idle p)

  answered-Submitted :
      (answer : Answer Reply) (status : Answer Value) (reply : Answer Reply)
      → Submitted p runtime generation frames
          (answered p runtime generation (length frames) answer status reply)
  answered-Submitted (value r) status reply =
      or_clear-Submitted _ (settled-Settled p runtime generation (length frames) l r status reply)
  answered-Submitted (raised cancelled) status reply = dropped (clear p) cancelled (clear-Idle p)
  answered-Submitted (raised failed) status reply = lost-Submitted status
  answered-Submitted (raised (error code)) status reply = lost-Submitted status

active-idle : (s : State) → s ≡ active → not (is_active s) ≡ true → ⊥
active-idle s e h = cc

held-Leased :
    (p : Producer) (runtime : String) (generation : ℕ) (l : Leased p runtime generation)
    → held p ≡ some (runtime, generation, l.token)
held-Leased p runtime generation l = rw (l.on_runtime, l.on_generation, l.has_token) refl

-- A submission by a producer with a lease, whatever the bridge answers, leaves the producer as it is
-- only if the frames are not one to five of 320 bytes, or would take the sequence to 2^64; else it drops
-- all private data, keeps the lease at its sequence after a lost reply, or has an outcome whose sequence
-- the producer then holds for the same call.
pub submit-Submitted :
    (p : Producer) (runtime : String) (generation : ℕ) (frames : List (List ℕ))
    (answer : Answer Reply) (status : Answer Value) (reply : Answer Reply)
    → Leased p runtime generation
    → Submitted p runtime generation frames (submit p frames answer status reply)
unfolding submit
submit-Submitted p runtime generation frames answer status reply l =
    let S = Submitted p runtime generation frames in
    if_cases S (not (is_batch frames))
      (λ bad.
        untouched failed (malformed λ good. let yes = IsBatch-is_batch frames good in ground arith))
      λ good.
        let batch = is_batch-IsBatch frames (ground arith) in
        if_cases S (not (is_active p.state)) (λ idle. absurd (active-idle p.state l.running idle))
          λ _.
            subst
              (λ o. S (elim o [
                | none ↦ (p, raised (error "not_active"))
                | some (r, g, t) ↦
                    if leb uint64_limit (p.sequence + length frames)
                    then (p, raised (error "sequence_overflow"))
                    else answered p r g (length frames) answer status reply
              ]))
              (sym (held-Leased p runtime generation l))
              (if_cases S (leb uint64_limit (p.sequence + length frames))
                (λ over. untouched (error "sequence_overflow") (out_of_range batch (ground arith)))
                (λ _. answered-Submitted p runtime generation frames l answer status reply))
