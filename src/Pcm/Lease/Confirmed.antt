-- ===== src/Pcm/Lease/Confirmed.antt =====
-- custom_components/doorfast/pcm.py, the recovery of the identity by the status.
use doorfastforha.Prelude.{
  ℕ, ◌<◌, ◌≡◌, refl, String, ◌&&◌, Option, some, ◌==◌, string_eq, str_eq, if_cases, &&_iff, ==_iff,
  eq_iff, sym, ap, subst,
}
use doorfastforha.Value.{Value, uint64_limit}
use doorfastforha.Pcm.{Answer, Producer, clear, fresh_identity, recover_identity}
use doorfastforha.Pcm.Lease.{Idle, Leased}
use doorfastforha.Pcm.Lease.Replies.{Holds, bind-Holds, any-Holds}

-- The producer with the call, confirmed.
abbrev pub Confirmed : Producer → String → ℕ → Producer → Type 0
Confirmed p runtime generation q =
    (station : Option String) × (q
      ≡ record p { call_identity = some (runtime, station, generation) })

pub recover_identity-Confirmed :
    (p : Producer) (runtime : String) (generation : ℕ) (status : Answer Value)
    → Holds (Confirmed p runtime generation) (recover_identity p runtime generation status)
unfolding recover_identity
recover_identity-Confirmed p runtime generation status =
    bind-Holds (λ _. Unit {0}) _ (fresh_identity p status) _ (any-Holds _)
      λ i _.
        if_cases (Holds (Confirmed p runtime generation)) (str_eq i.0 runtime && i.2 == generation)
          (λ same.
            let (r, g) = (&&_iff (str_eq i.0 runtime) _).0 same in
            (
              i.1,
              ap (λ (j : String × ℕ). record p { call_identity = some (j.0, i.1, j.1) })
                  (pair_eq ((eq_iff i.0 runtime).0 r) ((==_iff i.2 generation).0 g)),
            ))
          (λ _. tt)
  where
    pair_eq : {r s : String} {g h : ℕ} → r ≡ s → g ≡ h → ◌≡◌ {A = String × ℕ} (r, g) (s, h)
    pair_eq e f = cc

pub clear-Idle : (p : Producer) → Idle (clear p)
unfolding clear
clear-Idle p = record {
  at_rest = refl;
  no_runtime = refl;
  no_generation = refl;
  no_token = refl;
  no_sequence = refl;
  no_call = refl;
}

-- A confirmed call, at any sequence in range, keeps the lease.
pub Confirmed-Leased :
    (p q : Producer) (runtime : String) (generation n : ℕ)
    → Leased p runtime generation
    → n < uint64_limit
    → Confirmed (record p { sequence = n }) runtime generation q
    → Leased q runtime generation × (q.sequence ≡ n)
Confirmed-Leased p q runtime generation n l b (station, e) =
    subst (λ x. Leased x runtime generation × (x.sequence ≡ n)) (sym e)
      (
        record {
          running = l.running;
          on_runtime = l.on_runtime;
          on_generation = l.on_generation;
          token = l.token;
          has_token = l.has_token;
          bounded = b;
          station = station;
          of_call = refl;
        },
        refl,
      )
