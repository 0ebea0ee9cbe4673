-- ===== src/Pcm/Lease.antt =====
-- custom_components/doorfast/pcm.py, what holds of a `PcmProducer` between its operations.
pub mod Replies
pub mod Confirmed
pub mod Settled
pub mod Submit
pub mod Runs
use doorfastforha.Prelude.{
  ℕ, ◌+◌, ◌≤◌, ◌<◌, ◌≡◌, refl, String, true, false, ◌&&◌, not, List, [], ◌∷◌, Option, none, some,
  if◌then◌else◌, ltb, leb, ◌==◌, contains, string_eq, length, str_eq, arith, if_cases, inl, inr,
  Option-cases, >>=-eq-some, >>-eq-some, some_inj, &&_iff, ==_iff, eq_iff, sym, ◌∙◌, ap, subst, any,
  all,
}
use doorfastforha.Value.{Value, Fields, as_nat, as_dict, get, as_text, uint64_limit, codes, has}
use doorfastforha.ClientTypes.{uint64, is_runtime_id}
use doorfastforha.Pcm.Wire.{
  Reply, Common, Operation, opening, submitting, fits, common_payload, validate_success,
  validate_error, route_errors, identity_fields,
}
use doorfastforha.Pcm.{
  Raised, error, failed, cancelled, Answer, value, raised, ◌>>=◌, require, idle, active, is_active,
  Producer, create, clear, fresh_identity, read_error, open_refused, open_session, or_clear,
  started, start, recover_identity, SubmitOutcome, recovered_with, reopened, refused, settled, lost,
  answered, held, is_batch, submit, stop, is_session,
}

-- No private data is kept.
pub record Idle (p : Producer) : Type 0 where
  pub at_rest : p.state ≡ idle
  pub no_runtime : p.runtime ≡ none
  pub no_generation : p.generation ≡ none
  pub no_token : p.token ≡ none
  pub no_sequence : p.sequence ≡ 0
  pub no_call : p.call_identity ≡ none

-- A session of the runtime and the generation, bound to the call that was validated.
pub record Leased (p : Producer) (runtime : String) (generation : ℕ) : Type 0 where
  pub running : p.state ≡ active
  pub on_runtime : p.runtime ≡ some runtime
  pub on_generation : p.generation ≡ some generation
  pub token : String
  pub has_token : p.token ≡ some token
  pub bounded : p.sequence < uint64_limit
  pub station : Option String
  pub of_call : p.call_identity ≡ some (runtime, station, generation)

pub data IsValid (p : Producer) : Type 0 where
  rests : Idle p → IsValid p
  leases : (runtime : String) (generation : ℕ) → Leased p runtime generation → IsValid p
