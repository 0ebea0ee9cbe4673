-- ===== src/Pcm.antt =====
-- custom_components/doorfast/pcm.py, `PcmProducer`. Every operation holds the producer's lock from its
-- first test to its end, so it is one function here; what its awaits come to are arguments, and the
-- states in between (opening, recovering, stopping) do not outlast it.
pub mod Wire
pub mod Lease
use doorfastforha.Prelude.{
  ℕ, zero, suc, ◌+◌, ◌-◌, ◌≤◌, ◌≡◌, String, Bool, true, false, ◌||◌, ◌&&◌, not, List, [], ◌∷◌,
  Option, none, some, if◌then◌else◌, ltb, leb, ◌==◌, contains, string_eq, length, all, str_eq,
}
use doorfastforha.Value.{Value, get, as_text, uint64_limit}
use doorfastforha.Pcm.Wire.{
  Reply, Sampled, sample, ready, Common, Operation, opening, submitting, ending, validate_success,
  validate_error, has_unhashable_code,
}

-- A `PcmProducerError` with its code, another exception, and the cancellation of the task.
pub data Raised : Type 0 where
  error : String → Raised
  failed : Raised
  cancelled : Raised

-- What an awaited call or an operation comes to.
pub data Answer (A : Type 0) : Type 0 where
  value : A → Answer A
  raised : Raised → Answer A

infixl 5 ◌>>=◌
abbrev pub ◌>>=◌ : {A B : Type 0} → Answer A → (A → Answer B) → Answer B
value a >>= f = f a
raised e >>= f = raised e

-- The value, or the producer's error with the code.
abbrev pub require : {A : Type 0} → String → Option A → Answer A
require code none = raised (error code)
require code (some a) = value a

pub data State : Type 0 where
  idle : State
  active : State

-- The runtime, the station if the call names one, and the generation.
abbrev pub CallIdentity : Type 0
CallIdentity = String × Option String × ℕ

pub record Producer : Type 0 where
  pub station_id : Option String
  pub expected_generation : Option ℕ
  pub expected_runtime_id : Option String
  pub state : State
  pub runtime : Option String
  pub generation : Option ℕ
  pub token : Option String
  pub sequence : ℕ
  pub call_identity : Option CallIdentity

unfoldable pub create : Option String → Option ℕ → Option String → Producer
create station generation runtime = record {
  station_id = station;
  expected_generation = generation;
  expected_runtime_id = runtime;
  state = idle;
  runtime = none;
  generation = none;
  token = none;
  sequence = 0;
  call_identity = none;
}

unfoldable pub clear : Producer → Producer
clear p = record p {
  runtime = none;
  generation = none;
  token = none;
  sequence = 0;
  call_identity = none;
  state = idle;
}

abbrev pub is_active : State → Bool
is_active idle = false
is_active active = true

abbrev pub matches_runtime : Option String → String → Bool
matches_runtime none runtime = true
matches_runtime (some r) runtime = str_eq runtime r

abbrev pub matches_generation : Option ℕ → ℕ → Bool
matches_generation none generation = true
matches_generation (some g) generation = generation == g

-- `_fresh_identity`, on what `refresh` comes to: the call that it sets.
unfoldable pub fresh_identity : Producer → Answer Value → Answer CallIdentity
fresh_identity p status = do
  v ← status
  s ← require "status_invalid" (sample v)
  generation ← require "status_not_ready" (ready s p.station_id)
  if not (matches_runtime p.expected_runtime_id s.runtime)
      then raised (error "runtime_mismatch")
      else if not (matches_generation p.expected_generation generation)
      then raised (error "generation_mismatch")
      else value (s.runtime, as_text (get s.call "station_id"), generation)

abbrev pub is_session : Common → String → ℕ → Bool
is_session c runtime generation = str_eq c.runtime runtime && c.generation == generation

-- `_validate_error`.
unfoldable pub read_error : Reply → Operation → Answer (String × Option Common)
read_error reply operation = elim (validate_error reply operation) [
  | none ↦ raised (if has_unhashable_code reply operation then failed else error "invalid_response")
  | some r ↦ value r
]

abbrev pub open_refused : String → ℕ → String × Option Common → Answer (String × ℕ)
open_refused runtime generation (code, none) = raised (error code)
open_refused runtime generation (code, some c) =
    if is_session c runtime generation
    then raised (error code)
    else raised (error "identity_changed")

-- `_open`: the token and the sequence that it sets.
unfoldable pub open_session : Answer Reply → String → ℕ → Answer (String × ℕ)
open_session answer runtime generation = do
  reply ← answer
  if reply.status == 200
      then (require "invalid_response" (validate_success reply runtime generation opening) >>= λ r.
          value (r.0, r.1.next_sequence))
      else (read_error reply opening >>= open_refused runtime generation)

-- The producer with a session of the runtime and the generation.
abbrev pub holding : Producer → String → ℕ → String → ℕ → Producer
holding p runtime generation token sequence = record p {
  runtime = some runtime;
  generation = some generation;
  token = some token;
  sequence = sequence;
}

-- `except BaseException: self._clear(); raise`.
abbrev pub or_clear : {A : Type 0} → Producer → Answer (Producer × A) → Producer × Answer A
or_clear p (value (q, a)) = (q, value a)
or_clear p (raised e) = (clear p, raised e)

abbrev pub started : Producer → Answer Value → Answer Reply → Answer (Producer × Unit {0})
started p status reply = do
  (runtime, station, generation) ← fresh_identity p status
  (token, sequence) ← open_session reply runtime generation
  value (
    record (holding p runtime generation token sequence) {
      call_identity = some (runtime, station, generation);
      state = active;
    },
    tt,
  )

unfoldable pub start : Producer → Answer Value → Answer Reply → Producer × Answer (Unit {0})
start p status reply =
    if is_active p.state
    then (p, raised (error "already_started"))
    else or_clear p (started p status reply)

-- `_recover_identity`, for the session that is held.
unfoldable pub recover_identity : Producer → String → ℕ → Answer Value → Answer Producer
recover_identity p runtime generation status = do
  (fresh_runtime, station, fresh_generation) ← fresh_identity p status
  if str_eq fresh_runtime runtime && fresh_generation == generation
      then value (record p { call_identity = some (fresh_runtime, station, fresh_generation) })
      else raised (error "identity_changed")

pub record SubmitOutcome : Type 0 where
  pub accepted_frames : ℕ
  pub next_sequence : ℕ
  pub complete : Bool
  pub recovered : Bool

-- Back to active with a partial outcome, after `_recover_identity`.
abbrev pub recovered_with :
    Producer → String → ℕ → Answer Value → ℕ → Answer (Producer × SubmitOutcome)
recovered_with p runtime generation status accepted = do
  q ← recover_identity p runtime generation status
  value (
    q,
    record {
      accepted_frames = accepted;
      next_sequence = q.sequence;
      complete = false;
      recovered = true;
    },
  )

-- After `session_expired`: the same call, in a new session.
abbrev pub reopened :
    Producer → String → ℕ → Answer Value → Answer Reply → Answer (Producer × SubmitOutcome)
reopened p runtime generation status reply = do
  q ← recover_identity p runtime generation status
  (token, sequence) ← open_session reply runtime generation
  value (
    holding q runtime generation token sequence,
    record { accepted_frames = 0; next_sequence = sequence; complete = false; recovered = true },
  )

-- An error reply to a submission of `frames` frames.
unfoldable pub refused :
    Producer
    → String
    → ℕ
    → ℕ
    → ℕ
    → Answer Value
    → Answer Reply
    → String × Option Common
    → Answer (Producer × SubmitOutcome)
refused p runtime generation frames http status reply (code, none) =
    recovered_with p runtime generation status 0
refused p runtime generation frames http status reply (code, some c) =
    if not (is_session c runtime generation)
    then raised (error "identity_changed")
    else if ltb frames c.accepted
    then raised (error "invalid_response")
    else if http == 503
    then if c.next_sequence == p.sequence + c.accepted
      then recovered_with (record p { sequence = c.next_sequence }) runtime generation status
          c.accepted
      else raised (error "invalid_response")
    else if not (c.accepted == 0)
    then raised (error "invalid_response")
    else if contains code ("sequence_duplicate" ∷ "sequence_gap" ∷ [])
    then recovered_with (record p { sequence = c.next_sequence }) runtime generation status 0
    else if str_eq code "session_expired"
    then reopened p runtime generation status reply
    else raised (error code)

-- `submit` behind the reply to the request.
unfoldable pub settled :
    Producer
    → String
    → ℕ
    → ℕ
    → Reply
    → Answer Value
    → Answer Reply
    → Answer (Producer × SubmitOutcome)
settled p runtime generation frames answer status reply =
    let operation = submitting frames p.sequence in
    if answer.status == 200
    then (require "invalid_response" (validate_success answer runtime generation operation) >>= λ r.
        value (
          record p { sequence = r.1.next_sequence },
          record {
            accepted_frames = r.1.accepted;
            next_sequence = r.1.next_sequence;
            complete = true;
            recovered = false;
          },
        ))
    else (read_error answer operation
        >>= refused p runtime generation frames answer.status status reply)

-- The request was lost on the way: the call is confirmed, and the caller hears `response_lost`.
unfoldable pub lost : Producer → String → ℕ → Answer Value → Producer × Answer SubmitOutcome
lost p runtime generation status = elim (recover_identity p runtime generation status) [
  | value q ↦ (q, raised (error "response_lost"))
  | raised e ↦ (clear p, raised e)
]

abbrev pub answered :
    Producer
    → String
    → ℕ
    → ℕ
    → Answer Reply
    → Answer Value
    → Answer Reply
    → Producer × Answer SubmitOutcome
answered p runtime generation frames (value r) status reply =
    or_clear p (settled p runtime generation frames r status reply)
answered p runtime generation frames (raised cancelled) status reply = (clear p, raised cancelled)
answered p runtime generation frames (raised _) status reply = lost p runtime generation status

-- `_require_identity`.
abbrev pub held : Producer → Option (String × ℕ × String)
held p = elim p.runtime [
  | none ↦ none
  | some r ↦ elim p.generation [
    | none ↦ none
    | some g ↦ elim p.token [ none ↦ none | some t ↦ some (r, g, t) ]
  ]
]

-- One to five frames of 320 bytes.
abbrev pub is_batch : List (List ℕ) → Bool
is_batch frames =
    leb 1 (length frames) && (leb (length frames) 5 && all (λ f. length f == 320) frames)

-- The three answers are those of `pcm_submit`, `refresh` and `pcm_session_open`.
unfoldable pub submit :
    Producer
    → List (List ℕ)
    → Answer Reply
    → Answer Value
    → Answer Reply
    → Producer × Answer SubmitOutcome
submit p frames answer status reply =
    if not (is_batch frames)
    then (p, raised failed)
    else if not (is_active p.state)
    then (p, raised (error "not_active"))
    else elim (held p) [
      | none ↦ (p, raised (error "not_active"))
      | some (runtime, generation, token) ↦
          if leb uint64_limit (p.sequence + length frames)
          then (p, raised (error "sequence_overflow"))
          else answered p runtime generation (length frames) answer status reply
    ]

-- How `stop` ends, by what the request to end the session comes to; other failures are swallowed.
abbrev pub stopped : Answer Reply → Answer (Unit {0})
stopped (raised cancelled) = raised cancelled
stopped _ = value tt

unfoldable pub stop : Producer → Answer Reply → Producer × Answer (Unit {0})
stop p answer =
    if is_active p.state
    then elim (held p) [ none ↦ (clear p, value tt) | some _ ↦ (clear p, stopped answer) ]
    else (p, value tt)
