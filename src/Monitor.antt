-- ===== src/Monitor.antt =====
-- custom_components/doorfast/monitor.py, `MonitorCoordinator`: its state, what it reads from replies,
-- and the end of a generation. Nothing is awaited under `_lock`, so each stretch of code between two
-- awaits is one function; the children have the stretches of the operations. An asyncio task is known
-- by a number, and the event that a status has changed by whether it is set.
pub mod Lifecycle
pub mod Call
pub mod CallStatus
pub mod Recovery
pub mod Acquire
pub mod Register
pub mod Release
pub mod Status
pub mod Schedule
pub mod Same
pub mod Later
pub mod Fence
pub mod Leases
pub mod Settled
pub mod Reports
pub mod Grace
pub mod Ends
pub mod Calls
pub mod First
use doorfastforha.Prelude.{
  same_bool, ℕ, zero, suc, ◌+◌, ◌≤◌, ◌≡◌, String, Bool, true, false, ◌||◌, ◌&&◌, not, List, [], ◌∷◌,
  Option, none, some, if◌then◌else◌, ltb, leb, ◌==◌, contains, string_eq, nat_eq, length, ◌>>=◌,
  ◌>>◌, guard, str_eq, is_some, Dict, lookup, pos, ℤ,
}
use doorfastforha.Value.{
  Value, null, bool, int, float, str, list, dict, Fields, get, has, as_dict, as_text, as_bool,
  as_nat, is_text, codes, equals_int, positive,
}
use doorfastforha.SessionDiagnostics.{Operation}

abbrev pub ready_states : List String
ready_states = "publishing" ∷ "viewing" ∷ []

abbrev pub idle_states : List String
idle_states = "idle" ∷ "stopped" ∷ "failed" ∷ "unavailable" ∷ []

pub record MonitorLease : Type 0 where
  pub generation : ℕ
  pub lease_id : ℕ
  pub epoch : ℕ
  pub viewer_edge_enabled : Bool

-- The equality of the dataclass.
abbrev pub same_lease : MonitorLease → MonitorLease → Bool
same_lease a b =
    a.generation == b.generation
    && (a.lease_id == b.lease_id
        && (a.epoch == b.epoch && same_bool a.viewer_edge_enabled b.viewer_edge_enabled))

pub record MonitorCoordinator : Type 0 where
  pub runtime_id : String
  pub station_id : String
  pub stop_task : Option ℕ
  pub generation : Option ℕ
  pub recoverable_generation : Option ℕ
  pub start_inflight : Bool
  pub pending_acquires : List (ℕ × ℕ)
  pub pending_owned_generation : Option (ℕ × ℕ)
  pub state : String
  pub call_state : String
  pub call_error : Option String
  pub call_locked : Bool
  pub operation : Option Operation
  pub accepted_call : Option Fields
  pub native_generation : ℕ
  pub call_request_epoch : ℕ
  pub ready : Bool
  pub publisher_running : Option Bool
  pub next_lease_id : ℕ
  pub leases : Dict ℕ MonitorLease
  pub terminal_epoch : ℕ
  pub status_revision : ℕ
  pub unloaded : Bool
  pub status_event : Bool

-- The client's counter of the station's requests outlives a coordinator.
unfoldable pub create : String → String → ℕ → MonitorCoordinator
create runtime station epoch = record {
  runtime_id = runtime;
  station_id = station;
  stop_task = none;
  generation = none;
  recoverable_generation = none;
  start_inflight = false;
  pending_acquires = [];
  pending_owned_generation = none;
  state = "idle";
  call_state = "idle";
  call_error = none;
  call_locked = false;
  operation = none;
  accepted_call = none;
  native_generation = 0;
  call_request_epoch = epoch;
  ready = false;
  publisher_running = none;
  next_lease_id = 0;
  leases = [];
  terminal_epoch = 0;
  status_revision = 0;
  unloaded = false;
  status_event = false;
}

-- The exceptions that the code tells apart; `not_ready` is that of `_wait_ready`.
pub data Failure : Type 0 where
  terminated : Failure
  retry_acquire : Failure
  not_ready : Failure
  value_error : Failure

pub data Answer {ℓ} (A : Type ℓ) : Type ℓ where
  returned : A → Answer A
  raised : Failure → Answer A

-- `self._generation == generation`.
abbrev pub holds : Option ℕ → ℕ → Bool
holds none g = false
holds (some h) g = h == g

abbrev pub counted : ℕ → Dict ℕ MonitorLease → ℕ
counted g [] = 0
counted g ((id, l) ∷ ls) = let rest = counted g ls in if l.generation == g then suc rest else rest

unfoldable pub viewer_count : MonitorCoordinator → ℕ
viewer_count m = elim m.generation [ none ↦ 0 | some g ↦ counted g m.leases ]

-- `self._unloaded or request_epoch != self._terminal_epoch`.
abbrev pub is_over : ℕ → MonitorCoordinator → Bool
is_over epoch m = m.unloaded || not (epoch == m.terminal_epoch)

-- The states in which a generation cannot take a viewer.
abbrev pub is_down : String → Bool
is_down state = contains state idle_states || str_eq state "stopping"

-- `self._generation or self._recoverable_generation`.
abbrev pub known_generation : MonitorCoordinator → Option ℕ
known_generation m = elim m.generation [
  | none ↦ m.recoverable_generation
  | some zero ↦ m.recoverable_generation
  | some (suc n) ↦ some (suc n)
]

-- `generation in (None, 0, current)`.
abbrev pub names_no_other : Value → Option ℕ → Bool
names_no_other null current = true
names_no_other v none = equals_int v 0
names_no_other v (some g) = equals_int v 0 || equals_int v g

abbrev pub absent_or : Value → String → Bool
absent_or null s = true
absent_or v s = is_text v s

-- `_validate_identity`: whether it returns.
unfoldable pub validate_identity : Bool → Fields → MonitorCoordinator → Bool
validate_identity check_generation d m =
    absent_or (get d "runtime_id") m.runtime_id
    && (absent_or (get d "station_id") m.station_id
        && (not check_generation
            || (not (is_some m.generation) || names_no_other (get d "generation") m.generation)))

unfoldable pub response_state : Fields → Option String
response_state d = do
  s ← as_text (get d "state")
  guard (not (str_eq s "") && leb (length (codes s)) 32)
  some s

abbrev pub response_generation : Fields → Option ℕ
response_generation d = positive (get d "generation")

-- `d.get(name, default)`.
abbrev pub get_or : Fields → String → Value → Value
get_or d k v = if has d k then get d k else v

abbrev pub or_else {ℓ} : {A : Type ℓ} → Option A → A → A
or_else none a = a
or_else (some b) a = b

abbrev pub first_of {ℓ} : {A : Type ℓ} → Option A → Option A → Option A
first_of none b = b
first_of (some a) b = some a

-- `_set_response_locked`, which raises before it changes anything.
unfoldable pub set_response : Bool → Fields → MonitorCoordinator → Option MonitorCoordinator
set_response allow_generation_change d m = do
  guard (validate_identity (not allow_generation_change) d m)
  g ← response_generation d
  s ← response_state d
  revision ← as_nat (get_or d "status_revision" (int (pos m.status_revision)))
  some (record m {
    generation = some g;
    state = s;
    ready = or_else (as_bool (get d "ready")) (contains s ready_states);
    publisher_running = first_of (as_bool (get d "encoder_running")) m.publisher_running;
    status_revision = revision;
    recoverable_generation = if str_eq s "stopping" then some g else none;
    status_event = true;
  })

-- `_cancel_grace_locked`, run by a task.
unfoldable pub cancel_grace : ℕ → MonitorCoordinator → MonitorCoordinator
cancel_grace task m = if holds m.stop_task task then m else record m { stop_task = none }

-- The generation is over locally: its viewers go, and those who wait look again.
abbrev pub clear : MonitorCoordinator → MonitorCoordinator
clear m = record m {
  generation = none;
  state = "idle";
  ready = false;
  publisher_running = none;
  leases = [];
  status_event = true;
}

-- `_begin_terminal`, with the generation that is to be stopped.
unfoldable pub begin_terminal : Bool → MonitorCoordinator → MonitorCoordinator × Option ℕ
begin_terminal unload m =
    let ended = record m {
      terminal_epoch = m.terminal_epoch + 1;
      recoverable_generation = none;
      publisher_running = none;
    } in
    if unload && m.unloaded
    then (m, none)
    else if unload
    then (
      record ended {
        unloaded = true;
        call_request_epoch = m.call_request_epoch + 1;
        operation = none;
        accepted_call = none;
        native_generation = 0;
        call_state = "idle";
        call_error = none;
      },
      known_generation m,
    )
    else (ended, known_generation m)

unfoldable pub lease_owned : MonitorCoordinator → MonitorLease → Bool
lease_owned m l =
    not m.unloaded
    && (elim (lookup l.lease_id m.leases) [ none ↦ false | some k ↦ same_lease k l ]
        && (holds m.generation l.generation && l.epoch == m.terminal_epoch))

abbrev pub lease_active : MonitorCoordinator → MonitorLease → Bool
lease_active m l = lease_owned m l && m.ready
