-- ===== src/Monitor/First.antt =====
-- custom_components/doorfast/monitor.py, `async_acquire_viewer`: the first viewer of a station.
use doorfastforha.Prelude.{ℕ, ◌≡◌, true, false, none, some, string_eq, [], nat_eq, pair_eq}
use doorfastforha.Value.{Fields, get, has, as_bool}
use doorfastforha.Monitor.{
  MonitorCoordinator, MonitorLease, returned, validate_identity, response_generation,
  response_state, cancel_grace, lease_active,
}
use doorfastforha.Monitor.Lifecycle.{adopted, start_begin, start_adopt}
use doorfastforha.Monitor.Acquire.{add, acquire_admit, starts_new, acquire_look, is_ready_now}
use doorfastforha.Monitor.Register.{register_begin, register_valid, register_end}

-- A coordinator that is open and has no generation and no lease.
pub record IsVacant (m : MonitorCoordinator) : Type 0 where
  pub no_generation : m.generation ≡ none
  pub no_recoverable : m.recoverable_generation ≡ none
  pub no_lease : m.leases ≡ []
  pub is_open : m.unloaded ≡ false

-- A reply that a generation is published.
pub record IsPublished (d : Fields) (g : ℕ) (m : MonitorCoordinator) : Type 0 where
  pub identity : validate_identity false d m ≡ true
  pub generation : response_generation d ≡ some g
  pub state : response_state d ≡ some "publishing"
  pub no_ready : as_bool (get d "ready") ≡ none
  pub no_revision : has d "status_revision" ≡ false

-- The coordinator that adopts the reply.
Adopts : ℕ → MonitorCoordinator → MonitorCoordinator → Type 0
Adopts g m n =
    (n.generation ≡ some g)
    × (n.ready ≡ true)
    × (n.state ≡ "publishing")
    × (n.unloaded ≡ m.unloaded)
    × (n.terminal_epoch ≡ m.terminal_epoch)
    × (n.leases ≡ m.leases)

-- The request is among those that wait.
abbrev pub admitted : ℕ → MonitorCoordinator → MonitorCoordinator
admitted t m = record m { pending_acquires = add (m.terminal_epoch, t) m.pending_acquires }

-- The stretches of the request: it is admitted, looks, starts, adopts the reply, is ready, has to switch
-- the viewer edge on, is still valid behind that, and has its lease, which is active.
pub record Served (t : ℕ) (d : Fields) (g : ℕ) (m : MonitorCoordinator) : Type 0 where
  pub begun : MonitorCoordinator
  pub ready : MonitorCoordinator
  pub last : MonitorCoordinator
  pub lease : MonitorLease
  pub admits : acquire_admit m.terminal_epoch t m ≡ (admitted t m, returned 0)
  pub looks : acquire_look m.terminal_epoch (admitted t m) ≡ returned starts_new
  pub starts : start_begin t m.terminal_epoch 0 (admitted t m) ≡ (begun, returned none)
  pub adopts : start_adopt true m.terminal_epoch 0 d begun ≡ (ready, returned (adopted g))
  pub waits_not : is_ready_now g ready ≡ true
  pub switches : register_begin g m.terminal_epoch ready ≡ returned true
  pub stays_valid : register_valid g m.terminal_epoch ready ≡ true
  pub registers : register_end g m.terminal_epoch ready ≡ (last, returned lease)
  pub active : lease_active last lease ≡ true

-- What the start has sent leaves of the coordinator.
Sent : MonitorCoordinator → MonitorCoordinator → Type 0
Sent m b =
    (b.generation ≡ m.generation)
    × (b.recoverable_generation ≡ m.recoverable_generation)
    × (b.unloaded ≡ m.unloaded)
    × (b.terminal_epoch ≡ m.terminal_epoch)
    × (b.runtime_id ≡ m.runtime_id)
    × (b.station_id ≡ m.station_id)
    × (b.leases ≡ m.leases)

abbrev sent : ℕ → MonitorCoordinator → MonitorCoordinator
sent t m = record (cancel_grace t m) { start_inflight = true }
