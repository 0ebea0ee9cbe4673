-- ===== src/Monitor/Acquire.antt =====
-- custom_components/doorfast/monitor.py, `async_acquire_viewer`, `async_wait_ready` and
-- `_cleanup_cancelled_acquire`. A request reads its epoch before it is admitted; between the stretches
-- it starts or recovers a generation, waits, and registers a lease.
use doorfastforha.Prelude.{
  ℕ, Bool, true, false, ◌||◌, ◌&&◌, not, List, [], ◌∷◌, Option, none, some, if◌then◌else◌, ltb,
  ◌==◌, max, contains, any, string_eq, nat_eq, pair_eq, str_eq, is_some,
}
use doorfastforha.Monitor.{
  MonitorCoordinator, Answer, returned, raised, terminated, not_ready, holds, is_over, is_down,
  idle_states, known_generation, or_else, viewer_count,
}

-- `set.add` and `set.discard`.
abbrev pub add : ℕ × ℕ → List (ℕ × ℕ) → List (ℕ × ℕ)
add p ps = if contains p ps then ps else p ∷ ps

abbrev pub discard : ℕ × ℕ → List (ℕ × ℕ) → List (ℕ × ℕ)
discard p [] = []
discard p (q ∷ qs) = let rest = discard p qs in if pair_eq.beq p q then rest else q ∷ rest

-- The admission, with the generation that the request regards as old.
unfoldable pub acquire_admit : ℕ → ℕ → MonitorCoordinator → MonitorCoordinator × Answer ℕ
acquire_admit request_epoch task m = if is_over request_epoch m then (m, raised terminated) else (
  record m { pending_acquires = add (request_epoch, task) m.pending_acquires },
  returned (or_else (known_generation m) 0),
)

-- How a round of the loop gets its generation.
pub data Route : Type 0 where
  recovers : Route
  starts_new : Route
  has_generation : ℕ → Route

unfoldable pub acquire_look : ℕ → MonitorCoordinator → Answer Route
acquire_look request_epoch m =
    let renew : Route = elim m.recoverable_generation [ none ↦ starts_new | some r ↦ recovers ] in
    if is_over request_epoch m then raised terminated else elim m.generation [
      | none ↦ returned renew
      | some g ↦ returned (
          if contains m.state idle_states
          then renew
          else if str_eq m.state "stopping"
          then recovers
          else has_generation g)
    ]

-- Whether a viewer that does not wait gets a lease with the viewer edge all the same.
unfoldable pub acquire_ready : MonitorCoordinator → Bool
acquire_ready m = m.ready && not (is_down m.state)

-- `async_wait_ready`, before it waits.
unfoldable pub is_ready_now : ℕ → MonitorCoordinator → Bool
is_ready_now g m = holds m.generation g && (m.ready && not (str_eq m.state "stopping"))

-- One round of `_wait_ready`; None is a wait for the event.
abbrev pub is_lost : ℕ → MonitorCoordinator → Bool
is_lost g m =
    not (holds m.generation g)
    || (contains m.state ("failed" ∷ "idle" ∷ "stopped" ∷ "unavailable" ∷ [])
        || ((str_eq m.state "stopping"
              && (not (elim m.publisher_running [ some true ↦ true | _ ↦ false ])
                  && viewer_count m == 0))
            || m.unloaded))

unfoldable pub wait_ready : ℕ → MonitorCoordinator → MonitorCoordinator × Answer (Option (Unit {0}))
wait_ready g m =
    if is_lost g m
    then (m, raised not_ready)
    else if m.ready && not (str_eq m.state "stopping")
    then (m, returned (some tt))
    else (record m { status_event = false }, returned none)

-- A request whose wait failed goes on with a generation and an old one, or raises.
unfoldable pub acquire_lost : ℕ → ℕ → ℕ → MonitorCoordinator → Answer (ℕ × ℕ)
acquire_lost request_epoch g old m =
    let newer : Option ℕ = elim m.generation [
      | none ↦ none
      | some h ↦ if ltb g h then some h else none
    ] in
    let other_recoverable =
      is_some m.recoverable_generation && not (holds m.recoverable_generation g) in
    if is_over request_epoch m then raised terminated else elim newer [
      | some h ↦ returned (h, old)
      | none ↦
          if other_recoverable
          then raised not_ready
          else if str_eq m.state "stopping" || not (is_some m.generation)
          then returned (g, max old g)
          else raised not_ready
    ]

-- `self._pending_owned_generation == (request_epoch, generation)`.
abbrev pub owns : MonitorCoordinator → ℕ → ℕ → Bool
owns m request_epoch g = elim m.pending_owned_generation [
  | none ↦ false
  | some p ↦ pair_eq.beq p (request_epoch, g)
]

abbrev pub has_pending : ℕ → MonitorCoordinator → Bool
has_pending request_epoch m = any (λ p. p.0 == request_epoch) m.pending_acquires

-- The request is over: it no longer is a pending one.
unfoldable pub acquire_end : ℕ → ℕ → MonitorCoordinator → MonitorCoordinator
acquire_end request_epoch task m = record m {
  pending_acquires = discard (request_epoch, task) m.pending_acquires;
}

-- The request failed: whether it has to clean up the generation it started.
unfoldable pub acquire_failed : ℕ → ℕ → Option ℕ → MonitorCoordinator → MonitorCoordinator × Bool
acquire_failed request_epoch task g m =
    let n = acquire_end request_epoch task m in
    (
      n,
      elim g [
        | none ↦ false
        | some h ↦ owns n request_epoch h && not (has_pending request_epoch n)
      ],
    )

-- `_cleanup_cancelled_acquire`: whether it stops the generation, and what it does behind the stop.
unfoldable pub cleanup_begin : ℕ → ℕ → MonitorCoordinator → Bool
cleanup_begin g request_epoch m =
    holds m.generation g
    && (request_epoch == m.terminal_epoch
        && (owns m request_epoch g && (not (has_pending request_epoch m) && viewer_count m == 0)))

unfoldable pub cleanup_end : ℕ → ℕ → MonitorCoordinator → MonitorCoordinator
cleanup_end g request_epoch m =
    if holds m.generation g && (request_epoch == m.terminal_epoch && viewer_count m == 0)
    then record m {
      generation = none;
      state = "idle";
      ready = false;
      publisher_running = none;
      recoverable_generation = none;
      pending_owned_generation = none;
      status_event = true;
    }
    else m
