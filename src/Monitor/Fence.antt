-- ===== src/Monitor/Fence.antt =====
-- custom_components/doorfast/monitor.py: the terminal epoch, which ends what was begun before it.
use doorfastforha.Prelude.{
  ℕ, ◌+◌, ◌≤◌, ◌<◌, ◌≡◌, Bool, true, false, List, Option, none, arith, Option-cases, inl, inr,
  nat_eq, some, [], ◌⊎◌, refl, if_cases, if◌then◌else◌,
}
use doorfastforha.Value.{Fields}
use doorfastforha.Monitor.{
  MonitorCoordinator, MonitorLease, begin_terminal, lease_owned, response_generation, holds,
}
use doorfastforha.Monitor.Lifecycle.{start_failed, start_begin, start_adopt, start_settle}
use doorfastforha.Monitor.Recovery.{recover_stopped, recover_start, recover_adopt, recover_settle}
use doorfastforha.Monitor.Acquire.{
  acquire_admit, cleanup_end, wait_ready, acquire_end, acquire_failed,
}
use doorfastforha.Monitor.Register.{
  register_provisional, register_end, register_rollback, register_failed,
}
use doorfastforha.Monitor.Schedule.{
  Stretch, epoch_of, advance, Op, run, apply, requests, fails_start, waits, ends_request,
  fails_request, rolls_back, fails_viewer, begins_release, fails_release, ends_release, ends_grace,
  begins_stop, ends_stop, terminates, reports, begins_call, ends_call, begins_hangup,
  hangup_replies, ends_hangup, reports_call, begins_start, adopts_start, leaves_recovered,
  begins_recovery, adopts_recovery, is_admitted, cleans_up, registers_provisional, registers,
}
use doorfastforha.Monitor.Later.{Later, run-Later}

-- Nothing is taken over, and no lease is handed out.
pub Idle : MonitorCoordinator → MonitorCoordinator × Option MonitorLease → Type 0
Idle m r = (r.0.generation ≡ m.generation) × (r.0.leases ≡ m.leases) × (r.1 ≡ none)

-- A request of an earlier epoch.
abbrev Past : ℕ → MonitorCoordinator → Type 0
Past e m = e < m.terminal_epoch

start_adopt-Idle :
    (p : Bool) (e old : ℕ) (d : Fields) (m : MonitorCoordinator)
    → Past e m
    → Idle m ((start_adopt p e old d m).0, none)
unfolding Idle start_adopt start_settle
start_adopt-Idle p e old d m h = elim (Option-cases (response_generation d)) [
  | inl bad ↦ ground arith
  | inr (g, good) ↦ ground arith
]

recover_adopt-Idle :
    (p : Bool) (e old : ℕ) (d : Fields) (m : MonitorCoordinator)
    → Past e m
    → Idle m ((recover_adopt p e old d m).0, none)
unfolding Idle recover_adopt recover_settle
recover_adopt-Idle p e old d m h = elim (Option-cases (response_generation d)) [
  | inl bad ↦ ground arith
  | inr (g, good) ↦ ground arith
]

advance-Idle : (m : MonitorCoordinator) (s : Stretch) → Past (epoch_of s) m → Idle m (advance m s)
unfolding Idle advance start_begin recover_stopped recover_start acquire_admit cleanup_end
    register_provisional register_end
advance-Idle m (begins_start e t old) h = ground arith
advance-Idle m (adopts_start e p old d) h = start_adopt-Idle p e old d m h
advance-Idle m (leaves_recovered e g) h = ground arith
advance-Idle m (begins_recovery e old) h = ground arith
advance-Idle m (adopts_recovery e p old d) h = recover_adopt-Idle p e old d m h
advance-Idle m (is_admitted e t) h = ground arith
advance-Idle m (cleans_up e g) h = ground arith
advance-Idle m (registers_provisional e g) h = ground arith
advance-Idle m (registers e g) h = ground arith

begin_terminal-epoch :
    (unload : Bool) (m : MonitorCoordinator)
    → m.unloaded ≡ false
    → (begin_terminal unload m).0.terminal_epoch ≡ m.terminal_epoch + 1
unfolding begin_terminal
begin_terminal-epoch unload m h = ground arith

pub lease_owned-epoch :
    (m : MonitorCoordinator) (l : MonitorLease)
    → lease_owned m l ≡ true
    → (m.unloaded ≡ false) × (l.epoch ≡ m.terminal_epoch)
unfolding lease_owned
lease_owned-epoch m l h = ground arith

pub lease_owned-Past :
    (m : MonitorCoordinator) (l : MonitorLease) → Past l.epoch m → lease_owned m l ≡ false
unfolding lease_owned
lease_owned-Past m l h = ground arith

-- Once a stop, a preemption or an unload has begun, no interleaving of stretches makes a lease that
-- was owned before owned again.
pub begin_terminal-lease_owned :
    (unload : Bool) (m : MonitorCoordinator) (ops : List Op) (l : MonitorLease)
    → lease_owned m l ≡ true
    → lease_owned (run (begin_terminal unload m).0 ops).0 l ≡ false
unfolding Later
begin_terminal-lease_owned unload m ops l h =
    let (live, same) = lease_owned-epoch m l h in
    let up = begin_terminal-epoch unload m live in
    let (le, _, _) = run-Later (begin_terminal unload m).0 ops in lease_owned-Past _ l (omega arith)

-- A stretch of a request for a generation or a viewer that was begun in the epoch or before it. Those that undo a viewer
-- edge, that wait, or that note a failed start carry no epoch, so they may be of any request.
abbrev pub OfRequest : ℕ → Op → Type 0
OfRequest e (requests s) = epoch_of s ≤ e
OfRequest e (ends_request asked task) = asked ≤ e
OfRequest e (fails_request asked task g) = asked ≤ e
OfRequest e fails_start = Unit {0}
OfRequest e (waits g) = Unit {0}
OfRequest e (rolls_back g) = Unit {0}
OfRequest e (fails_viewer g) = Unit {0}
OfRequest e _ = ⊥

-- The stretch undoes the viewer edge of the generation.
abbrev pub Undoes : Op → ℕ → Type 0
Undoes (rolls_back g) h = g ≡ h
Undoes (fails_viewer g) h = g ≡ h
Undoes _ h = ⊥

-- No lease is handed out, and the generation and the leases are as they were, unless the stretch undoes
-- the viewer edge of the generation that is held: then both are given up.
abbrev pub Yields : MonitorCoordinator → Op → MonitorCoordinator × Option MonitorLease → Type 0
Yields m op r =
    (r.1 ≡ none)
    × (((r.0.generation ≡ m.generation) × (r.0.leases ≡ m.leases))
        ⊎ ((g : ℕ) × Undoes op g
            × (m.generation ≡ some g)
            × (r.0.generation ≡ none)
            × (r.0.leases ≡ [])))

Idle-Yields :
    (m : MonitorCoordinator) (op : Op) (r : MonitorCoordinator × Option MonitorLease)
    → Idle m r
    → Yields m op r
unfolding Idle
Idle-Yields m op r (generation, leases, no_lease) = (no_lease, inl (generation, leases))

start_failed-Idle : (m : MonitorCoordinator) → Idle m (start_failed m, none)
unfolding Idle start_failed
start_failed-Idle m = ground arith

wait_ready-Idle : (g : ℕ) (m : MonitorCoordinator) → Idle m ((wait_ready g m).0, none)
unfolding Idle wait_ready
wait_ready-Idle g m = ground arith

acquire_end-Idle : (e t : ℕ) (m : MonitorCoordinator) → Idle m (acquire_end e t m, none)
unfolding Idle acquire_end
acquire_end-Idle e t m = ground arith

acquire_failed-Idle :
    (e t : ℕ) (g : Option ℕ) (m : MonitorCoordinator) → Idle m ((acquire_failed e t g m).0, none)
unfolding acquire_failed
acquire_failed-Idle e t g m = acquire_end-Idle e t m

-- What gives a held generation up, in a stretch that undoes its viewer edge.
undone-Yields :
    (m d : MonitorCoordinator) (op : Op) (g : ℕ)
    → Undoes op g
    → d.generation ≡ none
    → d.leases ≡ []
    → Yields m op (if holds m.generation g then d else m, none)
undone-Yields m d op g u generation leases =
    if_cases (λ k. Yields m op (k, none)) (holds m.generation g)
      (λ held. (refl, inr (g, u, holds-eq m.generation g held, generation, leases)))
      (λ _. (refl, inl (refl, refl)))
  where
    holds-eq : (o : Option ℕ) (n : ℕ) → holds o n ≡ true → o ≡ some n
    holds-eq o n h = ground arith

apply-Yields :
    (m : MonitorCoordinator) (e : ℕ) (op : Op)
    → OfRequest e op
    → Past e m
    → Yields m op (apply m op)
unfolding apply register_rollback register_failed
apply-Yields m e (requests s) o h =
    Idle-Yields m (requests s) _ (advance-Idle m s (omega (arith, o, h)))
apply-Yields m e (ends_request asked t) o h =
    Idle-Yields m (ends_request asked t) _ (acquire_end-Idle asked t m)
apply-Yields m e (fails_request asked t g) o h =
    Idle-Yields m (fails_request asked t g) _ (acquire_failed-Idle asked t g m)
apply-Yields m e fails_start o h = Idle-Yields m fails_start _ (start_failed-Idle m)
apply-Yields m e (waits g) o h = Idle-Yields m (waits g) _ (wait_ready-Idle g m)
apply-Yields m e (rolls_back g) o h = undone-Yields m _ (rolls_back g) g refl refl refl
apply-Yields m e (fails_viewer g) o h = undone-Yields m _ (fails_viewer g) g refl refl refl
apply-Yields m e (begins_release _ _) o h = absurd o
apply-Yields m e (fails_release _ _) o h = absurd o
apply-Yields m e (ends_release _ _) o h = absurd o
apply-Yields m e (ends_grace _) o h = absurd o
apply-Yields m e (begins_stop _ _) o h = absurd o
apply-Yields m e (ends_stop _ _ _ _) o h = absurd o
apply-Yields m e (terminates _) o h = absurd o
apply-Yields m e (reports _ _) o h = absurd o
apply-Yields m e (begins_call _ _ _ _) o h = absurd o
apply-Yields m e (ends_call _ _ _) o h = absurd o
apply-Yields m e (begins_hangup _ _) o h = absurd o
apply-Yields m e (hangup_replies _ _ _) o h = absurd o
apply-Yields m e (ends_hangup _ _) o h = absurd o
apply-Yields m e (reports_call _ _ _) o h = absurd o

-- Once a stop, a preemption or an unload of a coordinator that is not closed has begun, any stretch of a
-- request for a generation or a viewer that was begun before it hands out no lease and takes no
-- generation over, whatever other stretches came in between. It leaves the generation and the leases as
-- they are, unless it undoes the viewer edge of the very generation that is held then: that gives both up.
pub begin_terminal-apply :
    (unload : Bool) (m : MonitorCoordinator) (ops : List Op) (op : Op)
    → m.unloaded ≡ false
    → OfRequest m.terminal_epoch op
    → Yields
        (run (begin_terminal unload m).0 ops).0
        op
        (apply (run (begin_terminal unload m).0 ops).0 op)
unfolding Later
begin_terminal-apply unload m ops op live h =
    let up = begin_terminal-epoch unload m live in
    let (le, _, _) = run-Later (begin_terminal unload m).0 ops in
    apply-Yields _ m.terminal_epoch op h (omega arith)
