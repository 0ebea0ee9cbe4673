-- ===== src/Monitor/Settled.antt =====
-- custom_components/doorfast/monitor.py: what the fields of a generation say together.
pub mod Runs
use doorfastforha.Prelude.{
  ℕ, suc, ◌+◌, ◌≤◌, ◌<◌, ◌≡◌, refl, ◌∙◌, sym, ap, String, Bool, true, false, not, ◌&&◌, ◌||◌, List,
  [], ◌∷◌, Option, none, some, arith, if_cases, Option-cases, Bool-cases, inl, inr, contains,
  string_eq, str_eq, is_some, ltb, ◌==◌, nat_eq,
}
use doorfastforha.Value.{Value, Fields, dict, get, is_text, positive}
use doorfastforha.SessionDiagnostics.{Operation, station_call_operation}
use doorfastforha.Monitor.{
  MonitorCoordinator, MonitorLease, Answer, returned, raised, begin_terminal, set_response,
  cancel_grace, response_generation, or_else, idle_states, clear, create, holds,
}
use doorfastforha.Monitor.Lifecycle.{
  own, start_begin, start_failed, start_adopt, start_settle, adopt, refuse,
}
use doorfastforha.Monitor.Recovery.{recover_stopped, recover_start, recover_adopt, recover_settle}
use doorfastforha.Monitor.Acquire.{
  acquire_admit, wait_ready, acquire_end, acquire_failed, cleanup_end,
}
use doorfastforha.Monitor.Register.{
  register_provisional, register_rollback, register_failed, register_end, hand_out,
}
use doorfastforha.Monitor.Schedule.{leased}
use doorfastforha.Monitor.Release.{
  release_begin, release_failed, release_end, grace_over, stop_begin, stop_end,
}

-- Without a generation the station is idle, not ready, and no publisher is known of; a generation is
-- positive, and one that can be recovered is being stopped.
unfoldable pub is_settled : MonitorCoordinator → Bool
is_settled m = elim m.generation [
  | none ↦ not m.ready && (not (is_some m.publisher_running) && contains m.state idle_states)
  | some g ↦ ltb 0 g && elim m.recoverable_generation [
    | none ↦ true
    | some r ↦ r == g && str_eq m.state "stopping"
  ]
]

abbrev pub Settled : MonitorCoordinator → Type 0
Settled m = is_settled m ≡ true

clear-Settled : (m : MonitorCoordinator) → Settled (clear m)
unfolding is_settled
clear-Settled m = refl

positive-lt : (v : Value) (g : ℕ) → positive v ≡ some g → ltb 0 g ≡ true
positive-lt v g h = ground arith

pub set_response-Settled :
    (a : Bool) (d : Fields) (m n : MonitorCoordinator) → set_response a d m ≡ some n → Settled n
unfolding set_response is_settled
set_response-Settled a d m n h = grind (arith, positive-lt)

pub begin_terminal-Settled :
    (u : Bool) (m : MonitorCoordinator) → Settled m → Settled (begin_terminal u m).0
unfolding begin_terminal is_settled
begin_terminal-Settled u m i = ground arith

pub release_begin-Settled :
    (t : ℕ) (l : MonitorLease) (m : MonitorCoordinator)
    → Settled m
    → Settled (release_begin t l m).0
unfolding release_begin is_settled cancel_grace
release_begin-Settled t l m i = ground arith

cancel_grace-Settled : (t : ℕ) (m : MonitorCoordinator) → Settled m → Settled (cancel_grace t m)
unfolding is_settled cancel_grace
cancel_grace-Settled t m i = ground arith

pub stop_begin-Settled :
    (t : ℕ) (o : Option ℕ) (m : MonitorCoordinator) → Settled m → Settled (stop_begin t o m).0
unfolding stop_begin
stop_begin-Settled t o m i =
    let k = clear-Settled m in let l = cancel_grace-Settled t m i in ground arith

cleared-Settled :
    (m : MonitorCoordinator) (o : Option ℕ)
    → Settled (record (clear m) { recoverable_generation = o })
unfolding is_settled
cleared-Settled m o = refl

emptied-Settled :
    (m : MonitorCoordinator)
    → Settled (record m {
      generation = none;
      state = "idle";
      ready = false;
      publisher_running = none;
      recoverable_generation = none;
      pending_owned_generation = none;
      status_event = true;
    })
unfolding is_settled
emptied-Settled m = refl

pub start_begin-Settled :
    (t e old : ℕ) (m : MonitorCoordinator) → Settled m → Settled (start_begin t e old m).0
unfolding is_settled start_begin cancel_grace
start_begin-Settled t e old m i = ground arith

pub recover_stopped-Settled :
    (e g : ℕ) (m : MonitorCoordinator) → Settled m → Settled (recover_stopped e g m).0
unfolding recover_stopped
recover_stopped-Settled e g m i = let k0 = clear-Settled m in ground arith

pub recover_start-Settled :
    (e g : ℕ) (m : MonitorCoordinator) → Settled m → Settled (recover_start e g m).0
unfolding is_settled recover_start
recover_start-Settled e g m i = ground arith

pub acquire_admit-Settled :
    (e t : ℕ) (m : MonitorCoordinator) → Settled m → Settled (acquire_admit e t m).0
unfolding is_settled acquire_admit
acquire_admit-Settled e t m i = ground arith

pub wait_ready-Settled : (g : ℕ) (m : MonitorCoordinator) → Settled m → Settled (wait_ready g m).0
unfolding is_settled wait_ready
wait_ready-Settled g m i = ground arith

pub register_failed-Settled :
    (g : ℕ) (m : MonitorCoordinator) → Settled m → Settled (register_failed g m)
unfolding register_failed
register_failed-Settled g m i = let k0 = clear-Settled m in ground arith

pub register_rollback-Settled :
    (g : ℕ) (m : MonitorCoordinator) → Settled m → Settled (register_rollback g m)
unfolding register_rollback
register_rollback-Settled g m i = let k0 = cleared-Settled m none in ground arith

pub cleanup_end-Settled :
    (g e : ℕ) (m : MonitorCoordinator) → Settled m → Settled (cleanup_end g e m)
unfolding cleanup_end
cleanup_end-Settled g e m i = let k0 = emptied-Settled m in ground arith

pub release_failed-Settled :
    (g : ℕ) (l : MonitorLease) (m : MonitorCoordinator) → Settled m → Settled (release_failed g l m)
unfolding is_settled release_failed
release_failed-Settled g l m i = ground arith

pub release_end-Settled :
    (g t : ℕ) (m : MonitorCoordinator) → Settled m → Settled (release_end g t m)
unfolding is_settled release_end
release_end-Settled g t m i = ground arith

pub grace_over-Settled : (t : ℕ) (m : MonitorCoordinator) → Settled m → Settled (grace_over t m)
unfolding is_settled grace_over
grace_over-Settled t m i = ground arith

hand_out-Settled :
    (b : Bool) (g e : ℕ) (m : MonitorCoordinator) → Settled m → Settled (hand_out b g e m).0
unfolding is_settled hand_out
hand_out-Settled b g e m i = ground arith

pub register_provisional-Settled :
    (g e : ℕ) (m : MonitorCoordinator) → Settled m → Settled (leased (register_provisional g e m)).0
unfolding register_provisional
register_provisional-Settled g e m i = let k0 = hand_out-Settled false g e m i in ground arith

pub register_end-Settled :
    (g e : ℕ) (m : MonitorCoordinator) → Settled m → Settled (leased (register_end g e m)).0
unfolding register_end
register_end-Settled g e m i = let k0 = hand_out-Settled true g e m i in ground arith

pub adopt-Settled :
    (p : Bool) (e g : ℕ) (d : Fields) (m : MonitorCoordinator)
    → Settled m
    → Settled (adopt p e g d m).0
unfolding is_settled
adopt-Settled p e g d m i = elim (Option-cases (set_response true d m)) [
  | inl bad ↦ ground arith
  | inr (n, good) ↦ let k = set_response-Settled true d m n good in ground arith
]

own-Settled : (p : Bool) (e g : ℕ) (m : MonitorCoordinator) → Settled m → Settled (own p e g m)
unfolding is_settled
own-Settled p e g m i = ground arith

refuse-Settled : (e g : ℕ) (m : MonitorCoordinator) → Settled m → Settled (refuse e g m).0
refuse-Settled e g m i = ground arith

start_settle-Settled :
    (p : Bool) (e old g : ℕ) (d : Fields) (m : MonitorCoordinator)
    → Settled m
    → Settled (start_settle p e old g d m).0
unfolding start_settle
start_settle-Settled p e old g d m i =
    let k = adopt-Settled p e g d m i in
    let l = own-Settled p e g m i in let r = refuse-Settled e g m i in ground arith

recover_settle-Settled :
    (p : Bool) (e old g : ℕ) (d : Fields) (m : MonitorCoordinator)
    → Settled m
    → Settled (recover_settle p e old g d m).0
unfolding recover_settle
recover_settle-Settled p e old g d m i =
    let k = adopt-Settled p e g d m i in
    let l = own-Settled p e g m i in let r = refuse-Settled e g m i in ground arith

pub start_failed-Settled : (m : MonitorCoordinator) → Settled m → Settled (start_failed m)
unfolding start_failed is_settled
start_failed-Settled m i = i

pub start_adopt-Settled :
    (p : Bool) (e old : ℕ) (d : Fields) (m : MonitorCoordinator)
    → Settled m
    → Settled (start_adopt p e old d m).0
unfolding start_adopt start_failed
start_adopt-Settled p e old d m i = elim (Option-cases (response_generation d)) [
  | inl bad ↦ rw (start_adopt, bad) i
  | inr (g, good) ↦
      rw (start_adopt, good)
        (start_settle-Settled p e old g d (start_failed m) (start_failed-Settled m i))
]

pub recover_adopt-Settled :
    (p : Bool) (e old : ℕ) (d : Fields) (m : MonitorCoordinator)
    → Settled m
    → Settled (recover_adopt p e old d m).0
unfolding recover_adopt start_failed
recover_adopt-Settled p e old d m i = elim (Option-cases (response_generation d)) [
  | inl bad ↦ rw (recover_adopt, bad) i
  | inr (g, good) ↦
      rw (recover_adopt, good)
        (recover_settle-Settled p e old g d (start_failed m) (start_failed-Settled m i))
]

pub stop_end-Settled :
    (t : Bool) (g e : ℕ) (o : Option Fields) (m : MonitorCoordinator)
    → Settled m
    → Settled (stop_end t g e o m).0
unfolding stop_end
stop_end-Settled t g e none m i = let k = clear-Settled m in ground arith
stop_end-Settled t g e (some d) m i = elim (Option-cases (set_response true d m)) [
  | inl bad ↦ let k = clear-Settled m in ground arith
  | inr (n, good) ↦ let k = clear-Settled m in let l = clear-Settled n in ground arith
]

pub acquire_end-Settled :
    (e t : ℕ) (m : MonitorCoordinator) → Settled m → Settled (acquire_end e t m)
unfolding acquire_end is_settled
acquire_end-Settled e t m i = i

pub acquire_failed-Settled :
    (e t : ℕ) (g : Option ℕ) (m : MonitorCoordinator)
    → Settled m
    → Settled (acquire_failed e t g m).0
unfolding acquire_failed
acquire_failed-Settled e t g m i = acquire_end-Settled e t m i
