-- ===== src/Monitor/Grace.antt =====
-- custom_components/doorfast/monitor.py: a lease that is handed out, and what the grace period that an
-- earlier release has begun does to it.
use doorfastforha.Prelude.{
  ℕ, ◌+◌, ◌≡◌, ◌∙◌, ap, sym, refl, Bool, true, false, some, inl, inr, ◌⊎◌, arith, ==_iff, nat_eq,
  lookup, insert, lookup-insert, if◌then◌else◌, List,
}
use doorfastforha.Monitor.{
  MonitorCoordinator, MonitorLease, returned, holds, same_lease, lease_owned,
}
use doorfastforha.Monitor.Register.{register_end, register_provisional, hand_out}

same_lease_refl : (l : MonitorLease) → same_lease l l ≡ true
same_lease_refl l = ground arith

-- The lease that is handed out next.
abbrev next_lease : Bool → ℕ → MonitorCoordinator → MonitorLease
next_lease b g m = record {
  generation = g;
  lease_id = m.next_lease_id + 1;
  epoch = m.terminal_epoch;
  viewer_edge_enabled = b;
}

lookup-insert_same :
    (i : ℕ) (l : MonitorLease) (ls : List (ℕ × MonitorLease)) → lookup i (insert i l ls) ≡ some l
lookup-insert_same i l ls =
    lookup-insert i i l ls ∙ ap (λ b. if b then some l else lookup i ls) ((==_iff i i).1 refl)

hand_out-lease_owned :
    (b : Bool) (g e : ℕ) (m : MonitorCoordinator)
    → holds m.generation g ≡ true
    → m.unloaded ≡ false
    → lease_owned (hand_out b g e m).0 (next_lease b g m) ≡ true
unfolding hand_out lease_owned
hand_out-lease_owned b g e m h live =
    let i = m.next_lease_id + 1 in
    rw
      (
        lookup-insert_same i (next_lease b g m) m.leases,
        h,
        live,
        same_lease_refl (next_lease b g m),
      )
      ((==_iff m.terminal_epoch m.terminal_epoch).1 refl)

-- What a request knows that gets a lease.
Granted : Bool → ℕ → ℕ → MonitorCoordinator → MonitorCoordinator → MonitorLease → Type 0
Granted b g e m n l =
    (holds m.generation g ≡ true)
    × (m.unloaded ≡ false)
    × (e ≡ m.terminal_epoch)
    × (n ≡ (hand_out b g e m).0)
    × (l ≡ next_lease b g m)

register_end-Granted :
    (g e : ℕ) (m n : MonitorCoordinator) (l : MonitorLease)
    → register_end g e m ≡ (n, returned l)
    → Granted true g e m n l × (m.ready ≡ true)
unfolding Granted register_end hand_out
register_end-Granted g e m n l h = ground arith

register_provisional-Granted :
    (g e : ℕ) (m n : MonitorCoordinator) (l : MonitorLease)
    → register_provisional g e m ≡ (n, returned l)
    → Granted false g e m n l
unfolding Granted register_provisional hand_out
register_provisional-Granted g e m n l h = ground arith

Granted-lease_owned :
    (b : Bool) (g e : ℕ) (m n : MonitorCoordinator) (l : MonitorLease)
    → Granted b g e m n l
    → (lease_owned n l ≡ true) × (l.generation ≡ g) × (l.epoch ≡ e)
unfolding Granted
Granted-lease_owned b g e m n l (h, live, now, same_n, same_l) = (
  ap (λ k. lease_owned k l) same_n
      ∙ ap (lease_owned (hand_out b g e m).0) same_l
      ∙ hand_out-lease_owned b g e m h live,
  ap (λ k. k.generation) same_l,
  ap (λ k. k.epoch) same_l ∙ sym now,
)

-- A lease, with the viewer edge or provisional, is owned as soon as it is handed out, and it carries
-- the generation and the epoch of the request.
pub register-lease_owned :
    (g e : ℕ) (m n : MonitorCoordinator) (l : MonitorLease)
    → (register_end g e m ≡ (n, returned l)) ⊎ (register_provisional g e m ≡ (n, returned l))
    → (lease_owned n l ≡ true) × (l.generation ≡ g) × (l.epoch ≡ e)
register-lease_owned g e m n l (inl h) =
    Granted-lease_owned true g e m n l (register_end-Granted g e m n l h).0
register-lease_owned g e m n l (inr h) =
    Granted-lease_owned false g e m n l (register_provisional-Granted g e m n l h)

-- What the reply of a stop comes to for a lease: it is not owned any more, or the reply is refused, and
-- then the stop raises and leaves the coordinator as it was.
abbrev pub Dropped : MonitorCoordinator → MonitorLease → MonitorCoordinator × Bool → Type 0
Dropped n l r = (lease_owned r.0 l ≡ false) ⊎ ((r.0 ≡ n) × (r.1 ≡ true))
