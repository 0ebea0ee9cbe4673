-- ===== src/Setup/Guarded.antt =====
-- custom_components/doorfast/setup_lifecycle.py, `sync_monitor_state`: what a synchronization can do to
-- the coordinators.
pub mod Synced
use doorfastforha.Prelude.{
  ℕ, ◌≤◌, ◌≡◌, ◌∙◌, refl, sym, ap, subst, inl, inr, String, Bool, true, false, List, [], ◌∷◌,
  Option, none, some, if◌then◌else◌, arith, contains, string_eq, str_eq, eq_iff, lookup, insert,
  lookup-insert, keys, Option-cases, Bool-cases, if_cases, some_inj,
}
use doorfastforha.Value.{Value, Fields, dict, get, is_text, as_dict}
use doorfastforha.SessionDiagnostics.{Operation}
use doorfastforha.Monitor.{MonitorCoordinator}
use doorfastforha.Monitor.Status.{Verdict, applied, ignored, rejected, apply_status}
use doorfastforha.Monitor.Reports.{apply_status-le}
use doorfastforha.Monitor.CallStatus.{
  apply_call_status, apply_call_status_cases, take_call_status, follow_operation, follow_native,
  follow_accepted, show_native, target_of,
}
use doorfastforha.Setup.{
  Coordinators, Before, sync_station, sync_each, sync_event, sync_end, then_event, targets,
  usable_sessions, item_for, completes, is_unmoved, epoch_for,
}

show_native-status_revision :
    (a b c : Bool) (g : ℕ) (t : String) (m : MonitorCoordinator)
    → (show_native a b c g t m).status_revision ≡ m.status_revision
unfolding show_native
show_native-status_revision true b c g t m = refl
show_native-status_revision false true c g t m = refl
show_native-status_revision false false true g t m = refl
show_native-status_revision false false false g t m = refl

follow_native-status_revision :
    (o : Option Operation) (b : Bool) (d : Fields) (m : MonitorCoordinator)
    → (follow_native o b d m).status_revision ≡ m.status_revision
unfolding follow_native
follow_native-status_revision o b d m = show_native-status_revision b _ _ _ _ m

follow_operation-status_revision :
    (o p : Option Operation) (b : Bool) (m : MonitorCoordinator)
    → (follow_operation o p b m).status_revision ≡ m.status_revision
unfolding follow_operation
follow_operation-status_revision none p b m = ground arith
follow_operation-status_revision (some t) p b m = refl

follow_accepted-status_revision :
    (o : Option Operation) (m : MonitorCoordinator)
    → (follow_accepted o m).status_revision ≡ m.status_revision
unfolding follow_accepted
follow_accepted-status_revision o m = ground arith

-- A status of the call leaves the revision of the media alone.
apply_call_status-status_revision :
    (c : Fields) (e : Option ℕ) (d : Fields) (m n : MonitorCoordinator)
    → apply_call_status c e d m ≡ some n
    → n.status_revision ≡ m.status_revision
unfolding take_call_status
apply_call_status-status_revision c e d m =
    apply_call_status_cases
      (λ o. (n : MonitorCoordinator) → o ≡ some n → n.status_revision ≡ m.status_revision) c e d m
      (λ n h. cc) (λ n h. ap (λ k. k.status_revision) (sym (some_inj h)))
      λ _ _ n h.
        ap (λ k. k.status_revision) (sym (some_inj h))
        ∙ follow_accepted-status_revision _ _
        ∙ follow_native-status_revision _ _ _ _
        ∙ follow_operation-status_revision (target_of _ m.station_id) _ _ m

pub completes-le :
    (m : MonitorCoordinator) (o : MonitorCoordinator × Verdict)
    → m.status_revision ≤ o.0.status_revision
    → m.status_revision ≤ (completes o).0.status_revision
completes-le m (n, applied) h = h
completes-le m (n, ignored) h = h
completes-le m (n, rejected) h = h

-- The loop flag apart.
abbrev Rises : MonitorCoordinator → MonitorCoordinator × Bool → Type 0
Rises m r = m.status_revision ≤ r.0.status_revision

pub sync_station-le :
    (t : ℕ) (b : Before) (c item : Fields) (id : String) (m : MonitorCoordinator)
    → m.status_revision ≤ (sync_station t b c item id m).0.status_revision
unfolding sync_station
sync_station-le t b c item id m =
    elim (Option-cases (apply_call_status c (epoch_for b id) b.snapshot m)) [
      | inl bad ↦ rw (sync_station, bad) (omega arith)
      | inr (n, good) ↦
          let same = apply_call_status-status_revision c (epoch_for b id) b.snapshot m n good in
          rw (sync_station, good)
            (if_cases (Rises m) (is_unmoved b id n)
              (λ _. completes-le m (apply_status t (dict item) n) (
                subst (λ k. k ≤ (apply_status t (dict item) n).0.status_revision) same
                  (apply_status-le t (dict item) n)))
              (λ _. omega (arith, same)))
    ]

-- Every coordinator is still there, at no lower revision.
pub Risen : Coordinators → Coordinators → Type 0
Risen cs ds =
    (id : String) (m : MonitorCoordinator)
    → lookup id cs ≡ some m
    → (n : MonitorCoordinator) × (lookup id ds ≡ some n) × (m.status_revision ≤ n.status_revision)

pub Risen-refl : (cs : Coordinators) → Risen cs cs
unfolding Risen
Risen-refl cs id m h = (m, h, omega arith)

pub Risen-trans : (a b c : Coordinators) → Risen a b → Risen b c → Risen a c
unfolding Risen
Risen-trans a b c f g id m h =
    let (n, found, le) = f id m h in let (k, last, up) = g id n found in (k, last, omega arith)

pub Risen-insert :
    (id : String) (m n : MonitorCoordinator) (cs : Coordinators)
    → lookup id cs ≡ some m
    → m.status_revision ≤ n.status_revision
    → Risen cs (insert id n cs)
unfolding Risen
Risen-insert id m n cs at le j k h = elim (Bool-cases (str_eq id j)) [
  | inl same ↦
      let here : id ≡ j = (eq_iff id j).0 same in
      let is_m : m ≡ k = some_inj (sym at ∙ ap (λ i. lookup i cs) here ∙ h) in
      (
        n,
        lookup-insert id j n cs ∙ ap (λ x. if x then some n else lookup j cs) same,
        subst (λ x. x.status_revision ≤ n.status_revision) is_m le,
      )
  | inr other ↦ (
    k,
    lookup-insert id j n cs ∙ ap (λ x. if x then some n else lookup j cs) other ∙ h,
    omega arith,
  )
]
