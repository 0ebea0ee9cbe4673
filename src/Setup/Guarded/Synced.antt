-- ===== src/Setup/Guarded/Synced.antt =====
-- custom_components/doorfast/setup_lifecycle.py, the coordinators after a synchronization.
use doorfastforha.Prelude.{
  ℕ, ◌≤◌, ◌≡◌, ◌∙◌, refl, sym, ap, subst, inl, inr, String, Bool, true, false, List, [], ◌∷◌,
  Option, none, some, if◌then◌else◌, arith, contains, string_eq, str_eq, eq_iff, lookup, insert,
  lookup-insert, keys, Option-cases, Bool-cases, if_cases,
}
use doorfastforha.Value.{Value, Fields, dict, get, is_text, as_dict}
use doorfastforha.Monitor.{MonitorCoordinator}
use doorfastforha.Monitor.Status.{apply_status}
use doorfastforha.Monitor.Reports.{apply_status-le}
use doorfastforha.Setup.{
  Coordinators, Before, sync_station, sync_each, sync_event, sync_end, then_event, targets,
  usable_sessions, item_for, completes,
}
use doorfastforha.Setup.Guarded.{
  completes-le, sync_station-le, Risen, Risen-refl, Risen-trans, Risen-insert,
}

module _ (t : ℕ) (b : Before) (c : Fields) (items : String → Fields) where
  sync_each-Risen :
      (ids : List String) (cs : Coordinators) → Risen cs (sync_each t b c items ids cs).0
  unfolding sync_each
  sync_each-Risen [] cs = Risen-refl cs
  sync_each-Risen (id ∷ ids) cs = elim (Option-cases (lookup id cs)) [
    | inl gone ↦ rw (sync_each, gone) (Risen-refl cs)
    | inr (m, found) ↦
        let r = sync_station t b c (items id) id m in
        let up = Risen-insert id m r.0 cs found (sync_station-le t b c (items id) id m) in
        rw (sync_each, found)
          (elim (Bool-cases r.1) [
            | inl on ↦ rw on (Risen-trans cs _ _ up (sync_each-Risen ids (insert id r.0 cs)))
            | inr off ↦ rw off up
          ])
  ]

  -- A station that is not among those of the loop keeps its coordinator.
  sync_each-lookup :
      (ids : List String) (cs : Coordinators) (j : String)
      → contains j ids ≡ false
      → lookup j (sync_each t b c items ids cs).0 ≡ lookup j cs
  unfolding sync_each
  sync_each-lookup [] cs j h = refl
  sync_each-lookup (id ∷ ids) cs j h = elim (Option-cases (lookup id cs)) [
    | inl gone ↦ rw (sync_each, gone) refl
    | inr (m, found) ↦
        let r = sync_station t b c (items id) id m in
        let apart : str_eq id j ≡ false = ground (arith, eq_iff id j, eq_iff j id) in
        let kept : lookup j (insert id r.0 cs) ≡ lookup j cs =
          lookup-insert id j r.0 cs ∙ ap (λ x. if x then some r.0 else lookup j cs) apart in
        rw (sync_each, found)
          (elim (Bool-cases r.1) [
            | inl on ↦ rw on (sync_each-lookup ids (insert id r.0 cs) j (ground arith) ∙ kept)
            | inr off ↦ rw off kept
          ])
  ]

-- The event of a station changes the coordinator of no other one, and lowers no revision.
module _ (t : ℕ) (id : String) (v : Value) where
  sync_event_cases :
      (P : Coordinators × Bool → Type 0) (cs : Coordinators)
      → P (cs, true)
      → ((m : MonitorCoordinator) (r : MonitorCoordinator × Bool)
          → lookup id cs ≡ some m
          → m.status_revision ≤ r.0.status_revision
          → P (insert id r.0 cs, r.1))
      → P (sync_event t (some id) v cs)
  unfolding sync_event
  sync_event_cases P cs x f = elim (Option-cases (as_dict v)) [
    | inl other ↦ rw (sync_event, other) x
    | inr (d, is_d) ↦
        rw (sync_event, is_d)
          (if_cases P (is_text (get d "station_id") id)
            (λ _. elim (Option-cases (lookup id cs)) [
              | inl gone ↦ rw gone x
              | inr (m, found) ↦ rw found (
                  f m (completes (apply_status t (dict d) m)) found
                    (completes-le m (apply_status t (dict d) m) (apply_status-le t (dict d) m)))
            ])
            (λ _. x))
  ]

abbrev RisenTo : Coordinators → Coordinators × Bool → Type 0
RisenTo cs r = Risen cs r.0

then_event-Risen :
    (t : ℕ) (target : Option String) (v : Value) (cs : Coordinators) (r : Coordinators × Bool)
    → Risen cs r.0
    → Risen cs (then_event t target v r).0
unfolding sync_event
then_event-Risen t target v cs (ds, false) up = up
then_event-Risen t none v cs (ds, true) up = up
then_event-Risen t (some id) v cs (ds, true) up =
    sync_event_cases t id v (RisenTo cs) ds up
      (λ m r found le. Risen-trans cs ds _ up (Risen-insert id m r.0 ds found le))

-- The coordinator of a station.
abbrev KeptAt : String → Coordinators → Coordinators × Bool → Type 0
KeptAt j cs r = lookup j r.0 ≡ lookup j cs

then_event-lookup :
    (t : ℕ) (id j : String) (v : Value) (cs : Coordinators) (r : Coordinators × Bool)
    → str_eq id j ≡ false
    → lookup j r.0 ≡ lookup j cs
    → lookup j (then_event t (some id) v r).0 ≡ lookup j cs
then_event-lookup t id j v cs (ds, false) apart same = same
then_event-lookup t id j v cs (ds, true) apart same =
    sync_event_cases t id v (KeptAt j cs) ds same λ m r found le.
      lookup-insert id j r.0 ds ∙ ap (λ x. if x then some r.0 else lookup j ds) apart ∙ same

-- A property holds behind the reply if it holds of the coordinators before, and behind any loop.
sync_end_cases :
    (P : Coordinators × Bool → Type 0) (t : ℕ) (b : Before) (c : Fields) (reply : Value)
    (target : Option String) (event : Value) (cs : Coordinators)
    → P (cs, false)
    → P (cs, true)
    → ((items : String → Fields)
        → P (then_event t target event (sync_each t b c items (targets target cs) cs)))
    → P (sync_end t b c reply target event cs)
unfolding sync_end
sync_end_cases P t b c reply target event cs x y f = elim (Option-cases (as_dict reply)) [
  | inl bad ↦ rw (sync_end, bad) x
  | inr (d, is_d) ↦ elim (Option-cases (usable_sessions b c d)) [
    | inl foreign ↦ rw (sync_end, is_d, foreign) y
    | inr (s, usable) ↦ rw (sync_end, is_d, usable) (f (item_for d s.0 s.1))
  ]
]

-- Whatever the bridge replies, a synchronization keeps every coordinator and lowers none of their
-- revisions; if it is for one station of the registry, the coordinators of all others stay as they
-- are.
pub sync_end-Risen :
    (t : ℕ) (b : Before) (c : Fields) (reply : Value) (target : Option String) (event : Value)
    (cs : Coordinators)
    → Risen cs (sync_end t b c reply target event cs).0
      × ((id j : String)
          → target ≡ some id
          → contains id (keys cs) ≡ true
          → str_eq id j ≡ false
          → lookup j (sync_end t b c reply target event cs).0 ≡ lookup j cs)
sync_end-Risen t b c reply target event cs = (
  sync_end_cases (RisenTo cs) t b c reply target event cs (Risen-refl cs) (Risen-refl cs) (λ items.
      then_event-Risen t target event cs _ (sync_each-Risen t b c items (targets target cs) cs)),
  λ id j only listed apart.
      let alone : targets target cs ≡ id ∷ [] =
        ap (λ o. targets o cs) only ∙ ap (λ x. if x then id ∷ [] else keys cs) listed in
      let others : contains j (targets target cs) ≡ false =
        ap (contains j) alone ∙ ground (arith, eq_iff id j, eq_iff j id) in
      sync_end_cases (KeptAt j cs) t b c reply target event cs refl refl λ items.
        subst
          (λ o. KeptAt j cs (then_event t o event (sync_each t b c items (targets target cs) cs)))
          (sym only)
          (then_event-lookup t id j event cs _ apart
            (sync_each-lookup t b c items (targets target cs) cs j others)),
)
