-- ===== src/Events/Gate/Monitors.antt =====
-- custom_components/doorfast/events.py, `EventGate.accept_monitor`: the accepted events of one
-- station climb in generation and revision, whatever the window has forgotten.
use doorfastforha.Prelude.{
  ℕ, ◌<◌, ◌≡◌, refl, String, Bool, true, false, List, [], ◌∷◌, Option, ℤ, arith, Bool-cases, inl,
  inr, ◌⊎◌, All, All-map, string_eq, pair_eq, subst, ap, if◌then◌else◌, ◌∙◌, lookup-insert, insert,
  ◌&&◌,
}
use doorfastforha.Events.Gate.{
  EventGate, MonitorState, MonitorMark, state_of, stale, record_monitor, accept_monitor,
  foreign_runtime,
}

-- A call of `accept_monitor`.
pub record Call : Type 0 where
  pub mark : MonitorMark
  pub current_generation : Option ℤ
  pub current_revision : Option ℤ
  pub runtime : Option String

abbrev pub key_of : MonitorMark → String × String
key_of m = (m.runtime_id, m.station_id)

unfoldable pub step : EventGate → Call → EventGate × Bool
step g c = accept_monitor g c.mark c.current_generation c.current_revision c.runtime

-- The accepted events of one station of one runtime, as generation and revision, in order.
unfoldable pub run : String × String → EventGate → List Call → List (ℕ × ℕ)
run key g [] = []
run key g (c ∷ cs) =
    let (h, accepted) = step g c in
    let rest = run key h cs in
    if accepted && pair_eq.beq (key_of c.mark) key
    then (c.mark.generation, c.mark.status_revision) ∷ rest
    else rest

-- A later generation, or a later revision of the same one.
abbrev pub Before : ℕ × ℕ → ℕ × ℕ → Type 0
Before (g, r) (h, s) = (g < h) ⊎ ((g ≡ h) × (r < s))

Before-trans : (a b c : ℕ × ℕ) → Before a b → Before b c → Before a c
Before-trans (g, r) (h, s) (i, t) p q = ground arith

-- Each entry comes before all that follow.
abbrev pub Climbing : List (ℕ × ℕ) → Type 0
Climbing [] = Unit
Climbing (x ∷ xs) = All (Before x) xs × Climbing xs

abbrev mark_of : MonitorState → ℕ × ℕ
mark_of s = (s.generation, s.revision)

step_cases {ℓ} :
    (P : EventGate × Bool → Type ℓ) (g : EventGate) (c : Call)
    → P (g, false)
    → (let key = key_of c.mark in
        P (record g { monitor_states = insert key (state_of g key) g.monitor_states }, false))
    → (let key = key_of c.mark in
        stale (state_of g key) c.mark c.current_generation c.current_revision ≡ false
        → P (
          record g {
            monitor_states =
                insert key (record_monitor g.capacity (state_of g key) c.mark) g.monitor_states;
          },
          true,
        ))
    → P (step g c)
unfolding step accept_monitor
step_cases P g c foreign dropped kept =
    elim (Bool-cases (foreign_runtime c.runtime c.mark.runtime_id)) [
      | inl other ↦ rw other foreign
      | inr same ↦
          elim (Bool-cases
            (stale (state_of g (key_of c.mark)) c.mark c.current_generation c.current_revision)) [
              | inl old ↦ rw (same, old) dropped
              | inr new ↦ rw (same, new) (kept new)
            ]
    ]

state_of-insert :
    (g : EventGate) (k j : String × String) (s : MonitorState)
    → state_of (record g { monitor_states = insert k s g.monitor_states }) j
      ≡ (if pair_eq.beq k j then s else state_of g j)
state_of-insert g k j s = rw (lookup-insert k j s g.monitor_states, state_of) (ground arith)

fresh-Before :
    (s : MonitorState) (m : MonitorMark) (current_generation current_revision : Option ℤ)
    → stale s m current_generation current_revision ≡ false
    → Before (mark_of s) (m.generation, m.status_revision)
unfolding stale
fresh-Before s m cg cr h = ground arith

record_monitor-mark_of :
    (capacity : ℕ) (s : MonitorState) (m : MonitorMark)
    → Before (mark_of s) (m.generation, m.status_revision)
    → mark_of (record_monitor capacity s m) ≡ (m.generation, m.status_revision)
unfolding record_monitor
record_monitor-mark_of capacity s m b = ground arith

record IsClimb (s : MonitorState) (accepted : List (ℕ × ℕ)) : Type 0 where
  above : All (Before (mark_of s)) accepted
  climbing : Climbing accepted

state_of-insert_same :
    (g : EventGate) (k j : String × String)
    → state_of (record g { monitor_states = insert k (state_of g k) g.monitor_states }) j
      ≡ state_of g j
state_of-insert_same g k j = elim (Bool-cases (pair_eq.beq k j)) [
  | inl same ↦ rw (state_of-insert, same) (ap (state_of g) ((pair_eq.beq_iff k j).0 same))
  | inr other ↦ rw (state_of-insert, other)
]

accepted-IsClimb :
    (s t : MonitorState) (m : ℕ × ℕ) (rest : List (ℕ × ℕ))
    → Before (mark_of s) m
    → mark_of t ≡ m
    → IsClimb t rest
    → IsClimb s (m ∷ rest)
accepted-IsClimb s t m rest b e r =
    let up : All (Before m) rest = subst (λ x. All (Before x) rest) e r.above in
    record {
      above = (b, All-map _ _ rest (λ x p. Before-trans (mark_of s) m x b p) up);
      climbing = (up, r.climbing);
    }

run-IsClimb :
    (key : String × String) (g : EventGate) (cs : List Call)
    → IsClimb (state_of g key) (run key g cs)
unfolding run
run-IsClimb key g [] = record { above = tt; climbing = tt }
run-IsClimb key g (c ∷ cs) =
    let k = key_of c.mark in
    let m : ℕ × ℕ = (c.mark.generation, c.mark.status_revision) in
    step_cases
      (λ (r : EventGate × Bool).
        let rest = run key r.0 cs in
        IsClimb (state_of g key) (if r.1 && pair_eq.beq k key then m ∷ rest else rest))
      g c (run-IsClimb key g cs)
      (let h = record g { monitor_states = insert k (state_of g k) g.monitor_states } in
        subst (λ s. IsClimb s (run key h cs)) (state_of-insert_same g k key) (run-IsClimb key h cs))
      λ new.
        let t = record_monitor g.capacity (state_of g k) c.mark in
        let h = record g { monitor_states = insert k t g.monitor_states } in
        let b = fresh-Before (state_of g k) c.mark c.current_generation c.current_revision new in
        let r : IsClimb (state_of h key) (run key h cs) = run-IsClimb key h cs in
        elim (Bool-cases (pair_eq.beq k key)) [
          | inl same ↦
              let e : k ≡ key = (pair_eq.beq_iff k key).0 same in
              rw same (
                accepted-IsClimb (state_of g key) t m (run key h cs)
                  (subst (λ j. Before (mark_of (state_of g j)) m) e b)
                  (record_monitor-mark_of g.capacity (state_of g k) c.mark b)
                  (subst (λ s. IsClimb s (run key h cs)) (state_of-insert g k key t ∙ rw same) r))
          | inr other ↦
              rw other
                (subst (λ s. IsClimb s (run key h cs)) (state_of-insert g k key t ∙ rw other) r)
        ]

-- Along any run of calls, the events accepted for one station of one runtime climb strictly in
-- generation, or in revision within a generation; so none of them is accepted again, although the
-- gate remembers only its last event ids.
pub run-Climbing :
    (key : String × String) (g : EventGate) (cs : List Call) → Climbing (run key g cs)
run-Climbing key g cs = (run-IsClimb key g cs).climbing

stale_self :
    (s : MonitorState) (m : MonitorMark) (cg cr : Option ℤ)
    → mark_of s ≡ (m.generation, m.status_revision)
    → stale s m cg cr ≡ true
unfolding stale
stale_self s m cg cr e = ground arith

accept_monitor-stale :
    (g : EventGate) (m : MonitorMark) (cg cr : Option ℤ) (runtime : Option String)
    → stale (state_of g (key_of m)) m cg cr ≡ true
    → (accept_monitor g m cg cr runtime).1 ≡ false
unfolding accept_monitor
accept_monitor-stale g m cg cr runtime e = rw e (ground arith)

-- A monitor event that was accepted is dropped when it is delivered again, whatever the owner and
-- the runtime are by then.
accept_monitor_replay :
    (g : EventGate) (c later : Call)
    → later.mark ≡ c.mark
    → (step g c).1 ≡ true
    → (step (step g c).0 later).1 ≡ false
unfolding step
accept_monitor_replay g c later same =
    step_cases (λ r. r.1 ≡ true → (step r.0 later).1 ≡ false) g c (λ e. cc) (λ e. cc)
      λ new _.
        let k = key_of c.mark in
        let b = fresh-Before (state_of g k) c.mark c.current_generation c.current_revision new in
        let t = record_monitor g.capacity (state_of g k) c.mark in
        let h = record g { monitor_states = insert k t g.monitor_states } in
        let e : state_of h k ≡ t = state_of-insert g k k t ∙ rw (pair_eq.beq_iff k k).1 refl in
        accept_monitor-stale h later.mark later.current_generation later.current_revision
          later.runtime
          (rw (same, e)
            (stale_self t c.mark later.current_generation later.current_revision
              (record_monitor-mark_of g.capacity (state_of g k) c.mark b)))
