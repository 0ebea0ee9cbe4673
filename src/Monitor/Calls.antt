-- ===== src/Monitor/Calls.antt =====
-- custom_components/doorfast/monitor.py, `async_apply_call_status`: how the operation and the state of
-- a station's call move with the statuses of the bridge.
use doorfastforha.Prelude.{
  ℕ, ◌≤◌, ◌≡◌, ◌∙◌, ap, sym, refl, inl, inr, String, Bool, true, false, Option, none, some, arith,
  ==_iff, lookup, string_eq, ltb, >>=-eq-some, Option-cases,
}
use doorfastforha.Value.{Fields}
use doorfastforha.SessionDiagnostics.{Operation}
use doorfastforha.Monitor.{MonitorCoordinator, or_else}
use doorfastforha.Monitor.CallStatus.{
  apply_call_status, apply_call_status_cases, take_call_status, follow_operation, follow_native,
  follow_accepted, show_native, target_of, goes_back, is_unusable, is_earlier,
  station_call_stage_order,
}

-- How far a stage is.
unfoldable pub stage_rank : String → ℕ
stage_rank stage = or_else (lookup stage station_call_stage_order) 0

-- A later operation, or the same one at no earlier stage.
pub Follows : Operation → Operation → Type 0
Follows b a =
    (a.operation_id ≤ b.operation_id)
    × (a.operation_id ≡ b.operation_id → stage_rank a.stage ≤ stage_rank b.stage)

follow_operation-operation :
    (o p : Option Operation) (b : Bool) (m : MonitorCoordinator)
    → (follow_operation o p b m).operation ≡ elim o [ none ↦ m.operation | some t ↦ some t ]
unfolding follow_operation
follow_operation-operation none p b m = ground arith
follow_operation-operation (some t) p b m = refl

show_native-operation :
    (a b c : Bool) (g : ℕ) (t : String) (m : MonitorCoordinator)
    → (show_native a b c g t m).operation ≡ m.operation
unfolding show_native
show_native-operation true b c g t m = refl
show_native-operation false true c g t m = refl
show_native-operation false false true g t m = refl
show_native-operation false false false g t m = refl

follow_native-operation :
    (o : Option Operation) (b : Bool) (d : Fields) (m : MonitorCoordinator)
    → (follow_native o b d m).operation ≡ m.operation
unfolding follow_native
follow_native-operation o b d m = show_native-operation b _ _ _ _ m

follow_accepted-operation :
    (o : Option Operation) (m : MonitorCoordinator) → (follow_accepted o m).operation ≡ m.operation
unfolding follow_accepted
follow_accepted-operation o m = ground arith

take_call_status-operation :
    (o : Option Operation) (d : Fields) (m : MonitorCoordinator)
    → (take_call_status o d m).operation
      ≡ elim (target_of o m.station_id) [ none ↦ m.operation | some t ↦ some t ]
unfolding take_call_status
take_call_status-operation o d m =
    follow_accepted-operation _ _
    ∙ follow_native-operation _ _ _ _
    ∙ follow_operation-operation (target_of o m.station_id) o _ m

target_of-some :
    (o : Option Operation) (s : String) (t : Operation) → target_of o s ≡ some t → o ≡ some t
unfolding target_of
target_of-some none s t h = cc
target_of-some (some op) s t h = ground arith

stage_rank-lookup :
    (stage : String) (x : ℕ) → lookup stage station_call_stage_order ≡ some x → stage_rank stage ≡ x
unfolding stage_rank
stage_rank-lookup stage x h = ap (λ o. or_else o 0) h

not_ltb : (x y : ℕ) → some (ltb x y) ≡ some false → y ≤ x
not_ltb x y h = ground arith

-- The stages of one operation that does not go back.
goes_back-stage_rank :
    (t a : Operation)
    → goes_back t (some a) ≡ some false
    → a.operation_id ≡ t.operation_id
    → stage_rank a.stage ≤ stage_rank t.stage
unfolding goes_back
goes_back-stage_rank t a k same =
    let equal = (==_iff t.operation_id a.operation_id).1 (sym same) in
    let both = rw equal at k in
    let (x, at_t, rest) = >>=-eq-some (lookup t.stage station_call_stage_order) _ both in
    let (y, at_a, less) = >>=-eq-some (lookup a.stage station_call_stage_order) _ rest in
    rw (stage_rank-lookup t.stage x at_t, stage_rank-lookup a.stage y at_a) (not_ltb x y less)

goes_back-Follows :
    (t a : Operation)
    → is_earlier (some t) (some a) ≡ false
    → goes_back t (some a) ≡ some false
    → Follows t a
unfolding Follows
goes_back-Follows t a h k = (ground arith, goes_back-stage_rank t a k)

Follows-refl : (a : Operation) → Follows a a
unfolding Follows
Follows-refl a = (omega arith, λ _. omega arith)

-- The operation of a coordinator after a status: it is not lost, and it follows the one before.
pub Proceeds : MonitorCoordinator → Option MonitorCoordinator → Type 0
Proceeds m none = Unit {0}
Proceeds m (some n) =
    (a : Operation) → m.operation ≡ some a → (b : Operation) × (n.operation ≡ some b) × Follows b a

take_call_status-Proceeds :
    (o : Option Operation) (d : Fields) (m : MonitorCoordinator)
    → is_earlier o m.operation ≡ false
    → ((t : Operation) → target_of o m.station_id ≡ some t → goes_back t m.operation ≡ some false)
    → Proceeds m (some (take_call_status o d m))
unfolding Proceeds
take_call_status-Proceeds o d m fresh ahead a held =
    let now = take_call_status-operation o d m in
    elim (Option-cases (target_of o m.station_id)) [
      | inl other ↦ (a, now ∙ rw other held, Follows-refl a)
      | inr (t, own) ↦
          let is_o = target_of-some o m.station_id t own in
          let later : is_earlier (some t) (some a) ≡ false =
            ap (λ p. is_earlier p (some a)) (sym is_o) ∙ ap (is_earlier o) (sym held) ∙ fresh in
          let back : goes_back t (some a) ≡ some false =
            ap (goes_back t) (sym held) ∙ ahead t own in
          (t, now ∙ rw own refl, goes_back-Follows t a later back)
    ]

is_unusable-earlier :
    (o : Option Operation) (d : Fields) (m : MonitorCoordinator)
    → is_unusable o d m ≡ false
    → is_earlier o m.operation ≡ false
unfolding is_unusable
is_unusable-earlier o d m h = ground arith

refused : (m : MonitorCoordinator) → Proceeds m none
unfolding Proceeds
refused m = tt

kept : (m : MonitorCoordinator) → Proceeds m (some m)
unfolding Proceeds
kept m a held = (a, held, Follows-refl a)

-- Whatever the status, the operation of the station's call is not lost, gives way only to one of a
-- higher number, and its own stage does not go back.
pub apply_call_status-Proceeds :
    (client : Fields) (e : Option ℕ) (d : Fields) (m : MonitorCoordinator)
    → Proceeds m (apply_call_status client e d m)
apply_call_status-Proceeds client e d m =
    apply_call_status_cases (Proceeds m) client e d m (refused m) (kept m)
      (λ fresh ahead. take_call_status-Proceeds _ d m (is_unusable-earlier _ d m fresh) ahead)
