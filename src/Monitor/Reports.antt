-- ===== src/Monitor/Reports.antt =====
-- custom_components/doorfast/monitor.py, `async_apply_status`: what a report can change.
use doorfastforha.Prelude.{
  ◌≤◌, pos, ℕ, ◌<◌, ◌≡◌, ◌⊎◌, refl, ◌∙◌, sym, ap, subst, String, Bool, true, false, Option, some,
  arith, Option-cases, Bool-cases, inl, inr, string_eq, nat_eq, some_inj,
}
use doorfastforha.Value.{int, Value, Fields, dict, has, as_nat}
use doorfastforha.Monitor.{
  get_or, MonitorCoordinator, set_response, cancel_grace, validate_identity,
}
use doorfastforha.Monitor.Status.Cases.{
  apply_status_cases, judge_cases, conclude_cases, conclude-terminal,
}
use doorfastforha.Monitor.Status.{
  Report, Verdict, applied, ignored, rejected, merge, read_report, finish, take_response, conclude,
  fence, judge, apply_status, is_old, is_other, is_terminal, terminal_target, has_revision,
}

fence-status_revision :
    (r : Report) (m : MonitorCoordinator) → (fence r m).status_revision ≡ m.status_revision
unfolding fence
fence-status_revision r m = ground arith

pub fence-is_old : (r : Report) (m : MonitorCoordinator) → is_old r (fence r m) ≡ is_old r m
unfolding is_old
fence-is_old r m = let k = fence-status_revision r m in rw k refl

-- The fence is only for terminal reports.
fence_cases : (r : Report) (m : MonitorCoordinator) → (fence r m ≡ m) ⊎ (is_terminal r ≡ true)
unfolding fence terminal_target
fence_cases r m = elim (Bool-cases (is_terminal r)) [
  | inl ends ↦ inr ends
  | inr stays ↦ inl (rw stays refl)
]

pub fence-is_other :
    (r : Report) (m : MonitorCoordinator) → is_other r m ≡ false → is_other r (fence r m) ≡ false
unfolding is_other fence
fence-is_other r m h = ground arith

-- The report is taken, with its revision, or nothing has changed.
Told : Report → MonitorCoordinator → MonitorCoordinator × Verdict → Type 0
Told r m (n, v) = ((v ≡ applied) × (n.status_revision ≡ r.revision)) ⊎ (n ≡ m)

unchanged-Told : (r : Report) (m : MonitorCoordinator) (v : Verdict) → Told r m (m, v)
unfolding Told
unchanged-Told r m v = inr refl

finish-Told :
    (t : ℕ) (o : Option ℕ) (s : String) (r : Report) (m k : MonitorCoordinator)
    → Told r k (finish t o s r.revision m)
unfolding finish Told
finish-Told t o s r m k = inl (refl, refl)

set_response-status_revision :
    (a : Bool) (d : Fields) (m n : MonitorCoordinator)
    → set_response a d m ≡ some n
    → as_nat (get_or d "status_revision" (int (pos m.status_revision))) ≡ some n.status_revision
unfolding set_response
set_response-status_revision a d m n h = ground arith

-- The revision of a report as it was read, which is that of the coordinator if the report has none.
Read : Report → MonitorCoordinator → Type 0
Read r m =
    as_nat (get_or r.merged "status_revision" (int (pos m.status_revision))) ≡ some r.revision

take_response-Told :
    (r : Report) (m : MonitorCoordinator) → Read r m → Told r m (take_response r.merged m)
unfolding Told Read take_response
take_response-Told r m e = elim (Option-cases (set_response false r.merged m)) [
  | inl bad ↦ rw (take_response, bad) (inr refl)
  | inr (n, good) ↦
      rw (take_response, good)
        (inl (refl, some_inj (sym (set_response-status_revision false r.merged m n good) ∙ e)))
]

conclude-Told : (t : ℕ) (r : Report) (m : MonitorCoordinator) → Read r m → Told r m (conclude t r m)
conclude-Told t r m e =
    conclude_cases (Told r m) t r m (unchanged-Told r m rejected) (λ o s _. finish-Told t o s r m m)
      (take_response-Told r m e)

fenced-Told :
    (t : ℕ) (r : Report) (m : MonitorCoordinator)
    → Read r m
    → is_other r m ≡ false
    → Told r m (conclude t r (fence r m))
fenced-Told t r m e own = elim (fence_cases r m) [
  | inl same ↦ subst (λ n. Told r m (conclude t r n)) (sym same) (conclude-Told t r m e)
  | inr ends ↦
      conclude-terminal (Told r m) t r (fence r m) ends (fence-is_other r m own)
        (λ o s. finish-Told t o s r (fence r m) m)
]

read_report-Read :
    (v : Value) (m : MonitorCoordinator) (r : Report) → read_report v m ≡ some r → Read r m
unfolding Read read_report
read_report-Read v m r h = ground arith

-- The report was not an old one, or nothing has changed.
Newer : Report → MonitorCoordinator → MonitorCoordinator × Verdict → Type 0
Newer r m o = (is_old r m ≡ false × Told r m o) ⊎ (o.0 ≡ m)

judge-Newer : (t : ℕ) (r : Report) (m : MonitorCoordinator) → Read r m → Newer r m (judge t r m)
unfolding Newer
judge-Newer t r m e =
    judge_cases (λ o. (is_old r m ≡ false × Told r m o) ⊎ (o.0 ≡ m)) t r m (inr refl) (inr refl)
      (λ newer _ old. let k = fence-is_old r m in ground arith)
      (λ newer own. inl (newer, fenced-Told t r m e own))

read_report-merged :
    (d : Fields) (m : MonitorCoordinator) (r : Report)
    → read_report (dict d) m ≡ some r
    → r.merged ≡ merge d
unfolding read_report
read_report-merged d m r h = ground arith

-- The identity of the coordinator stays.
Ours : MonitorCoordinator → MonitorCoordinator × Verdict → Type 0
Ours m o = (o.0.runtime_id ≡ m.runtime_id) × (o.0.station_id ≡ m.station_id)

fence-Ours : (r : Report) (m : MonitorCoordinator) (v : Verdict) → Ours m (fence r m, v)
unfolding Ours fence
fence-Ours r m v = ground arith

finish-Ours :
    (t : ℕ) (o : Option ℕ) (s : String) (k : ℕ) (m n : MonitorCoordinator)
    → n.runtime_id ≡ m.runtime_id
    → n.station_id ≡ m.station_id
    → Ours m (finish t o s k n)
unfolding Ours finish cancel_grace
finish-Ours t o s k m n a b = ground arith

set_response-Ours :
    (c : Bool) (d : Fields) (m n : MonitorCoordinator)
    → set_response c d m ≡ some n
    → Ours m (n, applied)
unfolding Ours set_response
set_response-Ours c d m n h = ground arith

take_response-Ours :
    (d : Fields) (m n : MonitorCoordinator)
    → n.runtime_id ≡ m.runtime_id
    → n.station_id ≡ m.station_id
    → Ours m (take_response d n)
unfolding Ours take_response
take_response-Ours d m n a b = elim (Option-cases (set_response false d n)) [
  | inl bad ↦ ground arith
  | inr (k, good) ↦ let (e, f) = set_response-Ours false d n k good in ground arith
]

conclude-Ours :
    (t : ℕ) (r : Report) (m n : MonitorCoordinator) (v : Verdict)
    → Ours m (n, v)
    → Ours m (conclude t r n)
unfolding Ours
conclude-Ours t r m n v (a, b) =
    conclude_cases (λ o. (o.0.runtime_id ≡ m.runtime_id) × (o.0.station_id ≡ m.station_id)) t r n
      (a, b) (λ o s _. finish-Ours t o s r.revision m n a b) (take_response-Ours r.merged m n a b)

read_report-again :
    (d : Fields) (m n : MonitorCoordinator) (r : Report) (v : Verdict)
    → Ours m (n, v)
    → has (merge d) "status_revision" ≡ true
    → read_report (dict d) m ≡ some r
    → read_report (dict d) n ≡ some r
unfolding Ours read_report validate_identity
read_report-again d m n r v (a, b) h k = rw (a, b, h) (rw h at k)

-- A report with a revision is applied and moves the revision up, or the coordinator stays as it is.
pub apply_status-newer :
    (t : ℕ) (d : Fields) (m : MonitorCoordinator)
    → has (merge d) "status_revision" ≡ true
    → (((apply_status t (dict d) m).1 ≡ applied)
        × (m.status_revision < (apply_status t (dict d) m).0.status_revision))
      ⊎ ((apply_status t (dict d) m).0 ≡ m)
unfolding Newer Told is_old
apply_status-newer t d m h =
    apply_status_cases
      (λ o. ((o.1 ≡ applied) × (m.status_revision < o.0.status_revision)) ⊎ (o.0 ≡ m)) t (dict d) m
      (inr refl)
      λ r read. elim (judge-Newer t r m (read_report-Read (dict d) m r read)) [
        | inr same ↦ inr same
        | inl (newer, inr same) ↦ inr same
        | inl (newer, inl (done, level)) ↦
            let has_one : has_revision r ≡ true =
              ap (λ x. has x "status_revision") (read_report-merged d m r read) ∙ h in
            inl (done, ground arith)
      ]

same-Ours : (m : MonitorCoordinator) (v : Verdict) → Ours m (m, v)
unfolding Ours
same-Ours m v = (refl, refl)

judge-Ours : (t : ℕ) (r : Report) (m : MonitorCoordinator) → Ours m (judge t r m)
judge-Ours t r m =
    judge_cases (Ours m) t r m (same-Ours m ignored) (same-Ours m rejected)
      (λ _ _ _. fence-Ours r m ignored)
      (λ _ _. conclude-Ours t r m (fence r m) ignored (fence-Ours r m ignored))

pub apply_status-read :
    (t : ℕ) (v : Value) (m : MonitorCoordinator) (r : Report)
    → read_report v m ≡ some r
    → apply_status t v m ≡ judge t r m
unfolding apply_status
apply_status-read t v m r h = rw (apply_status, h) refl

judge-old :
    (t : ℕ) (r : Report) (m : MonitorCoordinator) → is_old r m ≡ true → judge t r m ≡ (m, ignored)
unfolding judge
judge-old t r m h = rw (judge, h) refl

-- No report lowers the revision.
pub apply_status-le :
    (t : ℕ) (v : Value) (m : MonitorCoordinator)
    → m.status_revision ≤ (apply_status t v m).0.status_revision
unfolding Newer Told Read is_old
apply_status-le t v m =
    apply_status_cases (λ o. m.status_revision ≤ o.0.status_revision) t v m (omega arith)
      λ r read.
        let known = read_report-Read v m r read in
        elim (judge-Newer t r m known) [
          | inr same ↦ rw same (omega arith)
          | inl (newer, inr same) ↦ rw same (omega arith)
          | inl (newer, inl (done, level)) ↦ ground arith
        ]

-- The same report with a revision, applied twice, does what it does once.
pub apply_status-idempotent :
    (t : ℕ) (d : Fields) (m : MonitorCoordinator)
    → has (merge d) "status_revision" ≡ true
    → (apply_status t (dict d) (apply_status t (dict d) m).0).0 ≡ (apply_status t (dict d) m).0
unfolding is_old Newer Told
apply_status-idempotent t d m h =
    let stays : (apply_status t (dict d) m).0 ≡ m
        → (apply_status t (dict d) (apply_status t (dict d) m).0).0
          ≡ (apply_status t (dict d) m).0 =
      λ same. ap (λ x. (apply_status t (dict d) x).0) same in
    elim (Option-cases (read_report (dict d) m)) [
      | inl bad ↦
          stays (apply_status_cases (λ o. o.0 ≡ m) t (dict d) m refl (λ r good. ground arith))
      | inr (r, read) ↦
          let once = apply_status-read t (dict d) m r read in
          elim (judge-Newer t r m (read_report-Read (dict d) m r read)) [
            | inr same ↦ stays (ap (λ o. o.0) once ∙ same)
            | inl (newer, inr same) ↦ stays (ap (λ o. o.0) once ∙ same)
            | inl (newer, inl (done, level)) ↦
                let n = (judge t r m).0 in
                let has_one : has_revision r ≡ true =
                  ap (λ x. has x "status_revision") (read_report-merged d m r read) ∙ h in
                let again = read_report-again d m n r _ (judge-Ours t r m) h read in
                let late : is_old r n ≡ true = ground arith in
                ap (λ o. (apply_status t (dict d) o.0).0) once
                ∙ ap (λ o. o.0) (apply_status-read t (dict d) n r again ∙ judge-old t r n late)
                ∙ sym (ap (λ o. o.0) once)
          ]
    ]
