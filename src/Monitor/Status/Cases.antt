-- ===== src/Monitor/Status/Cases.antt =====
-- custom_components/doorfast/monitor.py, `async_apply_status`: its outcomes, for any property of them.
use doorfastforha.Prelude.{
  ℕ, ◌≡◌, ◌⊎◌, refl, String, true, false, not, ◌||◌, [], ◌∷◌, Option, some, Option-cases,
  Bool-cases, inl, inr, if_cases, contains, string_eq, arith,
}
use doorfastforha.Value.{Value, get, is_text, is_text-eq, str}
use doorfastforha.Monitor.{MonitorCoordinator, idle_states}
use doorfastforha.Monitor.Status.{
  Report, Verdict, ignored, rejected, read_report, is_other, is_old, is_one_of, is_hashable,
  is_terminal, fence, finish, take_response, end_state, conclude, judge, apply_status,
}

-- A property of the outcome holds if it holds of a refusal, and of every report as read.
pub apply_status_cases {ℓ} :
    (P : MonitorCoordinator × Verdict → Type ℓ) (task : ℕ) (payload : Value)
    (m : MonitorCoordinator)
    → P (m, rejected)
    → ((r : Report) → read_report payload m ≡ some r → P (judge task r m))
    → P (apply_status task payload m)
unfolding apply_status
apply_status_cases P task payload m x f = elim (Option-cases (read_report payload m)) [
  | inl bad ↦ rw (apply_status, bad) x
  | inr (r, good) ↦ rw (apply_status, good) (f r good)
]

-- Its event or its state says that a terminal report is one.
is_terminal_cases :
    (r : Report)
    → is_terminal r ≡ true
    → (is_one_of ("monitor_preempted" ∷ "monitor_stopped" ∷ []) r.event ≡ true)
      ⊎ ((is_text r.event "monitor_failed" ≡ true) ⊎ (get r.merged "state" ≡ str "failed"))
unfolding is_terminal
is_terminal_cases r h = elim (Bool-cases (is_text r.event "monitor_preempted")) [
  | inl preempted ↦ inl (ground arith)
  | inr other ↦ elim (Bool-cases (is_text r.event "monitor_failed")) [
    | inl fails ↦ inr (inl fails)
    | inr third ↦ inr (inr (is_text-eq (get r.merged "state") "failed" (ground arith)))
  ]
]

end_state-idle : (v : Value) → contains (end_state v) idle_states ≡ true
end_state-idle v =
    if_cases (λ s. contains s idle_states ≡ true) (is_text v "failed") (λ _. refl)
      λ _.
        if_cases (λ s. contains s idle_states ≡ true) (is_text v "unavailable") (λ _. refl)
          (λ _. refl)

module _ {ℓ} (P : MonitorCoordinator × Verdict → Type ℓ) (task : ℕ) (r : Report) where
  pub judge_cases :
      (m : MonitorCoordinator)
      → P (m, ignored)
      → P (m, rejected)
      → (is_old r m ≡ false
          → is_other r m ≡ false
          → is_old r (fence r m) ≡ true
          → P (fence r m, ignored))
      → (is_old r m ≡ false → is_other r m ≡ false → P (conclude task r (fence r m)))
      → P (judge task r m)
  unfolding judge
  judge_cases m old bad late fresh =
      if_cases P (is_old r m) (λ _. old)
        λ newer.
          if_cases P (is_other r m || not (is_hashable r.event)) (λ _. bad)
            λ own.
              if_cases P (is_old r (fence r m)) (late newer (ground arith))
                (λ _. fresh newer (ground arith))

  -- With an idle state, any recoverable generation.
  pub conclude_cases :
      (m : MonitorCoordinator)
      → P (m, rejected)
      → ((o : Option ℕ) (s : String)
          → contains s idle_states ≡ true
          → P (finish task o s r.revision m))
      → P (take_response r.merged m)
      → P (conclude task r m)
  unfolding conclude
  conclude_cases m bad ends takes =
      let v = get r.merged "state" in
      let once = is_one_of ("monitor_preempted" ∷ "monitor_stopped" ∷ []) r.event in
      if_cases P (is_other r m) (λ _. bad)
        λ _.
          if_cases P once (λ _. ends _ "idle" refl)
            λ _.
              if_cases P (is_text r.event "monitor_failed") (λ _. ends _ "failed" refl)
                λ _.
                  if_cases P (not (is_hashable v)) (λ _. bad)
                    λ _.
                      if_cases P (is_one_of idle_states v)
                        (λ _. ends _ (end_state v) (end_state-idle v)) (λ _. takes)

  -- A terminal report for the known generation ends it.
  pub conclude-terminal :
      (m : MonitorCoordinator)
      → is_terminal r ≡ true
      → is_other r m ≡ false
      → ((o : Option ℕ) (s : String) → P (finish task o s r.revision m))
      → P (conclude task r m)
  unfolding conclude
  conclude-terminal m h other ends = elim (is_terminal_cases r h) [
    | inl once ↦ rw (conclude, other, once) (ends _ "idle")
    | inr (inl fails) ↦
        rw (conclude, other, fails)
          (if_cases P (is_one_of ("monitor_preempted" ∷ "monitor_stopped" ∷ []) r.event)
            (λ _. ends _ "idle") (λ _. ends _ "failed"))
    | inr (inr state) ↦
        rw (conclude, other, state)
          (if_cases P (is_one_of ("monitor_preempted" ∷ "monitor_stopped" ∷ []) r.event)
            (λ _. ends _ "idle")
            λ _.
              if_cases P (is_text r.event "monitor_failed") (λ _. ends _ "failed")
                (λ _. ends _ "failed"))
  ]
