-- ===== src/Client/Refresh/Cases.antt =====
-- custom_components/doorfast/client.py, `refresh`: its early returns, and the status that it shares.
use doorfastforha.Prelude.{◌≡◌, true, false, not, Option, if_cases, ◌==◌, arith}
use doorfastforha.Value.{Fields, dict}
use doorfastforha.SessionDiagnostics.{station_call_operation}
use doorfastforha.Client.{DoorfastClient}
use doorfastforha.Client.Refresh.{
  RefreshRequest, refresh_end, same_epochs, is_outdated, goes_back, sampled, adopt,
}

module _ (r : RefreshRequest) (reply : Fields) (c : DoorfastClient) where
  -- Why a refresh shares its status.
  pub record IsTaken : Type 0 where
    pub current : (r.sequence == c.refresh_sequence) ≡ true
    pub no_unlock : same_epochs r.unlock_epochs c.unlock_epochs ≡ true
    pub in_time : is_outdated r (sampled r reply c) c ≡ false
    pub forward :
        goes_back
          (station_call_operation (dict c.status))
          (station_call_operation (dict (sampled r reply c)))
        ≡ false

  -- A refresh leaves the client as it is, or shares the sampled status.
  pub refresh_end_cases {κ} :
      (P : DoorfastClient × Option Fields → Type κ)
      → ((o : Option Fields) → P (c, o))
      → (IsTaken → P (adopt r (sampled r reply c) c))
      → P (refresh_end r reply c)
  unfolding refresh_end
  refresh_end_cases P same taken =
      if_cases P (not (r.sequence == c.refresh_sequence)) (λ _. same _)
        (λ e1.
          if_cases P (not (same_epochs r.unlock_epochs c.unlock_epochs)) (λ _. same _)
            (λ e2.
              if_cases P (is_outdated r (sampled r reply c) c) (λ _. same _)
                (λ e3.
                  if_cases P
                    (goes_back (station_call_operation (dict c.status))
                      (station_call_operation (dict (sampled r reply c))))
                    (λ _. same _)
                    (λ e4. taken (record {
                      current = ground arith;
                      no_unlock = ground arith;
                      in_time = e3;
                      forward = e4;
                    })))))
