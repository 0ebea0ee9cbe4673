-- ===== src/Client/Stopped/Acknowledged.antt =====
-- custom_components/doorfast/client.py, `stop_monitor`: what an acknowledged stop does to later reports.
use doorfastforha.Prelude.{
  ◌≡◌, inl, inr, sym, ap, ◌∙◌, subst, true, false, List, [], Option, none, some, string_eq, lookup,
  if_cases, Option-cases, some_inj, >>=-eq-some, All,
}
use doorfastforha.Value.{Value, dict, Fields, get, as_dict, is_text}
use doorfastforha.Value.Equal.{same_value}
use doorfastforha.Client.{DoorfastClient}
use doorfastforha.Client.Previews.{
  StopRequest, call_owns_station, fence_stopped_previews, supersede, raise_fence, show_stop,
  bind_runtime, with_pending, stop_monitor_end, monitor_status_end,
}
use doorfastforha.Client.Stopped.{is_preview, IsStopped, HeldValue, Fits}
use doorfastforha.Client.Current.{show_stop-MediaOf}
use doorfastforha.Client.Schedule.{Op, run}
use doorfastforha.Client.Stopped.Later.{Sustained, HasFence, run-HasFence, runtime-MediaOf}
use doorfastforha.Client.Stopped.Rows.{
  true-ne-false, media_of, lookup-insert_self, stop_shares, rows_of, rows_of-Fits,
}

-- A client that holds the stop keeps the preview out of what owns anything.
monitor_status-Fits :
    (r : StopRequest) (c : DoorfastClient) (asked : Value) (reply shown : Fields)
    → IsStopped r c.status c
    → monitor_status_end asked reply c ≡ some shown
    → same_value (get shown "runtime_id") (get c.status "runtime_id") ≡ true
    → All (λ v. is_preview r v ≡ false) (rows_of shown)
unfolding monitor_status_end
monitor_status-Fits r c asked reply shown h =
    let bound = bind_runtime asked reply in
    if_cases
      (λ (o : Option Fields).
        o ≡ some shown
        → same_value (get shown "runtime_id") (get c.status "runtime_id") ≡ true
        → All (λ v. is_preview r v ≡ false) (rows_of shown))
      (same_value (get bound "runtime_id") (get c.status "runtime_id"))
      (λ _ k _. rows_of-Fits r c.status c true bound shown h k)
      (λ other k same. absurd (
        true-ne-false (
          sym same
          ∙ ap (λ d. same_value (get d "runtime_id") (get c.status "runtime_id")) (sym (some_inj k))
          ∙ other)))

stop-HasFence_after :
    (r : StopRequest) (c : DoorfastClient) (s : Fields)
    → show_stop r (raise_fence r (supersede c)) ≡ some s
    → is_text (get c.status "runtime_id") r.runtime_id ≡ true
    → HasFence r (record (raise_fence r (supersede c)) { status = s })
unfolding raise_fence supersede
stop-HasFence_after r c s shown runtime = record {
  fenced = lookup-insert_self r.station_id _ c.preview_stop_fences;
  runtime =
      ap (λ v. is_text v r.runtime_id)
        (runtime-MediaOf c.status s (show_stop-MediaOf r (raise_fence r (supersede c)) s shown))
      ∙ runtime;
}

-- Once a stop is acknowledged, and whatever stretches of other operations run then, except a refresh
-- with another runtime and another stop for the station: no status of the monitors for the runtime, from
-- a request of any time, lists the stopped preview among what owns the station, whatever the bridge
-- replies, unless at that moment a call has been accepted since the stop or the status has a call that
-- owns the station.
pub stop_monitor_end-monitor_status :
    (r : StopRequest) (response : Fields) (c d : DoorfastClient) (s : Fields) (ops : List Op)
    (asked : Value) (reply shown : Fields)
    → stop_monitor_end r response c ≡ (d, some (some s))
    → Sustained r ops
    → lookup r.station_id (run ops d).accepted_station_calls ≡ r.accepted
    → ((v : Value) → call_owns_station (run ops d).status r.station_id v ≡ some false)
    → monitor_status_end asked reply (run ops d) ≡ some shown
    → same_value (get shown "runtime_id") (get (run ops d).status "runtime_id") ≡ true
    → All (λ v. is_preview r v ≡ false) (rows_of shown)
stop_monitor_end-monitor_status r response c d s ops asked reply shown h sustained no_call unowned k
      same =
    let (runtime, shares, left) = stop_shares r response c d s h in
    let held =
      run-HasFence r ops d sustained
        (subst (HasFence r) left (stop-HasFence_after r c s shares runtime)) in
    monitor_status-Fits r (run ops d) asked reply shown
      (record {
        fenced = held.fenced;
        runtime = held.runtime;
        no_call = no_call;
        unowned = unowned;
      })
      k same

raised-IsStopped :
    (r : StopRequest) (c : DoorfastClient)
    → is_text (get c.status "runtime_id") r.runtime_id ≡ true
    → lookup r.station_id c.accepted_station_calls ≡ r.accepted
    → ((v : Value) → call_owns_station c.status r.station_id v ≡ some false)
    → IsStopped r c.status (raise_fence r (supersede c))
unfolding raise_fence supersede
raised-IsStopped r c runtime no_call unowned = record {
  fenced = lookup-insert_self r.station_id _ c.preview_stop_fences;
  runtime = runtime;
  no_call = no_call;
  unowned = unowned;
}

-- The media of a status, if it has any.
abbrev pub media_rows : Fields → List Value
media_rows s = elim (as_dict (get s "media")) [ none ↦ [] | some media ↦ rows_of media ]

shown-Fits :
    (r : StopRequest) (c : DoorfastClient) (s : Fields)
    → IsStopped r c.status c
    → show_stop r c ≡ some s
    → All (Fits r false) (media_rows s)
unfolding show_stop
shown-Fits r c s h k = elim (Option-cases (as_dict (get c.status "media"))) [
  | inl e ↦
      subst (λ t. All (Fits r false) (media_rows t)) (some_inj (rw (e, show_stop) at k))
        (rw (e, media_rows) tt)
  | inr (media, e) ↦
      (let (m, _, k1) = >>=-eq-some (with_pending r media c) _ (rw (e, show_stop) at k) in
        let (fenced, e2, k2) = >>=-eq-some (fence_stopped_previews c c.status m false) _ k1 in
        subst (λ t. All (Fits r false) (media_rows t)) (some_inj k2)
          (rw (media_of (dict fenced) c.status, media_rows)
            (rows_of-Fits r c.status c false m fenced h e2)))
]

-- Once a stop is acknowledged, and unless a call has the station, the shared status lists the stopped
-- preview only as ended, or as stopping, not ready and without a live source.
pub stop_monitor_end-held :
    (r : StopRequest) (response : Fields) (c d : DoorfastClient) (s : Fields)
    → stop_monitor_end r response c ≡ (d, some (some s))
    → lookup r.station_id c.accepted_station_calls ≡ r.accepted
    → ((v : Value) → call_owns_station c.status r.station_id v ≡ some false)
    → All (λ v. is_preview r v ≡ true → HeldValue v) (media_rows s)
stop_monitor_end-held r response c d s h no_call unowned =
    let (runtime, shares, _) = stop_shares r response c d s h in
    shown-Fits r (raise_fence r (supersede c)) s
      (unfold raise_fence supersede in raised-IsStopped r c runtime no_call unowned) shares
