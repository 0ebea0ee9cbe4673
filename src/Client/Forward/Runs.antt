-- ===== src/Client/Forward/Runs.antt =====
-- custom_components/doorfast/client.py, `refresh`: the operation over any interleaving.
use doorfastforha.Prelude.{
  ◌≡◌, refl, sym, ap, ◌∙◌, subst, String, Bool, true, false, List, [], ◌∷◌, Option, none, some,
  arith, some_inj,
}
use doorfastforha.Value.{Value, null, Fields, dict}
use doorfastforha.SessionDiagnostics.{Operation, station_call_operation}
use doorfastforha.Client.{DoorfastClient, clear_video_cache, clear_audio_cursor}
use doorfastforha.Client.Previews.{start_monitor_end, supersede}
use doorfastforha.Client.Unlocks.{unlock_begin}
use doorfastforha.Client.Refresh.{
  RefreshRequest, refresh_begin, refresh_end, adopt, share, unfenced, drop_video, drop_audio,
  sampled, fence_media, runtime_changed, goes_back,
}
use doorfastforha.Client.Refresh.Cases.{refresh_end_cases}
use doorfastforha.Client.Current.{MediaOf, fence_media-MediaOf}
use doorfastforha.Client.Commands.{call_station_end, note_call}
use doorfastforha.Client.Media.{video_begin, audio_begin}
use doorfastforha.Client.Schedule.{
  Op, apply, run, begins_refresh, ends_refresh, starts_monitor, stops_monitor, begins_unlock,
  ends_unlock, calls_station, begins_video, ends_video, begins_audio, ends_audio, controls,
}
use doorfastforha.Client.Forward.{
  operation, Forward, operation-MediaOf, goes_back-Forward, Forward-refl, Forward-trans, Moves,
  same-Moves, stop-operation, unlock-operation, video-status, audio-status, drops-status,
  unfenced-status,
}

-- A status that is shared has the sampled operation.
share-Moves :
    (r : RefreshRequest) (changed : Bool) (o : Option Fields) (status : Fields) (c : DoorfastClient)
    → goes_back (operation c) (station_call_operation (dict status)) ≡ false
    → ((s : Fields) → o ≡ some s → MediaOf status s)
    → Moves c (share r changed o c).0
unfolding share
share-Moves r changed none status c h f = same-Moves c c refl
share-Moves r changed (some s) status c h f =
    let shown : DoorfastClient = record c {
      status = s;
      status_control_epochs = r.control_epochs;
      online = true;
    } in
    let e : operation (drop_audio changed (drop_video changed shown))
        ≡ station_call_operation (dict status) =
      ap (λ x. station_call_operation (dict x)) (drops-status changed shown)
      ∙ operation-MediaOf status s (f s refl) in
    record {
      forward = λ a b before behind same.
          goes_back-Forward a b
            (subst (λ o. goes_back (some a) o ≡ false) (sym e ∙ behind)
              (subst (λ o. goes_back o (station_call_operation (dict status)) ≡ false) before h))
            same;
    }

-- The same, where the fences are those of another runtime.
adopt-Moves :
    (r : RefreshRequest) (status : Fields) (c : DoorfastClient)
    → goes_back (operation c) (station_call_operation (dict status)) ≡ false
    → Moves c (adopt r status c).0
unfolding adopt
adopt-Moves r status c h =
    let changed = runtime_changed c.status status in
    let kept = unfenced changed c in
    let e : operation kept ≡ operation c =
      ap (λ x. station_call_operation (dict x)) (unfenced-status changed c) in
    let m =
      share-Moves r changed (fence_media kept status) status kept
        (subst (λ o. goes_back o (station_call_operation (dict status)) ≡ false) (sym e) h)
        (fence_media-MediaOf kept status) in
    record { forward = λ a b before. m.forward a b (e ∙ before) }

refresh-Moves :
    (r : RefreshRequest) (reply : Fields) (c : DoorfastClient) → Moves c (refresh_end r reply c).0
refresh-Moves r reply c =
    refresh_end_cases r reply c (λ p. Moves c p.0) (λ _. same-Moves c c refl)
      (λ t. adopt-Moves r (sampled r reply c) c t.forward)

-- Another stretch keeps the status.
begins-status :
    (c : DoorfastClient) (station : Value)
    → ((video_begin c).0.status ≡ c.status)
      × ((audio_begin c).0.status ≡ c.status)
      × ((unlock_begin station c).0.status ≡ c.status)
unfolding video_begin audio_begin unlock_begin clear_video_cache clear_audio_cursor
begins-status c station = (ground arith, ground arith, ground arith)

call-status :
    (runtime station : String) (reply : Value) (c : DoorfastClient)
    → (call_station_end runtime station reply c).0.status ≡ c.status
unfolding call_station_end note_call
call-status runtime station reply c = ground arith

status-Moves : (c d : DoorfastClient) → d.status ≡ c.status → Moves c d
status-Moves c d e = same-Moves c d (ap (λ s. station_call_operation (dict s)) e)

apply-Moves : (op : Op) (c : DoorfastClient) → Moves c (apply op c)
unfolding apply refresh_begin start_monitor_end supersede
apply-Moves begins_refresh c = status-Moves c _ refl
apply-Moves (ends_refresh r reply) c = refresh-Moves r reply c
apply-Moves (starts_monitor reply) c = status-Moves c _ refl
apply-Moves (stops_monitor r reply) c = same-Moves c _ (stop-operation r reply c)
apply-Moves (begins_unlock station) c = status-Moves c _ (begins-status c station).2
apply-Moves (ends_unlock r reply n) c = same-Moves c _ (unlock-operation r reply n c)
apply-Moves (calls_station runtime station reply) c =
    status-Moves c _ (call-status runtime station reply c)
apply-Moves begins_video c = status-Moves c _ (begins-status c null).0
apply-Moves (ends_video raises r reply) c = status-Moves c _ (video-status raises r reply c)
apply-Moves begins_audio c = status-Moves c _ (begins-status c null).1
apply-Moves (ends_audio raises r reply) c = status-Moves c _ (audio-status raises r reply c)
apply-Moves (controls epochs) c = status-Moves c _ refl

-- The shared status has an operation of the runtime, then and behind each stretch.
abbrev Operates : String → DoorfastClient → Type 0
Operates runtime c = (a : Operation) × (operation c ≡ some a) × (a.runtime_id ≡ runtime)

abbrev pub Stays : String → List Op → DoorfastClient → Type 0
Stays runtime [] c = Operates runtime c
Stays runtime (op ∷ ops) c = Operates runtime c × Stays runtime ops (apply op c)

-- Over any interleaving behind which the shared status has a valid operation of one runtime, that
-- operation is a later one in the end, or the same at a stage that is not earlier.
pub run-Forward :
    (runtime : String) (ops : List Op) (c : DoorfastClient) (a b : Operation)
    → Stays runtime ops c
    → operation c ≡ some a
    → operation (run ops c) ≡ some b
    → Forward a b
unfolding run
run-Forward runtime [] c a b stays h k = Forward-refl a b (some_inj (sym h ∙ k))
run-Forward runtime (op ∷ []) c a b ((a', first, of), (b', last, of')) h k =
    (apply-Moves op c).forward a b h k (
      ap (λ o. o.runtime_id) (some_inj (sym h ∙ first))
      ∙ of
      ∙ sym of'
      ∙ ap (λ o. o.runtime_id) (some_inj (sym last ∙ k)))
run-Forward runtime (op ∷ next ∷ ops) c a b ((a', first, of), ((m, mid, of'), stays)) h k =
    Forward-trans a m b
      ((apply-Moves op c).forward a m h mid
        (ap (λ o. o.runtime_id) (some_inj (sym h ∙ first)) ∙ of ∙ sym of'))
      (run-Forward runtime (next ∷ ops) (apply op c) m b ((m, mid, of'), stays) mid k)
