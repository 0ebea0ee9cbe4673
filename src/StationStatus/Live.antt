-- ===== src/StationStatus/Live.antt =====
-- custom_components/doorfast/station_status.py: a preview that is shown as live has a live source.
use doorfastforha.Prelude.{
  ◌≡◌, refl, sym, ap, ◌∙◌, subst, some_inj, String, Bool, true, false, ◌||◌, ◌&&◌, List, [], ◌∷◌,
  Option, none, some, if◌then◌else◌, if_cases, str_eq, any, ℕ,
}
use doorfastforha.Value.{Value, str, dict, Fields, get, as_text, as_bool, is_text, is_true}
use doorfastforha.ClientTypes.{uint64}
use doorfastforha.SessionDiagnostics.{
  CallPhase, calling, stopping, in_call, one_of, of_station, station_call_phase,
}
use doorfastforha.StationStatus.{
  Preview, phase_name, is_ended, makes_call, without_session, source_phase, session_phase,
  with_session, of_sessions, shown, preview_attributes, media_sessions,
}

abbrev HasSource : Preview → Type 0
HasSource p = p.phase ≡ some "live" → p.source_live ≡ some true

abbrev is_live : Option String → Bool
is_live none = false
is_live (some s) = str_eq s "live"

not_live : {A : Type 0} (o : Option String) → is_live o ≡ false → o ≡ some "live" → A
not_live o h e = absurd (differ (sym h ∙ ap is_live e))
  where
    differ : false ≡ true → ⊥
    differ q = cc

not_live-phase_name : (c : Option CallPhase) → is_live (phase_name c) ≡ false
not_live-phase_name none = refl
not_live-phase_name (some calling) = refl
not_live-phase_name (some stopping) = refl
not_live-phase_name (some in_call) = refl

ended_lem : (v : Value) → is_ended v ≡ true → as_text v ≡ some "live" → ⊥
unfolding one_of
ended_lem (str s) e h = differ (subst (λ t. is_ended (str t) ≡ true) (some_inj h) e)
  where
    differ : false ≡ true → ⊥
    differ q = cc
ended_lem v e h = cc

source_phase-live : (o : Option Bool) → source_phase o ≡ some "live" → o ≡ some true
source_phase-live none h = cc
source_phase-live (some true) h = refl
source_phase-live (some false) h = not_live (source_phase (some false)) refl h

abbrev IsSource : Fields → Type 0
IsSource d = (is_ended (get d "state") ≡ false) × (as_bool (get d "source_live") ≡ some true)

session_phase-live : (d : Fields) → session_phase d ≡ some "live" → IsSource d
unfolding session_phase
session_phase-live d h =
    let state = get d "state" in
    let P : Option String → Type 0 = λ o. o ≡ some "live" → IsSource d in
    if_cases P (is_ended state) (λ e t. absurd (ended_lem state e t))
      (λ on.
        if_cases P (is_text (get d "purpose") "call") (λ _. not_live (some "requesting") refl)
          (λ _.
            if_cases P (is_text state "requesting" || is_text state "queued")
              (λ _. not_live (some "requesting") refl)
              (λ _.
                if_cases P (is_text state "awaiting_video")
                  (λ _. not_live (some "awaiting_video") refl)
                  (λ _.
                    if_cases P
                      ((is_text state "publishing" || is_text state "viewing")
                        && is_true (get d "ready"))
                      (λ _ t. (on, source_phase-live (as_bool (get d "source_live")) t))
                      (λ _. not_live none refl)))))
      h

with_session-HasSource :
    (c : Option CallPhase) (d : Fields) (base : Preview)
    → base.phase ≡ phase_name c
    → HasSource (with_session c d base)
unfolding with_session
with_session-HasSource none d base e h =
    let (on, live) = session_phase-live d h in rw (on, live) refl
with_session-HasSource (some p) d base e h =
    not_live (phase_name (some p)) (not_live-phase_name (some p)) (sym e ∙ h)

base-HasSource :
    (c : Option CallPhase) (base : Preview) → base.phase ≡ phase_name c → HasSource base
base-HasSource c base e h = not_live (phase_name c) (not_live-phase_name c) (sym e ∙ h)

without_session-HasSource :
    (c : Option CallPhase) (media : Fields) (sessions : List Fields) (station : String)
    (base : Preview)
    → base.phase ≡ phase_name c
    → HasSource (without_session c media sessions station base)
unfolding without_session
without_session-HasSource (some p) media sessions station base e = base-HasSource (some p) base e
without_session-HasSource none media sessions station base e =
    marked (uint64 1 (get media "preempted_generation"))
  where
    marked :
        (o : Option ℕ)
        → HasSource (elim o [
          | none ↦ record base { phase = some "idle" }
          | some g ↦
              if is_text (get media "preempted_station_id") station && any makes_call sessions
              then record base {
                phase = some "preempted";
                source_live = some false;
                preempted_generation = some g;
              }
              else record base { phase = some "idle" }
        ])
    marked none = not_live (some "idle") refl
    marked (some g) =
        if_cases HasSource
          (is_text (get media "preempted_station_id") station && any makes_call sessions)
          (λ _. not_live (some "preempted") refl) (λ _. not_live (some "idle") refl)

shown-HasSource :
    (c : Option CallPhase) (station : String) (o : Option (Fields × List Fields)) (base : Preview)
    → base.phase ≡ phase_name c
    → HasSource (shown c station o base)
shown-HasSource c station none base e = base-HasSource c base e
shown-HasSource c station (some (media, sessions)) base e = of_these (of_station station sessions)
  where
    of_these : (ds : List Fields) → HasSource (of_sessions c media sessions station ds base)
    of_these [] = without_session-HasSource c media sessions station base e
    of_these (d ∷ []) = with_session-HasSource c d base e
    of_these (d ∷ f ∷ fs) = base-HasSource c base e

-- A preview is shown as live only with a source that the bridge reports as live.
pub preview_attributes_live :
    (status : Fields) (station : String)
    → (preview_attributes status station).phase ≡ some "live"
    → (preview_attributes status station).source_live ≡ some true
unfolding preview_attributes
preview_attributes_live status station =
    shown-HasSource (station_call_phase (dict status) (str station)) station (media_sessions status)
      _ refl
