-- ===== src/SessionDiagnostics/Phase.antt =====
-- custom_components/doorfast/session_diagnostics.py, `station_call_phase`: which station can have a
-- call, and what an outbound call in progress rests on.
use doorfastforha.Prelude.{
  ℕ, ◌≡◌, String, true, false, not, [], ◌∷◌, Option, none, some, if◌then◌else◌, ◌==◌, contains,
  string_eq, ◌>>=◌, str_eq, eq_iff, arith, >>=-eq-some, guard-eq-some, ==_iff, &&_iff, subst,
  >>-eq-some, Option-cases, Bool-cases, inl, inr, sym, ◌∙◌, ap, some_inj,
}
use doorfastforha.Value.{is_text-eq, Value, null, str, dict, Fields, get, has, as_dict, is_text}
use doorfastforha.ClientTypes.{require_station_id, uint64}
use doorfastforha.SessionDiagnostics.{
  Operation, CallPhase, in_call, station_call_operation, station_call_phase, owned_phase,
  outbound_phase, phase_of, active_stages, native_call, mapped_session, matching_record, one_of,
  session_states,
}

require_station_id-eq : (v : Value) (s : String) → require_station_id v ≡ some s → v ≡ str s
unfolding require_station_id
require_station_id-eq (str t) s h = ap str (some_inj (>>-eq-some _ _ h).1)
require_station_id-eq v s h = cc

-- The station in the status's call record.
abbrev call_station : Value → Value
call_station v = elim (as_dict v) [ none ↦ null | some call ↦ get call "station_id" ]

abbrev text_or_null : Option String → Value
text_or_null none = null
text_or_null (some s) = str s

-- The one station whose call the status can be about.
abbrev held_by : Fields → Option Operation → Value
held_by d none = call_station (get d "call")
held_by d (some op) =
    if contains op.stage active_stages
    then text_or_null op.station_id
    else call_station (get d "call")

abbrev holder : Value → Value
holder status = elim (as_dict status) [
  | none ↦ null
  | some d ↦ held_by d (station_call_operation status)
]

-- What `native_call` has read.
native_call-holder :
    (d : Fields) (s : String) (g : ℕ)
    → native_call d s ≡ some g
    → (call : Fields) × (as_dict (get d "call") ≡ some call)
      × (get call "session" ≡ str "talking")
      × (get call "station_id" ≡ str s)
      × (uint64 1 (get call "generation") ≡ some g)
unfolding native_call
native_call-holder d s g h =
    let (call, found, h1) = >>=-eq-some (as_dict (get d "call")) _ h in
    let (talking, h2) = >>-eq-some (is_text (get call "session") "talking") _ h1 in
    let (station, h3) = >>-eq-some _ _ h2 in
    (call, found, is_text-eq _ _ talking, is_text-eq (get call "station_id") s (ground arith), h3)

owned_phase-holder :
    (d : Fields) (s : String) (p : CallPhase)
    → owned_phase d s ≡ some p
    → call_station (get d "call") ≡ str s
unfolding owned_phase
owned_phase-holder d s p h =
    let (g, native, _) = >>=-eq-some (native_call d s) _ h in
    let (call, found, _, station, _) = native_call-holder d s g native in
    rw (found, call_station) station

outbound_phase-holder :
    (d : Fields) (s : String) (op : Operation) (p : CallPhase)
    → outbound_phase d s op ≡ some p
    → op.station_id ≡ some s
unfolding outbound_phase
outbound_phase-holder d s op p h = elim (Option-cases op.station_id) [
  | inl absent ↦ ground arith
  | inr (t, found) ↦ elim (Bool-cases (str_eq t s)) [
    | inl same ↦ found ∙ ap some ((eq_iff t s).0 same)
    | inr other ↦ ground arith
  ]
]

phase_of-holder :
    (d : Fields) (s : String) (o : Option Operation) (p : CallPhase)
    → phase_of d s o ≡ some p
    → held_by d o ≡ str s
phase_of-holder d s none p h = elim (Bool-cases (has d "station_call")) [
  | inl malformed ↦ ground arith
  | inr absent ↦ owned_phase-holder d s p (ground arith)
]
phase_of-holder d s (some op) p h = elim (Bool-cases (contains op.stage active_stages)) [
  | inl active ↦ rw active (ap text_or_null (outbound_phase-holder d s op p (ground arith)))
  | inr over ↦ rw over (owned_phase-holder d s p (ground arith))
]

station_call_phase-holder :
    (status station : Value) (p : CallPhase)
    → station_call_phase status station ≡ some p
    → holder status ≡ station
unfolding station_call_phase
station_call_phase-holder status station p h =
    let (d, is_d, h1) = >>=-eq-some (as_dict status) _ h in
    let (s, is_s, h2) = >>=-eq-some (require_station_id station) _ h1 in
    ap (λ o. elim o [ none ↦ null | some e ↦ held_by e (station_call_operation status) ]) is_d
    ∙ phase_of-holder d s (station_call_operation status) p h2
    ∙ sym (require_station_id-eq station s is_s)

-- At most one station has a call in any phase.
pub station_call_phase_unique :
    (status a b : Value) (p q : CallPhase)
    → station_call_phase status a ≡ some p
    → station_call_phase status b ≡ some q
    → a ≡ b
station_call_phase_unique status a b p q h k =
    sym (station_call_phase-holder status a p h) ∙ station_call_phase-holder status b q k

-- What the media sessions of the status hold for an outbound call in progress.
pub record Mapped (d : Fields) (station : String) (op : Operation) : Type 0 where
  pub media : Fields
  pub session : Fields
  pub media_found : as_dict (get d "media") ≡ some media
  pub session_found :
      matching_record (get media "sessions") station ≡ some (session, op.media_generation)
  pub purpose : get session "purpose" ≡ str "call"

mapped_session-Mapped :
    (d : Fields) (s : String) (op : Operation) (g : ℕ)
    → mapped_session d s op g ≡ some tt
    → (op.call_generation ≡ g) × Mapped d s op
unfolding mapped_session
mapped_session-Mapped d s op g h =
    let (media, found, h1) = >>=-eq-some (as_dict (get d "media")) _ h in
    let (_, h2) = >>-eq-some _ _ h1 in
    let ((session, m), matched, h3) = >>=-eq-some (matching_record (get media "sessions") s) _ h2 in
    let (_, _, h4) = >>=-eq-some (one_of session_states (get session "state")) _ h3 in
    let both = guard-eq-some _ h4 in
    let (calls, rest) = (&&_iff (op.call_generation == g) _).0 both in
    let (medias, made) = (&&_iff (op.media_generation == m) _).0 rest in
    let same : m ≡ op.media_generation = sym ((==_iff op.media_generation m).0 medias) in
    (
      (==_iff op.call_generation g).0 calls,
      record {
        media = media;
        session = session;
        media_found = found;
        session_found =
            subst (λ n. matching_record (get media "sessions") s ≡ some (session, n)) same matched;
        purpose = is_text-eq (get session "purpose") "call" made;
      },
    )

outbound_phase-in_call :
    (d : Fields) (s : String) (op : Operation)
    → contains op.stage active_stages ≡ true
    → outbound_phase d s op ≡ some in_call
    → (op.stage ≡ "talking")
      × ((g : ℕ) × (native_call d s ≡ some g) × (mapped_session d s op g ≡ some tt))
unfolding outbound_phase
outbound_phase-in_call d s op active h =
    elim (Bool-cases (not (elim op.station_id [ none ↦ false | some t ↦ str_eq t s ]))) [
      | inl foreign ↦ ground arith
      | inr own ↦ elim (Bool-cases (contains op.stage ("preparing" ∷ "calling" ∷ []))) [
        | inl early ↦ ground arith
        | inr later ↦ elim (Bool-cases (str_eq op.stage "ending")) [
          | inl late ↦ ground arith
          | inr talks ↦
              let e : (native_call d s >>= λ g. mapped_session d s op g >>= λ _. some in_call)
                  ≡ some in_call =
                ground arith in
              let (g, native, h2) = >>=-eq-some (native_call d s) _ e in
              let (_, mapped, _) = >>=-eq-some (mapped_session d s op g) _ h2 in
              ((eq_iff op.stage "talking").0 (ground arith), (g, native, mapped))
        ]
      ]
    ]

-- An outbound operation that is in progress is one that talks, to this station, on the native call's
-- generation, with a media session of this station, made for a call, on its media generation.
pub station_call_phase-in_call :
    (d : Fields) (s : String) (op : Operation)
    → station_call_operation (dict d) ≡ some op
    → contains op.stage active_stages ≡ true
    → station_call_phase (dict d) (str s) ≡ some in_call
    → (op.stage ≡ "talking")
      × (op.station_id ≡ some s)
      × (native_call d s ≡ some op.call_generation)
      × Mapped d s op
unfolding station_call_phase outbound_phase
station_call_phase-in_call d s op found active h =
    let (t, is_s, h1) = >>=-eq-some (require_station_id (str s)) _ h in
    let same_s : t ≡ s =
      ap (λ v. elim v [ str x ↦ x | _ ↦ s ]) (sym (require_station_id-eq (str s) t is_s)) in
    let at : phase_of d s (some op) ≡ some in_call =
      sym (ap (λ x. phase_of d x (some op)) same_s) ∙ sym (ap (phase_of d t) found) ∙ h1 in
    let outbound : outbound_phase d s op ≡ some in_call = ground arith in
    let (talks, (g, native, mapped)) = outbound_phase-in_call d s op active outbound in
    let (same, m) = mapped_session-Mapped d s op g mapped in
    (talks, outbound_phase-holder d s op in_call outbound, native ∙ ap some (sym same), m)
