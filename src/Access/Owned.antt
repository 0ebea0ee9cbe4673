-- ===== src/Access/Owned.antt =====
-- custom_components/doorfast/access_status.py: what an unlock record, a capability and an accepted
-- reply are bound to.
use doorfastforha.Prelude.{
  ◌≡◌, ◌≢◌, ◌⊎◌, refl, String, true, false, ◌||◌, List, [], ◌∷◌, Option, some, ◌==◌, string_eq,
  length, eq_iff, arith, >>=-eq-some, >>-eq-some, ap, subst, some_inj, ==_iff, All, if_cases,
}
use doorfastforha.Value.{
  Value, str, Fields, get, has, as_dict, as_list, as_text, as_bool, is_text, is_text-eq, is_true,
}
use doorfastforha.SessionDiagnostics.{one_of, of_station, only}
use doorfastforha.Access.{
  is_station_field, is_hex_id, is_request_id, operation_phases, version_one, objects, Configuration,
  is_consistent, reasons, station_unlock_configuration, of_request, station_unlock_record,
  Acceptance, legacy, submitted, is_runtime_of, accept_legacy, accept_submitted,
  validate_unlock_reply,
}

-- The record is of the station and of the status's own runtime, and no other record of that runtime
-- has its request.
pub record IsOwned (status : Fields) (station : String) (row : Fields) : Type 0 where
  pub of_this_station : get row "station_id" ≡ str station
  pub runtime : String
  pub sampled : get status "runtime_id" ≡ str runtime
  pub of_runtime : get row "runtime_id" ≡ str runtime
  pub request : String
  pub of_this_request : get row "request_id" ≡ str request
  pub numbered : is_request_id request ≡ true
  pub access : Fields
  pub versioned : version_one (get status "access") ≡ some access
  pub rows : List Value
  pub listed : as_list (get access "requests") ≡ some rows
  pub unique : length (of_request runtime request (objects rows)) ≡ 1

as_text-eq : (v : Value) (s : String) → as_text v ≡ some s → v ≡ str s
as_text-eq (str t) s h = ap str (some_inj h)
as_text-eq v s h = cc

of_station-All :
    (station : String) (ds : List Fields)
    → All (λ d. is_text (get d "station_id") station ≡ true) (of_station station ds)
of_station-All station [] = tt
of_station-All station (d ∷ ds) =
    let rest = of_station-All station ds in
    if_cases (All (λ d. is_text (get d "station_id") station ≡ true))
      (is_text (get d "station_id") station) (λ h. (h, rest)) (λ _. rest)

only-All {κ} :
    (P : Fields → Type κ) (ds : List Fields) (d : Fields) → only ds ≡ some d → All P ds → P d
only-All P [] d h a = cc
only-All P (e ∷ []) d h a = subst P (some_inj h) a.0
only-All P (e ∷ f ∷ es) d h a = cc

-- A record that is shown for a station is its own, of the sampled runtime, with a request that no
-- other record of the runtime has.
pub station_unlock_record-IsOwned :
    (status : Fields) (station : String) (row : Fields)
    → station_unlock_record status station ≡ some row
    → IsOwned status station row
unfolding station_unlock_record
station_unlock_record-IsOwned status station row h =
    let (_, h1) = >>-eq-some (is_station_field station) _ h in
    let (access, versioned, h2) = >>=-eq-some (version_one (get status "access")) _ h1 in
    let (runtime, sampled, h3) = >>=-eq-some (as_text (get status "runtime_id")) _ h2 in
    let (_, h4) = >>-eq-some (is_hex_id runtime) _ h3 in
    let (rows, listed, h5) = >>=-eq-some (as_list (get access "requests")) _ h4 in
    let (r, found, h6) = >>=-eq-some (only (of_station station (objects rows))) _ h5 in
    let (owned, h7) = >>-eq-some (is_text (get r "runtime_id") runtime) _ h6 in
    let (request, asked, h8) = >>=-eq-some (as_text (get r "request_id")) _ h7 in
    let (numbered, h9) = >>-eq-some (is_request_id request) _ h8 in
    let (phase, _, h10) = >>=-eq-some (one_of operation_phases (get r "phase")) _ h9 in
    let (unique, h11) =
      >>-eq-some (length (of_request runtime request (objects rows)) == 1) (some r) h10 in
    let mine =
      only-All (λ d. is_text (get d "station_id") station ≡ true) _ r found
        (of_station-All station (objects rows)) in
    subst (IsOwned status station) (some_inj h11) (record {
      of_this_station = is_text-eq (get r "station_id") station mine;
      runtime = runtime;
      sampled = as_text-eq (get status "runtime_id") runtime sampled;
      of_runtime = is_text-eq (get r "runtime_id") runtime owned;
      request = request;
      of_this_request = as_text-eq (get r "request_id") request asked;
      numbered = numbered;
      access = access;
      versioned = versioned;
      rows = rows;
      listed = listed;
      unique = (==_iff (length (of_request runtime request (objects rows))) 1).0 unique;
    })

abbrev pub IsCoherent : Configuration → Type 0
IsCoherent c =
    (c.configured ≡ true
      → (c.reason ≡ "none")
        × (((c.mode ≡ "inherit") × (c.credential_source ≡ "global"))
            ⊎ ((c.mode ≡ "direct") × (c.credential_source ≡ "station"))))
    × (c.configured ≡ false → (c.credential_source ≡ "none") × (c.reason ≢ "none"))

is_consistent-IsCoherent : (c : Configuration) → is_consistent c ≡ true → IsCoherent c
unfolding is_consistent
is_consistent-IsCoherent c h = (
  (λ on. ground (
    arith,
    eq_iff c.reason "none",
    eq_iff c.mode "inherit",
    eq_iff c.mode "direct",
    eq_iff c.credential_source "global",
    eq_iff c.credential_source "station",
  )),
  λ off. ground (arith, eq_iff c.reason "none", eq_iff c.credential_source "none"),
)

-- A capability that is shown is coherent: a configured station takes its credentials from the source
-- of its mode and gives no reason; any other has no source, and a reason.
station_unlock_configuration-IsCoherent :
    (status : Fields) (station : String) (c : Configuration)
    → station_unlock_configuration status station ≡ some c
    → IsCoherent c
unfolding station_unlock_configuration
station_unlock_configuration-IsCoherent status station c h =
    let (_, h1) = >>-eq-some (is_station_field station) _ h in
    let (runtime, _, h2) = >>=-eq-some (as_text (get status "runtime_id")) _ h1 in
    let (_, h3) = >>-eq-some (is_hex_id runtime) _ h2 in
    let (access, _, h4) = >>=-eq-some (version_one (get status "access")) _ h3 in
    let (rows, _, h5) = >>=-eq-some (as_list (get access "stations")) _ h4 in
    let (r, _, h6) = >>=-eq-some (only (of_station station (objects rows))) _ h5 in
    let (mode, _, h7) =
      >>=-eq-some (one_of ("inherit" ∷ "direct" ∷ "disabled" ∷ []) (get r "mode")) _ h6 in
    let (configured, _, h8) = >>=-eq-some (as_bool (get r "configured")) _ h7 in
    let (source, _, h9) =
      >>=-eq-some (one_of ("none" ∷ "global" ∷ "station" ∷ []) (get r "credential_source")) _ h8 in
    let (reason, _, h10) = >>=-eq-some (one_of reasons (get r "reason")) _ h9 in
    let e : Configuration = record {
      mode = mode;
      configured = configured;
      credential_source = source;
      reason = reason;
    } in
    let (ok, h11) = >>-eq-some (is_consistent e) (some e) h10 in
    subst IsCoherent (some_inj h11) (is_consistent-IsCoherent e ok)

abbrev Bound : Option String → String → Acceptance → Type 0
Bound runtime station (legacy k) = Unit {0}
Bound runtime station (submitted s owner request phase) =
    (s ≡ station)
    × (is_hex_id owner ≡ true)
    × (is_runtime_of runtime owner ≡ true)
    × (is_request_id request ≡ true)

accept_submitted-Bound :
    (d : Fields) (runtime : Option String) (station : String) (a : Acceptance)
    → accept_submitted d runtime station ≡ some a
    → Bound runtime station a
unfolding accept_submitted
accept_submitted-Bound d runtime station a h =
    let (_, h1) = >>-eq-some (is_true (get d "submitted")) _ h in
    let (_, h2) = >>-eq-some (is_text (get d "station_id") station) _ h1 in
    let (o, _, h3) = >>=-eq-some (as_text (get d "runtime_id")) _ h2 in
    let (hex, h4) = >>-eq-some (is_hex_id o) _ h3 in
    let (ours, h5) = >>-eq-some (is_runtime_of runtime o) _ h4 in
    let (r, _, h6) = >>=-eq-some (as_text (get d "request_id")) _ h5 in
    let (numbered, h7) = >>-eq-some (is_request_id r) _ h6 in
    let (p, _, h8) = >>=-eq-some (one_of operation_phases (get d "phase")) _ h7 in
    subst (Bound runtime station) (some_inj h8) (refl, hex, ours, numbered)

accept_legacy-Bound :
    (d : Fields) (runtime : Option String) (station : String) (a : Acceptance)
    → accept_legacy d station ≡ some a
    → Bound runtime station a
unfolding accept_legacy
accept_legacy-Bound d runtime station a h =
    let (_, h1) = >>-eq-some _ _ h in subst (Bound runtime station) (some_inj h1) tt

-- An accepted reply with an identity is about this station, and about the runtime, if one is given;
-- its runtime and its request are well formed.
validate_unlock_reply-submitted :
    (reply : Value) (runtime : Option String) (station s owner request phase : String)
    → validate_unlock_reply reply runtime station ≡ some (submitted s owner request phase)
    → (s ≡ station)
      × (is_hex_id owner ≡ true)
      × (is_runtime_of runtime owner ≡ true)
      × (is_request_id request ≡ true)
unfolding validate_unlock_reply
validate_unlock_reply-submitted reply runtime station s owner request phase h =
    let (d, _, h1) = >>=-eq-some (as_dict reply) _ h in
    if_cases
      (λ o.
        o ≡ some (submitted s owner request phase)
        → Bound runtime station (submitted s owner request phase))
      (has d "runtime_id" || (has d "request_id" || has d "phase"))
      (λ _ h2. accept_submitted-Bound d runtime station _ h2)
      (λ _ h2. accept_legacy-Bound d runtime station _ h2) h1
