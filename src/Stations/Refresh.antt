-- ===== src/Stations/Refresh.antt =====
-- custom_components/doorfast/stations.py, `async_refresh`: the table of stations afterwards.
pub mod Current
use doorfastforha.Prelude.{
  same_bool, ℕ, ◌≡◌, refl, String, Bool, true, false, ◌&&◌, not, List, [], ◌∷◌, Option, none, some,
  if◌then◌else◌, contains, string_eq, str_eq, eq_iff, is_some, Dict, lookup, insert, delete, keys,
  lookup-insert, lookup-delete, arith, Bool-cases, Option-cases, if_cases, inl, inr, sym, ◌∙◌, ap,
  subst, &&_iff, ◌==◌,
}
use doorfastforha.ClientTypes.{DoorfastStation, DoorfastStationSnapshot}
use doorfastforha.Stations.{
  Registry, create, Monitor, Notice, Part, prefix, after, same_station, same_seen, remove,
  remove_unless, add_station, add_each, update_station, update_each, is_incoming, Refreshed,
  changed, unchanged, commit, replace_runtime, advance, refresh,
}

-- The last enabled station of that id.
abbrev pub latest : List DoorfastStation → String → Option DoorfastStation
latest [] id = none
latest (s ∷ ss) id = elim (latest ss id) [
  | some t ↦ some t
  | none ↦ if s.enabled && str_eq s.station_id id then some s else none
]

abbrev pub or_else {ℓ} : {A : Type ℓ} → Option A → Option A → Option A
or_else (some a) o = some a
or_else none o = o

-- A property of the registry, if the part ran to its end.
abbrev pub Ends : (Registry → Type 0) → Part → Type 0
Ends P (r, ns, true) = P r
Ends P (r, ns, false) = Unit {0}

pub after-Ends :
    (P Q : Registry → Type 0) (p : Part) (k : Registry → Part)
    → Ends P p
    → ((r : Registry) → P r → Ends Q (k r))
    → Ends Q (after p k)
after-Ends P Q (r, ns, false) k h f = tt
after-Ends P Q (r, ns, true) k h f = prefixed (k r) (f r h)
  where
    prefixed : (p : Part) → Ends Q p → Ends Q (prefix ns p)
    prefixed (q, ms, true) h = h
    prefixed (q, ms, false) h = tt

-- The table, looked at one id.
abbrev pub At : String → Option DoorfastStation → Registry → Type 0
At id o r = lookup id r.stations ≡ o

same_bool-eq : (a b : Bool) → same_bool a b ≡ true → a ≡ b
same_bool-eq a b h = ground arith

same_seen-eq : (a b : Option ℕ) → same_seen a b ≡ true → a ≡ b
same_seen-eq a b h = ground arith

same_station-eq : (a b : DoorfastStation) → same_station a b ≡ true → a ≡ b
unfolding same_station
same_station-eq a b h =
    let (e1, h1) = (&&_iff (str_eq a.station_id b.station_id) _).0 h in
    let (e2, h2) = (&&_iff (str_eq a.name b.name) _).0 h1 in
    let (e3, h3) = (&&_iff (str_eq a.logical_address b.logical_address) _).0 h2 in
    let (e4, h4) = (&&_iff (same_bool a.enabled b.enabled) _).0 h3 in
    let (e5, h5) = (&&_iff (str_eq a.stream_name b.stream_name) _).0 h4 in
    let (e6, h6) = (&&_iff (str_eq a.route_source b.route_source) _).0 h5 in
    let (e7, h7) = (&&_iff (same_bool a.route_fresh b.route_fresh) _).0 h6 in
    let (e8, e9) = (&&_iff (same_bool a.monitorable b.monitorable) _).0 h7 in
    let f1 = (eq_iff a.station_id b.station_id).0 e1 in
    let f2 = (eq_iff a.name b.name).0 e2 in
    let f3 = (eq_iff a.logical_address b.logical_address).0 e3 in
    let f4 = same_bool-eq a.enabled b.enabled e4 in
    let f5 = (eq_iff a.stream_name b.stream_name).0 e5 in
    let f6 = (eq_iff a.route_source b.route_source).0 e6 in
    let f7 = same_bool-eq a.route_fresh b.route_fresh e7 in
    let f8 = same_bool-eq a.monitorable b.monitorable e8 in
    let f9 = same_seen-eq a.last_seen_ms b.last_seen_ms e9 in cc

module _ (id : String) where
  remove-At :
      (closes : Monitor → Bool) (j : String) (r : Registry)
      → Ends (At id (if str_eq j id then none else lookup id r.stations)) (remove closes j r)
  unfolding remove
  remove-At closes j r = elim (Option-cases (lookup j r.monitors)) [
    | inl absent ↦ rw (absent, Ends) tt
    | inr (m, found) ↦
        subst
          (λ o. Ends (At id (if str_eq j id then none else lookup id r.stations)) (elim o [
            | none ↦ (r, [], false)
            | some m ↦
                if closes m
                then (
                  record r { monitors = delete j r.monitors; stations = delete j r.stations },
                  Notice.removed j ∷ [],
                  true,
                )
                else (r, [], false)
          ]))
          (sym found)
          (if_cases (Ends (At id (if str_eq j id then none else lookup id r.stations))) (closes m)
            (λ _. lookup-delete j id r.stations) (λ _. tt))
  ]

  pub remove_unless-At :
      (closes : Monitor → Bool) (keep : String → Bool) (ids : List String) (r : Registry)
      → Ends
          (At id (if contains id ids && not (keep id) then none else lookup id r.stations))
          (remove_unless closes keep ids r)
  unfolding remove_unless
  remove_unless-At closes keep [] r = refl
  remove_unless-At closes keep (j ∷ js) r =
      let T = if contains id (j ∷ js) && not (keep id) then none else lookup id r.stations in
      if_cases (Ends (At id T)) (keep j)
        (λ kept.
          subst (λ o. Ends (At id o) (remove_unless closes keep js r)) (ground (arith, eq_iff id j))
            (remove_unless-At closes keep js r))
        (λ goes.
          after-Ends (At id (if str_eq j id then none else lookup id r.stations)) (At id T)
            (remove closes j r) (remove_unless closes keep js) (remove-At closes j r)
            (λ q at.
              subst (λ o. Ends (At id o) (remove_unless closes keep js q))
                (ground (arith, eq_iff id j, eq_iff j id)) (remove_unless-At closes keep js q)))

  add_station-At :
      (runtime : String) (s : DoorfastStation) (r : Registry)
      → Ends
          (At id (if str_eq s.station_id id then some s else lookup id r.stations))
          (add_station runtime s r)
  unfolding add_station
  add_station-At runtime s r = lookup-insert s.station_id id s r.stations

  update_station-At :
      (runtime : String) (s : DoorfastStation) (r : Registry)
      → Ends
          (At id (if str_eq s.station_id id then some s else lookup id r.stations))
          (update_station runtime s r)
  unfolding update_station
  update_station-At runtime s r = at (lookup s.station_id r.stations) refl
    where
      at :
          (o : Option DoorfastStation)
          → lookup s.station_id r.stations ≡ o
          → Ends (At id (if str_eq s.station_id id then some s else lookup id r.stations)) (elim o [
            | none ↦ add_station runtime s r
            | some previous ↦ if same_station previous s then (r, [], true) else (
              record r { stations = insert s.station_id s r.stations },
              Notice.updated s.station_id ∷ [],
              true,
            )
          ])
      at none e = add_station-At runtime s r
      at (some previous) e =
          if_cases (Ends (At id (if str_eq s.station_id id then some s else lookup id r.stations)))
            (same_station previous s)
            (λ same.
              let is_s : lookup s.station_id r.stations ≡ some s =
                e ∙ ap some (same_station-eq previous s same) in
              elim (Bool-cases (str_eq s.station_id id)) [
                | inl here ↦
                    rw here
                      (sym (ap (λ k. lookup k r.stations) ((eq_iff s.station_id id).0 here)) ∙ is_s)
                | inr elsewhere ↦ rw elsewhere refl
              ])
            (λ _. lookup-insert s.station_id id s r.stations)

  -- An enabled station of the id takes the place of what was there.
  later_At :
      (s : DoorfastStation) (ss : List DoorfastStation) (o : Option DoorfastStation)
      → s.enabled ≡ true
      → or_else (latest ss id) (if str_eq s.station_id id then some s else o)
        ≡ or_else (latest (s ∷ ss) id) o
  later_At s ss o on = ground arith

  skipped_At :
      (s : DoorfastStation) (ss : List DoorfastStation) (o : Option DoorfastStation)
      → s.enabled ≡ false
      → or_else (latest ss id) o ≡ or_else (latest (s ∷ ss) id) o
  skipped_At s ss o off = ground arith

  pub add_each-At :
      (runtime : String) (ss : List DoorfastStation) (r : Registry)
      → Ends (At id (or_else (latest ss id) (lookup id r.stations))) (add_each runtime ss r)
  unfolding add_each
  add_each-At runtime [] r = refl
  add_each-At runtime (s ∷ ss) r =
      let T = or_else (latest (s ∷ ss) id) (lookup id r.stations) in
      let before = if str_eq s.station_id id then some s else lookup id r.stations in
      if_cases (Ends (At id T)) s.enabled
        (λ on.
          after-Ends (At id before) (At id T) (add_station runtime s r) (add_each runtime ss)
            (add_station-At runtime s r)
            λ q at.
              subst (λ o. Ends (At id o) (add_each runtime ss q))
                (ap (or_else (latest ss id)) at ∙ later_At s ss (lookup id r.stations) on)
                (add_each-At runtime ss q))
        (λ off.
          subst (λ o. Ends (At id o) (add_each runtime ss r))
            (skipped_At s ss (lookup id r.stations) off) (add_each-At runtime ss r))

  pub update_each-At :
      (runtime : String) (ss : List DoorfastStation) (r : Registry)
      → Ends (At id (or_else (latest ss id) (lookup id r.stations))) (update_each runtime ss r)
  unfolding update_each
  update_each-At runtime [] r = refl
  update_each-At runtime (s ∷ ss) r =
      let T = or_else (latest (s ∷ ss) id) (lookup id r.stations) in
      let before = if str_eq s.station_id id then some s else lookup id r.stations in
      if_cases (Ends (At id T)) s.enabled
        (λ on.
          after-Ends (At id before) (At id T) (update_station runtime s r) (update_each runtime ss)
            (update_station-At runtime s r)
            λ q at.
              subst (λ o. Ends (At id o) (update_each runtime ss q))
                (ap (or_else (latest ss id)) at ∙ later_At s ss (lookup id r.stations) on)
                (update_each-At runtime ss q))
        (λ off.
          subst (λ o. Ends (At id o) (update_each runtime ss r))
            (skipped_At s ss (lookup id r.stations) off) (update_each-At runtime ss r))
