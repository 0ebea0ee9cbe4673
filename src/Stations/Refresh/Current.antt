-- ===== src/Stations/Refresh/Current.antt =====
-- custom_components/doorfast/stations.py, the table after a refresh that reports a change.
use doorfastforha.Prelude.{
  ◌≡◌, refl, String, Bool, true, false, ◌&&◌, not, List, [], ◌∷◌, Option, none, some, if◌then◌else◌,
  contains, string_eq, str_eq, eq_iff, is_some, Dict, lookup, keys, arith, if_cases, sym, ◌∙◌, ap,
  subst, ◌==◌,
}
use doorfastforha.ClientTypes.{DoorfastStation, DoorfastStationSnapshot}
use doorfastforha.Stations.{
  Registry, create, Monitor, Notice, Part, remove_unless, add_station, add_each, update_each,
  is_incoming, Refreshed, changed, unchanged, commit, replace_runtime, advance, refresh,
}
use doorfastforha.Stations.Refresh.{
  latest, or_else, Ends, after-Ends, At, remove_unless-At, add_each-At, update_each-At,
}

module _ (id : String) where
  -- What is in a table is among its keys.
  absent_key : (t : Dict String DoorfastStation) → contains id (keys t) ≡ false → lookup id t ≡ none
  absent_key [] h = refl
  absent_key ((j, s) ∷ t) h = ground (arith, absent_key t, eq_iff id j, eq_iff j id)

  incoming_latest : (ss : List DoorfastStation) → is_incoming ss id ≡ is_some (latest ss id)
  incoming_latest [] = refl
  incoming_latest (s ∷ ss) = ground (arith, incoming_latest ss)

  -- Once what is not kept has gone, the snapshot's stations remain.
  cleaned :
      (ss : List DoorfastStation) (keep : Bool) (t : Dict String DoorfastStation)
      → (keep ≡ true → is_some (latest ss id) ≡ true)
      → or_else (latest ss id) (if contains id (keys t) && not keep then none else lookup id t)
        ≡ latest ss id
  cleaned ss keep t h = ground (arith, absent_key t)

  replace_runtime-At :
      (closes : Monitor → Bool) (snap : DoorfastStationSnapshot) (r : Registry)
      → Ends (At id (latest snap.stations id)) (replace_runtime closes snap r)
  unfolding replace_runtime
  replace_runtime-At closes snap r =
      after-Ends
        (At id (if contains id (keys r.stations) && true then none else lookup id r.stations))
        (At id (latest snap.stations id)) _ _
        (remove_unless-At id closes (λ _. false) (keys r.stations) r)
        λ q at.
          subst (λ o. Ends (At id o) (add_each snap.runtime_id snap.stations q))
            (ap (or_else (latest snap.stations id)) at
              ∙ cleaned snap.stations false r.stations (λ e. cc))
            (add_each-At id snap.runtime_id snap.stations q)

  advance-At :
      (closes : Monitor → Bool) (snap : DoorfastStationSnapshot) (r : Registry)
      → Ends (At id (latest snap.stations id)) (advance closes snap r)
  unfolding advance
  advance-At closes snap r =
      let keep = is_incoming snap.stations id in
      after-Ends
        (At id (if contains id (keys r.stations) && not keep then none else lookup id r.stations))
        (At id (latest snap.stations id)) _ _
        (remove_unless-At id closes (is_incoming snap.stations) (keys r.stations) r)
        λ q at.
          subst (λ o. Ends (At id o) (update_each snap.runtime_id snap.stations q))
            (ap (or_else (latest snap.stations id)) at
              ∙ cleaned snap.stations keep r.stations
                  (λ e. sym (incoming_latest snap.stations) ∙ e))
            (update_each-At id snap.runtime_id snap.stations q)

  -- A refresh that changes the registry leaves the snapshot's table.
  abbrev Took : DoorfastStationSnapshot → Registry × List Notice × Refreshed → Type 0
  Took snap (r, ns, changed) =
      (lookup id r.stations ≡ latest snap.stations id) × (r.snapshot ≡ some snap)
  Took snap (r, ns, _) = Unit {0}

  commit-Took :
      (snap : DoorfastStationSnapshot) (p : Part)
      → Ends (At id (latest snap.stations id)) p
      → Took snap (commit snap p)
  commit-Took snap (r, ns, true) h = (h, refl)
  commit-Took snap (r, ns, false) h = tt

  refresh-Took :
      (closes : Monitor → Bool) (r : Registry) (snap : DoorfastStationSnapshot)
      → Took snap (refresh closes r snap)
  unfolding refresh
  refresh-Took closes r snap = if_cases (Took snap) r.closed (λ _. tt) (λ _. from r.snapshot)
    where
      from :
          (o : Option DoorfastStationSnapshot)
          → Took snap (elim o [
            | none ↦ commit snap (replace_runtime closes snap r)
            | some current ↦
                if str_eq current.runtime_id snap.runtime_id && current.revision == snap.revision
                then (r, [], unchanged)
                else if str_eq current.runtime_id snap.runtime_id
                then commit snap (advance closes snap r)
                else commit snap (replace_runtime closes snap r)
          ])
      from none = commit-Took snap _ (replace_runtime-At closes snap r)
      from (some current) =
          if_cases (Took snap)
            (str_eq current.runtime_id snap.runtime_id && current.revision == snap.revision)
            (λ _. tt)
            (λ _.
              if_cases (Took snap) (str_eq current.runtime_id snap.runtime_id)
                (λ _. commit-Took snap _ (advance-At closes snap r))
                (λ _. commit-Took snap _ (replace_runtime-At closes snap r)))

-- After a refresh that reports a change the registry holds, under each id, the snapshot's last enabled
-- station of that id, none where there is none, whatever it held before.
pub refresh_current :
    (closes : Monitor → Bool) (r q : Registry) (snap : DoorfastStationSnapshot) (ns : List Notice)
    → refresh closes r snap ≡ (q, ns, changed)
    → (id : String) → (lookup id q.stations ≡ latest snap.stations id) × (q.snapshot ≡ some snap)
refresh_current closes r q snap ns e id = subst (Took id snap) e (refresh-Took id closes r snap)

add_each_completes :
    (runtime : String) (ss : List DoorfastStation) (r : Registry) → (add_each runtime ss r).2 ≡ true
unfolding add_each add_station
add_each_completes runtime [] r = refl
add_each_completes runtime (s ∷ ss) r =
    if_cases (λ (p : Part). p.2 ≡ true) s.enabled (λ _. add_each_completes runtime ss _)
      (λ _. add_each_completes runtime ss r)

-- The first refresh always reports a change and takes the snapshot's enabled stations.
pub refresh-create :
    (closes : Monitor → Bool) (snap : DoorfastStationSnapshot) (id : String)
    → ((refresh closes create snap).2 ≡ changed)
      × (lookup id (refresh closes create snap).0.stations ≡ latest snap.stations id)
unfolding refresh create replace_runtime remove_unless
refresh-create closes snap id =
    let at = replace_runtime-At id closes snap create in
    first (replace_runtime closes snap create) at
      (add_each_completes snap.runtime_id snap.stations create)
  where
    first :
        (p : Part)
        → Ends (At id (latest snap.stations id)) p
        → p.2 ≡ true
        → ((commit snap p).2 ≡ changed)
          × (lookup id (commit snap p).0.stations ≡ latest snap.stations id)
    first (r, ns, true) h e = (refl, h)
    first (r, ns, false) h e = cc
