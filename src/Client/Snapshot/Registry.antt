-- ===== src/Client/Snapshot/Registry.antt =====
-- custom_components/doorfast/client.py, `stations`, with stations.py, `async_refresh`: the registry that
-- a client's snapshot gives.
use doorfastforha.Prelude.{
  ◌≡◌, refl, ◌∙◌, String, Bool, true, false, List, [], ◌∷◌, Option, none, some, if◌then◌else◌,
  contains, string_eq, str_eq, eq_iff, lookup, arith, All, >>=-eq-some, >>-eq-some, some_inj,
  All-map, All-apply, subst,
}
use doorfastforha.Value.{Value, get, as_dict, as_list}
use doorfastforha.ClientTypes.{DoorfastStation, DoorfastStationSnapshot}
use doorfastforha.Stations.{Registry, Monitor, Notice, refresh, changed}
use doorfastforha.Stations.Refresh.{latest}
use doorfastforha.Stations.Refresh.Current.{refresh_current}
use doorfastforha.Client.Snapshot.{
  stations, stations_of, all_distinct, ids, stream_names, snapshot_runtime_id, snapshot_revision,
}

-- A station that no later one has the id of is the last enabled one of its id.
latest-absent :
    (ss : List DoorfastStation) (id : String) → contains id (ids ss) ≡ false → latest ss id ≡ none
latest-absent [] id h = refl
latest-absent (s ∷ ss) id h =
    ground (arith, latest-absent ss id, eq_iff s.station_id id, eq_iff id s.station_id)

abbrev shown : DoorfastStation → Option DoorfastStation
shown s = if s.enabled then some s else none

-- No station of the list has the id.
others :
    (id : String) (ss : List DoorfastStation)
    → contains id (ids ss) ≡ false
    → All (λ s. str_eq id s.station_id ≡ false) ss
others id [] h = tt
others id (s ∷ ss) h = (ground arith, others id ss (ground arith))

latest-later :
    (s t : DoorfastStation) (ss : List DoorfastStation)
    → str_eq s.station_id t.station_id ≡ false
    → latest ss t.station_id ≡ shown t
    → latest (s ∷ ss) t.station_id ≡ shown t
latest-later s t ss h k = ground arith

latest-distinct :
    (ss : List DoorfastStation)
    → all_distinct (ids ss) ≡ true
    → All (λ s. latest ss s.station_id ≡ shown s) ss
unfolding all_distinct
latest-distinct [] h = tt
latest-distinct (s ∷ ss) h =
    let absent = latest-absent ss s.station_id (ground arith) in
    (
      ground (arith, eq_iff s.station_id s.station_id),
      All-apply (λ t. latest ss t.station_id ≡ shown t)
          (λ t. latest (s ∷ ss) t.station_id ≡ shown t) ss
          (All-map (λ t. str_eq s.station_id t.station_id ≡ false)
            (λ t. latest ss t.station_id ≡ shown t → latest (s ∷ ss) t.station_id ≡ shown t) ss
            (λ t. latest-later s t ss) (others s.station_id ss (ground arith)))
          (latest-distinct ss (ground arith)),
    )

stations-distinct :
    (reply : Value) (snap : DoorfastStationSnapshot)
    → stations reply ≡ some snap
    → all_distinct (ids snap.stations) ≡ true
unfolding stations
stations-distinct reply snap h =
    let (payload, _, h1) = >>=-eq-some (as_dict reply) _ h in
    let (runtime, _, h2) = >>=-eq-some (snapshot_runtime_id (get payload "runtime_id")) _ h1 in
    let (revision, _, h3) = >>=-eq-some (snapshot_revision (get payload "revision")) _ h2 in
    let (rows, _, h4) = >>=-eq-some (as_list (get payload "stations")) _ h3 in
    let (listed, _, h5) = >>=-eq-some (stations_of rows) _ h4 in
    let (unique, h6) = >>-eq-some (all_distinct (ids listed)) _ h5 in
    let (_, h7) = >>-eq-some (all_distinct (stream_names listed)) _ h6 in
    subst (λ (d : DoorfastStationSnapshot). all_distinct (ids d.stations) ≡ true) (some_inj h7)
      unique

-- After a refresh with the snapshot of a client that reports a change, the registry has each of the
-- bridge's stations under its id exactly as the bridge has described it, if it is enabled, and nothing
-- under that id if it is not.
pub refresh-stations :
    (closes : Monitor → Bool) (r q : Registry) (reply : Value) (snap : DoorfastStationSnapshot)
    (ns : List Notice)
    → stations reply ≡ some snap
    → refresh closes r snap ≡ (q, ns, changed)
    → All (λ s. lookup s.station_id q.stations ≡ (if s.enabled then some s else none)) snap.stations
refresh-stations closes r q reply snap ns h k =
    All-map (λ s. latest snap.stations s.station_id ≡ shown s)
      (λ s. lookup s.station_id q.stations ≡ shown s) snap.stations
      (λ s e. (refresh_current closes r q snap ns k s.station_id).0 ∙ e)
      (latest-distinct snap.stations (stations-distinct reply snap h))
