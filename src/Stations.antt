-- ===== src/Stations.antt =====
-- custom_components/doorfast/stations.py, `StationRegistryCoordinator`. A monitor coordinator is known
-- by the number that the factory gives it; whether closing it succeeds is an argument. The listeners'
-- callbacks are the notices, in order.
pub mod Refresh
use doorfastforha.Prelude.{
  same_bool, ℕ, zero, suc, ◌+◌, ◌≤◌, ◌≡◌, String, Bool, true, false, ◌||◌, ◌&&◌, not, List, [], ◌∷◌,
  ◌++◌, Option, none, some, if◌then◌else◌, ltb, leb, ◌==◌, contains, string_eq, length, str_eq,
  is_some, Dict, lookup, insert, delete, keys, Eq,
}
use doorfastforha.ClientTypes.{DoorfastStation, DoorfastStationSnapshot}

pub record Monitor : Type 0 where
  pub serial : ℕ
  pub runtime_id : String
  pub station_id : String

pub data Notice : Type 0 where
  added : String → Notice
  updated : String → Notice
  removed : String → Notice

pub record Registry : Type 0 where
  pub snapshot : Option DoorfastStationSnapshot
  pub stations : Dict String DoorfastStation
  pub monitors : Dict String Monitor
  pub created : ℕ
  pub closed : Bool

unfoldable pub create : Registry
create = record { snapshot = none; stations = []; monitors = []; created = 0; closed = false }

-- A part of a refresh: the registry, what the listeners heard, and whether it ran to its end.
abbrev pub Part : Type 0
Part = Registry × List Notice × Bool

abbrev pub prefix : List Notice → Part → Part
prefix ns (r, ms, b) = (r, ns ++ ms, b)

-- An exception skips the rest.
abbrev pub after : Part → (Registry → Part) → Part
after (r, ns, false) k = (r, ns, false)
after (r, ns, true) k = prefix ns (k r)

abbrev pub same_seen : Option ℕ → Option ℕ → Bool
same_seen none none = true
same_seen (some m) (some n) = m == n
same_seen _ _ = false

-- `previous == station`, the equality of the dataclass.
unfoldable pub same_station : DoorfastStation → DoorfastStation → Bool
same_station a b =
    str_eq a.station_id b.station_id
    && (str_eq a.name b.name
        && (str_eq a.logical_address b.logical_address
            && (same_bool a.enabled b.enabled
                && (str_eq a.stream_name b.stream_name
                    && (str_eq a.route_source b.route_source
                        && (same_bool a.route_fresh b.route_fresh
                            && (same_bool a.monitorable b.monitorable
                                && same_seen a.last_seen_ms b.last_seen_ms)))))))

-- Whether `async_close` of the monitor returns.
module _ (closes : Monitor → Bool) where
  -- `_remove`.
  unfoldable pub remove : String → Registry → Part
  remove id r = elim (lookup id r.monitors) [
    | none ↦ (r, [], false)
    | some m ↦
        if closes m
        then (
          record r { monitors = delete id r.monitors; stations = delete id r.stations },
          removed id ∷ [],
          true,
        )
        else (r, [], false)
  ]

  -- The removal of those of the listed stations that are not kept.
  unfoldable pub remove_unless : (String → Bool) → List String → Registry → Part
  remove_unless keep [] r = (r, [], true)
  remove_unless keep (id ∷ ids) r =
      if keep id then remove_unless keep ids r else after (remove id r) (remove_unless keep ids)

unfoldable pub add_station : String → DoorfastStation → Registry → Part
add_station runtime s r = (
  record r {
    stations = insert s.station_id s r.stations;
    monitors =
        insert s.station_id
          (record { serial = r.created; runtime_id = runtime; station_id = s.station_id })
          r.monitors;
    created = r.created + 1;
  },
  added s.station_id ∷ [],
  true,
)

-- The loop of `_replace_runtime`.
unfoldable pub add_each : String → List DoorfastStation → Registry → Part
add_each runtime [] r = (r, [], true)
add_each runtime (s ∷ ss) r =
    if s.enabled
    then after (add_station runtime s r) (add_each runtime ss)
    else add_each runtime ss r

-- One enabled station of a newer snapshot of the same runtime.
unfoldable pub update_station : String → DoorfastStation → Registry → Part
update_station runtime s r = elim (lookup s.station_id r.stations) [
  | none ↦ add_station runtime s r
  | some previous ↦ if same_station previous s then (r, [], true) else (
    record r { stations = insert s.station_id s r.stations },
    updated s.station_id ∷ [],
    true,
  )
]

unfoldable pub update_each : String → List DoorfastStation → Registry → Part
update_each runtime [] r = (r, [], true)
update_each runtime (s ∷ ss) r =
    if s.enabled
    then after (update_station runtime s r) (update_each runtime ss)
    else update_each runtime ss r

-- `station_id in incoming`.
abbrev pub is_incoming : List DoorfastStation → String → Bool
is_incoming [] id = false
is_incoming (s ∷ ss) id = (s.enabled && str_eq s.station_id id) || is_incoming ss id

pub data Refreshed : Type 0 where
  changed : Refreshed
  unchanged : Refreshed
  raised : Refreshed

-- `self._snapshot = snapshot; return True`, unless the part raised.
abbrev pub commit : DoorfastStationSnapshot → Part → Registry × List Notice × Refreshed
commit snap (r, ns, true) = (record r { snapshot = some snap }, ns, changed)
commit snap (r, ns, false) = (r, ns, raised)

unfoldable pub replace_runtime : (Monitor → Bool) → DoorfastStationSnapshot → Registry → Part
replace_runtime closes snap r =
    after (remove_unless closes (λ _. false) (keys r.stations) r)
      (add_each snap.runtime_id snap.stations)

unfoldable pub advance : (Monitor → Bool) → DoorfastStationSnapshot → Registry → Part
advance closes snap r =
    after (remove_unless closes (is_incoming snap.stations) (keys r.stations) r)
      (update_each snap.runtime_id snap.stations)

-- `async_refresh`, on the snapshot that the client returns.
unfoldable pub refresh :
    (Monitor → Bool) → Registry → DoorfastStationSnapshot → Registry × List Notice × Refreshed
refresh closes r snap = if r.closed then (r, [], raised) else elim r.snapshot [
  | none ↦ commit snap (replace_runtime closes snap r)
  | some current ↦
      if str_eq current.runtime_id snap.runtime_id && current.revision == snap.revision
      then (r, [], unchanged)
      else if str_eq current.runtime_id snap.runtime_id
      then commit snap (advance closes snap r)
      else commit snap (replace_runtime closes snap r)
]

abbrev pub all_close : (Monitor → Bool) → Dict String Monitor → Bool
all_close closes [] = true
all_close closes ((id, m) ∷ ms) = closes m && all_close closes ms

-- `async_close`: all monitors are closed, and it raises if one of them did.
unfoldable pub close : (Monitor → Bool) → Registry → Registry × Bool
close closes r = if r.closed then (r, true) else (
  record r { snapshot = none; stations = []; monitors = []; closed = true },
  all_close closes r.monitors,
)
