-- ===== src/Client/Snapshot.antt =====
-- custom_components/doorfast/client.py, `stations`: the snapshot of the stations. A raised ValueError is
-- `none`.
pub mod Registry
use doorfastforha.Prelude.{
  ℕ, String, Bool, true, false, ◌||◌, ◌&&◌, not, List, [], ◌∷◌, Option, none, some, contains,
  string_eq, map, ◌>>=◌, ◌>>◌, guard,
}
use doorfastforha.Value.{Value, get, as_dict, as_list, as_text, as_nat, codes}
use doorfastforha.ClientTypes.{
  DoorfastStation, DoorfastStationSnapshot, from_payload, is_runtime_id,
}

unfoldable pub snapshot_runtime_id : Value → Option String
snapshot_runtime_id v = do s ← as_text v; guard (is_runtime_id (codes s)); some s

unfoldable pub snapshot_revision : Value → Option ℕ
snapshot_revision v = as_nat v

unfoldable pub stations_of : List Value → Option (List DoorfastStation)
stations_of [] = some []
stations_of (v ∷ vs) = do s ← from_payload v; ss ← stations_of vs; some (s ∷ ss)

-- `len({...}) == len(...)`: no text is there twice.
unfoldable pub all_distinct : List String → Bool
all_distinct [] = true
all_distinct (s ∷ ss) = not (contains s ss) && all_distinct ss

abbrev pub ids : List DoorfastStation → List String
ids = map (λ s. s.station_id)

abbrev pub stream_names : List DoorfastStation → List String
stream_names = map (λ s. s.stream_name)

unfoldable pub stations : Value → Option DoorfastStationSnapshot
stations reply = do
  payload ← as_dict reply
  runtime ← snapshot_runtime_id (get payload "runtime_id")
  revision ← snapshot_revision (get payload "revision")
  rows ← as_list (get payload "stations")
  listed ← stations_of rows
  guard (all_distinct (ids listed))
  guard (all_distinct (stream_names listed))
  some (record { runtime_id = runtime; revision = revision; stations = listed })
