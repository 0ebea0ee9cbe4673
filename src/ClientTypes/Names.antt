-- ===== src/ClientTypes/Names.antt =====
-- custom_components/doorfast/client_types.py, `require_station_id`, and the pattern of
-- custom_components/doorfast/events.py for the same names.
use doorfastforha.Prelude.{ℕ, ◌≡◌, refl, List, [], ◌∷◌, arith}
use doorfastforha.ClientTypes.{is_station_id}
use doorfastforha.Events.Validate.{is_station_name}

-- The station names that the clients take are those that events may carry.
pub is_station_id-is_station_name : (cs : List ℕ) → is_station_id cs ≡ is_station_name cs
unfolding is_station_id is_station_name
is_station_id-is_station_name [] = refl
is_station_id-is_station_name (c ∷ cs) = ground arith
