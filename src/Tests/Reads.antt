-- ===== src/Tests/Reads.antt =====
-- custom_components/doorfast/client.py: `read_audio_chunk` and `stations` at concrete replies.
use doorfastforha.Prelude.{
  ℕ, ◌≡◌, refl, String, Bool, true, false, List, [], ◌∷◌, Option, none, some, pos, All, lookup,
  string_eq, if◌then◌else◌,
}
use doorfastforha.Value.{Value, str, int, bool, list, dict, cons, nil, end, field, null}
use doorfastforha.ClientTypes.{
  DoorfastStation, DoorfastStationSnapshot, from_payload, is_runtime_id, require_station_id,
  is_station_id, require_text, require_logical_address, is_logical_address, require_stream_name,
  require_route_source, optional_non_negative_int,
}
use doorfastforha.Audio.Hub.{AudioIdentity, AudioChunk, chunk, ok}
use doorfastforha.Audio.Wav.{decode_pcm_wav, scan, take_chunk, unpack_format, finish}
use doorfastforha.Audio.Wav.Chunks.{wav, telephone_format, samples}
use doorfastforha.Client.Media.{audio_header_int, decimal}
use doorfastforha.Client.Reads.{
  Headers, read_end, bounded_audio_body, read_reply, read_chunk, audio_response_identity,
  audio_response_u64,
}
use doorfastforha.Client.Reads.Bodies.{joined}
use doorfastforha.Client.Reads.Chunks.{IsRead, read_end-IsRead}
use doorfastforha.Client.Snapshot.{
  stations, stations_of, all_distinct, snapshot_runtime_id, snapshot_revision,
}
use doorfastforha.Client.Snapshot.Registry.{refresh-stations}
use doorfastforha.Stations.{
  Registry, Monitor, Notice, create, refresh, replace_runtime, remove_unless, add_each, add_station,
  changed,
}

abbrev runtime : String
runtime = "0123456789abcdef"

abbrev parts : List (List ℕ)
parts = (1 ∷ 2 ∷ []) ∷ (3 ∷ []) ∷ [] ∷ (4 ∷ []) ∷ []

abbrev whole : List ℕ
whole = 1 ∷ 2 ∷ 3 ∷ []

parts_joined : bounded_audio_body [] parts ≡ ok whole
unfolding bounded_audio_body
parts_joined = refl

abbrev identity : AudioIdentity
identity = record { runtime_id = runtime; station_id = "front"; generation = 7 }

abbrev headers : Headers
headers =
    ("X-Doorfast-Runtime-Id", runtime)
    ∷ ("X-Doorfast-Station-Id", "front")
    ∷ ("X-Doorfast-Generation", "7")
    ∷ ("X-Doorfast-Audio-Previous-Revision", "5")
    ∷ ("X-Doorfast-Audio-Revision", "6")
    ∷ ("X-Doorfast-Audio-Dropped-Bytes", "0")
    ∷ ("X-Doorfast-Audio-Discontinuity", "0")
    ∷ ("X-Doorfast-Audio-Timestamp-Ms", "10")
    ∷ ("X-Doorfast-Audio-Latest-Timestamp-Ms", "12")
    ∷ ("X-Doorfast-Audio-Format", "s16le")
    ∷ ("X-Doorfast-Audio-Sample-Rate", "8000")
    ∷ ("X-Doorfast-Audio-Channels", "1")
    ∷ []

abbrev loads : List ℕ → Option Value
loads body = none

abbrev heard : AudioChunk
heard = record {
  identity = identity;
  previous_revision = 5;
  revision = 6;
  pcm = 1 ∷ 2 ∷ [];
  timestamp_ms = 10;
  latest_timestamp_ms = 12;
  dropped_samples = 0;
  discontinuity = false;
}

abbrev body : List ℕ
body = wav (telephone_format ∷ samples (1 ∷ 2 ∷ []) ∷ [])

heard_read : read_end loads identity (some 5) 200 headers (body ∷ []) ≡ ok (chunk heard)
unfolding read_end bounded_audio_body read_reply read_chunk audio_response_identity
    audio_response_u64 audio_header_int decimal decode_pcm_wav scan take_chunk unpack_format finish
heard_read = refl

read_end-IsRead_example : IsRead identity (some 5) headers (joined (body ∷ [])) heard
read_end-IsRead_example =
    read_end-IsRead loads identity (some 5) 200 headers (body ∷ []) heard heard_read

abbrev door : String → Bool → String → Value
door id enabled stream = dict (
    field "id" (str id) (
      field "name" (str "Door") (
        field "logical_address" (str "32:00:00:00:00:01") (
          field "enabled" (bool enabled) (
            field "stream_name" (str stream) (
              field "route_source" (str "none") (
                field "route_fresh" (bool false)
                  (field "monitorable" (bool true) (field "last_seen_ms" null end)))))))))

abbrev reply : Value
reply = dict (
    field "runtime_id" (str runtime) (
      field "revision" (int (pos 1)) (
        field "stations" (list (cons (door "front" true "a") (cons (door "back" false "b") nil)))
          end)))

abbrev station : String → Bool → String → DoorfastStation
station id enabled stream = record {
  station_id = id;
  name = "Door";
  logical_address = "32:00:00:00:00:01";
  enabled = enabled;
  stream_name = stream;
  route_source = "none";
  route_fresh = false;
  monitorable = true;
  last_seen_ms = none;
}

abbrev snapshot : DoorfastStationSnapshot
snapshot = record {
  runtime_id = runtime;
  revision = 1;
  stations = station "front" true "a" ∷ station "back" false "b" ∷ [];
}

stations_read : stations reply ≡ some snapshot
unfolding stations stations_of all_distinct snapshot_runtime_id snapshot_revision from_payload
    is_runtime_id require_station_id is_station_id require_text require_logical_address
    is_logical_address require_stream_name require_route_source optional_non_negative_int
stations_read = refl

abbrev always : Monitor → Bool
always m = true

abbrev first : Registry × List Notice
first = ((refresh always create snapshot).0, (refresh always create snapshot).1)

first_changes : refresh always create snapshot ≡ (first.0, first.1, changed)
unfolding refresh create replace_runtime remove_unless add_each add_station
first_changes = refl

refresh-stations_example :
    All
      (λ s. lookup s.station_id first.0.stations ≡ (if s.enabled then some s else none))
      snapshot.stations
refresh-stations_example =
    refresh-stations always create first.0 reply snapshot first.1 stations_read first_changes
