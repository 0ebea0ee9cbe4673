-- ===== src/Tests/Replies.antt =====
-- custom_components/doorfast/access_status.py, station_control.py, and the identity of an audio
-- stream in client_types.py.
use doorfastforha.Prelude.{◌≡◌, refl, String, true, false, some, pos, string_eq}
use doorfastforha.Value.{Value, null, bool, int, str, list, dict, nil, cons, Fields, end, field}
use doorfastforha.ClientTypes.{require_station_id, is_station_id, uint64, is_runtime_id}
use doorfastforha.SessionDiagnostics.{
  one_of, station_call_operation, station_call_phase, owned_phase, native_call,
}
use doorfastforha.Access.{
  is_station_field, is_hex_id, is_request_id, version_one, station_unlock_record,
  station_unlock_configuration, Configuration, is_consistent, submitted, accept_submitted,
  validate_unlock_reply,
}
use doorfastforha.Client.Unlocks.{fence_record}
use doorfastforha.Client.Unlocks.Fenced.{IsLatest, fence_record-IsLatest}
use doorfastforha.Control.{is_reply, validate_reply}
use doorfastforha.Audio.Hub.{AudioIdentity}
use doorfastforha.Audio.Identity.{from_status}

abbrev runtime : String
runtime = "0123456789abcdef"

abbrev request : String
request = "00000000000000a1"

abbrev row : Fields
row = field "station_id" (str "front") (
    field "runtime_id" (str runtime)
      (field "request_id" (str request) (field "phase" (str "waiting_reply") end)))

abbrev capability : Fields
capability = field "station_id" (str "front") (
    field "mode" (str "inherit") (
      field "configured" (bool true)
        (field "credential_source" (str "global") (field "reason" (str "none") end))))

abbrev status : Fields
status = field "runtime_id" (str runtime) (
    field "access"
      (dict (
        field "version" (int (pos 1)) (
          field "stations" (list (cons (dict capability) nil))
            (field "requests" (list (cons (dict row) nil)) end))))
      end)

row_selected : station_unlock_record status "front" ≡ some row
unfolding station_unlock_record is_station_field version_one is_hex_id is_request_id is_runtime_id
    one_of
row_selected = refl

abbrev configuration : Configuration
configuration = record {
  mode = "inherit";
  configured = true;
  credential_source = "global";
  reason = "none";
}

capability_selected : station_unlock_configuration status "front" ≡ some configuration
unfolding station_unlock_configuration is_station_field version_one is_hex_id is_runtime_id one_of
    is_consistent
capability_selected = refl

abbrev unlock_reply : Value
unlock_reply = dict (field "submitted" (bool true) row)

reply_accepted :
    validate_unlock_reply unlock_reply (some runtime) "front"
    ≡ some (submitted "front" runtime request "waiting_reply")
unfolding validate_unlock_reply accept_submitted is_hex_id is_request_id is_runtime_id one_of
reply_accepted = refl

abbrev preview : Fields
preview = field "runtime_id" (str runtime) (
    field "station_id" (str "front") (
      field "generation" (int (pos 2))
        (field "state" (str "preview") (field "queued" (bool false) end))))

preview_valid : validate_reply (dict (field "detail" null preview)) runtime "front" ≡ some preview
unfolding validate_reply is_reply uint64
preview_valid = refl

-- An incoming call in progress.
abbrev talking : Value
talking = dict (
    field "runtime_id" (str runtime) (
      field "call"
        (dict (
          field "session" (str "talking")
            (field "station_id" (str "front") (field "generation" (int (pos 3)) end))))
        (field "audio" (dict (field "pcm_stream_version" (int (pos 1)) end)) end)))

abbrev identity : AudioIdentity
identity = record { runtime_id = runtime; station_id = "front"; generation = 3 }

identified : from_status talking (str "front") (int (pos 3)) ≡ some identity
unfolding from_status require_station_id is_station_id is_runtime_id uint64 station_call_phase
    station_call_operation owned_phase native_call
identified = refl

-- The same request as it was read before the bridge had its media.
abbrev early_row : Fields
early_row = field "station_id" (str "front") (
    field "runtime_id" (str runtime)
      (field "request_id" (str request) (field "phase" (str "waiting_media") end)))

abbrev early_status : Fields
early_status = field "runtime_id" (str runtime) (
    field "access"
      (dict
        (field "version" (int (pos 1)) (field "requests" (list (cons (dict early_row) nil)) end)))
      end)

early_selected : station_unlock_record early_status "front" ≡ some early_row
unfolding station_unlock_record is_station_field version_one is_hex_id is_request_id is_runtime_id
    one_of
early_selected = refl

fence_record-IsLatest_example :
    (q : Fields) × (fence_record status early_status (dict early_row) ≡ dict q)
    × IsLatest row early_row q
fence_record-IsLatest_example =
    fence_record-IsLatest status early_status early_row row "front" refl early_selected row_selected
