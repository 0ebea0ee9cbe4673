-- ===== src/Tests/Previews.antt =====
-- custom_components/doorfast/station_status.py: a preview with a live source.
use doorfastforha.Prelude.{◌≡◌, refl, true, some}
use doorfastforha.Value.{bool, str, list, dict, nil, cons, Fields, end, field}
use doorfastforha.ClientTypes.{require_station_id, is_station_id}
use doorfastforha.SessionDiagnostics.{
  station_call_phase, station_call_operation, owned_phase, native_call, one_of,
}
use doorfastforha.SessionDiagnostics.Reports.{available_media}
use doorfastforha.StationStatus.{preview_attributes, media_sessions, with_session, session_phase}

abbrev status : Fields
status =
    field "media"
      (dict (
        field "sessions"
          (list (
            cons
              (dict (
                field "station_id" (str "front") (
                  field "state" (str "viewing")
                    (field "ready" (bool true) (field "source_live" (bool true) end)))))
              nil))
          end))
      end

shows_live : (preview_attributes status "front").phase ≡ some "live"
unfolding preview_attributes media_sessions available_media with_session session_phase
    station_call_phase station_call_operation owned_phase native_call one_of require_station_id
    is_station_id
shows_live = refl
