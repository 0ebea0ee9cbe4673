-- ===== src/Client/Refresh.antt =====
-- custom_components/doorfast/client.py, `refresh`: what of a sampled status becomes the shared one.
pub mod Cases
use doorfastforha.Prelude.{
  ℕ, ◌+◌, String, Bool, true, false, ◌||◌, ◌&&◌, not, List, [], ◌∷◌, Option, none, some,
  if◌then◌else◌, ◌==◌, ltb, str_eq, Dict, lookup, string_eq, ◌>>=◌, length,
}
use doorfastforha.Value.{
  Value, null, bool, int, float, str, list, dict, Fields, get, put, as_dict, as_text, is_text,
}
use doorfastforha.Value.Equal.{same_value}
use doorfastforha.SessionDiagnostics.{Operation, station_call_operation}
use doorfastforha.Monitor.CallStatus.{station_call_stage_order}
use doorfastforha.Client.{
  DoorfastClient, same_nat, current_video_generation, current_audio_generation, clear_video_cache,
  clear_audio_cursor,
}
use doorfastforha.Client.Previews.{fence_stopped_previews}
use doorfastforha.Client.Unlocks.{fence_unlock_status}

-- What a refresh carries over its request.
pub record RefreshRequest : Type 0 where
  pub sequence : ℕ
  pub control_epochs : Dict String ℕ
  pub unlock_epochs : Dict String ℕ
  pub acceptance_epochs : Dict String ℕ

unfoldable pub refresh_begin : DoorfastClient → DoorfastClient × RefreshRequest
refresh_begin c = (
  record c { refresh_sequence = c.refresh_sequence + 1 },
  record {
    sequence = c.refresh_sequence + 1;
    control_epochs = c.station_control_epochs;
    unlock_epochs = c.unlock_epochs;
    acceptance_epochs = c.unlock_acceptance_epochs;
  },
)

-- The stations whose number has changed.
abbrev pub moved : Dict String ℕ → Dict String ℕ → List String
moved before [] = []
moved before ((s, n) ∷ now) =
    let rest = moved before now in if same_nat (lookup s before) (some n) then rest else s ∷ rest

abbrev covers : Dict String ℕ → Dict String ℕ → Bool
covers [] e = true
covers ((s, n) ∷ d) e = same_nat (lookup s e) (some n) && covers d e

-- Equality of two dictionaries of epochs.
unfoldable pub same_epochs : Dict String ℕ → Dict String ℕ → Bool
same_epochs d e = length d == length e && covers d e

abbrev pub stage_rank : String → ℕ
stage_rank stage = elim (lookup stage station_call_stage_order) [ none ↦ 0 | some n ↦ n ]

-- The sampled operation is an earlier one, or at an earlier stage.
abbrev pub is_earlier : Operation → Operation → Bool
is_earlier new old =
    str_eq old.runtime_id new.runtime_id
    && (ltb new.operation_id old.operation_id
        || (new.operation_id == old.operation_id
            && ltb (stage_rank new.stage) (stage_rank old.stage)))

unfoldable pub goes_back : Option Operation → Option Operation → Bool
goes_back none new = false
goes_back (some old) none = false
goes_back (some old) (some new) = is_earlier new old

-- The shared status has a runtime, and the sampled one another.
unfoldable pub runtime_changed : Fields → Fields → Bool
runtime_changed previous status = elim (as_text (get previous "runtime_id")) [
  | none ↦ false
  | some runtime ↦ not (str_eq runtime "") && not (is_text (get status "runtime_id") runtime)
]

-- The status with stopped previews shown as stopping.
unfoldable pub fence_media : DoorfastClient → Fields → Option Fields
fence_media c status = elim (as_dict (get status "media")) [
  | none ↦ some status
  | some media ↦
      fence_stopped_previews c status media false >>= λ m. some (put "media" (dict m) status)
]

unfoldable pub drop_video : Bool → DoorfastClient → DoorfastClient
drop_video changed c =
    if changed || not (same_nat (current_video_generation c.status) c.video_generation)
    then clear_video_cache c
    else c

unfoldable pub drop_audio : Bool → DoorfastClient → DoorfastClient
drop_audio changed c =
    if changed || not (same_nat (current_audio_generation c.status) c.audio_generation)
    then clear_audio_cursor c
    else c

-- The sampled status becomes the shared one; `none` is a TypeError on the way.
unfoldable pub share :
    RefreshRequest → Bool → Option Fields → DoorfastClient → DoorfastClient × Option Fields
share r changed none c = (c, none)
share r changed (some shown) c = (
  drop_audio changed (
      drop_video changed
        (record c { status = shown; status_control_epochs = r.control_epochs; online = true })),
  some shown,
)

-- The fences are those of the runtime.
unfoldable pub unfenced : Bool → DoorfastClient → DoorfastClient
unfenced changed c = if changed then record c { preview_stop_fences = [] } else c

unfoldable pub adopt : RefreshRequest → Fields → DoorfastClient → DoorfastClient × Option Fields
adopt r status c =
    let changed = runtime_changed c.status status in
    share r changed (fence_media (unfenced changed c) status) (unfenced changed c)

-- A station request has begun since, in the same runtime.
unfoldable pub is_outdated : RefreshRequest → Fields → DoorfastClient → Bool
is_outdated r status c =
    not (same_epochs r.control_epochs c.station_control_epochs)
    && same_value (get status "runtime_id") (get c.status "runtime_id")

-- The sampled status behind the fence of the unlock records.
abbrev pub sampled : RefreshRequest → Fields → DoorfastClient → Fields
sampled r reply c =
    fence_unlock_status c.status (moved r.acceptance_epochs c.unlock_acceptance_epochs) reply

unfoldable pub refresh_end :
    RefreshRequest → Fields → DoorfastClient → DoorfastClient × Option Fields
refresh_end r reply c =
    let status = sampled r reply c in
    if not (r.sequence == c.refresh_sequence)
    then (c, some status)
    else if not (same_epochs r.unlock_epochs c.unlock_epochs)
    then (c, some c.status)
    else if is_outdated r status c
    then (c, some c.status)
    else if goes_back (station_call_operation (dict c.status))
        (station_call_operation (dict status))
    then (c, some c.status)
    else adopt r status c
