-- ===== src/Setup/Rollback.antt =====
-- custom_components/doorfast/setup_lifecycle.py, `rollback_entry_setup`: the clean-up of an entry whose
-- setup has failed. A step is told by how it ends; `hass.data` has the ids of the entries under
-- each key, or something that is no dictionary.
pub mod Listed
use doorfastforha.Prelude.{
  ◌≡◌, ◌∙◌, refl, ap, sym, inl, inr, String, Bool, true, false, List, [], ◌∷◌, ◌++◌, Option, none,
  some, if◌then◌else◌, contains, string_eq, str_eq, eq_iff, Dict, lookup, insert, delete,
  lookup-insert, lookup-delete, Option-cases, Bool-cases, if_cases, arith, subst,
}

pub data Step : Type 0 where
  closes_pcm : Step
  closes_provider : Step
  unregisters_webrtc : Step
  closes_monitor : Step
  closes_registry : Step
  unloads_platforms : Step
  unregisters_frontend : Step
  removes_service : String → Step

-- What the setup had acquired before it failed.
pub record Acquired : Type 0 where
  pub provider : Bool
  pub webrtc : Bool
  pub monitor : Bool
  pub station_registry : Bool
  pub platforms_forward_attempted : Bool
  pub frontend_registered : Bool
  pub view_created : Bool

-- A dictionary under a key has the ids of its entries.
abbrev pub Data : Type 0
Data = Dict String (Option (List String))

abbrev pub without : String → List String → List String
without id [] = []
without id (x ∷ xs) = let rest = without id xs in if str_eq id x then rest else x ∷ rest

-- `not resources`.
abbrev pub is_none : List String → Bool
is_none [] = true
is_none (x ∷ xs) = false

abbrev pub store_ids : String → List String → Data → Data
store_ids key [] held = delete key held
store_ids key (x ∷ xs) held = insert key (some (x ∷ xs)) held

-- `resources.pop(entry.entry_id, None)`, and the key goes with its last entry.
unfoldable pub drop_entry : String → String → Data → Data
drop_entry id key held = elim (lookup key held) [
  | none ↦ held
  | some none ↦ held
  | some (some ids) ↦ store_ids key (without id ids) held
]

unfoldable pub drop_each : String → List String → Data → Data
drop_each id [] held = held
drop_each id (key ∷ keys) held = drop_each id keys (drop_entry id key held)

abbrev pub resource_keys : List String
resource_keys =
    "doorfast_monitors" ∷ "doorfast_stations" ∷ "doorfast_webrtc_providers"
    ∷ "doorfast_webrtc_unsubscribers" ∷ []

-- How a step ends: it returns, raises an Exception, or raises what is none, as a CancelledError.
pub data Ending : Type 0 where
  returns : Ending
  fails : Ending
  leaves : Ending

-- A rollback with the steps that have been done and the data, or left by what a step has raised.
pub data Progress : Type 0 where
  going : List Step → Data → Progress
  left_by : Step → List Step → Data → Progress

-- The statements behind a step, which a rollback that has been left does not reach.
abbrev pub unless_left : Progress → (List Step → Data → Progress) → Progress
unless_left (going done held) k = k done held
unless_left (left_by s done held) k = left_by s done held

abbrev pub on_data : (Data → Data) → Progress → Progress
on_data f p = unless_left p λ done held. going done (f held)

-- `try: ... except Exception: pass`.
abbrev pub conclude : Step → List Step → Data → Ending → Progress
conclude s done held returns = going (done ++ s ∷ []) held
conclude s done held fails = going done held
conclude s done held leaves = left_by s done held

module _ (ending : Step → Ending) where
  abbrev pub attempt : Step → Progress → Progress
  attempt s p = unless_left p λ done held. conclude s done held (ending s)

  abbrev pub attempt_if : Bool → Step → Progress → Progress
  attempt_if true s p = attempt s p
  attempt_if false s p = p

  abbrev pub attempt_each : List String → Progress → Progress
  attempt_each [] p = p
  attempt_each (name ∷ names) p = attempt_each names (attempt (removes_service name) p)

  -- The clients, and the services behind the last of them; `registered` are those that exist.
  unfoldable pub drop_client : String → List String → Progress → Progress
  drop_client id registered p = unless_left p λ done held. elim (lookup "doorfast" held) [
    | none ↦ going done held
    | some none ↦ going done held
    | some (some ids) ↦
        let left : Progress = going done (drop_entry id "doorfast" held) in
        if is_none (without id ids) then attempt_each registered left else left
  ]

  -- What holds the entry is closed.
  unfoldable pub close_each : Acquired → Progress → Progress
  close_each a p = attempt_if a.station_registry closes_registry (
      attempt_if a.monitor closes_monitor (
        attempt_if a.webrtc unregisters_webrtc
          (attempt_if a.provider closes_provider (attempt closes_pcm p))))

  unfoldable pub unload_each : Acquired → Progress → Progress
  unload_each a p =
      attempt_if a.frontend_registered unregisters_frontend
        (attempt_if a.platforms_forward_attempted unloads_platforms p)

  unfoldable pub rollback_entry_setup : String → Acquired → List String → Data → Progress
  rollback_entry_setup id a registered held =
      let dropped = on_data (drop_each id resource_keys) (close_each a (going [] held)) in
      let left = drop_client id registered (unload_each a dropped) in
      if a.view_created then on_data (drop_entry id "doorfast_event_views") left else left

-- The entry is under the key.
abbrev pub is_among : String → Option (Option (List String)) → Bool
is_among id (some (some ids)) = contains id ids
is_among id _ = false

abbrev pub is_listed : String → String → Data → Bool
is_listed id key held = is_among id (lookup key held)
