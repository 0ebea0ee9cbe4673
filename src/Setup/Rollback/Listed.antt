-- ===== src/Setup/Rollback/Listed.antt =====
-- custom_components/doorfast/setup_lifecycle.py, what the steps of a rollback leave in `hass.data`.
use doorfastforha.Prelude.{
  ◌≡◌, ◌∙◌, refl, ap, sym, inl, inr, String, Bool, true, false, List, [], ◌∷◌, none, some,
  if◌then◌else◌, contains, string_eq, str_eq, eq_iff, lookup, lookup-insert, lookup-delete,
  Option-cases, Bool-cases, if_cases, arith, subst,
}
use doorfastforha.Setup.Rollback.{
  attempt, attempt_if, attempt_each, drop_client, close_each, unload_each, rollback_entry_setup,
  Step, Acquired, Data, without, is_none, store_ids, drop_entry, drop_each, resource_keys, Progress,
  on_data, is_among, is_listed, closes_pcm, removes_service, Ending, returns, fails, leaves, going,
  left_by, unless_left, conclude,
}

contains-without : (id : String) (ids : List String) → contains id (without id ids) ≡ false
contains-without id [] = refl
contains-without id (x ∷ xs) = elim (Bool-cases (str_eq id x)) [
  | inl same ↦ rw same (contains-without id xs)
  | inr other ↦ rw (other, other) (contains-without id xs)
]

str_eq_refl : (k : String) → str_eq k k ≡ true
str_eq_refl k = (eq_iff k k).1 refl

store_ids-is_listed :
    (id key : String) (ids : List String) (held : Data)
    → contains id ids ≡ false
    → is_listed id key (store_ids key ids held) ≡ false
store_ids-is_listed id key [] held h =
    ap (is_among id)
      (lookup-delete key key held ∙ ap (λ b. if b then none else lookup key held) (str_eq_refl key))
store_ids-is_listed id key (x ∷ xs) held h =
    ap (is_among id) (
      lookup-insert key key (some (x ∷ xs)) held
      ∙ ap (λ b. if b then some (some (x ∷ xs)) else lookup key held) (str_eq_refl key))
    ∙ h

drop_entry-is_listed :
    (id key : String) (held : Data) → is_listed id key (drop_entry id key held) ≡ false
unfolding drop_entry
drop_entry-is_listed id key held = elim (Option-cases (lookup key held)) [
  | inl absent ↦ rw (drop_entry, absent) (ap (is_among id) absent)
  | inr (none, other) ↦ rw (drop_entry, other) (ap (is_among id) other)
  | inr (some ids, found) ↦
      rw (drop_entry, found)
        (store_ids-is_listed id key (without id ids) held (contains-without id ids))
]

store_ids-lookup :
    (key j : String) (ids : List String) (held : Data)
    → str_eq key j ≡ false
    → lookup j (store_ids key ids held) ≡ lookup j held
store_ids-lookup key j [] held h =
    lookup-delete key j held ∙ ap (λ b. if b then none else lookup j held) h
store_ids-lookup key j (x ∷ xs) held h =
    lookup-insert key j (some (x ∷ xs)) held
    ∙ ap (λ b. if b then some (some (x ∷ xs)) else lookup j held) h

drop_entry-lookup :
    (id key j : String) (held : Data)
    → str_eq key j ≡ false
    → lookup j (drop_entry id key held) ≡ lookup j held
unfolding drop_entry
drop_entry-lookup id key j held h = elim (Option-cases (lookup key held)) [
  | inl absent ↦ rw (drop_entry, absent) refl
  | inr (none, other) ↦ rw (drop_entry, other) refl
  | inr (some ids, found) ↦ rw (drop_entry, found) (store_ids-lookup key j (without id ids) held h)
]

-- What is not under a key does not come under it.
drop_entry-is_listed_still :
    (id key j : String) (held : Data)
    → is_listed id j held ≡ false
    → is_listed id j (drop_entry id key held) ≡ false
drop_entry-is_listed_still id key j held h = elim (Bool-cases (str_eq key j)) [
  | inl same ↦
      subst (λ k. is_listed id k (drop_entry id key held) ≡ false) ((eq_iff key j).0 same)
        (drop_entry-is_listed id key held)
  | inr other ↦ ap (is_among id) (drop_entry-lookup id key j held other) ∙ h
]

drop_each-is_listed_still :
    (id : String) (keys : List String) (j : String) (held : Data)
    → is_listed id j held ≡ false
    → is_listed id j (drop_each id keys held) ≡ false
unfolding drop_each
drop_each-is_listed_still id [] j held h = h
drop_each-is_listed_still id (k ∷ ks) j held h =
    drop_each-is_listed_still id ks j (drop_entry id k held)
      (drop_entry-is_listed_still id k j held h)

drop_each-is_listed :
    (id : String) (keys : List String) (j : String) (held : Data)
    → contains j keys ≡ true
    → is_listed id j (drop_each id keys held) ≡ false
unfolding drop_each
drop_each-is_listed id [] j held h = cc
drop_each-is_listed id (k ∷ ks) j held h = elim (Bool-cases (str_eq j k)) [
  | inl same ↦ drop_each-is_listed_still id ks j (drop_entry id k held) (
      subst (λ i. is_listed id i (drop_entry id k held) ≡ false) (sym ((eq_iff j k).0 same))
        (drop_entry-is_listed id k held))
  | inr other ↦ drop_each-is_listed id ks j (drop_entry id k held) (ground arith)
]

module _ (ending : Step → Ending) where
  -- The data of a rollback that goes on; one that was left is there only by a step that leaves.
  abbrev DataIs : Data → Progress → Type 0
  DataIs held (going done now) = now ≡ held
  DataIs held (left_by s done now) = ending s ≡ leaves

  -- What goes on with the data behind the next statements.
  unless_left-DataIs :
      (held later : Data) (p : Progress) (k : List Step → Data → Progress)
      → DataIs held p
      → ((done : List Step) → DataIs later (k done held))
      → DataIs later (unless_left p k)
  unless_left-DataIs held later (going done now) k e f =
      subst (λ d. DataIs later (k done d)) (sym e) (f done)
  unless_left-DataIs held later (left_by s done now) k e f = e

  conclude-DataIs :
      (s : Step) (done : List Step) (held : Data) (e : Ending)
      → ending s ≡ e
      → DataIs held (conclude s done held e)
  conclude-DataIs s done held returns h = refl
  conclude-DataIs s done held fails h = refl
  conclude-DataIs s done held leaves h = h

  attempt-DataIs :
      (s : Step) (held : Data) (p : Progress) → DataIs held p → DataIs held (attempt ending s p)
  attempt-DataIs s held p h =
      unless_left-DataIs held held p (λ done now. conclude s done now (ending s)) h
        λ done. conclude-DataIs s done held (ending s) refl

  attempt_if-DataIs :
      (b : Bool) (s : Step) (held : Data) (p : Progress)
      → DataIs held p
      → DataIs held (attempt_if ending b s p)
  attempt_if-DataIs true s held p h = attempt-DataIs s held p h
  attempt_if-DataIs false s held p h = h

  attempt_each-DataIs :
      (names : List String) (held : Data) (p : Progress)
      → DataIs held p
      → DataIs held (attempt_each ending names p)
  attempt_each-DataIs [] held p h = h
  attempt_each-DataIs (n ∷ ns) held p h =
      attempt_each-DataIs ns held (attempt ending (removes_service n) p)
        (attempt-DataIs (removes_service n) held p h)

  on_data-DataIs :
      (f : Data → Data) (held : Data) (p : Progress) → DataIs held p → DataIs (f held) (on_data f p)
  on_data-DataIs f held p h =
      unless_left-DataIs held (f held) p (λ done now. going done (f now)) h λ done. refl

  -- The data behind the clients, whichever services are removed.
  drop_client-DataIs :
      (id : String) (registered : List String) (held : Data) (p : Progress)
      → DataIs held p
      → DataIs (drop_entry id "doorfast" held) (drop_client ending id registered p)
  unfolding drop_client drop_entry
  drop_client-DataIs id registered held p h =
      unless_left-DataIs held (drop_entry id "doorfast" held) p _ h λ done.
        elim (Option-cases (lookup "doorfast" held)) [
          | inl absent ↦ rw (drop_entry, absent) refl
          | inr (none, other) ↦ rw (drop_entry, other) refl
          | inr (some ids, found) ↦ rw found (
              if_cases (DataIs (drop_entry id "doorfast" held)) (is_none (without id ids))
                (λ _. attempt_each-DataIs registered _ _ refl) (λ _. refl))
        ]

  close_each-DataIs :
      (a : Acquired) (held : Data) (p : Progress)
      → DataIs held p
      → DataIs held (close_each ending a p)
  unfolding close_each
  close_each-DataIs a held p h = attempt_if-DataIs a.station_registry _ held _ (
      attempt_if-DataIs a.monitor _ held _ (
        attempt_if-DataIs a.webrtc _ held _
          (attempt_if-DataIs a.provider _ held _ (attempt-DataIs closes_pcm held p h))))

  unload_each-DataIs :
      (a : Acquired) (held : Data) (p : Progress)
      → DataIs held p
      → DataIs held (unload_each ending a p)
  unfolding unload_each
  unload_each-DataIs a held p h =
      attempt_if-DataIs a.frontend_registered _ held _
        (attempt_if-DataIs a.platforms_forward_attempted _ held _ h)

  -- The data behind a rollback.
  rollback_entry_setup-DataIs :
      (id : String) (a : Acquired) (registered : List String) (held : Data)
      → let left = drop_entry id "doorfast" (drop_each id resource_keys held) in
        DataIs
          (if a.view_created then drop_entry id "doorfast_event_views" left else left)
          (rollback_entry_setup ending id a registered held)
  unfolding rollback_entry_setup close_each unload_each
  rollback_entry_setup-DataIs id a registered held =
      let closed = close_each-DataIs a held (going [] held) refl in
      let dropped = on_data-DataIs (drop_each id resource_keys) held _ closed in
      let unloaded = unload_each-DataIs a _ _ dropped in
      let gone = drop_client-DataIs id registered _ _ unloaded in
      elim (Bool-cases a.view_created) [
        | inl viewed ↦ rw viewed (on_data-DataIs (drop_entry id "doorfast_event_views") _ _ gone)
        | inr unseen ↦ rw unseen gone
      ]

  -- The entry is under none of the keys, or the rollback was left by a step that ends so.
  abbrev pub IsCleared : String → List String → Progress → Type 0
  IsCleared id keys (going done held) =
      (key : String) → contains key keys ≡ true → is_listed id key held ≡ false
  IsCleared id keys (left_by s done held) = ending s ≡ leaves

  DataIs-IsCleared :
      (id : String) (keys : List String) (held : Data) (p : Progress)
      → DataIs held p
      → ((key : String) → contains key keys ≡ true → is_listed id key held ≡ false)
      → IsCleared id keys p
  DataIs-IsCleared id keys held (going done now) e f = λ key h. ap (is_listed id key) e ∙ f key h
  DataIs-IsCleared id keys held (left_by s done now) e f = e

  -- Whatever the setup had acquired and whichever steps raise an Exception, a rollback ends with the
  -- entry in none of the tables of monitors, stations, providers, unsubscribers and clients, unless a
  -- step has raised what is no Exception, as a cancellation is.
  pub rollback_entry_setup-IsCleared :
      (id : String) (a : Acquired) (registered : List String) (held : Data)
      → IsCleared id ("doorfast" ∷ resource_keys) (rollback_entry_setup ending id a registered held)
  rollback_entry_setup-IsCleared id a registered held =
      DataIs-IsCleared id ("doorfast" ∷ resource_keys) _ _
        (rollback_entry_setup-DataIs id a registered held)
        λ key h.
          let dropped = drop_each id resource_keys held in
          let left = drop_entry id "doorfast" dropped in
          let clean : is_listed id key left ≡ false = elim (Bool-cases (str_eq key "doorfast")) [
            | inl client ↦
                subst (λ k. is_listed id k left ≡ false) (sym ((eq_iff key "doorfast").0 client))
                  (drop_entry-is_listed id "doorfast" dropped)
            | inr resource ↦
                drop_entry-is_listed_still id "doorfast" key dropped
                  (drop_each-is_listed id resource_keys key held (ground arith))
          ] in
          if_cases (λ d. is_listed id key d ≡ false) a.view_created
            (λ _. drop_entry-is_listed_still id "doorfast_event_views" key left clean) (λ _. clean)
