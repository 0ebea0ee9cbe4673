-- ===== src/Client/Stopped.antt =====
-- custom_components/doorfast/client.py: a preview that was stopped, in what the bridge reports later.
pub mod Rows
pub mod Later
pub mod Acknowledged
use doorfastforha.Prelude.{
  ◌≡◌, ◌⊎◌, inl, inr, refl, sym, ap, ◌∙◌, subst, String, Bool, true, false, not, ◌&&◌, List, [],
  ◌∷◌, Option, none, some, ==_iff, eq_iff, string_eq, lookup, insert, lookup-insert, arith,
  if_cases, Option-cases, Bool-cases, &&_iff, some_inj, >>=-eq-some, All, All-append, Dict,
  if◌then◌else◌,
}
use doorfastforha.Value.{
  Value, null, bool, int, float, str, list, dict, Fields, get, put, as_dict, as_list, is_text,
  equals_int, is_text-eq,
}
use doorfastforha.Value.Equal.{among, from_list, same_value}
use doorfastforha.Value.Put.{get-put, to_list-from_list}
use doorfastforha.Client.{Accepted, Fence, DoorfastClient}
use doorfastforha.Client.Previews.{
  StopRequest, same_accepted, call_owns_station, is_borrowed, fence_of, is_fenced, ended_states,
  stopping, held_row, fence_row, fence_rows, fence_stopped_previews, supersede, is_stop_reply,
  raise_fence, show_stop, conclude_stop, bind_runtime, with_pending, stop_monitor_end,
  monitor_status_end,
}
use doorfastforha.Client.Current.{MediaOf, show_stop-MediaOf}

-- The row is the preview that was stopped.
abbrev pub is_preview : StopRequest → Value → Bool
is_preview r v = elim (as_dict v) [
  | none ↦ false
  | some d ↦
      is_text (get d "station_id") r.station_id
      && (equals_int (get d "generation") r.generation && is_text (get d "purpose") "preview")
]

-- The client holds the fence of the stop, and in the status nothing has taken the station since.
pub record IsStopped (r : StopRequest) (status : Fields) (c : DoorfastClient) : Type 0 where
  pub fenced :
      lookup r.station_id c.preview_stop_fences
      ≡ some
          (record { runtime_id = r.runtime_id; generation = r.generation; accepted = r.accepted })
  pub runtime : is_text (get status "runtime_id") r.runtime_id ≡ true
  pub no_call : lookup r.station_id c.accepted_station_calls ≡ r.accepted
  pub unowned : (v : Value) → call_owns_station status r.station_id v ≡ some false

same_accepted_refl : (o : Option Accepted) → same_accepted o o ≡ true
same_accepted_refl none = refl
same_accepted_refl (some a) = ground (
  arith,
  eq_iff a.runtime_id a.runtime_id,
  ==_iff a.generation a.generation,
  ==_iff a.count a.count,
)

is_borrowed-seen :
    (status item : Fields) (fence : Fence) (o : Option Accepted)
    → o ≡ fence.accepted
    → is_borrowed status item fence o ≡ false
unfolding is_borrowed
is_borrowed-seen status item fence none e = refl
is_borrowed-seen status item fence (some a) e =
    let seen : same_accepted (some a) fence.accepted ≡ true =
      subst (λ o. same_accepted (some a) o ≡ true) e (same_accepted_refl (some a)) in
    rw seen refl

module _ (r : StopRequest) (status : Fields) (c : DoorfastClient) (h : IsStopped r status c) where
  -- The fence finds the preview.
  pub preview_fence :
      (item : Fields)
      → is_preview r (dict item) ≡ true
      → fence_of c item
        ≡ some (
          r.station_id,
          record { runtime_id = r.runtime_id; generation = r.generation; accepted = r.accepted },
        )
  unfolding fence_of
  preview_fence item p =
      let at = is_text-eq (get item "station_id") r.station_id ((&&_iff _ _).0 p).0 in
      let found = h.fenced in rw (at, found) refl

  pub preview_fenced :
      (item : Fields)
      → is_preview r (dict item) ≡ true
      → is_fenced c status item r.station_id
          (record { runtime_id = r.runtime_id; generation = r.generation; accepted = r.accepted })
        ≡ some true
  unfolding is_fenced
  preview_fenced item p =
      let (_, more) = (&&_iff (is_text (get item "station_id") r.station_id) _).0 p in
      let (generation, purpose) =
        (&&_iff (equals_int (get item "generation") r.generation)
            (is_text (get item "purpose") "preview")).0
          more in
      let runtime = h.runtime in
      let unborrowed =
        is_borrowed-seen status item
          (record { runtime_id = r.runtime_id; generation = r.generation; accepted = r.accepted })
          (lookup r.station_id c.accepted_station_calls) h.no_call in
      let unowned = h.unowned (get item "generation") in
      rw (runtime, generation, unborrowed, purpose) (rw unowned refl)

-- A row that has ended, or that is shown as stopping.
abbrev pub IsHeld : Fields → Type 0
IsHeld d =
    (among ended_states (get d "state") ≡ some true)
    ⊎ ((get d "state" ≡ str "stopping")
        × (get d "ready" ≡ bool false)
        × (get d "source_live" ≡ bool false))

abbrev pub HeldValue : Value → Type 0
HeldValue v = elim (as_dict v) [ none ↦ Unit | some d ↦ IsHeld d ]

-- The stopped preview is not there where ownership is asked for; else it is held.
abbrev pub Fits : StopRequest → Bool → Value → Type 0
Fits r true v = is_preview r v ≡ false
Fits r false v = is_preview r v ≡ true → HeldValue v

other-Fits :
    (r : StopRequest) (ownership : Bool) (v : Value) → is_preview r v ≡ false → Fits r ownership v
other-Fits r true v h = h
other-Fits r false v h = λ k. cc

pub one_row-Fits :
    (r : StopRequest) (ownership : Bool) (v : Value) (rows : List Value)
    → is_preview r v ≡ false
    → some (v ∷ []) ≡ some rows
    → All (Fits r ownership) rows
one_row-Fits r ownership v rows p k =
    subst (All (Fits r ownership)) (some_inj k) (other-Fits r ownership v p, tt)

IsHeld-stopping : (item : Fields) → IsHeld (stopping item)
unfolding stopping
IsHeld-stopping item = inr (simp get-put, simp get-put, simp get-put)

pub held_row-Fits :
    (r : StopRequest) (ownership : Bool) (item : Fields) (rows : List Value)
    → held_row ownership item ≡ some rows
    → All (Fits r ownership) rows
unfolding held_row
held_row-Fits r true item rows h = subst (All (Fits r true)) (some_inj h) tt
held_row-Fits r false item rows h =
    let (ended, state, k) = >>=-eq-some (among ended_states (get item "state")) _ h in
    subst (All (Fits r false)) (some_inj k) (row ended state, tt)
  where
    row :
        (ended : Bool)
        → among ended_states (get item "state") ≡ some ended
        → Fits r false (dict (if ended then item else stopping item))
    row true state = λ _. inl state
    row false state = λ _. IsHeld-stopping item
