-- ===== src/Events/Process/Delivery.antt =====
-- custom_components/doorfast/events.py, `process_event`: when it dispatches, and redelivery.
use doorfastforha.Prelude.{
  ℕ, ◌<◌, ◌≡◌, ◌≢◌, ◌∙◌, String, true, false, List, [], ◌∷◌, ◌++◌, none, some, arith, ◌⊎◌,
  if◌then◌else◌,
}
use doorfastforha.Value.{Value, get, as_text}
use doorfastforha.Events.Validate.{Event, MonitorPart, validate_event}
use doorfastforha.Events.Gate.{EventGate, accept}
use doorfastforha.Events.Gate.Calls.{IsConsistent}
use doorfastforha.Events.Gate.Runs.{accept_replay}
use doorfastforha.Events.Process.{
  World, Outcome, Client, ignored, success, Effect, applied, dispatch_status, dispatch_latest,
  dispatch_ring, process_event, process_call, apply_call, dispatched, stopped, call_generation,
}

-- What comes before the dispatches of an event: nothing, or for a monitor event that it is handed to
-- its station's coordinator.
abbrev pub Precedes : Event → List Effect → Type 0
Precedes e before =
    (before ≡ [])
    ⊎ ((p : MonitorPart) × (e.monitor ≡ some p) × (before ≡ applied p.station_id e ∷ []))

-- What the delivery of a payload may send: nothing, if it does not succeed, or else the three dispatches
-- of the client's new status and of the event that the payload is.
pub data Announces (w : World) (payload : Value) (o : Outcome) : Type 0 where
  silent : o.response ≢ success → o.effects ≡ [] → Announces w payload o
  announced :
      (e : Event) (before : List Effect)
      → validate_event payload ≡ some e
      → Precedes e before
      → o.response ≡ success
      → o.effects
        ≡ before
          ++ dispatch_status o.client.status
            ∷ dispatch_latest e
            ∷ dispatch_ring (w.ring_state o.client.status)
            ∷ []
      → Announces w payload o

process_event-call :
    (w : World) (g : EventGate) (c fresh : Client) (v : Value) (e : Event)
    → validate_event v ≡ some e
    → e.monitor ≡ none
    → w.refreshed ≡ some fresh
    → process_event w g c v ≡ process_call w g fresh e
unfolding process_event
process_event-call w g c fresh v e valid call up = simp (valid, up, call, process_event)

-- The gate's verdict decides what becomes of a call event.
process_call_gate :
    (w : World) (g : EventGate) (c : Client) (e : Event)
    → (let r =
          accept g
            (e.generation, e.event)
            (call_generation c.status)
            (as_text (get c.status "runtime_id")) in
        ((process_call w g c e).gate ≡ r.0)
        × ((process_call w g c e).response ≡ (if r.1 then success else ignored))
        × (r.1 ≡ false → process_call w g c e ≡ stopped ignored r.0 c))
unfolding process_call apply_call dispatched
process_call_gate w g c e = ground arith

call_again :
    (w later : World) (g : EventGate) (fresh newer : Client) (e : Event)
    → as_text (get newer.status "runtime_id") ≡ as_text (get fresh.status "runtime_id")
    → IsConsistent g
    → 0 < g.capacity
    → (o : Outcome) → o ≡ process_call w g fresh e
    → o.response ≡ success
    → (process_call later o.gate newer e).response ≡ ignored
call_again w later g fresh newer e runtime ok room o same won =
    let rt = as_text (get fresh.status "runtime_id") in
    let key : ℕ × String = (e.generation, e.event) in
    let (kept, verdict, _) = process_call_gate w g fresh e in
    let accepted : (accept g key (call_generation fresh.status) rt).1 ≡ true = ground arith in
    let stale =
      accept_replay g key (call_generation fresh.status) (call_generation newer.status) rt ok room
        accepted in
    let (_, verdict', _) = process_call_gate later o.gate newer e in
    verdict' ∙ rw (same, kept, runtime, stale)

-- A call event that was dispatched, with a consistent gate that has room for an event, is ignored when
-- it is delivered again, as long as the bridge answers and its runtime is the same; the callbacks and
-- the call's generation may be others.
pub process_event_again :
    (w later : World) (g : EventGate) (c d fresh newer : Client) (v : Value) (e : Event)
    → validate_event v ≡ some e
    → e.monitor ≡ none
    → w.refreshed ≡ some fresh
    → later.refreshed ≡ some newer
    → as_text (get newer.status "runtime_id") ≡ as_text (get fresh.status "runtime_id")
    → IsConsistent g
    → 0 < g.capacity
    → (process_event w g c v).response ≡ success
    → (process_event later (process_event w g c v).gate d v).response ≡ ignored
process_event_again w later g c d fresh newer v e valid call up up' runtime ok room won =
    rw (process_event-call later _ d newer v e valid call up') (
      call_again w later g fresh newer e runtime ok room (process_event w g c v)
        (process_event-call w g c fresh v e valid call up) won)
