-- ===== src/Events/Gate.antt =====
-- custom_components/doorfast/events.py, `EventGate`: the filter that drops duplicate and stale
-- events. A Python set is a list in insertion order; a deque is a list, oldest first.
pub mod Window
pub mod Calls
pub mod Once
pub mod Runs
pub mod Monitors
use Window.{evict}
use doorfastforha.Prelude.{
  ℕ, String, Bool, true, false, ◌||◌, ◌&&◌, not, List, [], ◌∷◌, ◌++◌, Option, none, some, max,
  if◌then◌else◌, ltb, leb, ◌==◌, str_eq, contains, Eq, string_eq, nat_eq, pair_eq, lookup, insert,
  Dict, ℤ, pos, negsuc,
}

-- An entry of `_monitor_states`.
pub record MonitorState : Type 0 where
  pub seen : List ℕ
  pub order : List ℕ
  pub generation : ℕ
  pub revision : ℕ

pub record EventGate : Type 0 where
  pub capacity : ℕ
  pub seen : List (ℕ × String)
  pub order : List (ℕ × String)
  pub highest_generation : ℕ
  pub runtime_id : Option String
  pub monitor_states : Dict (String × String) MonitorState

-- `EventGate(capacity)`; the default capacity is 128.
unfoldable pub init : ℕ → EventGate
init capacity = record {
  capacity = capacity;
  seen = [];
  order = [];
  highest_generation = 0;
  runtime_id = none;
  monitor_states = [];
}

abbrev pub is_runtime : Option String → String → Bool
is_runtime none r = false
is_runtime (some s) r = str_eq s r

-- A new runtime forgets the old one's events; an empty text is no runtime.
unfoldable pub enter_runtime : EventGate → Option String → EventGate
enter_runtime g none = g
enter_runtime g (some r) =
    if str_eq r ""
    then g
    else if is_runtime g.runtime_id r
    then g
    else record g { seen = []; order = []; highest_generation = 0; runtime_id = some r }

-- max(highest, current) where `current` is an integer; a negative one is below every generation.
unfoldable pub floor : ℕ → Option ℤ → ℕ
floor highest none = highest
floor highest (some (pos n)) = max highest n
floor highest (some (negsuc n)) = highest

-- The bookkeeping of an accepted call event.
unfoldable pub record_call : EventGate → ℕ × String → EventGate
unfolding evict
record_call g key =
    let (seen, order) = evict g.capacity (g.seen ++ key ∷ []) (g.order ++ key ∷ []) in
    record g { seen = seen; order = order; highest_generation = max g.highest_generation key.0 }

-- `accept`, with the payload's generation and event name as its key.
unfoldable pub accept : EventGate → ℕ × String → Option ℤ → Option String → EventGate × Bool
unfolding enter_runtime floor record_call
accept g key current runtime =
    let h = enter_runtime g runtime in
    if contains key h.seen
    then (h, false)
    else if ltb key.0 (floor h.highest_generation current)
    then (h, false)
    else (record_call h key, true)

-- What `accept_monitor` reads of a validated monitor event.
pub record MonitorMark : Type 0 where
  pub runtime_id : String
  pub station_id : String
  pub event_id : ℕ
  pub generation : ℕ
  pub status_revision : ℕ

abbrev pub fresh_state : MonitorState
fresh_state = record { seen = []; order = []; generation = 0; revision = 0 }

-- `_monitor_states.setdefault(key, …)`: the entry, and the table that holds it.
abbrev pub state_of : EventGate → String × String → MonitorState
state_of g key = elim (lookup key g.monitor_states) [ none ↦ fresh_state | some s ↦ s ]

-- A runtime given as a text that is not empty, and another than the event's.
abbrev pub foreign_runtime : Option String → String → Bool
foreign_runtime none r = false
foreign_runtime (some s) r = not (str_eq s "") && not (str_eq r s)

abbrev pub int_is : ℤ → ℕ → Bool
int_is (pos m) n = m == n
int_is (negsuc m) n = false

abbrev pub nat_below : ℕ → ℤ → Bool
nat_below n (pos m) = ltb n m
nat_below n (negsuc m) = false

-- The event's generation is not the one that the owner runs.
abbrev pub other_generation : Option ℤ → ℕ → Bool
other_generation none generation = false
other_generation (some current) generation = not (int_is current generation)

-- The owner has seen a later revision of the same generation.
abbrev pub behind_revision : Option ℤ → Option ℤ → ℕ → ℕ → Bool
behind_revision (some current) (some revision) generation status_revision =
    int_is current generation && nat_below status_revision revision
behind_revision _ _ generation status_revision = false

-- The four reasons for which an event is dropped, in the source's order.
unfoldable pub stale : MonitorState → MonitorMark → Option ℤ → Option ℤ → Bool
stale s m current_generation current_revision =
    contains m.event_id s.seen
    || (other_generation current_generation m.generation
        || (behind_revision current_generation current_revision m.generation m.status_revision
            || (ltb m.generation s.generation
                || (m.generation == s.generation && leb m.status_revision s.revision))))

-- The bookkeeping of an accepted monitor event.
unfoldable pub record_monitor : ℕ → MonitorState → MonitorMark → MonitorState
unfolding evict
record_monitor capacity s m =
    let (seen, order) = evict capacity (s.seen ++ m.event_id ∷ []) (s.order ++ m.event_id ∷ []) in
    if ltb s.generation m.generation
    then record {
      seen = seen;
      order = order;
      generation = m.generation;
      revision = m.status_revision;
    }
    else record s { seen = seen; order = order; revision = max s.revision m.status_revision }

unfoldable pub accept_monitor :
    EventGate → MonitorMark → Option ℤ → Option ℤ → Option String → EventGate × Bool
unfolding stale record_monitor
accept_monitor g m current_generation current_revision runtime =
    let key : String × String = (m.runtime_id, m.station_id) in
    let s = state_of g key in
    let table = λ (t : MonitorState). record g { monitor_states = insert key t g.monitor_states } in
    if foreign_runtime runtime m.runtime_id
    then (g, false)
    else if stale s m current_generation current_revision
    then (table s, false)
    else (table (record_monitor g.capacity s m), true)
