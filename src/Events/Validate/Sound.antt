-- ===== src/Events/Validate/Sound.antt =====
-- custom_components/doorfast/events.py, `validate_event`: what a validated event is, and that
-- validation is idempotent.
use doorfastforha.Prelude.{
  ℕ, zero, suc, ◌≤◌, ◌<◌, ◌≡◌, refl, String, true, false, ◌||◌, Option, none, some, pos, string_eq,
  arith, &&_iff, subst, >>=-eq-some, >>-eq-some, some_inj,
}
use doorfastforha.Value.{
  Value, null, bool, int, float, str, list, dict, Items, nil, cons, Fields, end, field, get,
  as_dict, as_text, positive, equals_int, codes,
}
use doorfastforha.Events.Validate.{
  visit, visit_items, visit_fields, is_sensitive, json_size, validate_monitor_status,
  is_station_name, is_runtime_name, Event, MonitorPart, monitor_part, with_monitor, validate_event,
  to_value, is_call_event, is_monitor_event, max_status_bytes,
}

-- The key occurs in the value, at any depth.
mutual
  pub data Occurs (k : String) : Value → Type 0 where
    in_dict : {d : Fields} → OccursIn k d → Occurs k (dict d)
    in_list : {l : Items} → OccursAmong k l → Occurs k (list l)

  pub data OccursAmong (k : String) : Items → Type 0 where
    item : {v : Value} {l : Items} → Occurs k v → OccursAmong k (cons v l)
    later_item : {v : Value} {l : Items} → OccursAmong k l → OccursAmong k (cons v l)

  pub data OccursIn (k : String) : Fields → Type 0 where
    here : {v : Value} {d : Fields} → OccursIn k (field k v d)
    below : {j : String} {v : Value} {d : Fields} → Occurs k v → OccursIn k (field j v d)
    later_field : {j : String} {v : Value} {d : Fields} → OccursIn k d → OccursIn k (field j v d)

mutual
  unfolding visit visit_items visit_fields

  visit-Occurs : (k : String) (v : Value) → visit v ≡ true → Occurs k v → is_sensitive k ≡ false
  visit-Occurs k (dict d) h (in_dict o) = visit_fields-OccursIn k d h o
  visit-Occurs k (list l) h (in_list o) = visit_items-OccursAmong k l h o
  visit-Occurs k null h o = elim o [ ]
  visit-Occurs k (bool _) h o = elim o [ ]
  visit-Occurs k (int _) h o = elim o [ ]
  visit-Occurs k (float _ _) h o = elim o [ ]
  visit-Occurs k (str _) h o = elim o [ ]

  visit_items-OccursAmong :
      (k : String) (l : Items) → visit_items l ≡ true → OccursAmong k l → is_sensitive k ≡ false
  visit_items-OccursAmong k nil h o = elim o [ ]
  visit_items-OccursAmong k (cons v l) h (item o) = visit-Occurs k v ((&&_iff _ _).0 h).0 o
  visit_items-OccursAmong k (cons v l) h (later_item o) =
      visit_items-OccursAmong k l ((&&_iff _ _).0 h).1 o

  visit_fields-OccursIn :
      (k : String) (d : Fields) → visit_fields d ≡ true → OccursIn k d → is_sensitive k ≡ false
  visit_fields-OccursIn k end h o = elim o [ ]
  visit_fields-OccursIn k (field j v d) h here = ground arith
  visit_fields-OccursIn k (field j v d) h (below o) =
      visit-Occurs k v ((&&_iff _ _).0 ((&&_iff _ _).0 h).1).0 o
  visit_fields-OccursIn k (field j v d) h (later_field o) =
      visit_fields-OccursIn k d ((&&_iff _ _).0 ((&&_iff _ _).0 h).1).1 o

-- The status of a validated monitor event.
pub record IsMonitorPart (p : MonitorPart) : Type 0 where
  pub revised : 0 < p.status_revision
  pub runtime : is_runtime_name (codes p.runtime_id) ≡ true
  pub station : is_station_name (codes p.station_id) ≡ true
  pub clean : visit (dict p.status) ≡ true
  pub small : json_size (dict p.status) ≤ max_status_bytes

-- A monitor event has a monitor part, and a call event has none.
abbrev pub Parted : String → Option MonitorPart → Type 0
Parted event none = is_monitor_event event ≡ false
Parted event (some p) = (is_monitor_event event ≡ true) × IsMonitorPart p

pub record IsEvent (e : Event) : Type 0 where
  pub named : (is_call_event e.event || is_monitor_event e.event) ≡ true
  pub identified : 0 < e.event_id
  pub generated : 0 < e.generation
  pub timed : 0 < e.timestamp_ms
  pub parted : Parted e.event e.monitor

monitor_part-IsMonitorPart :
    (d : Fields) {p : MonitorPart} → monitor_part d ≡ some p → IsMonitorPart p
unfolding monitor_part validate_monitor_status
monitor_part-IsMonitorPart d h = ground arith

positive-lt : (v : Value) {n : ℕ} → positive v ≡ some n → 0 < n
positive-lt v h = ground arith

with_monitor-Parted :
    (d : Fields) (event : String) {m : Option MonitorPart}
    → with_monitor d event ≡ some m
    → Parted event m
unfolding with_monitor
with_monitor-Parted d event {m = none} h = ground arith
with_monitor-Parted d event {m = some p} h = ground (arith, monitor_part-IsMonitorPart d {p = p})

-- Whatever `validate_event` accepts is a well-formed event: a known name, positive numbers, and for
-- a monitor event exactly a named runtime and station, a bounded status and no sensitive key in it.
pub validate_event-IsEvent : (v : Value) {e : Event} → validate_event v ≡ some e → IsEvent e
unfolding validate_event
validate_event-IsEvent v {e} h =
    let (d, _, h) = >>=-eq-some (as_dict v) _ h in
    let (_, h) = >>-eq-some (equals_int (get d "schema_version") 1) _ h in
    let (event, _, h) = >>=-eq-some (as_text (get d "event")) _ h in
    let (named, h) = >>-eq-some (is_call_event event || is_monitor_event event) _ h in
    let (event_id, i, h) = >>=-eq-some (positive (get d "event_id")) _ h in
    let (generation, g, h) = >>=-eq-some (positive (get d "generation")) _ h in
    let (timestamp_ms, t, h) = >>=-eq-some (positive (get d "timestamp_ms")) _ h in
    let (m, p, h) = >>=-eq-some (with_monitor d event) _ h in
    subst IsEvent (some_inj h) (record {
      named = named;
      identified = positive-lt (get d "event_id") i;
      generated = positive-lt (get d "generation") g;
      timed = positive-lt (get d "timestamp_ms") t;
      parted = with_monitor-Parted d event p;
    })

positive-pos : (n : ℕ) → 0 < n → positive (int (pos n)) ≡ some n
positive-pos zero h = absurd (omega arith)
positive-pos (suc n) h = refl

validate_monitor_status-dict :
    (d : Fields)
    → visit (dict d) ≡ true
    → json_size (dict d) ≤ max_status_bytes
    → validate_monitor_status (dict d) ≡ some d
unfolding validate_monitor_status
validate_monitor_status-dict d c s = rw c (ground arith)

validate_event-parts :
    (event_id generation timestamp_ms : ℕ) (event : String) (m : Option MonitorPart)
    → (let e : Event = record {
      event_id = event_id;
      event = event;
      generation = generation;
      timestamp_ms = timestamp_ms;
      monitor = m;
    } in
        IsEvent e → validate_event (to_value e) ≡ some e)
unfolding to_value validate_event with_monitor monitor_part
validate_event-parts event_id generation timestamp_ms event none h = rw (
  h.named,
  positive-pos event_id h.identified,
  positive-pos generation h.generated,
  positive-pos timestamp_ms h.timed,
  h.parted,
)
validate_event-parts event_id generation timestamp_ms event (some p) h = rw (
  h.named,
  positive-pos event_id h.identified,
  positive-pos generation h.generated,
  positive-pos timestamp_ms h.timed,
  h.parted.0,
  h.parted.1.runtime,
  h.parted.1.station,
  positive-pos p.status_revision h.parted.1.revised,
  validate_monitor_status-dict p.status h.parted.1.clean h.parted.1.small,
)

-- Every well-formed event is accepted in its normal form, and comes back unchanged.
pub validate_event-to_value : (e : Event) → IsEvent e → validate_event (to_value e) ≡ some e
validate_event-to_value e h =
    validate_event-parts e.event_id e.generation e.timestamp_ms e.event e.monitor h

-- What `validate_event` accepts it also accepts in normal form, with the same result.
pub validate_event_idem :
    (v : Value) {e : Event} → validate_event v ≡ some e → validate_event (to_value e) ≡ some e
validate_event_idem v {e} h = validate_event-to_value e (validate_event-IsEvent v h)

-- No sensitive key occurs at any depth in the status of an accepted event.
pub validate_event_private :
    (v : Value) (e : Event) (p : MonitorPart) (k : String)
    → validate_event v ≡ some e
    → e.monitor ≡ some p
    → OccursIn k p.status
    → is_sensitive k ≡ false
validate_event_private v e p k h m o =
    let parted : Parted e.event (some p) =
      subst (Parted e.event) m (validate_event-IsEvent v h).parted in
    visit-Occurs k (dict p.status) parted.1.clean (in_dict o)
