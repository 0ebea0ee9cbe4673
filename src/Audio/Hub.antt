-- ===== src/Audio/Hub.antt =====
-- custom_components/doorfast/audio.py, `AudioListenerHub`. `read` awaits a lock, another lock and the
-- bridge; each stretch of code between two awaits is one function, and anything may happen between
-- them. Times are in milliseconds, and a stretch reads the clock once. A `_Listener` object is told
-- from a later one of the same id by its serial number.
pub mod Cache
pub mod Listeners
pub mod Invariant
pub mod Delivery
use doorfastforha.Prelude.{
  ℕ, zero, suc, ◌+◌, ◌-◌, ◌≤◌, ◌<◌, String, Bool, true, false, ◌||◌, ◌&&◌, not, List, [], ◌∷◌, ◌++◌,
  Option, none, some, if◌then◌else◌, ltb, leb, ◌==◌, length, is_some, max, str_eq, string_eq, Eq,
  Dict, lookup, insert, delete, map, drop,
}

-- client_types.py, `AudioIdentity`, `AudioChunk` and `AudioReadReply`.
pub record AudioIdentity : Type 0 where
  pub runtime_id : String
  pub station_id : String
  pub generation : ℕ

abbrev pub same_identity : AudioIdentity → AudioIdentity → Bool
same_identity a b =
    str_eq a.runtime_id b.runtime_id
    && (str_eq a.station_id b.station_id && a.generation == b.generation)

pub record AudioChunk : Type 0 where
  pub identity : AudioIdentity
  pub previous_revision : ℕ
  pub revision : ℕ
  pub pcm : List ℕ
  pub timestamp_ms : ℕ
  pub latest_timestamp_ms : ℕ
  pub dropped_samples : ℕ
  pub discontinuity : Bool

pub data AudioReadReply : Type 0 where
  chunk : AudioChunk → AudioReadReply
  empty : AudioReadReply
  retry : AudioReadReply
  resync : AudioReadReply

-- `AudioStreamError` with its code.
pub data Result {ℓ} (A : Type ℓ) : Type ℓ where
  ok : A → Result A
  err : String → Result A

pub record Listener : Type 0 where
  pub serial : ℕ
  pub cursor : Option ℕ
  pub discontinuity : Bool

-- A cached chunk and the time at which it came.
abbrev pub Entry : Type 0
Entry = AudioChunk × ℕ

pub record Hub : Type 0 where
  pub identity : AudioIdentity
  pub listeners : Dict String Listener
  pub next_serial : ℕ
  pub cache : List Entry
  pub epoch : ℕ
  pub closed : Bool
  pub after : Option ℕ
  pub high_water : Option ℕ
  pub discarded_through : Option ℕ
  pub latest_timestamp_ms : ℕ
  pub invalid_since : Option ℕ
  pub cooldown_until : ℕ
  pub cooldown_reply : AudioReadReply

unfoldable pub init : AudioIdentity → Hub
init identity = record {
  identity = identity;
  listeners = [];
  next_serial = 0;
  cache = [];
  epoch = 0;
  closed = false;
  after = none;
  high_water = none;
  discarded_through = none;
  latest_timestamp_ms = 0;
  invalid_since = none;
  cooldown_until = 0;
  cooldown_reply = empty;
}

unfoldable pub close : Hub → Hub
close h = record h {
  closed = true;
  epoch = h.epoch + 1;
  listeners = [];
  cache = [];
  after = none;
  high_water = none;
  discarded_through = none;
  latest_timestamp_ms = 0;
  invalid_since = none;
  cooldown_until = 0;
  cooldown_reply = empty;
}

-- Five seconds or more since the first of the invalid results.
abbrev pub is_lost : Hub → ℕ → Bool
is_lost h now = elim h.invalid_since [ none ↦ false | some t ↦ leb (t + 5000) now ]

-- `_check_open(epoch)`, then the rest of the stretch.
unfoldable pub check_open {ℓ} : {A : Type ℓ} → Hub → ℕ → ℕ → (Hub → Hub × Result A) → Hub × Result A
check_open h epoch now k =
    if h.closed || not (epoch == h.epoch)
    then (h, err "audio_listener_closed")
    else if is_lost h now
    then (close h, err "audio_connection_lost")
    else k h

-- The listener of that id is the object that the read began with.
abbrev pub holds : Option Listener → ℕ → Bool
holds none serial = false
holds (some l) serial = l.serial == serial

-- `_check_listener(listener_id, listener, epoch)`.
unfoldable pub check_listener {ℓ} :
    {A : Type ℓ} → Hub → String → ℕ → ℕ → ℕ → (Hub → Hub × Result A) → Hub × Result A
check_listener h id serial epoch now k = check_open h epoch now λ h'.
    if holds (lookup id h'.listeners) serial then k h' else (h', err "audio_listener_not_found")

unfoldable pub add : Hub → String → ℕ → Hub × Result (Unit {0})
add h id now = check_open h h.epoch now λ h'.
    if is_some (lookup id h'.listeners)
    then (h', ok tt)
    else if length h'.listeners == 4
    then (h', err "audio_listener_limit")
    else (
      record h' {
        listeners =
            insert id (record { serial = h'.next_serial; cursor = none; discontinuity = false })
              h'.listeners;
        next_serial = h'.next_serial + 1;
      },
      ok tt,
    )

unfoldable pub remove : Hub → String → Hub
remove h id =
    let rest = delete id h.listeners in
    if length rest == 0 then close h else record h { listeners = rest }

-- (now - acquired_at) * 1000 + latest - timestamp > 300, without subtraction.
abbrev pub is_late : ℕ → ℕ → Entry → Bool
is_late now latest (c, acquired) = ltb (300 + acquired + c.timestamp_ms) (now + latest)

-- Not yet consumed by a listener with the cursor.
abbrev pub is_fresh : Option ℕ → Entry → Bool
is_fresh none e = true
is_fresh (some cursor) e = ltb cursor e.0.revision

abbrev pub first_fresh : Option ℕ → List Entry → Option Entry
first_fresh cursor [] = none
first_fresh cursor (e ∷ es) = if is_fresh cursor e then some e else first_fresh cursor es

-- `cache[-1]`, in a cache that begins with the entry.
abbrev pub newest : Entry → List Entry → Entry
newest e [] = e
newest e (f ∷ fs) = newest f fs

abbrev pub newest_of : Entry → List Entry → Entry
newest_of d [] = d
newest_of d (e ∷ es) = newest e es

abbrev pub is_behind : Option ℕ → Option ℕ → Bool
is_behind none discarded = false
is_behind (some d) none = true
is_behind (some d) (some cursor) = ltb cursor d

abbrev pub through : Option ℕ → Listener → Listener
through discarded l =
    if is_behind discarded l.cursor
    then record l { cursor = discarded; discontinuity = true }
    else l

abbrev pub breaks : Option ℕ → AudioChunk → Bool
breaks none c = false
breaks (some p) c = not (c.previous_revision == p)

-- The chunk that goes out, and the listener behind it.
abbrev pub deliver : Listener → Option ℕ → Bool → AudioChunk → Listener × Option AudioChunk
deliver l previous flagged c = (
  record l { cursor = some c.revision; discontinuity = false },
  some (record c { discontinuity = flagged || (c.discontinuity || breaks previous c) }),
)

-- The listener has fallen behind: it goes on at the newest entry.
abbrev pub catch_up : ℕ → ℕ → Listener → Entry → Listener × Option AudioChunk
catch_up latest now l n =
    if is_late now latest n
    then (record l { cursor = some n.0.revision; discontinuity = true }, none)
    else deliver l l.cursor true n.0

-- The body of the loop over the cache, at the first entry that is not skipped.
unfoldable pub hand_out :
    List Entry → ℕ → ℕ → Listener → Option Entry → Listener × Option AudioChunk
hand_out cache latest now l none = (l, none)
hand_out cache latest now l (some e) =
    if is_late now latest e
    then catch_up latest now l (newest_of e cache)
    else deliver l l.cursor l.discontinuity e.0

-- `_cached(listener)`: the listener afterwards, and the chunk, if there is one.
unfoldable pub cached : List Entry → Option ℕ → ℕ → ℕ → Listener → Listener × Option AudioChunk
cached cache discarded latest now listener =
    let l = through discarded listener in hand_out cache latest now l (first_fresh l.cursor cache)

-- `_cached` on the hub; the listener is there.
unfoldable pub serve : Hub → String → ℕ → Listener → Hub × Option AudioChunk
serve h id now listener =
    let (l, c) = cached h.cache h.discarded_through h.latest_timestamp_ms now listener in
    (record h { listeners = insert id l h.listeners }, c)

-- What a stretch of `read` ends in, beside an error.
pub data Progress : Type 0 where
  returned : AudioReadReply → Progress
  -- Nothing is cached: the read goes on to the next await.
  waiting : Progress

abbrev pub progress :
    Hub × Option AudioChunk → (Hub → Hub × Result Progress) → Hub × Result Progress
progress (h, none) k = k h
progress (h, some c) k = (h, ok (returned (chunk c)))

abbrev pub serve_listener : Hub → String → ℕ → (Hub → Hub × Result Progress) → Hub × Result Progress
serve_listener h id now k = elim (lookup id h.listeners) [
  | none ↦ (h, err "audio_listener_not_found")
  | some l ↦ progress (serve h id now l) k
]

-- `read` up to `listener.lock`: the epoch and the serial that the later stretches carry.
unfoldable pub read_begin : Hub → String → ℕ → Hub × Result (ℕ × ℕ)
read_begin h id now = check_open h h.epoch now λ h'. elim (lookup id h'.listeners) [
  | none ↦ (h', err "audio_listener_not_found")
  | some l ↦ (h', ok (h'.epoch, l.serial))
]

-- `read` from `listener.lock` up to `_fetch_lock`.
unfoldable pub read_cached : Hub → String → ℕ → ℕ → ℕ → Hub × Result Progress
read_cached h id serial epoch now =
    check_listener h id serial epoch now λ h'. serve_listener h' id now (λ g. (g, ok waiting))

-- `read` from `_fetch_lock` up to the request.
unfoldable pub read_locked : Hub → String → ℕ → ℕ → ℕ → Hub × Result Progress
read_locked h id serial epoch now = check_listener h id serial epoch now λ h'.
    serve_listener h' id now
      λ g. if ltb now g.cooldown_until then (g, ok (returned g.cooldown_reply)) else (g, ok waiting)

-- `_cooldown(reply)`.
abbrev pub cooldown : Hub → ℕ → AudioReadReply → Hub × Result Progress
cooldown h now reply =
    (record h { cooldown_reply = reply; cooldown_until = now + 50 }, ok (returned reply))

-- `_retry(request_started_at)`.
unfoldable pub retry_later : Hub → ℕ → ℕ → Hub × Result Progress
retry_later h started now =
    let since : ℕ = elim h.invalid_since [ none ↦ started | some t ↦ t ] in
    let g = record h { invalid_since = some since } in
    check_open g g.epoch now λ g'. cooldown g' now retry

-- What the request came to.
pub data Fetched : Type 0 where
  replied : AudioReadReply → Fetched
  stream_error : String → Fetched
  failed : Fetched

abbrev pub above_water : Option ℕ → ℕ → Bool
above_water none revision = true
above_water (some w) revision = ltb w revision

-- `deque(maxlen=4).append`, with the revision that falls out.
unfoldable pub append_entry : Hub → Entry → Hub
append_entry h e =
    if length h.cache == 4
    then record h {
      discarded_through = elim h.cache [ [] ↦ h.discarded_through | x ∷ xs ↦ some x.0.revision ];
      cache = drop 1 h.cache ++ e ∷ [];
    }
    else record h { cache = h.cache ++ e ∷ [] }

-- A chunk from the bridge is cached if it is newer than all before.
unfoldable pub store : Hub → AudioChunk → ℕ → Hub
store h c now =
    let late = ltb (300 + c.timestamp_ms) c.latest_timestamp_ms in
    let g = record h { after = if late then none else some c.revision } in
    if above_water h.high_water c.revision
    then append_entry
        (record g {
          high_water = some c.revision;
          latest_timestamp_ms = max h.latest_timestamp_ms c.latest_timestamp_ms;
        })
        (c, now)
    else g

-- `current.cursor = None; current.discontinuity = True` for every listener.
abbrev pub rewind : Dict String Listener → Dict String Listener
rewind [] = []
rewind ((id, l) ∷ ls) = (id, record l { cursor = none; discontinuity = true }) ∷ rewind ls

unfoldable pub resynchronize : Hub → Hub
resynchronize h = record h {
  cache = [];
  after = none;
  listeners = rewind h.listeners;
  invalid_since = none;
}

-- `read` behind the request.
unfoldable pub read_done : Hub → String → ℕ → ℕ → ℕ → ℕ → Fetched → Hub × Result Progress
read_done h id serial epoch started now (stream_error code) = check_open h epoch now λ g.
    if str_eq code "audio_invalid_response"
    then check_listener g id serial epoch now (λ f. retry_later f started now)
    else (close g, err code)
read_done h id serial epoch started now failed =
    check_listener h id serial epoch now λ g. retry_later g started now
read_done h id serial epoch started now (replied retry) =
    check_open h epoch now
      λ g. check_listener g id serial epoch now (λ f. retry_later f started now)
read_done h id serial epoch started now (replied resync) =
    check_open h epoch now
      λ g. check_listener (resynchronize g) id serial epoch now (λ f. (f, ok (returned resync)))
read_done h id serial epoch started now (replied empty) = check_open h epoch now λ g.
    check_listener (record g { invalid_since = none }) id serial epoch now
      (λ f. cooldown f now empty)
read_done h id serial epoch started now (replied (chunk c)) = check_open h epoch now λ g.
    if same_identity c.identity g.identity
    then check_listener (store (record g { invalid_since = none }) c now) id serial epoch now
        (λ f. serve_listener f id now (λ e. cooldown e now empty))
    else (close g, err "audio_identity_mismatch")
