-- ===== src/Audio/Hub/Delivery.antt =====
-- custom_components/doorfast/audio.py, `AudioListenerHub`: what listeners get over any interleaving of
-- the stretches of `read` with `add`, `remove` and `close`.
use doorfastforha.Prelude.{
  ℕ, suc, ◌≤◌, ◌≡◌, ◌≢◌, String, false, List, [], ◌∷◌, Option, none, some, length, arith,
  Option-cases, inl, inr, lookup, subst, sym, if_cases, ◌==◌, string_eq, str_eq, ltb,
}
use native.Mathlib.Decide.{ℕ_discrete}
use doorfastforha.Audio.Hub.{
  Hub, AudioIdentity, AudioChunk, AudioReadReply, chunk, empty, retry, resync, Listener, init,
  close, add, remove, check_open, check_listener, Result, ok, err, Progress, returned, waiting,
  progress, serve, serve_listener, read_begin, read_cached, read_locked, read_done, retry_later,
  cooldown, Fetched, replied, stream_error, failed, same_identity,
}
use doorfastforha.Audio.Hub.Invariant.{
  Inv, IsQuiet, init-Inv, close-Inv, remove-Inv, check_open_cases,
}
use doorfastforha.Audio.Hub.Invariant.Served.{Served, serve-Inv}
use doorfastforha.Audio.Hub.Invariant.Stored.{add-Inv, store-Inv, resynchronize-Inv}

-- One stretch of code, with what it carries from the earlier stretches of its read.
pub data Op : Type 0 where
  adds : String → ℕ → Op
  removes : String → Op
  closes : Op
  begins : String → ℕ → Op
  reads_cached : String → ℕ → ℕ → ℕ → Op
  reads_locked : String → ℕ → ℕ → ℕ → Op
  reads_done : String → ℕ → ℕ → ℕ → ℕ → Fetched → Op

-- The listener's serial and the revision of the chunk that its read returns.
abbrev pub delivered : ℕ → Hub × Result Progress → Hub × Option (ℕ × ℕ)
delivered serial (h, ok (returned (chunk c))) = (h, some (serial, c.revision))
delivered serial (h, _) = (h, none)

unfoldable pub apply : Hub → Op → Hub × Option (ℕ × ℕ)
apply h (adds id now) = ((add h id now).0, none)
apply h (removes id) = (remove h id, none)
apply h closes = (close h, none)
apply h (begins id now) = ((read_begin h id now).0, none)
apply h (reads_cached id serial epoch now) = delivered serial (read_cached h id serial epoch now)
apply h (reads_locked id serial epoch now) = delivered serial (read_locked h id serial epoch now)
apply h (reads_done id serial epoch started now f) =
    delivered serial (read_done h id serial epoch started now f)

abbrev pub prepend : Option (ℕ × ℕ) → Hub × List (ℕ × ℕ) → Hub × List (ℕ × ℕ)
prepend none r = r
prepend (some p) (h, ps) = (h, p ∷ ps)

-- The hub after the stretches, and all deliveries in order.
unfoldable pub run : Hub → List Op → Hub × List (ℕ × ℕ)
run h [] = (h, [])
run h (op ∷ ops) = prepend (apply h op).1 (run (apply h op).0 ops)

-- The revisions delivered to `s` ascend strictly, from `d`.
abbrev pub Rises : ℕ → ℕ → List (ℕ × ℕ) → Type 0
Rises s d [] = Unit {0}
Rises s d ((serial, revision) ∷ ps) =
    (serial ≡ s → (d ≤ revision) × Rises s (suc revision) ps) × (serial ≢ s → Rises s d ps)

-- The invariant behind a stretch of a read by the listener `serial`.
abbrev Fine : ℕ → ℕ → ℕ → Hub × Result Progress → Type 0
Fine s d serial (h, ok (returned (chunk c))) = Served s d serial (h, some c)
Fine s d serial (h, _) = Inv s d h

touched-Inv :
    (s d : ℕ) (h : Hub) (since : Option ℕ) (until : ℕ) (reply : AudioReadReply)
    → IsQuiet reply
    → Inv s d h
    → Inv s d (record h { invalid_since = since; cooldown_until = until; cooldown_reply = reply })
touched-Inv s d h since until reply q i = record {
  few_listeners = i.few_listeners;
  few_cached = i.few_cached;
  ascending = i.ascending;
  water = i.water;
  separate = i.separate;
  born = i.born;
  owned = i.owned;
  reached = i.reached;
  unborn = i.unborn;
  quiet = q;
}

module _ (s d serial : ℕ) where
  quiet-Fine :
      (h : Hub) (r : AudioReadReply) → IsQuiet r → Inv s d h → Fine s d serial (h, ok (returned r))
  quiet-Fine h (chunk c) q i = absurd q
  quiet-Fine h empty q i = i
  quiet-Fine h retry q i = i
  quiet-Fine h resync q i = i

  check_open-Fine :
      (h : Hub) (epoch now : ℕ) (k : Hub → Hub × Result Progress)
      → Inv s d h
      → (h.closed ≡ false → Fine s d serial (k h))
      → Fine s d serial (check_open h epoch now k)
  check_open-Fine h epoch now k i f =
      check_open_cases (Fine s d serial) h epoch now k i (close-Inv s d h i) f

  -- Behind `_check_listener` the listener is in the table.
  check_listener-Fine :
      (h : Hub) (id : String) (epoch now : ℕ) (k : Hub → Hub × Result Progress)
      → Inv s d h
      → (h.closed ≡ false
          → (l : Listener) → lookup id h.listeners ≡ some l
          → l.serial ≡ serial
          → Fine s d serial (k h))
      → Fine s d serial (check_listener h id serial epoch now k)
  unfolding check_listener
  check_listener-Fine h id epoch now k i f = check_open-Fine h epoch now _ i λ on.
      elim (Option-cases (lookup id h.listeners)) [
        | inl absent ↦ rw absent i
        | inr (l, found) ↦ rw found (
            if_cases (Fine s d serial) (l.serial == serial) (λ same. f on l found (ground arith))
              (λ _. i))
      ]

  serve_listener-Fine :
      (h : Hub) (id : String) (now : ℕ) (l : Listener) (k : Hub → Hub × Result Progress)
      → lookup id h.listeners ≡ some l
      → l.serial ≡ serial
      → h.closed ≡ false
      → Inv s d h
      → ((g : Hub) → Inv s d g → Fine s d serial (k g))
      → Fine s d serial (serve_listener h id now k)
  serve_listener-Fine h id now l k found same on i f =
      subst
        (λ o. Fine s d serial (elim o [
          | none ↦ (h, err "audio_listener_not_found")
          | some m ↦ progress (serve h id now m) k
        ]))
        (sym found)
        (progressed (serve h id now l)
          (subst (λ n. Served s d n (serve h id now l)) same (serve-Inv s d h id now l found on i)))
    where
      progressed :
          (r : Hub × Option AudioChunk) → Served s d serial r → Fine s d serial (progress r k)
      progressed (g, none) v = f g v
      progressed (g, some c) v = v

  cooldown-Fine :
      (h : Hub) (now : ℕ) (r : AudioReadReply)
      → IsQuiet r
      → Inv s d h
      → Fine s d serial (cooldown h now r)
  cooldown-Fine h now r q i = quiet-Fine _ r q (touched-Inv s d h _ _ r q i)

  since-Inv :
      (h : Hub) (since : Option ℕ) → Inv s d h → Inv s d (record h { invalid_since = since })
  since-Inv h since i = touched-Inv s d h since _ _ i.quiet i

  retry_later-Fine :
      (h : Hub) (started now : ℕ) → Inv s d h → Fine s d serial (retry_later h started now)
  unfolding retry_later
  retry_later-Fine h started now i =
      check_open-Fine _ _ now _ (since-Inv h _ i)
        (λ _. cooldown-Fine _ now retry tt (since-Inv h _ i))

  retried-Fine :
      (h : Hub) (id : String) (epoch started now : ℕ)
      → Inv s d h
      → Fine s d serial (check_listener h id serial epoch now (λ f. retry_later f started now))
  retried-Fine h id epoch started now i =
      check_listener-Fine h id epoch now _ i (λ _ _ _ _. retry_later-Fine h started now i)

  read_cached-Fine :
      (h : Hub) (id : String) (epoch now : ℕ)
      → Inv s d h
      → Fine s d serial (read_cached h id serial epoch now)
  unfolding read_cached
  read_cached-Fine h id epoch now i =
      check_listener-Fine h id epoch now _ i
        (λ on l found same. serve_listener-Fine h id now l _ found same on i (λ g j. j))

  read_locked-Fine :
      (h : Hub) (id : String) (epoch now : ℕ)
      → Inv s d h
      → Fine s d serial (read_locked h id serial epoch now)
  unfolding read_locked
  read_locked-Fine h id epoch now i = check_listener-Fine h id epoch now _ i λ on l found same.
      serve_listener-Fine h id now l _ found same on i λ g j.
        if_cases (Fine s d serial) (ltb now g.cooldown_until)
          (λ _. quiet-Fine g g.cooldown_reply j.quiet j) (λ _. j)

  read_done-Fine :
      (h : Hub) (id : String) (epoch started now : ℕ) (f : Fetched)
      → Inv s d h
      → Fine s d serial (read_done h id serial epoch started now f)
  unfolding read_done
  read_done-Fine h id epoch started now (stream_error code) i = check_open-Fine h epoch now _ i λ _.
      if_cases (Fine s d serial) (str_eq code "audio_invalid_response")
        (λ _. retried-Fine h id epoch started now i) (λ _. close-Inv s d h i)
  read_done-Fine h id epoch started now failed i = retried-Fine h id epoch started now i
  read_done-Fine h id epoch started now (replied retry) i =
      check_open-Fine h epoch now _ i (λ _. retried-Fine h id epoch started now i)
  read_done-Fine h id epoch started now (replied resync) i =
      let j = resynchronize-Inv s d h i in
      check_open-Fine h epoch now _ i (λ _. check_listener-Fine _ id epoch now _ j (λ _ _ _ _. j))
  read_done-Fine h id epoch started now (replied empty) i =
      let j = since-Inv h none i in
      check_open-Fine h epoch now _ i
        λ _. check_listener-Fine _ id epoch now _ j (λ _ _ _ _. cooldown-Fine _ now empty tt j)
  read_done-Fine h id epoch started now (replied (chunk c)) i =
      check_open-Fine h epoch now _ i λ on.
        if_cases (Fine s d serial) (same_identity c.identity h.identity)
          (λ _.
            let j = store-Inv s d _ c now on (since-Inv h none i) in
            check_listener-Fine _ id epoch now _ j λ on' l found same.
              serve_listener-Fine _ id now l _ found same on' j
                (λ g k. cooldown-Fine g now empty tt k))
          (λ _. close-Inv s d h i)

-- A stretch that delivers to `s` moves the bound behind what it delivers.
abbrev Stepped : ℕ → ℕ → Hub × Option (ℕ × ℕ) → Type 0
Stepped s d (h, none) = Inv s d h
Stepped s d (h, some (serial, revision)) =
    (serial ≡ s → (d ≤ revision) × Inv s (suc revision) h) × (serial ≢ s → Inv s d h)

Fine-Stepped :
    (s d serial : ℕ) (r : Hub × Result Progress)
    → Fine s d serial r
    → Stepped s d (delivered serial r)
Fine-Stepped s d serial (h, err e) f = f
Fine-Stepped s d serial (h, ok waiting) f = f
Fine-Stepped s d serial (h, ok (returned (chunk c))) f = f
Fine-Stepped s d serial (h, ok (returned empty)) f = f
Fine-Stepped s d serial (h, ok (returned retry)) f = f
Fine-Stepped s d serial (h, ok (returned resync)) f = f

read_begin-Inv :
    (s d : ℕ) (h : Hub) (id : String) (now : ℕ) → Inv s d h → Inv s d (read_begin h id now).0
unfolding read_begin
read_begin-Inv s d h id now i =
    check_open_cases (λ r. Inv s d r.0) h h.epoch now _ i (close-Inv s d h i)
      λ on. elim (Option-cases (lookup id h.listeners)) [
        | inl absent ↦ rw absent i
        | inr (l, found) ↦ rw found i
      ]

apply-Stepped : (s d : ℕ) (h : Hub) (op : Op) → Inv s d h → Stepped s d (apply h op)
unfolding apply
apply-Stepped s d h (adds id now) i = add-Inv s d h id now i
apply-Stepped s d h (removes id) i = remove-Inv s d h id i
apply-Stepped s d h closes i = close-Inv s d h i
apply-Stepped s d h (begins id now) i = read_begin-Inv s d h id now i
apply-Stepped s d h (reads_cached id serial epoch now) i =
    Fine-Stepped s d serial _ (read_cached-Fine s d serial h id epoch now i)
apply-Stepped s d h (reads_locked id serial epoch now) i =
    Fine-Stepped s d serial _ (read_locked-Fine s d serial h id epoch now i)
apply-Stepped s d h (reads_done id serial epoch started now f) i =
    Fine-Stepped s d serial _ (read_done-Fine s d serial h id epoch started now f i)

run-Rises_from : (s d : ℕ) (h : Hub) (ops : List Op) → Inv s d h → Rises s d (run h ops).1
unfolding run
run-Rises_from s d h [] i = tt
run-Rises_from s d h (op ∷ ops) i =
    prepend-Rises (apply h op) (apply-Stepped s d h op i) (λ e g j. run-Rises_from s e g ops j)
  where
    prepend-Rises :
        (r : Hub × Option (ℕ × ℕ))
        → Stepped s d r
        → ((e : ℕ) (g : Hub) → Inv s e g → Rises s e (run g ops).1)
        → Rises s d (prepend r.1 (run r.0 ops)).1
    prepend-Rises (g, none) j rest = rest d g j
    prepend-Rises (g, some (serial, revision)) j rest = (
      (λ mine. let (le, k) = j.0 mine in (le, rest (suc revision) g k)),
      λ other. rest d g (j.1 other),
    )

-- Over any interleaving of stretches, with any times, replies of the bridge and carried serials and
-- epochs, the revisions of the chunks that one listener object gets ascend strictly.
pub run-Rises :
    (identity : AudioIdentity) (ops : List Op) (s : ℕ) → Rises s 0 (run (init identity) ops).1
run-Rises identity ops s = run-Rises_from s 0 (init identity) ops (init-Inv s identity)

run-Inv : (s d : ℕ) (h : Hub) (ops : List Op) → Inv s d h → (e : ℕ) × Inv s e (run h ops).0
unfolding run
run-Inv s d h [] i = (d, i)
run-Inv s d h (op ∷ ops) i =
    prepend-Inv (apply h op) (apply-Stepped s d h op i) (λ e g j. run-Inv s e g ops j)
  where
    prepend-Inv :
        (r : Hub × Option (ℕ × ℕ))
        → Stepped s d r
        → ((e : ℕ) (g : Hub) → Inv s e g → (f : ℕ) × Inv s f (run g ops).0)
        → (e : ℕ) × Inv s e (prepend r.1 (run r.0 ops)).0
    prepend-Inv (g, none) j rest = rest d g j
    prepend-Inv (g, some (serial, revision)) j rest = elim (ℕ_discrete serial s) [
      | yes mine ↦ rest (suc revision) g (j.0 mine).1
      | no other ↦ rest d g (j.1 other)
    ]

-- Over any interleaving of stretches the hub keeps at most four listeners and at most four chunks.
pub run_bounds :
    (identity : AudioIdentity) (ops : List Op)
    → let h = (run (init identity) ops).0 in (length h.listeners ≤ 4) × (length h.cache ≤ 4)
run_bounds identity ops =
    let (_, i) = run-Inv 0 0 (init identity) ops (init-Inv 0 identity) in
    (i.few_listeners, i.few_cached)
