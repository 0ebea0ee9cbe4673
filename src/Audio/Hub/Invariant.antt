-- ===== src/Audio/Hub/Invariant.antt =====
-- custom_components/doorfast/audio.py, what holds of an `AudioListenerHub` between two stretches of
-- code. The invariant follows one listener object, `s`, which has got all revisions below `d`.
pub mod Served
pub mod Stored
use doorfastforha.Prelude.{
  ℕ, suc, ◌+◌, ◌≤◌, ◌<◌, ◌≡◌, ◌≢◌, refl, String, true, false, List, [], ◌∷◌, ◌++◌, Option, none,
  some, length, arith, All, All-map, All-append, Bool-cases, Option-cases, inl, inr, ◌⊎◌, lookup,
  insert, delete, subst, sym, ◌∙◌, if_cases, ◌==◌, drop, string_eq, length-append, length-drop,
}
use native.Mathlib.Decide.{ℕ_discrete}
use doorfastforha.Audio.Hub.Cache.{
  rev, Ascending, Passed, Newer, cached-Newer, Gives, Passed-zero, cached-Gives, serial-cached,
}
use doorfastforha.Audio.Hub.Listeners.{
  Serials, Separate, insert-All, insert_new-All, delete-All, lookup-All, delete-Separate,
  insert-Separate, insert_new-Separate, length-insert, length-insert_new, length-delete-le,
  length-rewind, rewind-All, rewind-Separate,
}
use doorfastforha.Audio.Hub.{
  Hub, AudioIdentity, AudioChunk, AudioReadReply, chunk, Entry, Listener, init, close, serve,
  cached, store, append_entry, above_water, resynchronize, is_fresh, add, remove, check_open,
  Result, err, is_lost,
}

-- A cached revision lies at the high-water mark or below.
abbrev pub Below : ℕ → Option ℕ → Type 0
Below n none = ⊥
Below n (some w) = n ≤ w

-- All that was delivered lies at the high-water mark or below.
abbrev pub Reached : ℕ → Option ℕ → Type 0
Reached d none = d ≡ 0
Reached d (some w) = d ≤ suc w

abbrev pub IsQuiet : AudioReadReply → Type 0
IsQuiet (chunk c) = ⊥
IsQuiet _ = Unit {0}

pub record Inv (s d : ℕ) (h : Hub) : Type 0 where
  pub few_listeners : length h.listeners ≤ 4
  pub few_cached : length h.cache ≤ 4
  pub ascending : Ascending h.cache
  pub water : All (λ e. Below (rev e) h.high_water) h.cache
  pub separate : Separate h.listeners
  pub born : Serials (λ n. n < h.next_serial) h.listeners
  pub owned :
      All (λ (p : String × Listener). p.1.serial ≡ s → Passed d p.1.cursor h.cache) h.listeners
  pub reached : (h.closed ≡ true) ⊎ Reached d h.high_water
  pub unborn : h.next_serial ≤ s → d ≡ 0
  pub quiet : IsQuiet h.cooldown_reply

pub init-Inv : (s : ℕ) (identity : AudioIdentity) → Inv s 0 (init identity)
unfolding init
init-Inv s identity = record {
  few_listeners = omega arith;
  few_cached = omega arith;
  ascending = tt;
  water = tt;
  separate = tt;
  born = tt;
  owned = tt;
  reached = inr refl;
  unborn = λ _. refl;
  quiet = tt;
}

pub close-Inv : (s d : ℕ) (h : Hub) → Inv s d h → Inv s d (close h)
unfolding close
close-Inv s d h i = record {
  few_listeners = omega arith;
  few_cached = omega arith;
  ascending = tt;
  water = tt;
  separate = tt;
  born = tt;
  owned = tt;
  reached = inl refl;
  unborn = i.unborn;
  quiet = tt;
}

-- What a stretch may assume behind `_check_open`.
pub check_open_cases {ℓ κ} :
    {A : Type ℓ} (P : Hub × Result A → Type κ) (h : Hub) (epoch now : ℕ) (k : Hub → Hub × Result A)
    → P (h, err "audio_listener_closed")
    → P (close h, err "audio_connection_lost")
    → (h.closed ≡ false → P (k h))
    → P (check_open h epoch now k)
unfolding check_open
check_open_cases P h epoch now k shut lost on =
    if_cases P _ (λ _. shut)
      (λ open_. if_cases P (is_lost h now) (λ _. lost) (λ _. on (ground arith)))

pub remove-Inv : (s d : ℕ) (h : Hub) (id : String) → Inv s d h → Inv s d (remove h id)
unfolding remove
remove-Inv s d h id i =
    if_cases (Inv s d) (length (delete id h.listeners) == 0) (λ _. close-Inv s d h i)
      λ _. record {
        few_listeners = omega (arith, length-delete-le id h.listeners, i.few_listeners);
        few_cached = i.few_cached;
        ascending = i.ascending;
        water = i.water;
        separate = delete-Separate id h.listeners i.separate;
        born =
            delete-All (λ (p : String × Listener). p.1.serial < h.next_serial) id h.listeners
              i.born;
        owned = delete-All _ id h.listeners i.owned;
        reached = i.reached;
        unborn = i.unborn;
        quiet = i.quiet;
      }
