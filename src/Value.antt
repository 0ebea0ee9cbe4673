-- ===== src/Value.antt =====
-- Decoded JSON, the values that cross the bridge: Python's dict, list, str, int, float, bool, None.
-- The readers below are the source's `isinstance` and `type` tests, with `d.get(name)` for a field.
mod Scan
pub mod Equal
pub mod Put
pub use Scan.*
use doorfastforha.Prelude.{
  eq_iff, ap, ℕ, zero, suc, ◌<◌, ◌≡◌, String, str_eq, Bool, true, false, ◌||◌, ◌&&◌, List, [], ◌∷◌,
  Option, none, some, ℤ, pos, negsuc, if◌then◌else◌, ltb, leb,
}

mutual
  pub data Value : Type 0 where
    null : Value
    bool : Bool → Value
    int : ℤ → Value
    -- The integer that the number equals, if it is whole, and its JSON text.
    float : Option ℤ → String → Value
    str : String → Value
    list : Items → Value
    dict : Fields → Value

  pub data Items : Type 0 where
    nil : Items
    cons : Value → Items → Items

  pub data Fields : Type 0 where
    end : Fields
    field : String → Value → Fields → Fields

-- `d.get(name)`: None stands for a missing key too.
abbrev pub get : Fields → String → Value
get end k = null
get (field j v d) k = if str_eq j k then v else get d k

-- `name in d`.
abbrev pub has : Fields → String → Bool
has end k = false
has (field j v d) k = str_eq j k || has d k

-- `{**d, k: v}`.
unfoldable pub put : String → Value → Fields → Fields
put k v end = field k v end
put k v (field j w d) = if str_eq j k then field j v d else field j w (put k v d)

abbrev pub to_list : Items → List Value
to_list nil = []
to_list (cons v vs) = v ∷ to_list vs

-- `isinstance(v, dict)`, with the dictionary.
abbrev pub as_dict : Value → Option Fields
as_dict (dict d) = some d
as_dict _ = none

abbrev pub as_list : Value → Option (List Value)
as_list (list l) = some (to_list l)
as_list _ = none

abbrev pub as_text : Value → Option String
as_text (str s) = some s
as_text _ = none

abbrev pub as_bool : Value → Option Bool
as_bool (bool b) = some b
as_bool _ = none

-- `isinstance(v, int) and not isinstance(v, bool)`, which is `type(v) is int`.
abbrev pub as_int : Value → Option ℤ
as_int (int n) = some n
as_int _ = none

-- An integer of at least 0.
abbrev pub as_nat : Value → Option ℕ
as_nat (int (pos n)) = some n
as_nat _ = none

-- `v == text`, `v is True` and `v is False`.
abbrev pub is_text : Value → String → Bool
is_text (str s) t = str_eq s t
is_text _ t = false

abbrev pub is_true : Value → Bool
is_true (bool b) = b
is_true _ = false

abbrev pub is_false : Value → Bool
is_false (bool true) = false
is_false (bool false) = true
is_false _ = false

-- `v == n` for an int constant: Python's True, False and whole floats equal integers.
abbrev pub equals_int : Value → ℕ → Bool
equals_int (int (pos m)) n = if leb m n then leb n m else false
equals_int (bool true) n = if leb 1 n then leb n 1 else false
equals_int (bool false) n = leb n 0
equals_int (float (some (pos m)) _) n = if leb m n then leb n m else false
equals_int _ n = false

-- An integer above 0, as the checks of identities require it.
abbrev pub positive : Value → Option ℕ
positive (int (pos (suc n))) = some (suc n)
positive _ = none

abbrev pub uint64_limit : ℕ
uint64_limit = 18446744073709551616

pub is_text-eq : (v : Value) (s : String) → is_text v s ≡ true → v ≡ str s
is_text-eq (str t) s h = ap str ((eq_iff t s).0 h)
is_text-eq v s h = cc
