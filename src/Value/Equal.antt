-- ===== src/Value/Equal.antt =====
-- Python's `==` on decoded JSON, and membership of a value in a set of texts.
use doorfastforha.Prelude.{
  ℕ, suc, String, Bool, true, false, ◌&&◌, not, List, [], ◌∷◌, Option, none, some, ℤ, pos, int_eq,
  str_eq, contains, string_eq, ◌==◌,
}
use doorfastforha.Value.{
  Value, null, bool, int, float, str, list, dict, Items, nil, cons, Fields, end, field, get, has,
}

-- The integer that a number equals: True, False and whole floats equal integers.
abbrev pub whole : Value → Option ℤ
whole (int n) = some n
whole (bool true) = some (pos 1)
whole (bool false) = some (pos 0)
whole (float n text) = n
whole _ = none

abbrev same_whole : Option ℤ → Option ℤ → Bool
same_whole (some m) (some n) = int_eq m n
same_whole _ _ = false

-- Floats that are not whole, by their text; NaN does not equal itself.
abbrev same_fraction : Value → Value → Bool
same_fraction (float none s) (float none t) = str_eq s t && not (str_eq s "NaN")
same_fraction _ _ = false

abbrev pub size : Fields → ℕ
size end = 0
size (field k v d) = suc (size d)

-- Dictionaries are equal whatever the order of their keys.
unfoldable mutual
  pub same_value : Value → Value → Bool
  same_value null null = true
  same_value (str s) (str t) = str_eq s t
  same_value (list vs) (list ws) = same_items vs ws
  same_value (dict d) (dict e) = size d == size e && same_fields d e
  same_value (float none s) w = same_fraction (float none s) w
  same_value v w = same_whole (whole v) (whole w)

  pub same_items : Items → Items → Bool
  same_items nil nil = true
  same_items (cons v vs) (cons w ws) = same_value v w && same_items vs ws
  same_items _ _ = false

  pub same_fields : Fields → Fields → Bool
  same_fields end e = true
  same_fields (field k v d) e = has e k && (same_value v (get e k) && same_fields d e)

-- `v in {...}` with texts; a list or a dictionary raises.
abbrev pub among : List String → Value → Option Bool
among texts (list _) = none
among texts (dict _) = none
among texts (str s) = some (contains s texts)
among texts _ = some false

abbrev pub from_list : List Value → Items
from_list [] = nil
from_list (v ∷ vs) = cons v (from_list vs)
