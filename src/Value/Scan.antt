-- ===== src/Value/Scan.antt =====
-- Walking over the characters of a text, and the character classes of the identifiers.
use Prim.Native.Char.{code}
use Prim.Native.String.{String}
use doorfastforha.Prelude.{
  ◌↔◌, refl, ◌≡◌, arith, ℕ, Bool, true, false, ◌||◌, ◌&&◌, List, [], ◌∷◌, leb, ◌==◌, all,
}

-- The code points of a text.
abbrev pub codes : String → List ℕ
codes String.[] = []
codes (String.◌∷◌ c s) = code c ∷ codes s

abbrev pub is_ascii : List ℕ → Bool
is_ascii = all (λ c. leb c 127)

abbrev pub is_lower : ℕ → Bool
is_lower c = leb b'a' c && leb c b'z'

abbrev pub is_upper : ℕ → Bool
is_upper c = leb b'A' c && leb c b'Z'

abbrev pub is_digit : ℕ → Bool
is_digit c = leb b'0' c && leb c b'9'

-- "0123456789abcdef".
abbrev pub is_hex : ℕ → Bool
is_hex c = is_digit c || (leb b'a' c && leb c b'f')

-- "abcdefghijklmnopqrstuvwxyz0123456789_".
abbrev pub is_identifier_char : ℕ → Bool
is_identifier_char c = is_lower c || (is_digit c || c == b'_')

-- Equality of texts and of byte strings.
abbrev pub codes_eq : List ℕ → List ℕ → Bool
codes_eq [] [] = true
codes_eq (x ∷ xs) (y ∷ ys) = x == y && codes_eq xs ys
codes_eq _ _ = false

pub codes_eq_iff : (xs ys : List ℕ) → (codes_eq xs ys ≡ true) ↔ (xs ≡ ys)
codes_eq_iff [] [] = (λ _. refl, λ _. refl)
codes_eq_iff [] (y ∷ ys) = ground arith
codes_eq_iff (x ∷ xs) [] = ground arith
codes_eq_iff (x ∷ xs) (y ∷ ys) = ground (arith, codes_eq_iff xs ys)
