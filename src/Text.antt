-- ===== src/Text.antt =====
-- What the sources use of C++ text: `std::string` as a list of bytes, the `<cctype>` tests of the
-- "C" locale, `std::to_string` of a number that is not negative, and `std::stoll` on digits.
pub mod Decimal
pub mod Same
use soci_sgx_sdk.Prelude.{
  ℕ, zero, suc, ◌+◌, ◌-◌, ◌*◌, ◌/◌, ◌%◌, List, [], ◌∷◌, ◌++◌, Option, none, some, Bool, true, false,
  ltb, leb, ◌==◌, ◌&&◌, ◌||◌, if◌then◌else◌,
}
use mathlib.Core.List.{foldl, reverse}

abbrev pub is_space : ℕ → Bool
is_space c = (leb 9 c && leb c 13) || c == 32

abbrev pub is_digit : ℕ → Bool
is_digit c = leb b'0' c && leb c b'9'

abbrev pub is_alpha : ℕ → Bool
is_alpha c = (leb b'a' c && leb c b'z') || (leb b'A' c && leb c b'Z')

abbrev pub is_alnum : ℕ → Bool
is_alnum c = is_alpha c || is_digit c

-- `erase(begin, find_if_not(begin, end, p))`.
unfoldable pub drop_while : (ℕ → Bool) → List ℕ → List ℕ
drop_while p [] = []
drop_while p (c ∷ s) = if p c then drop_while p s else c ∷ s

-- `erase(find_if_not(rbegin, rend, p).base(), end)`.
unfoldable pub drop_while_end : (ℕ → Bool) → List ℕ → List ℕ
drop_while_end p s = reverse (drop_while p (reverse s))

abbrev pub cons_front : ℕ → Option (List ℕ × List ℕ) → Option (List ℕ × List ℕ)
cons_front d none = none
cons_front d (some (front, back)) = some (d ∷ front, back)

-- The text before and after the first `c`; `none` is `npos`.
unfoldable pub split_at : ℕ → List ℕ → Option (List ℕ × List ℕ)
split_at c [] = none
split_at c (d ∷ s) = if d == c then some ([], s) else cons_front d (split_at c s)

-- The value of a text of digits.
unfoldable pub digits_value : ℕ → List ℕ → ℕ
digits_value acc [] = acc
digits_value acc (c ∷ s) = digits_value (acc * 10 + (c - b'0')) s

-- Decimal digits; `n` rounds are enough for `n`, since each divides by ten.
unfoldable pub to_digits : ℕ → ℕ → List ℕ
to_digits zero n = (b'0' + n % 10) ∷ []
to_digits (suc fuel) n =
    let front = to_digits fuel (n / 10) in
    if ltb n 10 then (b'0' + n) ∷ [] else front ++ (b'0' + n % 10) ∷ []

unfoldable pub to_string : ℕ → List ℕ
unfolding to_digits
to_string n = to_digits n n

-- `==` of strings.
abbrev pub same_text : List ℕ → List ℕ → Bool
same_text [] [] = true
same_text [] (d ∷ u) = false
same_text (c ∷ s) [] = false
same_text (c ∷ s) (d ∷ u) = c == d && same_text s u
