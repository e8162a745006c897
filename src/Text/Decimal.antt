-- ===== src/Text/Decimal.antt =====
-- Decimal numerals: printing and reading.
use soci_sgx_sdk.Prelude.{
  ℕ, zero, suc, ◌+◌, ◌-◌, ◌*◌, ◌/◌, ◌%◌, ◌≤◌, ◌<◌, ◌≡◌, refl, List, [], ◌∷◌, ◌++◌, true, ltb, arith,
  All, All-append, length, length-append, Bool-cases, inl, inr,
}
use soci_sgx_sdk.Text.{is_digit, digits_value, to_digits, to_string}

abbrev pub IsDigit : ℕ → Type 0
IsDigit c = is_digit c ≡ true

pub digits_value-append :
    (acc : ℕ) (s u : List ℕ) → digits_value acc (s ++ u) ≡ digits_value (digits_value acc s) u
unfolding digits_value
digits_value-append acc [] u = refl
digits_value-append acc (c ∷ s) u = digits_value-append (acc * 10 + (c - b'0')) s u

to_digits-IsDigit : (fuel n : ℕ) → All IsDigit (to_digits fuel n)
unfolding to_digits
to_digits-IsDigit zero n = (ground arith, tt)
to_digits-IsDigit (suc fuel) n = elim (Bool-cases (ltb n 10)) [
  | inl e ↦ rw e (ground arith, tt)
  | inr e ↦ rw e (
      All-append IsDigit (to_digits fuel (n / 10)) _ (to_digits-IsDigit fuel (n / 10))
        (ground arith, tt))
]

digits_value-to_digits : (fuel n : ℕ) → n ≤ fuel → digits_value 0 (to_digits fuel n) ≡ n
unfolding to_digits digits_value
digits_value-to_digits zero n h = omega arith
digits_value-to_digits (suc fuel) n h = elim (Bool-cases (ltb n 10)) [
  | inl e ↦ rw e (omega arith)
  | inr e ↦
      rw (e, digits_value-append 0 (to_digits fuel (n / 10)) ((b'0' + n % 10) ∷ []))
        (ground (arith, e, digits_value-to_digits fuel (n / 10)))
]

to_digits-pos : (fuel n : ℕ) → 0 < length (to_digits fuel n)
unfolding to_digits
to_digits-pos zero n = omega arith
to_digits-pos (suc fuel) n =
    ground (arith, length-append (to_digits fuel (n / 10)) ((b'0' + n % 10) ∷ []))

pub to_string-IsDigit : (n : ℕ) → All IsDigit (to_string n)
unfolding to_string
to_string-IsDigit n = to_digits-IsDigit n n

pub to_string-pos : (n : ℕ) → 0 < length (to_string n)
unfolding to_string
to_string-pos n = to_digits-pos n n

-- `std::stoll` reads back what `std::to_string` writes.
pub digits_value-to_string : (n : ℕ) → digits_value 0 (to_string n) ≡ n
unfolding to_string
digits_value-to_string n = digits_value-to_digits n n (omega arith)
