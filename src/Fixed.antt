-- ===== src/Fixed.antt =====
-- src/fixed_point.hpp: costs and thresholds as integers scaled by 1,000,000. A text is a list of
-- bytes. The values are never negative (a leading '-' is refused), so they are in ℕ.
pub mod Trim
pub mod Parse
mod Examples
use soci_sgx_sdk.Prelude.{
  ℕ, ◌+◌, ◌-◌, ◌*◌, ◌/◌, Bool, true, false, not, ◌&&◌, ◌||◌, List, [], ◌∷◌, ◌++◌, Option, none,
  some, Result, ok, err, ◌>>=◌, ◌>>◌, require, ltb, leb, ◌==◌, if◌then◌else◌, length, take, drop,
  replicate, all_of, any_of,
}
use soci_sgx_sdk.Text.{is_space, is_digit, drop_while, drop_while_end, split_at, digits_value}

abbrev pub scale : ℕ
scale = 1_000_000

abbrev pub int64_max : ℕ
int64_max = 9_223_372_036_854_775_807

-- `kFixedSafe` and `kSafe`: INT64_MAX / 16.
abbrev pub fixed_safe : ℕ
fixed_safe = 576_460_752_303_423_487

-- `enum class Status`. An `OptimizationError` is modelled by its status, without the message.
pub data Status : Type 0 where
  optimal invalid_argument no_feasible_solution numeric_range_exceeded : Status

unfoldable pub validate_aggregate : ℕ → Result Status (Unit {0})
validate_aggregate max_total = require (leb (max_total * scale) fixed_safe) numeric_range_exceeded

unfoldable pub trim_fixed : List ℕ → List ℕ
unfolding drop_while drop_while_end
trim_fixed s = drop_while_end is_space (drop_while is_space s)

-- `if (s.empty() || s[0] == '-') invalid(...)`, then `if (s[0] == '+') s.erase(0, 1)`.
unfoldable pub strip_sign : List ℕ → Result Status (List ℕ)
strip_sign [] = err invalid_argument
strip_sign (c ∷ s) = if c == b'-' then err invalid_argument else ok (if c == b'+' then s else c ∷ s)

abbrev pub is_npos : Option (List ℕ × List ℕ) → Bool
is_npos none = true
is_npos (some p) = false

abbrev pub at_point : List ℕ → Option (List ℕ × List ℕ) → Result Status (List ℕ × List ℕ)
at_point s none = ok (s, [])
at_point s (some (whole, fraction)) = do
  require (is_npos (split_at b'.' fraction)) invalid_argument
  ok (whole, fraction)

-- The whole part and the fraction, at the only '.' there is, if there is one.
unfoldable pub split_decimal : List ℕ → Result Status (List ℕ × List ℕ)
unfolding split_at
split_decimal s = at_point s (split_at b'.' s)

-- `if (whole.empty()) whole = "0";`
abbrev pub default_zero : List ℕ → List ℕ
default_zero [] = b'0' ∷ []
default_zero (c ∷ s) = c ∷ s

-- The fraction cut to six digits, if the digits beyond are zeros, and filled up to six.
unfoldable pub six_digits : List ℕ → Result Status (List ℕ)
six_digits fraction = do
  require (not (ltb 6 (length fraction)) || all_of (λ c. c == b'0') (drop 6 fraction))
      invalid_argument
  let kept = take 6 fraction
  ok (kept ++ replicate (6 - length kept) b'0')

-- `std::stoll` on digits, with its `std::out_of_range` caught as the range error.
unfoldable pub stoll : List ℕ → Result Status ℕ
unfolding digits_value
stoll s = let v = digits_value 0 s in if ltb int64_max v then err numeric_range_exceeded else ok v

-- The range check and the threshold check on the two numbers.
unfoldable pub scaled_value : ℕ → ℕ → Bool → Result Status ℕ
scaled_value whole fraction threshold = do
  require (leb whole ((fixed_safe - fraction) / scale)) numeric_range_exceeded
  let result = whole * scale + fraction
  require (not (threshold && leb scale result)) invalid_argument
  ok result

unfoldable pub parse_fixed_point : List ℕ → Bool → Result Status ℕ
unfolding trim_fixed strip_sign split_decimal six_digits stoll scaled_value
parse_fixed_point input threshold = do
  s ← strip_sign (trim_fixed input)
  (whole_text, fraction_text) ← split_decimal s
  let whole = default_zero whole_text
  require (all_of is_digit whole && all_of is_digit fraction_text) invalid_argument
  fraction ← six_digits fraction_text
  whole_value ← stoll whole
  fraction_value ← stoll fraction
  scaled_value whole_value fraction_value threshold
