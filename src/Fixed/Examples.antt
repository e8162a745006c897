-- ===== src/Fixed/Examples.antt =====
-- Runs of the decimal reader, and its theorems at concrete inputs.
use soci_sgx_sdk.Prelude.{ℕ, ◌≤◌, ◌<◌, ◌≡◌, refl, List, [], ◌∷◌, ◌++◌, true, false, ok, err, arith}
use soci_sgx_sdk.Fixed.{parse_fixed_point, fixed_safe, scale, invalid_argument}
use soci_sgx_sdk.Fixed.Parse.{
  parse_fixed_point_bounds, parse_fixed_point-decimal, checked, decimal_value,
}

abbrev twelve : List ℕ
twelve = b'1' ∷ b'2' ∷ []

abbrev places : List ℕ
places = b'0' ∷ b'5' ∷ []

read_twelve : parse_fixed_point (twelve ++ b'.' ∷ places) false ≡ ok 12_050_000
unfolding parse_fixed_point
read_twelve = refl

-- A seventh place must be zero, and a threshold is below one.
read_seven_places :
    parse_fixed_point (b'.' ∷ b'0' ∷ b'0' ∷ b'0' ∷ b'0' ∷ b'0' ∷ b'0' ∷ b'1' ∷ []) false
    ≡ err invalid_argument
unfolding parse_fixed_point
read_seven_places = refl

read_threshold_one : parse_fixed_point (b'1' ∷ []) true ≡ err invalid_argument
unfolding parse_fixed_point
read_threshold_one = refl

parse_fixed_point_bounds_example : (12_050_000 ≤ fixed_safe) × (false ≡ true → 12_050_000 < scale)
parse_fixed_point_bounds_example =
    parse_fixed_point_bounds (twelve ++ b'.' ∷ places) false 12_050_000 read_twelve

parse_fixed_point-decimal_example :
    parse_fixed_point ((b' ' ∷ []) ++ (twelve ++ b'.' ∷ places) ++ (b' ' ∷ [])) false
    ≡ checked false (decimal_value twelve places)
parse_fixed_point-decimal_example =
    parse_fixed_point-decimal twelve places (refl, (refl, tt)) (refl, (refl, tt)) (omega arith)
      (b' ' ∷ []) (b' ' ∷ []) false (refl, tt) (refl, tt)
