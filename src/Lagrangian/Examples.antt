-- ===== src/Lagrangian/Examples.antt =====
-- Runs of the grid builder, and the theorems on the numeric bounds at concrete inputs.
use soci_sgx_sdk.Prelude.{ℕ, ◌≡◌, refl, [], ◌∷◌, true, arith, ok, err, ◌⊎◌}
use soci_sgx_sdk.Prelude.Int.{pos}
use soci_sgx_sdk.Fixed.{Status, int64_max}
use soci_sgx_sdk.Lagrangian.{
  NumericDomain, LagrangianGrid, LagrangianNumericBounds, supported, maximum_mu, search_mu,
  required_bits, ceil_log2, checked_bit_sum, coefficient_bound, log_loop,
  derive_lagrangian_numeric_bounds,
}
use soci_sgx_sdk.Lagrangian.Search.{IsLargest}
use soci_sgx_sdk.Lagrangian.Largest.{maximum_mu-IsLargest}
use soci_sgx_sdk.Lagrangian.Scores.{BoundsScores, derive-BoundsScores}
use soci_sgx_sdk.Lagrangian.Grid.{LagrangianGridConfig, build_lagrangian_grid, grid_values}

abbrev domain : NumericDomain
domain = record {
  scale = pos 1_000_000;
  max_rows = 64;
  max_cost_bits = 40;
  max_total_bits = 60;
  max_linear_bits = 90;
  compare_operand_bits = 100;
}

abbrev config : LagrangianGridConfig
config = record { denominator = pos 1; requested_size = 5; span_factor = pos 2 }

-- Both anchors, and the upper end where a place was left for it.
default_values : grid_values 5 8 1 4 ≡ 0 ∷ 1 ∷ 2 ∷ 4 ∷ 6 ∷ []
unfolding grid_values
default_values = refl

run_supported : supported domain 250_000 1_000_000 4 ≡ ok true
unfolding supported required_bits ceil_log2 checked_bit_sum coefficient_bound log_loop
run_supported = refl

run_maximum : maximum_mu domain 250_000 1_000_000 ≡ ok 24_019_198_013
unfolding maximum_mu search_mu supported required_bits ceil_log2 checked_bit_sum coefficient_bound
    log_loop
run_maximum = refl

abbrev five_multipliers : LagrangianGrid
five_multipliers = record {
  q = pos 1_000_000;
  denominator = pos 1;
  mu = pos 0 ∷ pos 1 ∷ pos 2 ∷ pos 4 ∷ pos 6 ∷ [];
}

abbrev derived : LagrangianNumericBounds
derived = record {
  score_bits = 62;
  score_delta_bits = 63;
  bound_bits = 68;
  maximum_supported_mu = 24_019_198_013;
}

run_derive : derive_lagrangian_numeric_bounds domain (pos 250_000) five_multipliers ≡ ok derived
unfolding derive_lagrangian_numeric_bounds maximum_mu search_mu supported required_bits ceil_log2
    checked_bit_sum coefficient_bound log_loop
run_derive = refl

-- Three multipliers where two were requested: both anchors are kept, and the second one is the
-- upper end.
run_oversized :
    build_lagrangian_grid domain
      (pos 250_000)
      (record { denominator = pos 1; requested_size = 2; span_factor = pos 1 })
    ≡ ok (record { q = pos 1_000_000; denominator = pos 1; mu = pos 0 ∷ pos 1 ∷ pos 4 ∷ [] })
unfolding build_lagrangian_grid derive_lagrangian_numeric_bounds maximum_mu search_mu supported
    required_bits ceil_log2 checked_bit_sum coefficient_bound log_loop
run_oversized = refl

maximum_mu-IsLargest_example :
    ((e : Status) × (maximum_mu domain 250_000 1_000_000 ≡ err e)
      × ¬ (supported domain 250_000 1_000_000 0 ≡ ok true))
    ⊎ ((m : ℕ) × (maximum_mu domain 250_000 1_000_000 ≡ ok m)
        × IsLargest (supported domain 250_000 1_000_000) 0 int64_max m)
maximum_mu-IsLargest_example =
    maximum_mu-IsLargest domain 250_000 1_000_000 (omega arith) (omega arith) (omega arith)
      (omega arith)

derive-BoundsScores_example : BoundsScores domain 250_000 five_multipliers derived
derive-BoundsScores_example =
    derive-BoundsScores domain (pos 250_000) five_multipliers derived run_derive
