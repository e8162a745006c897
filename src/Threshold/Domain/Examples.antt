-- ===== src/Threshold/Domain/Examples.antt =====
-- Domains that are accepted and refused, and the bounds at a concrete domain.
use soci_sgx_sdk.Prelude.{◌*◌, ◌^◌, ◌<◌, ◌≤◌, ◌≡◌, refl, [], ◌∷◌, ok, err, arith}
use soci_sgx_sdk.Prelude.Int.{pos}
use soci_sgx_sdk.Lagrangian.{NumericDomain}
use soci_sgx_sdk.Threshold.Domain.{
  bounds_too_small, shift_loop, ceil_log2, checked_bit_sum, check_domain,
}
use soci_sgx_sdk.Threshold.Domain.Bounds.{check_domain-bounds}

abbrev domain : NumericDomain
domain = record {
  scale = pos 1_000_000;
  max_rows = 64;
  max_cost_bits = 40;
  max_total_bits = 46;
  max_linear_bits = 67;
  compare_operand_bits = 67;
}

accepted : check_domain domain ≡ ok tt
unfolding check_domain checked_bit_sum ceil_log2 shift_loop
accepted = refl

refused_bits : check_domain (record domain { max_linear_bits = 66 }) ≡ err bounds_too_small
unfolding check_domain checked_bit_sum ceil_log2 shift_loop
refused_bits = refl

check_domain-bounds_example :
    (1_000_005 < 2 ^ 46)
    × (2 * (1_000_005 * 1_000_000) < 2 ^ 67)
    × (1_000_005 < 2 ^ 67)
    × (2 * (1_000_005 * 1_000_000) < 2 ^ 67)
    × (2 ^ 46 ≤ 2 ^ 127)
    × (2 ^ 67 ≤ 2 ^ 127)
    × (2 ^ 67 ≤ 2 ^ 127)
check_domain-bounds_example =
    check_domain-bounds domain (1_000_000 ∷ 5 ∷ []) (omega arith) (omega arith) accepted
      (omega arith) (omega arith, (omega arith, tt))
