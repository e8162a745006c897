-- ===== src/Threshold/Domain.antt =====
-- The constructor of `ThresholdSecureOps`: the numeric domain that it accepts, `ceilLog2` and
-- `checkedBitSum`. A size of 64 bits is shifted out in 64 steps.
pub mod Bounds
mod Examples
use soci_sgx_sdk.Prelude.{
  ℕ, zero, suc, ◌+◌, ◌-◌, ◌/◌, Bool, true, false, not, ◌&&◌, ◌||◌, Result, ok, err, ◌>>=◌, ◌>>◌,
  require, ltb, leb, ◌==◌, if◌then◌else◌,
}
use soci_sgx_sdk.Prelude.Int.{ℤ, pos, negsuc, pos_part, ltb_ℤ}
use soci_sgx_sdk.Lagrangian.{NumericDomain, larger}

pub data DomainError : Type 0 where
  incomplete total_overflow linear_overflow bounds_too_small smul_invariant : DomainError

-- The loop over the bits of a value, on fuel.
unfoldable pub shift_loop : ℕ → ℕ → ℕ → ℕ
shift_loop zero value bits = bits
shift_loop (suc steps) value bits =
    let rest = shift_loop steps (value / 2) (bits + 1) in if value == 0 then bits else rest

unfoldable pub ceil_log2 : ℕ → ℕ
unfolding shift_loop
ceil_log2 value = if leb value 1 then 0 else shift_loop 64 (value - 1) 0

unfoldable pub checked_bit_sum : ℕ → ℕ → DomainError → Result DomainError ℕ
checked_bit_sum left right message =
    if ltb (4_294_967_295 - left) right then err message else ok (left + right)

-- `domain_` has every field.
abbrev pub has_every_field : NumericDomain → Bool
has_every_field d =
    ltb_ℤ (pos 0) d.scale
    && not (d.max_rows == 0)
    && not (d.max_cost_bits == 0)
    && not (d.max_total_bits == 0)
    && not (d.max_linear_bits == 0)
    && not (d.compare_operand_bits == 0)

abbrev pub covers : NumericDomain → ℕ → ℕ → Bool
covers d total linear =
    leb total d.max_total_bits
    && leb linear d.max_linear_bits
    && leb (larger total linear) d.compare_operand_bits

abbrev pub fits_smul : NumericDomain → Bool
fits_smul d =
    leb d.max_cost_bits 127
    && leb d.max_total_bits 127
    && leb d.max_linear_bits 127
    && leb d.compare_operand_bits 127

unfoldable pub check_domain : NumericDomain → Result DomainError (Unit {0})
unfolding checked_bit_sum ceil_log2
check_domain d = do
  require (has_every_field d) incomplete
  total ← checked_bit_sum d.max_cost_bits (ceil_log2 d.max_rows) total_overflow
  scaled ← checked_bit_sum total (ceil_log2 (pos_part d.scale)) linear_overflow
  linear ← checked_bit_sum scaled 1 linear_overflow
  require (covers d total linear) bounds_too_small
  require (fits_smul d) smul_invariant
