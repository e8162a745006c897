-- ===== src/Threshold/Domain/Bounds.antt =====
-- What an accepted numeric domain promises: the numbers that the predicates form stay in range.
use soci_sgx_sdk.Prelude.{
  ℕ, zero, suc, ◌+◌, ◌-◌, ◌*◌, ◌/◌, ◌^◌, ◌≤◌, ◌<◌, ◌≡◌, refl, sym, ap, subst, ◌∙◌, Bool, true,
  false, List, [], ◌∷◌, ok, err, >>=-eq-ok, require, require_inv, arith, ltb, leb, leb→le, ◌==◌,
  if◌then◌else◌, length, All, Bool-cases, inl, inr,
}
use native.Mathlib.Nat.{pow-suc, zero-add, zero-mul, mul_comm, add_comm}
use soci_sgx_sdk.Prelude.Int.{pos_part}
use soci_sgx_sdk.Prelude.Powers.{mul-le_mul, mul-lt-pow, pow-add, pow_pos, pow-le_pow}
use soci_sgx_sdk.Lagrangian.{NumericDomain}
use soci_sgx_sdk.Lagrangian.Log.{IsLog}
use soci_sgx_sdk.Threshold.Domain.{
  DomainError, total_overflow, linear_overflow, shift_loop, ceil_log2, checked_bit_sum,
  has_every_field, covers, fits_smul, check_domain,
}

positive : (m : ℕ) → (m == 0) ≡ false → 0 < m
positive m h = ground arith

-- The shifts count the bits of a value.
shift_loop-bits :
    (steps value bits : ℕ)
    → value < 2 ^ steps
    → (more : ℕ) × (shift_loop steps value bits ≡ bits + more)
      × (value < 2 ^ more)
      × ((k : ℕ) → k < more → 2 ^ k ≤ value)
unfolding shift_loop
shift_loop-bits zero value bits h = (0, omega arith, h, λ k l. absurd (omega arith))
shift_loop-bits (suc steps) value bits h = elim (Bool-cases (value == 0)) [
  | inl e ↦ (0, rw (e) (omega arith), ground arith, λ k l. absurd (omega arith))
  | inr e ↦
      let (more, f, l, least) =
        shift_loop-bits steps (value / 2) (bits + 1) (omega (arith, h, pow-suc 2 steps)) in
      (
        suc more,
        rw (e) (f ∙ (omega arith)),
        omega (arith, l, pow-suc 2 more),
        least_of (positive value e) least,
      )
]
  where
    least_of :
        {more : ℕ}
        → 0 < value
        → ((k : ℕ) → k < more → 2 ^ k ≤ value / 2)
        → (k : ℕ) → k < suc more
        → 2 ^ k ≤ value
    least_of p least zero l = p
    least_of p least (suc k) l = omega (arith, least k (omega arith), pow-suc 2 k)

IsLog-before :
    (value more : ℕ)
    → 0 < value
    → value - 1 < 2 ^ more
    → ((k : ℕ) → k < more → 2 ^ k ≤ value - 1)
    → IsLog value more
IsLog-before value more p l least = record {
  reaches = omega arith;
  least = λ k m. omega (arith, least k m);
}

pub ceil_log2-IsLog : (value : ℕ) → 0 < value → value ≤ 2 ^ 64 → IsLog value (ceil_log2 value)
unfolding ceil_log2
ceil_log2-IsLog value p h = elim (Bool-cases (leb value 1)) [
  | inl e ↦ rw (e) (record { reaches = leb→le value 1 e; least = λ k l. absurd (omega arith) })
  | inr e ↦
      let (more, f, l, least) = shift_loop-bits 64 (value - 1) 0 (omega arith) in
      let counted : shift_loop 64 (value - 1) 0 ≡ more = f ∙ zero-add more in
      rw (e) (subst (IsLog value) (sym counted) (IsLog-before value more p l least))
]

checked_bit_sum_inv :
    (left right : ℕ) (message : DomainError) {sum : ℕ}
    → checked_bit_sum left right message ≡ ok sum
    → sum ≡ left + right
unfolding checked_bit_sum
checked_bit_sum_inv left right message h = go (ltb (4_294_967_295 - left) right) h
  where
    go :
        (t : Bool) {sum : ℕ}
        → (if t then err message else ok (left + right)) ≡ ok sum
        → sum ≡ left + right
    go true h = cc
    go false h = cc

passed : (t : Bool) (message : DomainError) → require t message ≡ ok tt → t ≡ true
passed true message h = refl
passed false message h = cc

-- The steps of a check that was passed.
record Checked (d : NumericDomain) : Type 0 where
  complete : has_every_field d ≡ true
  covered :
      covers d
        (d.max_cost_bits + ceil_log2 d.max_rows)
        (d.max_cost_bits + ceil_log2 d.max_rows + ceil_log2 (pos_part d.scale) + 1)
      ≡ true
  fits : fits_smul d ≡ true

check_domain-Checked : (d : NumericDomain) → check_domain d ≡ ok tt → Checked d
unfolding check_domain
check_domain-Checked d h =
    let (complete, h1) = require_inv (has_every_field d) _ _ h in
    let (total, e1, h2) =
      >>=-eq-ok (checked_bit_sum d.max_cost_bits (ceil_log2 d.max_rows) total_overflow) _ h1 in
    let (scaled, e2, h3) =
      >>=-eq-ok (checked_bit_sum total (ceil_log2 (pos_part d.scale)) linear_overflow) _ h2 in
    let (linear, e3, h4) = >>=-eq-ok (checked_bit_sum scaled 1 linear_overflow) _ h3 in
    let (covered, h5) = require_inv (covers d total linear) _ _ h4 in
    let total_is = checked_bit_sum_inv d.max_cost_bits (ceil_log2 d.max_rows) total_overflow e1 in
    let scaled_is = checked_bit_sum_inv total (ceil_log2 (pos_part d.scale)) linear_overflow e2 in
    let linear_is = checked_bit_sum_inv scaled 1 linear_overflow e3 in
    record {
      complete = complete;
      covered =
          subst (λ m. covers d m (m + ceil_log2 (pos_part d.scale) + 1) ≡ true) total_is
            (subst (λ m. covers d total (m + 1) ≡ true) scaled_is
              (subst (λ m. covers d total m ≡ true) linear_is covered));
      fits = passed (fits_smul d) _ h5;
    }

abbrev pub total_of : List ℕ → ℕ
total_of [] = 0
total_of (c ∷ cs) = c + total_of cs

total_of-le :
    (bits : ℕ) (costs : List ℕ)
    → All (λ c. c < 2 ^ bits) costs
    → total_of costs + length costs ≤ length costs * 2 ^ bits
total_of-le bits [] h = omega arith
total_of-le bits (c ∷ cs) h =
    let split : suc (length cs) * 2 ^ bits ≡ length cs * 2 ^ bits + 2 ^ bits = grind arith in
    omega (arith, h.0, total_of-le bits cs h.1, split)

sum-lt :
    (bits rows log_rows sum count : ℕ)
    → count ≤ rows
    → sum + count ≤ count * 2 ^ bits
    → rows ≤ 2 ^ log_rows
    → sum < 2 ^ (bits + log_rows)
sum-lt bits rows log_rows sum zero hc hs hr =
    omega (arith, hs, zero-mul (2 ^ bits), pow_pos (bits + log_rows))
sum-lt bits rows log_rows sum (suc count) hc hs hr =
    let le : suc count * 2 ^ bits ≤ 2 ^ log_rows * 2 ^ bits =
      mul-le_mul (suc count) (2 ^ log_rows) (2 ^ bits) (2 ^ bits) (omega arith) (omega arith) in
    let power : 2 ^ (bits + log_rows) ≡ 2 ^ log_rows * 2 ^ bits =
      pow-add bits log_rows ∙ mul_comm (2 ^ bits) (2 ^ log_rows) in
    omega (arith, hs, le, power)

scaled-lt : (sum scale m n : ℕ) → sum < 2 ^ m → scale ≤ 2 ^ n → 2 * (sum * scale) < 2 ^ (m + n + 1)
scaled-lt sum scale m n h k =
    let product = mul-lt-pow scale sum n m k h in
    let order : 2 ^ (n + m) ≡ 2 ^ (m + n) = ap (λ t. 2 ^ t) (add_comm n m) in
    let power : 2 ^ (m + n + 1) ≡ 2 ^ (m + n) * 2 =
      ap (λ t. 2 ^ t) (next (m + n)) ∙ pow-suc 2 (m + n) in
    omega (arith, product, mul_comm scale sum, order, power)
  where
    next : (t : ℕ) → t + 1 ≡ suc t
    next t = omega arith

-- For every domain of 64-bit sizes that `ThresholdSecureOps` accepts and all costs that it allows, in
-- number and in bits: the total cost and twice the scaled total stay below the declared bounds, the
-- comparisons' operands too, and no bound exceeds 2^127, which the products and comparisons need.
pub check_domain-bounds :
    (d : NumericDomain) (costs : List ℕ)
    → d.max_rows ≤ 2 ^ 64
    → pos_part d.scale ≤ 2 ^ 64
    → check_domain d ≡ ok tt
    → length costs ≤ d.max_rows
    → All (λ c. c < 2 ^ d.max_cost_bits) costs
    → (total_of costs < 2 ^ d.max_total_bits)
      × (2 * (total_of costs * pos_part d.scale) < 2 ^ d.max_linear_bits)
      × (total_of costs < 2 ^ d.compare_operand_bits)
      × (2 * (total_of costs * pos_part d.scale) < 2 ^ d.compare_operand_bits)
      × (2 ^ d.max_total_bits ≤ 2 ^ 127)
      × (2 ^ d.max_linear_bits ≤ 2 ^ 127)
      × (2 ^ d.compare_operand_bits ≤ 2 ^ 127)
check_domain-bounds d costs small_rows small_scale accepted count bounded =
    let c = check_domain-Checked d accepted in
    let log_rows = ceil_log2 d.max_rows in
    let log_scale = ceil_log2 (pos_part d.scale) in
    let total = d.max_cost_bits + log_rows in
    let linear = total + log_scale + 1 in
    let (few, exact, total_both, linear_both) = covers_inv d total linear c.covered in
    let (positive_scale, positive_rows) = complete_inv d c.complete in
    let sum =
      sum-lt d.max_cost_bits d.max_rows log_rows (total_of costs) (length costs) count
        (total_of-le d.max_cost_bits costs bounded)
        (ceil_log2-IsLog d.max_rows positive_rows small_rows).reaches in
    let scaled =
      scaled-lt (total_of costs) (pos_part d.scale) total log_scale sum
        (ceil_log2-IsLog (pos_part d.scale) positive_scale small_scale).reaches in
    let (t, l, o) = fits_inv d c.fits in
    (
      omega (arith, sum, pow-le_pow total d.max_total_bits few),
      omega (arith, scaled, pow-le_pow linear d.max_linear_bits exact),
      omega (arith, sum, pow-le_pow total d.compare_operand_bits total_both),
      omega (arith, scaled, pow-le_pow linear d.compare_operand_bits linear_both),
      pow-le_pow d.max_total_bits 127 t,
      pow-le_pow d.max_linear_bits 127 l,
      pow-le_pow d.compare_operand_bits 127 o,
    )
  where
    covers_inv :
        (d : NumericDomain) (total linear : ℕ)
        → covers d total linear ≡ true
        → (total ≤ d.max_total_bits)
          × (linear ≤ d.max_linear_bits)
          × (total ≤ d.compare_operand_bits)
          × (linear ≤ d.compare_operand_bits)
    covers_inv d total linear h = (ground arith, ground arith, ground arith, ground arith)

    complete_inv :
        (d : NumericDomain) → has_every_field d ≡ true → (0 < pos_part d.scale) × (0 < d.max_rows)
    complete_inv d h = (ground arith, ground arith)

    fits_inv :
        (d : NumericDomain)
        → fits_smul d ≡ true
        → (d.max_total_bits ≤ 127) × (d.max_linear_bits ≤ 127) × (d.compare_operand_bits ≤ 127)
    fits_inv d h = (ground arith, ground arith, ground arith)
