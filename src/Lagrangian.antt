-- ===== src/Lagrangian.antt =====
-- src/lagrangian_relaxation.cpp and include/soci/lagrangian_relaxation.hpp: the numeric bounds of
-- the Lagrangian scores, and the grid of multipliers. The public functions take signed numbers and
-- check their signs; the helpers behind the checks take naturals. __int128 values stay below
-- 2 ^ 127: a coefficient is at most q + mu * threshold with three factors below 2 ^ 63.
pub mod Search
pub mod Log
pub mod Maximum
pub mod Largest
pub mod Scores
pub mod Grid
mod Examples
use soci_sgx_sdk.Prelude.{
  ℕ, zero, suc, ◌+◌, ◌-◌, ◌*◌, ◌/◌, ◌≤◌, ◌<◌, ◌≡◌, Bool, true, false, not, ◌&&◌, ◌||◌, List, [],
  ◌∷◌, Result, ok, err, ◌>>=◌, ◌>>◌, require, ltb, leb, ◌==◌, if◌then◌else◌, length, all_of,
}
use soci_sgx_sdk.Prelude.Int.{ℤ, pos, negsuc, pos_part, ltb_ℤ}
use soci_sgx_sdk.Fixed.{Status, invalid_argument, numeric_range_exceeded, int64_max}

pub record NumericDomain : Type 0 where
  pub scale : ℤ
  pub max_rows : ℕ
  pub max_cost_bits : ℕ
  pub max_total_bits : ℕ
  pub max_linear_bits : ℕ
  pub compare_operand_bits : ℕ

-- `q`, `denominator` and `mu` of a grid.
pub record LagrangianGrid : Type 0 where
  pub q : ℤ
  pub denominator : ℤ
  pub mu : List ℤ

pub record LagrangianNumericBounds : Type 0 where
  pub score_bits : ℕ
  pub score_delta_bits : ℕ
  pub bound_bits : ℕ
  pub maximum_supported_mu : ℕ

abbrev pub secure_operand_bits : ℕ
secure_operand_bits = 127

abbrev pub uint32_max : ℕ
uint32_max = 4_294_967_295

-- The loop of `ceilLog2`, with the doublings left until `bits` is 127.
unfoldable pub log_loop : ℕ → ℕ → ℕ → ℕ → Result Status ℕ
log_loop zero power bits value = if ltb power value then err numeric_range_exceeded else ok bits
log_loop (suc left) power bits value =
    let rest = log_loop left (power * 2) (suc bits) value in
    if ltb power value then rest else ok bits

unfoldable pub ceil_log2 : ℕ → Result Status ℕ
unfolding log_loop
ceil_log2 value = do require (ltb 0 value) numeric_range_exceeded; log_loop 127 1 0 value

unfoldable pub checked_bit_sum : ℕ → ℕ → Result Status ℕ
checked_bit_sum a b = do require (leb (a + b) uint32_max) numeric_range_exceeded; ok (a + b)

-- `absWide` of a difference.
abbrev pub distance : ℕ → ℕ → ℕ
distance a b = if leb b a then a - b else b - a

abbrev pub larger : ℕ → ℕ → ℕ
larger a b = if ltb a b then b else a

unfoldable pub coefficient_bound : ℕ → ℕ → ℕ → ℕ → ℕ
coefficient_bound q mu alpha threshold = larger (distance q (mu * alpha)) (q + mu * threshold)

pub record Bits : Type 0 where
  pub score : ℕ
  pub delta : ℕ
  pub bound : ℕ

unfoldable pub required_bits : NumericDomain → ℕ → ℕ → ℕ → Result Status Bits
unfolding ceil_log2 checked_bit_sum coefficient_bound
required_bits domain threshold q maximum_mu = do
  g ← ceil_log2 (coefficient_bound q maximum_mu (pos_part domain.scale - threshold) threshold)
  score ← checked_bit_sum domain.max_cost_bits g
  delta ← checked_bit_sum score 1
  rows ← ceil_log2 domain.max_rows
  bound ← checked_bit_sum score rows
  ok (record { score = score; delta = delta; bound = bound })

unfoldable pub supported : NumericDomain → ℕ → ℕ → ℕ → Result Status Bool
unfolding required_bits
supported domain threshold q mu = do
  bits ← required_bits domain threshold q mu
  ok (
      leb bits.delta secure_operand_bits
      && leb bits.bound domain.compare_operand_bits
      && leb domain.compare_operand_bits secure_operand_bits)

-- The binary search of `maximumMu`, over the test at a multiplier; the interval halves, so the
-- bits of its length are enough fuel.
unfoldable pub search_mu : (ℕ → Result Status Bool) → ℕ → ℕ → ℕ → Result Status ℕ
search_mu test zero low high = ok low
search_mu test (suc fuel) low high =
    let midpoint = low + (high - low + 1) / 2 in
    let above = search_mu test fuel midpoint high in
    let below = search_mu test fuel low (midpoint - 1) in
    if ltb low high then (do b ← test midpoint; if b then above else below) else ok low

unfoldable pub maximum_mu : NumericDomain → ℕ → ℕ → Result Status ℕ
maximum_mu domain threshold q = do
  at_zero ← supported domain threshold q 0
  require at_zero numeric_range_exceeded
  search_mu (supported domain threshold q) 63 0 int64_max

-- `std::is_sorted`, `std::adjacent_find` and `back()`, on the grid.
abbrev pub is_sorted : List ℤ → Bool
is_sorted [] = true
is_sorted (x ∷ []) = true
is_sorted (x ∷ y ∷ xs) = not (ltb_ℤ y x) && is_sorted (y ∷ xs)

abbrev pub same_ℤ : ℤ → ℤ → Bool
same_ℤ x y = not (ltb_ℤ x y || ltb_ℤ y x)

abbrev pub has_duplicate : List ℤ → Bool
has_duplicate [] = false
has_duplicate (x ∷ []) = false
has_duplicate (x ∷ y ∷ xs) = same_ℤ x y || has_duplicate (y ∷ xs)

abbrev pub first_of : List ℤ → ℤ
first_of [] = pos 0
first_of (x ∷ xs) = x

abbrev pub back : List ℤ → ℤ
back [] = pos 0
back (x ∷ []) = x
back (x ∷ y ∷ xs) = back (y ∷ xs)

abbrev pub is_positive : ℤ → Bool
is_positive x = ltb_ℤ (pos 0) x

-- The tests of `deriveLagrangianNumericBounds`.
abbrev pub is_complete : NumericDomain → Bool
is_complete domain =
    is_positive domain.scale
    && ltb 0 domain.max_rows
    && ltb 0 domain.max_cost_bits
    && ltb 0 domain.compare_operand_bits

abbrev pub is_threshold : ℤ → ℤ → Bool
is_threshold threshold scale = not (ltb_ℤ threshold (pos 0)) && ltb_ℤ threshold scale

abbrev pub is_grid : LagrangianGrid → Bool
is_grid grid = is_positive grid.q && is_positive grid.denominator && ltb 0 (length grid.mu)

abbrev pub is_scaled : ℤ → LagrangianGrid → Bool
is_scaled scale grid = pos_part scale * pos_part grid.denominator == pos_part grid.q

abbrev pub starts_at_zero : List ℤ → Bool
starts_at_zero mu = is_sorted mu && same_ℤ (first_of mu) (pos 0)

unfoldable pub derive_lagrangian_numeric_bounds :
    NumericDomain → ℤ → LagrangianGrid → Result Status LagrangianNumericBounds
derive_lagrangian_numeric_bounds domain threshold grid = do
  require (is_complete domain) invalid_argument
  require (is_threshold threshold domain.scale) invalid_argument
  require (is_grid grid) invalid_argument
  require (is_scaled domain.scale grid) invalid_argument
  require (starts_at_zero grid.mu) invalid_argument
  require (not (has_duplicate grid.mu)) invalid_argument
  require (not (ltb_ℤ (back grid.mu) (pos 0))) invalid_argument
  require (leb domain.compare_operand_bits secure_operand_bits) numeric_range_exceeded
  maximum ← maximum_mu domain (pos_part threshold) (pos_part grid.q)
  require (leb (pos_part (back grid.mu)) maximum) numeric_range_exceeded
  bits ← required_bits domain (pos_part threshold) (pos_part grid.q) (pos_part (back grid.mu))
  ok (record {
    score_bits = bits.score;
    score_delta_bits = bits.delta;
    bound_bits = bits.bound;
    maximum_supported_mu = maximum;
  })
