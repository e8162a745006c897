-- ===== src/Threshold/Compare/Blinding.antt =====
-- The number behind a blinded difference, and its side of half the modulus.
use soci_sgx_sdk.Prelude.{
  ℕ, zero, suc, ◌+◌, ◌-◌, ◌*◌, ◌^◌, ◌≤◌, ◌<◌, ◌≡◌, Bool, true, false, not, arith, ltb, lt→ltb,
  le→ltb,
}
use native.Mathlib.Nat.{mul-le-mul}
use soci_sgx_sdk.Prelude.Int.{
  ℤ, pos, negsuc, pos_part, neg_part, ◌+ℤ◌, ◌-ℤ◌, ◌*ℤ◌, ltb_ℤ, +ℤ_parts, -ℤ_parts, *ℤ_pos_parts,
  eq_of_parts,
}

abbrev pub is_negative : ℤ → Bool
is_negative (pos k) = false
is_negative (negsuc k) = true

abbrev pub is_positive : ℤ → Bool
is_positive (pos zero) = false
is_positive (pos (suc k)) = true
is_positive (negsuc k) = false

pub less_sub : (x y : ℤ) → ltb_ℤ x y ≡ is_negative (x -ℤ y)
unfolding ◌-ℤ◌
less_sub x y = ground arith

pub greater_sub : (x y : ℤ) → ltb_ℤ y x ≡ is_positive (x -ℤ y)
unfolding ◌-ℤ◌
greater_sub x y = ground arith

-- `w * r3 + extra + half - r`.
abbrev pub blinded : ℕ → ℕ → ℕ → ℕ → ℤ → ℕ
blinded half extra r3 r (pos k) = half + extra + k * r3 - r
blinded half extra r3 r (negsuc k) = half + extra - suc k * r3 - r

pub blinded_lem :
    (half extra r3 r : ℕ) (w : ℤ)
    → r + neg_part w * r3 ≤ half
    → w *ℤ pos r3 +ℤ (pos extra +ℤ (pos half -ℤ pos r)) ≡ pos (blinded half extra r3 r w)
blinded_lem half extra r3 r (pos k) h =
    let m = pos half -ℤ pos r in
    eq_of_parts ((pos k) *ℤ pos r3 +ℤ (pos extra +ℤ m)) (pos (blinded half extra r3 r (pos k))) (
      omega (
        arith,
        +ℤ_parts ((pos k) *ℤ pos r3) (pos extra +ℤ m),
        +ℤ_parts (pos extra) m,
        -ℤ_parts (pos half) (pos r),
        *ℤ_pos_parts (pos k) r3,
      ))
blinded_lem half extra r3 r (negsuc k) h =
    let m = pos half -ℤ pos r in
    eq_of_parts ((negsuc k) *ℤ pos r3 +ℤ (pos extra +ℤ m))
      (pos (blinded half extra r3 r (negsuc k)))
      (omega (
        arith,
        +ℤ_parts ((negsuc k) *ℤ pos r3) (pos extra +ℤ m),
        +ℤ_parts (pos extra) m,
        -ℤ_parts (pos half) (pos r),
        *ℤ_pos_parts (negsuc k) r3,
      ))

-- With the mask added, the number is above half exactly for a difference that is not negative.
pub above_half :
    (half r3 r : ℕ) (w : ℤ)
    → r < r3
    → r + neg_part w * r3 ≤ half
    → ltb half (blinded half r3 r3 r w) ≡ not (is_negative w)
above_half half r3 r (pos k) l h = lt→ltb _ _ (omega arith)
above_half half r3 r (negsuc k) l h = le→ltb _ _ (omega arith)

pub above_half_strict :
    (half r3 r : ℕ) (w : ℤ)
    → r < r3
    → r + neg_part w * r3 ≤ half
    → ltb half (blinded half 0 r3 r w) ≡ is_positive w
above_half_strict half r3 r (pos zero) l h = le→ltb _ _ (omega arith)
above_half_strict half r3 r (pos (suc k)) l h = lt→ltb _ _ (omega arith)
above_half_strict half r3 r (negsuc k) l h = le→ltb _ _ (omega arith)

pub blinded-lt :
    (half extra r3 r bound : ℕ) (w : ℤ)
    → extra + pos_part w * r3 < bound
    → blinded half extra r3 r w < half + bound
blinded-lt half extra r3 r bound (pos k) h = omega arith
blinded-lt half extra r3 r bound (negsuc k) h = omega arith

-- A difference of operands of 127 bits, times a mask of 128 bits.
pub scaled_bound : (a r3 : ℕ) → a < 2 ^ 128 → r3 < 2 ^ 128 → a * r3 < 2 ^ 256
scaled_bound a r3 h k =
    let le : a * r3 ≤ (2 ^ 128 - 1) * (2 ^ 128 - 1) =
      mul-le-mul {n₁ = a} {m₁ = r3} {n₂ = 2 ^ 128 - 1} {m₂ = 2 ^ 128 - 1} (omega arith)
        (omega arith) in
    omega arith
