-- ===== src/Threshold/Compare/Sides.antt =====
-- The number that a comparison sends, and the side of half the modulus that it is on.
use soci_sgx_sdk.Prelude.{
  ℕ, zero, suc, ◌+◌, ◌-◌, ◌*◌, ◌/◌, ◌%◌, ◌^◌, ◌≤◌, ◌<◌, ◌≡◌, refl, sym, ap, ◌∙◌, Bool, true, false,
  not, arith, ltb,
}
use native.Mathlib.Nat.{add-mul-mod_self_right, mul-suc}
use soci_sgx_sdk.Prelude.Int.{
  ℤ, pos, negsuc, pos_part, neg_part, ◌+ℤ◌, ◌-ℤ◌, ◌*ℤ◌, ltb_ℤ, +ℤ_parts, -ℤ_parts, *ℤ_pos_parts,
  *ℤ-minus_one, eq_of_parts,
}
use soci_sgx_sdk.Prelude.Congruence.{Cong}
use soci_sgx_sdk.Secure.{Below, of_bool}
use soci_sgx_sdk.Threshold.Circuit.{xor}
use soci_sgx_sdk.Threshold.Compare.Blinding.{
  is_negative, is_positive, less_sub, greater_sub, blinded, above_half, above_half_strict,
  blinded-lt, scaled_bound,
}

times_pred : (a n : ℕ) → 0 < n → a * (n - 1) + a ≡ a * n
times_pred a zero h = absurd (omega arith)
times_pred a (suc m) h =
    let same : suc m - 1 ≡ m = omega arith in ap (λ k. a * k + a) same ∙ sym (mul-suc a m)

pub times_minus_one : (x y : ℤ) → x +ℤ y *ℤ negsuc 0 ≡ x -ℤ y
times_minus_one x y =
    ap (λ z. x +ℤ z) (*ℤ-minus_one y)
    ∙ eq_of_parts (x +ℤ (pos 0 -ℤ y)) (x -ℤ y)
        (omega (arith, +ℤ_parts x (pos 0 -ℤ y), -ℤ_parts (pos 0) y, -ℤ_parts x y))

pub zero-+ℤ : (z : ℤ) → pos 0 +ℤ z ≡ z
zero-+ℤ z = eq_of_parts (pos 0 +ℤ z) z (omega (arith, +ℤ_parts (pos 0) z))

-- The multiplier `modulus - 1` subtracts.
pub subtracted :
    (n : ℕ) (y x : ℤ)
    → 0 < n
    → let z = y +ℤ x *ℤ pos (n - 1) in
      Cong n (pos_part z + neg_part (y -ℤ x)) (pos_part (y -ℤ x) + neg_part z)
subtracted n y x p =
    let z = y +ℤ x *ℤ pos (n - 1) in
    let same : pos_part z + neg_part (y -ℤ x) + neg_part x * n
        ≡ pos_part (y -ℤ x) + neg_part z + pos_part x * n =
      omega (
        arith,
        +ℤ_parts y (x *ℤ pos (n - 1)),
        -ℤ_parts y x,
        *ℤ_pos_parts x (n - 1),
        times_pred (pos_part x) n p,
        times_pred (neg_part x) n p,
      ) in
    sym (add-mul-mod_self_right (pos_part z + neg_part (y -ℤ x)) (neg_part x) n)
    ∙ (ap (λ t. t % n) same
        ∙ add-mul-mod_self_right (pos_part (y -ℤ x) + neg_part z) (pos_part x) n)

-- The number that is sent, for each orientation.
abbrev pub blinded_number : ℕ → Bool → ℕ → ℕ → ℤ → ℤ → ℕ
blinded_number half false r3 r x y = blinded half r3 r3 r (y -ℤ x)
blinded_number half true r3 r x y = blinded half 0 r3 r (x -ℤ y)

pub flipped : (t : Bool) → pos 1 +ℤ of_bool t *ℤ negsuc 0 ≡ of_bool (xor t true)
unfolding ◌+ℤ◌ ◌*ℤ◌
flipped true = refl
flipped false = refl

-- The bit that is returned, from the side on which the number is.
pub side :
    (half : ℕ) (orientation : Bool) (r3 r : ℕ) (x y : ℤ)
    → r < r3
    → r + neg_part (y -ℤ x) * r3 ≤ half
    → r + neg_part (x -ℤ y) * r3 ≤ half
    → xor (not (ltb half (blinded_number half orientation r3 r x y))) orientation ≡ ltb_ℤ y x
side half false r3 r x y h l m =
    ap (λ t. xor (not t) false) (above_half half r3 r (y -ℤ x) h l)
    ∙ (twice (is_negative (y -ℤ x)) ∙ sym (less_sub y x))
  where
    twice : (t : Bool) → xor (not (not t)) false ≡ t
    twice true = refl
    twice false = refl
side half true r3 r x y h l m =
    ap (λ t. xor (not t) true) (above_half_strict half r3 r (x -ℤ y) h m)
    ∙ (back (is_positive (x -ℤ y)) ∙ sym (greater_sub x y))
  where
    back : (t : Bool) → xor (not t) true ≡ t
    back true = refl
    back false = refl

-- Two operands of 127 bits differ by less than 2^128.
difference_parts :
    (x y : ℤ)
    → Below (2 ^ 127) x
    → Below (2 ^ 127) y
    → (pos_part (x -ℤ y) < 2 ^ 128) × (neg_part (x -ℤ y) < 2 ^ 128)
unfolding ◌-ℤ◌
difference_parts x y h k = (ground arith, ground arith)

pub blinded_number-lt :
    (n : ℕ) (orientation : Bool) (r3 r : ℕ) (x y : ℤ)
    → Below (2 ^ 127) x
    → Below (2 ^ 127) y
    → r3 < 2 ^ 128
    → 2 ^ 258 ≤ n
    → blinded_number (n / 2) orientation r3 r x y < n
blinded_number-lt n false r3 r x y hx hy h room =
    let bound : r3 + pos_part (y -ℤ x) * r3 < 2 ^ 257 =
      omega (arith, scaled_bound (pos_part (y -ℤ x)) r3 (difference_parts y x hy hx).0 h) in
    omega (arith, blinded-lt (n / 2) r3 r3 r (2 ^ 257) (y -ℤ x) bound)
blinded_number-lt n true r3 r x y hx hy h room =
    let bound : 0 + pos_part (x -ℤ y) * r3 < 2 ^ 257 =
      omega (arith, scaled_bound (pos_part (x -ℤ y)) r3 (difference_parts x y hx hy).0 h) in
    omega (arith, blinded-lt (n / 2) 0 r3 r (2 ^ 257) (x -ℤ y) bound)

-- What is taken away stays below half the modulus.
pub taken-le :
    (n r3 r : ℕ) (x y : ℤ)
    → Below (2 ^ 127) x
    → Below (2 ^ 127) y
    → r < r3
    → r3 < 2 ^ 128
    → 2 ^ 258 ≤ n
    → r + neg_part (x -ℤ y) * r3 ≤ n / 2
taken-le n r3 r x y hx hy l h room =
    omega (arith, scaled_bound (neg_part (x -ℤ y)) r3 (difference_parts x y hx hy).1 h)
