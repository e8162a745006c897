-- ===== src/Secure/Compare.antt =====
-- What the comparisons, the minimum and the maximum decrypt to.
use soci_sgx_sdk.Prelude.{◌≡◌, subst, Bool, not, ◌||◌, ◌==◌, arith, ◌+◌}
use soci_sgx_sdk.Prelude.Int.{ℤ, pos_part, neg_part, ltb_ℤ}
use soci_sgx_sdk.Secure.{SecureOps, less_than, greater_equal, less_equal, equal}
use soci_sgx_sdk.Secure.Gates.{Holds, Exact, bit_not-Holds, bit_or-Holds}

abbrev pub eqb_ℤ : ℤ → ℤ → Bool
eqb_ℤ x y = (pos_part x + neg_part y) == (pos_part y + neg_part x)

neither : (x y : ℤ) → not (ltb_ℤ y x || ltb_ℤ x y) ≡ eqb_ℤ x y
neither x y = ground arith

module _ (ops : SecureOps) (a b : ops.Ciphertext) (ea : Exact ops a) (eb : Exact ops b) where
  open ops use {dec, limit, dec-greater_than}

  -- On operands below the limit of the backend, the five encrypted comparisons hold the bits of
  -- the comparisons of the decrypted values.
  pub comparisons-Holds :
      Holds ops (ops.greater_than a b) (ltb_ℤ (dec b) (dec a))
      × Holds ops (less_than ops a b) (ltb_ℤ (dec a) (dec b))
      × Holds ops (greater_equal ops a b) (not (ltb_ℤ (dec a) (dec b)))
      × Holds ops (less_equal ops a b) (not (ltb_ℤ (dec b) (dec a)))
      × Holds ops (equal ops a b) (eqb_ℤ (dec a) (dec b))
  unfolding greater_equal less_equal equal less_than
  comparisons-Holds = (
    gt,
    lt,
    bit_not-Holds ops (ops.greater_than b a) _ lt,
    bit_not-Holds ops (ops.greater_than a b) _ gt,
    subst (Holds ops (equal ops a b)) (neither (dec a) (dec b)) (
        bit_not-Holds ops _ _
          (bit_or-Holds ops (ops.greater_than a b) (ops.greater_than b a) _ _ gt lt)),
  )
    where
      gt : Holds ops (ops.greater_than a b) (ltb_ℤ (dec b) (dec a))
      gt = dec-greater_than a b ea eb

      lt : Holds ops (ops.greater_than b a) (ltb_ℤ (dec a) (dec b))
      lt = dec-greater_than b a eb ea
