-- ===== src/Threshold/Batch/Examples.antt =====
-- Batches of two products and of two comparisons.
use soci_sgx_sdk.Prelude.{ℕ, ◌+◌, ◌≡◌, refl, true, List, [], ◌∷◌, ok, arith}
use soci_sgx_sdk.Prelude.Int.{pos, negsuc, ◌*ℤ◌}
use soci_sgx_sdk.Threshold.Sample.{n, s, five, minus_three, five-Holds, minus_three-Holds}
use soci_sgx_sdk.Threshold.Multiply.{Nonces}
use soci_sgx_sdk.Threshold.Batch.{Factors, Operands, secure_multiply_batch, greater_than_batch}
use soci_sgx_sdk.Threshold.Batch.Products.{
  AllHold, AreFactors, AllFactors, secure_multiply_batch-products,
}
use soci_sgx_sdk.Threshold.Batch.Comparisons.{AreOperands, AllOperands, greater_than_batch-compares}

abbrev nonces : Nonces
nonces = record { first = 1; second = n + 1; correction = 1; server = 1 }

abbrev factors : ℕ → ℕ → Factors
factors a b = record { left = a; right = b; bits1 = 7; bits2 = 9; nonces = nonces }

mixed : AreFactors s (factors five minus_three) (pos 5) (negsuc 2)
mixed = record {
  holds_left = five-Holds;
  holds_right = minus_three-Holds;
  small_left = (omega arith, omega arith);
  small_right = (omega arith, omega arith);
  bits1_ok = omega arith;
  bits2_ok = omega arith;
  nonces_ok = record { first_ok = refl; second_ok = refl; correction_ok = refl; server_ok = refl };
}

secure_multiply_batch-products_example :
    (cs : List ℕ) × (secure_multiply_batch s
        (factors five minus_three ∷ factors five minus_three ∷ [])
      ≡ ok cs)
    × AllHold s cs (pos 5 *ℤ negsuc 2 ∷ pos 5 *ℤ negsuc 2 ∷ [])
secure_multiply_batch-products_example =
    secure_multiply_batch-products s (factors five minus_three ∷ factors five minus_three ∷ [])
      (pos 5 *ℤ negsuc 2 ∷ pos 5 *ℤ negsuc 2 ∷ []) (omega arith) (omega arith) (omega arith)
      (AllFactors.one_more mixed (AllFactors.one_more mixed AllFactors.none_left))

abbrev operands : Operands
operands = record {
  left = five;
  right = minus_three;
  orientation = true;
  r3 = 9;
  r = 4;
  nonce = 1;
  server_nonce = 1;
  flip_nonce = 1;
}

ordered : AreOperands s operands (pos 5) (negsuc 2)
ordered = record {
  holds_left = five-Holds;
  holds_right = minus_three-Holds;
  small_left = (omega arith, omega arith);
  small_right = (omega arith, omega arith);
  masks = omega arith;
  mask_bits = omega arith;
  nonce_ok = refl;
  server_ok = refl;
  flip_ok = refl;
}

greater_than_batch-compares_example :
    (cs : List ℕ) × (greater_than_batch s (operands ∷ []) ≡ ok cs) × AllHold s cs (pos 1 ∷ [])
greater_than_batch-compares_example =
    greater_than_batch-compares s (operands ∷ []) (pos 1 ∷ []) (omega arith) (omega arith)
      (omega arith) (AllOperands.one_more ordered AllOperands.none_left)
