-- ===== src/Secure/Examples.antt =====
-- The theorems on ciphertexts, over ciphertexts that are their own values.
use soci_sgx_sdk.Prelude.{refl, true, false, [], ◌∷◌, arith}
use soci_sgx_sdk.Prelude.Int.{pos, negsuc}
use soci_sgx_sdk.Secure.{
  encrypted_bit, less_than, greater_equal, less_equal, equal, bit_and_batch, bit_or_batch,
}
use soci_sgx_sdk.Secure.Gates.{Holds}
use soci_sgx_sdk.Secure.Compare.{comparisons-Holds}
use soci_sgx_sdk.Secure.Batch.{HoldAll, batches-HoldAll}
use soci_sgx_sdk.Secure.Plain.{plain_ops}

comparisons-Holds_example :
    Holds plain_ops (plain_ops.greater_than (pos 3) (negsuc 4)) true
    × Holds plain_ops (less_than plain_ops (pos 3) (negsuc 4)) false
    × Holds plain_ops (greater_equal plain_ops (pos 3) (negsuc 4)) true
    × Holds plain_ops (less_equal plain_ops (pos 3) (negsuc 4)) false
    × Holds plain_ops (equal plain_ops (pos 3) (negsuc 4)) false
comparisons-Holds_example =
    comparisons-Holds plain_ops (pos 3) (negsuc 4) (omega arith, omega arith)
      (omega arith, omega arith)

batches-HoldAll_example :
    HoldAll plain_ops
      (bit_and_batch plain_ops ((encrypted_bit (pos 1), encrypted_bit (pos 0)) ∷ []))
      (false ∷ [])
    × HoldAll plain_ops
        (bit_or_batch plain_ops ((encrypted_bit (pos 1), encrypted_bit (pos 0)) ∷ []))
        (true ∷ [])
batches-HoldAll_example =
    batches-HoldAll plain_ops ((encrypted_bit (pos 1), encrypted_bit (pos 0)) ∷ [])
      ((true, false) ∷ []) ((refl, refl), tt)
