-- ===== src/Threshold/Multiply.antt =====
-- `ThresholdProtocolClient::secureMultiply`: the product of two encrypted numbers, with the CSP
-- seeing both only behind additive masks. The masks' random bits and the nonces are arguments.
pub mod Product
use soci_sgx_sdk.Prelude.{ℕ, ◌+◌, ◌*◌, ◌^◌, List, [], ◌∷◌, Result, ok, ◌>>=◌}
use soci_sgx_sdk.Prelude.Int.{ℤ, pos, minus}
use soci_sgx_sdk.Threshold.Scheme.{Scheme, ProtocolError, paillier_encrypt, add, scalar_multiply}
use soci_sgx_sdk.Threshold.Server.{answer}

abbrev pub packing_base : ℕ
packing_base = 2 ^ 130

unfoldable pub random_mask : ℕ → ℕ
random_mask bits = 2 ^ 127 + bits

-- The nonces of one multiplication, by what is encrypted with them.
pub record Nonces : Type 0 where
  pub first : ℕ
  pub second : ℕ
  pub correction : ℕ
  pub server : ℕ

module _ (s : Scheme) where
  open s use {cp_share}

  unfoldable pub pack_masked : ℕ → ℕ → ℕ → ℕ → Nonces → Result ProtocolError ℕ
  pack_masked a b r1 r2 nonces = do
    let masked_a = add s a (paillier_encrypt s (pos r1) nonces.first)
    let masked_b = add s b (paillier_encrypt s (pos r2) nonces.second)
    scaled ← scalar_multiply s masked_a (pos packing_base)
    ok (add s scaled masked_b)

  unfoldable pub unmask_product : ℕ → ℕ → ℕ → ℕ → Nonces → ℕ → Result ProtocolError ℕ
  unmask_product a b r1 r2 nonces product = do
    by_a ← scalar_multiply s a (minus r2)
    by_b ← scalar_multiply s b (minus r1)
    ok (
        add s (add s (add s product by_a) by_b)
          (paillier_encrypt s (minus (r1 * r2)) nonces.correction))

  -- `r1` and `r2` are the masks that were drawn.
  unfoldable pub secure_multiply : ℕ → ℕ → ℕ → ℕ → Nonces → Result ProtocolError ℕ
  unfolding pack_masked unmask_product
  secure_multiply a b r1 r2 nonces = do
    packed ← pack_masked a b r1 r2 nonces
    product ← answer s b'M' (packed ∷ cp_share packed ∷ packing_base ∷ []) nonces.server
    unmask_product a b r1 r2 nonces product
