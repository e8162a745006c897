-- ===== src/Threshold/Compare.antt =====
-- `ThresholdProtocolClient::greaterThan`: the comparison of two encrypted numbers. The masks that
-- are drawn, the random orientation and the nonces are arguments.
pub mod Blinding
pub mod Sides
pub mod Greater
use soci_sgx_sdk.Prelude.{
  ℕ, ◌-◌, ◌*◌, ◌/◌, Bool, true, false, ◌&&◌, List, [], ◌∷◌, Option, none, some, Result, ok, ◌>>=◌,
  ◌>>◌, require, ltb, if◌then◌else◌,
}
use soci_sgx_sdk.Prelude.Int.{ℤ, pos, negsuc, ◌+ℤ◌, ◌-ℤ◌}
use soci_sgx_sdk.Threshold.Scheme.{
  Scheme, ProtocolError, invalid_ciphertext, modulus_squared, paillier_encrypt, add,
  scalar_multiply,
}
use soci_sgx_sdk.Threshold.Server.{answer}

-- `do r = randomMask(); while (r >= r3);`, over the masks that are drawn.
unfoldable pub mask_below : ℕ → List ℕ → Option ℕ
mask_below r3 [] = none
mask_below r3 (r ∷ draws) = let rest = mask_below r3 draws in if ltb r r3 then some r else rest

module _ (s : Scheme) where
  open s use {modulus, is_coprime, cp_share}

  abbrev pub is_valid : ℕ → Bool
  is_valid c = ltb 0 c && ltb c (modulus_squared s) && is_coprime c

  -- The blinded difference that is sent to the CSP.
  unfoldable pub blinded_difference : ℕ → ℕ → Bool → ℕ → ℕ → ℕ → Result ProtocolError ℕ
  blinded_difference left right false r3 r nonce = do
    let r4 = pos (modulus / 2) -ℤ pos r
    negated ← scalar_multiply s right (pos (modulus - 1))
    scaled ← scalar_multiply s (add s left negated) (pos r3)
    ok (add s scaled (paillier_encrypt s (pos r3 +ℤ r4) nonce))
  blinded_difference left right true r3 r nonce = do
    let r4 = pos (modulus / 2) -ℤ pos r
    negated ← scalar_multiply s left (negsuc 0)
    scaled ← scalar_multiply s (add s right negated) (pos r3)
    ok (add s scaled (paillier_encrypt s r4 nonce))

  -- The bit is flipped where the operands were.
  unfoldable pub oriented : Bool → ℕ → ℕ → Result ProtocolError ℕ
  oriented true bit nonce = do
    negated ← scalar_multiply s bit (negsuc 0)
    ok (add s (paillier_encrypt s (pos 1) nonce) negated)
  oriented false bit nonce = ok bit

  unfoldable pub greater_than : ℕ → ℕ → Bool → ℕ → ℕ → ℕ → ℕ → ℕ → Result ProtocolError ℕ
  unfolding blinded_difference oriented
  greater_than a b orientation r3 r nonce server_nonce flip_nonce = do
    difference ← blinded_difference b a orientation r3 r nonce
    require (is_valid difference) invalid_ciphertext
    bit ← answer s b'C' (difference ∷ cp_share difference ∷ []) server_nonce
    oriented orientation bit flip_nonce
