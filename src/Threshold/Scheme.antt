-- ===== src/Threshold/Scheme.antt =====
-- The Paillier ciphertexts of the protocol: encryption, addition and scalar multiplication of the
-- CP and the CSP. GMP's powers and inverses and the threshold decryption of the two enclaves are
-- the fields of `Scheme`, with what the protocol relies on as laws.
pub mod Holds
use soci_sgx_sdk.Prelude.{
  ℕ, suc, ◌+◌, ◌-◌, ◌*◌, ◌%◌, ◌<◌, ◌≡◌, Bool, true, not, ◌&&◌, Option, none, some, Result, ok, err,
  ◌==◌, if◌then◌else◌, ltb,
}
use soci_sgx_sdk.Prelude.Int.{ℤ, pos, negsuc}
use soci_sgx_sdk.Prelude.Congruence.{Cong}

pub data ProtocolError : Type 0 where
  inverse_failed invalid_ciphertext bad_packing_base bad_request : ProtocolError

pub record Scheme : Type 1 where
  pub modulus : ℕ
  pub powm : ℕ → ℕ → ℕ → ℕ
  pub invert : ℕ → ℕ → Option ℕ
  -- `gcd(x, modulus) == 1`.
  pub is_coprime : ℕ → Bool
  -- `partialDecrypt` in the enclaves of the CP and of the CSP, and `combineDecrypt`.
  pub cp_share : ℕ → ℕ
  pub csp_share : ℕ → ℕ
  pub combine : ℕ → ℕ → ℕ
  pub IsCiphertext : ℕ → Type 0
  pub modulus_pos : 0 < modulus
  pub combine-lt : (a b : ℕ) → combine a b < modulus
  pub in_range : (c : ℕ) → IsCiphertext c → (0 < c) × (c < modulus * modulus)
  pub is_coprime-IsCiphertext : (c : ℕ) → IsCiphertext c → is_coprime c ≡ true
  pub encrypted :
      (m nonce : ℕ)
      → m < modulus
      → 0 < nonce
      → is_coprime nonce ≡ true
      → let c = (m * modulus + 1) * powm nonce modulus (modulus * modulus) % (modulus * modulus) in
        IsCiphertext c × (combine (cp_share c) (csp_share c) ≡ m)
  pub multiplied :
      (a b : ℕ)
      → IsCiphertext a
      → IsCiphertext b
      → let c = a * b % (modulus * modulus) in
        IsCiphertext c
        × Cong modulus
            (combine (cp_share c) (csp_share c))
            (combine (cp_share a) (csp_share a) + combine (cp_share b) (csp_share b))
  pub raised :
      (a k : ℕ)
      → IsCiphertext a
      → let c = powm a k (modulus * modulus) in
        IsCiphertext c
        × Cong modulus (combine (cp_share c) (csp_share c)) (combine (cp_share a) (csp_share a) * k)
  pub inverted :
      (a : ℕ)
      → IsCiphertext a
      → (b : ℕ) × (invert a (modulus * modulus) ≡ some b)
        × IsCiphertext b
        × Cong modulus (combine (cp_share a) (csp_share a) + combine (cp_share b) (csp_share b)) 0

module _ (s : Scheme) where
  open s use {modulus, powm, invert, is_coprime, cp_share, csp_share, combine}

  abbrev pub modulus_squared : ℕ
  modulus_squared = modulus * modulus

  -- `plaintext % modulus`, plus the modulus where that is negative.
  unfoldable pub normalized : ℤ → ℕ
  normalized (pos m) = m % modulus
  normalized (negsuc m) = if suc m % modulus == 0 then 0 else modulus - suc m % modulus

  -- The condition that ends the loop over random nonces.
  abbrev pub is_nonce : ℕ → Bool
  is_nonce nonce = not (nonce == 0) && is_coprime nonce

  unfoldable pub paillier_encrypt : ℤ → ℕ → ℕ
  paillier_encrypt plaintext nonce =
      let nonce_n = powm nonce modulus modulus_squared in
      (normalized plaintext * modulus + 1) * nonce_n % modulus_squared

  unfoldable pub add : ℕ → ℕ → ℕ
  add a b = a * b % modulus_squared

  unfoldable pub scalar_multiply : ℕ → ℤ → Result ProtocolError ℕ
  scalar_multiply value (pos k) = ok (powm value k modulus_squared)
  scalar_multiply value (negsuc k) = elim (invert value modulus_squared) [
    | none ↦ err inverse_failed
    | some inverse ↦ ok (powm inverse (suc k) modulus_squared)
  ]

  -- What a ciphertext decrypts to with both shares.
  abbrev pub decrypted : ℕ → ℕ
  decrypted c = combine (cp_share c) (csp_share c)
