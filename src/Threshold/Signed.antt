-- ===== src/Threshold/Signed.antt =====
-- `decryptForTesting`: the `D` request, read as a signed number.
use soci_sgx_sdk.Prelude.{
  ℕ, suc, ◌+◌, ◌-◌, ◌*◌, ◌/◌, ◌%◌, ◌<◌, ◌≡◌, refl, sym, ap, ◌∙◌, [], ◌∷◌, Result, ok, ◌>>=◌, arith,
  ltb, le→ltb, if◌then◌else◌,
}
use native.Mathlib.Nat.{mod-eq_of_lt, mod_self, zero-mod}
use soci_sgx_sdk.Prelude.Int.{ℤ, pos, negsuc, pos_part, neg_part, ◌-ℤ◌}
use soci_sgx_sdk.Prelude.Congruence.{Cong, Cong-cancel, Represents-exact}
use soci_sgx_sdk.Threshold.Scheme.{Scheme, ProtocolError, decrypted}
use soci_sgx_sdk.Threshold.Scheme.Holds.{Holds}
use soci_sgx_sdk.Threshold.Server.{answer, answer_decrypt}

abbrev pub signed : ℕ → ℕ → ℤ
signed modulus plaintext =
    if ltb (modulus / 2) plaintext then pos plaintext -ℤ pos modulus else pos plaintext

module _ (s : Scheme) where
  open s use {modulus, modulus_pos, cp_share, csp_share, combine-lt}

  -- The nonce is not used: a decryption draws nothing.
  unfoldable pub decrypt_for_testing : ℕ → Result ProtocolError ℤ
  decrypt_for_testing ciphertext = do
    plaintext ← answer s b'D' (ciphertext ∷ cp_share ciphertext ∷ []) 0
    ok (signed modulus plaintext)

signed-pos : (n v : ℕ) → 2 * v < n → signed n v ≡ pos v
signed-pos n v h = rw (le→ltb (n / 2) v (omega arith)) refl

signed-negsuc : (n v k : ℕ) → v + suc k ≡ n → 2 * suc k < n → signed n v ≡ negsuc k
unfolding ◌-ℤ◌
signed-negsuc n v k e h = ground arith

module _ (s : Scheme) where
  open s use {modulus, modulus_pos, cp_share, csp_share, combine-lt}

  read_signed :
      (c : ℕ) (z : ℤ)
      → Holds s c z
      → 2 * (pos_part z + neg_part z) < modulus
      → signed modulus (decrypted s c) ≡ z
  read_signed c (pos m) h l =
      ap (signed modulus) (
        Represents-exact modulus modulus_pos (decrypted s c) m
          (combine-lt (cp_share c) (csp_share c)) (omega (arith, l)) h.reads)
      ∙ signed-pos modulus m (omega (arith, l))
  read_signed c (negsuc k) h l =
      signed-negsuc modulus (decrypted s c) k
        (opposite (decrypted s c) (combine-lt (cp_share c) (csp_share c)) h.reads)
        (omega (arith, l))
    where
      restored : modulus - suc k + suc k ≡ modulus
      restored = omega (arith, l)

      opposite : (d : ℕ) → d < modulus → Cong modulus (d + suc k) 0 → d + suc k ≡ modulus
      opposite d small e =
          let same : Cong modulus d (modulus - suc k) =
            Cong-cancel modulus d (modulus - suc k) (suc k) modulus_pos
              (e ∙ (zero-mod modulus ∙ sym (ap (λ t. t % modulus) restored ∙ mod_self modulus))) in
          let exact : d ≡ modulus - suc k =
            sym (mod-eq_of_lt small) ∙ (same ∙ mod-eq_of_lt (omega (arith, l))) in
          ap (λ t. t + suc k) exact ∙ restored

  -- Whatever signed number a ciphertext holds, of a magnitude below half the key: it is read.
  pub decrypt_for_testing-reads :
      (c : ℕ) (z : ℤ)
      → Holds s c z
      → 2 * (pos_part z + neg_part z) < modulus
      → decrypt_for_testing s c ≡ ok z
  unfolding decrypt_for_testing answer answer_decrypt
  decrypt_for_testing-reads c z h l = ap ok (read_signed c z h l)
