-- ===== src/Threshold/Scheme/Holds.antt =====
-- Ciphertexts that hold a signed integer modulo the key, and the operations on them.
use soci_sgx_sdk.Prelude.{
  ℕ, suc, ◌+◌, ◌-◌, ◌%◌, ◌<◌, ◌≡◌, refl, sym, ap, subst, ◌∙◌, true, ok, arith, ◌==◌, if◌then◌else◌,
  Bool-cases, inl, inr,
}
use native.Mathlib.Nat.{mod-lt, mod_self, zero-mod}
use soci_sgx_sdk.Prelude.Int.{ℤ, pos, negsuc, neg_part, ◌+ℤ◌, ◌-ℤ◌, ◌*ℤ◌}
use soci_sgx_sdk.Prelude.Congruence.{
  Cong, Cong-add, Cong-mod, Represents, Represents-add, Represents-neg, Represents-mul,
}
use soci_sgx_sdk.Threshold.Scheme.{
  Scheme, modulus_squared, normalized, is_nonce, paillier_encrypt, add, scalar_multiply, decrypted,
}

negated_product : (z : ℤ) (k : ℕ) → (pos 0 -ℤ z) *ℤ pos (suc k) ≡ z *ℤ negsuc k
unfolding ◌-ℤ◌ ◌*ℤ◌
negated_product (pos m) k = ground arith
negated_product (negsuc m) k = ground arith

-- The number that is added to `k` for a multiple of `n`.
opposite : (n k : ℕ) → 0 < n → Cong n ((if k % n == 0 then 0 else n - k % n) + k) 0
opposite n k p =
    sym (Cong-add n (rest (k % n)) (rest (k % n)) (k % n) k refl (Cong-mod n k))
    ∙ elim (Bool-cases (k % n == 0)) [
      | inl e ↦ let same : rest (k % n) + k % n ≡ 0 = ground arith in ap (λ t. t % n) same
      | inr e ↦
          let same : rest (k % n) + k % n ≡ n = ground (arith, mod-lt k p) in
          ap (λ t. t % n) same ∙ (mod_self n ∙ sym (zero-mod n))
    ]
  where
    rest : ℕ → ℕ
    rest r = if r == 0 then 0 else n - r

module _ (s : Scheme) where
  open s use {
    modulus, powm, invert, is_coprime, IsCiphertext, modulus_pos, encrypted, multiplied, raised,
    inverted,
  }

  -- The ciphertext decrypts to the integer, modulo the key.
  pub record Holds (c : ℕ) (z : ℤ) : Type 0 where
    pub is_ciphertext : IsCiphertext c
    pub reads : Represents modulus (decrypted s c) z

  normalized-lt : (z : ℤ) → normalized s z < modulus
  unfolding normalized
  normalized-lt (pos m) = mod-lt m modulus_pos
  normalized-lt (negsuc m) = ground (arith, modulus_pos, mod-lt (suc m) modulus_pos)

  Represents-normalized : (z : ℤ) → Represents modulus (normalized s z) z
  unfolding normalized
  Represents-normalized (pos m) =
      let same : m % modulus + 0 ≡ m % modulus = omega arith in
      ap (λ t. t % modulus) same ∙ Cong-mod modulus m
  Represents-normalized (negsuc m) = opposite modulus (suc m) modulus_pos

  pub paillier_encrypt-Holds :
      (z : ℤ) (nonce : ℕ) → is_nonce s nonce ≡ true → Holds (paillier_encrypt s z nonce) z
  unfolding paillier_encrypt
  paillier_encrypt-Holds z nonce h =
      let (c, e) =
        encrypted (normalized s z) nonce (normalized-lt z) (ground arith) (ground arith) in
      record {
        is_ciphertext = c;
        reads = ap (λ m. (m + neg_part z) % modulus) e ∙ Represents-normalized z;
      }

  pub add-Holds : (a b : ℕ) (x y : ℤ) → Holds a x → Holds b y → Holds (add s a b) (x +ℤ y)
  unfolding add
  add-Holds a b x y h k =
      let (c, e) = multiplied a b h.is_ciphertext k.is_ciphertext in
      record {
        is_ciphertext = c;
        reads =
            Cong-add modulus _ _ (neg_part (x +ℤ y)) _ e refl
            ∙ Represents-add modulus modulus_pos _ _ x y h.reads k.reads;
      }

  powm-Holds : (a k : ℕ) (x : ℤ) → Holds a x → Holds (powm a k (modulus_squared s)) (x *ℤ pos k)
  powm-Holds a k x h =
      let (c, e) = raised a k h.is_ciphertext in
      record {
        is_ciphertext = c;
        reads =
            Cong-add modulus _ _ (neg_part (x *ℤ pos k)) _ e refl
            ∙ Represents-mul modulus modulus_pos _ x k h.reads;
      }

  -- A multiple of a ciphertext that holds a number is found, for every multiplier.
  pub scalar_multiply-Holds :
      (a : ℕ) (x k : ℤ) → Holds a x → (c : ℕ) × (scalar_multiply s a k ≡ ok c) × Holds c (x *ℤ k)
  unfolding scalar_multiply
  scalar_multiply-Holds a x (pos k) h = (powm a k (modulus_squared s), refl, powm-Holds a k x h)
  scalar_multiply-Holds a x (negsuc k) h =
      let (b, e, c, opposite) = inverted a h.is_ciphertext in
      (
        powm b (suc k) (modulus_squared s),
        rw (e, scalar_multiply) refl,
        subst (Holds (powm b (suc k) (modulus_squared s))) (negated_product x k) (
            powm-Holds b (suc k) (pos 0 -ℤ x) (record {
              is_ciphertext = c;
              reads = Represents-neg modulus modulus_pos _ _ x h.reads opposite;
            })),
      )
