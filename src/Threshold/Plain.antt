-- ===== src/Threshold/Plain.antt =====
-- A key whose powers are computed by one product, as an instance of `Scheme` that runs.
use soci_sgx_sdk.Prelude.{
  ℕ, ◌+◌, ◌*◌, ◌/◌, ◌%◌, ◌<◌, ◌≡◌, sym, ap, subst, ◌∙◌, ◌==◌, ==_self, if◌then◌else◌, true, false,
}
use native.Mathlib.Nat.{mod-lt, mod-eq_of_lt}
use soci_sgx_sdk.Prelude.Congruence.{Cong}
use soci_sgx_sdk.Prelude.PowerMod.{Cong-ones_pow}
use soci_sgx_sdk.Enclave.{powm}
use soci_sgx_sdk.Enclave.Key.{key_scheme}
use soci_sgx_sdk.Enclave.Plain.{plain_key, split_one}
use soci_sgx_sdk.Threshold.Scheme.{Scheme}
use soci_sgx_sdk.Threshold.Transfer.{Rsa}

-- Modulo the square of the key a ciphertext is 1 and a multiple of the key; other powers are the base.
abbrev pub plain_powm : ℕ → ℕ → ℕ → ℕ → ℕ
plain_powm n base exponent m = if m == n * n then (1 + base / n * exponent * n) % m else base % m

module _ (n : ℕ) (large : 1 < n) where
  abbrev pub key : Scheme
  key = key_scheme (plain_key n large)

  pub powm-plain_powm :
      (a k : ℕ) → key.is_coprime a ≡ true → powm a k (n * n) ≡ plain_powm n a k (n * n)
  powm-plain_powm a k h =
      Cong-ones_pow n a (a / n) k (ap (λ t. t % (n * n)) (split_one n large a h))
      ∙ sym (ap (λ t. if t then (1 + a / n * k * n) % (n * n) else a % (n * n)) (==_self (n * n)))

  abbrev pub plain_scheme : Scheme
  plain_scheme = record {
    modulus = n;
    powm = plain_powm n;
    invert = key.invert;
    is_coprime = key.is_coprime;
    cp_share = key.cp_share;
    csp_share = key.csp_share;
    combine = key.combine;
    IsCiphertext = key.IsCiphertext;
    modulus_pos = key.modulus_pos;
    combine-lt = key.combine-lt;
    in_range = key.in_range;
    is_coprime-IsCiphertext = key.is_coprime-IsCiphertext;
    encrypted = λ m nonce l p h.
        subst
          (λ t.
            let c = (m * n + 1) * t % (n * n) in
            key.IsCiphertext c × (key.combine (key.cp_share c) (key.csp_share c) ≡ m))
          (powm-plain_powm nonce n h) (key.encrypted m nonce l p h);
    multiplied = key.multiplied;
    raised = λ a k h.
        subst
          (λ c.
            key.IsCiphertext c
            × Cong n (key.combine (key.cp_share c) (key.csp_share c))
                (key.combine (key.cp_share a) (key.csp_share a) * k))
          (powm-plain_powm a k (key.is_coprime-IsCiphertext a h)) (key.raised a k h);
    inverted = key.inverted;
  }

-- A key of the oblivious transfers whose powers are the base.
pub plain-Rsa :
    (n m public private : ℕ) → 0 < m → (m == n * n) ≡ false → Rsa (plain_powm n) m public private
plain-Rsa n m public private positive other = record {
  in_range = λ base exponent. rw (other) (mod-lt base positive);
  undoes = λ key l. rw (other, mod-eq_of_lt l) (mod-eq_of_lt l);
}
