-- ===== src/Enclave/Key.antt =====
-- A threshold key and what the protocol's ciphertexts need of it: an instance of `Scheme`.
use soci_sgx_sdk.Prelude.{
  ℕ, zero, suc, ◌+◌, ◌*◌, ◌/◌, ◌%◌, ◌^◌, ◌<◌, ◌≤◌, Bool, true, false, if◌then◌else◌, ◌≡◌, sym, ap,
  ◌∙◌, Option, none, some, arith,
}
use native.Mathlib.Nat.{
  mod-lt, mod-eq_of_lt, div-add-mod', pow-zero, pow-suc, zero-mod, zero-mul, add-mul-mod_self_right,
  one-mul, mul-pos, le-mul_of_pos_right, add_comm,
}
use soci_sgx_sdk.Prelude.Congruence.{Cong, Cong-mod, Cong-add, Cong-mul_right}
use soci_sgx_sdk.Prelude.PowerMod.{
  one_pow, swap_exponents, Cong-pow, pow_of_mul, Cong-ones, Cong-ones_pow,
}
use soci_sgx_sdk.Threshold.Scheme.{Scheme}
use soci_sgx_sdk.Enclave.{powm, partial_decrypt, combine_decrypt}
use soci_sgx_sdk.Enclave.Decrypt.{combine_decrypt-partial_decrypt}

-- What key generation leaves in the two sealed shares, with GMP's inverse and gcd. By Carmichael's
-- theorem a number that is coprime to `n` has the power 1 modulo `n`; `mu` inverts `lambda`.
pub record ThresholdKey : Type 0 where
  pub n : ℕ
  pub lambda1 : ℕ
  pub lambda2 : ℕ
  pub mu : ℕ
  pub is_coprime : ℕ → Bool
  pub invert : ℕ → ℕ → Option ℕ
  pub n_large : 1 < n
  pub carmichael : (c : ℕ) → is_coprime c ≡ true → Cong n (c ^ (lambda1 + lambda2)) 1
  pub mu_inverts : Cong n ((lambda1 + lambda2) * mu) 1
  pub coprime_pos : (c : ℕ) → is_coprime c ≡ true → 0 < c
  pub coprime_one : (k : ℕ) → is_coprime (k * n + 1) ≡ true
  pub coprime-mul :
      (a b : ℕ) → is_coprime a ≡ true → is_coprime b ≡ true → is_coprime (a * b % (n * n)) ≡ true
  pub inverse :
      (a : ℕ)
      → is_coprime a ≡ true
      → (b : ℕ) × (invert a (n * n) ≡ some b)
        × (b < n * n)
        × (is_coprime b ≡ true)
        × Cong (n * n) (a * b) 1

abbrev pub or_zero : Option ℕ → ℕ
or_zero none = 0
or_zero (some m) = m

no_multiple : (n : ℕ) → 1 ≡ 0 * n + 1
no_multiple n = omega arith

or_zero-lt :
    (t u : Bool) (m n : ℕ)
    → m < n
    → 0 < n
    → or_zero (if t then none else if u then some m else none) < n
or_zero-lt true u m n h p = p
or_zero-lt false true m n h p = h
or_zero-lt false false m n h p = p

module _ (key : ThresholdKey) where
  open key use {
    n, lambda1, lambda2, mu, is_coprime, invert, n_large, carmichael, mu_inverts, coprime_pos,
    coprime_one, coprime-mul, inverse,
  }

  abbrev lambda : ℕ
  lambda = lambda1 + lambda2

  abbrev pub decrypt : ℕ → ℕ
  decrypt c =
      or_zero (combine_decrypt n mu (partial_decrypt n lambda1 c) (partial_decrypt n lambda2 c))

  abbrev pub Coprime : ℕ → Type 0
  Coprime c = (is_coprime c ≡ true) × (c < n * n)

  abbrev power : ℕ → ℕ
  power c = c ^ lambda / n

  -- Each power to lambda is 1 and a multiple of `n`.
  power_lem : (c : ℕ) → is_coprime c ≡ true → Cong (n * n) (c ^ lambda) (1 + power c * n)
  power_lem c h =
      ap (λ t. t % (n * n))
        (sym (div-add-mod' (c ^ lambda) n)
          ∙ (ap (λ r. power c * n + r) (carmichael c h ∙ mod-eq_of_lt n_large)
              ∙ add_comm (power c * n) 1))

  decrypt_lem : (c k : ℕ) → Cong (n * n) (c ^ lambda) (1 + k * n) → decrypt c ≡ k % n * mu % n
  decrypt_lem c k h =
      ap or_zero (combine_decrypt-partial_decrypt n mu lambda1 lambda2 c k n_large h)

  Cong-decrypt : (c k : ℕ) → Cong (n * n) (c ^ lambda) (1 + k * n) → Cong n (decrypt c) (k * mu)
  Cong-decrypt c k h =
      ap (λ t. t % n) (decrypt_lem c k h)
      ∙ (Cong-mod n (k % n * mu) ∙ Cong-mul_right n (k % n) k mu (Cong-mod n k))

  reduced_power : (c : ℕ) → Cong (n * n) ((c % (n * n)) ^ lambda) (c ^ lambda)
  reduced_power c = Cong-pow (n * n) (c % (n * n)) c lambda (Cong-mod (n * n) c)

  product_power :
      (a b k l : ℕ)
      → Cong (n * n) (a ^ lambda) (1 + k * n)
      → Cong (n * n) (b ^ lambda) (1 + l * n)
      → Cong (n * n) ((a * b % (n * n)) ^ lambda) (1 + (k + l) * n)
  product_power a b k l h g =
      reduced_power (a * b)
      ∙ (ap (λ t. t % (n * n)) (pow_of_mul a b lambda)
          ∙ Cong-ones n (a ^ lambda) (b ^ lambda) k l h g)

  pub n_pos : 0 < n
  n_pos = omega (arith, n_large)

  one_in_range : 1 < n * n
  one_in_range = let le : n ≤ n * n = le-mul_of_pos_right n n_pos in omega (arith, n_large, le)

  square_pos : 0 < n * n
  square_pos = mul-pos (n_pos) (n_pos)

  pub decrypt-mul :
      (a b : ℕ)
      → Coprime a
      → Coprime b
      → Coprime (a * b % (n * n)) × Cong n (decrypt (a * b % (n * n))) (decrypt a + decrypt b)
  decrypt-mul a b h g =
      let la = power_lem a h.0 in
      let lb = power_lem b g.0 in
      (
        (coprime-mul a b h.0 g.0, mod-lt (a * b) square_pos),
        Cong-decrypt (a * b % (n * n)) (power a + power b)
              (product_power a b (power a) (power b) la lb)
            ∙ (ap (λ t. t % n) (distribute (power a) (power b))
                ∙ sym (
                    Cong-add n (decrypt a) (power a * mu) (decrypt b) (power b * mu)
                      (Cong-decrypt a (power a) la) (Cong-decrypt b (power b) lb))),
      )
    where
      distribute : (k l : ℕ) → (k + l) * mu ≡ k * mu + l * mu
      distribute k l = grind arith

  coprime_pow : (a k : ℕ) → is_coprime a ≡ true → is_coprime (a ^ k % (n * n)) ≡ true
  coprime_pow a zero h =
      ap is_coprime (ap (λ t. t % (n * n)) (pow-zero a) ∙ mod-eq_of_lt one_in_range ∙ no_multiple n)
      ∙ coprime_one 0
  coprime_pow a (suc k) h =
      ap is_coprime (
        ap (λ t. t % (n * n)) (pow-suc a k)
        ∙ sym (Cong-mul_right (n * n) (a ^ k % (n * n)) (a ^ k) a (Cong-mod (n * n) (a ^ k))))
      ∙ coprime-mul (a ^ k % (n * n)) a (coprime_pow a k h) h

  raised_power :
      (a k p : ℕ)
      → Cong (n * n) (a ^ lambda) (1 + p * n)
      → Cong (n * n) ((a ^ k % (n * n)) ^ lambda) (1 + p * k * n)
  raised_power a k p h =
      reduced_power (a ^ k)
      ∙ (ap (λ t. t % (n * n)) (swap_exponents a k lambda) ∙ Cong-ones_pow n (a ^ lambda) p k h)

  pub decrypt-powm :
      (a k : ℕ)
      → Coprime a
      → Coprime (powm a k (n * n)) × Cong n (decrypt (powm a k (n * n))) (decrypt a * k)
  decrypt-powm a k h =
      let la = power_lem a h.0 in
      (
        (coprime_pow a k h.0, mod-lt (a ^ k) square_pos),
        Cong-decrypt (powm a k (n * n)) (power a * k) (raised_power a k (power a) la)
            ∙ (ap (λ t. t % n) (swap_factors (power a) k)
                ∙ sym
                    (Cong-mul_right n (decrypt a) (power a * mu) k (Cong-decrypt a (power a) la))),
      )
    where
      swap_factors : (p k : ℕ) → p * k * mu ≡ p * mu * k
      swap_factors p k = grind arith

  decrypt-one : decrypt 1 ≡ 0
  decrypt-one =
      decrypt_lem 1 0 (ap (λ t. t % (n * n)) (one_pow lambda ∙ no_power n))
      ∙ (ap (λ t. t * mu % n) (zero-mod n) ∙ (ap (λ t. t % n) (zero-mul mu) ∙ zero-mod n))
    where
      no_power : (m : ℕ) → 1 ≡ 1 + 0 * m
      no_power m = omega arith

  pub decrypt-inverse :
      (a : ℕ)
      → Coprime a
      → (b : ℕ) × (invert a (n * n) ≡ some b) × Coprime b × Cong n (decrypt a + decrypt b) 0
  decrypt-inverse a h =
      let (b, e, l, c, one) = inverse a h.0 in
      let (_, sum) = decrypt-mul a b h (c, l) in
      (
        b,
        e,
        (c, l),
        sym sum ∙ ap (λ t. t % n) (ap decrypt (one ∙ mod-eq_of_lt one_in_range) ∙ decrypt-one),
      )

  -- The power of a nonce vanishes.
  nonce_power :
      (r : ℕ) → is_coprime r ≡ true → Cong (n * n) ((r ^ n % (n * n)) ^ lambda) (1 + 0 * n)
  nonce_power r h =
      raised_power r n (power r) (power_lem r h)
      ∙ (ap (λ t. t % (n * n)) (regroup (power r) n)
          ∙ add-mul-mod_self_right (1 + 0 * n) (power r) (n * n))
    where
      regroup : (p m : ℕ) → 1 + p * m * m ≡ 1 + 0 * m + p * (m * m)
      regroup p m = grind arith

  -- For a plaintext below the modulus and a nonce that is coprime to it: the encryption is a
  -- ciphertext, and its two shares combine to the plaintext.
  pub decrypt-encrypted :
      (m r : ℕ)
      → m < n
      → is_coprime r ≡ true
      → Coprime ((m * n + 1) * powm r n (n * n) % (n * n))
        × (decrypt ((m * n + 1) * powm r n (n * n) % (n * n)) ≡ m)
  decrypt-encrypted m r h c =
      let message : Cong (n * n) ((m * n + 1) ^ lambda) (1 + m * lambda * n) =
        Cong-ones_pow n (m * n + 1) m lambda (ap (λ t. t % (n * n)) (add_comm (m * n) 1)) in
      let whole =
        product_power (m * n + 1) (powm r n (n * n)) (m * lambda) 0 message (nonce_power r c) in
      let value : Cong n ((m * lambda + 0) * mu) m =
        ap (λ t. t % n) (regroup m lambda mu)
        ∙ (Cong-mul_right n (lambda * mu) 1 m mu_inverts ∙ ap (λ t. t % n) (one-mul m)) in
      (
        (
          coprime-mul (m * n + 1) (powm r n (n * n)) (coprime_one m) (coprime_pow r n c),
          mod-lt ((m * n + 1) * powm r n (n * n)) square_pos,
        ),
        sym (mod-eq_of_lt (decrypt-lt ((m * n + 1) * powm r n (n * n) % (n * n)) whole))
            ∙ (Cong-decrypt ((m * n + 1) * powm r n (n * n) % (n * n)) (m * lambda + 0) whole
                ∙ (value ∙ mod-eq_of_lt h)),
      )
    where
      regroup : (m l u : ℕ) → (m * l + 0) * u ≡ l * u * m
      regroup m l u = grind arith

      decrypt-lt : (d : ℕ) → Cong (n * n) (d ^ lambda) (1 + (m * lambda + 0) * n) → decrypt d < n
      decrypt-lt d e =
          rw (decrypt_lem d (m * lambda + 0) e) (mod-lt ((m * lambda + 0) % n * mu) n_pos)

  pub combine-lt : (u v : ℕ) → or_zero (combine_decrypt n mu u v) < n
  unfolding combine_decrypt
  combine-lt u v = or_zero-lt _ _ _ n (mod-lt _ n_pos) n_pos

  -- A threshold key makes the ciphertexts that the protocol relies on.
  abbrev pub key_scheme : Scheme
  key_scheme = record {
    modulus = n;
    powm = powm;
    invert = invert;
    is_coprime = is_coprime;
    cp_share = partial_decrypt n lambda1;
    csp_share = partial_decrypt n lambda2;
    combine = λ u v. or_zero (combine_decrypt n mu u v);
    IsCiphertext = Coprime;
    modulus_pos = n_pos;
    combine-lt = combine-lt;
    in_range = λ c h. (coprime_pos c h.0, h.1);
    is_coprime-IsCiphertext = λ c h. h.0;
    encrypted = λ m r l p h. decrypt-encrypted m r l h;
    multiplied = decrypt-mul;
    raised = decrypt-powm;
    inverted = decrypt-inverse;
  }
