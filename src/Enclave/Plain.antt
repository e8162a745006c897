-- ===== src/Enclave/Plain.antt =====
-- A key with the exponent 1, whose coprime numbers are those that are 1 modulo `n`: the smallest
-- instance of `ThresholdKey`.
use soci_sgx_sdk.Prelude.{
  ℕ, zero, suc, ◌+◌, ◌*◌, ◌/◌, ◌%◌, ◌^◌, ◌-◌, ◌<◌, Bool, true, ◌≡◌, refl, sym, ap, ◌∙◌, some, arith,
  ◌==◌, ==_iff,
}
use native.Mathlib.Nat.{
  mod-lt, mod-eq_of_lt, zero-mod, add_comm, add-mul-mod_self_right, pow-zero, pow-suc,
  mod-mod_of_dvd, dvd-mul_right, div-add-mod', one-mul, mul-pos, add-mul, mul_assoc,
}
use soci_sgx_sdk.Prelude.Congruence.{Cong, Cong-mod}
use soci_sgx_sdk.Prelude.PowerMod.{Cong-mul, Cong-ones}
use soci_sgx_sdk.Enclave.Key.{ThresholdKey}

module _ (n : ℕ) (large : 1 < n) where
  pub n_pos : 0 < n
  n_pos = omega arith

  abbrev pub is_one : ℕ → Bool
  is_one c = c % n == 1

  abbrev pub opposite_of : ℕ → ℕ
  opposite_of a = (1 + (n - a / n % n) * n) % (n * n)

  pub one_mod : (c : ℕ) → is_one c ≡ true → Cong n c 1
  one_mod c h = (==_iff (c % n) 1).0 h ∙ sym (mod-eq_of_lt large)

  pub is_one_of : (c : ℕ) → Cong n c 1 → is_one c ≡ true
  is_one_of c h = (==_iff (c % n) 1).1 (h ∙ mod-eq_of_lt large)

  pub pos_of_one : (c : ℕ) → is_one c ≡ true → 0 < c
  pos_of_one zero h = absurd (omega (arith, (==_iff (0 % n) 1).0 h, zero-mod n))
  pos_of_one (suc c) h = omega arith

  pub product_is_one :
      (a b : ℕ) → is_one a ≡ true → is_one b ≡ true → is_one (a * b % (n * n)) ≡ true
  product_is_one a b h g = is_one_of (a * b % (n * n)) (
      mod-mod_of_dvd n (a * b) (dvd-mul_right n n)
      ∙ (Cong-mul n a 1 b 1 (one_mod a h) (one_mod b g) ∙ refl))

  pub split_one : (a : ℕ) → is_one a ≡ true → a ≡ 1 + a / n * n
  split_one a h =
      sym (div-add-mod' a n)
      ∙ (ap (λ r. a / n * n + r) ((==_iff (a % n) 1).0 h) ∙ add_comm (a / n * n) 1)

  opposite_sum : (k : ℕ) → (k + (n - k % n)) ≡ (k / n + 1) * n
  opposite_sum k = omega (arith, div-add-mod' k n, mod-lt k n_pos, add-mul (k / n) 1 n, one-mul n)

  pub times_opposite : (a : ℕ) → is_one a ≡ true → Cong (n * n) (a * opposite_of a) 1
  times_opposite a h =
      Cong-ones n a (opposite_of a) (a / n) (n - a / n % n) (ap (λ t. t % (n * n)) (split_one a h))
        (Cong-mod (n * n) (1 + (n - a / n % n) * n))
      ∙ (ap (λ t. (1 + t * n) % (n * n)) (opposite_sum (a / n))
          ∙ (ap (λ t. (1 + t) % (n * n)) (mul_assoc (a / n / n + 1) n n)
              ∙ add-mul-mod_self_right 1 (a / n / n + 1) (n * n)))

  pub opposite_is_one : (a : ℕ) → is_one (opposite_of a) ≡ true
  opposite_is_one a = is_one_of (opposite_of a) (
      mod-mod_of_dvd n (1 + (n - a / n % n) * n) (dvd-mul_right n n)
      ∙ add-mul-mod_self_right 1 (n - a / n % n) n)

  pub first_power : (c : ℕ) → c ^ (1 + 0) ≡ c
  first_power c = pow-suc c 0 ∙ (ap (λ x. x * c) (pow-zero c) ∙ one-mul c)

  abbrev pub plain_key : ThresholdKey
  plain_key = record {
    n = n;
    lambda1 = 1;
    lambda2 = 0;
    mu = 1;
    is_coprime = is_one;
    invert = λ a m. some (opposite_of a);
    n_large = large;
    carmichael = λ c h. ap (λ t. t % n) (first_power c) ∙ one_mod c h;
    mu_inverts = refl;
    coprime_pos = pos_of_one;
    coprime_one = λ k.
        is_one_of (k * n + 1) (ap (λ t. t % n) (add_comm (k * n) 1) ∙ add-mul-mod_self_right 1 k n);
    coprime-mul = product_is_one;
    inverse = λ a h. (
      opposite_of a,
      refl,
      mod-lt (1 + (n - a / n % n) * n) (mul-pos n_pos n_pos),
      opposite_is_one a,
      times_opposite a h,
    );
  }
