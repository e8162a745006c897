-- ===== src/Enclave/Decrypt.antt =====
-- What the two shares of a ciphertext combine to.
use soci_sgx_sdk.Prelude.{
  ℕ, suc, ◌+◌, ◌-◌, ◌*◌, ◌/◌, ◌%◌, ◌^◌, ◌<◌, ◌≤◌, false, ◌≡◌, refl, sym, ap, ◌∙◌, none, some, arith,
  ◌==◌, if◌then◌else◌,
}
use native.Mathlib.Nat.{
  mod-lt, mod-eq_of_lt, mul-mod_left, mul-le-mul_right, mul-div_cancel, div-add-mod',
  add-mul-mod_self_right,
}
use soci_sgx_sdk.Prelude.Congruence.{Cong, Cong-mod}
use soci_sgx_sdk.Prelude.PowerMod.{Cong-mul, pow-add_exponents}
use soci_sgx_sdk.Enclave.{partial_decrypt, combine_decrypt}

regroup : (n q r : ℕ) → 1 + (q * n + r) * n ≡ 1 + r * n + q * (n * n)
regroup n q r = grind arith

room : (n r : ℕ) → 1 < n → r < n → 1 + r * n < n * n
room n r p h = let le : suc r * n ≤ n * n = mul-le-mul_right n h in omega arith

-- The representative of a number that is 1 modulo `n`.
reduced : (n k : ℕ) → 1 < n → (1 + k * n) % (n * n) ≡ 1 + k % n * n
reduced n k p =
    let split : 1 + k * n ≡ 1 + k % n * n + k / n * (n * n) =
      ap (λ t. 1 + t * n) (sym (div-add-mod' k n)) ∙ regroup n (k / n) (k % n) in
    ap (λ t. t % (n * n)) split
    ∙ (add-mul-mod_self_right (1 + k % n * n) (k / n) (n * n)
        ∙ mod-eq_of_lt (room n (k % n) p (mod-lt k (omega arith))))

-- The last step of the combination.
logarithm :
    (n mu k : ℕ)
    → 1 < n
    → k < n
    → (if 1 + k * n == 0
        then none
        else if (1 + k * n - 1) % n == 0
        then some ((1 + k * n - 1) / n * mu % n)
        else none)
      ≡ some (k * mu % n)
logarithm n mu k p h =
    rw (positive (k * n), one_less (k * n), mul-mod_left k n, mul-div_cancel k positive_n) refl
  where
    positive_n : 0 < n
    positive_n = omega arith

    positive : (m : ℕ) → (1 + m == 0) ≡ false
    positive m = ground arith

    one_less : (m : ℕ) → 1 + m - 1 ≡ m
    one_less m = omega arith

-- The shares of a ciphertext whose power to the whole exponent is `1 + k * n` combine to `k * mu`.
pub combine_decrypt-partial_decrypt :
    (n mu lambda1 lambda2 c k : ℕ)
    → 1 < n
    → Cong (n * n) (c ^ (lambda1 + lambda2)) (1 + k * n)
    → combine_decrypt n mu (partial_decrypt n lambda1 c) (partial_decrypt n lambda2 c)
      ≡ some (k % n * mu % n)
unfolding combine_decrypt partial_decrypt
combine_decrypt-partial_decrypt n mu lambda1 lambda2 c k p h =
    ap
      (λ u. if u == 0 then none else if (u - 1) % n == 0 then some ((u - 1) / n * mu % n) else none)
      product
    ∙ logarithm n mu (k % n) p (mod-lt k (omega arith))
  where
    product : c ^ lambda1 % (n * n) * (c ^ lambda2 % (n * n)) % (n * n) ≡ 1 + k % n * n
    product =
        Cong-mul (n * n) (c ^ lambda1 % (n * n)) (c ^ lambda1) (c ^ lambda2 % (n * n)) (c ^ lambda2)
          (Cong-mod (n * n) (c ^ lambda1)) (Cong-mod (n * n) (c ^ lambda2))
        ∙ (ap (λ t. t % (n * n)) (sym (pow-add_exponents c lambda1 lambda2)) ∙ (h ∙ reduced n k p))
