-- ===== src/Prelude/PowerMod.antt =====
-- Powers and remainders.
use Prim.Native.Nat.{ℕ, zero, suc, ◌+◌, ◌*◌, ◌%◌, ◌^◌}
use mathlib.Core.Path.{◌≡◌, sym, ap, ◌∙◌}
use native.Mathlib.Nat.{pow-zero, pow-suc, mul_comm, mul_assoc, mul-one, add-mul-mod_self_right}
use native.Mathlib.Omega.{arith}
use soci_sgx_sdk.Prelude.Congruence.{Cong, Cong-mul_right}

pub Cong-mul : (n a b c d : ℕ) → Cong n a b → Cong n c d → Cong n (a * c) (b * d)
Cong-mul n a b c d h k =
    Cong-mul_right n a b c h
    ∙ (ap (λ x. x % n) (mul_comm b c) ∙ (Cong-mul_right n c d b k ∙ ap (λ x. x % n) (mul_comm d b)))

pub pow-add_exponents : (a m k : ℕ) → a ^ (m + k) ≡ a ^ m * a ^ k
pow-add_exponents a m zero =
    let same : m + zero ≡ m = omega arith in
    ap (λ e. a ^ e) same ∙ (sym (mul-one (a ^ m)) ∙ ap (λ x. a ^ m * x) (sym (pow-zero a)))
pow-add_exponents a m (suc k) =
    let same : m + suc k ≡ suc (m + k) = omega arith in
    ap (λ e. a ^ e) same
    ∙ (pow-suc a (m + k)
        ∙ (ap (λ x. x * a) (pow-add_exponents a m k)
            ∙ (mul_assoc (a ^ m) (a ^ k) a ∙ ap (λ x. a ^ m * x) (sym (pow-suc a k)))))

swap_middle : (a b x y : ℕ) → x * y * (a * b) ≡ x * a * (y * b)
swap_middle a b x y = grind arith

pub pow_of_mul : (a b k : ℕ) → (a * b) ^ k ≡ a ^ k * b ^ k
pow_of_mul a b zero =
    pow-zero (a * b) ∙ sym (ap (λ x. x * b ^ zero) (pow-zero a) ∙ ap (λ x. 1 * x) (pow-zero b))
pow_of_mul a b (suc k) =
    pow-suc (a * b) k
    ∙ (ap (λ x. x * (a * b)) (pow_of_mul a b k)
        ∙ (swap_middle a b (a ^ k) (b ^ k)
            ∙ (ap (λ x. x * (b ^ k * b)) (sym (pow-suc a k))
                ∙ ap (λ x. a ^ suc k * x) (sym (pow-suc b k)))))

pub Cong-pow : (n a b k : ℕ) → Cong n a b → Cong n (a ^ k) (b ^ k)
Cong-pow n a b zero h = ap (λ x. x % n) (pow-zero a ∙ sym (pow-zero b))
Cong-pow n a b (suc k) h =
    ap (λ x. x % n) (pow-suc a k)
    ∙ (Cong-mul n (a ^ k) (b ^ k) a b (Cong-pow n a b k h) h ∙ ap (λ x. x % n) (sym (pow-suc b k)))

-- Numbers that are 1 modulo `n`, modulo the square of `n`: their products add.
ones_product : (n k l : ℕ) → (1 + k * n) * (1 + l * n) ≡ 1 + (k + l) * n + k * l * (n * n)
ones_product n k l = grind arith

pub Cong-ones :
    (n x y k l : ℕ)
    → Cong (n * n) x (1 + k * n)
    → Cong (n * n) y (1 + l * n)
    → Cong (n * n) (x * y) (1 + (k + l) * n)
Cong-ones n x y k l h g =
    Cong-mul (n * n) x (1 + k * n) y (1 + l * n) h g
    ∙ (ap (λ t. t % (n * n)) (ones_product n k l)
        ∙ add-mul-mod_self_right (1 + (k + l) * n) (k * l) (n * n))

pub Cong-ones_pow :
    (n x k e : ℕ) → Cong (n * n) x (1 + k * n) → Cong (n * n) (x ^ e) (1 + k * e * n)
Cong-ones_pow n x k zero h =
    let same : 1 ≡ 1 + k * zero * n = grind arith in ap (λ t. t % (n * n)) (pow-zero x ∙ same)
Cong-ones_pow n x k (suc e) h =
    let same : 1 + (k * e + k) * n ≡ 1 + k * suc e * n = grind arith in
    ap (λ t. t % (n * n)) (pow-suc x e)
    ∙ (Cong-ones n (x ^ e) x (k * e) k (Cong-ones_pow n x k e h) h ∙ ap (λ t. t % (n * n)) same)

pub one_pow : (k : ℕ) → 1 ^ k ≡ 1
one_pow zero = pow-zero 1
one_pow (suc k) = pow-suc 1 k ∙ ap (λ x. x * 1) (one_pow k)

pub swap_exponents : (a k l : ℕ) → (a ^ k) ^ l ≡ (a ^ l) ^ k
swap_exponents a zero l = ap (λ x. x ^ l) (pow-zero a) ∙ (one_pow l ∙ sym (pow-zero (a ^ l)))
swap_exponents a (suc k) l =
    ap (λ x. x ^ l) (pow-suc a k)
    ∙ (pow_of_mul (a ^ k) a l
        ∙ (ap (λ x. x * a ^ l) (swap_exponents a k l) ∙ sym (pow-suc (a ^ l) k)))
