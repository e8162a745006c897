-- ===== src/Prelude/Powers.antt =====
-- Orders under products and powers of two.
use Prim.Native.Nat.{ℕ, zero, suc, ◌+◌, ◌*◌, ◌^◌, ◌≤◌, ◌<◌}
use mathlib.Core.Path.{◌≡◌, sym, ap, ◌∙◌}
use native.Mathlib.Omega.{arith}
use native.Mathlib.Nat.{pow-suc, mul_assoc, add-zero, add-suc, le_dest}

-- A factor can grow.
pub mul-le_mul : (a b c d : ℕ) → a ≤ b → c ≤ d → a * c ≤ b * d
mul-le_mul a b c d h k = grind arith

pub pow-add : (m n : ℕ) → 2 ^ (m + n) ≡ 2 ^ m * 2 ^ n
pow-add m zero = omega (arith, ap (λ t. 2 ^ t) (add-zero m))
pow-add m (suc n) =
    ap (λ t. 2 ^ t) (add-suc m n)
    ∙ pow-suc 2 (m + n)
    ∙ ap (λ t. t * 2) (pow-add m n)
    ∙ mul_assoc (2 ^ m) (2 ^ n) 2
    ∙ ap (λ t. 2 ^ m * t) (sym (pow-suc 2 n))

pub pow_pos : (n : ℕ) → 0 < 2 ^ n
pow_pos zero = omega arith
pow_pos (suc n) = omega (arith, pow_pos n, pow-suc 2 n)

pub pow-le_pow : (m n : ℕ) → m ≤ n → 2 ^ m ≤ 2 ^ n
pow-le_pow m n h =
    let (k, e) = le_dest h in
    omega (
      arith,
      ap (λ t. 2 ^ t) e,
      pow-add m k,
      mul-le_mul (2 ^ m) (2 ^ m) 1 (2 ^ k) (omega arith) (pow_pos k),
    )

-- A product of bounds by powers of two.
pub mul-lt-pow : (a b m n : ℕ) → a ≤ 2 ^ m → b < 2 ^ n → a * b < 2 ^ (m + n)
mul-lt-pow a b m n h k = omega (
  arith,
  pow-add m n,
  pow_pos m,
  mul-le_mul a (2 ^ m) b b h (omega arith),
  mul-le_mul (2 ^ m) (2 ^ m) (suc b) (2 ^ n) (omega arith) (omega arith),
)
