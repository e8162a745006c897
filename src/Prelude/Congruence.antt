-- ===== src/Prelude/Congruence.antt =====
-- Numbers that are the same modulo `n`, and numbers that stand for a signed integer modulo `n`.
use Prim.Native.Nat.{ℕ, zero, suc, ◌+◌, ◌-◌, ◌*◌, ◌/◌, ◌%◌, ◌<◌}
use mathlib.Core.Path.{◌≡◌, refl, sym, ap, ◌∙◌}
use native.Mathlib.Nat.{
  zero-add, mod-eq_of_lt, add-mod, mod-mod, add-mul-mod_self_left, add-mul-mod_self_right,
  div-add-mod,
}
use native.Mathlib.Omega.{arith}
use soci_sgx_sdk.Prelude.Int.{
  ℤ, pos, pos_part, neg_part, ◌+ℤ◌, ◌-ℤ◌, ◌*ℤ◌, +ℤ_parts, -ℤ_parts, *ℤ_pos_parts,
}

abbrev pub Cong : ℕ → ℕ → ℕ → Type 0
Cong n a b = a % n ≡ b % n

pub Cong-add : (n a b c d : ℕ) → Cong n a b → Cong n c d → Cong n (a + c) (b + d)
Cong-add n a b c d h k =
    add-mod a c n
    ∙ (ap (λ x. (x + c % n) % n) h ∙ (ap (λ x. (b % n + x) % n) k ∙ sym (add-mod b d n)))

-- The remainder serves as well in a product.
mod-mul : (n a c : ℕ) → Cong n (a * c) (a % n * c)
mod-mul n a c =
    let split : a * c ≡ a % n * c + n * (a / n * c) =
      sym (ap (λ x. x * c) (div-add-mod a n)) ∙ regroup n (a / n) (a % n) c in
    ap (λ x. x % n) split ∙ add-mul-mod_self_left (a % n * c) n (a / n * c)
  where
    regroup : (n q r c : ℕ) → (n * q + r) * c ≡ r * c + n * (q * c)
    regroup n q r c = grind arith

pub Cong-mul_right : (n a b c : ℕ) → Cong n a b → Cong n (a * c) (b * c)
Cong-mul_right n a b c h = mod-mul n a c ∙ (ap (λ x. (x * c) % n) h ∙ sym (mod-mul n b c))

cancelled : (n a c : ℕ) → 0 < n → Cong n (a + c + c * (n - 1)) a
cancelled (suc n) a c h =
    let same : a + c + c * (suc n - 1) ≡ a + c * suc n = grind arith in
    ap (λ x. x % suc n) same ∙ add-mul-mod_self_right a c (suc n)
cancelled zero a c h = absurd (omega arith)

pub Cong-cancel : (n a b c : ℕ) → 0 < n → Cong n (a + c) (b + c) → Cong n a b
Cong-cancel n a b c p h =
    sym (cancelled n a c p)
    ∙ (Cong-add n (a + c) (b + c) (c * (n - 1)) (c * (n - 1)) h refl ∙ cancelled n b c p)

-- `m` stands for `z`.
abbrev pub Represents : ℕ → ℕ → ℤ → Type 0
Represents n m z = Cong n (m + neg_part z) (pos_part z)

pub Cong-mod : (n a : ℕ) → Cong n (a % n) a
Cong-mod n a = mod-mod a n

module _ (n : ℕ) (p : 0 < n) where
  -- Adding the same to both sides, in any order.
  Cong-shift : (a b c x y : ℕ) → Cong n x y → a + c ≡ x → b + c ≡ y → Cong n a b
  Cong-shift a b c x y h e f =
      Cong-cancel n a b c p (ap (λ t. t % n) e ∙ (h ∙ ap (λ t. t % n) (sym f)))

  pub Represents-mod : (a : ℕ) (x : ℤ) → Represents n a x → Represents n (a % n) x
  Represents-mod a x h = Cong-add n (a % n) a (neg_part x) (neg_part x) (Cong-mod n a) refl ∙ h

  pub Represents-add :
      (a b : ℕ) (x y : ℤ) → Represents n a x → Represents n b y → Represents n (a + b) (x +ℤ y)
  Represents-add a b x y h k =
      Cong-shift (a + b + neg_part (x +ℤ y)) (pos_part (x +ℤ y))
        (neg_part x + neg_part y + pos_part x + pos_part y)
        (a + neg_part x + (b + neg_part y) + (neg_part x + neg_part y + pos_part (x +ℤ y)))
        (pos_part x + pos_part y + (neg_part x + neg_part y + pos_part (x +ℤ y)))
        (Cong-add n (a + neg_part x + (b + neg_part y)) (pos_part x + pos_part y) _ _
          (Cong-add n (a + neg_part x) (pos_part x) (b + neg_part y) (pos_part y) h k) refl)
        (omega (arith, +ℤ_parts x y)) (omega arith)

  -- The opposite of a number that adds up to zero.
  pub Represents-neg :
      (a b : ℕ) (x : ℤ) → Represents n a x → Cong n (a + b) 0 → Represents n b (pos 0 -ℤ x)
  Represents-neg a b x h e =
      let z = pos 0 -ℤ x in
      let left : b + neg_part z + (a + neg_part x) ≡ a + b + (neg_part z + neg_part x) =
        omega arith in
      let right : neg_part z + neg_part x ≡ pos_part z + pos_part x =
        omega (arith, -ℤ_parts (pos 0) x) in
      Cong-cancel n (b + neg_part z) (pos_part z) (a + neg_part x) p (
        ap (λ t. t % n) left
        ∙ (Cong-add n (a + b) 0 (neg_part z + neg_part x) (neg_part z + neg_part x) e refl
            ∙ (ap (λ t. t % n) (zero-add (neg_part z + neg_part x) ∙ right)
                ∙ sym (Cong-add n (pos_part z) (pos_part z) (a + neg_part x) (pos_part x) refl h))))

  pub Represents-mul :
      (a : ℕ) (x : ℤ) (k : ℕ) → Represents n a x → Represents n (a * k) (x *ℤ pos k)
  Represents-mul a x k h =
      let left : a * k + neg_part (x *ℤ pos k) ≡ (a + neg_part x) * k =
        omega (arith, *ℤ_pos_parts x k) in
      ap (λ t. t % n) left
      ∙ (Cong-mul_right n (a + neg_part x) (pos_part x) k h
          ∙ ap (λ t. t % n) (sym (*ℤ_pos_parts x k).0))

  -- What represents a number represents every number that is the same modulo `n`.
  pub Represents-same :
      (a : ℕ) (x y : ℤ)
      → Represents n a x
      → Cong n (pos_part x + neg_part y) (pos_part y + neg_part x)
      → Represents n a y
  Represents-same a x y h e =
      let left : a + neg_part y + neg_part x ≡ a + neg_part x + neg_part y = omega arith in
      Cong-cancel n (a + neg_part y) (pos_part y) (neg_part x) p (
        ap (λ t. t % n) left
        ∙ (Cong-add n (a + neg_part x) (pos_part x) (neg_part y) (neg_part y) h refl ∙ e))

  -- A number represents itself, and what a number below `n` represents is its remainder.
  pub Represents-pos : (a : ℕ) → Represents n a (pos a)
  Represents-pos a = ap (λ t. t % n) (omega arith)

  pub Represents-exact : (a v : ℕ) → a < n → v < n → Represents n a (pos v) → a ≡ v
  Represents-exact a v h k r =
      sym (mod-eq_of_lt h) ∙ (ap (λ t. t % n) (omega arith) ∙ (r ∙ mod-eq_of_lt k))
