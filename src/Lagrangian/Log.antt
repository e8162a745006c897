-- ===== src/Lagrangian/Log.antt =====
-- The bit counts of `ceilLog2` and `requiredBits`.
use soci_sgx_sdk.Prelude.{
  ℕ, zero, suc, ◌+◌, ◌*◌, ◌^◌, ◌≤◌, ◌<◌, ◌≡◌, refl, sym, ap, subst, ◌∙◌, Bool, true, false, arith,
  Result, ok, err, require_inv, ltb, ltb→lt, ltb→le, lt→ltb, le→ltb, Bool-cases, ◌⊎◌, inl, inr,
  if◌then◌else◌,
}
use soci_sgx_sdk.Prelude.Powers.{mul-le_mul, pow-le_pow}
use native.Mathlib.Nat.{pow-suc, add-zero}
use soci_sgx_sdk.Fixed.{Status, numeric_range_exceeded, int64_max}
use soci_sgx_sdk.Lagrangian.{log_loop, ceil_log2, coefficient_bound}

-- The number of doublings of one that reach a value.
pub record IsLog (value b : ℕ) : Type 0 where
  pub reaches : value ≤ 2 ^ b
  pub least : (k : ℕ) → k < b → 2 ^ k < value

pub log_mono : (v w b c : ℕ) → v ≤ w → IsLog v b → IsLog w c → b ≤ c
log_mono v w b c h m n = elim (Bool-cases (ltb c b)) [
  | inl e ↦ absurd (omega (arith, m.least c (ltb→lt c b e), n.reaches))
  | inr e ↦ ltb→le c b e
]

if_inv :
    (t : Bool) (r : Result Status ℕ) (bits b : ℕ)
    → (if t then r else ok bits) ≡ ok b
    → ((t ≡ true) × (r ≡ ok b)) ⊎ ((t ≡ false) × (bits ≡ b))
if_inv true r bits b e = inl (refl, e)
if_inv false r bits b e = inr (refl, cc)

IsLog-here :
    (bits value b : ℕ)
    → ltb (2 ^ bits) value ≡ false
    → bits ≡ b
    → ((k : ℕ) → k < bits → 2 ^ k < value)
    → IsLog value b
IsLog-here bits value b t e h = record {
  reaches = omega (arith, ltb→le (2 ^ bits) value t, ap (λ k. 2 ^ k) e);
  least = λ k l. h k (omega arith);
}

log_loop-IsLog :
    (left bits power value b : ℕ)
    → power ≡ 2 ^ bits
    → log_loop left power bits value ≡ ok b
    → ((k : ℕ) → k < bits → 2 ^ k < value)
    → IsLog value b
unfolding log_loop
log_loop-IsLog zero bits power value b p e h =
    elim (if_inv (ltb power value) (err numeric_range_exceeded) bits b e) [
      | inl (t, r) ↦ cc
      | inr (t, r) ↦ IsLog-here bits value b (subst (λ x. ltb x value ≡ false) p t) r h
    ]
log_loop-IsLog (suc left) bits power value b p e h =
    elim (if_inv (ltb power value) (log_loop left (power * 2) (suc bits) value) bits b e) [
      | inl (t, r) ↦
          log_loop-IsLog left (suc bits) (power * 2) value b
            (ap (λ x. x * 2) p ∙ sym (pow-suc 2 bits)) r (below (ltb→lt power value t))
      | inr (t, r) ↦ IsLog-here bits value b (subst (λ x. ltb x value ≡ false) p t) r h
    ]
  where
    below : power < value → (k : ℕ) → k < suc bits → 2 ^ k < value
    below l k m = omega (arith, pow-le_pow k bits (omega arith))

log_loop-ok :
    (left bits power value : ℕ)
    → power ≡ 2 ^ bits
    → value ≤ 2 ^ (bits + left)
    → (b : ℕ) × (log_loop left power bits value ≡ ok b) × (b ≤ bits + left)
unfolding log_loop
log_loop-ok zero bits power value p h = (
  bits,
  rw (le→ltb power value (omega (arith, ap (λ k. 2 ^ k) (add-zero bits)))) refl,
  omega arith,
)
log_loop-ok (suc left) bits power value p h = elim (Bool-cases (ltb power value)) [
  | inl t ↦
      let (b, e, l) =
        log_loop-ok left (suc bits) (power * 2) value (ap (λ x. x * 2) p ∙ sym (pow-suc 2 bits))
          (omega (arith, ap (λ k. 2 ^ k) (suc_moves bits left))) in
      (b, rw t e, omega arith)
  | inr t ↦ (bits, rw t refl, omega arith)
]
  where
    suc_moves : (m n : ℕ) → m + suc n ≡ suc m + n
    suc_moves m n = omega arith

pub ceil_log2-IsLog : (value b : ℕ) → ceil_log2 value ≡ ok b → IsLog value b
unfolding ceil_log2
ceil_log2-IsLog value b e =
    log_loop-IsLog 127 0 1 value b refl (require_inv (ltb 0 value) _ _ e).1
      (λ k l. absurd (omega arith))

pub ceil_log2-ok :
    (value : ℕ) → 0 < value → value ≤ 2 ^ 127 → (b : ℕ) × (ceil_log2 value ≡ ok b) × (b ≤ 127)
unfolding ceil_log2
ceil_log2-ok value p h =
    let (b, e, l) = log_loop-ok 127 0 1 value refl h in (b, rw (lt→ltb 0 value p) e, l)

-- The coefficients grow with the multiplier, and stay below 2 ^ 127 on 64-bit inputs.
pub coefficient_bound_mono :
    (q m n alpha threshold : ℕ)
    → m ≤ n
    → coefficient_bound q m alpha threshold ≤ coefficient_bound q n alpha threshold
unfolding coefficient_bound
coefficient_bound_mono q m n alpha threshold h = ground (
  arith,
  mul-le_mul m n alpha alpha h (omega arith),
  mul-le_mul m n threshold threshold h (omega arith),
)

pub coefficient_bound_room :
    (q m alpha threshold : ℕ)
    → q ≤ int64_max
    → m ≤ int64_max
    → alpha ≤ int64_max
    → threshold ≤ int64_max
    → coefficient_bound q m alpha threshold ≤ 2 ^ 127
unfolding coefficient_bound
coefficient_bound_room q m alpha threshold hq hm ha ht = ground (
  arith,
  mul-le_mul m int64_max alpha int64_max hm ha,
  mul-le_mul m int64_max threshold int64_max hm ht,
)
