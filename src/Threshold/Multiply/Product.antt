-- ===== src/Threshold/Multiply/Product.antt =====
-- The product that `secureMultiply` returns.
use soci_sgx_sdk.Prelude.{
  ℕ, ◌+◌, ◌-◌, ◌*◌, ◌/◌, ◌%◌, ◌^◌, ◌≤◌, ◌<◌, ◌≡◌, refl, ap, subst, ◌∙◌, true, [], ◌∷◌, ok, arith,
}
use soci_sgx_sdk.Prelude.Int.{
  ℤ, pos, pos_part, neg_part, ◌+ℤ◌, ◌-ℤ◌, ◌*ℤ◌, minus, +ℤ_parts, *ℤ_parts, eq_of_parts,
  *ℤ_pos_parts,
}
use soci_sgx_sdk.Prelude.Congruence.{Represents-exact}
use soci_sgx_sdk.Secure.{Below}
use soci_sgx_sdk.Threshold.Scheme.{Scheme, is_nonce, paillier_encrypt, add}
use soci_sgx_sdk.Threshold.Scheme.Holds.{
  Holds, paillier_encrypt-Holds, add-Holds, scalar_multiply-Holds,
}
use soci_sgx_sdk.Threshold.Server.{combined, answer}
use soci_sgx_sdk.Threshold.Multiply.{
  packing_base, random_mask, Nonces, pack_masked, unmask_product, secure_multiply,
}

minus_parts : (r : ℕ) → (pos_part (minus r) ≡ 0) × (neg_part (minus r) ≡ r)
unfolding ◌-ℤ◌
minus_parts r = ground arith

times_minus :
    (x : ℤ) (r : ℕ)
    → pos_part (x *ℤ minus r) + pos_part x * r ≡ neg_part (x *ℤ minus r) + neg_part x * r
times_minus x r =
    let m = minus_parts r in
    omega (
      arith,
      *ℤ_parts x (minus r),
      ap (λ t. pos_part x * t) m.0,
      ap (λ t. pos_part x * t) m.1,
      ap (λ t. neg_part x * t) m.0,
      ap (λ t. neg_part x * t) m.1,
    )

-- The same over the parts of both numbers.
expanded :
    (xp xn yp yn r1 r2 u v : ℕ)
    → u + xn ≡ xp + r1
    → v + yn ≡ yp + r2
    → u * v + (xp * yn + xn * yp) + xn * r2 + yn * r1
      ≡ xp * yp + xn * yn + xp * r2 + yp * r1 + r1 * r2
expanded xp xn yp yn r1 r2 u v e f = omega (
  arith,
  ap (λ t. t * v) e,
  ap (λ t. t * yn) e,
  ap (λ t. t * xp) f,
  ap (λ t. t * xn) f,
  ap (λ t. t * r1) f,
)

-- The masked product, with its three corrections, is the product.
unmasked_product :
    (x y : ℤ) (r1 r2 u v : ℕ)
    → x +ℤ pos r1 ≡ pos u
    → y +ℤ pos r2 ≡ pos v
    → pos (u * v) +ℤ x *ℤ minus r2 +ℤ y *ℤ minus r1 +ℤ minus (r1 * r2) ≡ x *ℤ y
unmasked_product x y r1 r2 u v e f =
    let masked_x : u + neg_part x ≡ pos_part x + r1 =
      omega (arith, +ℤ_parts x (pos r1), ap pos_part e, ap neg_part e) in
    let masked_y : v + neg_part y ≡ pos_part y + r2 =
      omega (arith, +ℤ_parts y (pos r2), ap pos_part f, ap neg_part f) in
    let sum1 = pos (u * v) +ℤ x *ℤ minus r2 in
    let sum2 = sum1 +ℤ y *ℤ minus r1 in
    eq_of_parts (sum2 +ℤ minus (r1 * r2)) (x *ℤ y) (
      omega (
        arith,
        +ℤ_parts (pos (u * v)) (x *ℤ minus r2),
        +ℤ_parts sum1 (y *ℤ minus r1),
        +ℤ_parts sum2 (minus (r1 * r2)),
        times_minus x r2,
        times_minus y r1,
        minus_parts (r1 * r2),
        *ℤ_parts x y,
        expanded (pos_part x) (neg_part x) (pos_part y) (neg_part y) r1 r2 u v masked_x masked_y,
      ))

-- A masked operand is not negative and fits below the packing base.
pub masked_operand :
    (x : ℤ) (bits : ℕ)
    → Below (2 ^ 127) x
    → bits < 2 ^ 127
    → (u : ℕ) × (x +ℤ pos (random_mask bits) ≡ pos u) × (u < packing_base)
unfolding random_mask
masked_operand x bits h l =
    let u : ℕ = 2 ^ 127 + bits + pos_part x - neg_part x in
    (
      u,
      eq_of_parts (x +ℤ pos (2 ^ 127 + bits)) (pos u)
          (omega (arith, +ℤ_parts x (pos (2 ^ 127 + bits)))),
      omega arith,
    )

packed_value : (u v : ℕ) → pos u *ℤ pos packing_base +ℤ pos v ≡ pos (u * packing_base + v)
packed_value u v =
    eq_of_parts (pos u *ℤ pos packing_base +ℤ pos v) (pos (u * packing_base + v)) (
      omega
        (arith, +ℤ_parts (pos u *ℤ pos packing_base) (pos v), *ℤ_pos_parts (pos u) packing_base))

pub unpacked :
    (u v : ℕ)
    → v < packing_base
    → (u * packing_base + v) / packing_base * ((u * packing_base + v) % packing_base) ≡ u * v
unpacked u v h =
    let high : (u * packing_base + v) / packing_base ≡ u = omega arith in
    let low : (u * packing_base + v) % packing_base ≡ v = omega arith in rw (high, low) refl

-- The nonces of a multiplication end the loops that draw them.
pub record AreNonces (s : Scheme) (nonces : Nonces) : Type 0 where
  pub first_ok : is_nonce s nonces.first ≡ true
  pub second_ok : is_nonce s nonces.second ≡ true
  pub correction_ok : is_nonce s nonces.correction ≡ true
  pub server_ok : is_nonce s nonces.server ≡ true

module _ (s : Scheme) (nonces : Nonces) (n : AreNonces s nonces) where
  open s use {modulus, modulus_pos, cp_share, combine-lt}

  pub pack_masked-Holds :
      (a b : ℕ) (x y : ℤ) (r1 r2 u v : ℕ)
      → Holds s a x
      → Holds s b y
      → x +ℤ pos r1 ≡ pos u
      → y +ℤ pos r2 ≡ pos v
      → (c : ℕ) × (pack_masked s a b r1 r2 nonces ≡ ok c) × Holds s c (pos (u * packing_base + v))
  unfolding pack_masked
  pack_masked-Holds a b x y r1 r2 u v h k e f =
      let masked_a = add s a (paillier_encrypt s (pos r1) nonces.first) in
      let masked_b = add s b (paillier_encrypt s (pos r2) nonces.second) in
      let holds_a : Holds s masked_a (pos u) = subst (Holds s masked_a) e (
        add-Holds s a _ x (pos r1) h (paillier_encrypt-Holds s (pos r1) nonces.first n.first_ok)) in
      let holds_b : Holds s masked_b (pos v) = subst (Holds s masked_b) f (
        add-Holds s b _ y (pos r2) k
          (paillier_encrypt-Holds s (pos r2) nonces.second n.second_ok)) in
      let (scaled, found, holds) =
        scalar_multiply-Holds s masked_a (pos u) (pos packing_base) holds_a in
      (
        add s scaled masked_b,
        rw found refl,
        subst (Holds s (add s scaled masked_b)) (packed_value u v)
            (add-Holds s scaled masked_b (pos u *ℤ pos packing_base) (pos v) holds holds_b),
      )

  -- The CSP unpacks both operands and encrypts their product.
  answer_product :
      (c u v : ℕ)
      → Holds s c (pos (u * packing_base + v))
      → u < packing_base
      → v < packing_base
      → packing_base * packing_base ≤ modulus
      → (p : ℕ) × (answer s b'M' (c ∷ cp_share c ∷ packing_base ∷ []) nonces.server ≡ ok p)
        × Holds s p (pos (u * v))
  unfolding answer
  answer_product c u v h hu hv room =
      let exact : combined s c (cp_share c) ≡ u * packing_base + v =
        Represents-exact modulus modulus_pos _ _ (combine-lt (cp_share c) (s.csp_share c))
          (omega arith) h.reads in
      (
        paillier_encrypt s (pos (u * v)) nonces.server,
        ap
              (λ m.
                ok (paillier_encrypt s (pos (m / packing_base * (m % packing_base))) nonces.server))
              exact
            ∙ ap (λ m. ok (paillier_encrypt s (pos m) nonces.server)) (unpacked u v hv),
        paillier_encrypt-Holds s (pos (u * v)) nonces.server n.server_ok,
      )

  pub unmask_product-Holds :
      (a b p : ℕ) (x y : ℤ) (r1 r2 u v : ℕ)
      → Holds s a x
      → Holds s b y
      → Holds s p (pos (u * v))
      → x +ℤ pos r1 ≡ pos u
      → y +ℤ pos r2 ≡ pos v
      → (c : ℕ) × (unmask_product s a b r1 r2 nonces p ≡ ok c) × Holds s c (x *ℤ y)
  unfolding unmask_product
  unmask_product-Holds a b p x y r1 r2 u v h k hp e f =
      let (by_a, found_a, holds_a) = scalar_multiply-Holds s a x (minus r2) h in
      let (by_b, found_b, holds_b) = scalar_multiply-Holds s b y (minus r1) k in
      let correction = paillier_encrypt s (minus (r1 * r2)) nonces.correction in
      (
        add s (add s (add s p by_a) by_b) correction,
        rw (found_a, found_b) refl,
        subst (Holds s (add s (add s (add s p by_a) by_b) correction))
            (unmasked_product x y r1 r2 u v e f)
            (add-Holds s (add s (add s p by_a) by_b) correction _ _
              (add-Holds s (add s p by_a) by_b _ _ (add-Holds s p by_a _ _ hp holds_a) holds_b)
              (paillier_encrypt-Holds s (minus (r1 * r2)) nonces.correction n.correction_ok)),
      )

  -- For operands below 2^127 in magnitude, masks of 128 bits with their top bit set, nonces that end
  -- their loops and a modulus of more than 260 bits: the protocol of `secureMultiply` succeeds and
  -- its ciphertext decrypts to the product.
  pub secure_multiply-product :
      (a b : ℕ) (x y : ℤ) (bits1 bits2 : ℕ)
      → Holds s a x
      → Holds s b y
      → Below (2 ^ 127) x
      → Below (2 ^ 127) y
      → bits1 < 2 ^ 127
      → bits2 < 2 ^ 127
      → packing_base * packing_base ≤ modulus
      → (c : ℕ) × (secure_multiply s a b (random_mask bits1) (random_mask bits2) nonces ≡ ok c)
        × Holds s c (x *ℤ y)
  unfolding secure_multiply
  secure_multiply-product a b x y bits1 bits2 h k hx hy l1 l2 room =
      let (u, eu, lu) = masked_operand x bits1 hx l1 in
      let (v, ev, lv) = masked_operand y bits2 hy l2 in
      let r1 = random_mask bits1 in
      let r2 = random_mask bits2 in
      let (packed, found, holds) = pack_masked-Holds a b x y r1 r2 u v h k eu ev in
      let (p, answered, product) = answer_product packed u v holds lu lv room in
      let (c, done, result) = unmask_product-Holds a b p x y r1 r2 u v h k product eu ev in
      (c, rw (found, answered, done) refl, result)
