-- ===== src/Threshold/Batch/Products.antt =====
-- The batch of products: every result holds the product of its factors, in order.
use soci_sgx_sdk.Prelude.{
  ℕ, suc, ◌+◌, ◌*◌, ◌/◌, ◌%◌, ◌^◌, ◌<◌, ◌≤◌, ◌≡◌, refl, ap, subst, ◌∙◌, Bool, true, ◌&&◌, List, [],
  ◌∷◌, map, ok, arith, lt→ltb, length, all_of,
}
use soci_sgx_sdk.Prelude.Int.{ℤ, pos, ◌*ℤ◌}
use soci_sgx_sdk.Prelude.Congruence.{Represents-exact}
use soci_sgx_sdk.Secure.{Below}
use soci_sgx_sdk.Threshold.Scheme.{Scheme, paillier_encrypt}
use soci_sgx_sdk.Threshold.Scheme.Holds.{Holds, paillier_encrypt-Holds}
use soci_sgx_sdk.Threshold.Server.{combined}
use soci_sgx_sdk.Threshold.Multiply.{packing_base, random_mask}
use soci_sgx_sdk.Threshold.Multiply.Product.{
  AreNonces, masked_operand, unpacked, pack_masked-Holds, unmask_product-Holds,
}
use soci_sgx_sdk.Threshold.Fused.{max_batch_size}
use soci_sgx_sdk.Threshold.Batch.{
  each, is_batch, BatchItem, Factors, is_item, result_plaintext, answer_batch, pack_item,
  multiply_items, unmask_all, secure_multiply_batch,
}

pub is_batch_of : (count : ℕ) → 0 < count → count ≤ max_batch_size → is_batch count ≡ true
is_batch_of count p h = ground arith

-- What the CSP encrypts for the items of a batch.
abbrev pub answers : Scheme → Bool → List BatchItem → List ℕ
answers s multiplies =
    map (λ i. paillier_encrypt s (pos (result_plaintext s multiplies i)) i.server_nonce)

module _ (s : Scheme) where
  open s use {modulus, modulus_pos, cp_share, csp_share, combine-lt, in_range}

  pub data AllHold : List ℕ → List ℤ → Type 0 where
    none_held : AllHold [] []
    one_held :
        {c : ℕ} {z : ℤ} {cs : List ℕ} {zs : List ℤ}
        → Holds s c z
        → AllHold cs zs
        → AllHold (c ∷ cs) (z ∷ zs)

  -- Two ciphertexts of numbers of 127 bits, with what is drawn for their product.
  pub record AreFactors (f : Factors) (x y : ℤ) : Type 0 where
    pub holds_left : Holds s f.left x
    pub holds_right : Holds s f.right y
    pub small_left : Below (2 ^ 127) x
    pub small_right : Below (2 ^ 127) y
    pub bits1_ok : f.bits1 < 2 ^ 127
    pub bits2_ok : f.bits2 < 2 ^ 127
    pub nonces_ok : AreNonces s f.nonces

  -- The factors of a batch, beside their products.
  pub data AllFactors : List Factors → List ℤ → Type 0 where
    none_left : AllFactors [] []
    one_more :
        {f : Factors} {x y : ℤ} {fs : List Factors} {zs : List ℤ}
        → AreFactors f x y
        → AllFactors fs zs
        → AllFactors (f ∷ fs) (x *ℤ y ∷ zs)

  -- The steps of a batch.
  record Multiplied (fs : List Factors) (zs : List ℤ) : Type 0 where
    packed : List ℕ
    packs : each (pack_item s) fs ≡ ok packed
    counted : length (multiply_items s fs packed) ≡ length fs
    valid : all_of (is_item s true) (multiply_items s fs packed) ≡ true
    results : List ℕ
    unmasks : unmask_all s fs (answers s true (multiply_items s fs packed)) ≡ ok results
    hold : AllHold results zs

  is_item-true :
      (i : BatchItem)
      → 0 < i.ciphertext
      → i.ciphertext < modulus * modulus
      → i.base ≡ packing_base
      → is_item s true i ≡ true
  is_item-true i p l b =
      rw (lt→ltb 0 i.ciphertext p, lt→ltb i.ciphertext (modulus * modulus) l, b) refl

  factors-Multiplied :
      {fs : List Factors} {zs : List ℤ}
      → packing_base * packing_base ≤ modulus
      → AllFactors fs zs
      → Multiplied fs zs
  unfolding each unmask_all
  factors-Multiplied room none_left = record {
    packed = [];
    packs = refl;
    counted = refl;
    valid = refl;
    results = [];
    unmasks = refl;
    hold = none_held;
  }
  factors-Multiplied room (one_more {f} {x} {y} {fs} {zs} h hs) =
      let rest = factors-Multiplied room hs in
      let r1 = random_mask f.bits1 in
      let r2 = random_mask f.bits2 in
      let (u, eu, lu) = masked_operand x f.bits1 h.small_left h.bits1_ok in
      let (v, ev, lv) = masked_operand y f.bits2 h.small_right h.bits2_ok in
      let (c, found, holds) =
        pack_masked-Holds s f.nonces h.nonces_ok f.left f.right x y r1 r2 u v h.holds_left
          h.holds_right eu ev in
      let exact : combined s c (cp_share c) ≡ u * packing_base + v =
        Represents-exact modulus modulus_pos _ _ (combine-lt (cp_share c) (csp_share c))
          (omega arith) holds.reads in
      let plaintext : combined s c (cp_share c)
            / packing_base
            * (combined s c (cp_share c) % packing_base)
          ≡ u * v =
        ap (λ m. m / packing_base * (m % packing_base)) exact ∙ unpacked u v lv in
      let product =
        paillier_encrypt s
          (pos
            (combined s c (cp_share c) / packing_base * (combined s c (cp_share c) % packing_base)))
          f.nonces.server in
      let product_holds : Holds s product (pos (u * v)) =
        subst (λ m. Holds s product (pos m)) plaintext
          (paillier_encrypt-Holds s _ f.nonces.server h.nonces_ok.server_ok) in
      let (result, done, held) =
        unmask_product-Holds s f.nonces h.nonces_ok f.left f.right product x y r1 r2 u v
          h.holds_left h.holds_right product_holds eu ev in
      let range = in_range c holds.is_ciphertext in
      record {
        packed = c ∷ rest.packed;
        packs = rw (found, rest.packs) refl;
        counted = ap suc rest.counted;
        valid =
            ap (λ b. b && all_of (is_item s true) (multiply_items s fs rest.packed))
              (is_item-true
                (record {
                  ciphertext = c;
                  cp_share = cp_share c;
                  base = packing_base;
                  server_nonce = f.nonces.server;
                })
                range.0 range.1 refl)
            ∙ rest.valid;
        results = result ∷ rest.results;
        unmasks = rw (done, rest.unmasks) refl;
        hold = one_held held rest.hold;
      }

  -- For 1 to 32 pairs of operands below 2^127 in magnitude, masks of 128 bits with their top bit set,
  -- nonces that end their loops and a modulus of more than 260 bits: the batch of products succeeds,
  -- and its results decrypt to the products, in order.
  pub secure_multiply_batch-products :
      (fs : List Factors) (zs : List ℤ)
      → packing_base * packing_base ≤ modulus
      → 0 < length fs
      → length fs ≤ max_batch_size
      → AllFactors fs zs
      → (cs : List ℕ) × (secure_multiply_batch s fs ≡ ok cs) × AllHold cs zs
  unfolding secure_multiply_batch answer_batch
  secure_multiply_batch-products fs zs room some_item few h =
      let m = factors-Multiplied room h in
      (
        m.results,
        rw
            (
              is_batch_of (length fs) some_item few,
              m.packs,
              m.counted,
              is_batch_of (length fs) some_item few,
              m.valid,
              m.unmasks,
            )
            refl,
        m.hold,
      )
