-- ===== src/Threshold/Batch/Comparisons.antt =====
-- The batch of comparisons: every result holds the order of its operands, in order.
use soci_sgx_sdk.Prelude.{
  ℕ, suc, ◌*◌, ◌/◌, ◌^◌, ◌<◌, ◌≤◌, ◌≡◌, refl, ap, subst, ◌∙◌, Bool, true, false, not, ◌&&◌, List,
  [], ◌∷◌, ok, ltb, lt→ltb, length, all_of, if◌then◌else◌,
}
use soci_sgx_sdk.Prelude.Int.{ℤ, pos, ltb_ℤ}
use soci_sgx_sdk.Prelude.Congruence.{Represents-exact}
use soci_sgx_sdk.Secure.{Below, of_bool}
use soci_sgx_sdk.Threshold.Scheme.{Scheme, is_nonce, paillier_encrypt}
use soci_sgx_sdk.Threshold.Scheme.Holds.{Holds, paillier_encrypt-Holds}
use soci_sgx_sdk.Threshold.Server.{combined}
use soci_sgx_sdk.Threshold.Compare.Sides.{blinded_number, blinded_number-lt, taken-le, side}
use soci_sgx_sdk.Threshold.Compare.Greater.{blinded_difference-Holds, oriented-Holds, valid}
use soci_sgx_sdk.Threshold.Fused.{max_batch_size}
use soci_sgx_sdk.Threshold.Batch.{
  each, BatchItem, Operands, is_item, answer_batch, difference_item, compare_items, orient_all,
  greater_than_batch,
}
use soci_sgx_sdk.Threshold.Batch.Products.{is_batch_of, answers, AllHold, none_held, one_held}

bit_of : (t : Bool) → pos (if t then 0 else 1) ≡ of_bool (not t)
bit_of true = refl
bit_of false = refl

module _ (s : Scheme) where
  open s use {modulus, modulus_pos, cp_share, csp_share, combine-lt, in_range}

  -- Two ciphertexts of numbers of 127 bits, with what is drawn for their comparison.
  pub record AreOperands (o : Operands) (x y : ℤ) : Type 0 where
    pub holds_left : Holds s o.left x
    pub holds_right : Holds s o.right y
    pub small_left : Below (2 ^ 127) x
    pub small_right : Below (2 ^ 127) y
    pub masks : o.r < o.r3
    pub mask_bits : o.r3 < 2 ^ 128
    pub nonce_ok : is_nonce s o.nonce ≡ true
    pub server_ok : is_nonce s o.server_nonce ≡ true
    pub flip_ok : is_nonce s o.flip_nonce ≡ true

  -- The operands of a batch, beside the results of their comparisons.
  pub data AllOperands : List Operands → List ℤ → Type 0 where
    none_left : AllOperands [] []
    one_more :
        {o : Operands} {x y : ℤ} {os : List Operands} {zs : List ℤ}
        → AreOperands o x y
        → AllOperands os zs
        → AllOperands (o ∷ os) (of_bool (ltb_ℤ y x) ∷ zs)

  -- The steps of a batch.
  record Compared (os : List Operands) (zs : List ℤ) : Type 0 where
    differences : List ℕ
    blinds : each (difference_item s) os ≡ ok differences
    counted : length (compare_items s os differences) ≡ length os
    all_valid : all_of (is_item s false) (compare_items s os differences) ≡ true
    results : List ℕ
    orients : orient_all s os (answers s false (compare_items s os differences)) ≡ ok results
    hold : AllHold s results zs

  is_item-false :
      (i : BatchItem)
      → 0 < i.ciphertext
      → i.ciphertext < modulus * modulus
      → is_item s false i ≡ true
  is_item-false i p l = rw (lt→ltb 0 i.ciphertext p, lt→ltb i.ciphertext (modulus * modulus) l) refl

  operands-Compared :
      {os : List Operands} {zs : List ℤ} → 2 ^ 258 ≤ modulus → AllOperands os zs → Compared os zs
  unfolding each orient_all
  operands-Compared room none_left = record {
    differences = [];
    blinds = refl;
    counted = refl;
    all_valid = refl;
    results = [];
    orients = refl;
    hold = none_held;
  }
  operands-Compared room (one_more {o} {x} {y} {os} {zs} h hs) =
      let rest = operands-Compared room hs in
      let yx = taken-le modulus o.r3 o.r y x h.small_right h.small_left h.masks h.mask_bits room in
      let xy = taken-le modulus o.r3 o.r x y h.small_left h.small_right h.masks h.mask_bits room in
      let number = blinded_number (modulus / 2) o.orientation o.r3 o.r x y in
      let (d, found, holds) =
        blinded_difference-Holds s o.left o.right x y o.orientation o.r3 o.r o.nonce h.holds_left
          h.holds_right h.nonce_ok yx xy in
      let exact : combined s d (cp_share d) ≡ number =
        Represents-exact modulus modulus_pos _ _ (combine-lt (cp_share d) (csp_share d))
          (blinded_number-lt modulus o.orientation o.r3 o.r x y h.small_left h.small_right
            h.mask_bits room)
          holds.reads in
      let bit =
        paillier_encrypt s (pos (if ltb (modulus / 2) (combined s d (cp_share d)) then 0 else 1))
          o.server_nonce in
      let bit_holds : Holds s bit (of_bool (not (ltb (modulus / 2) number))) =
        subst (Holds s bit)
          (bit_of (ltb (modulus / 2) (combined s d (cp_share d)))
            ∙ ap (λ m. of_bool (not (ltb (modulus / 2) m))) exact)
          (paillier_encrypt-Holds s _ o.server_nonce h.server_ok) in
      let (result, done, held) =
        oriented-Holds s o.orientation (not (ltb (modulus / 2) number)) bit o.flip_nonce bit_holds
          h.flip_ok in
      let range = in_range d holds.is_ciphertext in
      record {
        differences = d ∷ rest.differences;
        blinds = rw (found, valid s d (pos number) holds, rest.blinds) refl;
        counted = ap suc rest.counted;
        all_valid =
            ap (λ b. b && all_of (is_item s false) (compare_items s os rest.differences))
              (is_item-false
                (record {
                  ciphertext = d;
                  cp_share = cp_share d;
                  base = 0;
                  server_nonce = o.server_nonce;
                })
                range.0 range.1)
            ∙ rest.all_valid;
        results = result ∷ rest.results;
        orients = rw (done, rest.orients) refl;
        hold =
            one_held
              (subst (λ t. Holds s result (of_bool t))
                (side (modulus / 2) o.orientation o.r3 o.r x y h.masks yx xy) held)
              rest.hold;
      }

  -- For 1 to 32 pairs of operands below 2^127 in magnitude, masks of 128 bits with another below each,
  -- any orientations, nonces that end their loops and a modulus of more than 258 bits: the batch of
  -- comparisons succeeds, and its results decrypt to 1 where the first operand is greater and to 0
  -- otherwise, in order.
  pub greater_than_batch-compares :
      (os : List Operands) (zs : List ℤ)
      → 2 ^ 258 ≤ modulus
      → 0 < length os
      → length os ≤ max_batch_size
      → AllOperands os zs
      → (cs : List ℕ) × (greater_than_batch s os ≡ ok cs) × AllHold s cs zs
  unfolding greater_than_batch answer_batch
  greater_than_batch-compares os zs room some_item few h =
      let m = operands-Compared room h in
      (
        m.results,
        rw
            (
              is_batch_of (length os) some_item few,
              m.blinds,
              m.counted,
              is_batch_of (length os) some_item few,
              m.all_valid,
              m.orients,
            )
            refl,
        m.hold,
      )
