-- ===== src/Threshold/Batch.antt =====
-- The batch requests: `secureMultiplyBatch`, `greaterThanBatch` and the handler of `B`, over the
-- integers of their frames. What is drawn for an item stands beside it.
pub mod Products
pub mod Comparisons
mod Examples
use soci_sgx_sdk.Prelude.{
  ℕ, ◌*◌, ◌/◌, ◌%◌, Bool, true, false, not, ◌&&◌, ◌||◌, List, [], ◌∷◌, map, Result, ok, err, ◌>>=◌,
  ◌>>◌, require, ltb, leb, ◌==◌, if◌then◌else◌, length, all_of,
}
use soci_sgx_sdk.Prelude.Int.{pos}
use soci_sgx_sdk.Threshold.Scheme.{
  Scheme, ProtocolError, invalid_ciphertext, modulus_squared, paillier_encrypt,
}
use soci_sgx_sdk.Threshold.Server.{combined}
use soci_sgx_sdk.Threshold.Multiply.{packing_base, random_mask, Nonces, pack_masked, unmask_product}
use soci_sgx_sdk.Threshold.Compare.{is_valid, blinded_difference, oriented}
use soci_sgx_sdk.Threshold.Fused.{max_batch_size}

pub data BatchError : Type 0 where
  bad_size bad_item : BatchError
  protocol : ProtocolError → BatchError

abbrev pub from_protocol {ℓ} : {A : Type ℓ} → Result ProtocolError A → Result BatchError A
from_protocol (err e) = err (protocol e)
from_protocol (ok a) = ok a

-- The loop of a batch: one result for each item, in order.
unfoldable pub each :
    {A : Type 0} → (A → Result ProtocolError ℕ) → List A → Result ProtocolError (List ℕ)
each f [] = ok []
each f (a ∷ rest) = do b ← f a; bs ← each f rest; ok (b ∷ bs)

abbrev pub is_batch : ℕ → Bool
is_batch count = not (count == 0) && leb count max_batch_size

-- `BatchItem`, with the nonce of its result.
pub record BatchItem : Type 0 where
  pub ciphertext : ℕ
  pub cp_share : ℕ
  pub base : ℕ
  pub server_nonce : ℕ

-- A product, with the random bits of its masks.
pub record Factors : Type 0 where
  pub left : ℕ
  pub right : ℕ
  pub bits1 : ℕ
  pub bits2 : ℕ
  pub nonces : Nonces

-- A comparison, with its orientation, masks and nonces.
pub record Operands : Type 0 where
  pub left : ℕ
  pub right : ℕ
  pub orientation : Bool
  pub r3 : ℕ
  pub r : ℕ
  pub nonce : ℕ
  pub server_nonce : ℕ
  pub flip_nonce : ℕ

module _ (s : Scheme) where
  open s use {modulus, cp_share}

  abbrev pub is_item : Bool → BatchItem → Bool
  is_item multiplies item =
      ltb 0 item.ciphertext
      && ltb item.ciphertext (modulus_squared s)
      && (not multiplies || ltb 1 item.base)

  abbrev pub result_plaintext : Bool → BatchItem → ℕ
  result_plaintext true item =
      let plaintext = combined s item.ciphertext item.cp_share in
      plaintext / item.base * (plaintext % item.base)
  result_plaintext false item =
      if ltb (modulus / 2) (combined s item.ciphertext item.cp_share) then 0 else 1

  -- The handler of `B`: every item is checked before any is served.
  unfoldable pub answer_batch : Bool → List BatchItem → Result BatchError (List ℕ)
  answer_batch multiplies items = do
    require (is_batch (length items)) bad_size
    require (all_of (is_item multiplies) items) bad_item
    ok (map (λ i. paillier_encrypt s (pos (result_plaintext multiplies i)) i.server_nonce) items)

  abbrev pub pack_item : Factors → Result ProtocolError ℕ
  pack_item f = pack_masked s f.left f.right (random_mask f.bits1) (random_mask f.bits2) f.nonces

  abbrev pub multiply_items : List Factors → List ℕ → List BatchItem
  multiply_items (f ∷ fs) (p ∷ ps) =
      record {
        ciphertext = p;
        cp_share = cp_share p;
        base = packing_base;
        server_nonce = f.nonces.server;
      }
      ∷ multiply_items fs ps
  multiply_items _ _ = []

  unfoldable pub unmask_all : List Factors → List ℕ → Result ProtocolError (List ℕ)
  unmask_all (f ∷ fs) (p ∷ ps) = do
    c ← unmask_product s f.left f.right (random_mask f.bits1) (random_mask f.bits2) f.nonces p
    cs ← unmask_all fs ps
    ok (c ∷ cs)
  unmask_all _ _ = ok []

  unfoldable pub secure_multiply_batch : List Factors → Result BatchError (List ℕ)
  unfolding each answer_batch unmask_all
  secure_multiply_batch items = do
    require (is_batch (length items)) bad_size
    packed ← from_protocol (each pack_item items)
    products ← answer_batch true (multiply_items items packed)
    from_protocol (unmask_all items products)

  abbrev pub difference_item : Operands → Result ProtocolError ℕ
  difference_item o = do
    d ← blinded_difference s o.right o.left o.orientation o.r3 o.r o.nonce
    require (is_valid s d) invalid_ciphertext
    ok d

  abbrev pub compare_items : List Operands → List ℕ → List BatchItem
  compare_items (o ∷ os) (d ∷ ds) =
      record { ciphertext = d; cp_share = cp_share d; base = 0; server_nonce = o.server_nonce }
      ∷ compare_items os ds
  compare_items _ _ = []

  unfoldable pub orient_all : List Operands → List ℕ → Result ProtocolError (List ℕ)
  orient_all (o ∷ os) (b ∷ bs) = do
    c ← oriented s o.orientation b o.flip_nonce
    cs ← orient_all os bs
    ok (c ∷ cs)
  orient_all _ _ = ok []

  unfoldable pub greater_than_batch : List Operands → Result BatchError (List ℕ)
  unfolding each answer_batch orient_all
  greater_than_batch items = do
    require (is_batch (length items)) bad_size
    differences ← from_protocol (each difference_item items)
    bits ← answer_batch false (compare_items items differences)
    from_protocol (orient_all items bits)
