-- ===== src/Threshold/Fused/Inputs.antt =====
-- The inputs of the garbled circuit: from the blinded comparisons to the labels that the CSP reads.
use soci_sgx_sdk.Prelude.{
  ℕ, zero, suc, ◌+◌, ◌/◌, ◌^◌, ◌≤◌, ◌<◌, ◌≡◌, refl, sym, ap, subst, ◌∙◌, Bool, true, not, ◌&&◌,
  List, [], ◌∷◌, map, ok, arith, ltb, leb, lt→ltb, length, all_of,
}
use soci_sgx_sdk.Prelude.Int.{ℤ, pos, ltb_ℤ}
use soci_sgx_sdk.Prelude.Congruence.{Represents-exact}
use soci_sgx_sdk.Secure.{Below}
use soci_sgx_sdk.Wire.{Gmp}
use soci_sgx_sdk.Threshold.Circuit.{xor, value_at}
use soci_sgx_sdk.Threshold.Labels.{Label, labelled, IsLabel}
use soci_sgx_sdk.Threshold.Garble.{label_at, draws}
use soci_sgx_sdk.Threshold.Garble.Evaluate.{Encodes}
use soci_sgx_sdk.Threshold.Transfer.{
  ot_messages, ot_request, ot_receive, Rsa, ot_receive-ot_messages,
}
use soci_sgx_sdk.Threshold.Scheme.{Scheme, is_nonce}
use soci_sgx_sdk.Threshold.Scheme.Holds.{Holds}
use soci_sgx_sdk.Threshold.Server.{combined}
use soci_sgx_sdk.Threshold.Compare.Sides.{blinded_number, taken-le, blinded_number-lt, side}
use soci_sgx_sdk.Threshold.Compare.Greater.{blinded_difference-Holds, valid}
use soci_sgx_sdk.Threshold.Fused.{StartItem, choices_of, ot_responses, received_labels}
use soci_sgx_sdk.Threshold.Fused.Client.{Comparison, OtKey, start_items, finish_pairs}

abbrev pub greater_pair : ℤ × ℤ → Bool
greater_pair v = ltb_ℤ v.1 v.0

leb-not-ltb : (a b : ℕ) → leb a b ≡ not (ltb b a)
leb-not-ltb a b = ground arith

module _ (s : Scheme) (ot : OtKey) where
  open s use {modulus, cp_share, combine-lt, modulus_pos}

  -- A comparison of ciphertexts that hold two numbers of 127 bits, with what both sides draw.
  pub record Sound (c : Comparison) (v : ℤ × ℤ) (key : ℕ) : Type 0 where
    pub holds_a : Holds s c.a v.0
    pub holds_b : Holds s c.b v.1
    pub small_a : Below (2 ^ 127) v.0
    pub small_b : Below (2 ^ 127) v.1
    pub masks : c.r < c.r3
    pub mask_bits : c.r3 < 2 ^ 128
    pub nonce_ok : is_nonce s c.nonce ≡ true
    pub x0_ok : (0 < c.x0) × (c.x0 < ot.ot_modulus)
    pub x1_ok : (0 < c.x1) × (c.x1 < ot.ot_modulus)
    pub key_ok : key < ot.ot_modulus

  pub data AllSound : List Comparison → List (ℤ × ℤ) → List ℕ → Type 0 where
    none_left : AllSound [] [] []
    one_more :
        {c : Comparison} {v : ℤ × ℤ} {key : ℕ} {cs : List Comparison} {vs : List (ℤ × ℤ)}
        {keys : List ℕ}
        → Sound c v key
        → AllSound cs vs keys
        → AllSound (c ∷ cs) (v ∷ vs) (key ∷ keys)

  -- An item of the start request, with the bit that its choice stands for.
  pub record Offers (c : Comparison) (v : ℤ × ℤ) (key : ℕ) (i : StartItem) : Type 0 where
    pub same_x0 : i.x0 ≡ c.x0
    pub same_x1 : i.x1 ≡ c.x1
    pub bit :
        xor (leb (combined s i.ciphertext i.cp_share) (modulus / 2)) c.orientation ≡ greater_pair v
    pub is_sound : Sound c v key

  pub data AllOffer : List Comparison → List (ℤ × ℤ) → List ℕ → List StartItem → Type 0 where
    none_left : AllOffer [] [] [] []
    one_more :
        {c : Comparison} {v : ℤ × ℤ} {key : ℕ} {i : StartItem} {cs : List Comparison}
        {vs : List (ℤ × ℤ)} {keys : List ℕ} {is : List StartItem}
        → Offers c v key i
        → AllOffer cs vs keys is
        → AllOffer (c ∷ cs) (v ∷ vs) (key ∷ keys) (i ∷ is)

  pub start_items-AllOffer :
      {cs : List Comparison} {vs : List (ℤ × ℤ)} {keys : List ℕ}
      → 2 ^ 258 ≤ modulus
      → AllSound cs vs keys
      → (is : List StartItem) × (start_items s cs ≡ ok is) × AllOffer cs vs keys is
  unfolding start_items
  start_items-AllOffer room none_left = ([], refl, none_left)
  start_items-AllOffer room (one_more {c} {v} {key} h hs) =
      let yx = taken-le modulus c.r3 c.r v.1 v.0 h.small_b h.small_a h.masks h.mask_bits room in
      let xy = taken-le modulus c.r3 c.r v.0 v.1 h.small_a h.small_b h.masks h.mask_bits room in
      let number = blinded_number (modulus / 2) c.orientation c.r3 c.r v.0 v.1 in
      let (d, sent, holds) =
        blinded_difference-Holds s c.a c.b v.0 v.1 c.orientation c.r3 c.r c.nonce h.holds_a
          h.holds_b h.nonce_ok yx xy in
      let exact : combined s d (cp_share d) ≡ number =
        Represents-exact modulus modulus_pos _ _ (combine-lt (cp_share d) (s.csp_share d))
          (blinded_number-lt modulus c.orientation c.r3 c.r v.0 v.1 h.small_a h.small_b h.mask_bits
            room)
          holds.reads in
      let (is, rest, offers) = start_items-AllOffer room hs in
      (
        record { ciphertext = d; cp_share = cp_share d; x0 = c.x0; x1 = c.x1 } ∷ is,
        rw (sent, valid s d (pos number) holds, rest) refl,
        one_more
            (record {
              same_x0 = refl;
              same_x1 = refl;
              bit =
                  ap (λ m. xor (leb m (modulus / 2)) c.orientation) exact
                  ∙ (ap (λ t. xor t c.orientation) (leb-not-ltb number (modulus / 2))
                      ∙ side (modulus / 2) c.orientation c.r3 c.r v.0 v.1 h.masks yx xy);
              is_sound = h;
            })
            offers,
      )

  pub length-AllOffer :
      {cs : List Comparison} {vs : List (ℤ × ℤ)} {keys : List ℕ} {is : List StartItem}
      → AllOffer cs vs keys is
      → (length is ≡ length cs) × (length vs ≡ length cs)
  length-AllOffer none_left = (refl, refl)
  length-AllOffer (one_more h hs) = let (e, f) = length-AllOffer hs in (ap suc e, ap suc f)

  pub nonces_in_range :
      {cs : List Comparison} {vs : List (ℤ × ℤ)} {keys : List ℕ} {is : List StartItem}
      → AllOffer cs vs keys is
      → all_of
          (λ i. ltb 0 i.x0 && ltb i.x0 ot.ot_modulus && (ltb 0 i.x1 && ltb i.x1 ot.ot_modulus))
          is
        ≡ true
  nonces_in_range none_left = refl
  nonces_in_range (one_more {c} {v} {key} {i} h hs) =
      let x0 = h.is_sound.x0_ok in
      let x1 = h.is_sound.x1_ok in
      rw
        (
          h.same_x0,
          h.same_x1,
          lt→ltb 0 c.x0 x0.0,
          lt→ltb c.x0 ot.ot_modulus x0.1,
          lt→ltb 0 c.x1 x1.0,
          lt→ltb c.x1 ot.ot_modulus x1.1,
        )
        (nonces_in_range hs)

-- The labels that the CSP reads stand for the results of the comparisons.
pub Encodes-cons :
    (delta z : Label) (b : Bool) (zeros labels : List Label) (values : List Bool)
    → IsLabel z
    → Encodes delta zeros values labels
    → Encodes delta (z ∷ zeros) (b ∷ values) (labelled b delta z ∷ labels)
Encodes-cons delta z b zeros labels values hz h = record {
  zeros_sized = ap suc h.zeros_sized;
  labels_sized = ap suc h.labels_sized;
  is_label = is_label';
  reads = reads';
}
  where
    is_label' : (i : ℕ) → IsLabel (label_at (z ∷ zeros) i)
    is_label' zero = hz
    is_label' (suc i) = h.is_label i

    reads' :
        (i : ℕ)
        → label_at (labelled b delta z ∷ labels) i
          ≡ labelled (value_at (b ∷ values) i) delta (label_at (z ∷ zeros) i)
    reads' zero = refl
    reads' (suc i) = h.reads i

pub no_inputs : (delta : Label) → Encodes delta [] [] []
no_inputs delta = record {
  zeros_sized = refl;
  labels_sized = refl;
  is_label = λ i. refl;
  reads = λ i. refl;
}

module _ (s : Scheme) (ot : OtKey) (gmp : Gmp) (sha256 : List ℕ → List ℕ)
    (rsa : Rsa s.powm ot.ot_modulus ot.ot_public ot.ot_private)
    (hs : (m : List ℕ) → IsLabel (sha256 m)) (draw : ℕ → Label) (hr : (i : ℕ) → IsLabel (draw i))
    (delta : Label) (hd : IsLabel delta) (zeros : List Label) (total : ℕ)
    (drawn : (i : ℕ) → i < total → label_at zeros i ≡ draw (1 + i)) where
  received_label :
      (index : ℕ) (c : Comparison) (v : ℤ × ℤ) (key : ℕ) (i : StartItem)
      → Offers s ot c v key i
      → index < total
      → let choice = leb (combined s i.ciphertext i.cp_share) (s.modulus / 2) in
        ot_receive gmp sha256 choice key index (
          ot_messages gmp sha256 s.powm ot.ot_modulus ot.ot_private delta
            (label_at zeros index)
            c.orientation
            c.x0
            c.x1
            (ot_request s.powm ot.ot_modulus ot.ot_public choice key i.x0 i.x1)
            index)
        ≡ labelled (greater_pair v) delta (draw (1 + index))
  received_label index c v key i h l =
      let choice = leb (combined s i.ciphertext i.cp_share) (s.modulus / 2) in
      let is_label : IsLabel (label_at zeros index) =
        subst IsLabel (sym (drawn index l)) (hr (1 + index)) in
      rw (h.same_x0, h.same_x1)
        (ot_receive-ot_messages gmp sha256 s.powm ot.ot_modulus ot.ot_public ot.ot_private rsa hs
            delta (label_at zeros index) c.orientation choice key c.x0 c.x1 index hd is_label
            h.is_sound.key_ok h.is_sound.x0_ok.1 h.is_sound.x1_ok.1
          ∙ (ap (λ b. labelled b delta (label_at zeros index)) h.bit
              ∙ ap (labelled (greater_pair v) delta) (drawn index l)))

  pub received-Encodes :
      (index : ℕ) {cs : List Comparison} {vs : List (ℤ × ℤ)} {keys : List ℕ} {is : List StartItem}
      → AllOffer s ot cs vs keys is
      → index + length cs ≤ total
      → Encodes delta (draws draw (length cs) (1 + index)) (map greater_pair vs) (
          received_labels gmp sha256 index (choices_of s is) keys (
            finish_pairs s gmp sha256 ot delta zeros index cs
              (ot_responses s ot.ot_modulus ot.ot_public (choices_of s is) keys is)))
  unfolding received_labels finish_pairs ot_responses
  received-Encodes index none_left l = no_inputs delta
  received-Encodes index (one_more {c} {v} {key} {i} {cs} {vs} {keys} {is} h rest) l =
      let tail = received-Encodes (index + 1) rest (omega arith) in
      let labels = received_labels gmp sha256 (index + 1) (choices_of s is) keys (
        finish_pairs s gmp sha256 ot delta zeros (index + 1) cs
          (ot_responses s ot.ot_modulus ot.ot_public (choices_of s is) keys is)) in
      let next : 1 + (index + 1) ≡ 1 + index + 1 = omega arith in
      subst
        (λ label.
          Encodes delta (draws draw (length (c ∷ cs)) (1 + index)) (map greater_pair (v ∷ vs))
            (label ∷ labels))
        (sym (received_label index c v key i h (omega arith)))
        (Encodes-cons delta (draw (1 + index)) (greater_pair v)
          (draws draw (length cs) (1 + index + 1)) labels (map greater_pair vs) (hr (1 + index))
          (subst (λ k. Encodes delta (draws draw (length cs) k) (map greater_pair vs) labels) next
            tail))
