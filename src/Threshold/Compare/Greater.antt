-- ===== src/Threshold/Compare/Greater.antt =====
-- The bit that `greaterThan` returns.
use soci_sgx_sdk.Prelude.{
  ℕ, ◌+◌, ◌-◌, ◌*◌, ◌/◌, ◌^◌, ◌≤◌, ◌<◌, ◌≡◌, refl, sym, ap, subst, ◌∙◌, Bool, true, false, not, [],
  ◌∷◌, ok, ltb, lt→ltb, if◌then◌else◌,
}
use soci_sgx_sdk.Prelude.Int.{ℤ, pos, negsuc, neg_part, ◌+ℤ◌, ◌-ℤ◌, ◌*ℤ◌, ltb_ℤ}
use soci_sgx_sdk.Prelude.Congruence.{Represents-exact, Represents-same}
use soci_sgx_sdk.Secure.{Below, of_bool}
use soci_sgx_sdk.Threshold.Scheme.{Scheme, is_nonce, paillier_encrypt, add}
use soci_sgx_sdk.Threshold.Scheme.Holds.{
  Holds, paillier_encrypt-Holds, add-Holds, scalar_multiply-Holds,
}
use soci_sgx_sdk.Threshold.Circuit.{xor}
use soci_sgx_sdk.Threshold.Server.{combined, answer}
use soci_sgx_sdk.Threshold.Compare.{is_valid, blinded_difference, oriented, greater_than}
use soci_sgx_sdk.Threshold.Compare.Blinding.{blinded_lem}
use soci_sgx_sdk.Threshold.Compare.Sides.{
  times_minus_one, zero-+ℤ, subtracted, blinded_number, flipped, side, blinded_number-lt, taken-le,
}

module _ (s : Scheme) where
  open s use {modulus, modulus_pos, cp_share, combine-lt, in_range, is_coprime-IsCiphertext}

  pub valid : (c : ℕ) (z : ℤ) → Holds s c z → is_valid s c ≡ true
  valid c z h =
      let (positive, small) = in_range c h.is_ciphertext in
      rw
        (
          lt→ltb 0 c positive,
          lt→ltb c (modulus * modulus) small,
          is_coprime-IsCiphertext c h.is_ciphertext,
        )
        refl

  pub blinded_difference-Holds :
      (a b : ℕ) (x y : ℤ) (orientation : Bool) (r3 r nonce : ℕ)
      → Holds s a x
      → Holds s b y
      → is_nonce s nonce ≡ true
      → r + neg_part (y -ℤ x) * r3 ≤ modulus / 2
      → r + neg_part (x -ℤ y) * r3 ≤ modulus / 2
      → (c : ℕ) × (blinded_difference s b a orientation r3 r nonce ≡ ok c)
        × Holds s c (pos (blinded_number (modulus / 2) orientation r3 r x y))
  unfolding blinded_difference
  blinded_difference-Holds a b x y false r3 r nonce h k n l m =
      let half = pos (modulus / 2) -ℤ pos r in
      let (negated, found, holds) = scalar_multiply-Holds s a x (pos (modulus - 1)) h in
      let sum = add-Holds s b negated y (x *ℤ pos (modulus - 1)) k holds in
      let difference : Holds s (add s b negated) (y -ℤ x) = record {
        is_ciphertext = sum.is_ciphertext;
        reads =
            Represents-same modulus modulus_pos _ _ (y -ℤ x) sum.reads
              (subtracted modulus y x modulus_pos);
      } in
      let (scaled, found', holds') =
        scalar_multiply-Holds s (add s b negated) (y -ℤ x) (pos r3) difference in
      let mask = paillier_encrypt s (pos r3 +ℤ half) nonce in
      (
        add s scaled mask,
        rw (found, found') refl,
        subst (Holds s (add s scaled mask)) (blinded_lem (modulus / 2) r3 r3 r (y -ℤ x) l) (
            add-Holds s scaled mask _ _ holds' (paillier_encrypt-Holds s (pos r3 +ℤ half) nonce n)),
      )
  blinded_difference-Holds a b x y true r3 r nonce h k n l m =
      let half = pos (modulus / 2) -ℤ pos r in
      let (negated, found, holds) = scalar_multiply-Holds s b y (negsuc 0) k in
      let difference : Holds s (add s a negated) (x -ℤ y) =
        subst (Holds s (add s a negated)) (times_minus_one x y)
          (add-Holds s a negated x _ h holds) in
      let (scaled, found', holds') =
        scalar_multiply-Holds s (add s a negated) (x -ℤ y) (pos r3) difference in
      let mask = paillier_encrypt s half nonce in
      (
        add s scaled mask,
        rw (found, found') refl,
        subst (Holds s (add s scaled mask))
            (ap (λ z. (x -ℤ y) *ℤ pos r3 +ℤ z) (sym (zero-+ℤ half))
              ∙ blinded_lem (modulus / 2) 0 r3 r (x -ℤ y) m)
            (add-Holds s scaled mask _ _ holds' (paillier_encrypt-Holds s half nonce n)),
      )

  -- The CSP's bit says on which side of half the modulus the number is.
  answer_side :
      (c v nonce : ℕ)
      → Holds s c (pos v)
      → v < modulus
      → is_nonce s nonce ≡ true
      → (bit : ℕ) × (answer s b'C' (c ∷ cp_share c ∷ []) nonce ≡ ok bit)
        × Holds s bit (of_bool (not (ltb (modulus / 2) v)))
  unfolding answer
  answer_side c v nonce h l n =
      let exact : combined s c (cp_share c) ≡ v =
        Represents-exact modulus modulus_pos _ _ (combine-lt (cp_share c) (s.csp_share c)) l
          h.reads in
      (
        paillier_encrypt s (pos (if ltb (modulus / 2) v then 0 else 1)) nonce,
        ap (λ m. ok (paillier_encrypt s (pos (if ltb (modulus / 2) m then 0 else 1)) nonce)) exact,
        subst (Holds s (paillier_encrypt s (pos (if ltb (modulus / 2) v then 0 else 1)) nonce))
            (bit_of (ltb (modulus / 2) v)) (paillier_encrypt-Holds s _ nonce n),
      )
    where
      bit_of : (t : Bool) → pos (if t then 0 else 1) ≡ of_bool (not t)
      bit_of true = refl
      bit_of false = refl

  pub oriented-Holds :
      (orientation t : Bool) (bit nonce : ℕ)
      → Holds s bit (of_bool t)
      → is_nonce s nonce ≡ true
      → (c : ℕ) × (oriented s orientation bit nonce ≡ ok c)
        × Holds s c (of_bool (xor t orientation))
  unfolding oriented
  oriented-Holds false t bit nonce h n = (bit, refl, subst (Holds s bit) (same t) h)
    where
      same : (t : Bool) → of_bool t ≡ of_bool (xor t false)
      same true = refl
      same false = refl
  oriented-Holds true t bit nonce h n =
      let (negated, found, holds) = scalar_multiply-Holds s bit (of_bool t) (negsuc 0) h in
      let one = paillier_encrypt s (pos 1) nonce in
      (
        add s one negated,
        rw found refl,
        subst (Holds s (add s one negated)) (flipped t)
            (add-Holds s one negated (pos 1) _ (paillier_encrypt-Holds s (pos 1) nonce n) holds),
      )

  -- For operands below 2^127 in magnitude, a mask of 128 bits and another below it, either
  -- orientation, nonces that end their loops and a modulus of more than 258 bits: the protocol of
  -- `greaterThan` succeeds and its ciphertext decrypts to 1 where the first operand is greater and
  -- to 0 otherwise.
  pub greater_than-compares :
      (a b : ℕ) (x y : ℤ) (orientation : Bool) (r3 r nonce server_nonce flip_nonce : ℕ)
      → Holds s a x
      → Holds s b y
      → Below (2 ^ 127) x
      → Below (2 ^ 127) y
      → r < r3
      → r3 < 2 ^ 128
      → is_nonce s nonce ≡ true
      → is_nonce s server_nonce ≡ true
      → is_nonce s flip_nonce ≡ true
      → 2 ^ 258 ≤ modulus
      → (c : ℕ) × (greater_than s a b orientation r3 r nonce server_nonce flip_nonce ≡ ok c)
        × Holds s c (of_bool (ltb_ℤ y x))
  unfolding greater_than
  greater_than-compares a b x y orientation r3 r nonce server_nonce flip_nonce h k hx hy l l3 n1 n2
        n3 room =
      let yx = taken-le modulus r3 r y x hy hx l l3 room in
      let xy = taken-le modulus r3 r x y hx hy l l3 room in
      let v = blinded_number (modulus / 2) orientation r3 r x y in
      let (difference, sent, holds) =
        blinded_difference-Holds a b x y orientation r3 r nonce h k n1 yx xy in
      let (bit, answered, holds_bit) =
        answer_side difference v server_nonce holds
          (blinded_number-lt modulus orientation r3 r x y hx hy l3 room) n2 in
      let (c, done, result) =
        oriented-Holds orientation (not (ltb (modulus / 2) v)) bit flip_nonce holds_bit n3 in
      (
        c,
        rw (sent, valid difference (pos v) holds, answered, done) refl,
        subst (λ t. Holds s c (of_bool t)) (side (modulus / 2) orientation r3 r x y l yx xy) result,
      )
