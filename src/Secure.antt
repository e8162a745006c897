-- ===== src/Secure.antt =====
-- src/secure_ops.cpp and include/soci/secure_ops.hpp: the operations on ciphertexts that the
-- optimizers use. The pure virtual methods are the fields of `SecureOps`, with what an
-- implementation promises of them as laws about the decrypted values; the randomness of an
-- encryption and the failures of a backend are not modelled.
pub mod Gates
pub mod Compare
pub mod Batch
pub mod Plain
mod Examples
use soci_sgx_sdk.Prelude.{ℕ, ◌<◌, ◌≡◌, Bool, true, false, List, [], ◌∷◌, map, All}
use soci_sgx_sdk.Prelude.Int.{ℤ, pos, negsuc, pos_part, neg_part, ◌+ℤ◌, ◌*ℤ◌, ltb_ℤ}

-- An encrypted bit is a ciphertext that only `SecureOps` makes.
pub record EncryptedBit (C : Type 0) : Type 0 where
  pub ciphertext : C

abbrev pub encrypted_bit : {C : Type 0} → C → EncryptedBit C
encrypted_bit value = record { ciphertext = value }

abbrev pub of_bool : Bool → ℤ
of_bool true = pos 1
of_bool false = pos 0

abbrev pub Below : ℕ → ℤ → Type 0
Below limit z = (pos_part z < limit) × (neg_part z < limit)

-- The abstract methods. `dec` is what the key holder would read. Values below `limit` in magnitude
-- are exact, which is what `NumericDomain` bounds.
pub record SecureOps : Type 1 where
  pub Ciphertext : Type 0
  pub encrypt_constant : ℤ → Ciphertext
  pub add : Ciphertext → Ciphertext → Ciphertext
  pub scalar_mul : Ciphertext → ℤ → Ciphertext
  pub secure_mul : Ciphertext → Ciphertext → Ciphertext
  pub secure_mul_batch : List (Ciphertext × Ciphertext) → List Ciphertext
  pub greater_than : Ciphertext → Ciphertext → EncryptedBit Ciphertext
  pub greater_than_batch : List (Ciphertext × Ciphertext) → List (EncryptedBit Ciphertext)
  pub dec : Ciphertext → ℤ
  pub limit : ℕ
  pub limit_room : 2 < limit
  pub dec-encrypt_constant : (z : ℤ) → Below limit z → dec (encrypt_constant z) ≡ z
  pub dec-add : (a b : Ciphertext) → Below limit (dec a +ℤ dec b) → dec (add a b) ≡ dec a +ℤ dec b
  pub dec-scalar_mul :
      (a : Ciphertext) (k : ℤ) → Below limit (dec a *ℤ k) → dec (scalar_mul a k) ≡ dec a *ℤ k
  pub dec-secure_mul :
      (a b : Ciphertext)
      → Below limit (dec a)
      → Below limit (dec b)
      → Below limit (dec a *ℤ dec b)
      → dec (secure_mul a b) ≡ dec a *ℤ dec b
  pub dec-greater_than :
      (a b : Ciphertext)
      → Below limit (dec a)
      → Below limit (dec b)
      → dec (EncryptedBit.ciphertext (greater_than a b)) ≡ of_bool (ltb_ℤ (dec b) (dec a))
  pub dec-secure_mul_batch :
      (items : List (Ciphertext × Ciphertext))
      → All
          (λ i. Below limit (dec i.0) × Below limit (dec i.1) × Below limit (dec i.0 *ℤ dec i.1))
          items
      → map dec (secure_mul_batch items) ≡ map (λ i. dec i.0 *ℤ dec i.1) items
  pub dec-greater_than_batch :
      (items : List (Ciphertext × Ciphertext))
      → All (λ i. Below limit (dec i.0) × Below limit (dec i.1)) items
      → map (λ b. dec (EncryptedBit.ciphertext b)) (greater_than_batch items)
        ≡ map (λ i. of_bool (ltb_ℤ (dec i.1) (dec i.0))) items

module _ (ops : SecureOps) where
  open ops use {
    Ciphertext, encrypt_constant, add, scalar_mul, secure_mul, secure_mul_batch, greater_than,
  }

  abbrev pub Bit : Type 0
  Bit = EncryptedBit Ciphertext

  -- The default bodies of the two virtual batch methods.
  unfoldable pub default_secure_mul_batch : List (Ciphertext × Ciphertext) → List Ciphertext
  default_secure_mul_batch [] = []
  default_secure_mul_batch (item ∷ items) =
      secure_mul item.0 item.1 ∷ default_secure_mul_batch items

  unfoldable pub default_greater_than_batch : List (Ciphertext × Ciphertext) → List Bit
  default_greater_than_batch [] = []
  default_greater_than_batch (item ∷ items) =
      greater_than item.0 item.1 ∷ default_greater_than_batch items

  unfoldable pub sub : Ciphertext → Ciphertext → Ciphertext
  sub a b = add a (scalar_mul b (negsuc 0))

  unfoldable pub less_than : Ciphertext → Ciphertext → Bit
  less_than a b = greater_than b a

  unfoldable pub bit_not : Bit → Bit
  bit_not bit = encrypted_bit (sub (encrypt_constant (pos 1)) bit.ciphertext)

  unfoldable pub greater_equal : Ciphertext → Ciphertext → Bit
  greater_equal a b = bit_not (less_than a b)

  unfoldable pub less_equal : Ciphertext → Ciphertext → Bit
  less_equal a b = bit_not (greater_than a b)

  unfoldable pub bit_and : Bit → Bit → Bit
  bit_and a b = encrypted_bit (secure_mul a.ciphertext b.ciphertext)

  unfoldable pub bit_or : Bit → Bit → Bit
  bit_or a b =
      let product = secure_mul a.ciphertext b.ciphertext in
      encrypted_bit (sub (add a.ciphertext b.ciphertext) product)

  unfoldable pub equal : Ciphertext → Ciphertext → Bit
  equal a b = bit_not (bit_or (greater_than a b) (less_than a b))

  abbrev pub operands : Bit × Bit → Ciphertext × Ciphertext
  operands item = (item.0.ciphertext, item.1.ciphertext)

  unfoldable pub bit_and_batch : List (Bit × Bit) → List Bit
  bit_and_batch items = map encrypted_bit (secure_mul_batch (map operands items))

  -- The last loop of `bitOrBatch`, over the items and their products.
  abbrev pub or_products : List (Bit × Bit) → List Ciphertext → List Bit
  or_products [] products = []
  or_products (item ∷ items) [] = []
  or_products (item ∷ items) (product ∷ products) =
      encrypted_bit (sub (add item.0.ciphertext item.1.ciphertext) product)
      ∷ or_products items products

  unfoldable pub bit_or_batch : List (Bit × Bit) → List Bit
  bit_or_batch items = or_products items (secure_mul_batch (map operands items))

  unfoldable pub bit_or_from_product : Bit → Bit → Bit → Bit
  bit_or_from_product a b product =
      encrypted_bit (sub (add a.ciphertext b.ciphertext) product.ciphertext)

  unfoldable pub bit_or_exclusive : Bit → Bit → Bit
  bit_or_exclusive a b = encrypted_bit (add a.ciphertext b.ciphertext)

  unfoldable pub select : Bit → Ciphertext → Ciphertext → Ciphertext
  select condition true_value false_value =
      let delta = sub true_value false_value in
      add false_value (secure_mul condition.ciphertext delta)

  unfoldable pub min : Ciphertext → Ciphertext → Ciphertext
  min a b = select (less_than a b) a b

  unfoldable pub max : Ciphertext → Ciphertext → Ciphertext
  max a b = select (greater_than a b) a b
