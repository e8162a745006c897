-- ===== src/Secure/Plain.antt =====
-- A backend whose ciphertexts are their own values, as an instance of `SecureOps`.
use soci_sgx_sdk.Prelude.{◌^◌, ◌<◌, ◌≡◌, refl, ap, List, [], ◌∷◌, map, arith}
use soci_sgx_sdk.Prelude.Int.{ℤ, ◌+ℤ◌, ◌*ℤ◌, ltb_ℤ}
use soci_sgx_sdk.Secure.{EncryptedBit, encrypted_bit, of_bool, SecureOps}

abbrev plain_greater_than : ℤ → ℤ → EncryptedBit ℤ
plain_greater_than a b = encrypted_bit (of_bool (ltb_ℤ b a))

abbrev plain_products : List (ℤ × ℤ) → List ℤ
plain_products = map (λ i. i.0 *ℤ i.1)

abbrev plain_greater_batch : List (ℤ × ℤ) → List (EncryptedBit ℤ)
plain_greater_batch = map (λ i. plain_greater_than i.0 i.1)

pub products_read :
    (items : List (ℤ × ℤ)) → map (λ z. z) (plain_products items) ≡ plain_products items
products_read [] = refl
products_read (i ∷ items) = ap (◌∷◌ (i.0 *ℤ i.1)) (products_read items)

pub greater_read :
    (items : List (ℤ × ℤ))
    → map (λ b. EncryptedBit.ciphertext b) (plain_greater_batch items)
      ≡ map (λ i. of_bool (ltb_ℤ i.1 i.0)) items
greater_read [] = refl
greater_read (i ∷ items) = ap (◌∷◌ (of_bool (ltb_ℤ i.1 i.0))) (greater_read items)

pub room : 2 < 2 ^ 126
room = omega arith

abbrev pub plain_ops : SecureOps
plain_ops = record {
  Ciphertext = ℤ;
  encrypt_constant = λ z. z;
  add = λ a b. a +ℤ b;
  scalar_mul = λ a k. a *ℤ k;
  secure_mul = λ a b. a *ℤ b;
  secure_mul_batch = plain_products;
  greater_than = plain_greater_than;
  greater_than_batch = plain_greater_batch;
  dec = λ z. z;
  limit = 2 ^ 126;
  limit_room = room;
  dec-encrypt_constant = λ z h. refl;
  dec-add = λ a b h. refl;
  dec-scalar_mul = λ a k h. refl;
  dec-secure_mul = λ a b h k l. refl;
  dec-greater_than = λ a b h k. refl;
  dec-secure_mul_batch = λ items h. products_read items;
  dec-greater_than_batch = λ items h. greater_read items;
}
