-- ===== src/Secure/Batch.antt =====
-- The batch methods: the default bodies, the promises of the virtual methods, and the batched
-- gates beside the single gates.
use soci_sgx_sdk.Prelude.{◌≡◌, refl, ◌∙◌, Bool, ◌&&◌, ◌||◌, List, [], ◌∷◌, map, All}
use soci_sgx_sdk.Prelude.Int.{◌*ℤ◌, ltb_ℤ}
use soci_sgx_sdk.Secure.{
  EncryptedBit, encrypted_bit, of_bool, Below, SecureOps, Bit, default_greater_than_batch, operands,
  or_products, bit_and_batch, bit_or_batch,
}
use soci_sgx_sdk.Secure.Gates.{Holds, or_value, Exact-bit, bit-Below, of_bool-and}

module _ (ops : SecureOps) where
  open ops use {
    Ciphertext, secure_mul, secure_mul_batch, greater_than, dec, limit, dec-secure_mul,
    dec-greater_than, dec-secure_mul_batch,
  }

  pub dec-default_greater_than_batch :
      (items : List (Ciphertext × Ciphertext))
      → All (λ i. Below limit (dec i.0) × Below limit (dec i.1)) items
      → map (λ b. dec (EncryptedBit.ciphertext b)) (default_greater_than_batch ops items)
        ≡ map (λ i. of_bool (ltb_ℤ (dec i.1) (dec i.0))) items
  unfolding default_greater_than_batch
  dec-default_greater_than_batch [] h = refl
  dec-default_greater_than_batch (i ∷ items) (h, hs) =
      rw (dec-greater_than i.0 i.1 h.0 h.1, dec-default_greater_than_batch items hs)

  -- The bits of a list hold the Booleans of a list.
  abbrev pub HoldAll : List (Bit ops) → List Bool → Type 0
  HoldAll [] [] = Unit {0}
  HoldAll [] (x ∷ xs) = ⊥
  HoldAll (b ∷ bs) [] = ⊥
  HoldAll (b ∷ bs) (x ∷ xs) = Holds ops b x × HoldAll bs xs

  abbrev pub HoldPairs : List (Bit ops × Bit ops) → List (Bool × Bool) → Type 0
  HoldPairs [] [] = Unit {0}
  HoldPairs [] (x ∷ xs) = ⊥
  HoldPairs (b ∷ bs) [] = ⊥
  HoldPairs (b ∷ bs) (x ∷ xs) = (Holds ops b.0 x.0 × Holds ops b.1 x.1) × HoldPairs bs xs

  operands-Below :
      (items : List (Bit ops × Bit ops)) (xs : List (Bool × Bool))
      → HoldPairs items xs
      → All
          (λ i. Below limit (dec i.0) × Below limit (dec i.1) × Below limit (dec i.0 *ℤ dec i.1))
          (map (operands ops) items)
  operands-Below [] [] h = tt
  operands-Below [] (x ∷ xs) h = absurd h
  operands-Below (b ∷ bs) [] h = absurd h
  operands-Below (b ∷ bs) (x ∷ xs) ((hx, hy), hs) = (
    (
      Exact-bit ops b.0 x.0 hx,
      Exact-bit ops b.1 x.1 hy,
      rw (hx, hy, of_bool-and x.0 x.1) (bit-Below ops (x.0 && x.1)),
    ),
    operands-Below bs xs hs,
  )

  products :
      (items : List (Bit ops × Bit ops)) (xs : List (Bool × Bool))
      → HoldPairs items xs
      → map (λ i. dec i.0 *ℤ dec i.1) (map (operands ops) items)
        ≡ map (λ x. of_bool (x.0 && x.1)) xs
  products [] [] h = refl
  products [] (x ∷ xs) h = absurd h
  products (b ∷ bs) [] h = absurd h
  products (b ∷ bs) (x ∷ xs) ((hx, hy), hs) = rw (hx, hy, of_bool-and x.0 x.1, products bs xs hs)

  -- What the batch of products decrypts to.
  multiplied :
      (items : List (Bit ops × Bit ops)) (xs : List (Bool × Bool))
      → HoldPairs items xs
      → map dec (secure_mul_batch (map (operands ops) items)) ≡ map (λ x. of_bool (x.0 && x.1)) xs
  multiplied items xs h =
      dec-secure_mul_batch (map (operands ops) items) (operands-Below items xs h)
      ∙ products items xs h

  and_products :
      (cs : List Ciphertext) (xs : List (Bool × Bool))
      → map dec cs ≡ map (λ x. of_bool (x.0 && x.1)) xs
      → HoldAll (map encrypted_bit cs) (map (λ x. x.0 && x.1) xs)
  and_products [] [] e = tt
  and_products [] (x ∷ xs) e = cc
  and_products (c ∷ cs) [] e = cc
  and_products (c ∷ cs) (x ∷ xs) e = (cc, and_products cs xs (cc))

  or_products-HoldAll :
      (items : List (Bit ops × Bit ops)) (cs : List Ciphertext) (xs : List (Bool × Bool))
      → HoldPairs items xs
      → map dec cs ≡ map (λ x. of_bool (x.0 && x.1)) xs
      → HoldAll (or_products ops items cs) (map (λ x. x.0 || x.1) xs)
  or_products-HoldAll [] cs [] h e = tt
  or_products-HoldAll [] cs (x ∷ xs) h e = absurd h
  or_products-HoldAll (b ∷ bs) cs [] h e = absurd h
  or_products-HoldAll (b ∷ bs) [] (x ∷ xs) h e = cc
  or_products-HoldAll (b ∷ bs) (c ∷ cs) (x ∷ xs) ((hx, hy), hs) e =
      (or_value ops b.0 b.1 c x.0 x.1 hx hy (cc), or_products-HoldAll bs cs xs hs (cc))

  -- On pairs of ciphertexts that hold bits, the batched gates give, pair by pair and in order, a
  -- ciphertext that holds the conjunction, and one that holds the disjunction.
  pub batches-HoldAll :
      (items : List (Bit ops × Bit ops)) (xs : List (Bool × Bool))
      → HoldPairs items xs
      → HoldAll (bit_and_batch ops items) (map (λ x. x.0 && x.1) xs)
        × HoldAll (bit_or_batch ops items) (map (λ x. x.0 || x.1) xs)
  unfolding bit_and_batch bit_or_batch
  batches-HoldAll items xs h = (
    and_products _ xs (multiplied items xs h),
    or_products-HoldAll items _ xs h (multiplied items xs h),
  )
