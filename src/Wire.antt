-- ===== src/Wire.antt =====
-- src/protocol/threshold_wire.cpp and src/ciphertext_codec.hpp: integers and ciphertexts as bytes.
-- A byte is a number below 256. mpz_sizeinbase, mpz_export and mpz_import are GMP's, and are the
-- fields of `Gmp`, with what GMP documents of them as laws; an mpz_class here is not negative.
pub mod Words
pub mod Integers
pub mod Canonical
pub mod Batches
pub mod Plain
mod Examples
use soci_sgx_sdk.Prelude.{
  ℕ, ◌+◌, ◌-◌, ◌*◌, ◌/◌, ◌%◌, ◌<◌, ◌≡◌, Bool, true, false, not, ◌&&◌, ◌||◌, List, [], ◌∷◌, ◌++◌,
  Result, ok, err, ◌>>=◌, ◌>>◌, require, ltb, leb, ◌==◌, length, take, drop, replicate, All,
}
use soci_sgx_sdk.Text.{same_text}

-- The exceptions, by what they are thrown for.
pub data WireError : Type 0 where
  integer_too_large short_integer bad_integer export_failed invalid_header invalid_length
        non_canonical :
      WireError

-- `data()` of an integer: the big-endian bytes without leading zeros, none for zero.
pub record Gmp : Type 0 where
  pub size_in_base2 : ℕ → ℕ
  pub export_bytes : ℕ → List ℕ
  pub import_bytes : List ℕ → ℕ
  pub size_zero : size_in_base2 0 ≡ 1
  pub export_zero : export_bytes 0 ≡ []
  pub size_export : (z : ℕ) → 0 < z → length (export_bytes z) ≡ (size_in_base2 z + 7) / 8
  pub export_pos : (z : ℕ) → 0 < z → 0 < length (export_bytes z)
  pub import-export : (z : ℕ) → import_bytes (export_bytes z) ≡ z
  pub import_padded : import_bytes (0 ∷ []) ≡ 0
  pub export-import :
      (b : ℕ) (bs : List ℕ)
      → All (λ c. c < 256) (b ∷ bs)
      → 0 < b
      → export_bytes (import_bytes (b ∷ bs)) ≡ b ∷ bs
  pub import_pos :
      (b : ℕ) (bs : List ℕ) → All (λ c. c < 256) (b ∷ bs) → 0 < b → 0 < import_bytes (b ∷ bs)
  pub export_head : (z b : ℕ) (bs : List ℕ) → export_bytes z ≡ b ∷ bs → 0 < b

abbrev pub uint32_max : ℕ
uint32_max = 4_294_967_295

abbrev pub size_max : ℕ
size_max = 18_446_744_073_709_551_615

-- Reads four bytes; behind the end, which the callers exclude, a read is undefined.
unfoldable pub read_u32 : List ℕ → ℕ
read_u32 (a ∷ b ∷ c ∷ d ∷ rest) = a * 16_777_216 + b * 65_536 + c * 256 + d
read_u32 _ = 0

unfoldable pub write_u32 : ℕ → List ℕ
write_u32 value =
    value / 16_777_216 % 256 ∷ value / 65_536 % 256 ∷ value / 256 % 256 ∷ value % 256 ∷ []

unfoldable pub read_u64 : List ℕ → ℕ
unfolding read_u32
read_u64 p = read_u32 p * 4_294_967_296 + read_u32 (drop 4 p)

unfoldable pub append_u64 : List ℕ → ℕ → List ℕ
unfolding write_u32
append_u64 output value =
    output ++ (write_u32 (value / 4_294_967_296) ++ write_u32 (value % 4_294_967_296))

module _ (gmp : Gmp) where
  open gmp use {size_in_base2, export_bytes, import_bytes}

  unfoldable pub byte_size : ℕ → ℕ
  byte_size value = (size_in_base2 value + 7) / 8

  -- What `mpz_export` leaves in a buffer of zeros.
  abbrev pub exported : ℕ → ℕ → List ℕ
  exported size value = export_bytes value ++ replicate (size - length (export_bytes value)) 0

  abbrev pub is_sized : List ℕ → ℕ → Bool
  is_sized output value =
      not (byte_size value == 0)
      && leb (byte_size value) uint32_max
      && leb (length output) (size_max - 4 - byte_size value)

  unfoldable pub append_integer : List ℕ → ℕ → Result WireError (List ℕ)
  append_integer output value = do
    require (is_sized output value) integer_too_large
    ok (output ++ (write_u32 (byte_size value) ++ exported (byte_size value) value))

  -- The loop of `request`.
  unfoldable pub append_integers : List ℕ → List ℕ → Result WireError (List ℕ)
  append_integers payload [] = ok payload
  append_integers payload (value ∷ values) =
      append_integer payload value >>= λ p. append_integers p values

  -- The value and the new offset.
  unfoldable pub take_integer : List ℕ → ℕ → Result WireError (ℕ × ℕ)
  take_integer input offset = do
    require (leb (offset + 4) (length input)) short_integer
    require
        (not (read_u32 (drop offset input) == 0)
          && leb (read_u32 (drop offset input)) (length input - (offset + 4)))
        bad_integer
    ok (
      import_bytes (take (read_u32 (drop offset input)) (drop (offset + 4) input)),
      offset + 4 + read_u32 (drop offset input),
    )

  -- The first eight bytes of a canonical ciphertext.
  abbrev pub header : ℕ → List ℕ
  header mode = b'S' ∷ b'O' ∷ b'C' ∷ b'I' ∷ 1 ∷ 1 ∷ mode ∷ 0 ∷ []

  unfoldable pub encode_canonical_ciphertext : ℕ → ℕ → Result WireError (List ℕ)
  encode_canonical_ciphertext mode value = do
    require (length (export_bytes value) == byte_size value) export_failed
    ok (header mode ++ (write_u32 (byte_size value) ++ export_bytes value))

  abbrev pub first_byte : List ℕ → ℕ
  first_byte [] = 0
  first_byte (b ∷ bs) = b

  unfoldable pub decode_canonical_ciphertext : List ℕ → ℕ → Result WireError ℕ
  decode_canonical_ciphertext input mode = do
    require (leb 12 (length input) && same_text (take 8 input) (header mode)) invalid_header
    require (read_u32 (drop 8 input) == length input - 12) invalid_length
    require (not (read_u32 (drop 8 input) == 0 || first_byte (drop 12 input) == 0)) non_canonical
    ok (import_bytes (drop 12 input))
