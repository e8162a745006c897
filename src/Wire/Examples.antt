-- ===== src/Wire/Examples.antt =====
-- Runs of the codecs, with integers exported by division, and their theorems at concrete inputs.
use soci_sgx_sdk.Prelude.{ℕ, ◌≡◌, refl, List, [], ◌∷◌, ◌++◌, ok, err, drop, arith}
use soci_sgx_sdk.Wire.{
  non_canonical, read_u64, append_u64, append_integer, append_integers, encode_canonical_ciphertext,
  decode_canonical_ciphertext, byte_size, write_u32, read_u32,
}
use soci_sgx_sdk.Wire.Words.{read_u64-append_u64}
use soci_sgx_sdk.Wire.Batches.{take_integers, take_integers-append_integers}
use soci_sgx_sdk.Wire.Canonical.{encode-decode_canonical}
use soci_sgx_sdk.Wire.Plain.{plain_gmp, little, little_value, flip}

abbrev before : List ℕ
before = 7 ∷ 7 ∷ []

abbrev appended : List ℕ
appended = 7 ∷ 7 ∷ 0 ∷ 0 ∷ 0 ∷ 2 ∷ 1 ∷ 2 ∷ []

run_append : append_integer plain_gmp before 258 ≡ ok appended
unfolding append_integer byte_size write_u32 little flip
run_append = refl

abbrev ciphertext : List ℕ
ciphertext = b'S' ∷ b'O' ∷ b'C' ∷ b'I' ∷ 1 ∷ 1 ∷ 3 ∷ 0 ∷ 0 ∷ 0 ∷ 0 ∷ 2 ∷ 1 ∷ 2 ∷ []

run_decode : decode_canonical_ciphertext plain_gmp ciphertext 3 ≡ ok 258
unfolding decode_canonical_ciphertext read_u32 little_value flip
run_decode = refl

-- A leading zero byte is refused.
run_padded :
    decode_canonical_ciphertext plain_gmp
      (b'S' ∷ b'O' ∷ b'C' ∷ b'I' ∷ 1 ∷ 1 ∷ 3 ∷ 0 ∷ 0 ∷ 0 ∷ 0 ∷ 2 ∷ 0 ∷ 2 ∷ [])
      3
    ≡ err non_canonical
unfolding decode_canonical_ciphertext read_u32
run_padded = refl

read_u64-append_u64_example :
    read_u64 (drop 2 (append_u64 before 1_311_768_467_463_790_320 ++ (9 ∷ [])))
    ≡ 1_311_768_467_463_790_320
read_u64-append_u64_example =
    read_u64-append_u64 before (9 ∷ []) 1_311_768_467_463_790_320 (omega arith)

abbrev payload : List ℕ
payload = 7 ∷ 7 ∷ 0 ∷ 0 ∷ 0 ∷ 2 ∷ 1 ∷ 2 ∷ 0 ∷ 0 ∷ 0 ∷ 1 ∷ 0 ∷ []

run_appends : append_integers plain_gmp before (258 ∷ 0 ∷ []) ≡ ok payload
unfolding append_integers append_integer byte_size write_u32 little flip
run_appends = refl

take_integers-append_integers_example :
    take_integers plain_gmp 2 (payload ++ (5 ∷ [])) 2 ≡ ok (258 ∷ 0 ∷ [], 13)
take_integers-append_integers_example =
    take_integers-append_integers plain_gmp before payload (5 ∷ []) (258 ∷ 0 ∷ []) run_appends

encode-decode_canonical_example : encode_canonical_ciphertext plain_gmp 3 258 ≡ ok ciphertext
encode-decode_canonical_example =
    encode-decode_canonical plain_gmp 3 258 ciphertext
      (
        omega arith,
        (
          omega arith,
          (
            omega arith,
            (
              omega arith,
              (
                omega arith,
                (
                  omega arith,
                  (
                    omega arith,
                    (
                      omega arith,
                      (
                        omega arith,
                        (
                          omega arith,
                          (omega arith, (omega arith, (omega arith, (omega arith, tt)))),
                        ),
                      ),
                    ),
                  ),
                ),
              ),
            ),
          ),
        ),
      )
      run_decode
