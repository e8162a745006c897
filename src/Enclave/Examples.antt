-- ===== src/Enclave/Examples.antt =====
-- Runs with the key 15 = 3 * 5, whose exponent 4 is shared out as 1 and 3, and the theorems of the
-- decryption at concrete inputs.
use soci_sgx_sdk.Prelude.{ℕ, ◌+◌, ◌*◌, ◌%◌, ◌^◌, ◌<◌, ◌≡◌, refl, some, none, arith}
use soci_sgx_sdk.Enclave.{powm, partial_decrypt, combine_decrypt}
use soci_sgx_sdk.Enclave.Key.{Coprime, decrypt, decrypt-encrypted}
use soci_sgx_sdk.Enclave.Plain.{plain_key}

-- A ciphertext of 7 with the nonce 2.
abbrev seven : ℕ
seven = (7 * 15 + 1) * 2 ^ 15 % 225

run_shares : combine_decrypt 15 4 (partial_decrypt 15 1 seven) (partial_decrypt 15 3 seven) ≡ some 7
unfolding combine_decrypt partial_decrypt
run_shares = refl

-- One share alone is no decryption.
run_one_share : combine_decrypt 15 4 (partial_decrypt 15 1 seven) 1 ≡ none
unfolding combine_decrypt partial_decrypt
run_one_share = refl

large : 1 < 15
large = omega arith

decrypt-encrypted_example :
    Coprime (plain_key 15 large) ((7 * 15 + 1) * powm 16 15 225 % 225)
    × (decrypt (plain_key 15 large) ((7 * 15 + 1) * powm 16 15 225 % 225) ≡ 7)
decrypt-encrypted_example = decrypt-encrypted (plain_key 15 large) 7 16 (omega arith) refl
