-- ===== src/Threshold/Frame/Examples.antt =====
-- A `P` request in bytes, and the theorems about it.
use soci_sgx_sdk.Prelude.{ℕ, ◌<◌, ◌≡◌, refl, true, List, [], ◌∷◌, ◌++◌, ok, err, arith}
use soci_sgx_sdk.Prelude.Int.{pos}
use soci_sgx_sdk.Wire.{
  read_u32, write_u32, byte_size, append_integer, append_integers, take_integer,
}
use soci_sgx_sdk.Wire.Plain.{plain_gmp, little, little_value, flip}
use soci_sgx_sdk.Predicate.{PredicateContext, prune_node}
use soci_sgx_sdk.Enclave.{partial_decrypt}
use soci_sgx_sdk.Threshold.Scheme.{Scheme, normalized, paillier_encrypt}
use soci_sgx_sdk.Threshold.Scheme.Holds.{paillier_encrypt-Holds}
use soci_sgx_sdk.Threshold.Plain.{plain_scheme}
use soci_sgx_sdk.Threshold.Frame.{
  invalid_field, append_context_string, take_context_string, predicate_request, parse_predicate,
  reveal_final_predicate,
}
use soci_sgx_sdk.Threshold.Frame.Reveal.{reveal_final_predicate-reveals}

abbrev context : PredicateContext
context = record {
  session_id = b's' ∷ [];
  operation_id = b'o' ∷ b'p' ∷ [];
  predicate_type = prune_node;
  depth = 258;
  node_id = b'n' ∷ [];
}

abbrev strings : List ℕ
strings = 0 ∷ 0 ∷ 0 ∷ 1 ∷ b's' ∷ 0 ∷ 0 ∷ 0 ∷ 2 ∷ b'o' ∷ b'p' ∷ 0 ∷ 0 ∷ 0 ∷ 1 ∷ b'n' ∷ []

abbrev request : List ℕ
request =
    b'P' ∷ 1 ∷ 0 ∷ 0 ∷ 0 ∷ 0 ∷ 1 ∷ 2 ∷ (strings ++ (0 ∷ 0 ∷ 0 ∷ 1 ∷ 9 ∷ 0 ∷ 0 ∷ 0 ∷ 2 ∷ 1 ∷ 0 ∷ []))

run_request : predicate_request plain_gmp context (9 ∷ 256 ∷ []) ≡ ok request
unfolding predicate_request append_context_string append_integers append_integer byte_size write_u32
    little flip
run_request = refl

run_empty : append_context_string (7 ∷ []) [] ≡ err invalid_field
unfolding append_context_string
run_empty = refl

run_parse : parse_predicate plain_gmp request ≡ ok (9, 256)
unfolding parse_predicate take_context_string take_integer read_u32 little_value flip
run_parse = refl

large : 1 < 1_000
large = omega arith

abbrev s : Scheme
s = plain_scheme 1_000 large

abbrev bit : ℕ
bit = paillier_encrypt s (pos 1) 1

bit_number : bit ≡ 1_001
unfolding paillier_encrypt normalized
bit_number = refl

run_bit :
    predicate_request plain_gmp context (bit ∷ s.cp_share bit ∷ [])
    ≡ ok (
        b'P'
        ∷ 1
        ∷ 0
        ∷ 0
        ∷ 0
        ∷ 0
        ∷ 1
        ∷ 2
        ∷ (strings ++ (0 ∷ 0 ∷ 0 ∷ 2 ∷ 3 ∷ 233 ∷ 0 ∷ 0 ∷ 0 ∷ 2 ∷ 3 ∷ 233 ∷ [])))
unfolding predicate_request append_context_string append_integers append_integer byte_size write_u32
    little flip paillier_encrypt normalized partial_decrypt
run_bit = refl

reveal_final_predicate-reveals_example : reveal_final_predicate plain_gmp s context bit ≡ ok true
reveal_final_predicate-reveals_example =
    reveal_final_predicate-reveals plain_gmp s context bit true _ (omega arith) refl
      (paillier_encrypt-Holds s (pos 1) 1 refl) run_bit
