-- ===== src/Threshold/Examples.antt =====
-- Runs of the protocol with a small key and a constant hash, and its theorems at concrete inputs.
use soci_sgx_sdk.Prelude.{
  ℕ, ◌+◌, ◌≤◌, ◌≡◌, refl, Bool, true, false, List, [], ◌∷◌, ◌++◌, none, some, ok, err, arith,
  length, replicate,
}
use soci_sgx_sdk.Prelude.Int.{pos, negsuc, ◌*ℤ◌}
use soci_sgx_sdk.Enclave.{partial_decrypt, combine_decrypt}
use soci_sgx_sdk.Wire.Plain.{plain_gmp, little, flip}
use soci_sgx_sdk.Predicate.{PredicateContext, accept_candidate, is_consumed}
use soci_sgx_sdk.Threshold.Circuit.{BooleanGate, LinearWire, predicate_circuit, run_wires}
use soci_sgx_sdk.Threshold.Labels.{Label, labelled, low_bit}
use soci_sgx_sdk.Threshold.Garble.{Table, garble_wires, evaluate_wires}
use soci_sgx_sdk.Threshold.Garble.Evaluate.{Encodes, evaluate-garble}
use soci_sgx_sdk.Threshold.Transfer.{ot_request}
use soci_sgx_sdk.Threshold.Scheme.{normalized, paillier_encrypt}
use soci_sgx_sdk.Threshold.Scheme.Holds.{Holds}
use soci_sgx_sdk.Threshold.Multiply.{Nonces, random_mask, secure_multiply}
use soci_sgx_sdk.Threshold.Multiply.Product.{secure_multiply-product}
use soci_sgx_sdk.Threshold.Compare.{greater_than}
use soci_sgx_sdk.Threshold.Compare.Greater.{greater_than-compares}
use soci_sgx_sdk.Threshold.Fused.{
  Csp, StartItem, StartRequest, FinishRequest, invalid_start, invalid_finish, check_start,
  ot_responses, handle_start, handle_finish, fused_replay,
}
use soci_sgx_sdk.Threshold.Fused.Client.{Comparison}
use soci_sgx_sdk.Threshold.Fused.Inputs.{Encodes-cons, no_inputs}
use soci_sgx_sdk.Threshold.Fused.Session.{
  start, finish, next, answered, answered-le, interrupted-finish,
}
use soci_sgx_sdk.Threshold.Sample.{
  n, s, five, minus_three, five-Holds, minus_three-Holds, hash, draw, hash-IsLabel, draw-IsLabel,
  modulus_3072,
}
use soci_sgx_sdk.Threshold.Signed.{decrypt_for_testing, decrypt_for_testing-reads}

abbrev nonces : Nonces
nonces = record { first = 1; second = n + 1; correction = 1; server = 1 }

secure_multiply-product_example :
    (c : ℕ) × (secure_multiply s five minus_three (random_mask 7) (random_mask 9) nonces ≡ ok c)
    × Holds s c (negsuc 14)
unfolding ◌*ℤ◌
secure_multiply-product_example =
    secure_multiply-product s nonces
      (record { first_ok = refl; second_ok = refl; correction_ok = refl; server_ok = refl }) five
      minus_three (pos 5) (negsuc 2) 7 9 five-Holds minus_three-Holds (omega arith, omega arith)
      (omega arith, omega arith) (omega arith) (omega arith) (omega arith)

greater_than-compares_example :
    (c : ℕ) × (greater_than s five minus_three true 9 4 1 1 1 ≡ ok c) × Holds s c (pos 1)
greater_than-compares_example =
    greater_than-compares s five minus_three (pos 5) (negsuc 2) true 9 4 1 1 1 five-Holds
      minus_three-Holds (omega arith, omega arith) (omega arith, omega arith) (omega arith)
      (omega arith) refl refl refl (omega arith)

abbrev context : PredicateContext
context = record {
  session_id = b's' ∷ [];
  operation_id = b'o' ∷ [];
  predicate_type = accept_candidate;
  depth = 2;
  node_id = b'n' ∷ [];
}

abbrev comparison : ℕ → ℕ → Bool → Comparison
comparison a b orientation = record {
  a = a;
  b = b;
  orientation = orientation;
  r3 = 9;
  r = 4;
  nonce = 1;
  x0 = 10;
  x1 = 20;
}

abbrev old_replays : List (List ℕ)
old_replays = (b'x' ∷ []) ∷ []

-- One AND gate over two inputs, of which the second is inverted.
abbrev gates : List BooleanGate
gates = record { left = 0; right = 2; output = 3 } ∷ []

abbrev wires : List LinearWire
wires = record { terms = 1 ∷ []; constant = true } ∷ record { terms = []; constant = false } ∷ []

abbrev delta : Label
delta = replicate 32 1

delta_odd : low_bit delta ≡ true
unfolding low_bit
delta_odd = refl

abbrev inputs : List Label
inputs = draw 1 ∷ draw 2 ∷ []

input_labels :
    Encodes delta inputs
      (true ∷ false ∷ [])
      (labelled true delta (draw 1) ∷ labelled false delta (draw 2) ∷ [])
input_labels =
    Encodes-cons delta (draw 1) true _ _ _ refl
      (Encodes-cons delta (draw 2) false [] [] [] refl (no_inputs delta))

run_and : run_wires wires gates (true ∷ false ∷ []) ≡ some (true ∷ false ∷ true ∷ true ∷ [], [])
unfolding run_wires
run_and = refl

evaluate-garble_example :
    (more : List Label) × (tables : List Table) × (labels : List Label) × (garble_wires hash draw
        delta wires gates 0 inputs
      ≡ some (inputs ++ more, tables))
    × (evaluate_wires hash wires gates tables 0
          (labelled true delta (draw 1) ∷ labelled false delta (draw 2) ∷ [])
        ≡ some labels)
    × (length tables + 0 ≡ 1)
    × Encodes delta (inputs ++ more) (true ∷ false ∷ true ∷ true ∷ []) labels
evaluate-garble_example =
    evaluate-garble hash hash-IsLabel draw draw-IsLabel delta refl delta_odd wires gates 0 inputs
      (labelled true delta (draw 1) ∷ labelled false delta (draw 2) ∷ []) (true ∷ false ∷ [])
      (true ∷ false ∷ true ∷ true ∷ []) [] input_labels run_and

abbrev idle : Csp
idle = record { pending_fused = none; fused_replays = [] }

-- A start whose ciphertexts are of 5, both with the CP's share.
abbrev item : StartItem
item = record { ciphertext = five; cp_share = s.cp_share five; x0 = 10; x1 = 20 }

abbrev request : StartRequest
request = record {
  context = context;
  has_incumbent = false;
  rsa_n = modulus_3072;
  rsa_e = 65_537;
  items = item ∷ item ∷ [];
}

abbrev no_labels : FinishRequest
no_labels = record { context = context; pairs = []; tables = []; out0 = []; out1 = [] }

-- The request is answered: its run.
run_start : (handle_start s plain_gmp idle request (77 ∷ 78 ∷ [])).1 ≡ ok (97 ∷ 98 ∷ [])
unfolding handle_start check_start is_consumed fused_replay ot_responses ot_request
    predicate_circuit little flip combine_decrypt partial_decrypt paillier_encrypt normalized
run_start = refl

answered-le_example :
    answered s plain_gmp hash
      (fused_replay context)
      idle
      (start request (77 ∷ 78 ∷ []) ∷ finish no_labels ∷ start request (79 ∷ 80 ∷ []) ∷ [])
    ≤ 1
answered-le_example =
    answered-le s plain_gmp hash (fused_replay context) idle
      (start request (77 ∷ 78 ∷ []) ∷ finish no_labels ∷ start request (79 ∷ 80 ∷ []) ∷ [])

interrupted-finish_example :
    let csp1 = next s plain_gmp hash idle (start request (77 ∷ 78 ∷ [])) in
    let csp2 = next s plain_gmp hash csp1 (start request (79 ∷ 80 ∷ [])) in
    ((handle_start s plain_gmp csp1 request (79 ∷ 80 ∷ [])).1 ≡ err invalid_start)
    × ((handle_finish plain_gmp hash csp2 no_labels).1 ≡ err invalid_finish)
interrupted-finish_example =
    interrupted-finish s plain_gmp hash idle request request (77 ∷ 78 ∷ []) (79 ∷ 80 ∷ []) no_labels
      (97 ∷ 98 ∷ []) run_start

decrypt_for_testing-reads_example : decrypt_for_testing s minus_three ≡ ok (negsuc 2)
decrypt_for_testing-reads_example =
    decrypt_for_testing-reads s minus_three (negsuc 2) minus_three-Holds (omega arith)
