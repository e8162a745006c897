-- ===== src/Encrypted/Examples.antt =====
-- A solve over ciphertexts that are their own values, and the facade's theorem at it.
use soci_sgx_sdk.Prelude.{
  ℕ, ◌^◌, ◌≤◌, ◌<◌, ◌≡◌, refl, Bool, true, false, not, ◌==◌, List, [], ◌∷◌, map, none, some, ok,
  arith,
}
use soci_sgx_sdk.Prelude.Int.{ℤ, pos, pos_part, ◌+ℤ◌, ◌-ℤ◌, ◌*ℤ◌}
use soci_sgx_sdk.Secure.Plain.{plain_ops}
use soci_sgx_sdk.Predicate.{Policy, valid_identifier, prune, accept}
use soci_sgx_sdk.Text.{to_string}
use soci_sgx_sdk.Secure.{
  max, min, select, sub, less_than, bit_and, bit_not, bit_or, bit_or_batch, bit_or_exclusive,
}
use soci_sgx_sdk.Encrypted.Tables.{max_linear_suffix, min_cost_suffix, offer_of, fold_offers}
use soci_sgx_sdk.Lagrangian.{NumericDomain}
use soci_sgx_sdk.Lagrangian.Grid.{LagrangianGridConfig}
use soci_sgx_sdk.Encrypted.{EncryptedOptimizationRequest, current_suffix, check_request, methods_of}
use soci_sgx_sdk.Encrypted.Solve.{EncryptedBranchAndBoundResult, optimize_encrypted}
use soci_sgx_sdk.Encrypted.Returns.{tree_size}
use soci_sgx_sdk.Encrypted.Facade.{optimize_encrypted-answers}

abbrev open_policy : Policy plain_ops
open_policy = record {
  authorize = λ context. true;
  reveal_final_bit = λ context b. not (pos_part b.ciphertext == 0);
  fused_prune_node = none;
  fused_accept_candidate = none;
}

abbrev no_bytes : ℤ → Bool
no_bytes c = false

abbrev domain : NumericDomain
domain = record {
  scale = pos 1_000_000;
  max_rows = 8;
  max_cost_bits = 40;
  max_total_bits = 60;
  max_linear_bits = 90;
  compare_operand_bits = 100;
}

abbrev grid_config : LagrangianGridConfig
grid_config = record { denominator = pos 1; requested_size = 5; span_factor = pos 2 }

abbrev request : EncryptedOptimizationRequest plain_ops
request = record {
  costs =
      record { method1 = some (pos 5); method2 = none; method3 = some (pos 1) }
      ∷ record { method1 = none; method2 = some (pos 4); method3 = some (pos 2) }
      ∷ [];
  threshold_scaled = pos 250_000;
  session_id = b's' ∷ [];
}

request_checked : check_request plain_ops no_bytes domain current_suffix request ≡ ok tt
unfolding check_request valid_identifier
request_checked = refl

small_tree : tree_size (map (methods_of plain_ops) request.costs) < 2 ^ 64
unfolding tree_size
small_tree = omega arith

optimize_encrypted-answers_example :
    (result : EncryptedBranchAndBoundResult plain_ops) × (optimize_encrypted plain_ops open_policy
        no_bytes domain current_suffix grid_config request
      ≡ ok result)
    × (result.visited_nodes ≤ tree_size (map (methods_of plain_ops) request.costs))
optimize_encrypted-answers_example =
    optimize_encrypted-answers plain_ops open_policy no_bytes domain grid_config (λ context. refl)
      request request_checked small_tree

abbrev first_solution : List ℕ
first_solution = 3 ∷ 2 ∷ []

run_optimize :
    optimize_encrypted plain_ops open_policy no_bytes domain current_suffix grid_config request
    ≡ ok (record {
      feasible = true;
      solution = first_solution;
      values = some (record { total = pos 5; c12 = pos 4; c3 = pos 1; linear = pos 2_750_000 });
      visited_nodes = 7;
      pruned_nodes = 0;
    })
unfolding optimize_encrypted valid_identifier prune to_string ◌+ℤ◌ max_linear_suffix max select
    offer_of ◌*ℤ◌ ◌-ℤ◌ sub accept bit_and bit_not bit_or min_cost_suffix min less_than fold_offers
    bit_or_batch bit_or_exclusive
run_optimize = refl
