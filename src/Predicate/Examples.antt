-- ===== src/Predicate/Examples.antt =====
-- Runs of a predicate engine over ciphertexts that are their own values, and its theorems at
-- concrete inputs.
use soci_sgx_sdk.Prelude.{
  ℕ, ◌≡◌, refl, ap, Bool, true, not, List, [], ◌∷◌, none, some, ok, err, arith, ◌==◌,
}
use soci_sgx_sdk.Prelude.Int.{pos, pos_part, ◌+ℤ◌, ◌*ℤ◌}
use soci_sgx_sdk.Text.{to_string}
use soci_sgx_sdk.Secure.{Bit, bit_or, sub, bit_or_batch, bit_and, bit_not, bit_or_exclusive}
use soci_sgx_sdk.Secure.Plain.{plain_ops}
use soci_sgx_sdk.Predicate.{
  PredicateType, prune_node, accept_candidate, PredicateContext, replayed, type_mismatch,
  invalid_identifier, replay_key, is_consumed, Engine, PruneInputs, AcceptInputs, Policy, prune,
  accept,
}
use soci_sgx_sdk.Predicate.Key.{replay_key_injective}
use soci_sgx_sdk.Predicate.Replay.{
  Answers, by_prune, idle, accepted, replay-IsRefused, other-IsFresh,
}
use soci_sgx_sdk.Predicate.Answer.{consuming}

abbrev reads : PredicateContext → Bit plain_ops → Bool
reads context b = not (pos_part b.ciphertext == 0)

abbrev open_policy : Policy plain_ops
open_policy = record {
  authorize = λ context. true;
  reveal_final_bit = reads;
  fused_prune_node = none;
  fused_accept_candidate = none;
}

abbrev fresh_engine : Engine
fresh_engine = record { consumed = [] }

abbrev context_of : ℕ → PredicateType → PredicateContext
context_of operation type = record {
  session_id = b's' ∷ [];
  operation_id = operation ∷ [];
  predicate_type = type;
  depth = 0;
  node_id = b'n' ∷ [];
}

abbrev prune_inputs : PruneInputs plain_ops
prune_inputs = record {
  linear_upper = pos 4;
  cost_lowers = pos 3 ∷ pos 9 ∷ pos 5 ∷ [];
  has_incumbent = true;
  incumbent_cost = some (pos 8);
}

abbrev accept_inputs : AcceptInputs plain_ops
accept_inputs = record {
  linear = pos 0;
  c3 = pos 2;
  cost = pos 8;
  c12 = pos 5;
  has_incumbent = true;
  incumbent_cost = some (pos 8);
  incumbent_c12 = some (pos 6);
}

abbrev first_prune : PredicateContext
first_prune = context_of b'1' prune_node

abbrev then_accept : PredicateContext
then_accept = context_of b'2' accept_candidate

abbrev after_prune : Engine
after_prune = consuming fresh_engine first_prune

abbrev after_accept : Engine
after_accept = consuming after_prune then_accept

-- One lower bound is above the incumbent; a tie at a smaller c12 is accepted.
run_prune :
    prune plain_ops open_policy fresh_engine first_prune prune_inputs ≡ ok (true, after_prune)
unfolding prune bit_or sub ◌+ℤ◌ bit_or_batch ◌*ℤ◌
run_prune = refl

run_accept :
    accept plain_ops open_policy after_prune then_accept accept_inputs ≡ ok (true, after_accept)
unfolding accept bit_and bit_not bit_or_exclusive sub ◌+ℤ◌ ◌*ℤ◌ to_string
run_accept = refl

-- The operation was consumed, with whatever type and inputs.
run_replay :
    accept plain_ops open_policy after_accept (context_of b'1' accept_candidate) accept_inputs
    ≡ err replayed
unfolding accept to_string
run_replay = refl

run_wrong_type :
    prune plain_ops open_policy fresh_engine then_accept prune_inputs ≡ err type_mismatch
unfolding prune
run_wrong_type = refl

run_space :
    prune plain_ops open_policy fresh_engine (context_of b' ' prune_node) prune_inputs
    ≡ err invalid_identifier
unfolding prune
run_space = refl

abbrev moved : PredicateContext
moved = record {
  session_id = b's' ∷ [];
  operation_id = b'1' ∷ [];
  predicate_type = accept_candidate;
  depth = 7;
  node_id = b'm' ∷ [];
}

replay-IsRefused_example : ¬ Answers plain_ops open_policy after_accept moved fresh_engine
replay-IsRefused_example =
    replay-IsRefused plain_ops open_policy fresh_engine after_prune after_accept first_prune moved
      (by_prune prune_inputs true run_prune)
      (accepted then_accept accept_inputs true run_accept (idle after_accept)) refl refl
      fresh_engine

abbrev first_code : List ℕ → ℕ
first_code [] = 0
first_code (c ∷ s) = c

other-IsFresh_example :
    is_consumed (replay_key then_accept) after_prune.consumed
    ≡ is_consumed (replay_key then_accept) fresh_engine.consumed
other-IsFresh_example =
    other-IsFresh plain_ops open_policy fresh_engine after_prune first_prune then_accept
      (by_prune prune_inputs true run_prune) (λ same. omega (arith, ap first_code same.1))

replay_key_injective_example :
    (first_prune.session_id ≡ moved.session_id) × (first_prune.operation_id ≡ moved.operation_id)
unfolding replay_key
replay_key_injective_example = replay_key_injective first_prune moved refl
