-- ===== src/Threshold/Circuit/Decision.antt =====
-- What the circuits compute, beside the decisions of `PredicateEngine`.
use soci_sgx_sdk.Prelude.{
  ℕ, suc, ◌≡◌, refl, ◌∙◌, Bool, true, false, not, ◌&&◌, ◌||◌, List, [], ◌∷◌, Option, none, some,
  arith, ok, err, Result, le→ltb, ◌==◌, if◌then◌else◌, length,
}
use soci_sgx_sdk.Predicate.{PredicateType, prune_node, accept_candidate, other}
use soci_sgx_sdk.Predicate.Tree.{disjunction}
use soci_sgx_sdk.Threshold.Circuit.{
  CircuitError, BooleanCircuit, inputs_of, accept_circuit, predicate_circuit, xor, value_at,
  run_circuit,
}
use soci_sgx_sdk.Threshold.Circuit.Prune.{prune_value, inputs_of-Computes, output_value}

-- The condition that `PredicateEngine` decides, on the results of the comparisons: a pruned node
-- has a bound that fails, and an accepted candidate is feasible and better. `none` where the
-- number of comparisons does not fit.
abbrev pub decision : PredicateType → Bool → List Bool → Option Bool
decision prune_node false bits = some (value_at bits 0)
decision prune_node true (b0 ∷ b1 ∷ bs) = some (b0 || disjunction (b1 ∷ bs))
decision accept_candidate false (b0 ∷ b1 ∷ []) = some (not b0 && b1)
decision accept_candidate true (b0 ∷ b1 ∷ b2 ∷ b3 ∷ b4 ∷ []) =
    some (not b0 && b1 && xor b2 (not (xor b2 b3) && b4))
decision _ _ _ = none

abbrev pub run_built : Result CircuitError BooleanCircuit → List Bool → Option Bool
run_built (err e) bits = none
run_built (ok c) bits = run_circuit c bits

accept_all :
    (b0 b1 b2 b3 b4 : Bool)
    → run_circuit (accept_circuit true (inputs_of 5)) (b0 ∷ b1 ∷ b2 ∷ b3 ∷ b4 ∷ [])
      ≡ some (not b0 && b1 && (xor b2 (not (xor b2 b3) && b4)))
unfolding run_circuit accept_circuit inputs_of
accept_all b0 b1 b2 b3 b4 = ground arith

accept_first :
    (b0 b1 : Bool)
    → run_circuit (accept_circuit false (inputs_of 2)) (b0 ∷ b1 ∷ []) ≡ some (not b0 && b1)
unfolding run_circuit accept_circuit inputs_of
accept_first b0 b1 = ground arith

inputs_value :
    (bits : List Bool) → run_circuit (inputs_of (length bits)) bits ≡ some (value_at bits 0)
unfolding inputs_of
inputs_value bits =
    output_value (inputs_of (length bits), 0) bits bits (inputs_of-Computes bits) refl

-- A count that does not fit.
misfit :
    (test : Bool) (c : BooleanCircuit) (thrown : CircuitError) (bits : List Bool)
    → test ≡ false
    → run_built (if test then ok c else err thrown) bits ≡ none
misfit test c thrown bits e = rw e refl

fits :
    (test : Bool) (c : BooleanCircuit) (thrown : CircuitError) (bits : List Bool)
    → test ≡ false
    → run_built (if test then err thrown else ok c) bits ≡ run_circuit c bits
fits test c thrown bits e = rw e refl

three_or_more : (n : ℕ) → (suc (suc (suc n)) == 2) ≡ false
three_or_more n = ground arith

six_or_more : (n : ℕ) → (suc (suc (suc (suc (suc (suc n))))) == 5) ≡ false
six_or_more n = ground arith

-- For every predicate type, with an incumbent or without, and all results of the comparisons:
-- `predicateCircuit` builds a circuit for them exactly when their number fits, and the circuit
-- computes the decision of the predicate.
pub predicate_circuit-decision :
    (type : PredicateType) (has_incumbent : Bool) (bits : List Bool)
    → run_built (predicate_circuit type (length bits) has_incumbent) bits
      ≡ decision type has_incumbent bits
unfolding predicate_circuit
predicate_circuit-decision prune_node false bits = inputs_value bits
predicate_circuit-decision prune_node true [] = refl
predicate_circuit-decision prune_node true (b0 ∷ []) = refl
predicate_circuit-decision prune_node true (b0 ∷ b1 ∷ bs) =
    fits _ _ _ _ (le→ltb (length (b0 ∷ b1 ∷ bs)) 2 (omega arith)) ∙ prune_value b0 b1 bs
predicate_circuit-decision accept_candidate false (b0 ∷ b1 ∷ []) = accept_first b0 b1
predicate_circuit-decision accept_candidate false [] = refl
predicate_circuit-decision accept_candidate false (b0 ∷ []) = refl
predicate_circuit-decision accept_candidate false (b0 ∷ b1 ∷ b2 ∷ bs) =
    misfit _ _ _ _ (three_or_more (length bs))
predicate_circuit-decision accept_candidate true [] = refl
predicate_circuit-decision accept_candidate true (b0 ∷ []) = refl
predicate_circuit-decision accept_candidate true (b0 ∷ b1 ∷ []) = refl
predicate_circuit-decision accept_candidate true (b0 ∷ b1 ∷ b2 ∷ []) = refl
predicate_circuit-decision accept_candidate true (b0 ∷ b1 ∷ b2 ∷ b3 ∷ []) = refl
predicate_circuit-decision accept_candidate true (b0 ∷ b1 ∷ b2 ∷ b3 ∷ b4 ∷ []) =
    accept_all b0 b1 b2 b3 b4
predicate_circuit-decision accept_candidate true (b0 ∷ b1 ∷ b2 ∷ b3 ∷ b4 ∷ b5 ∷ bs) =
    misfit _ _ _ _ (six_or_more (length bs))
predicate_circuit-decision other has_incumbent bits = refl
