-- ===== src/Predicate.antt =====
-- src/predicate_engine.cpp and include/soci/predicate_engine.hpp: the two semantic predicates of
-- the encrypted search, their circuits, and the engine's authorization and replay protection. The
-- authorizer, the resolver and a fused backend are the caller's, and are parameters; a ciphertext
-- with no bytes is `none`.
pub mod Key
pub mod Tree
pub mod Decide
pub mod Accept
pub mod Replay
pub mod Answer
mod Examples
use soci_sgx_sdk.Prelude.{
  ℕ, zero, suc, ◌+◌, ◌≤◌, ◌≡◌, Bool, true, false, not, ◌&&◌, ◌||◌, List, [], ◌∷◌, ◌++◌, map, Option,
  none, some, Result, ok, err, ◌>>=◌, ◌>>◌, require, ltb, leb, ◌==◌, if◌then◌else◌, length, all_of,
}
use soci_sgx_sdk.Prelude.Int.{ℤ, pos}
use soci_sgx_sdk.Text.{is_alnum, to_string, same_text}
use soci_sgx_sdk.Secure.{
  EncryptedBit, encrypted_bit, SecureOps, Bit, bit_not, bit_and, bit_or, bit_or_batch,
  bit_or_exclusive,
}

-- `enum class PredicateType`, and any other value of its underlying type.
pub data PredicateType : Type 0 where
  prune_node accept_candidate other : PredicateType

pub record PredicateContext : Type 0 where
  pub session_id : List ℕ
  pub operation_id : List ℕ
  pub predicate_type : PredicateType
  pub depth : ℕ
  pub node_id : List ℕ

-- The `PredicateError`s; the four messages about missing values are one here.
pub data PredicateError : Type 0 where
  invalid_identifier unsupported_type type_mismatch missing_values denied replayed : PredicateError

unfoldable pub valid_identifier : List ℕ → Bool
valid_identifier value =
    ltb 0 (length value)
    && leb (length value) 128
    && all_of (λ c. is_alnum c || c == b'-' || c == b'_' || c == b'.' || c == b':') value

-- What `appendField` appends.
abbrev pub field_text : List ℕ → List ℕ
field_text value = to_string (length value) ++ b':' ∷ (value ++ b'|' ∷ [])

unfoldable pub append_field : List ℕ → List ℕ → List ℕ
append_field output value = output ++ field_text value

unfoldable pub replay_key : PredicateContext → List ℕ
unfolding append_field
replay_key context = append_field (append_field [] context.session_id) context.operation_id

abbrev pub same_type : PredicateType → PredicateType → Bool
same_type prune_node prune_node = true
same_type accept_candidate accept_candidate = true
same_type other other = true
same_type _ _ = false

unfoldable pub validate : PredicateContext → Result PredicateError (Unit {0})
unfolding valid_identifier
validate context = do
  require
      (valid_identifier context.session_id
        && valid_identifier context.operation_id
        && valid_identifier context.node_id)
      invalid_identifier
  require (not (same_type context.predicate_type other)) unsupported_type

-- Whether `consumed_operations_` holds the key.
unfoldable pub is_consumed : List ℕ → List (List ℕ) → Bool
is_consumed key [] = false
is_consumed key (k ∷ ks) = same_text k key || is_consumed key ks

-- The state of an engine: `consumed_operations_`.
pub record Engine : Type 0 where
  pub consumed : List (List ℕ)

-- The result and the state after a call that returns. A call that throws leaves the state.
abbrev pub Outcome : Type 0
Outcome = Result PredicateError (Bool × Engine)

module _ (authorize : PredicateContext → Bool) where
  unfoldable pub authorize_and_consume :
      Engine → PredicateContext → PredicateType → Result PredicateError Engine
  unfolding validate is_consumed replay_key
  authorize_and_consume engine context expected_type = do
    validate context
    require (same_type context.predicate_type expected_type) type_mismatch
    require (authorize context) denied
    require (not (is_consumed (replay_key context) engine.consumed)) replayed
    ok (record { consumed = replay_key context ∷ engine.consumed })

module _ (ops : SecureOps) where
  open ops use {Ciphertext, encrypt_constant, greater_than_batch}

  pub record PruneInputs : Type 0 where
    pub linear_upper : Ciphertext
    pub cost_lowers : List Ciphertext
    pub has_incumbent : Bool
    pub incumbent_cost : Option Ciphertext

  pub record AcceptInputs : Type 0 where
    pub linear : Ciphertext
    pub c3 : Ciphertext
    pub cost : Ciphertext
    pub c12 : Ciphertext
    pub has_incumbent : Bool
    pub incumbent_cost : Option Ciphertext
    pub incumbent_c12 : Option Ciphertext

  -- The pairs of one round of the OR tree, and the last bit of a layer of odd size.
  abbrev pub pairs : List (Bit ops) → List (Bit ops × Bit ops)
  pairs [] = []
  pairs (a ∷ []) = []
  pairs (a ∷ b ∷ layer) = (a, b) ∷ pairs layer

  abbrev pub leftover : List (Bit ops) → List (Bit ops)
  leftover [] = []
  leftover (a ∷ []) = a ∷ []
  leftover (a ∷ b ∷ layer) = leftover layer

  -- `while (layer.size() > 1)`; each round halves the layer, so its size is enough fuel.
  unfoldable pub or_tree : ℕ → List (Bit ops) → List (Bit ops)
  or_tree zero layer = layer
  or_tree (suc fuel) layer =
      let rest = or_tree fuel (bit_or_batch ops (pairs layer) ++ leftover layer) in
      if ltb 1 (length layer) then rest else layer

  -- `front()`; the default stands for the vector being empty, which the laws rule out.
  abbrev pub front : Bit ops → List (Bit ops) → Bit ops
  front default [] = default
  front default (b ∷ bits) = b

  abbrev pub rest_of : List (Bit ops) → List (Bit ops)
  rest_of [] = []
  rest_of (b ∷ bits) = bits

  -- A bit at a position of the vector of compared bits.
  abbrev pub bit_at : Bit ops → List (Bit ops) → ℕ → Bit ops
  bit_at default [] i = default
  bit_at default (b ∷ bits) zero = b
  bit_at default (b ∷ bits) (suc i) = bit_at default bits i

  abbrev pub zero_bit : Bit ops
  zero_bit = encrypted_bit (encrypt_constant (pos 0))

  unfoldable pub prune_comparisons :
      Ciphertext → List Ciphertext → Option Ciphertext → List (Ciphertext × Ciphertext)
  prune_comparisons linear_upper lowers none = (encrypt_constant (pos 0), linear_upper) ∷ []
  prune_comparisons linear_upper lowers (some incumbent) =
      (encrypt_constant (pos 0), linear_upper) ∷ map (λ lower. (lower, incumbent)) lowers

  -- The circuit of `pruneNode`, with an incumbent or without.
  unfoldable pub prune_bit : Ciphertext → List Ciphertext → Option Ciphertext → Bit ops
  unfolding prune_comparisons or_tree
  prune_bit linear_upper lowers none =
      front zero_bit (greater_than_batch (prune_comparisons linear_upper lowers none))
  prune_bit linear_upper lowers (some incumbent) =
      let bits = greater_than_batch (prune_comparisons linear_upper lowers (some incumbent)) in
      let layer = rest_of bits in
      bit_or ops (front zero_bit bits) (front zero_bit (or_tree (length layer) layer))

  unfoldable pub accept_comparisons :
      AcceptInputs → Option (Ciphertext × Ciphertext) → List (Ciphertext × Ciphertext)
  accept_comparisons inputs none =
      (encrypt_constant (pos 0), inputs.linear) ∷ (inputs.c3, encrypt_constant (pos 0)) ∷ []
  accept_comparisons inputs (some (cost, c12)) =
      (encrypt_constant (pos 0), inputs.linear)
      ∷ (inputs.c3, encrypt_constant (pos 0))
      ∷ (cost, inputs.cost)
      ∷ (inputs.cost, cost)
      ∷ (c12, inputs.c12)
      ∷ []

  -- The circuit of `acceptCandidate`, against an incumbent's cost and c12, or with none.
  unfoldable pub accept_bit : AcceptInputs → Option (Ciphertext × Ciphertext) → Bit ops
  unfolding accept_comparisons
  accept_bit inputs none =
      let compared = greater_than_batch (accept_comparisons inputs none) in
      bit_and ops (bit_not ops (bit_at zero_bit compared 0)) (bit_at zero_bit compared 1)
  accept_bit inputs (some incumbent) =
      let compared = greater_than_batch (accept_comparisons inputs (some incumbent)) in
      let feasible =
        bit_and ops (bit_not ops (bit_at zero_bit compared 0)) (bit_at zero_bit compared 1) in
      let cost_neq =
        bit_or_exclusive ops (bit_at zero_bit compared 2) (bit_at zero_bit compared 3) in
      let equal_and_c12 = bit_and ops (bit_not ops cost_neq) (bit_at zero_bit compared 4) in
      let better = bit_or_exclusive ops (bit_at zero_bit compared 2) equal_and_c12 in
      bit_and ops feasible better

  abbrev pub with_lowers :
      Option Ciphertext → List Ciphertext → Result PredicateError (Option Ciphertext)
  with_lowers none lowers = err missing_values
  with_lowers (some cost) [] = err missing_values
  with_lowers (some cost) (lower ∷ lowers) = ok (some cost)

  abbrev pub with_c12 :
      Option Ciphertext
      → Option Ciphertext
      → Result PredicateError (Option (Ciphertext × Ciphertext))
  with_c12 none c12 = err missing_values
  with_c12 (some cost) none = err missing_values
  with_c12 (some cost) (some c12) = ok (some (cost, c12))

  -- The incumbent's values that a predicate needs, or the error that they are missing.
  abbrev pub prune_incumbent : PruneInputs → Result PredicateError (Option Ciphertext)
  prune_incumbent inputs =
      if inputs.has_incumbent then with_lowers inputs.incumbent_cost inputs.cost_lowers else ok none

  abbrev pub accept_incumbent :
      AcceptInputs → Result PredicateError (Option (Ciphertext × Ciphertext))
  accept_incumbent inputs =
      if inputs.has_incumbent then with_c12 inputs.incumbent_cost inputs.incumbent_c12 else ok none

  -- What the caller hands to an engine besides `ops`: `PredicateAuthorizer::authorize`,
  -- `PredicateBitResolver::revealFinalBit`, and the two methods of a `FusedPredicateBackend` where
  -- `ops` is one and its fusion is enabled.
  pub record Policy : Type 0 where
    pub authorize : PredicateContext → Bool
    pub reveal_final_bit : PredicateContext → Bit ops → Bool
    pub fused_prune_node : Option (PredicateContext → PruneInputs → Bool)
    pub fused_accept_candidate : Option (PredicateContext → AcceptInputs → Bool)

  module _ (policy : Policy) where
    open policy use {authorize, reveal_final_bit, fused_prune_node, fused_accept_candidate}

    abbrev pub decide_prune : PredicateContext → PruneInputs → Option Ciphertext → Bool
    decide_prune context inputs incumbent = elim fused_prune_node [
      | some fused ↦ fused context inputs
      | none ↦ reveal_final_bit context (prune_bit inputs.linear_upper inputs.cost_lowers incumbent)
    ]

    abbrev pub decide_accept :
        PredicateContext → AcceptInputs → Option (Ciphertext × Ciphertext) → Bool
    decide_accept context inputs incumbent = elim fused_accept_candidate [
      | some fused ↦ fused context inputs
      | none ↦ reveal_final_bit context (accept_bit inputs incumbent)
    ]

    -- Both paths check the incumbent first, then authorize, then reveal.
    unfoldable pub prune : Engine → PredicateContext → PruneInputs → Outcome
    unfolding authorize_and_consume prune_bit
    prune engine context inputs = do
      incumbent ← prune_incumbent inputs
      engine' ← authorize_and_consume authorize engine context prune_node
      ok (decide_prune context inputs incumbent, engine')

    unfoldable pub accept : Engine → PredicateContext → AcceptInputs → Outcome
    unfolding authorize_and_consume accept_bit
    accept engine context inputs = do
      incumbent ← accept_incumbent inputs
      engine' ← authorize_and_consume authorize engine context accept_candidate
      ok (decide_accept context inputs incumbent, engine')
