-- ===== src/Encrypted/Search.antt =====
-- The depth-first search of `EncryptedBranchAndBoundSolver::solve`.
use soci_sgx_sdk.Prelude.{
  ℕ, suc, ◌+◌, Bool, true, false, List, [], ◌∷◌, ◌++◌, Option, none, some, Result, ok, ◌>>=◌,
  if◌then◌else◌, length, ltb,
}
use soci_sgx_sdk.Prelude.Int.{ℤ}
use soci_sgx_sdk.Text.{to_string}
use soci_sgx_sdk.Secure.{SecureOps}
use soci_sgx_sdk.Predicate.{
  PredicateContext, PredicateType, prune_node, accept_candidate, PredicateError, Engine, Policy,
  PruneInputs, AcceptInputs, prune, accept,
}
use soci_sgx_sdk.Encrypted.{Prefix, Offer}
use soci_sgx_sdk.Encrypted.Tables.{min_cost_suffix, max_linear_suffix, lagrangian_suffix, add_all}

abbrev pub accept_operation : ℕ → List ℕ
accept_operation n = b'a' ∷ b'c' ∷ b'c' ∷ b'e' ∷ b'p' ∷ b't' ∷ b'-' ∷ to_string n

abbrev pub prune_operation : ℕ → List ℕ
prune_operation n = b'p' ∷ b'r' ∷ b'u' ∷ b'n' ∷ b'e' ∷ b'-' ∷ to_string n

module _ (ops : SecureOps) where
  open ops use {Ciphertext, add, scalar_mul}

  -- What the search keeps: the engine's state, the incumbent and its scaled cost, and the counters.
  pub record SearchState : Type 0 where
    pub engine : Engine
    pub incumbent : Option (Prefix ops)
    pub scaled_incumbent : Option Ciphertext
    pub solution : List ℕ
    pub node_sequence : ℕ
    pub prune_sequence : ℕ
    pub accept_sequence : ℕ
    pub pruned_nodes : ℕ
    pub multi_bound_prune_nodes : ℕ
    pub objective_bound_comparisons : ℕ

  -- What does not change during a search: whether the bounds are Lagrangian, and the grid.
  pub record SearchConfig : Type 0 where
    pub session_id : List ℕ
    pub use_lagrangian : Bool
    pub q : ℤ
    pub mu : List ℤ

  abbrev pub is_some : {A : Type 0} → Option A → Bool
  is_some none = false
  is_some (some a) = true

  abbrev pub field_of : {A B : Type 0} → (A → B) → Option A → Option B
  field_of f none = none
  field_of f (some a) = some (f a)

  module _ (policy : Policy ops) (config : SearchConfig) where
    abbrev pub context : PredicateType → ℕ → ℕ → List ℕ → PredicateContext
    context type depth node operation = record {
      session_id = config.session_id;
      operation_id = operation;
      predicate_type = type;
      depth = depth;
      node_id = b'n' ∷ b'o' ∷ b'd' ∷ b'e' ∷ b'-' ∷ to_string node;
    }

    abbrev pub accept_inputs : SearchState → Prefix ops → AcceptInputs ops
    accept_inputs s prefix = record {
      linear = prefix.linear;
      c3 = prefix.c3;
      cost = prefix.total;
      c12 = prefix.c12;
      has_incumbent = is_some s.incumbent;
      incumbent_cost = field_of (λ p. p.total) s.incumbent;
      incumbent_c12 = field_of (λ p. p.c12) s.incumbent;
    }

    -- The branch of `dfs` at the last depth, after the node was counted.
    unfoldable pub submit_candidate :
        ℕ → Prefix ops → List ℕ → SearchState → Result PredicateError SearchState
    submit_candidate depth prefix current s = do
      (answer, engine) ←
          accept ops policy s.engine
            (context accept_candidate depth s.node_sequence
              (accept_operation (suc s.accept_sequence)))
            (accept_inputs s prefix)
      let asked : SearchState = record s {
        engine = engine;
        accept_sequence = suc s.accept_sequence;
      }
      ok (
          if answer
          then (record asked {
            incumbent = some prefix;
            scaled_incumbent =
                (if config.use_lagrangian
                  then some (scalar_mul prefix.total config.q)
                  else asked.scaled_incumbent);
            solution = current;
          })
          else asked)

    abbrev pub cost_lowers :
        List (List (Offer ops)) → Prefix ops → List Ciphertext → SearchState → List Ciphertext
    cost_lowers rows prefix lag_prefix s =
        if is_some s.incumbent
        then (if config.use_lagrangian
            then add_all ops lag_prefix (lagrangian_suffix ops config.mu rows)
            else add prefix.total (min_cost_suffix ops rows) ∷ [])
        else []

    abbrev pub prune_inputs :
        List (List (Offer ops)) → Prefix ops → List Ciphertext → SearchState → PruneInputs ops
    prune_inputs rows prefix lag_prefix s = record {
      linear_upper = add prefix.linear (max_linear_suffix ops rows);
      cost_lowers = cost_lowers rows prefix lag_prefix s;
      has_incumbent = is_some s.incumbent;
      incumbent_cost =
          (if config.use_lagrangian
            then s.scaled_incumbent
            else field_of (λ p. p.total) s.incumbent);
    }

    abbrev pub count_bounds : SearchState → SearchState
    count_bounds s =
        if is_some s.incumbent
        then (if config.use_lagrangian
            then (record s {
              multi_bound_prune_nodes = suc s.multi_bound_prune_nodes;
              objective_bound_comparisons = s.objective_bound_comparisons + length config.mu;
            })
            else s)
        else s

    -- The answer of the prune predicate at a node, after the node was counted.
    unfoldable pub ask_prune :
        ℕ
        → List (List (Offer ops))
        → Prefix ops
        → List Ciphertext
        → SearchState
        → Result PredicateError (Bool × SearchState)
    ask_prune depth rows prefix lag_prefix s = do
      let counted = count_bounds s
      (answer, engine) ←
          prune ops policy s.engine
            (context prune_node depth s.node_sequence (prune_operation (suc s.prune_sequence)))
            (prune_inputs rows prefix lag_prefix s)
      ok (
        answer,
        record counted {
          engine = engine;
          prune_sequence = suc s.prune_sequence;
          pruned_nodes = (if answer then suc s.pruned_nodes else s.pruned_nodes);
        },
      )

    unfoldable pub child_of : Prefix ops → Offer ops → Prefix ops
    child_of prefix offer = record {
      total = add prefix.total offer.cost;
      c12 = (if ltb offer.method 2 then add prefix.c12 offer.cost else prefix.c12);
      c3 = (if ltb offer.method 2 then prefix.c3 else add prefix.c3 offer.cost);
      linear = add prefix.linear offer.contribution;
    }

    -- The loop over the methods of a row, over the recursive call `go`.
    unfoldable pub try_offers :
        (Prefix ops → List Ciphertext → List ℕ → SearchState → Result PredicateError SearchState)
        → Prefix ops
        → List Ciphertext
        → List ℕ
        → List (Offer ops)
        → SearchState
        → Result PredicateError SearchState
    unfolding child_of
    try_offers go prefix lag_prefix current [] s = ok s
    try_offers go prefix lag_prefix current (offer ∷ offers) s =
        go (child_of prefix offer)
          (if config.use_lagrangian then add_all ops lag_prefix offer.scores else [])
          (current ++ suc offer.method ∷ []) s
        >>= try_offers go prefix lag_prefix current offers

    abbrev pub count_node : SearchState → SearchState
    count_node s = record s { node_sequence = suc s.node_sequence }

    unfoldable pub dfs :
        List (List (Offer ops))
        → ℕ
        → Prefix ops
        → List Ciphertext
        → List ℕ
        → SearchState
        → Result PredicateError SearchState
    unfolding submit_candidate ask_prune try_offers
    dfs [] depth prefix lag_prefix current s = submit_candidate depth prefix current (count_node s)
    dfs (offers ∷ rows) depth prefix lag_prefix current s =
        let go = dfs rows (suc depth) in
        ask_prune depth (offers ∷ rows) prefix lag_prefix (count_node s) >>= λ r.
        if r.0 then ok r.1 else try_offers go prefix lag_prefix current offers r.1
