-- ===== src/Encrypted/Solve.antt =====
-- `EncryptedBranchAndBoundSolver::solve` and `ConfidentialOptimizer::optimize`.
use soci_sgx_sdk.Prelude.{
  ℕ, Bool, List, [], map, Option, none, Result, ok, ◌>>=◌, ◌>>◌, if◌then◌else◌,
}
use soci_sgx_sdk.Prelude.Int.{ℤ, pos}
use soci_sgx_sdk.Fixed.{Status}
use soci_sgx_sdk.Secure.{SecureOps}
use soci_sgx_sdk.Predicate.{Engine, Policy}
use soci_sgx_sdk.Lagrangian.{NumericDomain, LagrangianGrid}
use soci_sgx_sdk.Lagrangian.Grid.{LagrangianGridConfig, build_lagrangian_grid}
use soci_sgx_sdk.Encrypted.{
  EncryptedCostBound, is_lagrangian, SolveError, optimized, predicated,
  EncryptedOptimizationRequest, Prefix, methods_of, check_request,
}
use soci_sgx_sdk.Encrypted.Tables.{zero_ciphertext, offer_of}
use soci_sgx_sdk.Encrypted.Search.{SearchState, SearchConfig, dfs, is_some}

module _ (ops : SecureOps) where
  open ops use {Ciphertext}

  -- The ciphertexts of an `EncryptedBranchAndBoundResult`, where it is feasible.
  pub record EncryptedBranchAndBoundResult : Type 0 where
    pub feasible : Bool
    pub solution : List ℕ
    pub values : Option (Prefix ops)
    pub visited_nodes : ℕ
    pub pruned_nodes : ℕ

  abbrev pub root_prefix : Prefix ops
  root_prefix = record {
    total = zero_ciphertext ops;
    c12 = zero_ciphertext ops;
    c3 = zero_ciphertext ops;
    linear = zero_ciphertext ops;
  }

  abbrev pub start_of : Engine → SearchState ops
  start_of engine = record {
    engine = engine;
    incumbent = none;
    scaled_incumbent = none;
    solution = [];
    node_sequence = 0;
    prune_sequence = 0;
    accept_sequence = 0;
    pruned_nodes = 0;
    multi_bound_prune_nodes = 0;
    objective_bound_comparisons = 0;
  }

  abbrev pub result_of : SearchState ops → EncryptedBranchAndBoundResult
  result_of s = record {
    feasible = is_some ops s.incumbent;
    solution = (if is_some ops s.incumbent then s.solution else []);
    values = s.incumbent;
    visited_nodes = s.node_sequence;
    pruned_nodes = s.pruned_nodes;
  }

  abbrev pub grid_of :
      NumericDomain → EncryptedCostBound → ℤ → LagrangianGridConfig → Result Status LagrangianGrid
  grid_of domain bound threshold grid_config =
      if is_lagrangian bound
      then build_lagrangian_grid domain threshold grid_config
      else ok (record { q = pos 0; denominator = pos 0; mu = [] })

  module _ (policy : Policy ops) (is_empty : Ciphertext → Bool) (domain : NumericDomain)
      (bound : EncryptedCostBound) (grid_config : LagrangianGridConfig) where
    -- `EncryptedBranchAndBoundSolver::solve`, on an engine in any state.
    unfoldable pub solve_encrypted :
        Engine → EncryptedOptimizationRequest ops → Result SolveError EncryptedBranchAndBoundResult
    unfolding check_request dfs
    solve_encrypted engine request = do
      check_request ops is_empty domain bound request
      grid ← optimized (grid_of domain bound request.threshold_scaled grid_config)
      let config : SearchConfig ops = record {
        session_id = request.session_id;
        use_lagrangian = is_lagrangian bound;
        q = grid.q;
        mu = grid.mu;
      }
      let rows =
          map
            (λ row.
              map (offer_of ops domain.scale request.threshold_scaled grid.q grid.mu)
                (methods_of ops row))
            request.costs
      found ← predicated (
          dfs ops policy config rows 0 root_prefix
            (if is_lagrangian bound then map (λ m. zero_ciphertext ops) grid.mu else []) []
            (start_of engine))
      ok (result_of found)

    -- `ConfidentialOptimizer::optimize`: a fresh engine for each solve.
    unfoldable pub optimize_encrypted :
        EncryptedOptimizationRequest ops → Result SolveError EncryptedBranchAndBoundResult
    unfolding solve_encrypted
    optimize_encrypted request = solve_encrypted (record { consumed = [] }) request
