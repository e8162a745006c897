-- ===== src/Encrypted.antt =====
-- src/encrypted_branch_bound.cpp and include/soci/encrypted_optimizer.hpp: the branch and bound
-- over ciphertexts. It sees the costs through `SecureOps` and learns only the answers of the
-- predicate engine. `has_incumbent` and `incumbent` are one option; times are not modelled. A
-- suffix table is a function of the rows that are left.
pub mod Tables
pub mod Search
pub mod Solve
pub mod Identifiers
pub mod Calls
pub mod Returns
pub mod Facade
mod Examples
use soci_sgx_sdk.Prelude.{
  ℕ, zero, suc, ◌+◌, ◌-◌, ◌≡◌, Bool, true, false, not, ◌&&◌, ◌||◌, List, [], ◌∷◌, ◌++◌, map, Option,
  none, some, Result, ok, err, ◌>>=◌, ◌>>◌, require, ltb, leb, ◌==◌, if◌then◌else◌, length, all_of,
  any_of,
}
use soci_sgx_sdk.Prelude.Int.{ℤ, pos, pos_part, ◌-ℤ◌, ltb_ℤ}
use soci_sgx_sdk.Text.{to_string}
use soci_sgx_sdk.Fixed.{Status, invalid_argument}
use soci_sgx_sdk.Exact.{Row}
use soci_sgx_sdk.Secure.{SecureOps}
use soci_sgx_sdk.Predicate.{
  PredicateContext, PredicateType, prune_node, accept_candidate, PredicateError, Engine, Policy,
  PruneInputs, AcceptInputs, prune, accept, valid_identifier,
}
use soci_sgx_sdk.Lagrangian.{NumericDomain, LagrangianGrid, is_positive}

-- `EncryptedCostBound`, and any other value of its underlying type.
pub data EncryptedCostBound : Type 0 where
  current_suffix lagrangian other_bound : EncryptedCostBound

abbrev pub is_lagrangian : EncryptedCostBound → Bool
is_lagrangian lagrangian = true
is_lagrangian _ = false

abbrev pub is_known : EncryptedCostBound → Bool
is_known other_bound = false
is_known _ = true

-- The exceptions that a solve lets out.
pub data SolveError : Type 0 where
  optimization_error : Status → SolveError
  predicate_error : PredicateError → SolveError

abbrev pub optimized {ℓ} : {A : Type ℓ} → Result Status A → Result SolveError A
optimized (err status) = err (optimization_error status)
optimized (ok value) = ok value

abbrev pub predicated {ℓ} : {A : Type ℓ} → Result PredicateError A → Result SolveError A
predicated (err thrown) = err (predicate_error thrown)
predicated (ok value) = ok value

module _ (ops : SecureOps) where
  open ops use {Ciphertext, encrypt_constant, add, scalar_mul}

  pub record EncryptedOptimizationRequest : Type 0 where
    pub costs : List (Row Ciphertext)
    pub threshold_scaled : ℤ
    pub session_id : List ℕ

  pub record Prefix : Type 0 where
    pub total : Ciphertext
    pub c12 : Ciphertext
    pub c3 : Ciphertext
    pub linear : Ciphertext

  -- The methods of a row with their ciphertexts, 0 for the first.
  abbrev pub methods_of : Row Ciphertext → List (ℕ × Ciphertext)
  methods_of row =
      method_entry 0 row.method1 ++ (method_entry 1 row.method2 ++ method_entry 2 row.method3)
    where
      method_entry : ℕ → Option Ciphertext → List (ℕ × Ciphertext)
      method_entry j none = []
      method_entry j (some c) = (j, c) ∷ []

  -- A method of a row with its precomputed ciphertexts.
  pub record Offer : Type 0 where
    pub method : ℕ
    pub cost : Ciphertext
    pub contribution : Ciphertext
    pub scores : List Ciphertext

  -- The public tests of `solve`; `is_empty` tells a ciphertext with no bytes.
  module _ (is_empty : Ciphertext → Bool) where
    abbrev pub is_row : Row Ciphertext → Result SolveError (Unit {0})
    is_row row = do
      require (all_of (λ m. not (is_empty m.1)) (methods_of row))
          (optimization_error invalid_argument)
      require (ltb 0 (length (methods_of row))) (optimization_error invalid_argument)

    unfoldable pub check_rows : List (Row Ciphertext) → Result SolveError (Unit {0})
    check_rows [] = ok tt
    check_rows (row ∷ rows) = is_row row >> check_rows rows

    unfoldable pub check_request :
        NumericDomain
        → EncryptedCostBound
        → EncryptedOptimizationRequest
        → Result SolveError (Unit {0})
    unfolding check_rows
    check_request domain bound request = do
      require (ltb 0 (length request.costs)) (optimization_error invalid_argument)
      require (is_positive domain.scale && ltb 0 domain.max_rows)
          (optimization_error invalid_argument)
      require (leb (length request.costs) domain.max_rows) (optimization_error invalid_argument)
      require
          (not (ltb_ℤ request.threshold_scaled (pos 0))
            && ltb_ℤ request.threshold_scaled domain.scale)
          (optimization_error invalid_argument)
      require (valid_identifier request.session_id) (optimization_error invalid_argument)
      check_rows request.costs
      require (is_known bound) (optimization_error invalid_argument)
