-- ===== src/Encrypted/Facade.antt =====
-- What `ConfidentialOptimizer::optimize` returns, with a fresh engine for each solve.
use soci_sgx_sdk.Prelude.{
  suc, ◌^◌, ◌≤◌, ◌<◌, ◌≡◌, refl, ap, Bool, true, false, List, [], ◌∷◌, map, ok, arith, length,
}
use soci_sgx_sdk.Prelude.Int.{pos}
use soci_sgx_sdk.Secure.{SecureOps}
use soci_sgx_sdk.Predicate.{PredicateContext, Policy}
use soci_sgx_sdk.Lagrangian.{NumericDomain}
use soci_sgx_sdk.Lagrangian.Grid.{LagrangianGridConfig}
use soci_sgx_sdk.Encrypted.{current_suffix, EncryptedOptimizationRequest, methods_of, check_request}
use soci_sgx_sdk.Encrypted.Tables.{offer_of}
use soci_sgx_sdk.Encrypted.Search.{SearchConfig}
use soci_sgx_sdk.Encrypted.Solve.{
  start_of, root_prefix, result_of, EncryptedBranchAndBoundResult, optimize_encrypted,
}
use soci_sgx_sdk.Encrypted.Calls.{start-Ready}
use soci_sgx_sdk.Encrypted.Returns.{tree_size, dfs-Returns, checked_session}

length-mapped : {A B : Type 0} (f : A → B) (xs : List A) → length (map f xs) ≡ length xs
length-mapped f [] = refl
length-mapped f (x ∷ xs) = ap suc (length-mapped f xs)

tree_size-mapped :
    {R A B : Type 0} (f : A → B) (g : R → List A) (rows : List R)
    → tree_size (map (λ r. map f (g r)) rows) ≡ tree_size (map g rows)
unfolding tree_size
tree_size-mapped f g [] = refl
tree_size-mapped f g (r ∷ rows) = rw (length-mapped f (g r), tree_size-mapped f g rows) refl

module _ (ops : SecureOps) (policy : Policy ops) (is_empty : ops.Ciphertext → Bool)
    (domain : NumericDomain) (grid_config : LagrangianGridConfig)
    (allows : (c : PredicateContext) → policy.authorize c ≡ true) where
  -- Where the authorizer allows every context, a request that passes the public checks, with the
  -- default cost bound and a search tree of fewer than 2 ^ 64 nodes, is answered: no predicate of
  -- the solve is refused as malformed, as replayed or for missing values, whatever the resolver
  -- reveals, and at most the nodes of the tree are visited.
  pub optimize_encrypted-answers :
      (request : EncryptedOptimizationRequest ops)
      → check_request ops is_empty domain current_suffix request ≡ ok tt
      → tree_size (map (methods_of ops) request.costs) < 2 ^ 64
      → (result : EncryptedBranchAndBoundResult ops) × (optimize_encrypted ops policy is_empty
            domain current_suffix grid_config request
          ≡ ok result)
        × (result.visited_nodes ≤ tree_size (map (methods_of ops) request.costs))
  unfolding optimize_encrypted
  optimize_encrypted-answers request c h =
      let offer = offer_of ops domain.scale request.threshold_scaled (pos 0) [] in
      let rows = map (λ row. map offer (methods_of ops row)) request.costs in
      let size = tree_size-mapped offer (methods_of ops) request.costs in
      let config : SearchConfig ops = record {
        session_id = request.session_id;
        use_lagrangian = false;
        q = pos 0;
        mu = [];
      } in
      let session = checked_session ops is_empty domain current_suffix request c in
      let (t, e, n, r) =
        dfs-Returns ops policy config allows refl session rows 0 (root_prefix ops) [] []
          (start_of ops (record { consumed = [] })) (start-Ready ops policy config)
          (omega (arith, h, size)) in
      (result_of ops t, rw (c, e) refl, omega (arith, n, size))
