-- ===== src/Encrypted/Returns.antt =====
-- What the encrypted search returns: replays, malformed predicates and missing values in the
-- calls of one solve.
use soci_sgx_sdk.Prelude.{
  ℕ, suc, ◌+◌, ◌*◌, ◌^◌, ◌≤◌, ◌<◌, ◌≡◌, refl, sym, ap, ◌∙◌, Bool, true, false, not, ◌&&◌, ltb, leb,
  require_inv, List, [], ◌∷◌, ◌++◌, Result, ok, arith, if◌then◌else◌, length,
}
use soci_sgx_sdk.Secure.{SecureOps}
use soci_sgx_sdk.Predicate.{
  PredicateContext, prune_node, accept_candidate, PredicateError, Engine, Policy, decide_prune,
  decide_accept, is_consumed, valid_identifier,
}
use soci_sgx_sdk.Predicate.Replay.{by_prune, by_accept}
use soci_sgx_sdk.Predicate.Answer.{consuming}
use soci_sgx_sdk.Prelude.Int.{pos, ltb_ℤ}
use soci_sgx_sdk.Lagrangian.{NumericDomain, is_positive}
use soci_sgx_sdk.Encrypted.{
  Prefix, Offer, EncryptedCostBound, EncryptedOptimizationRequest, check_request,
}
use soci_sgx_sdk.Encrypted.Tables.{add_all}
use soci_sgx_sdk.Encrypted.Search.{
  SearchState, SearchConfig, context, prune_operation, accept_operation, prune_inputs,
  accept_inputs, submit_candidate, ask_prune, try_offers, child_of, count_node, dfs,
}
use soci_sgx_sdk.Encrypted.Identifiers.{
  prune_context_valid, accept_context_valid, prune_operation_inj, accept_operation_inj,
  operations_differ,
}
use soci_sgx_sdk.Encrypted.Calls.{
  Unused, Ready, key_same, prune_returns, accept_returns, prune_incumbent_known,
  accept_incumbent_known, still-Unused, Asked, asked_state, ask_prune_def, Returns, submitted_state,
  submit_def, weaken, after_prune,
}

-- The nodes that the search below some rows can visit.
unfoldable pub tree_size : {A : Type 0} → List (List A) → ℕ
tree_size [] = 1
tree_size (offers ∷ rows) = suc (length offers * tree_size rows)

module _ (ops : SecureOps) (policy : Policy ops) (config : SearchConfig ops)
    (allows : (c : PredicateContext) → policy.authorize c ≡ true)
    (plain_bound : config.use_lagrangian ≡ false)
    (valid_session : valid_identifier config.session_id ≡ true) where
  ask_prune-Asked :
      (depth : ℕ) (rows : List (List (Offer ops))) (prefix : Prefix ops) (lag : List ops.Ciphertext)
      (s : SearchState ops)
      → Ready ops policy config s
      → suc s.node_sequence < 2 ^ 64
      → Asked ops policy config
          (ask_prune ops policy config depth rows prefix lag (count_node ops policy config s))
          (suc s.node_sequence)
  ask_prune-Asked depth rows prefix lag s r h =
      let counted = count_node ops policy config s in
      let c =
        context ops policy config prune_node depth (suc s.node_sequence)
          (prune_operation (suc s.prune_sequence)) in
      let inputs = prune_inputs ops policy config rows prefix lag counted in
      let (incumbent, p) =
        prune_incumbent_known ops policy config plain_bound rows prefix lag counted in
      let answer = decide_prune ops policy c inputs incumbent in
      let e = prune_returns ops policy config s.engine c inputs incumbent p (record {
        is_valid =
            prune_context_valid ops policy config depth (suc s.node_sequence) (suc s.prune_sequence)
              valid_session h (omega (arith, r.prunes_counted));
        is_typed = refl;
        is_allowed = allows c;
        is_fresh =
            ap (λ k. is_consumed k s.engine.consumed)
              (key_same ops policy config prune_node depth (suc s.node_sequence)
                (prune_operation (suc s.prune_sequence)))
            ∙ r.prunes_unused (suc s.prune_sequence) (omega arith);
      }) in
      (
        answer,
        asked_state ops policy config counted (consuming s.engine c) answer,
        ask_prune_def ops policy config plain_bound depth rows prefix lag counted answer
            (consuming s.engine c) e,
        refl,
        record {
          prunes_counted = omega (arith, r.prunes_counted);
          accepts_counted = omega (arith, r.accepts_counted);
          prunes_unused = λ k l.
              still-Unused ops policy config s.engine (consuming s.engine c) prune_node depth
                (suc s.node_sequence) (prune_operation (suc s.prune_sequence)) (prune_operation k)
                (by_prune inputs answer e)
                (λ same. omega (arith, l, prune_operation_inj k (suc s.prune_sequence) same))
                (r.prunes_unused k (omega arith));
          accepts_unused = λ k l.
              still-Unused ops policy config s.engine (consuming s.engine c) prune_node depth
                (suc s.node_sequence) (prune_operation (suc s.prune_sequence)) (accept_operation k)
                (by_prune inputs answer e)
                (λ same. operations_differ (suc s.prune_sequence) k (sym same))
                (r.accepts_unused k l);
        },
      )

  submitted-Ready :
      (prefix : Prefix ops) (current : List ℕ) (s : SearchState ops) (engine : Engine)
      (answer : Bool)
      → s.prune_sequence ≤ s.node_sequence
      → suc s.accept_sequence ≤ s.node_sequence
      → ((k : ℕ) → s.prune_sequence < k → Unused ops policy config (prune_operation k) engine)
      → ((k : ℕ) → suc s.accept_sequence < k → Unused ops policy config (accept_operation k) engine)
      → (submitted_state ops policy config prefix current s engine answer).node_sequence
          ≤ s.node_sequence
        × Ready ops policy config (submitted_state ops policy config prefix current s engine answer)
  submitted-Ready prefix current s engine true p a f g = (
    omega arith,
    record { prunes_counted = p; accepts_counted = a; prunes_unused = f; accepts_unused = g },
  )
  submitted-Ready prefix current s engine false p a f g = (
    omega arith,
    record { prunes_counted = p; accepts_counted = a; prunes_unused = f; accepts_unused = g },
  )

  submit-Returns :
      (depth : ℕ) (prefix : Prefix ops) (current : List ℕ) (s : SearchState ops)
      → Ready ops policy config s
      → suc s.node_sequence < 2 ^ 64
      → Returns ops policy config
          (submit_candidate ops policy config depth prefix current (count_node ops policy config s))
          (suc s.node_sequence)
  submit-Returns depth prefix current s r h =
      let counted = count_node ops policy config s in
      let c =
        context ops policy config accept_candidate depth (suc s.node_sequence)
          (accept_operation (suc s.accept_sequence)) in
      let inputs = accept_inputs ops policy config counted prefix in
      let (incumbent, p) = accept_incumbent_known ops policy config prefix counted in
      let answer = decide_accept ops policy c inputs incumbent in
      let e = accept_returns ops policy config s.engine c inputs incumbent p (record {
        is_valid =
            accept_context_valid ops policy config depth (suc s.node_sequence)
              (suc s.accept_sequence) valid_session h (omega (arith, r.accepts_counted));
        is_typed = refl;
        is_allowed = allows c;
        is_fresh =
            ap (λ k. is_consumed k s.engine.consumed)
              (key_same ops policy config accept_candidate depth (suc s.node_sequence)
                (accept_operation (suc s.accept_sequence)))
            ∙ r.accepts_unused (suc s.accept_sequence) (omega arith);
      }) in
      let ready =
        submitted-Ready prefix current counted (consuming s.engine c) answer
          (omega (arith, r.prunes_counted)) (omega (arith, r.accepts_counted))
          (λ k l.
            still-Unused ops policy config s.engine (consuming s.engine c) accept_candidate depth
              (suc s.node_sequence) (accept_operation (suc s.accept_sequence)) (prune_operation k)
              (by_accept inputs answer e) (λ same. operations_differ k (suc s.accept_sequence) same)
              (r.prunes_unused k l))
          (λ k l.
            still-Unused ops policy config s.engine (consuming s.engine c) accept_candidate depth
              (suc s.node_sequence) (accept_operation (suc s.accept_sequence)) (accept_operation k)
              (by_accept inputs answer e)
              (λ same. omega (arith, l, accept_operation_inj k (suc s.accept_sequence) same))
              (r.accepts_unused k (omega arith))) in
      (
        submitted_state ops policy config prefix current counted (consuming s.engine c) answer,
        submit_def ops policy config depth prefix current counted answer (consuming s.engine c) e,
        ready.0,
        ready.1,
      )

  try_offers-Returns :
      (go : Prefix ops
        → List ops.Ciphertext
        → List ℕ
        → SearchState ops
        → Result PredicateError (SearchState ops))
      (size : ℕ)
      (returns : (p : Prefix ops) (l : List ops.Ciphertext) (c : List ℕ) (s : SearchState ops)
        → Ready ops policy config s
        → s.node_sequence + size < 2 ^ 64
        → Returns ops policy config (go p l c s) (s.node_sequence + size))
      (prefix : Prefix ops) (lag : List ops.Ciphertext) (current : List ℕ)
      (offers : List (Offer ops)) (s : SearchState ops)
      → Ready ops policy config s
      → s.node_sequence + length offers * size < 2 ^ 64
      → Returns ops policy config
          (try_offers ops policy config go prefix lag current offers s)
          (s.node_sequence + length offers * size)
  unfolding try_offers
  try_offers-Returns go size returns prefix lag current [] s r h = (s, refl, omega arith, r)
  try_offers-Returns go size returns prefix lag current (offer ∷ offers) s r h =
      let (t, e, n, q) =
        returns (child_of ops policy config prefix offer)
          (if config.use_lagrangian then add_all ops lag offer.scores else [])
          (current ++ suc offer.method ∷ []) s r (omega arith) in
      let (u, f, m, w) =
        try_offers-Returns go size returns prefix lag current offers t q (omega (arith, n)) in
      (u, rw e f, omega (arith, n, m), w)

  -- Where the authorizer allows every context, the bound is the suffix of minimal costs and the
  -- session identifier is valid, a search from a state that has counted every operation of the
  -- engine returns, if its tree keeps the node counter below 2 ^ 64: no predicate throws.
  pub dfs-Returns :
      (rows : List (List (Offer ops))) (depth : ℕ) (prefix : Prefix ops) (lag : List ops.Ciphertext)
      (current : List ℕ) (s : SearchState ops)
      → Ready ops policy config s
      → s.node_sequence + tree_size rows < 2 ^ 64
      → Returns ops policy config
          (dfs ops policy config rows depth prefix lag current s)
          (s.node_sequence + tree_size rows)
  unfolding dfs tree_size
  dfs-Returns [] depth prefix lag current s r h =
      let (t, e, n, q) = submit-Returns depth prefix current s r (omega arith) in
      (t, e, omega (arith, n), q)
  dfs-Returns (offers ∷ rows) depth prefix lag current s r h =
      let (answer, t, e, n, q) =
        ask_prune-Asked depth (offers ∷ rows) prefix lag s r (omega arith) in
      let below =
        try_offers-Returns (dfs ops policy config rows (suc depth)) (tree_size rows)
          (λ p l c u. dfs-Returns rows (suc depth) p l c u) prefix lag current offers t q
          (omega (arith, n)) in
      let (u, f, m, w) =
        after_prune ops policy config answer t
          (try_offers ops policy config (dfs ops policy config rows (suc depth)) prefix lag current
            offers t)
          (s.node_sequence + tree_size (offers ∷ rows)) (omega (arith, n)) q
          (weaken ops policy config _ _ _ below (omega (arith, n))) in
      (u, rw e f, m, w)

-- What a request that passes the checks has.
pub checked_session :
    (ops : SecureOps) (is_empty : ops.Ciphertext → Bool) (domain : NumericDomain)
    (bound : EncryptedCostBound) (request : EncryptedOptimizationRequest ops)
    → check_request ops is_empty domain bound request ≡ ok tt
    → valid_identifier request.session_id ≡ true
unfolding check_request
checked_session ops is_empty domain bound request e =
    let (c1, e1) = require_inv (ltb 0 (length request.costs)) _ _ e in
    let (c2, e2) = require_inv (is_positive domain.scale && ltb 0 domain.max_rows) _ _ e1 in
    let (c3, e3) = require_inv (leb (length request.costs) domain.max_rows) _ _ e2 in
    let (c4, e4) =
      require_inv
        (not (ltb_ℤ request.threshold_scaled (pos 0))
          && ltb_ℤ request.threshold_scaled domain.scale)
        _ _ e3 in
    (require_inv (valid_identifier request.session_id) _ _ e4).0
