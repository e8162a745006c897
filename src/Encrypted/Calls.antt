-- ===== src/Encrypted/Calls.antt =====
-- What a single call of the predicate engine does to the encrypted search.
use soci_sgx_sdk.Prelude.{
  ℕ, suc, ◌≤◌, ◌<◌, ◌≡◌, refl, ap, ◌∙◌, Bool, true, false, List, [], Option, none, some, Result, ok,
  arith, if◌then◌else◌, Option-cases, inl, inr,
}
use soci_sgx_sdk.Secure.{SecureOps}
use soci_sgx_sdk.Predicate.{
  PredicateContext, PredicateType, prune_node, accept_candidate, PredicateError, Engine, Policy,
  PruneInputs, AcceptInputs, prune, accept, prune_incumbent, accept_incumbent, decide_prune,
  decide_accept, replay_key, append_field, is_consumed,
}
use soci_sgx_sdk.Predicate.Replay.{Answers, other-IsFresh}
use soci_sgx_sdk.Predicate.Answer.{Admits, consuming, authorize_and_consume-ok}
use soci_sgx_sdk.Encrypted.{Prefix, Offer}
use soci_sgx_sdk.Encrypted.Search.{
  SearchState, SearchConfig, context, prune_operation, accept_operation, count_bounds, is_some,
  prune_inputs, accept_inputs, submit_candidate, ask_prune,
}
use soci_sgx_sdk.Encrypted.Solve.{start_of}

module _ (ops : SecureOps) (policy : Policy ops) (config : SearchConfig ops) where
  abbrev pub of_operation : List ℕ → PredicateContext
  of_operation operation = context ops policy config prune_node 0 0 operation

  abbrev pub Unused : List ℕ → Engine → Type 0
  Unused operation engine =
      is_consumed (replay_key (of_operation operation)) engine.consumed ≡ false

  -- The engine has seen no operation beyond the counters.
  pub record Ready (s : SearchState ops) : Type 0 where
    pub prunes_counted : s.prune_sequence ≤ s.node_sequence
    pub accepts_counted : s.accept_sequence ≤ s.node_sequence
    pub prunes_unused : (k : ℕ) → s.prune_sequence < k → Unused (prune_operation k) s.engine
    pub accepts_unused : (k : ℕ) → s.accept_sequence < k → Unused (accept_operation k) s.engine

  pub start-Ready : Ready (start_of ops (record { consumed = [] }))
  unfolding is_consumed
  start-Ready = record {
    prunes_counted = omega arith;
    accepts_counted = omega arith;
    prunes_unused = λ k l. refl;
    accepts_unused = λ k l. refl;
  }

  -- A replay key is that of the operation, at any node.
  pub key_same :
      (type : PredicateType) (depth node : ℕ) (operation : List ℕ)
      → replay_key (context ops policy config type depth node operation)
        ≡ replay_key (of_operation operation)
  unfolding replay_key append_field
  key_same type depth node operation = refl

  pub prune_returns :
      (engine : Engine) (c : PredicateContext) (inputs : PruneInputs ops)
      (incumbent : Option ops.Ciphertext)
      → prune_incumbent ops inputs ≡ ok incumbent
      → Admits policy.authorize engine c prune_node
      → prune ops policy engine c inputs
        ≡ ok (decide_prune ops policy c inputs incumbent, consuming engine c)
  unfolding prune
  prune_returns engine c inputs incumbent p a =
      rw (p, authorize_and_consume-ok policy.authorize engine c prune_node a) refl

  pub accept_returns :
      (engine : Engine) (c : PredicateContext) (inputs : AcceptInputs ops)
      (incumbent : Option (ops.Ciphertext × ops.Ciphertext))
      → accept_incumbent ops inputs ≡ ok incumbent
      → Admits policy.authorize engine c accept_candidate
      → accept ops policy engine c inputs
        ≡ ok (decide_accept ops policy c inputs incumbent, consuming engine c)
  unfolding accept
  accept_returns engine c inputs incumbent p a =
      rw (p, authorize_and_consume-ok policy.authorize engine c accept_candidate a) refl

  pub accept_incumbent_known :
      (prefix : Prefix ops) (s : SearchState ops)
      → (incumbent : Option (ops.Ciphertext × ops.Ciphertext)) × (accept_incumbent ops
            (accept_inputs ops policy config s prefix)
          ≡ ok incumbent)
  accept_incumbent_known prefix s = elim (Option-cases s.incumbent) [
    | inl e ↦ (none, rw e refl)
    | inr (best, e) ↦ (some (best.total, best.c12), rw e refl)
  ]

  -- An operation that was unused stays so when another one is consumed.
  pub still-Unused :
      (engine next : Engine) (type : PredicateType) (depth node : ℕ) (operation another : List ℕ)
      → Answers ops policy engine (context ops policy config type depth node operation) next
      → ¬ (another ≡ operation)
      → Unused another engine
      → Unused another next
  still-Unused engine next type depth node operation another a differs u =
      other-IsFresh ops policy engine next (context ops policy config type depth node operation)
        (of_operation another) a (λ same. differs same.1)
      ∙ u

  -- What a call at a node asks leaves the search ready, with the same node counter.
  abbrev pub Asked : Result PredicateError (Bool × SearchState ops) → ℕ → Type 0
  Asked result node =
      (answer : Bool) × (next : SearchState ops) × (result ≡ ok (answer, next))
      × (next.node_sequence ≡ node)
      × Ready next

  pub if_same : {A : Type 0} (b : Bool) (x : A) → (if b then x else x) ≡ x
  if_same true x = refl
  if_same false x = refl

  abbrev pub asked_state : SearchState ops → Engine → Bool → SearchState ops
  asked_state s engine answer = record s {
    engine = engine;
    prune_sequence = suc s.prune_sequence;
    pruned_nodes = (if answer then suc s.pruned_nodes else s.pruned_nodes);
  }

  -- A result that is returned, with at most so many nodes, and leaves the search ready.
  abbrev pub Returns : Result PredicateError (SearchState ops) → ℕ → Type 0
  Returns result nodes =
      (next : SearchState ops) × (result ≡ ok next) × (next.node_sequence ≤ nodes) × Ready next

  abbrev pub submitted_state :
      Prefix ops → List ℕ → SearchState ops → Engine → Bool → SearchState ops
  submitted_state prefix current s engine answer =
      let asked : SearchState ops = record s {
        engine = engine;
        accept_sequence = suc s.accept_sequence;
      } in
      if answer
      then (record asked {
        incumbent = some prefix;
        scaled_incumbent =
            (if config.use_lagrangian
              then some (ops.scalar_mul prefix.total config.q)
              else asked.scaled_incumbent);
        solution = current;
      })
      else asked

  pub submit_def :
      (depth : ℕ) (prefix : Prefix ops) (current : List ℕ) (s : SearchState ops) (answer : Bool)
      (engine : Engine)
      → accept ops policy s.engine
          (context ops policy config accept_candidate depth s.node_sequence
            (accept_operation (suc s.accept_sequence)))
          (accept_inputs ops policy config s prefix)
        ≡ ok (answer, engine)
      → submit_candidate ops policy config depth prefix current s
        ≡ ok (submitted_state prefix current s engine answer)
  unfolding submit_candidate
  submit_def depth prefix current s answer engine e = rw e refl

  pub weaken :
      (result : Result PredicateError (SearchState ops)) (m n : ℕ)
      → Returns result m
      → m ≤ n
      → Returns result n
  weaken result m n (t, e, l, r) h = (t, e, omega (arith, l, h), r)

  pub after_prune :
      (answer : Bool) (next : SearchState ops) (more : Result PredicateError (SearchState ops))
      (nodes : ℕ)
      → next.node_sequence ≤ nodes
      → Ready next
      → Returns more nodes
      → Returns (if answer then ok next else more) nodes
  after_prune true next more nodes h r t = (next, refl, h, r)
  after_prune false next more nodes h r t = t

  module _ (plain_bound : config.use_lagrangian ≡ false) where
    pub prune_incumbent_known :
        (rows : List (List (Offer ops))) (prefix : Prefix ops) (lag : List ops.Ciphertext)
        (s : SearchState ops)
        → (incumbent : Option ops.Ciphertext) × (prune_incumbent ops
              (prune_inputs ops policy config rows prefix lag s)
            ≡ ok incumbent)
    prune_incumbent_known rows prefix lag s = elim (Option-cases s.incumbent) [
      | inl e ↦ (none, rw e refl)
      | inr (best, e) ↦ (some best.total, rw (e, plain_bound) refl)
    ]

    pub count_bounds_same : (s : SearchState ops) → count_bounds ops policy config s ≡ s
    count_bounds_same s = rw plain_bound (if_same (is_some ops s.incumbent) s)

    pub ask_prune_def :
        (depth : ℕ) (rows : List (List (Offer ops))) (prefix : Prefix ops)
        (lag : List ops.Ciphertext) (s : SearchState ops) (answer : Bool) (engine : Engine)
        → prune ops policy s.engine
            (context ops policy config prune_node depth s.node_sequence
              (prune_operation (suc s.prune_sequence)))
            (prune_inputs ops policy config rows prefix lag s)
          ≡ ok (answer, engine)
        → ask_prune ops policy config depth rows prefix lag s
          ≡ ok (answer, asked_state s engine answer)
    unfolding ask_prune
    ask_prune_def depth rows prefix lag s answer engine e = rw e (
        ap
          (λ (c : SearchState ops). ok (
            answer,
            record c {
              engine = engine;
              prune_sequence = suc s.prune_sequence;
              pruned_nodes = (if answer then suc s.pruned_nodes else s.pruned_nodes);
            },
          ))
          (count_bounds_same s))
