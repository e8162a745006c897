-- ===== src/Predicate/Replay.antt =====
-- The authorization and the replay protection of a `PredicateEngine` over its lifetime.
use soci_sgx_sdk.Prelude.{
  ℕ, ◌≡◌, ◌≢◌, refl, sym, ap, ◌∙◌, Bool, true, false, not, ◌||◌, List, [], ◌∷◌, arith, Result, ok,
  err, >>=-eq-ok, require_inv,
}
use soci_sgx_sdk.Text.Same.{same_text_refl, same_text-eq}
use soci_sgx_sdk.Text.{same_text}
use soci_sgx_sdk.Secure.{SecureOps}
use soci_sgx_sdk.Predicate.Key.{replay_key_injective}
use soci_sgx_sdk.Predicate.{
  PredicateType, prune_node, accept_candidate, PredicateContext, PredicateError, validate,
  replay_key, append_field, same_type, is_consumed, Engine, authorize_and_consume, PruneInputs,
  AcceptInputs, Policy, prune, accept, prune_incumbent, accept_incumbent, Outcome,
}

clash : (b : Bool) → b ≡ true → b ≡ false → ⊥
clash true h k = cc
clash false h k = cc

skipped : (b rest : Bool) → ¬ (b ≡ true) → (b || rest) ≡ rest
skipped true rest h = absurd (h refl)
skipped false rest h = refl

abbrev consumed_of : Result PredicateError Engine → List (List ℕ)
consumed_of (err thrown) = []
consumed_of (ok engine) = engine.consumed

abbrev engine_of : Outcome → Result PredicateError Engine
engine_of (err thrown) = err thrown
engine_of (ok answered) = ok answered.1

-- What a call that consumes has checked, and what it leaves.
pub record Consumed (authorize : PredicateContext → Bool) (engine : Engine)
    (context : PredicateContext) (expected : PredicateType) (engine' : Engine) : Type 0 where
  pub was_valid : validate context ≡ ok tt
  pub was_typed : same_type context.predicate_type expected ≡ true
  pub was_allowed : authorize context ≡ true
  pub was_fresh : is_consumed (replay_key context) engine.consumed ≡ false
  pub is_spent : engine'.consumed ≡ replay_key context ∷ engine.consumed

pub authorize_and_consume_inv :
    (authorize : PredicateContext → Bool) (engine engine' : Engine) (context : PredicateContext)
    (expected : PredicateType)
    → authorize_and_consume authorize engine context expected ≡ ok engine'
    → Consumed authorize engine context expected engine'
unfolding authorize_and_consume
authorize_and_consume_inv authorize engine engine' context expected e =
    let (unit, valid, e1) = >>=-eq-ok (validate context) _ e in
    let (typed, e2) = require_inv (same_type context.predicate_type expected) _ _ e1 in
    let (allowed, e3) = require_inv (authorize context) _ _ e2 in
    let (fresh, e4) = require_inv (not (is_consumed (replay_key context) engine.consumed)) _ _ e3 in
    record {
      was_valid = valid;
      was_typed = typed;
      was_allowed = allowed;
      was_fresh = not-true _ fresh;
      is_spent = sym (ap consumed_of e4);
    }
  where
    not-true : (b : Bool) → not b ≡ true → b ≡ false
    not-true false h = refl
    not-true true h = absurd cc

replayed_after :
    (authorize : PredicateContext → Bool) (engine engine' : Engine) (context : PredicateContext)
    (expected : PredicateType)
    → is_consumed (replay_key context) engine.consumed ≡ true
    → authorize_and_consume authorize engine context expected ≢ ok engine'
replayed_after authorize engine engine' context expected h e =
    let c = authorize_and_consume_inv authorize engine engine' context expected e in cc

module _ (ops : SecureOps) (policy : Policy ops) where
  open policy use {authorize}

  -- The calls that an engine answered, one after the other. A call that throws changes nothing.
  pub data Serves : Engine → Engine → Type 0 where
    idle : (engine : Engine) → Serves engine engine
    pruned :
        {engine next last : Engine} (context : PredicateContext) (inputs : PruneInputs ops)
        (answer : Bool)
        → prune ops policy engine context inputs ≡ ok (answer, next)
        → Serves next last
        → Serves engine last
    accepted :
        {engine next last : Engine} (context : PredicateContext) (inputs : AcceptInputs ops)
        (answer : Bool)
        → accept ops policy engine context inputs ≡ ok (answer, next)
        → Serves next last
        → Serves engine last

  -- An answered call has consumed its context.
  pub prune-Consumed :
      (engine engine' : Engine) (context : PredicateContext) (inputs : PruneInputs ops)
      (answer : Bool)
      → prune ops policy engine context inputs ≡ ok (answer, engine')
      → Consumed authorize engine context prune_node engine'
  unfolding prune
  prune-Consumed engine engine' context inputs answer e =
      let (incumbent, p, e1) = >>=-eq-ok (prune_incumbent ops inputs) _ e in
      let (next, q, e2) =
        >>=-eq-ok (authorize_and_consume authorize engine context prune_node) _ e1 in
      authorize_and_consume_inv authorize engine engine' context prune_node (q ∙ ap engine_of e2)

  pub accept-Consumed :
      (engine engine' : Engine) (context : PredicateContext) (inputs : AcceptInputs ops)
      (answer : Bool)
      → accept ops policy engine context inputs ≡ ok (answer, engine')
      → Consumed authorize engine context accept_candidate engine'
  unfolding accept
  accept-Consumed engine engine' context inputs answer e =
      let (incumbent, p, e1) = >>=-eq-ok (accept_incumbent ops inputs) _ e in
      let (next, q, e2) =
        >>=-eq-ok (authorize_and_consume authorize engine context accept_candidate) _ e1 in
      authorize_and_consume_inv authorize engine engine' context accept_candidate
        (q ∙ ap engine_of e2)

  is_consumed_kept :
      (key k : List ℕ) (ks ks' : List (List ℕ))
      → ks' ≡ k ∷ ks
      → is_consumed key ks ≡ true
      → is_consumed key ks' ≡ true
  unfolding is_consumed
  is_consumed_kept key k ks ks' e h = rw e (ground (arith, h))

  Serves-consumed :
      (engine last : Engine) (key : List ℕ)
      → Serves engine last
      → is_consumed key engine.consumed ≡ true
      → is_consumed key last.consumed ≡ true
  Serves-consumed engine last key (idle _) h = h
  Serves-consumed engine last key (pruned {next = next} context inputs answer e rest) h =
      Serves-consumed next last key rest (
        is_consumed_kept key _ engine.consumed next.consumed
          (prune-Consumed engine next context inputs answer e).is_spent h)
  Serves-consumed engine last key (accepted {next = next} context inputs answer e rest) h =
      Serves-consumed next last key rest (
        is_consumed_kept key _ engine.consumed next.consumed
          (accept-Consumed engine next context inputs answer e).is_spent h)

  -- An answer to either predicate for a context.
  pub data Answers (engine : Engine) (context : PredicateContext) (next : Engine) : Type 0 where
    by_prune :
        (inputs : PruneInputs ops) (answer : Bool)
        → prune ops policy engine context inputs ≡ ok (answer, next)
        → Answers engine context next
    by_accept :
        (inputs : AcceptInputs ops) (answer : Bool)
        → accept ops policy engine context inputs ≡ ok (answer, next)
        → Answers engine context next

  Answers-consumed :
      (engine next : Engine) (context : PredicateContext)
      → Answers engine context next
      → next.consumed ≡ replay_key context ∷ engine.consumed
  Answers-consumed engine next context (by_prune inputs answer e) =
      (prune-Consumed engine next context inputs answer e).is_spent
  Answers-consumed engine next context (by_accept inputs answer e) =
      (accept-Consumed engine next context inputs answer e).is_spent

  key_found : (key : List ℕ) (ks ks' : List (List ℕ)) → ks' ≡ key ∷ ks → is_consumed key ks' ≡ true
  unfolding is_consumed
  key_found key ks ks' e = rw (e, same_text_refl key) refl

  same_key :
      (c d : PredicateContext)
      → c.session_id ≡ d.session_id
      → c.operation_id ≡ d.operation_id
      → replay_key c ≡ replay_key d
  unfolding replay_key append_field
  same_key c d s o = rw (s, o) refl

  -- Once an engine has answered for a session and an operation, it never answers for them again,
  -- whatever it answered in between, and for neither predicate, even with another node, depth,
  -- predicate type or other inputs.
  pub replay-IsRefused :
      (engine next last : Engine) (context again : PredicateContext)
      → Answers engine context next
      → Serves next last
      → again.session_id ≡ context.session_id
      → again.operation_id ≡ context.operation_id
      → (after : Engine) → ¬ Answers last again after
  replay-IsRefused engine next last context again first served s o after second = refused second
    where
      spent : is_consumed (replay_key again) last.consumed ≡ true
      spent = Serves-consumed next last (replay_key again) served (
          key_found (replay_key again) engine.consumed next.consumed (
            Answers-consumed engine next context first
            ∙ ap (λ k. k ∷ engine.consumed) (sym (same_key again context s o))))

      refused : ¬ Answers last again after
      refused (by_prune inputs answer e) =
          clash _ spent (prune-Consumed last after again inputs answer e).was_fresh
      refused (by_accept inputs answer e) =
          clash _ spent (accept-Consumed last after again inputs answer e).was_fresh

  -- An answer leaves every context of another session or operation as it was: it is consumed
  -- after the answer exactly when it was consumed before.
  pub other-IsFresh :
      (engine next : Engine) (context another : PredicateContext)
      → Answers engine context next
      → ¬ (
          (another.session_id ≡ context.session_id) × (another.operation_id ≡ context.operation_id))
      → is_consumed (replay_key another) next.consumed
        ≡ is_consumed (replay_key another) engine.consumed
  unfolding is_consumed
  other-IsFresh engine next context another a differs =
      ap (is_consumed (replay_key another)) (Answers-consumed engine next context a)
      ∙ skipped _ _ (λ found. differs (same found))
    where
      same :
          same_text (replay_key context) (replay_key another) ≡ true
          → (another.session_id ≡ context.session_id)
            × (another.operation_id ≡ context.operation_id)
      same found =
          replay_key_injective another context
            (sym (same_text-eq (replay_key context) (replay_key another) found))
