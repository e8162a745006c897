-- ===== src/Predicate/Answer.antt =====
-- What `pruneNode` and `acceptCandidate` answer, with a resolver that reads bits as the key holder
-- would and no fused backend.
use soci_sgx_sdk.Prelude.{◌≡◌, refl, Bool, true, false, ◌∷◌, Option, none, some, ok}
use soci_sgx_sdk.Secure.{SecureOps, Bit}
use soci_sgx_sdk.Secure.Gates.{Holds}
use soci_sgx_sdk.Predicate.{
  PredicateType, PredicateContext, validate, replay_key, same_type, is_consumed, Engine,
  authorize_and_consume, Policy,
}

abbrev pub mapped : {A B : Type 0} → (A → B) → Option A → Option B
mapped f none = none
mapped f (some x) = some (f x)

abbrev pub AllOption : {A : Type 0} → (A → Type 0) → Option A → Type 0
AllOption P none = Unit {0}
AllOption P (some x) = P x

-- What a context needs in order to be answered.
pub record Admits (authorize : PredicateContext → Bool) (engine : Engine)
    (context : PredicateContext) (expected : PredicateType) : Type 0 where
  pub is_valid : validate context ≡ ok tt
  pub is_typed : same_type context.predicate_type expected ≡ true
  pub is_allowed : authorize context ≡ true
  pub is_fresh : is_consumed (replay_key context) engine.consumed ≡ false

abbrev pub consuming : Engine → PredicateContext → Engine
consuming engine context = record { consumed = replay_key context ∷ engine.consumed }

pub authorize_and_consume-ok :
    (authorize : PredicateContext → Bool) (engine : Engine) (context : PredicateContext)
    (expected : PredicateType)
    → Admits authorize engine context expected
    → authorize_and_consume authorize engine context expected ≡ ok (consuming engine context)
unfolding authorize_and_consume
authorize_and_consume-ok authorize engine context expected a =
    rw (a.is_valid, a.is_typed, a.is_allowed, a.is_fresh) refl

module _ (ops : SecureOps) (policy : Policy ops) where
  open policy use {authorize, reveal_final_bit, fused_prune_node, fused_accept_candidate}
  open ops use {Ciphertext, dec}

  -- A resolver that reveals the bit that a ciphertext holds.
  abbrev pub IsFaithful : Type 0
  IsFaithful =
      (context : PredicateContext) (b : Bit ops) (x : Bool)
      → Holds ops b x
      → reveal_final_bit context b ≡ x
