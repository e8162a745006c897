-- ===== src/Threshold/Backend.antt =====
-- `ThresholdSecureOps` as the fused backend of the predicate engine: `fusedPruneNode` and
-- `fusedAcceptCandidate`, over the ciphertexts as integers, and what they answer.
mod Examples
use soci_sgx_sdk.Prelude.{
  ℕ, suc, ◌+◌, sym, ◌∙◌, Bool, true, false, List, [], ◌∷◌, map, Option, none, some, Result,
}
use soci_sgx_sdk.Prelude.Int.{pos}
use soci_sgx_sdk.Wire.{Gmp}
use soci_sgx_sdk.Predicate.{PredicateType, PredicateContext}
use soci_sgx_sdk.Threshold.Labels.{Label}
use soci_sgx_sdk.Threshold.Scheme.{Scheme, paillier_encrypt}
use soci_sgx_sdk.Threshold.Fused.{FusedError, Csp}
use soci_sgx_sdk.Threshold.Fused.Client.{Comparison, OtKey, fused_predicate}

-- The pairs that are compared, for ciphertexts and for the numbers that they hold.
abbrev pub prune_pairs : {A : Type 0} → A → A → List A → Option A → List (A × A)
prune_pairs zero linear_upper cost_lowers none = (zero, linear_upper) ∷ []
prune_pairs zero linear_upper cost_lowers (some incumbent_cost) =
    (zero, linear_upper) ∷ map (λ lower. (lower, incumbent_cost)) cost_lowers

abbrev pub accept_pairs : {A : Type 0} → A → A → A → A → A → Option (A × A) → List (A × A)
accept_pairs zero linear c3 cost c12 none = (zero, linear) ∷ (c3, zero) ∷ []
accept_pairs zero linear c3 cost c12 (some (incumbent_cost, incumbent_c12)) =
    (zero, linear)
    ∷ (c3, zero)
    ∷ (incumbent_cost, cost)
    ∷ (cost, incumbent_cost)
    ∷ (incumbent_c12, c12)
    ∷ []

abbrev pub is_some : {A : Type 0} → Option A → Bool
is_some none = false
is_some (some a) = true

-- What the CP draws for a comparison.
pub record Draws : Type 0 where
  pub orientation : Bool
  pub r3 : ℕ
  pub r : ℕ
  pub nonce : ℕ
  pub x0 : ℕ
  pub x1 : ℕ

abbrev pub comparisons_of : List (ℕ × ℕ) → List Draws → List Comparison
comparisons_of ((a, b) ∷ items) (d ∷ ds) =
    record {
      a = a;
      b = b;
      orientation = d.orientation;
      r3 = d.r3;
      r = d.r;
      nonce = d.nonce;
      x0 = d.x0;
      x1 = d.x1;
    }
    ∷ comparisons_of items ds
comparisons_of _ _ = []

module _ (s : Scheme) (gmp : Gmp) (sha256 : List ℕ → List ℕ) where
  unfoldable pub fused_prune_node :
      OtKey
      → (ℕ → Label)
      → List ℕ
      → List Draws
      → ℕ
      → Csp
      → PredicateContext
      → ℕ
      → List ℕ
      → Option ℕ
      → Csp × Result FusedError Bool
  fused_prune_node ot draw keys draws nonce csp context linear_upper cost_lowers incumbent_cost =
      fused_predicate s gmp sha256 ot draw keys csp context (is_some incumbent_cost) (
        comparisons_of
          (prune_pairs (paillier_encrypt s (pos 0) nonce) linear_upper cost_lowers incumbent_cost)
          draws)

  unfoldable pub fused_accept_candidate :
      OtKey
      → (ℕ → Label)
      → List ℕ
      → List Draws
      → ℕ
      → Csp
      → PredicateContext
      → ℕ
      → ℕ
      → ℕ
      → ℕ
      → Option (ℕ × ℕ)
      → Csp × Result FusedError Bool
  fused_accept_candidate ot draw keys draws nonce csp context linear c3 cost c12 incumbent =
      fused_predicate s gmp sha256 ot draw keys csp context (is_some incumbent) (
        comparisons_of
          (accept_pairs (paillier_encrypt s (pos 0) nonce) linear c3 cost c12 incumbent) draws)
