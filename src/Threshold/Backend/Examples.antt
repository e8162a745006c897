-- ===== src/Threshold/Backend/Examples.antt =====
-- The fused predicates of a backend at concrete ciphertexts.
use soci_sgx_sdk.Prelude.{ℕ, Bool, [], ◌∷◌, none}
use soci_sgx_sdk.Prelude.Int.{pos}
use soci_sgx_sdk.Predicate.{PredicateType, PredicateContext}
use soci_sgx_sdk.Threshold.Scheme.{paillier_encrypt}
use soci_sgx_sdk.Threshold.Scheme.Holds.{Holds}
use soci_sgx_sdk.Threshold.Sample.{s}
use soci_sgx_sdk.Threshold.Fused.{Csp}
use soci_sgx_sdk.Threshold.Backend.{Draws}

abbrev context : PredicateType → PredicateContext
context type = record {
  session_id = b's' ∷ [];
  operation_id = b'o' ∷ [];
  predicate_type = type;
  depth = 2;
  node_id = b'n' ∷ [];
}

abbrev csp : Csp
csp = record { pending_fused = none; fused_replays = [] }

abbrev draws : Bool → Draws
draws orientation = record { orientation = orientation; r3 = 9; r = 4; nonce = 1; x0 = 10; x1 = 20 }

abbrev zero_ciphertext : ℕ
zero_ciphertext = paillier_encrypt s (pos 0) 1
