-- ===== src/Threshold/Fused/Client.antt =====
-- The CP's side of a fused predicate. What it draws at random stands beside each comparison.
use soci_sgx_sdk.Prelude.{
  ℕ, ◌+◌, Bool, not, ◌&&◌, List, [], ◌∷◌, none, some, Result, ok, err, ◌>>=◌, ◌>>◌, require, leb,
  ◌==◌, length,
}
use soci_sgx_sdk.Wire.{Gmp}
use soci_sgx_sdk.Predicate.{PredicateContext}
use soci_sgx_sdk.Threshold.Circuit.{BooleanCircuit, CircuitError, predicate_circuit}
use soci_sgx_sdk.Threshold.Labels.{Label, label_xor}
use soci_sgx_sdk.Threshold.Garble.{label_at, GarbledPredicate, garble_circuit}
use soci_sgx_sdk.Threshold.Transfer.{ot_messages}
use soci_sgx_sdk.Threshold.Scheme.{Scheme, ProtocolError}
use soci_sgx_sdk.Threshold.Compare.{is_valid, blinded_difference}
use soci_sgx_sdk.Threshold.Fused.{
  FusedError, bad_ciphertext, bad_batch, bad_circuit, max_batch_size, StartItem, StartRequest,
  FinishRequest, Csp, handle_start, handle_finish,
}

-- A comparison `a > b`, with its orientation, its masks and nonce, and the OT nonces.
pub record Comparison : Type 0 where
  pub a : ℕ
  pub b : ℕ
  pub orientation : Bool
  pub r3 : ℕ
  pub r : ℕ
  pub nonce : ℕ
  pub x0 : ℕ
  pub x1 : ℕ

-- The RSA key that the constructor generates for the transfers.
pub record OtKey : Type 0 where
  pub ot_modulus : ℕ
  pub ot_public : ℕ
  pub ot_private : ℕ

abbrev pub refused : {A : Type 0} → Csp → FusedError → Csp × Result FusedError A
refused csp e = (csp, err e)

module _ (s : Scheme) where
  open s use {cp_share}

  abbrev pub checked_difference : Result ProtocolError ℕ → Result FusedError ℕ
  checked_difference (err e) = err bad_ciphertext
  checked_difference (ok d) = require (is_valid s d) bad_ciphertext >> ok d

  unfoldable pub start_items : List Comparison → Result FusedError (List StartItem)
  start_items [] = ok []
  start_items (c ∷ cs) = do
    d ← checked_difference (blinded_difference s c.b c.a c.orientation c.r3 c.r c.nonce)
    rest ← start_items cs
    ok (record { ciphertext = d; cp_share = cp_share d; x0 = c.x0; x1 = c.x1 } ∷ rest)

module _ (s : Scheme) (gmp : Gmp) (sha256 : List ℕ → List ℕ) where
  open s use {powm}

  unfoldable pub finish_pairs :
      OtKey → Label → List Label → ℕ → List Comparison → List ℕ → List (Label × Label)
  finish_pairs ot delta zeros index (c ∷ cs) (v ∷ vs) =
      ot_messages gmp sha256 powm ot.ot_modulus ot.ot_private delta (label_at zeros index)
        c.orientation c.x0 c.x1 v index
      ∷ finish_pairs ot delta zeros (index + 1) cs vs
  finish_pairs ot delta zeros index _ _ = []

  abbrev pub garbled_or_error :
      (ℕ → Label) → ℕ → Result CircuitError BooleanCircuit → Result FusedError GarbledPredicate
  garbled_or_error draw count (err e) = err bad_circuit
  garbled_or_error draw count (ok c) = elim (garble_circuit sha256 draw count c) [
    | none ↦ err bad_circuit
    | some g ↦ ok g
  ]

  unfoldable pub finish_request :
      OtKey
      → (ℕ → Label)
      → PredicateContext
      → Bool
      → List Comparison
      → List ℕ
      → Result FusedError FinishRequest
  unfolding finish_pairs
  finish_request ot draw context has_incumbent comparisons responses = do
    require (length responses == length comparisons) bad_batch
    g ←
        garbled_or_error draw (length comparisons)
          (predicate_circuit context.predicate_type (length comparisons) has_incumbent)
    let out = label_at g.zero g.circuit.output
    ok (record {
      context = context;
      pairs = finish_pairs ot g.delta g.zero 0 comparisons responses;
      tables = g.tables;
      out0 = out;
      out1 = label_xor out g.delta;
    })

  abbrev pub finish : Csp → Result FusedError FinishRequest → Csp × Result FusedError Bool
  finish csp (err e) = refused csp e
  finish csp (ok request) = handle_finish gmp sha256 csp request

  abbrev pub after_start :
      OtKey
      → (ℕ → Label)
      → PredicateContext
      → Bool
      → List Comparison
      → Csp × Result FusedError (List ℕ)
      → Csp × Result FusedError Bool
  after_start ot draw context has_incumbent comparisons (csp, err e) = refused csp e
  after_start ot draw context has_incumbent comparisons (csp, ok responses) =
      finish csp (finish_request ot draw context has_incumbent comparisons responses)

  abbrev pub start_request : OtKey → PredicateContext → Bool → List StartItem → StartRequest
  start_request ot context has_incumbent items = record {
    context = context;
    has_incumbent = has_incumbent;
    rsa_n = ot.ot_modulus;
    rsa_e = ot.ot_public;
    items = items;
  }

  -- The exchange of both frames with a CSP that draws `keys`.
  unfoldable pub fused_predicate :
      OtKey
      → (ℕ → Label)
      → List ℕ
      → Csp
      → PredicateContext
      → Bool
      → List Comparison
      → Csp × Result FusedError Bool
  unfolding start_items finish_request
  fused_predicate ot draw keys csp context has_incumbent comparisons =
      elim (require (not (length comparisons == 0) && leb (length comparisons) max_batch_size)
          bad_batch
        >> start_items s comparisons) [
          | err e ↦ refused csp e
          | ok items ↦
              after_start ot draw context has_incumbent comparisons
                (handle_start s gmp csp (start_request ot context has_incumbent items) keys)
        ]
