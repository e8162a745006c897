-- ===== src/Threshold/Fused.antt =====
-- The fused predicate: `ThresholdProtocolClient::fusedPredicate` and the handlers `F` and `G` of the
-- CSP loop, over the contents of their frames. The comparisons are blinded and decrypted in one
-- batch; the bits then enter a garbled circuit by oblivious transfer, so that the CSP learns the
-- decision alone.
pub mod Client
pub mod Inputs
pub mod Decides
pub mod Steps
pub mod Answer
pub mod Session
use soci_sgx_sdk.Prelude.{
  ℕ, zero, suc, ◌+◌, ◌*◌, ◌/◌, Bool, true, false, not, ◌&&◌, ◌||◌, List, [], ◌∷◌, ◌++◌, map, Option,
  none, some, Result, ok, err, ◌>>=◌, ◌>>◌, require, ltb, leb, ◌==◌, if◌then◌else◌, length, drop,
  all_of,
}
use soci_sgx_sdk.Text.{same_text}
use soci_sgx_sdk.Wire.{Gmp}
use soci_sgx_sdk.Predicate.{PredicateType, PredicateContext, same_type, is_consumed}
use soci_sgx_sdk.Threshold.Circuit.{BooleanCircuit, CircuitError, predicate_circuit}
use soci_sgx_sdk.Threshold.Labels.{Label}
use soci_sgx_sdk.Threshold.Garble.{
  Table, label_at, GarbledPredicate, garble_circuit, evaluate_wires,
}
use soci_sgx_sdk.Threshold.Transfer.{ot_messages, ot_request, ot_receive}
use soci_sgx_sdk.Threshold.Scheme.{Scheme, ProtocolError}
use soci_sgx_sdk.Threshold.Server.{combined}
use soci_sgx_sdk.Threshold.Compare.{is_valid, blinded_difference}

pub data FusedError : Type 0 where
  invalid_start bad_count bad_ot_key bad_ot_nonce replayed bad_circuit invalid_finish
        context_mismatch shape_mismatch invalid_output bad_ciphertext bad_batch :
      FusedError

-- SOCI_THRESHOLD_MAX_BATCH_SIZE.
abbrev pub max_batch_size : ℕ
max_batch_size = 32

-- The frame of an `F` request: one item for each comparison.
pub record StartItem : Type 0 where
  pub ciphertext : ℕ
  pub cp_share : ℕ
  pub x0 : ℕ
  pub x1 : ℕ

pub record StartRequest : Type 0 where
  pub context : PredicateContext
  pub has_incumbent : Bool
  pub rsa_n : ℕ
  pub rsa_e : ℕ
  pub items : List StartItem

-- The frame of a `G` request.
pub record FinishRequest : Type 0 where
  pub context : PredicateContext
  pub pairs : List (Label × Label)
  pub tables : List Table
  pub out0 : Label
  pub out1 : Label

-- `PendingFused`.
pub record PendingFused : Type 0 where
  pub context : PredicateContext
  pub incumbent : Bool
  pub choices : List Bool
  pub keys : List ℕ
  pub circuit : BooleanCircuit

-- The state that the CSP keeps over the requests.
pub record Csp : Type 0 where
  pub pending_fused : Option PendingFused
  pub fused_replays : List (List ℕ)

abbrev pub is_none : {A : Type 0} → Option A → Bool
is_none none = true
is_none (some a) = false

-- `session + '\0' + operation`.
unfoldable pub fused_replay : PredicateContext → List ℕ
fused_replay context = context.session_id ++ 0 ∷ context.operation_id

unfoldable pub same_context : PredicateContext → PredicateContext → Bool
same_context c d =
    same_text c.session_id d.session_id
    && same_text c.operation_id d.operation_id
    && same_type c.predicate_type d.predicate_type
    && c.depth == d.depth
    && same_text c.node_id d.node_id

-- The answer of a handler: a rejected request drops the pending predicate, and keeps the replays.
abbrev pub rejected : {A : Type 0} → List (List ℕ) → FusedError → Csp × Result FusedError A
rejected replays e = (record { pending_fused = none; fused_replays = replays }, err e)

module _ (s : Scheme) where
  open s use {modulus, powm}

  -- The choice bits: which decrypted differences do not exceed half the modulus.
  abbrev pub choices_of : List StartItem → List Bool
  choices_of = map (λ i. leb (combined s i.ciphertext i.cp_share) (modulus / 2))

  unfoldable pub ot_responses : ℕ → ℕ → List Bool → List ℕ → List StartItem → List ℕ
  ot_responses n e (c ∷ cs) (k ∷ ks) (i ∷ is) =
      ot_request powm n e c k i.x0 i.x1 ∷ ot_responses n e cs ks is
  ot_responses n e _ _ _ = []

module _ (s : Scheme) (gmp : Gmp) where
  unfoldable pub check_start : Csp → StartRequest → Result FusedError (Unit {0})
  check_start csp request = do
    require
        (is_none csp.pending_fused
          && not (same_type request.context.predicate_type PredicateType.other))
        invalid_start
    require (not (length request.items == 0) && leb (length request.items) max_batch_size) bad_count
    require (gmp.size_in_base2 request.rsa_n == 3072 && request.rsa_e == 65_537) bad_ot_key
    require
        (all_of
          (λ i. ltb 0 i.x0 && ltb i.x0 request.rsa_n && (ltb 0 i.x1 && ltb i.x1 request.rsa_n))
          request.items)
        bad_ot_nonce

  -- The handler of `F`; `keys` are the random keys that it draws. The replay entry is made before
  -- the circuit and stays when that fails.
  abbrev pub accepted_start :
      List (List ℕ)
      → StartRequest
      → List ℕ
      → Result CircuitError BooleanCircuit
      → Csp × Result FusedError (List ℕ)
  accepted_start replays request keys (err e) = rejected replays bad_circuit
  accepted_start replays request keys (ok circuit) =
      let choices = choices_of s request.items in
      (
        record {
          pending_fused = some (record {
            context = request.context;
            incumbent = request.has_incumbent;
            choices = choices;
            keys = keys;
            circuit = circuit;
          });
          fused_replays = replays;
        },
        ok (ot_responses s request.rsa_n request.rsa_e choices keys request.items),
      )

  unfoldable pub handle_start : Csp → StartRequest → List ℕ → Csp × Result FusedError (List ℕ)
  unfolding check_start ot_responses
  handle_start csp request keys = elim (check_start csp request) [
    | err e ↦ rejected csp.fused_replays e
    | ok _ ↦
        if is_consumed (fused_replay request.context) csp.fused_replays
        then rejected csp.fused_replays replayed
        else accepted_start (fused_replay request.context ∷ csp.fused_replays) request keys (
            predicate_circuit request.context.predicate_type (length request.items)
              request.has_incumbent)
  ]

module _ (gmp : Gmp) (sha256 : List ℕ → List ℕ) where
  unfoldable pub received_labels : ℕ → List Bool → List ℕ → List (Label × Label) → List Label
  received_labels index (c ∷ cs) (k ∷ ks) (p ∷ ps) =
      ot_receive gmp sha256 c k index p ∷ received_labels (index + 1) cs ks ps
  received_labels index _ _ _ = []

  -- The output label, read as a bit.
  abbrev pub read_output : FinishRequest → Label → Result FusedError Bool
  read_output request label =
      if same_text label request.out0
      then ok false
      else if same_text label request.out1
      then ok true
      else err invalid_output

  abbrev pub evaluated_output : FinishRequest → ℕ → Option (List Label) → Result FusedError Bool
  evaluated_output request output none = err shape_mismatch
  evaluated_output request output (some labels) = read_output request (label_at labels output)

  unfoldable pub evaluate_pending : PendingFused → FinishRequest → Result FusedError Bool
  unfolding received_labels same_context
  evaluate_pending p request = do
    require (same_context request.context p.context) context_mismatch
    require
        (length request.pairs == length p.choices
          && length request.tables == length p.circuit.and_gates)
        shape_mismatch
    evaluated_output request p.circuit.output (
        evaluate_wires sha256 (drop (length p.choices) p.circuit.wires) p.circuit.and_gates
          request.tables 0 (received_labels 0 p.choices p.keys request.pairs))

  -- The handler of `G`: the pending predicate is taken, whatever comes of it.
  unfoldable pub handle_finish : Csp → FinishRequest → Csp × Result FusedError Bool
  unfolding evaluate_pending
  handle_finish csp request = (
    record { pending_fused = none; fused_replays = csp.fused_replays },
    elim csp.pending_fused [ none ↦ err invalid_finish | some p ↦ evaluate_pending p request ],
  )
