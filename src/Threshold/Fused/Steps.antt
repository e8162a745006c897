-- ===== src/Threshold/Fused/Steps.antt =====
-- The steps of the exchange, each where it succeeds.
use soci_sgx_sdk.Prelude.{
  ℕ, suc, ◌+◌, ◌≤◌, ◌<◌, ◌≡◌, refl, ap, Bool, true, false, ◌&&◌, List, [], ◌∷◌, map, none, some, ok,
  ltb, arith, ◌==◌, ==_self, le→leb, length, drop, all_of,
}
use soci_sgx_sdk.Prelude.Int.{ℤ}
use soci_sgx_sdk.Text.{same_text}
use soci_sgx_sdk.Text.Same.{same_text_refl}
use soci_sgx_sdk.Wire.{Gmp}
use soci_sgx_sdk.Predicate.{PredicateType, PredicateContext, same_type, is_consumed}
use soci_sgx_sdk.Threshold.Circuit.{BooleanCircuit, predicate_circuit}
use soci_sgx_sdk.Threshold.Circuit.Decision.{decision}
use soci_sgx_sdk.Threshold.Labels.{Label, label_xor, labelled}
use soci_sgx_sdk.Threshold.Garble.{label_at, GarbledPredicate, garble_circuit, evaluate_wires}
use soci_sgx_sdk.Threshold.Scheme.{Scheme}
use soci_sgx_sdk.Threshold.Fused.{
  StartItem, StartRequest, FinishRequest, PendingFused, Csp, max_batch_size, fused_replay,
  same_context, choices_of, ot_responses, check_start, handle_start, received_labels, read_output,
  evaluate_pending, handle_finish,
}
use soci_sgx_sdk.Threshold.Fused.Client.{
  Comparison, OtKey, start_items, finish_pairs, garbled_or_error, finish_request, start_request,
  fused_predicate,
}
use soci_sgx_sdk.Threshold.Fused.Inputs.{AllOffer, none_left, one_more}

same_type_refl : (t : PredicateType) → same_type t t ≡ true
same_type_refl PredicateType.prune_node = refl
same_type_refl PredicateType.accept_candidate = refl
same_type_refl PredicateType.other = refl

pub same_context_refl : (c : PredicateContext) → same_context c c ≡ true
unfolding same_context
same_context_refl c =
    rw
      (
        same_text_refl c.session_id,
        same_text_refl c.operation_id,
        same_type_refl c.predicate_type,
        ==_self c.depth,
        same_text_refl c.node_id,
      )
      refl

pub length-map {ℓ ℓ'} :
    {A : Type ℓ} {B : Type ℓ'} (f : A → B) (l : List A) → length (map f l) ≡ length l
length-map f [] = refl
length-map f (a ∷ l) = ap suc (length-map f l)

-- A label of a garbled output is read as its bit.
pub read_output-labelled :
    (gmp : Gmp) (sha256 : List ℕ → List ℕ) (request : FinishRequest) (b : Bool) (d z : Label)
    → request.out0 ≡ z
    → request.out1 ≡ label_xor z d
    → same_text (label_xor z d) z ≡ false
    → read_output gmp sha256 request (labelled b d z) ≡ ok b
read_output-labelled gmp sha256 request false d z o0 o1 differ = rw (o0, same_text_refl z) refl
read_output-labelled gmp sha256 request true d z o0 o1 differ =
    rw (o0, o1, differ, same_text_refl (label_xor z d)) refl

module _ (s : Scheme) (gmp : Gmp) (csp : Csp) (request : StartRequest) (keys : List ℕ) where
  pub handle_start-accepts :
      (c : BooleanCircuit)
      → check_start s gmp csp request ≡ ok tt
      → is_consumed (fused_replay request.context) csp.fused_replays ≡ false
      → predicate_circuit request.context.predicate_type
          (length request.items)
          request.has_incumbent
        ≡ ok c
      → handle_start s gmp csp request keys ≡ (
        record {
          pending_fused = some (record {
            context = request.context;
            incumbent = request.has_incumbent;
            choices = choices_of s request.items;
            keys = keys;
            circuit = c;
          });
          fused_replays = fused_replay request.context ∷ csp.fused_replays;
        },
        ok (
            ot_responses s request.rsa_n request.rsa_e
              (choices_of s request.items)
              keys
              request.items),
      )
  unfolding handle_start
  handle_start-accepts c checked fresh built = rw (checked, handle_start, fresh, built) refl

  pub check_start-passes :
      csp.pending_fused ≡ none
      → same_type request.context.predicate_type PredicateType.other ≡ false
      → 0 < length request.items
      → length request.items ≤ max_batch_size
      → gmp.size_in_base2 request.rsa_n ≡ 3072
      → request.rsa_e ≡ 65_537
      → all_of
          (λ i. ltb 0 i.x0 && ltb i.x0 request.rsa_n && (ltb 0 i.x1 && ltb i.x1 request.rsa_n))
          request.items
        ≡ true
      → check_start s gmp csp request ≡ ok tt
  unfolding check_start
  check_start-passes idle known some_item few size exponent nonces =
      rw
        (
          idle,
          known,
          not_zero (length request.items) some_item,
          le→leb (length request.items) max_batch_size few,
          size,
          exponent,
          nonces,
        )
        refl
    where
      not_zero : (n : ℕ) → 0 < n → (n == 0) ≡ false
      not_zero n h = ground arith

module _ (gmp : Gmp) (sha256 : List ℕ → List ℕ) where
  pub evaluate_pending-reads :
      (p : PendingFused) (request : FinishRequest) (labels : List Label)
      → same_context request.context p.context ≡ true
      → length request.pairs ≡ length p.choices
      → length request.tables ≡ length p.circuit.and_gates
      → evaluate_wires sha256
          (drop (length p.choices) p.circuit.wires)
          p.circuit.and_gates
          request.tables
          0
          (received_labels gmp sha256 0 p.choices p.keys request.pairs)
        ≡ some labels
      → evaluate_pending gmp sha256 p request
        ≡ read_output gmp sha256 request (label_at labels p.circuit.output)
  unfolding evaluate_pending
  evaluate_pending-reads p request labels same pairs tables evaluated =
      rw
        (
          same,
          pairs,
          tables,
          ==_self (length p.choices),
          ==_self (length p.circuit.and_gates),
          evaluated,
        )
        refl

module _ (s : Scheme) (gmp : Gmp) (sha256 : List ℕ → List ℕ) (ot : OtKey) (draw : ℕ → Label) where
  abbrev pub request_of :
      PredicateContext → List Comparison → List ℕ → GarbledPredicate → FinishRequest
  request_of context cs responses g = record {
    context = context;
    pairs = finish_pairs s gmp sha256 ot g.delta g.zero 0 cs responses;
    tables = g.tables;
    out0 = label_at g.zero g.circuit.output;
    out1 = label_xor (label_at g.zero g.circuit.output) g.delta;
  }

  pub finish_request-built :
      (context : PredicateContext) (has_incumbent : Bool) (cs : List Comparison)
      (responses : List ℕ) (c : BooleanCircuit) (g : GarbledPredicate)
      → length responses ≡ length cs
      → predicate_circuit context.predicate_type (length cs) has_incumbent ≡ ok c
      → garble_circuit sha256 draw (length cs) c ≡ some g
      → finish_request s gmp sha256 ot draw context has_incumbent cs responses
        ≡ ok (request_of context cs responses g)
  unfolding finish_request
  finish_request-built context has_incumbent cs responses c g sized built garbled =
      rw (sized, ==_self (length cs), built, garbled, garbled_or_error) refl

  pub length-finish_pairs :
      (d : Label) (zeros : List Label) (index : ℕ) (cs : List Comparison) (rs : List ℕ)
      → length rs ≡ length cs
      → length (finish_pairs s gmp sha256 ot d zeros index cs rs) ≡ length cs
  unfolding finish_pairs
  length-finish_pairs d zeros index [] rs h = refl
  length-finish_pairs d zeros index (c ∷ cs) [] h = absurd (omega (arith, h))
  length-finish_pairs d zeros index (c ∷ cs) (r ∷ rs) h =
      ap suc (length-finish_pairs d zeros (index + 1) cs rs (omega (arith, h)))

  pub length-ot_responses :
      {cs : List Comparison} {vs : List (ℤ × ℤ)} {keys : List ℕ} {is : List StartItem}
      → AllOffer s ot cs vs keys is
      → length (ot_responses s ot.ot_modulus ot.ot_public (choices_of s is) keys is) ≡ length cs
  unfolding ot_responses
  length-ot_responses none_left = refl
  length-ot_responses (one_more h hs) = ap suc (length-ot_responses hs)

  pub exchange :
      (keys : List ℕ) (csp csp' : Csp) (context : PredicateContext) (has_incumbent : Bool)
      (cs : List Comparison) (is : List StartItem) (responses : List ℕ) (request : FinishRequest)
      → 0 < length cs
      → length cs ≤ max_batch_size
      → start_items s cs ≡ ok is
      → handle_start s gmp csp (start_request s gmp sha256 ot context has_incumbent is) keys
        ≡ (csp', ok responses)
      → finish_request s gmp sha256 ot draw context has_incumbent cs responses ≡ ok request
      → fused_predicate s gmp sha256 ot draw keys csp context has_incumbent cs
        ≡ handle_finish gmp sha256 csp' request
  unfolding fused_predicate
  exchange keys csp csp' context has_incumbent cs is responses request some_item few items started
        finished =
      rw
        (
          not_zero (length cs) some_item,
          le→leb (length cs) max_batch_size few,
          items,
          fused_predicate,
          started,
          finished,
        )
        refl
    where
      not_zero : (n : ℕ) → 0 < n → (n == 0) ≡ false
      not_zero n h = ground arith

pub known_type :
    (type : PredicateType) (has_incumbent : Bool) (bits : List Bool) {b : Bool}
    → decision type has_incumbent bits ≡ some b
    → same_type type PredicateType.other ≡ false
known_type PredicateType.prune_node has_incumbent bits h = refl
known_type PredicateType.accept_candidate has_incumbent bits h = refl
known_type PredicateType.other has_incumbent bits h = cc

pub finished_csp :
    (gmp : Gmp) (sha256 : List ℕ → List ℕ) (p : PendingFused) (replays : List (List ℕ))
    (request : FinishRequest)
    → handle_finish gmp sha256 (record { pending_fused = some p; fused_replays = replays }) request
      ≡ (
        record { pending_fused = none; fused_replays = replays },
        evaluate_pending gmp sha256 p request,
      )
unfolding handle_finish
finished_csp gmp sha256 p replays request = refl
