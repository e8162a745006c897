-- ===== src/Threshold/Fused/Decides.antt =====
-- The decision that comes out of a fused predicate, from the CP's comparisons to the CSP's answer.
use soci_sgx_sdk.Prelude.{
  ℕ, zero, suc, ◌+◌, ◌<◌, ◌≡◌, refl, sym, ap, subst, ◌∙◌, Bool, true, false, List, [], ◌∷◌, ◌++◌,
  Option, none, some, Result, ok, err, arith, length, drop, get_or, get_or-append, Bool-cases, inl,
  inr,
}
use soci_sgx_sdk.Text.{same_text}
use soci_sgx_sdk.Text.Same.{same_text-eq}
use soci_sgx_sdk.Threshold.Circuit.{
  BooleanGate, BooleanCircuit, CircuitError, xor, value_at, run_wires, output_of, run_circuit,
}
use soci_sgx_sdk.Threshold.Circuit.Decision.{run_built}
use soci_sgx_sdk.Threshold.Labels.{
  Label, label_xor, zero_label, low_bit, with_low_bit, labelled, IsLabel, low_bit-label_xor,
  low_bit-with_low_bit, length-with_low_bit,
}
use soci_sgx_sdk.Threshold.Garble.{
  Table, label_at, draws, garbled_from, garble_circuit, evaluate_wires,
}
use soci_sgx_sdk.Threshold.Garble.Evaluate.{Encodes, evaluate-garble}
use soci_sgx_sdk.Threshold.Fused.Inputs.{Encodes-cons, no_inputs}

-- A circuit that computes a bit has values for all its wires, and each gate serves one.
output_inv :
    (output : ℕ) (r : Option (List Bool × List BooleanGate)) {b : Bool}
    → output_of output r ≡ some b
    → (values : List Bool) × (r ≡ some (values, [])) × (value_at values output ≡ b)
output_inv output none h = cc
output_inv output (some (values, [])) h = (values, refl, cc)
output_inv output (some (values, g ∷ gates)) h = cc

pub built_inv :
    (r : Result CircuitError BooleanCircuit) (bits : List Bool) {b : Bool}
    → run_built r bits ≡ some b
    → (c : BooleanCircuit) × (r ≡ ok c) × (run_circuit c bits ≡ some b)
built_inv (err e) bits h = cc
built_inv (ok c) bits h = (c, refl, h)

-- The two labels of the output differ in their low bit.
pub labels_differ :
    (delta z : Label)
    → IsLabel delta
    → IsLabel z
    → low_bit delta ≡ true
    → same_text (label_xor z delta) z ≡ false
labels_differ delta z hd hz odd = elim (Bool-cases (same_text (label_xor z delta) z)) [
  | inr e ↦ e
  | inl e ↦ absurd (
      flips (low_bit z) (
        sym (ap (xor (low_bit z)) odd)
        ∙ (sym (low_bit-label_xor z delta (hz ∙ sym hd))
            ∙ ap low_bit (same_text-eq (label_xor z delta) z e))))
]
  where
    flips : (t : Bool) → xor t true ≡ t → ⊥
    flips true q = cc
    flips false q = cc

get_or-draws :
    (draw : ℕ → Label) (n k i : ℕ) (d : Label) → i < n → get_or (draws draw n k) i d ≡ draw (k + i)
get_or-draws draw zero k i d h = absurd (omega arith)
get_or-draws draw (suc n) k zero d h = ap draw (omega arith)
get_or-draws draw (suc n) k (suc i) d h =
    let same : k + 1 + i ≡ k + suc i = omega arith in
    get_or-draws draw n (k + 1) i d (omega arith) ∙ ap draw same

length-draws : (draw : ℕ → Label) (n k : ℕ) → length (draws draw n k) ≡ n
length-draws draw zero k = refl
length-draws draw (suc n) k = ap suc (length-draws draw n (k + 1))

pub delta_odd : (l : Label) → IsLabel l → low_bit (with_low_bit l) ≡ true
delta_odd [] h = absurd (omega arith)
delta_odd (x ∷ l) h = low_bit-with_low_bit x l

module _ (sha256 : List ℕ → List ℕ) (hs : (m : List ℕ) → IsLabel (sha256 m)) (draw : ℕ → Label)
    (hr : (i : ℕ) → IsLabel (draw i)) where
  abbrev pub delta : Label
  delta = with_low_bit (draw 0)

  pub delta-IsLabel : IsLabel delta
  delta-IsLabel = length-with_low_bit (draw 0) ∙ hr 0

  -- A garbled circuit, with the labels that its evaluation gives for all labels of its inputs.
  pub record Garbled (c : BooleanCircuit) (bits : List Bool) (b : Bool) : Type 0 where
    pub zeros : List Label
    pub tables : List Table
    pub garbles :
        garble_circuit sha256 draw (length bits) c
        ≡ some (record { circuit = c; delta = delta; zero = zeros; tables = tables })
    pub drawn : (i : ℕ) → i < length bits → label_at zeros i ≡ draw (1 + i)
    pub counted : length tables ≡ length c.and_gates
    pub evaluates :
        (labels : List Label)
        → Encodes delta (draws draw (length bits) 1) bits labels
        → (labels' : List Label) × (evaluate_wires sha256
              (drop (length bits) c.wires)
              c.and_gates
              tables
              0
              labels
            ≡ some labels')
          × (label_at labels' c.output ≡ labelled b delta (label_at zeros c.output))
          × IsLabel (label_at zeros c.output)

  abbrev canonical : List Bool → ℕ → List Label
  canonical [] k = []
  canonical (b ∷ bs) k = labelled b delta (draw k) ∷ canonical bs (k + 1)

  canonical-Encodes :
      (bits : List Bool) (k : ℕ)
      → Encodes delta (draws draw (length bits) k) bits (canonical bits k)
  canonical-Encodes [] k = no_inputs delta
  canonical-Encodes (b ∷ bs) k =
      Encodes-cons delta (draw k) b (draws draw (length bs) (k + 1)) (canonical bs (k + 1)) bs
        (hr k) (canonical-Encodes bs (k + 1))

  same_garbling :
      {zs zs' : List Label} {ts ts' : List Table} {r : Option (List Label × List Table)}
      → r ≡ some (zs, ts)
      → r ≡ some (zs', ts')
      → (zs' ≡ zs) × (ts' ≡ ts)
  same_garbling h g = (cc, cc)

  pub circuit-Garbled :
      (c : BooleanCircuit) (bits : List Bool) (b : Bool)
      → run_circuit c bits ≡ some b
      → Garbled c bits b
  unfolding garble_circuit run_circuit
  circuit-Garbled c bits b h =
      let (values, ran, out) =
        output_inv c.output (run_wires (drop (length bits) c.wires) c.and_gates bits) h in
      let gate_draw = λ (gate : ℕ). draw (1 + length bits + gate) in
      let inputs = draws draw (length bits) 1 in
      let run = λ (labels : List Label) (e : Encodes delta inputs bits labels).
        evaluate-garble sha256 hs gate_draw (λ i. hr (1 + length bits + i)) delta delta-IsLabel
          (delta_odd (draw 0) (hr 0)) (drop (length bits) c.wires) c.and_gates 0 inputs labels bits
          values [] e ran in
      let (more, tables, labels0, garbled, evaluated0, counted, encodes0) =
        run (canonical bits 1) (canonical-Encodes bits 1) in
      record {
        zeros = inputs ++ more;
        tables = tables;
        garbles = ap (garbled_from c delta) garbled;
        drawn = λ i l.
            get_or-append inputs more zero_label i
              (subst (λ k. i < k) (sym (length-draws draw (length bits) 1)) l)
            ∙ get_or-draws draw (length bits) 1 i zero_label l;
        counted = omega (arith, counted);
        evaluates = λ labels e.
            let (more', tables', labels', garbled', evaluated, counted', encodes) = run labels e in
            let (same_zeros, same_tables) = same_garbling garbled garbled' in
            (
              labels',
              subst
                  (λ ts.
                    evaluate_wires sha256 (drop (length bits) c.wires) c.and_gates ts 0 labels
                    ≡ some labels')
                  same_tables evaluated,
              encodes.reads c.output
                  ∙ (ap (λ t. labelled t delta (label_at (inputs ++ more') c.output)) out
                      ∙ ap (λ zs. labelled b delta (label_at zs c.output)) same_zeros),
              encodes0.is_label c.output,
            );
      }
