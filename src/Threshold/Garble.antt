-- ===== src/Threshold/Garble.antt =====
-- `garblePredicate` of the CP, and the evaluation of a garbled circuit in the CSP's finish handler.
-- SHA-256 and the labels that RAND_bytes draws are parameters; the k-th draw is `draw k`.
pub mod Table
pub mod Evaluate
use soci_sgx_sdk.Prelude.{
  ℕ, zero, suc, ◌+◌, Bool, true, false, List, [], ◌∷◌, ◌++◌, Option, none, some, drop, get_or,
  replicate,
}
use soci_sgx_sdk.Wire.{write_u32}
use soci_sgx_sdk.Threshold.Circuit.{BooleanGate, LinearWire, BooleanCircuit, and}
use soci_sgx_sdk.Threshold.Labels.{Label, label_xor, zero_label, low_bit, with_low_bit, labelled}

abbrev pub label_at : List Label → ℕ → Label
label_at labels i = get_or labels i zero_label

-- The four rows of a gate, by the low bits of the two labels: `(a << 1) | b`.
abbrev pub Table : Type 0
Table = List Label

abbrev pub row : Bool → Bool → ℕ
row true true = 3
row true false = 2
row false true = 1
row false false = 0

abbrev pub set_row : Table → ℕ → Label → Table
set_row [] i label = []
set_row (l ∷ t) zero label = label ∷ t
set_row (l ∷ t) (suc i) label = l ∷ set_row t i label

-- The XOR of the labels of some wires.
unfoldable pub xor_labels : List Label → List ℕ → Label → Label
xor_labels labels [] acc = acc
xor_labels labels (t ∷ ts) acc = xor_labels labels ts (label_xor acc (label_at labels t))

abbrev pub after_tables :
    List Table → Option (List Label × List Table) → Option (List Label × List Table)
after_tables made none = none
after_tables made (some (zeros, tables)) = some (zeros, made ++ tables)

module _ (sha256 : List ℕ → List ℕ) where
  unfoldable pub gate_pad : Label → Label → ℕ → Label
  gate_pad a b gate = sha256 (a ++ (b ++ write_u32 gate))

  -- One pass of the two loops over the values of the inputs.
  unfoldable pub garble_row : Label → Label → Label → Label → ℕ → Table → Bool → Bool → Table
  unfolding gate_pad
  garble_row delta left right out gate table a b =
      let la = labelled a delta left in
      let lb = labelled b delta right in
      set_row table (row (low_bit la) (low_bit lb))
        (label_xor (gate_pad la lb gate) (labelled (and a b) delta out))

  unfoldable pub garble_gate : Label → Label → Label → Label → ℕ → Table
  unfolding garble_row
  garble_gate delta left right out gate =
      let t = garble_row delta left right out gate in
      t (t (t (t (replicate 4 zero_label) false false) false true) true false) true true

  -- One wire: its label for zero, the gates that are left, the tables that were made, and the
  -- number of the next gate. `none` where the wire's gate is missing.
  unfoldable pub garble_wire :
      (ℕ → Label)
      → Label
      → List Label
      → List ℕ
      → Bool
      → List BooleanGate
      → ℕ
      → Option (Label × List BooleanGate × List Table × ℕ)
  unfolding garble_gate xor_labels
  garble_wire draw delta zeros (t ∷ ts) constant gates gate =
      some (labelled constant delta (xor_labels zeros (t ∷ ts) zero_label), gates, [], gate)
  garble_wire draw delta zeros [] constant [] gate = none
  garble_wire draw delta zeros [] constant (g ∷ gates) gate =
      let left = label_at zeros g.left in
      let right = label_at zeros g.right in
      some (draw gate, gates, garble_gate delta left right (draw gate) gate ∷ [], gate + 1)

  -- The labels for zero of all wires, and the tables. `draw` gives the label of an AND gate.
  unfoldable pub garble_wires :
      (ℕ → Label)
      → Label
      → List LinearWire
      → List BooleanGate
      → ℕ
      → List Label
      → Option (List Label × List Table)
  unfolding garble_wire
  garble_wires draw delta [] gates gate zeros = some (zeros, [])
  garble_wires draw delta (w ∷ ws) gates gate zeros =
      elim (garble_wire draw delta zeros w.terms w.constant gates gate) [
        | none ↦ none
        | some (label, rest, made, next) ↦
            after_tables made (garble_wires draw delta ws rest next (zeros ++ label ∷ []))
      ]

  -- The evaluation of one wire: its label, the gates and tables that are left, the next gate.
  unfoldable pub evaluate_wire :
      List Label
      → List ℕ
      → List BooleanGate
      → List Table
      → ℕ
      → Option (Label × List BooleanGate × List Table × ℕ)
  unfolding gate_pad xor_labels
  evaluate_wire labels (t ∷ ts) gates tables gate =
      some (xor_labels labels (t ∷ ts) zero_label, gates, tables, gate)
  evaluate_wire labels [] [] tables gate = none
  evaluate_wire labels [] (g ∷ gates) [] gate = none
  evaluate_wire labels [] (g ∷ gates) (table ∷ tables) gate =
      let a = label_at labels g.left in
      let b = label_at labels g.right in
      some (
        label_xor (gate_pad a b gate) (label_at table (row (low_bit a) (low_bit b))),
        gates,
        tables,
        gate + 1,
      )

  unfoldable pub evaluate_wires :
      List LinearWire → List BooleanGate → List Table → ℕ → List Label → Option (List Label)
  unfolding evaluate_wire
  evaluate_wires [] gates tables gate labels = some labels
  evaluate_wires (w ∷ ws) gates tables gate labels =
      elim (evaluate_wire labels w.terms gates tables gate) [
        | none ↦ none
        | some (label, rest, left, next) ↦ evaluate_wires ws rest left next (labels ++ label ∷ [])
      ]

-- What `garblePredicate` returns.
pub record GarbledPredicate : Type 0 where
  pub circuit : BooleanCircuit
  pub delta : Label
  pub zero : List Label
  pub tables : List Table

-- The labels that are drawn for the inputs.
abbrev pub draws : (ℕ → Label) → ℕ → ℕ → List Label
draws draw zero i = []
draws draw (suc n) i = draw i ∷ draws draw n (i + 1)

abbrev pub garbled_from :
    BooleanCircuit → Label → Option (List Label × List Table) → Option GarbledPredicate
garbled_from c delta none = none
garbled_from c delta (some (zeros, made)) =
    some (record { circuit = c; delta = delta; zero = zeros; tables = made })

-- The first draw is for `delta`, then one for each input, then one for each gate.
unfoldable pub garble_circuit :
    (List ℕ → List ℕ) → (ℕ → Label) → ℕ → BooleanCircuit → Option GarbledPredicate
unfolding garble_wires
garble_circuit sha256 draw count c =
    let delta = with_low_bit (draw 0) in
    garbled_from c delta (
      garble_wires sha256 (λ gate. draw (1 + count + gate)) delta (drop count c.wires) c.and_gates 0
        (draws draw count 1))
