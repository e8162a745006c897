-- ===== src/Threshold/Garble/Table.antt =====
-- A garbled gate: the row that two labels select holds the label of the gate's value.
use soci_sgx_sdk.Prelude.{
  ℕ, ◌≡◌, refl, sym, ap, ◌∙◌, Bool, true, false, List, ◌++◌, arith, replicate,
}
use mathlib.Core.Path.{fun_ext}
use soci_sgx_sdk.Wire.{write_u32}
use soci_sgx_sdk.Threshold.Circuit.{xor, and}
use soci_sgx_sdk.Threshold.Labels.{
  Label, label_xor, zero_label, low_bit, labelled, IsLabel, low_bit-label_xor, label_xor_cancel,
  labelled-IsLabel,
}
use soci_sgx_sdk.Threshold.Garble.{label_at, Table, row, set_row, gate_pad, garble_gate}

-- Labels of a wire have different low bits.
low_bit-labelled :
    (b : Bool) (delta x : Label)
    → IsLabel delta
    → IsLabel x
    → low_bit delta ≡ true
    → low_bit (labelled b delta x) ≡ xor (low_bit x) b
low_bit-labelled true delta x hd hx odd =
    low_bit-label_xor x delta (hx ∙ sym hd) ∙ ap (xor (low_bit x)) odd
low_bit-labelled false delta x hd hx odd = xor_false (low_bit x)
  where
    xor_false : (b : Bool) → b ≡ xor b false
    xor_false true = refl
    xor_false false = refl

abbrev filled : (Bool → Bool) → (Bool → Bool) → (Bool → Bool → Label) → Table
filled p q f =
    set_row
      (set_row
        (set_row (set_row (replicate 4 zero_label) (row (p false) (q false)) (f false false))
          (row (p false) (q true)) (f false true))
        (row (p true) (q false)) (f true false))
      (row (p true) (q true)) (f true true)

-- Each pair of bits has a row of its own, whichever the low bits of the labels for zero are.
xor_rows :
    (p q a b : Bool) (f : Bool → Bool → Label)
    → label_at (filled (xor p) (xor q) f) (row (xor p a) (xor q b)) ≡ f a b
xor_rows p q a b f = ground arith

rows :
    (p q : Bool) (left right : Bool → Bool) (a b : Bool) (f : Bool → Bool → Label)
    → left ≡ xor p
    → right ≡ xor q
    → label_at (filled left right f) (row (left a) (right b)) ≡ f a b
rows p q left right a b f e k = rw (e, k) (xor_rows p q a b f)

gate_pad-IsLabel :
    (sha256 : List ℕ → List ℕ)
    → ((m : List ℕ) → IsLabel (sha256 m))
    → (a b : Label) (gate : ℕ) → IsLabel (gate_pad sha256 a b gate)
unfolding gate_pad
gate_pad-IsLabel sha256 h a b gate = h (a ++ (b ++ write_u32 gate))

module _ (sha256 : List ℕ → List ℕ) where
  garble_gate-row :
      (delta left right out : Label) (gate : ℕ) (a b : Bool)
      → IsLabel delta
      → IsLabel left
      → IsLabel right
      → low_bit delta ≡ true
      → label_at
          (garble_gate sha256 delta left right out gate)
          (row (low_bit (labelled a delta left)) (low_bit (labelled b delta right)))
        ≡ label_xor
            (gate_pad sha256 (labelled a delta left) (labelled b delta right) gate)
            (labelled (and a b) delta out)
  unfolding garble_gate
  garble_gate-row delta left right out gate a b hd hl hr odd =
      rows (low_bit left) (low_bit right) (λ x. low_bit (labelled x delta left))
        (λ x. low_bit (labelled x delta right)) a b
        (λ x y.
          label_xor (gate_pad sha256 (labelled x delta left) (labelled y delta right) gate)
            (labelled (and x y) delta out))
        (fun_ext (λ x. low_bit-labelled x delta left hd hl odd))
        (fun_ext (λ x. low_bit-labelled x delta right hd hr odd))

  -- Evaluating a garbled gate gives the label of the conjunction.
  pub gate_value :
      (delta left right out : Label) (gate : ℕ) (a b : Bool)
      → ((m : List ℕ) → IsLabel (sha256 m))
      → IsLabel delta
      → IsLabel left
      → IsLabel right
      → IsLabel out
      → low_bit delta ≡ true
      → label_xor (gate_pad sha256 (labelled a delta left) (labelled b delta right) gate) (
          label_at
            (garble_gate sha256 delta left right out gate)
            (row (low_bit (labelled a delta left)) (low_bit (labelled b delta right))))
        ≡ labelled (and a b) delta out
  gate_value delta left right out gate a b hs hd hl hr ho odd =
      ap (label_xor (gate_pad sha256 (labelled a delta left) (labelled b delta right) gate))
        (garble_gate-row delta left right out gate a b hd hl hr odd)
      ∙ label_xor_cancel (gate_pad sha256 (labelled a delta left) (labelled b delta right) gate)
          (labelled (and a b) delta out)
          (gate_pad-IsLabel sha256 hs (labelled a delta left) (labelled b delta right) gate)
          (labelled-IsLabel (and a b) delta out hd ho)
