-- ===== src/Threshold/Garble/Evaluate.antt =====
-- The evaluation of a garbled circuit, beside the values of the circuit's wires.
use soci_sgx_sdk.Prelude.{
  ℕ, ◌+◌, ◌≡◌, refl, sym, ap, subst, ◌∙◌, Bool, true, false, List, [], ◌∷◌, ◌++◌, Option, none,
  some, arith, length, ◌==◌, if◌then◌else◌, length-append, Option-cases, inl, inr, get_or-last,
}
use native.Mathlib.Nat.{zero-add}
use mathlib.Core.List.{append-nil, append_assoc}
use soci_sgx_sdk.Threshold.Circuit.{
  BooleanGate, LinearWire, xor, value_at, xor_terms, wire_value, run_wires,
}
use soci_sgx_sdk.Threshold.Labels.{
  Label, label_xor, zero_label, low_bit, labelled, IsLabel, label_xor-IsLabel, labelled-IsLabel,
  labelled-labelled, labelled_flip,
}
use soci_sgx_sdk.Threshold.Garble.{
  label_at, Table, xor_labels, garble_gate, garble_wire, garble_wires, evaluate_wire,
  evaluate_wires, after_tables,
}
use soci_sgx_sdk.Threshold.Garble.Table.{gate_value}

-- Each label stands for its bit, by the label for zero of its wire. Behind the end all three lists
-- read as zero.
pub record Encodes (delta : Label) (zeros : List Label) (values : List Bool) (labels : List Label)
    : Type 0 where
  pub zeros_sized : length zeros ≡ length values
  pub labels_sized : length labels ≡ length values
  pub is_label : (i : ℕ) → IsLabel (label_at zeros i)
  pub reads : (i : ℕ) → label_at labels i ≡ labelled (value_at values i) delta (label_at zeros i)

labelled_if :
    (t b v : Bool) (delta z y l : Label)
    → l ≡ labelled v delta y
    → (if t then labelled b delta z else l)
      ≡ labelled (if t then b else v) delta (if t then z else y)
labelled_if true b v delta z y l e = refl
labelled_if false b v delta z y l e = e

module _ (delta : Label) (hd : IsLabel delta) (zeros : List Label) (values : List Bool)
    (labels : List Label) (h : Encodes delta zeros values labels) where
  -- A wire more.
  Encodes-last :
      (z : Label) (b : Bool)
      → IsLabel z
      → Encodes delta (zeros ++ z ∷ []) (values ++ b ∷ []) (labels ++ labelled b delta z ∷ [])
  Encodes-last z b hz = record {
    zeros_sized =
        omega (arith, h.zeros_sized, length-append zeros (z ∷ []), length-append values (b ∷ []));
    labels_sized = omega (
      arith,
      h.labels_sized,
      length-append labels (labelled b delta z ∷ []),
      length-append values (b ∷ []),
    );
    is_label = λ i.
        subst IsLabel (sym (get_or-last zeros z zero_label i))
          (either (i == length zeros) z (label_at zeros i) hz (h.is_label i));
    reads = λ i.
        get_or-last labels (labelled b delta z) zero_label i
        ∙ (labelled_if (i == length labels) b (value_at values i) delta z (label_at zeros i)
              (label_at labels i) (h.reads i)
            ∙ sym (λ k. labelled (value_i i k) delta (zero_i i k)));
  }
    where
      value_i :
          (i : ℕ)
          → value_at (values ++ b ∷ []) i ≡ (if i == length labels then b else value_at values i)
      value_i i =
          get_or-last values b false i
          ∙ ap (λ n. if i == n then b else value_at values i) (sym h.labels_sized)

      zero_i :
          (i : ℕ)
          → label_at (zeros ++ z ∷ []) i ≡ (if i == length labels then z else label_at zeros i)
      zero_i i =
          get_or-last zeros z zero_label i
          ∙ ap (λ n. if i == n then z else label_at zeros i) (h.zeros_sized ∙ sym h.labels_sized)

      either : (t : Bool) (x y : Label) → IsLabel x → IsLabel y → IsLabel (if t then x else y)
      either true x y hx hy = hx
      either false x y hx hy = hy

  xor_labels-labelled :
      (ts : List ℕ) (acc : Label) (b : Bool)
      → IsLabel acc
      → IsLabel (xor_labels zeros ts acc)
        × (xor_labels labels ts (labelled b delta acc)
            ≡ labelled (xor_terms values ts b) delta (xor_labels zeros ts acc))
  unfolding xor_labels xor_terms
  xor_labels-labelled [] acc b ha = (ha, refl)
  xor_labels-labelled (t ∷ ts) acc b ha =
      let (sized, equal) =
        xor_labels-labelled ts (label_xor acc (label_at zeros t)) (xor b (value_at values t))
          (label_xor-IsLabel acc (label_at zeros t) ha (h.is_label t)) in
      (
        sized,
        ap (xor_labels labels ts) (
              ap (label_xor (labelled b delta acc)) (h.reads t)
              ∙ labelled-labelled b (value_at values t) delta acc (label_at zeros t) hd ha
                  (h.is_label t))
            ∙ equal,
      )

left_over :
    {x b : Bool} {gs rest : List BooleanGate}
    → ◌≡◌ {A = Option (Bool × List BooleanGate)} (some (x, gs)) (some (b, rest))
    → gs ≡ rest
left_over h = cc

left_over_all :
    {xs bs : List Bool} {gs rest : List BooleanGate}
    → ◌≡◌ {A = Option (List Bool × List BooleanGate)} (some (xs, gs)) (some (bs, rest))
    → gs ≡ rest
left_over_all h = cc

-- How a wire is garbled and evaluated.
record Agrees (sha256 : List ℕ → List ℕ) (draw : ℕ → Label) (delta : Label)
    (zeros labels : List Label) (ts : List ℕ) (k : Bool) (gates rest : List BooleanGate) (gate : ℕ)
    (b : Bool) : Type 0 where
  zero_of : Label
  made : List Table
  next : ℕ
  sized : IsLabel zero_of
  counts : length made + length rest ≡ length gates
  garbles : garble_wire sha256 draw delta zeros ts k gates gate ≡ some (zero_of, rest, made, next)
  evaluates :
      (more : List Table)
      → evaluate_wire sha256 labels ts gates (made ++ more) gate
        ≡ some (labelled b delta zero_of, rest, more, next)

module _ (sha256 : List ℕ → List ℕ) (hs : (m : List ℕ) → IsLabel (sha256 m)) (draw : ℕ → Label)
    (hr : (i : ℕ) → IsLabel (draw i)) (delta : Label) (hd : IsLabel delta)
    (odd : low_bit delta ≡ true) where
  wire_Agrees :
      (zeros labels : List Label) (values : List Bool)
      → Encodes delta zeros values labels
      → (ts : List ℕ) (k : Bool) (gates : List BooleanGate) (gate : ℕ) (b : Bool)
        (rest : List BooleanGate)
      → wire_value values ts k gates ≡ some (b, rest)
      → Agrees sha256 draw delta zeros labels ts k gates rest gate b
  unfolding wire_value garble_wire evaluate_wire
  wire_Agrees zeros labels values h (t ∷ ts) k gates gate b rest e =
      let (sized, equal) =
        xor_labels-labelled delta hd zeros values labels h (t ∷ ts) zero_label false refl in
      record {
        zero_of = labelled k delta (xor_labels zeros (t ∷ ts) zero_label);
        made = [];
        next = gate;
        sized = labelled-IsLabel k delta (xor_labels zeros (t ∷ ts) zero_label) hd sized;
        counts = zero-add (length rest) ∙ ap length (sym (left_over e));
        garbles = cc;
        evaluates = λ more. cc (
          equal,
          labelled_flip (xor_terms values (t ∷ ts) false) k delta
              (xor_labels zeros (t ∷ ts) zero_label) hd sized,
        );
      }
  wire_Agrees zeros labels values h [] k [] gate b rest e = cc
  wire_Agrees zeros labels values h [] k (g ∷ gates) gate b rest e = record {
    zero_of = draw gate;
    made =
        garble_gate sha256 delta (label_at zeros g.left) (label_at zeros g.right) (draw gate) gate
        ∷ [];
    next = gate + 1;
    sized = hr gate;
    counts = omega (arith, ap length (left_over e));
    garbles = cc;
    evaluates = λ more.
        rw
          (
            h.reads g.left,
            h.reads g.right,
            gate_value sha256 delta (label_at zeros g.left) (label_at zeros g.right) (draw gate)
                gate (value_at values g.left) (value_at values g.right) hs hd (h.is_label g.left)
                (h.is_label g.right) (hr gate) odd,
          )
          (cc);
  }

  -- A garbled circuit can be evaluated where the circuit has values, and gives their labels; the
  -- labels of the inputs stand first.
  pub evaluate-garble :
      (ws : List LinearWire) (gates : List BooleanGate) (gate : ℕ) (zeros labels : List Label)
      (values after : List Bool) (rest : List BooleanGate)
      → Encodes delta zeros values labels
      → run_wires ws gates values ≡ some (after, rest)
      → (more : List Label) × (tables : List Table) × (labels' : List Label) × (garble_wires sha256
            draw delta ws gates gate zeros
          ≡ some (zeros ++ more, tables))
        × (evaluate_wires sha256 ws gates tables gate labels ≡ some labels')
        × (length tables + length rest ≡ length gates)
        × Encodes delta (zeros ++ more) after labels'
  unfolding run_wires garble_wires evaluate_wires
  evaluate-garble [] gates gate zeros labels values after rest h e = (
    [],
    [],
    labels,
    ap (λ zs. some (zs, [])) (sym (append-nil zeros)),
    refl,
    zero-add (length rest) ∙ ap length (sym (left_over_all e)),
    subst (λ zs. Encodes delta zs after labels) (sym (append-nil zeros))
        (subst (λ vs. Encodes delta zeros vs labels) (cc) h),
  )
  evaluate-garble (w ∷ ws) gates gate zeros labels values after rest h e =
      elim (Option-cases (wire_value values w.terms w.constant gates)) [
        | inl none_left ↦ absurd (missing (rw (none_left, run_wires) at e))
        | inr ((b, gates'), found) ↦
            let a : Agrees sha256 draw delta zeros labels w.terms w.constant gates gates' gate b =
              wire_Agrees zeros labels values h w.terms w.constant gates gate b gates' found in
            let (more, tables, labels', garbled, evaluated, counted, encodes) =
              evaluate-garble ws gates' a.next (zeros ++ a.zero_of ∷ [])
                (labels ++ labelled b delta a.zero_of ∷ []) (values ++ b ∷ []) after rest
                (Encodes-last delta hd zeros values labels h a.zero_of b a.sized)
                (rw (found, run_wires) at e) in
            (
              a.zero_of ∷ more,
              a.made ++ tables,
              labels',
              rw (a.garbles, garble_wires)
                  (ap (after_tables a.made) (
                    garbled
                    ∙ ap (λ zs. some (zs, tables)) (append_assoc zeros (a.zero_of ∷ []) more))),
              rw (a.evaluates tables, evaluate_wires) evaluated,
              omega (arith, a.counts, counted, length-append a.made tables),
              subst (λ zs. Encodes delta zs after labels')
                  (append_assoc zeros (a.zero_of ∷ []) more) encodes,
            )
      ]
    where
      missing : ◌≡◌ {A = Option (List Bool × List BooleanGate)} none (some (after, rest)) → ⊥
      missing q = cc
