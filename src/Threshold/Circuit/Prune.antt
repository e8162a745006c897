-- ===== src/Threshold/Circuit/Prune.antt =====
-- The fold of the pruning circuit, and the disjunction of its inputs.
use soci_sgx_sdk.Prelude.{
  ℕ, zero, suc, ◌+◌, ◌-◌, ◌≤◌, ◌<◌, ◌≡◌, refl, ap, sym, ◌∙◌, Bool, false, ◌||◌, List, [], ◌∷◌, some,
  arith, length, drop,
}
use native.Mathlib.Nat.{suc-add}
use soci_sgx_sdk.Predicate.Tree.{disjunction}
use soci_sgx_sdk.Threshold.Circuit.{
  BooleanCircuit, or_wire, fold_or, input_wires, inputs_of, prune_circuit, value_at, run_wires,
  run_circuit, with_output,
}
use soci_sgx_sdk.Threshold.Circuit.Wires.{Computes, Grows, or_wire-Grows}

-- The inputs from `i` on.
drop-value_at :
    (xs : List Bool) (i : ℕ) → i < length xs → drop i xs ≡ value_at xs i ∷ drop (i + 1) xs
drop-value_at [] i h = absurd (omega arith)
drop-value_at (x ∷ xs) zero h = refl
drop-value_at (x ∷ xs) (suc i) h = rw (suc-add i 1) (drop-value_at xs i (omega arith))

drop_all : {A : Type 0} (xs : List A) (n : ℕ) → length xs ≤ n → drop n xs ≡ []
drop_all [] zero h = refl
drop_all [] (suc n) h = refl
drop_all (x ∷ xs) zero h = absurd (omega arith)
drop_all (x ∷ xs) (suc n) h = drop_all xs n (omega arith)

or_none : (b : Bool) → (b || false) ≡ b
or_none b = ground arith

or_assoc : (a b c : Bool) → ((a || b) || c) ≡ (a || (b || c))
or_assoc a b c = ground arith

or_then :
    (rounds i folded : ℕ) (c : BooleanCircuit) (inputs values : List Bool)
    (wire : Grows inputs values (or_wire folded i c) (value_at values folded || value_at values i))
    → value_at values i ≡ value_at inputs i
    → i < length inputs
    → Grows inputs wire.after
        (fold_or rounds (i + 1) (or_wire folded i c).1 (or_wire folded i c).0)
        (value_at wire.after (or_wire folded i c).1 || disjunction (drop (i + 1) inputs))
    → Grows inputs values
        (fold_or (suc rounds) i folded c)
        (value_at values folded || disjunction (drop i inputs))
unfolding fold_or
or_then rounds i folded c inputs values wire same l rest = record {
  after = rest.after;
  computes = rest.computes;
  keeps = λ j k. rest.keeps j (omega (arith, wire.longer)) ∙ wire.keeps j k;
  is_out =
      rest.is_out
      ∙ (ap (λ b. b || disjunction (drop (i + 1) inputs))
            (wire.is_out ∙ ap (λ b. value_at values folded || b) same)
          ∙ (or_assoc (value_at values folded) (value_at inputs i)
                (disjunction (drop (i + 1) inputs))
              ∙ ap (λ xs. value_at values folded || disjunction xs)
                  (sym (drop-value_at inputs i l))));
  in_range = rest.in_range;
  longer = omega (arith, wire.longer, rest.longer);
}

-- The fold over the inputs that are left.
fold_or-Grows :
    (rounds i folded : ℕ) (c : BooleanCircuit) (inputs values : List Bool)
    → Computes c inputs values
    → ((j : ℕ) → j < length inputs → value_at values j ≡ value_at inputs j)
    → i + rounds ≡ length inputs
    → folded < length values
    → Grows inputs values
        (fold_or rounds i folded c)
        (value_at values folded || disjunction (drop i inputs))
unfolding fold_or
fold_or-Grows zero i folded c inputs values h same e l = record {
  after = values;
  computes = h;
  keeps = λ j k. refl;
  is_out =
      sym (or_none (value_at values folded))
      ∙ ap (λ xs. value_at values folded || disjunction xs) (sym (drop_all inputs i (omega arith)));
  in_range = l;
  longer = omega arith;
}
fold_or-Grows (suc rounds) i folded c inputs values h same e l =
    let wire : Grows inputs values (or_wire folded i c)
        (value_at values folded || value_at values i) =
      or_wire-Grows c inputs values folded i h l (omega (arith, h.enough, h.sized)) in
    or_then rounds i folded c inputs values wire (same i (omega arith)) (omega arith) (
      fold_or-Grows rounds (i + 1) (or_wire folded i c).1 (or_wire folded i c).0 inputs wire.after
        wire.computes (λ j k. wire.keeps j (omega (arith, h.enough, h.sized)) ∙ same j k)
        (omega arith) wire.in_range)

length-input_wires : (n i : ℕ) → length (input_wires n i) ≡ n
unfolding input_wires
length-input_wires zero i = refl
length-input_wires (suc n) i = ap suc (length-input_wires n (i + 1))

pub inputs_of-Computes : (inputs : List Bool) → Computes (inputs_of (length inputs)) inputs inputs
unfolding inputs_of run_wires
inputs_of-Computes inputs = record {
  runs =
      ap (λ ws. run_wires ws [] inputs)
        (drop_all (input_wires (length inputs) 0) (length inputs)
          (omega (arith, length-input_wires (length inputs) 0)));
  sized = length-input_wires (length inputs) 0;
  enough = omega (arith, length-input_wires (length inputs) 0);
}

pub output_value :
    (added : BooleanCircuit × ℕ) (inputs values : List Bool) {b : Bool}
    → Computes added.0 inputs values
    → value_at values added.1 ≡ b
    → run_circuit (with_output added) inputs ≡ some b
unfolding run_circuit
output_value (c, out) inputs values h e = rw (h.runs, run_circuit, e) refl

rounds_left : (n : ℕ) → suc (suc n) - 2 ≡ n
rounds_left n = omega arith

-- The last wire of the pruning circuit.
first_or :
    (c : BooleanCircuit) (folded : ℕ) (inputs : List Bool) (b : Bool)
    → Grows inputs inputs (c, folded) b
    → 0 < length inputs
    → run_circuit (with_output (or_wire 0 folded c)) inputs ≡ some (value_at inputs 0 || b)
first_or c folded inputs b g l =
    let whole : Grows inputs g.after (or_wire 0 folded c)
        (value_at g.after 0 || value_at g.after folded) =
      or_wire-Grows c inputs g.after 0 folded g.computes (omega (arith, g.longer)) g.in_range in
    output_value (or_wire 0 folded c) inputs whole.after whole.computes
      (whole.is_out ∙ rw (g.keeps 0 l, g.is_out) refl)

-- The pruning circuit is the disjunction of its inputs.
pub prune_value :
    (b0 b1 : Bool) (bs : List Bool)
    → run_circuit (prune_circuit (length (b0 ∷ b1 ∷ bs))) (b0 ∷ b1 ∷ bs)
      ≡ some (b0 || disjunction (b1 ∷ bs))
unfolding prune_circuit
prune_value b0 b1 bs =
    let inputs : List Bool = b0 ∷ b1 ∷ bs in
    let start : BooleanCircuit = inputs_of (length inputs) in
    rw (rounds_left (length bs)) (
      first_or (fold_or (length bs) 2 1 start).0 (fold_or (length bs) 2 1 start).1 inputs
        (b1 || disjunction bs)
        (fold_or-Grows (length bs) 2 1 start inputs inputs (inputs_of-Computes inputs) (λ j l. refl)
          (omega arith) (omega arith))
        (omega arith))
