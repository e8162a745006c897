-- ===== src/Threshold/Circuit.antt =====
-- `predicateCircuit`: the Boolean circuit of a fused predicate, with free XOR wires.
pub mod Wires
pub mod Prune
pub mod Decision
use soci_sgx_sdk.Prelude.{
  ℕ, zero, suc, ◌+◌, ◌-◌, ◌≡◌, Bool, true, false, List, [], ◌∷◌, ◌++◌, Option, none, some, Result,
  ok, err, ltb, ◌==◌, if◌then◌else◌, length, get_or, drop,
}
use soci_sgx_sdk.Predicate.{PredicateType, prune_node, accept_candidate, other}

pub record BooleanGate : Type 0 where
  pub left : ℕ
  pub right : ℕ
  pub output : ℕ

-- The XOR of source wires and a constant; a wire with no terms is the output of an AND gate.
pub record LinearWire : Type 0 where
  pub terms : List ℕ
  pub constant : Bool

pub record BooleanCircuit : Type 0 where
  pub input_count : ℕ
  pub and_gates : List BooleanGate
  pub wires : List LinearWire
  pub output : ℕ

pub data CircuitError : Type 0 where
  bad_prune_count bad_accept_count : CircuitError

-- The lambda `linear`: the circuit with one more wire, and the index of that wire.
unfoldable pub linear : List ℕ → Bool → BooleanCircuit → BooleanCircuit × ℕ
linear terms constant c = (
  record c { wires = c.wires ++ record { terms = terms; constant = constant } ∷ [] },
  length c.wires,
)

-- The lambda `land`.
unfoldable pub land : ℕ → ℕ → BooleanCircuit → BooleanCircuit × ℕ
unfolding linear
land a b c =
    let (c', out) = linear [] false c in
    (
      record c' { and_gates = c.and_gates ++ record { left = a; right = b; output = out } ∷ [] },
      out,
    )

-- The loop over the inputs, from input `i` on.
unfoldable pub input_wires : ℕ → ℕ → List LinearWire
input_wires zero i = []
input_wires (suc n) i = record { terms = i ∷ []; constant = false } ∷ input_wires n (i + 1)

unfoldable pub inputs_of : ℕ → BooleanCircuit
unfolding input_wires
inputs_of comparisons = record {
  input_count = comparisons;
  and_gates = [];
  wires = input_wires comparisons 0;
  output = 0;
}

-- `a OR b`, as the XOR of both and of their AND.
unfoldable pub or_wire : ℕ → ℕ → BooleanCircuit → BooleanCircuit × ℕ
unfolding linear land
or_wire a b c = let (c', p) = land a b c in linear (a ∷ b ∷ p ∷ []) false c'

-- The loop of the pruning circuit over the inputs `i`, `i + 1`, ..., from the fold so far.
unfoldable pub fold_or : ℕ → ℕ → ℕ → BooleanCircuit → BooleanCircuit × ℕ
unfolding or_wire
fold_or zero i folded c = (c, folded)
fold_or (suc rounds) i folded c =
    let (c', folded') = or_wire folded i c in fold_or rounds (i + 1) folded' c'

abbrev pub with_output : BooleanCircuit × ℕ → BooleanCircuit
with_output (c, out) = record c { output = out }

unfoldable pub prune_circuit : ℕ → BooleanCircuit
unfolding fold_or or_wire inputs_of
prune_circuit comparisons =
    let (c, folded) = fold_or (comparisons - 2) 2 1 (inputs_of comparisons) in
    with_output (or_wire 0 folded c)

abbrev feasible_circuit : BooleanCircuit → BooleanCircuit × ℕ
feasible_circuit c = let (c', linear_ge) = linear (0 ∷ []) true c in land linear_ge 1 c'

unfoldable pub accept_circuit : Bool → BooleanCircuit → BooleanCircuit
unfolding linear land
accept_circuit false c = with_output (feasible_circuit c)
accept_circuit true c =
    let (c1, feasible) = feasible_circuit c in
    let (c2, cost_eq) = linear (2 ∷ 3 ∷ []) true c1 in
    let (c3, equal_c12) = land cost_eq 4 c2 in
    let (c4, better) = linear (2 ∷ equal_c12 ∷ []) false c3 in with_output (land feasible better c4)

-- A type that is neither throws as a wrong ACCEPT count does.
unfoldable pub predicate_circuit : PredicateType → ℕ → Bool → Result CircuitError BooleanCircuit
unfolding prune_circuit accept_circuit inputs_of
predicate_circuit prune_node comparisons false = ok (inputs_of comparisons)
predicate_circuit prune_node comparisons true =
    if ltb comparisons 2 then err bad_prune_count else ok (prune_circuit comparisons)
predicate_circuit accept_candidate comparisons has_incumbent =
    if comparisons == (if has_incumbent then 5 else 2)
    then ok (accept_circuit has_incumbent (inputs_of comparisons))
    else err bad_accept_count
predicate_circuit other comparisons has_incumbent = err bad_accept_count

-- The meaning of a circuit: the values of its wires, input values first.
abbrev pub xor : Bool → Bool → Bool
xor true true = false
xor true false = true
xor false b = b

abbrev pub and : Bool → Bool → Bool
and true b = b
and false b = false

abbrev pub value_at : List Bool → ℕ → Bool
value_at values i = get_or values i false

unfoldable pub xor_terms : List Bool → List ℕ → Bool → Bool
xor_terms values [] acc = acc
xor_terms values (t ∷ ts) acc = xor_terms values ts (xor acc (value_at values t))

-- The value of one wire, with the gates that are left; `none` where its gate is missing.
unfoldable pub wire_value :
    List Bool → List ℕ → Bool → List BooleanGate → Option (Bool × List BooleanGate)
unfolding xor_terms
wire_value values (t ∷ ts) constant gates =
    some (xor (xor_terms values (t ∷ ts) false) constant, gates)
wire_value values [] constant [] = none
wire_value values [] constant (g ∷ gates) =
    some (and (value_at values g.left) (value_at values g.right), gates)

unfoldable pub run_wires :
    List LinearWire → List BooleanGate → List Bool → Option (List Bool × List BooleanGate)
unfolding wire_value
run_wires [] gates values = some (values, gates)
run_wires (w ∷ ws) gates values = elim (wire_value values w.terms w.constant gates) [
  | none ↦ none
  | some (b, rest) ↦ run_wires ws rest (values ++ b ∷ [])
]

abbrev pub output_of : ℕ → Option (List Bool × List BooleanGate) → Option Bool
output_of output none = none
output_of output (some (values, [])) = some (value_at values output)
output_of output (some (values, g ∷ gates)) = none

-- The output of a circuit on the values of its inputs, where each gate serves one wire.
unfoldable pub run_circuit : BooleanCircuit → List Bool → Option Bool
unfolding run_wires
run_circuit c inputs =
    output_of c.output (run_wires (drop (length inputs) c.wires) c.and_gates inputs)
