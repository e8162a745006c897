-- ===== src/Threshold/Circuit/Wires.antt =====
-- Values of wires while a circuit is put together.
use soci_sgx_sdk.Prelude.{
  ℕ, zero, suc, ◌+◌, ◌≤◌, ◌<◌, ◌≡◌, refl, ap, subst, ◌∙◌, Bool, false, ◌||◌, List, [], ◌∷◌, ◌++◌,
  Option, none, some, arith, length, drop, length-append, get_or-append, Option-cases, inl, inr,
}
use mathlib.Core.List.{append-nil}
use soci_sgx_sdk.Threshold.Circuit.{
  BooleanGate, LinearWire, BooleanCircuit, linear, land, or_wire, xor, and, value_at, xor_terms,
  wire_value, run_wires,
}

-- A wire keeps its value when gates are added behind.
wire_value-more :
    (values : List Bool) (ts : List ℕ) (k : Bool) (gs more rest : List BooleanGate) {b : Bool}
    → wire_value values ts k gs ≡ some (b, rest)
    → wire_value values ts k (gs ++ more) ≡ some (b, rest ++ more)
unfolding wire_value
wire_value-more values (t ∷ ts) k gs more rest h = cc
wire_value-more values [] k [] more rest h = cc
wire_value-more values [] k (g ∷ gs) more rest h = cc

run_wires-last :
    (w : LinearWire) (more : List BooleanGate) (ws : List LinearWire) (gs : List BooleanGate)
    (values out : List Bool) (rest : List BooleanGate)
    → run_wires ws gs values ≡ some (out, rest)
    → run_wires (ws ++ w ∷ []) (gs ++ more) values ≡ run_wires (w ∷ []) (rest ++ more) out
unfolding run_wires
run_wires-last w more [] gs values out rest h = cc
run_wires-last w more (v ∷ ws) gs values out rest h =
    elim (Option-cases (wire_value values v.terms v.constant gs)) [
      | inl e ↦ absurd (missing (rw (e, run_wires) at h))
      | inr ((b, gs'), e) ↦
          rw (wire_value-more values v.terms v.constant gs more gs' e, run_wires)
            (run_wires-last w more ws gs' (values ++ b ∷ []) out rest (rw (e, run_wires) at h))
    ]
  where
    missing : ◌≡◌ {A = Option (List Bool × List BooleanGate)} none (some (out, rest)) → ⊥
    missing e = cc

drop-append_le :
    {A : Type 0} (n : ℕ) (xs ys : List A) → n ≤ length xs → drop n (xs ++ ys) ≡ drop n xs ++ ys
drop-append_le zero xs ys h = refl
drop-append_le (suc n) [] ys h = absurd (omega arith)
drop-append_le (suc n) (x ∷ xs) ys h = drop-append_le n xs ys (omega arith)

-- The circuit under construction computes these values on these inputs.
pub record Computes (c : BooleanCircuit) (inputs values : List Bool) : Type 0 where
  pub runs : run_wires (drop (length inputs) c.wires) c.and_gates inputs ≡ some (values, [])
  pub sized : length c.wires ≡ length values
  pub enough : length inputs ≤ length c.wires

linear_runs :
    (values : List Bool) (t : ℕ) (ts : List ℕ) (k : Bool)
    → run_wires (record { terms = t ∷ ts; constant = k } ∷ []) [] values
      ≡ some (values ++ xor (xor_terms values (t ∷ ts) false) k ∷ [], [])
unfolding run_wires wire_value
linear_runs values t ts k = refl

land_runs :
    (values : List Bool) (a b out : ℕ)
    → run_wires
        (record { terms = []; constant = false } ∷ [])
        (record { left = a; right = b; output = out } ∷ [])
        values
      ≡ some (values ++ and (value_at values a) (value_at values b) ∷ [], [])
unfolding run_wires wire_value
land_runs values a b out = refl

module _ (c : BooleanCircuit) (inputs values : List Bool) (h : Computes c inputs values) where
  -- A wire more, with the gates that it takes.
  extended :
      (w : LinearWire) (more : List BooleanGate) (b : Bool)
      → run_wires (w ∷ []) more values ≡ some (values ++ b ∷ [], [])
      → Computes
          (record c { wires = c.wires ++ w ∷ []; and_gates = c.and_gates ++ more })
          inputs
          (values ++ b ∷ [])
  extended w more b e = record {
    runs =
        ap (λ ws. run_wires ws (c.and_gates ++ more) inputs)
          (drop-append_le (length inputs) c.wires (w ∷ []) h.enough)
        ∙ (run_wires-last w more (drop (length inputs) c.wires) c.and_gates inputs values [] h.runs
            ∙ e);
    sized = omega (arith, h.sized, length-append c.wires (w ∷ []), length-append values (b ∷ []));
    enough = omega (arith, h.enough, length-append c.wires (w ∷ []));
  }

  linear-Computes :
      (t : ℕ) (ts : List ℕ) (k : Bool)
      → Computes
          (linear (t ∷ ts) k c).0
          inputs
          (values ++ xor (xor_terms values (t ∷ ts) false) k ∷ [])
  unfolding linear
  linear-Computes t ts k =
      subst
        (λ gs.
          Computes
            (record c {
              wires = c.wires ++ record { terms = t ∷ ts; constant = k } ∷ [];
              and_gates = gs;
            })
            inputs (values ++ xor (xor_terms values (t ∷ ts) false) k ∷ []))
        (append-nil c.and_gates)
        (extended (record { terms = t ∷ ts; constant = k }) []
          (xor (xor_terms values (t ∷ ts) false) k) (linear_runs values t ts k))

  land-Computes :
      (a b : ℕ)
      → Computes (land a b c).0 inputs (values ++ and (value_at values a) (value_at values b) ∷ [])
  unfolding land linear
  land-Computes a b =
      extended (record { terms = []; constant = false })
        (record { left = a; right = b; output = length c.wires } ∷ [])
        (and (value_at values a) (value_at values b)) (land_runs values a b (length c.wires))

value_at-last : (xs : List Bool) (b : Bool) → value_at (xs ++ b ∷ []) (length xs) ≡ b
value_at-last [] b = refl
value_at-last (x ∷ xs) b = value_at-last xs b

-- A part of a circuit was added: its output is `b`, and the wires before keep their values.
pub record Grows (inputs values : List Bool) (added : BooleanCircuit × ℕ) (b : Bool) : Type 0 where
  pub after : List Bool
  pub computes : Computes added.0 inputs after
  pub keeps : (j : ℕ) → j < length values → value_at after j ≡ value_at values j
  pub is_out : value_at after added.1 ≡ b
  pub in_range : added.1 < length after
  pub longer : length values ≤ length after

xor_or : (a b : Bool) → xor (xor (xor (xor false a) b) (and a b)) false ≡ a || b
xor_or a b = ground arith

or_value :
    (values : List Bool) (a b i : ℕ) (x y : Bool)
    → value_at values a ≡ x
    → value_at values b ≡ y
    → value_at values i ≡ and x y
    → xor (xor_terms values (a ∷ b ∷ i ∷ []) false) false ≡ x || y
unfolding xor_terms
or_value values a b i x y ea eb ei = rw (ea, eb, ei) (xor_or x y)

-- The wire that is added last.
added_value :
    (ws : List LinearWire) (xs : List Bool) (b : Bool)
    → length ws ≡ length xs
    → value_at (xs ++ b ∷ []) (length ws) ≡ b
added_value ws xs b e = ap (value_at (xs ++ b ∷ [])) e ∙ value_at-last xs b

pub or_wire-Grows :
    (c : BooleanCircuit) (inputs values : List Bool) (a b : ℕ)
    → Computes c inputs values
    → a < length values
    → b < length values
    → Grows inputs values (or_wire a b c) (value_at values a || value_at values b)
unfolding or_wire
or_wire-Grows c inputs values a b h ha hb = record {
  after = before ++ out ∷ [];
  computes =
      linear-Computes (land a b c).0 inputs before (land-Computes c inputs values h a b) a
        (b ∷ (land a b c).1 ∷ []) false;
  keeps = λ j l.
      get_or-append before (out ∷ []) false j (omega (arith, length_before))
      ∙ get_or-append values (p ∷ []) false j l;
  is_out =
      added_value (land a b c).0.wires before out (land-Computes c inputs values h a b).sized
      ∙ or_value before a b (length c.wires) (value_at values a) (value_at values b)
          (get_or-append values (p ∷ []) false a ha) (get_or-append values (p ∷ []) false b hb)
          (added_value c.wires values p h.sized);
  in_range = omega (
    arith,
    h.sized,
    length_before,
    length-append before (out ∷ []),
    length-append c.wires (record { terms = []; constant = false } ∷ []),
  );
  longer = omega (arith, length_before, length-append before (out ∷ []));
}
  where
    p : Bool
    p = and (value_at values a) (value_at values b)

    before : List Bool
    before = values ++ p ∷ []

    out : Bool
    out = xor (xor_terms before (a ∷ b ∷ (land a b c).1 ∷ []) false) false

    length_before : length before ≡ length values + 1
    length_before = length-append values (p ∷ [])
