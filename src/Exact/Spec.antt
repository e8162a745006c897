-- ===== src/Exact/Spec.antt =====
-- What the exact optimizer promises, stated of assignments alone: one available method for each
-- row, the ratio constraint, and the order in which assignments are preferred.
use soci_sgx_sdk.Prelude.{
  ℕ, zero, suc, ◌+◌, ◌*◌, ◌≤◌, ◌<◌, ◌≡◌, List, [], ◌∷◌, Option, none, some, ltb, ◌==◌,
  if◌then◌else◌, Bool, true, false,
}
use soci_sgx_sdk.Exact.{Row, scale, lexicographical_compare}

-- The cost of method 1, 2 or 3 in a row.
abbrev pub method_cost : Row ℕ → ℕ → Option ℕ
method_cost row zero = none
method_cost row (suc zero) = row.method1
method_cost row (suc (suc zero)) = row.method2
method_cost row (suc (suc (suc zero))) = row.method3
method_cost row (suc (suc (suc (suc m)))) = none

abbrev pub Totals : Type 0
Totals = ℕ × ℕ

-- Adds a cost to the total of methods 1 and 2, or to that of method 3.
abbrev pub charge : ℕ → ℕ → Totals → Totals
charge m c (a, b) = if m == 3 then (a, b + c) else (a + c, b)

abbrev pub charge? : ℕ → Option ℕ → Option Totals → Option Totals
charge? m none o = none
charge? m (some c) none = none
charge? m (some c) (some p) = some (charge m c p)

-- The cost by methods 1 and 2, and that by method 3; `none` if it is no assignment of the rows.
unfoldable pub totals : List (Row ℕ) → List ℕ → Option Totals
totals [] [] = some (0, 0)
totals [] (m ∷ ms) = none
totals (row ∷ rows) [] = none
totals (row ∷ rows) (m ∷ ms) = charge? m (method_cost row m) (totals rows ms)

-- The assignment is available, uses method 3 at a positive cost, and c12 / (c12 + c3) ≥ T.
pub record IsFeasible (t : ℕ) (rows : List (Row ℕ)) (ms : List ℕ) (a b : ℕ) : Type 0 where
  pub assigned : totals rows ms ≡ some (a, b)
  pub method3_positive : 0 < b
  pub ratio : t * (a + b) ≤ scale * a

-- Strictly preferred: cheaper; or as cheap with a smaller ratio; or equal in both and earlier.
unfoldable pub preferred : ℕ → ℕ → List ℕ → ℕ → ℕ → List ℕ → Bool
preferred a b ms a' b' ms' =
    if ltb (a + b) (a' + b')
    then true
    else if ltb (a' + b') (a + b)
    then false
    else if ltb a a'
    then true
    else if ltb a' a
    then false
    else lexicographical_compare ms ms'
