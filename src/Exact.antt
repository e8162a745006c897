-- ===== src/Exact.antt =====
-- src/optimization.cpp: the exact search over plaintext fixed-point costs (`Solver`, `solve`).
-- A cost is an `int64_t` that is never negative, so it is in ℕ; `linear` and the suffix maxima are
-- signed and in ℤ. Exact/Range shows that no `int64_t` of the search overflows.
pub mod Bounds
pub mod Branch
pub mod Tie
pub mod Spec
pub mod Leaves
pub mod Choice
pub mod Optimal
pub mod Encode
pub mod Range
mod Examples
pub use soci_sgx_sdk.Fixed.{
  scale, int64_max, fixed_safe, Status, optimal, invalid_argument, no_feasible_solution,
  numeric_range_exceeded,
}
use soci_sgx_sdk.Fixed.{parse_fixed_point, validate_aggregate}
use soci_sgx_sdk.Prelude.{
  ℕ, suc, ◌+◌, ◌-◌, ◌*◌, Bool, true, false, not, ◌&&◌, ◌||◌, List, [], ◌∷◌, ◌++◌, Option, none,
  some, Result, ok, err, ◌>>=◌, ◌>>◌, require, ltb, leb, ◌==◌, if◌then◌else◌, min, max,
}
use soci_sgx_sdk.Prelude.Int.{ℤ, pos, negsuc, ◌+ℤ◌, ◌-ℤ◌, ◌*ℤ◌, ltb_ℤ, max_ℤ}

-- `std::array<std::optional<T>, 3>`.
pub record Row (A : Type 0) : Type 0 where
  pub method1 : Option A
  pub method2 : Option A
  pub method3 : Option A

pub record Encoded : Type 0 where
  pub costs : List (Row ℕ)
  pub threshold : ℕ

abbrev pub cell : ℕ → Option ℕ → List (ℕ × ℕ) → List (ℕ × ℕ)
cell j none rest = rest
cell j (some c) rest = (j, c) ∷ rest

-- What `for (int j = 0; j < 3; ++j) if (costs[i][j])` visits: the methods that a row offers.
unfoldable pub offers : Row ℕ → List (ℕ × ℕ)
offers row = cell 0 row.method1 (cell 1 row.method2 (cell 2 row.method3 []))

-- The part of a cost in the linearised ratio constraint.
unfoldable pub contribution : ℕ → ℕ → ℕ → ℤ
contribution threshold j c =
    if ltb j 2 then pos ((scale - threshold) * c) else pos 0 -ℤ pos (threshold * c)

abbrev pub min_offer : ℕ → List (ℕ × ℕ) → ℕ
min_offer mn [] = mn
min_offer mn ((j, c) ∷ more) = min_offer (min mn c) more

abbrev pub max_offer : ℕ → ℤ → List (ℕ × ℕ) → ℤ
max_offer threshold mx [] = mx
max_offer threshold mx ((j, c) ∷ more) =
    max_offer threshold (max_ℤ mx (contribution threshold j c)) more

abbrev pub largest : ℕ → List (ℕ × ℕ) → ℕ
largest mx [] = mx
largest mx ((j, c) ∷ more) = largest (max mx c) more

-- `max_total` of `encode`: the sum of the largest cost of each row.
unfoldable pub max_total : List (Row ℕ) → ℕ
max_total [] = 0
max_total (row ∷ rows) = largest 0 (offers row) + max_total rows

abbrev pub encode_cell : Option (List ℕ) → Result Status (Option ℕ)
encode_cell none = ok none
encode_cell (some text) = do v ← parse_fixed_point text false; ok (some v)

abbrev pub is_offered : List (ℕ × ℕ) → Bool
is_offered [] = false
is_offered (m ∷ more) = true

-- `if (!any) bad(...)`.
abbrev pub offered : Row ℕ → Result Status (Row ℕ)
offered row = require (is_offered (offers row)) no_feasible_solution >> ok row

unfoldable pub encode_row : Row (List ℕ) → Result Status (Row ℕ)
unfolding offers
encode_row cells = do
  m1 ← encode_cell cells.method1
  m2 ← encode_cell cells.method2
  m3 ← encode_cell cells.method3
  offered (record { method1 = m1; method2 = m2; method3 = m3 })

unfoldable pub encode_rows : List (Row (List ℕ)) → Result Status (List (Row ℕ))
unfolding encode_row
encode_rows [] = ok []
encode_rows (cells ∷ matrix) = do row ← encode_row cells; rows ← encode_rows matrix; ok (row ∷ rows)

abbrev pub is_empty : List (Row (List ℕ)) → Bool
is_empty [] = true
is_empty (cells ∷ matrix) = false

unfoldable pub encode : List (Row (List ℕ)) → List ℕ → Result Status Encoded
unfolding encode_rows max_total validate_aggregate
encode matrix threshold_text = do
  require (not (is_empty matrix)) invalid_argument
  threshold ← parse_fixed_point threshold_text true
  rows ← encode_rows matrix
  validate_aggregate (max_total rows)
  ok (record { costs = rows; threshold = threshold })

-- `min_suffix[i]`, at the rows from `i` on.
unfoldable pub min_suffix : List (Row ℕ) → ℕ
min_suffix [] = 0
min_suffix (row ∷ rows) = min_suffix rows + min_offer int64_max (offers row)

-- `ratio_max_suffix[i]`, at the rows from `i` on.
unfoldable pub ratio_max_suffix : ℕ → List (Row ℕ) → ℤ
ratio_max_suffix threshold [] = pos 0
ratio_max_suffix threshold (row ∷ rows) =
    ratio_max_suffix threshold rows +ℤ max_offer threshold (negsuc int64_max) (offers row)

-- The arguments of `visit`, with the part of `current` that is set on the way to the node.
pub record Node : Type 0 where
  pub cost : ℕ
  pub c12 : ℕ
  pub c3 : ℕ
  pub linear : ℤ
  pub current : List ℕ

pub record Incumbent : Type 0 where
  pub best_cost : ℕ
  pub best_c12 : ℕ
  pub best_c3 : ℕ
  pub best : List ℕ

pub record Search : Type 0 where
  pub incumbent : Incumbent
  pub open incumbent use *
  pub visited_nodes : ℕ

-- `std::lexicographical_compare`.
unfoldable pub lexicographical_compare : List ℕ → List ℕ → Bool
lexicographical_compare xs [] = false
lexicographical_compare [] (y ∷ ys) = true
lexicographical_compare (x ∷ xs) (y ∷ ys) =
    if ltb x y then true else if ltb y x then false else lexicographical_compare xs ys

-- `c12 * kScale - threshold * total`.
unfoldable pub ratio_gap : ℕ → ℕ → ℕ → ℤ
ratio_gap threshold c12 total = pos (c12 * scale) -ℤ pos (threshold * total)

unfoldable pub better_tie : ℕ → Incumbent → Node → Bool
unfolding ratio_gap
better_tie threshold b n =
    let total = n.c12 + n.c3 in
    let old_total = b.best_c12 + b.best_c3 in
    let lhs = ratio_gap threshold n.c12 total *ℤ pos old_total in
    let rhs = ratio_gap threshold b.best_c12 old_total *ℤ pos total in
    if ltb_ℤ lhs rhs
    then true
    else if ltb_ℤ rhs lhs
    then false
    else lexicographical_compare n.current b.best

abbrev pub adopt : Node → Incumbent
adopt n = record { best_cost = n.cost; best_c12 = n.c12; best_c3 = n.c3; best = n.current }

-- The leaf branch of `visit`.
unfoldable pub submit : ℕ → Incumbent → Node → Incumbent
submit threshold b n =
    if ltb_ℤ n.linear (pos 0) || leb n.c3 0 || leb (n.c12 + n.c3) 0
    then b
    else if ltb n.cost b.best_cost || (n.cost == b.best_cost && better_tie threshold b n)
    then adopt n
    else b

-- The two pruning tests at the head of `visit`.
unfoldable pub is_pruned : ℕ → List (Row ℕ) → Node → Incumbent → Bool
is_pruned threshold rows n b =
    (not (b.best_cost == int64_max) && ltb b.best_cost (n.cost + min_suffix rows))
    || ltb_ℤ (n.linear +ℤ ratio_max_suffix threshold rows) (pos 0)

-- The arguments of the recursive call for method `j` at cost `c`.
unfoldable pub extend : ℕ → Node → ℕ → ℕ → Node
extend threshold n j c = record {
  cost = n.cost + c;
  c12 = if ltb j 2 then n.c12 + c else n.c12;
  c3 = if ltb j 2 then n.c3 else n.c3 + c;
  linear = n.linear +ℤ contribution threshold j c;
  current = n.current ++ suc j ∷ [];
}

-- The loop over the methods of a row, over the recursive call `go`.
unfoldable pub explore : ℕ → (Node → Search → Search) → Node → List (ℕ × ℕ) → Search → Search
explore threshold go n [] s = s
explore threshold go n ((j, c) ∷ more) s =
    explore threshold go n more (go (extend threshold n j c) s)

abbrev count_node : Search → Search
count_node s = record s { visited_nodes = s.visited_nodes + 1 }

unfoldable pub visit : ℕ → List (Row ℕ) → Node → Search → Search
unfolding submit is_pruned extend explore
visit threshold [] n s =
    if is_pruned threshold [] n s.incumbent
    then count_node s
    else record { incumbent = submit threshold s.incumbent n; visited_nodes = s.visited_nodes + 1 }
visit threshold (row ∷ rows) n s =
    if is_pruned threshold (row ∷ rows) n s.incumbent
    then count_node s
    else explore threshold (visit threshold rows) n (offers row) (count_node s)

abbrev pub root : Node
root = record { cost = 0; c12 = 0; c3 = 0; linear = pos 0; current = [] }

abbrev pub no_incumbent : Incumbent
no_incumbent = record { best_cost = int64_max; best_c12 = 0; best_c3 = 0; best = [] }

-- `OptimizationResult` before its two divisions into `double`, with the node counter.
pub record Solution : Type 0 where
  pub total_cost : ℕ
  pub ratio_numerator : ℕ
  pub ratio_denominator : ℕ
  pub solution : List ℕ
  pub nodes : ℕ

unfoldable pub report : Search → Result Status Solution
report s = elim s.best [
  | [] ↦ err no_feasible_solution
  | x ∷ xs ↦ ok (record {
    total_cost = s.best_cost;
    ratio_numerator = s.best_c12;
    ratio_denominator = s.best_c12 + s.best_c3;
    solution = x ∷ xs;
    nodes = s.visited_nodes;
  })
]

unfoldable pub solve : Encoded → Result Status Solution
unfolding report visit
solve model = report (
    visit model.threshold model.costs root (record { incumbent = no_incumbent; visited_nodes = 0 }))

unfoldable pub optimize_plain : List (Row (List ℕ)) → List ℕ → Result Status Solution
unfolding encode solve
optimize_plain costs threshold = encode costs threshold >>= solve
