-- ===== src/Exact/Examples.antt =====
-- Runs of the exact optimizer, and its theorems at concrete inputs.
use soci_sgx_sdk.Prelude.{ℕ, ◌≡◌, refl, inl, inr, List, [], ◌∷◌, some, none, arith, ok, err, ◌⊎◌}
use soci_sgx_sdk.Prelude.Int.{pos, ◌+ℤ◌, ◌-ℤ◌, ◌*ℤ◌}
use soci_sgx_sdk.Exact.{
  Status, Row, Encoded, Search, Node, no_incumbent, no_feasible_solution, root, extend, encode,
  solve, visit, optimize_plain, contribution, offers, min_suffix, ratio_max_suffix, max_total,
  lexicographical_compare, adopt, better_tie, submit,
}
use soci_sgx_sdk.Exact.Bounds.{leaves}
use soci_sgx_sdk.Exact.Branch.{visit-foldl}
use soci_sgx_sdk.Exact.Optimal.{IsEncoded, IsAnswer, solve-IsAnswer}
use soci_sgx_sdk.Exact.Encode.{Encodes, encode-Encodes, optimize_plain-IsAnswer}
use soci_sgx_sdk.Exact.Range.{InRange, here, down, visit-InRange}
use soci_sgx_sdk.Exact.Tie.{tie_before, better_tie-tie_before}
use soci_sgx_sdk.Fixed.{parse_fixed_point}
use mathlib.Core.List.{foldl}

-- All that the tests compute with.
runs : Unit {0}
unfolding contribution offers max_total min_suffix ratio_max_suffix lexicographical_compare
    better_tie submit extend visit solve encode optimize_plain parse_fixed_point ◌+ℤ◌ ◌-ℤ◌ ◌*ℤ◌
runs = tt

abbrev first_row : Row ℕ
first_row = record { method1 = some 3_000_000; method2 = some 5_000_000; method3 = some 2_000_000 }

abbrev second_row : Row ℕ
second_row = record { method1 = none; method2 = some 4_000_000; method3 = some 1_000_000 }

abbrev two_rows : Encoded
two_rows = record { costs = first_row ∷ second_row ∷ []; threshold = 600_000 }

two_rows-IsEncoded : IsEncoded two_rows
unfolding runs
two_rows-IsEncoded = record {
  threshold_below = omega arith;
  has_rows = λ e. cc;
  rows_offer = (refl, (refl, tt));
  total_fits = omega arith;
}

-- The cheapest assignment, 2 + 1, breaks the ratio; 3 + 1 keeps it.
solve-two_rows :
    solve two_rows
    ≡ ok (record {
      total_cost = 4_000_000;
      ratio_numerator = 3_000_000;
      ratio_denominator = 4_000_000;
      solution = 1 ∷ 3 ∷ [];
      nodes = 8;
    })
unfolding runs
solve-two_rows = refl

abbrev texts : List (Row (List ℕ))
texts =
    record {
      method1 = some (b'3' ∷ []);
      method2 = some (b'5' ∷ b'.' ∷ b'0' ∷ []);
      method3 = some (b' ' ∷ b'2' ∷ []);
    }
    ∷ record { method1 = none; method2 = some (b'4' ∷ []); method3 = some (b'1' ∷ []) }
    ∷ []

abbrev threshold_text : List ℕ
threshold_text = b'0' ∷ b'.' ∷ b'6' ∷ []

optimize_texts : optimize_plain texts threshold_text ≡ solve two_rows
unfolding runs
optimize_texts = refl

-- Method 3 everywhere is forbidden at every threshold above zero.
optimize_infeasible :
    optimize_plain
      (record { method1 = none; method2 = none; method3 = some (b'1' ∷ []) } ∷ [])
      threshold_text
    ≡ err no_feasible_solution
unfolding runs
optimize_infeasible = refl

solve-IsAnswer_example : IsAnswer two_rows (solve two_rows)
solve-IsAnswer_example = solve-IsAnswer two_rows two_rows-IsEncoded

encode-Encodes_example : Encodes texts threshold_text two_rows
unfolding runs
encode-Encodes_example = encode-Encodes texts threshold_text two_rows refl

optimize_plain-IsAnswer_example :
    ((e : Status) × (encode texts threshold_text ≡ err e)
      × (optimize_plain texts threshold_text ≡ err e))
    ⊎ ((model : Encoded) × (encode texts threshold_text ≡ ok model)
        × Encodes texts threshold_text model
        × IsAnswer model (optimize_plain texts threshold_text))
optimize_plain-IsAnswer_example = optimize_plain-IsAnswer texts threshold_text

abbrev start : Search
start = record { incumbent = no_incumbent; visited_nodes = 0 }

visit-foldl_example :
    (visit 600_000 two_rows.costs root start).incumbent
    ≡ foldl (submit 600_000) no_incumbent (leaves 600_000 two_rows.costs root)
visit-foldl_example = visit-foldl 600_000 two_rows.costs root start

visit-InRange_example : InRange 600_000 (second_row ∷ []) (extend 600_000 root 2 2_000_000)
unfolding runs
visit-InRange_example =
    visit-InRange two_rows (second_row ∷ []) (extend 600_000 root 2 2_000_000) two_rows-IsEncoded
      (down here 2 2_000_000 (inr (inr (inl refl))))

abbrev left_leaf : Node
left_leaf = record {
  cost = 5;
  c12 = 3;
  c3 = 2;
  linear = pos 1_200_000 -ℤ pos 1_200_000;
  current = 1 ∷ 3 ∷ [];
}

abbrev right_leaf : Node
right_leaf = record {
  cost = 5;
  c12 = 4;
  c3 = 1;
  linear = pos 1_600_000 -ℤ pos 600_000;
  current = 3 ∷ 1 ∷ [];
}

better_tie-tie_before_example :
    better_tie 600_000 (adopt right_leaf) left_leaf ≡ tie_before left_leaf right_leaf
better_tie-tie_before_example =
    better_tie-tie_before 600_000 left_leaf right_leaf refl (omega arith)
