-- ===== src/Exact/Optimal.antt =====
-- What `solve` returns, beside the assignment that the specification prefers.
use soci_sgx_sdk.Prelude.{
  ℕ, ◌+◌, ◌*◌, ◌≤◌, ◌<◌, ◌≡◌, ◌≢◌, refl, sym, ap, ◌∙◌, ◌⊎◌, inl, inr, List, [], ◌∷◌, Option, none,
  some, arith, All, All-In, In, true, false, Result, ok, err, subst,
}
use soci_sgx_sdk.Prelude.Int.{◌-ℤ◌}
use soci_sgx_sdk.Exact.{
  Row, Node, Search, Encoded, Status, no_feasible_solution, Solution, scale, fixed_safe,
  no_incumbent, root, offers, is_offered, max_total, lexicographical_compare, report, solve,
}
use soci_sgx_sdk.Exact.Bounds.{leaves, leaves-le-max_total}
use soci_sgx_sdk.Exact.Branch.{visit-foldl}
use soci_sgx_sdk.Exact.Tie.{tie_before}
use soci_sgx_sdk.Exact.Spec.{Totals, totals, IsFeasible, preferred}
use soci_sgx_sdk.Exact.Leaves.{
  Balanced, leaves-Balanced, Follows, leaves-Follows, Reached, totals-Reached,
}
use soci_sgx_sdk.Exact.Choice.{
  before, is_feasible, choose, to_incumbent, Ready, foldl-submit, IsFirst, IsChosen, foldl-choose,
}
use mathlib.Core.List.{foldl}

-- What `encode` hands to the solver.
pub record IsEncoded (model : Encoded) : Type 0 where
  pub threshold_below : model.threshold < scale
  pub has_rows : model.costs ≢ []
  pub rows_offer : All (λ row. is_offered (offers row) ≡ true) model.costs
  pub total_fits : max_total model.costs * scale ≤ fixed_safe

-- An optimal assignment with its sums; every other feasible assignment comes after it.
pub record IsOptimal (model : Encoded) (r : Solution) : Type 0 where
  pub method3_cost : ℕ
  pub feasible : IsFeasible model.threshold model.costs r.solution r.ratio_numerator method3_cost
  pub total_is : r.total_cost ≡ r.ratio_numerator + method3_cost
  pub denominator_is : r.ratio_denominator ≡ r.total_cost
  pub best :
      (ms : List ℕ) (a b : ℕ)
      → IsFeasible model.threshold model.costs ms a b
      → (ms ≡ r.solution) ⊎ (preferred r.ratio_numerator method3_cost r.solution a b ms ≡ true)

abbrev pub IsAnswer : Encoded → Result Status Solution → Type 0
IsAnswer model (ok r) = IsOptimal model r
IsAnswer model (err e) =
    (e ≡ no_feasible_solution)
    × ((ms : List ℕ) (a b : ℕ) → ¬ IsFeasible model.threshold model.costs ms a b)

lexicographical_compare-connex :
    (xs ys : List ℕ)
    → lexicographical_compare xs ys ≡ false
    → (xs ≡ ys) ⊎ (lexicographical_compare ys xs ≡ true)
unfolding lexicographical_compare
lexicographical_compare-connex [] [] h = inl refl
lexicographical_compare-connex (x ∷ xs) [] h = inr refl
lexicographical_compare-connex [] (y ∷ ys) h = cc
lexicographical_compare-connex (x ∷ xs) (y ∷ ys) h =
    ground (arith, lexicographical_compare-connex xs ys)

preferred-connex :
    (a b : ℕ) (ms : List ℕ) (a' b' : ℕ) (ms' : List ℕ)
    → preferred a b ms a' b' ms' ≡ false
    → (ms ≡ ms') ⊎ (preferred a' b' ms' a b ms ≡ true)
unfolding preferred
preferred-connex a b ms a' b' ms' h = ground (arith, lexicographical_compare-connex ms ms')

before-preferred :
    (t : ℕ) (n b : Node)
    → Balanced t n
    → Balanced t b
    → before n b ≡ preferred n.c12 n.c3 n.current b.c12 b.c3 b.current
unfolding before tie_before preferred
before-preferred t n b v w = ground (arith, v.sum, w.sum)

module _ (model : Encoded) where
  open model use {costs, threshold}

  abbrev all : List Node
  all = leaves threshold costs root

  all-Balanced : All (Balanced threshold) all
  all-Balanced =
      leaves-Balanced threshold costs root
        (unfold ◌-ℤ◌ in record { sum = refl; signed = ground arith })

  all-Ready : IsEncoded model → All (Ready threshold) all
  all-Ready v = pair_up all all-Balanced (leaves-le-max_total threshold costs root)
    where
      pair_up :
          (ms : List Node)
          → All (Balanced threshold) ms
          → All (λ m. m.cost ≤ 0 + max_total costs) ms
          → All (Ready threshold) ms
      pair_up [] h k = tt
      pair_up (m ∷ ms) h k =
          (record { balanced = h.0; fits = omega (arith, k.0, v.total_fits) }, pair_up ms h.1 k.1)

  is_feasible-IsFeasible :
      (m : Node) (f : Follows costs root m)
      → is_feasible threshold m ≡ true
      → IsFeasible threshold costs m.current m.c12 m.c3
  unfolding is_feasible
  is_feasible-IsFeasible m f h = record {
    assigned =
        ap (totals costs) f.current_is ∙ f.assigned ∙ ap some (ground (arith, f.c12_is, f.c3_is));
    method3_positive = ground arith;
    ratio = ground arith;
  }

  IsFeasible-is_feasible :
      (m : Node) (ms : List ℕ) (a b : ℕ)
      → IsFeasible threshold costs ms a b
      → m.c12 ≡ a
      → m.c3 ≡ b
      → is_feasible threshold m ≡ true
  unfolding is_feasible
  IsFeasible-is_feasible m ms a b f e k = ground (arith, f.method3_positive, f.ratio)

  reached :
      (ms : List ℕ) (a b : ℕ)
      → totals costs ms ≡ some (a, b)
      → Reached threshold costs root ms (a, b)
  reached ms a b e = totals-Reached threshold costs root ms (a, b) e

  none-IsFeasible :
      All (λ m. is_feasible threshold m ≡ false) all
      → (ms : List ℕ) (a b : ℕ) → ¬ IsFeasible threshold costs ms a b
  none-IsFeasible h ms a b f =
      let r = reached ms a b f.assigned in
      cc (
        All-In (λ m. is_feasible threshold m ≡ false) all r.leaf h r.listed,
        IsFeasible-is_feasible r.leaf ms a b f (omega (arith, r.c12_is)) (omega (arith, r.c3_is)),
      )

  others_after :
      (n : Node)
      → IsFirst threshold all n
      → (ms : List ℕ) (a b : ℕ) → IsFeasible threshold costs ms a b
      → (ms ≡ n.current) ⊎ (preferred n.c12 n.c3 n.current a b ms ≡ true)
  others_after n k ms a b f =
      let r = reached ms a b f.assigned in
      let e12 : r.leaf.c12 ≡ a = omega (arith, r.c12_is) in
      let e3 : r.leaf.c3 ≡ b = omega (arith, r.c3_is) in
      preferred-connex a b ms n.c12 n.c3 n.current (
        cc (
          order r.leaf r.listed,
          e12,
          e3,
          r.current_is,
          All-In (λ m. is_feasible threshold m ≡ true → before m n ≡ false) all r.leaf k.first
              r.listed (IsFeasible-is_feasible r.leaf ms a b f e12 e3),
        ))
    where
      order :
          (m : Node) → In m all → before m n ≡ preferred m.c12 m.c3 m.current n.c12 n.c3 n.current
      order m h =
          before-preferred threshold m n (All-In _ all m all-Balanced h)
            (All-In _ all n all-Balanced k.listed)

  follows : (n : Node) → In n all → Follows costs root n
  follows n h = All-In _ all n (leaves-Follows threshold costs root) h

  -- What `report` makes of the completion that the search kept.
  adopted-IsOptimal :
      (n : Node) (visits : ℕ)
      → IsFirst threshold all n
      → (m : ℕ) (ms : List ℕ) → n.current ≡ m ∷ ms
      → IsOptimal model (record {
        total_cost = n.cost;
        ratio_numerator = n.c12;
        ratio_denominator = n.c12 + n.c3;
        solution = m ∷ ms;
        nodes = visits;
      })
  adopted-IsOptimal n visits k m ms e = record {
    method3_cost = n.c3;
    feasible = rw (← e) (is_feasible-IsFeasible n (follows n k.listed) k.feasible);
    total_is = balanced.sum;
    denominator_is = sym balanced.sum;
    best = rw (← e) (others_after n k);
  }
    where
      balanced : Balanced threshold n
      balanced = All-In _ all n all-Balanced k.listed

  path_of :
      (rows : List (Row ℕ))
      → rows ≢ []
      → (ms : List ℕ) (p : Totals) → totals rows ms ≡ some p
      → (m : ℕ) × (rest : List ℕ) × (ms ≡ m ∷ rest)
  unfolding totals
  path_of [] h ms p e = absurd (h refl)
  path_of (row ∷ rows) h [] p e = cc
  path_of (row ∷ rows) h (m ∷ ms) p e = (m, ms, refl)

  report_chosen :
      (o : Option Node) (visits : ℕ)
      → IsEncoded model
      → IsChosen threshold all o
      → IsAnswer model (report (record { incumbent = to_incumbent o; visited_nodes = visits }))
  unfolding report
  report_chosen none visits v k = (refl, none-IsFeasible k)
  report_chosen (some n) visits v k =
      let f = follows n k.listed in
      let (m, ms, path_is) = path_of costs v.has_rows f.path (f.paid12, f.paid3) f.assigned in
      let current_is = f.current_is ∙ path_is in
      rw (current_is, report) (adopted-IsOptimal n visits k m ms current_is)

  report-IsAnswer :
      (o : Option Node) (s : Search)
      → IsEncoded model
      → IsChosen threshold all o
      → s.incumbent ≡ to_incumbent o
      → IsAnswer model (report s)
  report-IsAnswer o s v k e =
      subst
        (λ b. IsAnswer model (report (record { incumbent = b; visited_nodes = s.visited_nodes })))
        (sym e) (report_chosen o s.visited_nodes v k)

-- The optimizer answers every encoded request. It returns a feasible assignment with its true
-- sums that is strictly preferred to every other feasible assignment: it is cheapest, among the
-- cheapest it has the smallest ratio, among those it is lexicographically first. It reports
-- `no_feasible_solution`, and no other error, exactly when no assignment is feasible.
pub solve-IsAnswer : (model : Encoded) → IsEncoded model → IsAnswer model (solve model)
unfolding solve
solve-IsAnswer model v =
    report-IsAnswer model (foldl (choose t) none (all model)) _ v (foldl-choose t (all model)) (
      visit-foldl t model.costs root (record { incumbent = no_incumbent; visited_nodes = 0 })
      ∙ foldl-submit t none (all model) v.threshold_below tt (all-Ready model v))
  where
    t : ℕ
    t = model.threshold
