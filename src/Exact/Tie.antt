-- ===== src/Exact/Tie.antt =====
-- The tie-break of `Solver::better_tie` at equal cost: the ratio gaps, and the method-1 and
-- method-2 costs.
use soci_sgx_sdk.Prelude.{
  ℕ, ◌+◌, ◌*◌, ◌≤◌, ◌<◌, ◌≡◌, sym, ap, ◌∙◌, inl, inr, arith, ltb, ltb→lt, lt→ltb, ltb→le, le→ltb,
  if◌then◌else◌, Bool, true, false, Bool-cases,
}
use soci_sgx_sdk.Prelude.Int.{ℤ, pos, pos_part, neg_part, ◌*ℤ◌, ltb_ℤ, -ℤ_parts, *ℤ_pos_parts}
use soci_sgx_sdk.Exact.{Node, adopt, scale, ratio_gap, better_tie, lexicographical_compare}

ltb-mul_right : (x y k : ℕ) → 0 < k → ltb (x * k) (y * k) ≡ ltb x y
ltb-mul_right x y k h = elim (Bool-cases (ltb x y)) [
  | inl e ↦ rw e (lt→ltb _ _ (mul_lt (ltb→lt _ _ e)))
  | inr e ↦ rw e (le→ltb _ _ (mul_le (ltb→le _ _ e)))
]
  where
    mul_lt : x < y → x * k < y * k
    mul_lt p = grind arith

    mul_le : y ≤ x → y * k ≤ x * k
    mul_le p = grind arith

ltb_ℤ-*ℤ_pos : (x y : ℤ) (k : ℕ) → 0 < k → ltb_ℤ (x *ℤ pos k) (y *ℤ pos k) ≡ ltb_ℤ x y
ltb_ℤ-*ℤ_pos x y k h =
    ap (λ a. ltb a (pos_part (y *ℤ pos k) + neg_part (x *ℤ pos k)))
      (omega (arith, *ℤ_pos_parts x k, *ℤ_pos_parts y k))
    ∙ ap (λ b. ltb ((pos_part x + neg_part y) * k) b)
        (omega (arith, *ℤ_pos_parts x k, *ℤ_pos_parts y k))
    ∙ ltb-mul_right (pos_part x + neg_part y) (pos_part y + neg_part x) k h

-- At one total the gaps compare as the numerators do.
ltb_ℤ-ratio_gap : (t a b total : ℕ) → ltb_ℤ (ratio_gap t a total) (ratio_gap t b total) ≡ ltb a b
unfolding ratio_gap
ltb_ℤ-ratio_gap t a b total = ground (
  arith,
  -ℤ_parts (pos (a * scale)) (pos (t * total)),
  -ℤ_parts (pos (b * scale)) (pos (t * total)),
)

-- The tie-break that `better_tie` amounts to.
unfoldable pub tie_before : Node → Node → Bool
tie_before n b =
    if ltb n.c12 b.c12
    then true
    else if ltb b.c12 n.c12
    then false
    else lexicographical_compare n.current b.current

-- At equal positive totals the exact rational tie-break is the comparison of the method-1 and method-2
-- costs, then the lexicographic order.
pub better_tie-tie_before :
    (t : ℕ) (n b : Node)
    → n.c12 + n.c3 ≡ b.c12 + b.c3
    → 0 < n.c12 + n.c3
    → better_tie t (adopt b) n ≡ tie_before n b
unfolding better_tie tie_before
better_tie-tie_before t n b e h = rw (
  sym e,
  ltb_ℤ-*ℤ_pos (ratio_gap t n.c12 k) (ratio_gap t b.c12 k) k h,
  ltb_ℤ-*ℤ_pos (ratio_gap t b.c12 k) (ratio_gap t n.c12 k) k h,
  ltb_ℤ-ratio_gap t n.c12 b.c12 k,
  ltb_ℤ-ratio_gap t b.c12 n.c12 k,
)
  where
    k : ℕ
    k = n.c12 + n.c3
