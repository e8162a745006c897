-- ===== src/Exact/Range.antt =====
-- The range of the exact search: the sums and the suffix tables on the calls of `visit`, and the
-- safe range that `validate_aggregate` checks.
use soci_sgx_sdk.Prelude.{
  ℕ, ◌+◌, ◌-◌, ◌*◌, ◌≤◌, ◌<◌, ◌≡◌, List, [], ◌∷◌, arith, All, All-imp, All-In, In, true,
}
use soci_sgx_sdk.Prelude.Int.{
  ℤ, pos, negsuc, pos_part, neg_part, ◌+ℤ◌, ◌-ℤ◌, ◌≤ℤ◌, +ℤ_parts, -ℤ_parts,
}
use soci_sgx_sdk.Exact.{
  Row, Node, Encoded, scale, fixed_safe, int64_max, offers, is_offered, contribution, largest,
  max_offer, max_total, min_suffix, ratio_max_suffix, extend, root,
}
use soci_sgx_sdk.Exact.Bounds.{le-largest, min_offer-le-largest, max_offer-le, le-max_offer}
use soci_sgx_sdk.Exact.Optimal.{IsEncoded}

-- The calls of `visit`, by the rows that are left and the arguments, with no pruning.
pub data Visits (t : ℕ) (start : List (Row ℕ)) : List (Row ℕ) → Node → Type 0 where
  here : Visits t start start root
  down :
      {row : Row ℕ} {rows : List (Row ℕ)} {n : Node}
      → Visits t start (row ∷ rows) n
      → (j c : ℕ) → In (j, c) (offers row)
      → Visits t start rows (extend t n j c)

abbrev pub Fits : ℕ → ℤ → Type 0
Fits b z = (pos_part z ≤ b) × (neg_part z ≤ b)

mul_mono : (a b k : ℕ) → a ≤ b → a * k ≤ b * k
mul_mono a b k h = grind arith

contribution-Fits : (t j c : ℕ) → t < scale → Fits (scale * c) (contribution t j c)
unfolding contribution
contribution-Fits t j c h = ground (
  arith,
  mul_mono t scale c,
  mul_mono (scale - t) scale c (omega arith),
  -ℤ_parts (pos 0) (pos (t * c)),
  tidy (pos 0 -ℤ pos (t * c)),
)
  where
    -- One part of an integer is zero.
    tidy : (z : ℤ) → pos_part z * neg_part z ≡ 0
    tidy (pos n) = omega arith
    tidy (negsuc n) = omega arith

Fits-intro : (b : ℕ) (z : ℤ) → pos_part z ≤ b + neg_part z → neg_part z ≤ b + pos_part z → Fits b z
Fits-intro b (pos n) h k = omega arith
Fits-intro b (negsuc n) h k = omega arith

Fits-add : (a b : ℕ) (x y : ℤ) → Fits a x → Fits b y → Fits (a + b) (x +ℤ y)
Fits-add a b x y h k =
    Fits-intro (a + b) (x +ℤ y) (omega (arith, +ℤ_parts x y)) (omega (arith, +ℤ_parts x y))

Fits-widen : (a b : ℕ) (z : ℤ) → a ≤ b → Fits a z → Fits b z
Fits-widen a b z h k = omega arith

max_offer-Fits :
    (t : ℕ) (ms : List (ℕ × ℕ))
    → t < scale
    → scale * largest 0 ms ≤ fixed_safe
    → is_offered ms ≡ true
    → Fits (scale * largest 0 ms) (max_offer t (negsuc int64_max) ms)
max_offer-Fits t [] h s o = cc
max_offer-Fits t (m ∷ ms) h s o =
    Fits-intro b (max_offer t (negsuc int64_max) (m ∷ ms)) (omega (arith, upper))
      (omega (arith, (le-max_offer t (negsuc int64_max) (m ∷ ms)).0, each.0))
  where
    b : ℕ
    b = scale * largest 0 (m ∷ ms)

    each : All (λ k. Fits b (contribution t k.0 k.1)) (m ∷ ms)
    each =
        All-imp (λ k. k.1 ≤ largest 0 (m ∷ ms)) _ (m ∷ ms)
          (λ k e. Fits-widen (scale * k.1) b _ (omega (arith, e)) (contribution-Fits t k.0 k.1 h))
          (le-largest 0 (m ∷ ms))

    upper : max_offer t (negsuc int64_max) (m ∷ ms) ≤ℤ pos b
    upper = max_offer-le t (negsuc int64_max) (pos b) (m ∷ ms) (omega arith) (
        All-imp (λ k. Fits b (contribution t k.0 k.1)) (λ k. contribution t k.0 k.1 ≤ℤ pos b)
          (m ∷ ms) (λ k e. omega (arith, e)) each)

abbrev Offering : List (Row ℕ) → Type 0
Offering rows = All (λ row. is_offered (offers row) ≡ true) rows

pub min_suffix-le-max_total :
    (rows : List (Row ℕ)) → Offering rows → min_suffix rows ≤ max_total rows
unfolding min_suffix max_total
min_suffix-le-max_total [] o = omega arith
min_suffix-le-max_total (row ∷ rows) o =
    omega (arith, min_suffix-le-max_total rows o.1, min_offer-le-largest (offers row) o.0)

pub ratio_max_suffix-Fits :
    (t : ℕ) (rows : List (Row ℕ))
    → t < scale
    → Offering rows
    → scale * max_total rows ≤ fixed_safe
    → Fits (scale * max_total rows) (ratio_max_suffix t rows)
unfolding ratio_max_suffix max_total
ratio_max_suffix-Fits t [] h o s = omega arith
ratio_max_suffix-Fits t (row ∷ rows) h o s =
    Fits-widen (scale * max_total rows + scale * largest 0 (offers row)) _ _ (omega arith) (
      Fits-add (scale * max_total rows) (scale * largest 0 (offers row)) _ _
        (ratio_max_suffix-Fits t rows h o.1 (omega arith))
        (max_offer-Fits t (offers row) h (omega arith) o.0))

-- What holds at every call of `visit`.
record Reachable (t total : ℕ) (rows : List (Row ℕ)) (n : Node) : Type 0 where
  offering : Offering rows
  room : n.cost + max_total rows ≤ total
  sum : n.c12 + n.c3 ≡ n.cost
  linear_fits : Fits (scale * n.cost) n.linear

down-Reachable :
    (t total : ℕ) (row : Row ℕ) (rows : List (Row ℕ)) (n : Node) (j c : ℕ)
    → t < scale
    → In (j, c) (offers row)
    → Reachable t total (row ∷ rows) n
    → Reachable t total rows (extend t n j c)
unfolding max_total extend
down-Reachable t total row rows n j c h m r = record {
  offering = r.offering.1;
  room = omega (
    arith,
    r.room,
    All-In (λ m. m.1 ≤ largest 0 (offers row)) (offers row) (j, c) (le-largest 0 (offers row)) m,
  );
  sum = ground (arith, r.sum);
  linear_fits = Fits-widen (scale * n.cost + scale * c) _ _ (omega arith) (
      Fits-add (scale * n.cost) (scale * c) n.linear (contribution t j c) r.linear_fits
        (contribution-Fits t j c h));
}

Visits-Reachable :
    (t total : ℕ) (start rows : List (Row ℕ)) (n : Node)
    → t < scale
    → Offering start
    → max_total start ≤ total
    → Visits t start rows n
    → Reachable t total rows n
Visits-Reachable t total start _ _ h o s here = record {
  offering = o;
  room = omega arith;
  sum = omega arith;
  linear_fits = omega arith;
}
Visits-Reachable t total start _ _ h o s (down {row} {rows} {n} v j c m) =
    down-Reachable t total row rows n j c h m
      (Visits-Reachable t total start (row ∷ rows) n h o s v)

-- The 64-bit quantities of a call of `visit`.
pub record InRange (t : ℕ) (rows : List (Row ℕ)) (n : Node) : Type 0 where
  pub cost_bound : n.cost + min_suffix rows ≤ fixed_safe
  pub parts : n.c12 + n.c3 ≤ fixed_safe
  pub linear_range : Fits fixed_safe n.linear
  pub suffix_range : Fits fixed_safe (ratio_max_suffix t rows)

-- Whatever `visit` is called with, below an encoded model, its costs, its linear term and the
-- entries of the suffix tables that it reads lie within INT64_MAX / 16.
pub visit-InRange :
    (model : Encoded) (rows : List (Row ℕ)) (n : Node)
    → IsEncoded model
    → Visits model.threshold model.costs rows n
    → InRange model.threshold rows n
visit-InRange model rows n v calls = record {
  cost_bound = omega (arith, room, min_suffix-le-max_total rows r.offering, v.total_fits);
  parts = omega (arith, r.sum, room, v.total_fits);
  linear_range = omega (arith, r.linear_fits, room, v.total_fits);
  suffix_range =
      Fits-widen (scale * max_total rows) fixed_safe (ratio_max_suffix model.threshold rows)
        (omega (arith, room, v.total_fits))
        (ratio_max_suffix-Fits model.threshold rows v.threshold_below r.offering
          (omega (arith, room, v.total_fits)));
}
  where
    r : Reachable model.threshold (max_total model.costs) rows n
    r =
        Visits-Reachable model.threshold (max_total model.costs) model.costs rows n
          v.threshold_below v.rows_offer (omega arith) calls

    room : n.cost + max_total rows ≤ max_total model.costs
    room = r.room
