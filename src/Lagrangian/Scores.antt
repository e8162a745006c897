-- ===== src/Lagrangian/Scores.antt =====
-- The bits that `deriveLagrangianNumericBounds` returns, and the scores of the encrypted search.
use soci_sgx_sdk.Prelude.{
  ℕ, suc, ◌+◌, ◌-◌, ◌*◌, ◌^◌, ◌≤◌, ◌<◌, ◌≡◌, refl, sym, ap, subst, ◌∙◌, Bool, true, false, not,
  ◌&&◌, List, [], ◌∷◌, arith, Result, ok, >>=-eq-ok, require_inv, leb, leb→le, length, All, In, ◌⊎◌,
  inl, inr,
}
use soci_sgx_sdk.Prelude.Int.{ℤ, +ℤ-le, pos, pos_part, neg_part, ◌+ℤ◌, ◌-ℤ◌, ◌≤ℤ◌, ltb_ℤ}
use soci_sgx_sdk.Prelude.Powers.{mul-lt-pow, pow_pos}
use soci_sgx_sdk.Fixed.{Status}
use soci_sgx_sdk.Secure.{Below}
use soci_sgx_sdk.Lagrangian.{
  NumericDomain, LagrangianGrid, LagrangianNumericBounds, distance, coefficient_bound, Bits,
  required_bits, maximum_mu, derive_lagrangian_numeric_bounds, is_sorted, back, is_complete,
  is_threshold, is_grid, is_scaled, starts_at_zero, has_duplicate, secure_operand_bits,
}
use soci_sgx_sdk.Lagrangian.Log.{ceil_log2-IsLog, coefficient_bound_mono}
use soci_sgx_sdk.Lagrangian.Maximum.{required_bits-Measures}

-- A row's score at a multiplier `mu`, for the methods 1 and 2 and for method 3: Q times the cost,
-- less `mu` times the row's part of the linear constraint.
abbrev pub score12 : ℕ → ℕ → ℕ → ℕ → ℤ
score12 q mu alpha c = pos (q * c) -ℤ pos (mu * (c * alpha))

abbrev pub score3 : ℕ → ℕ → ℕ → ℕ → ℤ
score3 q mu threshold c = pos (q * c) +ℤ pos (mu * (c * threshold))

abbrev pub sum_of : List ℤ → ℤ
sum_of [] = pos 0
sum_of (x ∷ xs) = x +ℤ sum_of xs

distance-cases : (a b : ℕ) → (distance a b + b ≡ a) ⊎ (distance a b + a ≡ b)
distance-cases a b = ground arith

coefficient_parts :
    (q mu alpha threshold : ℕ)
    → (distance q (mu * alpha) ≤ coefficient_bound q mu alpha threshold)
      × (q + mu * threshold ≤ coefficient_bound q mu alpha threshold)
unfolding coefficient_bound
coefficient_parts q mu alpha threshold = (ground arith, ground arith)

pow_comm : (m n : ℕ) → 2 ^ (m + n) ≡ 2 ^ (n + m)
pow_comm m n = ap (λ k. 2 ^ k) (omega arith)

score12-Below :
    (q mu alpha c d limit : ℕ)
    → (d + mu * alpha ≡ q) ⊎ (d + q ≡ mu * alpha)
    → d * c < limit
    → Below limit (score12 q mu alpha c)
unfolding ◌-ℤ◌
score12-Below q mu alpha c d limit (inl e) h =
    (ground (arith, ap (λ t. t * c) e, h), ground (arith, ap (λ t. t * c) e, h))
score12-Below q mu alpha c d limit (inr e) h =
    (ground (arith, ap (λ t. t * c) e, h), ground (arith, ap (λ t. t * c) e, h))

score3-Below :
    (q mu threshold c limit : ℕ)
    → (q + mu * threshold) * c < limit
    → Below limit (score3 q mu threshold c)
unfolding ◌+ℤ◌
score3-Below q mu threshold c limit h = (ground (arith, h), ground (arith, h))

scores-Below :
    (q mu alpha threshold c m n : ℕ)
    → coefficient_bound q mu alpha threshold ≤ 2 ^ m
    → c < 2 ^ n
    → Below (2 ^ (n + m)) (score12 q mu alpha c) × Below (2 ^ (n + m)) (score3 q mu threshold c)
scores-Below q mu alpha threshold c m n h k =
    let (p1, p2) = coefficient_parts q mu alpha threshold in
    let e = pow_comm m n in
    (
      score12-Below q mu alpha c (distance q (mu * alpha)) _ (distance-cases q (mu * alpha))
          (omega (arith, e, mul-lt-pow (distance q (mu * alpha)) c m n (omega (arith, p1, h)) k)),
      score3-Below q mu threshold c _
          (omega (arith, e, mul-lt-pow (q + mu * threshold) c m n (omega (arith, p2, h)) k)),
    )

-- A sum of bounded terms, by their number.
sum_of_parts :
    (xs : List ℤ) (limit : ℕ)
    → All (Below (suc limit)) xs
    → (pos_part (sum_of xs) ≤ length xs * limit) × (neg_part (sum_of xs) ≤ length xs * limit)
sum_of_parts [] limit h = (omega arith, omega arith)
sum_of_parts (x ∷ xs) limit h =
    let (p, n) = sum_of_parts xs limit h.1 in
    let (a, b) = +ℤ-le x (sum_of xs) in (omega (arith, p, a, h.0.0), omega (arith, n, b, h.0.1))

sum_of-Below :
    (xs : List ℤ) (s r : ℕ)
    → All (Below (2 ^ s)) xs
    → length xs ≤ 2 ^ r
    → Below (2 ^ (s + r)) (sum_of xs)
sum_of-Below xs s r h k =
    let limit = 2 ^ s - 1 in
    let (p, n) =
      sum_of_parts xs limit (subst (λ l. All (Below l) xs) (omega (arith, pow_pos s)) h) in
    let room = mul-lt-pow (length xs) limit r s k (omega (arith, pow_pos s)) in
    (omega (arith, p, room, pow_comm r s), omega (arith, n, room, pow_comm r s))

and_left : (a b : Bool) → (a && b) ≡ true → a ≡ true
and_left true b h = refl
and_left false b h = h

and_right : (a b : Bool) → (a && b) ≡ true → b ≡ true
and_right true b h = h
and_right false b h = absurd cc

in-sorted : (x : ℤ) (xs : List ℤ) → is_sorted xs ≡ true → In x xs → x ≤ℤ back xs
in-sorted x [] h i = absurd i
in-sorted x (y ∷ []) h (inl e) = ground (arith, ap pos_part e, ap neg_part e)
in-sorted x (y ∷ []) h (inr i) = absurd i
in-sorted x (y ∷ z ∷ ys) h (inl e) = ground (
  arith,
  in-sorted z (z ∷ ys) (and_right (not (ltb_ℤ z y)) (is_sorted (z ∷ ys)) h) (inl refl),
  and_left (not (ltb_ℤ z y)) (is_sorted (z ∷ ys)) h,
  ap pos_part e,
  ap neg_part e,
)
in-sorted x (y ∷ z ∷ ys) h (inr i) =
    in-sorted x (z ∷ ys) (and_right (not (ltb_ℤ z y)) (is_sorted (z ∷ ys)) h) i

-- What the returned bits promise of the scores of a grid.
pub record BoundsScores (domain : NumericDomain) (threshold : ℕ) (grid : LagrangianGrid)
    (bounds : LagrangianNumericBounds) : Type 0 where
  pub scores_fit :
      (mu c : ℕ)
      → In (pos mu) grid.mu
      → c < 2 ^ domain.max_cost_bits
      → Below
          (2 ^ bounds.score_bits)
          (score12 (pos_part grid.q) mu (pos_part domain.scale - threshold) c)
        × Below (2 ^ bounds.score_bits) (score3 (pos_part grid.q) mu threshold c)
  pub sums_fit :
      (scores : List ℤ)
      → All (Below (2 ^ bounds.score_bits)) scores
      → length scores ≤ domain.max_rows
      → Below (2 ^ bounds.bound_bits) (sum_of scores)
  pub delta_bits : bounds.score_delta_bits ≡ bounds.score_bits + 1
  pub mu_supported : (mu : ℕ) → In (pos mu) grid.mu → mu ≤ bounds.maximum_supported_mu

-- The checks that a grid has passed.
record Derived (domain : NumericDomain) (threshold : ℤ) (grid : LagrangianGrid)
    (bounds : LagrangianNumericBounds) : Type 0 where
  pub sorted : is_sorted grid.mu ≡ true
  pub largest : pos_part (back grid.mu) ≤ bounds.maximum_supported_mu
  pub maximum_is :
      maximum_mu domain (pos_part threshold) (pos_part grid.q) ≡ ok bounds.maximum_supported_mu
  pub bits : Bits
  pub bits_are :
      required_bits domain (pos_part threshold) (pos_part grid.q) (pos_part (back grid.mu))
      ≡ ok bits
  pub score_are : bounds.score_bits ≡ bits.score
  pub delta_are : bounds.score_delta_bits ≡ bits.delta
  pub bound_are : bounds.bound_bits ≡ bits.bound

ok_bounds :
    (a b : LagrangianNumericBounds)
    → ◌≡◌ {A = Result Status LagrangianNumericBounds} (ok a) (ok b)
    → a ≡ b
ok_bounds a b e = cc

Derived-of :
    (domain : NumericDomain) (threshold : ℤ) (grid : LagrangianGrid)
    (bounds : LagrangianNumericBounds) (bits : Bits) (maximum : ℕ)
    → is_sorted grid.mu ≡ true
    → pos_part (back grid.mu) ≤ maximum
    → maximum_mu domain (pos_part threshold) (pos_part grid.q) ≡ ok maximum
    → required_bits domain (pos_part threshold) (pos_part grid.q) (pos_part (back grid.mu))
      ≡ ok bits
    → ◌≡◌ {A = Result Status LagrangianNumericBounds}
        (ok (record {
          score_bits = bits.score;
          score_delta_bits = bits.delta;
          bound_bits = bits.bound;
          maximum_supported_mu = maximum;
        }))
        (ok bounds)
    → Derived domain threshold grid bounds
Derived-of domain threshold grid bounds bits maximum s l em eb e =
    let same = ok_bounds _ bounds e in
    record {
      sorted = s;
      largest = subst (λ b. pos_part (back grid.mu) ≤ b.maximum_supported_mu) same l;
      maximum_is = em ∙ ap (λ b. ok b.maximum_supported_mu) same;
      bits = bits;
      bits_are = eb;
      score_are = sym (ap (λ b. b.score_bits) same);
      delta_are = sym (ap (λ b. b.score_delta_bits) same);
      bound_are = sym (ap (λ b. b.bound_bits) same);
    }

Derived-from :
    (domain : NumericDomain) (threshold : ℤ) (grid : LagrangianGrid)
    (bounds : LagrangianNumericBounds)
    → derive_lagrangian_numeric_bounds domain threshold grid ≡ ok bounds
    → Derived domain threshold grid bounds
unfolding derive_lagrangian_numeric_bounds
Derived-from domain threshold grid bounds e =
    let (c1, e1) = require_inv (is_complete domain) _ _ e in
    let (c2, e2) = require_inv (is_threshold threshold domain.scale) _ _ e1 in
    let (c3, e3) = require_inv (is_grid grid) _ _ e2 in
    let (c4, e4) = require_inv (is_scaled domain.scale grid) _ _ e3 in
    let (c5, e5) = require_inv (starts_at_zero grid.mu) _ _ e4 in
    let (c6, e6) = require_inv (not (has_duplicate grid.mu)) _ _ e5 in
    let (c7, e7) = require_inv (not (ltb_ℤ (back grid.mu) (pos 0))) _ _ e6 in
    let (c8, e8) = require_inv (leb domain.compare_operand_bits secure_operand_bits) _ _ e7 in
    let (maximum, em, e9) =
      >>=-eq-ok (maximum_mu domain (pos_part threshold) (pos_part grid.q)) _ e8 in
    let (c10, e10) = require_inv (leb (pos_part (back grid.mu)) maximum) _ _ e9 in
    let (bits, eb, e11) =
      >>=-eq-ok
        (required_bits domain (pos_part threshold) (pos_part grid.q) (pos_part (back grid.mu))) _
        e10 in
    Derived-of domain threshold grid bounds bits maximum (and_left (is_sorted grid.mu) _ c5)
      (leb→le _ _ c10) em eb e11

pos_below : (m : ℕ) (z : ℤ) → pos m ≤ℤ z → m ≤ pos_part z
pos_below m z h = omega (arith, h)

-- On a domain whose bounds were derived, every score of a cost below 2 ^ max_cost_bits at a
-- multiplier of the grid is below 2 ^ score_bits in magnitude, a sum of at most max_rows scores is
-- below 2 ^ bound_bits, a difference of two scores has one bit more, and no multiplier of the grid
-- is above the largest supported one.
pub derive-BoundsScores :
    (domain : NumericDomain) (threshold : ℤ) (grid : LagrangianGrid)
    (bounds : LagrangianNumericBounds)
    → derive_lagrangian_numeric_bounds domain threshold grid ≡ ok bounds
    → BoundsScores domain (pos_part threshold) grid bounds
derive-BoundsScores domain threshold grid bounds e =
    let d = Derived-from domain threshold grid bounds e in
    let m =
      required_bits-Measures domain (pos_part threshold) (pos_part grid.q) (pos_part (back grid.mu))
        d.bits d.bits_are in
    let alpha = pos_part domain.scale - pos_part threshold in
    record {
      scores_fit = λ mu c i k.
          subst
            (λ s.
              Below (2 ^ s) (score12 (pos_part grid.q) mu alpha c)
              × Below (2 ^ s) (score3 (pos_part grid.q) mu (pos_part threshold) c))
            (sym (d.score_are ∙ m.score_is))
            (scores-Below (pos_part grid.q) mu alpha (pos_part threshold) c m.coefficient_bits
              domain.max_cost_bits
              (omega (
                arith,
                m.of_coefficient.reaches,
                coefficient_bound_mono (pos_part grid.q) mu (pos_part (back grid.mu)) alpha
                    (pos_part threshold)
                    (pos_below mu (back grid.mu) (in-sorted (pos mu) grid.mu d.sorted i)),
              ))
              k);
      sums_fit = λ scores h l.
          subst (λ s. Below (2 ^ s) (sum_of scores))
            (sym (d.bound_are ∙ m.bound_is ∙ ap (λ s. s + m.row_bits) (sym d.score_are)))
            (sum_of-Below scores bounds.score_bits m.row_bits h
              (omega (arith, l, (ceil_log2-IsLog domain.max_rows m.row_bits m.of_rows).reaches)));
      delta_bits = d.delta_are ∙ m.delta_is ∙ ap (λ s. s + 1) (sym d.score_are);
      mu_supported = λ mu i.
          omega
            (arith, d.largest, pos_below mu (back grid.mu) (in-sorted (pos mu) grid.mu d.sorted i));
    }
