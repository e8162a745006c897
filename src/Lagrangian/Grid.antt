-- ===== src/Lagrangian/Grid.antt =====
-- `buildLagrangianGrid`. A `std::set` is a sorted list without duplicates. The helpers stand behind
-- the checks of the signs, and take naturals.
use soci_sgx_sdk.Prelude.{
  ℕ, zero, suc, ◌+◌, ◌-◌, ◌*◌, ◌/◌, Bool, true, not, ◌&&◌, ◌||◌, List, [], ◌∷◌, map, Option, none,
  some, Result, ok, ◌>>=◌, ◌>>◌, require, ltb, leb, ◌==◌, if◌then◌else◌, length,
}
use soci_sgx_sdk.Prelude.Int.{ℤ, pos, pos_part}
use soci_sgx_sdk.Fixed.{Status, invalid_argument, numeric_range_exceeded, int64_max}
use soci_sgx_sdk.Lagrangian.{
  NumericDomain, LagrangianGrid, larger, is_positive, is_threshold, maximum_mu,
  derive_lagrangian_numeric_bounds,
}

pub record LagrangianGridConfig : Type 0 where
  pub denominator : ℤ
  pub requested_size : ℕ
  pub span_factor : ℤ

abbrev pub max_lagrangian_grid_size : ℕ
max_lagrangian_grid_size = 16

abbrev pub capped : ℕ → ℕ
capped value = if ltb int64_max value then int64_max else value

unfoldable pub rounded_ratio : ℕ → ℕ → ℕ → Result Status ℕ
rounded_ratio a b denominator = do
  require (ltb 0 denominator) invalid_argument
  ok (capped ((a * b + denominator / 2) / denominator))

unfoldable pub insert : ℕ → List ℕ → List ℕ
insert x [] = x ∷ []
insert x (y ∷ ys) =
    let rest = insert x ys in if ltb x y then x ∷ y ∷ ys else if x == y then y ∷ ys else y ∷ rest

unfoldable pub add_anchor : ℕ → ℕ → ℕ → List ℕ → List ℕ
unfolding insert
add_anchor requested upper anchor values =
    if ltb (length values) requested && ltb 0 anchor && leb anchor upper
    then insert anchor values
    else values

-- The loop over `i`, with the values of `i` that are left.
unfoldable pub add_intervals : ℕ → ℕ → ℕ → ℕ → List ℕ → List ℕ
unfolding insert
add_intervals upper intervals zero i values = values
add_intervals upper intervals (suc left) i values =
    add_intervals upper intervals left (suc i)
      (insert ((upper * i + intervals / 2) / intervals) values)

abbrev pub is_anchor : ℕ → ℕ → ℕ → Bool
is_anchor alpha threshold x = x == alpha || x == threshold

abbrev pub last_of : List ℕ → ℕ
last_of [] = 0
last_of (x ∷ []) = x
last_of (x ∷ y ∷ xs) = last_of (y ∷ xs)

-- The list without its last element that passes a test, if there is one.
unfoldable pub erase_last : (ℕ → Bool) → List ℕ → Option (List ℕ)
erase_last p [] = none
erase_last p (x ∷ xs) = elim (erase_last p xs) [
  | some rest ↦ some (x ∷ rest)
  | none ↦ if p x then some xs else none
]

unfoldable pub erase_one : ℕ → ℕ → List ℕ → Option (List ℕ)
unfolding erase_last
erase_one alpha threshold values =
    if is_anchor alpha threshold (last_of values)
    then erase_last (λ x. not (x == 0) && not (is_anchor alpha threshold x)) values
    else erase_last (λ x. true) values

-- `while (values.size() > config.requested_size)`; each round erases a value or leaves.
unfoldable pub shrink : ℕ → ℕ → ℕ → ℕ → List ℕ → List ℕ
unfolding erase_one
shrink zero requested alpha threshold values = values
shrink (suc fuel) requested alpha threshold values =
    if ltb requested (length values)
    then elim (erase_one alpha threshold values) [
      | some rest ↦ shrink fuel requested alpha threshold rest
      | none ↦ values
    ]
    else values

-- The multipliers of a grid, from the two anchors and the largest multiplier.
unfoldable pub grid_values : ℕ → ℕ → ℕ → ℕ → List ℕ
unfolding add_anchor add_intervals shrink
grid_values requested upper alpha_anchor threshold_anchor =
    let anchors =
      add_anchor requested upper threshold_anchor
        (add_anchor requested upper alpha_anchor (0 ∷ [])) in
    let values =
      if ltb 1 requested && ltb 0 upper
      then add_intervals upper (requested - 1) (requested - 1) 1 anchors
      else anchors in
    shrink (length values) requested alpha_anchor threshold_anchor values

-- The tests on the configuration.
abbrev pub is_configured : NumericDomain → LagrangianGridConfig → Bool
is_configured domain config =
    is_positive domain.scale
    && is_positive config.denominator
    && not (config.requested_size == 0)
    && leb config.requested_size max_lagrangian_grid_size
    && is_positive config.span_factor

-- The multipliers that `buildLagrangianGrid` tries, `q` and the sizes being known.
unfoldable pub build_mu : NumericDomain → ℕ → LagrangianGridConfig → ℕ → Result Status (List ℕ)
unfolding rounded_ratio grid_values
build_mu domain threshold config q =
    if threshold == 0 || config.requested_size == 1 then ok (0 ∷ []) else (do
      limit ← maximum_mu domain threshold q
      alpha_anchor ←
          rounded_ratio (pos_part config.denominator) (pos_part domain.scale)
            (pos_part domain.scale - threshold)
      threshold_anchor ←
          rounded_ratio (pos_part config.denominator) (pos_part domain.scale) threshold
      let desired = capped (pos_part config.span_factor * larger alpha_anchor threshold_anchor)
      let upper = if ltb desired limit then desired else limit
      ok (grid_values config.requested_size upper alpha_anchor threshold_anchor))

unfoldable pub build_lagrangian_grid :
    NumericDomain → ℤ → LagrangianGridConfig → Result Status LagrangianGrid
unfolding build_mu
build_lagrangian_grid domain threshold config = do
  require (is_configured domain config) invalid_argument
  require (is_threshold threshold domain.scale) invalid_argument
  let q = pos_part domain.scale * pos_part config.denominator
  require (leb q int64_max) numeric_range_exceeded
  mu ← build_mu domain (pos_part threshold) config q
  let grid : LagrangianGrid = record {
    q = pos q;
    denominator = config.denominator;
    mu = map pos mu;
  }
  bounds ← derive_lagrangian_numeric_bounds domain threshold grid
  ok grid
