-- ===== src/Exact/Bounds.antt =====
-- What the suffix tables of `Solver` bound: the cost and the linear term of every completion.
use soci_sgx_sdk.Prelude.{
  ℕ, ◌+◌, ◌≤◌, ◌≡◌, List, [], ◌∷◌, ◌++◌, true, arith, min, max, All, All-append, All-imp,
}
use soci_sgx_sdk.Prelude.Int.{ℤ, ◌+ℤ◌, ◌≤ℤ◌, int_laws, max_ℤ, negsuc}
use soci_sgx_sdk.Exact.{
  Row, Node, offers, contribution, min_offer, max_offer, min_suffix, ratio_max_suffix, extend,
  largest, max_total, is_offered, int64_max,
}

min_offer-le_start : (mn : ℕ) (ms : List (ℕ × ℕ)) → min_offer mn ms ≤ mn
min_offer-le_start mn [] = omega arith
min_offer-le_start mn ((j, c) ∷ ms) = omega (arith, min_offer-le_start (min mn c) ms)

-- The smallest offer is at most each offer.
pub min_offer-le : (mn : ℕ) (ms : List (ℕ × ℕ)) → All (λ m. min_offer mn ms ≤ m.1) ms
min_offer-le mn [] = tt
min_offer-le mn ((j, c) ∷ ms) =
    (omega (arith, min_offer-le_start (min mn c) ms), min_offer-le (min mn c) ms)

start-le-max_offer : (t : ℕ) (mx : ℤ) (ms : List (ℕ × ℕ)) → mx ≤ℤ max_offer t mx ms
start-le-max_offer t mx [] = omega arith
start-le-max_offer t mx ((j, c) ∷ ms) =
    ground (arith, start-le-max_offer t (max_ℤ mx (contribution t j c)) ms)

pub le-max_offer :
    (t : ℕ) (mx : ℤ) (ms : List (ℕ × ℕ)) → All (λ m. contribution t m.0 m.1 ≤ℤ max_offer t mx ms) ms
le-max_offer t mx [] = tt
le-max_offer t mx ((j, c) ∷ ms) =
    let mx' = max_ℤ mx (contribution t j c) in
    (ground (arith, start-le-max_offer t mx' ms), le-max_offer t mx' ms)

-- The children of a node, each replaced by what `go` makes of it.
abbrev pub branch : ℕ → (Node → List Node) → Node → List (ℕ × ℕ) → List Node
branch t go n [] = []
branch t go n ((j, c) ∷ ms) = go (extend t n j c) ++ branch t go n ms

-- The completions of a node, in the order in which an exhaustive search reaches them.
abbrev pub leaves : ℕ → List (Row ℕ) → Node → List Node
leaves t [] n = n ∷ []
leaves t (row ∷ rows) n = branch t (leaves t rows) n (offers row)

-- A property of the leaves under every child is one of the leaves under the node.
pub All-branch :
    (t : ℕ) (P : Node → Type 0) (go : Node → List Node) (n : Node) (ms : List (ℕ × ℕ))
    → All (λ m. All P (go (extend t n m.0 m.1))) ms
    → All P (branch t go n ms)
All-branch t P go n [] h = tt
All-branch t P go n ((j, c) ∷ ms) h =
    All-append P (go (extend t n j c)) (branch t go n ms) h.0 (All-branch t P go n ms h.1)

-- The two bounds by which `visit` prunes.
pub record Within (t : ℕ) (rows : List (Row ℕ)) (n : Node) (m : Node) : Type 0 where
  pub at_least : n.cost + min_suffix rows ≤ m.cost
  pub at_most : m.linear ≤ℤ n.linear +ℤ ratio_max_suffix t rows

Within-step :
    (t : ℕ) (row : Row ℕ) (rows : List (Row ℕ)) (n m : Node) (j c : ℕ)
    → min_offer int64_max (offers row) ≤ c
    → contribution t j c ≤ℤ max_offer t (negsuc int64_max) (offers row)
    → Within t rows (extend t n j c) m
    → Within t (row ∷ rows) n m
unfolding min_suffix ratio_max_suffix extend
Within-step t row rows n m j c lo hi w = record {
  at_least = omega (arith, w.at_least);
  at_most = omega (int_laws, w.at_most);
}

both : (P Q : ℕ × ℕ → Type 0) (ms : List (ℕ × ℕ)) → All P ms → All Q ms → All (λ m. P m × Q m) ms
both P Q [] p q = tt
both P Q (m ∷ ms) p q = ((p.0, q.0), both P Q ms p.1 q.1)

-- Every completion costs at least the pruning bound, and its linear term is at most the other.
pub leaves-Within :
    (t : ℕ) (rows : List (Row ℕ)) (n : Node) → All (Within t rows n) (leaves t rows n)
leaves-Within t [] n = (
  unfold min_suffix ratio_max_suffix in record { at_least = omega arith; at_most = omega int_laws },
  tt,
)
leaves-Within t (row ∷ rows) n = All-branch t (Within t (row ∷ rows) n) (leaves t rows) n ms (
    All-imp _ _ ms
      (λ m h.
        All-imp (Within t rows (extend t n m.0 m.1)) _ (leaves t rows (extend t n m.0 m.1))
          (λ leaf w. Within-step t row rows n leaf m.0 m.1 h.0 h.1 w)
          (leaves-Within t rows (extend t n m.0 m.1)))
      (both _ _ ms (min_offer-le int64_max ms) (le-max_offer t (negsuc int64_max) ms)))
  where
    ms : List (ℕ × ℕ)
    ms = offers row

start-le-largest : (mx : ℕ) (ms : List (ℕ × ℕ)) → mx ≤ largest mx ms
start-le-largest mx [] = omega arith
start-le-largest mx ((j, c) ∷ ms) = omega (arith, start-le-largest (max mx c) ms)

pub le-largest : (mx : ℕ) (ms : List (ℕ × ℕ)) → All (λ m. m.1 ≤ largest mx ms) ms
le-largest mx [] = tt
le-largest mx ((j, c) ∷ ms) =
    (omega (arith, start-le-largest (max mx c) ms), le-largest (max mx c) ms)

-- No completion costs more than the sum of the largest cost of each row.
pub leaves-le-max_total :
    (t : ℕ) (rows : List (Row ℕ)) (n : Node)
    → All (λ m. m.cost ≤ n.cost + max_total rows) (leaves t rows n)
unfolding max_total
leaves-le-max_total t [] n = (omega arith, tt)
leaves-le-max_total t (row ∷ rows) n =
    All-branch t (λ m. m.cost ≤ n.cost + (largest 0 (offers row) + max_total rows)) (leaves t rows)
      n (offers row)
      (All-imp (λ m. m.1 ≤ largest 0 (offers row)) _ (offers row)
        (λ m. under_child m (leaves-le-max_total t rows (extend t n m.0 m.1)))
        (le-largest 0 (offers row)))
  where
    under_child :
        (m : ℕ × ℕ)
        → All
            (λ leaf. leaf.cost ≤ (extend t n m.0 m.1).cost + max_total rows)
            (leaves t rows (extend t n m.0 m.1))
        → m.1 ≤ largest 0 (offers row)
        → All
            (λ leaf. leaf.cost ≤ n.cost + (largest 0 (offers row) + max_total rows))
            (leaves t rows (extend t n m.0 m.1))
    under_child m below h =
        All-imp (λ leaf. leaf.cost ≤ (extend t n m.0 m.1).cost + max_total rows) _
          (leaves t rows (extend t n m.0 m.1)) (λ leaf w. unfold extend in omega (arith, w, h))
          below

-- Every cost that is offered is at most the largest, which is at least the smallest.
pub min_offer-le-largest :
    (ms : List (ℕ × ℕ)) → is_offered ms ≡ true → min_offer int64_max ms ≤ largest 0 ms
min_offer-le-largest [] h = cc
min_offer-le-largest (m ∷ ms) h =
    omega (arith, (min_offer-le int64_max (m ∷ ms)).0, (le-largest 0 (m ∷ ms)).0)

pub max_offer-le :
    (t : ℕ) (mx b : ℤ) (ms : List (ℕ × ℕ))
    → mx ≤ℤ b
    → All (λ m. contribution t m.0 m.1 ≤ℤ b) ms
    → max_offer t mx ms ≤ℤ b
max_offer-le t mx b [] h k = h
max_offer-le t mx b ((j, c) ∷ ms) h k =
    max_offer-le t (max_ℤ mx (contribution t j c)) b ms (ground (arith, k.0)) k.1
