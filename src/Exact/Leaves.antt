-- ===== src/Exact/Leaves.antt =====
-- The completions of the root, the assignments, and the sums that `visit` carries.
use soci_sgx_sdk.Prelude.{
  ℕ, zero, suc, ◌+◌, ◌-◌, ◌*◌, ◌<◌, ◌≡◌, refl, sym, ap, ◌∙◌, subst, inl, inr, List, [], ◌∷◌, ◌++◌,
  Option, none, some, arith, All, All-imp, In, In-append_left, In-append_right,
}
use soci_sgx_sdk.Prelude.Int.{pos, ◌-ℤ◌, ◌+ℤ◌, int_laws}
use soci_sgx_sdk.Exact.{Row, Node, scale, cell, offers, contribution, extend}
use soci_sgx_sdk.Exact.Bounds.{branch, leaves, All-branch}
use soci_sgx_sdk.Exact.Spec.{Totals, method_cost, charge, charge?, totals}
use mathlib.Core.List.{append_assoc, append-nil}

-- The sums of a node agree with one another.
pub record Balanced (t : ℕ) (n : Node) : Type 0 where
  pub sum : n.cost ≡ n.c12 + n.c3
  pub signed : n.linear ≡ pos ((scale - t) * n.c12) -ℤ pos (t * n.c3)

linear_step12 :
    (w t a b c : ℕ) → (pos (w * a) -ℤ pos (t * b)) +ℤ pos (w * c) ≡ pos (w * (a + c)) -ℤ pos (t * b)
linear_step12 w t a b c = omega int_laws

linear_step3 :
    (w t a b c : ℕ)
    → (pos (w * a) -ℤ pos (t * b)) +ℤ (pos 0 -ℤ pos (t * c)) ≡ pos (w * a) -ℤ pos (t * (b + c))
linear_step3 w t a b c = omega int_laws

pub extend-Balanced : (t : ℕ) (n : Node) (j c : ℕ) → Balanced t n → Balanced t (extend t n j c)
unfolding extend contribution
extend-Balanced t n j c v =
    ground
      (arith, linear_step12 (scale - t) t n.c12 n.c3 c, linear_step3 (scale - t) t n.c12 n.c3 c)

cell-All :
    (P : ℕ × ℕ → Type 0) (j : ℕ) (o : Option ℕ) (rest : List (ℕ × ℕ))
    → ((c : ℕ) → o ≡ some c → P (j, c))
    → All P rest
    → All P (cell j o rest)
cell-All P j none rest f h = h
cell-All P j (some c) rest f h = (f c refl, h)

-- An offer is an available method with its cost.
pub IsOffer : Row ℕ → ℕ × ℕ → Type 0
IsOffer row m = method_cost row (suc m.0) ≡ some m.1

pub offers-IsOffer : (row : Row ℕ) → All (IsOffer row) (offers row)
unfolding offers IsOffer
offers-IsOffer row =
    cell-All (IsOffer row) 0 row.method1 _ (λ c e. e)
      (cell-All (IsOffer row) 1 row.method2 _ (λ c e. e)
        (cell-All (IsOffer row) 2 row.method3 [] (λ c e. e) tt))

In-cell_head :
    (j c : ℕ) (o : Option ℕ) (rest : List (ℕ × ℕ)) → o ≡ some c → In (j, c) (cell j o rest)
In-cell_head j c none rest e = cc
In-cell_head j c (some d) rest e = inl (ground arith)

In-cell_tail :
    (j : ℕ) (m : ℕ × ℕ) (o : Option ℕ) (rest : List (ℕ × ℕ)) → In m rest → In m (cell j o rest)
In-cell_tail j m none rest h = h
In-cell_tail j m (some d) rest h = inr h

-- An available method is offered.
pub In-offers :
    (row : Row ℕ) (m c : ℕ)
    → method_cost row m ≡ some c
    → (j : ℕ) × (m ≡ suc j) × In (j, c) (offers row)
unfolding offers
In-offers row zero c e = cc
In-offers row (suc zero) c e = (0, refl, In-cell_head 0 c row.method1 _ e)
In-offers row (suc (suc zero)) c e =
    (1, refl, In-cell_tail 0 (1, c) row.method1 _ (In-cell_head 1 c row.method2 _ e))
In-offers row (suc (suc (suc zero))) c e = (
  2,
  refl,
  In-cell_tail 0 (2, c) row.method1 _
      (In-cell_tail 1 (2, c) row.method2 _ (In-cell_head 2 c row.method3 [] e)),
)
In-offers row (suc (suc (suc (suc m)))) c e = cc

method_cost-lt : (row : Row ℕ) (j c : ℕ) → method_cost row (suc j) ≡ some c → j < 3
method_cost-lt row zero c e = omega arith
method_cost-lt row (suc zero) c e = omega arith
method_cost-lt row (suc (suc zero)) c e = omega arith
method_cost-lt row (suc (suc (suc j))) c e = cc

-- `visit` charges a cost to the total that `charge` charges it to.
extend-charge :
    (t : ℕ) (n : Node) (j c : ℕ) (q : Totals)
    → j < 3
    → ((extend t n j c).c12 + q.0 ≡ n.c12 + (charge (suc j) c q).0)
      × ((extend t n j c).c3 + q.1 ≡ n.c3 + (charge (suc j) c q).1)
unfolding extend
extend-charge t n j c q h = ground arith

-- The leaf `m` below the node `n` stands for an assignment of the rows that are left.
pub record Follows (rows : List (Row ℕ)) (n m : Node) : Type 0 where
  pub path : List ℕ
  pub paid12 : ℕ
  pub paid3 : ℕ
  pub assigned : totals rows path ≡ some (paid12, paid3)
  pub current_is : m.current ≡ n.current ++ path
  pub c12_is : m.c12 ≡ n.c12 + paid12
  pub c3_is : m.c3 ≡ n.c3 + paid3

Follows-step :
    (t : ℕ) (row : Row ℕ) (rows : List (Row ℕ)) (n m : Node) (j c : ℕ)
    → method_cost row (suc j) ≡ some c
    → Follows rows (extend t n j c) m
    → Follows (row ∷ rows) n m
unfolding extend totals
Follows-step t row rows n m j c e f = record {
  path = suc j ∷ f.path;
  paid12 = (charge (suc j) c (f.paid12, f.paid3)).0;
  paid3 = (charge (suc j) c (f.paid12, f.paid3)).1;
  assigned = rw (e, f.assigned);
  current_is = f.current_is ∙ append_assoc n.current (suc j ∷ []) f.path;
  c12_is = f.c12_is ∙ (extend-charge t n j c (f.paid12, f.paid3) (method_cost-lt row j c e)).0;
  c3_is = f.c3_is ∙ (extend-charge t n j c (f.paid12, f.paid3) (method_cost-lt row j c e)).1;
}

pub leaves-Follows :
    (t : ℕ) (rows : List (Row ℕ)) (n : Node) → All (Follows rows n) (leaves t rows n)
leaves-Follows t [] n = (
  record {
    path = [];
    paid12 = 0;
    paid3 = 0;
    assigned = unfold totals in refl;
    current_is = sym (append-nil n.current);
    c12_is = omega arith;
    c3_is = omega arith;
  },
  tt,
)
leaves-Follows t (row ∷ rows) n =
    All-branch t (Follows (row ∷ rows) n) (leaves t rows) n (offers row) (
      All-imp (IsOffer row) _ (offers row)
        (λ o e.
          All-imp (Follows rows (extend t n o.0 o.1)) _ (leaves t rows (extend t n o.0 o.1))
            (λ leaf f. Follows-step t row rows n leaf o.0 o.1 (unfold IsOffer in e) f)
            (leaves-Follows t rows (extend t n o.0 o.1)))
        (offers-IsOffer row))

pub leaves-Balanced :
    (t : ℕ) (rows : List (Row ℕ)) (n : Node) → Balanced t n → All (Balanced t) (leaves t rows n)
leaves-Balanced t [] n v = (v, tt)
leaves-Balanced t (row ∷ rows) n v = All-branch t (Balanced t) (leaves t rows) n (offers row) (
    All-imp (IsOffer row) _ (offers row)
      (λ o e. leaves-Balanced t rows (extend t n o.0 o.1) (extend-Balanced t n o.0 o.1 v))
      (offers-IsOffer row))

In-branch :
    (t : ℕ) (go : Node → List Node) (n leaf : Node) (j c : ℕ) (ms : List (ℕ × ℕ))
    → In (j, c) ms
    → In leaf (go (extend t n j c))
    → In leaf (branch t go n ms)
In-branch t go n leaf j c [] h k = absurd h
In-branch t go n leaf j c (m ∷ ms) (inl e) k =
    In-append_left leaf (go (extend t n m.0 m.1)) (branch t go n ms)
      (subst (λ p. In leaf (go (extend t n p.0 p.1))) e k)
In-branch t go n leaf j c (m ∷ ms) (inr h) k =
    In-append_right leaf (go (extend t n m.0 m.1)) (branch t go n ms)
      (In-branch t go n leaf j c ms h k)

charge?-eq-some :
    (m : ℕ) (o : Option ℕ) (p : Option Totals) (r : Totals)
    → charge? m o p ≡ some r
    → (c : ℕ) × (q : Totals) × (o ≡ some c) × (p ≡ some q) × (charge m c q ≡ r)
charge?-eq-some m none p r h = cc
charge?-eq-some m (some c) none r h = cc
charge?-eq-some m (some c) (some q) r h = (c, q, refl, refl, cc)

-- Every assignment of the rows that are left is a leaf below the node.
pub record Reached (t : ℕ) (rows : List (Row ℕ)) (n : Node) (ms : List ℕ) (p : Totals)
    : Type 0 where
  pub leaf : Node
  pub listed : In leaf (leaves t rows n)
  pub current_is : leaf.current ≡ n.current ++ ms
  pub c12_is : leaf.c12 ≡ n.c12 + p.0
  pub c3_is : leaf.c3 ≡ n.c3 + p.1

Reached-step :
    (t : ℕ) (row : Row ℕ) (rows : List (Row ℕ)) (n : Node) (m : ℕ) (ms : List ℕ) (p : Totals)
    (j c : ℕ) (q : Totals)
    → m ≡ suc j
    → method_cost row m ≡ some c
    → In (j, c) (offers row)
    → charge m c q ≡ p
    → Reached t rows (extend t n j c) ms q
    → Reached t (row ∷ rows) n (m ∷ ms) p
Reached-step t row rows n m ms p j c q ej ec inj er r = record {
  leaf = r.leaf;
  listed = In-branch t (leaves t rows) n r.leaf j c (offers row) inj r.listed;
  current_is =
      r.current_is
      ∙ unfold extend in
        append_assoc n.current (suc j ∷ []) ms ∙ ap (λ k. n.current ++ k ∷ ms) (sym ej);
  c12_is = r.c12_is ∙ charged.0 ∙ ap (λ x. n.c12 + x.0) paid_is;
  c3_is = r.c3_is ∙ charged.1 ∙ ap (λ x. n.c3 + x.1) paid_is;
}
  where
    paid_is : charge (suc j) c q ≡ p
    paid_is = rw (← ej) er

    charged :
        ((extend t n j c).c12 + q.0 ≡ n.c12 + (charge (suc j) c q).0)
        × ((extend t n j c).c3 + q.1 ≡ n.c3 + (charge (suc j) c q).1)
    charged = extend-charge t n j c q (method_cost-lt row j c (rw ej at ec))

paid : Option Totals → Totals
paid none = (0, 0)
paid (some q) = q

pub totals-Reached :
    (t : ℕ) (rows : List (Row ℕ)) (n : Node) (ms : List ℕ) (p : Totals)
    → totals rows ms ≡ some p
    → Reached t rows n ms p
unfolding totals paid
totals-Reached t [] n [] p e = record {
  leaf = n;
  listed = inl refl;
  current_is = sym (append-nil n.current);
  c12_is = omega (arith, ap (λ o. (paid o).0) e);
  c3_is = omega (arith, ap (λ o. (paid o).1) e);
}
totals-Reached t [] n (m ∷ ms) p e = cc
totals-Reached t (row ∷ rows) n [] p e = cc
totals-Reached t (row ∷ rows) n (m ∷ ms) p e =
    let (c, q, ec, eq, er) = charge?-eq-some m (method_cost row m) (totals rows ms) p e in
    let (j, ej, inj) = In-offers row m c ec in
    Reached-step t row rows n m ms p j c q ej ec inj er
      (totals-Reached t rows (extend t n j c) ms q eq)
