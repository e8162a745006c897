-- ===== src/Exact/Choice.antt =====
-- The choice that `submit` makes among completions, as a choice by a strict order.
use soci_sgx_sdk.Prelude.{
  ℕ, ◌+◌, ◌-◌, ◌*◌, ◌<◌, ◌≡◌, refl, ap, inl, inr, List, [], ◌∷◌, ◌++◌, Option, none, some, arith,
  All, All-append, All-imp, In, In-append_left, In-append_right, Bool, not, Bool-cases, true, false,
  ltb, lt→ltb, leb, ◌&&◌, ◌||◌, ◌==◌, if◌then◌else◌,
}
use soci_sgx_sdk.Prelude.Int.{pos, ltb_ℤ, -ℤ_parts}
use soci_sgx_sdk.Exact.{
  Node, Incumbent, scale, int64_max, no_incumbent, adopt, submit, better_tie,
  lexicographical_compare,
}
use soci_sgx_sdk.Exact.Leaves.{Balanced}
use soci_sgx_sdk.Exact.Tie.{tie_before, better_tie-tie_before}
use mathlib.Core.List.{foldl, append-nil, append_assoc}

-- The strict order among completions.
unfoldable pub before : Node → Node → Bool
before n b = ltb n.cost b.cost || (n.cost == b.cost && tie_before n b)

unfoldable pub is_feasible : ℕ → Node → Bool
is_feasible t n = ltb 0 n.c3 && leb (t * (n.c12 + n.c3)) (scale * n.c12)

abbrev pub best_of : Node → Option Node → Node
best_of n none = n
best_of n (some b) = if before n b then n else b

unfoldable pub choose : ℕ → Option Node → Node → Option Node
choose t o n = if is_feasible t n then some (best_of n o) else o

abbrev pub to_incumbent : Option Node → Incumbent
to_incumbent none = no_incumbent
to_incumbent (some n) = adopt n

pub record Ready (t : ℕ) (n : Node) : Type 0 where
  pub balanced : Balanced t n
  pub fits : n.cost < int64_max

lexicographical_compare_irrefl : (xs : List ℕ) → lexicographical_compare xs xs ≡ false
unfolding lexicographical_compare
lexicographical_compare_irrefl [] = refl
lexicographical_compare_irrefl (x ∷ xs) = ground (arith, lexicographical_compare_irrefl xs)

lexicographical_compare_trans :
    (xs ys zs : List ℕ)
    → lexicographical_compare xs ys ≡ true
    → lexicographical_compare ys zs ≡ true
    → lexicographical_compare xs zs ≡ true
unfolding lexicographical_compare
lexicographical_compare_trans xs [] zs h k = cc
lexicographical_compare_trans xs (y ∷ ys) [] h k = cc
lexicographical_compare_trans [] (y ∷ ys) (z ∷ zs) h k = refl
lexicographical_compare_trans (x ∷ xs) (y ∷ ys) (z ∷ zs) h k =
    ground (arith, lexicographical_compare_trans xs ys zs)

pub before_irrefl : (n : Node) → before n n ≡ false
unfolding before tie_before
before_irrefl n = ground (arith, lexicographical_compare_irrefl n.current)

pub before_trans : (a b c : Node) → before a b ≡ true → before b c ≡ true → before a c ≡ true
unfolding before tie_before
before_trans a b c h k = ground (arith, lexicographical_compare_trans a.current b.current c.current)

-- The three tests of the leaf are the feasibility of the assignment.
infeasible_test :
    (t : ℕ) (n : Node)
    → t < scale
    → Balanced t n
    → (ltb_ℤ n.linear (pos 0) || leb n.c3 0 || leb (n.c12 + n.c3) 0) ≡ not (is_feasible t n)
unfolding is_feasible
infeasible_test t n h v =
    ground (arith, v.signed, -ℤ_parts (pos ((scale - t) * n.c12)) (pos (t * n.c3)), weights)
  where
    weights : (scale - t) * n.c12 + t * n.c12 ≡ scale * n.c12
    weights = omega (arith, ap (λ (w : ℕ). w * n.c12) parts)
      where
        parts : scale - t + t ≡ scale
        parts = omega arith

abbrev pub IsKept : ℕ → Option Node → Type 0
IsKept t none = Unit {0}
IsKept t (some b) = Ready t b × (is_feasible t b ≡ true)

-- The leaf code makes the choice.
submit-choose :
    (t : ℕ) (o : Option Node) (n : Node)
    → t < scale
    → IsKept t o
    → Ready t n
    → submit t (to_incumbent o) n ≡ to_incumbent (choose t o n)
unfolding submit choose
submit-choose t none n h k r = elim (Bool-cases (is_feasible t n)) [
  | inl e ↦ rw (infeasible_test t n h r.balanced, e, lt→ltb _ _ r.fits)
  | inr e ↦ rw (infeasible_test t n h r.balanced, e)
]
submit-choose t (some b) n h k r = elim (Bool-cases (is_feasible t n)) [
  | inl e ↦ rw (infeasible_test t n h r.balanced, e) (kept e)
  | inr e ↦ rw (infeasible_test t n h r.balanced, e)
]
  where
    kept :
        is_feasible t n ≡ true
        → (if ltb n.cost b.cost || (n.cost == b.cost && better_tie t (adopt b) n)
            then adopt n
            else adopt b)
          ≡ adopt (if before n b then n else b)
    kept e =
        unfold before is_feasible in
        ground (arith, e, k.0.balanced.sum, r.balanced.sum, better_tie-tie_before t n b)

choose-IsKept :
    (t : ℕ) (o : Option Node) (n : Node) → IsKept t o → Ready t n → IsKept t (choose t o n)
unfolding choose
choose-IsKept t none n k r = elim (Bool-cases (is_feasible t n)) [
  | inl e ↦ rw e (r, e)
  | inr e ↦ rw e tt
]
choose-IsKept t (some b) n k r = elim (Bool-cases (is_feasible t n)) [
  | inl e ↦ rw e (keep (before n b) e)
  | inr e ↦ rw e k
]
  where
    keep :
        (c : Bool)
        → is_feasible t n ≡ true
        → Ready t (if c then n else b) × (is_feasible t (if c then n else b) ≡ true)
    keep true e = (r, e)
    keep false e = k

pub foldl-submit :
    (t : ℕ) (o : Option Node) (ms : List Node)
    → t < scale
    → IsKept t o
    → All (Ready t) ms
    → foldl (submit t) (to_incumbent o) ms ≡ to_incumbent (foldl (choose t) o ms)
foldl-submit t o [] h k r = refl
foldl-submit t o (m ∷ ms) h k r =
    rw (submit-choose t o m h k r.0)
      (foldl-submit t (choose t o m) ms h (choose-IsKept t o m k r.0) r.1)

-- `o` is a first one among the feasible completions of the list, if there is any.
pub record IsFirst (t : ℕ) (ms : List Node) (b : Node) : Type 0 where
  pub listed : In b ms
  pub feasible : is_feasible t b ≡ true
  pub first : All (λ m. is_feasible t m ≡ true → before m b ≡ false) ms

abbrev pub IsChosen : ℕ → List Node → Option Node → Type 0
IsChosen t ms none = All (λ m. is_feasible t m ≡ false) ms
IsChosen t ms (some b) = IsFirst t ms b

module _ (t : ℕ) (seen : List Node) (m : Node) where
  -- What holds of the completions seen so far, and of one more.
  add_one : (P : Node → Type 0) → All P seen → P m → All P (seen ++ m ∷ [])
  add_one P h k = All-append P seen (m ∷ []) h (k, tt)

  one-IsFirst :
      All (λ x. is_feasible t x ≡ false) seen
      → is_feasible t m ≡ true
      → IsFirst t (seen ++ m ∷ []) m
  one-IsFirst h e = record {
    listed = In-append_right m seen (m ∷ []) (inl refl);
    feasible = e;
    first = add_one _ (All-imp _ _ seen (λ x no_x yes_x. cc) h) (λ _. before_irrefl m);
  }

  next-IsFirst :
      (b : Node)
      → IsFirst t seen b
      → is_feasible t m ≡ true
      → before m b ≡ true
      → IsFirst t (seen ++ m ∷ []) m
  next-IsFirst b k e lt = record {
    listed = In-append_right m seen (m ∷ []) (inl refl);
    feasible = e;
    first = add_one _ (All-imp _ _ seen not_before k.first) (λ _. before_irrefl m);
  }
    where
      not_before :
          (x : Node)
          → (is_feasible t x ≡ true → before x b ≡ false)
          → is_feasible t x ≡ true
          → before x m ≡ false
      not_before x h f = elim (Bool-cases (before x m)) [
        | inl y ↦ cc (before_trans x m b y lt, h f)
        | inr n ↦ n
      ]

  still-IsFirst :
      (b : Node)
      → IsFirst t seen b
      → (is_feasible t m ≡ true → before m b ≡ false)
      → IsFirst t (seen ++ m ∷ []) b
  still-IsFirst b k h = record {
    listed = In-append_left b seen (m ∷ []) k.listed;
    feasible = k.feasible;
    first = add_one _ k.first h;
  }

  choose-IsChosen :
      (o : Option Node) → IsChosen t seen o → IsChosen t (seen ++ m ∷ []) (choose t o m)
  unfolding choose
  choose-IsChosen none k = elim (Bool-cases (is_feasible t m)) [
    | inl e ↦ rw e (one-IsFirst k e)
    | inr e ↦ rw e (add_one _ k e)
  ]
  choose-IsChosen (some b) k = elim (Bool-cases (is_feasible t m)) [
    | inl e ↦ rw e (elim (Bool-cases (before m b)) [
      | inl lt ↦ rw lt (next-IsFirst b k e lt)
      | inr ge ↦ rw ge (still-IsFirst b k (λ _. ge))
    ])
    | inr e ↦ rw e (still-IsFirst b k (λ f. cc))
  ]

foldl-IsChosen :
    (t : ℕ) (seen ms : List Node) (o : Option Node)
    → IsChosen t seen o
    → IsChosen t (seen ++ ms) (foldl (choose t) o ms)
foldl-IsChosen t seen [] o k = rw (append-nil seen) k
foldl-IsChosen t seen (m ∷ ms) o k =
    rw (append_assoc seen (m ∷ []) ms) at
      (foldl-IsChosen t (seen ++ m ∷ []) ms (choose t o m) (choose-IsChosen t seen m o k))

-- The exhaustive search keeps a first feasible completion, or nothing if none is feasible.
pub foldl-choose : (t : ℕ) (ms : List Node) → IsChosen t ms (foldl (choose t) none ms)
foldl-choose t ms = foldl-IsChosen t [] ms none tt
