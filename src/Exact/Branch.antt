-- ===== src/Exact/Branch.antt =====
-- `visit`, beside an exhaustive search of all completions.
use soci_sgx_sdk.Prelude.{
  ℕ, ◌≡◌, refl, sym, ap, ◌∙◌, inl, inr, List, [], ◌∷◌, arith, All, All-imp, foldl-append, true,
  Bool-cases,
}
use soci_sgx_sdk.Exact.{
  Row, Node, Incumbent, Search, offers, extend, submit, is_pruned, explore, visit,
}
use soci_sgx_sdk.Exact.Bounds.{Within, leaves-Within, branch, leaves}
use mathlib.Core.List.{foldl}

foldl-fixed :
    (t : ℕ) (b : Incumbent) (ms : List Node)
    → All (λ m. submit t b m ≡ b) ms
    → foldl (submit t) b ms ≡ b
foldl-fixed t b [] h = refl
foldl-fixed t b (m ∷ ms) h = rw h.0 (foldl-fixed t b ms h.1)

submit-pruned :
    (t : ℕ) (rows : List (Row ℕ)) (n : Node) (b : Incumbent)
    → is_pruned t rows n b ≡ true
    → (m : Node) → Within t rows n m
    → submit t b m ≡ b
unfolding is_pruned submit
submit-pruned t rows n b h m w = ground (arith, w.at_least, w.at_most)

pruned-foldl :
    (t : ℕ) (rows : List (Row ℕ)) (n : Node) (b : Incumbent)
    → is_pruned t rows n b ≡ true
    → b ≡ foldl (submit t) b (leaves t rows n)
pruned-foldl t rows n b h = sym (
    foldl-fixed t b (leaves t rows n)
      (All-imp _ _ (leaves t rows n) (submit-pruned t rows n b h) (leaves-Within t rows n)))

explore-foldl :
    (t : ℕ) (go : Node → Search → Search) (down : Node → List Node)
    → ((n : Node) (s : Search) → (go n s).incumbent ≡ foldl (submit t) s.incumbent (down n))
    → (n : Node) (ms : List (ℕ × ℕ)) (s : Search)
    → (explore t go n ms s).incumbent ≡ foldl (submit t) s.incumbent (branch t down n ms)
unfolding explore
explore-foldl t go down ih n [] s = refl
explore-foldl t go down ih n ((j, c) ∷ ms) s = rw foldl-append (
    explore-foldl t go down ih n ms (go (extend t n j c) s)
    ∙ ap (λ b. foldl (submit t) b (branch t down n ms)) (ih (extend t n j c) s))

-- Pruning loses nothing: the incumbent after `visit` is that of the exhaustive search below the
-- node, which submits every completion in order.
pub visit-foldl :
    (t : ℕ) (rows : List (Row ℕ)) (n : Node) (s : Search)
    → (visit t rows n s).incumbent ≡ foldl (submit t) s.incumbent (leaves t rows n)
unfolding visit
visit-foldl t [] n s = elim (Bool-cases (is_pruned t [] n s.incumbent)) [
  | inl h ↦ rw h (pruned-foldl t [] n s.incumbent h)
  | inr h ↦ rw h
]
visit-foldl t (row ∷ rows) n s = elim (Bool-cases (is_pruned t (row ∷ rows) n s.incumbent)) [
  | inl h ↦ rw h (pruned-foldl t (row ∷ rows) n s.incumbent h)
  | inr h ↦
      rw h (explore-foldl t (visit t rows) (leaves t rows) (visit-foldl t rows) n (offers row) _)
]
