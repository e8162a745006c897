-- ===== src/Predicate/Decide.antt =====
-- What the two circuits of `PredicateEngine` decrypt to, against the plain conditions they stand
-- for.
use soci_sgx_sdk.Prelude.{
  suc, ◌<◌, ◌≡◌, refl, ap, subst, ◌∙◌, Bool, true, not, ◌&&◌, ◌||◌, List, [], ◌∷◌, map, All, any_of,
  Option, none, some, arith, length,
}
use soci_sgx_sdk.Prelude.Int.{ℤ, pos, ltb_ℤ}
use soci_sgx_sdk.Secure.{EncryptedBit, of_bool, SecureOps, Bit, Below, bit_or}
use soci_sgx_sdk.Secure.Gates.{Holds, Exact, bit_or-Holds}
use soci_sgx_sdk.Secure.Compare.{eqb_ℤ}
use soci_sgx_sdk.Secure.Batch.{HoldAll}
use soci_sgx_sdk.Predicate.{or_tree, front, rest_of, zero_bit, prune_comparisons, prune_bit}
use soci_sgx_sdk.Predicate.Tree.{disjunction, length-HoldAll, or_tree-Holds}

-- A subtree is pruned when its linear bound is negative, or some cost lower bound is above the
-- incumbent's cost.
abbrev pub should_prune : ℤ → List ℤ → Option ℤ → Bool
should_prune linear_upper lowers none = ltb_ℤ linear_upper (pos 0)
should_prune linear_upper lowers (some cost) =
    ltb_ℤ linear_upper (pos 0) || any_of (λ lower. ltb_ℤ cost lower) lowers

-- A candidate is accepted when it is feasible and, against an incumbent, has a smaller cost, or
-- the same cost and a smaller c12.
abbrev pub is_better : ℤ → ℤ → Option (ℤ × ℤ) → Bool
is_better cost c12 none = true
is_better cost c12 (some best) = ltb_ℤ cost best.0 || (eqb_ℤ cost best.0 && ltb_ℤ c12 best.1)

abbrev pub should_accept : ℤ → ℤ → ℤ → ℤ → Option (ℤ × ℤ) → Bool
should_accept linear c3 cost c12 best =
    not (ltb_ℤ linear (pos 0)) && ltb_ℤ (pos 0) c3 && is_better cost c12 best

disjunction-map : (f : ℤ → Bool) (xs : List ℤ) → disjunction (map f xs) ≡ any_of f xs
disjunction-map f [] = refl
disjunction-map f (x ∷ xs) = ap (◌||◌ (f x)) (disjunction-map f xs)

length-map_tests : (f : ℤ → Bool) (xs : List ℤ) → length (map f xs) ≡ length xs
length-map_tests f [] = refl
length-map_tests f (x ∷ xs) = ap suc (length-map_tests f xs)

module _ (ops : SecureOps) where
  open ops use {
    Ciphertext, encrypt_constant, greater_than_batch, dec, limit, limit_room, dec-encrypt_constant,
    dec-greater_than_batch,
  }

  abbrev greater : Ciphertext × Ciphertext → Bool
  greater i = ltb_ℤ (dec i.1) (dec i.0)

  abbrev ExactPair : Ciphertext × Ciphertext → Type 0
  ExactPair i = Below limit (dec i.0) × Below limit (dec i.1)

  pub dec-zero : dec (encrypt_constant (pos 0)) ≡ pos 0
  dec-zero = dec-encrypt_constant (pos 0) (omega (arith, limit_room), omega (arith, limit_room))

  pub zero-Exact : Exact ops (encrypt_constant (pos 0))
  zero-Exact = rw dec-zero (omega (arith, limit_room), omega (arith, limit_room))

  read-HoldAll :
      (bs : List (Bit ops)) (items : List (Ciphertext × Ciphertext))
      → map (λ b. dec (EncryptedBit.ciphertext b)) bs ≡ map (λ i. of_bool (greater i)) items
      → HoldAll ops bs (map greater items)
  read-HoldAll [] [] e = tt
  read-HoldAll [] (i ∷ items) e = cc
  read-HoldAll (b ∷ bs) [] e = cc
  read-HoldAll (b ∷ bs) (i ∷ items) e = (cc, read-HoldAll bs items cc)

  pub compared-HoldAll :
      (items : List (Ciphertext × Ciphertext))
      → All ExactPair items
      → HoldAll ops (greater_than_batch items) (map greater items)
  compared-HoldAll items h = read-HoldAll _ items (dec-greater_than_batch items h)

  tree_gate-Holds :
      (bits : List (Bit ops)) (y : Bool) (ys : List Bool)
      → HoldAll ops bits (y ∷ ys)
      → 0 < length ys
      → Holds ops
          (bit_or ops
            (front ops (zero_bit ops) bits)
            (front ops (zero_bit ops) (or_tree ops (length (rest_of ops bits)) (rest_of ops bits))))
          (y || disjunction ys)
  tree_gate-Holds [] y ys h p = absurd h
  tree_gate-Holds (b ∷ bits) y ys h p =
      let r =
        or_tree-Holds ops (length bits) bits ys h.1 p
          (omega (arith, length-HoldAll ops bits ys h.1)) in
      rw r.1 (bit_or-Holds ops b r.0 y (disjunction ys) h.0 r.2)

  lowers_compared :
      (best : Ciphertext) (lowers : List Ciphertext)
      → map greater (map (λ lower. (lower, best)) lowers)
        ≡ map (λ lower. ltb_ℤ (dec best) lower) (map dec lowers)
  lowers_compared best [] = refl
  lowers_compared best (l ∷ lowers) =
      ap (◌∷◌ (ltb_ℤ (dec best) (dec l))) (lowers_compared best lowers)

  lowers-Exact :
      (best : Ciphertext) (lowers : List Ciphertext)
      → Exact ops best
      → All (Exact ops) lowers
      → All ExactPair (map (λ lower. (lower, best)) lowers)
  lowers-Exact best [] hb hs = tt
  lowers-Exact best (l ∷ lowers) hb (h, hs) = ((h, hb), lowers-Exact best lowers hb hs)

  any_lower :
      (best : Ciphertext) (lowers : List Ciphertext)
      → disjunction (map greater (map (λ lower. (lower, best)) lowers))
        ≡ any_of (λ lower. ltb_ℤ (dec best) lower) (map dec lowers)
  any_lower best lowers =
      ap disjunction (lowers_compared best lowers)
      ∙ disjunction-map (λ lower. ltb_ℤ (dec best) lower) (map dec lowers)

  length-lowers :
      (best : Ciphertext) (lowers : List Ciphertext)
      → length (map greater (map (λ lower. (lower, best)) lowers)) ≡ length lowers
  length-lowers best [] = refl
  length-lowers best (l ∷ lowers) = ap suc (length-lowers best lowers)

  front-Holds :
      (bits : List (Bit ops)) (y : Bool) (ys : List Bool)
      → HoldAll ops bits (y ∷ ys)
      → Holds ops (front ops (zero_bit ops) bits) y
  front-Holds [] y ys h = absurd h
  front-Holds (b ∷ bits) y ys h = h.0

  -- The pruning circuit with no incumbent.
  pub prune_bit-none-Holds :
      (linear_upper : Ciphertext) (lowers : List Ciphertext)
      → Exact ops linear_upper
      → Holds ops
          (prune_bit ops linear_upper lowers none)
          (should_prune (dec linear_upper) (map dec lowers) none)
  unfolding prune_bit prune_comparisons
  prune_bit-none-Holds linear_upper lowers h =
      subst (λ z. Holds ops (prune_bit ops linear_upper lowers none) (ltb_ℤ (dec linear_upper) z))
        dec-zero
        (front-Holds (greater_than_batch (prune_comparisons ops linear_upper lowers none)) _ []
          (compared-HoldAll ((encrypt_constant (pos 0), linear_upper) ∷ []) ((zero-Exact, h), tt)))

  -- The pruning circuit against an incumbent's cost.
  pub prune_bit-some-Holds :
      (linear_upper : Ciphertext) (lowers : List Ciphertext) (best : Ciphertext)
      → Exact ops linear_upper
      → All (Exact ops) lowers
      → Exact ops best
      → 0 < length lowers
      → Holds ops
          (prune_bit ops linear_upper lowers (some best))
          (should_prune (dec linear_upper) (map dec lowers) (some (dec best)))
  unfolding prune_bit prune_comparisons
  prune_bit-some-Holds linear_upper lowers best h hs hb p =
      subst (Holds ops (prune_bit ops linear_upper lowers (some best)))
        (ap (λ y. ltb_ℤ (dec linear_upper) y || disjunction tests) dec-zero
          ∙ ap (λ y. ltb_ℤ (dec linear_upper) (pos 0) || y) (any_lower best lowers))
        (tree_gate-Holds (greater_than_batch items) _ tests
          (compared-HoldAll items ((zero-Exact, h), lowers-Exact best lowers hb hs))
          (omega (arith, length-lowers best lowers)))
    where
      items : List (Ciphertext × Ciphertext)
      items = (encrypt_constant (pos 0), linear_upper) ∷ map (λ lower. (lower, best)) lowers

      tests : List Bool
      tests = map greater (map (λ lower. (lower, best)) lowers)
