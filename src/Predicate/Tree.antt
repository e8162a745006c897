-- ===== src/Predicate/Tree.antt =====
-- The OR tree of `pruneNode`, and the disjunction of a layer.
use soci_sgx_sdk.Prelude.{
  ℕ, zero, suc, ◌≤◌, ◌<◌, ◌≡◌, refl, ap, Bool, true, false, ◌||◌, List, [], ◌∷◌, ◌++◌, map, arith,
  length, subst, lt→ltb,
}
use soci_sgx_sdk.Secure.{SecureOps, Bit, bit_or_batch}
use soci_sgx_sdk.Secure.Gates.{Holds}
use soci_sgx_sdk.Secure.Batch.{HoldAll, HoldPairs, batches-HoldAll}
use soci_sgx_sdk.Predicate.{pairs, leftover, or_tree}

abbrev pub disjunction : List Bool → Bool
disjunction [] = false
disjunction (x ∷ xs) = x || disjunction xs

abbrev bool_pairs : List Bool → List (Bool × Bool)
bool_pairs [] = []
bool_pairs (x ∷ []) = []
bool_pairs (x ∷ y ∷ xs) = (x, y) ∷ bool_pairs xs

abbrev bool_leftover : List Bool → List Bool
bool_leftover [] = []
bool_leftover (x ∷ []) = x ∷ []
bool_leftover (x ∷ y ∷ xs) = bool_leftover xs

abbrev bool_round : List Bool → List Bool
bool_round xs = map (λ x. x.0 || x.1) (bool_pairs xs) ++ bool_leftover xs

disjunction-bool_round : (xs : List Bool) → disjunction (bool_round xs) ≡ disjunction xs
disjunction-bool_round [] = refl
disjunction-bool_round (x ∷ []) = refl
disjunction-bool_round (x ∷ y ∷ xs) = ground (arith, disjunction-bool_round xs)

length-bool_round : (x y : Bool) (xs : List Bool) → length (bool_round xs) ≤ length xs
length-bool_round x y [] = omega arith
length-bool_round x y (z ∷ []) = omega arith
length-bool_round x y (z ∷ w ∷ xs) = omega (arith, length-bool_round x y xs)

module _ (ops : SecureOps) where
  HoldAll-append :
      (bs cs : List (Bit ops)) (xs ys : List Bool)
      → HoldAll ops bs xs
      → HoldAll ops cs ys
      → HoldAll ops (bs ++ cs) (xs ++ ys)
  HoldAll-append [] cs [] ys h k = k
  HoldAll-append [] cs (x ∷ xs) ys h k = absurd h
  HoldAll-append (b ∷ bs) cs [] ys h k = absurd h
  HoldAll-append (b ∷ bs) cs (x ∷ xs) ys h k = (h.0, HoldAll-append bs cs xs ys h.1 k)

  pub length-HoldAll :
      (bs : List (Bit ops)) (xs : List Bool) → HoldAll ops bs xs → length bs ≡ length xs
  length-HoldAll [] [] h = refl
  length-HoldAll [] (x ∷ xs) h = absurd h
  length-HoldAll (b ∷ bs) [] h = absurd h
  length-HoldAll (b ∷ bs) (x ∷ xs) h = ap suc (length-HoldAll bs xs h.1)

  pairs-HoldPairs :
      (bs : List (Bit ops)) (xs : List Bool)
      → HoldAll ops bs xs
      → HoldPairs ops (pairs ops bs) (bool_pairs xs)
  pairs-HoldPairs [] [] h = tt
  pairs-HoldPairs [] (x ∷ xs) h = absurd h
  pairs-HoldPairs (b ∷ bs) [] h = absurd h
  pairs-HoldPairs (b ∷ []) (x ∷ []) h = tt
  pairs-HoldPairs (b ∷ []) (x ∷ y ∷ xs) h = absurd h.1
  pairs-HoldPairs (b ∷ c ∷ bs) (x ∷ []) h = absurd h.1
  pairs-HoldPairs (b ∷ c ∷ bs) (x ∷ y ∷ xs) h = ((h.0, h.1.0), pairs-HoldPairs bs xs h.1.1)

  leftover-HoldAll :
      (bs : List (Bit ops)) (xs : List Bool)
      → HoldAll ops bs xs
      → HoldAll ops (leftover ops bs) (bool_leftover xs)
  leftover-HoldAll [] [] h = tt
  leftover-HoldAll [] (x ∷ xs) h = absurd h
  leftover-HoldAll (b ∷ bs) [] h = absurd h
  leftover-HoldAll (b ∷ []) (x ∷ []) h = h
  leftover-HoldAll (b ∷ []) (x ∷ y ∷ xs) h = absurd h.1
  leftover-HoldAll (b ∷ c ∷ bs) (x ∷ []) h = absurd h.1
  leftover-HoldAll (b ∷ c ∷ bs) (x ∷ y ∷ xs) h = leftover-HoldAll bs xs h.1.1

  round-HoldAll :
      (bs : List (Bit ops)) (xs : List Bool)
      → HoldAll ops bs xs
      → HoldAll ops (bit_or_batch ops (pairs ops bs) ++ leftover ops bs) (bool_round xs)
  round-HoldAll bs xs h =
      HoldAll-append (bit_or_batch ops (pairs ops bs)) (leftover ops bs) _ (bool_leftover xs)
        (batches-HoldAll ops (pairs ops bs) (bool_pairs xs) (pairs-HoldPairs bs xs h)).1
        (leftover-HoldAll bs xs h)

  single_bit-Holds : (b : Bit ops) (x : Bool) → Holds ops b x → Holds ops b (disjunction (x ∷ []))
  single_bit-Holds b false h = h
  single_bit-Holds b true h = h

  -- A layer of two bits or more goes through a round.
  or_tree-round :
      (fuel : ℕ) (b c d : Bit ops) (bs : List (Bit ops)) (x y : Bool) (xs : List Bool)
      → or_tree ops fuel (bit_or_batch ops (pairs ops (b ∷ c ∷ bs)) ++ leftover ops (b ∷ c ∷ bs))
        ≡ d ∷ []
      → Holds ops d (disjunction (bool_round (x ∷ y ∷ xs)))
      → (or_tree ops (suc fuel) (b ∷ c ∷ bs) ≡ d ∷ []) × Holds ops d (disjunction (x ∷ y ∷ xs))
  unfolding or_tree
  or_tree-round fuel b c d bs x y xs e k = (
    rw (lt→ltb 1 (suc (suc (length bs))) (omega arith)) e,
    subst (Holds ops d) (disjunction-bool_round (x ∷ y ∷ xs)) k,
  )

  -- Whatever the size of a layer that is not empty, the loop ends with one bit, the disjunction.
  pub or_tree-Holds :
      (fuel : ℕ) (bs : List (Bit ops)) (xs : List Bool)
      → HoldAll ops bs xs
      → 0 < length xs
      → length xs ≤ suc fuel
      → (b : Bit ops) × (or_tree ops fuel bs ≡ b ∷ []) × Holds ops b (disjunction xs)
  unfolding or_tree
  or_tree-Holds fuel [] [] h p q = absurd (omega arith)
  or_tree-Holds fuel [] (x ∷ xs) h p q = absurd h
  or_tree-Holds fuel (b ∷ bs) [] h p q = absurd h
  or_tree-Holds zero (b ∷ []) (x ∷ []) h p q = (b, refl, single_bit-Holds b x h.0)
  or_tree-Holds (suc fuel) (b ∷ []) (x ∷ []) h p q = (b, refl, single_bit-Holds b x h.0)
  or_tree-Holds fuel (b ∷ []) (x ∷ y ∷ xs) h p q = absurd h.1
  or_tree-Holds fuel (b ∷ c ∷ bs) (x ∷ []) h p q = absurd h.1
  or_tree-Holds zero (b ∷ c ∷ bs) (x ∷ y ∷ xs) h p q = absurd (omega arith)
  or_tree-Holds (suc fuel) (b ∷ c ∷ bs) (x ∷ y ∷ xs) h p q =
      let (d, e, k) =
        or_tree-Holds fuel _ (bool_round (x ∷ y ∷ xs)) (round-HoldAll (b ∷ c ∷ bs) (x ∷ y ∷ xs) h)
          (omega arith) (omega (arith, length-bool_round x y xs)) in
      let r = or_tree-round fuel b c d bs x y xs e k in (d, r.0, r.1)
