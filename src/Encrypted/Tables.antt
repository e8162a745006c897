-- ===== src/Encrypted/Tables.antt =====
-- The ciphertexts that `EncryptedBranchAndBoundSolver::solve` prepares before the search.
use soci_sgx_sdk.Prelude.{ℕ, Bool, List, [], ◌∷◌, map, ltb, ◌==◌, if◌then◌else◌, ◌&&◌, zero, suc}
use soci_sgx_sdk.Prelude.Int.{ℤ, pos, pos_part, neg_part, ◌-ℤ◌}
use soci_sgx_sdk.Secure.{SecureOps, sub, min, max}
use soci_sgx_sdk.Encrypted.{Offer}

module _ (ops : SecureOps) where
  open ops use {Ciphertext, encrypt_constant, add, scalar_mul}

  abbrev pub zero_ciphertext : Ciphertext
  zero_ciphertext = encrypt_constant (pos 0)

  abbrev is_zero : ℤ → Bool
  is_zero z = pos_part z == 0 && neg_part z == 0

  -- A method's score at a multiplier.
  unfoldable pub score_at : ℤ → Ciphertext → Ciphertext → ℤ → Ciphertext
  score_at q cost contribution mu =
      let scaled_cost = scalar_mul cost q in
      if is_zero mu then scaled_cost else sub ops scaled_cost (scalar_mul contribution mu)

  unfoldable pub offer_of : ℤ → ℤ → ℤ → List ℤ → ℕ × Ciphertext → Offer ops
  unfolding score_at
  offer_of scale threshold q mu (j, cost) =
      let factor = if ltb j 2 then scale -ℤ threshold else pos 0 -ℤ threshold in
      let contribution = scalar_mul cost factor in
      record {
        method = j;
        cost = cost;
        contribution = contribution;
        scores = map (score_at q cost contribution) mu;
      }

  -- `value = value ? op(*value, next) : next` over a list; zero stands for the empty list, which
  -- the checks rule out.
  unfoldable pub fold_offers : (Ciphertext → Ciphertext → Ciphertext) → List Ciphertext → Ciphertext
  fold_offers op [] = zero_ciphertext
  fold_offers op (c ∷ cs) = fold_from c cs
    where
      fold_from : Ciphertext → List Ciphertext → Ciphertext
      fold_from value [] = value
      fold_from value (next ∷ more) = fold_from (op value next) more

  abbrev pub row_min_cost : List (Offer ops) → Ciphertext
  row_min_cost offers = fold_offers (min ops) (map (λ o. o.cost) offers)

  abbrev pub row_max_linear : List (Offer ops) → Ciphertext
  row_max_linear offers = fold_offers (max ops) (map (λ o. o.contribution) offers)

  -- The scores of the offers at the multiplier of an index.
  abbrev pub at_index : ℕ → List Ciphertext → Ciphertext
  at_index k [] = zero_ciphertext
  at_index zero (c ∷ cs) = c
  at_index (suc k) (c ∷ cs) = at_index k cs

  abbrev pub indices : ℕ → List ℤ → List ℕ
  indices k [] = []
  indices k (m ∷ mu) = k ∷ indices (suc k) mu

  unfoldable pub row_lagrangian : List ℤ → List (Offer ops) → List Ciphertext
  unfolding fold_offers
  row_lagrangian mu offers =
      map (λ k. fold_offers (min ops) (map (λ o. at_index k o.scores) offers)) (indices 0 mu)

  abbrev pub add_all : List Ciphertext → List Ciphertext → List Ciphertext
  add_all [] ys = []
  add_all (x ∷ xs) [] = []
  add_all (x ∷ xs) (y ∷ ys) = add x y ∷ add_all xs ys

  unfoldable pub min_cost_suffix : List (List (Offer ops)) → Ciphertext
  unfolding fold_offers
  min_cost_suffix [] = zero_ciphertext
  min_cost_suffix (offers ∷ rows) = add (row_min_cost offers) (min_cost_suffix rows)

  unfoldable pub max_linear_suffix : List (List (Offer ops)) → Ciphertext
  unfolding fold_offers
  max_linear_suffix [] = zero_ciphertext
  max_linear_suffix (offers ∷ rows) = add (row_max_linear offers) (max_linear_suffix rows)

  unfoldable pub lagrangian_suffix : List ℤ → List (List (Offer ops)) → List Ciphertext
  unfolding row_lagrangian
  lagrangian_suffix mu [] = map (λ m. zero_ciphertext) mu
  lagrangian_suffix mu (offers ∷ rows) =
      add_all (row_lagrangian mu offers) (lagrangian_suffix mu rows)
