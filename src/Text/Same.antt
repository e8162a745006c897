-- ===== src/Text/Same.antt =====
-- The comparison of strings.
use soci_sgx_sdk.Prelude.{ℕ, ◌≡◌, refl, true, List, [], ◌∷◌, arith}
use soci_sgx_sdk.Text.{same_text}

pub same_text_refl : (s : List ℕ) → same_text s s ≡ true
same_text_refl [] = refl
same_text_refl (c ∷ s) = ground (arith, same_text_refl s)

pub same_text-eq : (s t : List ℕ) → same_text s t ≡ true → s ≡ t
same_text-eq [] [] h = refl
same_text-eq [] (d ∷ t) h = absurd cc
same_text-eq (c ∷ s) [] h = absurd cc
same_text-eq (c ∷ s) (d ∷ t) h = ground (arith, same_text-eq s t)
