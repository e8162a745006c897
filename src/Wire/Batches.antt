-- ===== src/Wire/Batches.antt =====
-- The integers of a request.
use soci_sgx_sdk.Prelude.{
  ℕ, zero, suc, ◌≡◌, refl, sym, ap, ◌∙◌, List, [], ◌∷◌, ◌++◌, Result, ok, ◌>>=◌, >>=-eq-ok,
  require_inv, length,
}
use mathlib.Core.List.{append-nil, append_assoc}
use soci_sgx_sdk.Wire.{
  Gmp, WireError, integer_too_large, write_u32, byte_size, exported, is_sized, append_integer,
  append_integers, take_integer,
}
use soci_sgx_sdk.Wire.Integers.{take_integer-append_integer}

ok_list : (a b : List ℕ) → ◌≡◌ {A = Result WireError (List ℕ)} (ok a) (ok b) → a ≡ b
ok_list a b h = cc

module _ (gmp : Gmp) where
  -- A reader that takes one integer after the other.
  unfoldable pub take_integers : ℕ → List ℕ → ℕ → Result WireError (List ℕ × ℕ)
  take_integers zero input offset = ok ([], offset)
  take_integers (suc n) input offset = do
    (value, next) ← take_integer gmp input offset
    (values, end) ← take_integers n input next
    ok (value ∷ values, end)

  pub append_integer-extends :
      (output appended : List ℕ) (value : ℕ)
      → append_integer gmp output value ≡ ok appended
      → (more : List ℕ) × (appended ≡ output ++ more)
  unfolding append_integer
  append_integer-extends output appended value e =
      let (c, e1) = require_inv (is_sized gmp output value) integer_too_large _ e in
      (
        write_u32 (byte_size gmp value) ++ exported gmp (byte_size gmp value) value,
        sym (ok_list _ appended e1),
      )

  pub append_integers-extends :
      (payload appended values : List ℕ)
      → append_integers gmp payload values ≡ ok appended
      → (more : List ℕ) × (appended ≡ payload ++ more)
  unfolding append_integers
  append_integers-extends payload appended [] e =
      ([], sym (ok_list payload appended e) ∙ sym (append-nil payload))
  append_integers-extends payload appended (v ∷ vs) e =
      let (p, e1, e2) =
        >>=-eq-ok (append_integer gmp payload v) (λ q. append_integers gmp q vs) e in
      let (m, f) = append_integer-extends payload p v e1 in
      let (n, g) = append_integers-extends p appended vs e2 in
      (m ++ n, g ∙ ap (λ q. q ++ n) f ∙ append_assoc payload m n)

  -- Whatever integers a request has appended behind any bytes, a reader takes the same integers in
  -- the same order from there, and ends where they end, whatever follows.
  pub take_integers-append_integers :
      (payload appended rest values : List ℕ)
      → append_integers gmp payload values ≡ ok appended
      → take_integers (length values) (appended ++ rest) (length payload)
        ≡ ok (values, length appended)
  unfolding append_integers take_integers
  take_integers-append_integers payload appended rest [] e =
      ap (λ a. ok ([], length a)) (ok_list payload appended e)
  take_integers-append_integers payload appended rest (v ∷ vs) e =
      let (p, e1, e2) =
        >>=-eq-ok (append_integer gmp payload v) (λ q. append_integers gmp q vs) e in
      let (n, g) = append_integers-extends p appended vs e2 in
      let first =
        ap (λ i. take_integer gmp i (length payload))
          (ap (λ a. a ++ rest) g ∙ append_assoc p n rest)
        ∙ take_integer-append_integer gmp payload p (n ++ rest) v e1 in
      rw (first, take_integers-append_integers p appended rest vs e2) refl
