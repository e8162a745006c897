-- ===== src/Fixed/Trim.antt =====
-- `trim_fixed`, and the white space at both ends.
use soci_sgx_sdk.Prelude.{
  ℕ, ◌≡◌, refl, ap, ◌∙◌, List, [], ◌∷◌, ◌++◌, Bool, true, false, All, All-append,
}
use soci_sgx_sdk.Text.{is_space, drop_while, drop_while_end}
use soci_sgx_sdk.Fixed.{trim_fixed}
use mathlib.Core.List.{reverse, reverse-append, reverse-reverse, reverse-cons, append_assoc}

abbrev pub IsSpace : ℕ → Type 0
IsSpace c = is_space c ≡ true

abbrev pub NotSpace : ℕ → Type 0
NotSpace c = is_space c ≡ false

All-reverse : (P : ℕ → Type 0) (s : List ℕ) → All P s → All P (reverse s)
All-reverse P [] h = tt
All-reverse P (c ∷ s) h =
    rw (reverse-cons c s) (All-append P (reverse s) (c ∷ []) (All-reverse P s h.1) (h.0, tt))

drop_while-append :
    (p : ℕ → Bool) (ws s : List ℕ)
    → All (λ c. p c ≡ true) ws
    → drop_while p (ws ++ s) ≡ drop_while p s
unfolding drop_while
drop_while-append p [] s h = refl
drop_while-append p (c ∷ ws) s h = rw h.0 (drop_while-append p ws s h.1)

drop_while-none : (p : ℕ → Bool) (s : List ℕ) → All (λ c. p c ≡ false) s → drop_while p s ≡ s
unfolding drop_while
drop_while-none p [] h = refl
drop_while-none p (c ∷ s) h = rw h.0

drop_while_end-append :
    (p : ℕ → Bool) (s ws : List ℕ)
    → All (λ c. p c ≡ false) s
    → All (λ c. p c ≡ true) ws
    → drop_while_end p (s ++ ws) ≡ s
unfolding drop_while_end
drop_while_end-append p s ws h k =
    rw
      (
        reverse-append s ws,
        drop_while-append p (reverse ws) (reverse s) (All-reverse _ ws k),
        drop_while-none p (reverse s) (All-reverse _ s h),
      )
      (reverse-reverse s)

head_kept :
    (p : ℕ → Bool) (c : ℕ) (s ws : List ℕ) → p c ≡ false → drop_while p (c ∷ s ++ ws) ≡ c ∷ s ++ ws
unfolding drop_while
head_kept p c s ws h = rw h

-- White space around a text that is not empty and has none inside is taken off.
pub trim_fixed_padded :
    (before after : List ℕ) (c : ℕ) (s : List ℕ)
    → All IsSpace before
    → All IsSpace after
    → All NotSpace (c ∷ s)
    → trim_fixed (before ++ (c ∷ s) ++ after) ≡ c ∷ s
unfolding trim_fixed
trim_fixed_padded before after c s b a h =
    ap (drop_while_end is_space) (
      ap (drop_while is_space) (append_assoc before (c ∷ s) after)
      ∙ drop_while-append is_space before (c ∷ s ++ after) b
      ∙ head_kept is_space c s after h.0)
    ∙ drop_while_end-append is_space (c ∷ s) after h a
