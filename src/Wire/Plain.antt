-- ===== src/Wire/Plain.antt =====
-- Big-endian bytes by division, as an instance of what GMP documents of its export and import.
use soci_sgx_sdk.Prelude.{
  ℕ, zero, suc, ◌+◌, ◌*◌, ◌/◌, ◌%◌, ◌≤◌, ◌<◌, ◌≡◌, refl, sym, ap, subst, ◌∙◌, false, List, [], ◌∷◌,
  ◌++◌, ◌==◌, if◌then◌else◌, length, All, All-append, arith, length-append,
}
use soci_sgx_sdk.Wire.{Gmp}

-- The last byte first.
unfoldable pub little : ℕ → ℕ → List ℕ
little zero z = []
little (suc fuel) z = let rest = little fuel (z / 256) in if z == 0 then [] else z % 256 ∷ rest

unfoldable pub little_value : List ℕ → ℕ
little_value [] = 0
little_value (b ∷ bs) = b + 256 * little_value bs

unfoldable pub flip : List ℕ → List ℕ
flip [] = []
flip (b ∷ bs) = flip bs ++ (b ∷ [])

abbrev LastPos : List ℕ → Type 0
LastPos [] = Unit {0}
LastPos (b ∷ []) = 0 < b
LastPos (b ∷ c ∷ bs) = LastPos (c ∷ bs)

nonzero : (z : ℕ) → 0 < z → (z == 0) ≡ false
nonzero z h = ground arith

flip-snoc : (bs : List ℕ) (b : ℕ) → flip (bs ++ (b ∷ [])) ≡ b ∷ flip bs
unfolding flip
flip-snoc [] b = refl
flip-snoc (c ∷ bs) b = ap (λ l. l ++ (c ∷ [])) (flip-snoc bs b)

flip-flip : (bs : List ℕ) → flip (flip bs) ≡ bs
unfolding flip
flip-flip [] = refl
flip-flip (b ∷ bs) = flip-snoc (flip bs) b ∙ ap (λ l. b ∷ l) (flip-flip bs)

length-flip : (bs : List ℕ) → length (flip bs) ≡ length bs
unfolding flip
length-flip [] = refl
length-flip (b ∷ bs) = omega (arith, length-append (flip bs) (b ∷ []), length-flip bs)

All-flip : (P : ℕ → Type 0) (bs : List ℕ) → All P bs → All P (flip bs)
unfolding flip
All-flip P [] h = tt
All-flip P (b ∷ bs) h = All-append P (flip bs) (b ∷ []) (All-flip P bs h.1) (h.0, tt)

snoc-LastPos : (bs : List ℕ) (b : ℕ) → 0 < b → LastPos (bs ++ (b ∷ []))
snoc-LastPos [] b h = h
snoc-LastPos (c ∷ []) b h = h
snoc-LastPos (c ∷ d ∷ bs) b h = snoc-LastPos (d ∷ bs) b h

LastPos-snoc : (bs : List ℕ) (b : ℕ) → LastPos (bs ++ (b ∷ [])) → 0 < b
LastPos-snoc [] b h = h
LastPos-snoc (c ∷ []) b h = h
LastPos-snoc (c ∷ d ∷ bs) b h = LastPos-snoc (d ∷ bs) b h

little_value-little : (fuel z : ℕ) → z ≤ fuel → little_value (little fuel z) ≡ z
unfolding little little_value
little_value-little zero z h = omega arith
little_value-little (suc fuel) zero h = refl
little_value-little (suc fuel) (suc z) h =
    rw (nonzero (suc z) (omega arith))
      (omega (arith, little_value-little fuel (suc z / 256) (omega arith)))

cons-LastPos : (b : ℕ) (bs : List ℕ) → LastPos bs → 0 < b + 256 * little_value bs → LastPos (b ∷ bs)
unfolding little_value
cons-LastPos b [] l h = omega arith
cons-LastPos b (c ∷ bs) l h = l

LastPos-tail : (b : ℕ) (bs : List ℕ) → LastPos (b ∷ bs) → LastPos bs
LastPos-tail b [] h = tt
LastPos-tail b (c ∷ bs) h = h

little-LastPos : (fuel z : ℕ) → z ≤ fuel → LastPos (little fuel z)
unfolding little
little-LastPos zero z h = tt
little-LastPos (suc fuel) zero h = tt
little-LastPos (suc fuel) (suc z) h =
    let v = little_value-little fuel (suc z / 256) (omega arith) in
    rw (nonzero (suc z) (omega arith)) (
      cons-LastPos (suc z % 256) (little fuel (suc z / 256))
        (little-LastPos fuel (suc z / 256) (omega arith)) (omega (arith, v)))

little_value-pos : (b : ℕ) (bs : List ℕ) → LastPos (b ∷ bs) → 0 < little_value (b ∷ bs)
unfolding little_value
little_value-pos b [] h = omega arith
little_value-pos b (c ∷ bs) h = omega (arith, little_value-pos c bs h)

same_cons : {a b : ℕ} {xs ys : List ℕ} → a ≡ b → xs ≡ ys → a ∷ xs ≡ b ∷ ys
same_cons e f = cc

split_low : (b v : ℕ) → b < 256 → (b + 256 * v) % 256 ≡ b
split_low b v h = omega arith

split_high : (b v : ℕ) → b < 256 → (b + 256 * v) / 256 ≡ v
split_high b v h = omega arith

value_pos : (bs : List ℕ) → LastPos bs → 0 < length bs → 0 < little_value bs
value_pos [] l h = absurd (omega arith)
value_pos (b ∷ bs) l h = little_value-pos b bs l

little-little_value :
    (fuel : ℕ) (bs : List ℕ)
    → All (λ c. c < 256) bs
    → LastPos bs
    → little_value bs ≤ fuel
    → little fuel (little_value bs) ≡ bs
unfolding little little_value
little-little_value zero [] w h l = refl
little-little_value (suc fuel) [] w h l = refl
little-little_value zero (b ∷ bs) w h l = absurd (omega (arith, little_value-pos b bs h))
little-little_value (suc fuel) (b ∷ bs) w h l =
    let p = little_value-pos b bs h in
    rw (nonzero (b + 256 * little_value bs) p) (
      same_cons (split_low b (little_value bs) w.0) (
        ap (little fuel) (split_high b (little_value bs) w.0)
        ∙ little-little_value fuel bs w.1 (LastPos-tail b bs h) (omega arith)))

abbrev pub plain_export : ℕ → List ℕ
plain_export z = flip (little z z)

abbrev pub plain_import : List ℕ → ℕ
plain_import bs = little_value (flip bs)

abbrev pub plain_size : ℕ → ℕ
plain_size z = if z == 0 then 1 else 8 * length (plain_export z)

pub plain_export-import :
    (b : ℕ) (bs : List ℕ)
    → All (λ c. c < 256) (b ∷ bs)
    → 0 < b
    → plain_export (plain_import (b ∷ bs)) ≡ b ∷ bs
plain_export-import b bs w h =
    ap flip (
      little-little_value (plain_import (b ∷ bs)) (flip (b ∷ bs))
        (All-flip (λ c. c < 256) (b ∷ bs) w) (unfold flip in snoc-LastPos (flip bs) b h)
        (omega arith))
    ∙ flip-flip (b ∷ bs)

pub plain_export_head : (z b : ℕ) (bs : List ℕ) → plain_export z ≡ b ∷ bs → 0 < b
unfolding flip
plain_export_head z b bs e =
    LastPos-snoc (flip bs) b
      (subst LastPos (sym (flip-flip (little z z)) ∙ ap flip e) (little-LastPos z z (omega arith)))

pub plain_size_export : (z : ℕ) → 0 < z → length (plain_export z) ≡ (plain_size z + 7) / 8
plain_size_export z h = rw (nonzero z h) (omega arith)

pub plain_import-export : (z : ℕ) → plain_import (plain_export z) ≡ z
plain_import-export z =
    ap little_value (flip-flip (little z z)) ∙ little_value-little z z (omega arith)

pub plain_export_pos : (z : ℕ) → 0 < z → 0 < length (plain_export z)
unfolding flip little_value
plain_export_pos z h = some_byte (plain_export z) (plain_import-export z)
  where
    some_byte : (bs : List ℕ) → plain_import bs ≡ z → 0 < length bs
    some_byte [] e = absurd (omega arith)
    some_byte (b ∷ bs) e = omega arith

pub plain_import_pos :
    (b : ℕ) (bs : List ℕ) → All (λ c. c < 256) (b ∷ bs) → 0 < b → 0 < plain_import (b ∷ bs)
plain_import_pos b bs w h =
    value_pos (flip (b ∷ bs)) (unfold flip in snoc-LastPos (flip bs) b h)
      (omega (arith, length-flip (b ∷ bs)))

pub plain_export_zero : plain_export 0 ≡ []
unfolding flip little
plain_export_zero = refl

pub plain_padded : plain_import (0 ∷ []) ≡ 0
unfolding flip little_value
plain_padded = refl

abbrev pub plain_gmp : Gmp
plain_gmp = record {
  size_in_base2 = plain_size;
  export_bytes = plain_export;
  import_bytes = plain_import;
  size_zero = refl;
  export_zero = plain_export_zero;
  size_export = plain_size_export;
  export_pos = plain_export_pos;
  import-export = plain_import-export;
  import_padded = plain_padded;
  export-import = plain_export-import;
  import_pos = plain_import_pos;
  export_head = plain_export_head;
}
