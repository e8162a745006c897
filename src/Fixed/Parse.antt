-- ===== src/Fixed/Parse.antt =====
-- What `parse_fixed_point` accepts and returns.
use soci_sgx_sdk.Prelude.{
  ℕ, zero, suc, ◌+◌, ◌-◌, ◌*◌, ◌^◌, ◌≤◌, ◌<◌, ◌≡◌, refl, ap, subst, List, [], ◌∷◌, ◌++◌, Bool, true,
  All, All-append, All-imp, arith, Result, ok, err, >>=-eq-ok, ◌>>=◌, length, take, replicate,
  all_of, require, not, none, some, ◌==◌, leb, ltb, if◌then◌else◌, length-append, length-replicate,
  ◌&&◌,
}
use soci_sgx_sdk.Text.{is_digit, digits_value, split_at}
use soci_sgx_sdk.Text.Decimal.{IsDigit}
use soci_sgx_sdk.Fixed.{
  Status, invalid_argument, numeric_range_exceeded, scale, fixed_safe, int64_max, six_digits, stoll,
  scaled_value, parse_fixed_point, strip_sign, split_decimal, trim_fixed, default_zero,
}
use soci_sgx_sdk.Fixed.Trim.{IsSpace, NotSpace, trim_fixed_padded}
use native.Mathlib.Nat.{pow-suc}

digits_value-lt :
    (acc : ℕ) (s : List ℕ) → All IsDigit s → digits_value acc s < (acc + 1) * 10 ^ length s
unfolding digits_value
digits_value-lt acc [] h = omega arith
digits_value-lt acc (c ∷ s) h = rw (pow-suc 10 (length s)) (
    omega (
      arith,
      digits_value-lt (acc * 10 + (c - b'0')) s h.1,
      widen (acc * 10 + (c - b'0') + 1) (acc * 10 + 10) (10 ^ length s) digit,
    ))
  where
    widen : (a b k : ℕ) → a ≤ b → a * k ≤ b * k
    widen a b k e = grind arith

    digit : acc * 10 + (c - b'0') + 1 ≤ acc * 10 + 10
    digit = ground (arith, h.0)

all_of-digits : (s : List ℕ) → all_of is_digit s ≡ true → All IsDigit s
all_of-digits [] h = tt
all_of-digits (c ∷ s) h = (ground arith, all_of-digits s (ground arith))

digits-all_of : (s : List ℕ) → All IsDigit s → all_of is_digit s ≡ true
digits-all_of [] h = refl
digits-all_of (c ∷ s) h = rw (h.0, digits-all_of s h.1)

take-All : (n : ℕ) (s : List ℕ) → All IsDigit s → All IsDigit (take n s)
take-All zero s h = tt
take-All (suc n) [] h = tt
take-All (suc n) (c ∷ s) h = (h.0, take-All n s h.1)

length-take-le : (n : ℕ) (s : List ℕ) → length (take n s) ≤ n
length-take-le zero s = omega arith
length-take-le (suc n) [] = omega arith
length-take-le (suc n) (c ∷ s) = omega (arith, length-take-le n s)

zeros-IsDigit : (n : ℕ) → All IsDigit (replicate n b'0')
zeros-IsDigit zero = tt
zeros-IsDigit (suc n) = (refl, zeros-IsDigit n)

abbrev filled : List ℕ → List ℕ
filled f = take 6 f ++ replicate (6 - length (take 6 f)) b'0'

filled-IsDigit : (f : List ℕ) → All IsDigit f → All IsDigit (filled f)
filled-IsDigit f h =
    All-append IsDigit (take 6 f) _ (take-All 6 f h) (zeros-IsDigit (6 - length (take 6 f)))

length-filled : (f : List ℕ) → length (filled f) ≡ 6
length-filled f = omega (
  arith,
  length-append (take 6 f) (replicate (6 - length (take 6 f)) b'0'),
  length-replicate {A = ℕ} (6 - length (take 6 f)) b'0',
  length-take-le 6 f,
)

six_digits-filled : (f g : List ℕ) → six_digits f ≡ ok g → filled f ≡ g
unfolding six_digits
six_digits-filled f g e = ground arith

-- The fraction is below one million once it is cut and filled to six digits.
six_digits-lt : (f g : List ℕ) → All IsDigit f → six_digits f ≡ ok g → digits_value 0 g < scale
six_digits-lt f g h e =
    subst (λ r. digits_value 0 r < scale) (six_digits-filled f g e)
      (omega (
        arith,
        digits_value-lt 0 (filled f) (filled-IsDigit f h),
        ap (λ (n : ℕ). 10 ^ n) (length-filled f),
      ))

scaled_value_bounds :
    (w f : ℕ) (threshold : Bool) (v : ℕ)
    → f < scale
    → scaled_value w f threshold ≡ ok v
    → (v ≤ fixed_safe) × (threshold ≡ true → v < scale)
unfolding scaled_value
scaled_value_bounds w f threshold v h e = (ground arith, λ t. ground arith)

-- Every number that is returned is within the safe range; a threshold is below one.
pub parse_fixed_point_bounds :
    (input : List ℕ) (threshold : Bool) (v : ℕ)
    → parse_fixed_point input threshold ≡ ok v
    → (v ≤ fixed_safe) × (threshold ≡ true → v < scale)
unfolding parse_fixed_point
parse_fixed_point_bounds input threshold v e =
    let (s, _, e1) = >>=-eq-ok (strip_sign (trim_fixed input)) _ e in
    let (p, _, e2) = >>=-eq-ok (split_decimal s) _ e1 in
    let (_, digits, e3) = >>=-eq-ok _ _ e2 in
    let (g, cut, e4) = >>=-eq-ok (six_digits p.1) _ e3 in
    let (w, _, e5) = >>=-eq-ok (stoll (default_zero p.0)) _ e4 in
    let (f, read, e6) = >>=-eq-ok (stoll g) _ e5 in
    scaled_value_bounds w f threshold v
      (stoll-lt g f read (six_digits-lt p.1 g (all_of-digits p.1 (fraction_digits p digits)) cut))
      e6
  where
    stoll-lt : (g : List ℕ) (f : ℕ) → stoll g ≡ ok f → digits_value 0 g < scale → f < scale
    stoll-lt g f h k = unfold stoll in ground arith

    fraction_digits :
        (p : List ℕ × List ℕ) {u : Unit {0}}
        → require (all_of is_digit (default_zero p.0) && all_of is_digit p.1) invalid_argument
          ≡ ok u
        → all_of is_digit p.1 ≡ true
    fraction_digits p h = ground arith

-- The value that a decimal text of digits stands for, in millionths.
abbrev pub decimal_value : List ℕ → List ℕ → ℕ
decimal_value w f = digits_value 0 w * scale + digits_value 0 (f ++ replicate (6 - length f) b'0')

take-short : (n : ℕ) (s : List ℕ) → length s ≤ n → take n s ≡ s
take-short zero [] h = refl
take-short zero (c ∷ s) h = absurd (omega arith)
take-short (suc n) [] h = refl
take-short (suc n) (c ∷ s) h = ap (◌∷◌ c) (take-short n s (omega arith))

split_at-append :
    (d : ℕ) (w f : List ℕ)
    → all_of (λ c. not (c == d)) w ≡ true
    → split_at d (w ++ d ∷ f) ≡ some (w, f)
unfolding split_at
split_at-append d [] f h = ground arith
split_at-append d (c ∷ w) f h = ground (arith, split_at-append d w f)

split_at-none : (d : ℕ) (s : List ℕ) → all_of (λ c. not (c == d)) s ≡ true → split_at d s ≡ none
unfolding split_at
split_at-none d [] h = refl
split_at-none d (c ∷ s) h = ground (arith, split_at-none d s)

no_point : (s : List ℕ) → All IsDigit s → all_of (λ c. not (c == b'.')) s ≡ true
no_point [] h = refl
no_point (c ∷ s) h = ground (arith, h.0, no_point s h.1)

IsDigit-NotSpace : (c : ℕ) → IsDigit c → NotSpace c
IsDigit-NotSpace c h = ground arith

-- What the range and threshold checks make of a value.
abbrev pub checked : Bool → ℕ → Result Status ℕ
checked threshold v =
    if leb v fixed_safe
    then (if threshold && leb scale v then err invalid_argument else ok v)
    else err numeric_range_exceeded

module _ (w f : List ℕ) (wd : All IsDigit w) (fd : All IsDigit f) (short : length f ≤ 6) where
  abbrev text : List ℕ
  text = w ++ b'.' ∷ f

  fraction_value : ℕ
  fraction_value = digits_value 0 (f ++ replicate (6 - length f) b'0')

  strip_sign-text : strip_sign text ≡ ok text
  unfolding strip_sign
  strip_sign-text = first w wd
    where
      first : (w : List ℕ) → All IsDigit w → strip_sign (w ++ b'.' ∷ f) ≡ ok (w ++ b'.' ∷ f)
      first [] h = refl
      first (c ∷ w) h = ground (arith, h.0)

  trim_fixed-text :
      (before after : List ℕ)
      → All IsSpace before
      → All IsSpace after
      → trim_fixed (before ++ text ++ after) ≡ text
  trim_fixed-text before after b a = first w wd
    where
      spaceless : (s : List ℕ) → All IsDigit s → All NotSpace s
      spaceless s h = All-imp IsDigit NotSpace s IsDigit-NotSpace h

      first :
          (w : List ℕ)
          → All IsDigit w
          → trim_fixed (before ++ (w ++ b'.' ∷ f) ++ after) ≡ w ++ b'.' ∷ f
      first [] h = trim_fixed_padded before after b'.' f b a (refl, spaceless f fd)
      first (c ∷ w) h = trim_fixed_padded before after c (w ++ b'.' ∷ f) b a (
        IsDigit-NotSpace c h.0,
        All-append NotSpace w (b'.' ∷ f) (spaceless w h.1) (refl, spaceless f fd),
      )

  split_decimal-text : split_decimal text ≡ ok (w, f)
  unfolding split_decimal
  split_decimal-text =
      rw (split_at-append b'.' w f (no_point w wd), split_at-none b'.' f (no_point f fd))

  six_digits-text : six_digits f ≡ ok (f ++ replicate (6 - length f) b'0')
  unfolding six_digits
  six_digits-text = rw (take-short 6 f short) (ground arith)

  default_zero-IsDigit : (w : List ℕ) → All IsDigit w → all_of is_digit (default_zero w) ≡ true
  default_zero-IsDigit [] h = refl
  default_zero-IsDigit (c ∷ w) h = digits-all_of (c ∷ w) h

  default_zero-value : (w : List ℕ) → digits_value 0 (default_zero w) ≡ digits_value 0 w
  unfolding digits_value
  default_zero-value [] = refl
  default_zero-value (c ∷ w) = refl

  fraction_value-lt : fraction_value < scale
  unfolding fraction_value
  fraction_value-lt = six_digits-lt f _ fd six_digits-text

  check_values :
      (wv fv : ℕ) (threshold : Bool)
      → fv < scale
      → (do
        v ← (if ltb int64_max wv then err numeric_range_exceeded else ok wv)
        u ← (if ltb int64_max fv then err numeric_range_exceeded else ok fv)
        scaled_value v u threshold)
        ≡ checked threshold (wv * scale + fv)
  unfolding scaled_value
  check_values wv fv threshold h = ground arith

  checks :
      (whole fraction : List ℕ) (threshold : Bool)
      → digits_value 0 fraction < scale
      → (do v ← stoll whole; u ← stoll fraction; scaled_value v u threshold)
        ≡ checked threshold (digits_value 0 whole * scale + digits_value 0 fraction)
  unfolding stoll
  checks whole fraction threshold h =
      check_values (digits_value 0 whole) (digits_value 0 fraction) threshold h

  -- A decimal with at most six places, blanks around it allowed, is read as its exact value in
  -- millionths. Past the safe range that is the range error; a threshold of one or more is invalid.
  pub parse_fixed_point-decimal :
      (before after : List ℕ) (threshold : Bool)
      → All IsSpace before
      → All IsSpace after
      → parse_fixed_point (before ++ text ++ after) threshold
        ≡ checked threshold (decimal_value w f)
  unfolding parse_fixed_point fraction_value
  parse_fixed_point-decimal before after threshold b a =
      rw
        (
          trim_fixed-text before after b a,
          strip_sign-text,
          split_decimal-text,
          default_zero-IsDigit w wd,
          digits-all_of f fd,
          six_digits-text,
        )
        (rw (← default_zero-value w) (
          checks (default_zero w) (f ++ replicate (6 - length f) b'0') threshold fraction_value-lt))
