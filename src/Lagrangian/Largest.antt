-- ===== src/Lagrangian/Largest.antt =====
-- `maximumMu`: the bisection for the largest supported multiplier.
use soci_sgx_sdk.Prelude.{
  ℕ, ◌-◌, ◌≤◌, ◌<◌, ◌≡◌, refl, sym, ap, ◌∙◌, Bool, true, false, arith, Result, ok, err, ◌>>=◌, ◌>>◌,
  require, Bool-cases, Result-cases, ◌⊎◌, inl, inr,
}
use soci_sgx_sdk.Prelude.Int.{pos_part}
use soci_sgx_sdk.Fixed.{Status, numeric_range_exceeded, int64_max}
use soci_sgx_sdk.Lagrangian.{
  NumericDomain, ceil_log2, coefficient_bound, Bits, required_bits, supported, maximum_mu,
  search_mu,
}
use soci_sgx_sdk.Lagrangian.Log.{
  log_mono, ceil_log2-ok, coefficient_bound_mono, coefficient_bound_room,
}
use soci_sgx_sdk.Lagrangian.Search.{IsLargest, search_mu-IsLargest}
use soci_sgx_sdk.Lagrangian.Maximum.{
  coefficient, required_bits-Measures, required_bits-ok, fits, Fits-fits, supported-Fits,
}

not_ok : (e : Status) → ¬ (◌≡◌ {A = Result Status Bool} (err e) (ok true))
not_ok e h = cc

not_true : ¬ (◌≡◌ {A = Result Status Bool} (ok false) (ok true))
not_true h = cc

-- The body of `maximumMu`, over the test at zero and the search.
abbrev maximum_of : Result Status Bool → Result Status ℕ → Result Status ℕ
maximum_of first search = do at_zero ← first; require at_zero numeric_range_exceeded; search

first_throws :
    (r : Result Status Bool) (s : Result Status ℕ) (e : Status) → r ≡ err e → maximum_of r s ≡ err e
first_throws r s e f = rw f refl

first_false :
    (r : Result Status Bool) (s : Result Status ℕ)
    → r ≡ ok false
    → maximum_of r s ≡ err numeric_range_exceeded
first_false r s f = rw f refl

first_true : (r : Result Status Bool) (s : Result Status ℕ) → r ≡ ok true → maximum_of r s ≡ s
first_true r s f = rw f refl

module _ (domain : NumericDomain) (threshold q : ℕ) (hq : q ≤ int64_max) (pq : 0 < q)
    (ht : threshold ≤ int64_max) (hs : pos_part domain.scale ≤ int64_max) where
  abbrev test : ℕ → Result Status Bool
  test = supported domain threshold q

  coefficient_pos : (mu : ℕ) → 0 < coefficient domain threshold q mu
  unfolding coefficient_bound
  coefficient_pos mu = ground arith

  coefficient_log :
      (mu : ℕ)
      → mu ≤ int64_max
      → (g : ℕ) × (ceil_log2 (coefficient domain threshold q mu) ≡ ok g) × (g ≤ 127)
  coefficient_log mu h = ceil_log2-ok (coefficient domain threshold q mu) (coefficient_pos mu) (
      coefficient_bound_room q mu (pos_part domain.scale - threshold) threshold hq h (omega arith)
        ht)

  supported_value :
      (mu : ℕ) (bits : Bits)
      → required_bits domain threshold q mu ≡ ok bits
      → test mu ≡ ok (fits domain threshold q bits)
  unfolding supported
  supported_value mu bits e = rw e refl

  -- The bits at any multiplier, once zero is supported.
  bits_at :
      test 0 ≡ ok true
      → (mu : ℕ) → mu ≤ int64_max
      → (bits : Bits) × (required_bits domain threshold q mu ≡ ok bits)
  bits_at z mu h =
      let (bits, e, fit) = supported-Fits domain threshold q 0 z in
      let m = required_bits-Measures domain threshold q 0 bits e in
      let (g, eg, hg) = coefficient_log mu h in
      required_bits-ok domain threshold q mu g m.row_bits eg m.of_rows hg
        (omega (arith, m.score_is, m.delta_is, fit.0)) (omega (arith, m.bound_is, fit.1, fit.2))

  supported_total :
      test 0 ≡ ok true → (mu : ℕ) → mu ≤ int64_max → (test mu ≡ ok true) ⊎ (test mu ≡ ok false)
  supported_total z mu h =
      let (bits, e) = bits_at z mu h in
      elim (Bool-cases (fits domain threshold q bits)) [
        | inl t ↦ inl (supported_value mu bits e ∙ ap ok t)
        | inr t ↦ inr (supported_value mu bits e ∙ ap ok t)
      ]

  supported_down :
      test 0 ≡ ok true → (j k : ℕ) → j ≤ k → k ≤ int64_max → test k ≡ ok true → test j ≡ ok true
  supported_down z j k l h t =
      let (bits, e, fit) = supported-Fits domain threshold q k t in
      let (lower, f) = bits_at z j (omega arith) in
      let m = required_bits-Measures domain threshold q k bits e in
      let n = required_bits-Measures domain threshold q j lower f in
      let g =
        log_mono _ _ _ _
          (coefficient_bound_mono q j k (pos_part domain.scale - threshold) threshold l)
          n.of_coefficient m.of_coefficient in
      let r = same_rows _ _ (sym n.of_rows ∙ m.of_rows) in
      supported_value j lower f
      ∙ ap ok (
          Fits-fits domain threshold q lower (
            omega (arith, g, n.score_is, n.delta_is, m.score_is, m.delta_is, fit.0),
            omega (arith, g, r, n.score_is, n.bound_is, m.score_is, m.bound_is, fit.1),
            fit.2,
          ))
    where
      same_rows : (a b : ℕ) → ◌≡◌ {A = Result Status ℕ} (ok a) (ok b) → a ≡ b
      same_rows a b s = cc

  maximum_mu_def :
      maximum_mu domain threshold q ≡ maximum_of (test 0) (search_mu test 63 0 int64_max)
  unfolding maximum_mu
  maximum_mu_def = refl

  -- For a positive `q` and 64-bit inputs, `maximumMu` returns the largest multiplier up to
  -- INT64_MAX whose bits are supported, everything above it being unsupported, unless not even
  -- zero is supported, when it throws.
  pub maximum_mu-IsLargest :
      ((e : Status) × (maximum_mu domain threshold q ≡ err e)
        × ¬ (supported domain threshold q 0 ≡ ok true))
      ⊎ ((m : ℕ) × (maximum_mu domain threshold q ≡ ok m)
          × IsLargest (supported domain threshold q) 0 int64_max m)
  maximum_mu-IsLargest = elim (Result-cases (supported domain threshold q 0)) [
    | inl (e, f) ↦ inl (e, maximum_mu_def ∙ first_throws _ _ e f, λ z. not_ok e (sym f ∙ z))
    | inr (b, f) ↦ elim (Bool-cases b) [
      | inl t ↦
          let z = f ∙ ap ok t in
          let (m, r, a) =
            search_mu-IsLargest (supported domain threshold q) int64_max (supported_total z)
              (supported_down z) 63 0 int64_max z (omega arith) (omega arith) (omega arith) in
          inr (m, maximum_mu_def ∙ first_true _ _ z ∙ r, a)
      | inr t ↦ inl (
        numeric_range_exceeded,
        maximum_mu_def ∙ first_false _ _ (f ∙ ap ok t),
        λ z. not_true (sym (f ∙ ap ok t) ∙ z),
      )
    ]
  ]
