-- ===== src/Lagrangian/Maximum.antt =====
-- What `requiredBits` computes, and the multiplier that `maximumMu` finds.
use soci_sgx_sdk.Prelude.{
  ℕ, ◌+◌, ◌-◌, ◌≤◌, ◌≡◌, refl, sym, ap, ◌∙◌, Bool, true, ◌&&◌, arith, Result, ok, >>=-eq-ok,
  require_inv, leb, le→leb,
}
use soci_sgx_sdk.Prelude.Int.{pos_part}
use soci_sgx_sdk.Fixed.{Status}
use soci_sgx_sdk.Lagrangian.{
  NumericDomain, ceil_log2, checked_bit_sum, coefficient_bound, Bits, required_bits, supported,
  uint32_max, secure_operand_bits,
}
use soci_sgx_sdk.Lagrangian.Log.{IsLog, ceil_log2-IsLog}

checked_bit_sum_inv : (a b c : ℕ) → checked_bit_sum a b ≡ ok c → c ≡ a + b
unfolding checked_bit_sum
checked_bit_sum_inv a b c e = cc (require_inv (leb (a + b) uint32_max) _ _ e).1

checked_bit_sum-ok : (a b : ℕ) → a + b ≤ 4_294_967_295 → checked_bit_sum a b ≡ ok (a + b)
unfolding checked_bit_sum
checked_bit_sum-ok a b h = rw (le→leb (a + b) uint32_max h) refl

ok_bits : (a b : Bits) → ◌≡◌ {A = Result Status Bits} (ok a) (ok b) → a ≡ b
ok_bits a b e = cc

ok_true : (b : Bool) → ◌≡◌ {A = Result Status Bool} (ok b) (ok true) → b ≡ true
ok_true b e = cc

module _ (domain : NumericDomain) (threshold q : ℕ) where
  abbrev pub coefficient : ℕ → ℕ
  coefficient mu = coefficient_bound q mu (pos_part domain.scale - threshold) threshold

  -- The bits are the cost bits, those of the coefficient, and those of the rows.
  pub record Measures (mu : ℕ) (bits : Bits) : Type 0 where
    pub coefficient_bits : ℕ
    pub row_bits : ℕ
    pub of_coefficient : IsLog (coefficient mu) coefficient_bits
    pub of_rows : ceil_log2 domain.max_rows ≡ ok row_bits
    pub score_is : bits.score ≡ domain.max_cost_bits + coefficient_bits
    pub delta_is : bits.delta ≡ bits.score + 1
    pub bound_is : bits.bound ≡ bits.score + row_bits

  made_of :
      (mu g score delta rows bound : ℕ) (bits : Bits)
      → IsLog (coefficient mu) g
      → ceil_log2 domain.max_rows ≡ ok rows
      → score ≡ domain.max_cost_bits + g
      → delta ≡ score + 1
      → bound ≡ score + rows
      → ◌≡◌ {A = Result Status Bits}
          (ok (record { score = score; delta = delta; bound = bound }))
          (ok bits)
      → Measures mu bits
  made_of mu g score delta rows bound bits lg er es ed eb e =
      let same = ok_bits _ bits e in
      record {
        coefficient_bits = g;
        row_bits = rows;
        of_coefficient = lg;
        of_rows = er;
        score_is = sym (ap (λ b. b.score) same) ∙ es;
        delta_is = sym (ap (λ b. b.delta) same) ∙ ed ∙ ap (λ b. b.score + 1) same;
        bound_is = sym (ap (λ b. b.bound) same) ∙ eb ∙ ap (λ b. b.score + rows) same;
      }

  -- Whatever `requiredBits` returns is made of those counts.
  pub required_bits-Measures :
      (mu : ℕ) (bits : Bits) → required_bits domain threshold q mu ≡ ok bits → Measures mu bits
  unfolding required_bits
  required_bits-Measures mu bits e =
      let (g, eg, e1) = >>=-eq-ok (ceil_log2 (coefficient mu)) _ e in
      let (score, es, e2) = >>=-eq-ok (checked_bit_sum domain.max_cost_bits g) _ e1 in
      let (delta, ed, e3) = >>=-eq-ok (checked_bit_sum score 1) _ e2 in
      let (rows, er, e4) = >>=-eq-ok (ceil_log2 domain.max_rows) _ e3 in
      let (bound, eb, e5) = >>=-eq-ok (checked_bit_sum score rows) _ e4 in
      made_of mu g score delta rows bound bits (ceil_log2-IsLog (coefficient mu) g eg) er
        (checked_bit_sum_inv _ _ _ es) (checked_bit_sum_inv _ _ _ ed) (checked_bit_sum_inv _ _ _ eb)
        e5

  pub required_bits-ok :
      (mu g rows : ℕ)
      → ceil_log2 (coefficient mu) ≡ ok g
      → ceil_log2 domain.max_rows ≡ ok rows
      → g ≤ 127
      → domain.max_cost_bits ≤ 126
      → rows ≤ 127
      → (bits : Bits) × (required_bits domain threshold q mu ≡ ok bits)
  unfolding required_bits
  required_bits-ok mu g rows eg er hg hc hr = (
    record {
      score = domain.max_cost_bits + g;
      delta = domain.max_cost_bits + g + 1;
      bound = domain.max_cost_bits + g + rows;
    },
    rw
        (
          eg,
          checked_bit_sum-ok domain.max_cost_bits g (omega arith),
          checked_bit_sum-ok (domain.max_cost_bits + g) 1 (omega arith),
          er,
          checked_bit_sum-ok (domain.max_cost_bits + g) rows (omega arith),
        )
        refl,
  )

  -- What the three comparisons of `supported` say.
  abbrev pub Fits : Bits → Type 0
  Fits bits =
      (bits.delta ≤ 127)
      × (bits.bound ≤ domain.compare_operand_bits)
      × (domain.compare_operand_bits ≤ 127)

  abbrev pub fits : Bits → Bool
  fits bits =
      leb bits.delta secure_operand_bits
      && leb bits.bound domain.compare_operand_bits
      && leb domain.compare_operand_bits secure_operand_bits

  fits-Fits : (bits : Bits) → fits bits ≡ true → Fits bits
  fits-Fits bits e = (ground arith, ground arith, ground arith)

  pub Fits-fits : (bits : Bits) → Fits bits → fits bits ≡ true
  Fits-fits bits (a, b, c) = rw (le→leb _ _ a, le→leb _ _ b, le→leb _ _ c) refl

  pub supported-Fits :
      (mu : ℕ)
      → supported domain threshold q mu ≡ ok true
      → (bits : Bits) × (required_bits domain threshold q mu ≡ ok bits) × Fits bits
  unfolding supported
  supported-Fits mu e =
      let (bits, eb, e1) = >>=-eq-ok (required_bits domain threshold q mu) _ e in
      (bits, eb, fits-Fits bits (ok_true _ e1))
