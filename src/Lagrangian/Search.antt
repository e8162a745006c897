-- ===== src/Lagrangian/Search.antt =====
-- The binary search of `maximumMu`.
use soci_sgx_sdk.Prelude.{
  ℕ, zero, suc, ◌+◌, ◌-◌, ◌/◌, ◌^◌, ◌≤◌, ◌<◌, ◌≡◌, refl, sym, ◌∙◌, Bool, true, false, arith, Result,
  ok, ltb, ltb→lt, ltb→le, Bool-cases, ◌⊎◌, inl, inr,
}
use native.Mathlib.Nat.{pow-suc}
use soci_sgx_sdk.Fixed.{Status}
use soci_sgx_sdk.Lagrangian.{search_mu}

-- The number is the largest of an interval that passes the test.
pub record IsLargest (test : ℕ → Result Status Bool) (low high m : ℕ) : Type 0 where
  pub at_least : low ≤ m
  pub at_most : m ≤ high
  pub passes : test m ≡ ok true
  pub fails_above : (k : ℕ) → m < k → k ≤ high → test k ≡ ok false

never : ¬ (◌≡◌ {A = Result Status Bool} (ok false) (ok true))
never e = cc

module _ (test : ℕ → Result Status Bool) (top : ℕ)
    (total : (k : ℕ) → k ≤ top → (test k ≡ ok true) ⊎ (test k ≡ ok false))
    (downward : (j k : ℕ) → j ≤ k → k ≤ top → test k ≡ ok true → test j ≡ ok true) where
  -- Narrowing the interval from below or from above keeps the answer.
  IsLargest-up :
      (low mid high m : ℕ) → low ≤ mid → IsLargest test mid high m → IsLargest test low high m
  IsLargest-up low mid high m h a = record {
    at_least = omega (arith, a.at_least);
    at_most = a.at_most;
    passes = a.passes;
    fails_above = a.fails_above;
  }

  fails_from : (mid k : ℕ) → mid ≤ k → k ≤ top → test mid ≡ ok false → test k ≡ ok false
  fails_from mid k h t e = elim (total k t) [
    | inl f ↦ absurd (never (sym e ∙ downward mid k h t f))
    | inr f ↦ f
  ]

  IsLargest-down :
      (low mid high m : ℕ)
      → low < mid
      → mid ≤ high
      → high ≤ top
      → test mid ≡ ok false
      → IsLargest test low (mid - 1) m
      → IsLargest test low high m
  IsLargest-down low mid high m h k t e a = record {
    at_least = a.at_least;
    at_most = omega (arith, a.at_most);
    passes = a.passes;
    fails_above = λ j p q. elim (Bool-cases (ltb j mid)) [
      | inl b ↦ a.fails_above j p (omega (arith, ltb→lt j mid b))
      | inr b ↦ fails_from mid j (ltb→le j mid b) (omega arith) e
    ];
  }

  pub search_mu-IsLargest :
      (fuel low high : ℕ)
      → test low ≡ ok true
      → low ≤ high
      → high ≤ top
      → high - low < 2 ^ fuel
      → (m : ℕ) × (search_mu test fuel low high ≡ ok m) × IsLargest test low high m
  unfolding search_mu
  search_mu-IsLargest zero low high p h t f = (
    low,
    refl,
    record {
      at_least = omega arith;
      at_most = h;
      passes = p;
      fails_above = λ k a b. absurd (omega arith);
    },
  )
  search_mu-IsLargest (suc fuel) low high p h t f = elim (Bool-cases (ltb low high)) [
    | inr e ↦ (
      low,
      rw e refl,
      record {
        at_least = omega arith;
        at_most = h;
        passes = p;
        fails_above = λ k a b. absurd (omega (arith, ltb→le low high e));
      },
    )
    | inl e ↦
        let mid = low + (high - low + 1) / 2 in
        let l = ltb→lt low high e in
        let pw = pow-suc 2 fuel in
        elim (total mid (omega arith)) [
          | inl g ↦
              let (m, r, a) = search_mu-IsLargest fuel mid high g (omega arith) t (omega arith) in
              (m, rw (e, g) r, IsLargest-up low mid high m (omega arith) a)
          | inr g ↦
              let (m, r, a) =
                search_mu-IsLargest fuel low (mid - 1) p (omega arith) (omega arith)
                  (omega arith) in
              (m, rw (e, g) r, IsLargest-down low mid high m (omega arith) (omega arith) t g a)
        ]
  ]
