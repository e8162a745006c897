-- ===== src/Prelude/Throws.antt =====
-- Results of code that throws: the error that is thrown, or the value that is returned.
use mathlib.Core.Path.{◌≡◌, refl}
use mathlib.Core.Logic.{◌⊎◌, inl, inr}
use mathlib.Core.Bool.{Bool, true, false}

pub data Result {ℓ} (E : Type 0) (V : Type ℓ) : Type ℓ where
  err : E → Result E V
  ok : V → Result E V

module _ {ℓ κ} {E : Type 0} {V : Type ℓ} {W : Type κ} where
  infixl 6 ◌>>=◌
  abbrev pub ◌>>=◌ : Result E V → (V → Result E W) → Result E W
  err thrown >>= next = err thrown
  ok value >>= next = next value

  -- A sequence that returns has returned at each step.
  pub >>=-eq-ok :
      (first : Result E V) (next : V → Result E W) {w : W}
      → (first >>= next) ≡ ok w
      → (v : V) × (first ≡ ok v) × (next v ≡ ok w)
  >>=-eq-ok (err thrown) next returned = cc
  >>=-eq-ok (ok value) next returned = (value, refl, returned)

infixl 6 ◌>>◌
abbrev pub ◌>>◌ {κ} : {E : Type 0} {W : Type κ} → Result E (Unit {0}) → Result E W → Result E W
first >> next = first >>= λ _. next

-- `if (!test) throw thrown;`
abbrev pub require : {E : Type 0} → Bool → E → Result E (Unit {0})
require test thrown = elim test [ false ↦ err thrown | true ↦ ok tt ]

-- A check that was passed.
pub require_inv {κ} :
    {E : Type 0} {W : Type κ} (test : Bool) (thrown : E) (next : Result E W) {w : W}
    → (require test thrown >> next) ≡ ok w
    → (test ≡ true) × (next ≡ ok w)
require_inv false thrown next h = cc
require_inv true thrown next h = (refl, h)

pub Result-cases {ℓ} :
    {E : Type 0} {V : Type ℓ} (r : Result E V) → ((e : E) × (r ≡ err e)) ⊎ ((v : V) × (r ≡ ok v))
Result-cases (err thrown) = inl (thrown, refl)
Result-cases (ok value) = inr (value, refl)
