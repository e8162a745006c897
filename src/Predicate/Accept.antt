-- ===== src/Predicate/Accept.antt =====
-- What the acceptance circuit of `PredicateEngine` decrypts to.
use soci_sgx_sdk.Prelude.{
  ◌≡◌, refl, ap, subst, ◌∙◌, Bool, true, false, not, ◌&&◌, ◌||◌, List, [], ◌∷◌, none, some, arith,
}
use soci_sgx_sdk.Prelude.Int.{ℤ, pos, ltb_ℤ}
use soci_sgx_sdk.Secure.{SecureOps, Bit, bit_not, bit_and, bit_or_exclusive}
use soci_sgx_sdk.Secure.Gates.{Holds, Exact, bit_not-Holds, bit_and-Holds, bit_or_exclusive-Holds}
use soci_sgx_sdk.Secure.Compare.{eqb_ℤ}
use soci_sgx_sdk.Secure.Batch.{HoldAll}
use soci_sgx_sdk.Predicate.{AcceptInputs, bit_at, zero_bit, accept_comparisons, accept_bit}
use soci_sgx_sdk.Predicate.Decide.{should_accept, dec-zero, zero-Exact, compared-HoldAll}

-- The two gates that combine five comparisons.
below_above : (x y : ℤ) → (ltb_ℤ x y && ltb_ℤ y x) ≡ false
below_above x y = ground arith

equal_values : (x y : ℤ) → not (ltb_ℤ x y || ltb_ℤ y x) ≡ eqb_ℤ x y
equal_values x y = ground arith

exclusive_tie : (x y z : Bool) → (x && (not (x || y) && z)) ≡ false
exclusive_tie true y z = refl
exclusive_tie false y z = refl

module _ (ops : SecureOps) where
  open ops use {encrypt_constant, greater_than_batch, dec}

  feasible_gate :
      (bits : List (Bit ops)) (x y : Bool) (rest : List Bool)
      → HoldAll ops bits (x ∷ y ∷ rest)
      → Holds ops
          (bit_and ops
            (bit_not ops (bit_at ops (zero_bit ops) bits 0))
            (bit_at ops (zero_bit ops) bits 1))
          (not x && y)
  feasible_gate [] x y rest h = absurd h
  feasible_gate (b ∷ []) x y rest h = absurd h.1
  feasible_gate (b ∷ c ∷ bits) x y rest h =
      bit_and-Holds ops _ c (not x) y (bit_not-Holds ops b x h.0) h.1.0

  better_gate :
      (c d e : Bit ops) (x y z : Bool)
      → Holds ops c x
      → Holds ops d y
      → Holds ops e z
      → x && y ≡ false
      → Holds ops
          (bit_or_exclusive ops c (bit_and ops (bit_not ops (bit_or_exclusive ops c d)) e))
          (x || (not (x || y) && z))
  better_gate c d e x y z hc hd he p =
      bit_or_exclusive-Holds ops c _ x _ hc
        (bit_and-Holds ops _ e _ z
          (bit_not-Holds ops _ _ (bit_or_exclusive-Holds ops c d x y hc hd p)) he)
        (exclusive_tie x y z)

  accept_gate :
      (bits : List (Bit ops)) (v w x y z : Bool)
      → HoldAll ops bits (v ∷ w ∷ x ∷ y ∷ z ∷ [])
      → x && y ≡ false
      → Holds ops
          (let at = bit_at ops (zero_bit ops) bits in
            bit_and ops (bit_and ops (bit_not ops (at 0)) (at 1)) (
              bit_or_exclusive ops
                (at 2)
                (bit_and ops (bit_not ops (bit_or_exclusive ops (at 2) (at 3))) (at 4))))
          ((not v && w) && (x || (not (x || y) && z)))
  accept_gate [] v w x y z h p = absurd h
  accept_gate (a ∷ []) v w x y z h p = absurd h.1
  accept_gate (a ∷ b ∷ []) v w x y z h p = absurd h.1.1
  accept_gate (a ∷ b ∷ c ∷ []) v w x y z h p = absurd h.1.1.1
  accept_gate (a ∷ b ∷ c ∷ d ∷ []) v w x y z h p = absurd h.1.1.1.1
  accept_gate (a ∷ b ∷ c ∷ d ∷ e ∷ bits) v w x y z (ha, (hb, (hc, (hd, (he, hs))))) p =
      bit_and-Holds ops _ _ (not v && w) _
        (bit_and-Holds ops _ b (not v) w (bit_not-Holds ops a v ha) hb)
        (better_gate c d e x y z hc hd he p)

  and_true : (b : Bool) → b ≡ (b && true)
  and_true true = refl
  and_true false = refl

  abbrev feasible : AcceptInputs ops → ℤ → Bool
  feasible inputs z = not (ltb_ℤ (dec inputs.linear) z) && ltb_ℤ z (dec inputs.c3)

  -- The circuit with no incumbent.
  pub accept_bit-none-Holds :
      (inputs : AcceptInputs ops)
      → Exact ops inputs.linear
      → Exact ops inputs.c3
      → Holds ops (accept_bit ops inputs none) (
          should_accept (dec inputs.linear) (dec inputs.c3) (dec inputs.cost) (dec inputs.c12) none)
  unfolding accept_bit accept_comparisons
  accept_bit-none-Holds inputs hl h3 =
      subst (Holds ops (accept_bit ops inputs none))
        (ap (feasible inputs) (dec-zero ops) ∙ and_true (feasible inputs (pos 0)))
        (feasible_gate (greater_than_batch (accept_comparisons ops inputs none)) _ _ [] (
          compared-HoldAll ops (accept_comparisons ops inputs none)
            ((zero-Exact ops, hl), ((h3, zero-Exact ops), tt))))

  -- The circuit against an incumbent.
  pub accept_bit-some-Holds :
      (inputs : AcceptInputs ops) (cost c12 : ops.Ciphertext)
      → Exact ops inputs.linear
      → Exact ops inputs.c3
      → Exact ops inputs.cost
      → Exact ops inputs.c12
      → Exact ops cost
      → Exact ops c12
      → Holds ops (accept_bit ops inputs (some (cost, c12))) (
          should_accept
            (dec inputs.linear)
            (dec inputs.c3)
            (dec inputs.cost)
            (dec inputs.c12)
            (some (dec cost, dec c12)))
  unfolding accept_bit accept_comparisons
  accept_bit-some-Holds inputs cost c12 hl h3 hc h12 kc k12 =
      subst (Holds ops (accept_bit ops inputs (some (cost, c12))))
        (ap (λ z. feasible inputs z && better) (dec-zero ops)
          ∙ ap
              (λ b.
                feasible inputs (pos 0)
                && (ltb_ℤ (dec inputs.cost) (dec cost) || (b && ltb_ℤ (dec inputs.c12) (dec c12))))
              (equal_values (dec inputs.cost) (dec cost)))
        (accept_gate (greater_than_batch (accept_comparisons ops inputs (some (cost, c12)))) _ _ _ _
          _
          (compared-HoldAll ops (accept_comparisons ops inputs (some (cost, c12))) (
            (zero-Exact ops, hl),
            ((h3, zero-Exact ops), ((kc, hc), ((hc, kc), ((k12, h12), tt)))),
          ))
          (below_above (dec inputs.cost) (dec cost)))
    where
      better : Bool
      better =
          ltb_ℤ (dec inputs.cost) (dec cost)
          || (not (ltb_ℤ (dec inputs.cost) (dec cost) || ltb_ℤ (dec cost) (dec inputs.cost))
              && ltb_ℤ (dec inputs.c12) (dec c12))
