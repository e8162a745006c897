-- ===== src/Threshold/Transfer.antt =====
-- The oblivious transfer of input labels in the fused predicate: `otPad`, what the CP masks and
-- what the CSP unmasks. `powm` is mpz_powm, SHA-256 is a parameter.
use soci_sgx_sdk.Prelude.{
  ℕ, ◌+◌, ◌-◌, ◌%◌, ◌≤◌, ◌<◌, ◌≡◌, ap, ◌∙◌, Bool, true, false, List, ◌++◌, arith, leb, ◌==◌,
  if◌then◌else◌, le→leb,
}
use native.Mathlib.Nat.{mod-eq-sub-mod, mod-eq_of_lt}
use native.Mathlib.Decide.{dec_lt}
use soci_sgx_sdk.Wire.{Gmp, write_u32, byte_size, exported}
use soci_sgx_sdk.Threshold.Circuit.{xor}
use soci_sgx_sdk.Threshold.Labels.{
  Label, label_xor, labelled, IsLabel, label_xor-IsLabel, label_xor_undo,
}

-- `(v - x) % n`, plus `n` where that is negative.
unfoldable pub ot_base : ℕ → ℕ → ℕ → ℕ
ot_base n v x = if leb x v then (v - x) % n else if (x - v) % n == 0 then 0 else n - (x - v) % n

-- What the CSP sends for its choice and its key.
unfoldable pub ot_request : (ℕ → ℕ → ℕ → ℕ) → ℕ → ℕ → Bool → ℕ → ℕ → ℕ → ℕ
ot_request powm n public choice key x0 x1 = ((if choice then x1 else x0) + powm key public n) % n

module _ (gmp : Gmp) (sha256 : List ℕ → List ℕ) where
  unfoldable pub ot_pad : ℕ → ℕ → Label
  ot_pad key index =
      let n = byte_size gmp key in
      sha256 (exported gmp (if n == 0 then 1 else n) key ++ write_u32 index)

  module _ (powm : ℕ → ℕ → ℕ → ℕ) where
    -- The two masked labels of an input, for a choice of 0 and of 1.
    unfoldable pub ot_messages : ℕ → ℕ → Label → Label → Bool → ℕ → ℕ → ℕ → ℕ → Label × Label
    ot_messages n private delta zero_label orientation x0 x1 v index =
        let k0 = powm (ot_base n v x0) private n in
        let k1 = powm (ot_base n v x1) private n in
        let l0 = if orientation then label_xor zero_label delta else zero_label in
        let l1 = if orientation then zero_label else label_xor zero_label delta in
        (label_xor l0 (ot_pad k0 index), label_xor l1 (ot_pad k1 index))

  -- The label that the CSP reads with its key.
  unfoldable pub ot_receive : Bool → ℕ → ℕ → Label × Label → Label
  ot_receive choice key index messages =
      label_xor (if choice then messages.1 else messages.0) (ot_pad key index)

-- What OpenSSL's key generation and GMP promise: the private exponent undoes the public one.
pub record Rsa (powm : ℕ → ℕ → ℕ → ℕ) (n public private : ℕ) : Type 0 where
  pub in_range : (base exponent : ℕ) → powm base exponent n < n
  pub undoes : (key : ℕ) → key < n → powm (powm key public n) private n ≡ key

wrapped_mod : (k n : ℕ) → n ≤ k → k < n + n → k % n ≡ k - n
wrapped_mod k n h l = mod-eq-sub-mod h ∙ mod-eq_of_lt (omega arith)

-- The base that the CP takes to its private exponent, without a wrap of the sum and with one.
base_plain : (n x k : ℕ) → x + k < n → ot_base n (x + k) x ≡ k
unfolding ot_base
base_plain n x k h =
    rw (le→leb x (x + k) (omega arith)) (ap (λ m. m % n) (omega arith) ∙ mod-eq_of_lt (omega arith))

base_wrapped : (n x k : ℕ) → x < n → k < n → n ≤ x + k → ot_base n (x + k - n) x ≡ k
unfolding ot_base
base_wrapped n x k hx hk h =
    rw (le_false x (x + k - n) (omega arith), wrapped_difference, ne_false (n - k) (omega arith))
      (omega arith)
  where
    le_false : (a b : ℕ) → b < a → leb a b ≡ false
    le_false a b l = ground arith

    ne_false : (a : ℕ) → 0 < a → (a == 0) ≡ false
    ne_false a l = ground arith

    wrapped_difference : (x - (x + k - n)) % n ≡ n - k
    wrapped_difference =
        let same : x - (x + k - n) ≡ n - k = omega arith in
        ap (λ m. m % n) same ∙ mod-eq_of_lt (omega arith)

ot_base_lem : (n x k : ℕ) → x < n → k < n → ot_base n ((x + k) % n) x ≡ k
ot_base_lem n x k hx hk = elim (dec_lt (x + k) n) [
  | yes l ↦ ap (λ v. ot_base n v x) (mod-eq_of_lt l) ∙ base_plain n x k l
  | no l ↦
      ap (λ v. ot_base n v x) (wrapped_mod (x + k) n (omega arith) (omega arith))
      ∙ base_wrapped n x k hx hk (omega arith)
]

module _ (gmp : Gmp) (sha256 : List ℕ → List ℕ) (powm : ℕ → ℕ → ℕ → ℕ) (n public private : ℕ)
    (rsa : Rsa powm n public private) (hs : (m : List ℕ) → IsLabel (sha256 m)) where
  pad-IsLabel : (key index : ℕ) → IsLabel (ot_pad gmp sha256 key index)
  unfolding ot_pad
  pad-IsLabel key index = hs _

  -- The key that the CP finds for the choice of the CSP.
  found_key :
      (key x : ℕ)
      → key < n
      → x < n
      → powm (ot_base n ((x + powm key public n) % n) x) private n ≡ key
  found_key key x hk hx =
      ap (λ b. powm b private n) (ot_base_lem n x (powm key public n) hx (rsa.in_range key public))
      ∙ rsa.undoes key hk

  unmasked :
      (label : Label) (found key index : ℕ)
      → IsLabel label
      → found ≡ key
      → label_xor (label_xor label (ot_pad gmp sha256 found index)) (ot_pad gmp sha256 key index)
        ≡ label
  unmasked label found key index h e =
      ap
        (λ k. label_xor (label_xor label (ot_pad gmp sha256 k index)) (ot_pad gmp sha256 key index))
        e
      ∙ label_xor_undo label (ot_pad gmp sha256 key index) h (pad-IsLabel key index)

  -- The CSP reads the label for its choice, flipped where the comparison was oriented the other way.
  pub ot_receive-ot_messages :
      (delta zero : Label) (orientation choice : Bool) (key x0 x1 index : ℕ)
      → IsLabel delta
      → IsLabel zero
      → key < n
      → x0 < n
      → x1 < n
      → ot_receive gmp sha256 choice key index (
          ot_messages gmp sha256 powm n private delta zero orientation x0 x1
            (ot_request powm n public choice key x0 x1)
            index)
        ≡ labelled (xor choice orientation) delta zero
  unfolding ot_receive ot_messages ot_request
  ot_receive-ot_messages delta zero true true key x0 x1 index hd hz hk h0 h1 =
      unmasked zero _ key index hz (found_key key x1 hk h1)
  ot_receive-ot_messages delta zero false true key x0 x1 index hd hz hk h0 h1 =
      unmasked (label_xor zero delta) _ key index (label_xor-IsLabel zero delta hz hd)
        (found_key key x1 hk h1)
  ot_receive-ot_messages delta zero true false key x0 x1 index hd hz hk h0 h1 =
      unmasked (label_xor zero delta) _ key index (label_xor-IsLabel zero delta hz hd)
        (found_key key x0 hk h0)
  ot_receive-ot_messages delta zero false false key x0 x1 index hd hz hk h0 h1 =
      unmasked zero _ key index hz (found_key key x0 hk h0)
