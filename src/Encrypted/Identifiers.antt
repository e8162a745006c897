-- ===== src/Encrypted/Identifiers.antt =====
-- The contexts that the encrypted search makes: their identifiers.
use soci_sgx_sdk.Prelude.{
  ℕ, zero, suc, ◌+◌, ◌/◌, ◌%◌, ◌^◌, ◌≤◌, ◌<◌, ◌≡◌, refl, sym, ap, ◌∙◌, Bool, true, ◌||◌, List, [],
  ◌∷◌, ◌++◌, ok, arith, le→leb, lt→ltb, ◌==◌, all_of, All, length, length-append,
}
use native.Mathlib.Nat.{pow-suc}
use soci_sgx_sdk.Text.{is_alnum, to_digits, to_string, digits_value}
use soci_sgx_sdk.Text.Decimal.{IsDigit, to_string-IsDigit, digits_value-to_string}
use soci_sgx_sdk.Secure.{SecureOps}
use soci_sgx_sdk.Predicate.{Policy, prune_node, accept_candidate, validate, valid_identifier}
use soci_sgx_sdk.Encrypted.Search.{SearchConfig, context, accept_operation, prune_operation}

length-to_digits : (d fuel n : ℕ) → n < 10 ^ suc d → length (to_digits fuel n) ≤ suc d
unfolding to_digits
length-to_digits d zero n h = omega arith
length-to_digits zero (suc fuel) n h = ground (arith, h)
length-to_digits (suc d) (suc fuel) n h = ground (
  arith,
  length-to_digits d fuel (n / 10) (omega (arith, h, pow-suc 10 (suc d))),
  length-append (to_digits fuel (n / 10)) ((b'0' + n % 10) ∷ []),
)

length-to_string : (n : ℕ) → n < 2 ^ 64 → length (to_string n) ≤ 20
unfolding to_string
length-to_string n h = length-to_digits 19 n n (omega (arith, h))

abbrev allowed : ℕ → Bool
allowed c = is_alnum c || c == b'-' || c == b'_' || c == b'.' || c == b':'

digit_allowed : (c : ℕ) → IsDigit c → allowed c ≡ true
digit_allowed c h = ground arith

digits_allowed : (s : List ℕ) → All IsDigit s → all_of allowed s ≡ true
digits_allowed [] h = refl
digits_allowed (c ∷ s) h = rw (digit_allowed c h.0, digits_allowed s h.1) refl

allowed-append :
    (s u : List ℕ)
    → all_of allowed s ≡ true
    → all_of allowed u ≡ true
    → all_of allowed (s ++ u) ≡ true
allowed-append [] u h k = k
allowed-append (c ∷ s) u h k = ground (arith, allowed-append s u, h, k)

numbered_valid :
    (word : List ℕ) (n : ℕ)
    → length word ≤ 100
    → 0 < length word
    → all_of allowed word ≡ true
    → n < 2 ^ 64
    → valid_identifier (word ++ to_string n) ≡ true
unfolding valid_identifier
numbered_valid word n l p w h =
    rw
      (
        lt→ltb 0 (length (word ++ to_string n)) (omega (arith, length-append word (to_string n))),
        le→leb (length (word ++ to_string n)) 128
            (omega (arith, length-append word (to_string n), length-to_string n h)),
        allowed-append word (to_string n) w (digits_allowed (to_string n) (to_string-IsDigit n)),
      )
      refl

to_string_inj : (m n : ℕ) → to_string m ≡ to_string n → m ≡ n
to_string_inj m n e =
    sym (digits_value-to_string m) ∙ ap (digits_value 0) e ∙ digits_value-to_string n

pub prune_operation_inj : (m n : ℕ) → prune_operation m ≡ prune_operation n → m ≡ n
prune_operation_inj m n e = to_string_inj m n (cc)

pub accept_operation_inj : (m n : ℕ) → accept_operation m ≡ accept_operation n → m ≡ n
accept_operation_inj m n e = to_string_inj m n (cc)

abbrev first_code : List ℕ → ℕ
first_code [] = 0
first_code (c ∷ s) = c

pub operations_differ : (m n : ℕ) → ¬ (prune_operation m ≡ accept_operation n)
operations_differ m n e = omega (arith, ap first_code e)

module _ (ops : SecureOps) (policy : Policy ops) (config : SearchConfig ops) where
  -- Every context of a search with fewer than 2 ^ 64 nodes passes the validation of the engine.
  pub prune_context_valid :
      (depth node n : ℕ)
      → valid_identifier config.session_id ≡ true
      → node < 2 ^ 64
      → n < 2 ^ 64
      → validate (context ops policy config prune_node depth node (prune_operation n)) ≡ ok tt
  unfolding validate
  prune_context_valid depth node n s h k =
      rw
        (
          s,
          numbered_valid (b'p' ∷ b'r' ∷ b'u' ∷ b'n' ∷ b'e' ∷ b'-' ∷ []) n (omega arith)
              (omega arith) refl k,
          numbered_valid (b'n' ∷ b'o' ∷ b'd' ∷ b'e' ∷ b'-' ∷ []) node (omega arith) (omega arith)
              refl h,
        )
        refl

  pub accept_context_valid :
      (depth node n : ℕ)
      → valid_identifier config.session_id ≡ true
      → node < 2 ^ 64
      → n < 2 ^ 64
      → validate (context ops policy config accept_candidate depth node (accept_operation n))
        ≡ ok tt
  unfolding validate
  accept_context_valid depth node n s h k =
      rw
        (
          s,
          numbered_valid (b'a' ∷ b'c' ∷ b'c' ∷ b'e' ∷ b'p' ∷ b't' ∷ b'-' ∷ []) n (omega arith)
              (omega arith) refl k,
          numbered_valid (b'n' ∷ b'o' ∷ b'd' ∷ b'e' ∷ b'-' ∷ []) node (omega arith) (omega arith)
              refl h,
        )
        refl
