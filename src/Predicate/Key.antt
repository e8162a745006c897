-- ===== src/Predicate/Key.antt =====
-- The replay key, and the session and operation that it names.
use soci_sgx_sdk.Prelude.{ℕ, ◌≡◌, refl, sym, ap, ◌∙◌, List, [], ◌∷◌, ◌++◌, All, length, arith}
use soci_sgx_sdk.Text.{to_string, digits_value}
use soci_sgx_sdk.Text.Decimal.{IsDigit, to_string-IsDigit, digits_value-to_string}
use soci_sgx_sdk.Predicate.{PredicateContext, field_text, append_field, replay_key}
use mathlib.Core.List.{append_assoc, append-nil}

-- Two texts of digits before a colon: the digits and the rests agree.
digits_before_colon :
    (s u a b : List ℕ)
    → All IsDigit s
    → All IsDigit u
    → s ++ b':' ∷ a ≡ u ++ b':' ∷ b
    → (s ≡ u) × (a ≡ b)
digits_before_colon [] [] a b h k e = (refl, cc)
digits_before_colon [] (d ∷ u) a b h k e = absurd (ground (arith, k.0))
digits_before_colon (c ∷ s) [] a b h k e = absurd (ground (arith, h.0))
digits_before_colon (c ∷ s) (d ∷ u) a b h k e =
    let (es, er) = digits_before_colon s u a b h.1 k.1 (cc) in (cc, er)

same_length_split :
    (s u a b : List ℕ) → length s ≡ length u → s ++ b'|' ∷ a ≡ u ++ b'|' ∷ b → (s ≡ u) × (a ≡ b)
same_length_split [] [] a b h e = (refl, cc)
same_length_split [] (d ∷ u) a b h e = absurd (omega arith)
same_length_split (c ∷ s) [] a b h e = absurd (omega arith)
same_length_split (c ∷ s) (d ∷ u) a b h e =
    let (es, er) = same_length_split s u a b (omega arith) (cc) in (cc, er)

-- A field can be read off the front of a text in one way only.
field_text-append : (v w a b : List ℕ) → field_text v ++ a ≡ field_text w ++ b → (v ≡ w) × (a ≡ b)
field_text-append v w a b e =
    let (digits, rest) =
      digits_before_colon (to_string (length v)) (to_string (length w)) (v ++ b'|' ∷ [] ++ a)
        (w ++ b'|' ∷ [] ++ b) (to_string-IsDigit (length v)) (to_string-IsDigit (length w))
        (sym (append_assoc (to_string (length v)) (b':' ∷ (v ++ b'|' ∷ [])) a)
          ∙ e
          ∙ append_assoc (to_string (length w)) (b':' ∷ (w ++ b'|' ∷ [])) b) in
    same_length_split v w a b (lengths digits)
      (sym (append_assoc v (b'|' ∷ []) a) ∙ rest ∙ append_assoc w (b'|' ∷ []) b)
  where
    lengths : to_string (length v) ≡ to_string (length w) → length v ≡ length w
    lengths h =
        sym (digits_value-to_string (length v))
        ∙ ap (digits_value 0) h
        ∙ digits_value-to_string (length w)

-- Two contexts with one replay key have the same session and the same operation, whatever bytes
-- the identifiers hold.
pub replay_key_injective :
    (c d : PredicateContext)
    → replay_key c ≡ replay_key d
    → (c.session_id ≡ d.session_id) × (c.operation_id ≡ d.operation_id)
unfolding replay_key append_field
replay_key_injective c d e =
    let (sessions, rest) = field_text-append c.session_id d.session_id _ _ e in
    (
      sessions,
      (field_text-append c.operation_id d.operation_id [] []
          (append-nil _ ∙ rest ∙ sym (append-nil _))).0,
    )
