-- ===== src/Threshold/Frame/Strings.antt =====
-- Context strings that were appended are taken back.
use soci_sgx_sdk.Prelude.{
  ℕ, ◌+◌, ◌≤◌, ◌<◌, ◌≡◌, refl, sym, ap, subst, ◌∙◌, true, false, not, ◌&&◌, List, ◌++◌, Result, ok,
  require_inv, le→leb, leb, ◌==◌, length, take, drop, arith, length-append, take-append,
}
use mathlib.Core.List.{append_assoc}
use soci_sgx_sdk.Wire.{read_u32, write_u32}
use soci_sgx_sdk.Wire.Integers.{word_at, body_at, length_at, length_word}
use soci_sgx_sdk.Threshold.Frame.{
  FrameError, invalid_field, append_context_string, take_context_string,
}

ok_string : (a b : List ℕ) → ◌≡◌ {A = Result FrameError (List ℕ)} (ok a) (ok b) → a ≡ b
ok_string a b h = cc

taken_string :
    (input : List ℕ) (offset size : ℕ) (value rest : List ℕ)
    → read_u32 (drop offset input) ≡ size
    → drop (offset + 4) input ≡ value ++ rest
    → offset + 4 + size ≤ length input
    → length value ≡ size
    → 0 < size
    → size ≤ 128
    → take_context_string input offset ≡ ok (value, offset + 4 + size)
unfolding take_context_string
taken_string input offset size value rest w b l e p m =
    rw
      (
        le→leb (offset + 4) (length input) (omega arith),
        w,
        not_empty,
        le→leb size 128 m,
        le→leb (offset + 4 + size) (length input) l,
        b,
      )
      (ap (λ t. ok (t, offset + 4 + size))
        (ap (λ n. take n (value ++ rest)) (sym e) ∙ take-append value rest))
  where
    not_empty : (size == 0) ≡ false
    not_empty = ground arith

-- What `appendContextString` has appended behind any bytes is taken back from there, with the offset
-- behind it, whatever follows.
pub take-append_context_string :
    (output appended rest value : List ℕ)
    → append_context_string output value ≡ ok appended
    → take_context_string (appended ++ rest) (length output) ≡ ok (value, length appended)
unfolding append_context_string
take-append_context_string output appended rest value h =
    let (c, e) =
      require_inv (not (length value == 0) && leb (length value) 128) invalid_field _ h in
    let size = length value in
    let (positive, small) = bounds size c in
    subst (λ a. take_context_string (a ++ rest) (length output) ≡ ok (value, length a))
      (ok_string _ appended e)
      (ap (λ i. take_context_string i (length output))
          (append_assoc output (write_u32 size ++ value) rest)
        ∙ (taken_string (output ++ ((write_u32 size ++ value) ++ rest)) (length output) size value
              rest (word_at output value rest size (omega arith)) (body_at output value rest size)
              (omega (arith, length_at output value rest size)) refl positive small
            ∙ ap (λ n. ok (value, n))
                (omega
                  (arith, length-append output (write_u32 size ++ value), length_word size value))))
  where
    bounds : (n : ℕ) → (not (n == 0) && leb n 128) ≡ true → (0 < n) × (n ≤ 128)
    bounds n h = (ground arith, ground arith)

pub append_context_string-extends :
    (output appended value : List ℕ)
    → append_context_string output value ≡ ok appended
    → (more : List ℕ) × (appended ≡ output ++ more)
unfolding append_context_string
append_context_string-extends output appended value h =
    let (c, e) =
      require_inv (not (length value == 0) && leb (length value) 128) invalid_field _ h in
    (write_u32 (length value) ++ value, sym (ok_string _ appended e))
