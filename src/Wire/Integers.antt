-- ===== src/Wire/Integers.antt =====
-- Integers behind their size.
use soci_sgx_sdk.Prelude.{
  ℕ, zero, suc, ◌+◌, ◌-◌, ◌≤◌, ◌<◌, ◌≡◌, refl, sym, ap, subst, ◌∙◌, true, false, List, ◌++◌, Result,
  ok, require_inv, le→leb, ◌==◌, length, take, drop, replicate, arith, length-append, drop-append,
  take-append, drop-add,
}
use mathlib.Core.List.{append-nil, append_assoc}
use soci_sgx_sdk.Wire.{
  Gmp, WireError, integer_too_large, read_u32, write_u32, byte_size, exported, append_integer,
  take_integer, is_sized, uint32_max,
}
use soci_sgx_sdk.Wire.Words.{read_u32-write_u32}

ok_bytes : (a b : List ℕ) → ◌≡◌ {A = Result WireError (List ℕ)} (ok a) (ok b) → a ≡ b
ok_bytes a b e = cc

same_pair : {x y m n : ℕ} → x ≡ y → m ≡ n → ◌≡◌ {A = ℕ × ℕ} (x, m) (y, n)
same_pair e f = cc

-- A size and what stands behind it.
pub word_at :
    (output body rest : List ℕ) (size : ℕ)
    → size ≤ uint32_max
    → read_u32 (drop (length output) (output ++ ((write_u32 size ++ body) ++ rest))) ≡ size
word_at output body rest size l =
    ap read_u32 (
      drop-append output ((write_u32 size ++ body) ++ rest)
      ∙ append_assoc (write_u32 size) body rest)
    ∙ read_u32-write_u32 size (body ++ rest) (omega arith)

pub body_at :
    (output body rest : List ℕ) (size : ℕ)
    → drop (length output + 4) (output ++ ((write_u32 size ++ body) ++ rest)) ≡ body ++ rest
unfolding write_u32
body_at output body rest size =
    drop-add (length output) 4 (output ++ ((write_u32 size ++ body) ++ rest))
    ∙ ap (drop 4) (drop-append output ((write_u32 size ++ body) ++ rest))

pub length_word : (size : ℕ) (body : List ℕ) → length (write_u32 size ++ body) ≡ 4 + length body
unfolding write_u32
length_word size body = omega arith

pub length_at :
    (output body rest : List ℕ) (size : ℕ)
    → length (output ++ ((write_u32 size ++ body) ++ rest))
      ≡ length output + (4 + length body + length rest)
length_at output body rest size =
    length-append output ((write_u32 size ++ body) ++ rest)
    ∙ ap (λ n. length output + n)
        (length-append (write_u32 size ++ body) rest
          ∙ ap (λ n. n + length rest) (length_word size body))

module _ (gmp : Gmp) where
  open gmp use {
    size_in_base2, export_bytes, import_bytes, size_zero, export_zero, size_export, export_pos,
    import-export, import_padded,
  }

  exact_buffer : (z : ℕ) → 0 < z → exported gmp (byte_size gmp z) z ≡ export_bytes z
  unfolding byte_size
  exact_buffer z h =
      ap (λ n. export_bytes z ++ replicate n 0)
        (no_rest (length (export_bytes z)) (byte_size gmp z) (size_export z h))
      ∙ append-nil (export_bytes z)
    where
      no_rest : (l b : ℕ) → l ≡ b → b - l ≡ 0
      no_rest l b e = omega arith

  -- The buffer has the size that was written, and reads as the value.
  length-exported : (z : ℕ) → length (exported gmp (byte_size gmp z) z) ≡ byte_size gmp z
  unfolding byte_size
  length-exported zero = rw (export_zero, size_zero) refl
  length-exported (suc z) =
      ap length (exact_buffer (suc z) (omega arith)) ∙ size_export (suc z) (omega arith)

  import-exported : (z : ℕ) → import_bytes (exported gmp (byte_size gmp z) z) ≡ z
  unfolding byte_size
  import-exported zero = rw (export_zero, size_zero) import_padded
  import-exported (suc z) =
      ap import_bytes (exact_buffer (suc z) (omega arith)) ∙ import-export (suc z)

  -- The body of `takeInteger`, over what it reads.
  taken :
      (input : List ℕ) (offset size : ℕ) (body rest : List ℕ)
      → read_u32 (drop offset input) ≡ size
      → drop (offset + 4) input ≡ body ++ rest
      → offset + 4 + size ≤ length input
      → length body ≡ size
      → 0 < size
      → take_integer gmp input offset ≡ ok (import_bytes body, offset + 4 + size)
  unfolding take_integer
  taken input offset size body rest w b l e p =
      rw
        (
          le→leb (offset + 4) (length input) (omega arith),
          w,
          pos-size,
          le→leb size (length input - (offset + 4)) (omega arith),
          b,
        )
        (ap (λ t. ok (import_bytes t, offset + 4 + size))
          (ap (λ n. take n (body ++ rest)) (sym e) ∙ take-append body rest))
    where
      pos-size : (size == 0) ≡ false
      pos-size = ground arith

  sized_bounds :
      (output : List ℕ) (value : ℕ)
      → is_sized gmp output value ≡ true
      → (0 < byte_size gmp value) × (byte_size gmp value ≤ uint32_max)
  sized_bounds output value h = (ground arith, ground arith)

  length_sum :
      (output : List ℕ) (value : ℕ)
      → length output + 4 + byte_size gmp value
        ≡ length (
            output ++ (write_u32 (byte_size gmp value) ++ exported gmp (byte_size gmp value) value))
  length_sum output value = omega (
    arith,
    length-append output
        (write_u32 (byte_size gmp value) ++ exported gmp (byte_size gmp value) value),
    length_word (byte_size gmp value) (exported gmp (byte_size gmp value) value),
    length-exported value,
  )

  -- What was appended to any bytes is taken back at that offset, with the offset behind it,
  -- whatever follows.
  pub take_integer-append_integer :
      (output appended rest : List ℕ) (value : ℕ)
      → append_integer gmp output value ≡ ok appended
      → take_integer gmp (appended ++ rest) (length output) ≡ ok (value, length appended)
  unfolding append_integer
  take_integer-append_integer output appended rest value e =
      let (c, e1) = require_inv (is_sized gmp output value) integer_too_large _ e in
      let body = exported gmp (byte_size gmp value) value in
      let size = byte_size gmp value in
      subst (λ a. take_integer gmp (a ++ rest) (length output) ≡ ok (value, length a))
        (ok_bytes _ appended e1)
        (ap (λ i. take_integer gmp i (length output))
            (append_assoc output (write_u32 size ++ body) rest)
          ∙ taken (output ++ ((write_u32 size ++ body) ++ rest)) (length output) size body rest
              (word_at output body rest size (sized_bounds output value c).1)
              (body_at output body rest size)
              (omega (arith, length_at output body rest size, length-exported value))
              (length-exported value) (sized_bounds output value c).0
          ∙ ap (λ p. ok p) (same_pair (import-exported value) (length_sum output value)))
