-- ===== src/Wire/Canonical.antt =====
-- Canonical ciphertexts.
use soci_sgx_sdk.Prelude.{
  ℕ, ◌-◌, ◌≤◌, ◌<◌, ◌≡◌, refl, sym, ap, subst, ◌∙◌, Bool, true, false, not, ◌&&◌, ◌||◌, List, [],
  ◌∷◌, ◌++◌, Result, ok, require_inv, leb, leb→le, ◌==◌, ==_iff, ==_self, length, take, drop, All,
  All-drop, length-drop, arith,
}
use soci_sgx_sdk.Text.{same_text}
use soci_sgx_sdk.Text.Same.{same_text-eq}
use soci_sgx_sdk.Wire.{
  Gmp, WireError, invalid_header, invalid_length, non_canonical, read_u32, write_u32, byte_size,
  header, first_byte, encode_canonical_ciphertext, decode_canonical_ciphertext,
}
use soci_sgx_sdk.Wire.Words.{write_u32-read_u32}

and_left : (a b : Bool) → (a && b) ≡ true → a ≡ true
and_left true b h = refl
and_left false b h = h

and_right : (a b : Bool) → (a && b) ≡ true → b ≡ true
and_right true b h = h
and_right false b h = absurd cc

ok_value : (a b : ℕ) → ◌≡◌ {A = Result WireError ℕ} (ok a) (ok b) → a ≡ b
ok_value a b e = cc

module _ (gmp : Gmp) where
  open gmp use {
    export_bytes, import_bytes, size_in_base2, size_zero, export_zero, size_export, export_pos,
    import-export, export-import, import_pos, export_head,
  }

  -- What a decoder's success says of the bytes.
  record Opened (mode : ℕ) (input : List ℕ) (value : ℕ) : Type 0 where
    pub long : 12 ≤ length input
    pub front : take 8 input ≡ header gmp mode
    pub word : read_u32 (drop 8 input) ≡ length input - 12
    pub head : 0 < first_byte gmp (drop 12 input)
    pub magnitude : import_bytes (drop 12 input) ≡ value

  Opened-inv :
      (mode : ℕ) (input : List ℕ) (value : ℕ)
      → decode_canonical_ciphertext gmp input mode ≡ ok value
      → Opened mode input value
  unfolding decode_canonical_ciphertext
  Opened-inv mode input value e =
      let (c1, e1) =
        require_inv (leb 12 (length input) && same_text (take 8 input) (header gmp mode))
          invalid_header _ e in
      let (c2, e2) =
        require_inv (read_u32 (drop 8 input) == length input - 12) invalid_length _ e1 in
      let (c3, e3) =
        require_inv (not (read_u32 (drop 8 input) == 0 || first_byte gmp (drop 12 input) == 0))
          non_canonical _ e2 in
      record {
        long = leb→le 12 (length input) (and_left _ _ c1);
        front =
            same_text-eq (take 8 input) (header gmp mode) (and_right (leb 12 (length input)) _ c1);
        word = (==_iff (read_u32 (drop 8 input)) (length input - 12)).0 c2;
        head = positive (read_u32 (drop 8 input)) (first_byte gmp (drop 12 input)) c3;
        magnitude = ok_value _ value e3;
      }
    where
      positive : (m n : ℕ) → not (m == 0 || n == 0) ≡ true → 0 < n
      positive m n h = ground arith

  -- The parts of twelve bytes and more.
  rebuilt :
      (input : List ℕ)
      → 12 ≤ length input
      → All (λ c. c < 256) input
      → input ≡ take 8 input ++ (write_u32 (read_u32 (drop 8 input)) ++ drop 12 input)
  rebuilt (a ∷ b ∷ c ∷ d ∷ e ∷ f ∷ g ∷ h ∷ i ∷ j ∷ k ∷ l ∷ rest) n w =
      ap (λ word. a ∷ b ∷ c ∷ d ∷ e ∷ f ∷ g ∷ h ∷ (word ++ rest))
        (sym (
          write_u32-read_u32 i j k l rest w.1.1.1.1.1.1.1.1.0 w.1.1.1.1.1.1.1.1.1.0
            w.1.1.1.1.1.1.1.1.1.1.0 w.1.1.1.1.1.1.1.1.1.1.1.0))
  rebuilt _ n w = absurd (omega arith)

  magnitude-export :
      (bs : List ℕ)
      → All (λ c. c < 256) bs
      → 0 < first_byte gmp bs
      → (export_bytes (import_bytes bs) ≡ bs) × (0 < import_bytes bs)
  magnitude-export [] w h = absurd (omega arith)
  magnitude-export (b ∷ bs) w h = (export-import b bs w h, import_pos b bs w h)

  encoded :
      (mode size value : ℕ) (bytes : List ℕ)
      → export_bytes value ≡ bytes
      → byte_size gmp value ≡ size
      → length bytes ≡ size
      → encode_canonical_ciphertext gmp mode value
        ≡ ok (header gmp mode ++ (write_u32 size ++ bytes))
  unfolding encode_canonical_ciphertext
  encoded mode size value bytes e b l = rw (e, b, l, ==_self size) refl

  -- A ciphertext is canonical: when the decoder accepts bytes in a mode, they are the very bytes
  -- that the encoder gives for the decoded value in that mode, so no other bytes decode to it.
  pub encode-decode_canonical :
      (mode value : ℕ) (input : List ℕ)
      → All (λ c. c < 256) input
      → decode_canonical_ciphertext gmp input mode ≡ ok value
      → encode_canonical_ciphertext gmp mode value ≡ ok input
  unfolding byte_size
  encode-decode_canonical mode value input w e =
      let o = Opened-inv mode input value e in
      let (x, p) = magnitude-export (drop 12 input) (All-drop (λ c. c < 256) 12 input w) o.head in
      let bytes = ap export_bytes (sym o.magnitude) ∙ x in
      let l = length-drop 12 input o.long in
      encoded mode (read_u32 (drop 8 input)) value (drop 12 input) bytes
        (sym (size_export value (subst (λ v. 0 < v) o.magnitude p))
          ∙ ap length bytes
          ∙ omega (arith, o.word, l))
        (omega (arith, o.word, l))
      ∙ ap (λ i. ok i)
          (ap (λ f. f ++ (write_u32 (read_u32 (drop 8 input)) ++ drop 12 input)) (sym o.front)
            ∙ sym (rebuilt input o.long w))
