-- ===== src/Wire/Words.antt =====
-- Words of four and of eight bytes.
use soci_sgx_sdk.Prelude.{
  ℕ, ◌+◌, ◌*◌, ◌/◌, ◌%◌, ◌<◌, ◌≡◌, refl, ap, ◌∙◌, List, [], ◌∷◌, ◌++◌, length, drop, arith,
}
use mathlib.Core.List.{append_assoc}
use soci_sgx_sdk.Wire.{read_u32, write_u32, read_u64, append_u64}

pub read_u32-write_u32 :
    (value : ℕ) (rest : List ℕ) → value < 4_294_967_296 → read_u32 (write_u32 value ++ rest) ≡ value
unfolding read_u32 write_u32
read_u32-write_u32 value rest h = omega arith

pub write_u32-read_u32 :
    (a b c d : ℕ) (rest : List ℕ)
    → a < 256
    → b < 256
    → c < 256
    → d < 256
    → write_u32 (read_u32 (a ∷ b ∷ c ∷ d ∷ rest)) ≡ a ∷ b ∷ c ∷ d ∷ []
unfolding read_u32 write_u32
write_u32-read_u32 a b c d rest ha hb hc hd =
    same_four (omega arith) (omega arith) (omega arith) (omega arith)
  where
    same_four :
        {w x y z a b c d : ℕ}
        → w ≡ a
        → x ≡ b
        → y ≡ c
        → z ≡ d
        → ◌≡◌ {A = List ℕ} (w ∷ x ∷ y ∷ z ∷ []) (a ∷ b ∷ c ∷ d ∷ [])
    same_four e f g h = rw (e, f, g, h) refl

pub drop-word :
    (value : ℕ) (body rest : List ℕ) → drop 4 ((write_u32 value ++ body) ++ rest) ≡ body ++ rest
unfolding write_u32
drop-word value body rest = refl

read_two_words :
    (high low : ℕ) (rest : List ℕ)
    → high < 4_294_967_296
    → low < 4_294_967_296
    → read_u64 ((write_u32 high ++ write_u32 low) ++ rest) ≡ high * 4_294_967_296 + low
unfolding read_u64
read_two_words high low rest hh hl =
    ap (λ n. n * 4_294_967_296 + read_u32 (drop 4 ((write_u32 high ++ write_u32 low) ++ rest)))
      (ap read_u32 (append_assoc (write_u32 high) (write_u32 low) rest)
        ∙ read_u32-write_u32 high (write_u32 low ++ rest) hh)
    ∙ ap (λ n. high * 4_294_967_296 + n)
        (ap read_u32 (drop-word high (write_u32 low) rest) ∙ read_u32-write_u32 low rest hl)

-- What `appendU64` wrote behind any bytes is read back at that offset, for every 64-bit number and
-- whatever follows.
pub read_u64-append_u64 :
    (output rest : List ℕ) (value : ℕ)
    → value < 18_446_744_073_709_551_616
    → read_u64 (drop (length output) (append_u64 output value ++ rest)) ≡ value
unfolding append_u64
read_u64-append_u64 [] rest value h =
    read_two_words (value / 4_294_967_296) (value % 4_294_967_296) rest (omega arith) (omega arith)
    ∙ omega arith
read_u64-append_u64 (b ∷ output) rest value h = read_u64-append_u64 output rest value h
