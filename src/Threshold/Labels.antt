-- ===== src/Threshold/Labels.antt =====
-- Wire labels: arrays of 32 bytes, with their exclusive or.
use soci_sgx_sdk.Prelude.{
  ℕ, suc, ◌+◌, ◌*◌, ◌/◌, ◌%◌, ◌≡◌, refl, sym, ap, ◌∙◌, Bool, true, false, List, [], ◌∷◌, arith,
  ◌==◌, if◌then◌else◌, length, replicate,
}
use Prim.Native.Nat.{bit_xor}
use soci_sgx_sdk.Prelude.Xor.{zero-bit_xor, bit_xor_mod, bit_xor_self, bit_xor_comm, bit_xor_assoc}
use soci_sgx_sdk.Threshold.Circuit.{xor}

abbrev pub Label : Type 0
Label = List ℕ

unfoldable pub label_xor : Label → Label → Label
label_xor [] b = []
label_xor (x ∷ a) [] = []
label_xor (x ∷ a) (y ∷ b) = bit_xor x y ∷ label_xor a b

abbrev pub zero_label : Label
zero_label = replicate 32 0

abbrev pub IsLabel : Label → Type 0
IsLabel a = length a ≡ 32

-- `back() & 1`.
unfoldable pub low_bit : Label → Bool
low_bit [] = false
low_bit (x ∷ []) = x % 2 == 1
low_bit (x ∷ y ∷ a) = low_bit (y ∷ a)

-- `back() |= 1`.
unfoldable pub with_low_bit : Label → Label
with_low_bit [] = []
with_low_bit (x ∷ []) = (x / 2 * 2 + 1) ∷ []
with_low_bit (x ∷ y ∷ a) = x ∷ with_low_bit (y ∷ a)

-- `bit ? labelXor(label, delta) : label`.
abbrev pub labelled : Bool → Label → Label → Label
labelled bit delta label = if bit then label_xor label delta else label

pub length-label_xor : (a b : Label) → length a ≡ length b → length (label_xor a b) ≡ length a
unfolding label_xor
length-label_xor [] b h = refl
length-label_xor (x ∷ a) [] h = absurd (omega arith)
length-label_xor (x ∷ a) (y ∷ b) h = omega (arith, length-label_xor a b (omega arith))

pub label_xor-IsLabel : (a b : Label) → IsLabel a → IsLabel b → IsLabel (label_xor a b)
label_xor-IsLabel a b h k = length-label_xor a b (omega arith) ∙ h

pub label_xor_assoc : (a b c : Label) → label_xor (label_xor a b) c ≡ label_xor a (label_xor b c)
unfolding label_xor
label_xor_assoc [] b c = refl
label_xor_assoc (x ∷ a) [] c = refl
label_xor_assoc (x ∷ a) (y ∷ b) [] = refl
label_xor_assoc (x ∷ a) (y ∷ b) (z ∷ c) = cc (bit_xor_assoc x y z, label_xor_assoc a b c)

pub label_xor_comm : (a b : Label) → label_xor a b ≡ label_xor b a
unfolding label_xor
label_xor_comm [] [] = refl
label_xor_comm [] (y ∷ b) = refl
label_xor_comm (x ∷ a) [] = refl
label_xor_comm (x ∷ a) (y ∷ b) = cc (bit_xor_comm x y, label_xor_comm a b)

xor_self_zeros : (a : Label) → label_xor a a ≡ replicate (length a) 0
unfolding label_xor
xor_self_zeros [] = refl
xor_self_zeros (x ∷ a) = cc (bit_xor_self x, xor_self_zeros a)

pub label_xor_self : (a : Label) → IsLabel a → label_xor a a ≡ zero_label
label_xor_self a h = xor_self_zeros a ∙ ap (λ n. replicate n 0) h

zeros_xor : (a : Label) → label_xor (replicate (length a) 0) a ≡ a
unfolding label_xor
zeros_xor [] = refl
zeros_xor (x ∷ a) = cc (zero-bit_xor x, zeros_xor a)

pub zero-label_xor : (a : Label) → IsLabel a → label_xor zero_label a ≡ a
zero-label_xor a h = sym (ap (λ n. label_xor (replicate n 0) a) h) ∙ zeros_xor a

-- Twice the same label cancels.
pub label_xor_cancel : (a b : Label) → IsLabel a → IsLabel b → label_xor a (label_xor a b) ≡ b
label_xor_cancel a b h k =
    sym (label_xor_assoc a a b)
    ∙ (ap (λ z. label_xor z b) (label_xor_self a h) ∙ zero-label_xor b k)

pub label_xor_undo : (a b : Label) → IsLabel a → IsLabel b → label_xor (label_xor a b) b ≡ a
label_xor_undo a b h k =
    label_xor_comm (label_xor a b) b
    ∙ (ap (label_xor b) (label_xor_comm a b) ∙ label_xor_cancel b a k h)

parity_xor : (x y : ℕ) → (bit_xor x y % 2 == 1) ≡ xor (x % 2 == 1) (y % 2 == 1)
parity_xor x y = ground (arith, bit_xor_mod x y)

pub low_bit-label_xor :
    (a b : Label) → length a ≡ length b → low_bit (label_xor a b) ≡ xor (low_bit a) (low_bit b)
unfolding label_xor low_bit
low_bit-label_xor [] [] h = refl
low_bit-label_xor [] (y ∷ b) h = absurd (omega arith)
low_bit-label_xor (x ∷ a) [] h = absurd (omega arith)
low_bit-label_xor (x ∷ []) (y ∷ []) h = parity_xor x y
low_bit-label_xor (x ∷ []) (y ∷ y' ∷ b) h = absurd (omega arith)
low_bit-label_xor (x ∷ x' ∷ a) (y ∷ []) h = absurd (omega arith)
low_bit-label_xor (x ∷ x' ∷ a) (y ∷ y' ∷ b) h = low_bit-label_xor (x' ∷ a) (y' ∷ b) (omega arith)

odd_parity : (x : ℕ) → ((x / 2 * 2 + 1) % 2 == 1) ≡ true
odd_parity x = ground arith

pub low_bit-with_low_bit : (x : ℕ) (a : Label) → low_bit (with_low_bit (x ∷ a)) ≡ true
unfolding low_bit with_low_bit
low_bit-with_low_bit x [] = odd_parity x
low_bit-with_low_bit x (y ∷ []) = odd_parity y
low_bit-with_low_bit x (y ∷ z ∷ a) = low_bit-with_low_bit y (z ∷ a)

pub length-with_low_bit : (a : Label) → length (with_low_bit a) ≡ length a
unfolding with_low_bit
length-with_low_bit [] = refl
length-with_low_bit (x ∷ []) = refl
length-with_low_bit (x ∷ y ∷ a) = ap suc (length-with_low_bit (y ∷ a))

-- Labels for bits add up as their bits.
pub labelled-labelled :
    (b c : Bool) (delta x y : Label)
    → IsLabel delta
    → IsLabel x
    → IsLabel y
    → label_xor (labelled b delta x) (labelled c delta y) ≡ labelled (xor b c) delta (label_xor x y)
labelled-labelled false false delta x y hd hx hy = refl
labelled-labelled false true delta x y hd hx hy = sym (label_xor_assoc x y delta)
labelled-labelled true false delta x y hd hx hy =
    label_xor_assoc x delta y
    ∙ (ap (label_xor x) (label_xor_comm delta y) ∙ sym (label_xor_assoc x y delta))
labelled-labelled true true delta x y hd hx hy =
    label_xor_assoc x delta (label_xor y delta)
    ∙ ap (label_xor x)
        (ap (label_xor delta) (label_xor_comm y delta) ∙ label_xor_cancel delta y hd hy)

-- A label for a bit, seen from the other label.
pub labelled_flip :
    (b k : Bool) (delta x : Label)
    → IsLabel delta
    → IsLabel x
    → labelled b delta x ≡ labelled (xor b k) delta (labelled k delta x)
labelled_flip true true delta x hd hx = refl
labelled_flip true false delta x hd hx = refl
labelled_flip false true delta x hd hx = sym (label_xor_undo x delta hx hd)
labelled_flip false false delta x hd hx = refl

pub labelled-IsLabel :
    (b : Bool) (delta x : Label) → IsLabel delta → IsLabel x → IsLabel (labelled b delta x)
labelled-IsLabel true delta x hd hx = label_xor-IsLabel x delta hx hd
labelled-IsLabel false delta x hd hx = hx
