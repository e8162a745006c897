-- ===== src/Secure/Gates.antt =====
-- What each gate decrypts to.
use soci_sgx_sdk.Prelude.{
  ℕ, ◌<◌, ◌≡◌, refl, sym, ap, subst, ◌∙◌, Bool, true, false, not, ◌&&◌, ◌||◌, arith, if◌then◌else◌,
}
use soci_sgx_sdk.Prelude.Int.{
  ℤ, pos, negsuc, ◌+ℤ◌, ◌-ℤ◌, ◌*ℤ◌, int_laws, zero-*ℤ, one-*ℤ, *ℤ-minus_one,
}
use soci_sgx_sdk.Secure.{
  of_bool, Below, SecureOps, Bit, sub, bit_not, bit_and, bit_or, bit_or_from_product,
  bit_or_exclusive, select,
}

Below-neg : (limit : ℕ) (z : ℤ) → Below limit z → Below limit (pos 0 -ℤ z)
unfolding ◌-ℤ◌
Below-neg limit z h = ground arith

add_neg : (x y : ℤ) → x +ℤ (pos 0 -ℤ y) ≡ x -ℤ y
add_neg x y = omega int_laws

Below-of_bool : (limit : ℕ) (x : Bool) → 2 < limit → Below limit (of_bool x)
Below-of_bool limit true h = omega arith
Below-of_bool limit false h = omega arith

-- The bit operations on the numbers 0 and 1.
of_bool-not : (x : Bool) → pos 1 -ℤ of_bool x ≡ of_bool (not x)
unfolding ◌-ℤ◌
of_bool-not true = refl
of_bool-not false = refl

pub of_bool-and : (x y : Bool) → of_bool x *ℤ of_bool y ≡ of_bool (x && y)
unfolding ◌*ℤ◌
of_bool-and true true = refl
of_bool-and true false = refl
of_bool-and false true = refl
of_bool-and false _ = refl

of_bool-or : (x y : Bool) → of_bool x +ℤ of_bool y -ℤ of_bool (x && y) ≡ of_bool (x || y)
unfolding ◌+ℤ◌ ◌-ℤ◌
of_bool-or true true = refl
of_bool-or true false = refl
of_bool-or false true = refl
of_bool-or false false = refl

of_bool-exclusive : (x y : Bool) → x && y ≡ false → of_bool x +ℤ of_bool y ≡ of_bool (x || y)
unfolding ◌+ℤ◌
of_bool-exclusive true true e = cc
of_bool-exclusive true false e = refl
of_bool-exclusive false true e = refl
of_bool-exclusive false false e = refl

Below-sum : (limit : ℕ) (x y : Bool) → 2 < limit → Below limit (of_bool x +ℤ of_bool y)
unfolding ◌+ℤ◌
Below-sum limit true true h = omega arith
Below-sum limit true false h = omega arith
Below-sum limit false true h = omega arith
Below-sum limit false false h = omega arith

select_value : (x : Bool) (t f : ℤ) → f +ℤ of_bool x *ℤ (t -ℤ f) ≡ (if x then t else f)
select_value true t f = rw one-*ℤ (omega int_laws)
select_value false t f = rw zero-*ℤ (omega int_laws)

module _ (ops : SecureOps) where
  open ops use {
    Ciphertext, encrypt_constant, add, scalar_mul, secure_mul, greater_than, dec, limit, limit_room,
    dec-encrypt_constant, dec-add, dec-scalar_mul, dec-secure_mul, dec-greater_than,
  }

  -- The ciphertext holds the bit.
  abbrev pub Holds : Bit ops → Bool → Type 0
  Holds b x = dec b.ciphertext ≡ of_bool x

  -- A value whose magnitude is below the limit.
  abbrev pub Exact : Ciphertext → Type 0
  Exact a = Below limit (dec a)

  pub dec-sub :
      (a b : Ciphertext)
      → Exact b
      → Below limit (dec a -ℤ dec b)
      → dec (sub ops a b) ≡ dec a -ℤ dec b
  unfolding sub
  dec-sub a b h k = at_sum _ (ap (λ z. dec a +ℤ z) neg ∙ add_neg (dec a) (dec b))
    where
      neg : dec (scalar_mul b (negsuc 0)) ≡ pos 0 -ℤ dec b
      neg =
          dec-scalar_mul b (negsuc 0)
            (subst (Below limit) (sym (*ℤ-minus_one (dec b))) (Below-neg limit (dec b) h))
          ∙ *ℤ-minus_one (dec b)

      at_sum : (c : Ciphertext) → dec a +ℤ dec c ≡ dec a -ℤ dec b → dec (add a c) ≡ dec a -ℤ dec b
      at_sum c e = dec-add a c (subst (Below limit) (sym e) k) ∙ e

  pub Exact-bit : (b : Bit ops) (x : Bool) → Holds b x → Exact b.ciphertext
  Exact-bit b x h = subst (Below limit) (sym h) (Below-of_bool limit x limit_room)

  -- Values that are known.
  sub_values :
      (a b : Ciphertext) (x y z : ℤ)
      → dec a ≡ x
      → dec b ≡ y
      → x -ℤ y ≡ z
      → Below limit y
      → Below limit z
      → dec (sub ops a b) ≡ z
  sub_values a b x y z ea eb e hy hz =
      dec-sub a b (subst (Below limit) (sym eb) hy) (subst (Below limit) (sym whole) hz) ∙ whole
    where
      whole : dec a -ℤ dec b ≡ z
      whole = rw (ea, eb) e

  add_values :
      (a b : Ciphertext) (x y z : ℤ)
      → dec a ≡ x
      → dec b ≡ y
      → x +ℤ y ≡ z
      → Below limit z
      → dec (add a b) ≡ z
  add_values a b x y z ea eb e hz = dec-add a b (subst (Below limit) (sym whole) hz) ∙ whole
    where
      whole : dec a +ℤ dec b ≡ z
      whole = rw (ea, eb) e

  mul_values :
      (a b : Ciphertext) (x y z : ℤ)
      → dec a ≡ x
      → dec b ≡ y
      → x *ℤ y ≡ z
      → Below limit x
      → Below limit y
      → Below limit z
      → dec (secure_mul a b) ≡ z
  mul_values a b x y z ea eb e hx hy hz =
      dec-secure_mul a b (subst (Below limit) (sym ea) hx) (subst (Below limit) (sym eb) hy)
        (subst (Below limit) (sym whole) hz)
      ∙ whole
    where
      whole : dec a *ℤ dec b ≡ z
      whole = rw (ea, eb) e

  pub bit-Below : (x : Bool) → Below limit (of_bool x)
  bit-Below x = Below-of_bool limit x limit_room

  pub bit_not-Holds : (b : Bit ops) (x : Bool) → Holds b x → Holds (bit_not ops b) (not x)
  unfolding bit_not
  bit_not-Holds b x h =
      sub_values _ b.ciphertext (pos 1) (of_bool x) _
        (dec-encrypt_constant (pos 1) (bit-Below true)) h (of_bool-not x) (bit-Below x)
        (bit-Below (not x))

  pub bit_and-Holds :
      (a b : Bit ops) (x y : Bool) → Holds a x → Holds b y → Holds (bit_and ops a b) (x && y)
  unfolding bit_and
  bit_and-Holds a b x y h k =
      mul_values a.ciphertext b.ciphertext (of_bool x) (of_bool y) _ h k (of_bool-and x y)
        (bit-Below x) (bit-Below y) (bit-Below (x && y))

  -- `a + b - product`, as in `bitOr`, `bitOrFromProduct` and `bitOrBatch`.
  pub or_value :
      (a b : Bit ops) (product : Ciphertext) (x y : Bool)
      → Holds a x
      → Holds b y
      → dec product ≡ of_bool (x && y)
      → dec (sub ops (add a.ciphertext b.ciphertext) product) ≡ of_bool (x || y)
  or_value a b product x y h k e =
      sub_values _ product (of_bool x +ℤ of_bool y) (of_bool (x && y)) _
        (add_values a.ciphertext b.ciphertext (of_bool x) (of_bool y) _ h k refl
          (Below-sum limit x y limit_room))
        e (of_bool-or x y) (bit-Below (x && y)) (bit-Below (x || y))

  pub bit_or-Holds :
      (a b : Bit ops) (x y : Bool) → Holds a x → Holds b y → Holds (bit_or ops a b) (x || y)
  unfolding bit_or
  bit_or-Holds a b x y h k =
      or_value a b (secure_mul a.ciphertext b.ciphertext) x y h k
        (unfold bit_and in bit_and-Holds a b x y h k)

  pub bit_or_from_product-Holds :
      (a b product : Bit ops) (x y : Bool)
      → Holds a x
      → Holds b y
      → Holds product (x && y)
      → Holds (bit_or_from_product ops a b product) (x || y)
  unfolding bit_or_from_product
  bit_or_from_product-Holds a b product x y h k e = or_value a b product.ciphertext x y h k e

  pub bit_or_exclusive-Holds :
      (a b : Bit ops) (x y : Bool)
      → Holds a x
      → Holds b y
      → x && y ≡ false
      → Holds (bit_or_exclusive ops a b) (x || y)
  unfolding bit_or_exclusive
  bit_or_exclusive-Holds a b x y h k e =
      add_values a.ciphertext b.ciphertext (of_bool x) (of_bool y) _ h k (of_bool-exclusive x y e)
        (bit-Below (x || y))

  -- A selection reads as the value that the bit selects.
  pub dec-select :
      (c : Bit ops) (t f : Ciphertext) (x : Bool)
      → Holds c x
      → Exact t
      → Exact f
      → Below limit (dec t -ℤ dec f)
      → dec (select ops c t f) ≡ (if x then dec t else dec f)
  unfolding select
  dec-select c t f x h et ef d =
      add_values f _ (dec f) (of_bool x *ℤ (dec t -ℤ dec f)) _ refl
        (mul_values c.ciphertext _ (of_bool x) (dec t -ℤ dec f) _ h (dec-sub t f ef d) refl
          (bit-Below x) d (scaled x))
        (select_value x (dec t) (dec f)) (chosen x)
    where
      scaled : (x : Bool) → Below limit (of_bool x *ℤ (dec t -ℤ dec f))
      scaled true = rw one-*ℤ d
      scaled false = rw zero-*ℤ (bit-Below false)

      chosen : (x : Bool) → Below limit (if x then dec t else dec f)
      chosen true = et
      chosen false = ef
