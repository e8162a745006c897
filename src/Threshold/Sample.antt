-- ===== src/Threshold/Sample.antt =====
-- A key, ciphertexts, a hash and an OT key for the examples.
use soci_sgx_sdk.Prelude.{ℕ, ◌+◌, ◌*◌, ◌^◌, ◌<◌, ◌≡◌, refl, List, arith, length, replicate}
use soci_sgx_sdk.Prelude.Int.{pos, negsuc}
use soci_sgx_sdk.Wire.Plain.{plain_gmp, little, flip}
use soci_sgx_sdk.Threshold.Labels.{Label, IsLabel}
use soci_sgx_sdk.Threshold.Scheme.{Scheme, paillier_encrypt}
use soci_sgx_sdk.Threshold.Scheme.Holds.{Holds, paillier_encrypt-Holds}
use soci_sgx_sdk.Threshold.Fused.Client.{OtKey}
use soci_sgx_sdk.Threshold.Plain.{plain_scheme}

abbrev pub n : ℕ
n = 2 ^ 300

pub large : 1 < n
large = omega arith

abbrev pub s : Scheme
s = plain_scheme n large

-- Ciphertexts of 5 and of -3.
abbrev pub five : ℕ
five = paillier_encrypt s (pos 5) 1

abbrev pub minus_three : ℕ
minus_three = paillier_encrypt s (negsuc 2) (n + 1)

pub five-Holds : Holds s five (pos 5)
five-Holds = paillier_encrypt-Holds s (pos 5) 1 refl

pub minus_three-Holds : Holds s minus_three (negsuc 2)
minus_three-Holds = paillier_encrypt-Holds s (negsuc 2) (n + 1) refl

-- The hash and the labels that are drawn.
abbrev pub hash : List ℕ → Label
hash m = replicate 32 (length m)

abbrev pub draw : ℕ → Label
draw i = replicate 32 (i * 3)

pub hash-IsLabel : (m : List ℕ) → IsLabel (hash m)
hash-IsLabel m = refl

pub draw-IsLabel : (i : ℕ) → IsLabel (draw i)
draw-IsLabel i = refl

abbrev pub modulus_3072 : ℕ
modulus_3072 = 2 ^ 3_071

abbrev pub ot : OtKey
ot = record { ot_modulus = modulus_3072; ot_public = 65_537; ot_private = 1 }

pub size_3072 : plain_gmp.size_in_base2 modulus_3072 ≡ 3_072
unfolding little flip
size_3072 = refl
