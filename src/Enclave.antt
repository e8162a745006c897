-- ===== src/Enclave.antt =====
-- trusted/common/enclave_core.c: the threshold decryption of the two enclaves. GMP's power is the
-- native one with a remainder.
pub mod Decrypt
pub mod Key
pub mod Plain
mod Examples
use soci_sgx_sdk.Prelude.{ℕ, ◌-◌, ◌*◌, ◌/◌, ◌%◌, ◌^◌, Option, none, some, ◌==◌, if◌then◌else◌}

-- `mpz_powm`.
abbrev pub powm : ℕ → ℕ → ℕ → ℕ
powm base exponent n = base ^ exponent % n

-- The share of a ciphertext: `mpz_powm(u, c, lambda_z, nsq)`.
unfoldable pub partial_decrypt : ℕ → ℕ → ℕ → ℕ
partial_decrypt n lambda c = powm c lambda (n * n)

-- The combination of two shares. Zero less one is not divisible.
unfoldable pub combine_decrypt : ℕ → ℕ → ℕ → ℕ → Option ℕ
combine_decrypt n mu u1 u2 =
    let u = u1 * u2 % (n * n) in
    if u == 0 then none else if (u - 1) % n == 0 then some ((u - 1) / n * mu % n) else none
