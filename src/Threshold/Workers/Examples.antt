-- ===== src/Threshold/Workers/Examples.antt =====
-- Two workers on three plaintexts.
use soci_sgx_sdk.Prelude.{ℕ, ◌+◌, ◌≡◌, refl, true, List, [], ◌∷◌, arith}
use soci_sgx_sdk.Prelude.Int.{ℤ, pos, negsuc}
use soci_sgx_sdk.Threshold.Sample.{n, s}
use soci_sgx_sdk.Threshold.Workers.{
  step_at, step, all_finished, start_pool, encrypt_each, encrypt_at, paillier_encrypt_batch,
}
use soci_sgx_sdk.Threshold.Workers.Finish.{
  Busy, at_rest, moves, paillier_encrypt_batch-encrypt_each,
}

abbrev plaintexts : List ℤ
plaintexts = pos 5 ∷ negsuc 2 ∷ pos 7 ∷ []

abbrev nonces : List ℕ
nonces = 1 ∷ (n + 1) ∷ 1 ∷ []

-- The second worker stores its result first, and the first one takes the third index.
abbrev schedule : List ℕ
schedule = 0 ∷ 1 ∷ 1 ∷ 0 ∷ 0 ∷ 0 ∷ 0 ∷ 1 ∷ []

schedule-Busy : Busy 3 (encrypt_at s plaintexts nonces) schedule (start_pool 3 2)
unfolding step step_at
schedule-Busy = moves refl (
    moves refl
      (moves refl (moves refl (moves refl (moves refl (moves refl (moves refl at_rest)))))))

paillier_encrypt_batch-encrypt_each_example :
    let p = paillier_encrypt_batch s plaintexts nonces 2 schedule in
    (all_finished p.workers ≡ true) × (p.output ≡ encrypt_each s plaintexts nonces)
paillier_encrypt_batch-encrypt_each_example =
    paillier_encrypt_batch-encrypt_each s plaintexts nonces 2 schedule (omega arith) refl
      schedule-Busy refl
