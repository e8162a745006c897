-- ===== src/Threshold/Workers.antt =====
-- `paillierEncryptBatch`: the threads that share a counter and fill the output. A schedule says which
-- worker moves next; taking an index and storing a result are one step each.
pub mod Interleaving
pub mod Finish
mod Examples
use soci_sgx_sdk.Prelude.{
  ℕ, zero, suc, ◌+◌, ◌-◌, ◌*◌, Bool, true, false, ◌&&◌, List, [], ◌∷◌, Option, none, some, ltb,
  ◌==◌, if◌then◌else◌, length, replicate, get_or,
}
use soci_sgx_sdk.Prelude.Int.{ℤ, pos}
use soci_sgx_sdk.Threshold.Scheme.{Scheme, paillier_encrypt}

-- Before `fetch_add`, between it and the store, and behind the loop.
pub data Worker : Type 0 where
  idle finished : Worker
  holding : ℕ → Worker

pub record Pool : Type 0 where
  pub next : ℕ
  pub workers : List Worker
  pub output : List ℕ

unfoldable pub set_at : ℕ → ℕ → List ℕ → List ℕ
set_at i value [] = []
set_at zero value (x ∷ xs) = value ∷ xs
set_at (suc i) value (x ∷ xs) = x ∷ set_at i value xs

-- What a step leaves: the worker, the counter, and the index whose result is stored.
abbrev pub worker_step : ℕ → ℕ → Worker → Worker × ℕ × Option ℕ
worker_step count next idle =
    if ltb next count then (holding next, suc next, none) else (finished, suc next, none)
worker_step count next (holding i) = (idle, next, some i)
worker_step count next finished = (finished, next, none)

-- The step of the worker at a position.
unfoldable pub step_at : ℕ → ℕ → ℕ → List Worker → List Worker × ℕ × Option ℕ
step_at count w next [] = ([], next, none)
step_at count zero next (x ∷ xs) =
    let (y, next', stored) = worker_step count next x in (y ∷ xs, next', stored)
step_at count (suc w) next (x ∷ xs) =
    let (ys, next', stored) = step_at count w next xs in (x ∷ ys, next', stored)

abbrev pub stored_in : (ℕ → ℕ) → List ℕ → Option ℕ → List ℕ
stored_in encrypt output none = output
stored_in encrypt output (some i) = set_at i (encrypt i) output

unfoldable pub step : ℕ → (ℕ → ℕ) → ℕ → Pool → Pool
unfolding step_at set_at
step count encrypt w p =
    let (workers, next, stored) = step_at count w p.next p.workers in
    record { next = next; workers = workers; output = stored_in encrypt p.output stored }

unfoldable pub run : ℕ → (ℕ → ℕ) → List ℕ → Pool → Pool
run count encrypt [] p = p
run count encrypt (w ∷ schedule) p = run count encrypt schedule (step count encrypt w p)

abbrev pub is_finished : Worker → Bool
is_finished finished = true
is_finished idle = false
is_finished (holding i) = false

-- Whether `join` returns for all workers.
unfoldable pub all_finished : List Worker → Bool
all_finished [] = true
all_finished (x ∷ xs) = is_finished x && all_finished xs

abbrev pub start_pool : ℕ → ℕ → Pool
start_pool count threads = record {
  next = 0;
  workers = replicate threads idle;
  output = replicate count 0;
}

-- The plaintexts' encryptions one after the other, each with its nonce: the loop of one thread.
unfoldable pub encrypt_each : Scheme → List ℤ → List ℕ → List ℕ
encrypt_each s (z ∷ zs) (r ∷ rs) = paillier_encrypt s z r ∷ encrypt_each s zs rs
encrypt_each s _ _ = []

-- The encryption of an index.
abbrev pub encrypt_at : Scheme → List ℤ → List ℕ → ℕ → ℕ
encrypt_at s plaintexts nonces i =
    paillier_encrypt s (get_or plaintexts i (pos 0)) (get_or nonces i 0)

-- The pool of a batch after the steps of a schedule.
unfoldable pub paillier_encrypt_batch : Scheme → List ℤ → List ℕ → ℕ → List ℕ → Pool
unfolding run
paillier_encrypt_batch s plaintexts nonces threads schedule =
    run (length plaintexts) (encrypt_at s plaintexts nonces) schedule
      (start_pool (length plaintexts) threads)
