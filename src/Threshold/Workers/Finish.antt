-- ===== src/Threshold/Workers/Finish.antt =====
-- Every schedule that keeps the workers busy ends, with the output of the sequential loop.
use soci_sgx_sdk.Prelude.{
  ℕ, zero, suc, ◌+◌, ◌-◌, ◌*◌, ◌<◌, ◌≡◌, refl, sym, ap, ◌∙◌, Bool, true, false, not, List, [], ◌∷◌,
  arith, ltb, ltb→lt, ltb→le, length, replicate, get_or, Bool-cases, inl, inr,
}
use soci_sgx_sdk.Prelude.Int.{ℤ}
use soci_sgx_sdk.Threshold.Scheme.{Scheme}
use soci_sgx_sdk.Threshold.Workers.{
  Worker, idle, finished, holding, Pool, step_at, step, run, is_finished, all_finished, start_pool,
  encrypt_each, encrypt_at, paillier_encrypt_batch,
}
use soci_sgx_sdk.Threshold.Workers.Interleaving.{run-Filling, start-Filling, finished-get_or}

-- The steps that a worker still has for what it holds and for its end.
abbrev weight : Worker → ℕ
weight idle = 1
weight (holding i) = 2
weight finished = 0

abbrev load : List Worker → ℕ
load [] = 0
load (x ∷ xs) = weight x + load xs

-- An index is taken and stored.
abbrev measure : ℕ → ℕ → List Worker → ℕ
measure count next xs = 2 * (count - next) + load xs

abbrev pub is_busy : ℕ → List Worker → Bool
is_busy w [] = false
is_busy zero (x ∷ xs) = not (is_finished x)
is_busy (suc w) (x ∷ xs) = is_busy w xs

step_at-measure :
    (count w next : ℕ) (xs : List Worker)
    → is_busy w xs ≡ true
    → measure count (step_at count w next xs).1 (step_at count w next xs).0 + 1
      ≡ measure count next xs
unfolding step_at
step_at-measure count w next [] h = cc
step_at-measure count zero next (finished ∷ xs) h = cc
step_at-measure count zero next (holding i ∷ xs) h = omega arith
step_at-measure count zero next (idle ∷ xs) h = elim (Bool-cases (ltb next count)) [
  | inl e ↦ rw (e) (omega (arith, ltb→lt next count e))
  | inr e ↦ rw (e) (omega (arith, ltb→le next count e))
]
step_at-measure count (suc w) next (x ∷ xs) h = omega (arith, step_at-measure count w next xs h)

step_at-length :
    (count w next : ℕ) (xs : List Worker) → length (step_at count w next xs).0 ≡ length xs
unfolding step_at
step_at-length count w next [] = refl
step_at-length count zero next (x ∷ xs) = refl
step_at-length count (suc w) next (x ∷ xs) = ap suc (step_at-length count w next xs)

-- A schedule whose every step is of a worker that has not left the loop.
pub data Busy (count : ℕ) (encrypt : ℕ → ℕ) : List ℕ → Pool → Type 0 where
  at_rest : {p : Pool} → Busy count encrypt [] p
  moves :
      {w : ℕ} {schedule : List ℕ} {p : Pool}
      → is_busy w p.workers ≡ true
      → Busy count encrypt schedule (step count encrypt w p)
      → Busy count encrypt (w ∷ schedule) p

run-measure :
    (count : ℕ) (encrypt : ℕ → ℕ) {schedule : List ℕ} {p : Pool}
    → Busy count encrypt schedule p
    → let q = run count encrypt schedule p in
      (measure count q.next q.workers + length schedule ≡ measure count p.next p.workers)
      × (length q.workers ≡ length p.workers)
unfolding run step
run-measure count encrypt at_rest = (omega arith, refl)
run-measure count encrypt (moves {w} {schedule} {p} h rest) =
    let (m, l) = run-measure count encrypt rest in
    (
      omega (arith, m, step_at-measure count w p.next p.workers h),
      l ∙ step_at-length count w p.next p.workers,
    )

load_zero : (xs : List Worker) → load xs ≡ 0 → all_finished xs ≡ true
unfolding all_finished
load_zero [] h = refl
load_zero (finished ∷ xs) h = load_zero xs (omega (arith, h))
load_zero (idle ∷ xs) h = absurd (omega (arith, h))
load_zero (holding i ∷ xs) h = absurd (omega (arith, h))

load-idle :
    (threads : ℕ)
    → (load (replicate threads idle) ≡ threads) × (length (replicate threads idle) ≡ threads)
load-idle zero = (refl, refl)
load-idle (suc threads) = let (l, n) = load-idle threads in (omega (arith, l), ap suc n)

-- Lists with the same entries.
same_entries :
    (xs ys : List ℕ)
    → length xs ≡ length ys
    → ((i : ℕ) → i < length ys → get_or xs i 0 ≡ get_or ys i 0)
    → xs ≡ ys
same_entries [] [] l h = refl
same_entries [] (y ∷ ys) l h = absurd (omega (arith, l))
same_entries (x ∷ xs) [] l h = absurd (omega (arith, l))
same_entries (x ∷ xs) (y ∷ ys) l h =
    let first : x ≡ y = h 0 (omega arith) in
    let rest = same_entries xs ys (omega (arith, l)) (λ i k. h (suc i) (omega arith)) in
    rw (first, rest) refl

length-encrypt_each :
    (s : Scheme) (zs : List ℤ) (rs : List ℕ)
    → length rs ≡ length zs
    → length (encrypt_each s zs rs) ≡ length zs
unfolding encrypt_each
length-encrypt_each s [] rs h = refl
length-encrypt_each s (z ∷ zs) [] h = absurd (omega (arith, h))
length-encrypt_each s (z ∷ zs) (r ∷ rs) h = ap suc (length-encrypt_each s zs rs (omega (arith, h)))

encrypt_each-get_or :
    (s : Scheme) (zs : List ℤ) (rs : List ℕ) (i : ℕ)
    → length rs ≡ length zs
    → i < length zs
    → get_or (encrypt_each s zs rs) i 0 ≡ encrypt_at s zs rs i
unfolding encrypt_each
encrypt_each-get_or s [] rs i h l = absurd (omega arith)
encrypt_each-get_or s (z ∷ zs) [] i h l = absurd (omega (arith, h))
encrypt_each-get_or s (z ∷ zs) (r ∷ rs) zero h l = refl
encrypt_each-get_or s (z ∷ zs) (r ∷ rs) (suc i) h l =
    encrypt_each-get_or s zs rs i (omega (arith, h)) (omega arith)

-- For at least one worker and a nonce for each plaintext: every schedule that moves only workers that
-- have not left the loop, and makes two steps for each plaintext and one for each worker, ends with
-- all workers finished and the ciphertexts of the sequential loop, in order.
pub paillier_encrypt_batch-encrypt_each :
    (s : Scheme) (zs : List ℤ) (rs : List ℕ) (threads : ℕ) (schedule : List ℕ)
    → 0 < threads
    → length rs ≡ length zs
    → Busy (length zs) (encrypt_at s zs rs) schedule (start_pool (length zs) threads)
    → length schedule ≡ 2 * length zs + threads
    → let p = paillier_encrypt_batch s zs rs threads schedule in
      (all_finished p.workers ≡ true) × (p.output ≡ encrypt_each s zs rs)
unfolding paillier_encrypt_batch
paillier_encrypt_batch-encrypt_each s zs rs threads schedule some_worker sized busy steps =
    let count = length zs in
    let encrypt = encrypt_at s zs rs in
    let (m, l) = run-measure count encrypt busy in
    let (full, workers) = load-idle threads in
    let p = run count encrypt schedule (start_pool count threads) in
    let filling =
      run-Filling count encrypt schedule (start_pool count threads)
        (start-Filling count threads encrypt) in
    let done = load_zero p.workers (omega (arith, m, full, steps)) in
    (
      done,
      same_entries p.output (encrypt_each s zs rs)
          (filling.sized ∙ sym (length-encrypt_each s zs rs sized))
          (λ i k.
            let inside : i < count = omega (arith, length-encrypt_each s zs rs sized) in
            finished-get_or count encrypt p filling (omega (arith, l, workers)) done i inside
            ∙ sym (encrypt_each-get_or s zs rs i sized inside)),
    )
