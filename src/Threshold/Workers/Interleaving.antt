-- ===== src/Threshold/Workers/Interleaving.antt =====
-- What every schedule of the workers leaves in the output.
use soci_sgx_sdk.Prelude.{
  ℕ, zero, suc, ◌≤◌, ◌<◌, ◌≡◌, refl, sym, ap, ◌∙◌, Bool, true, false, ◌||◌, List, [], ◌∷◌, Option,
  none, some, arith, ltb, ltb→lt, ltb→le, ◌==◌, ==_iff, length, replicate, get_or, Bool-cases, inl,
  inr, ◌⊎◌,
}
use soci_sgx_sdk.Threshold.Workers.{
  Worker, idle, finished, holding, Pool, set_at, worker_step, step_at, stored_in, step, run,
  is_finished, all_finished, start_pool,
}

-- Whether a worker holds the index.
abbrev held_by : ℕ → Worker → Bool
held_by i (holding j) = i == j
held_by i idle = false
held_by i finished = false

abbrev is_held : ℕ → List Worker → Bool
is_held i [] = false
is_held i (x ∷ xs) = held_by i x || is_held i xs

abbrev some_finished : List Worker → Bool
some_finished [] = false
some_finished (x ∷ xs) = is_finished x || some_finished xs

-- What a step does with an index.
record Moves (count next : ℕ) (before : List Worker) (r : List Worker × ℕ × Option ℕ) : Type 0 where
  grows : next ≤ r.1
  keeps : (i : ℕ) → is_held i before ≡ true → (is_held i r.0 ≡ true) ⊎ (r.2 ≡ some i)
  claims : (i : ℕ) → next ≤ i → i < r.1 → i < count → is_held i r.0 ≡ true
  ends : some_finished r.0 ≡ true → (some_finished before ≡ true) ⊎ (count ≤ r.1)
  sized : length r.0 ≡ length before

or_cases : (a b : Bool) → (a || b) ≡ true → (a ≡ true) ⊎ (b ≡ true)
or_cases true b h = inl refl
or_cases false b h = inr h

or_left : (a b : Bool) → a ≡ true → (a || b) ≡ true
or_left a b h = ground arith

or_right : (a b : Bool) → b ≡ true → (a || b) ≡ true
or_right a b h = ground arith

first-Moves :
    (count next : ℕ) (x : Worker) (xs : List Worker)
    → Moves count next (x ∷ xs) (
      (worker_step count next x).0 ∷ xs,
      (worker_step count next x).1,
      (worker_step count next x).2,
    )
first-Moves count next idle xs = elim (Bool-cases (ltb next count)) [
  | inl e ↦ rw (e) (record {
    grows = omega arith;
    keeps = λ i h. inl (or_right (i == next) (is_held i xs) h);
    claims = λ i l k m. or_left (i == next) (is_held i xs) ((==_iff i next).1 (omega arith));
    ends = λ h. inl h;
    sized = refl;
  })
  | inr e ↦ rw (e) (record {
    grows = omega arith;
    keeps = λ i h. inl h;
    claims = λ i l k m. absurd (omega (arith, ltb→le next count e));
    ends = λ h. inr (omega (arith, ltb→le next count e));
    sized = refl;
  })
]
first-Moves count next (holding j) xs = record {
  grows = omega arith;
  keeps = λ i h. elim (or_cases (i == j) (is_held i xs) h) [
    | inl e ↦ inr (ap some (sym ((==_iff i j).0 e)))
    | inr e ↦ inl e
  ];
  claims = λ i l k m. absurd (omega arith);
  ends = λ h. inl h;
  sized = refl;
}
first-Moves count next finished xs = record {
  grows = omega arith;
  keeps = λ i h. inl h;
  claims = λ i l k m. absurd (omega arith);
  ends = λ h. inl refl;
  sized = refl;
}

step_at-Moves :
    (count w next : ℕ) (xs : List Worker) → Moves count next xs (step_at count w next xs)
unfolding step_at
step_at-Moves count w next [] = record {
  grows = omega arith;
  keeps = λ i h. inl h;
  claims = λ i l k m. absurd (omega arith);
  ends = λ h. inl h;
  sized = refl;
}
step_at-Moves count zero next (x ∷ xs) = first-Moves count next x xs
step_at-Moves count (suc w) next (x ∷ xs) =
    let m = step_at-Moves count w next xs in
    record {
      grows = m.grows;
      keeps = λ i h. elim (or_cases (held_by i x) (is_held i xs) h) [
        | inl e ↦ inl (or_left (held_by i x) _ e)
        | inr e ↦ elim (m.keeps i e) [ inl k ↦ inl (or_right (held_by i x) _ k) | inr k ↦ inr k ]
      ];
      claims = λ i l k c. or_right (held_by i x) _ (m.claims i l k c);
      ends = λ h. elim (or_cases (is_finished x) _ h) [
        | inl e ↦ inl (or_left (is_finished x) _ e)
        | inr e ↦ elim (m.ends e) [ inl k ↦ inl (or_right (is_finished x) _ k) | inr k ↦ inr k ]
      ];
      sized = ap suc m.sized;
    }

-- Each index is still to come, held, or stored.
pub record Filling (count : ℕ) (encrypt : ℕ → ℕ) (p : Pool) : Type 0 where
  pub sized : length p.output ≡ count
  placed :
      (i : ℕ)
      → i < p.next
      → i < count
      → (is_held i p.workers ≡ true) ⊎ (get_or p.output i 0 ≡ encrypt i)
  ended : some_finished p.workers ≡ true → count ≤ p.next

length-set_at : (i value : ℕ) (xs : List ℕ) → length (set_at i value xs) ≡ length xs
unfolding set_at
length-set_at i value [] = refl
length-set_at zero value (x ∷ xs) = refl
length-set_at (suc i) value (x ∷ xs) = ap suc (length-set_at i value xs)

set_at-same : (i value : ℕ) (xs : List ℕ) → i < length xs → get_or (set_at i value xs) i 0 ≡ value
unfolding set_at
set_at-same i value [] h = absurd (omega arith)
set_at-same zero value (x ∷ xs) h = refl
set_at-same (suc i) value (x ∷ xs) h = set_at-same i value xs (omega arith)

set_at-stored :
    (encrypt : ℕ → ℕ) (i j : ℕ) (xs : List ℕ)
    → i < length xs
    → get_or xs i 0 ≡ encrypt i
    → get_or (set_at j (encrypt j) xs) i 0 ≡ encrypt i
unfolding set_at
set_at-stored encrypt i j [] l h = absurd (omega arith)
set_at-stored encrypt zero zero (x ∷ xs) l h = refl
set_at-stored encrypt zero (suc j) (x ∷ xs) l h = h
set_at-stored encrypt (suc i) zero (x ∷ xs) l h = h
set_at-stored encrypt (suc i) (suc j) (x ∷ xs) l h =
    set_at-stored (λ k. encrypt (suc k)) i j xs (omega arith) h

stored_in-kept :
    (encrypt : ℕ → ℕ) (i : ℕ) (xs : List ℕ) (o : Option ℕ)
    → i < length xs
    → get_or xs i 0 ≡ encrypt i
    → get_or (stored_in encrypt xs o) i 0 ≡ encrypt i
stored_in-kept encrypt i xs none l h = h
stored_in-kept encrypt i xs (some j) l h = set_at-stored encrypt i j xs l h

stored_in-new :
    (encrypt : ℕ → ℕ) (i : ℕ) (xs : List ℕ) (o : Option ℕ)
    → i < length xs
    → o ≡ some i
    → get_or (stored_in encrypt xs o) i 0 ≡ encrypt i
stored_in-new encrypt i xs o l h =
    ap (λ o'. get_or (stored_in encrypt xs o') i 0) h ∙ set_at-same i (encrypt i) xs l

length-stored_in :
    (encrypt : ℕ → ℕ) (xs : List ℕ) (o : Option ℕ) → length (stored_in encrypt xs o) ≡ length xs
length-stored_in encrypt xs none = refl
length-stored_in encrypt xs (some j) = length-set_at j (encrypt j) xs

step-Filling :
    (count : ℕ) (encrypt : ℕ → ℕ) (w : ℕ) (p : Pool)
    → Filling count encrypt p
    → Filling count encrypt (step count encrypt w p)
unfolding step
step-Filling count encrypt w p f =
    let r = step_at count w p.next p.workers in
    let m = step_at-Moves count w p.next p.workers in
    record {
      sized = length-stored_in encrypt p.output r.2 ∙ f.sized;
      placed = λ i l k. elim (Bool-cases (ltb i p.next)) [
        | inr e ↦ inl (m.claims i (ltb→le i p.next e) l k)
        | inl e ↦ elim (f.placed i (ltb→lt i p.next e) k) [
          | inr old ↦ inr (stored_in-kept encrypt i p.output r.2 (omega (arith, f.sized)) old)
          | inl held ↦ elim (m.keeps i held) [
            | inl still ↦ inl still
            | inr now ↦ inr (stored_in-new encrypt i p.output r.2 (omega (arith, f.sized)) now)
          ]
        ]
      ];
      ended =
          λ h. elim (m.ends h) [ inl old ↦ omega (arith, f.ended old, m.grows) | inr now ↦ now ];
    }

pub run-Filling :
    (count : ℕ) (encrypt : ℕ → ℕ) (schedule : List ℕ) (p : Pool)
    → Filling count encrypt p
    → Filling count encrypt (run count encrypt schedule p)
unfolding run
run-Filling count encrypt [] p f = f
run-Filling count encrypt (w ∷ schedule) p f =
    run-Filling count encrypt schedule (step count encrypt w p) (step-Filling count encrypt w p f)

pub start-Filling :
    (count threads : ℕ) (encrypt : ℕ → ℕ) → Filling count encrypt (start_pool count threads)
start-Filling count threads encrypt = record {
  sized = length-replicate count;
  placed = λ i l k. absurd (omega arith);
  ended = λ h. absurd (none_finished threads h);
}
  where
    length-replicate : (n : ℕ) → length {A = ℕ} (replicate n 0) ≡ n
    length-replicate zero = refl
    length-replicate (suc n) = ap suc (length-replicate n)

    none_finished : (n : ℕ) → some_finished (replicate n idle) ≡ true → ⊥
    none_finished zero h = cc
    none_finished (suc n) h = none_finished n h

-- When all workers have left the loop, every index has its encryption.
pub finished-get_or :
    (count : ℕ) (encrypt : ℕ → ℕ) (p : Pool)
    → Filling count encrypt p
    → 0 < length p.workers
    → all_finished p.workers ≡ true
    → (i : ℕ) → i < count
    → get_or p.output i 0 ≡ encrypt i
unfolding all_finished
finished-get_or count encrypt p f some_worker done i l =
    elim (f.placed i (omega (arith, f.ended (one_finished p.workers some_worker done))) l) [
      | inl held ↦ absurd (none_held p.workers done held)
      | inr stored ↦ stored
    ]
  where
    one_finished :
        (xs : List Worker) → 0 < length xs → all_finished xs ≡ true → some_finished xs ≡ true
    one_finished [] h g = absurd (omega arith)
    one_finished (finished ∷ xs) h g = refl
    one_finished (idle ∷ xs) h g = cc
    one_finished (holding j ∷ xs) h g = cc

    none_held : (xs : List Worker) → all_finished xs ≡ true → is_held i xs ≡ true → ⊥
    none_held [] g h = cc
    none_held (finished ∷ xs) g h = none_held xs g h
    none_held (idle ∷ xs) g h = cc
    none_held (holding j ∷ xs) g h = cc
