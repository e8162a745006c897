-- ===== src/Threshold/Fused/Session.antt =====
-- Sequences of fused requests to one CSP, in any order: which starts are answered.
use soci_sgx_sdk.Prelude.{
  ℕ, suc, ◌≤◌, ◌≡◌, refl, sym, ap, subst, Bool, true, false, ◌||◌, List, [], ◌∷◌, some, Result, ok,
  err, arith, if◌then◌else◌, Bool-cases, Result-cases, inl, inr,
}
use soci_sgx_sdk.Text.{same_text}
use soci_sgx_sdk.Text.Same.{same_text_refl, same_text-eq}
use soci_sgx_sdk.Wire.{Gmp}
use soci_sgx_sdk.Predicate.{is_consumed}
use soci_sgx_sdk.Threshold.Circuit.{BooleanCircuit, CircuitError}
use soci_sgx_sdk.Threshold.Scheme.{Scheme}
use soci_sgx_sdk.Threshold.Fused.{
  FusedError, PendingFused, StartRequest, FinishRequest, Csp, invalid_start, invalid_finish,
  rejected, fused_replay, check_start, accepted_start, handle_start, handle_finish,
}

-- A request with what the CSP draws for it.
pub data Request : Type 0 where
  start : StartRequest → List ℕ → Request
  finish : FinishRequest → Request

module _ (s : Scheme) (gmp : Gmp) (sha256 : List ℕ → List ℕ) where
  -- One pass of the CSP loop.
  abbrev pub next : Csp → Request → Csp
  next csp (start request keys) = (handle_start s gmp csp request keys).0
  next csp (finish request) = (handle_finish gmp sha256 csp request).0

  abbrev pub is_ok : {A : Type 0} → Result FusedError A → Bool
  is_ok (ok a) = true
  is_ok (err e) = false

  -- Whether the request starts the operation and is answered.
  abbrev pub answers : List ℕ → Csp → Request → Bool
  answers operation csp (start request keys) =
      if same_text (fused_replay request.context) operation
      then is_ok (handle_start s gmp csp request keys).1
      else false
  answers operation csp (finish request) = false

  -- How many starts of the operation are answered.
  abbrev pub answered : List ℕ → Csp → List Request → ℕ
  answered operation csp [] = 0
  answered operation csp (r ∷ rs) =
      let rest = answered operation (next csp r) rs in
      if answers operation csp r then suc rest else rest

  -- A start leaves the replays, or adds its own, which it needs for an answer and which is new.
  data Started (csp : Csp) (operation : List ℕ) (r : Csp × Result FusedError (List ℕ))
      : Type 0 where
    refused : r.0.fused_replays ≡ csp.fused_replays → is_ok r.1 ≡ false → Started csp operation r
    consumed :
        r.0.fused_replays ≡ operation ∷ csp.fused_replays
        → is_consumed operation csp.fused_replays ≡ false
        → Started csp operation r

  accepted-replays :
      (replays : List (List ℕ)) (request : StartRequest) (keys : List ℕ)
      (built : Result CircuitError BooleanCircuit)
      → (accepted_start s gmp replays request keys built).0.fused_replays ≡ replays
  accepted-replays replays request keys (err e) = refl
  accepted-replays replays request keys (ok c) = refl

  handle_start-Started :
      (csp : Csp) (request : StartRequest) (keys : List ℕ)
      → Started csp (fused_replay request.context) (handle_start s gmp csp request keys)
  unfolding handle_start
  handle_start-Started csp request keys = elim (Result-cases (check_start s gmp csp request)) [
    | inl (e, failed) ↦ refused (rw (failed, handle_start) refl) (rw (failed, handle_start) refl)
    | inr (u, passed) ↦
        elim (Bool-cases (is_consumed (fused_replay request.context) csp.fused_replays)) [
          | inl old ↦
              refused (rw (passed, handle_start, old) refl) (rw (passed, handle_start, old) refl)
          | inr new ↦
              consumed
                (rw (passed, handle_start, new)
                  (accepted-replays (fused_replay request.context ∷ csp.fused_replays) request keys
                    _))
                new
        ]
  ]

  -- A request that does not start the operation keeps its replay; one that does makes it.
  data Serves (operation : List ℕ) (csp : Csp) (r : Request) : Type 0 where
    silent :
        answers operation csp r ≡ false
        → (is_consumed operation csp.fused_replays ≡ true
            → is_consumed operation (next csp r).fused_replays ≡ true)
        → Serves operation csp r
    fresh :
        is_consumed operation csp.fused_replays ≡ false
        → is_consumed operation (next csp r).fused_replays ≡ true
        → Serves operation csp r

  newly_consumed :
      (operation : List ℕ) (replays : List (List ℕ))
      → is_consumed operation (operation ∷ replays) ≡ true
  unfolding is_consumed
  newly_consumed operation replays =
      ap (λ b. b || is_consumed operation replays) (same_text_refl operation)

  still_consumed :
      (operation other : List ℕ) (replays : List (List ℕ))
      → is_consumed operation replays ≡ true
      → is_consumed operation (other ∷ replays) ≡ true
  unfolding is_consumed
  still_consumed operation other replays h = ground arith

  serves : (operation : List ℕ) (csp : Csp) (r : Request) → Serves operation csp r
  unfolding handle_finish
  serves operation csp (finish request) = silent refl (λ h. h)
  serves operation csp (start request keys) = elim (handle_start-Started csp request keys) [
    | refused same no_answer ↦
        silent (unanswered (same_text (fused_replay request.context) operation) _ no_answer)
          (λ h. rw (same) h)
    | consumed grown new ↦ elim (Bool-cases (same_text (fused_replay request.context) operation)) [
      | inl e ↦
          let eq = same_text-eq (fused_replay request.context) operation e in
          fresh (subst (λ o. is_consumed o csp.fused_replays ≡ false) eq new) (
            rw (grown) (
              subst (λ o. is_consumed operation (o ∷ csp.fused_replays) ≡ true) (sym eq)
                (newly_consumed operation csp.fused_replays)))
      | inr e ↦ silent (rw (e) refl) (λ h.
          rw (grown) (still_consumed operation (fused_replay request.context) csp.fused_replays h))
    ]
  ]
    where
      unanswered : (t b : Bool) → b ≡ false → (if t then b else false) ≡ false
      unanswered true b h = h
      unanswered false b h = refl

  consumed-answered :
      (operation : List ℕ) (csp : Csp) (rs : List Request)
      → is_consumed operation csp.fused_replays ≡ true
      → answered operation csp rs ≡ 0
  consumed-answered operation csp [] h = refl
  consumed-answered operation csp (r ∷ rs) h = elim (serves operation csp r) [
    | silent e keeps ↦ rw (e) (consumed-answered operation (next csp r) rs (keeps h))
    | fresh old new ↦ cc
  ]

  one_at_most : (b : Bool) (m : ℕ) → m ≡ 0 → (if b then suc m else m) ≤ 1
  one_at_most true m h = omega arith
  one_at_most false m h = omega arith

  -- Whatever requests reach a CSP, in any order and with any contents: it answers at most one start
  -- of an operation, the identifiers of session and operation being its name.
  pub answered-le :
      (operation : List ℕ) (csp : Csp) (rs : List Request) → answered operation csp rs ≤ 1
  answered-le operation csp [] = omega arith
  answered-le operation csp (r ∷ rs) = elim (serves operation csp r) [
    | silent e keeps ↦ rw (e) (answered-le operation (next csp r) rs)
    | fresh old new ↦
        one_at_most (answers operation csp r) (answered operation (next csp r) rs)
          (consumed-answered operation (next csp r) rs new)
  ]

  accepted-pending :
      (replays : List (List ℕ)) (request : StartRequest) (keys : List ℕ)
      (built : Result CircuitError BooleanCircuit) {responses : List ℕ}
      → (accepted_start s gmp replays request keys built).1 ≡ ok responses
      → (p : PendingFused) × ((accepted_start s gmp replays request keys built).0.pending_fused
          ≡ some p)
  accepted-pending replays request keys (err e) h = cc
  accepted-pending replays request keys (ok c) h = (_, refl)

  started-pending :
      (csp : Csp) (request : StartRequest) (keys responses : List ℕ)
      → (handle_start s gmp csp request keys).1 ≡ ok responses
      → (p : PendingFused) × ((handle_start s gmp csp request keys).0.pending_fused ≡ some p)
  unfolding handle_start
  started-pending csp request keys responses h =
      elim (Result-cases (check_start s gmp csp request)) [
        | inl (e, failed) ↦ absurd (no_answer (rw (failed, handle_start) at h))
        | inr (u, passed) ↦
            elim (Bool-cases (is_consumed (fused_replay request.context) csp.fused_replays)) [
              | inl old ↦ absurd (no_answer (rw (passed, handle_start, old) at h))
              | inr new ↦
                  rw (passed, handle_start, new)
                    (accepted-pending _ request keys _ (rw (passed, handle_start, new) at h))
            ]
      ]
    where
      no_answer : {e : FusedError} → err e ≡ ok responses → ⊥
      no_answer q = cc

  pending-handle_start :
      (csp : Csp) (p : PendingFused) (request : StartRequest) (keys : List ℕ)
      → csp.pending_fused ≡ some p
      → handle_start s gmp csp request keys ≡ rejected csp.fused_replays invalid_start
  unfolding handle_start check_start
  pending-handle_start csp p request keys h = rw (h, handle_start, check_start) refl

  -- A second start before the finish of the first: it is refused, and the finish finds nothing.
  pub interrupted-finish :
      (csp : Csp) (first second : StartRequest) (keys keys' : List ℕ) (request : FinishRequest)
      (responses : List ℕ)
      → (handle_start s gmp csp first keys).1 ≡ ok responses
      → let csp1 = next csp (start first keys) in
        let csp2 = next csp1 (start second keys') in
        ((handle_start s gmp csp1 second keys').1 ≡ err invalid_start)
        × ((handle_finish gmp sha256 csp2 request).1 ≡ err invalid_finish)
  unfolding handle_finish
  interrupted-finish csp first second keys keys' request responses h =
      let (p, pending) = started-pending csp first keys responses h in
      let refused = pending-handle_start (next csp (start first keys)) p second keys' pending in
      (ap (λ r. r.1) refused, rw (ap (λ r. r.0.pending_fused) refused, handle_finish) refl)
