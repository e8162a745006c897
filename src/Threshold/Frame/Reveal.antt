-- ===== src/Threshold/Frame/Reveal.antt =====
-- What the CSP reads of a `P` request, and the bit that it reveals.
use soci_sgx_sdk.Prelude.{
  ℕ, ◌≤◌, ◌≡◌, refl, sym, ap, subst, ◌∙◌, Bool, true, false, List, [], ◌∷◌, ◌++◌, Result, ok, err,
  >>=-eq-ok, ◌>>◌, require, leb, ◌==◌, ==_self, length, arith,
}
use mathlib.Core.List.{append_assoc, append-nil}
use soci_sgx_sdk.Prelude.Congruence.{Represents-exact}
use soci_sgx_sdk.Wire.{Gmp, WireError, write_u32, append_integer, append_integers, take_integer}
use soci_sgx_sdk.Wire.Integers.{take_integer-append_integer}
use soci_sgx_sdk.Wire.Batches.{append_integer-extends}
use soci_sgx_sdk.Predicate.{
  PredicateType, prune_node, accept_candidate, other, PredicateContext, same_type,
}
use soci_sgx_sdk.Threshold.Scheme.{Scheme}
use soci_sgx_sdk.Threshold.Scheme.Holds.{Holds}
use soci_sgx_sdk.Threshold.Frame.{
  not_a_bit, from_wire, append_context_string, append_context, take_context, take_context_string,
  type_byte, is_header, predicate_request, parse_predicate, answer_predicate,
  reveal_final_predicate,
}
use soci_sgx_sdk.Secure.{of_bool}
use soci_sgx_sdk.Threshold.Server.{combined}
use soci_sgx_sdk.Threshold.Frame.Strings.{take-append_context_string, append_context_string-extends}

-- The three strings of a context.
take-append_context :
    (output appended rest : List ℕ) (c : PredicateContext)
    → append_context output c ≡ ok appended
    → (take_context (appended ++ rest) (length output)
        ≡ ok ((c.session_id, c.operation_id, c.node_id), length appended))
      × (more : List ℕ) × (appended ≡ output ++ more)
take-append_context output appended rest c h =
    let (a, ea, h1) = >>=-eq-ok (append_context_string output c.session_id) _ h in
    let (b, eb, h2) = >>=-eq-ok (append_context_string a c.operation_id) _ h1 in
    let (ma, fa) = append_context_string-extends output a c.session_id ea in
    let (mb, fb) = append_context_string-extends a b c.operation_id eb in
    let (mc, fc) = append_context_string-extends b appended c.node_id h2 in
    let from_b : appended ++ rest ≡ b ++ (mc ++ rest) =
      ap (λ t. t ++ rest) fc ∙ append_assoc b mc rest in
    let from_a : appended ++ rest ≡ a ++ (mb ++ (mc ++ rest)) =
      from_b ∙ (ap (λ t. t ++ (mc ++ rest)) fb ∙ append_assoc a mb (mc ++ rest)) in
    let first =
      ap (λ i. take_context_string i (length output)) from_a
      ∙ take-append_context_string output a (mb ++ (mc ++ rest)) c.session_id ea in
    let second =
      ap (λ i. take_context_string i (length a)) from_b
      ∙ take-append_context_string a b (mc ++ rest) c.operation_id eb in
    let third = take-append_context_string b appended rest c.node_id h2 in
    (
      rw (first, second, third) refl,
      ma ++ (mb ++ mc),
      fc
          ∙ (ap (λ t. t ++ mc) fb
              ∙ (append_assoc a mb mc
                  ∙ (ap (λ t. t ++ (mb ++ mc)) fa ∙ append_assoc output ma (mb ++ mc)))),
    )

header_passes :
    (type : PredicateType) (depth : ℕ) (more : List ℕ)
    → same_type type other ≡ false
    → is_header ((b'P' ∷ type_byte type ∷ 0 ∷ 0 ∷ write_u32 depth) ++ more) ≡ true
unfolding write_u32
header_passes prune_node depth more h = ground arith
header_passes accept_candidate depth more h = ground arith
header_passes other depth more h = cc

length-header :
    (type : PredicateType) (depth : ℕ)
    → length (b'P' ∷ type_byte type ∷ 0 ∷ 0 ∷ write_u32 depth) ≡ 8
unfolding write_u32
length-header type depth = refl

from_wire_inv : {A : Type 0} (r : Result WireError A) {a : A} → from_wire r ≡ ok a → r ≡ ok a
from_wire_inv (err e) h = cc
from_wire_inv (ok b) h = cc

ok_appended : (a b : List ℕ) → ◌≡◌ {A = Result WireError (List ℕ)} (ok a) (ok b) → a ≡ b
ok_appended a b h = cc

module _ (gmp : Gmp) where
  parsed :
      (input : List ℕ) (ciphertext share : ℕ) {fields : List ℕ × List ℕ × List ℕ} {o o1 : ℕ}
      → is_header input ≡ true
      → take_context input 8 ≡ ok (fields, o)
      → take_integer gmp input o ≡ ok (ciphertext, o1)
      → take_integer gmp input o1 ≡ ok (share, length input)
      → parse_predicate gmp input ≡ ok (ciphertext, share)
  unfolding parse_predicate
  parsed input ciphertext share p q r t = rw (p, q, r, t, ==_self (length input)) refl

  -- For every context of a known type: a request that could be made is taken apart to its
  -- ciphertext and its share.
  pub parse_predicate-predicate_request :
      (context : PredicateContext) (ciphertext share : ℕ) (request : List ℕ)
      → same_type context.predicate_type other ≡ false
      → predicate_request gmp context (ciphertext ∷ share ∷ []) ≡ ok request
      → parse_predicate gmp request ≡ ok (ciphertext, share)
  unfolding predicate_request append_integers
  parse_predicate-predicate_request context ciphertext share request known h =
      let header = b'P' ∷ type_byte context.predicate_type ∷ 0 ∷ 0 ∷ write_u32 context.depth in
      let (a, ea, h1) = >>=-eq-ok (append_context header context) _ h in
      let both = from_wire_inv (append_integers gmp a (ciphertext ∷ share ∷ [])) h1 in
      let (b, eb, h2) = >>=-eq-ok (append_integer gmp a ciphertext) _ both in
      let (c, ec, h3) = >>=-eq-ok (append_integer gmp b share) _ h2 in
      let end : c ≡ request = ok_appended c request h3 in
      let (mb, fb) = append_integer-extends gmp a b ciphertext eb in
      let (mc, fc) = append_integer-extends gmp b c share ec in
      let from_a : c ≡ a ++ (mb ++ mc) = fc ∙ (ap (λ t. t ++ mc) fb ∙ append_assoc a mb mc) in
      let (strings, ma, fa) = take-append_context header a (mb ++ mc) context ea in
      let from_header : c ≡ header ++ (ma ++ (mb ++ mc)) =
        from_a ∙ (ap (λ t. t ++ (mb ++ mc)) fa ∙ append_assoc header ma (mb ++ mc)) in
      let first =
        ap (λ i. take_integer gmp i (length a)) fc
        ∙ take_integer-append_integer gmp a b mc ciphertext eb in
      let second =
        ap (λ i. take_integer gmp i (length b)) (sym (append-nil c))
        ∙ take_integer-append_integer gmp b c [] share ec in
      subst (λ r. parse_predicate gmp r ≡ ok (ciphertext, share)) end
        (parsed c (ciphertext) share
          (ap is_header from_header
            ∙ header_passes context.predicate_type context.depth (ma ++ (mb ++ mc)) known)
          (eight _ from_a strings) first second)
    where
      eight :
          {input : List ℕ} (out : List ℕ) {fields : List ℕ × List ℕ × List ℕ} {o : ℕ}
          → input ≡ out
          → take_context out
              (length (b'P' ∷ type_byte context.predicate_type ∷ 0 ∷ 0 ∷ write_u32 context.depth))
            ≡ ok (fields, o)
          → take_context input 8 ≡ ok (fields, o)
      eight out {fields} {o} e h =
          subst (λ i. take_context i 8 ≡ ok (fields, o)) (sym e)
            (subst (λ n. take_context out n ≡ ok (fields, o))
              (length-header context.predicate_type context.depth) h)

  module _ (s : Scheme) where
    open s use {modulus, modulus_pos, cp_share, csp_share, combine-lt}

    -- The bit that is revealed: for a ciphertext that decrypts to 0 or 1 and a key of at least 2,
    -- whenever the request can be made, it is the decrypted bit.
    pub reveal_final_predicate-reveals :
        (context : PredicateContext) (c : ℕ) (b : Bool) (request : List ℕ)
        → 2 ≤ modulus
        → same_type context.predicate_type other ≡ false
        → Holds s c (of_bool b)
        → predicate_request gmp context (c ∷ cp_share c ∷ []) ≡ ok request
        → reveal_final_predicate gmp s context c ≡ ok b
    unfolding reveal_final_predicate answer_predicate
    reveal_final_predicate-reveals context c b request room known holds made =
        let value = exact b holds in
        rw
          (made, parse_predicate-predicate_request context c (cp_share c) request known made, value)
          (read b)
      where
        number : Bool → ℕ
        number false = 0
        number true = 1

        exact : (b : Bool) → Holds s c (of_bool b) → combined s c (cp_share c) ≡ number b
        exact false h =
            Represents-exact modulus modulus_pos _ 0 (combine-lt (cp_share c) (csp_share c))
              (omega arith) h.reads
        exact true h =
            Represents-exact modulus modulus_pos _ 1 (combine-lt (cp_share c) (csp_share c))
              (omega arith) h.reads

        read : (b : Bool) → (require (leb (number b) 1) not_a_bit >> ok (number b == 1)) ≡ ok b
        read false = refl
        read true = refl
