-- ===== src/Threshold/Frame.antt =====
-- The frames of a predicate request (`P`): its context strings behind their sizes, then integers;
-- `appendContextString`, `takeContextString`, `revealFinalPredicate` and the handler of `P`.
pub mod Strings
pub mod Reveal
mod Examples
use soci_sgx_sdk.Prelude.{
  ℕ, ◌+◌, ◌-◌, Bool, true, false, not, ◌&&◌, ◌||◌, List, [], ◌∷◌, ◌++◌, Result, ok, err, ◌>>=◌,
  ◌>>◌, require, ltb, leb, ◌==◌, if◌then◌else◌, length, take, drop,
}
use soci_sgx_sdk.Wire.{Gmp, WireError, read_u32, write_u32, append_integers, take_integer}
use soci_sgx_sdk.Predicate.{PredicateType, prune_node, accept_candidate, other, PredicateContext}
use soci_sgx_sdk.Threshold.Scheme.{Scheme}
use soci_sgx_sdk.Threshold.Server.{combined}

pub data FrameError : Type 0 where
  invalid_field short_context bad_field invalid_header trailing_data not_a_bit : FrameError
  wire : WireError → FrameError

abbrev pub from_wire {ℓ} : {A : Type ℓ} → Result WireError A → Result FrameError A
from_wire (err e) = err (wire e)
from_wire (ok a) = ok a

unfoldable pub append_context_string : List ℕ → List ℕ → Result FrameError (List ℕ)
append_context_string output value = do
  require (not (length value == 0) && leb (length value) 128) invalid_field
  ok (output ++ (write_u32 (length value) ++ value))

unfoldable pub take_context_string : List ℕ → ℕ → Result FrameError (List ℕ × ℕ)
take_context_string input offset = do
  require (leb (offset + 4) (length input)) short_context
  require
      (not (read_u32 (drop offset input) == 0)
        && leb (read_u32 (drop offset input)) 128
        && leb (offset + 4 + read_u32 (drop offset input)) (length input))
      bad_field
  ok (
    take (read_u32 (drop offset input)) (drop (offset + 4) input),
    offset + 4 + read_u32 (drop offset input),
  )

abbrev pub type_byte : PredicateType → ℕ
type_byte prune_node = 1
type_byte accept_candidate = 2
type_byte other = 0

-- Session, operation and node.
abbrev pub append_context : List ℕ → PredicateContext → Result FrameError (List ℕ)
append_context output context = do
  a ← append_context_string output context.session_id
  b ← append_context_string a context.operation_id
  append_context_string b context.node_id

abbrev pub take_context : List ℕ → ℕ → Result FrameError ((List ℕ × List ℕ × List ℕ) × ℕ)
take_context input offset = do
  (session, o1) ← take_context_string input offset
  (operation, o2) ← take_context_string input o1
  (node, o3) ← take_context_string input o2
  ok ((session, operation, node), o3)

abbrev pub header_byte : List ℕ → ℕ
header_byte [] = 0
header_byte (b ∷ bs) = b

-- The test of the first eight bytes.
abbrev pub is_header : List ℕ → Bool
is_header input =
    leb 8 (length input)
    && (header_byte (drop 1 input) == 1 || header_byte (drop 1 input) == 2)
    && header_byte (drop 2 input) == 0
    && header_byte (drop 3 input) == 0

module _ (gmp : Gmp) where
  unfoldable pub predicate_request : PredicateContext → List ℕ → Result FrameError (List ℕ)
  predicate_request context values = do
    output ←
        append_context (b'P' ∷ type_byte context.predicate_type ∷ 0 ∷ 0 ∷ write_u32 context.depth)
          context
    from_wire (append_integers gmp output values)

  -- The ciphertext and the share of a request.
  unfoldable pub parse_predicate : List ℕ → Result FrameError (ℕ × ℕ)
  parse_predicate input = do
    require (is_header input) invalid_header
    (fields, o) ← take_context input 8
    (ciphertext, o1) ← from_wire (take_integer gmp input o)
    (share, o2) ← from_wire (take_integer gmp input o1)
    require (o2 == length input) trailing_data
    ok (ciphertext, share)

  module _ (s : Scheme) where
    open s use {cp_share}

    -- The bit that the CSP replies, where the plaintext is one.
    unfoldable pub answer_predicate : List ℕ → Result FrameError Bool
    unfolding parse_predicate
    answer_predicate input = do
      (ciphertext, share) ← parse_predicate input
      require (leb (combined s ciphertext share) 1) not_a_bit
      ok (combined s ciphertext share == 1)

    unfoldable pub reveal_final_predicate : PredicateContext → ℕ → Result FrameError Bool
    unfolding predicate_request answer_predicate
    reveal_final_predicate context encrypted_bit = do
      request ← predicate_request context (encrypted_bit ∷ cp_share encrypted_bit ∷ [])
      answer_predicate request
