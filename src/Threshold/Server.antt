-- ===== src/Threshold/Server.antt =====
-- The plain requests of the CSP loop: `D` decrypts, `M` multiplies two packed operands and `C`
-- compares with half of the modulus. A request is its operation and its integers; the nonce is
-- the one that the CSP's encryption draws.
use soci_sgx_sdk.Prelude.{
  ℕ, ◌*◌, ◌/◌, ◌%◌, List, [], ◌∷◌, Result, ok, err, ltb, leb, ◌==◌, if◌then◌else◌,
}
use soci_sgx_sdk.Prelude.Int.{pos}
use soci_sgx_sdk.Threshold.Scheme.{
  Scheme, ProtocolError, bad_packing_base, bad_request, paillier_encrypt,
}

module _ (s : Scheme) where
  open s use {modulus, csp_share, combine}

  -- `combineDecrypt` of the share that was sent and of the CSP's own.
  abbrev pub combined : ℕ → ℕ → ℕ
  combined ciphertext share = combine share (csp_share ciphertext)

  unfoldable pub answer_decrypt : List ℕ → Result ProtocolError ℕ
  answer_decrypt (ciphertext ∷ share ∷ []) = ok (combined ciphertext share)
  answer_decrypt _ = err bad_request

  unfoldable pub answer_multiply : List ℕ → ℕ → Result ProtocolError ℕ
  answer_multiply (ciphertext ∷ share ∷ base ∷ []) nonce =
      if leb base 1
      then err bad_packing_base
      else let plaintext = combined ciphertext share in
        let masked_a = plaintext / base in
        let masked_b = plaintext % base in ok (paillier_encrypt s (pos (masked_a * masked_b)) nonce)
  answer_multiply _ nonce = err bad_request

  unfoldable pub answer_compare : List ℕ → ℕ → Result ProtocolError ℕ
  answer_compare (ciphertext ∷ share ∷ []) nonce =
      let difference = combined ciphertext share in
      ok (paillier_encrypt s (pos (if ltb (modulus / 2) difference then 0 else 1)) nonce)
  answer_compare _ nonce = err bad_request

  unfoldable pub answer : ℕ → List ℕ → ℕ → Result ProtocolError ℕ
  unfolding answer_decrypt answer_multiply answer_compare
  answer operation values nonce =
      if operation == b'D'
      then answer_decrypt values
      else if operation == b'M'
      then answer_multiply values nonce
      else if operation == b'C'
      then answer_compare values nonce
      else err bad_request
