-- ===== src/Lib.antt =====
-- Verification library of the SOCI SGX SDK, a threshold Paillier SDK with confidential optimizers.
--
-- The program chooses one of three methods for each row of a cost matrix, at the least total cost,
-- under the constraint that the methods 1 and 2 carry at least a share T of the cost and method 3
-- a positive part.
--
-- Files and what they model (paths from the repository's root):
--   Text            what the C++ code uses of std::string, <cctype>, std::to_string, std::stoll
--   Fixed           src/fixed_point.hpp: parse_fixed_point and its steps, validate_aggregate
--   Exact           src/optimization.cpp: encode, Solver (suffix tables, better_tie, visit), solve,
--                   optimize_plain; the loop over a row's methods is a recursion on the methods
--                   that the row offers
--   Secure          src/secure_ops.cpp and include/soci/secure_ops.hpp: the abstract methods as an
--                   interface with laws about decrypted values, the derived operations as
--                   definitions; Secure/Plain is an instance of it
--   Predicate       src/predicate_engine.cpp: the two circuits over that interface, the validation,
--                   the authorization and the replay set. The state after a call is a value; the
--                   caller's authorizer, resolver and fused backend are parameters
--   Encrypted       src/encrypted_branch_bound.cpp: the request checks; Encrypted/Tables has what is
--                   prepared before the search, Encrypted/Search the search, Encrypted/Solve the
--                   solver around it and the facade
--   Lagrangian      src/lagrangian_relaxation.cpp: ceilLog2 and the bit counts, maximumMu,
--                   deriveLagrangianNumericBounds; Lagrangian/Grid has buildLagrangianGrid
--   Wire            src/protocol/threshold_wire.cpp and src/ciphertext_codec.hpp: words, integers and
--                   canonical ciphertexts as bytes; Wire/Plain is an instance of what GMP documents
--   Threshold       src/protocol/threshold_protocol.cpp, the protocol between the computing party (CP)
--                   and the crypto service provider (CSP), by child modules: Circuit
--                   (predicateCircuit), Labels and Garble (garblePredicate and its evaluation),
--                   Transfer (the oblivious transfer), Scheme (paillierEncrypt, ciphertextPower),
--                   Server (the requests D, M and C), Multiply (secureMultiply), Compare
--                   (greaterThan), Fused (the requests F and G, fusedPredicate; Fused/Session has
--                   their sequences), Backend (fusedPruneNode, fusedAcceptCandidate), Signed
--                   (decryptForTesting), Frame (the bytes of the request P, revealFinalPredicate),
--                   Domain (the constructor of ThresholdSecureOps), Batch (the batch operations and
--                   the request B), Workers (the threads of paillierEncryptBatch); Threshold/Plain is
--                   a key that runs
--   Enclave         trusted/common/enclave_core.c: the shares of a decryption and their combination.
--                   A ThresholdKey is an instance of the interface Scheme of Threshold
--
-- Numbers: int64_t and __int128 are integers without a bound, and Exact/Range is about the bounds that
-- keep them from overflowing. The loops are structural, but for the OR tree, which has the size of
-- its layer as fuel (a round at least removes one bit), the
-- loop of ceilLog2, which has its own limit of 127 doublings, and the binary search of maximumMu,
-- which has 63 steps for an interval below 2 ^ 63. Strings are lists of byte values.
--
-- A node counter is a number without a bound. ceilLog2 of the protocol shifts a size of 64 bits, with
-- 64 steps as fuel.
--
-- What is drawn at random (nonces, masks, orientations, labels, keys) is an argument of the operation
-- that draws it, and stands for the draw that ends the loop around it. SHA-256, GMP's powers,
-- inverses and byte conversions, and OpenSSL's RSA key are parameters: Scheme, Gmp and Rsa have what
-- they document as laws. The requests F, G and B are modelled over the contents of their frames,
-- the request P over its bytes; a request that the CSP rejects closes the connection and drops what is
-- pending.
--
-- Not modelled: key generation and sealing, sockets, SGX calls and timings, a failure in an
-- encrypting thread, the failures and the randomness of a backend,
-- double results (numerator and denominator instead), and the files that do not stand above.
pub mod Prelude
pub mod Text
pub mod Fixed
pub mod Exact
pub mod Secure
pub mod Predicate
pub mod Lagrangian
pub mod Wire
pub mod Enclave
pub mod Threshold
pub mod Encrypted
