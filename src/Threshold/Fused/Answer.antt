-- ===== src/Threshold/Fused/Answer.antt =====
-- The exchange of both frames of a fused predicate, and what the CSP answers.
use soci_sgx_sdk.Threshold.Scheme.{Scheme}
