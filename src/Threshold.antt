-- ===== src/Threshold.antt =====
-- src/protocol/threshold_protocol.cpp: the two-party protocol between the computing party (CP) and
-- the crypto service provider (CSP).
pub mod Circuit
pub mod Labels
pub mod Garble
pub mod Transfer
pub mod Scheme
pub mod Plain
pub mod Sample
mod Examples
pub mod Server
pub mod Multiply
pub mod Compare
pub mod Fused
pub mod Domain
pub mod Frame
pub mod Signed
pub mod Backend
pub mod Batch
pub mod Workers
