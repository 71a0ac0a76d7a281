-- ===== src/Kkw.antt =====
-- The KKW proof: what its prover and verifier share (kkw/src/shared.c), the proof file, and the two
-- programs (kkw/src/kkw_prove.c, kkw/src/kkw_verify.c).
pub mod Seeds
pub mod Challenge
pub mod Proof
pub mod Verifier
pub mod Prover
