-- ===== src/Circuit.antt =====
-- The MPC circuit: the gates, the prover's on all shares and the verifier's on all but one, and the
-- circuit that is built of them.
pub mod Shares
pub mod Input
pub mod Compress
pub mod Adder
pub mod Prove
pub mod Verify
pub mod Engine
pub mod Views
