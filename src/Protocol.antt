-- ===== src/Protocol.antt =====
-- kkw/src/protocol.c: the signer, the user and the files.
pub mod Signer
pub mod User
pub mod Files
pub mod Proofs
