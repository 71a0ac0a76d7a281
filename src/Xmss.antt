-- ===== src/Xmss.antt =====
-- kkw/src/xmss.h and kkw/src/xmss.c: target-sum WOTS+ and XMSS.
pub mod Params
pub mod Hashes
pub mod Wots
pub mod Tree
pub mod Keypair
pub mod Sign
pub mod Verify
pub mod Codec
