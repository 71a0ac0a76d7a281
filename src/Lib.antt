-- ===== src/Lib.antt =====
-- Hash-based blind signatures: a verification library for the C code under kkw/src.
--
-- The scheme. A signer keeps an XMSS key pair. A user commits to a message, the signer signs the
-- digest of the commitment with the next unused leaf, and the user proves knowledge of the
-- signature and of the opening in zero knowledge (KKW, an MPC-in-the-head proof).
--
-- Which file models what:
--   Common (Cond, Lists, Words, Powers, Comp): shared names, lists and machine words over the native
--     numbers. A w-bit word is a number below 2 ^ w, and each operation that can leave the range
--     is followed by `u8`, `u32` or `u64`.
--   Bits: laws of `^`, `&` and `|` on numbers; Width is about single bits of words.
--   Platform: what the sources call and do not define, as a record of parameters: the BLAKE3
--     stream, `getentropy`, `malloc`. `IsDocumented` lists the documented behaviour that some
--     theorems assume; Tests has a platform that behaves so.
--   Hash: blake3_th.c and blake3_keyed_xof.c. A pointer and a length are a `Slice`, where `null`
--     is the NULL pointer. A context is the hasher with the `poisoned` flag.
--   Random: randombytes.c. The state is the number of `getentropy` calls made so far; each
--     call's answer is the platform's. The loop's fuel is the number of bytes asked for, and
--     each round stores at least one.
--   Xmss: xmss.c and xmss.h. Params are the constants; Hashes the tweakable hashes and the
--     chains (`xmss_hash_*`, `xmss_extract_coords`); Wots the one-time signatures (`xmss_wots_*`);
--     Tree the arrays of nodes (`xmss_build_subtree`, `xmss_build_top`, `xmss_climb_upper`);
--     Keypair `struct xmss_keypair` and `xmss_keypair_new_split`; Sign `grind_nonce` and
--     `xmss_keypair_sign`; Verify `xmss_walk_auth_path` and `xmss_verify`; Codec
--     `xmss_write_sig` and `xmss_read_sig`. Xmss/Tree/Spec is the specification: one Merkle tree,
--     as a function of level and index. A key pair is valid when its arrays are parts of it.
--     The search loop of `grind_nonce` has no bound in C, so it takes fuel, and an answer that
--     ran out of fuel is a separate outcome that no theorem takes for a success.
--   Gf128: gf128.c, words as lists of 32-bit limbs. Commitment: commitment.c.
--   Protocol: protocol.c. Signer is key generation and signing, with the leaf counter and the
--     tree that is built at first use; User is the commitment, `kkw_build_schedule` of circuits.c
--     and the witness handed to the prover; Files are the artefact formats; Proofs is the proof
--     of a signature and its verification.
--   Circuit: the MPC gates. Shares are masked words and tapes (`mw`, `mwv`), on any number of
--     parties; Prove is MPC_prove_functions.c, Verify is MPC_verify_functions.c. `s_all` and
--     `s_slots` are lists of rows, a row for each party or slot. Compress is `blake3_compress` of
--     blake3_th.c, Input is blake3_th_mpc.h; Prove and Verify have a Compress and a Hash each, the
--     compression and the hash built of gates. Adder is the arithmetic of the masked carries, and
--     Verify/Add the carry loop of mpc_ADD_verify.
--   Circuit/Engine and Circuit/Views: circuits.c and pooled_chains.inc. An engine is a set of
--     gates with a state; the circuit is written once, as pooled_chains.inc is, and run on the
--     prover's engine and on the verifier's (Views/Evaluate). A byte buffer with the masks' shares
--     is a pair, a step that each share goes through alike is written once (Views/Lanes). `none`
--     stands for a buffer that a refused hash leaves unset; the return value of the hash is not
--     read in circuits.c. Views/Gates counts the gates.
--   Kkw: shared.c, kkw_prove.c and kkw_verify.c. Seeds are the streams, the commitments and the
--     hash of the messages; Challenge is the pseudorandom generator and the Fiat-Shamir challenge;
--     Proof is the file that kkw_prove writes and kkw_verify reads (Parts: what was read, as parts
--     of the file); Verifier is kkw_verify with
--     `compute_aux_from_seeds` (Rows and Rounds: the rows of its instances), Prover is kkw_prove. The rejection loops of the challenge and the
--     grinding loop have no bound in C: they take fuel and return `none` at its end. Memory that
--     C leaves unset is a parameter (`fresh`) or zeros where all of it is written before a read.
--   Tests: a concrete platform and each theorem at a concrete input.
--
-- Conventions. A C function that fills an output buffer returns the buffer's contents; a return
-- code 0 (or -1 in protocol.c) is `none` or a constructor of the function's own result type. An
-- array read out of range gives a default value. Memory is modelled only as far as an allocation
-- can fail: whether it does depends on its size alone, so that signing and verifying get the same
-- answer for the same request. (In C an allocation may fail while verifying only, and
-- `xmss_verify` then rejects.) The signer theorems are about any two seeds; `blind_keygen` draws them.
--
-- What is not modelled: the command line, the benchmark, and the ports in voleith,
-- longfellow and binius64, which implement the same scheme over other proof systems. Progress
-- output, threads and failing writes of a proof file are left out.
pub mod Common
pub mod Bits
pub mod Platform
pub mod Hash
pub mod Random
pub mod Xmss
pub mod Gf128
pub mod Commitment
pub mod Circuit
pub mod Protocol
pub mod Kkw
pub mod Tests
