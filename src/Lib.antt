-- ===== src/Lib.antt =====
-- The anonymous credentials of the ursa library, ursa_Master/libursa/src/cl: Camenisch-Lysyanskaya
-- signatures, the zero-knowledge proofs about them, and the revocation of credentials.
--
-- The parts and how they interact. An Issuer (cl/issuer.rs) generates a key, with a proof that it is
-- well made, and signs a map of attributes, some of which only the Prover knows and sends blinded. It
-- keeps a revocation registry, of which it publishes the accumulator and the deltas. A Prover
-- (cl/prover.rs) turns a signature into a proof in three moves: a first message for each sub proof
-- (`_init_eq_proof`, `_init_ne_proof`), a hash of all the messages and the nonce as the challenge, and
-- the responses (`_finalize_eq_proof`, `_finalize_ne_proof`). A Verifier (cl/verifier.rs) computes the
-- first message back from the responses (`_verify_equality`, `_verify_ne_predicate`) and compares the
-- hash (`verify`).
--
-- The files (paths are those of ursa_Master/libursa/src, without it):
--   Base            names shared by all; Base.Outcome is `UrsaCryptoResult` of errors/mod.rs, with
--                   the outcome `panicked` for a Rust panic; Base.Int the integers that a `BigNumber`
--                   and an `i32` stand for; Base.Sets, Base.Maps and Base.Indices are the hash and
--                   tree sets and maps, as lists about whose order nothing is assumed.
--   Group           commutative groups, powers with integer exponents, products over name sets.
--   Bn              bn/openssl.rs, cl/hash.rs, utils/commitment.rs. The crate's modular operations are
--                   the parameter `OpenSsl`; `Residues` says what it documents of them: on the
--                   residues that have an inverse they are a group's operations.
--   Cl.Types        the data of cl/mod.rs and the constants of cl/constants.rs.
--   Cl.Rand         `bn_rand`, `get_mtilde`; the generator is a parameter, the numbers to be drawn.
--   Cl.Teq, Cl.Tne  `calc_teq` and `calc_tne` of cl/helpers.rs and what they compute.
--   Cl.Credential   what a signature on attributes is, and when key, schemas and request agree.
--   Cl.Equality     the equality proof: Init, Defs (finalize and verify), Messages, Complete.
--   Cl.Predicate    `Predicate::get_delta`, `get_delta_prime`, `is_less`; an `i32` wraps around, as it
--                   does in a release build.
--   Cl.FourSquares  `four_squares`: the nested loops over one array of roots, left by `break 'outer`.
--   Cl.Inequality   the inequality proof: Init, Finalize, Verify, and Honest, Algebra, Entries and
--                   Complete for the proof that an honest run is accepted.
--   Cl.Revocation   Delta (`RevocationRegistryDelta`, `merge`), Tails (the generator and the
--                   accessor), Issue (the issuer's changes of the accumulator), Witness; Registry
--                   has the relation of the runs of an issuer's calls, Runs its invariant.
--   Cl.Builder      the primary proof of a sub proof: Primary (`_init_primary_proof`,
--                   `_finalize_primary_proof`, the lists that are hashed), Checked, Complete; Session
--                   is `ProofBuilder`, Honest, Answers and Accepted an honest run of it, Failed what
--                   a failed call leaves.
--   Cl.Inputs       the builders of schemas, values and requests; Values and Request say what any
--                   calls of them build.
--   Cl.Range        `bn_rand_range`, `gen_x`, `random_qr`, `generate_prime_in_range`; Search.
--   Cl.Keys         the issuer's primary key, the proof that it is well made, and its check.
--   Cl.Blind        the prover's blinded secrets, the proof about them, and the issuer's check.
--   Cl.Sign         `sign_credential` and `process_credential_signature`; Context is the credential
--                   context, Bits `generate_v_prime_prime` and its bitwise or, Signed what the issuer's root is, Correct
--                   its proof and the prover's check, Complete the issuance under a key.
--   Cl.Issuance     `new_credential_def` and `blind_credential_secrets`; Complete puts issuance
--                   together, from the generation of the key on.
--   Cl.Verifier     `ProofVerifier`: State (the map that `&mut self` changes, also on an error),
--                   Checks, Verify, and Common and Accepted for what an accepted proof satisfies.
--   Examples        concrete parameters and inputs, and the theorems applied to them.
--
-- Bounds and fuel. `SimpleTailsAccessor::new` loops while the generator has tails: it is given one round
-- for each and one for the end, which its theorem shows to be enough. The search for
-- a prime has no bound in the source: it is given rounds, and its theorem says how many it needs for
-- the numbers that are drawn. The registry's theorems ask that
-- 2 * max_cred_num + 1 is below 2^32, so that no index wraps around. Its runs revoke valid indices only, and issue or
-- recover only those that are not valid: the source leaves this to the caller. All other loops are over lists
-- or count down.
--
-- Not modelled: the pairing-based signature and proof of non-revocation (their first message, their
-- responses and their check are parameters of the builder and of `verify`) and the revocation key; the
-- C and WebAssembly interfaces; the curve library's wrapper (pair/amcl.rs), whose points are a
-- parameter with the laws of a commutative group; other signature schemes (bls, signatures) and
-- libzmix; serialisation and logging, which change no result.
pub mod Base
pub mod Group
pub mod Bn
pub mod Cl
pub mod Examples
