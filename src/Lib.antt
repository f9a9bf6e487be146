-- ===== src/Lib.antt =====
-- TrackOne: verification of the ledger, its producer in the gateway, the evidence verifier, frame
-- admission and the frames of a pod.
--
-- Pods send encrypted frames. A gateway admits a frame (crates/trackone-ingest), keeps a replay
-- window per device, and commits the admitted facts in segments of a verifiable telemetry ledger
-- (crates/trackone-ledger, "VTL"). A verifier (apps/trackone-evidence) re-computes the commitment and
-- follows the chain of segments.
--
-- Parts, and the code that each one models:
-- - Prelude: machine words, big-endian bytes, UTF-8, byte strings, `Result`, and lists measured by
--   native numbers.
-- - Core.Types: crates/trackone-core/src/types.rs, facts and their validation (`EnvFact::validate` is
--   `validate_env`, `Fact::validate` is `validate_fact`).
-- - Ledger.Vtl: crates/trackone-ledger/src/vtl.rs. Policy is `ClosurePolicy`; Cbor is the deterministic
--   encoder and `parse_cbor_value`; Segment is `SegmentRecord` with `validate_detailed` and
--   `canonical_cbor_bytes`; Decode is `decode_segment_record` (`take` is `take_value`); Chain is
--   `new_epoch` and `new_successor`; Record is `validate_canonical_record`. Merkle is vtl/merkle.rs.
-- - Ledger.Hex and Ledger.Floats: the hex texts of crates/trackone-ledger/src/lib.rs, and the shortest
--   encoding of a float in c_cbor.rs.
-- - Gateway.Producer: apps/trackone-gateway-svc/src/producer.rs. Construct is `construct_segment`,
--   Expiry `close_expired`, Admit the loop of `admit_batch_inner`, Deltas `record_deltas`, Runs
--   `admission_runs`, Store the trait `LedgerStore` and `MemoryLedgerStore`, Monad the producer and its
--   clock, Commit `safe_now` and `commit`, Control the methods that close, recover, reactivate and
--   reconfigure, Batch the admissions, Start `open_or_create`.
-- - Gateway.TimestampWorker: timestamp_worker.rs of the same service, its configuration and retry
--   delays.
-- - Evidence: apps/trackone-evidence/src/vtl/chain.rs (`validate_chain`) and result.rs
--   (`Conclusions`).
-- - Ingest: crates/trackone-ingest/src. Replay is replay.rs, Nonce, Aad and Frame the files of these
--   names, Admission is admission.rs and profile.rs, Audit the rejection records of admission.rs, and
--   Fixture is fixture.rs.
-- - Pod: crates/trackone-pod-fw/src. Nonce is nonce.rs and Emit is pod.rs.
-- - Examples: concrete inputs.
--
-- A byte string, a text and an array of bytes are lists of numbers. A reader's position and budget are
-- the rest of its input and a number. Mutation is explicit: `check_and_update` returns the window that
-- the call leaves, `validate_chain` the conclusions. A `BTreeSet` is its ascending list, except for
-- the failures of `Conclusions`, a list without repetition in the order of insertion.
--
-- The producer calls the ledger library on every seal: `construct_segment` builds its segment with
-- `new_epoch` or `new_successor` and stores the canonical artifact, which the next seal decodes. A
-- method of the producer takes the producer and the clock's answers and returns a result with the
-- producer behind it, on an error too; the store is any implementation of the record `LedgerStore`.
--
-- Parameters: SHA-256 (`sha256`), postcard (`Postcard`), XChaCha20-Poly1305 (`Aead`, `Sealing`) and the
-- tests of `f32` (`FloatTests`). A theorem that needs more of them says so among its hypotheses.
--
-- Fuel: the tree hash and the composition of batch roots recurse on 64 levels, one for each bit of a
-- 64-bit leaf count, and each split halves the count. The parser's levels are 33 less the depth, from
-- the nesting bound of 32. The chunks of a list take its length. The rounds
-- of `close_expired` are one more than the milliseconds since the interval was opened.
--
-- Not modelled: the permissive reader of vtl.rs, the failure of memory allocation, the first ledger
-- version but for its hex texts, archives and remote evidence, the gateway's database, HTTP and metrics,
-- the event counters of the producer, the firmware but for its frames, time stamps, and the
-- SensorThings projection.
pub mod Prelude
pub mod Ledger
pub mod Evidence
pub mod Ingest
pub mod Core
pub mod Examples
pub mod Gateway
pub mod Pod
