-- ===== src/Lib.antt =====
-- A verification library for the crate `pardosa` (crates/pardosa), a storage layer in which the
-- history of each entity is a fiber: a chain of immutable events, interleaved with the other fibers
-- of a store into one append-only file.
--
-- The parts of the program and the modules of the library:
--
-- - Failure: `Result` and `?`, and the error types of crates/pardosa/src/encoding.rs and
--   crates/pardosa/src/store.rs.
-- - Encoding.Envelope: the event envelope of crates/pardosa/src/encoding.rs (`EnvelopeHeader`,
--   `EventEnvelope`, `WireEnvelope`, `compute_envelope_commitment`, `genesis`, `chain`).
-- - Fiber.State: `FiberState::apply_action` of crates/pardosa/src/store.rs. Fiber.Handle: the
--   handle of one fiber with `append`, `detach` and `rescue`, and `from_envelopes`, of
--   crates/pardosa/src/store/fiber_handle.rs; the handle mints the envelopes of Encoding.Envelope.
-- - Session: `SessionIndex` of crates/pardosa/src/store/session_index.rs, the tips of all fibers of
--   a store; it validates an envelope against the tip, commits it, and gives the handle of a fiber.
--   Session.Recovery rebuilds it from the frames of a file.
-- - Container: the container file of crates/pardosa/src/file.rs, with its header, its frames (whose
--   payloads are encoded envelopes) and the scan that recovers the frames after a crash.
-- - Ownership: the claims on an artefact with their epochs, and the creation protocol, of
--   crates/pardosa/src/store.rs; the record types of crates/pardosa/src/encoding.rs and their codec
--   (`OwnershipRecord::encode` and `decode`).
-- - Store.Engine: the trait `StorageEngine` of crates/pardosa/src/store/engine.rs as a record of
--   operations, its default methods, and as IsFaithful what the pipeline relies on. Store.Pipeline:
--   the `Store` of crates/pardosa/src/store/pipeline.rs over any engine; it recovers a
--   Session from the frames of the engine, admits frames and events by it, and follows the verdicts
--   of the engine.
-- - File: the files of an artefact, of crates/pardosa/src/file.rs. File.System is what it uses of the
--   operating system, an interface; File.Meta the log of ownership records in a `.meta`
--   (`read_meta_records`, `append_meta_record_impl`); File.Engine the `FileEngine`, an engine for
--   Store.Pipeline over a Container.
-- - Artefact: what opening an artefact reports, the boundary of a reopened store, the admission of
--   an event and of its link to a precursor, and the reader of a stream of events
--   (`ArtefactReader`), of crates/pardosa/src/store.rs.
-- - Prelude: numbers, lists, bytes, dictionaries and the fixed-width arithmetic that the others
--   share. Examples: concrete data, tests, and the theorems at concrete inputs.
--
-- How the model stands to the code. A number is a natural number, and the wrap, the check or the
-- saturation of an addition is written out; `usize` has 64 bits. A byte array is a list of numbers:
-- an identifier has 16, a hash 32, which the predicate `IsSized` says where a theorem needs it. A
-- string is its bytes, a message a literal; where the source formats a message the model keeps the
-- format string, and the `source` of an error is left out. A method that takes `&mut self` returns
-- its result and the state after it. A `HashMap` is an association list and a `HashSet` a list
-- without repeats. BLAKE3 and CRC32C are functions that the definitions take as parameters; the
-- theorems assume nothing of the hash, and of the checksum at most that it fits 32 bits. The lookup
-- of a precursor is a parameter too.
--
-- Loops over lists are recursions over the list. The loop of the scan of a container is a recursion
-- on fuel, one more than the length of the file: every round that goes on moves the cursor forward.
-- The default recovery loop of an engine is on fuel too: each of its rounds but the last goes on by a
-- chunk of one frame or more, so one more round than there are frames is enough.
--
-- The operating system's files are the parameter FileSystem, whose calls may fail; the theorems that
-- need something of them take the record IsDocumented, and for the log AppendsToMeta. A disk is
-- healthy while seeking and reading do not fail; writing and syncing may always fail.
--
-- Not modelled: the reading methods of the pipeline (`read_all_envelopes`, `for_each_envelope` and
-- their like), the creation and opening of artefacts by `FileStorageAdapter`, migration, the codec of event
-- values, schema descriptors (the decoder of a descriptor is a parameter where the log reads one),
-- the derive macro and the NATS adapter.
mod Prelude
pub mod Failure
pub mod Encoding
pub mod Fiber
pub mod Session
pub mod Container
pub mod Ownership
pub mod Store
pub mod File
pub mod Artefact
mod Examples
