-- ===== src/Store/Pipeline.antt =====
-- The pipeline `Store` of crates/pardosa/src/store/pipeline.rs over any storage engine. BLAKE3 and
-- CRC32C are parameters. Of the diagnostic of an uncertain session only its text is kept.
pub mod Admission
pub mod Reopen
pub mod Runs
pub mod Uncertain
pub mod Landing
pub mod Discovery
use pardosa.Prelude.Bytes.{Bytes}
use pardosa.Prelude.Words.{u32_max, is_some}
use pardosa.Prelude.{
  ℕ, String, Bool, true, false, not, ◌||◌, Option, none, some, List, [], ◌∷◌, ltb, ◌==◌, length,
}
use pardosa.Failure.{
  Result, ◌>>=◌, ◌>>◌, refuse_if, map_err, FailureCondition, OperationFailure, failure,
  too_long_failure, chain_failure, ok, err, ownership_record_unreadable, DecodeError,
}
use pardosa.Encoding.Envelope
use pardosa.Encoding.Envelope.{EventEnvelope, WireEnvelope, bounded, encode_wire}
use pardosa.Container.Frame.{try_encode_payload, EncodeError}
use pardosa.Container.Scan.{RollingCommitment, update_frame, new_commitment}
use pardosa.Fiber.Handle.{FiberHandle, Outcome}
use pardosa.Fiber.Handle
use pardosa.Session
use pardosa.Session.{
  SessionIndex, FiberSlot, active, broken, validate_append, commit_envelope_unchecked,
  mismatch_failure, is_broken,
}
use pardosa.Session.Recovery.{process_frame}
use pardosa.Store.Engine.{StorageEngine, WriteLandingVerdict, landed, undetermined, Callback, Visit}

-- `SessionIndex::has_broken_fibers`.
unfoldable pub has_broken_slot : List (Bytes × FiberSlot) → Bool
has_broken_slot [] = false
has_broken_slot ((k, slot) ∷ m) = is_broken (some slot) || has_broken_slot m

unfoldable pub has_broken_fibers : SessionIndex → Bool
unfolding has_broken_slot
has_broken_fibers s = has_broken_slot s.fibers

pub record Store (E : StorageEngine) : Type 0 where
  pub engine : E.State
  pub rolling_commitment : RollingCommitment
  pub fiber_index : SessionIndex
  pub broken_reader_cause : Option FailureCondition
  pub uncertain : Bool
  pub uncertain_diagnostic : Option String

abbrev pub reader_failure : FailureCondition → OperationFailure
reader_failure cause =
    failure cause "reader session retained broken state; point lookups unavailable"

-- The captured variables of the callback of `open_writer`.
abbrev pub Recovered : Type 0
Recovered = RollingCommitment × SessionIndex

abbrev pub nothing_recovered : Recovered
nothing_recovered = (new_commitment, Session.new)

abbrev pub uncertain_failure : OperationFailure
uncertain_failure =
    failure ownership_record_unreadable
      "writer session in uncertain state; reconciliation required: {diag}"

module _ (crc32c : Bytes → ℕ) (blake3 : Bytes → Bytes) where
  -- `ContainerFrame::encode_payload`, with the error of the pipeline's callbacks.
  abbrev pub encode_block : Bytes → Result OperationFailure Bytes
  encode_block frame =
      map_err (λ _. chain_failure "frame encoding failed: {err}")
        (try_encode_payload crc32c frame [])

  -- What the callback does with the bytes of the frame's container frame.
  abbrev pub after_encoding :
      Bytes
      → Recovered
      → Result OperationFailure Bytes
      → Result OperationFailure (Unit {0}) × Recovered
  after_encoding frame recovered (err e) = (err e, recovered)
  after_encoding frame (rolling, index) (ok frame_buf) =
      let (r, index') = process_frame blake3 index frame in
      (r, (update_frame rolling frame_buf, index'))

  -- The callback of `open_writer`.
  unfoldable pub on_recovered : Callback Recovered
  on_recovered seq frame recovered = after_encoding frame recovered (encode_block frame)

  module _ (E : StorageEngine) where
    -- What `open_writer` returns after `recover_frames`.
    abbrev pub after_recovery :
        Visit Recovered × E.State → Result OperationFailure (Store E) × E.State
    after_recovery ((err e, _), engine) = (err e, engine)
    after_recovery ((ok _, (rolling, index)), engine) = (
      ok (record {
        engine = engine;
        rolling_commitment = rolling;
        fiber_index = index;
        broken_reader_cause = none;
        uncertain = false;
        uncertain_diagnostic = none;
      }),
      engine,
    )

    -- `Store::open_writer`; the engine comes back beside an error.
    unfoldable pub open_writer : E.State → Result OperationFailure (Store E) × E.State
    unfolding on_recovered
    open_writer engine =
        after_recovery (E.recover_frames Recovered 64 on_recovered nothing_recovered engine)

    -- The test of `check_session_authority`, `fiber` and `get_latest`.
    unfoldable pub is_uncertain : Store E → Bool
    is_uncertain s = s.uncertain || is_some (E.uncertain_diagnostic s.engine)

    unfoldable pub check_session_authority : Store E → Result OperationFailure (Unit {0})
    unfolding is_uncertain
    check_session_authority s = do
      refuse_if (is_uncertain s) uncertain_failure
      E.check_authority s.engine

    -- `broken_reader_cause`, which refuses the lookups.
    unfoldable pub check_reader : Store E → Result OperationFailure (Unit {0})
    check_reader s = elim (s.broken_reader_cause) [
      | none ↦ ok tt
      | some cause ↦ err (reader_failure cause)
    ]

    -- `Store::fiber`.
    unfoldable pub fiber : Store E → Bytes → Result OperationFailure FiberHandle
    unfolding is_uncertain check_reader
    fiber s fiber_id = do
      refuse_if (is_uncertain s) uncertain_failure
      check_reader s
      Session.fiber blake3 s.fiber_index fiber_id

    -- `Store::get_latest`.
    unfoldable pub get_latest : Store E → Bytes → Result OperationFailure (Option EventEnvelope)
    unfolding is_uncertain check_reader
    get_latest s fiber_id = do
      refuse_if (is_uncertain s) uncertain_failure
      check_reader s
      Session.get_latest s.fiber_index fiber_id

    -- The tests of `append_frame_verdict`, up to the encoding of the block.
    unfoldable pub admit_frame : Store E → Bytes → Result OperationFailure (EventEnvelope × Bytes)
    unfolding check_session_authority
    admit_frame s payload = do
      refuse_if (ltb u32_max (length payload))
          (too_long_failure "payload exceeds maximum container frame length (u32::MAX)")
      check_session_authority s
      refuse_if (ltb (length payload) 85)
          (mismatch_failure "payload too short for event envelope: {}")
      (env, consumed) ←
          map_err (λ _. mismatch_failure "failed to decode envelope: {err}")
            (Envelope.decode payload)
      refuse_if (not (consumed == length payload)) (mismatch_failure "frame decode error: {}")
      validate_append blake3 s.fiber_index env
      frame_buf ←
          map_err (λ _. too_long_failure "frame encoding failed: {err}")
            (try_encode_payload crc32c payload [])
      ok (env, frame_buf)

    -- What `append_frame_verdict` does with the engine's verdict.
    unfoldable pub after_append :
        Store E
        → EventEnvelope
        → Bytes
        → Result OperationFailure (WriteLandingVerdict ℕ) × E.State
        → Result OperationFailure (WriteLandingVerdict ℕ) × Store E
    after_append s env frame_buf (err e, engine) = (err e, record s { engine = engine })
    after_append s env frame_buf (ok (landed _), engine) =
        let rolling = update_frame s.rolling_commitment frame_buf in
        (
          ok (landed rolling.frame_count),
          record s {
            engine = engine;
            rolling_commitment = rolling;
            fiber_index = commit_envelope_unchecked s.fiber_index env;
          },
        )
    after_append s env frame_buf (ok (undetermined epoch), engine) = (
      ok (undetermined epoch),
      record s {
        engine = engine;
        uncertain = true;
        uncertain_diagnostic = elim (E.uncertain_diagnostic engine) [
          | some diag ↦ some diag
          | none ↦
              some
                "writer session in uncertain state; reconciliation required: write landing undetermined for carried epoch {carried_epoch} per C5.16"
        ];
      },
    )

    -- `append_frame_verdict` after its tests.
    unfoldable pub after_admission :
        Store E
        → Result OperationFailure (EventEnvelope × Bytes)
        → Result OperationFailure (WriteLandingVerdict ℕ) × Store E
    unfolding after_append
    after_admission s (err e) = (err e, s)
    after_admission s (ok (env, frame_buf)) =
        after_append s env frame_buf (E.append_block frame_buf s.engine)

    -- `Store::append_frame_verdict`.
    unfoldable pub append_frame_verdict :
        Store E → Bytes → Result OperationFailure (WriteLandingVerdict ℕ) × Store E
    unfolding admit_frame after_admission
    append_frame_verdict s payload = after_admission s (admit_frame s payload)

    -- `append_envelope_verdict` after the test of its size.
    unfoldable pub after_bound :
        Store E
        → Result DecodeError WireEnvelope
        → Result OperationFailure (WriteLandingVerdict ℕ) × Store E
    unfolding append_frame_verdict
    after_bound s (err e) = (err (too_long_failure "event envelope exceeds frame wire limit"), s)
    after_bound s (ok wire) = append_frame_verdict s (encode_wire wire [])

    -- `Store::append_envelope_verdict`.
    unfoldable pub append_envelope_verdict :
        Store E → EventEnvelope → Result OperationFailure (WriteLandingVerdict ℕ) × Store E
    unfolding after_bound
    append_envelope_verdict s envelope = after_bound s (bounded envelope u32_max)

    -- The verdict of `append_to_fiber` and its like: an envelope where the frame landed.
    abbrev pub with_envelope :
        EventEnvelope
        → Result OperationFailure (WriteLandingVerdict ℕ) × Store E
        → Result OperationFailure (WriteLandingVerdict EventEnvelope) × Store E
    with_envelope env (ok (landed _), s) = (ok (landed env), s)
    with_envelope env (ok (undetermined epoch), s) = (ok (undetermined epoch), s)
    with_envelope env (err e, s) = (err e, s)

    -- What `append_to_fiber`, `detach_fiber` and `rescue_fiber` share: they differ in the method of
    -- the handle.
    unfoldable pub mint :
        (FiberHandle → Bytes → Bytes → Outcome)
        → Store E
        → Bytes
        → Bytes
        → Bytes
        → Result OperationFailure EventEnvelope
    unfolding check_session_authority fiber
    mint method s fiber_id event_id payload = do
      check_session_authority s
      handle ← fiber s fiber_id
      (method handle event_id payload).0

    -- What follows the minting of the event.
    unfoldable pub after_mint :
        Store E
        → Result OperationFailure EventEnvelope
        → Result OperationFailure (WriteLandingVerdict EventEnvelope) × Store E
    unfolding append_envelope_verdict
    after_mint s (err e) = (err e, s)
    after_mint s (ok env) = with_envelope env (append_envelope_verdict s env)

    unfoldable pub write_event :
        (FiberHandle → Bytes → Bytes → Outcome)
        → Store E
        → Bytes
        → Bytes
        → Bytes
        → Result OperationFailure (WriteLandingVerdict EventEnvelope) × Store E
    unfolding mint after_mint
    write_event method s fiber_id event_id payload =
        after_mint s (mint method s fiber_id event_id payload)

    unfoldable pub append_to_fiber :
        Store E
        → Bytes
        → Bytes
        → Bytes
        → Result OperationFailure (WriteLandingVerdict EventEnvelope) × Store E
    unfolding write_event
    append_to_fiber = write_event (Handle.append blake3)

    unfoldable pub detach_fiber :
        Store E
        → Bytes
        → Bytes
        → Bytes
        → Result OperationFailure (WriteLandingVerdict EventEnvelope) × Store E
    unfolding write_event
    detach_fiber = write_event (Handle.detach blake3)

    unfoldable pub rescue_fiber :
        Store E
        → Bytes
        → Bytes
        → Bytes
        → Result OperationFailure (WriteLandingVerdict EventEnvelope) × Store E
    unfolding write_event
    rescue_fiber = write_event (Handle.rescue blake3)
