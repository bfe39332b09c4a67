-- ===== src/Session.antt =====
-- The session index of crates/pardosa/src/store/session_index.rs: the tip and the event count of
-- every fiber of a store, and the event identifiers seen. BLAKE3 is a parameter. A method that takes
-- `&mut self` returns the index after it, and its result where it has one. Of a detail that the
-- source formats, the format string is kept.
pub mod Recovery
pub mod Refinement
pub mod Invariant
use pardosa.Prelude.Words.{wrapping_add}
use pardosa.Failure.{
  Result, ◌>>=◌, ◌>>◌, refuse_if, map_err, OperationFailure, failure, too_long_failure,
  chain_failure, ok, err, empty, envelope_mismatch, invariant_breaking_configuration,
  FailureCondition,
}
use pardosa.Prelude.{
  ℕ, ◌+◌, String, Bool, true, false, not, ◌&&◌, ◌||◌, Option, none, some, List, [], leb, ◌==◌,
  if◌then◌else◌, length,
}
use pardosa.Prelude.Bytes.{Bytes, bytes_eq}
use pardosa.Prelude.Dict
use pardosa.Encoding.Envelope
use pardosa.Encoding.Envelope.{EventEnvelope, commitment}
use pardosa.Encoding.Envelope.Header.{zero_id, zero_hash}
use pardosa.Fiber.State.{FiberState, defined, detached}
use pardosa.Fiber.Handle.{FiberHandle, max_events_per_fiber}
use pardosa.Fiber.Handle as Handle

abbrev pub max_active_fibers : ℕ
max_active_fibers = 100000

pub record FiberTip : Type 0 where
  pub envelope : EventEnvelope
  pub event_count : ℕ

-- The text `reason` of a broken slot is for display alone and is not kept.
pub data FiberSlot : Type 0 where
  active : FiberTip → FiberSlot
  broken : (event_count : ℕ) → FiberSlot

pub record SessionIndex : Type 0 where
  pub fibers : List (Bytes × FiberSlot)
  pub seen_event_ids : List Bytes
  pub revision : ℕ
  pub has_raw_frames : Bool

-- `SessionIndex::new`.
unfoldable pub new : SessionIndex
new = record { fibers = []; seen_event_ids = []; revision = 0; has_raw_frames = false }

-- `SessionIndex::mark_has_raw_frames`.
unfoldable pub mark_has_raw_frames : SessionIndex → SessionIndex
mark_has_raw_frames s = record s { has_raw_frames = true; revision = wrapping_add s.revision 1 }

abbrev is_unknown : Option FiberSlot → Bool
is_unknown none = true
is_unknown (some slot) = false

abbrev pub slot_count : Option FiberSlot → ℕ
slot_count (some (active tip)) = tip.event_count
slot_count (some (broken event_count)) = event_count
slot_count none = 0

-- `SessionIndex::mark_fiber_broken`.
unfoldable pub mark_fiber_broken : SessionIndex → Bytes → Result OperationFailure SessionIndex
mark_fiber_broken s fiber_id = do
  refuse_if (is_unknown (Dict.get fiber_id s.fibers) && leb max_active_fibers (length s.fibers))
      (too_long_failure "active tracked fibers capacity exceeded (MAX_ACTIVE_FIBERS)")
  let event_count = slot_count (Dict.get fiber_id s.fibers)
  ok (record s {
    fibers = Dict.insert fiber_id (broken event_count) s.fibers;
    revision = wrapping_add s.revision 1;
  })

abbrev pub is_broken : Option FiberSlot → Bool
is_broken (some (broken _)) = true
is_broken (some (active _)) = false
is_broken none = false

abbrev pub mismatch_failure : String → OperationFailure
mismatch_failure = failure envelope_mismatch

abbrev raw_frames_failure : OperationFailure
raw_frames_failure =
    mismatch_failure "session contains unindexed raw frames; point lookup unavailable"

-- `SessionIndex::get_latest`.
unfoldable pub get_latest : SessionIndex → Bytes → Result OperationFailure (Option EventEnvelope)
get_latest s fiber_id =
    if s.has_raw_frames then err raw_frames_failure else elim (Dict.get fiber_id s.fibers) [
      | some (active tip) ↦ ok (some tip.envelope)
      | some (broken _) ↦ err (chain_failure "cannot get latest envelope on broken fiber")
      | none ↦ ok none
    ]

-- `SessionIndex::event_count`.
unfoldable pub event_count : SessionIndex → Bytes → Result OperationFailure ℕ
event_count s fiber_id =
    if s.has_raw_frames then err raw_frames_failure else elim (Dict.get fiber_id s.fibers) [
      | some (active tip) ↦ ok tip.event_count
      | some (broken _) ↦ err (chain_failure "cannot query event count on broken fiber")
      | none ↦ ok 0
    ]

-- `if tip.envelope.header.detached { Detached } else { Defined }`.
abbrev pub tip_state : EventEnvelope → FiberState
tip_state envelope = if envelope.header.detached then detached else defined

-- `MAX_ACTIVE_FIBERS * MAX_EVENTS_PER_FIBER`, which does not saturate.
abbrev pub max_seen_events : ℕ
max_seen_events = 10000000000

module _ (blake3 : Bytes → Bytes) where
  -- `SessionIndex::fiber`.
  unfoldable pub fiber : SessionIndex → Bytes → Result OperationFailure FiberHandle
  fiber s fiber_id =
      if s.has_raw_frames then err raw_frames_failure else elim (Dict.get fiber_id s.fibers) [
        | some (active tip) ↦
            Handle.with_state fiber_id (tip_state tip.envelope) tip.envelope.header.event_id
              (commitment blake3 tip.envelope) tip.event_count
        | some (broken _) ↦ err (chain_failure "cannot construct fiber handle for broken fiber")
        | none ↦ ok (Handle.new fiber_id)
      ]

  -- The `match` of `SessionIndex::validate_append`.
  unfoldable pub validate_link :
      SessionIndex → Option FiberSlot → EventEnvelope → Result OperationFailure (Unit {0})
  validate_link s (some (broken _)) envelope =
      err (failure invariant_breaking_configuration "cannot append to broken fiber")
  validate_link s (some (active tip)) envelope = do
    refuse_if (bytes_eq envelope.header.precursor zero_id)
        (chain_failure "duplicate genesis on same fiber")
    refuse_if (not (bytes_eq envelope.header.precursor tip.envelope.header.event_id))
        (chain_failure "precursor does not match predecessor event ID per C5.40")
    refuse_if (not (bytes_eq envelope.header.precursor_hash (commitment blake3 tip.envelope)))
        (chain_failure "precursor commitment hash does not match predecessor commitment per C5.40")
    refuse_if (leb max_events_per_fiber tip.event_count)
        (too_long_failure "event count boundary reached (MAX_EVENTS_PER_FIBER)")
  validate_link s none envelope = do
    refuse_if (leb max_active_fibers (length s.fibers))
        (too_long_failure "active tracked fibers capacity exceeded (MAX_ACTIVE_FIBERS)")
    refuse_if
        (not (bytes_eq envelope.header.precursor zero_id)
          || not (bytes_eq envelope.header.precursor_hash zero_hash))
        (chain_failure
          "initial envelope on fiber must carry genesis precursor zeroes per C4.19 and C5.40")

  -- `SessionIndex::validate_append`, and `prepare_append`, which calls it.
  unfoldable pub validate_append : SessionIndex → EventEnvelope → Result OperationFailure (Unit {0})
  validate_append s envelope = do
    refuse_if s.has_raw_frames
        (mismatch_failure "session contains unindexed raw frames; append unavailable")
    refuse_if (bytes_eq envelope.header.event_id zero_id)
        (failure (FailureCondition.value_constraint_violated empty) "event_id cannot be all-zeroes")
    refuse_if (Dict.contains envelope.header.event_id s.seen_event_ids)
        (chain_failure "duplicate event ID observed across session fibers per C5.61")
    refuse_if (leb max_seen_events (length s.seen_event_ids))
        (too_long_failure "seen event ids limit exceeded")
    validate_link s (Dict.get envelope.header.fiber_id s.fibers) envelope

-- The count after a commit: an active fiber goes on, any other slot starts anew.
abbrev next_count : Option FiberSlot → ℕ
next_count (some (active tip)) = tip.event_count + 1
next_count (some (broken _)) = 1
next_count none = 1

-- `SessionIndex::commit_envelope_unchecked`.
unfoldable pub commit_envelope_unchecked : SessionIndex → EventEnvelope → SessionIndex
commit_envelope_unchecked s envelope =
    let fiber_id = envelope.header.fiber_id in
    record s {
      seen_event_ids = Dict.add envelope.header.event_id s.seen_event_ids;
      fibers =
          Dict.insert fiber_id
            (active (record {
              envelope = envelope;
              event_count = next_count (Dict.get fiber_id s.fibers);
            }))
            s.fibers;
      revision = wrapping_add s.revision 1;
    }

-- `SessionIndex::commit_envelope`.
unfoldable pub commit_envelope :
    (Bytes → Bytes) → SessionIndex → EventEnvelope → Result OperationFailure SessionIndex
commit_envelope blake3 s envelope = do
  validate_append blake3 s envelope
  ok (commit_envelope_unchecked s envelope)

-- `SessionIndex::decode_and_validate_frame`.
unfoldable pub decode_and_validate_frame : Bytes → Result OperationFailure EventEnvelope
decode_and_validate_frame frame = do
  (env, consumed) ←
      map_err (λ _. mismatch_failure "frame decode error: {err}") (Envelope.decode frame)
  refuse_if (not (consumed == length frame)) (mismatch_failure "frame decode error: {}")
  ok env
