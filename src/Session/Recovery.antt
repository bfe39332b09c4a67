-- ===== src/Session/Recovery.antt =====
-- Rebuilding a session index from the frames of a container
-- (crates/pardosa/src/store/session_index.rs). A method that fails may have changed the index
-- before, so the index comes back beside the error too.
pub mod Consistency
pub mod Isolation
use pardosa.Prelude.Words.{u64_max}
use pardosa.Failure.{
  Result, ◌>>=◌, ◌>>◌, refuse_if, ok_or, OperationFailure, failure, too_long_failure,
  is_chain_broken, ok, err, envelope_mismatch,
}
use pardosa.Prelude.{ℕ, ◌+◌, Option, none, some, List, [], ◌∷◌, ltb, leb, if◌then◌else◌, length}
use pardosa.Prelude.Bytes.{Bytes}
use pardosa.Prelude.Dict
use pardosa.Encoding.Envelope.{EventEnvelope}
use pardosa.Fiber.Handle.{max_events_per_fiber}
use pardosa.Session.{
  SessionIndex, FiberSlot, active, broken, new, max_seen_events, mark_fiber_broken, validate_append,
  commit_envelope_unchecked, decode_and_validate_frame,
}

abbrev pub Update : Type 0
Update = Result OperationFailure (Unit {0}) × SessionIndex

-- The second half of `record_broken_event_id`: the identifier joins those seen.
unfoldable pub record_seen : SessionIndex → Bytes → Update
record_seen s event_id =
    if Dict.contains event_id s.seen_event_ids
    then (ok tt, s)
    else if leb max_seen_events (length s.seen_event_ids)
    then (err (too_long_failure "seen event ids limit exceeded"), s)
    else (ok tt, record s { seen_event_ids = Dict.add event_id s.seen_event_ids })

-- `event_count.checked_add(1)`, and the bound on it.
unfoldable pub next_broken_count : ℕ → Result OperationFailure ℕ
next_broken_count event_count = do
  next_count ←
      ok_or (if leb (event_count + 1) u64_max then some (event_count + 1) else none)
        (too_long_failure "broken fiber event count limit exceeded")
  refuse_if (ltb max_events_per_fiber next_count)
      (too_long_failure "broken fiber event count limit exceeded")
  ok next_count

unfoldable pub record_in_slot : Option FiberSlot → SessionIndex → Bytes → Bytes → Update
unfolding record_seen
record_in_slot (some (broken event_count)) s fiber_id event_id =
    elim (next_broken_count event_count) [
      | ok next_count ↦
          record_seen (record s { fibers = Dict.insert fiber_id (broken next_count) s.fibers })
            event_id
      | err e ↦ (err e, s)
    ]
record_in_slot (some (active tip)) s fiber_id event_id = record_seen s event_id
record_in_slot none s fiber_id event_id = record_seen s event_id

-- `SessionIndex::record_broken_event_id`.
unfoldable pub record_broken_event_id : SessionIndex → Bytes → Bytes → Update
unfolding record_in_slot
record_broken_event_id s fiber_id event_id =
    record_in_slot (Dict.get fiber_id s.fibers) s fiber_id event_id

abbrev malformed_frame : OperationFailure
malformed_frame =
    failure envelope_mismatch
      "frame length < 85 bytes or malformed envelope in ordinary session index"

module _ (blake3 : Bytes → Bytes) where
  -- The fiber breaks, and the envelope's identifier counts as seen.
  unfoldable pub break_fiber : SessionIndex → EventEnvelope → Update
  break_fiber s env = elim (mark_fiber_broken s env.header.fiber_id) [
    | ok s' ↦ record_broken_event_id s' env.header.fiber_id env.header.event_id
    | err e ↦ (err e, s)
  ]

  -- The outcome of `validate_append` in `process_frame`.
  unfoldable pub after_validation :
      Result OperationFailure (Unit {0}) → SessionIndex → EventEnvelope → Update
  after_validation (ok _) s env = (ok tt, commit_envelope_unchecked s env)
  after_validation (err e) s env = if is_chain_broken e then break_fiber s env else (err e, s)

  unfoldable pub process_in_slot : Option FiberSlot → SessionIndex → EventEnvelope → Update
  unfolding after_validation
  process_in_slot (some (broken _)) s env =
      record_broken_event_id s env.header.fiber_id env.header.event_id
  process_in_slot (some (active tip)) s env = after_validation (validate_append blake3 s env) s env
  process_in_slot none s env = after_validation (validate_append blake3 s env) s env

  -- `SessionIndex::process_frame` behind the decoding of the frame.
  unfoldable pub process_envelope : SessionIndex → EventEnvelope → Update
  unfolding process_in_slot
  process_envelope s env = process_in_slot (Dict.get env.header.fiber_id s.fibers) s env

  -- `SessionIndex::process_frame`.
  unfoldable pub process_frame : SessionIndex → Bytes → Update
  process_frame s frame =
      if ltb (length frame) 85
      then (err malformed_frame, s)
      else elim (decode_and_validate_frame frame) [
        | ok env ↦ process_envelope s env
        | err _ ↦ (err malformed_frame, s)
      ]

  -- The loop of `SessionIndex::build_from_frames`: an error ends it.
  unfoldable pub process_frames : SessionIndex → List Bytes → Update
  process_frames s [] = (ok tt, s)
  process_frames s (frame ∷ frames) =
      let (r, s') = process_frame s frame in
      elim r [ ok _ ↦ process_frames s' frames | err e ↦ (err e, s') ]

  -- `SessionIndex::build_from_frames`.
  unfoldable pub build_from_frames : List Bytes → Result OperationFailure SessionIndex
  build_from_frames frames = let (r, s) = process_frames new frames in r >>= λ _. ok s
