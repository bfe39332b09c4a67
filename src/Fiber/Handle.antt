-- ===== src/Fiber/Handle.antt =====
-- The handle of one fiber: state, tip and event count (crates/pardosa/src/store/fiber_handle.rs).
-- A method that takes `&mut self` returns its result and the handle after it. Of a detail that the
-- source formats, the format string is kept. BLAKE3 is a parameter.
pub mod Coherence
pub mod Steps
pub mod Replay
use pardosa.Prelude.Bytes.{Bytes, bytes_eq}
use pardosa.Failure.{
  Result, ◌>>=◌, ◌>>◌, refuse_if, OperationFailure, failure, too_long_failure, chain_failure, ok,
  err, empty, invariant_breaking_configuration, FailureCondition,
}
use pardosa.Prelude.{ℕ, zero, ◌+◌, String, Bool, true, false, not, ◌||◌, ltb, leb, ◌==◌}
use pardosa.Encoding.Envelope
use pardosa.Encoding.Envelope.{EventEnvelope, commitment}
use pardosa.Encoding.Envelope.Header.{zero_id, zero_hash}
use pardosa.Fiber.State.{FiberState, undefined, defined, detached, purged, locked, state_eq}

abbrev pub max_events_per_fiber : ℕ
max_events_per_fiber = 100000

pub record FiberHandle : Type 0 where
  pub fiber_id : Bytes
  pub state : FiberState
  pub precursor : Bytes
  pub precursor_hash : Bytes
  pub event_count : ℕ

-- `FiberHandle::new`.
unfoldable pub new : Bytes → FiberHandle
new fiber_id = record {
  fiber_id = fiber_id;
  state = undefined;
  precursor = zero_id;
  precursor_hash = zero_hash;
  event_count = 0;
}

abbrev pub configuration_failure : String → OperationFailure
configuration_failure = failure invariant_breaking_configuration

abbrev pub empty_failure : String → OperationFailure
empty_failure = failure (FailureCondition.value_constraint_violated empty)

-- The two tests of `FiberHandle::with_state`.
check_blank : Bytes → Bytes → ℕ → Result OperationFailure (Unit {0})
check_blank precursor precursor_hash event_count =
    refuse_if
      (not (bytes_eq precursor zero_id)
        || not (bytes_eq precursor_hash zero_hash)
        || not (event_count == 0))
      (configuration_failure
        "undefined or purged fiber must carry zero precursor, zero precursor hash, and event count 0")

check_live : Bytes → Bytes → ℕ → Result OperationFailure (Unit {0})
check_live precursor precursor_hash event_count =
    refuse_if
      (bytes_eq precursor zero_id
        || bytes_eq precursor_hash zero_hash
        || event_count == 0
        || ltb max_events_per_fiber event_count)
      (configuration_failure
        "active fiber must carry non-zero precursor, precursor hash, and 1 <= event_count <= MAX_EVENTS_PER_FIBER")

unfoldable pub check_state : FiberState → Bytes → Bytes → ℕ → Result OperationFailure (Unit {0})
unfolding check_blank check_live
check_state undefined = check_blank
check_state purged = check_blank
check_state defined = check_live
check_state detached = check_live
check_state locked = check_live

-- `FiberHandle::with_state`.
unfoldable pub with_state :
    Bytes → FiberState → Bytes → Bytes → ℕ → Result OperationFailure FiberHandle
unfolding check_state
with_state fiber_id state precursor precursor_hash event_count = do
  check_state state precursor precursor_hash event_count
  ok (record {
    fiber_id = fiber_id;
    state = state;
    precursor = precursor;
    precursor_hash = precursor_hash;
    event_count = event_count;
  })

pub is_active : FiberHandle → Bool
is_active h = state_eq h.state defined

pub is_detached : FiberHandle → Bool
is_detached h = state_eq h.state detached

pub is_locked : FiberHandle → Bool
is_locked h = state_eq h.state locked

pub is_purged : FiberHandle → Bool
is_purged h = state_eq h.state purged

pub is_undefined : FiberHandle → Bool
is_undefined h = state_eq h.state undefined

-- The tests on which `append`, `detach` and `rescue` start.
unfoldable pub check_event : FiberHandle → Bytes → Result OperationFailure (Unit {0})
check_event h event_id = do
  refuse_if (bytes_eq event_id zero_id) (empty_failure "event_id cannot be all-zeroes")
  refuse_if (bytes_eq event_id h.precursor)
      (chain_failure "event ID matches precursor event ID per C5.61")
  refuse_if (leb max_events_per_fiber h.event_count)
      (too_long_failure "event count boundary reached (MAX_EVENTS_PER_FIBER)")

abbrev pub Outcome : Type 0
Outcome = Result OperationFailure EventEnvelope × FiberHandle

module _ (blake3 : Bytes → Bytes) where
  -- The handle after an event was minted.
  unfoldable pub advance : FiberHandle → Bytes → EventEnvelope → FiberState → FiberHandle
  advance h event_id envelope state = record h {
    state = state;
    precursor = event_id;
    precursor_hash = commitment blake3 envelope;
    event_count = h.event_count + 1;
  }

  -- The branches that mint a genesis envelope.
  unfoldable pub mint_genesis : FiberHandle → Bytes → Bytes → String → Outcome
  unfolding advance
  mint_genesis h event_id payload detail = elim (Envelope.genesis event_id h.fiber_id payload) [
    | ok envelope ↦ (ok envelope, advance h event_id envelope defined)
    | err _ ↦ (err (empty_failure detail), h)
  ]

  -- The branches that chain to the tip.
  unfoldable pub mint_chained : FiberHandle → Bytes → Bytes → Bool → FiberState → Outcome
  unfolding advance
  mint_chained h event_id payload detach_flag state =
      let envelope : EventEnvelope = record {
        header = record {
          event_id = event_id;
          fiber_id = h.fiber_id;
          detached = detach_flag;
          precursor = h.precursor;
          precursor_hash = h.precursor_hash;
        };
        payload = payload;
      } in
      (ok envelope, advance h event_id envelope state)

  append_in : FiberState → FiberHandle → Bytes → Bytes → Outcome
  unfolding mint_genesis mint_chained
  append_in undefined h event_id payload =
      mint_genesis h event_id payload "failed to construct genesis envelope"
  append_in purged h event_id payload =
      mint_genesis h event_id payload "failed to construct genesis envelope"
  append_in defined h event_id payload = mint_chained h event_id payload false h.state
  append_in detached h event_id payload =
      (err (configuration_failure "cannot append to fiber in {:?} state without rescue"), h)
  append_in locked h event_id payload =
      (err (configuration_failure "cannot append to fiber in {:?} state without rescue"), h)

  detach_in : FiberState → FiberHandle → Bytes → Bytes → Outcome
  unfolding mint_chained
  detach_in defined h event_id payload = mint_chained h event_id payload true detached
  detach_in _ h event_id payload = (
    err (
        configuration_failure
          "cannot detach fiber in {:?} state; detach is only valid from Defined"),
    h,
  )

  rescue_in : FiberState → FiberHandle → Bytes → Bytes → Outcome
  unfolding mint_genesis mint_chained
  rescue_in detached h event_id payload = mint_chained h event_id payload false defined
  rescue_in locked h event_id payload =
      mint_genesis h event_id payload "failed to construct genesis envelope on rescue locked"
  rescue_in _ h event_id payload = (
    err (
        configuration_failure
          "cannot rescue fiber in {:?} state; rescue is only valid from Detached or Locked"),
    h,
  )

  -- `FiberHandle::append`.
  unfoldable pub append : FiberHandle → Bytes → Bytes → Outcome
  unfolding append_in check_event
  append h event_id payload = elim (check_event h event_id) [
    | ok _ ↦ append_in h.state h event_id payload
    | err e ↦ (err e, h)
  ]

  -- `FiberHandle::detach`.
  unfoldable pub detach : FiberHandle → Bytes → Bytes → Outcome
  unfolding detach_in check_event
  detach h event_id payload = elim (check_event h event_id) [
    | ok _ ↦ detach_in h.state h event_id payload
    | err e ↦ (err e, h)
  ]

  -- `FiberHandle::rescue`.
  unfoldable pub rescue : FiberHandle → Bytes → Bytes → Outcome
  unfolding rescue_in check_event
  rescue h event_id payload = elim (check_event h event_id) [
    | ok _ ↦ rescue_in h.state h event_id payload
    | err e ↦ (err e, h)
  ]
