-- ===== src/Fiber/Handle/Replay.antt =====
-- Rebuilding a handle from the events of its fiber (`FiberHandle::from_envelopes` of
-- crates/pardosa/src/store/fiber_handle.rs).
use pardosa.Fiber.Handle.{empty_failure, FiberHandle, max_events_per_fiber, new}
use pardosa.Prelude.Bytes.{Bytes, bytes_eq, bytes_eq_iff}
use pardosa.Prelude.{
  ℕ, zero, suc, ◌+◌, ◌≡◌, not, ◌||◌, some, List, [], ◌∷◌, ◌++◌, ltb, if◌then◌else◌, length, ◌<◌,
  refl, sym, false, arith, add-zero, ap, ◌∙◌, ◌≤◌, ltb-eq-false,
}
use pardosa.Failure.{
  Result, ok, err, ◌>>=◌, ◌>>◌, refuse_if, OperationFailure, failure, too_long_failure,
  chain_failure, precursor_wrong_fiber, precursor_chain_broken, >>=-eq-ok,
}
use pardosa.Prelude.Dict
use pardosa.Encoding.Envelope.{EventEnvelope, commitment}
use pardosa.Encoding.Envelope.Header.{zero_id, zero_hash}
use pardosa.Fiber.State.{FiberState, undefined, defined, detached}

-- The variables of the loop.
pub record Replay : Type 0 where
  pub current_state : FiberState
  pub prev_event_id : Bytes
  pub prev_commitment : Bytes
  pub seen_ids : List Bytes

-- The variables before the loop.
abbrev pub replay_start : Replay
replay_start = record {
  current_state = undefined;
  prev_event_id = zero_id;
  prev_commitment = zero_hash;
  seen_ids = [];
}

-- The `match idx`.
unfoldable pub check_position : ℕ → Replay → EventEnvelope → Result OperationFailure (Unit {0})
check_position zero r env =
    refuse_if
      (not (bytes_eq env.header.precursor zero_id)
        || not (bytes_eq env.header.precursor_hash zero_hash))
      (chain_failure "initial envelope must carry genesis precursor zeroes")
check_position (suc idx) r env =
    refuse_if
      (not (bytes_eq env.header.precursor r.prev_event_id)
        || not (bytes_eq env.header.precursor_hash r.prev_commitment))
      (chain_failure "precursor link does not match predecessor commitment")

module _ (blake3 : Bytes → Bytes) (fiber_id : Bytes) where
  -- One round of the loop.
  unfoldable pub replay_step : ℕ → Replay → EventEnvelope → Result OperationFailure Replay
  unfolding check_position
  replay_step idx r env = do
    refuse_if (bytes_eq env.header.event_id zero_id)
        (empty_failure "envelope event_id cannot be all-zeroes")
    refuse_if (Dict.contains env.header.event_id r.seen_ids)
        (chain_failure "duplicate event ID observed in envelope sequence per C5.61")
    refuse_if (not (bytes_eq env.header.fiber_id fiber_id)) (
        failure (precursor_chain_broken (some precursor_wrong_fiber))
          "envelope fiber_id does not match target fiber")
    check_position idx r env
    ok (record {
      current_state = if env.header.detached then detached else defined;
      prev_event_id = env.header.event_id;
      prev_commitment = commitment blake3 env;
      seen_ids = Dict.add env.header.event_id r.seen_ids;
    })

  unfoldable pub replay : ℕ → List EventEnvelope → Replay → Result OperationFailure Replay
  unfolding replay_step
  replay idx [] r = ok r
  replay idx (env ∷ envelopes) r = do r' ← replay_step idx r env; replay (suc idx) envelopes r'

  -- `FiberHandle::from_envelopes`, past the test for an empty sequence.
  unfoldable pub from_events : List EventEnvelope → Result OperationFailure FiberHandle
  unfolding replay
  from_events envelopes = do
    refuse_if (ltb max_events_per_fiber (length envelopes))
        (too_long_failure "envelope sequence length exceeds MAX_EVENTS_PER_FIBER")
    r ← replay 0 envelopes replay_start
    ok (record {
      fiber_id = fiber_id;
      state = r.current_state;
      precursor = r.prev_event_id;
      precursor_hash = r.prev_commitment;
      event_count = length envelopes;
    })

  -- `FiberHandle::from_envelopes`.
  unfoldable pub from_envelopes : List EventEnvelope → Result OperationFailure FiberHandle
  unfolding from_events
  from_envelopes [] = ok (new fiber_id)
  from_envelopes (env ∷ envelopes) = from_events (env ∷ envelopes)

  replay-one :
      (idx : ℕ) (r : Replay) (env : EventEnvelope) → replay idx (env ∷ []) r ≡ replay_step idx r env
  unfolding replay
  replay-one idx r env = go (replay_step idx r env) refl
    where
      go :
          (s : Result OperationFailure Replay)
          → replay_step idx r env ≡ s
          → replay idx (env ∷ []) r ≡ replay_step idx r env
      go (ok a) e = rw (e, replay) refl
      go (err x) e = rw (e, replay) refl

  -- One more event at the end is one more round at the end.
  pub replay-append :
      (idx : ℕ) (envelopes : List EventEnvelope) (env : EventEnvelope) (r : Replay) {r' : Replay}
      → replay idx envelopes r ≡ ok r'
      → replay idx (envelopes ++ (env ∷ [])) r ≡ replay_step (idx + length envelopes) r' env
  unfolding replay
  replay-append idx [] env r {r'} h =
      let same : r ≡ r' = cc h in
      replay-one idx r env
      ∙ (ap (λ s. replay_step idx s env) same ∙ ap (λ i. replay_step i r' env) (sym (add-zero idx)))
  replay-append idx (e ∷ envelopes) env r {r'} h =
      let (r1, step, rest) = >>=-eq-ok (replay_step idx r e) _ h in
      let later : suc idx + length envelopes ≡ idx + suc (length envelopes) = omega arith in
      rw step (replay-append (suc idx) envelopes env r1 rest ∙ ap (λ i. replay_step i r' env) later)

  pub replay_step-eq-ok :
      (idx : ℕ) (r : Replay) (env : EventEnvelope)
      → bytes_eq env.header.event_id zero_id ≡ false
      → Dict.contains env.header.event_id r.seen_ids ≡ false
      → env.header.fiber_id ≡ fiber_id
      → check_position idx r env ≡ ok tt
      → replay_step idx r env
        ≡ ok (record {
          current_state = if env.header.detached then detached else defined;
          prev_event_id = env.header.event_id;
          prev_commitment = commitment blake3 env;
          seen_ids = Dict.add env.header.event_id r.seen_ids;
        })
  unfolding replay_step
  replay_step-eq-ok idx r env nonzero fresh same position =
      rw (nonzero, fresh, (bytes_eq_iff env.header.fiber_id fiber_id).1 same, position) refl

  -- A sequence that the loop accepts, within the bound.
  pub from_envelopes-eq-ok :
      (envelopes : List EventEnvelope) (r : Replay)
      → 0 < length envelopes
      → length envelopes ≤ max_events_per_fiber
      → replay 0 envelopes replay_start ≡ ok r
      → from_envelopes envelopes
        ≡ ok (record {
          fiber_id = fiber_id;
          state = r.current_state;
          precursor = r.prev_event_id;
          precursor_hash = r.prev_commitment;
          event_count = length envelopes;
        })
  unfolding from_envelopes
  from_envelopes-eq-ok [] r some_event within h = absurd (omega arith)
  from_envelopes-eq-ok (e ∷ envelopes) r some_event within h =
      rw (from_events, ltb-eq-false max_events_per_fiber (length (e ∷ envelopes)) within, h) refl

pub check_position_later :
    (idx : ℕ) (r : Replay) (env : EventEnvelope)
    → 0 < idx
    → env.header.precursor ≡ r.prev_event_id
    → env.header.precursor_hash ≡ r.prev_commitment
    → check_position idx r env ≡ ok tt
unfolding check_position
check_position_later zero r env h e f = absurd (omega arith)
check_position_later (suc idx) r env h e f =
    rw
      (
        (bytes_eq_iff env.header.precursor r.prev_event_id).1 e,
        (bytes_eq_iff env.header.precursor_hash r.prev_commitment).1 f,
      )
      refl
