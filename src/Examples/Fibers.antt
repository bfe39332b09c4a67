-- ===== src/Examples/Fibers.antt =====
-- Fibers and sessions at concrete inputs.
use pardosa.Session.Recovery.Isolation.{process_frame-other}
use pardosa.Encoding.Envelope.{commitment, compute_envelope_commitment, EventEnvelope}
use pardosa.Prelude.Words.{checked_add}
use pardosa.Encoding.Envelope
use pardosa.Encoding.Envelope.Header
use pardosa.Encoding.Envelope.Header.{decode_detached}
use pardosa.Session.Recovery.{
  process_frames, process_frame, process_envelope, process_in_slot, after_validation,
}
use pardosa.Prelude.Dict
use pardosa.Session.Recovery.{build_from_frames}
use pardosa.Encoding.Envelope.Header.{zero_id, zero_hash}
use pardosa.Session.{
  SessionIndex, validate_append, commit_envelope, fiber, commit_envelope_unchecked, validate_link,
  decode_and_validate_frame,
}
use pardosa.Fiber.Handle.{FiberHandle, check_event, detach}
use pardosa.Prelude.Bytes.{bytes_eq, to_le_bytes, from_le_bytes, Bytes}
use pardosa.Failure.{FailsWith, ok, err, invariant_breaking_configuration}
use pardosa.Prelude.{◌≡◌, refl, ◌⊎◌, List, [], ◌∷◌, arith, replicate, ◌++◌}
use pardosa.Fiber.Handle
use pardosa.Fiber.Handle.Replay.{from_envelopes}
use pardosa.Fiber.Handle.Steps.{
  perform-Agrees, perform_error_unchanged, perform, appending, detaching, Agrees, action_of,
}
use pardosa.Fiber.Handle.Coherence.{
  perform-IsCoherent, with_state-IsCoherent, IsCoherent, with_fields_of,
}
use pardosa.Fiber.State.Lifecycle.{
  apply_action-Transition, Transition, lock_needs_migration, History, start, followed_by,
}
use pardosa.Fiber.State.{
  FiberState, detached, locked, AttemptedTransition, lock_and_prune, apply_action, illegal, migrate,
  is_reopened_valid,
}
use pardosa.Session
use pardosa.Session.Refinement.{fiber-Committed, Committed, nothing_yet, one_more, events_of}
use pardosa.Session.Recovery.Consistency.{build_from_frames-IsConsistent}
use pardosa.Session.Invariant.{
  IsConsistent, new-IsConsistent, commit_envelope_unchecked-IsConsistent,
}
use pardosa.Examples.Data.{
  toy_hash, id_one, first_event, first_bytes, fiber_a, second_event, first_header, id_two,
}

abbrev fresh : FiberHandle
fresh = Handle.new fiber_a

perform-Agrees_example :
    Agrees toy_hash fresh id_one
      (5 ∷ 6 ∷ [])
      (apply_action fresh.state (action_of appending fresh.state))
      (perform toy_hash appending fresh id_one (5 ∷ 6 ∷ []))
unfolding check_event zero_id bytes_eq Handle.new
perform-Agrees_example =
    perform-Agrees toy_hash appending fresh id_one (5 ∷ 6 ∷ []) refl (omega arith)

perform_error_unchanged_example : (perform toy_hash detaching fresh zero_id []).1 ≡ fresh
unfolding perform detach check_event zero_id bytes_eq Handle.new
perform_error_unchanged_example = perform_error_unchanged toy_hash detaching fresh zero_id [] refl

perform-IsCoherent_example :
    IsCoherent (perform toy_hash appending fresh id_one (5 ∷ [])).1
    ⊎ ((envelope : EventEnvelope) × ((perform toy_hash appending fresh id_one (5 ∷ [])).0
          ≡ ok envelope)
        × (commitment toy_hash envelope ≡ zero_hash))
unfolding Handle.new
perform-IsCoherent_example =
    perform-IsCoherent toy_hash appending fresh id_one (5 ∷ [])
      (record { precursor = refl; precursor_hash = refl; event_count = refl })

with_state-IsCoherent_example :
    (IsCoherent fresh × (with_fields_of fresh ≡ ok fresh))
    ⊎ ((¬ IsCoherent fresh) × FailsWith (with_fields_of fresh) invariant_breaking_configuration)
with_state-IsCoherent_example = with_state-IsCoherent fresh

apply_action-Transition_example :
    ((t : FiberState) × Transition locked AttemptedTransition.rescue t
      × (apply_action locked AttemptedTransition.rescue ≡ ok t))
    ⊎ (((t : FiberState) → ¬ Transition locked AttemptedTransition.rescue t)
        × (apply_action locked AttemptedTransition.rescue
            ≡ err (illegal locked AttemptedTransition.rescue)))
apply_action-Transition_example = apply_action-Transition locked AttemptedTransition.rescue

-- A fiber that was detached, then locked by a migration.
locking : History detached (migrate lock_and_prune ∷ []) locked
unfolding apply_action
locking = followed_by (migrate lock_and_prune) start refl

lock_needs_migration_example :
    (detached ≡ locked)
    ⊎ ((bs : List AttemptedTransition) × (migrate lock_and_prune ∷ []
          ≡ migrate lock_and_prune ∷ bs))
unfolding is_reopened_valid
lock_needs_migration_example = lock_needs_migration locking refl

-- A session that commits two events of a fiber.
abbrev after_first : SessionIndex
after_first = commit_envelope_unchecked Session.new first_event

abbrev after_second : SessionIndex
after_second = commit_envelope_unchecked after_first second_event

valid_first : validate_append toy_hash Session.new first_event ≡ ok tt
unfolding validate_append validate_link Session.new zero_id zero_hash bytes_eq Dict.contains
    Dict.get
valid_first = refl

commit_first : commit_envelope toy_hash Session.new first_event ≡ ok after_first
unfolding commit_envelope
commit_first = rw valid_first refl

commit_second : commit_envelope toy_hash after_first second_event ≡ ok after_second
unfolding commit_envelope commit_envelope_unchecked validate_append validate_link Session.new
    zero_id zero_hash bytes_eq Dict.contains Dict.get Dict.insert Dict.add commitment
    compute_envelope_commitment
commit_second = refl

both_events : Committed toy_hash (first_event ∷ second_event ∷ []) after_second
both_events = one_more second_event (one_more first_event nothing_yet commit_first) commit_second

fiber-Committed_example :
    (fiber toy_hash after_second fiber_a
      ≡ from_envelopes toy_hash fiber_a (events_of fiber_a (first_event ∷ second_event ∷ [])))
    ⊎ ((before : List EventEnvelope) × (last : EventEnvelope) × (events_of fiber_a
            (first_event ∷ second_event ∷ [])
          ≡ before ++ (last ∷ []))
        × (commitment toy_hash last ≡ zero_hash)
        × FailsWith (fiber toy_hash after_second fiber_a) invariant_breaking_configuration)
fiber-Committed_example = fiber-Committed toy_hash both_events fiber_a

commit_envelope_unchecked-IsConsistent_example : IsConsistent after_first
commit_envelope_unchecked-IsConsistent_example =
    commit_envelope_unchecked-IsConsistent toy_hash Session.new first_event valid_first
      new-IsConsistent

-- An index from one frame.
abbrev from_first : SessionIndex
from_first = after_first

rebuilt : build_from_frames toy_hash (first_bytes ∷ []) ≡ ok from_first
unfolding build_from_frames process_frames process_frame process_envelope process_in_slot
    after_validation decode_and_validate_frame Envelope.decode Header.decode decode_detached
    checked_add from_le_bytes to_le_bytes Header.encode commit_envelope_unchecked validate_append
    validate_link Session.new zero_id zero_hash bytes_eq Dict.contains Dict.get Dict.insert Dict.add
rebuilt = refl

build_from_frames-IsConsistent_example : IsConsistent from_first
build_from_frames-IsConsistent_example =
    build_from_frames-IsConsistent toy_hash (first_bytes ∷ []) rebuilt

-- An index that knows another fiber.
abbrev fiber_b : Bytes
fiber_b = replicate 16 8

abbrev knows_b : SessionIndex
knows_b =
    commit_envelope_unchecked Session.new (record first_event {
      header = record first_header { event_id = id_two; fiber_id = fiber_b };
    })

first_decoded : decode_and_validate_frame first_bytes ≡ ok first_event
unfolding decode_and_validate_frame Envelope.decode Header.decode decode_detached checked_add
    from_le_bytes to_le_bytes Header.encode zero_id zero_hash
first_decoded = refl

process_frame-other_example :
    Dict.get fiber_b (process_frame toy_hash knows_b first_bytes).1.fibers
    ≡ Dict.get fiber_b knows_b.fibers
process_frame-other_example =
    process_frame-other toy_hash knows_b first_bytes first_event fiber_b first_decoded (λ e. cc e)
