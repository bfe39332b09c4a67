-- ===== src/Session/Recovery/Consistency.antt =====
-- Recovery keeps the invariant of the session index, whatever the frames hold.
use pardosa.Failure.{Result, OperationFailure, is_chain_broken, ok, err, >>=-eq-ok}
use pardosa.Prelude.{
  ℕ, ◌≤◌, ◌≡◌, refl, inl, inr, Option, none, some, List, [], ◌∷◌, arith, ltb, leb, leb-false→lt,
  Bool-cases, length, subst,
}
use pardosa.Prelude.Bytes.{Bytes}
use pardosa.Prelude.Dict
use pardosa.Encoding.Envelope.{EventEnvelope}
use pardosa.Fiber.Handle.{max_events_per_fiber}
use pardosa.Session.{
  SessionIndex, FiberSlot, active, broken, new, max_seen_events, mark_fiber_broken, validate_append,
  decode_and_validate_frame,
}
use pardosa.Session.Invariant.{
  IsConsistent, SlotFits-add, slots-insert, length-insert, new-IsConsistent,
  mark_fiber_broken-IsConsistent, commit_envelope_unchecked-IsConsistent,
}
use pardosa.Session.Recovery.{
  Update, record_seen, next_broken_count, record_in_slot, record_broken_event_id, break_fiber,
  after_validation, process_in_slot, process_envelope, process_frame, process_frames,
  build_from_frames, malformed_frame,
}

record_seen-IsConsistent :
    (s : SessionIndex) (id : Bytes) → IsConsistent s → IsConsistent (record_seen s id).1
unfolding record_seen
record_seen-IsConsistent s id c = elim (Bool-cases (Dict.contains id s.seen_event_ids)) [
  | inl old ↦ rw old c
  | inr fresh ↦ elim (Bool-cases (leb max_seen_events (length s.seen_event_ids))) [
    | inl full ↦ rw (fresh, full) c
    | inr room ↦
        let below = leb-false→lt max_seen_events (length s.seen_event_ids) room in
        rw (fresh, room)
          (record {
            capacity = c.capacity;
            seen_bound = omega (arith, Dict.length-add_new id s.seen_event_ids fresh);
            slots = λ k slot e. SlotFits-add s.seen_event_ids id k slot (c.slots k slot e);
          })
  ]
]

next_broken_count-le : (n : ℕ) {m : ℕ} → next_broken_count n ≡ ok m → m ≤ max_events_per_fiber
unfolding next_broken_count
next_broken_count-le n h = ground arith

record_in_slot-IsConsistent :
    (o : Option FiberSlot) (s : SessionIndex) (k id : Bytes)
    → Dict.get k s.fibers ≡ o
    → IsConsistent s
    → IsConsistent (record_in_slot o s k id).1
unfolding record_in_slot
record_in_slot-IsConsistent none s k id found c = record_seen-IsConsistent s id c
record_in_slot-IsConsistent (some (active tip)) s k id found c = record_seen-IsConsistent s id c
record_in_slot-IsConsistent (some (broken n)) s k id found c = go (next_broken_count n) refl
  where
    go :
        (r : Result OperationFailure ℕ)
        → next_broken_count n ≡ r
        → IsConsistent
            (elim r as (λ _. Update) [
              | ok m ↦ record_seen (record s { fibers = Dict.insert k (broken m) s.fibers }) id
              | err e ↦ (err e, s)
            ]).1
    go (ok m) counted =
        record_seen-IsConsistent (record s { fibers = Dict.insert k (broken m) s.fibers }) id
          (record {
            capacity = length-insert s.fibers k (broken m) c.capacity (λ none_there. cc);
            seen_bound = c.seen_bound;
            slots =
                slots-insert s.fibers s.seen_event_ids k (broken m) c.slots
                  (next_broken_count-le n counted);
          })
    go (err e) counted = c

record_broken_event_id-IsConsistent :
    (s : SessionIndex) (k id : Bytes)
    → IsConsistent s
    → IsConsistent (record_broken_event_id s k id).1
unfolding record_broken_event_id
record_broken_event_id-IsConsistent s k id c =
    record_in_slot-IsConsistent (Dict.get k s.fibers) s k id refl c

module _ (blake3 : Bytes → Bytes) where
  break_fiber-IsConsistent :
      (s : SessionIndex) (env : EventEnvelope)
      → IsConsistent s
      → IsConsistent (break_fiber blake3 s env).1
  unfolding break_fiber
  break_fiber-IsConsistent s env c = go (mark_fiber_broken s env.header.fiber_id) refl
    where
      go :
          (r : Result OperationFailure SessionIndex)
          → mark_fiber_broken s env.header.fiber_id ≡ r
          → IsConsistent
              (elim r as (λ _. Update) [
                | ok s' ↦ record_broken_event_id s' env.header.fiber_id env.header.event_id
                | err e ↦ (err e, s)
              ]).1
      go (ok s') marked =
          record_broken_event_id-IsConsistent s' env.header.fiber_id env.header.event_id
            (mark_fiber_broken-IsConsistent s env.header.fiber_id marked c)
      go (err e) marked = c

  after_validation-IsConsistent :
      (r : Result OperationFailure (Unit {0})) (s : SessionIndex) (env : EventEnvelope)
      → validate_append blake3 s env ≡ r
      → IsConsistent s
      → IsConsistent (after_validation blake3 r s env).1
  unfolding after_validation
  after_validation-IsConsistent (ok u) s env v c =
      commit_envelope_unchecked-IsConsistent blake3 s env v c
  after_validation-IsConsistent (err e) s env v c = elim (Bool-cases (is_chain_broken e)) [
    | inl chain ↦ rw chain (break_fiber-IsConsistent s env c)
    | inr other ↦ rw other c
  ]

  process_in_slot-IsConsistent :
      (o : Option FiberSlot) (s : SessionIndex) (env : EventEnvelope)
      → IsConsistent s
      → IsConsistent (process_in_slot blake3 o s env).1
  unfolding process_in_slot
  process_in_slot-IsConsistent none s env c = after_validation-IsConsistent _ s env refl c
  process_in_slot-IsConsistent (some (active tip)) s env c =
      after_validation-IsConsistent _ s env refl c
  process_in_slot-IsConsistent (some (broken n)) s env c =
      record_broken_event_id-IsConsistent s env.header.fiber_id env.header.event_id c

  process_envelope-IsConsistent :
      (s : SessionIndex) (env : EventEnvelope)
      → IsConsistent s
      → IsConsistent (process_envelope blake3 s env).1
  unfolding process_envelope
  process_envelope-IsConsistent s env c =
      process_in_slot-IsConsistent (Dict.get env.header.fiber_id s.fibers) s env c

  pub process_frame-IsConsistent :
      (s : SessionIndex) (frame : Bytes)
      → IsConsistent s
      → IsConsistent (process_frame blake3 s frame).1
  unfolding process_frame
  process_frame-IsConsistent s frame c = elim (Bool-cases (ltb (length frame) 85)) [
    | inl short ↦ rw short c
    | inr long ↦ rw long (go (decode_and_validate_frame frame))
  ]
    where
      go :
          (r : Result OperationFailure EventEnvelope)
          → IsConsistent
              (elim r as (λ _. Update) [
                | ok env ↦ process_envelope blake3 s env
                | err _ ↦ (err malformed_frame, s)
              ]).1
      go (ok env) = process_envelope-IsConsistent s env c
      go (err e) = c

  process_frames-IsConsistent :
      (s : SessionIndex) (frames : List Bytes)
      → IsConsistent s
      → IsConsistent (process_frames blake3 s frames).1
  unfolding process_frames
  process_frames-IsConsistent s [] c = c
  process_frames-IsConsistent s (frame ∷ frames) c = go (process_frame blake3 s frame).0 (
      process_frames-IsConsistent (process_frame blake3 s frame).1 frames
        (process_frame-IsConsistent s frame c))
    where
      go :
          (r : Result OperationFailure (Unit {0}))
          → IsConsistent (process_frames blake3 (process_frame blake3 s frame).1 frames).1
          → IsConsistent
              (elim r as (λ _. Update) [
                | ok _ ↦ process_frames blake3 (process_frame blake3 s frame).1 frames
                | err e ↦ (err e, (process_frame blake3 s frame).1)
              ]).1
      go (ok u) rest = rest
      go (err e) rest = process_frame-IsConsistent s frame c

-- An index that was rebuilt from frames satisfies the invariant: the bounds on fibers, events and
-- identifiers hold, and every tip lies in its own fiber.
pub build_from_frames-IsConsistent :
    (blake3 : Bytes → Bytes) (frames : List Bytes) {s : SessionIndex}
    → build_from_frames blake3 frames ≡ ok s
    → IsConsistent s
unfolding build_from_frames
build_from_frames-IsConsistent blake3 frames h =
    let (u, r, same) = >>=-eq-ok (process_frames blake3 new frames).0 _ h in
    let index : (process_frames blake3 new frames).1 ≡ _ = cc same in
    subst IsConsistent index (process_frames-IsConsistent blake3 new frames new-IsConsistent)
