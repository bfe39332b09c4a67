-- ===== src/Session/Recovery/Isolation.antt =====
-- A frame of one fiber, sound or not, leaves the other fibers of the index as they are.
use pardosa.Prelude.Bytes.{Bytes, bytes_eq_iff}
use pardosa.Prelude.{
  ◌≡◌, ◌≢◌, List, arith, ℕ, refl, ap, ◌∙◌, inl, inr, Option, none, some, ltb, leb, Bool-cases,
  length,
}
use pardosa.Failure.{Result, ok, err, OperationFailure, is_chain_broken}
use pardosa.Prelude.Dict
use pardosa.Encoding.Envelope.{EventEnvelope}
use pardosa.Session.{
  SessionIndex, FiberSlot, active, broken, mark_fiber_broken, commit_envelope_unchecked, slot_count,
  max_seen_events, decode_and_validate_frame,
}
use pardosa.Session.Invariant.{mark_fiber_broken-eq-ok}
use pardosa.Session.Recovery.{
  record_broken_event_id, record_in_slot, record_seen, break_fiber, after_validation,
  process_in_slot, process_envelope, next_broken_count, process_frame,
}

get-insert_other :
    {V : Type 0} (k j : Bytes) (v : V) (m : List (Bytes × V))
    → k ≢ j
    → Dict.get j (Dict.insert k v m) ≡ Dict.get j m
get-insert_other k j v m differ = ground (arith, Dict.get-insert k j v m, bytes_eq_iff k j)

record_seen-fibers : (s : SessionIndex) (id : Bytes) → (record_seen s id).1.fibers ≡ s.fibers
unfolding record_seen
record_seen-fibers s id = elim (Bool-cases (Dict.contains id s.seen_event_ids)) [
  | inl known ↦ rw known refl
  | inr unseen ↦ elim (Bool-cases (leb max_seen_events (length s.seen_event_ids))) [
    | inl full ↦ rw (unseen, full) refl
    | inr room ↦ rw (unseen, room) refl
  ]
]

module _ (j : Bytes) where
  record_in_slot-other :
      (o : Option FiberSlot) (s : SessionIndex) (k id : Bytes)
      → k ≢ j
      → Dict.get j (record_in_slot o s k id).1.fibers ≡ Dict.get j s.fibers
  unfolding record_in_slot
  record_in_slot-other none s k id differ = ap (Dict.get j) (record_seen-fibers s id)
  record_in_slot-other (some (active tip)) s k id differ = ap (Dict.get j) (record_seen-fibers s id)
  record_in_slot-other (some (broken n)) s k id differ = go (next_broken_count n) refl
    where
      go :
          (r : Result OperationFailure ℕ)
          → next_broken_count n ≡ r
          → Dict.get j (record_in_slot (some (broken n)) s k id).1.fibers ≡ Dict.get j s.fibers
      go (ok c) e =
          rw (e, record_in_slot)
            (ap (Dict.get j)
                (record_seen-fibers (record s { fibers = Dict.insert k (broken c) s.fibers }) id)
              ∙ get-insert_other k j (broken c) s.fibers differ)
      go (err x) e = rw (e, record_in_slot) refl

  module _ (blake3 : Bytes → Bytes) where
    break_fiber-other :
        (s : SessionIndex) (env : EventEnvelope)
        → env.header.fiber_id ≢ j
        → Dict.get j (break_fiber blake3 s env).1.fibers ≡ Dict.get j s.fibers
    unfolding break_fiber record_broken_event_id
    break_fiber-other s env differ = go (mark_fiber_broken s env.header.fiber_id) refl
      where
        go :
            (r : Result OperationFailure SessionIndex)
            → mark_fiber_broken s env.header.fiber_id ≡ r
            → Dict.get j (break_fiber blake3 s env).1.fibers ≡ Dict.get j s.fibers
        go (ok s') e =
            let k = env.header.fiber_id in
            let marked : s'.fibers
                ≡ Dict.insert k (broken (slot_count (Dict.get k s.fibers))) s.fibers =
              ap (λ (x : SessionIndex). x.fibers) (mark_fiber_broken-eq-ok s k e).0 in
            rw (e, break_fiber)
              (record_in_slot-other (Dict.get k s'.fibers) s' k env.header.event_id differ
                ∙ ap (Dict.get j) marked
                ∙ get-insert_other k j _ s.fibers differ)
        go (err x) e = rw (e, break_fiber) refl

    after_validation-other :
        (r : Result OperationFailure (Unit {0})) (s : SessionIndex) (env : EventEnvelope)
        → env.header.fiber_id ≢ j
        → Dict.get j (after_validation blake3 r s env).1.fibers ≡ Dict.get j s.fibers
    unfolding after_validation commit_envelope_unchecked
    after_validation-other (ok _) s env differ =
        get-insert_other env.header.fiber_id j _ s.fibers differ
    after_validation-other (err e) s env differ = elim (Bool-cases (is_chain_broken e)) [
      | inl breaks ↦ rw breaks (break_fiber-other s env differ)
      | inr refused ↦ rw refused refl
    ]

    process_in_slot-other :
        (o : Option FiberSlot) (s : SessionIndex) (env : EventEnvelope)
        → env.header.fiber_id ≢ j
        → Dict.get j (process_in_slot blake3 o s env).1.fibers ≡ Dict.get j s.fibers
    unfolding process_in_slot record_broken_event_id
    process_in_slot-other none s env differ = after_validation-other _ s env differ
    process_in_slot-other (some (active tip)) s env differ = after_validation-other _ s env differ
    process_in_slot-other (some (broken n)) s env differ =
        record_in_slot-other (Dict.get env.header.fiber_id s.fibers) s env.header.fiber_id
          env.header.event_id differ

-- Processing a frame that decodes to an event, whether the event is committed, breaks its fiber, finds
-- it broken or is refused, leaves the slot of every other fiber as it was.
pub process_frame-other :
    (blake3 : Bytes → Bytes) (s : SessionIndex) (frame : Bytes) (env : EventEnvelope) (j : Bytes)
    → decode_and_validate_frame frame ≡ ok env
    → env.header.fiber_id ≢ j
    → Dict.get j (process_frame blake3 s frame).1.fibers ≡ Dict.get j s.fibers
unfolding process_frame process_envelope
process_frame-other blake3 s frame env j decoded differ =
    elim (Bool-cases (ltb (length frame) 85)) [
      | inl short ↦ rw short refl
      | inr long ↦
          rw (long, decoded)
            (process_in_slot-other j blake3 (Dict.get env.header.fiber_id s.fibers) s env differ)
    ]
