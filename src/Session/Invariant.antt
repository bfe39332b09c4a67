-- ===== src/Session/Invariant.antt =====
-- What holds of a session index between two calls, and that every operation keeps it.
use pardosa.Encoding.Envelope.{EventEnvelope}
use pardosa.Prelude.Words.{wrapping_add}
use pardosa.Failure.{refuse_if, >>=-eq-ok, refuse_if-eq-ok, ok}
use pardosa.Prelude.{
  ◌≤◌, ◌<◌, ◌≡◌, sym, ◌∙◌, subst, inl, inr, true, false, none, some, List, arith, Bool-cases,
  Option-cases, length, refl, ◌&&◌, Option, leb,
}
use pardosa.Prelude.Bytes.{Bytes, bytes_eq, bytes_eq_iff, bytes_eq_refl}
use pardosa.Prelude.Dict
use pardosa.Encoding.Envelope.Header.{zero_id}
use pardosa.Fiber.Handle.{max_events_per_fiber}
use pardosa.Session.{
  SessionIndex, FiberSlot, active, broken, new, max_seen_events, max_active_fibers,
  mark_has_raw_frames, slot_count, mark_fiber_broken, validate_append, validate_link, next_count,
  commit_envelope_unchecked, is_unknown,
}

-- A tip lies in its own fiber, under an identifier that is not zero and that was seen, and counts
-- within the bound; the count of a broken fiber is within it too.
abbrev pub SlotFits : List Bytes → Bytes → FiberSlot → Type 0
SlotFits seen k (active tip) =
    (tip.envelope.header.fiber_id ≡ k)
    × (0 < tip.event_count)
    × (tip.event_count ≤ max_events_per_fiber)
    × (bytes_eq tip.envelope.header.event_id zero_id ≡ false)
    × (Dict.contains tip.envelope.header.event_id seen ≡ true)
SlotFits seen k (broken event_count) = event_count ≤ max_events_per_fiber

pub record IsConsistent (s : SessionIndex) : Type 0 where
  pub capacity : length s.fibers ≤ max_active_fibers
  pub seen_bound : length s.seen_event_ids ≤ max_seen_events
  pub slots :
      (k : Bytes) (slot : FiberSlot)
      → Dict.get k s.fibers ≡ some slot
      → SlotFits s.seen_event_ids k slot

pub new-IsConsistent : IsConsistent new
unfolding new Dict.get
new-IsConsistent = record {
  capacity = omega arith;
  seen_bound = omega arith;
  slots = λ k slot h. cc;
}

pub mark_has_raw_frames-IsConsistent :
    {s : SessionIndex} → IsConsistent s → IsConsistent (mark_has_raw_frames s)
unfolding mark_has_raw_frames
mark_has_raw_frames-IsConsistent c = record {
  capacity = c.capacity;
  seen_bound = c.seen_bound;
  slots = c.slots;
}

-- More identifiers seen keep a slot as it should be.
pub SlotFits-add :
    (seen : List Bytes) (id k : Bytes) (slot : FiberSlot)
    → SlotFits seen k slot
    → SlotFits (Dict.add id seen) k slot
SlotFits-add seen id k (active tip) h =
    (h.0, h.1, h.2, h.3, ground (arith, Dict.contains-add id tip.envelope.header.event_id seen))
SlotFits-add seen id k (broken c) h = h

-- A slot written at `k`.
pub slots-insert :
    (fibers : List (Bytes × FiberSlot)) (seen : List Bytes) (k : Bytes) (new_slot : FiberSlot)
    → ((j : Bytes) (slot : FiberSlot) → Dict.get j fibers ≡ some slot → SlotFits seen j slot)
    → SlotFits seen k new_slot
    → (j : Bytes) (slot : FiberSlot) → Dict.get j (Dict.insert k new_slot fibers) ≡ some slot
    → SlotFits seen j slot
slots-insert fibers seen k new_slot old fits j slot h =
    let found = sym (Dict.get-insert k j new_slot fibers) ∙ h in
    elim (Bool-cases (bytes_eq k j)) [
      | inl same ↦
          let slots : new_slot ≡ slot = cc (rw same at found) in
          subst (λ i. SlotFits seen i slot) ((bytes_eq_iff k j).0 same)
            (subst (SlotFits seen k) slots fits)
      | inr differ ↦ old j slot (rw differ at found)
    ]

-- A slot written where there is room for it.
pub length-insert :
    (fibers : List (Bytes × FiberSlot)) (k : Bytes) (new_slot : FiberSlot)
    → length fibers ≤ max_active_fibers
    → (Dict.get k fibers ≡ none → length fibers < max_active_fibers)
    → length (Dict.insert k new_slot fibers) ≤ max_active_fibers
length-insert fibers k new_slot bound room = elim (Option-cases (Dict.get k fibers)) [
  | inl new_key ↦ omega (arith, Dict.length-insert_new k new_slot fibers new_key, room new_key)
  | inr (old, found) ↦ omega (arith, Dict.length-insert_old k new_slot old fibers found)
]

slot_count-le :
    (s : SessionIndex) (k : Bytes)
    → IsConsistent s
    → slot_count (Dict.get k s.fibers) ≤ max_events_per_fiber
slot_count-le s k c = go (Dict.get k s.fibers) refl
  where
    go : (o : Option FiberSlot) → Dict.get k s.fibers ≡ o → slot_count o ≤ max_events_per_fiber
    go none e = omega arith
    go (some (active tip)) e = (c.slots k (active tip) e).2
    go (some (broken n)) e = c.slots k (broken n) e

pub mark_fiber_broken-eq-ok :
    (s : SessionIndex) (k : Bytes) {s' : SessionIndex}
    → mark_fiber_broken s k ≡ ok s'
    → (s' ≡ record s {
      fibers = Dict.insert k (broken (slot_count (Dict.get k s.fibers))) s.fibers;
      revision = wrapping_add s.revision 1;
    })
      × (Dict.get k s.fibers ≡ none → length s.fibers < max_active_fibers)
unfolding mark_fiber_broken
mark_fiber_broken-eq-ok s k h =
    let test = is_unknown (Dict.get k s.fibers) && leb max_active_fibers (length s.fibers) in
    let (_, passed, same) = >>=-eq-ok (refuse_if test _) _ h in
    let room = refuse_if-eq-ok test _ passed in (cc same, λ unknown. ground (arith, unknown, room))

pub mark_fiber_broken-IsConsistent :
    (s : SessionIndex) (k : Bytes) {s' : SessionIndex}
    → mark_fiber_broken s k ≡ ok s'
    → IsConsistent s
    → IsConsistent s'
mark_fiber_broken-IsConsistent s k h c =
    let (same, room) = mark_fiber_broken-eq-ok s k h in
    subst IsConsistent (sym same) (record {
      capacity = length-insert s.fibers k _ c.capacity room;
      seen_bound = c.seen_bound;
      slots = slots-insert s.fibers s.seen_event_ids k _ c.slots (slot_count-le s k c);
    })

-- What a validated envelope has passed.
pub validate_append-eq-ok :
    (blake3 : Bytes → Bytes) (s : SessionIndex) (envelope : EventEnvelope)
    → validate_append blake3 s envelope ≡ ok tt
    → (s.has_raw_frames ≡ false)
      × (bytes_eq envelope.header.event_id zero_id ≡ false)
      × (Dict.contains envelope.header.event_id s.seen_event_ids ≡ false)
      × (length s.seen_event_ids < max_seen_events)
      × (validate_link blake3 s (Dict.get envelope.header.fiber_id s.fibers) envelope ≡ ok tt)
unfolding validate_append
validate_append-eq-ok blake3 s envelope h = ground arith

-- The count that a validated envelope gives to its fiber.
validate_link-room :
    (blake3 : Bytes → Bytes) (s : SessionIndex) (o : Option FiberSlot) (envelope : EventEnvelope)
    → validate_link blake3 s o envelope ≡ ok tt
    → (next_count o ≤ max_events_per_fiber) × (o ≡ none → length s.fibers < max_active_fibers)
unfolding validate_link
validate_link-room blake3 s none envelope h = (omega arith, λ e. ground arith)
validate_link-room blake3 s (some (active tip)) envelope h = (ground arith, λ e. cc)
validate_link-room blake3 s (some (broken n)) envelope h = (omega arith, λ e. cc)

next_count-pos : (o : Option FiberSlot) → 0 < next_count o
next_count-pos none = omega arith
next_count-pos (some (active tip)) = omega arith
next_count-pos (some (broken n)) = omega arith

-- Committing an envelope that was validated against a consistent index keeps the index consistent.
pub commit_envelope_unchecked-IsConsistent :
    (blake3 : Bytes → Bytes) (s : SessionIndex) (envelope : EventEnvelope)
    → validate_append blake3 s envelope ≡ ok tt
    → IsConsistent s
    → IsConsistent (commit_envelope_unchecked s envelope)
unfolding commit_envelope_unchecked
commit_envelope_unchecked-IsConsistent blake3 s envelope h c =
    let k = envelope.header.fiber_id in
    let id = envelope.header.event_id in
    let (_, nonzero, fresh, below, link) = validate_append-eq-ok blake3 s envelope h in
    let (within, room) = validate_link-room blake3 s (Dict.get k s.fibers) envelope link in
    record {
      capacity = length-insert s.fibers k _ c.capacity room;
      seen_bound = omega (arith, Dict.length-add_new id s.seen_event_ids fresh);
      slots =
          slots-insert s.fibers (Dict.add id s.seen_event_ids) k _
            (λ j slot e. SlotFits-add s.seen_event_ids id j slot (c.slots j slot e))
            (
              refl,
              next_count-pos (Dict.get k s.fibers),
              within,
              nonzero,
              ground (arith, Dict.contains-add id id s.seen_event_ids, bytes_eq_refl id),
            );
    }
