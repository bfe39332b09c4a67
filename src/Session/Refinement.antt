-- ===== src/Session/Refinement.antt =====
-- A session index against the histories of the fibers: what it keeps of a fiber, its tip and its
-- count, is what replaying all the events of the fiber gives.
use pardosa.Fiber.Handle.Coherence.{
  IsLive, IsCoherent, CoherentIn, with_state-IsCoherent, with_fields_of,
}
use pardosa.Fiber.State.{defined, detached}
use pardosa.Fiber.Handle.{FiberHandle, with_state}
use pardosa.Prelude.Bytes.{Bytes, bytes_eq, bytes_eq_iff}
use pardosa.Prelude.{
  ◌<◌, ◌≡◌, subst, true, false, Option, none, some, List, [], ◌∷◌, ◌++◌, arith, if◌then◌else◌,
  length, ℕ, ◌+◌, refl, sym, ◌∙◌, length-append, inl, inr, Bool, Bool-cases, ap, zero-add, ◌⊎◌,
  false≢true,
}
use pardosa.Failure.{ok, >>=-eq-ok, FailsWith, invariant_breaking_configuration}
use pardosa.Prelude.Dict
use pardosa.Encoding.Envelope.{EventEnvelope, commitment}
use pardosa.Encoding.Envelope.Header.{zero_hash, zero_id}
use pardosa.Fiber.Handle.Replay.{
  Replay, replay, replay_start, replay_step, check_position, replay-append, replay_step-eq-ok,
  check_position_later, from_envelopes, from_envelopes-eq-ok,
}
use pardosa.Session.{
  SessionIndex, FiberSlot, active, broken, new, commit_envelope, commit_envelope_unchecked,
  validate_append, validate_link, fiber, tip_state, next_count, FiberTip,
}
use pardosa.Session.Invariant.{
  IsConsistent, new-IsConsistent, commit_envelope_unchecked-IsConsistent, validate_append-eq-ok,
}

-- The events of a fiber, in the order of the whole sequence.
unfoldable pub events_of : Bytes → List EventEnvelope → List EventEnvelope
events_of k [] = []
events_of k (e ∷ es) = if bytes_eq e.header.fiber_id k then e ∷ events_of k es else events_of k es

events_of-append :
    (k : Bytes) (es : List EventEnvelope) (e : EventEnvelope)
    → events_of k (es ++ (e ∷ []))
      ≡ (if bytes_eq e.header.fiber_id k then events_of k es ++ (e ∷ []) else events_of k es)
unfolding events_of
events_of-append k [] e = ground arith
events_of-append k (d ∷ es) e = ground (arith, events_of-append k es e)

module _ (blake3 : Bytes → Bytes) where
  -- What a new session holds after it has committed these events, in their order.
  pub data Committed : List EventEnvelope → SessionIndex → Type 0 where
    nothing_yet : Committed [] new
    one_more :
        {es : List EventEnvelope} {s s' : SessionIndex} (e : EventEnvelope)
        → Committed es s
        → commit_envelope blake3 s e ≡ ok s'
        → Committed (es ++ (e ∷ [])) s'

  commit_envelope-eq-ok :
      (s : SessionIndex) (e : EventEnvelope) {s' : SessionIndex}
      → commit_envelope blake3 s e ≡ ok s'
      → (validate_append blake3 s e ≡ ok tt) × (commit_envelope_unchecked s e ≡ s')
  unfolding commit_envelope
  commit_envelope-eq-ok s e h =
      let (_, valid, same) = >>=-eq-ok (validate_append blake3 s e) _ h in (valid, cc same)

  pub Committed-IsConsistent :
      {es : List EventEnvelope} {s : SessionIndex} → Committed es s → IsConsistent s
  Committed-IsConsistent nothing_yet = new-IsConsistent
  Committed-IsConsistent (one_more {s = s} e c h) =
      let (valid, same) = commit_envelope-eq-ok s e h in
      subst IsConsistent same
        (commit_envelope_unchecked-IsConsistent blake3 s e valid (Committed-IsConsistent c))

  -- The slot of a fiber against the fiber's events.
  pub record TipTracks (seen : List Bytes) (tip : FiberTip) (k : Bytes) (es : List EventEnvelope)
      (r : Replay) : Type 0 where
    pub replayed : replay blake3 k 0 es replay_start ≡ ok r
    pub state : r.current_state ≡ tip_state tip.envelope
    pub event_id : r.prev_event_id ≡ tip.envelope.header.event_id
    pub hash : r.prev_commitment ≡ commitment blake3 tip.envelope
    pub count : length es ≡ tip.event_count
    pub before : List EventEnvelope
    pub is_last : es ≡ before ++ (tip.envelope ∷ [])
    pub seen_by_session :
        (id : Bytes) → Dict.contains id r.seen_ids ≡ true → Dict.contains id seen ≡ true

  abbrev SlotTracks : List Bytes → Option FiberSlot → Bytes → List EventEnvelope → Type 0
  SlotTracks seen none k es = es ≡ []
  SlotTracks seen (some (active tip)) k es = (r : Replay) × TipTracks seen tip k es r
  SlotTracks seen (some (broken n)) k es = ⊥

  SlotTracks-add :
      (seen : List Bytes) (id : Bytes) (o : Option FiberSlot) (k : Bytes) (es : List EventEnvelope)
      → SlotTracks seen o k es
      → SlotTracks (Dict.add id seen) o k es
  SlotTracks-add seen id none k es h = h
  SlotTracks-add seen id (some (active tip)) k es (r, t) = (
    r,
    record {
      replayed = t.replayed;
      state = t.state;
      event_id = t.event_id;
      hash = t.hash;
      count = t.count;
      before = t.before;
      is_last = t.is_last;
      seen_by_session =
          λ i found. ground (arith, Dict.contains-add id i seen, t.seen_by_session i found);
    },
  )
  SlotTracks-add seen id (some (broken n)) k es h = elim h [ ]

  -- One more round of the replay.
  replayed_tip :
      (s : SessionIndex) (e : EventEnvelope) (es : List EventEnvelope) (r : Replay) (n : ℕ)
      → bytes_eq e.header.event_id zero_id ≡ false
      → Dict.contains e.header.event_id s.seen_event_ids ≡ false
      → replay blake3 e.header.fiber_id 0 es replay_start ≡ ok r
      → ((id : Bytes)
          → Dict.contains id r.seen_ids ≡ true
          → Dict.contains id s.seen_event_ids ≡ true)
      → check_position (length es) r e ≡ ok tt
      → length es + 1 ≡ n
      → SlotTracks
          (Dict.add e.header.event_id s.seen_event_ids)
          (some (active (record { envelope = e; event_count = n })))
          e.header.fiber_id
          (es ++ (e ∷ []))
  replayed_tip s e es r n nonzero fresh before inside position count =
      let new_id : Dict.contains e.header.event_id r.seen_ids ≡ false =
        ground (arith, inside e.header.event_id) in
      (
        _,
        record {
          replayed =
              replay-append blake3 e.header.fiber_id 0 es e replay_start before
              ∙ (ap (λ i. replay_step blake3 e.header.fiber_id i r e) (zero-add (length es)))
              ∙ replay_step-eq-ok blake3 e.header.fiber_id (length es) r e nonzero new_id refl
                  position;
          state = refl;
          event_id = refl;
          hash = refl;
          count = omega (arith, length-append es (e ∷ []));
          before = es;
          is_last = refl;
          seen_by_session = λ i found. ground (
            arith,
            inside i,
            Dict.contains-add e.header.event_id i s.seen_event_ids,
            Dict.contains-add e.header.event_id i r.seen_ids,
          );
        },
      )

  -- The new tip of the fiber of a validated event.
  SlotTracks-commit :
      (s : SessionIndex) (e : EventEnvelope) (es : List EventEnvelope) (o : Option FiberSlot)
      → bytes_eq e.header.event_id zero_id ≡ false
      → Dict.contains e.header.event_id s.seen_event_ids ≡ false
      → validate_link blake3 s o e ≡ ok tt
      → ((tip : FiberTip) → o ≡ some (active tip) → 0 < tip.event_count)
      → SlotTracks s.seen_event_ids o e.header.fiber_id es
      → SlotTracks
          (Dict.add e.header.event_id s.seen_event_ids)
          (some (active (record { envelope = e; event_count = next_count o })))
          e.header.fiber_id
          (es ++ (e ∷ []))
  unfolding validate_link
  SlotTracks-commit s e es none nonzero fresh link pos none_yet =
      subst
        (λ l.
          SlotTracks (Dict.add e.header.event_id s.seen_event_ids)
            (some (active (record { envelope = e; event_count = 1 }))) e.header.fiber_id
            (l ++ (e ∷ [])))
        (sym none_yet)
        (replayed_tip s e [] replay_start 1 nonzero fresh (unfold replay in refl)
          (λ id h. absurd (unfold Dict.contains in cc h)) (unfold check_position in ground arith)
          refl)
  SlotTracks-commit s e es (some (active tip)) nonzero fresh link pos (r, t) =
      replayed_tip s e es r (tip.event_count + 1) nonzero fresh t.replayed t.seen_by_session
        (check_position_later (length es) r e (omega (arith, pos tip refl, t.count))
          (ground (arith, bytes_eq_iff e.header.precursor tip.envelope.header.event_id, t.event_id))
          (ground
            (arith, bytes_eq_iff e.header.precursor_hash (commitment blake3 tip.envelope), t.hash)))
        (omega (arith, t.count))
  SlotTracks-commit s e es (some (broken n)) nonzero fresh link pos tracks = elim tracks [ ]

  -- The slots after a validated event.
  SlotTracks-insert :
      (s : SessionIndex) (e : EventEnvelope) (es : List EventEnvelope)
      → IsConsistent s
      → validate_append blake3 s e ≡ ok tt
      → ((k : Bytes) → SlotTracks s.seen_event_ids (Dict.get k s.fibers) k (events_of k es))
      → (k : Bytes)
      → SlotTracks
          (Dict.add e.header.event_id s.seen_event_ids)
          (Dict.get k (
            Dict.insert e.header.fiber_id
              (active (record {
                envelope = e;
                event_count = next_count (Dict.get e.header.fiber_id s.fibers);
              }))
              s.fibers))
          k
          (events_of k (es ++ (e ∷ [])))
  SlotTracks-insert s e es consistent valid tracks k =
      let fid = e.header.fiber_id in
      let (_, nonzero, fresh, _, link) = validate_append-eq-ok blake3 s e valid in
      rw
        (
          events_of-append k es e,
          Dict.get-insert fid k
              (active (record { envelope = e; event_count = next_count (Dict.get fid s.fibers) }))
              s.fibers,
        )
        (elim (Bool-cases (bytes_eq fid k)) [
          | inl same ↦ rw same (
              subst
                (λ j.
                  SlotTracks (Dict.add e.header.event_id s.seen_event_ids)
                    (some (
                      active (record {
                        envelope = e;
                        event_count = next_count (Dict.get fid s.fibers);
                      })))
                    j (events_of j es ++ (e ∷ [])))
                ((bytes_eq_iff fid k).0 same)
                (SlotTracks-commit s e (events_of fid es) (Dict.get fid s.fibers) nonzero fresh link
                  (λ tip found. (consistent.slots fid (active tip) found).1) (tracks fid)))
          | inr differ ↦ rw differ (
              SlotTracks-add s.seen_event_ids e.header.event_id (Dict.get k s.fibers) k
                (events_of k es) (tracks k))
        ])

  Committed-Tracks :
      {es : List EventEnvelope} {s : SessionIndex}
      → Committed es s
      → (s.has_raw_frames ≡ false)
        × ((k : Bytes) → SlotTracks s.seen_event_ids (Dict.get k s.fibers) k (events_of k es))
  unfolding events_of new Dict.get commit_envelope_unchecked
  Committed-Tracks nothing_yet = (refl, λ k. refl)
  Committed-Tracks (one_more {es = es} {s = s} e c h) =
      let (valid, same) = commit_envelope-eq-ok s e h in
      let (raw, tracks) = Committed-Tracks c in
      subst
        (λ s'.
          (s'.has_raw_frames ≡ false)
          × ((k : Bytes)
              → SlotTracks s'.seen_event_ids (Dict.get k s'.fibers) k
                  (events_of k (es ++ (e ∷ [])))))
        same (raw, SlotTracks-insert s e es (Committed-IsConsistent c) valid tracks)

-- The state of a tip is one of the two in which a handle has events.
IsLive-IsCoherent :
    (h : FiberHandle) (b : Bool)
    → h.state ≡ (if b then detached else defined)
    → IsLive h
    → IsCoherent h
IsLive-IsCoherent h true e live = subst (λ s. CoherentIn s h) (sym e) live
IsLive-IsCoherent h false e live = subst (λ s. CoherentIn s h) (sym e) live

with_state-IsLive :
    (h : FiberHandle) (b : Bool)
    → h.state ≡ (if b then detached else defined)
    → IsLive h
    → with_state h.fiber_id h.state h.precursor h.precursor_hash h.event_count ≡ ok h
with_state-IsLive h b e live = elim (with_state-IsCoherent h) [
  | inl (_, accepted) ↦ accepted
  | inr (incoherent, _) ↦ absurd (incoherent (IsLive-IsCoherent h b e live))
]

-- A handle with the hash of its tip at zero is refused.
with_state-zero :
    (h : FiberHandle) (b : Bool)
    → h.state ≡ (if b then detached else defined)
    → h.precursor_hash ≡ zero_hash
    → FailsWith (with_fields_of h) invariant_breaking_configuration
with_state-zero h b e no_hash = elim (with_state-IsCoherent h) [
  | inl (coherent, _) ↦ absurd (zero_not_coherent b e coherent)
  | inr (_, refused) ↦ refused
]
  where
    zero_not_coherent : (b : Bool) → h.state ≡ (if b then detached else defined) → IsCoherent h → ⊥
    zero_not_coherent true e' c = (subst (λ s. CoherentIn s h) e' c).precursor_hash no_hash
    zero_not_coherent false e' c = (subst (λ s. CoherentIn s h) e' c).precursor_hash no_hash

-- What a session answers for a fiber, after it committed any sequence of events, is the handle that
-- replaying the fiber's own events gives: unknown, or with their state, tip and number. Only where
-- the commitment of the fiber's last event is the zero hash does it refuse an answer.
pub fiber-Committed :
    (blake3 : Bytes → Bytes) {es : List EventEnvelope} {s : SessionIndex}
    → Committed blake3 es s
    → (k : Bytes)
    → (fiber blake3 s k ≡ from_envelopes blake3 k (events_of k es))
      ⊎ ((before : List EventEnvelope) × (last : EventEnvelope) × (events_of k es
            ≡ before ++ (last ∷ []))
          × (commitment blake3 last ≡ zero_hash)
          × FailsWith (fiber blake3 s k) invariant_breaking_configuration)
unfolding fiber from_envelopes
fiber-Committed blake3 {es} {s} c k =
    let (raw, tracks) = Committed-Tracks blake3 c in go raw (Dict.get k s.fibers) refl (tracks k)
  where
    go :
        s.has_raw_frames ≡ false
        → (o : Option FiberSlot) → Dict.get k s.fibers ≡ o
        → SlotTracks blake3 s.seen_event_ids o k (events_of k es)
        → (fiber blake3 s k ≡ from_envelopes blake3 k (events_of k es))
          ⊎ ((before : List EventEnvelope) × (last : EventEnvelope) × (events_of k es
                ≡ before ++ (last ∷ []))
              × (commitment blake3 last ≡ zero_hash)
              × FailsWith (fiber blake3 s k) invariant_breaking_configuration)
    go raw none e none_yet = inl (rw (raw, e, none_yet) refl)
    go raw (some (broken n)) e tracks = elim tracks [ ]
    go raw (some (active tip)) e (r, t) =
        let fits = (Committed-IsConsistent blake3 c).slots k (active tip) e in
        let h : FiberHandle = record {
          fiber_id = k;
          state = tip_state tip.envelope;
          precursor = tip.envelope.header.event_id;
          precursor_hash = commitment blake3 tip.envelope;
          event_count = tip.event_count;
        } in
        elim (Bool-cases (bytes_eq (commitment blake3 tip.envelope) zero_hash)) [
          | inl is_zero ↦
              let no_hash = (bytes_eq_iff (commitment blake3 tip.envelope) zero_hash).0 is_zero in
              inr (
                t.before,
                tip.envelope,
                t.is_last,
                no_hash,
                rw (raw, e) (with_state-zero h tip.envelope.header.detached refl no_hash),
              )
          | inr nonzero ↦
              let live : IsLive h = record {
                precursor = λ same.
                    ground (arith, bytes_eq_iff tip.envelope.header.event_id zero_id, fits.3);
                precursor_hash = λ same. false≢true (
                    sym nonzero ∙ (bytes_eq_iff (commitment blake3 tip.envelope) zero_hash).1 same);
                some_event = fits.1;
                within = fits.2;
              } in
              let replayed =
                from_envelopes-eq-ok blake3 k (events_of k es) r (omega (arith, fits.1, t.count))
                  (omega (arith, fits.2, t.count)) t.replayed in
              inl (
                rw (raw, e, replayed, t.state, t.event_id, t.hash, t.count)
                  (with_state-IsLive h tip.envelope.header.detached refl live))
        ]
