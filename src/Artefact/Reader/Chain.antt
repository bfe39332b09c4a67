-- ===== src/Artefact/Reader/Chain.antt =====
-- The events that a reader has observed form chains, one for each fiber.
use pardosa.Prelude.Options.{else-eq-some, not-eq-false, map-eq-some, is_some-eq-false}
use pardosa.Session.{max_active_fibers}
use pardosa.Encoding.Envelope.Header.{zero_id, zero_hash}
use pardosa.Artefact.Reader.{
  ReaderState, observed, FiberTracking, ReaderObservation, after_observation, after_admission,
  observe_genesis, observe_event, admit_genesis, admit_later,
}
use pardosa.Encoding.Envelope.{EventEnvelope, compute_envelope_commitment, commitment}
use pardosa.Prelude.Bytes.{Bytes, bytes_eq, bytes_eq_iff}
use pardosa.Prelude.Words.{checked_add, is_some}
use pardosa.Failure.{
  Result, ok_or, OperationFailure, ok, err, refuse_if, >>=-eq-ok, refuse_if-eq-ok, ok_or-eq-ok,
}
use pardosa.Prelude.{
  ℕ, ◌+◌, ◌≡◌, refl, ap, ◌∙◌, ◌⊎◌, Bool, true, false, Option, none, some, List, [], ◌∷◌, arith,
  if◌then◌else◌, length, not, ◌||◌, leb,
}
use mathlib.Core.Option
use pardosa.Prelude.Dict

-- The latest event of a fiber, and the fiber of an event; the latest event of a history is its first.
abbrev pub latest_of : Bytes → List EventEnvelope → Option EventEnvelope
latest_of id [] = none
latest_of id (e ∷ evs) = if bytes_eq e.header.fiber_id id then some e else latest_of id evs

abbrev pub fiber_of : Bytes → List EventEnvelope → Option Bytes
fiber_of id [] = none
fiber_of id (e ∷ evs) =
    if bytes_eq e.header.event_id id then some e.header.fiber_id else fiber_of id evs

checked_add_one : (p : ℕ) {n : ℕ} → checked_add p 1 ≡ some n → n ≡ p + 1
unfolding checked_add
checked_add_one p h = ground (arith, h)

module _ (capacity : Bytes → ℕ) (blake3 : Bytes → Bytes) (locator : Bytes) where
  -- An event that comes behind these: its identifier is new, and it starts its fiber, with zeroes
  -- for a precursor, or it names the latest event of its fiber and that event's commitment.
  pub record Follows (evs : List EventEnvelope) (env : EventEnvelope) : Type 0 where
    pub fresh : fiber_of env.header.event_id evs ≡ none
    pub linked :
        ((env.header.precursor ≡ zero_id)
          × (env.header.precursor_hash ≡ zero_hash)
          × (latest_of env.header.fiber_id evs ≡ none))
        ⊎ ((e : EventEnvelope) × (latest_of env.header.fiber_id evs ≡ some e)
            × (env.header.precursor ≡ e.header.event_id)
            × (env.header.precursor_hash ≡ commitment blake3 e))

  pub data Chained : List EventEnvelope → Type 0 where
    nothing_read : Chained []
    then_read :
        {evs : List EventEnvelope} {env : EventEnvelope}
        → Chained evs
        → Follows evs env
        → Chained (env ∷ evs)

  abbrev pub track : EventEnvelope → FiberTracking
  track e = record {
    last_event_id = e.header.event_id;
    last_commitment_hash = compute_envelope_commitment blake3 e.header e.payload;
  }

  -- The state of a reader that has observed these events.
  pub record Tracks (s : ReaderState) (evs : List EventEnvelope) : Type 0 where
    pub position : s.observed_position ≡ length evs
    pub fibers : (id : Bytes) → Dict.get id s.fibers ≡ Option.map track (latest_of id evs)
    pub events : (id : Bytes) → Dict.get id s.observed_events ≡ fiber_of id evs

  pub observed-Tracks :
      (genesis : Bool) (s : ReaderState) (evs : List EventEnvelope) (env : EventEnvelope) (n : ℕ)
      → Tracks s evs
      → n ≡ s.observed_position + 1
      → Tracks (observed capacity blake3 locator genesis env s n).1 (env ∷ evs)
  unfolding observed
  observed-Tracks genesis s evs env n tracks next = record {
    position = omega (arith, tracks.position);
    fibers = λ id.
        Dict.get-insert env.header.fiber_id id (track env) s.fibers
        ∙ ap (λ x. if bytes_eq env.header.fiber_id id then some (track env) else x)
            (tracks.fibers id)
        ∙ tracked (bytes_eq env.header.fiber_id id) (latest_of id evs);
    events = λ id.
        Dict.get-insert env.header.event_id id env.header.fiber_id s.observed_events
        ∙ ap (λ x. if bytes_eq env.header.event_id id then some env.header.fiber_id else x)
            (tracks.events id);
  }
    where
      tracked :
          (b : Bool) (x : Option EventEnvelope)
          → (if b then some (track env) else Option.map track x)
            ≡ Option.map track (if b then some env else x)
      tracked true x = refl
      tracked false x = refl

  after_observation-eq-ok :
      (s : ReaderState) (v : Option (ReaderObservation × ReaderState)) {o : ReaderObservation}
      {s' : ReaderState}
      → after_observation capacity blake3 locator s v ≡ (some (ok o), s')
      → v ≡ some (o, s')
  after_observation-eq-ok s none h = absurd (cc h)
  after_observation-eq-ok s (some (o', s'')) h = cc h

  pub after_admission-eq-ok :
      (observe : EventEnvelope → ReaderState → Option (ReaderObservation × ReaderState))
      (env : EventEnvelope) (s : ReaderState) (r : Result OperationFailure (Unit {0}))
      {o : ReaderObservation} {s' : ReaderState}
      → after_admission capacity blake3 locator observe env s r ≡ (some (ok o), s')
      → (r ≡ ok tt) × (observe env s ≡ some (o, s'))
  after_admission-eq-ok observe env s (err e) h = absurd (cc h)
  after_admission-eq-ok observe env s (ok u) h = (refl, after_observation-eq-ok s (observe env s) h)

  pub observe_genesis-eq-some :
      (env : EventEnvelope) (s : ReaderState) {p : ReaderObservation × ReaderState}
      → observe_genesis capacity blake3 locator env s ≡ some p
      → (n : ℕ) × (n ≡ s.observed_position + 1)
        × (observed capacity blake3 locator true env s n ≡ p)
  unfolding observe_genesis
  observe_genesis-eq-some env s h =
      let (_, h1) =
        else-eq-some
          (not (bytes_eq env.header.precursor zero_id)
            || not (bytes_eq env.header.precursor_hash zero_hash))
          _ h in
      let (_, h2) = else-eq-some (is_some (Dict.get env.header.event_id s.observed_events)) _ h1 in
      let (_, h3) = else-eq-some (leb max_active_fibers (length s.fibers)) _ h2 in
      let (_, h4) = else-eq-some (is_some (Dict.get env.header.fiber_id s.fibers)) _ h3 in
      let (n, added, made) =
        map-eq-some (observed capacity blake3 locator true env s)
          (checked_add s.observed_position 1) h4 in
      (n, checked_add_one s.observed_position added, made)

  pub observe_event-eq-some :
      (env : EventEnvelope) (s : ReaderState) (fiber : FiberTracking)
      {p : ReaderObservation × ReaderState}
      → Dict.get env.header.fiber_id s.fibers ≡ some fiber
      → observe_event capacity blake3 locator env s ≡ some p
      → (n : ℕ) × (n ≡ s.observed_position + 1)
        × (observed capacity blake3 locator false env s n ≡ p)
  unfolding observe_event
  observe_event-eq-some env s fiber {p} found h =
      let (_, h1) = else-eq-some (bytes_eq env.header.precursor zero_id) _ h in
      let (_, h2) = else-eq-some (is_some (Dict.get env.header.event_id s.observed_events)) _ h1 in
      let h2' : (if not (bytes_eq fiber.last_event_id env.header.precursor)
            then none
            else if not (bytes_eq fiber.last_commitment_hash env.header.precursor_hash)
            then none
            else Option.map (observed capacity blake3 locator false env s)
                (checked_add s.observed_position 1))
          ≡ some p =
        rw found at h2 in
      let (_, h3) = else-eq-some (not (bytes_eq fiber.last_event_id env.header.precursor)) _ h2' in
      let (_, h4) =
        else-eq-some (not (bytes_eq fiber.last_commitment_hash env.header.precursor_hash)) _ h3 in
      let (n, added, made) =
        map-eq-some (observed capacity blake3 locator false env s)
          (checked_add s.observed_position 1) h4 in
      (n, checked_add_one s.observed_position added, made)

  pub admit_genesis-eq-ok :
      (env : EventEnvelope) (s : ReaderState)
      → admit_genesis capacity blake3 locator env s ≡ ok tt
      → (env.header.precursor_hash ≡ zero_hash) × (Dict.get env.header.fiber_id s.fibers ≡ none)
  unfolding admit_genesis
  admit_genesis-eq-ok env s h =
      let (_, zeroes, h1) =
        >>=-eq-ok (refuse_if (not (bytes_eq env.header.precursor_hash zero_hash)) _) _ h in
      let (_, _, h2) = >>=-eq-ok (refuse_if (leb max_active_fibers (length s.fibers)) _) _ h1 in
      (
        (bytes_eq_iff env.header.precursor_hash zero_hash).0
            (not-eq-false _ (refuse_if-eq-ok _ _ zeroes)),
        is_some-eq-false _ (refuse_if-eq-ok _ _ h2),
      )

  pub admit_later-eq-ok :
      (env : EventEnvelope) (s : ReaderState)
      → admit_later capacity blake3 locator env s ≡ ok tt
      → (fiber : FiberTracking) × (Dict.get env.header.fiber_id s.fibers ≡ some fiber)
        × (fiber.last_event_id ≡ env.header.precursor)
        × (fiber.last_commitment_hash ≡ env.header.precursor_hash)
  unfolding admit_later
  admit_later-eq-ok env s h =
      let (_, _, h1) = >>=-eq-ok (ok_or (Dict.get env.header.precursor s.observed_events) _) _ h in
      let (_, _, h2) = >>=-eq-ok (refuse_if (not (bytes_eq _ env.header.fiber_id)) _) _ h1 in
      let (fiber, found, h3) = >>=-eq-ok (ok_or (Dict.get env.header.fiber_id s.fibers) _) _ h2 in
      let (_, last, h4) =
        >>=-eq-ok (refuse_if (not (bytes_eq fiber.last_event_id env.header.precursor)) _) _ h3 in
      (
        fiber,
        ok_or-eq-ok _ _ found,
        (bytes_eq_iff fiber.last_event_id env.header.precursor).0
            (not-eq-false _ (refuse_if-eq-ok _ _ last)),
        (bytes_eq_iff fiber.last_commitment_hash env.header.precursor_hash).0
            (not-eq-false _ (refuse_if-eq-ok _ _ h4)),
      )
