-- ===== src/Artefact/Reader/Steps.antt =====
-- What the reading of one envelope that is observed says of it.
use pardosa.Prelude.Options.{map-eq-none, map-eq-some, is_some-eq-false}
use pardosa.Encoding.Envelope.Header.{zero_id}
use pardosa.Artefact.Reader.Chain.{
  Follows, Tracks, observed-Tracks, fiber_of, after_admission-eq-ok, admit_genesis-eq-ok,
  observe_genesis-eq-some, track, admit_later-eq-ok, observe_event-eq-some, latest_of,
}
use pardosa.Encoding.Envelope.{EventEnvelope, commitment}
use pardosa.Artefact.Reader.{
  ReaderState, observed, read_envelope, ReaderObservation, after_admission, observe_genesis,
  admit_genesis, observe_event, admit_later, FiberTracking, failed,
}
use pardosa.Prelude.Bytes.{Bytes, bytes_eq, bytes_eq_iff}
use pardosa.Prelude.Words.{is_some}
use pardosa.Failure.{ok}
use pardosa.Prelude.{
  ℕ, ◌+◌, ◌≡◌, refl, subst, inl, inr, Bool, some, List, ◌∷◌, Bool-cases, length, sym, ap, ◌∙◌, true,
  false, none,
}
use pardosa.Prelude.Dict

module _ (capacity : Bytes → ℕ) (blake3 : Bytes → Bytes) (locator : Bytes) where
  -- What a read that observes an event says of it.
  pub record Observes (o : ReaderObservation) (evs : List EventEnvelope) (env : EventEnvelope)
      : Type 0 where
    pub position : o.position ≡ length evs
    pub event_id : o.event_id ≡ env.header.event_id
    pub fiber_id : o.fiber_id ≡ env.header.fiber_id

  abbrev pub Steps : ReaderState → ReaderObservation → List EventEnvelope → EventEnvelope → Type 0
  Steps s' o evs env =
      Follows capacity blake3 locator evs env
      × Tracks capacity blake3 locator s' (env ∷ evs)
      × Observes o evs env

  observed-Steps :
      (genesis : Bool) (s : ReaderState) (evs : List EventEnvelope) (env : EventEnvelope) (n : ℕ)
      {o : ReaderObservation} {s' : ReaderState}
      → Tracks capacity blake3 locator s evs
      → n ≡ s.observed_position + 1
      → observed capacity blake3 locator genesis env s n ≡ (o, s')
      → Tracks capacity blake3 locator s' (env ∷ evs) × Observes o evs env
  unfolding observed
  observed-Steps genesis s evs env n {o} {s'} tracks next made = (
    subst (λ (p : ReaderObservation × ReaderState). Tracks capacity blake3 locator p.1 (env ∷ evs))
        made (observed-Tracks capacity blake3 locator genesis s evs env n tracks next),
    subst (λ (p : ReaderObservation × ReaderState). Observes p.0 evs env) made
        (record { position = tracks.position; event_id = refl; fiber_id = refl }),
  )

  pub read_envelope-Steps :
      (s : ReaderState) (evs : List EventEnvelope) (env : EventEnvelope) {o : ReaderObservation}
      {s' : ReaderState}
      → Tracks capacity blake3 locator s evs
      → read_envelope capacity blake3 locator env s ≡ (some (ok o), s')
      → Steps s' o evs env
  unfolding read_envelope commitment
  read_envelope-Steps s evs env {o} {s'} tracks h =
      let id = env.header.event_id in
      elim (Bool-cases (is_some (Dict.get id s.observed_events))) [
        | inl seen ↦
            let h' : failed capacity blake3 locator _ s ≡ (some (ok o), s') = rw seen at h in
            absurd (cc h')
        | inr new ↦
            let fresh : fiber_of id evs ≡ none =
              sym (tracks.events id) ∙ is_some-eq-false (Dict.get id s.observed_events) new in
            elim (Bool-cases (bytes_eq env.header.precursor zero_id)) [
              | inl first ↦ genesis_read fresh first (rw (new, first) at h)
              | inr later ↦ later_read fresh (rw (new, later) at h)
            ]
      ]
    where
      genesis_read :
          fiber_of env.header.event_id evs ≡ none
          → bytes_eq env.header.precursor zero_id ≡ true
          → after_admission capacity blake3 locator
              (observe_genesis capacity blake3 locator)
              env
              s
              (admit_genesis capacity blake3 locator env s)
            ≡ (some (ok o), s')
          → Steps s' o evs env
      genesis_read fresh first h' =
          let (admitted, made) =
            after_admission-eq-ok capacity blake3 locator (observe_genesis capacity blake3 locator)
              env s (admit_genesis capacity blake3 locator env s) h' in
          let (hash, start) = admit_genesis-eq-ok capacity blake3 locator env s admitted in
          let (n, next, made') = observe_genesis-eq-some capacity blake3 locator env s made in
          let (tracks', observes) = observed-Steps true s evs env n tracks next made' in
          (
            record {
              fresh = fresh;
              linked = inl (
                (bytes_eq_iff env.header.precursor zero_id).0 first,
                hash,
                map-eq-none (track capacity blake3 locator) _
                    (sym (tracks.fibers env.header.fiber_id) ∙ start),
              );
            },
            tracks',
            observes,
          )

      later_read :
          fiber_of env.header.event_id evs ≡ none
          → after_admission capacity blake3 locator
              (observe_event capacity blake3 locator)
              env
              s
              (admit_later capacity blake3 locator env s)
            ≡ (some (ok o), s')
          → Steps s' o evs env
      later_read fresh h' =
          let (admitted, made) =
            after_admission-eq-ok capacity blake3 locator (observe_event capacity blake3 locator)
              env s (admit_later capacity blake3 locator env s) h' in
          let (fiber, found, last, hash) =
            admit_later-eq-ok capacity blake3 locator env s admitted in
          let (n, next, made') =
            observe_event-eq-some capacity blake3 locator env s fiber found made in
          let (tracks', observes) = observed-Steps false s evs env n tracks next made' in
          let (e, latest, tracked) =
            map-eq-some (track capacity blake3 locator) (latest_of env.header.fiber_id evs)
              (sym (tracks.fibers env.header.fiber_id) ∙ found) in
          (
            record {
              fresh = fresh;
              linked = inr (
                e,
                latest,
                sym last ∙ sym (ap (λ (t : FiberTracking). t.last_event_id) tracked),
                sym hash ∙ sym (ap (λ (t : FiberTracking). t.last_commitment_hash) tracked),
              );
            },
            tracks',
            observes,
          )
