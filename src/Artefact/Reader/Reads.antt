-- ===== src/Artefact/Reader/Reads.antt =====
-- The reads of a session of the reader, one after the other.
use pardosa.Artefact.Reader.Steps.{Steps, read_envelope-Steps}
use pardosa.Artefact.Reader.Chain.{Follows, Tracks, Chained, nothing_read, then_read}
use pardosa.Encoding.Envelope.{EventEnvelope}
use pardosa.Artefact.Reader.{
  ReaderState, ReaderObservation, with_stream, read_next, read_event, mark_terminally_failed,
  ingest, read_when,
}
use pardosa.Prelude.Bytes.{Bytes}
use pardosa.Prelude.Words.{saturating_add}
use pardosa.Failure.{ok}
use pardosa.Prelude.{
  ℕ, ◌≡◌, refl, subst, Bool, some, List, ◌∷◌, length, true, false, ◌-◌, [], if◌then◌else◌, ◌||◌,
}
use pardosa.Prelude.Dict

module _ (capacity : Bytes → ℕ) (blake3 : Bytes → Bytes) (locator : Bytes) where
  -- A session over a stream of envelopes: the events that it has observed, the latest first, and
  -- the state that it has come to.
  pub data Session (envs : List EventEnvelope) : List EventEnvelope → ReaderState → Type 0 where
    stream_opened : Session envs [] (with_stream capacity envs)
    event_read :
        {evs : List EventEnvelope} {env : EventEnvelope} {stream : List EventEnvelope}
        {s s' : ReaderState} {o : ReaderObservation}
        → Session envs evs s
        → s.stream ≡ env ∷ stream
        → read_event capacity blake3 locator s ≡ (some (ok o), s')
        → Session envs (env ∷ evs) s'

  read_next-Steps :
      (s : ReaderState) (evs : List EventEnvelope) (stream : List EventEnvelope)
      {o : ReaderObservation} {s' : ReaderState}
      → Tracks capacity blake3 locator s evs
      → read_next capacity blake3 locator s stream ≡ (some (ok o), s')
      → (env : EventEnvelope) × (rest : List EventEnvelope) × (stream ≡ env ∷ rest)
        × Steps capacity blake3 locator s' o evs env
  read_next-Steps s evs [] tracks h = absurd (cc h)
  read_next-Steps s evs (env ∷ rest) tracks h =
      let s1 : ReaderState = record s {
        stream = rest;
        retained_bytes = s.retained_bytes - saturating_add 85 (capacity env.payload);
      } in
      let tracks1 : Tracks capacity blake3 locator s1 evs = record {
        position = tracks.position;
        fibers = tracks.fibers;
        events = tracks.events;
      } in
      (env, rest, refl, read_envelope-Steps capacity blake3 locator s1 evs env tracks1 h)

  read_event-Steps :
      (s : ReaderState) (evs : List EventEnvelope) {o : ReaderObservation} {s' : ReaderState}
      → Tracks capacity blake3 locator s evs
      → read_event capacity blake3 locator s ≡ (some (ok o), s')
      → (env : EventEnvelope) × (rest : List EventEnvelope) × (s.stream ≡ env ∷ rest)
        × Steps capacity blake3 locator s' o evs env
  unfolding read_event read_when
  read_event-Steps s evs {o} {s'} tracks h =
      go s.capacity_refused s.byte_capacity_refused s.terminally_failed h
    where
      go :
          (items bytes over : Bool)
          → read_when capacity blake3 locator items bytes over s ≡ (some (ok o), s')
          → (env : EventEnvelope) × (rest : List EventEnvelope) × (s.stream ≡ env ∷ rest)
            × Steps capacity blake3 locator s' o evs env
      go true bytes over h' = absurd (cc h')
      go false true over h' = absurd (cc h')
      go false false true h' = absurd (cc h')
      go false false false h' = read_next-Steps s evs s.stream tracks h'

  with_stream-Tracks :
      (envs : List EventEnvelope) → Tracks capacity blake3 locator (with_stream capacity envs) []
  unfolding with_stream mark_terminally_failed
  with_stream-Tracks envs =
      either_way
        ((ingest capacity 0 0 envs).items_refused || (ingest capacity 0 0 envs).bytes_refused) _ _
        (record {
          position = refl;
          fibers = λ id. unfold Dict.get in refl;
          events = λ id. unfold Dict.get in refl;
        })
        (record {
          position = refl;
          fibers = λ id. unfold Dict.get in refl;
          events = λ id. unfold Dict.get in refl;
        })
    where
      either_way :
          (b : Bool) (s t : ReaderState)
          → Tracks capacity blake3 locator s []
          → Tracks capacity blake3 locator t []
          → Tracks capacity blake3 locator (if b then s else t) []
      either_way true s t h1 h2 = h1
      either_way false s t h1 h2 = h2

  Session-Tracks :
      {envs evs : List EventEnvelope} {s : ReaderState}
      → Session envs evs s
      → Tracks capacity blake3 locator s evs × Chained capacity blake3 locator evs
  Session-Tracks {envs} stream_opened = (with_stream-Tracks envs, nothing_read)
  Session-Tracks {evs = _ ∷ evs} (event_read {env = env} {stream} {s} {s'} {o} before head read) =
      let (tracks, chained) = Session-Tracks before in
      let (env', rest, head', steps) = read_event-Steps s evs tracks read in
      let (follows, tracks', observes) = steps in
      let same : env' ≡ env = cc (head, head') in
      (
        subst (λ e. Tracks capacity blake3 locator s' (e ∷ evs)) same tracks',
        then_read chained (subst (Follows capacity blake3 locator evs) same follows),
      )

  -- In a session over any stream of envelopes, each read that observes an event observes the first
  -- one of the queue, and the events observed so far form chains: every identifier is new, an
  -- event starts its fiber with zeroes for a precursor or names the latest event of its fiber and
  -- that event's commitment. The positions count the events from 0.
  pub read_event-Chained :
      {envs evs : List EventEnvelope} {s s' : ReaderState} {o : ReaderObservation}
      → Session envs evs s
      → read_event capacity blake3 locator s ≡ (some (ok o), s')
      → (env : EventEnvelope) × (rest : List EventEnvelope) × (s.stream ≡ env ∷ rest)
        × Chained capacity blake3 locator (env ∷ evs)
        × (o.position ≡ length evs)
        × (o.event_id ≡ env.header.event_id)
        × (o.fiber_id ≡ env.header.fiber_id)
  read_event-Chained {evs = evs} {s} session read =
      let (tracks, chained) = Session-Tracks session in
      let (env, rest, head, steps) = read_event-Steps s evs tracks read in
      let (follows, tracks', observes) = steps in
      (
        env,
        rest,
        head,
        then_read chained follows,
        observes.position,
        observes.event_id,
        observes.fiber_id,
      )
