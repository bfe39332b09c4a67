-- ===== src/Examples/Readers.antt =====
-- The reader at concrete inputs.
use pardosa.Artefact.Reader.Terminal.{read_event-Reached, not_read}
use pardosa.Artefact.Reader.Reads.{read_event-Chained, event_read, stream_opened}
use pardosa.Artefact.Reader.Chain.{Chained}
use pardosa.Encoding.Envelope.{EventEnvelope}
use pardosa.Artefact.Reader.{
  ReaderState, with_stream, read_event, ReaderObservation, ingest, mark_terminally_failed,
  read_when, read_envelope, observe_genesis, admit_later, admit_genesis, observe_event, observed,
}
use pardosa.Failure.{
  OperationFailure, failure, ok, err, precursor_out_of_range, precursor_chain_broken,
}
use pardosa.Prelude.{ℕ, ◌≡◌, refl, Bool, true, false, not, none, some, List, [], ◌∷◌, length}
use pardosa.Examples.Data.{toy_hash, first_event, second_event}

abbrev both_events : List EventEnvelope
both_events = first_event ∷ second_event ∷ []

abbrev opened_reader : ReaderState
opened_reader = with_stream length both_events

abbrev after_first : ReaderState
after_first = (read_event length toy_hash [] opened_reader).1

abbrev after_second : ReaderState
after_second = (read_event length toy_hash [] after_first).1

abbrev observation : ℕ → EventEnvelope → Bool → ReaderObservation
observation n env genesis = record {
  position = n;
  event_id = env.header.event_id;
  fiber_id = env.header.fiber_id;
  locator = [];
  is_genesis = genesis;
}

first_read :
    read_event length toy_hash [] opened_reader
    ≡ (some (ok (observation 0 first_event true)), after_first)
unfolding with_stream ingest read_event read_when read_envelope mark_terminally_failed
    observe_genesis admit_genesis observed pardosa.Prelude.Dict.get pardosa.Prelude.Dict.insert
    pardosa.Prelude.Words.checked_add pardosa.Prelude.Words.saturating_add
    pardosa.Prelude.Bytes.bytes_eq pardosa.Encoding.Envelope.Header.zero_id
    pardosa.Encoding.Envelope.Header.zero_hash
first_read = refl

first_waits : opened_reader.stream ≡ both_events
unfolding with_stream ingest pardosa.Prelude.Words.checked_add pardosa.Prelude.Words.saturating_add
first_waits = refl

second_read :
    read_event length toy_hash [] after_first
    ≡ (some (ok (observation 1 second_event false)), after_second)
unfolding with_stream ingest read_event read_when read_envelope mark_terminally_failed
    observe_genesis observe_event admit_genesis admit_later observed pardosa.Prelude.Dict.get
    pardosa.Prelude.Dict.insert pardosa.Prelude.Words.checked_add
    pardosa.Prelude.Words.saturating_add pardosa.Prelude.Bytes.bytes_eq
    pardosa.Encoding.Envelope.commitment pardosa.Encoding.Envelope.compute_envelope_commitment
    pardosa.Encoding.Envelope.committed_bytes pardosa.Encoding.Envelope.Header.zero_id
    pardosa.Encoding.Envelope.Header.zero_hash
second_read = refl

-- The events in the wrong order: the first read fails.
abbrev swapped_reader : ReaderState
swapped_reader = with_stream length (second_event ∷ first_event ∷ [])

abbrev out_of_range : OperationFailure
out_of_range =
    failure (precursor_chain_broken (some precursor_out_of_range))
      "precursor event ID is not resident in reader history per C6.12"

swapped_refused :
    read_event length toy_hash [] swapped_reader
    ≡ (some (err out_of_range), mark_terminally_failed swapped_reader)
unfolding with_stream ingest read_event read_when read_envelope mark_terminally_failed admit_later
    pardosa.Prelude.Dict.get pardosa.Prelude.Words.checked_add pardosa.Prelude.Words.saturating_add
    pardosa.Prelude.Bytes.bytes_eq pardosa.Encoding.Envelope.Header.zero_id
swapped_refused = refl

read_event-Chained_example :
    (env : EventEnvelope) × (rest : List EventEnvelope) × (after_first.stream ≡ env ∷ rest)
    × Chained length toy_hash [] (env ∷ first_event ∷ [])
    × (◌≡◌ {A = ℕ} 1 1)
    × (second_event.header.event_id ≡ env.header.event_id)
    × (second_event.header.fiber_id ≡ env.header.fiber_id)
read_event-Chained_example =
    read_event-Chained length toy_hash [] (event_read stream_opened first_waits first_read)
      second_read

read_event-Reached_example :
    read_event length toy_hash [] (mark_terminally_failed swapped_reader)
    ≡ (none, mark_terminally_failed swapped_reader)
read_event-Reached_example = read_event-Reached length toy_hash [] not_read swapped_refused
