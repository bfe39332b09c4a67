-- ===== src/Artefact/Reader.antt =====
-- The reader of a stream of events (`ArtefactReader`, `ReaderState`, `ReaderObservation` and
-- `ResumeCursor` of crates/pardosa/src/store.rs). The brands, which keep the sessions of one program
-- apart, are left out. The capacity of a payload's buffer is the allocator's, an argument; a method
-- on the cell returns the state after it.
pub mod Chain
pub mod Steps
pub mod Reads
pub mod Ingestion
pub mod Terminal
use pardosa.Container.Frame.{ContainerFrame}
use pardosa.Encoding.Envelope.Header.{zero_id, zero_hash}
use pardosa.Prelude.Bytes.{Bytes, bytes_eq}
use pardosa.Prelude.Words.{and_then, is_some, filter_some, checked_add, saturating_add}
use pardosa.Failure.{
  Result, ◌>>=◌, ◌>>◌, refuse_if, ok_or, CausalChainError, OperationFailure, failure,
  too_long_failure, chain_failure, ok, err, precursor_out_of_range, precursor_wrong_fiber,
  precursor_chain_broken, map_err,
}
use pardosa.Prelude.{
  ℕ, ◌-◌, String, Bool, true, false, not, ◌||◌, Option, none, some, List, [], ◌∷◌, leb,
  if◌then◌else◌, length, ltb, ◌==◌,
}
use pardosa.Prelude.Dict
use mathlib.Core.Option
use pardosa.Encoding.Envelope
use pardosa.Encoding.Envelope.{EventEnvelope, compute_envelope_commitment}
use pardosa.Session.{max_active_fibers, mismatch_failure}

abbrev pub max_stream_items : ℕ
max_stream_items = 65536

abbrev pub max_stream_bytes : ℕ
max_stream_bytes = 67108864

pub record FiberTracking : Type 0 where
  pub last_event_id : Bytes
  pub last_commitment_hash : Bytes

pub record ReaderState : Type 0 where
  pub observed_position : ℕ
  pub fibers : List (Bytes × FiberTracking)
  pub observed_events : List (Bytes × Bytes)
  pub stream : List EventEnvelope
  pub terminally_failed : Bool
  pub capacity_refused : Bool
  pub byte_capacity_refused : Bool
  pub retained_bytes : ℕ

pub record ResumeCursor : Type 0 where
  pub position : ℕ
  pub event_id : Bytes
  pub locator : Bytes

pub record ReaderObservation : Type 0 where
  pub position : ℕ
  pub event_id : Bytes
  pub fiber_id : Bytes
  pub locator : Bytes
  pub is_genesis : Bool

-- `ReaderObservation::cursor`.
unfoldable pub cursor : ReaderObservation → ResumeCursor
cursor o = record { position = o.position; event_id = o.event_id; locator = o.locator }

-- `resume_from`.
unfoldable pub resume_from : ResumeCursor → ℕ
resume_from c = c.position

-- `regenerate_cursor_for_migration` of the reader with this locator.
unfoldable pub regenerate_cursor_for_migration :
    Bytes → ResumeCursor → ReaderObservation → Option ResumeCursor
unfolding cursor
regenerate_cursor_for_migration locator source_cursor target_observation =
    if bytes_eq locator source_cursor.locator
    then none
    else if not target_observation.is_genesis
    then none
    else if bytes_eq target_observation.event_id source_cursor.event_id
    then none
    else some (cursor target_observation)

-- `mark_terminally_failed`.
unfoldable pub mark_terminally_failed : ReaderState → ReaderState
mark_terminally_failed s = record s { terminally_failed = true; stream = []; retained_bytes = 0 }

module _ (capacity : Bytes → ℕ) where
  -- The ingestion of `with_stream`: what was taken, in order, its charge, and the two refusals.
  pub record Ingested : Type 0 where
    pub taken : List EventEnvelope
    pub retained : ℕ
    pub items_refused : Bool
    pub bytes_refused : Bool

  -- The new total where it is within the limit.
  abbrev pub charge : ℕ → EventEnvelope → Option ℕ
  charge retained env =
      filter_some (λ n. leb n max_stream_bytes)
        (and_then (checked_add 85 (capacity env.payload)) (checked_add retained))

  -- One envelope that is within the limit of the items: `rest` ingests the others.
  abbrev pub ingest_one : EventEnvelope → ℕ → (ℕ → Ingested) → Option ℕ → Ingested
  ingest_one env retained rest (some retained') =
      let others = rest retained' in record others { taken = env ∷ others.taken }
  ingest_one env retained rest none = record {
    taken = [];
    retained = retained;
    items_refused = false;
    bytes_refused = true;
  }

  unfoldable pub ingest : ℕ → ℕ → List EventEnvelope → Ingested
  ingest count retained [] = record {
    taken = [];
    retained = retained;
    items_refused = false;
    bytes_refused = false;
  }
  ingest count retained (env ∷ envs) =
      let count' = saturating_add count 1 in
      if leb count' max_stream_items
      then ingest_one env retained (λ retained'. ingest count' retained' envs) (charge retained env)
      else record { taken = []; retained = retained; items_refused = true; bytes_refused = false }

  -- The state that `with_stream` gives its reader.
  unfoldable pub with_stream : List EventEnvelope → ReaderState
  unfolding ingest mark_terminally_failed
  with_stream envs =
      let i = ingest 0 0 envs in
      let s : ReaderState = record {
        observed_position = 0;
        fibers = [];
        observed_events = [];
        stream = i.taken;
        terminally_failed = false;
        capacity_refused = i.items_refused;
        byte_capacity_refused = i.bytes_refused;
        retained_bytes = i.retained;
      } in
      if i.items_refused || i.bytes_refused then mark_terminally_failed s else s

  -- One round of the loop of `with_frames`: the envelope, and the new count and total.
  unfoldable pub frame_envelope :
      (Bytes → ℕ) → ℕ → ℕ → ContainerFrame → Result OperationFailure (EventEnvelope × ℕ × ℕ)
  frame_envelope crc32c count total frame = do
    count' ← ok_or (checked_add count 1) (too_long_failure "frame item limit exceeded")
    refuse_if (ltb max_stream_items count') (too_long_failure "frame item limit exceeded")
    refuse_if
        (not (
          is_some
            (filter_some (λ n. leb n max_stream_bytes) (checked_add total (length frame.payload)))))
        (too_long_failure "frame byte limit exceeded")
    refuse_if (not (frame.checksum == crc32c frame.payload))
        (mismatch_failure "frame decode error: {}")
    (env, consumed) ←
        map_err (λ _. mismatch_failure "frame decode error: {err}") (Envelope.decode frame.payload)
    refuse_if (not (consumed == length frame.payload)) (mismatch_failure "frame decode error: {}")
    total' ← ok_or (charge total env) (too_long_failure "frame byte limit exceeded")
    ok (env, count', total')

  unfoldable pub frame_envelopes :
      (Bytes → ℕ) → ℕ → ℕ → List ContainerFrame → Result OperationFailure (List EventEnvelope)
  unfolding frame_envelope
  frame_envelopes crc32c count total [] = ok []
  frame_envelopes crc32c count total (frame ∷ frames) = do
    (env, count', total') ← frame_envelope crc32c count total frame
    envs ← frame_envelopes crc32c count' total' frames
    ok (env ∷ envs)

  -- The state that `with_frames` gives its reader.
  unfoldable pub with_frames :
      (Bytes → ℕ) → List ContainerFrame → Result OperationFailure ReaderState
  unfolding frame_envelopes with_stream
  with_frames crc32c frames = do
    envelopes ← frame_envelopes crc32c 0 0 frames
    ok (with_stream envelopes)

  module _ (blake3 : Bytes → Bytes) (locator : Bytes) where
    -- The end of `observe_genesis` and of `observe_event`: the position, the tracking of the fiber,
    -- and the event.
    unfoldable pub observed :
        Bool → EventEnvelope → ReaderState → ℕ → ReaderObservation × ReaderState
    observed is_genesis env s next_pos = (
      record {
        position = s.observed_position;
        event_id = env.header.event_id;
        fiber_id = env.header.fiber_id;
        locator = locator;
        is_genesis = is_genesis;
      },
      record s {
        observed_position = next_pos;
        fibers =
            Dict.insert env.header.fiber_id
              (record {
                last_event_id = env.header.event_id;
                last_commitment_hash = compute_envelope_commitment blake3 env.header env.payload;
              })
              s.fibers;
        observed_events = Dict.insert env.header.event_id env.header.fiber_id s.observed_events;
      },
    )

    -- `observe_genesis`; `none` leaves the state.
    unfoldable pub observe_genesis :
        EventEnvelope → ReaderState → Option (ReaderObservation × ReaderState)
    unfolding observed
    observe_genesis env s =
        if not (bytes_eq env.header.precursor zero_id)
          || not (bytes_eq env.header.precursor_hash zero_hash)
        then none
        else if is_some (Dict.get env.header.event_id s.observed_events)
        then none
        else if leb max_active_fibers (length s.fibers)
        then none
        else if is_some (Dict.get env.header.fiber_id s.fibers)
        then none
        else Option.map (observed true env s) (checked_add s.observed_position 1)

    -- `observe_event`; the fiber's `get_mut` finds what `get` has found.
    unfoldable pub observe_event :
        EventEnvelope → ReaderState → Option (ReaderObservation × ReaderState)
    unfolding observed
    observe_event env s =
        if bytes_eq env.header.precursor zero_id
        then none
        else if is_some (Dict.get env.header.event_id s.observed_events)
        then none
        else elim (Dict.get env.header.fiber_id s.fibers) [
          | none ↦ none
          | some fiber ↦
              if not (bytes_eq fiber.last_event_id env.header.precursor)
              then none
              else if not (bytes_eq fiber.last_commitment_hash env.header.precursor_hash)
              then none
              else Option.map (observed false env s) (checked_add s.observed_position 1)
        ]

    -- The tests of `read_event` on the first event of a fiber, and on a later one.
    unfoldable pub admit_genesis : EventEnvelope → ReaderState → Result OperationFailure (Unit {0})
    admit_genesis env s = do
      refuse_if (not (bytes_eq env.header.precursor_hash zero_hash))
          (chain_failure "genesis envelope has non-zero precursor commitment hash per C4.19")
      refuse_if (leb max_active_fibers (length s.fibers))
          (too_long_failure "active tracked fibers capacity exceeded per C6.7")
      refuse_if (is_some (Dict.get env.header.fiber_id s.fibers))
          (chain_failure "duplicate genesis on same fiber per C5.22")

    abbrev pub chain_error : CausalChainError → String → OperationFailure
    chain_error e = failure (precursor_chain_broken (some e))

    unfoldable pub admit_later : EventEnvelope → ReaderState → Result OperationFailure (Unit {0})
    admit_later env s = do
      prev_fiber ← ok_or (Dict.get env.header.precursor s.observed_events) (
          chain_error precursor_out_of_range
            "precursor event ID is not resident in reader history per C6.12")
      refuse_if (not (bytes_eq prev_fiber env.header.fiber_id)) (
          chain_error precursor_wrong_fiber
            "precursor event belongs to another resident fiber per C6.12")
      fiber ← ok_or (Dict.get env.header.fiber_id s.fibers) (
          chain_error precursor_out_of_range
            "fiber has no observed genesis in this artefact per C6.12")
      refuse_if (not (bytes_eq fiber.last_event_id env.header.precursor))
          (chain_failure "precursor is a stale non-immediate event on the same fiber per C5.22")
      refuse_if (not (bytes_eq fiber.last_commitment_hash env.header.precursor_hash)) (
          chain_failure "precursor commitment hash does not match predecessor commitment per C5.40")

    abbrev pub ReadResult : Type 0
    ReadResult = Option (Result OperationFailure ReaderObservation) × ReaderState

    -- A failure of the reader: it is terminal.
    abbrev pub failed : OperationFailure → ReaderState → ReadResult
    failed e s = (some (err e), mark_terminally_failed s)

    abbrev pub after_observation :
        ReaderState → Option (ReaderObservation × ReaderState) → ReadResult
    after_observation s none = failed (too_long_failure "observed position counter overflow") s
    after_observation s (some (o, s')) = (some (ok o), s')

    abbrev pub after_admission :
        (EventEnvelope → ReaderState → Option (ReaderObservation × ReaderState))
        → EventEnvelope
        → ReaderState
        → Result OperationFailure (Unit {0})
        → ReadResult
    after_admission observe env s (err e) = failed e s
    after_admission observe env s (ok _) = after_observation s (observe env s)

    -- `read_event` from the event that was taken out of the queue on.
    unfoldable pub read_envelope : EventEnvelope → ReaderState → ReadResult
    unfolding mark_terminally_failed observe_genesis observe_event admit_genesis admit_later
    read_envelope env s =
        if is_some (Dict.get env.header.event_id s.observed_events)
        then failed (chain_failure "duplicate event ID observed across reader session per C5.61") s
        else if bytes_eq env.header.precursor zero_id
        then after_admission observe_genesis env s (admit_genesis env s)
        else after_admission observe_event env s (admit_later env s)

    abbrev pub read_next : ReaderState → List EventEnvelope → ReadResult
    read_next s [] = (none, s)
    read_next s (env ∷ stream) = read_envelope env (record s {
      stream = stream;
      retained_bytes = s.retained_bytes - saturating_add 85 (capacity env.payload);
    })

    -- The tests of `read_event`: a refusal of the items, one of the bytes, and a terminal failure.
    unfoldable pub read_when : Bool → Bool → Bool → ReaderState → ReadResult
    unfolding read_envelope mark_terminally_failed
    read_when true bytes over s = (
      some (err (too_long_failure "stream item limit exceeded")),
      record (mark_terminally_failed s) { capacity_refused = false },
    )
    read_when false true over s = (
      some (err (too_long_failure "stream byte limit exceeded")),
      record (mark_terminally_failed s) { byte_capacity_refused = false },
    )
    read_when false false true s = (none, s)
    read_when false false false s = read_next s s.stream

    -- `read_event`.
    unfoldable pub read_event : ReaderState → ReadResult
    unfolding read_when
    read_event s = read_when s.capacity_refused s.byte_capacity_refused s.terminally_failed s
