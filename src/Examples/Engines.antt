-- ===== src/Examples/Engines.antt =====
-- The file engine and the pipeline at concrete inputs.
use pardosa.Session.Recovery.{process_frame}
use pardosa.Fiber.Handle.{FiberHandle, Outcome}
use pardosa.Prelude.Words.{u32_max, is_some}
use pardosa.Store.Pipeline.Discovery.{open_reader, reader_store, open_reader-open_writer}
use pardosa.Store.Pipeline.Landing.{append_envelope_verdict-landed}
use pardosa.Session.{validate_append, commit_envelope_unchecked, SessionIndex}
use pardosa.Store.Pipeline.Uncertain.{undetermined-Written, frame_appended, nothing_written}
use pardosa.Store.Pipeline.Runs.{open_writer-Served, frame_written, opened}
use pardosa.Container.{decode_header, to_bytes, new_header}
use pardosa.File.Engine.Crash.{Recovers, Promises, append_block-Recovers, container}
use pardosa.File.System.{read_frames}
use pardosa.Container.Frame.RoundTrip.{frame_bytes}
use pardosa.Store.Pipeline.Reopen.{Settled}
use pardosa.Container.Scan.{
  new_commitment, read_container_frames, scan_frames, update_frame, RollingCommitment,
}
use pardosa.Examples.Logs.{one_node, claimed_disk, any_descriptor, any_text}
use pardosa.Store.Pipeline.{
  Store, open_writer, append_frame_verdict, admit_frame, after_admission, after_append,
  check_session_authority, is_uncertain, append_envelope_verdict, has_broken_fibers,
  uncertain_failure, reader_failure, write_event,
}
use pardosa.Store.Engine.Recover.{default_recover_frames-visit}
use pardosa.File.Engine.Live.{contents, Live, file_engine-IsFaithful}
use pardosa.Examples.Data.{
  toy_crc, toy_crc-le, toy_hash, first_bytes, first_event, first_header-IsSized,
}
use pardosa.Examples.Disks.{toy_files, toy_files-IsDocumented}
use pardosa.Store.Engine.Contract.{IsFaithful}
use pardosa.Store.Engine.{
  StorageEngine, default_recover_frames, default_read_chunk, visit, undetermined, landed,
}
use pardosa.File.Engine.{FileEngine, append_block, file_engine, standard, recover_frames, scan_pgno}
use pardosa.Prelude.Bytes.{Bytes, bytes_eq, to_le_bytes, from_le_bytes}
use pardosa.Failure.{
  ok, FailsWith, ownership_record_unreadable, precursor_chain_broken, too_long_failure, err,
}
use pardosa.Prelude.{
  ℕ, ◌+◌, ◌≡◌, refl, sym, true, false, none, some, List, [], ◌∷◌, append-nil, arith, length,
  if◌then◌else◌, ltb,
}
use pardosa.File.Engine
use pardosa.Store.Pipeline
use pardosa.Session
use pardosa.Prelude.Dict

abbrev toy_engine : StorageEngine
toy_engine = file_engine toy_files toy_crc one_node any_descriptor any_text

-- An engine that holds the claim of epoch 1, over an empty container.
abbrev idle_engine : FileEngine toy_files
idle_engine = record {
  disk = claimed_disk;
  has_file = true;
  carried_epoch = 1;
  exclusion_policy = standard;
  locked = true;
  frame_count = 0;
  uncertain = false;
  uncertain_diagnostic = none;
  simulate_indeterminate = false;
  simulate_sync_error = false;
  simulate_write_error = false;
  fail_after_n_blocks = none;
  undetermined_after_n_blocks = none;
}

default_recover_frames-visit_example :
    (s' : Unit {0}) × (default_recover_frames
        (λ n frame (st : ℕ). (ok tt, st + length frame))
        (default_read_chunk (λ (s : Unit {0}). (ok ((1 ∷ []) ∷ (2 ∷ 3 ∷ []) ∷ []), s)))
        3
        1
        0
        tt
      ≡ some (
        visit (λ n frame (st : ℕ). (ok tt, st + length frame)) 0 ((1 ∷ []) ∷ (2 ∷ 3 ∷ []) ∷ []) 0,
        s',
      ))
    × Unit {0}
default_recover_frames-visit_example =
    default_recover_frames-visit (λ n frame (st : ℕ). (ok tt, st + length frame))
      (λ (s : Unit {0}). (ok ((1 ∷ []) ∷ (2 ∷ 3 ∷ []) ∷ []), s)) ((1 ∷ []) ∷ (2 ∷ 3 ∷ []) ∷ [])
      (λ s. Unit {0}) (λ s h. (s, refl, tt)) (omega arith) 3 1 0 tt (omega arith) tt

append_block-Recovers_example :
    let p =
      append_block toy_files toy_crc one_node any_descriptor any_text
        (frame_bytes toy_crc (4 ∷ []))
        idle_engine in
    (after : List Bytes) × Recovers toy_crc toy_crc-le (toy_files.pgno p.1.disk) after
    × Promises toy_crc toy_crc-le p.0 [] (4 ∷ []) after
append_block-Recovers_example =
    append_block-Recovers toy_crc toy_crc-le toy_files toy_files-IsDocumented one_node
      any_descriptor any_text idle_engine [] (4 ∷ []) tt (omega arith)
      (sym (append-nil (to_bytes new_header)))

file_engine-IsFaithful_example :
    IsFaithful toy_crc toy_engine (contents toy_files toy_crc) (Live toy_files toy_crc)
file_engine-IsFaithful_example =
    file_engine-IsFaithful toy_files toy_crc toy_crc-le toy_files-IsDocumented one_node
      any_descriptor any_text

idle-Live : Live toy_files toy_crc idle_engine
idle-Live = record {
  healthy = tt;
  has_file = refl;
  payloads = [];
  bounded = tt;
  held = sym (append-nil (to_bytes new_header));
}

-- The store that is opened over the idle engine.
abbrev idle_store : Store toy_engine
idle_store = record {
  engine = record idle_engine { disk = record claimed_disk { offset = 12 } };
  rolling_commitment = new_commitment;
  fiber_index = Session.new;
  broken_reader_cause = none;
  uncertain = false;
  uncertain_diagnostic = none;
}

idle_opened :
    open_writer toy_crc toy_hash toy_engine idle_engine ≡ (ok idle_store, idle_store.engine)
unfolding open_writer recover_frames scan_pgno read_frames read_container_frames scan_frames visit
    decode_header to_bytes new_header to_le_bytes from_le_bytes bytes_eq
idle_opened = refl

abbrev first_store : Store toy_engine
first_store = (append_frame_verdict toy_crc toy_hash toy_engine idle_store first_bytes).1

-- The same store over an engine that does not know whether a write has landed.
abbrev doubtful_store : Store toy_engine
doubtful_store = record idle_store { engine = record idle_engine { simulate_indeterminate = true } }

abbrev after_doubt : Store toy_engine
after_doubt = (append_frame_verdict toy_crc toy_hash toy_engine doubtful_store first_bytes).1

abbrev engine_after : FileEngine toy_files
engine_after =
    (append_block toy_files toy_crc one_node any_descriptor any_text
      (frame_bytes toy_crc first_bytes) idle_store.engine).1

-- The first event lands in the idle store, which may write it, and its landing is undetermined in
-- the doubtful one.
first_event_runs :
    Settled (append_frame_verdict toy_crc toy_hash toy_engine idle_store first_bytes).0
    × (append_frame_verdict toy_crc toy_hash toy_engine doubtful_store first_bytes
        ≡ (ok (undetermined 1), after_doubt))
    × (is_uncertain toy_crc toy_hash toy_engine idle_store ≡ false)
    × (toy_engine.check_authority idle_store.engine ≡ ok tt)
    × (validate_append toy_hash Session.new first_event ≡ ok tt)
    × (append_block toy_files toy_crc one_node any_descriptor any_text
          (frame_bytes toy_crc first_bytes)
          idle_store.engine
        ≡ (ok (landed 1), engine_after))
unfolding append_frame_verdict admit_frame after_admission after_append check_session_authority
    is_uncertain pardosa.File.Engine.check_authority pardosa.File.Engine.append_block
    pardosa.File.Engine.check_append_simulation pardosa.File.Engine.after_simulation
    pardosa.File.Engine.after_seek pardosa.File.Engine.after_write pardosa.File.Engine.after_sync
    pardosa.File.Meta.read_meta_records pardosa.File.Meta.records_of pardosa.File.Meta.apply_frames
    pardosa.File.Meta.apply_frame pardosa.File.Meta.apply_record pardosa.File.System.read_frames
    pardosa.Container.Scan.read_container_frames pardosa.Container.Scan.scan_frames
    pardosa.Container.Scan.scan_step pardosa.Container.Scan.update_frame
    pardosa.Container.Frame.decode pardosa.Container.Frame.try_encode_payload
    pardosa.Container.decode_header pardosa.Container.to_bytes pardosa.Container.new_header
    pardosa.Ownership.Record.Codec.decode_record pardosa.Ownership.Record.Codec.decode_claim
    pardosa.Encoding.Envelope.decode pardosa.Encoding.Envelope.Header.decode
    pardosa.Encoding.Envelope.Header.decode_detached pardosa.Encoding.Envelope.Header.encode
    pardosa.Encoding.Envelope.Header.zero_id pardosa.Encoding.Envelope.Header.zero_hash
    pardosa.Session.validate_append pardosa.Session.validate_link pardosa.Session.new
    pardosa.Prelude.Dict.get pardosa.Prelude.Dict.contains pardosa.Prelude.Words.checked_add
    pardosa.Prelude.Words.saturating_add pardosa.Prelude.Words.wrapping_add
    pardosa.Prelude.Words.u32_try_from pardosa.Prelude.Bytes.to_le_bytes
    pardosa.Prelude.Bytes.from_le_bytes pardosa.Prelude.Bytes.bytes_eq
first_event_runs = (tt, refl, refl, refl, refl, refl)

open_writer-Served_example :
    (engine : FileEngine toy_files) × (open_writer toy_crc toy_hash toy_engine first_store.engine
      ≡ (ok (record first_store { engine = engine }), engine))
    × (contents toy_files toy_crc engine ≡ contents toy_files toy_crc first_store.engine)
open_writer-Served_example =
    open_writer-Served toy_crc toy_hash toy_engine (contents toy_files toy_crc)
      (Live toy_files toy_crc)
      (file_engine-IsFaithful toy_files toy_crc toy_crc-le toy_files-IsDocumented one_node
        any_descriptor any_text)
      (frame_written (opened idle_engine idle-Live idle_opened) first_bytes first_event_runs.0)

undetermined-Written_example :
    let u = (append_frame_verdict toy_crc toy_hash toy_engine after_doubt first_bytes).1 in
    (u ≡ after_doubt)
    × ((next : Bytes)
        → append_frame_verdict toy_crc toy_hash toy_engine u next ≡ (
          err (
              if ltb u32_max (length next)
              then too_long_failure "payload exceeds maximum container frame length (u32::MAX)"
              else uncertain_failure),
          u,
        ))
    × ((method : FiberHandle → Bytes → Bytes → Outcome) (fiber_id event_id next : Bytes)
        → write_event toy_crc toy_hash toy_engine method u fiber_id event_id next
          ≡ (err uncertain_failure, u))
    × ((id : Bytes)
        → FailsWith (Pipeline.fiber toy_crc toy_hash toy_engine u id) ownership_record_unreadable)
    × ((id : Bytes)
        → FailsWith
            (Pipeline.get_latest toy_crc toy_hash toy_engine u id)
            ownership_record_unreadable)
undetermined-Written_example =
    undetermined-Written toy_crc toy_hash toy_engine doubtful_store first_bytes first_event_runs.1
      (frame_appended nothing_written first_bytes)

append_envelope_verdict-landed_example :
    let rolling = update_frame new_commitment (frame_bytes toy_crc first_bytes) in
    append_envelope_verdict toy_crc toy_hash toy_engine idle_store first_event ≡ (
      ok (landed rolling.frame_count),
      record idle_store {
        engine = engine_after;
        rolling_commitment = rolling;
        fiber_index = commit_envelope_unchecked Session.new first_event;
      },
    )
append_envelope_verdict-landed_example =
    append_envelope_verdict-landed toy_crc toy_hash toy_engine idle_store first_event 1 engine_after
      (record { certain = first_event_runs.2; authority = first_event_runs.3 }) first_header-IsSized
      (omega arith) first_event_runs.4 first_event_runs.5

-- An engine whose container holds the first event twice, which breaks the event's fiber.
abbrev repeated_engine : FileEngine toy_files
repeated_engine = record idle_engine {
  disk = record claimed_disk { pgno_bytes = container toy_crc (first_bytes ∷ first_bytes ∷ []) };
}

repeated-Live : Live toy_files toy_crc repeated_engine
unfolding pardosa.Encoding.Envelope.Header.encode pardosa.Encoding.Envelope.Header.zero_id
    pardosa.Encoding.Envelope.Header.zero_hash to_le_bytes
repeated-Live = record {
  healthy = tt;
  has_file = refl;
  payloads = first_bytes ∷ first_bytes ∷ [];
  bounded = (omega arith, omega arith);
  held = refl;
}

abbrev broken_index : SessionIndex
broken_index =
    (process_frame toy_hash (commit_envelope_unchecked Session.new first_event) first_bytes).1

abbrev repeated_rolling : RollingCommitment
repeated_rolling =
    update_frame (update_frame new_commitment (frame_bytes toy_crc first_bytes))
      (frame_bytes toy_crc first_bytes)

abbrev recovered_engine : FileEngine toy_files
recovered_engine = record repeated_engine {
  frame_count = 2;
  disk = record claimed_disk {
    pgno_bytes = container toy_crc (first_bytes ∷ first_bytes ∷ []);
    offset = length (container toy_crc (first_bytes ∷ first_bytes ∷ []));
  };
}

repeated_opened :
    (open_writer toy_crc toy_hash toy_engine repeated_engine ≡ (
      ok (
          reader_store toy_crc toy_hash toy_engine recovered_engine repeated_rolling broken_index
            none),
      recovered_engine,
    ))
    × (has_broken_fibers broken_index ≡ true)
    × (toy_engine.uncertain_diagnostic recovered_engine ≡ none)
unfolding append_frame_verdict admit_frame after_admission after_append check_session_authority
    is_uncertain pardosa.File.Engine.check_authority pardosa.File.Engine.append_block
    pardosa.File.Engine.check_append_simulation pardosa.File.Engine.after_simulation
    pardosa.File.Engine.after_seek pardosa.File.Engine.after_write pardosa.File.Engine.after_sync
    pardosa.File.Meta.read_meta_records pardosa.File.Meta.records_of pardosa.File.Meta.apply_frames
    pardosa.File.Meta.apply_frame pardosa.File.Meta.apply_record pardosa.File.System.read_frames
    pardosa.Container.Scan.read_container_frames pardosa.Container.Scan.scan_frames
    pardosa.Container.Scan.scan_step pardosa.Container.Scan.update_frame
    pardosa.Container.Frame.decode pardosa.Container.Frame.try_encode_payload
    pardosa.Container.decode_header pardosa.Container.to_bytes pardosa.Container.new_header
    pardosa.Ownership.Record.Codec.decode_record pardosa.Ownership.Record.Codec.decode_claim
    pardosa.Encoding.Envelope.decode pardosa.Encoding.Envelope.Header.decode
    pardosa.Encoding.Envelope.Header.decode_detached pardosa.Encoding.Envelope.Header.encode
    pardosa.Encoding.Envelope.Header.zero_id pardosa.Encoding.Envelope.Header.zero_hash
    pardosa.Session.validate_append pardosa.Session.validate_link pardosa.Session.new
    pardosa.Prelude.Dict.get pardosa.Prelude.Dict.contains pardosa.Prelude.Words.checked_add
    pardosa.Prelude.Words.saturating_add pardosa.Prelude.Words.wrapping_add
    pardosa.Prelude.Words.u32_try_from pardosa.Prelude.Bytes.to_le_bytes
    pardosa.Prelude.Bytes.from_le_bytes pardosa.Prelude.Bytes.bytes_eq open_writer recover_frames
    scan_pgno visit has_broken_fibers pardosa.Store.Pipeline.has_broken_slot
    pardosa.Session.Recovery.process_frame pardosa.Session.Recovery.process_envelope
    pardosa.Session.Recovery.process_in_slot pardosa.Session.Recovery.after_validation
    pardosa.Session.Recovery.break_fiber pardosa.Session.mark_fiber_broken
    pardosa.Session.decode_and_validate_frame pardosa.Session.commit_envelope_unchecked
    pardosa.Prelude.Dict.insert pardosa.Prelude.Dict.add
    pardosa.Session.Recovery.record_broken_event_id pardosa.Session.Recovery.next_broken_count
repeated_opened = (refl, refl, refl)

open_reader-open_writer_example :
    (engine : FileEngine toy_files) × (open_reader toy_crc toy_hash toy_engine repeated_engine ≡ (
      if has_broken_fibers broken_index
      then reader_store toy_crc toy_hash toy_engine engine repeated_rolling Session.new
          (some (precursor_chain_broken none))
      else reader_store toy_crc toy_hash toy_engine engine repeated_rolling broken_index none))
    × (contents toy_files toy_crc engine ≡ contents toy_files toy_crc repeated_engine)
    × ((id : Bytes)
        → Pipeline.fiber toy_crc toy_hash toy_engine
            (open_reader toy_crc toy_hash toy_engine repeated_engine)
            id
          ≡ (if is_some (toy_engine.uncertain_diagnostic engine)
              then err uncertain_failure
              else if has_broken_fibers broken_index
              then err (reader_failure (precursor_chain_broken none))
              else Session.fiber toy_hash broken_index id))
    × ((id : Bytes)
        → Pipeline.get_latest toy_crc toy_hash toy_engine
            (open_reader toy_crc toy_hash toy_engine repeated_engine)
            id
          ≡ (if is_some (toy_engine.uncertain_diagnostic engine)
              then err uncertain_failure
              else if has_broken_fibers broken_index
              then err (reader_failure (precursor_chain_broken none))
              else Session.get_latest broken_index id))
open_reader-open_writer_example =
    open_reader-open_writer toy_crc toy_hash toy_engine (contents toy_files toy_crc)
      (Live toy_files toy_crc)
      (file_engine-IsFaithful toy_files toy_crc toy_crc-le toy_files-IsDocumented one_node
        any_descriptor any_text)
      repeated_engine repeated-Live repeated_opened.0
