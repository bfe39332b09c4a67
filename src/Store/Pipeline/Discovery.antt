-- ===== src/Store/Pipeline/Discovery.antt =====
-- The reader `Store::open_reader` of crates/pardosa/src/store/pipeline.rs.
use pardosa.Store.Pipeline.Reopen.{open_writer-visit}
use pardosa.Store.Engine.Contract.{IsFaithful}
use pardosa.Store.Pipeline.{
  fiber, get_latest, encode_block, has_broken_fibers, on_recovered, Store, Recovered,
  after_encoding, after_recovery, open_writer, nothing_recovered, is_uncertain, uncertain_failure,
  check_reader, reader_failure,
}
use pardosa.Session.Recovery.{process_frame}
use pardosa.Session.{SessionIndex}
use pardosa.Store.Engine.{Callback, StorageEngine, visit, Visit, then_visit}
use pardosa.Container.Scan.{RollingCommitment, update_frame, new_commitment}
use pardosa.Prelude.Bytes.{Bytes}
use pardosa.Prelude.Words.{saturating_add, is_some}
use pardosa.Failure.{Result, FailureCondition, OperationFailure, ok, err, precursor_chain_broken}
use pardosa.Prelude.{
  ℕ, ◌≡◌, refl, ap, ◌∙◌, false, Option, none, some, List, [], ◌∷◌, if◌then◌else◌, sym, String, Bool,
  true,
}
use pardosa.Session

-- The captured variables of the callback of `open_reader`: the last is `broken_cause`.
abbrev pub Discovered : Type 0
Discovered = RollingCommitment × SessionIndex × Option FailureCondition

module _ (crc32c : Bytes → ℕ) (blake3 : Bytes → Bytes) where
  -- What the callback does with the result of `process_frame`.
  abbrev pub after_processing :
      RollingCommitment
      → Result OperationFailure (Unit {0}) × SessionIndex
      → Result OperationFailure (Unit {0}) × Discovered
  after_processing rolling (ok _, index) = (ok tt, (rolling, index, none))
  after_processing rolling (err e, index) = (err e, (rolling, index, some e.condition))

  abbrev pub after_framing :
      Bytes
      → Discovered
      → Result OperationFailure Bytes
      → Result OperationFailure (Unit {0}) × Discovered
  after_framing frame found (err e) = (err e, found)
  after_framing frame (rolling, index, some cause) (ok frame_buf) =
      (ok tt, (update_frame rolling frame_buf, index, some cause))
  after_framing frame (rolling, index, none) (ok frame_buf) =
      after_processing (update_frame rolling frame_buf) (process_frame blake3 index frame)

  -- The callback of `open_reader`.
  unfoldable pub on_discovered : Callback Discovered
  on_discovered seq frame found = after_framing frame found (encode_block crc32c blake3 frame)

  module _ (E : StorageEngine) where
    abbrev pub reader_store :
        E.State → RollingCommitment → SessionIndex → Option FailureCondition → Store E
    reader_store engine rolling index cause = record {
      engine = engine;
      rolling_commitment = rolling;
      fiber_index = index;
      broken_reader_cause = cause;
      uncertain = false;
      uncertain_diagnostic = none;
    }

    -- The end of `open_reader`.
    abbrev pub after_discovery : Visit Discovered × E.State → Store E
    after_discovery ((r, (rolling, index, some cause)), engine) =
        reader_store engine rolling Session.new (some cause)
    after_discovery ((ok _, (rolling, index, none)), engine) =
        if has_broken_fibers index
        then reader_store engine rolling Session.new (some (precursor_chain_broken none))
        else reader_store engine rolling index none
    after_discovery ((err e, (rolling, index, none)), engine) =
        if has_broken_fibers index
        then reader_store engine rolling Session.new (some (precursor_chain_broken none))
        else reader_store engine new_commitment Session.new (some e.condition)

    -- `Store::open_reader`.
    unfoldable pub open_reader : E.State → Store E
    unfolding on_discovered has_broken_fibers
    open_reader engine =
        after_discovery
          (E.recover_frames Discovered 64 on_discovered (new_commitment, Session.new, none) engine)

  -- A frame that a writer recovers, a reader discovers.
  after_framing-ok :
      (frame : Bytes) (rolling : RollingCommitment) (index : SessionIndex)
      (r : Result OperationFailure Bytes) {after : Recovered}
      → after_encoding crc32c blake3 frame (rolling, index) r ≡ (ok tt, after)
      → after_framing frame (rolling, index, none) r ≡ (ok tt, (after.0, after.1, none))
  after_framing-ok frame rolling index (err e) h = absurd (cc h)
  after_framing-ok frame rolling index (ok buf) {after} h = go (process_frame blake3 index frame) h
    where
      go :
          (p : Result OperationFailure (Unit {0}) × SessionIndex)
          → ◌≡◌ {A = Result OperationFailure (Unit {0}) × Recovered}
              (p.0, (update_frame rolling buf, p.1))
              (ok tt, after)
          → after_processing (update_frame rolling buf) p ≡ (ok tt, (after.0, after.1, none))
      go (ok u, index') h' = cc h'
      go (err e, index') h' = absurd (cc h')

  visit-on_discovered :
      (total : ℕ) (frames : List Bytes) (before : Recovered) {n : ℕ} {after : Recovered}
      → visit (on_recovered crc32c blake3) total frames before ≡ (ok n, after)
      → visit on_discovered total frames (before.0, before.1, none)
        ≡ (ok n, (after.0, after.1, none))
  unfolding visit on_recovered on_discovered
  visit-on_discovered total [] before h = cc h
  visit-on_discovered total (frame ∷ frames) before {n} {after} h =
      go (encode_block crc32c blake3 frame)
        (after_encoding crc32c blake3 frame before (encode_block crc32c blake3 frame)) refl h
        (λ st. visit-on_discovered (saturating_add total 1) frames st)
    where
      go :
          (r : Result OperationFailure Bytes) (p : Result OperationFailure (Unit {0}) × Recovered)
          → after_encoding crc32c blake3 frame before r ≡ p
          → then_visit p
              (λ st. visit (on_recovered crc32c blake3) (saturating_add total 1) frames st)
            ≡ (ok n, after)
          → ((st : Recovered)
              → visit (on_recovered crc32c blake3) (saturating_add total 1) frames st
                ≡ (ok n, after)
              → visit on_discovered (saturating_add total 1) frames (st.0, st.1, none)
                ≡ (ok n, (after.0, after.1, none)))
          → then_visit
              (after_framing frame (before.0, before.1, none) r)
              (λ st. visit on_discovered (saturating_add total 1) frames st)
            ≡ (ok n, (after.0, after.1, none))
      go r (err e, st) e1 h' rest = absurd (cc h')
      go r (ok u, st) e1 h' rest =
          ap (λ q. then_visit q (λ st'. visit on_discovered (saturating_add total 1) frames st'))
            (after_framing-ok frame before.0 before.1 r e1)
          ∙ rest st h'

  after_recovery-eq-ok :
      (E : StorageEngine) (v : Visit Recovered) (e' : E.State) {s : Store E} {e'' : E.State}
      → after_recovery crc32c blake3 E (v, e') ≡ (ok s, e'')
      → (n : ℕ) × (v ≡ (ok n, (s.rolling_commitment, s.fiber_index)))
  after_recovery-eq-ok E (err e, st) e' h = absurd (cc h)
  after_recovery-eq-ok E (ok n, (rolling, index)) e' {s} h =
      let same : reader_store E e' rolling index none ≡ s = cc h in
      (n, λ i. (ok n, ((same i).rolling_commitment, (same i).fiber_index)))

  module _ (E : StorageEngine) (engine : E.State) (rolling : RollingCommitment)
      (index : SessionIndex) where
    -- The reader of a history, by whether a fiber of it is broken.
    abbrev reader_of : Bool → Store E
    reader_of b =
        if b
        then reader_store E engine rolling Session.new (some (precursor_chain_broken none))
        else reader_store E engine rolling index none

    fiber-reader_of :
        (b : Bool) (id : Bytes)
        → fiber crc32c blake3 E (reader_of b) id ≡ (
            if is_some (E.uncertain_diagnostic engine)
            then err uncertain_failure
            else if b
            then err (reader_failure (precursor_chain_broken none))
            else Session.fiber blake3 index id)
    unfolding fiber is_uncertain check_reader
    fiber-reader_of b id = go b (E.uncertain_diagnostic engine) refl
      where
        go :
            (b : Bool) (diagnostic : Option String)
            → E.uncertain_diagnostic engine ≡ diagnostic
            → fiber crc32c blake3 E (reader_of b) id ≡ (
                if is_some (E.uncertain_diagnostic engine)
                then err uncertain_failure
                else if b
                then err (reader_failure (precursor_chain_broken none))
                else Session.fiber blake3 index id)
        go true (some d) e = rw e refl
        go true none e = rw e refl
        go false (some d) e = rw e refl
        go false none e = rw e refl

    get_latest-reader_of :
        (b : Bool) (id : Bytes)
        → get_latest crc32c blake3 E (reader_of b) id ≡ (
            if is_some (E.uncertain_diagnostic engine)
            then err uncertain_failure
            else if b
            then err (reader_failure (precursor_chain_broken none))
            else Session.get_latest index id)
    unfolding get_latest is_uncertain check_reader
    get_latest-reader_of b id = go b (E.uncertain_diagnostic engine) refl
      where
        go :
            (b : Bool) (diagnostic : Option String)
            → E.uncertain_diagnostic engine ≡ diagnostic
            → get_latest crc32c blake3 E (reader_of b) id ≡ (
                if is_some (E.uncertain_diagnostic engine)
                then err uncertain_failure
                else if b
                then err (reader_failure (precursor_chain_broken none))
                else Session.get_latest index id)
        go true (some d) e = rw e refl
        go true none e = rw e refl
        go false (some d) e = rw e refl
        go false none e = rw e refl

  -- On an engine that keeps its frames, where a writer opens, a reader opens over the same frames
  -- and with the same commitment. Its lookups of a fiber and of the latest event are refused for an
  -- unreadable ownership record where the engine is uncertain; otherwise for a broken precursor
  -- chain where a fiber of the history is broken; and otherwise they answer what the writer's index
  -- does, which is the reader's.
  pub open_reader-open_writer :
      (E : StorageEngine) (contents : E.State → List Bytes) (Live : E.State → Type 0)
      → IsFaithful crc32c E contents Live
      → (e : E.State) {s : Store E} {e' : E.State} → Live e
      → open_writer crc32c blake3 E e ≡ (ok s, e')
      → (engine : E.State) × (open_reader E e ≡ (
          if has_broken_fibers s.fiber_index
          then reader_store E engine s.rolling_commitment Session.new
              (some (precursor_chain_broken none))
          else reader_store E engine s.rolling_commitment s.fiber_index none))
        × (contents engine ≡ contents e)
        × ((id : Bytes)
            → fiber crc32c blake3 E (open_reader E e) id ≡ (
                if is_some (E.uncertain_diagnostic engine)
                then err uncertain_failure
                else if has_broken_fibers s.fiber_index
                then err (reader_failure (precursor_chain_broken none))
                else Session.fiber blake3 s.fiber_index id))
        × ((id : Bytes)
            → get_latest crc32c blake3 E (open_reader E e) id ≡ (
                if is_some (E.uncertain_diagnostic engine)
                then err uncertain_failure
                else if has_broken_fibers s.fiber_index
                then err (reader_failure (precursor_chain_broken none))
                else Session.get_latest s.fiber_index id))
  unfolding open_reader
  open_reader-open_writer E contents Live faithful e {s} live h =
      let (e1, opened, _, _) = open_writer-visit crc32c blake3 E contents Live faithful e live in
      let (n, visited) =
        after_recovery-eq-ok E (visit (on_recovered crc32c blake3) 0 (contents e) nothing_recovered)
          e1 (sym opened ∙ h) in
      let (engine, read, _, same) =
        faithful.recovers Discovered 64 on_discovered (new_commitment, Session.new, none) e live in
      let reader =
        ap (after_discovery E) read
        ∙ ap (λ v. after_discovery E (v, engine))
            (visit-on_discovered 0 (contents e) nothing_recovered visited) in
      let b = has_broken_fibers s.fiber_index in
      (
        engine,
        reader,
        same,
        λ id.
            ap (λ r. fiber crc32c blake3 E r id) reader
            ∙ fiber-reader_of E engine s.rolling_commitment s.fiber_index b id,
        λ id.
            ap (λ r. get_latest crc32c blake3 E r id) reader
            ∙ get_latest-reader_of E engine s.rolling_commitment s.fiber_index b id,
      )
