-- ===== src/Artefact/Reader/Terminal.antt =====
-- A reader that has failed gives nothing more.
use pardosa.Artefact.Reader.Ingestion.{OneRefusal, with_stream-OneRefusal}
use pardosa.Encoding.Envelope.Header.{zero_id}
use pardosa.Artefact.Reader.Chain.{
  observe_genesis-eq-some, admit_later-eq-ok, observe_event-eq-some,
}
use pardosa.Artefact.Reader.{
  ReaderState, ReaderObservation, mark_terminally_failed, observed, read_envelope, with_stream,
  ReadResult, failed, after_observation, after_admission, admit_later, read_next, read_event,
  observe_genesis, observe_event, admit_genesis, read_when,
}
use pardosa.Encoding.Envelope.{EventEnvelope}
use pardosa.Prelude.Bytes.{Bytes, bytes_eq}
use pardosa.Prelude.Words.{is_some, saturating_add}
use pardosa.Failure.{Result, OperationFailure, chain_failure, ok, err}
use pardosa.Prelude.{
  ℕ, ◌-◌, ◌≡◌, refl, sym, ap, Bool, true, false, Option, none, some, List, [], ◌∷◌, if◌then◌else◌,
  ◌∙◌, subst,
}
use pardosa.Prelude.Dict

module _ (capacity : Bytes → ℕ) (blake3 : Bytes → Bytes) (locator : Bytes) where
  -- A session over a stream of envelopes, after any number of reads, whatever they have returned.
  pub data Reached (envs : List EventEnvelope) : ReaderState → Type 0 where
    not_read : Reached envs (with_stream capacity envs)
    then_event :
        {s : ReaderState} → Reached envs s → Reached envs (read_event capacity blake3 locator s).1

  abbrev Failing : Option (Result OperationFailure ReaderObservation) → Type 0
  Failing (some (err e)) = Unit {0}
  Failing (some (ok o)) = ⊥
  Failing none = ⊥

  -- A read keeps the refusals, and a failure is terminal.
  record Ends (s : ReaderState) (p : ReadResult capacity blake3 locator) : Type 0 where
    items : p.1.capacity_refused ≡ s.capacity_refused
    bytes : p.1.byte_capacity_refused ≡ s.byte_capacity_refused
    over : Failing p.0 → p.1.terminally_failed ≡ true

  failed-Ends :
      (s : ReaderState) (e : OperationFailure) → Ends s (failed capacity blake3 locator e s)
  unfolding mark_terminally_failed
  failed-Ends s e = record { items = refl; bytes = refl; over = λ h. refl }

  observed-Ends :
      (genesis : Bool) (env : EventEnvelope) (s : ReaderState) (n : ℕ) (o : ReaderObservation)
      (s' : ReaderState)
      → observed capacity blake3 locator genesis env s n ≡ (o, s')
      → Ends s (some (ok o), s')
  unfolding observed
  observed-Ends genesis env s n o s' made = record {
    items = sym (ap (λ p. p.1.capacity_refused) made);
    bytes = sym (ap (λ p. p.1.byte_capacity_refused) made);
    over = λ h. absurd h;
  }

  after_observation-Ends :
      (s : ReaderState) (v : Option (ReaderObservation × ReaderState))
      → ((o : ReaderObservation) (s' : ReaderState) → v ≡ some (o, s') → Ends s (some (ok o), s'))
      → Ends s (after_observation capacity blake3 locator s v)
  after_observation-Ends s none kept = failed-Ends s _
  after_observation-Ends s (some (o, s')) kept = kept o s' refl

  genesis-Ends :
      (env : EventEnvelope) (s : ReaderState) (r : Result OperationFailure (Unit {0}))
      → Ends s (
          after_admission capacity blake3 locator (observe_genesis capacity blake3 locator) env s r)
  genesis-Ends env s (err e) = failed-Ends s e
  genesis-Ends env s (ok u) =
      after_observation-Ends s (observe_genesis capacity blake3 locator env s) (λ o s' h.
        let (n, _, made) = observe_genesis-eq-some capacity blake3 locator env s h in
        observed-Ends true env s n o s' made)

  later-Ends :
      (env : EventEnvelope) (s : ReaderState) (r : Result OperationFailure (Unit {0}))
      → admit_later capacity blake3 locator env s ≡ r
      → Ends s
          (after_admission capacity blake3 locator (observe_event capacity blake3 locator) env s r)
  later-Ends env s (err e) admitted = failed-Ends s e
  later-Ends env s (ok u) admitted =
      let (fiber, found, _, _) = admit_later-eq-ok capacity blake3 locator env s admitted in
      after_observation-Ends s (observe_event capacity blake3 locator env s) (λ o s' h.
        let (n, _, made) = observe_event-eq-some capacity blake3 locator env s fiber found h in
        observed-Ends false env s n o s' made)

  read_envelope-Ends :
      (env : EventEnvelope) (s : ReaderState) → Ends s (read_envelope capacity blake3 locator env s)
  unfolding read_envelope
  read_envelope-Ends env s =
      go (is_some (Dict.get env.header.event_id s.observed_events))
        (bytes_eq env.header.precursor zero_id)
    where
      go :
          (seen first : Bool)
          → Ends s (
              if seen
              then failed capacity blake3 locator
                  (chain_failure "duplicate event ID observed across reader session per C5.61")
                  s
              else if first
              then after_admission capacity blake3 locator
                  (observe_genesis capacity blake3 locator)
                  env
                  s
                  (admit_genesis capacity blake3 locator env s)
              else after_admission capacity blake3 locator
                  (observe_event capacity blake3 locator)
                  env
                  s
                  (admit_later capacity blake3 locator env s))
      go true first = failed-Ends s _
      go false true = genesis-Ends env s (admit_genesis capacity blake3 locator env s)
      go false false = later-Ends env s (admit_later capacity blake3 locator env s) refl

  read_next-Ends :
      (s : ReaderState) (stream : List EventEnvelope)
      → Ends s (read_next capacity blake3 locator s stream)
  read_next-Ends s [] = record { items = refl; bytes = refl; over = λ h. absurd h }
  read_next-Ends s (env ∷ stream) =
      let ends = read_envelope-Ends env (record s {
        stream = stream;
        retained_bytes = s.retained_bytes - saturating_add 85 (capacity env.payload);
      }) in
      record { items = ends.items; bytes = ends.bytes; over = ends.over }

  -- What a read leaves for the next one.
  abbrev Leaves : ReadResult capacity blake3 locator → Type 0
  Leaves p =
      OneRefusal capacity p.1
      × (Failing p.0
          → (p.1.capacity_refused ≡ false)
            × (p.1.byte_capacity_refused ≡ false)
            × (p.1.terminally_failed ≡ true))

  read_event-Leaves :
      (s : ReaderState) → OneRefusal capacity s → Leaves (read_event capacity blake3 locator s)
  unfolding read_event read_when mark_terminally_failed
  read_event-Leaves s one =
      go s.capacity_refused s.byte_capacity_refused s.terminally_failed refl refl
    where
      go :
          (items bytes over : Bool)
          → s.capacity_refused ≡ items
          → s.byte_capacity_refused ≡ bytes
          → Leaves (read_when capacity blake3 locator items bytes over s)
      go true bytes over h1 h2 = (λ h. absurd (cc h), λ f. (refl, one h1, refl))
      go false true over h1 h2 = (λ h. refl, λ f. (h1, refl, refl))
      go false false true h1 h2 = (one, λ f. absurd f)
      go false false false h1 h2 =
          let ends = read_next-Ends s s.stream in
          (λ h. ends.bytes ∙ h2, λ f. (ends.items ∙ h1, ends.bytes ∙ h2, ends.over f))

  read_event-over :
      (s : ReaderState)
      → s.capacity_refused ≡ false
      → s.byte_capacity_refused ≡ false
      → s.terminally_failed ≡ true
      → read_event capacity blake3 locator s ≡ (none, s)
  unfolding read_event read_when
  read_event-over s items bytes over =
      λ i. read_when capacity blake3 locator (items i) (bytes i) (over i) s

  Reached-OneRefusal :
      {envs : List EventEnvelope} {s : ReaderState} → Reached envs s → OneRefusal capacity s
  Reached-OneRefusal {envs} not_read = with_stream-OneRefusal capacity envs
  Reached-OneRefusal (then_event {s} before) = (read_event-Leaves s (Reached-OneRefusal before)).0

  -- In a session over any stream of envelopes, once a read has failed, by a limit of the ingestion or
  -- by an event that does not continue its fiber, each later read gives nothing and leaves the
  -- reader as it is.
  pub read_event-Reached :
      {envs : List EventEnvelope} {s s' : ReaderState} {e : OperationFailure}
      → Reached envs s
      → read_event capacity blake3 locator s ≡ (some (err e), s')
      → read_event capacity blake3 locator s' ≡ (none, s')
  read_event-Reached {s = s} {s'} {e} reached read =
      let leaves : Leaves (some (err e), s') =
        subst Leaves read (read_event-Leaves s (Reached-OneRefusal reached)) in
      let (items, bytes, over) = leaves.1 tt in read_event-over s' items bytes over
