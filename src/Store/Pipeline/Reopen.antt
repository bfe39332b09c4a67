-- ===== src/Store/Pipeline/Reopen.antt =====
-- A store says what the frames of its engine say: opening it again gives the same store.
use pardosa.Container.Frame.RoundTrip.{try_encode_payload_total}
use pardosa.Container.Frame.{try_encode_payload}
use pardosa.Store.Engine.Recover.{visit-append, and_visit}
use pardosa.Session.{commit_envelope_unchecked, SessionIndex}
use pardosa.Store.Pipeline.Admission.{admit_frame-eq-ok, process_frame-valid}
use pardosa.Container.Scan.{update_frame}
use pardosa.Encoding.Envelope.{EventEnvelope}
use pardosa.Store.Engine.Contract.{IsFaithful}
use pardosa.Store.Engine.{
  visit, StorageEngine, then_visit, Visit, WriteLandingVerdict, landed, undetermined,
}
use pardosa.Store.Pipeline.{
  on_recovered, Store, Recovered, nothing_recovered, open_writer, after_append, admit_frame,
  after_recovery, after_encoding,
}
use pardosa.Prelude.Bytes.{Bytes}
use pardosa.Prelude.Words.{u32_max, saturating_add}
use pardosa.Failure.{ok, Result, OperationFailure, err, map_err, chain_failure}
use pardosa.Prelude.{
  ℕ, ◌≡◌, refl, ◌∙◌, true, false, none, List, [], leb, leb-eq-true, length, sym, ap, subst, ◌∷◌,
}

-- A verdict that settles whether the frame is there.
abbrev pub Settled {ℓ} : {A : Type ℓ} → Result OperationFailure (WriteLandingVerdict A) → Type 0
Settled (ok (landed _)) = Unit {0}
Settled (ok (undetermined _)) = ⊥
Settled (err _) = Unit {0}

module _ (crc32c : Bytes → ℕ) (blake3 : Bytes → Bytes) where
  -- The callback of `open_writer` on a frame that `append_frame_verdict` has admitted.
  on_recovered-admit_frame :
      (E : StorageEngine) (s : Store E) (payload : Bytes) {env : EventEnvelope} {buf : Bytes}
      → admit_frame crc32c blake3 E s payload ≡ ok (env, buf)
      → (n : ℕ)
      → on_recovered crc32c blake3 n payload (s.rolling_commitment, s.fiber_index) ≡ (
        ok tt,
        (update_frame s.rolling_commitment buf, commit_envelope_unchecked s.fiber_index env),
      )
  unfolding on_recovered
  on_recovered-admit_frame E s payload {env} {buf} h n =
      let (within, long, decoded, valid, buf_eq) = admit_frame-eq-ok crc32c blake3 E s payload h in
      let fit : leb (length payload) u32_max ≡ true = leb-eq-true _ _ within in
      let framed : try_encode_payload crc32c payload [] ≡ ok buf =
        try_encode_payload_total crc32c payload [] ∙ rw (fit, buf_eq) refl in
      let recovered : Recovered = (s.rolling_commitment, s.fiber_index) in
      ap
        (λ r.
          after_encoding crc32c blake3 payload recovered
            (map_err (λ _. chain_failure "frame encoding failed: {err}") r))
        framed
      ∙ ap
          (λ (p : Result OperationFailure (Unit {0}) × SessionIndex).
            (p.0, (update_frame s.rolling_commitment buf, p.1)))
          (process_frame-valid crc32c blake3 s.fiber_index payload env long decoded valid)

  visit_one :
      (payload : Bytes) (before : Recovered) {after : Recovered} (n : ℕ)
      → on_recovered crc32c blake3 n payload before ≡ (ok tt, after)
      → visit (on_recovered crc32c blake3) n (payload ∷ []) before
        ≡ (ok (saturating_add n 1), after)
  unfolding visit
  visit_one payload before n h = ap (λ r. then_visit r (λ st. (ok (saturating_add n 1), st))) h

  module _ (E : StorageEngine) (contents : E.State → List Bytes) (Live : E.State → Type 0) where
    -- A store that is not in an uncertain state, whose commitment and index are those of the frames
    -- of its engine.
    pub record IsSynced (s : Store E) : Type 0 where
      pub live : Live s.engine
      pub count : ℕ
      pub visited :
          visit (on_recovered crc32c blake3) 0 (contents s.engine) nothing_recovered
          ≡ (ok count, (s.rolling_commitment, s.fiber_index))
      pub readable : s.broken_reader_cause ≡ none
      pub certain : s.uncertain ≡ false
      pub undiagnosed : s.uncertain_diagnostic ≡ none

    module _ (faithful : IsFaithful crc32c E contents Live) where
      pub open_writer-visit :
          (e : E.State)
          → Live e
          → (e' : E.State) × (open_writer crc32c blake3 E e
              ≡ after_recovery crc32c blake3 E
                  (visit (on_recovered crc32c blake3) 0 (contents e) nothing_recovered, e'))
            × Live e'
            × (contents e' ≡ contents e)
      unfolding open_writer
      open_writer-visit e live =
          let (e', read, live', same) =
            faithful.recovers Recovered 64 (on_recovered crc32c blake3) nothing_recovered e live in
          (e', ap (after_recovery crc32c blake3 E) read, live', same)

      after_recovery-IsSynced :
          (v : Visit Recovered) (e' : E.State) {s : Store E} {e'' : E.State}
          → v ≡ visit (on_recovered crc32c blake3) 0 (contents e') nothing_recovered
          → Live e'
          → after_recovery crc32c blake3 E (v, e') ≡ (ok s, e'')
          → IsSynced s
      after_recovery-IsSynced (err e, st) e' visited live h = absurd (cc h)
      after_recovery-IsSynced (ok n, (rolling, index)) e' visited live h =
          subst IsSynced (cc h) (record {
            live = live;
            count = n;
            visited = sym visited;
            readable = refl;
            certain = refl;
            undiagnosed = refl;
          })

      pub open_writer-IsSynced :
          (e : E.State) {s : Store E} {e'' : E.State}
          → Live e
          → open_writer crc32c blake3 E e ≡ (ok s, e'')
          → IsSynced s
      open_writer-IsSynced e live h =
          let (e', opened, live', same) = open_writer-visit e live in
          after_recovery-IsSynced
            (visit (on_recovered crc32c blake3) 0 (contents e) nothing_recovered) e'
            (ap (λ fs. visit (on_recovered crc32c blake3) 0 fs nothing_recovered) (sym same)) live'
            (sym opened ∙ h)

      pub IsSynced-reopens :
          (s : Store E)
          → IsSynced s
          → (e' : E.State) × (open_writer crc32c blake3 E s.engine
              ≡ (ok (record s { engine = e' }), e'))
            × Live e'
            × (contents e' ≡ contents s.engine)
      IsSynced-reopens s synced =
          let (e', opened, live', same) = open_writer-visit s.engine synced.live in
          let all = synced.visited in
          let a = synced.readable in
          let b = synced.certain in
          let c = synced.undiagnosed in
          (
            e',
            opened ∙ ap (λ v. after_recovery crc32c blake3 E (v, e')) all ∙ cc (a, b, c),
            live',
            same,
          )

      pub after_append-IsSynced :
          (s : Store E) (payload : Bytes) (env : EventEnvelope) (buf : Bytes)
          (v : Result OperationFailure (WriteLandingVerdict ℕ) × E.State)
          → IsSynced s
          → admit_frame crc32c blake3 E s payload ≡ ok (env, buf)
          → E.append_block buf s.engine ≡ v
          → Settled (after_append crc32c blake3 E s env buf v).0
          → IsSynced (after_append crc32c blake3 E s env buf v).1
      unfolding after_append
      after_append-IsSynced s payload env buf (err e, e') synced h call settled =
          let (within, _, _, _, buf_eq) = admit_frame-eq-ok crc32c blake3 E s payload h in
          let (live, same) =
            faithful.refuses payload s.engine e' e synced.live
              (ap (λ b. E.append_block b s.engine) (sym buf_eq) ∙ call) in
          record {
            live = live;
            count = synced.count;
            visited =
                ap (λ fs. visit (on_recovered crc32c blake3) 0 fs nothing_recovered) same
                ∙ synced.visited;
            readable = synced.readable;
            certain = synced.certain;
            undiagnosed = synced.undiagnosed;
          }
      after_append-IsSynced s payload env buf (ok (landed m), e') synced h call settled =
          let (within, _, _, _, buf_eq) = admit_frame-eq-ok crc32c blake3 E s payload h in
          let (live, same) =
            faithful.lands payload s.engine e' m within synced.live
              (ap (λ b. E.append_block b s.engine) (sym buf_eq) ∙ call) in
          record {
            live = live;
            count = saturating_add synced.count 1;
            visited =
                ap (λ fs. visit (on_recovered crc32c blake3) 0 fs nothing_recovered) same
                ∙ visit-append (on_recovered crc32c blake3) 0 (contents s.engine) (payload ∷ [])
                    nothing_recovered
                ∙ ap (λ v. and_visit (on_recovered crc32c blake3) v (payload ∷ [])) synced.visited
                ∙ visit_one payload (s.rolling_commitment, s.fiber_index) synced.count
                    (on_recovered-admit_frame E s payload h synced.count);
            readable = synced.readable;
            certain = synced.certain;
            undiagnosed = synced.undiagnosed;
          }
      after_append-IsSynced s payload env buf (ok (undetermined n), e') synced h call settled =
          absurd settled
