-- ===== src/Store/Pipeline/Runs.antt =====
-- The stores that a session comes to, by opening and by writing.
use pardosa.Prelude.Words.{u32_max}
use pardosa.Fiber.Handle.{FiberHandle, Outcome}
use pardosa.Store.Pipeline.Reopen.{
  Settled, IsSynced, after_append-IsSynced, open_writer-IsSynced, IsSynced-reopens,
}
use pardosa.Encoding.Envelope.{EventEnvelope, WireEnvelope, encode_wire, bounded}
use pardosa.Store.Engine.Contract.{IsFaithful}
use pardosa.Store.Pipeline.{
  Store, open_writer, append_frame_verdict, admit_frame, with_envelope, after_admission,
  write_event, after_bound, after_mint, append_envelope_verdict, mint,
}
use pardosa.Store.Engine.{StorageEngine, WriteLandingVerdict, landed, undetermined}
use pardosa.Prelude.Bytes.{Bytes}
use pardosa.Failure.{Result, OperationFailure, ok, err, DecodeError}
use pardosa.Prelude.{ℕ, ◌≡◌, refl, List, sym, subst, []}

module _ (crc32c : Bytes → ℕ) (blake3 : Bytes → Bytes) (E : StorageEngine) where
  -- A writer session over an engine that was live when it was opened: frames appended as they are,
  -- and events minted and appended, by any of the methods of a fiber handle. After a verdict that
  -- leaves a landing undetermined the session is no longer served.
  pub data Served (Live : E.State → Type 0) : Store E → Type 0 where
    opened :
        {s : Store E} (e : E.State) {e' : E.State}
        → Live e
        → open_writer crc32c blake3 E e ≡ (ok s, e')
        → Served Live s
    frame_written :
        {s : Store E}
        → Served Live s
        → (payload : Bytes) → Settled (append_frame_verdict crc32c blake3 E s payload).0
        → Served Live (append_frame_verdict crc32c blake3 E s payload).1
    event_written :
        {s : Store E}
        → Served Live s
        → (method : FiberHandle → Bytes → Bytes → Outcome) (fiber_id event_id payload : Bytes)
        → Settled (write_event crc32c blake3 E method s fiber_id event_id payload).0
        → Served Live (write_event crc32c blake3 E method s fiber_id event_id payload).1

  module _ (contents : E.State → List Bytes) (Live : E.State → Type 0)
      (faithful : IsFaithful crc32c E contents Live) where
    append_frame_verdict-IsSynced :
        (s : Store E) (payload : Bytes)
        → IsSynced crc32c blake3 E contents Live s
        → Settled (append_frame_verdict crc32c blake3 E s payload).0
        → IsSynced crc32c blake3 E contents Live (append_frame_verdict crc32c blake3 E s payload).1
    unfolding append_frame_verdict
    append_frame_verdict-IsSynced s payload synced settled =
        go (admit_frame crc32c blake3 E s payload) refl settled
      where
        go :
            (r : Result OperationFailure (EventEnvelope × Bytes))
            → admit_frame crc32c blake3 E s payload ≡ r
            → Settled (after_admission crc32c blake3 E s r).0
            → IsSynced crc32c blake3 E contents Live (after_admission crc32c blake3 E s r).1
        go (err e) h settled' = synced
        go (ok (env, buf)) h settled' =
            after_append-IsSynced crc32c blake3 E contents Live faithful s payload env buf
              (E.append_block buf s.engine) synced h refl settled'

    with_envelope-Settled :
        (env : EventEnvelope) (v : Result OperationFailure (WriteLandingVerdict ℕ) × Store E)
        → Settled (with_envelope crc32c blake3 E env v).0
        → Settled v.0 × ((with_envelope crc32c blake3 E env v).1 ≡ v.1)
    with_envelope-Settled env (ok (landed _), s) h = (tt, refl)
    with_envelope-Settled env (ok (undetermined _), s) h = absurd h
    with_envelope-Settled env (err e, s) h = (tt, refl)

    after_bound-IsSynced :
        (s : Store E) (r : Result DecodeError WireEnvelope)
        → IsSynced crc32c blake3 E contents Live s
        → Settled (after_bound crc32c blake3 E s r).0
        → IsSynced crc32c blake3 E contents Live (after_bound crc32c blake3 E s r).1
    unfolding after_bound
    after_bound-IsSynced s (err e) synced settled = synced
    after_bound-IsSynced s (ok wire) synced settled =
        append_frame_verdict-IsSynced s (encode_wire wire []) synced settled

    after_mint-IsSynced :
        (s : Store E) (r : Result OperationFailure EventEnvelope)
        → IsSynced crc32c blake3 E contents Live s
        → Settled (after_mint crc32c blake3 E s r).0
        → IsSynced crc32c blake3 E contents Live (after_mint crc32c blake3 E s r).1
    unfolding after_mint append_envelope_verdict
    after_mint-IsSynced s (err e) synced settled = synced
    after_mint-IsSynced s (ok env) synced settled =
        let (settled', same) =
          with_envelope-Settled env (append_envelope_verdict crc32c blake3 E s env) settled in
        subst (IsSynced crc32c blake3 E contents Live) (sym same)
          (after_bound-IsSynced s (bounded env u32_max) synced settled')

    Served-IsSynced : {s : Store E} → Served Live s → IsSynced crc32c blake3 E contents Live s
    unfolding write_event
    Served-IsSynced (opened e live h) =
        open_writer-IsSynced crc32c blake3 E contents Live faithful e live h
    Served-IsSynced (frame_written {s} before payload settled) =
        append_frame_verdict-IsSynced s payload (Served-IsSynced before) settled
    Served-IsSynced (event_written {s} before method fiber_id event_id payload settled) =
        after_mint-IsSynced s (mint crc32c blake3 E method s fiber_id event_id payload)
          (Served-IsSynced before) settled

  -- On an engine that keeps its frames, a session that has opened a store and has since appended
  -- frames and events, none of them with an undetermined landing, comes to a store that opening its
  -- engine again gives back: the same commitment, the same fibers and events, and the engine as it
  -- is after the recovery, holding the same frames.
  pub open_writer-Served :
      (contents : E.State → List Bytes) (Live : E.State → Type 0)
      → IsFaithful crc32c E contents Live
      → {s : Store E} → Served Live s
      → (engine : E.State) × (open_writer crc32c blake3 E s.engine
          ≡ (ok (record s { engine = engine }), engine))
        × (contents engine ≡ contents s.engine)
  open_writer-Served contents Live faithful {s} served =
      let (engine, opened_again, live, same) =
        IsSynced-reopens crc32c blake3 E contents Live faithful s
          (Served-IsSynced contents Live faithful served) in
      (engine, opened_again, same)
