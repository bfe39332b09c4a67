-- ===== src/Store/Pipeline/Landing.antt =====
-- Events that the session index admits reach the engine, and are committed where they land.
use pardosa.Container.Scan.{update_frame}
use pardosa.Container.Frame.{try_encode_payload}
use pardosa.Container.Frame.RoundTrip.{frame_bytes, try_encode_payload_total}
use pardosa.Encoding.Envelope.RoundTrip.{laid_out, length-laid_out, encode_total, decode-encode}
use pardosa.Session.{validate_append, commit_envelope_unchecked}
use pardosa.Encoding.Envelope.Header.{IsSized}
use pardosa.Encoding.Envelope.{EventEnvelope, encode, WireEnvelope, encode_wire, bounded}
use pardosa.Store.Pipeline.{
  Store, admit_frame, is_uncertain, check_session_authority, append_envelope_verdict,
  append_frame_verdict, after_bound, after_admission, after_append,
}
use pardosa.Store.Engine.{StorageEngine, landed}
use pardosa.Prelude.Bytes.{Bytes}
use pardosa.Prelude.Words.{u32_max}
use pardosa.Failure.{ok, Result, ◌>>=◌, DecodeError, err}
use pardosa.Prelude.{
  ℕ, ◌+◌, ◌≤◌, ◌≡◌, refl, sym, ap, ◌∙◌, true, false, [], append-nil, arith, leb, ◌==◌, leb-eq-true,
  ==_iff, length, ltb-eq-false,
}
use pardosa.Encoding.Envelope

module _ (crc32c : Bytes → ℕ) (blake3 : Bytes → Bytes) (E : StorageEngine) where
  -- A session that may write.
  pub record MayWrite (s : Store E) : Type 0 where
    pub certain : is_uncertain crc32c blake3 E s ≡ false
    pub authority : E.check_authority s.engine ≡ ok tt

  admit_frame-steps :
      (s : Store E) (bs : Bytes) (env : EventEnvelope) {frame : Bytes}
      → length bs ≤ u32_max
      → MayWrite s
      → 85 ≤ length bs
      → Envelope.decode bs ≡ ok (env, length bs)
      → validate_append blake3 s.fiber_index env ≡ ok tt
      → try_encode_payload crc32c bs [] ≡ ok frame
      → admit_frame crc32c blake3 E s bs ≡ ok (env, frame)
  unfolding admit_frame
  admit_frame-steps s bs env within may long decoded valid framed =
      let authority : check_session_authority crc32c blake3 E s ≡ ok tt =
        unfold check_session_authority in rw (may.certain, may.authority) refl in
      let same : (length bs == length bs) ≡ true = (==_iff (length bs) (length bs)).1 refl in
      rw
        (
          ltb-eq-false u32_max (length bs) within,
          authority,
          ltb-eq-false (length bs) 85 long,
          decoded,
          same,
          valid,
          framed,
        )
        refl

  admit_frame-laid_out :
      (s : Store E) (env : EventEnvelope)
      → MayWrite s
      → IsSized env.header
      → length env.payload + 85 ≤ u32_max
      → validate_append blake3 s.fiber_index env ≡ ok tt
      → let bs = laid_out env.header (length env.payload) env.payload in
        admit_frame crc32c blake3 E s bs ≡ ok (env, frame_bytes crc32c bs)
  admit_frame-laid_out s env may sized fits valid =
      let bs = laid_out env.header (length env.payload) env.payload in
      let size = length-laid_out env.header (length env.payload) env.payload sized in
      let fit : leb (length env.payload + 85) u32_max ≡ true = leb-eq-true _ _ fits in
      let encoded : encode env [] ≡ ok bs = encode_total env [] ∙ rw fit refl in
      let decoded : Envelope.decode bs ≡ ok (env, length bs) =
        ap Envelope.decode (sym (append-nil bs)) ∙ decode-encode env bs [] sized encoded in
      let short : leb (length bs) u32_max ≡ true = leb-eq-true _ _ (omega arith) in
      let framed : try_encode_payload crc32c bs [] ≡ ok (frame_bytes crc32c bs) =
        try_encode_payload_total crc32c bs [] ∙ rw short refl in
      let same : (length bs == length bs) ≡ true = (==_iff (length bs) (length bs)).1 refl in
      admit_frame-steps s bs env (omega arith) may (omega arith) decoded valid framed

  -- The envelope's bytes, which `append_envelope_verdict` appends.
  append_envelope_verdict-laid_out :
      (s : Store E) (env : EventEnvelope)
      → length env.payload + 85 ≤ u32_max
      → append_envelope_verdict crc32c blake3 E s env
        ≡ append_frame_verdict crc32c blake3 E s
            (laid_out env.header (length env.payload) env.payload)
  unfolding append_envelope_verdict after_bound encode
  append_envelope_verdict-laid_out s env fits =
      let fit : leb (length env.payload + 85) u32_max ≡ true = leb-eq-true _ _ fits in
      let encoded = encode_total env [] ∙ rw fit refl in go (bounded env u32_max) encoded
    where
      go :
          (r : Result DecodeError WireEnvelope)
          → (r >>= λ w. ok (encode_wire w []))
            ≡ ok (laid_out env.header (length env.payload) env.payload)
          → after_bound crc32c blake3 E s r
            ≡ append_frame_verdict crc32c blake3 E s
                (laid_out env.header (length env.payload) env.payload)
      go (ok w) h = ap (append_frame_verdict crc32c blake3 E s) (cc h)
      go (err e) h = absurd (cc h)

  -- In a session that may write, an event that the session index admits, with identifiers of their
  -- sizes and a payload that fits the wire, is never refused: it reaches the engine as one frame,
  -- and where the engine reports that it has landed, the verdict is that it has landed, the new
  -- count of frames is returned, and the event is committed.
  pub append_envelope_verdict-landed :
      (s : Store E) (env : EventEnvelope) (n : ℕ) (engine : E.State)
      → MayWrite s
      → IsSized env.header
      → length env.payload + 85 ≤ u32_max
      → validate_append blake3 s.fiber_index env ≡ ok tt
      → let frame = frame_bytes crc32c (laid_out env.header (length env.payload) env.payload) in
        let rolling = update_frame s.rolling_commitment frame in
        E.append_block frame s.engine ≡ (ok (landed n), engine)
        → append_envelope_verdict crc32c blake3 E s env ≡ (
          ok (landed rolling.frame_count),
          record s {
            engine = engine;
            rolling_commitment = rolling;
            fiber_index = commit_envelope_unchecked s.fiber_index env;
          },
        )
  unfolding append_frame_verdict after_admission after_append
  append_envelope_verdict-landed s env n engine may sized fits valid lands =
      let bs = laid_out env.header (length env.payload) env.payload in
      append_envelope_verdict-laid_out s env fits
      ∙ ap (after_admission crc32c blake3 E s) (admit_frame-laid_out s env may sized fits valid)
      ∙ ap (after_append crc32c blake3 E s env (frame_bytes crc32c bs)) lands
