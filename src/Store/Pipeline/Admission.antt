-- ===== src/Store/Pipeline/Admission.antt =====
-- The frames that `append_frame_verdict` of crates/pardosa/src/store/pipeline.rs admits, and their
-- recovery by `SessionIndex::process_frame`.
use pardosa.Prelude.Bytes.{Bytes}
use pardosa.Prelude.Words.{u32_max}
use pardosa.Prelude.{
  ℕ, ◌≤◌, ◌≡◌, refl, true, Option, none, some, ltb, ◌==◌, ltb-eq-false, ==_iff, length, not, [],
  arith, ltb-false→le, ◌∙◌, subst, leb, leb-eq-true,
}
use pardosa.Failure.{refuse_if, >>=-eq-ok, ok, map_err, map_err-eq-ok, refuse_if-eq-ok}
use pardosa.Encoding.Envelope
use pardosa.Encoding.Envelope.{EventEnvelope}
use pardosa.Container.Frame.{try_encode_payload}
use pardosa.Container.Frame.RoundTrip.{frame_bytes, try_encode_payload_total}
use pardosa.Session.{
  SessionIndex, FiberSlot, active, broken, validate_append, validate_link,
  commit_envelope_unchecked, decode_and_validate_frame,
}
use pardosa.Session.Invariant.{validate_append-eq-ok}
use pardosa.Session.Recovery.{process_frame, process_envelope, process_in_slot, after_validation}
use pardosa.Store.Engine.{StorageEngine}
use pardosa.Store.Pipeline.{Store, admit_frame, check_session_authority}
use pardosa.Prelude.Dict

module _ (crc32c : Bytes → ℕ) (blake3 : Bytes → Bytes) where
  -- An envelope that the index validates is committed when its frame is recovered.
  process_in_slot-valid :
      (o : Option FiberSlot) (index : SessionIndex) (env : EventEnvelope)
      → validate_append blake3 index env ≡ ok tt
      → validate_link blake3 index o env ≡ ok tt
      → process_in_slot blake3 o index env ≡ (ok tt, commit_envelope_unchecked index env)
  unfolding process_in_slot after_validation validate_link
  process_in_slot-valid none index env valid link = rw (valid, after_validation) refl
  process_in_slot-valid (some (active tip)) index env valid link = rw (valid, after_validation) refl
  process_in_slot-valid (some (broken n)) index env valid link = absurd (cc link)

  pub process_frame-valid :
      (index : SessionIndex) (frame : Bytes) (env : EventEnvelope)
      → 85 ≤ length frame
      → Envelope.decode frame ≡ ok (env, length frame)
      → validate_append blake3 index env ≡ ok tt
      → process_frame blake3 index frame ≡ (ok tt, commit_envelope_unchecked index env)
  unfolding process_frame process_envelope
  process_frame-valid index frame env long decoded valid =
      let (_, _, _, _, link) = validate_append-eq-ok blake3 index env valid in
      let same : (length frame == length frame) ≡ true =
        (==_iff (length frame) (length frame)).1 refl in
      let frame_ok : decode_and_validate_frame frame ≡ ok env =
        unfold decode_and_validate_frame in rw (decoded, same) refl in
      rw (ltb-eq-false (length frame) 85 long, frame_ok)
        (process_in_slot-valid (Dict.get env.header.fiber_id index.fibers) index env valid link)

  -- What an admitted frame has passed.
  pub admit_frame-eq-ok :
      (E : StorageEngine) (s : Store E) (payload : Bytes) {env : EventEnvelope} {buf : Bytes}
      → admit_frame crc32c blake3 E s payload ≡ ok (env, buf)
      → (length payload ≤ u32_max)
        × (85 ≤ length payload)
        × (Envelope.decode payload ≡ ok (env, length payload))
        × (validate_append blake3 s.fiber_index env ≡ ok tt)
        × (buf ≡ frame_bytes crc32c payload)
  unfolding admit_frame
  admit_frame-eq-ok E s payload {env} {buf} h =
      let (_, fits, h1) = >>=-eq-ok (refuse_if (ltb u32_max (length payload)) _) _ h in
      let (_, _, h2) = >>=-eq-ok (check_session_authority crc32c blake3 E s) _ h1 in
      let (_, long, h3) = >>=-eq-ok (refuse_if (ltb (length payload) 85) _) _ h2 in
      let (p, h4a, h4) = >>=-eq-ok (map_err _ (Envelope.decode payload)) _ h3 in
      let (_, whole, h5) = >>=-eq-ok (refuse_if (not (p.1 == length payload)) _) _ h4 in
      let (_, valid, h6) = >>=-eq-ok (validate_append blake3 s.fiber_index p.0) _ h5 in
      let (b, enc, h7) = >>=-eq-ok (map_err _ (try_encode_payload crc32c payload [])) _ h6 in
      let within : length payload ≤ u32_max =
        ltb-false→le u32_max (length payload) (refuse_if-eq-ok _ _ fits) in
      let all_read : p.1 ≡ length payload =
        ground (arith, refuse_if-eq-ok (not (p.1 == length payload)) _ whole) in
      let env_eq : p.0 ≡ env = cc h7 in
      let decoded : Envelope.decode payload ≡ ok (env, length payload) =
        map_err-eq-ok _ (Envelope.decode payload) h4a ∙ (λ i. ok (env_eq i, all_read i)) in
      let fit : leb (length payload) u32_max ≡ true = leb-eq-true _ _ within in
      let framed : try_encode_payload crc32c payload [] ≡ ok (frame_bytes crc32c payload) =
        try_encode_payload_total crc32c payload [] ∙ rw fit refl in
      let enc' = map_err-eq-ok _ (try_encode_payload crc32c payload []) enc in
      (
        within,
        ltb-false→le (length payload) 85 (refuse_if-eq-ok _ _ long),
        decoded,
        subst (λ e. validate_append blake3 s.fiber_index e ≡ ok tt) env_eq valid,
        cc (h7, framed, enc'),
      )
