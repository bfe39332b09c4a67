-- ===== src/Store/Pipeline/Uncertain.antt =====
-- A session that does not know whether its last write has landed.
use pardosa.Encoding.Envelope.{EventEnvelope}
use pardosa.Fiber.Handle.{FiberHandle, Outcome}
use pardosa.Store.Pipeline.{
  Store, check_session_authority, append_frame_verdict, write_event, after_append, after_admission,
  is_uncertain, admit_frame, mint, fiber, uncertain_failure, after_mint, get_latest,
}
use pardosa.Store.Engine.{StorageEngine, WriteLandingVerdict, undetermined, landed}
use pardosa.Prelude.Bytes.{Bytes}
use pardosa.Prelude.Words.{u32_max}
use pardosa.Failure.{
  Result, ◌>>◌, refuse_if, OperationFailure, FailsWith, ok, err, ownership_record_unreadable,
  too_long_failure,
}
use pardosa.Prelude.{
  ℕ, ◌≡◌, refl, ap, ◌∙◌, inl, inr, true, ltb, Bool-cases, length, sym, if◌then◌else◌,
}

-- What a session that is uncertain answers to the writing of a frame.
abbrev write_refusal : Bytes → OperationFailure
write_refusal payload =
    if ltb u32_max (length payload)
    then too_long_failure "payload exceeds maximum container frame length (u32::MAX)"
    else uncertain_failure

module _ (crc32c : Bytes → ℕ) (blake3 : Bytes → Bytes) (E : StorageEngine) where
  -- Any sequence of writes of frames and of events, refused or not.
  pub data Written (s : Store E) : Store E → Type 0 where
    nothing_written : Written s s
    frame_appended :
        {t : Store E}
        → Written s t
        → (payload : Bytes) → Written s (append_frame_verdict crc32c blake3 E t payload).1
    event_appended :
        {t : Store E}
        → Written s t
        → (method : FiberHandle → Bytes → Bytes → Outcome) (fiber_id event_id payload : Bytes)
        → Written s (write_event crc32c blake3 E method t fiber_id event_id payload).1

  check_session_authority-uncertain :
      (s : Store E)
      → is_uncertain crc32c blake3 E s ≡ true
      → check_session_authority crc32c blake3 E s ≡ err uncertain_failure
  unfolding check_session_authority
  check_session_authority-uncertain s h =
      ap (λ b. refuse_if b uncertain_failure >> E.check_authority s.engine) h

  append_frame_verdict-uncertain :
      (s : Store E) (payload : Bytes)
      → is_uncertain crc32c blake3 E s ≡ true
      → append_frame_verdict crc32c blake3 E s payload ≡ (err (write_refusal payload), s)
  unfolding append_frame_verdict admit_frame after_admission
  append_frame_verdict-uncertain s payload h =
      let denied = check_session_authority-uncertain s h in
      elim (Bool-cases (ltb u32_max (length payload))) [
        | inl long ↦ rw long refl
        | inr short ↦ rw (short, denied) refl
      ]

  write_event-uncertain :
      (method : FiberHandle → Bytes → Bytes → Outcome) (s : Store E)
      (fiber_id event_id payload : Bytes)
      → is_uncertain crc32c blake3 E s ≡ true
      → write_event crc32c blake3 E method s fiber_id event_id payload ≡ (err uncertain_failure, s)
  unfolding write_event mint after_mint
  write_event-uncertain method s fiber_id event_id payload h =
      rw (check_session_authority-uncertain s h) refl

  Written-uncertain : {s t : Store E} → is_uncertain crc32c blake3 E s ≡ true → Written s t → t ≡ s
  Written-uncertain h nothing_written = refl
  Written-uncertain {s} h (frame_appended {t} before payload) =
      let same = Written-uncertain h before in
      ap (λ u. (append_frame_verdict crc32c blake3 E u payload).1) same
      ∙ ap (λ p. p.1) (append_frame_verdict-uncertain s payload h)
  Written-uncertain {s} h (event_appended {t} before method fiber_id event_id payload) =
      let same = Written-uncertain h before in
      ap (λ u. (write_event crc32c blake3 E method u fiber_id event_id payload).1) same
      ∙ ap (λ p. p.1) (write_event-uncertain method s fiber_id event_id payload h)

  after_append-undetermined :
      (s : Store E) (env : EventEnvelope) (buf : Bytes)
      (v : Result OperationFailure (WriteLandingVerdict ℕ) × E.State) {n : ℕ} {t : Store E}
      → after_append crc32c blake3 E s env buf v ≡ (ok (undetermined n), t)
      → is_uncertain crc32c blake3 E t ≡ true
  unfolding after_append is_uncertain
  after_append-undetermined s env buf (err e, engine) h = absurd (cc h)
  after_append-undetermined s env buf (ok (landed m), engine) h = absurd (cc h)
  after_append-undetermined s env buf (ok (undetermined m), engine) h =
      sym (ap (λ p. is_uncertain crc32c blake3 E p.1) h)

  after_admission-undetermined :
      (s : Store E) (r : Result OperationFailure (EventEnvelope × Bytes)) {n : ℕ} {t : Store E}
      → after_admission crc32c blake3 E s r ≡ (ok (undetermined n), t)
      → is_uncertain crc32c blake3 E t ≡ true
  unfolding after_admission
  after_admission-undetermined s (err e) h = absurd (cc h)
  after_admission-undetermined s (ok (env, buf)) h =
      after_append-undetermined s env buf (E.append_block buf s.engine) h

  -- Once the landing of a frame is undetermined, the session stays as it is, its engine included,
  -- whatever frames and events it is given to write. It then refuses every event, the lookup of
  -- every fiber and of every latest event, reporting an ownership record that cannot be read, and so
  -- it refuses every frame that is not too long for a container; one that is, it refuses as too
  -- long.
  pub undetermined-Written :
      (s : Store E) {t u : Store E} (payload : Bytes) {n : ℕ}
      → append_frame_verdict crc32c blake3 E s payload ≡ (ok (undetermined n), t)
      → Written t u
      → (u ≡ t)
        × ((next : Bytes)
            → append_frame_verdict crc32c blake3 E u next ≡ (
              err (
                  if ltb u32_max (length next)
                  then too_long_failure "payload exceeds maximum container frame length (u32::MAX)"
                  else uncertain_failure),
              u,
            ))
        × ((method : FiberHandle → Bytes → Bytes → Outcome) (fiber_id event_id next : Bytes)
            → write_event crc32c blake3 E method u fiber_id event_id next
              ≡ (err uncertain_failure, u))
        × ((id : Bytes) → FailsWith (fiber crc32c blake3 E u id) ownership_record_unreadable)
        × ((id : Bytes) → FailsWith (get_latest crc32c blake3 E u id) ownership_record_unreadable)
  unfolding append_frame_verdict fiber get_latest
  undetermined-Written s {t} {u} payload h written =
      let uncertain = after_admission-undetermined s (admit_frame crc32c blake3 E s payload) h in
      let same = Written-uncertain uncertain written in
      let still : is_uncertain crc32c blake3 E u ≡ true =
        ap (is_uncertain crc32c blake3 E) same ∙ uncertain in
      (
        same,
        λ next. append_frame_verdict-uncertain u next still,
        λ method fiber_id event_id next.
            write_event-uncertain method u fiber_id event_id next still,
        λ id. rw still refl,
        λ id. rw still refl,
      )
