-- ===== src/Container/Scan/Total.antt =====
-- The loop of the scan ends on every input.
use pardosa.Prelude.Words.{and_then, checked_add}
use pardosa.Failure.{
  Result, refuse_if, ok_or, >>=-eq-ok, DecodeError, OperationFailure, ok, err, chain_failure,
}
use pardosa.Prelude.{
  ℕ, zero, suc, ◌+◌, ◌-◌, ◌<◌, ◌≡◌, refl, ◌⊎◌, inl, inr, true, Option, none, some, arith, ltb,
  ltb→lt, Bool-cases, length, take, drop, false, not, [], ◌==◌, slice,
}
use pardosa.Prelude.Bytes.{Bytes, from_le_bytes}
use pardosa.Container.{ContainerHeader, decode_header}
use pardosa.Container.Frame
use pardosa.Container.Scan.{
  Progress, ContainerScan, scan_step, scan_frames, read_container_frames, finish, is_truncated,
  new_commitment, clean,
}

frame_len_pos : (n : ℕ) {m : ℕ} → and_then (checked_add 4 n) (λ l. checked_add l 4) ≡ some m → 0 < m
unfolding checked_add
frame_len_pos n h = ground arith

ok_or-eq-ok {ℓ} :
    {E : Type 0} {A : Type ℓ} (o : Option A) (e : E) {a : A} → ok_or o e ≡ ok a → o ≡ some a
ok_or-eq-ok none e h = cc
ok_or-eq-ok (some b) e h = cc

module _ (crc32c : Bytes → ℕ) where
  -- An accepted frame consumes some bytes.
  consumed_pos : (buf payload : Bytes) (n : ℕ) → Frame.decode crc32c buf ≡ ok (payload, n) → 0 < n
  unfolding Frame.decode
  consumed_pos buf payload n h =
      let (_, _, h1) = >>=-eq-ok (refuse_if (ltb (length buf) 4) _) _ h in
      let (total, len, h2) =
        >>=-eq-ok
          (ok_or (and_then (checked_add 4 (from_le_bytes (take 4 buf))) (λ l. checked_add l 4)) _) _
          h1 in
      let (_, _, h3) =
        >>=-eq-ok (refuse_if (ltb (length buf) (4 + from_le_bytes (take 4 buf))) _) _ h2 in
      let (_, _, h4) = >>=-eq-ok (refuse_if (ltb (length buf) total) _) _ h3 in
      let (_, _, h5) =
        >>=-eq-ok
          (refuse_if
            (not (
              from_le_bytes
                (slice buf (4 + from_le_bytes (take 4 buf)) (4 + from_le_bytes (take 4 buf) + 4))
              == crc32c (slice buf 4 (4 + from_le_bytes (take 4 buf)))))
            _)
          _ h4 in
      let same : total ≡ n = cc h5 in
      omega (arith, frame_len_pos (from_le_bytes (take 4 buf)) (ok_or-eq-ok _ _ len))

  step_forward :
      (buf : Bytes) (p p' : Progress) → scan_step crc32c buf p ≡ inr p' → p.cursor < p'.cursor
  unfolding scan_step
  step_forward buf p p' h = go (Frame.decode crc32c (drop p.cursor buf)) refl
    where
      go :
          (r : Result DecodeError (Bytes × ℕ))
          → Frame.decode crc32c (drop p.cursor buf) ≡ r
          → p.cursor < p'.cursor
      go (ok (payload, n)) e =
          let moved : p.cursor + n ≡ p'.cursor = cc (rw (e, scan_step) at h) in
          omega (arith, consumed_pos (drop p.cursor buf) payload n e)
      go (err x) e = elim (Bool-cases (is_truncated x)) [
        | inl test ↦ absurd (cc (rw (e, scan_step, test) at h))
        | inr test ↦ absurd (cc (rw (e, scan_step, test) at h))
      ]

  scan_frames_total :
      (fuel : ℕ) (buf : Bytes) (p : Progress)
      → length buf - p.cursor < fuel
      → (r : Result OperationFailure Progress) × (scan_frames crc32c fuel buf p ≡ some r)
  unfolding scan_frames
  scan_frames_total zero buf p enough = absurd (omega arith)
  scan_frames_total (suc fuel) buf p enough = elim (Bool-cases (ltb p.cursor (length buf))) [
    | inr done ↦ (ok p, rw done refl)
    | inl more ↦ go (scan_step crc32c buf p) refl more (λ p' forward.
        scan_frames_total fuel buf p' (omega (arith, ltb→lt p.cursor (length buf) more)))
  ]
    where
      go :
          (s : Result OperationFailure Progress ⊎ Progress)
          → scan_step crc32c buf p ≡ s
          → ltb p.cursor (length buf) ≡ true
          → ((p' : Progress)
              → p.cursor < p'.cursor
              → (r : Result OperationFailure Progress) × (scan_frames crc32c fuel buf p' ≡ some r))
          → (r : Result OperationFailure Progress) × (scan_frames crc32c (suc fuel) buf p ≡ some r)
      go (inl r) e more rest = (r, rw more (rw (e, scan_frames) refl))
      go (inr p') e more rest =
          let (r, found) = rest p' (step_forward buf p p' e) in
          (r, rw more (rw (e, scan_frames) found))

  -- Whatever the file holds, the scan returns: a recovered container or a refusal.
  pub read_container_frames_total :
      (buf : Bytes)
      → (r : Result OperationFailure ContainerScan) × (read_container_frames crc32c buf ≡ some r)
  unfolding read_container_frames
  read_container_frames_total buf = elim (Bool-cases (ltb (length buf) 12)) [
    | inl short ↦ (err (chain_failure "container file too short for header"), rw short refl)
    | inr long ↦ go (decode_header buf) refl long
  ]
    where
      go :
          (d : Result DecodeError (ContainerHeader × ℕ))
          → decode_header buf ≡ d
          → ltb (length buf) 12 ≡ false
          → (r : Result OperationFailure ContainerScan) × (read_container_frames crc32c buf
              ≡ some r)
      go (err e) decoded long = (
        err (chain_failure "invalid container header: {err}"),
        rw long (rw (decoded, read_container_frames) refl),
      )
      go (ok (header, cursor)) decoded long =
          let (r, found) =
            scan_frames_total (suc (length buf)) buf
              (record {
                frames = [];
                rolling = new_commitment;
                tail_state = clean;
                cursor = cursor;
              })
              (omega arith) in
          (finish crc32c header r, rw long (rw (decoded, read_container_frames, found) refl))
