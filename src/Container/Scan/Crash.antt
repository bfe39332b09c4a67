-- ===== src/Container/Scan/Crash.antt =====
-- The scan of a container file that was written by appending frames, the last of which may have
-- been cut short by a crash.
use pardosa.Prelude.Words.{u32_max}
use pardosa.Failure.{ok, err, truncated_payload}
use pardosa.Prelude.{
  ℕ, zero, suc, ◌+◌, ◌-◌, ◌≤◌, ◌<◌, ◌≡◌, refl, sym, ap, ◌∙◌, inl, inr, some, List, [], ◌∷◌, ◌++◌,
  append-nil, arith, ◌==◌, if◌then◌else◌, lt→ltb, ltb-eq-false, ==_iff, Bool-cases, length, take,
  drop, length-take, length-drop, take_field, All, append_assoc, add-zero, length-append,
  drop-append, drop_next,
}
use pardosa.Prelude.Bytes.{Bytes}
use pardosa.Container.{to_bytes, new_header, decode_header-new, header-length}
use pardosa.Container.Frame
use pardosa.Container.Frame.RoundTrip.{
  frame_bytes, length-frame_bytes, decode-frame_bytes, decode_torn,
}
use pardosa.Container.Scan.{
  RollingCommitment, new_commitment, update_frame, TailState, clean, torn_tail, Progress, scan_step,
  scan_frames, read_container_frames,
}

-- The commitment after the frames of these payloads.
abbrev pub rolled : (Bytes → ℕ) → RollingCommitment → List Bytes → RollingCommitment
rolled crc32c r [] = r
rolled crc32c r (p ∷ ps) = rolled crc32c (update_frame r (frame_bytes crc32c p)) ps

-- The frames of these payloads, one behind the other.
abbrev pub concat_frames : (Bytes → ℕ) → List Bytes → Bytes
concat_frames crc32c [] = []
concat_frames crc32c (p ∷ ps) = frame_bytes crc32c p ++ concat_frames crc32c ps

-- Where `torn` bytes are left behind the last whole frame.
abbrev pub tail_after : TailState → ℕ → ℕ → TailState
tail_after before cursor torn =
    if torn == 0 then before else torn_tail (record { valid_len = cursor; truncated_bytes = torn })

module _ (crc32c : Bytes → ℕ) (crc : (bs : Bytes) → crc32c bs ≤ u32_max) where
  length-concat_frames : (ps : List Bytes) → length ps ≤ length (concat_frames crc32c ps)
  length-concat_frames [] = omega arith
  length-concat_frames (x ∷ ps) = omega (
    arith,
    length-append {0} (frame_bytes crc32c x) (concat_frames crc32c ps),
    length-frame_bytes crc32c x,
    length-concat_frames ps,
  )

  step_whole :
      (buf : Bytes) (p : Progress) (q rest : Bytes)
      → drop p.cursor buf ≡ frame_bytes crc32c q ++ rest
      → length q ≤ u32_max
      → scan_step crc32c buf p
        ≡ inr (record {
          frames = p.frames ++ (q ∷ []);
          rolling = update_frame p.rolling (frame_bytes crc32c q);
          tail_state = p.tail_state;
          cursor = p.cursor + length (frame_bytes crc32c q);
        })
  unfolding scan_step
  step_whole buf p q rest at_frame fits =
      let n = length (frame_bytes crc32c q) in
      let decoded : Frame.decode crc32c (drop p.cursor buf) ≡ ok (q, n) =
        rw at_frame (decode-frame_bytes crc32c crc q rest fits) in
      let width : p.cursor + n - p.cursor ≡ n = omega arith in
      let frame : take n (drop p.cursor buf) ≡ frame_bytes crc32c q =
        take_field p.cursor n buf (frame_bytes crc32c q) rest at_frame refl in
      rw (decoded, scan_step) (rw (width, frame) refl)

  step_torn :
      (buf : Bytes) (p : Progress) (q : Bytes) (k : ℕ)
      → drop p.cursor buf ≡ take k (frame_bytes crc32c q)
      → length q ≤ u32_max
      → k < length (frame_bytes crc32c q)
      → scan_step crc32c buf p
        ≡ inl (
            ok (record p {
              tail_state =
                  torn_tail
                    (record { valid_len = p.cursor; truncated_bytes = length buf - p.cursor });
            }))
  unfolding scan_step
  step_torn buf p q k at_frame fits lt =
      let (expected, torn) = decode_torn crc32c q k fits lt in
      let decoded : Frame.decode crc32c (drop p.cursor buf) ≡ err (truncated_payload expected k) =
        rw at_frame torn in
      rw (decoded, scan_step) refl

  scan_end :
      (fuel : ℕ) (buf : Bytes) (p : Progress) (q : Bytes) (k : ℕ)
      → drop p.cursor buf ≡ take k (frame_bytes crc32c q)
      → length q ≤ u32_max
      → k < length (frame_bytes crc32c q)
      → scan_frames crc32c (suc fuel) buf p
        ≡ some (ok (record p { tail_state = tail_after p.tail_state p.cursor k }))
  unfolding scan_frames
  scan_end fuel buf p q k at_frame fits lt =
      let left : length buf - p.cursor ≡ k =
        sym (length-drop p.cursor buf)
        ∙ ap length at_frame
        ∙ length-take k (frame_bytes crc32c q) (omega arith) in
      elim (Bool-cases (k == 0)) [
        | inl none_left ↦
            let zero_left = (==_iff k 0).0 none_left in
            rw (ltb-eq-false p.cursor (length buf) (omega arith), none_left) refl
        | inr some_left ↦
            let more : 0 < k = ground arith in
            rw (lt→ltb p.cursor (length buf) (omega arith), some_left)
              (rw (step_torn buf p q k at_frame fits lt, scan_frames) (rw left refl))
      ]

  scan_next :
      (fuel : ℕ) (buf : Bytes) (p p' : Progress)
      → p.cursor < length buf
      → scan_step crc32c buf p ≡ inr p'
      → scan_frames crc32c (suc fuel) buf p ≡ scan_frames crc32c fuel buf p'
  unfolding scan_frames
  scan_next fuel buf p p' more e = rw (lt→ltb p.cursor (length buf) more) (rw (e, scan_frames) refl)

  scan_whole :
      (ps : List Bytes) (fuel : ℕ) (buf : Bytes) (p : Progress) (q : Bytes) (k : ℕ)
      → length ps < fuel
      → drop p.cursor buf ≡ concat_frames crc32c ps ++ take k (frame_bytes crc32c q)
      → All (λ (x : Bytes). length x ≤ u32_max) ps
      → length q ≤ u32_max
      → k < length (frame_bytes crc32c q)
      → let end = p.cursor + length (concat_frames crc32c ps) in
        scan_frames crc32c fuel buf p
        ≡ some (
            ok (record {
              frames = p.frames ++ ps;
              rolling = rolled crc32c p.rolling ps;
              tail_state = tail_after p.tail_state end k;
              cursor = end;
            }))
  scan_whole ps zero buf p q k enough at_frames all fits lt = absurd (omega arith)
  scan_whole [] (suc fuel) buf p q k enough at_frames all fits lt =
      rw (append-nil, add-zero) (scan_end fuel buf p q k at_frames fits lt)
  scan_whole (x ∷ ps) (suc fuel) buf p q k enough at_frames all fits lt =
      let frame = frame_bytes crc32c x in
      let rest = concat_frames crc32c ps ++ take k (frame_bytes crc32c q) in
      let at_frame : drop p.cursor buf ≡ frame ++ rest = at_frames ∙ append_assoc frame _ _ in
      let p' : Progress = record {
        frames = p.frames ++ (x ∷ []);
        rolling = update_frame p.rolling frame;
        tail_state = p.tail_state;
        cursor = p.cursor + length frame;
      } in
      let more : p.cursor < length buf = omega (
        arith,
        length-drop p.cursor buf,
        ap length at_frame,
        length-append {0} frame rest,
        length-frame_bytes crc32c x,
      ) in
      let next = drop_next p.cursor (length frame) buf frame rest at_frame refl in
      let end : p.cursor + length frame + length (concat_frames crc32c ps)
          ≡ p.cursor + length (frame ++ concat_frames crc32c ps) =
        omega (arith, length-append {0} frame (concat_frames crc32c ps)) in
      scan_next fuel buf p p' more (step_whole buf p x rest at_frame all.0)
      ∙ scan_whole ps fuel buf p' q k (omega arith) next all.1 fits lt
      ∙ rw (end, append_assoc p.frames (x ∷ []) ps) refl

  -- A file that was written by appending whole frames, and of whose last append any part, or none,
  -- is there, is read back as the header, the payloads of the whole frames in order and their
  -- rolling commitment. What is left of the last append is reported as a torn tail, with its length
  -- and the offset where it starts; a file without one is clean.
  pub read-concat_frames :
      (ps : List Bytes) (q : Bytes) (k : ℕ)
      → All (λ (x : Bytes). length x ≤ u32_max) ps
      → length q ≤ u32_max
      → k < length (frame_bytes crc32c q)
      → let valid_len = 12 + length (concat_frames crc32c ps) in
        read_container_frames crc32c
          (to_bytes new_header ++ (concat_frames crc32c ps ++ take k (frame_bytes crc32c q)))
        ≡ some (
            ok (record {
              header = new_header;
              frames = ps;
              rolling = rolled crc32c new_commitment ps;
              tail_state = tail_after clean valid_len k;
              valid_len = valid_len;
            }))
  unfolding read_container_frames
  read-concat_frames ps q k all fits lt =
      let rest = concat_frames crc32c ps ++ take k (frame_bytes crc32c q) in
      let buf = to_bytes new_header ++ rest in
      let total : length buf ≡ 12 + length rest =
        length-append {0} (to_bytes new_header) rest
        ∙ ap (λ (n : ℕ). n + length rest) header-length in
      let at_frames : drop 12 buf ≡ rest =
        drop-append 12 (to_bytes new_header) rest header-length in
      let start : Progress = record {
        frames = [];
        rolling = new_commitment;
        tail_state = clean;
        cursor = 12;
      } in
      let enough : length ps < suc (length buf) = omega (
        arith,
        length-concat_frames ps,
        length-append {0} (concat_frames crc32c ps) (take k (frame_bytes crc32c q)),
      ) in
      rw (ltb-eq-false (length buf) 12 (omega arith), decode_header-new rest)
        (rw (scan_whole ps (suc (length buf)) buf start q k enough at_frames all fits lt) refl)

  -- A file of whole frames is read back clean.
  pub read_whole :
      (ps : List Bytes)
      → All (λ (x : Bytes). length x ≤ u32_max) ps
      → read_container_frames crc32c (to_bytes new_header ++ concat_frames crc32c ps)
        ≡ some (
            ok (record {
              header = new_header;
              frames = ps;
              rolling = rolled crc32c new_commitment ps;
              tail_state = clean;
              valid_len = 12 + length (concat_frames crc32c ps);
            }))
  read_whole ps all =
      ap (λ bs. read_container_frames crc32c (to_bytes new_header ++ bs))
        (sym (append-nil (concat_frames crc32c ps)))
      ∙ read-concat_frames ps [] 0 all (omega arith) (omega (arith, length-frame_bytes crc32c []))

pub concat_frames-append :
    (crc32c : Bytes → ℕ) (ps qs : List Bytes)
    → concat_frames crc32c (ps ++ qs) ≡ concat_frames crc32c ps ++ concat_frames crc32c qs
concat_frames-append crc32c [] qs = refl
concat_frames-append crc32c (p ∷ ps) qs =
    ap (λ bs. frame_bytes crc32c p ++ bs) (concat_frames-append crc32c ps qs)
    ∙ sym (append_assoc (frame_bytes crc32c p) (concat_frames crc32c ps) (concat_frames crc32c qs))
