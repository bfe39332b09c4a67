-- ===== src/File/Engine/Crash.antt =====
-- What is recovered from the container after any append of the file engine, whether or not the
-- session knows how it went.
use pardosa.File.Engine.Effect.{append_block-Effect, Agrees}
use pardosa.File.Engine.{FileEngine, append_block}
use pardosa.Store.Engine.{WriteLandingVerdict, landed, undetermined}
use pardosa.Container.Scan.Crash.{
  read_whole, concat_frames, concat_frames-append, read-concat_frames,
}
use pardosa.Container.Frame.RoundTrip.{frame_bytes, length-frame_bytes}
use pardosa.Container.{to_bytes, new_header, header-length}
use pardosa.Container.Scan.{ContainerScan, reconcile_tail_state, read_container_frames}
use pardosa.Prelude.Bytes.{Bytes}
use pardosa.Prelude.Words.{u32_max}
use pardosa.Failure.{ok, Result, DecodeError, OperationFailure, err}
use pardosa.Prelude.{
  ℕ, ◌+◌, ◌≤◌, ◌<◌, ◌≡◌, refl, sym, ap, ◌∙◌, false, some, List, [], ◌∷◌, ◌++◌, append-nil,
  append_assoc, arith, ◌==◌, length, take, take-append, All, zero, suc, subst, ◌⊎◌, inl, inr, Bool,
  ltb, ltb→lt, ltb-false→le, Bool-cases, length-append, take_all, All-append,
}
use pardosa.File.System.{FileSystem, IsDocumented}

-- A container of whole frames with these payloads.
abbrev pub container : (Bytes → ℕ) → List Bytes → Bytes
container crc32c ps = to_bytes new_header ++ concat_frames crc32c ps

module _ (crc32c : Bytes → ℕ) (crc : (bs : Bytes) → crc32c bs ≤ u32_max) where
  pub container-append :
      (ps : List Bytes) (q : Bytes)
      → container crc32c ps ++ frame_bytes crc32c q ≡ container crc32c (ps ++ (q ∷ []))
  container-append ps q =
      append_assoc (to_bytes new_header) (concat_frames crc32c ps) (frame_bytes crc32c q)
      ∙ ap (λ bs. to_bytes new_header ++ bs)
          (ap (λ bs. concat_frames crc32c ps ++ bs) (sym (append-nil (frame_bytes crc32c q)))
            ∙ sym (concat_frames-append crc32c ps (q ∷ [])))

  -- The frames that the recovery finds in these bytes, and the bytes that it leaves.
  pub record Recovers (bs : Bytes) (ps : List Bytes) : Type 0 where
    pub scan : ContainerScan
    pub scanned : read_container_frames crc32c bs ≡ some (ok scan)
    pub frames : scan.frames ≡ ps
    pub reconciled : (reconcile_tail_state bs scan).1 ≡ container crc32c ps

  pub Recovers-container :
      (ps : List Bytes)
      → All (λ (x : Bytes). length x ≤ u32_max) ps
      → Recovers (container crc32c ps) ps
  unfolding reconcile_tail_state
  Recovers-container ps all = record {
    scan = _;
    scanned = read_whole crc32c crc ps all;
    frames = refl;
    reconciled = refl;
  }

  Recovers-torn :
      (ps : List Bytes) (q : Bytes) (k : ℕ)
      → All (λ (x : Bytes). length x ≤ u32_max) ps
      → length q ≤ u32_max
      → 0 < k
      → k < length (frame_bytes crc32c q)
      → Recovers (container crc32c ps ++ take k (frame_bytes crc32c q)) ps
  unfolding reconcile_tail_state
  Recovers-torn ps q k all fits pos lt =
      let frames = concat_frames crc32c ps in
      let torn = take k (frame_bytes crc32c q) in
      let right = append_assoc (to_bytes new_header) frames torn in
      let some_bytes : (k == 0) ≡ false = ground arith in
      record {
        scan = _;
        scanned =
            ap (read_container_frames crc32c) right
            ∙ read-concat_frames crc32c crc ps q k all fits lt;
        frames = refl;
        reconciled = rw some_bytes (
            take-append (12 + length frames) (container crc32c ps) torn (
              length-append {0} (to_bytes new_header) frames
              ∙ ap (λ n. n + length frames) header-length));
      }

  -- What a verdict promises of the frames after the append of `q` to `ps`.
  abbrev pub Promises :
      Result OperationFailure (WriteLandingVerdict ℕ) → List Bytes → Bytes → List Bytes → Type 0
  Promises (err _) ps q after = after ≡ ps
  Promises (ok (landed _)) ps q after = after ≡ ps ++ (q ∷ [])
  Promises (ok (undetermined _)) ps q after = (after ≡ ps) ⊎ (after ≡ ps ++ (q ∷ []))

  promised_whole :
      (r : Result OperationFailure (WriteLandingVerdict ℕ)) (ps : List Bytes) (q : Bytes) (n : ℕ)
      → 0 < n
      → Agrees r n n
      → Promises r ps q (ps ++ (q ∷ []))
  promised_whole (err e) ps q n pos h = absurd (omega arith)
  promised_whole (ok (landed m)) ps q n pos h = refl
  promised_whole (ok (undetermined m)) ps q n pos h = inr refl

  promised_part :
      (r : Result OperationFailure (WriteLandingVerdict ℕ)) (ps : List Bytes) (q : Bytes) (k n : ℕ)
      → k < n
      → Agrees r k n
      → Promises r ps q ps
  promised_part (err e) ps q k n lt h = refl
  promised_part (ok (landed m)) ps q k n lt h = absurd (omega arith)
  promised_part (ok (undetermined m)) ps q k n lt h = inl refl

  -- Recovery after some first part of a frame was added.
  Recovers-part :
      (ps : List Bytes) (q : Bytes) (k : ℕ)
      → All (λ (x : Bytes). length x ≤ u32_max) ps
      → length q ≤ u32_max
      → k < length (frame_bytes crc32c q)
      → Recovers (container crc32c ps ++ take k (frame_bytes crc32c q)) ps
  Recovers-part ps q zero all fits lt =
      subst (λ bs. Recovers bs ps) (sym (append-nil (container crc32c ps)))
        (Recovers-container ps all)
  Recovers-part ps q (suc k) all fits lt = Recovers-torn ps q (suc k) all fits (omega arith) lt

  after_part :
      (r : Result OperationFailure (WriteLandingVerdict ℕ)) (bs : Bytes) (ps : List Bytes)
      (q : Bytes) (k : ℕ)
      → All (λ (x : Bytes). length x ≤ u32_max) ps
      → length q ≤ u32_max
      → k ≤ length (frame_bytes crc32c q)
      → bs ≡ container crc32c ps ++ take k (frame_bytes crc32c q)
      → Agrees r k (length (frame_bytes crc32c q))
      → (after : List Bytes) × Recovers bs after × Promises r ps q after
  after_part r bs ps q k all fits le grown agrees =
      let frame = frame_bytes crc32c q in
      let n = length frame in
      elim (Bool-cases (ltb k n)) [
        | inl part ↦ (
          ps,
          subst (λ b. Recovers b ps) (sym grown) (Recovers-part ps q k all fits (ltb→lt k n part)),
          promised_part r ps q k n (ltb→lt k n part) agrees,
        )
        | inr whole ↦
            let k_eq : k ≡ n = omega (arith, ltb-false→le k n whole) in
            let bs_eq : container crc32c (ps ++ (q ∷ [])) ≡ bs = sym (
              grown
              ∙ ap (λ xs. container crc32c ps ++ xs)
                  (ap (λ m. take m frame) k_eq ∙ take_all n frame (omega arith))
              ∙ container-append ps q) in
            (
              ps ++ (q ∷ []),
              subst (λ b. Recovers b (ps ++ (q ∷ []))) bs_eq
                  (Recovers-container (ps ++ (q ∷ []))
                    (All-append (λ (x : Bytes). length x ≤ u32_max) ps (q ∷ []) all (fits, tt))),
              promised_whole r ps q n (omega (arith, length-frame_bytes crc32c q))
                  (subst (λ m. Agrees r m n) k_eq agrees),
            )
      ]

  -- On a container of whole frames, and whatever the operating system answers to the calls of an
  -- append: reading the container afterwards, and cutting off a torn tail, gives back the old
  -- frames, with the new one behind them or without it, and a container of just these whole frames.
  -- The new frame is there where the append has landed, it is not there where the append was
  -- refused, and either is possible where the landing is undetermined.
  pub append_block-Recovers :
      (fs : FileSystem)
      → IsDocumented fs
      → {Node : Type 0} (decode_node : Bytes → Result DecodeError (Node × ℕ))
        (same_descriptor : ℕ × Node → ℕ × Node → Bool) (from_utf8 : Bytes → Bool)
        (s : FileEngine fs) (ps : List Bytes) (q : Bytes)
      → All (λ (x : Bytes). length x ≤ u32_max) ps
      → length q ≤ u32_max
      → fs.pgno s.disk ≡ container crc32c ps
      → let p =
          append_block fs crc32c decode_node same_descriptor from_utf8 (frame_bytes crc32c q) s in
        (after : List Bytes) × Recovers (fs.pgno p.1.disk) after × Promises p.0 ps q after
  append_block-Recovers fs laws decode_node same_descriptor from_utf8 s ps q all fits held =
      let block = frame_bytes crc32c q in
      let p = append_block fs crc32c decode_node same_descriptor from_utf8 block s in
      let effect =
        append_block-Effect fs laws crc32c decode_node same_descriptor from_utf8 s block in
      after_part p.0 (fs.pgno p.1.disk) ps q effect.written all fits effect.within
        (effect.grown ∙ ap (λ bs. bs ++ take effect.written block) held) effect.agrees
