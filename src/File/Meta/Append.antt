-- ===== src/File/Meta/Append.antt =====
-- Appending a record to a `.meta` file, and reading it back.
use pardosa.Container.Scan.Crash.{concat_frames, concat_frames-append}
use pardosa.Container.{to_bytes, new_header}
use pardosa.Ownership.Record.RoundTrip.{RecordFits}
use pardosa.Container.Frame.RoundTrip.{frame_bytes, try_encode_payload-eq-ok}
use pardosa.Ownership.Record.Codec.{encode_record}
use pardosa.Container.Frame.{EncodeError, try_encode_payload}
use pardosa.Ownership.Record.{OwnershipRecord}
use pardosa.File.Meta.Log.{
  Holds, apply_frame-encode_record, read_meta_records-Holds, apply_frames-append, apply_frames-one,
}
use pardosa.File.Meta.{
  append_meta_record_impl, sync_record, after_write, write_record, encode_and_write,
  read_meta_records, MetaWriteError, apply_record, no_records, apply_frames,
}
use pardosa.File.System.{FileSystem, reading_of}
use pardosa.Prelude.Bytes.{Bytes}
use pardosa.Prelude.Words.{u32_max}
use pardosa.Failure.{Result, ◌>>=◌, DecodeError, ok, err}
use pardosa.Prelude.{
  ℕ, ◌≤◌, ◌≡◌, refl, sym, ap, ◌∙◌, Bool, true, false, Option, some, List, [], ◌∷◌, ◌++◌, append-nil,
  append_assoc, length, All, subst, All-append,
}

-- The documented behaviour of an append to the `.meta`: opening and syncing leave its bytes, and a
-- write that succeeds adds to them.
pub record AppendsToMeta (fs : FileSystem) : Type 0 where
  pub opens :
      (d : fs.Disk)
      → let d' = (fs.open_meta_append d).1 in
        (fs.meta_exists d' ≡ fs.meta_exists d) × (fs.open_meta d' ≡ fs.open_meta d)
  pub writes :
      (d : fs.Disk) (old bs : Bytes)
      → fs.open_meta d ≡ some (reading_of old)
      → (fs.write_meta bs d).0 ≡ true
      → let d' = (fs.write_meta bs d).1 in
        (fs.meta_exists d' ≡ fs.meta_exists d) × (fs.open_meta d' ≡ some (reading_of (old ++ bs)))
  pub syncs :
      (d : fs.Disk)
      → let d' = (fs.sync_meta d).1 in
        (fs.meta_exists d' ≡ fs.meta_exists d) × (fs.open_meta d' ≡ fs.open_meta d)

module _ (crc32c : Bytes → ℕ) (fs : FileSystem) where
  -- An append that has reported success has gone through each of its steps.
  sync_record-eq-ok :
      (p : Bool × fs.Disk) {disk : fs.Disk}
      → sync_record fs false false p ≡ (ok tt, disk)
      → p.1 ≡ disk
  unfolding sync_record
  sync_record-eq-ok (true, d) h = cc h
  sync_record-eq-ok (false, d) h = absurd (cc h)

  after_write-eq-ok :
      (p : Bool × fs.Disk) {disk : fs.Disk}
      → after_write fs false false p ≡ (ok tt, disk)
      → (p.0 ≡ true) × ((fs.sync_meta p.1).1 ≡ disk)
  unfolding after_write
  after_write-eq-ok (true, d) h = (refl, sync_record-eq-ok (fs.sync_meta d) h)
  after_write-eq-ok (false, d) h = absurd (cc h)

  write_record-eq-ok :
      (r : Result EncodeError Bytes) (d : fs.Disk) {disk : fs.Disk}
      → write_record fs false false r d ≡ (ok tt, disk)
      → (bs : Bytes) × (r ≡ ok bs)
        × ((fs.write_meta bs d).0 ≡ true)
        × ((fs.sync_meta (fs.write_meta bs d).1).1 ≡ disk)
  unfolding write_record
  write_record-eq-ok (err e) d h = absurd (cc h)
  write_record-eq-ok (ok bs) d h =
      let (written, synced) = after_write-eq-ok (fs.write_meta bs d) h in
      (bs, refl, written, synced)

  encode_and_write-eq-ok :
      (p : Bool × fs.Disk) (r : OwnershipRecord) (bs : Bytes) {disk : fs.Disk}
      → encode_record r [] ≡ some bs
      → encode_and_write fs false false crc32c r p ≡ some (ok tt, disk)
      → write_record fs false false (try_encode_payload crc32c bs []) p.1 ≡ (ok tt, disk)
  unfolding encode_and_write
  encode_and_write-eq-ok (false, d) r bs encoded h = absurd (cc h)
  encode_and_write-eq-ok (true, d) r bs encoded h =
      let h' : ◌≡◌ {A = Option (Result MetaWriteError (Unit {0}) × fs.Disk)}
          (some (write_record fs false false (try_encode_payload crc32c bs []) d))
          (some (ok tt, _)) =
        rw encoded at h in
      cc h'

  Holds-append :
      (ps : List Bytes) (bs : Bytes) (d : fs.Disk)
      → AppendsToMeta fs
      → Holds crc32c fs d ps
      → (fs.write_meta (frame_bytes crc32c bs) d).0 ≡ true
      → Holds crc32c fs
          (fs.sync_meta (fs.write_meta (frame_bytes crc32c bs) d).1).1
          (ps ++ (bs ∷ []))
  Holds-append ps bs d laws (present, opened) written =
      let frame = frame_bytes crc32c bs in
      let old : Bytes = to_bytes new_header ++ concat_frames crc32c ps in
      let (present', opened') = laws.writes d old frame opened written in
      let (present'', opened'') = laws.syncs (fs.write_meta frame d).1 in
      let bytes : old ++ frame ≡ to_bytes new_header ++ concat_frames crc32c (ps ++ (bs ∷ [])) =
        append_assoc (to_bytes new_header) (concat_frames crc32c ps) frame
        ∙ ap (λ xs. to_bytes new_header ++ xs)
            (ap (λ xs. concat_frames crc32c ps ++ xs) (sym (append-nil frame))
              ∙ sym (concat_frames-append crc32c ps (bs ∷ []))) in
      (present'' ∙ present' ∙ present, opened'' ∙ opened' ∙ ap (λ xs. some (reading_of xs)) bytes)

-- Where a `.meta` holds whole frames, and an append of a record whose fields fit reports success,
-- reading the records afterwards gives what reading them before gave, with the record applied to
-- it: a claim becomes the latest claim, and likewise for the other kinds.
pub read_meta_records-append_meta_record_impl :
    {Node : Type 0} (decode_node : Bytes → Result DecodeError (Node × ℕ))
    (same_descriptor : ℕ × Node → ℕ × Node → Bool) (from_utf8 : Bytes → Bool) (crc32c : Bytes → ℕ)
    → ((bs : Bytes) → crc32c bs ≤ u32_max)
    → (fs : FileSystem) → AppendsToMeta fs
    → (ps : List Bytes) (r : OwnershipRecord) (d d' : fs.Disk)
    → All (λ (x : Bytes). length x ≤ u32_max) ps
    → RecordFits from_utf8 r
    → Holds crc32c fs d ps
    → append_meta_record_impl fs false false crc32c r d ≡ some (ok tt, d')
    → read_meta_records decode_node same_descriptor from_utf8 crc32c fs d' ≡ (
        read_meta_records decode_node same_descriptor from_utf8 crc32c fs d
        >>= apply_record decode_node same_descriptor r)
unfolding append_meta_record_impl
read_meta_records-append_meta_record_impl decode_node same_descriptor from_utf8 crc32c crc fs laws
      ps r d d' all fits (present, opened) h =
    let (bs, encoded, applied) =
      apply_frame-encode_record decode_node same_descriptor from_utf8 r fits in
    let (present1, opened1) = laws.opens d in
    let d1 = (fs.open_meta_append d).1 in
    let written = encode_and_write-eq-ok crc32c fs (fs.open_meta_append d) r bs encoded h in
    let (frame, framed, went, end) =
      write_record-eq-ok crc32c fs (try_encode_payload crc32c bs []) d1 written in
    let (fit, frame_eq) = try_encode_payload-eq-ok crc32c bs framed in
    let after : Holds crc32c fs d' (ps ++ (bs ∷ [])) =
      subst (λ disk. Holds crc32c fs disk (ps ++ (bs ∷ [])))
        (ap (λ f. (fs.sync_meta (fs.write_meta f d1).1).1) (sym frame_eq) ∙ end)
        (Holds-append crc32c fs ps bs d1 laws (present1 ∙ present, opened1 ∙ opened)
          (ap (λ f. (fs.write_meta f d1).0) (sym frame_eq) ∙ went)) in
    let read = read_meta_records-Holds decode_node same_descriptor from_utf8 crc32c crc fs in
    read d' (ps ++ (bs ∷ []))
      (All-append (λ (x : Bytes). length x ≤ u32_max) ps (bs ∷ []) all (fit, tt)) after
    ∙ apply_frames-append decode_node same_descriptor from_utf8 ps (bs ∷ []) no_records
    ∙ ap (λ k. apply_frames decode_node same_descriptor from_utf8 ps no_records >>= k)
        (λ i m. apply_frames-one decode_node same_descriptor from_utf8 bs r m (applied m) i)
    ∙ ap (λ m. m >>= apply_record decode_node same_descriptor r)
        (sym (read d ps all (present, opened)))
