-- ===== src/File/Meta/Log.antt =====
-- What an append to a `.meta` file adds to what is read from it.
use pardosa.Container.Scan.Crash.{concat_frames, read_whole}
use pardosa.Container.{to_bytes, new_header, header-length, container_format_version}
use pardosa.Ownership.Record.Codec.{encode_record, decode_record}
use pardosa.Ownership.Record.RoundTrip.{RecordFits, decode_record-encode_record, EndsBefore-nil}
use pardosa.File.System.{reading_of, FileSystem, read_frames-reading_of}
use pardosa.Ownership.Record.{OwnershipRecord}
use pardosa.File.Meta.{
  apply_frame, apply_frames, MetaRecords, apply_record, read_meta_records, records_of, no_records,
}
use pardosa.Prelude.Bytes.{Bytes}
use pardosa.Prelude.Words.{u32_max}
use pardosa.Failure.{Result, ◌>>=◌, DecodeError, ok, >>=_assoc, >>=-ok}
use pardosa.Prelude.{
  ℕ, ◌≤◌, ◌≡◌, refl, sym, ap, ◌∙◌, Bool, true, some, List, [], ◌∷◌, ◌++◌, append-nil, ◌==◌, ==_iff,
  length, All, arith, length-append,
}

-- A `.meta` file of these payloads, in whole frames.
abbrev pub Holds : (Bytes → ℕ) → (fs : FileSystem) → fs.Disk → List Bytes → Type 0
Holds crc32c fs disk ps =
    (fs.meta_exists disk ≡ true)
    × (fs.open_meta disk ≡ some (reading_of (to_bytes new_header ++ concat_frames crc32c ps)))

module _ {Node : Type 0} (decode_node : Bytes → Result DecodeError (Node × ℕ))
    (same_descriptor : ℕ × Node → ℕ × Node → Bool) (from_utf8 : Bytes → Bool) where
  pub apply_frame-encode_record :
      (r : OwnershipRecord)
      → RecordFits from_utf8 r
      → (bs : Bytes) × (encode_record r [] ≡ some bs)
        × ((records : MetaRecords Node)
            → apply_frame decode_node same_descriptor from_utf8 bs records
              ≡ apply_record decode_node same_descriptor r records)
  unfolding apply_frame
  apply_frame-encode_record r fits =
      let (bs, encoded, decoded) =
        decode_record-encode_record from_utf8 r [] fits (EndsBefore-nil r) in
      let decoded' : decode_record from_utf8 bs ≡ ok (r, length bs) =
        ap (decode_record from_utf8) (sym (append-nil bs)) ∙ decoded in
      let same : (length bs == length bs) ≡ true = (==_iff (length bs) (length bs)).1 refl in
      (bs, encoded, λ records. rw decoded' (rw same refl))

  pub apply_frames-one :
      (bs : Bytes) (r : OwnershipRecord) (records : MetaRecords Node)
      → apply_frame decode_node same_descriptor from_utf8 bs records
        ≡ apply_record decode_node same_descriptor r records
      → apply_frames decode_node same_descriptor from_utf8 (bs ∷ []) records
        ≡ apply_record decode_node same_descriptor r records
  unfolding apply_frames
  apply_frames-one bs r records h =
      >>=-ok (apply_frame decode_node same_descriptor from_utf8 bs records) ∙ h

  pub apply_frames-append :
      (xs ys : List Bytes) (records : MetaRecords Node)
      → apply_frames decode_node same_descriptor from_utf8 (xs ++ ys) records ≡ (
          apply_frames decode_node same_descriptor from_utf8 xs records
          >>= apply_frames decode_node same_descriptor from_utf8 ys)
  unfolding apply_frames
  apply_frames-append [] ys records = refl
  apply_frames-append (x ∷ xs) ys records =
      ap (λ k. apply_frame decode_node same_descriptor from_utf8 x records >>= k)
        (λ i m. apply_frames-append xs ys m i)
      ∙ >>=_assoc (apply_frame decode_node same_descriptor from_utf8 x records)
          (apply_frames decode_node same_descriptor from_utf8 xs)
          (apply_frames decode_node same_descriptor from_utf8 ys)

  module _ (crc32c : Bytes → ℕ) (crc : (bs : Bytes) → crc32c bs ≤ u32_max) (fs : FileSystem) where
    pub read_meta_records-Holds :
        (disk : fs.Disk) (ps : List Bytes)
        → All (λ (x : Bytes). length x ≤ u32_max) ps
        → Holds crc32c fs disk ps
        → read_meta_records decode_node same_descriptor from_utf8 crc32c fs disk
          ≡ apply_frames decode_node same_descriptor from_utf8 ps no_records
    unfolding read_meta_records records_of
    read_meta_records-Holds disk ps all (present, opened) =
        let read =
          read_frames-reading_of crc32c (to_bytes new_header ++ concat_frames crc32c ps)
            (omega (
              arith,
              header-length,
              length-append {0} (to_bytes new_header) (concat_frames crc32c ps),
            ))
            (read_whole crc32c crc ps all) in
        let version : (new_header.format_version == container_format_version) ≡ true =
          unfold new_header in refl in
        rw (present, opened) (rw read (rw version refl))
