-- ===== src/File/Meta.antt =====
-- The ownership records of a `.meta` file (`MetaRecords`, `read_meta_records` and
-- `append_meta_record_impl` of crates/pardosa/src/file.rs). The node decoder of schema.rs and its
-- equality are arguments, and so is the test for UTF-8.
pub mod Log
pub mod Append
use pardosa.Container.{container_format_version}
use pardosa.Container.Frame.{EncodeError, try_encode_payload}
use pardosa.File.System.{read_frames, FileSystem}
use pardosa.Container.Scan.{ContainerScan, is_clean}
use pardosa.Ownership.Record.Codec.{decode_record, encode_record}
use pardosa.Ownership.Record.{
  OwnershipClaimRecord, OwnershipRecord, OutboundPointerRecord, ownership_claim,
  InboundPointerRecord, schema_descriptor, MigrationStartRecord, outbound_pointer,
  MigrationEndRecord, inbound_pointer, RescuePolicyChoiceRecord, migration_start, migration_end,
  rescue_policy_choice, clean_release, identity_structure,
}
use pardosa.Prelude.Bytes.{Bytes}
use pardosa.Failure.{
  OperationFailure, failure, ownership_record_unreadable, Result, ◌>>=◌, ◌>>◌, refuse_if, map_err,
  ok_or, DecodeError, too_long_failure, ok, err,
}
use pardosa.Prelude.{
  ℕ, String, Option, none, Bool, true, false, not, some, List, [], ◌∷◌, ◌==◌, if◌then◌else◌, length,
}
use pardosa.Ownership.Record
use mathlib.Core.Option

pub record MetaRecords (Node : Type 0) : Type 0 where
  pub latest_claim : Option OwnershipClaimRecord
  pub schema_descriptor : Option (ℕ × Node)
  pub outbound_pointer : Option OutboundPointerRecord
  pub inbound_pointer : Option InboundPointerRecord
  pub migration_start : Option MigrationStartRecord
  pub migration_end : Option MigrationEndRecord
  pub rescue_policy_choice : Option RescuePolicyChoiceRecord

-- `MetaRecords::default`.
abbrev pub no_records : {Node : Type 0} → MetaRecords Node
no_records = record {
  latest_claim = none;
  schema_descriptor = none;
  outbound_pointer = none;
  inbound_pointer = none;
  migration_start = none;
  migration_end = none;
  rescue_policy_choice = none;
}

abbrev pub unreadable : String → OperationFailure
unreadable = failure ownership_record_unreadable

module _ {Node : Type 0} (decode_node : Bytes → Result DecodeError (Node × ℕ))
    (same_descriptor : ℕ × Node → ℕ × Node → Bool) where
  -- A descriptor that is already there has to be the same.
  unfoldable pub attach_descriptor :
      MetaRecords Node → ℕ × Node → Option (ℕ × Node) → Result OperationFailure (MetaRecords Node)
  attach_descriptor records new_desc (some existing) = do
    refuse_if (not (same_descriptor existing new_desc))
        (unreadable "conflicting schema descriptor in .meta metadata")
    ok records
  attach_descriptor records new_desc none =
      ok (record records { schema_descriptor = some new_desc })

  -- The `match record` of `read_meta_records`.
  unfoldable pub apply_record :
      OwnershipRecord → MetaRecords Node → Result OperationFailure (MetaRecords Node)
  unfolding attach_descriptor
  apply_record (ownership_claim claim) records = ok (record records { latest_claim = some claim })
  apply_record (schema_descriptor schema_version descriptor_bytes) records = do
    (root, consumed_desc) ←
        map_err (λ _. unreadable "failed to decode schema descriptor in .meta: {err}")
          (decode_node descriptor_bytes)
    refuse_if (not (consumed_desc == length descriptor_bytes))
        (unreadable "unconsumed trailing bytes in schema descriptor in .meta: {} bytes remain")
    attach_descriptor records (schema_version, root) records.schema_descriptor
  apply_record (outbound_pointer p) records = ok (record records { outbound_pointer = some p })
  apply_record (inbound_pointer p) records = ok (record records { inbound_pointer = some p })
  apply_record (migration_start m) records = ok (record records { migration_start = some m })
  apply_record (migration_end m) records = ok (record records { migration_end = some m })
  apply_record (rescue_policy_choice r) records =
      ok (record records { rescue_policy_choice = some r })
  apply_record (clean_release _) records = ok records
  apply_record (identity_structure _) records = ok records

  module _ (from_utf8 : Bytes → Bool) where
    -- One round of the loop over the frames.
    unfoldable pub apply_frame :
        Bytes → MetaRecords Node → Result OperationFailure (MetaRecords Node)
    unfolding apply_record
    apply_frame frame records = do
      (r, consumed) ←
          map_err (λ _. unreadable "failed to decode ownership record from .meta: {err}")
            (decode_record from_utf8 frame)
      refuse_if (not (consumed == length frame))
          (unreadable "unconsumed trailing bytes in ownership record from .meta: {} bytes remain")
      apply_record r records

    unfoldable pub apply_frames :
        List Bytes → MetaRecords Node → Result OperationFailure (MetaRecords Node)
    unfolding apply_frame
    apply_frames [] records = ok records
    apply_frames (frame ∷ frames) records = apply_frame frame records >>= apply_frames frames

    -- The test of the tail, of the version and the loop, on what was scanned.
    unfoldable pub records_of : ContainerScan → Result OperationFailure (MetaRecords Node)
    unfolding apply_frames
    records_of scan = do
      refuse_if (not (is_clean scan.tail_state))
          (unreadable "uncommitted torn trailing frame in .meta per C5.12")
      refuse_if (not (scan.header.format_version == container_format_version))
          (unreadable "container header in .meta has invalid format version")
      apply_frames scan.frames no_records

    -- `read_meta_records`.
    unfoldable pub read_meta_records :
        (Bytes → ℕ) → (fs : FileSystem) → fs.Disk → Result OperationFailure (MetaRecords Node)
    unfolding read_frames records_of
    read_meta_records crc32c fs disk = if not (fs.meta_exists disk) then ok no_records else (do
      file ← ok_or (fs.open_meta disk) (unreadable "failed to open .meta file: {err}")
      scan ←
          map_err (λ _. unreadable "failed to read frames from .meta file: {err}")
            (read_frames crc32c file)
      records_of scan)

-- `MetaWriteError`; `Open` is `opening`.
pub data MetaWriteError : Type 0 where
  opening write_or_sync : OperationFailure → MetaWriteError

-- `into_failure`.
unfoldable pub into_failure : MetaWriteError → OperationFailure
into_failure (opening f) = f
into_failure (write_or_sync f) = f

module _ (fs : FileSystem) (simulate_write_error simulate_sync_error : Bool) where
  -- `append_meta_record_impl` from the end backwards; `none` is the panic of the encoder.
  unfoldable pub sync_record : Bool × fs.Disk → Result MetaWriteError (Unit {0}) × fs.Disk
  sync_record (true, disk) = (ok tt, disk)
  sync_record (false, disk) = (err (write_or_sync (unreadable "failed to sync .meta: {err}")), disk)

  unfoldable pub after_write : Bool × fs.Disk → Result MetaWriteError (Unit {0}) × fs.Disk
  unfolding sync_record
  after_write (true, disk) =
      sync_record (if simulate_sync_error then (false, disk) else fs.sync_meta disk)
  after_write (false, disk) =
      (err (write_or_sync (unreadable "failed to write record to .meta: {err}")), disk)

  unfoldable pub write_record :
      Result EncodeError Bytes → fs.Disk → Result MetaWriteError (Unit {0}) × fs.Disk
  unfolding after_write
  write_record (err e) disk =
      (err (write_or_sync (too_long_failure "failed to encode record frame: {err}")), disk)
  write_record (ok frame_buf) disk =
      after_write (if simulate_write_error then (false, disk) else fs.write_meta frame_buf disk)

  unfoldable pub encode_and_write :
      (Bytes → ℕ)
      → OwnershipRecord
      → Bool × fs.Disk
      → Option (Result MetaWriteError (Unit {0}) × fs.Disk)
  unfolding write_record
  encode_and_write crc32c r (false, disk) =
      some (err (opening (unreadable "failed to open .meta for append: {err}")), disk)
  encode_and_write crc32c r (true, disk) =
      Option.map (λ rec_buf. write_record (try_encode_payload crc32c rec_buf []) disk)
        (encode_record r [])

  unfoldable pub append_meta_record_impl :
      (Bytes → ℕ) → OwnershipRecord → fs.Disk → Option (Result MetaWriteError (Unit {0}) × fs.Disk)
  unfolding encode_and_write
  append_meta_record_impl crc32c r disk = encode_and_write crc32c r (fs.open_meta_append disk)
