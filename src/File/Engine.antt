-- ===== src/File/Engine.antt =====
-- The file engine (`FileEngine` of crates/pardosa/src/file.rs) over an operating system's files. Left
-- out are the paths, the records that only getters read, and the counters and quotas of tests. A
-- method that takes `&mut self` returns the engine after it, also beside an error.
pub mod Effect
pub mod Live
pub mod Crash
use pardosa.File.Meta.{read_meta_records, unreadable}
use pardosa.Container.Scan.{ContainerScan, is_clean}
use pardosa.File.System.{FileSystem, read_frames}
use pardosa.Prelude.Bytes.{Bytes}
use pardosa.Prelude.Words.{wrapping_add, is_some}
use pardosa.Failure.{
  Result, ◌>>=◌, ◌>>◌, refuse_if, ok_or, DecodeError, OperationFailure, failure, chain_failure, ok,
  err, no_artefact_exists, stale_epoch, ownership_unestablished, exclusion_unavailable,
  another_owner_holds_exclusion, retired_migration_source, transport_unavailable,
}
use pardosa.Prelude.{
  ℕ, String, Bool, true, false, not, ◌&&◌, ◌||◌, Option, none, some, List, [], leb, ◌==◌,
  if◌then◌else◌, length,
}
use pardosa.Store.Engine
use pardosa.File.System.{acquired, would_block, error}
use pardosa.Store.Engine.{
  StorageEngine, WriteLandingVerdict, undetermined, landed, Callback, Visit, visit,
}

pub data FileExclusionPolicy : Type 0 where
  standard simulate_unavailable simulate_held_by_other : FileExclusionPolicy

abbrev pub is_standard : FileExclusionPolicy → Bool
is_standard standard = true
is_standard _ = false

pub record FileEngine (fs : FileSystem) : Type 0 where
  -- The files behind `file`, and whether it is there.
  pub disk : fs.Disk
  pub has_file : Bool
  pub carried_epoch : ℕ
  pub exclusion_policy : FileExclusionPolicy
  pub locked : Bool
  pub frame_count : ℕ
  pub uncertain : Bool
  pub uncertain_diagnostic : Option String
  pub simulate_indeterminate : Bool
  pub simulate_sync_error : Bool
  pub simulate_write_error : Bool
  pub fail_after_n_blocks : Option ℕ
  pub undetermined_after_n_blocks : Option ℕ

pub data RollbackOutcome : Type 0 where
  succeeded truncate_failed sync_failed seek_failed : RollbackOutcome

-- `Option::is_some_and` of a limit that the count has come to.
abbrev pub at_limit : ℕ → Option ℕ → Bool
at_limit count none = false
at_limit count (some limit) = leb limit count

-- `acquire_file_exclusion`.
unfoldable pub acquire_file_exclusion :
    (fs : FileSystem) → FileExclusionPolicy → fs.Disk → Result OperationFailure (Unit {0}) × fs.Disk
acquire_file_exclusion fs standard disk =
    let (outcome, disk') = fs.try_lock disk in
    elim outcome [
      | acquired ↦ (ok tt, disk')
      | would_block ↦ (
        err (
            failure another_owner_holds_exclusion
              "another owner holds the required file exclusion per C5.6 and C5.65"),
        disk',
      )
      | error ↦ (
        err (
            failure exclusion_unavailable
              "platform exclusion mechanism is unavailable per C5.6 and C5.13: {err}"),
        disk',
      )
    ]
acquire_file_exclusion fs simulate_unavailable disk = (
  err (
      failure exclusion_unavailable
        "simulated platform exclusion mechanism unavailable per C5.6 and C5.13"),
  disk,
)
acquire_file_exclusion fs simulate_held_by_other disk = (
  err (
      failure another_owner_holds_exclusion
        "simulated another owner holds the required file exclusion per C5.6 and C5.65"),
  disk,
)

module _ (fs : FileSystem) where
  abbrev pub Appended : Type 0
  Appended = Result OperationFailure (WriteLandingVerdict ℕ) × FileEngine fs

  -- `self.uncertain = true`, the diagnostic, and the verdict.
  abbrev pub undecided : String → FileEngine fs → Appended
  undecided diag s = (
    ok (undetermined s.carried_epoch),
    record s { uncertain = true; uncertain_diagnostic = some diag },
  )

  -- `check_append_simulation`.
  abbrev pub simulated_landing :
      FileEngine fs → Result OperationFailure (Option (WriteLandingVerdict ℕ)) × FileEngine fs
  simulated_landing s = (
    ok (some (undetermined s.carried_epoch)),
    record s {
      uncertain = true;
      uncertain_diagnostic =
          some "write landing undetermined: simulated indeterminate write landing";
    },
  )

  unfoldable pub check_append_simulation :
      FileEngine fs → Result OperationFailure (Option (WriteLandingVerdict ℕ)) × FileEngine fs
  check_append_simulation s =
      if s.simulate_indeterminate
      then simulated_landing s
      else if at_limit s.frame_count s.undetermined_after_n_blocks
      then simulated_landing s
      else if at_limit s.frame_count s.fail_after_n_blocks
      then (err (chain_failure "simulated write failure after limit"), s)
      else (ok none, s)

  -- The rollback of a failed write: cut, sync, and seek.
  abbrev pub after_resync : Bool × fs.Disk → (fs.Disk → Bool × fs.Disk) → RollbackOutcome × fs.Disk
  after_resync (false, d) seek = (sync_failed, d)
  after_resync (true, d) seek =
      let (sought, d') = seek d in (if sought then succeeded else seek_failed, d')

  abbrev pub after_truncate : Bool × fs.Disk → ℕ → RollbackOutcome × fs.Disk
  after_truncate (false, d) initial_len = (truncate_failed, d)
  after_truncate (true, d) initial_len = after_resync (fs.sync_data d) (fs.seek_start initial_len)

  unfoldable pub rollback : ℕ → fs.Disk → RollbackOutcome × fs.Disk
  rollback initial_len d = after_truncate (fs.set_len initial_len d) initial_len

  -- `append_block` from the end backwards: the sync, the write, and the seek.
  unfoldable pub after_sync : FileEngine fs → Bool × fs.Disk → Appended
  after_sync s (false, d) =
      undecided "sync_data failed; write landing undetermined: {err}" (record s { disk = d })
  after_sync s (true, d) =
      let count = wrapping_add s.frame_count 1 in
      (ok (landed count), record s { disk = d; frame_count = count })

  unfoldable pub after_write : ℕ → FileEngine fs → Bool × fs.Disk → Appended
  unfolding rollback after_sync
  after_write initial_len s (false, d) =
      undecided "write_all failed; write landing undetermined: {err}; {}"
        (record s { disk = (rollback initial_len d).1 })
  after_write initial_len s (true, d) =
      after_sync s (if s.simulate_sync_error then (false, d) else fs.sync_data d)

  unfoldable pub after_seek : Bytes → FileEngine fs → Option ℕ × fs.Disk → Appended
  unfolding after_write
  after_seek block s (none, d) = (
    err (failure transport_unavailable "failed to seek to end of container: {err}"),
    record s { disk = d },
  )
  after_seek block s (some initial_len, d) =
      after_write initial_len s
        (if s.simulate_write_error then (false, d) else fs.write_all block d)

  unfoldable pub after_simulation :
      Bytes → Result OperationFailure (Option (WriteLandingVerdict ℕ)) × FileEngine fs → Appended
  unfolding after_seek
  after_simulation block (err e, s) = (err e, s)
  after_simulation block (ok (some verdict), s) = (ok verdict, s)
  after_simulation block (ok none, s) =
      if not s.has_file
      then (err (failure ownership_unestablished "no file open for writing"), s)
      else after_seek block s (fs.seek_end s.disk)

  -- `acquire_exclusion`.
  abbrev exclusion_acquired :
      FileEngine fs
      → Result OperationFailure (Unit {0}) × fs.Disk
      → Result OperationFailure (Unit {0}) × FileEngine fs
  exclusion_acquired s (ok _, d) = (ok tt, record s { disk = d; locked = true })
  exclusion_acquired s (err e, d) = (err e, record s { disk = d })

  unfoldable pub acquire_exclusion :
      FileEngine fs → Result OperationFailure (Unit {0}) × FileEngine fs
  unfolding acquire_file_exclusion
  acquire_exclusion s =
      if s.has_file
      then exclusion_acquired s (acquire_file_exclusion fs s.exclusion_policy s.disk)
      else (ok tt, s)

  -- `release_exclusion`.
  abbrev exclusion_released :
      FileEngine fs → Bool × fs.Disk → Result OperationFailure (Unit {0}) × FileEngine fs
  exclusion_released s (true, d) = (ok tt, record s { disk = d; locked = false })
  exclusion_released s (false, d) = (
    err (failure exclusion_unavailable "failed to release file exclusion: {err}"),
    record s { disk = d },
  )

  unfoldable pub release_exclusion :
      FileEngine fs → Result OperationFailure (Unit {0}) × FileEngine fs
  release_exclusion s =
      if s.locked && is_standard s.exclusion_policy
      then (if s.has_file then exclusion_released s (fs.unlock s.disk) else (ok tt, s))
      else (ok tt, s)

  module _ (crc32c : Bytes → ℕ) where
    -- What `read_all` and `recover_frames` share: the container is read from its start, it has to be
    -- clean, and the handle is left behind its last frame.
    abbrev pub at_end :
        ContainerScan → Bool × fs.Disk → Result OperationFailure ContainerScan × fs.Disk
    at_end scan (true, d) = (ok scan, d)
    at_end scan (false, d) = (err (chain_failure "failed to seek to end of container: {err}"), d)

    abbrev pub after_scan :
        Result OperationFailure ContainerScan
        → fs.Disk
        → Result OperationFailure ContainerScan × fs.Disk
    after_scan (err e) d = (err e, d)
    after_scan (ok scan) d =
        if not (is_clean scan.tail_state)
        then (err (chain_failure "container has uncommitted torn trailing frame"), d)
        else at_end scan (fs.seek_start scan.valid_len d)

    abbrev pub after_start : Bool × fs.Disk → Result OperationFailure ContainerScan × fs.Disk
    after_start (false, d) =
        (err (failure no_artefact_exists "failed to seek container file: {err}"), d)
    after_start (true, d) =
        let (file, d') = fs.read_pgno d in after_scan (read_frames crc32c file) d'

    unfoldable pub scan_pgno : fs.Disk → Result OperationFailure ContainerScan × fs.Disk
    unfolding read_frames
    scan_pgno d = after_start (fs.seek_start 0 d)

    -- `read_all`.
    abbrev all_of :
        FileEngine fs
        → Result OperationFailure ContainerScan × fs.Disk
        → Result OperationFailure (List Bytes) × FileEngine fs
    all_of s (err e, d) = (err e, record s { disk = d })
    all_of s (ok scan, d) = (ok scan.frames, record s { disk = d })

    unfoldable pub read_all : FileEngine fs → Result OperationFailure (List Bytes) × FileEngine fs
    unfolding scan_pgno
    read_all s = if not s.has_file then (ok [], s) else all_of s (scan_pgno s.disk)

    -- `recover_frames`: the frames are numbered as far as `u64` goes.
    abbrev pub recovered :
        {S : Type 0}
        → Callback S
        → S
        → FileEngine fs
        → Result OperationFailure ContainerScan × fs.Disk
        → Visit S × FileEngine fs
    recovered on_frame st s (err e, d) = ((err e, st), record s { disk = d })
    recovered on_frame st s (ok scan, d) =
        (visit on_frame 0 scan.frames st, record s { disk = d; frame_count = length scan.frames })

    unfoldable pub recover_frames :
        (S : Type 0) → ℕ → Callback S → S → FileEngine fs → Visit S × FileEngine fs
    unfolding scan_pgno
    recover_frames S chunk_size on_frame st s =
        if not s.has_file then ((ok 0, st), s) else recovered on_frame st s (scan_pgno s.disk)

    module _ {Node : Type 0} (decode_node : Bytes → Result DecodeError (Node × ℕ))
        (same_descriptor : ℕ × Node → ℕ × Node → Bool) (from_utf8 : Bytes → Bool) where
      abbrev pub exclusion_missing : FileEngine fs → Bool
      exclusion_missing s = is_standard s.exclusion_policy && (not s.has_file || not s.locked)

      -- `check_authority`.
      unfoldable pub check_authority : FileEngine fs → Result OperationFailure (Unit {0})
      unfolding read_meta_records
      check_authority s = do
        refuse_if s.uncertain
            (unreadable "writer session in uncertain state; reconciliation required")
        refuse_if (exclusion_missing s) (
            failure another_owner_holds_exclusion
              "writer session has released or does not hold required file exclusion per C5.6 and C5.65")
        meta ← read_meta_records decode_node same_descriptor from_utf8 crc32c fs s.disk
        refuse_if (is_some meta.outbound_pointer) (
            failure retired_migration_source
              "artefact append authority permanently retired via outbound pointer per C5.63")
        latest_claim ←
            ok_or meta.latest_claim
              (unreadable "no ownership claim found in .meta during per-landing check per C5.12")
        refuse_if (not (latest_claim.epoch == s.carried_epoch)) (
            failure stale_epoch
              "writer epoch superseded in .meta; write rejected per C5.5 and C12.4")

      -- `append_block`.
      abbrev pub after_authority :
          Bytes → FileEngine fs → Result OperationFailure (Unit {0}) → Appended
      after_authority block s (err e) = (err e, s)
      after_authority block s (ok _) =
          if exclusion_missing s
          then (
            err (
                failure another_owner_holds_exclusion
                  "writer session has released or does not hold required file exclusion across append per C5.6 and C5.65"),
            s,
          )
          else after_simulation block (check_append_simulation s)

      unfoldable pub append_block : Bytes → FileEngine fs → Appended
      unfolding check_authority check_append_simulation after_simulation
      append_block block s = after_authority block s (check_authority s)

      -- `is_retired`.
      unfoldable pub is_retired : FileEngine fs → Result OperationFailure Bool
      unfolding read_meta_records
      is_retired s = do
        meta ← read_meta_records decode_node same_descriptor from_utf8 crc32c fs s.disk
        ok (is_some meta.outbound_pointer)

      -- `sync`.
      abbrev synced :
          FileEngine fs → Bool × fs.Disk → Result OperationFailure (Unit {0}) × FileEngine fs
      synced s (true, d) = (ok tt, record s { disk = d })
      synced s (false, d) = (
        err (unreadable "failed to sync .pgno: {err}"),
        record s {
          disk = d;
          uncertain = true;
          uncertain_diagnostic = some "sync_data failed; write landing undetermined: {err}";
        },
      )

      unfoldable pub sync : FileEngine fs → Result OperationFailure (Unit {0}) × FileEngine fs
      unfolding check_authority
      sync s = elim (check_authority s) [
        | err e ↦ (err e, s)
        | ok _ ↦ if s.has_file then synced s (fs.sync_data s.disk) else (ok tt, s)
      ]

      -- `impl StorageEngine for FileEngine`.
      abbrev pub file_engine : StorageEngine
      file_engine = record {
        State = FileEngine fs;
        carried_epoch = λ s. s.carried_epoch;
        check_authority = check_authority;
        append_block = append_block;
        read_all = read_all;
        recover_frames = recover_frames;
        is_retired = is_retired;
        sync = sync;
        uncertain_diagnostic = λ s. s.uncertain_diagnostic;
      }
