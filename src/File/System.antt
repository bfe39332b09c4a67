-- ===== src/File/System.antt =====
-- What file.rs uses of the operating system's files (`std::fs::File`), as an interface, and the
-- reading of a container file over it (`read_container_frames` of crates/pardosa/src/file.rs).
use pardosa.Prelude.Bytes.{Bytes}
use pardosa.Failure.{
  Result, ◌>>=◌, ◌>>◌, refuse_if, ok_or, OperationFailure, failure, chain_failure, ok, err,
  transport_unavailable,
}
use pardosa.Prelude.{
  ℕ, ◌≤◌, ◌≡◌, refl, Bool, true, not, Option, none, some, ◌++◌, arith, ltb, ◌==◌, if◌then◌else◌,
  ltb-eq-false, ==_iff, length, take, take_all,
}
use pardosa.Container.Scan.{ContainerScan, read_container_frames}

-- A file that is open for reading: how `seek(SeekFrom::Start(0))`, `metadata()` and
-- `take(n).read_to_end()` go.
pub record Reading : Type 0 where
  pub sought : Bool
  pub file_len : Option ℕ
  pub read_to_end : ℕ → Option Bytes

-- The results of `try_lock`.
pub data TryLock : Type 0 where
  acquired would_block error : TryLock

-- The open `.pgno` of an engine, and the `.meta` of its artefact. A call returns the disk after it,
-- and whether it has succeeded.
pub record FileSystem : Type 1 where
  pub Disk : Type 0
  -- The bytes of the `.pgno`, and the offset of its handle.
  pub pgno : Disk → Bytes
  pub cursor : Disk → ℕ
  -- Seeking and reading do not fail, now and later.
  pub Healthy : Disk → Type 0
  pub seek_start : ℕ → Disk → Bool × Disk
  pub seek_end : Disk → Option ℕ × Disk
  pub read_pgno : Disk → Reading × Disk
  pub write_all : Bytes → Disk → Bool × Disk
  pub set_len : ℕ → Disk → Bool × Disk
  pub sync_data : Disk → Bool × Disk
  pub try_lock : Disk → TryLock × Disk
  pub unlock : Disk → Bool × Disk
  -- `meta_path.exists()`, `File::open`, and the calls of an append to the `.meta`.
  pub meta_exists : Disk → Bool
  pub open_meta : Disk → Option Reading
  pub open_meta_append : Disk → Bool × Disk
  pub write_meta : Bytes → Disk → Bool × Disk
  pub sync_meta : Disk → Bool × Disk

-- A file of these bytes that is read without a failure.
abbrev pub reading_of : Bytes → Reading
reading_of bs = record {
  sought = true;
  file_len = some (length bs);
  read_to_end = λ n. some (take n bs);
}

-- The documented behaviour of the calls on the `.pgno`.
pub record IsDocumented (fs : FileSystem) : Type 0 where
  -- On a healthy disk, seeking from the start and reading succeed, and change nothing but the
  -- offset.
  pub seeks :
      (n : ℕ) (d : fs.Disk)
      → fs.Healthy d
      → (d' : fs.Disk) × (fs.seek_start n d ≡ (true, d')) × fs.Healthy d' × (fs.pgno d' ≡ fs.pgno d)
  pub reads :
      (d : fs.Disk)
      → fs.Healthy d
      → (d' : fs.Disk) × (fs.read_pgno d ≡ (reading_of (fs.pgno d), d'))
        × fs.Healthy d'
        × (fs.pgno d' ≡ fs.pgno d)
  -- Seeking to the end changes nothing but the offset, and returns it.
  pub seeks_end :
      (d d' : fs.Disk) (o : Option ℕ)
      → fs.seek_end d ≡ (o, d')
      → (fs.pgno d' ≡ fs.pgno d) × (fs.Healthy d → fs.Healthy d')
  pub ends :
      (d d' : fs.Disk) (n : ℕ)
      → fs.seek_end d ≡ (some n, d')
      → (n ≡ length (fs.pgno d)) × (fs.cursor d' ≡ n)
  -- `write_all` at the end of a file has written some first part of the bytes, and all where it
  -- succeeds.
  pub writes :
      (bs : Bytes) (d d' : fs.Disk) (success : Bool)
      → fs.cursor d ≡ length (fs.pgno d)
      → fs.write_all bs d ≡ (success, d')
      → (k : ℕ) × (k ≤ length bs)
        × (fs.pgno d' ≡ fs.pgno d ++ take k bs)
        × (success ≡ true → k ≡ length bs)
        × (fs.Healthy d → fs.Healthy d')
  -- `set_len` to a length that is not greater cuts the file there, or fails and leaves it.
  pub truncates :
      (n : ℕ) (d d' : fs.Disk) (success : Bool)
      → n ≤ length (fs.pgno d)
      → fs.set_len n d ≡ (success, d')
      → (fs.pgno d' ≡ (if success then take n (fs.pgno d) else fs.pgno d))
        × (fs.Healthy d → fs.Healthy d')
  pub syncs :
      (d d' : fs.Disk) (success : Bool)
      → fs.sync_data d ≡ (success, d')
      → (fs.pgno d' ≡ fs.pgno d) × (fs.Healthy d → fs.Healthy d')
  pub seeks_start :
      (n : ℕ) (d d' : fs.Disk) (success : Bool)
      → fs.seek_start n d ≡ (success, d')
      → (fs.pgno d' ≡ fs.pgno d) × (fs.Healthy d → fs.Healthy d')

-- The scan of the bytes; that its fuel runs out does not happen, by `read_container_frames_total`.
abbrev scan_bytes : (Bytes → ℕ) → Bytes → Result OperationFailure ContainerScan
scan_bytes crc32c buf = elim (read_container_frames crc32c buf) [
  | some r ↦ r
  | none ↦ err (chain_failure "")
]

-- `read_container_frames`.
unfoldable pub read_frames : (Bytes → ℕ) → Reading → Result OperationFailure ContainerScan
read_frames crc32c file = do
  refuse_if (not file.sought) (chain_failure "failed to seek container file: {err}")
  file_len ←
      ok_or file.file_len
        (failure transport_unavailable "failed to read container file metadata: {err}")
  refuse_if (ltb file_len 12) (chain_failure "container file too short for header")
  buf ← ok_or (file.read_to_end file_len) (chain_failure "failed to read container file: {err}")
  refuse_if (not (length buf == file_len))
      (chain_failure "container file truncated during initial horizon read")
  scan_bytes crc32c buf

pub read_frames-reading_of :
    (crc32c : Bytes → ℕ) (bs : Bytes) {scan : ContainerScan}
    → 12 ≤ length bs
    → read_container_frames crc32c bs ≡ some (ok scan)
    → read_frames crc32c (reading_of bs) ≡ ok scan
unfolding read_frames
read_frames-reading_of crc32c bs long h =
    let whole = take_all (length bs) bs (omega arith) in
    let same = (==_iff (length bs) (length bs)).1 refl in
    rw (ltb-eq-false (length bs) 12 long, whole, same) (rw (h, scan_bytes) refl)
