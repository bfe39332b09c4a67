-- ===== src/File/Engine/Effect.antt =====
-- What an append of the file engine does to the bytes of the container, whatever the operating system
-- answers.
use pardosa.File.Engine.{
  FileEngine, rollback, Appended, after_resync, after_truncate, after_sync, after_write, after_seek,
  after_simulation, check_append_simulation, simulated_landing, append_block, at_limit,
  after_authority, exclusion_missing, check_authority,
}
use pardosa.Store.Engine.{WriteLandingVerdict, landed, undetermined}
use pardosa.Prelude.Bytes.{Bytes}
use pardosa.Failure.{
  Result, OperationFailure, ok, err, failure, ownership_unestablished, DecodeError, chain_failure,
  another_owner_holds_exclusion,
}
use pardosa.Prelude.{
  ℕ, ◌≤◌, ◌≡◌, refl, sym, ap, ◌∙◌, subst, Bool, true, false, ◌++◌, append-nil, arith, length, take,
  length-append, take-append, Option, none, some, if◌then◌else◌, not,
}
use pardosa.File.System.{FileSystem, IsDocumented}

-- How much of a block of `n` bytes a result leaves in the file.
abbrev pub Agrees : Result OperationFailure (WriteLandingVerdict ℕ) → ℕ → ℕ → Type 0
Agrees (err _) k n = k ≡ 0
Agrees (ok (landed _)) k n = k ≡ n
Agrees (ok (undetermined _)) k n = Unit {0}

module _ (fs : FileSystem) where
  -- Some first part of the block has been added to the file, and nothing else.
  pub record Effect (s : FileEngine fs) (block : Bytes) (p : Appended fs) : Type 0 where
    pub written : ℕ
    pub within : written ≤ length block
    pub grown : fs.pgno p.1.disk ≡ fs.pgno s.disk ++ take written block
    pub healthy : fs.Healthy s.disk → fs.Healthy p.1.disk
    pub has_file : p.1.has_file ≡ s.has_file
    pub agrees : Agrees p.0 written (length block)

  untouched :
      (s : FileEngine fs) (block : Bytes) (p : Appended fs)
      → p.1.disk ≡ s.disk
      → p.1.has_file ≡ s.has_file
      → Agrees p.0 0 (length block)
      → Effect s block p
  untouched s block p disk file agrees = record {
    written = 0;
    within = omega arith;
    grown = ap fs.pgno disk ∙ sym (append-nil (fs.pgno s.disk));
    healthy = λ h. subst fs.Healthy (sym disk) h;
    has_file = file;
    agrees = agrees;
  }

  module _ (laws : IsDocumented fs) where
    -- A step that leaves the bytes keeps what has been written.
    rollback-lem :
        (old block : Bytes) (k : ℕ) (d : fs.Disk)
        → k ≤ length block
        → fs.pgno d ≡ old ++ take k block
        → (j : ℕ) × (j ≤ length block)
          × (fs.pgno (rollback fs (length old) d).1 ≡ old ++ take j block)
          × (fs.Healthy d → fs.Healthy (rollback fs (length old) d).1)
    unfolding rollback
    rollback-lem old block k d within grown = cut (fs.set_len (length old) d) refl
      where
        resynced :
            (q : Bool × fs.Disk) (d1 : fs.Disk)
            → fs.sync_data d1 ≡ q
            → (fs.pgno (after_resync fs q (fs.seek_start (length old))).1 ≡ fs.pgno d1)
              × (fs.Healthy d1 → fs.Healthy (after_resync fs q (fs.seek_start (length old))).1)
        resynced (false, d2) d1 e = laws.syncs d1 d2 false e
        resynced (true, d2) d1 e =
            let (same, healthy) = laws.syncs d1 d2 true e in
            let (same', healthy') =
              laws.seeks_start (length old) d2 (fs.seek_start (length old) d2).1
                (fs.seek_start (length old) d2).0 refl in
            (same' ∙ same, λ h. healthy' (healthy h))

        start_len : length old ≤ length (fs.pgno d)
        start_len = omega (arith, ap length grown, length-append {0} old (take k block))

        cut :
            (q : Bool × fs.Disk)
            → fs.set_len (length old) d ≡ q
            → (j : ℕ) × (j ≤ length block)
              × (fs.pgno (after_truncate fs q (length old)).1 ≡ old ++ take j block)
              × (fs.Healthy d → fs.Healthy (after_truncate fs q (length old)).1)
        cut (false, d1) e =
            let (same, healthy) = laws.truncates (length old) d d1 false start_len e in
            (k, within, same ∙ grown, healthy)
        cut (true, d1) e =
            let (short, healthy) = laws.truncates (length old) d d1 true start_len e in
            let (same, healthy') = resynced (fs.sync_data d1) d1 refl in
            (
              0,
              omega arith,
              same
                  ∙ short
                  ∙ ap (take (length old)) grown
                  ∙ take-append (length old) old (take k block) refl
                  ∙ sym (append-nil old),
              λ h. healthy' (healthy h),
            )

    after_sync-Effect :
        (s : FileEngine fs) (block : Bytes) (d d1 : fs.Disk) (b : Bool)
        → fs.pgno d ≡ fs.pgno s.disk ++ take (length block) block
        → (fs.Healthy s.disk → fs.Healthy d)
        → (fs.pgno d1 ≡ fs.pgno d) × (fs.Healthy d → fs.Healthy d1)
        → Effect s block (after_sync fs s (b, d1))
    unfolding after_sync
    after_sync-Effect s block d d1 false grown healthy (same, healthy') = record {
      written = length block;
      within = omega arith;
      grown = same ∙ grown;
      healthy = λ h. healthy' (healthy h);
      has_file = refl;
      agrees = tt;
    }
    after_sync-Effect s block d d1 true grown healthy (same, healthy') = record {
      written = length block;
      within = omega arith;
      grown = same ∙ grown;
      healthy = λ h. healthy' (healthy h);
      has_file = refl;
      agrees = refl;
    }

    after_write-Effect :
        (s : FileEngine fs) (block : Bytes) (d : fs.Disk) (b : Bool) (k : ℕ)
        → k ≤ length block
        → fs.pgno d ≡ fs.pgno s.disk ++ take k block
        → (b ≡ true → k ≡ length block)
        → (fs.Healthy s.disk → fs.Healthy d)
        → Effect s block (after_write fs (length (fs.pgno s.disk)) s (b, d))
    unfolding after_write
    after_write-Effect s block d false k within grown whole healthy =
        let (j, within', grown', healthy') = rollback-lem (fs.pgno s.disk) block k d within grown in
        record {
          written = j;
          within = within';
          grown = grown';
          healthy = λ h. healthy' (healthy h);
          has_file = refl;
          agrees = tt;
        }
    after_write-Effect s block d true k within grown whole healthy =
        let grown' : fs.pgno d ≡ fs.pgno s.disk ++ take (length block) block =
          grown ∙ ap (λ n. fs.pgno s.disk ++ take n block) (whole refl) in
        synced grown' s.simulate_sync_error
      where
        synced :
            fs.pgno d ≡ fs.pgno s.disk ++ take (length block) block
            → (fails : Bool)
            → Effect s block (after_sync fs s (if fails then (false, d) else fs.sync_data d))
        synced grown' true = after_sync-Effect s block d d false grown' healthy (refl, λ h. h)
        synced grown' false =
            after_sync-Effect s block d (fs.sync_data d).1 (fs.sync_data d).0 grown' healthy
              (laws.syncs d (fs.sync_data d).1 (fs.sync_data d).0 refl)

    after_seek-Effect :
        (s : FileEngine fs) (block : Bytes) (q : Option ℕ × fs.Disk)
        → fs.seek_end s.disk ≡ q
        → Effect s block (after_seek fs block s q)
    unfolding after_seek
    after_seek-Effect s block (none, d) e =
        let (same, healthy) = laws.seeks_end s.disk d none e in
        record {
          written = 0;
          within = omega arith;
          grown = same ∙ sym (append-nil (fs.pgno s.disk));
          healthy = healthy;
          has_file = refl;
          agrees = refl;
        }
    after_seek-Effect s block (some n, d) e =
        let (same, healthy) = laws.seeks_end s.disk d (some n) e in
        let (n_eq, at_end) = laws.ends s.disk d n e in
        subst (λ m. Effect s block (after_seek fs block s (some m, d))) (sym n_eq)
          (wrote same healthy (at_end ∙ n_eq ∙ ap length (sym same)) s.simulate_write_error)
      where
        wrote :
            fs.pgno d ≡ fs.pgno s.disk
            → (fs.Healthy s.disk → fs.Healthy d)
            → fs.cursor d ≡ length (fs.pgno d)
            → (fails : Bool)
            → Effect s block (
                after_write fs
                  (length (fs.pgno s.disk))
                  s
                  (if fails then (false, d) else fs.write_all block d))
        wrote same healthy end true =
            after_write-Effect s block d false 0 (omega arith)
              (same ∙ sym (append-nil (fs.pgno s.disk))) (λ h. absurd (cc h)) healthy
        wrote same healthy end false =
            let w = fs.write_all block d in
            let (k, within, grown, whole, healthy') = laws.writes block d w.1 w.0 end refl in
            after_write-Effect s block w.1 w.0 k within (grown ∙ ap (λ bs. bs ++ take k block) same)
              whole (λ h. healthy' (healthy h))

    after_simulation-Effect :
        (s : FileEngine fs) (block : Bytes)
        → Effect s block (after_simulation fs block (check_append_simulation fs s))
    unfolding after_simulation check_append_simulation
    after_simulation-Effect s block =
        simulate s.simulate_indeterminate (at_limit s.frame_count s.undetermined_after_n_blocks)
          (at_limit s.frame_count s.fail_after_n_blocks)
      where
        seek :
            (missing : Bool)
            → Effect s block (
                if missing
                then (err (failure ownership_unestablished "no file open for writing"), s)
                else after_seek fs block s (fs.seek_end s.disk))
        seek true = untouched s block _ refl refl refl
        seek false = after_seek-Effect s block (fs.seek_end s.disk) refl

        simulate :
            (landing limit fails : Bool)
            → Effect s block (
                after_simulation fs block (
                  if landing
                  then simulated_landing fs s
                  else if limit
                  then simulated_landing fs s
                  else if fails
                  then (err (chain_failure "simulated write failure after limit"), s)
                  else (ok none, s)))
        simulate true limit fails = untouched s block _ refl refl tt
        simulate false true fails = untouched s block _ refl refl tt
        simulate false false true = untouched s block _ refl refl refl
        simulate false false false = seek (not s.has_file)

    -- Whatever the operating system answers, an append adds a first part of the block to the file,
    -- or nothing, and changes no byte that was there: none of it where it is refused, and all of
    -- it where it has landed.
    pub append_block-Effect :
        (crc32c : Bytes → ℕ) {Node : Type 0} (decode_node : Bytes → Result DecodeError (Node × ℕ))
        (same_descriptor : ℕ × Node → ℕ × Node → Bool) (from_utf8 : Bytes → Bool)
        (s : FileEngine fs) (block : Bytes)
        → Effect s block (append_block fs crc32c decode_node same_descriptor from_utf8 block s)
    unfolding append_block
    append_block-Effect crc32c decode_node same_descriptor from_utf8 s block =
        authorised (check_authority fs crc32c decode_node same_descriptor from_utf8 s)
      where
        excluded :
            (missing : Bool)
            → Effect s block (
                if missing
                then (
                  err (
                      failure another_owner_holds_exclusion
                        "writer session has released or does not hold required file exclusion across append per C5.6 and C5.65"),
                  s,
                )
                else after_simulation fs block (check_append_simulation fs s))
        excluded true = untouched s block _ refl refl refl
        excluded false = after_simulation-Effect s block

        authorised :
            (r : Result OperationFailure (Unit {0}))
            → Effect s block
                (after_authority fs crc32c decode_node same_descriptor from_utf8 block s r)
        authorised (err e) = untouched s block _ refl refl refl
        authorised (ok u) =
            excluded (exclusion_missing fs crc32c decode_node same_descriptor from_utf8 s)
