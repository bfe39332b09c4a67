-- ===== src/Examples/Disks.antt =====
-- An operating system that never fails, and the file engine over it.
use pardosa.Container.{to_bytes, new_header}
use pardosa.Prelude.Bytes.{Bytes}
use pardosa.Prelude.{
  ℕ, ◌≤◌, ◌≡◌, refl, sym, ap, ◌∙◌, Bool, true, false, some, ◌++◌, arith, if◌then◌else◌, length,
  take, take_all,
}
use pardosa.File.System.{FileSystem, IsDocumented, reading_of, acquired}

pub record ToyDisk : Type 0 where
  pub pgno_bytes : Bytes
  pub offset : ℕ
  pub meta_bytes : Bytes

abbrev pub toy_files : FileSystem
toy_files = record {
  Disk = ToyDisk;
  pgno = λ d. d.pgno_bytes;
  cursor = λ d. d.offset;
  Healthy = λ d. Unit {0};
  seek_start = λ n d. (true, record d { offset = n });
  seek_end = λ d. (some (length d.pgno_bytes), record d { offset = length d.pgno_bytes });
  read_pgno = λ d. (reading_of d.pgno_bytes, d);
  write_all = λ bs d. (true, record d { pgno_bytes = d.pgno_bytes ++ bs });
  set_len = λ n d. (true, record d { pgno_bytes = take n d.pgno_bytes });
  sync_data = λ d. (true, d);
  try_lock = λ d. (acquired, d);
  unlock = λ d. (true, d);
  meta_exists = λ d. true;
  open_meta = λ d. some (reading_of d.meta_bytes);
  open_meta_append = λ d. (true, d);
  write_meta = λ bs d. (true, record d { meta_bytes = d.meta_bytes ++ bs });
  sync_meta = λ d. (true, d);
}

pub toy_files-IsDocumented : IsDocumented toy_files
toy_files-IsDocumented = record {
  seeks = λ n d h. (record d { offset = n }, refl, tt, refl);
  reads = λ d h. (d, refl, tt, refl);
  seeks_end = λ d d' o e. (sym (ap (λ p. p.1.pgno_bytes) e), λ h. tt);
  ends = λ d d' n e. (cc e, cc e);
  writes = λ bs d d' b at e. (
    length bs,
    omega arith,
    sym (ap (λ p. p.1.pgno_bytes) e)
        ∙ ap (λ xs. d.pgno_bytes ++ xs) (sym (take_all (length bs) bs (omega arith))),
    λ h. refl,
    λ h. tt,
  );
  truncates = toy_truncates;
  syncs = λ d d' b e. (sym (ap (λ p. p.1.pgno_bytes) e), λ h. tt);
  seeks_start = λ n d d' b e. (sym (ap (λ p. p.1.pgno_bytes) e), λ h. tt);
}
  where
    toy_truncates :
        (n : ℕ) (d d' : ToyDisk) (b : Bool)
        → n ≤ length d.pgno_bytes
        → ◌≡◌ {A = Bool × ToyDisk} (true, record d { pgno_bytes = take n d.pgno_bytes }) (b, d')
        → (d'.pgno_bytes ≡ (if b then take n d.pgno_bytes else d.pgno_bytes))
          × (Unit {0} → Unit {0})
    toy_truncates n d d' true short e = (sym (ap (λ p. p.1.pgno_bytes) e), λ h. tt)
    toy_truncates n d d' false short e = absurd (cc e)

-- Two containers without a frame.
abbrev pub empty_disk : ToyDisk
empty_disk = record {
  pgno_bytes = to_bytes new_header;
  offset = 0;
  meta_bytes = to_bytes new_header;
}
