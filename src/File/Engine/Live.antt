-- ===== src/File/Engine/Live.antt =====
-- The file engine gives the pipeline what it relies on: frames that are kept, and read back.
use pardosa.Store.Engine.Contract.{IsFaithful}
use pardosa.File.Engine.Effect.{Effect, append_block-Effect}
use pardosa.Container.Frame.RoundTrip.{frame_bytes}
use pardosa.Container.{header-length, to_bytes, new_header}
use pardosa.Container.Scan.Crash.{read_whole, concat_frames, concat_frames-append}
use pardosa.Store.Engine.{Callback, visit, landed}
use pardosa.File.Engine.Crash.{container}
use pardosa.Container.Scan.{read_container_frames, ContainerScan}
use pardosa.File.Engine.{
  FileEngine, scan_pgno, recover_frames, after_start, after_scan, at_end, recovered, Appended,
  file_engine, append_block,
}
use pardosa.Prelude.Bytes.{Bytes}
use pardosa.Prelude.Words.{u32_max}
use pardosa.Failure.{ok, Result, DecodeError, OperationFailure, err}
use pardosa.Prelude.{
  ℕ, ◌+◌, ◌≤◌, ◌≡◌, refl, ap, ◌∙◌, true, some, List, [], arith, length, length-append, All, sym,
  subst, Bool, not, ◌∷◌, ◌++◌, append-nil, append_assoc, if◌then◌else◌, take, take_all, All-append,
}
use pardosa.File.System.{
  FileSystem, IsDocumented, read_frames-reading_of, reading_of, Reading, read_frames,
}

-- The frames that reading these bytes gives, and none where they cannot be read.
abbrev pub frames_in : (Bytes → ℕ) → Bytes → List Bytes
frames_in crc32c bs = elim (read_container_frames crc32c bs) [
  | some (ok scan) ↦ scan.frames
  | _ ↦ []
]

module _ (fs : FileSystem) (crc32c : Bytes → ℕ) where
  -- An engine with its file, on a healthy disk, over a container of whole frames.
  pub record Live (s : FileEngine fs) : Type 0 where
    pub healthy : fs.Healthy s.disk
    pub has_file : s.has_file ≡ true
    pub payloads : List Bytes
    pub bounded : All (λ (x : Bytes). length x ≤ u32_max) payloads
    pub held : fs.pgno s.disk ≡ container crc32c payloads

  abbrev pub contents : FileEngine fs → List Bytes
  contents s = frames_in crc32c (fs.pgno s.disk)

  module _ (crc : (bs : Bytes) → crc32c bs ≤ u32_max) (laws : IsDocumented fs) where
    frames_in-container :
        (ps : List Bytes)
        → All (λ (x : Bytes). length x ≤ u32_max) ps
        → frames_in crc32c (container crc32c ps) ≡ ps
    frames_in-container ps all = rw (read_whole crc32c crc ps all, frames_in) refl

    pub contents-Live : (s : FileEngine fs) (live : Live s) → contents s ≡ live.payloads
    contents-Live s live =
        ap (frames_in crc32c) live.held ∙ frames_in-container live.payloads live.bounded

    scan_pgno-container :
        (d : fs.Disk) (ps : List Bytes)
        → All (λ (x : Bytes). length x ≤ u32_max) ps
        → fs.Healthy d
        → fs.pgno d ≡ container crc32c ps
        → (scan : ContainerScan) × (d' : fs.Disk) × (scan_pgno fs crc32c d ≡ (ok scan, d'))
          × (scan.frames ≡ ps)
          × fs.Healthy d'
          × (fs.pgno d' ≡ fs.pgno d)
    unfolding scan_pgno
    scan_pgno-container d ps all healthy held =
        let (d1, sought, healthy1, same1) = laws.seeks 0 d healthy in
        let (d2, read, healthy2, same2) = laws.reads d1 healthy1 in
        let valid_len = 12 + length (concat_frames crc32c ps) in
        let (d3, sought', healthy3, same3) = laws.seeks valid_len d2 healthy2 in
        let long : 12 ≤ length (container crc32c ps) = omega (
          arith,
          header-length,
          length-append {0} (to_bytes new_header) (concat_frames crc32c ps),
        ) in
        let scanned =
          read_frames-reading_of crc32c (container crc32c ps) long (read_whole crc32c crc ps all) in
        let file : fs.read_pgno d1 ≡ (reading_of (container crc32c ps), d2) =
          read ∙ ap (λ bs. (reading_of bs, d2)) (same1 ∙ held) in
        (
          _,
          d3,
          ap (after_start fs crc32c) sought
              ∙ ap (λ (p : Reading × fs.Disk). after_scan fs crc32c (read_frames crc32c p.0) p.1)
                  file
              ∙ ap (λ r. after_scan fs crc32c r d2) scanned
              ∙ ap (at_end fs crc32c _) sought',
          refl,
          healthy3,
          same3 ∙ same2 ∙ same1,
        )

    recover_frames-Live :
        (S : Type 0) (chunk_size : ℕ) (on_frame : Callback S) (st : S) (s : FileEngine fs)
        → Live s
        → (s' : FileEngine fs) × (recover_frames fs crc32c S chunk_size on_frame st s
            ≡ (visit on_frame 0 (contents s) st, s'))
          × Live s'
          × (contents s' ≡ contents s)
    unfolding recover_frames
    recover_frames-Live S chunk_size on_frame st s live =
        let (scan, d, scanned, frames, healthy, same) =
          scan_pgno-container s.disk live.payloads live.bounded live.healthy live.held in
        let s' : FileEngine fs = record s { disk = d; frame_count = length scan.frames } in
        let live' : Live s' = record {
          healthy = healthy;
          has_file = live.has_file;
          payloads = live.payloads;
          bounded = live.bounded;
          held = same ∙ live.held;
        } in
        (
          s',
          ap
                (λ b.
                  if not b
                  then ((ok 0, st), s)
                  else recovered fs crc32c on_frame st s (scan_pgno fs crc32c s.disk))
                live.has_file
              ∙ ap (recovered fs crc32c on_frame st s) scanned
              ∙ ap (λ fs'. (visit on_frame 0 fs' st, s')) (frames ∙ sym (contents-Live s live)),
          live',
          ap (frames_in crc32c) same,
        )

    -- An append that leaves the whole of a frame, or nothing of it, leaves the engine live.
    grown-Live :
        (s s' : FileEngine fs) (live : Live s) (qs : List Bytes)
        → All (λ (x : Bytes). length x ≤ u32_max) qs
        → fs.Healthy s'.disk
        → s'.has_file ≡ s.has_file
        → fs.pgno s'.disk ≡ fs.pgno s.disk ++ concat_frames crc32c qs
        → Live s' × (contents s' ≡ contents s ++ qs)
    grown-Live s s' live qs fit healthy file grown =
        let live' : Live s' = record {
          healthy = healthy;
          has_file = file ∙ live.has_file;
          payloads = live.payloads ++ qs;
          bounded =
              All-append (λ (x : Bytes). length x ≤ u32_max) live.payloads qs live.bounded fit;
          held =
              grown
              ∙ ap (λ bs. bs ++ concat_frames crc32c qs) live.held
              ∙ append_assoc (to_bytes new_header) (concat_frames crc32c live.payloads)
                  (concat_frames crc32c qs)
              ∙ ap (λ bs. to_bytes new_header ++ bs)
                  (sym (concat_frames-append crc32c live.payloads qs));
        } in
        (live', contents-Live s' live' ∙ ap (λ ps. ps ++ qs) (sym (contents-Live s live)))

    module _ {Node : Type 0} (decode_node : Bytes → Result DecodeError (Node × ℕ))
        (same_descriptor : ℕ × Node → ℕ × Node → Bool) (from_utf8 : Bytes → Bool) where
      abbrev appended : Bytes → FileEngine fs → Appended fs
      appended = append_block fs crc32c decode_node same_descriptor from_utf8

      append_block-landed :
          (payload : Bytes) (s s' : FileEngine fs) (n : ℕ)
          → length payload ≤ u32_max
          → Live s
          → appended (frame_bytes crc32c payload) s ≡ (ok (landed n), s')
          → Live s' × (contents s' ≡ contents s ++ (payload ∷ []))
      append_block-landed payload s s' n fits live h =
          let block = frame_bytes crc32c payload in
          let effect : Effect fs s block (ok (landed n), s') =
            subst (Effect fs s block) h
              (append_block-Effect fs laws crc32c decode_node same_descriptor from_utf8 s block) in
          grown-Live s s' live (payload ∷ []) (fits, tt) (effect.healthy live.healthy)
            effect.has_file
            (effect.grown
              ∙ ap (λ bs. fs.pgno s.disk ++ bs)
                  (ap (λ k. take k block) effect.agrees
                    ∙ take_all (length block) block (omega arith)
                    ∙ sym (append-nil block)))

      append_block-refused :
          (payload : Bytes) (s s' : FileEngine fs) (e : OperationFailure)
          → Live s
          → appended (frame_bytes crc32c payload) s ≡ (err e, s')
          → Live s' × (contents s' ≡ contents s)
      append_block-refused payload s s' e live h =
          let block = frame_bytes crc32c payload in
          let effect : Effect fs s block (err e, s') =
            subst (Effect fs s block) h
              (append_block-Effect fs laws crc32c decode_node same_descriptor from_utf8 s block) in
          let (live', same) =
            grown-Live s s' live [] tt (effect.healthy live.healthy) effect.has_file (
              effect.grown
              ∙ ap (λ bs. fs.pgno s.disk ++ bs) (ap (λ k. take k block) effect.agrees)) in
          (live', same ∙ append-nil (contents s))

      -- The file engine is a storage engine that keeps its frames: it satisfies the contract of the
      -- pipeline, with the frames that a scan of its container finds as its contents.
      pub file_engine-IsFaithful :
          IsFaithful crc32c
            (file_engine fs crc32c decode_node same_descriptor from_utf8)
            contents
            Live
      file_engine-IsFaithful = record {
        recovers = recover_frames-Live;
        lands = append_block-landed;
        refuses = append_block-refused;
      }
