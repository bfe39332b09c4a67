-- ===== src/Container/Scan.antt =====
-- The scan of a container file (`read_container_frames` and `reconcile_tail_state` of
-- crates/pardosa/src/file.rs) on the bytes of the file; reading, cutting and syncing the file itself
-- are input and output. The checksum function is a parameter.
pub mod Crash
pub mod Total
use pardosa.Prelude.Words.{saturating_add}
use pardosa.Failure.{
  Result, DecodeError, OperationFailure, chain_failure, ok, err, truncated_payload,
}
use pardosa.Prelude.{
  ℕ, zero, suc, ◌+◌, ◌-◌, ◌⊎◌, inl, inr, Bool, true, false, Option, none, some, List, [], ◌∷◌, ◌++◌,
  ltb, if◌then◌else◌, length, drop, slice, take,
}
use mathlib.Core.Option
use pardosa.Prelude.Bytes.{Bytes}
use pardosa.Container.{ContainerHeader, decode_header}
use pardosa.Container.Frame

-- `RollingCommitment`: the bytes that its hasher has taken, and the count of frames.
pub record RollingCommitment : Type 0 where
  pub hashed : Bytes
  pub frame_count : ℕ

abbrev pub new_commitment : RollingCommitment
new_commitment = record { hashed = []; frame_count = 0 }

-- `RollingCommitment::update_frame`.
unfoldable pub update_frame : RollingCommitment → Bytes → RollingCommitment
update_frame r frame_bytes = record {
  hashed = r.hashed ++ frame_bytes;
  frame_count = saturating_add r.frame_count 1;
}

-- `RollingCommitment::current_commitment`.
unfoldable pub current_commitment : (Bytes → Bytes) → RollingCommitment → Bytes
current_commitment blake3 r = blake3 r.hashed

pub record TornTailInfo : Type 0 where
  pub valid_len : ℕ
  pub truncated_bytes : ℕ

pub data TailState : Type 0 where
  clean : TailState
  torn_tail : TornTailInfo → TailState

-- `tail_state == TailState::Clean`.
abbrev pub is_clean : TailState → Bool
is_clean clean = true
is_clean (torn_tail _) = false

pub record ContainerScan : Type 0 where
  pub header : ContainerHeader
  pub frames : List Bytes
  pub rolling : RollingCommitment
  pub tail_state : TailState
  pub valid_len : ℕ

-- The variables of the loop.
pub record Progress : Type 0 where
  pub frames : List Bytes
  pub rolling : RollingCommitment
  pub tail_state : TailState
  pub cursor : ℕ

abbrev is_truncated : DecodeError → Bool
is_truncated (truncated_payload _ _) = true
is_truncated _ = false

module _ (crc32c : Bytes → ℕ) where
  -- One round of the loop: `inl` ends it.
  unfoldable pub scan_step : Bytes → Progress → Result OperationFailure Progress ⊎ Progress
  scan_step buf p = elim (Frame.decode crc32c (drop p.cursor buf)) [
    | ok (payload, consumed) ↦ inr (record {
      frames = p.frames ++ (payload ∷ []);
      rolling = update_frame p.rolling (slice buf p.cursor (p.cursor + consumed));
      tail_state = p.tail_state;
      cursor = p.cursor + consumed;
    })
    | err e ↦
        if is_truncated e
        then inl (
            ok (record p {
              tail_state =
                  torn_tail
                    (record { valid_len = p.cursor; truncated_bytes = length buf - p.cursor });
            }))
        else inl (err (chain_failure "invalid container frame at offset {cursor}: {err}"))
  ]

  -- `while cursor < buf.len()`, on fuel; `none` means that the fuel ran out.
  unfoldable pub scan_frames : ℕ → Bytes → Progress → Option (Result OperationFailure Progress)
  scan_frames zero buf p = none
  scan_frames (suc fuel) buf p =
      if ltb p.cursor (length buf)
      then elim (scan_step buf p) [ inl r ↦ some r | inr p' ↦ scan_frames fuel buf p' ]
      else some (ok p)

  abbrev finish :
      ContainerHeader → Result OperationFailure Progress → Result OperationFailure ContainerScan
  finish header (ok p) = ok (record {
    header = header;
    frames = p.frames;
    rolling = p.rolling;
    tail_state = p.tail_state;
    valid_len = p.cursor;
  })
  finish header (err e) = err e

  -- `read_container_frames` on the contents of the file.
  unfoldable pub read_container_frames : Bytes → Option (Result OperationFailure ContainerScan)
  read_container_frames buf =
      if ltb (length buf) 12
      then some (err (chain_failure "container file too short for header"))
      else elim (decode_header buf) [
        | ok (header, cursor) ↦ Option.map (finish header) (
            scan_frames (suc (length buf)) buf (record {
              frames = [];
              rolling = new_commitment;
              tail_state = clean;
              cursor = cursor;
            }))
        | err e ↦ some (err (chain_failure "invalid container header: {err}"))
      ]

-- `reconcile_tail_state`: what was torn off, and the contents of the file after it.
unfoldable pub reconcile_tail_state : Bytes → ContainerScan → Option TornTailInfo × Bytes
reconcile_tail_state buf scan = elim (scan.tail_state) [
  | clean ↦ (none, buf)
  | torn_tail info ↦ (some info, take info.valid_len buf)
]
