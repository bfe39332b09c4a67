-- ===== src/Store/Engine.antt =====
-- The trait `StorageEngine` of crates/pardosa/src/store/engine.rs: its operations as a record, its
-- default methods as functions, and what a pipeline relies on as laws. A method that takes
-- `&mut self` returns the engine after it, also beside an error. The getters of records that the
-- pipeline only passes on are left out.
pub mod Recover
pub mod Contract
use pardosa.Prelude.Bytes.{Bytes}
use pardosa.Prelude.Words.{saturating_add}
use pardosa.Prelude.{
  ℕ, zero, suc, String, Bool, Option, none, some, List, [], ◌∷◌, ltb, leb, ◌==◌, if◌then◌else◌,
  length, slice, true, false,
}
use Prim.Native.Nat.{min, max}
use pardosa.Failure.{Result, OperationFailure, too_long_failure, ok, err}

-- `WriteLandingVerdict`.
pub data WriteLandingVerdict {ℓ} (A : Type ℓ) : Type ℓ where
  landed : A → WriteLandingVerdict A
  undetermined : (carried_epoch : ℕ) → WriteLandingVerdict A

-- A `FrameRecoveryCallback` with the variables that it captures.
abbrev pub Callback : Type 0 → Type 0
Callback S = ℕ → Bytes → S → Result OperationFailure (Unit {0}) × S

-- What a loop over frames returns: the count of frames or an error, and the captured variables.
abbrev pub Visit : Type 0 → Type 0
Visit S = Result OperationFailure ℕ × S

pub record StorageEngine : Type 1 where
  pub State : Type 0
  pub carried_epoch : State → ℕ
  pub check_authority : State → Result OperationFailure (Unit {0})
  pub append_block : Bytes → State → Result OperationFailure (WriteLandingVerdict ℕ) × State
  pub read_all : State → Result OperationFailure (List Bytes) × State
  pub recover_frames : (S : Type 0) → ℕ → Callback S → S → State → Visit S × State
  pub is_retired : State → Result OperationFailure Bool
  pub sync : State → Result OperationFailure (Unit {0}) × State
  pub uncertain_diagnostic : State → Option String

-- `chunk.pop()` of a chunk of one item, and the error where there is none.
abbrev last_block : List Bytes → Result OperationFailure Bytes
last_block [] = err (too_long_failure "block index out of bounds")
last_block (x ∷ []) = ok x
last_block (x ∷ y ∷ xs) = last_block (y ∷ xs)

-- `all[start..end].to_vec()`, behind the test of the start.
unfoldable pub chunk_of : ℕ → ℕ → List Bytes → List Bytes
chunk_of start max_items all =
    if leb (length all) start
    then []
    else slice all start (min (saturating_add start max_items) (length all))

module _ {State : Type 0} (read_all : State → Result OperationFailure (List Bytes) × State) where
  abbrev chunk_result :
      ℕ
      → ℕ
      → Result OperationFailure (List Bytes) × State
      → Result OperationFailure (List Bytes) × State
  chunk_result start max_items (ok all, s) = (ok (chunk_of start max_items all), s)
  chunk_result start max_items (err e, s) = (err e, s)

  -- The default `read_chunk`.
  unfoldable pub default_read_chunk : ℕ → ℕ → State → Result OperationFailure (List Bytes) × State
  unfolding chunk_of
  default_read_chunk start max_items s =
      if max_items == 0 then (ok [], s) else chunk_result start max_items (read_all s)

module _ {State : Type 0}
    (read_chunk : ℕ → ℕ → State → Result OperationFailure (List Bytes) × State) where
  -- The default `read_block`.
  unfoldable pub default_read_block : ℕ → State → Result OperationFailure Bytes × State
  default_read_block index s =
      let (r, s') = read_chunk index 1 s in
      elim r [ ok chunk ↦ (last_block chunk, s') | err e ↦ (err e, s') ]

-- `on_frame(total_frames, frame)?`, and what follows it.
abbrev pub then_visit :
    {S : Type 0} → Result OperationFailure (Unit {0}) × S → (S → Visit S) → Visit S
then_visit (ok _, st) rest = rest st
then_visit (err e, st) rest = (err e, st)

module _ {S : Type 0} (on_frame : Callback S) where
  -- `for frame in &chunk`: the count that the frames are numbered from, and how far it came.
  unfoldable pub visit : ℕ → List Bytes → S → Visit S
  visit total [] st = (ok total, st)
  visit total (frame ∷ frames) st =
      then_visit (on_frame total frame st) (λ st'. visit (saturating_add total 1) frames st')

-- The loop of the default `recover_frames`: `again` is its next round, at the next start and count.
module _ {S State : Type 0} (on_frame : Callback S)
    (again : ℕ → ℕ → S → State → Option (Visit S × State)) where
  abbrev after_visit : ℕ → ℕ → ℕ → State → Visit S → Option (Visit S × State)
  after_visit n chunk_size start s (err e, st) = some ((err e, st), s)
  after_visit n chunk_size start s (ok total, st) = elim (ltb n chunk_size) [
    | true ↦ some ((ok total, st), s)
    | false ↦ again (saturating_add start n) total st s
  ]

  abbrev after_chunk :
      ℕ → ℕ → ℕ → S → Result OperationFailure (List Bytes) × State → Option (Visit S × State)
  after_chunk chunk_size start total st (err e, s) = some ((err e, st), s)
  after_chunk chunk_size start total st (ok [], s) = some ((ok total, st), s)
  after_chunk chunk_size start total st (ok (frame ∷ frames), s) =
      after_visit (length (frame ∷ frames)) chunk_size start s
        (visit on_frame total (frame ∷ frames) st)

-- On fuel; `none` means that the fuel ran out.
module _ {S State : Type 0} (on_frame : Callback S)
    (read_chunk : ℕ → ℕ → State → Result OperationFailure (List Bytes) × State) where
  unfoldable pub recover_loop : ℕ → ℕ → ℕ → ℕ → S → State → Option (Visit S × State)
  recover_loop zero chunk_size start total st s = none
  recover_loop (suc fuel) chunk_size start total st s =
      after_chunk on_frame
        (λ start' total' st' s'. recover_loop fuel chunk_size start' total' st' s') chunk_size start
        total st (read_chunk start chunk_size s)

  -- The default `recover_frames`.
  unfoldable pub default_recover_frames : ℕ → ℕ → S → State → Option (Visit S × State)
  unfolding recover_loop
  default_recover_frames fuel chunk_size st s = recover_loop fuel (max chunk_size 1) 0 0 st s
