-- ===== src/Artefact/Open.antt =====
-- What opening an artefact reports (`QualifiedOpenResult` and its builder), and the boundary of a
-- reopened store (crates/pardosa/src/store.rs).
pub mod Legal
use pardosa.Prelude.Bytes.{Bytes}
use pardosa.Prelude.{ℕ, Bool, true, false, not, Option, none, some, List, [], ◌∷◌}
use pardosa.Failure.{Result, ◌>>=◌, ◌>>◌, refuse_if, ok, err}
use pardosa.Fiber.State.{FiberState, locked}

pub data OwnershipStatus : Type 0 where
  owned : (epoch : ℕ) → OwnershipStatus
  unowned : OwnershipStatus

pub data GenerationKnowledge : Type 0 where
  known : ℕ → GenerationKnowledge
  unknown : GenerationKnowledge

pub data SupersessionStatus : Type 0 where
  current : SupersessionStatus
  superseded : (next_generation : Option ℕ) → SupersessionStatus
  unknown : SupersessionStatus

pub data MigrationDisagreement : Type 0 where
  no_disagreement outbound_without_inbound inbound_without_outbound : MigrationDisagreement

pub data HistoryIntegrity : Type 0 where
  unanchored anchored : HistoryIntegrity

pub data MigrationCompleteness : Type 0 where
  known_complete known_incomplete unknown : MigrationCompleteness

pub data AppendAuthority : Type 0 where
  holds_authority : AppendAuthority
  held_by_generation : ℕ → AppendAuthority
  unknown : AppendAuthority

pub data IllegalOpenCombination : Type 0 where
  unowned_must_have_unknown_generation : IllegalOpenCombination
  unknown_generation_cannot_be_current : IllegalOpenCombination
  unowned_cannot_hold_append_authority : IllegalOpenCombination
  locked_state_on_reopen migrating_mode_on_reopen removed_identities_on_reopen :
      IllegalOpenCombination

-- The builder has the same fields as the result.
pub record QualifiedOpenResult : Type 0 where
  pub ownership : OwnershipStatus
  pub generation : GenerationKnowledge
  pub supersession : SupersessionStatus
  pub migration_disagreement : MigrationDisagreement
  pub history_integrity : HistoryIntegrity
  pub migration_completeness : MigrationCompleteness
  pub append_authority : AppendAuthority

-- `QualifiedOpenResult::orphan_read`, which is also `QualifiedOpenResultBuilder::default`.
unfoldable pub orphan_read : QualifiedOpenResult
orphan_read = record {
  ownership = unowned;
  generation = GenerationKnowledge.unknown;
  supersession = SupersessionStatus.unknown;
  migration_disagreement = no_disagreement;
  history_integrity = unanchored;
  migration_completeness = MigrationCompleteness.unknown;
  append_authority = AppendAuthority.unknown;
}

-- The `match` of `build`, in the order of its arms.
unfoldable pub illegal_combination :
    OwnershipStatus
    → GenerationKnowledge
    → SupersessionStatus
    → AppendAuthority
    → Option IllegalOpenCombination
illegal_combination unowned (known _) s a = some unowned_must_have_unknown_generation
illegal_combination unowned unknown current a = some unknown_generation_cannot_be_current
illegal_combination unowned unknown (superseded _) holds_authority =
    some unowned_cannot_hold_append_authority
illegal_combination unowned unknown unknown holds_authority =
    some unowned_cannot_hold_append_authority
illegal_combination (owned _) unknown current a = some unknown_generation_cannot_be_current
illegal_combination _ _ _ _ = none

-- `QualifiedOpenResultBuilder::build`.
unfoldable pub build : QualifiedOpenResult → Result IllegalOpenCombination QualifiedOpenResult
unfolding illegal_combination
build b = elim (illegal_combination b.ownership b.generation b.supersession b.append_authority) [
  | some e ↦ err e
  | none ↦ ok b
]

pub data ReopenedFiberState : Type 0 where
  undefined defined detached purged : ReopenedFiberState

unfoldable pub to_fiber_state : ReopenedFiberState → FiberState
to_fiber_state undefined = FiberState.undefined
to_fiber_state defined = FiberState.defined
to_fiber_state detached = FiberState.detached
to_fiber_state purged = FiberState.purged

pub data MigrationMode : Type 0 where
  steady migrating : MigrationMode

pub record ReopenedStoreBoundary : Type 0 where
  pub fiber_states : List (Bytes × ReopenedFiberState)
  pub mode : MigrationMode

-- The `match state` of the loop.
unfoldable pub reopened_state : FiberState → Result IllegalOpenCombination ReopenedFiberState
reopened_state FiberState.locked = err locked_state_on_reopen
reopened_state FiberState.undefined = ok ReopenedFiberState.undefined
reopened_state FiberState.defined = ok ReopenedFiberState.defined
reopened_state FiberState.detached = ok ReopenedFiberState.detached
reopened_state FiberState.purged = ok ReopenedFiberState.purged

-- The loop of `ReopenedStoreBoundary::validate`.
unfoldable pub reopened_states :
    List (Bytes × FiberState) → Result IllegalOpenCombination (List (Bytes × ReopenedFiberState))
unfolding reopened_state
reopened_states [] = ok []
reopened_states ((id, state) ∷ raw) = do
  s ← reopened_state state
  rest ← reopened_states raw
  ok ((id, s) ∷ rest)

abbrev is_migrating : MigrationMode → Bool
is_migrating migrating = true
is_migrating steady = false

abbrev is_empty : List Bytes → Bool
is_empty [] = true
is_empty (_ ∷ _) = false

-- `ReopenedStoreBoundary::validate`.
unfoldable pub validate :
    List (Bytes × FiberState)
    → MigrationMode
    → List Bytes
    → Result IllegalOpenCombination ReopenedStoreBoundary
unfolding reopened_states
validate raw_fiber_states mode removed_fiber_identities = do
  refuse_if (is_migrating mode) migrating_mode_on_reopen
  refuse_if (not (is_empty removed_fiber_identities)) removed_identities_on_reopen
  states ← reopened_states raw_fiber_states
  ok (record { fiber_states = states; mode = steady })
