-- ===== src/Ownership/Claim.antt =====
-- Claims on an artefact: the fence of a write, the compare-and-set of a claim, and the takeover
-- (crates/pardosa/src/store.rs).
pub mod Epochs
use pardosa.Prelude.{ℕ, Bool, false, not, ◌&&◌, Option, none, some, ltb, leb, ◌==◌, if◌then◌else◌}
use pardosa.Failure.{
  Result, OperationFailure, failure, ok, err, concurrency_conflict, stale_epoch,
  ownership_unestablished, ownership_record_unreadable,
}
use pardosa.Ownership.Record.{OwnershipClaimRecord}

pub data RecordedOwnership : Type 0 where
  claimed : OwnershipClaimRecord → RecordedOwnership
  unowned unreadable absent : RecordedOwnership

-- `OwnershipFence::fence_write`.
unfoldable pub fence_write : ℕ → RecordedOwnership → Result OperationFailure (Unit {0})
fence_write carried_epoch unreadable = err (
    failure ownership_record_unreadable
      "ownership record could not be read while fencing write per C5.12")
fence_write carried_epoch absent =
    err (failure ownership_unestablished "ownership record is absent on write path per C5.10")
fence_write carried_epoch unowned =
    err (failure ownership_unestablished "artefact is unowned on write path per C5.10")
fence_write carried_epoch (claimed claim) =
    if carried_epoch == claim.epoch
    then ok tt
    else err (
        failure stale_epoch
          "carried epoch {carried_epoch} does not match recorded epoch {} per C5.5")

-- `Some(existing.epoch) == expected_epoch`.
abbrev expects : Option ℕ → ℕ → Bool
expects none epoch = false
expects (some e) epoch = epoch == e

-- The epoch that a successful claim carries.
unfoldable pub evaluate_claim_cas :
    RecordedOwnership → Option ℕ → OwnershipClaimRecord → Result OperationFailure ℕ
evaluate_claim_cas unreadable expected_epoch candidate_claim = err (
    failure ownership_record_unreadable
      "ownership record unreadable while evaluating claim per C5.12")
evaluate_claim_cas absent expected_epoch candidate_claim = err (
    failure ownership_unestablished
      "cannot claim absent ownership record without creation per C5.10")
evaluate_claim_cas unowned none candidate_claim = ok candidate_claim.epoch
evaluate_claim_cas unowned (some _) candidate_claim =
    err (failure concurrency_conflict "expected epoch specified for unowned record per C5.9")
evaluate_claim_cas (claimed existing) expected_epoch candidate_claim =
    if expects expected_epoch existing.epoch && ltb existing.epoch candidate_claim.epoch
    then ok candidate_claim.epoch
    else err (
        failure concurrency_conflict
          "CAS failed: current epoch {}, expected {:?}, candidate {} per C5.7")

pub data DeathProof : Type 0 where
  machine_reboot process_absence process_id_reuse : DeathProof

pub data LivenessVerdict : Type 0 where
  proven_dead : DeathProof → LivenessVerdict
  indeterminate : LivenessVerdict

unfoldable pub evaluate_owner_liveness : Option DeathProof → LivenessVerdict
evaluate_owner_liveness (some proof) = proven_dead proof
evaluate_owner_liveness none = LivenessVerdict.indeterminate

pub record CleanReleaseProof : Type 0 where
  pub epoch : ℕ
  pub release_time_ns : ℕ

pub data TakeoverProof : Type 0 where
  clean_release : CleanReleaseProof → TakeoverProof
  death : DeathProof → TakeoverProof

pub data TakeoverVerdict : Type 0 where
  proven indeterminate : TakeoverVerdict

unfoldable pub evaluate_takeover : OwnershipClaimRecord → Option TakeoverProof → TakeoverVerdict
evaluate_takeover current_claim (some (clean_release clean)) =
    if leb current_claim.epoch clean.epoch then proven else TakeoverVerdict.indeterminate
evaluate_takeover current_claim (some (death _)) = proven
evaluate_takeover current_claim none = TakeoverVerdict.indeterminate
