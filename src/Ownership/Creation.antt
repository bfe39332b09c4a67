-- ===== src/Ownership/Creation.antt =====
-- Creating and opening an artefact (`ArtefactPresence`, `CreationPlan`, `admit_open` of
-- crates/pardosa/src/store.rs).
pub mod Order
use pardosa.Prelude.{Bool, true, false, not, Option, none, some}
use pardosa.Failure.{
  Result, ◌>>◌, OperationFailure, failure, ok, err, store_already_exists, no_artefact_exists,
  concurrency_conflict, ownership_unestablished,
}
use pardosa.Ownership.Record.{OwnershipClaimRecord}

pub data ArtefactPresence : Type 0 where
  nothing ownership_record_only event_data_only both : ArtefactPresence

unfoldable pub admit_create : ArtefactPresence → Result OperationFailure (Unit {0})
admit_create nothing = ok tt
admit_create _ =
    err (failure store_already_exists "artefact already exists in storage; open instead per C12.3")

pub data IncompleteCreationState : Type 0 where
  unseeded : IncompleteCreationState
  claimed : OwnershipClaimRecord → IncompleteCreationState

pub data CreationProgression : Type 0 where
  unseeded_ownership_record_created : CreationProgression
  ownership_claim_seeded : OwnershipClaimRecord → CreationProgression
  complete : CreationProgression

-- `CreationProgression::presence`.
unfoldable pub presence : CreationProgression → ArtefactPresence
presence unseeded_ownership_record_created = ownership_record_only
presence (ownership_claim_seeded _) = ownership_record_only
presence complete = both

-- `CreationProgression::from`.
unfoldable pub from : IncompleteCreationState → CreationProgression
from unseeded = unseeded_ownership_record_created
from (claimed claim) = ownership_claim_seeded claim

-- `CreationPlan::begin`.
unfoldable pub begin : ArtefactPresence → Result OperationFailure CreationProgression
begin p = admit_create p >> ok unseeded_ownership_record_created

unfoldable pub seed_claim :
    CreationProgression → OwnershipClaimRecord → Result OperationFailure CreationProgression
seed_claim unseeded_ownership_record_created claim = ok (ownership_claim_seeded claim)
seed_claim _ claim = err (
    failure concurrency_conflict
      "ownership record already seeded; cannot re-seed initial claim per C5.8")

unfoldable pub complete_event_data :
    CreationProgression → Result OperationFailure CreationProgression
complete_event_data (ownership_claim_seeded _) = ok complete
complete_event_data unseeded_ownership_record_created = err (
    failure ownership_unestablished
      "ownership record must carry an established claim before event data creation per C5.10")
complete_event_data complete =
    err (failure store_already_exists "artefact creation already completed per C5.10")

-- `match claim` of `resume_incomplete_creation` and of `admit_open`.
abbrev pub incomplete_state : Option OwnershipClaimRecord → IncompleteCreationState
incomplete_state (some claim) = claimed claim
incomplete_state none = unseeded

unfoldable pub resume_incomplete_creation :
    ArtefactPresence → Option OwnershipClaimRecord → Result OperationFailure IncompleteCreationState
resume_incomplete_creation ownership_record_only claim = ok (incomplete_state claim)
resume_incomplete_creation nothing claim =
    err (failure no_artefact_exists "cannot resume creation without ownership record per C5.10")
resume_incomplete_creation both claim =
    err (failure store_already_exists "artefact already complete; open instead per C5.62")
resume_incomplete_creation event_data_only claim = err (
    failure ownership_unestablished
      "event data without ownership record cannot complete creation per C5.10")

pub data OpenAdmission : Type 0 where
  ready : OpenAdmission
  incomplete_creation : IncompleteCreationState → OpenAdmission
  read_only_orphan : OpenAdmission

unfoldable pub admit_open :
    ArtefactPresence → Option OwnershipClaimRecord → Bool → Result OperationFailure OpenAdmission
admit_open nothing claim write_intent =
    err (
      failure no_artefact_exists
        "no artefact exists on open; strict open does not create per C5.62")
admit_open event_data_only claim true = err (
    failure ownership_unestablished
      "event data present without ownership record refused on write path per C5.10")
admit_open event_data_only claim false = ok read_only_orphan
admit_open ownership_record_only claim write_intent =
    ok (incomplete_creation (incomplete_state claim))
admit_open both claim write_intent = ok ready
