-- ===== src/Artefact/Precursor.antt =====
-- Admission of an event by its identities, and of a link to a precursor
-- (crates/pardosa/src/store.rs). Of a schema descriptor only its presence is read here, and
-- `SchemaIdentity` and `EnvelopeIdentity`, which are compared for equality only, are their bytes.
-- The lookup of a predecessor is a function that the caller gives; BLAKE3 is a parameter.
pub mod Links
use pardosa.Prelude.Bytes.{Bytes, bytes_eq}
use pardosa.Prelude.{String, Bool, true, false, not, Option, some, if◌then◌else◌}
use pardosa.Failure.{
  Result, ◌>>=◌, ◌>>◌, refuse_if, ok_or, OperationFailure, failure, chain_failure, ok, err,
  precursor_out_of_range, precursor_wrong_fiber, precursor_chain_broken, schema_mismatch,
  envelope_mismatch, mismatch_undetermined_subject, missing_schema_descriptor,
}
use pardosa.Encoding.Envelope.{EventEnvelope, compute_envelope_commitment}
use pardosa.Encoding.Envelope.Header.{zero_id, zero_hash}

pub data EventAdmission : Type 0 where
  event :
      (has_descriptor : Bool) (expected_schema actual_schema : Bytes)
      (expected_envelope actual_envelope : Bytes)
      → EventAdmission
  record_reader_only :
      (has_descriptor : Bool) (expected_envelope actual_envelope : Bytes) → EventAdmission
  undetermined_subject : (detail : String) → EventAdmission

unfoldable pub admit_event : EventAdmission → Result OperationFailure (Unit {0})
admit_event (event has_descriptor expected_schema actual_schema expected_envelope actual_envelope) =
    do
      refuse_if (not has_descriptor)
          (failure missing_schema_descriptor "artefact omits required schema descriptor per C5.45")
      refuse_if (not (bytes_eq expected_envelope actual_envelope)) (
          failure envelope_mismatch
            "envelope identity mismatch: expected {expected_envelope:?}, found {actual_envelope:?}")
      refuse_if (not (bytes_eq expected_schema actual_schema)) (
          failure schema_mismatch
            "schema identity mismatch: expected {expected_schema:?}, found {actual_schema:?}")
admit_event (record_reader_only has_descriptor expected_envelope actual_envelope) = do
  refuse_if (not has_descriptor) (
      failure missing_schema_descriptor
        "artefact omits required schema descriptor per C5.45 and C5.52")
  refuse_if (not (bytes_eq expected_envelope actual_envelope)) (
      failure envelope_mismatch
        "envelope identity mismatch: expected {expected_envelope:?}, found {actual_envelope:?}")
admit_event (undetermined_subject detail) = err (failure mismatch_undetermined_subject detail)

pub record PrecursorLink : Type 0 where
  pub envelope : EventEnvelope
  pub is_genesis : Bool

-- `PrecursorLink::classify`.
unfoldable pub classify : EventEnvelope → Result OperationFailure PrecursorLink
classify envelope =
    if bytes_eq envelope.header.precursor zero_id
    then if bytes_eq envelope.header.precursor_hash zero_hash
      then ok (record { envelope = envelope; is_genesis = true })
      else err (chain_failure "genesis envelope has non-zero precursor commitment hash per C4.19")
    else ok (record { envelope = envelope; is_genesis = false })

abbrev wrong_fiber : String → OperationFailure
wrong_fiber = failure (precursor_chain_broken (some precursor_wrong_fiber))

abbrev out_of_range : String → OperationFailure
out_of_range = failure (precursor_chain_broken (some precursor_out_of_range))

-- `admit_precursor_link`.
unfoldable pub admit_precursor_link :
    (Bytes → Bytes)
    → Bytes
    → PrecursorLink
    → (Bytes → Option EventEnvelope)
    → Result OperationFailure (Unit {0})
admit_precursor_link blake3 expected_fiber_id link resolve_predecessor = do
  refuse_if (not (bytes_eq link.envelope.header.fiber_id expected_fiber_id))
      (wrong_fiber "event belongs to another fiber per C6.12")
  if link.is_genesis then ok tt else do
    predecessor ←
        ok_or (resolve_predecessor link.envelope.header.precursor)
          (out_of_range "precursor event ID is outside the artefact per C6.12")
    refuse_if (not (bytes_eq predecessor.header.event_id link.envelope.header.precursor)) (
        out_of_range
          "resolved predecessor event ID does not match requested precursor ID per C6.12")
    refuse_if (not (bytes_eq predecessor.header.fiber_id expected_fiber_id))
        (wrong_fiber "predecessor event belongs to another fiber per C6.12")
    refuse_if
        (not (
          bytes_eq link.envelope.header.precursor_hash
            (compute_envelope_commitment blake3 predecessor.header predecessor.payload)))
        (chain_failure "precursor commitment hash does not match predecessor commitment per C5.40")
