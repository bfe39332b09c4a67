-- ===== src/Ownership/Record.antt =====
-- The record types of the ownership log (crates/pardosa/src/encoding.rs). A string is its bytes.
pub mod Rule
pub mod Codec
pub mod Fields
pub mod RoundTrip
use pardosa.Prelude.Bytes.{Bytes}
use pardosa.Prelude.{ℕ}

pub data PartitioningRule : Type 0 where
  static_modulo : (total_draglines : ℕ) → PartitioningRule
  consistent_hash : (hash_seed virtual_node_count : ℕ) → PartitioningRule

pub data MigrationStatus : Type 0 where
  complete interrupted : MigrationStatus

pub record OwnershipClaimRecord : Type 0 where
  pub epoch : ℕ
  pub machine_id : Bytes
  pub boot_id : Bytes
  pub process_id : ℕ
  pub process_start_time_ns : ℕ
  pub claim_time_ns : ℕ
  pub operator_label : Bytes

pub record CleanReleaseRecord : Type 0 where
  pub epoch : ℕ
  pub release_time_ns : ℕ

pub record MigrationStartRecord : Type 0 where
  pub source_generation : ℕ
  pub target_generation : ℕ
  pub start_time_ns : ℕ
  pub rescue_policy_tag : ℕ

pub record MigrationEndRecord : Type 0 where
  pub source_generation : ℕ
  pub target_generation : ℕ
  pub end_time_ns : ℕ
  pub status : MigrationStatus

pub record InboundPointerRecord : Type 0 where
  pub prior_generation_locator_id : Bytes
  pub prior_generation_epoch : ℕ

pub record OutboundPointerRecord : Type 0 where
  pub next_generation_locator_id : Bytes
  pub cutover_epoch : ℕ

pub record RescuePolicyChoiceRecord : Type 0 where
  pub policy_tag : ℕ
  pub parameter_payload : Bytes

pub record IdentityStructureRecord : Type 0 where
  pub dataset_id : Bytes
  pub structure_version : ℕ
  pub dragline_id : ℕ
  pub partitioning_rule : PartitioningRule

pub data OwnershipRecord : Type 0 where
  ownership_claim : OwnershipClaimRecord → OwnershipRecord
  clean_release : CleanReleaseRecord → OwnershipRecord
  migration_start : MigrationStartRecord → OwnershipRecord
  migration_end : MigrationEndRecord → OwnershipRecord
  inbound_pointer : InboundPointerRecord → OwnershipRecord
  outbound_pointer : OutboundPointerRecord → OwnershipRecord
  rescue_policy_choice : RescuePolicyChoiceRecord → OwnershipRecord
  identity_structure : IdentityStructureRecord → OwnershipRecord
  schema_descriptor : (schema_version : ℕ) (descriptor_bytes : Bytes) → OwnershipRecord
