-- ===== src/Ownership/Record/Codec.antt =====
-- The codec of the ownership records (`OwnershipRecord::encode` and `decode`, and the tags of
-- `MigrationStatus` and `RescuePolicy`, of crates/pardosa/src/encoding.rs). `std::str::from_utf8` is
-- a parameter: the test that a label's bytes are UTF-8. An encoder that panics returns `none`.
use pardosa.Ownership.Record.Rule.{decode_rule, encode_rule}
use pardosa.Ownership.Record.{
  MigrationStatus, OwnershipRecord, ownership_claim, clean_release, migration_start, migration_end,
  inbound_pointer, outbound_pointer, rescue_policy_choice, schema_descriptor, complete,
  identity_structure, interrupted,
}
use pardosa.Prelude.Bytes.{Bytes, to_le_bytes, from_le_bytes}
use pardosa.Prelude.Words.{checked_add, u32_try_from}
use pardosa.Failure.{
  Result, ◌>>=◌, ◌>>◌, refuse_if, ok_or, DecodeError, ok, err, too_long, truncated_payload,
  invalid_utf8_bytes, unknown_record_tag, invalid_migration_status, invalid_rescue_policy,
}
use pardosa.Prelude.{
  ℕ, Bool, not, Option, some, [], ◌∷◌, ◌++◌, ltb, ◌==◌, if◌then◌else◌, length, drop, slice, head_or,
}
use mathlib.Core.Option

-- `MigrationStatus::to_u8` and `from_u8`.
unfoldable pub status_to_u8 : MigrationStatus → ℕ
status_to_u8 complete = 1
status_to_u8 interrupted = 2

unfoldable pub status_from_u8 : ℕ → Result DecodeError MigrationStatus
status_from_u8 val =
    if val == 1
    then ok complete
    else if val == 2
    then ok interrupted
    else err (invalid_migration_status val)

-- `RescuePolicy`, with its `to_u8` and `from_u8`.
pub data RescuePolicy : Type 0 where
  strict drop_corrupted halt_on_gap : RescuePolicy

unfoldable pub policy_to_u8 : RescuePolicy → ℕ
policy_to_u8 strict = 1
policy_to_u8 drop_corrupted = 2
policy_to_u8 halt_on_gap = 3

unfoldable pub policy_from_u8 : ℕ → Result DecodeError RescuePolicy
policy_from_u8 val =
    if val == 1
    then ok strict
    else if val == 2
    then ok drop_corrupted
    else if val == 3
    then ok halt_on_gap
    else err (invalid_rescue_policy val)

-- `OwnershipRecord::wire_tag`.
unfoldable pub wire_tag : OwnershipRecord → ℕ
wire_tag (ownership_claim _) = 1
wire_tag (clean_release _) = 2
wire_tag (migration_start _) = 3
wire_tag (migration_end _) = 4
wire_tag (inbound_pointer _) = 5
wire_tag (outbound_pointer _) = 6
wire_tag (rescue_policy_choice _) = 7
wire_tag (identity_structure _) = 8
wire_tag (schema_descriptor _ _) = 9

-- A length as four bytes and the bytes behind it; `none` is the panic of `expect`.
abbrev pub extend_counted : Bytes → Bytes → Option Bytes
extend_counted bytes buf =
    Option.map (λ n. (buf ++ to_le_bytes 4 n) ++ bytes) (u32_try_from (length bytes))

-- The `match self` of `OwnershipRecord::encode`, which appends to `buf`.
unfoldable pub encode_body : OwnershipRecord → Bytes → Option Bytes
unfolding status_to_u8
encode_body (ownership_claim c) buf = extend_counted c.operator_label (
    (((((buf ++ to_le_bytes 8 c.epoch) ++ c.machine_id) ++ c.boot_id) ++ to_le_bytes 8 c.process_id)
      ++ to_le_bytes 8 c.process_start_time_ns)
    ++ to_le_bytes 8 c.claim_time_ns)
encode_body (clean_release r) buf =
    some ((buf ++ to_le_bytes 8 r.epoch) ++ to_le_bytes 8 r.release_time_ns)
encode_body (migration_start m) buf = some (
    (((buf ++ to_le_bytes 4 m.source_generation) ++ to_le_bytes 4 m.target_generation)
      ++ to_le_bytes 8 m.start_time_ns)
    ++ (m.rescue_policy_tag ∷ []))
encode_body (migration_end m) buf = some (
    (((buf ++ to_le_bytes 4 m.source_generation) ++ to_le_bytes 4 m.target_generation)
      ++ to_le_bytes 8 m.end_time_ns)
    ++ (status_to_u8 m.status ∷ []))
encode_body (inbound_pointer p) buf =
    some ((buf ++ p.prior_generation_locator_id) ++ to_le_bytes 8 p.prior_generation_epoch)
encode_body (outbound_pointer p) buf =
    some ((buf ++ p.next_generation_locator_id) ++ to_le_bytes 8 p.cutover_epoch)
encode_body (rescue_policy_choice p) buf =
    extend_counted p.parameter_payload (buf ++ (p.policy_tag ∷ []))
encode_body (identity_structure ids) buf = some (
    encode_rule ids.partitioning_rule (
      ((buf ++ ids.dataset_id) ++ to_le_bytes 4 ids.structure_version)
      ++ to_le_bytes 4 ids.dragline_id))
encode_body (schema_descriptor schema_version descriptor_bytes) buf =
    some ((buf ++ to_le_bytes 4 schema_version) ++ descriptor_bytes)

-- `OwnershipRecord::encode`.
unfoldable pub encode_record : OwnershipRecord → Bytes → Option Bytes
unfolding wire_tag encode_body
encode_record r buf = encode_body r (buf ++ (wire_tag r ∷ []))

abbrev pub require : Bytes → ℕ → Result DecodeError (Unit {0})
require buf n = refuse_if (ltb (length buf) n) (truncated_payload n (length buf))

abbrev pub too_long_error : DecodeError
too_long_error = DecodeError.value_constraint_violated too_long

-- The arms of the `match tag` of `OwnershipRecord::decode`.
abbrev pub Arm : Type 0
Arm = Bytes → Result DecodeError (OwnershipRecord × ℕ)

unfoldable pub decode_claim : (Bytes → Bool) → Arm
decode_claim from_utf8 buf = do
  require buf 69
  let label_len = from_le_bytes (slice buf 65 69)
  total_len ← ok_or (checked_add 69 label_len) too_long_error
  require buf total_len
  refuse_if (not (from_utf8 (slice buf 69 total_len))) invalid_utf8_bytes
  ok (
    ownership_claim (record {
      epoch = from_le_bytes (slice buf 1 9);
      machine_id = slice buf 9 25;
      boot_id = slice buf 25 41;
      process_id = from_le_bytes (slice buf 41 49);
      process_start_time_ns = from_le_bytes (slice buf 49 57);
      claim_time_ns = from_le_bytes (slice buf 57 65);
      operator_label = slice buf 69 total_len;
    }),
    total_len,
  )

unfoldable pub decode_release : Arm
decode_release buf = do
  require buf 17
  ok (
    clean_release (record {
      epoch = from_le_bytes (slice buf 1 9);
      release_time_ns = from_le_bytes (slice buf 9 17);
    }),
    17,
  )

unfoldable pub decode_start : Arm
decode_start buf = do
  require buf 18
  ok (
    migration_start (record {
      source_generation = from_le_bytes (slice buf 1 5);
      target_generation = from_le_bytes (slice buf 5 9);
      start_time_ns = from_le_bytes (slice buf 9 17);
      rescue_policy_tag = head_or (drop 17 buf) 0;
    }),
    18,
  )

unfoldable pub decode_end : Arm
unfolding status_from_u8
decode_end buf = do
  require buf 18
  status ← status_from_u8 (head_or (drop 17 buf) 0)
  ok (
    migration_end (record {
      source_generation = from_le_bytes (slice buf 1 5);
      target_generation = from_le_bytes (slice buf 5 9);
      end_time_ns = from_le_bytes (slice buf 9 17);
      status = status;
    }),
    18,
  )

unfoldable pub decode_inbound : Arm
decode_inbound buf = do
  require buf 25
  ok (
    inbound_pointer (record {
      prior_generation_locator_id = slice buf 1 17;
      prior_generation_epoch = from_le_bytes (slice buf 17 25);
    }),
    25,
  )

unfoldable pub decode_outbound : Arm
decode_outbound buf = do
  require buf 25
  ok (
    outbound_pointer (record {
      next_generation_locator_id = slice buf 1 17;
      cutover_epoch = from_le_bytes (slice buf 17 25);
    }),
    25,
  )

unfoldable pub decode_choice : Arm
decode_choice buf = do
  require buf 6
  let param_len = from_le_bytes (slice buf 2 6)
  total_len ← ok_or (checked_add 6 param_len) too_long_error
  require buf total_len
  ok (
    rescue_policy_choice
        (record { policy_tag = head_or (drop 1 buf) 0; parameter_payload = slice buf 6 total_len }),
    total_len,
  )

unfoldable pub decode_identity : Arm
unfolding decode_rule
decode_identity buf = do
  require buf 25
  (partitioning_rule, rule_consumed) ← decode_rule (drop 25 buf)
  total_len ← ok_or (checked_add 25 rule_consumed) too_long_error
  ok (
    identity_structure (record {
      dataset_id = slice buf 1 17;
      structure_version = from_le_bytes (slice buf 17 21);
      dragline_id = from_le_bytes (slice buf 21 25);
      partitioning_rule = partitioning_rule;
    }),
    total_len,
  )

unfoldable pub decode_descriptor : Arm
decode_descriptor buf = do
  require buf 5
  ok (schema_descriptor (from_le_bytes (slice buf 1 5)) (drop 5 buf), length buf)

-- `OwnershipRecord::decode`.
unfoldable pub decode_record : (Bytes → Bool) → Bytes → Result DecodeError (OwnershipRecord × ℕ)
unfolding decode_claim decode_release decode_start decode_end decode_inbound decode_outbound
    decode_choice decode_identity decode_descriptor
decode_record from_utf8 [] = err (truncated_payload 1 0)
decode_record from_utf8 (tag ∷ tail) =
    let buf : Bytes = tag ∷ tail in
    if tag == 1
    then decode_claim from_utf8 buf
    else if tag == 2
    then decode_release buf
    else if tag == 3
    then decode_start buf
    else if tag == 4
    then decode_end buf
    else if tag == 5
    then decode_inbound buf
    else if tag == 6
    then decode_outbound buf
    else if tag == 7
    then decode_choice buf
    else if tag == 8
    then decode_identity buf
    else if tag == 9
    then decode_descriptor buf
    else err (unknown_record_tag tag)
