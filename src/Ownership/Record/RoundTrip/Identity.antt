-- ===== src/Ownership/Record/RoundTrip/Identity.antt =====
-- The round trips of the identity structure and the schema descriptor.
use pardosa.Ownership.Record.Fields.{after_word, length-field, word_at}
use pardosa.Ownership.Record.Rule.{encode_rule, RuleFits, decode_rule, decode_rule-encode_rule}
use pardosa.Ownership.Record.Codec.{decode_identity, encode_body, decode_descriptor}
use pardosa.Ownership.Record.{
  IdentityStructureRecord, PartitioningRule, identity_structure, static_modulo, schema_descriptor,
  consistent_hash,
}
use pardosa.Prelude.Bytes.{
  Bytes, to_le_bytes, from_le_bytes, length-to_le_bytes, from_le_bytes-to_le_bytes,
}
use pardosa.Prelude.Words.{u32_max, checked_add, checked_add-eq-some}
use pardosa.Failure.{ok}
use pardosa.Prelude.{
  ℕ, ◌+◌, ◌≤◌, ◌≡◌, refl, ap, ◌∙◌, some, [], ◌∷◌, ◌++◌, append_assoc, arith, ltb-eq-false, length,
  drop, slice, length-append, drop_next, take_field,
}

encode_rule-append :
    (r : PartitioningRule) (buf : Bytes) → encode_rule r buf ≡ buf ++ encode_rule r []
unfolding encode_rule
encode_rule-append (static_modulo n) buf = simp append_assoc
encode_rule-append (consistent_hash s n) buf = simp append_assoc

length-encode_rule : (r : PartitioningRule) → length (encode_rule r []) ≤ 17
unfolding encode_rule to_le_bytes
length-encode_rule (static_modulo n) = omega arith
length-encode_rule (consistent_hash s n) = omega arith

pub record IdentityFits (ids : IdentityStructureRecord) : Type 0 where
  pub dataset_id : length ids.dataset_id ≡ 16
  pub structure_version : ids.structure_version ≤ u32_max
  pub dragline_id : ids.dragline_id ≤ u32_max
  pub partitioning_rule : RuleFits ids.partitioning_rule

decode_identity-fields :
    (ids : IdentityStructureRecord) (all : Bytes) (used total : ℕ)
    → 25 ≤ length all
    → slice all 1 17 ≡ ids.dataset_id
    → from_le_bytes (slice all 17 21) ≡ ids.structure_version
    → from_le_bytes (slice all 21 25) ≡ ids.dragline_id
    → decode_rule (drop 25 all) ≡ ok (ids.partitioning_rule, used)
    → checked_add 25 used ≡ some total
    → decode_identity all ≡ ok (identity_structure ids, total)
unfolding decode_identity
decode_identity-fields ids all used total long id version dragline rule sum =
    rw (ltb-eq-false (length all) 25 long, rule) (rw (sum, id, version, dragline) refl)

pub decode_identity-encode_body :
    (ids : IdentityStructureRecord) (rest : Bytes)
    → IdentityFits ids
    → (bs : Bytes) × (encode_body (identity_structure ids) (8 ∷ []) ≡ some bs)
      × (decode_identity (bs ++ rest) ≡ ok (identity_structure ids, length bs))
unfolding encode_body
decode_identity-encode_body ids rest fits =
    let rule = encode_rule ids.partitioning_rule [] in
    let front : Bytes =
      (((8 ∷ []) ++ ids.dataset_id) ++ to_le_bytes 4 ids.structure_version)
      ++ to_le_bytes 4 ids.dragline_id in
    let bs = front ++ rule in
    let all = bs ++ rest in
    let r25 = rule ++ rest in
    let r21 : Bytes = to_le_bytes 4 ids.dragline_id ++ r25 in
    let r17 : Bytes = to_le_bytes 4 ids.structure_version ++ r21 in
    let d1 : drop 1 all ≡ ids.dataset_id ++ r17 = simp append_assoc in
    let d17 = drop_next 1 16 all ids.dataset_id r17 d1 fits.dataset_id in
    let d21 = after_word 17 4 ids.structure_version all r21 d17 in
    let d25 = after_word 21 4 ids.dragline_id all r25 d21 in
    let size : length all ≡ 25 + length r25 =
      length-field 21 4 all (to_le_bytes 4 ids.dragline_id) r25 d21
        (length-to_le_bytes 4 ids.dragline_id) (omega arith) in
    let short = length-encode_rule ids.partitioning_rule in
    let total_eq : 25 + length rule ≡ length bs =
      omega (arith, length-append {0} bs rest, length-append {0} rule rest) in
    (
      bs,
      ap some (encode_rule-append ids.partitioning_rule front),
      decode_identity-fields ids all (length rule) (length bs) (omega arith)
          (take_field 1 16 all ids.dataset_id r17 d1 fits.dataset_id)
          (word_at 17 4 ids.structure_version all r21 d17 (omega (arith, fits.structure_version)))
          (word_at 21 4 ids.dragline_id all r25 d21 (omega (arith, fits.dragline_id)))
          (ap decode_rule d25
            ∙ decode_rule-encode_rule ids.partitioning_rule rest fits.partitioning_rule)
          (checked_add-eq-some 25 (length rule) (omega arith) ∙ ap some total_eq),
    )

pub decode_descriptor-encode_body :
    (schema_version : ℕ) (descriptor_bytes : Bytes)
    → schema_version ≤ u32_max
    → (bs : Bytes) × (encode_body (schema_descriptor schema_version descriptor_bytes) (9 ∷ [])
        ≡ some bs)
      × (decode_descriptor bs ≡ ok (schema_descriptor schema_version descriptor_bytes, length bs))
unfolding encode_body decode_descriptor to_le_bytes
decode_descriptor-encode_body v ds h =
    let bs : Bytes = ((9 ∷ []) ++ to_le_bytes 4 v) ++ ds in
    (
      bs,
      refl,
      rw (ltb-eq-false (length bs) 5 (omega arith), from_le_bytes-to_le_bytes 4 v (omega arith))
          refl,
    )
