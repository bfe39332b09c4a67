-- ===== src/Ownership/Record/Rule.antt =====
-- The codec of a partitioning rule (`PartitioningRule::encode` and `decode` of
-- crates/pardosa/src/encoding.rs).
use pardosa.Prelude.Bytes.{Bytes, to_le_bytes, from_le_bytes, from_le_bytes-to_le_bytes}
use pardosa.Prelude.Words.{u32_max, u64_max, checked_add}
use pardosa.Prelude.{
  ℕ, ◌≤◌, ◌≡◌, [], ◌∷◌, ◌++◌, arith, ltb, ◌==◌, if◌then◌else◌, ltb-eq-false, length, slice, head_or,
  ap,
}
use pardosa.Failure.{
  Result, ok, err, ◌>>=◌, ◌>>◌, refuse_if, ok_or, DecodeError, too_long, truncated_payload,
  unknown_partitioning_rule_tag,
}
use pardosa.Ownership.Record.{PartitioningRule, static_modulo, consistent_hash}

-- `PartitioningRule::encode`, which appends to `buf`.
unfoldable pub encode_rule : PartitioningRule → Bytes → Bytes
encode_rule (static_modulo total_draglines) buf =
    ((buf ++ (1 ∷ [])) ++ to_le_bytes 4 4) ++ to_le_bytes 4 total_draglines
encode_rule (consistent_hash hash_seed virtual_node_count) buf =
    (((buf ++ (2 ∷ [])) ++ to_le_bytes 4 12) ++ to_le_bytes 8 hash_seed)
    ++ to_le_bytes 4 virtual_node_count

-- The `match tag` of `PartitioningRule::decode`.
unfoldable pub decode_params : ℕ → Bytes → ℕ → Result DecodeError (PartitioningRule × ℕ)
decode_params tag param_bytes total_consumed =
    if tag == 1
    then (do
      refuse_if (ltb (length param_bytes) 4) (truncated_payload 4 (length param_bytes))
      ok (static_modulo (from_le_bytes (slice param_bytes 0 4)), total_consumed))
    else if tag == 2
    then (do
      refuse_if (ltb (length param_bytes) 12) (truncated_payload 12 (length param_bytes))
      ok (
        consistent_hash (from_le_bytes (slice param_bytes 0 8))
            (from_le_bytes (slice param_bytes 8 12)),
        total_consumed,
      ))
    else err (unknown_partitioning_rule_tag tag)

-- `PartitioningRule::decode`.
unfoldable pub decode_rule : Bytes → Result DecodeError (PartitioningRule × ℕ)
unfolding decode_params
decode_rule buf = do
  refuse_if (ltb (length buf) 5) (truncated_payload 5 (length buf))
  let param_len = from_le_bytes (slice buf 1 5)
  total_consumed ← ok_or (checked_add 5 param_len) (DecodeError.value_constraint_violated too_long)
  refuse_if (ltb (length buf) total_consumed) (truncated_payload total_consumed (length buf))
  decode_params (head_or buf 0) (slice buf 5 total_consumed) total_consumed

-- What the types `u32` and `u64` of the fields say.
abbrev pub RuleFits : PartitioningRule → Type 0
RuleFits (static_modulo total_draglines) = total_draglines ≤ u32_max
RuleFits (consistent_hash hash_seed virtual_node_count) =
    (hash_seed ≤ u64_max) × (virtual_node_count ≤ u32_max)

-- An encoded rule is read back, and just its bytes are consumed, whatever follows them.
pub decode_rule-encode_rule :
    (r : PartitioningRule) (rest : Bytes)
    → RuleFits r
    → decode_rule (encode_rule r [] ++ rest) ≡ ok (r, length (encode_rule r []))
unfolding encode_rule decode_rule from_le_bytes checked_add to_le_bytes
decode_rule-encode_rule (static_modulo n) rest fits =
    let bs : Bytes = encode_rule (static_modulo n) [] ++ rest in
    rw (ltb-eq-false (length bs) 5 (omega arith), ltb-eq-false (length bs) 9 (omega arith))
      (ap (λ i. ok (static_modulo i, 9)) (from_le_bytes-to_le_bytes 4 n (omega arith)))
decode_rule-encode_rule (consistent_hash s n) rest fits =
    let bs : Bytes = encode_rule (consistent_hash s n) [] ++ rest in
    let seed = from_le_bytes-to_le_bytes 8 s (omega (arith, fits.0)) in
    let count = from_le_bytes-to_le_bytes 4 n (omega (arith, fits.1)) in
    rw (ltb-eq-false (length bs) 5 (omega arith), ltb-eq-false (length bs) 17 (omega arith))
      (λ i. ok (consistent_hash (seed i) (count i), 17))
