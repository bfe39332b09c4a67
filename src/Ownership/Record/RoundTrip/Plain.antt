-- ===== src/Ownership/Record/RoundTrip/Plain.antt =====
-- The round trips of the ownership records of one wire layout each, without a label or a rule.
use pardosa.Ownership.Record.Fields.{length-field, word_at, after_word}
use pardosa.Ownership.Record.{
  CleanReleaseRecord, MigrationStartRecord, clean_release, migration_start, MigrationEndRecord,
  InboundPointerRecord, OutboundPointerRecord, RescuePolicyChoiceRecord, MigrationStatus,
  migration_end, inbound_pointer, outbound_pointer, rescue_policy_choice, complete, interrupted,
}
use pardosa.Ownership.Record.Codec.{
  encode_body, decode_release, decode_start, status_from_u8, decode_end, decode_inbound,
  decode_outbound, decode_choice, status_to_u8,
}
use pardosa.Prelude.Bytes.{
  Bytes, to_le_bytes, from_le_bytes-to_le_bytes, from_le_bytes, length-to_le_bytes,
}
use pardosa.Prelude.Words.{u32_max, u64_max, checked_add, checked_add-eq-some, u32_try_from-eq-some}
use pardosa.Failure.{ok}
use pardosa.Prelude.{
  ◌≤◌, ◌≡◌, refl, some, [], ◌∷◌, ◌++◌, arith, ltb-eq-false, length, ℕ, ◌+◌, ap, ◌∙◌, append_assoc,
  take, drop, slice, length-append, drop_next, take_field, head_or,
}

pub decode_release-encode_body :
    (r : CleanReleaseRecord) (rest : Bytes)
    → r.epoch ≤ u64_max
    → r.release_time_ns ≤ u64_max
    → (bs : Bytes) × (encode_body (clean_release r) (2 ∷ []) ≡ some bs)
      × (decode_release (bs ++ rest) ≡ ok (clean_release r, length bs))
unfolding encode_body decode_release to_le_bytes
decode_release-encode_body r rest h1 h2 =
    let bs : Bytes = ((2 ∷ []) ++ to_le_bytes 8 r.epoch) ++ to_le_bytes 8 r.release_time_ns in
    (
      bs,
      refl,
      rw
          (
            ltb-eq-false (length (bs ++ rest)) 17 (omega arith),
            from_le_bytes-to_le_bytes 8 r.epoch (omega arith),
            from_le_bytes-to_le_bytes 8 r.release_time_ns (omega arith),
          )
          refl,
    )

pub decode_start-encode_body :
    (m : MigrationStartRecord) (rest : Bytes)
    → m.source_generation ≤ u32_max
    → m.target_generation ≤ u32_max
    → m.start_time_ns ≤ u64_max
    → (bs : Bytes) × (encode_body (migration_start m) (3 ∷ []) ≡ some bs)
      × (decode_start (bs ++ rest) ≡ ok (migration_start m, length bs))
unfolding encode_body decode_start to_le_bytes
decode_start-encode_body m rest h1 h2 h3 =
    let bs : Bytes =
      (((3 ∷ []) ++ to_le_bytes 4 m.source_generation) ++ to_le_bytes 4 m.target_generation)
      ++ to_le_bytes 8 m.start_time_ns
      ++ (m.rescue_policy_tag ∷ []) in
    (
      bs,
      refl,
      rw
          (
            ltb-eq-false (length (bs ++ rest)) 18 (omega arith),
            from_le_bytes-to_le_bytes 4 m.source_generation (omega arith),
            from_le_bytes-to_le_bytes 4 m.target_generation (omega arith),
            from_le_bytes-to_le_bytes 8 m.start_time_ns (omega arith),
          )
          refl,
    )

status_from_u8-status_to_u8 : (s : MigrationStatus) → status_from_u8 (status_to_u8 s) ≡ ok s
unfolding status_from_u8 status_to_u8
status_from_u8-status_to_u8 complete = refl
status_from_u8-status_to_u8 interrupted = refl

pub decode_end-encode_body :
    (m : MigrationEndRecord) (rest : Bytes)
    → m.source_generation ≤ u32_max
    → m.target_generation ≤ u32_max
    → m.end_time_ns ≤ u64_max
    → (bs : Bytes) × (encode_body (migration_end m) (4 ∷ []) ≡ some bs)
      × (decode_end (bs ++ rest) ≡ ok (migration_end m, length bs))
unfolding encode_body decode_end to_le_bytes
decode_end-encode_body m rest h1 h2 h3 =
    let bs : Bytes =
      (((4 ∷ []) ++ to_le_bytes 4 m.source_generation) ++ to_le_bytes 4 m.target_generation)
      ++ to_le_bytes 8 m.end_time_ns
      ++ (status_to_u8 m.status ∷ []) in
    (
      bs,
      refl,
      rw
          (
            ltb-eq-false (length (bs ++ rest)) 18 (omega arith),
            status_from_u8-status_to_u8 m.status,
            from_le_bytes-to_le_bytes 4 m.source_generation (omega arith),
            from_le_bytes-to_le_bytes 4 m.target_generation (omega arith),
            from_le_bytes-to_le_bytes 8 m.end_time_ns (omega arith),
          )
          refl,
    )

-- A tag, an identifier and a word.
id_and_word :
    (tag : ℕ) (id : Bytes) (word : ℕ) (rest : Bytes)
    → length id ≡ 16
    → word ≤ u64_max
    → let bs : Bytes = ((tag ∷ []) ++ id) ++ to_le_bytes 8 word in
      let all = bs ++ rest in
      (25 ≤ length all)
      × (slice all 1 17 ≡ id)
      × (from_le_bytes (slice all 17 25) ≡ word)
      × (25 ≡ length bs)
id_and_word tag id word rest size bound =
    let bs : Bytes = ((tag ∷ []) ++ id) ++ to_le_bytes 8 word in
    let all = bs ++ rest in
    let d1 : drop 1 all ≡ id ++ (to_le_bytes 8 word ++ rest) = simp append_assoc in
    let d17 = drop_next 1 16 all id (to_le_bytes 8 word ++ rest) d1 size in
    let l1 =
      length-field 17 8 all (to_le_bytes 8 word) rest d17 (length-to_le_bytes 8 word)
        (omega arith) in
    (
      omega arith,
      take_field 1 16 all id (to_le_bytes 8 word ++ rest) d1 size,
      word_at 17 8 word all rest d17 (omega arith),
      omega (arith, length-append {0} bs rest),
    )

pub decode_inbound-encode_body :
    (p : InboundPointerRecord) (rest : Bytes)
    → length p.prior_generation_locator_id ≡ 16
    → p.prior_generation_epoch ≤ u64_max
    → (bs : Bytes) × (encode_body (inbound_pointer p) (5 ∷ []) ≡ some bs)
      × (decode_inbound (bs ++ rest) ≡ ok (inbound_pointer p, length bs))
unfolding encode_body decode_inbound
decode_inbound-encode_body p rest size bound =
    let (long, id, word, len) =
      id_and_word 5 p.prior_generation_locator_id p.prior_generation_epoch rest size bound in
    (_, refl, rw (ltb-eq-false _ 25 long, id, word, len) refl)

pub decode_outbound-encode_body :
    (p : OutboundPointerRecord) (rest : Bytes)
    → length p.next_generation_locator_id ≡ 16
    → p.cutover_epoch ≤ u64_max
    → (bs : Bytes) × (encode_body (outbound_pointer p) (6 ∷ []) ≡ some bs)
      × (decode_outbound (bs ++ rest) ≡ ok (outbound_pointer p, length bs))
unfolding encode_body decode_outbound
decode_outbound-encode_body p rest size bound =
    let (long, id, word, len) =
      id_and_word 6 p.next_generation_locator_id p.cutover_epoch rest size bound in
    (_, refl, rw (ltb-eq-false _ 25 long, id, word, len) refl)

decode_choice-fields :
    (p : RescuePolicyChoiceRecord) (all : Bytes) (total : ℕ)
    → 6 ≤ length all
    → checked_add 6 (from_le_bytes (slice all 2 6)) ≡ some total
    → total ≤ length all
    → head_or (drop 1 all) 0 ≡ p.policy_tag
    → slice all 6 total ≡ p.parameter_payload
    → decode_choice all ≡ ok (rescue_policy_choice p, total)
unfolding decode_choice
decode_choice-fields p all total l1 count l2 tag payload =
    rw (ltb-eq-false (length all) 6 l1, count, ltb-eq-false (length all) total l2, tag, payload)
      refl

pub decode_choice-encode_body :
    (p : RescuePolicyChoiceRecord) (rest : Bytes)
    → length p.parameter_payload ≤ u32_max
    → (bs : Bytes) × (encode_body (rescue_policy_choice p) (7 ∷ []) ≡ some bs)
      × (decode_choice (bs ++ rest) ≡ ok (rescue_policy_choice p, length bs))
unfolding encode_body decode_choice
decode_choice-encode_body p rest bound =
    let n = length p.parameter_payload in
    let bs : Bytes = ((7 ∷ p.policy_tag ∷ []) ++ to_le_bytes 4 n) ++ p.parameter_payload in
    let all = bs ++ rest in
    let r6 = p.parameter_payload ++ rest in
    let d2 : drop 2 all ≡ to_le_bytes 4 n ++ r6 = simp append_assoc in
    let d6 = after_word 2 4 n all r6 d2 in
    let size : length all ≡ 6 + length r6 =
      length-field 2 4 all (to_le_bytes 4 n) r6 d2 (length-to_le_bytes 4 n) (omega arith) in
    let tail_size = length-append {0} p.parameter_payload rest in
    let size' = length-append {0} bs rest in
    let total = length bs in
    let total_eq : 6 + n ≡ total = omega arith in
    let count : checked_add 6 (from_le_bytes (slice all 2 6)) ≡ some total =
      ap (checked_add 6) (word_at 2 4 n all r6 d2 (omega arith))
      ∙ checked_add-eq-some 6 n (omega arith)
      ∙ ap some total_eq in
    let payload : slice all 6 total ≡ p.parameter_payload =
      ap (λ k. take k (drop 6 all)) (omega arith)
      ∙ take_field 6 n all p.parameter_payload rest d6 refl in
    (
      bs,
      rw (u32_try_from-eq-some n bound) refl,
      decode_choice-fields p all total (omega arith) count (omega arith) refl payload,
    )
