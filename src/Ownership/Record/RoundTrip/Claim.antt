-- ===== src/Ownership/Record/RoundTrip/Claim.antt =====
-- The round trip of an ownership claim record.
use pardosa.Ownership.Record.Fields.{after_word, word_at, length-field}
use pardosa.Ownership.Record.Codec.{decode_claim, encode_body}
use pardosa.Ownership.Record.{OwnershipClaimRecord, ownership_claim}
use pardosa.Prelude.Bytes.{Bytes, to_le_bytes, from_le_bytes, length-to_le_bytes}
use pardosa.Prelude.Words.{u32_max, u64_max, checked_add, checked_add-eq-some, u32_try_from-eq-some}
use pardosa.Failure.{ok}
use pardosa.Prelude.{
  ℕ, ◌+◌, ◌≤◌, ◌≡◌, refl, ap, ◌∙◌, Bool, true, some, [], ◌∷◌, ◌++◌, append_assoc, arith,
  ltb-eq-false, length, take, drop, slice, length-append, drop_next, take_field,
}

-- What the types of the fields say; the words are below the given powers.
abbrev pub ClaimFits : OwnershipClaimRecord → Type 0
ClaimFits c =
    (c.epoch ≤ u64_max)
    × (length c.machine_id ≡ 16)
    × (length c.boot_id ≡ 16)
    × (c.process_id ≤ u64_max)
    × (c.process_start_time_ns ≤ u64_max)
    × (c.claim_time_ns ≤ u64_max)
    × (length c.operator_label ≤ u32_max)

module _ (from_utf8 : Bytes → Bool) where
  -- The claim is read where its fields are found.
  decode_claim-fields :
      (c : OwnershipClaimRecord) (all : Bytes) (total : ℕ)
      → from_le_bytes (slice all 1 9) ≡ c.epoch
      → slice all 9 25 ≡ c.machine_id
      → slice all 25 41 ≡ c.boot_id
      → from_le_bytes (slice all 41 49) ≡ c.process_id
      → from_le_bytes (slice all 49 57) ≡ c.process_start_time_ns
      → from_le_bytes (slice all 57 65) ≡ c.claim_time_ns
      → checked_add 69 (from_le_bytes (slice all 65 69)) ≡ some total
      → slice all 69 total ≡ c.operator_label
      → 69 ≤ length all
      → total ≤ length all
      → from_utf8 c.operator_label ≡ true
      → decode_claim from_utf8 all ≡ ok (ownership_claim c, total)
  unfolding decode_claim
  decode_claim-fields c all total epoch machine boot process start time count label l1 l2 utf8 =
      rw
        (
          ltb-eq-false (length all) 69 l1,
          count,
          ltb-eq-false (length all) total l2,
          label,
          utf8,
          epoch,
          machine,
          boot,
          process,
          start,
          time,
        )
        refl

  pub decode_claim-encode_body :
      (c : OwnershipClaimRecord) (rest : Bytes)
      → ClaimFits c
      → from_utf8 c.operator_label ≡ true
      → (bs : Bytes) × (encode_body (ownership_claim c) (1 ∷ []) ≡ some bs)
        × (decode_claim from_utf8 (bs ++ rest) ≡ ok (ownership_claim c, length bs))
  unfolding encode_body decode_claim
  decode_claim-encode_body c rest (epoch, machine, boot, process, start, time, label) utf8 =
      let n = length c.operator_label in
      let r69 = c.operator_label ++ rest in
      let r65 : Bytes = to_le_bytes 4 n ++ r69 in
      let r57 : Bytes = to_le_bytes 8 c.claim_time_ns ++ r65 in
      let r49 : Bytes = to_le_bytes 8 c.process_start_time_ns ++ r57 in
      let r41 : Bytes = to_le_bytes 8 c.process_id ++ r49 in
      let r25 = c.boot_id ++ r41 in
      let r9 = c.machine_id ++ r25 in
      let bs : Bytes =
        ((((((((1 ∷ []) ++ to_le_bytes 8 c.epoch) ++ c.machine_id) ++ c.boot_id)
                ++ to_le_bytes 8 c.process_id)
              ++ to_le_bytes 8 c.process_start_time_ns)
            ++ to_le_bytes 8 c.claim_time_ns)
          ++ to_le_bytes 4 n)
        ++ c.operator_label in
      let all = bs ++ rest in
      let d1 : drop 1 all ≡ to_le_bytes 8 c.epoch ++ r9 = simp append_assoc in
      let d9 = after_word 1 8 c.epoch all r9 d1 in
      let d25 = drop_next 9 16 all c.machine_id r25 d9 machine in
      let d41 = drop_next 25 16 all c.boot_id r41 d25 boot in
      let d49 = after_word 41 8 c.process_id all r49 d41 in
      let d57 = after_word 49 8 c.process_start_time_ns all r57 d49 in
      let d65 = after_word 57 8 c.claim_time_ns all r65 d57 in
      let d69 = after_word 65 4 n all r69 d65 in
      let count : from_le_bytes (take 4 (drop 65 all)) ≡ n =
        word_at 65 4 n all r69 d65 (omega arith) in
      let size : length all ≡ 69 + length r69 =
        length-field 65 4 all (to_le_bytes 4 n) r69 d65 (length-to_le_bytes 4 n) (omega arith) in
      let tail_size = length-append {0} c.operator_label rest in
      let size' = length-append {0} bs rest in
      let label_eq = take_field 69 n all c.operator_label rest d69 refl in
      let total = length bs in
      let total_eq : 69 + n ≡ total = omega arith in
      (
        bs,
        rw (u32_try_from-eq-some n label) refl,
        decode_claim-fields c all total (word_at 1 8 c.epoch all r9 d1 (omega arith))
            (take_field 9 16 all c.machine_id r25 d9 machine)
            (take_field 25 16 all c.boot_id r41 d25 boot)
            (word_at 41 8 c.process_id all r49 d41 (omega arith))
            (word_at 49 8 c.process_start_time_ns all r57 d49 (omega arith))
            (word_at 57 8 c.claim_time_ns all r65 d57 (omega arith))
            (ap (checked_add 69) count ∙ checked_add-eq-some 69 n (omega arith) ∙ ap some total_eq)
            (ap (λ k. take k (drop 69 all)) (omega arith) ∙ label_eq) (omega arith) (omega arith)
            utf8,
      )
