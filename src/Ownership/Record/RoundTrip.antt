-- ===== src/Ownership/Record/RoundTrip.antt =====
-- Decoding inverts encoding for every kind of ownership record.
pub mod Claim
pub mod Identity
pub mod Plain
use pardosa.Ownership.Record.RoundTrip.Plain.{
  decode_release-encode_body, decode_start-encode_body, decode_end-encode_body,
  decode_inbound-encode_body, decode_outbound-encode_body, decode_choice-encode_body,
}
use pardosa.Ownership.Record.Rule.{encode_rule}
use pardosa.Ownership.Record.RoundTrip.Identity.{
  IdentityFits, decode_identity-encode_body, decode_descriptor-encode_body,
}
use pardosa.Ownership.Record.RoundTrip.Claim.{ClaimFits, decode_claim-encode_body}
use pardosa.Ownership.Record.Codec.{
  encode_record, decode_record, extend_counted, encode_body, Arm, decode_claim, decode_release,
  decode_start, decode_end, decode_inbound, decode_outbound, decode_choice, decode_identity,
  decode_descriptor,
}
use pardosa.Ownership.Record.{
  OwnershipRecord, ownership_claim, schema_descriptor, clean_release, migration_start,
  migration_end, inbound_pointer, outbound_pointer, rescue_policy_choice, identity_structure,
  PartitioningRule, static_modulo, consistent_hash,
}
use pardosa.Prelude.Bytes.{Bytes, to_le_bytes}
use pardosa.Prelude.Words.{u32_max, u64_max, u32_try_from}
use pardosa.Failure.{ok, Result, DecodeError}
use pardosa.Prelude.{
  ◌≤◌, ◌≡◌, Bool, true, some, [], ◌++◌, length, ℕ, refl, sym, ap, ◌∙◌, inl, inr, Option, ◌∷◌,
  append-nil, Option-cases,
}
use pardosa.Ownership.Record
use pardosa.Ownership.Record.Codec

-- What the types of a record's fields say: the widths of its words and identifiers, a length of at
-- most `u32::MAX` bytes where one is encoded, and a label that is a string.
abbrev pub RecordFits : (Bytes → Bool) → OwnershipRecord → Type 0
RecordFits from_utf8 (ownership_claim c) = ClaimFits c × (from_utf8 c.operator_label ≡ true)
RecordFits from_utf8 (clean_release r) = (r.epoch ≤ u64_max) × (r.release_time_ns ≤ u64_max)
RecordFits from_utf8 (migration_start m) =
    (m.source_generation ≤ u32_max) × (m.target_generation ≤ u32_max) × (m.start_time_ns ≤ u64_max)
RecordFits from_utf8 (migration_end m) =
    (m.source_generation ≤ u32_max) × (m.target_generation ≤ u32_max) × (m.end_time_ns ≤ u64_max)
RecordFits from_utf8 (inbound_pointer p) =
    (length p.prior_generation_locator_id ≡ 16) × (p.prior_generation_epoch ≤ u64_max)
RecordFits from_utf8 (outbound_pointer p) =
    (length p.next_generation_locator_id ≡ 16) × (p.cutover_epoch ≤ u64_max)
RecordFits from_utf8 (rescue_policy_choice p) = length p.parameter_payload ≤ u32_max
RecordFits from_utf8 (identity_structure ids) = IdentityFits ids
RecordFits from_utf8 (schema_descriptor v ds) = v ≤ u32_max

-- A schema descriptor is read up to the end of the buffer; any other record ends by itself.
abbrev pub EndsBefore : Bytes → OwnershipRecord → Type 0
EndsBefore rest (schema_descriptor v ds) = rest ≡ []
EndsBefore rest r = Unit {0}

pub EndsBefore-nil : (r : OwnershipRecord) → EndsBefore [] r
EndsBefore-nil (ownership_claim _) = tt
EndsBefore-nil (clean_release _) = tt
EndsBefore-nil (migration_start _) = tt
EndsBefore-nil (migration_end _) = tt
EndsBefore-nil (inbound_pointer _) = tt
EndsBefore-nil (outbound_pointer _) = tt
EndsBefore-nil (rescue_policy_choice _) = tt
EndsBefore-nil (identity_structure _) = tt
EndsBefore-nil (schema_descriptor _ _) = refl

some-head :
    {tag : ℕ} {tl bs : Bytes}
    → ◌≡◌ {A = Option Bytes} (some (tag ∷ tl)) (some bs)
    → (tl' : Bytes) × (bs ≡ tag ∷ tl')
some-head {tl = tl} h = (tl, cc h)

extend_counted-head :
    (bytes : Bytes) (tag : ℕ) (tl : Bytes) {bs : Bytes}
    → extend_counted bytes (tag ∷ tl) ≡ some bs
    → (tl' : Bytes) × (bs ≡ tag ∷ tl')
extend_counted-head bytes tag tl h = elim (Option-cases (u32_try_from (length bytes))) [
  | inl fails ↦ absurd (cc (rw fails at h))
  | inr (n, fits) ↦
      let h' : ◌≡◌ {A = Option Bytes} (some (tag ∷ ((tl ++ to_le_bytes 4 n) ++ bytes))) (some _) =
        rw fits at h in
      some-head h'
]

rule_head :
    (rule : PartitioningRule) {tag : ℕ} (tl : Bytes) {bs : Bytes}
    → some (encode_rule rule (tag ∷ tl)) ≡ some bs
    → (tl' : Bytes) × (bs ≡ tag ∷ tl')
unfolding encode_rule
rule_head (static_modulo n) tl h = some-head h
rule_head (consistent_hash s n) tl h = some-head h

-- What an encoder appends leaves the tag in front.
encode_body-head :
    (r : OwnershipRecord) (tag : ℕ) {bs : Bytes}
    → encode_body r (tag ∷ []) ≡ some bs
    → (tl : Bytes) × (bs ≡ tag ∷ tl)
unfolding encode_body encode_rule
encode_body-head (ownership_claim c) tag h = extend_counted-head c.operator_label tag _ h
encode_body-head (clean_release r) tag h = some-head h
encode_body-head (migration_start m) tag h = some-head h
encode_body-head (migration_end m) tag h = some-head h
encode_body-head (inbound_pointer p) tag h = some-head h
encode_body-head (outbound_pointer p) tag h = some-head h
encode_body-head (rescue_policy_choice p) tag h =
    extend_counted-head p.parameter_payload tag (p.policy_tag ∷ []) h
encode_body-head (identity_structure ids) tag h = rule_head ids.partitioning_rule _ h
encode_body-head (schema_descriptor v ds) tag h = some-head h

-- The arm of a tag reads what starts with the tag.
with_tag :
    (read : Bytes → Result DecodeError (OwnershipRecord × ℕ)) (arm : Arm) (r : OwnershipRecord)
    (tag : ℕ) (rest : Bytes)
    → ((tl : Bytes) → read (tag ∷ tl) ≡ arm (tag ∷ tl))
    → (bs : Bytes) × (encode_body r (tag ∷ []) ≡ some bs) × (arm (bs ++ rest) ≡ ok (r, length bs))
    → (bs : Bytes) × (encode_body r (tag ∷ []) ≡ some bs) × (read (bs ++ rest) ≡ ok (r, length bs))
with_tag read arm r tag rest dispatch (bs, encoded, decoded) =
    let (tl, starts) = encode_body-head r tag encoded in
    (
      bs,
      encoded,
      ap (λ b. read (b ++ rest)) starts
          ∙ dispatch (tl ++ rest)
          ∙ ap (λ b. arm (b ++ rest)) (sym starts)
          ∙ decoded,
    )

-- A record whose fields fit is encoded without a panic, and decoding gives back the record and just
-- the bytes that it took, whatever follows them; a schema descriptor has to be last.
pub decode_record-encode_record :
    (from_utf8 : Bytes → Bool) (r : OwnershipRecord) (rest : Bytes)
    → RecordFits from_utf8 r
    → EndsBefore rest r
    → (bs : Bytes) × (encode_record r [] ≡ some bs)
      × (decode_record from_utf8 (bs ++ rest) ≡ ok (r, length bs))
unfolding encode_record decode_record
decode_record-encode_record from_utf8 (ownership_claim c) rest fits last =
    with_tag (decode_record from_utf8) (decode_claim from_utf8) (ownership_claim c) 1 rest
      (λ _. refl) (decode_claim-encode_body from_utf8 c rest fits.0 fits.1)
decode_record-encode_record from_utf8 (clean_release r) rest fits last =
    with_tag (decode_record from_utf8) decode_release (clean_release r) 2 rest (λ _. refl)
      (decode_release-encode_body r rest fits.0 fits.1)
decode_record-encode_record from_utf8 (migration_start m) rest (h1, h2, h3) last =
    with_tag (decode_record from_utf8) decode_start (migration_start m) 3 rest (λ _. refl)
      (decode_start-encode_body m rest h1 h2 h3)
decode_record-encode_record from_utf8 (migration_end m) rest (h1, h2, h3) last =
    with_tag (decode_record from_utf8) decode_end (migration_end m) 4 rest (λ _. refl)
      (decode_end-encode_body m rest h1 h2 h3)
decode_record-encode_record from_utf8 (inbound_pointer p) rest fits last =
    with_tag (decode_record from_utf8) decode_inbound (inbound_pointer p) 5 rest (λ _. refl)
      (decode_inbound-encode_body p rest fits.0 fits.1)
decode_record-encode_record from_utf8 (outbound_pointer p) rest fits last =
    with_tag (decode_record from_utf8) decode_outbound (outbound_pointer p) 6 rest (λ _. refl)
      (decode_outbound-encode_body p rest fits.0 fits.1)
decode_record-encode_record from_utf8 (rescue_policy_choice p) rest fits last =
    with_tag (decode_record from_utf8) decode_choice (rescue_policy_choice p) 7 rest (λ _. refl)
      (decode_choice-encode_body p rest fits)
decode_record-encode_record from_utf8 (identity_structure ids) rest fits last =
    with_tag (decode_record from_utf8) decode_identity (identity_structure ids) 8 rest (λ _. refl)
      (decode_identity-encode_body ids rest fits)
decode_record-encode_record from_utf8 (schema_descriptor v ds) rest fits last =
    let (bs, encoded, decoded) = decode_descriptor-encode_body v ds fits in
    with_tag (decode_record from_utf8) decode_descriptor (schema_descriptor v ds) 9 rest (λ _. refl)
      (bs, encoded, ap decode_descriptor (ap (λ xs. bs ++ xs) last ∙ append-nil bs) ∙ decoded)
