-- ===== src/Examples/Logs.antt =====
-- The log of ownership records at concrete inputs.
use pardosa.Container.Frame.{try_encode_payload}
use pardosa.File.System.{Reading, reading_of}
use pardosa.Container.{to_bytes, new_header}
use pardosa.File.Meta.{
  append_meta_record_impl, read_meta_records, encode_and_write, apply_record, write_record,
  after_write, sync_record,
}
use pardosa.Prelude.Words.{u32_try_from}
use pardosa.Examples.Data.{toy_crc, toy_crc-le}
use pardosa.Container.Frame.RoundTrip.{frame_bytes}
use pardosa.Examples.Disks.{toy_files, ToyDisk, empty_disk}
use pardosa.File.Meta.Append.{AppendsToMeta, read_meta_records-append_meta_record_impl}
use pardosa.Ownership.Record.Codec.{encode_record, decode_record, encode_body, wire_tag}
use pardosa.Ownership.Record.RoundTrip.{RecordFits, decode_record-encode_record}
use pardosa.Ownership.Record.{OwnershipRecord, ownership_claim}
use pardosa.Prelude.Bytes.{Bytes, to_le_bytes}
use pardosa.Failure.{Result, DecodeError, ok, ◌>>=◌}
use pardosa.Prelude.{
  ℕ, ◌≡◌, refl, Bool, true, some, [], ◌∷◌, ◌++◌, arith, length, replicate, ◌+◌, sym, ap, ◌∙◌, false,
  Option, append-nil, take, take_all,
}

abbrev pub any_text : Bytes → Bool
any_text bs = true

abbrev pub one_node : Bytes → Result DecodeError (ℕ × ℕ)
one_node bs = ok (0, length bs)

abbrev pub any_descriptor : ℕ × ℕ → ℕ × ℕ → Bool
any_descriptor a b = true

abbrev first_claim : OwnershipRecord
first_claim = ownership_claim (record {
  epoch = 1;
  machine_id = replicate 16 3;
  boot_id = replicate 16 4;
  process_id = 42;
  process_start_time_ns = 1000;
  claim_time_ns = 2000;
  operator_label = 65 ∷ 66 ∷ [];
})

abbrev first_claim_fits : RecordFits any_text first_claim
first_claim_fits =
    ((omega arith, refl, refl, omega arith, omega arith, omega arith, omega arith), refl)

decode_record-encode_record_example :
    (bs : Bytes) × (encode_record first_claim [] ≡ some bs)
    × (decode_record any_text (bs ++ (9 ∷ [])) ≡ ok (first_claim, length bs))
decode_record-encode_record_example =
    decode_record-encode_record any_text first_claim (9 ∷ []) first_claim_fits tt

-- The bytes of the first claim, and the disk after it was appended to an empty log.
abbrev claim_bytes : Bytes
claim_bytes =
    1
    ∷ (to_le_bytes 8 1
        ++ (replicate 16 3
            ++ (replicate 16 4
                ++ (to_le_bytes 8 42
                    ++ (to_le_bytes 8 1000
                        ++ (to_le_bytes 8 2000 ++ (to_le_bytes 4 2 ++ (65 ∷ 66 ∷ []))))))))

abbrev pub claimed_disk : ToyDisk
claimed_disk = record empty_disk {
  meta_bytes = to_bytes new_header ++ frame_bytes toy_crc claim_bytes;
}

claim_appended :
    append_meta_record_impl toy_files false false toy_crc first_claim empty_disk
    ≡ some (ok tt, claimed_disk)
unfolding append_meta_record_impl encode_and_write write_record after_write sync_record
    encode_record encode_body wire_tag to_le_bytes u32_try_from try_encode_payload
claim_appended = refl

same_bytes :
    (xs ys : Bytes)
    → ◌≡◌ {A = Option Reading} (some (reading_of xs)) (some (reading_of ys))
    → xs ≡ ys
same_bytes xs ys h =
    let same : reading_of xs ≡ reading_of ys = cc h in
    let n = length xs + length ys in
    let cut : ◌≡◌ {A = Option Bytes} (some (take n xs)) (some (take n ys)) =
      ap (λ r. r.read_to_end n) same in
    let cut' : take n xs ≡ take n ys = cc cut in
    sym (take_all n xs (omega arith)) ∙ cut' ∙ take_all n ys (omega arith)

toy_files-AppendsToMeta : AppendsToMeta toy_files
toy_files-AppendsToMeta = record {
  opens = λ d. (refl, refl);
  writes = λ d old bs h b.
      (refl, ap (λ xs. some (reading_of (xs ++ bs))) (same_bytes d.meta_bytes old h));
  syncs = λ d. (refl, refl);
}

read_meta_records-append_meta_record_impl_example :
    read_meta_records one_node any_descriptor any_text toy_crc toy_files claimed_disk ≡ (
      read_meta_records one_node any_descriptor any_text toy_crc toy_files empty_disk
      >>= apply_record one_node any_descriptor first_claim)
read_meta_records-append_meta_record_impl_example =
    read_meta_records-append_meta_record_impl one_node any_descriptor any_text toy_crc toy_crc-le
      toy_files toy_files-AppendsToMeta [] first_claim empty_disk claimed_disk tt first_claim_fits
      (refl, ap (λ bs. some (reading_of bs)) (sym (append-nil (to_bytes new_header))))
      claim_appended
