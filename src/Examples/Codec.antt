-- ===== src/Examples/Codec.antt =====
-- Envelopes at concrete inputs.
use pardosa.Encoding.Envelope.{encode, too_long_error}
use pardosa.Encoding.Envelope.Header.{zero_id, zero_hash, IsSized}
use pardosa.Prelude.Bytes.{to_le_bytes}
use pardosa.Prelude.Words.{u32_max}
use pardosa.Failure.{ok, err, truncated_payload, truncated_header}
use pardosa.Prelude.{
  ◌+◌, ◌≤◌, ◌≡◌, refl, ◌⊎◌, [], ◌∷◌, ◌++◌, arith, ltb, leb, if◌then◌else◌, length, take,
}
use pardosa.Encoding.Envelope
use pardosa.Encoding.Envelope.Header
use pardosa.Encoding.Envelope.RoundTrip.{decode-encode, encode_total, laid_out}
use pardosa.Encoding.Envelope.Truncation.{decode_truncated}
use pardosa.Encoding.Envelope.Canonical.{decode_canonical}
use pardosa.Encoding.Envelope.Binding.{commitment_binding, Collision}
use pardosa.Examples.Data.{
  all_below-IsBytes, toy_hash, first_bytes, first_event, first_header-IsSized, first_header,
  first_encoded,
}

decode-encode_example :
    Envelope.decode (first_bytes ++ (9 ∷ [])) ≡ ok (first_event, length first_bytes)
decode-encode_example =
    decode-encode first_event first_bytes (9 ∷ []) first_header-IsSized first_encoded

decode_truncated_example :
    Envelope.decode (take 84 first_bytes)
    ≡ err (
        if ltb 84 81
        then truncated_header 81 84
        else if ltb 84 85
        then truncated_header 85 84
        else truncated_payload (length first_bytes) 84)
unfolding zero_id zero_hash to_le_bytes Header.encode
decode_truncated_example =
    decode_truncated first_event first_bytes 84 first_header-IsSized first_encoded (omega arith)

decode_canonical_example :
    IsSized first_header
    × (length first_bytes ≡ 85 + 2)
    × (length first_bytes ≤ length (first_bytes ++ []))
    × (laid_out first_header 2 (5 ∷ 6 ∷ []) ≡ take (length first_bytes) (first_bytes ++ []))
unfolding Header.encode zero_id zero_hash to_le_bytes
decode_canonical_example =
    decode_canonical (first_bytes ++ []) (all_below-IsBytes (first_bytes ++ []) refl)
      (decode-encode first_event first_bytes [] first_header-IsSized first_encoded)

encode_total_example : encode first_event [] ≡ (
    if leb (2 + 85) u32_max
    then ok ([] ++ laid_out first_header 2 (5 ∷ 6 ∷ []))
    else err too_long_error)
encode_total_example = encode_total first_event []

commitment_binding_example : (first_event ≡ first_event) ⊎ Collision toy_hash
commitment_binding_example =
    commitment_binding toy_hash first_event first_event first_header-IsSized first_header-IsSized
      refl
