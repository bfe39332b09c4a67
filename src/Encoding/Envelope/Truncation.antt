-- ===== src/Encoding/Envelope/Truncation.antt =====
-- `EventEnvelope::decode` on what it accepts, and on an envelope that was cut short
-- (crates/pardosa/src/encoding.rs).
use pardosa.Prelude.Words.{u32_max}
use pardosa.Failure.{ok, err, truncated_header, truncated_payload}
use pardosa.Prelude.{
  ℕ, [], ◌≡◌, ◌<◌, ◌+◌, length, take, ◌≤◌, if◌then◌else◌, ltb, ap, ◌∙◌, Bool-cases, ◌++◌,
  length-take, arith, inl, length-append, ltb→lt, inr, take-append_add, sym, ltb-false→le, lt→ltb,
  ◌-◌, refl,
}
use pardosa.Prelude.Bytes.{Bytes, to_le_bytes, length-to_le_bytes}
use pardosa.Encoding.Envelope.Header
use pardosa.Encoding.Envelope.Header.RoundTrip as HeaderTrip
use pardosa.Encoding.Envelope.{EventEnvelope, decode, encode}
use pardosa.Encoding.Envelope.RoundTrip.{
  laid_out, decode-laid_out, take-laid_out, length-laid_out, encode-eq-ok,
}

decode_no_header :
    (buf : Bytes) → length buf < 81 → decode buf ≡ err (truncated_header 81 (length buf))
unfolding decode
decode_no_header buf h = rw (HeaderTrip.decode_short buf h)

cut_in_length :
    (h : Header.EnvelopeHeader) (len m : ℕ) (tail : Bytes)
    → Header.IsSized h
    → m < 4
    → decode (take (81 + m) (laid_out h len tail)) ≡ err (truncated_header 85 (81 + m))
unfolding decode
cut_in_length h len m tail s lt =
    let more = to_le_bytes 4 len ++ tail in
    let rest = take m more in
    let rest_len : length rest ≡ m =
      length-take m more
        (omega (arith, length-append {0} (to_le_bytes 4 len) tail, length-to_le_bytes 4 len)) in
    let cut = take-append_add 81 m (Header.encode h []) more (HeaderTrip.length-encode h s) in
    rw (
      cut,
      HeaderTrip.decode-encode h rest s,
      length-append {0} (Header.encode h []) rest,
      HeaderTrip.length-encode h s,
      rest_len,
      lt→ltb (81 + m) 85 (omega arith),
    )

cut_in_payload :
    (h : Header.EnvelopeHeader) (len m : ℕ) (tail : Bytes)
    → Header.IsSized h
    → len ≤ u32_max
    → length tail ≡ len
    → m < len
    → decode (take (85 + m) (laid_out h len tail)) ≡ err (truncated_payload (85 + len) (85 + m))
cut_in_payload h len m tail s bound l lt =
    let tail_len : length (take m tail) ≡ m = length-take m tail (omega arith) in
    rw (take-laid_out h len m tail s)
      (decode-laid_out h len (take m tail) s bound ∙ rw (tail_len, lt→ltb m len lt))

-- An encoded envelope that lost bytes at its end is refused as truncated, and the error names the
-- part that is missing, the bytes that it needs and the bytes that are there.
pub decode_truncated :
    (e : EventEnvelope) (bs : Bytes) (k : ℕ)
    → Header.IsSized e.header
    → encode e [] ≡ ok bs
    → k < length bs
    → decode (take k bs)
      ≡ err (
          if ltb k 81
          then truncated_header 81 k
          else if ltb k 85
          then truncated_header 85 k
          else truncated_payload (length bs) k)
decode_truncated e bs k s h lt =
    let (fits, bytes) = encode-eq-ok e h in
    let n = length e.payload in
    let total : length bs ≡ 85 + n = ap length bytes ∙ length-laid_out e.header n e.payload s in
    elim (Bool-cases (ltb k 81)) [
      | inl no_header ↦
          let cut : length (take k bs) ≡ k = length-take k bs (omega arith) in
          rw (decode_no_header (take k bs) (rw cut (ltb→lt k 81 no_header)), cut, no_header)
      | inr header ↦
          let at_least = ltb-false→le k 81 header in
          elim (Bool-cases (ltb k 85)) [
            | inl no_length ↦
                let split : k ≡ 81 + (k - 81) = omega arith in
                let below = ltb→lt k 85 no_length in
                rw (header, no_length, bytes)
                  (ap (λ (j : ℕ). decode (take j (laid_out e.header n e.payload))) split
                    ∙ cut_in_length e.header n (k - 81) e.payload s (omega arith)
                    ∙ ap (λ (j : ℕ). err (truncated_header 85 j)) (sym split))
            | inr all_but_payload ↦
                let above = ltb-false→le k 85 all_but_payload in
                let split : k ≡ 85 + (k - 85) = omega arith in
                rw (header, all_but_payload, total, bytes)
                  (ap (λ (j : ℕ). decode (take j (laid_out e.header n e.payload))) split
                    ∙ cut_in_payload e.header n (k - 85) e.payload s (omega arith) refl
                        (omega arith)
                    ∙ ap (λ (j : ℕ). err (truncated_payload (85 + n) j)) (sym split))
          ]
    ]
