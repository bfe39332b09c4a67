-- ===== src/Encoding/Envelope/RoundTrip.antt =====
-- What `EventEnvelope::decode` does on every input that starts with a header and a length, and what
-- follows for encoded envelopes (crates/pardosa/src/encoding.rs).
use pardosa.Failure.{err, truncated_payload, ok}
use pardosa.Prelude.Bytes.{
  Bytes, to_le_bytes, length-to_le_bytes, from_le_bytes, from_le_bytes-to_le_bytes,
}
use pardosa.Prelude.Words.{
  checked_add, u32_max, and_then, usize_max, u32_try_from, checked_add-eq-some,
  u32_try_from-eq-some,
}
use pardosa.Prelude.{
  ℕ, ◌≤◌, [], length, ◌≡◌, ◌++◌, some, ◌+◌, if◌then◌else◌, arith, leb-eq-true, ltb, length-append,
  take, drop, drop-append, drop_next, ap, take_field, ◌∙◌, leb, ◌-◌, ltb-eq-false, ◌<◌, Bool-cases,
  inl, leb→le, append_assoc, inr, ltb-add_left, leb-false→lt, take-append, refl, sym,
  take-append_add,
}
use pardosa.Encoding.Envelope.Header
use pardosa.Encoding.Envelope.Header.RoundTrip as HeaderTrip
use pardosa.Encoding.Envelope.{
  EventEnvelope, decode, encode, bounded, encode_wire, envelope_wire_len, too_long_error,
}

-- A header, a length and whatever follows.
abbrev pub laid_out : Header.EnvelopeHeader → ℕ → Bytes → Bytes
laid_out h len tail = Header.encode h [] ++ (to_le_bytes 4 len ++ tail)

pub length-laid_out :
    (h : Header.EnvelopeHeader) (len : ℕ) (tail : Bytes)
    → Header.IsSized h
    → length (laid_out h len tail) ≡ 85 + length tail
length-laid_out h len tail s = omega (
  arith,
  length-append {0} (Header.encode h []) (to_le_bytes 4 len ++ tail),
  length-append {0} (to_le_bytes 4 len) tail,
  HeaderTrip.length-encode h s,
  length-to_le_bytes 4 len,
)

pub take-laid_out :
    (h : Header.EnvelopeHeader) (len m : ℕ) (tail : Bytes)
    → Header.IsSized h
    → take (85 + m) (laid_out h len tail) ≡ laid_out h len (take m tail)
take-laid_out h len m tail s =
    let head = Header.encode h [] in
    let word = to_le_bytes 4 len in
    let head_len : length (head ++ word) ≡ 85 = omega (
      arith,
      length-append {0} head word,
      HeaderTrip.length-encode h s,
      length-to_le_bytes 4 len,
    ) in
    ap (take (85 + m)) (sym (append_assoc head word tail))
    ∙ take-append_add 85 m (head ++ word) tail head_len
    ∙ append_assoc head word (take m tail)

checked_total :
    (len : ℕ)
    → len ≤ u32_max
    → and_then (checked_add 81 4) (λ h. checked_add h len) ≡ some (85 + len)
unfolding checked_add
checked_total len h = rw (leb-eq-true (85 + len) usize_max (omega arith))

pub decode-laid_out :
    (h : Header.EnvelopeHeader) (len : ℕ) (tail : Bytes)
    → Header.IsSized h
    → len ≤ u32_max
    → decode (laid_out h len tail) ≡ (
        if ltb (length tail) len
        then err (truncated_payload (85 + len) (85 + length tail))
        else ok (record { header = h; payload = take len tail }, 85 + len))
unfolding decode
decode-laid_out h len tail s bound =
    let bs = laid_out h len tail in
    let d81 : drop 81 bs ≡ to_le_bytes 4 len ++ tail =
      drop-append 81 (Header.encode h []) (to_le_bytes 4 len ++ tail)
        (HeaderTrip.length-encode h s) in
    let d85 : drop 85 bs ≡ tail =
      drop_next 81 4 bs (to_le_bytes 4 len) tail d81 (length-to_le_bytes 4 len) in
    let len_eq : from_le_bytes (take 4 (drop 81 bs)) ≡ len =
      ap from_le_bytes (take_field 81 4 bs (to_le_bytes 4 len) tail d81 (length-to_le_bytes 4 len))
      ∙ from_le_bytes-to_le_bytes 4 len (omega arith) in
    let total = length-laid_out h len tail s in
    let same_len : 85 + len - 85 ≡ len = omega arith in
    rw
      (
        HeaderTrip.decode-encode h (to_le_bytes 4 len ++ tail) s,
        total,
        ltb-eq-false (85 + length tail) 85 (omega arith),
        len_eq,
        checked_total len bound,
      )
      (rw (ltb-add_left 85 (length tail) len, same_len, d85)
        (elim (Bool-cases (ltb (length tail) len)) [
          | inl short ↦ rw short
          | inr enough ↦ rw enough
        ]))

-- The bound on the wire size.
pub envelope_wire_len-eq-ok : (n : ℕ) → n + 85 ≤ u32_max → envelope_wire_len n u32_max ≡ ok (n + 85)
unfolding envelope_wire_len
envelope_wire_len-eq-ok n h = rw (
  checked_add-eq-some n 85 (omega arith),
  leb-eq-true (n + 85) u32_max h,
  u32_try_from-eq-some (n + 85) h,
)

pub envelope_wire_len-eq-err :
    (n : ℕ) → u32_max < n + 85 → envelope_wire_len n u32_max ≡ err too_long_error
unfolding envelope_wire_len checked_add u32_try_from
envelope_wire_len-eq-err n h = ground arith

-- `encode` appends the envelope's bytes where header, length and payload fit a `u32`, and refuses
-- with `TooLong` where they do not.
pub encode_total :
    (e : EventEnvelope) (buf : Bytes)
    → encode e buf ≡ (
        if leb (length e.payload + 85) u32_max
        then ok (buf ++ laid_out e.header (length e.payload) e.payload)
        else err too_long_error)
unfolding encode bounded encode_wire
encode_total e buf = elim (Bool-cases (leb (length e.payload + 85) u32_max)) [
  | inl fits ↦
      let wire = envelope_wire_len-eq-ok (length e.payload) (leb→le _ _ fits) in
      let back : length e.payload + 85 - 85 ≡ length e.payload = omega arith in
      rw (wire, fits) (rw (back, HeaderTrip.encode-append e.header buf) (simp append_assoc))
  | inr big ↦
      let wire = envelope_wire_len-eq-err (length e.payload) (leb-false→lt _ _ big) in
      rw (wire, big)
]

pub encode-eq-ok :
    (e : EventEnvelope) {bs : Bytes}
    → encode e [] ≡ ok bs
    → (length e.payload + 85 ≤ u32_max) × (bs ≡ laid_out e.header (length e.payload) e.payload)
encode-eq-ok e h = ground (arith, encode_total e [])

-- Decoding an encoded envelope gives it back and consumes just its bytes, whatever follows them.
pub decode-encode :
    (e : EventEnvelope) (bs rest : Bytes)
    → Header.IsSized e.header
    → encode e [] ≡ ok bs
    → decode (bs ++ rest) ≡ ok (e, length bs)
decode-encode e bs rest s h =
    let (fits, bytes) = encode-eq-ok e h in
    let n = length e.payload in
    rw bytes (
      rw (append_assoc, append_assoc, length-laid_out e.header n e.payload s)
        (decode-laid_out e.header n (e.payload ++ rest) s (omega arith)
          ∙ rw (
            length-append {0} e.payload rest,
            ltb-eq-false (n + length rest) n (omega arith),
            take-append n e.payload rest refl,
          )))
