-- ===== src/Encoding/Envelope/Canonical.antt =====
-- What `EventEnvelope::decode` accepts (crates/pardosa/src/encoding.rs): only canonical bytes.
use pardosa.Prelude.Words.{u32_max}
use pardosa.Failure.{ok, >>=-eq-ok, refuse_if, refuse_if-eq-ok}
use pardosa.Prelude.{
  ℕ, ◌≡◌, take, ◌≤◌, drop, ◌+◌, length, length-take, arith, length-drop, All-take, ◌<◌, All-drop,
  ap, ◌-◌, sym, ◌∙◌, inl, inr, ◌++◌, ltb, ltb-false→le, Bool-cases, take-append-drop, drop-drop,
  ◌^◌, subst,
}
use pardosa.Prelude.Bytes.{
  Bytes, IsBytes, from_le_bytes, to_le_bytes, from_le_bytes-lt, to_le_bytes-from_le_bytes,
}
use pardosa.Encoding.Envelope.Header
use pardosa.Encoding.Envelope.Header.RoundTrip as HeaderTrip
use pardosa.Encoding.Envelope.{EventEnvelope, decode}
use pardosa.Encoding.Envelope.RoundTrip.{laid_out, decode-laid_out, take-laid_out}

-- An input with a header and four more bytes has the layout of an envelope.
input-laid_out :
    (buf : Bytes) {h : Header.EnvelopeHeader} {m : ℕ}
    → IsBytes buf
    → Header.decode buf ≡ ok (h, m)
    → 85 ≤ length buf
    → buf ≡ laid_out h (from_le_bytes (take 4 (drop 81 buf))) (drop 85 buf)
input-laid_out buf {h} {m} b e l =
    let (s, _, _, front) = HeaderTrip.decode_canonical buf e in
    let word = take 4 (drop 81 buf) in
    let word_len : length word ≡ 4 =
      length-take 4 (drop 81 buf) (omega (arith, length-drop 81 buf)) in
    let word_bytes =
      All-take (λ (x : ℕ). x < 256) 4 (drop 81 buf) (All-drop (λ (x : ℕ). x < 256) 81 buf b) in
    let back : to_le_bytes 4 (from_le_bytes word) ≡ word =
      ap (λ (w : ℕ). to_le_bytes w (from_le_bytes word)) (sym word_len)
      ∙ to_le_bytes-from_le_bytes word word_bytes in
    sym (
      rw (front, back)
        (ap (λ (r : Bytes). take 81 buf ++ (word ++ r)) (sym (drop-drop 81 4 buf))
          ∙ ap (λ (r : Bytes). take 81 buf ++ r) (take-append-drop 4 (drop 81 buf))
          ∙ take-append-drop 81 buf))

-- An accepted input is longer than the fixed part.
decode-eq-ok_long :
    (buf : Bytes) {e : EventEnvelope} {n : ℕ}
    → decode buf ≡ ok (e, n)
    → (h : Header.EnvelopeHeader) × (Header.decode buf ≡ ok (h, 81)) × (85 ≤ length buf)
unfolding decode
decode-eq-ok_long buf e =
    let ((h, m), head, rest) = >>=-eq-ok (Header.decode buf) _ e in
    let at_81 : m ≡ 81 = (HeaderTrip.decode_canonical buf head).1 in
    let (_, fits, _) = >>=-eq-ok (refuse_if (ltb (length buf) (m + 4)) _) _ rest in
    let enough = ltb-false→le (length buf) (m + 4) (refuse_if-eq-ok _ _ fits) in
    (h, head ∙ ap (λ (k : ℕ). ok (h, k)) at_81, omega arith)

word_bound :
    (buf : Bytes) → IsBytes buf → 85 ≤ length buf → from_le_bytes (take 4 (drop 81 buf)) ≤ u32_max
word_bound buf b l =
    let word_bytes =
      All-take (λ (x : ℕ). x < 256) 4 (drop 81 buf) (All-drop (λ (x : ℕ). x < 256) 81 buf b) in
    let bound = from_le_bytes-lt (take 4 (drop 81 buf)) word_bytes in
    let four : length (take 4 (drop 81 buf)) ≡ 4 =
      length-take 4 (drop 81 buf) (omega (arith, length-drop 81 buf)) in
    let below : from_le_bytes (take 4 (drop 81 buf)) < 256 ^ 4 = rw four at bound in omega arith

-- What `decode` accepts is the canonical encoding of what it returns, within the input.
pub decode_canonical :
    (buf : Bytes) {e : EventEnvelope} {n : ℕ}
    → IsBytes buf
    → decode buf ≡ ok (e, n)
    → Header.IsSized e.header
      × (n ≡ 85 + length e.payload)
      × (n ≤ length buf)
      × (laid_out e.header (length e.payload) e.payload ≡ take n buf)
decode_canonical buf {e} {n} b r =
    let (h, head, long) = decode-eq-ok_long buf r in
    let (s, _, _, _) = HeaderTrip.decode_canonical buf head in
    let len = from_le_bytes (take 4 (drop 81 buf)) in
    let tail = drop 85 buf in
    let layout : buf ≡ laid_out h len tail = input-laid_out buf b head long in
    let tail_len : length tail ≡ length buf - 85 = length-drop 85 buf in
    let computed =
      sym (decode-laid_out h len tail s (word_bound buf b long)) ∙ ap decode (sym layout) ∙ r in
    elim (Bool-cases (ltb (length tail) len)) [
      | inl short ↦ absurd (cc (rw short at computed))
      | inr enough ↦
          let fits = ltb-false→le (length tail) len enough in
          let x : EventEnvelope = record { header = h; payload = take len tail } in
          let e_eq : e ≡ x = cc (rw enough at computed) in
          let n_eq : n ≡ 85 + len = cc (rw enough at computed) in
          let h_eq : e.header ≡ h = ap (λ (y : EventEnvelope). y.header) e_eq in
          let p_eq : e.payload ≡ take len tail = ap (λ (y : EventEnvelope). y.payload) e_eq in
          let plen : length e.payload ≡ len = ap length p_eq ∙ length-take len tail fits in
          (
            subst Header.IsSized (sym h_eq) s,
            omega arith,
            omega arith,
            rw (plen, h_eq, p_eq, n_eq)
                (sym (take-laid_out h len len tail s) ∙ ap (take (85 + len)) (sym layout)),
          )
    ]
