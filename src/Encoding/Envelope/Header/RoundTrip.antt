-- ===== src/Encoding/Envelope/Header/RoundTrip.antt =====
-- Decoding inverts encoding for the 81-byte header, in both directions.
use pardosa.Failure.{ok, err, truncated_header, ◌>>=◌, >>=-eq-ok}
use pardosa.Prelude.{
  length, [], Bool, ◌≡◌, arith, ◌++◌, append_assoc, length-append, ◌∷◌, drop, true, drop_next,
  false, ltb, refl, take_field, ℕ, ◌<◌, ◌≤◌, take, lt→ltb, slice, head_or, length-take, subst,
  length-drop, take-add, sym, take_one, ap, ◌∙◌, Bool-cases, inl, inr, ltb-false→le,
}
use pardosa.Prelude.Bytes.{Bytes}
use pardosa.Encoding.Envelope.Header.{
  EnvelopeHeader, IsSized, encode, decode, decode_detached, u8_from,
}

-- `encode` appends.
pub encode-append : (h : EnvelopeHeader) (buf : Bytes) → encode h buf ≡ buf ++ encode h []
unfolding encode
encode-append h buf = simp append_assoc

-- The header's bytes, bracketed to the right, with what follows them.
pub encode_right :
    (h : EnvelopeHeader) (rest : Bytes)
    → encode h [] ++ rest
      ≡ h.event_id
        ++ (h.fiber_id
            ++ ((u8_from h.detached ∷ []) ++ (h.precursor ++ (h.precursor_hash ++ rest))))
unfolding encode
encode_right h rest = simp append_assoc

pub length-encode : (h : EnvelopeHeader) → IsSized h → length (encode h []) ≡ 81
unfolding encode
length-encode h s = omega (
  arith,
  s,
  length-append {0} (((h.event_id ++ h.fiber_id) ++ (u8_from h.detached ∷ [])) ++ h.precursor)
      h.precursor_hash,
  length-append {0} ((h.event_id ++ h.fiber_id) ++ (u8_from h.detached ∷ [])) h.precursor,
  length-append {0} (h.event_id ++ h.fiber_id) (u8_from h.detached ∷ []),
  length-append {0} h.event_id h.fiber_id,
)

decode_detached-u8_from : (b : Bool) → decode_detached (u8_from b) ≡ ok b
unfolding decode_detached
decode_detached-u8_from true = refl
decode_detached-u8_from false = refl

pub decode-encode :
    (h : EnvelopeHeader) (rest : Bytes) → IsSized h → decode (encode h [] ++ rest) ≡ ok (h, 81)
unfolding decode
decode-encode h rest s =
    let bs = encode h [] ++ rest in
    let r49 = h.precursor_hash ++ rest in
    let r33 = h.precursor ++ r49 in
    let r32 : Bytes = (u8_from h.detached ∷ []) ++ r33 in
    let d0 = encode_right h rest in
    let d16 = drop_next 0 16 bs h.event_id (h.fiber_id ++ r32) d0 s.event_id in
    let d32 = drop_next 16 16 bs h.fiber_id r32 d16 s.fiber_id in
    let d33 = drop_next 32 1 bs (u8_from h.detached ∷ []) r33 d32 refl in
    let d49 = drop_next 33 16 bs h.precursor r49 d33 s.precursor in
    let enough : ltb (length bs) 81 ≡ false =
      ground (arith, length-append {0} (encode h []) rest, length-encode h s) in
    rw (enough, d32, decode_detached-u8_from h.detached)
      (rw
        (
          take_field 0 16 bs h.event_id (h.fiber_id ++ r32) d0 s.event_id,
          take_field 16 16 bs h.fiber_id r32 d16 s.fiber_id,
          take_field 33 16 bs h.precursor r49 d33 s.precursor,
          take_field 49 32 bs h.precursor_hash rest d49 s.precursor_hash,
        )
        refl)

-- The fields at their offsets.
abbrev at_offsets : Bytes → Bool → EnvelopeHeader
at_offsets buf b = record {
  event_id = slice buf 0 16;
  fiber_id = slice buf 16 32;
  detached = b;
  precursor = slice buf 33 49;
  precursor_hash = slice buf 49 81;
}

decode_detached-eq-ok : (val : ℕ) {b : Bool} → decode_detached val ≡ ok b → val ≡ u8_from b
unfolding decode_detached
decode_detached-eq-ok val h = ground arith

decode-eq-ok :
    (buf : Bytes) {h : EnvelopeHeader} {n : ℕ}
    → decode buf ≡ ok (h, n)
    → (81 ≤ length buf)
      × (head_or (drop 32 buf) 0 ≡ u8_from h.detached)
      × (h ≡ at_offsets buf h.detached)
      × (n ≡ 81)
unfolding decode
decode-eq-ok buf {h} {n} e = elim (Bool-cases (ltb (length buf) 81)) [
  | inl short ↦ absurd (cc (rw short at e))
  | inr enough ↦
      let rest : (decode_detached (head_or (drop 32 buf) 0) >>= λ d. ok (at_offsets buf d, 81))
          ≡ ok (h, n) =
        rw enough at e in
      let (b, val, same) = >>=-eq-ok (decode_detached (head_or (drop 32 buf) 0)) _ rest in
      let fields : at_offsets buf b ≡ h = cc same in
      let flag : b ≡ h.detached = ap (λ (k : EnvelopeHeader). k.detached) fields in
      (
        ltb-false→le (length buf) 81 enough,
        decode_detached-eq-ok _ val ∙ ap u8_from flag,
        sym fields ∙ ap (at_offsets buf) flag,
        cc same,
      )
]

at_offsets-IsSized : (buf : Bytes) (b : Bool) → 81 ≤ length buf → IsSized (at_offsets buf b)
at_offsets-IsSized buf b h = record {
  event_id = length-take 16 (drop 0 buf) (omega arith);
  fiber_id = length-take 16 (drop 16 buf) (omega (arith, length-drop 16 buf));
  precursor = length-take 16 (drop 33 buf) (omega (arith, length-drop 33 buf));
  precursor_hash = length-take 32 (drop 49 buf) (omega (arith, length-drop 49 buf));
}

encode-at_offsets :
    (buf : Bytes) (b : Bool)
    → 81 ≤ length buf
    → head_or (drop 32 buf) 0 ≡ u8_from b
    → encode (at_offsets buf b) [] ≡ take 81 buf
unfolding encode
encode-at_offsets buf b h e = rw (
  take-add 49 32 buf,
  take-add 33 16 buf,
  take-add 32 1 buf,
  take-add 16 16 buf,
  take_one (drop 32 buf) 0 (omega (arith, length-drop 32 buf)),
  e,
)

-- What `decode` accepts is sized, and was written by `encode`.
pub decode_canonical :
    (buf : Bytes) {h : EnvelopeHeader} {n : ℕ}
    → decode buf ≡ ok (h, n)
    → IsSized h × (n ≡ 81) × (81 ≤ length buf) × (encode h [] ≡ take 81 buf)
decode_canonical buf {h} e =
    let (l, d, fields, n_eq) = decode-eq-ok buf e in
    (
      subst IsSized (sym fields) (at_offsets-IsSized buf h.detached l),
      n_eq,
      l,
      ap (λ (k : EnvelopeHeader). encode k []) fields ∙ encode-at_offsets buf h.detached l d,
    )

-- Fewer than 81 bytes are refused, whatever they are.
pub decode_short :
    (buf : Bytes) → length buf < 81 → decode buf ≡ err (truncated_header 81 (length buf))
unfolding decode
decode_short buf h = rw (lt→ltb (length buf) 81 h)
