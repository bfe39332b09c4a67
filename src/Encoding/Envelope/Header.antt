-- ===== src/Encoding/Envelope/Header.antt =====
-- The fixed 81-byte header of an event envelope (crates/pardosa/src/encoding.rs).
pub mod RoundTrip
use pardosa.Prelude.{
  ℕ, ◌≡◌, Bool, true, false, [], ◌∷◌, ◌++◌, ltb, if◌then◌else◌, length, slice, drop, replicate,
  head_or, ◌==◌,
}
use pardosa.Prelude.Bytes.{Bytes}
use pardosa.Failure.{
  Result, ok, err, ◌>>=◌, ◌>>◌, refuse_if, DecodeError, truncated_header,
  invalid_boolean_discriminant,
}

pub record EnvelopeHeader : Type 0 where
  pub event_id : Bytes
  pub fiber_id : Bytes
  pub detached : Bool
  pub precursor : Bytes
  pub precursor_hash : Bytes

-- What the types `[u8; 16]` and `[u8; 32]` of the fields say.
pub record IsSized (h : EnvelopeHeader) : Type 0 where
  pub event_id : length h.event_id ≡ 16
  pub fiber_id : length h.fiber_id ≡ 16
  pub precursor : length h.precursor ≡ 16
  pub precursor_hash : length h.precursor_hash ≡ 32

-- `[0u8; 16]` and `[0u8; 32]`.
unfoldable pub zero_id : Bytes
zero_id = replicate 16 0

unfoldable pub zero_hash : Bytes
zero_hash = replicate 32 0

-- `u8::from(bool)`.
abbrev pub u8_from : Bool → ℕ
u8_from true = 1
u8_from false = 0

-- `EnvelopeHeader::encode`, which appends to `buf`.
unfoldable pub encode : EnvelopeHeader → Bytes → Bytes
encode h buf =
    ((((buf ++ h.event_id) ++ h.fiber_id) ++ (u8_from h.detached ∷ [])) ++ h.precursor)
    ++ h.precursor_hash

-- The `match buf[32]` of `EnvelopeHeader::decode`.
unfoldable pub decode_detached : ℕ → Result DecodeError Bool
decode_detached val =
    if val == 0
    then ok false
    else if val == 1
    then ok true
    else err (invalid_boolean_discriminant val)

-- `EnvelopeHeader::decode`.
unfoldable pub decode : Bytes → Result DecodeError (EnvelopeHeader × ℕ)
unfolding decode_detached
decode buf = do
  refuse_if (ltb (length buf) 81) (truncated_header 81 (length buf))
  detached ← decode_detached (head_or (drop 32 buf) 0)
  ok (
    record {
      event_id = slice buf 0 16;
      fiber_id = slice buf 16 32;
      detached = detached;
      precursor = slice buf 33 49;
      precursor_hash = slice buf 49 81;
    },
    81,
  )
