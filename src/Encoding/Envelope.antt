-- ===== src/Encoding/Envelope.antt =====
-- The event envelope of crates/pardosa/src/encoding.rs: the header and the length-prefixed payload,
-- the bound on its wire size, the commitment, and the constructors of a fiber's first and later
-- events. BLAKE3 is a parameter; `Hasher::update` of several parts hashes what they make together.
pub mod Header
pub mod RoundTrip
pub mod Canonical
pub mod Truncation
pub mod Binding
use pardosa.Prelude.Words.{u32_max, and_then, filter_some, checked_add, u32_try_from}
use pardosa.Prelude.{
  ℕ, Option, ◌++◌, Bool, if◌then◌else◌, ◌∷◌, false, true, leb, ◌-◌, [], some, none, length, ltb,
  ◌+◌, ◌||◌, slice,
}
use pardosa.Failure.{
  DecodeError, Result, too_long, empty, ok_or, ◌>>=◌, ◌>>◌, refuse_if, ok, truncated_header,
  truncated_payload,
}
use pardosa.Prelude.Bytes.{Bytes, to_le_bytes, bytes_eq, from_le_bytes}
use pardosa.Encoding.Envelope.Header
use Header.{EnvelopeHeader}

-- `EventEnvelope`, and the borrowed `EventEnvelopeRef` with the same fields.
pub record EventEnvelope : Type 0 where
  pub header : EnvelopeHeader
  pub payload : Bytes

-- `EventEnvelopeRef::decode` and `EventEnvelope::decode`, which copies its payload.
unfoldable pub decode : Bytes → Result DecodeError (EventEnvelope × ℕ)
decode buf = do
  (header, header_consumed) ← Header.decode buf
  refuse_if (ltb (length buf) (header_consumed + 4))
      (truncated_header (header_consumed + 4) (length buf))
  let payload_len = from_le_bytes (slice buf header_consumed (header_consumed + 4))
  total_consumed ←
      ok_or (and_then (checked_add header_consumed 4) (λ h. checked_add h payload_len))
        (DecodeError.value_constraint_violated too_long)
  refuse_if (ltb (length buf) total_consumed) (truncated_payload total_consumed (length buf))
  ok (
    record { header = header; payload = slice buf (header_consumed + 4) total_consumed },
    total_consumed,
  )

abbrev pub too_long_error : DecodeError
too_long_error = DecodeError.value_constraint_violated too_long

abbrev pub empty_error : DecodeError
empty_error = DecodeError.value_constraint_violated empty

-- `envelope_wire_len`.
unfoldable pub envelope_wire_len : ℕ → ℕ → Result DecodeError ℕ
envelope_wire_len payload_len limit =
    ok_or (and_then (filter_some (λ len. leb len limit) (checked_add payload_len 85)) u32_try_from)
      too_long_error

pub record WireEnvelope : Type 0 where
  pub envelope : EventEnvelope
  pub wire_len : ℕ

-- `WireEnvelope::bounded`; `try_from` is the case of the limit `u32::MAX`.
unfoldable pub bounded : EventEnvelope → ℕ → Result DecodeError WireEnvelope
bounded envelope limit = do
  wire_len ← envelope_wire_len (length envelope.payload) limit
  ok (record { envelope = envelope; wire_len = wire_len })

-- `WireEnvelope::encode`, which appends to `buf`.
unfoldable pub encode_wire : WireEnvelope → Bytes → Bytes
encode_wire w buf =
    (Header.encode w.envelope.header buf ++ to_le_bytes 4 (w.wire_len - 85)) ++ w.envelope.payload

-- `EventEnvelope::encode_bounded` and `EventEnvelope::encode`: the new contents of `buf`.
unfoldable pub encode_bounded : EventEnvelope → Bytes → ℕ → Result DecodeError Bytes
encode_bounded envelope buf limit = do w ← bounded envelope limit; ok (encode_wire w buf)

unfoldable pub encode : EventEnvelope → Bytes → Result DecodeError Bytes
unfolding encode_bounded
encode envelope buf = encode_bounded envelope buf u32_max

-- What `compute_envelope_commitment` feeds to the hasher.
unfoldable pub committed_bytes : EnvelopeHeader → Bytes → Bytes
committed_bytes h payload =
    h.event_id
    ++ (h.fiber_id
        ++ ((Header.u8_from h.detached ∷ []) ++ (h.precursor ++ (h.precursor_hash ++ payload))))

module _ (blake3 : Bytes → Bytes) where
  -- `compute_envelope_commitment`, and the method `commitment`.
  unfoldable pub compute_envelope_commitment : EnvelopeHeader → Bytes → Bytes
  unfolding committed_bytes
  compute_envelope_commitment header payload = blake3 (committed_bytes header payload)

  unfoldable pub commitment : EventEnvelope → Bytes
  commitment envelope = compute_envelope_commitment envelope.header envelope.payload

-- `EventEnvelope::genesis`.
unfoldable pub genesis : Bytes → Bytes → Bytes → Result DecodeError EventEnvelope
genesis event_id fiber_id payload = do
  refuse_if (bytes_eq event_id Header.zero_id) empty_error
  wire_len ← envelope_wire_len (length payload) u32_max
  ok (record {
    header = record {
      event_id = event_id;
      fiber_id = fiber_id;
      detached = false;
      precursor = Header.zero_id;
      precursor_hash = Header.zero_hash;
    };
    payload = payload;
  })

module _ (blake3 : Bytes → Bytes) where
  -- `EventEnvelope::chain` and `EventEnvelope::chain_detached`, which differ in the flag.
  unfoldable pub chain_as : Bool → EventEnvelope → Bytes → Bytes → Result DecodeError EventEnvelope
  chain_as detached predecessor event_id payload = do
    refuse_if
        (bytes_eq event_id Header.zero_id || bytes_eq predecessor.header.event_id Header.zero_id)
        empty_error
    wire_len ← envelope_wire_len (length payload) u32_max
    ok (record {
      header = record {
        event_id = event_id;
        fiber_id = predecessor.header.fiber_id;
        detached = detached;
        precursor = predecessor.header.event_id;
        precursor_hash = commitment blake3 predecessor;
      };
      payload = payload;
    })

  unfoldable pub chain : EventEnvelope → Bytes → Bytes → Result DecodeError EventEnvelope
  unfolding chain_as
  chain = chain_as false

  unfoldable pub chain_detached : EventEnvelope → Bytes → Bytes → Result DecodeError EventEnvelope
  unfolding chain_as
  chain_detached = chain_as true
