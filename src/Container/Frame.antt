-- ===== src/Container/Frame.antt =====
-- One frame of a container: length, payload and CRC32C (`ContainerFrame` of
-- crates/pardosa/src/file.rs). The checksum function is a parameter.
pub mod RoundTrip
use pardosa.Prelude.Words.{u32_max, and_then, checked_add, u32_try_from}
use pardosa.Failure.{
  Result, ◌>>=◌, ◌>>◌, refuse_if, ok_or, DecodeError, ok, too_long, truncated_payload,
}
use pardosa.Prelude.{ℕ, ◌+◌, ◌-◌, not, ◌++◌, ltb, ◌==◌, length, take, slice, String}
use pardosa.Prelude.Bytes.{Bytes, to_le_bytes, from_le_bytes}

pub record ContainerFrame : Type 0 where
  pub payload : Bytes
  pub checksum : ℕ

-- `EncodeError` of crates/pardosa/src/encoding.rs.
pub data EncodeError : Type 0 where
  length_exceeded : (length max : ℕ) → EncodeError
  empty_non_empty_string : EncodeError
  invalid_timestamp_sentinel : EncodeError
  item_count_exceeded : (count max : ℕ) → EncodeError
  depth_exceeded : (depth max : ℕ) → EncodeError
  checksum_mismatch : (computed recorded : ℕ) → EncodeError
  custom : String → EncodeError

module _ (crc32c : Bytes → ℕ) where
  -- `ContainerFrame::new`.
  unfoldable pub new : Bytes → ContainerFrame
  new payload = record { payload = payload; checksum = crc32c payload }

  -- `ContainerFrame::try_encode_payload`, and `encode_payload`, which calls it.
  unfoldable pub try_encode_payload : Bytes → Bytes → Result EncodeError Bytes
  try_encode_payload payload buf = do
    len ←
        ok_or (u32_try_from (length payload)) (EncodeError.length_exceeded (length payload) u32_max)
    ok (((buf ++ to_le_bytes 4 len) ++ payload) ++ to_le_bytes 4 (crc32c payload))

  -- `ContainerFrame::encode`.
  unfoldable pub encode : ContainerFrame → Bytes → Result EncodeError Bytes
  encode f buf = do
    refuse_if (not (f.checksum == crc32c f.payload))
        (EncodeError.checksum_mismatch (crc32c f.payload) f.checksum)
    try_encode_payload f.payload buf

  -- `ContainerFrame::decode`.
  unfoldable pub decode : Bytes → Result DecodeError (Bytes × ℕ)
  decode buf = do
    refuse_if (ltb (length buf) 4) (truncated_payload 4 (length buf))
    let payload_len = from_le_bytes (take 4 buf)
    total_frame_len ←
        ok_or (and_then (checked_add 4 payload_len) (λ l. checked_add l 4))
          (DecodeError.value_constraint_violated too_long)
    refuse_if (ltb (length buf) (4 + payload_len)) (truncated_payload total_frame_len (length buf))
    refuse_if (ltb (length buf) total_frame_len) (truncated_payload total_frame_len (length buf))
    let payload = slice buf 4 (4 + payload_len)
    let recorded_checksum = from_le_bytes (slice buf (4 + payload_len) (4 + payload_len + 4))
    refuse_if (not (recorded_checksum == crc32c payload))
        (DecodeError.checksum_mismatch (crc32c payload) recorded_checksum)
    ok (payload, total_frame_len)

  -- `ContainerFrame::decode_frame`.
  unfoldable pub decode_frame : Bytes → Result DecodeError (ContainerFrame × ℕ)
  decode_frame buf = do
    (payload, consumed) ← decode buf
    ok (
      record { payload = payload; checksum = from_le_bytes (slice buf (consumed - 4) consumed) },
      consumed,
    )
