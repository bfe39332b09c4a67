-- ===== src/Container.antt =====
-- The container file of crates/pardosa/src/file.rs: the 12-byte header, the frames with their
-- checksums, and the scan that recovers the frames of a file.
pub mod Frame
pub mod Scan
use pardosa.Failure.{
  Result, ◌>>=◌, ◌>>◌, refuse_if, DecodeError, ok, invalid_magic, unsupported_format_version,
  truncated_header,
}
use pardosa.Prelude.{
  ℕ, ◌≡◌, refl, not, [], ◌∷◌, ◌++◌, ltb, ◌==◌, length, take, slice, ◌+◌, arith, ltb-eq-false,
}
use pardosa.Prelude.Bytes.{Bytes, bytes_eq, to_le_bytes, from_le_bytes}

-- `CONTAINER_MAGIC` and `CONTAINER_FORMAT_VERSION`.
abbrev pub container_magic : Bytes
container_magic = 0x50 ∷ 0x41 ∷ 0x52 ∷ 0x44 ∷ 0x4f ∷ 0x53 ∷ 0x41 ∷ 0x01 ∷ []

abbrev pub container_format_version : ℕ
container_format_version = 1

pub record ContainerHeader : Type 0 where
  pub format_version : ℕ

-- `ContainerHeader::new`.
unfoldable pub new_header : ContainerHeader
new_header = record { format_version = container_format_version }

-- `ContainerHeader::to_bytes`, and `encode`, which appends them to `buf`.
unfoldable pub to_bytes : ContainerHeader → Bytes
to_bytes h = container_magic ++ to_le_bytes 4 h.format_version

unfoldable pub encode_header : ContainerHeader → Bytes → Bytes
encode_header h buf = buf ++ to_bytes h

-- `ContainerHeader::decode`.
unfoldable pub decode_header : Bytes → Result DecodeError (ContainerHeader × ℕ)
decode_header buf = do
  refuse_if (ltb (length buf) 8) (truncated_header 12 (length buf))
  refuse_if (not (bytes_eq (take 8 buf) container_magic)) invalid_magic
  refuse_if (ltb (length buf) 12) (truncated_header 12 (length buf))
  let format_version = from_le_bytes (slice buf 8 12)
  refuse_if (not (format_version == container_format_version))
      (unsupported_format_version format_version)
  ok (record { format_version = format_version }, 12)

pub header-length : length (to_bytes new_header) ≡ 12
unfolding to_bytes new_header to_le_bytes
header-length = refl

-- A new header is read back, whatever follows it.
pub decode_header-new :
    (rest : Bytes) → decode_header (to_bytes new_header ++ rest) ≡ ok (new_header, 12)
unfolding decode_header to_bytes new_header to_le_bytes from_le_bytes bytes_eq
decode_header-new rest =
    let bs : Bytes = container_magic ++ (1 ∷ 0 ∷ 0 ∷ 0 ∷ rest) in
    rw (ltb-eq-false (length bs) 8 (omega arith), ltb-eq-false (length bs) 12 (omega arith)) refl
