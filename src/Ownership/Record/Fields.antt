-- ===== src/Ownership/Record/Fields.antt =====
-- The fields of a buffer, one behind the other.
use pardosa.Prelude.Bytes.{
  Bytes, to_le_bytes, from_le_bytes, length-to_le_bytes, from_le_bytes-to_le_bytes,
}
use pardosa.Prelude.{
  ℕ, ◌+◌, ◌^◌, ◌<◌, ◌≡◌, ap, ◌∙◌, ◌++◌, arith, length, take, drop, length-append, length-drop,
  drop_next, take_field,
}

-- A word that is the next field of a buffer is read back.
pub word_at :
    (i w : ℕ) (v : ℕ) (bs rest : Bytes)
    → drop i bs ≡ to_le_bytes w v ++ rest
    → v < 256 ^ w
    → from_le_bytes (take w (drop i bs)) ≡ v
word_at i w v bs rest d h =
    ap from_le_bytes (take_field i w bs (to_le_bytes w v) rest d (length-to_le_bytes w v))
    ∙ from_le_bytes-to_le_bytes w v h

pub after_word :
    (i w : ℕ) (v : ℕ) (bs rest : Bytes)
    → drop i bs ≡ to_le_bytes w v ++ rest
    → drop (i + w) bs ≡ rest
after_word i w v bs rest d = drop_next i w bs (to_le_bytes w v) rest d (length-to_le_bytes w v)

-- So many bytes are there.
pub length-field :
    (i n : ℕ) (bs field rest : Bytes)
    → drop i bs ≡ field ++ rest
    → length field ≡ n
    → 0 < n
    → length bs ≡ i + n + length rest
length-field i n bs field rest d l pos =
    omega (arith, length-drop i bs, ap length d, length-append {0} field rest)
