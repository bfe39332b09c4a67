-- ===== src/Container/Frame/RoundTrip.antt =====
-- What `ContainerFrame::decode` does on a frame, and on a frame that was cut short.
use pardosa.Prelude.Words.{
  u32_max, and_then, checked_add, checked_add-eq-some, u32_try_from-eq-some, u32_try_from-eq-none,
}
use pardosa.Failure.{ok, err, truncated_payload, DecodeError, ◌>>◌, refuse_if, Result}
use pardosa.Prelude.{
  ℕ, ◌+◌, ◌≤◌, ◌≡◌, sym, ap, ◌∙◌, inl, inr, some, ◌++◌, append_assoc, arith, ltb, leb, ◌==◌,
  if◌then◌else◌, ltb-eq-false, leb→le, leb-false→lt, Bool-cases, length, take, drop, length-append,
  take-append, drop-append, drop-drop, ◌-◌, ◌<◌, refl, Bool, not, ltb→lt, lt→ltb, ltb-false→le,
  ==_iff, take-append_add, length-take, [],
}
use pardosa.Prelude.Bytes.{
  Bytes, to_le_bytes, from_le_bytes, length-to_le_bytes, from_le_bytes-to_le_bytes,
}
use pardosa.Container.Frame.{decode, try_encode_payload, EncodeError}

module _ (crc32c : Bytes → ℕ) where
  -- The bytes of a frame.
  abbrev pub frame_bytes : Bytes → Bytes
  frame_bytes payload =
      to_le_bytes 4 (length payload) ++ (payload ++ to_le_bytes 4 (crc32c payload))

  pub length-frame_bytes : (payload : Bytes) → length (frame_bytes payload) ≡ 8 + length payload
  length-frame_bytes payload = omega (
    arith,
    length-append {0} (to_le_bytes 4 (length payload)) (payload ++ to_le_bytes 4 (crc32c payload)),
    length-append {0} payload (to_le_bytes 4 (crc32c payload)),
    length-to_le_bytes 4 (length payload),
    length-to_le_bytes 4 (crc32c payload),
  )

  checked_frame_len :
      (n : ℕ) → n ≤ u32_max → and_then (checked_add 4 n) (λ l. checked_add l 4) ≡ some (4 + n + 4)
  checked_frame_len n h =
      rw (checked_add-eq-some 4 n (omega arith)) (checked_add-eq-some (4 + n) 4 (omega arith))

  pub try_encode_payload_total :
      (payload buf : Bytes)
      → try_encode_payload crc32c payload buf ≡ (
          if leb (length payload) u32_max
          then ok (buf ++ frame_bytes payload)
          else err (EncodeError.length_exceeded (length payload) u32_max))
  unfolding try_encode_payload
  try_encode_payload_total payload buf = elim (Bool-cases (leb (length payload) u32_max)) [
    | inl fits ↦
        rw (u32_try_from-eq-some (length payload) (leb→le _ _ fits), fits) (simp append_assoc)
    | inr big ↦ rw (u32_try_from-eq-none (length payload) (leb-false→lt _ _ big), big)
  ]

  -- A payload that is encoded is short enough, and its frame is what comes out.
  pub try_encode_payload-eq-ok :
      (payload : Bytes) {frame : Bytes}
      → try_encode_payload crc32c payload [] ≡ ok frame
      → (length payload ≤ u32_max) × (frame ≡ frame_bytes payload)
  try_encode_payload-eq-ok payload {frame} h =
      let total = sym (try_encode_payload_total payload []) ∙ h in
      elim (Bool-cases (leb (length payload) u32_max)) [
        | inl fits ↦
            let whole : ◌≡◌ {A = Result EncodeError Bytes} (ok (frame_bytes payload)) (ok frame) =
              rw fits at total in
            (leb→le _ _ fits, cc whole)
        | inr big ↦
            let refused : ◌≡◌ {A = Result EncodeError Bytes}
                (err (EncodeError.length_exceeded (length payload) u32_max)) (ok frame) =
              rw big at total in
            absurd (cc refused)
      ]

  -- The two tests of the length of the input are one.
  length_tests :
      (n l : ℕ) (same : Bool) (r : Bytes × ℕ) (e : DecodeError)
      → (refuse_if (ltb (4 + l) (4 + n)) (truncated_payload (4 + n + 4) (4 + l))
          >> (refuse_if (ltb (4 + l) (4 + n + 4)) (truncated_payload (4 + n + 4) (4 + l))
              >> (refuse_if (not same) e >> ok r)))
        ≡ (if ltb l (n + 4)
            then err (truncated_payload (4 + n + 4) (4 + l))
            else if same
            then ok r
            else err e)
  length_tests n l same r e = elim (Bool-cases (ltb l (n + 4))) [
    | inl short ↦
        let l_lt = ltb→lt l (n + 4) short in
        let second = lt→ltb (4 + l) (4 + n + 4) (omega arith) in
        elim (Bool-cases (ltb (4 + l) (4 + n))) [
          | inl first ↦ rw (short, first) refl
          | inr first ↦ rw (short, first, second) refl
        ]
    | inr enough ↦
        let l_le = ltb-false→le l (n + 4) enough in
        let first = ltb-eq-false (4 + l) (4 + n) (omega arith) in
        let second = ltb-eq-false (4 + l) (4 + n + 4) (omega arith) in
        elim (Bool-cases same) [
          | inl good ↦ rw (enough, first, second, good) refl
          | inr bad ↦ rw (enough, first, second, bad) refl
        ]
  ]

  -- A length and whatever follows.
  decode-length :
      (n : ℕ) (tail : Bytes)
      → n ≤ u32_max
      → decode crc32c (to_le_bytes 4 n ++ tail) ≡ (
          if ltb (length tail) (n + 4)
          then err (truncated_payload (4 + n + 4) (4 + length tail))
          else if from_le_bytes (take 4 (drop n tail)) == crc32c (take n tail)
          then ok (take n tail, 4 + n + 4)
          else err (
              DecodeError.checksum_mismatch
                (crc32c (take n tail))
                (from_le_bytes (take 4 (drop n tail)))))
  unfolding decode
  decode-length n tail bound =
      let bs = to_le_bytes 4 n ++ tail in
      let word = length-to_le_bytes 4 n in
      let total : length bs ≡ 4 + length tail =
        omega (arith, length-append {0} (to_le_bytes 4 n) tail, word) in
      let len_eq : from_le_bytes (take 4 bs) ≡ n =
        ap from_le_bytes (take-append 4 (to_le_bytes 4 n) tail word)
        ∙ from_le_bytes-to_le_bytes 4 n (omega arith) in
      let d4 : drop 4 bs ≡ tail = drop-append 4 (to_le_bytes 4 n) tail word in
      let dn : drop (4 + n) bs ≡ drop n tail = sym (drop-drop 4 n bs) ∙ ap (drop n) d4 in
      let same_len : 4 + n - 4 ≡ n = omega arith in
      let four : 4 + n + 4 - (4 + n) ≡ 4 = omega arith in
      rw (total, ltb-eq-false (4 + length tail) 4 (omega arith), len_eq, checked_frame_len n bound)
        (rw (same_len, four, d4, dn) (length_tests n (length tail) _ _ _))

  -- A whole frame is read back, and just its bytes are consumed, whatever follows it.
  pub decode-frame_bytes :
      ((bs : Bytes) → crc32c bs ≤ u32_max)
      → (payload rest : Bytes) → length payload ≤ u32_max
      → decode crc32c (frame_bytes payload ++ rest) ≡ ok (payload, length (frame_bytes payload))
  decode-frame_bytes crc payload rest fits =
      let n = length payload in
      let sum = to_le_bytes 4 (crc32c payload) in
      let tail = payload ++ (sum ++ rest) in
      let sum_len = length-to_le_bytes 4 (crc32c payload) in
      let tail_len : length tail ≡ n + (4 + length rest) =
        omega
          (arith, length-append {0} payload (sum ++ rest), length-append {0} sum rest, sum_len) in
      let after : drop n tail ≡ sum ++ rest = drop-append n payload (sum ++ rest) refl in
      let recorded : from_le_bytes (take 4 (drop n tail)) ≡ crc32c payload =
        ap (λ (bs : Bytes). from_le_bytes (take 4 bs)) after
        ∙ ap from_le_bytes (take-append 4 sum rest sum_len)
        ∙ from_le_bytes-to_le_bytes 4 (crc32c payload) (omega (arith, crc payload)) in
      let layout : frame_bytes payload ++ rest ≡ to_le_bytes 4 n ++ tail = simp append_assoc in
      let whole : take n tail ≡ payload = take-append n payload (sum ++ rest) refl in
      let consumed : 4 + n + 4 ≡ length (frame_bytes payload) =
        omega (arith, length-frame_bytes payload) in
      rw layout (
        decode-length n tail fits
        ∙ rw
            (
              tail_len,
              ltb-eq-false (n + (4 + length rest)) (n + 4) (omega arith),
              recorded,
              whole,
              (==_iff (crc32c payload) (crc32c payload)).1 refl,
              consumed,
            )
            refl)

  torn_length :
      (payload : Bytes) (k : ℕ)
      → k < length (frame_bytes payload)
      → k < 4
      → decode crc32c (take k (frame_bytes payload)) ≡ err (truncated_payload 4 k)
  unfolding decode
  torn_length payload k lt short =
      let cut : length (take k (frame_bytes payload)) ≡ k =
        length-take k (frame_bytes payload) (omega arith) in
      rw (cut, lt→ltb k 4 short) refl

  torn_payload :
      (payload : Bytes) (k : ℕ)
      → length payload ≤ u32_max
      → k < length (frame_bytes payload)
      → 4 ≤ k
      → decode crc32c (take k (frame_bytes payload))
        ≡ err (truncated_payload (4 + length payload + 4) k)
  torn_payload payload k fits lt long =
      let n = length payload in
      let tail = payload ++ to_le_bytes 4 (crc32c payload) in
      let m = k - 4 in
      let split : k ≡ 4 + m = omega arith in
      let tail_len : length tail ≡ n + 4 = omega (
        arith,
        length-append {0} payload (to_le_bytes 4 (crc32c payload)),
        length-to_le_bytes 4 (crc32c payload),
      ) in
      let m_lt : m < n + 4 = omega (arith, length-frame_bytes payload) in
      let cut : length (take m tail) ≡ m = length-take m tail (omega arith) in
      ap (λ (j : ℕ). decode crc32c (take j (frame_bytes payload))) split
      ∙ ap (decode crc32c) (take-append_add 4 m (to_le_bytes 4 n) tail (length-to_le_bytes 4 n))
      ∙ decode-length n (take m tail) fits
      ∙ rw (cut, lt→ltb m (n + 4) m_lt, ← split) refl

  -- A frame that lost bytes at its end, or all of them, is refused as truncated.
  pub decode_torn :
      (payload : Bytes) (k : ℕ)
      → length payload ≤ u32_max
      → k < length (frame_bytes payload)
      → (expected : ℕ) × (decode crc32c (take k (frame_bytes payload))
          ≡ err (truncated_payload expected k))
  decode_torn payload k fits lt = elim (Bool-cases (ltb k 4)) [
    | inl no_length ↦ (4, torn_length payload k lt (ltb→lt k 4 no_length))
    | inr has_length ↦
        (4 + length payload + 4, torn_payload payload k fits lt (ltb-false→le k 4 has_length))
  ]
