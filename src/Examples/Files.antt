-- ===== src/Examples/Files.antt =====
-- Containers at concrete inputs.
use pardosa.Container.{to_bytes, new_header}
use pardosa.Container.Scan.{ContainerScan, read_container_frames, new_commitment, clean}
use pardosa.Container.Frame.{try_encode_payload, EncodeError}
use pardosa.Prelude.Bytes.{Bytes, to_le_bytes}
use pardosa.Failure.{Result, OperationFailure, ok, err, truncated_payload}
use pardosa.Prelude.{ℕ, ◌+◌, ◌≡◌, some, List, [], ◌∷◌, ◌++◌, arith, length, take}
use pardosa.Container.Frame
use pardosa.Container.Frame.RoundTrip.{frame_bytes, decode_torn, decode-frame_bytes}
use pardosa.Container.Scan.Crash.{read-concat_frames, concat_frames, rolled, tail_after}
use pardosa.Container.Scan.Total.{read_container_frames_total}
use pardosa.Examples.Data.{toy_crc, toy_crc-le}

-- A file of two frames, behind which three bytes of a third are left.
read-concat_frames_example :
    let ps : List Bytes = (1 ∷ []) ∷ (2 ∷ 3 ∷ []) ∷ [] in
    let valid_len = 12 + length (concat_frames toy_crc ps) in
    read_container_frames toy_crc
      (to_bytes new_header ++ (concat_frames toy_crc ps ++ take 3 (frame_bytes toy_crc (4 ∷ []))))
    ≡ some (
        ok (record {
          header = new_header;
          frames = ps;
          rolling = rolled toy_crc new_commitment ps;
          tail_state = tail_after clean valid_len 3;
          valid_len = valid_len;
        }))
unfolding to_le_bytes
read-concat_frames_example =
    read-concat_frames toy_crc toy_crc-le ((1 ∷ []) ∷ (2 ∷ 3 ∷ []) ∷ []) (4 ∷ []) 3
      (omega arith, (omega arith, tt)) (omega arith) (omega arith)

read_container_frames_total_example :
    (r : Result OperationFailure ContainerScan) × (read_container_frames toy_crc (0 ∷ []) ≡ some r)
read_container_frames_total_example = read_container_frames_total toy_crc (0 ∷ [])

decode_torn_example :
    (expected : ℕ) × (Frame.decode toy_crc (take 5 (frame_bytes toy_crc (4 ∷ [])))
      ≡ err (truncated_payload expected 5))
unfolding to_le_bytes
decode_torn_example = decode_torn toy_crc (4 ∷ []) 5 (omega arith) (omega arith)

decode-frame_bytes_example :
    Frame.decode toy_crc (frame_bytes toy_crc (4 ∷ []) ++ (8 ∷ []))
    ≡ ok (4 ∷ [], length (frame_bytes toy_crc (4 ∷ [])))
decode-frame_bytes_example = decode-frame_bytes toy_crc toy_crc-le (4 ∷ []) (8 ∷ []) (omega arith)
