-- ===== src/Examples/Data.antt =====
-- Concrete data, with toy functions in the place of the hash and of the checksum, and tests of
-- the constructors of envelopes.
use pardosa.Encoding.Envelope.RoundTrip.{encode_total, laid_out}
use pardosa.Encoding.Envelope.RoundTrip.{laid_out, encode_total}
use pardosa.Encoding.Envelope.{
  EventEnvelope, genesis, chain_detached, commitment, encode, envelope_wire_len,
}
use pardosa.Encoding.Envelope.Header.{zero_hash, EnvelopeHeader, zero_id, IsSized}
use pardosa.Prelude.Bytes.{Bytes, bytes_eq, IsBytes}
use pardosa.Prelude.Words.{u32_max, checked_add, u32_try_from}
use pardosa.Prelude.{
  ℕ, ◌%◌, ◌≤◌, ◌≡◌, refl, true, false, [], ◌∷◌, arith, length, replicate, Bool, ◌&&◌, ltb, ◌++◌,
  take,
}
use pardosa.Failure.{ok}

-- A hash of 32 bytes, and a checksum.
abbrev pub toy_hash : Bytes → Bytes
toy_hash bs = 1 ∷ take 31 (bs ++ replicate 31 0)

abbrev pub toy_crc : Bytes → ℕ
toy_crc bs = length bs % 256

pub toy_crc-le : (bs : Bytes) → toy_crc bs ≤ u32_max
toy_crc-le bs = omega arith

abbrev pub fiber_a : Bytes
fiber_a = replicate 16 7

abbrev pub id_one : Bytes
id_one = replicate 16 1

abbrev pub id_two : Bytes
id_two = replicate 16 2

abbrev pub first_header : EnvelopeHeader
first_header = record {
  event_id = id_one;
  fiber_id = fiber_a;
  detached = false;
  precursor = zero_id;
  precursor_hash = zero_hash;
}

abbrev pub first_event : EventEnvelope
first_event = record { header = first_header; payload = 5 ∷ 6 ∷ [] }

pub first_header-IsSized : IsSized first_header
unfolding zero_id zero_hash
first_header-IsSized = record {
  event_id = refl;
  fiber_id = refl;
  precursor = refl;
  precursor_hash = refl;
}

abbrev pub second_event : EventEnvelope
second_event = record {
  header = record {
    event_id = id_two;
    fiber_id = fiber_a;
    detached = true;
    precursor = id_one;
    precursor_hash = commitment toy_hash first_event;
  };
  payload = [];
}

-- The bytes of the first event.
abbrev pub first_bytes : Bytes
first_bytes = laid_out first_header 2 (5 ∷ 6 ∷ [])

pub first_encoded : encode first_event [] ≡ ok first_bytes
first_encoded = encode_total first_event []

genesis_one : genesis id_one fiber_a (5 ∷ 6 ∷ []) ≡ ok first_event
unfolding genesis zero_id zero_hash bytes_eq envelope_wire_len checked_add u32_try_from
genesis_one = refl

chained_two : chain_detached toy_hash first_event id_two [] ≡ ok second_event
unfolding chain_detached zero_id bytes_eq envelope_wire_len checked_add u32_try_from
chained_two = refl

-- A test for `IsBytes`.
abbrev pub all_below : Bytes → Bool
all_below [] = true
all_below (b ∷ bs) = ltb b 256 && all_below bs

pub all_below-IsBytes : (bs : Bytes) → all_below bs ≡ true → IsBytes bs
all_below-IsBytes [] h = tt
all_below-IsBytes (b ∷ bs) h = (ground (arith, h), all_below-IsBytes bs (ground (arith, h)))
