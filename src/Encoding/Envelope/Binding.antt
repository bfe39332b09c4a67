-- ===== src/Encoding/Envelope/Binding.antt =====
-- The commitment of an envelope binds every field (crates/pardosa/src/encoding.rs).
use pardosa.Prelude.Bytes.{Bytes, bytes_eq, bytes_eq_iff}
use pardosa.Prelude.{
  ◌≡◌, sym, ap, ◌∙◌, ◌≢◌, ◌⊎◌, inl, inr, false≢true, [], ◌++◌, Bool-cases, drop, drop-append,
}
use pardosa.Encoding.Envelope.Header
use pardosa.Encoding.Envelope.Header.RoundTrip as HeaderTrip
use pardosa.Encoding.Envelope.{
  EventEnvelope, committed_bytes, compute_envelope_commitment, commitment,
}

committed_bytes-encode :
    (h : Header.EnvelopeHeader) (payload : Bytes)
    → committed_bytes h payload ≡ Header.encode h [] ++ payload
unfolding committed_bytes
committed_bytes-encode h payload = sym (HeaderTrip.encode_right h payload)

-- The hashed bytes determine header and payload.
committed_bytes-injective :
    (a b : EventEnvelope)
    → Header.IsSized a.header
    → Header.IsSized b.header
    → committed_bytes a.header a.payload ≡ committed_bytes b.header b.payload
    → a ≡ b
committed_bytes-injective a b sa sb h =
    let same : Header.encode a.header [] ++ a.payload ≡ Header.encode b.header [] ++ b.payload =
      sym (committed_bytes-encode a.header a.payload)
      ∙ h
      ∙ committed_bytes-encode b.header b.payload in
    let header : a.header ≡ b.header = cc (
      HeaderTrip.decode-encode a.header a.payload sa,
      HeaderTrip.decode-encode b.header b.payload sb,
      ap Header.decode same,
    ) in
    let payload : a.payload ≡ b.payload =
      sym (
        drop-append 81 (Header.encode a.header []) a.payload (HeaderTrip.length-encode a.header sa))
      ∙ ap (drop 81) same
      ∙ drop-append 81 (Header.encode b.header []) b.payload
          (HeaderTrip.length-encode b.header sb) in
    λ i. record { header = header i; payload = payload i }

-- Two inputs of a hash function with one digest.
pub record Collision (hash : Bytes → Bytes) : Type 0 where
  pub left : Bytes
  pub right : Bytes
  pub differ : left ≢ right
  pub same : hash left ≡ hash right

-- Two envelopes with one commitment are the same in every field of the header and in the payload,
-- or they exhibit a collision of the hash function.
pub commitment_binding :
    (blake3 : Bytes → Bytes) (a b : EventEnvelope)
    → Header.IsSized a.header
    → Header.IsSized b.header
    → commitment blake3 a ≡ commitment blake3 b
    → (a ≡ b) ⊎ Collision blake3
unfolding commitment compute_envelope_commitment
commitment_binding blake3 a b sa sb h =
    let x = committed_bytes a.header a.payload in
    let y = committed_bytes b.header b.payload in
    elim (Bool-cases (bytes_eq x y)) [
      | inl same ↦ inl (committed_bytes-injective a b sa sb ((bytes_eq_iff x y).0 same))
      | inr differ ↦ inr (record {
        left = x;
        right = y;
        differ = λ e. false≢true (sym differ ∙ (bytes_eq_iff x y).1 e);
        same = h;
      })
    ]
