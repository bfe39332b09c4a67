-- ===== src/Artefact/Precursor/Links.antt =====
-- What an admitted link is, and that the constructors of envelopes make admitted links.
use pardosa.Prelude.Bytes.{Bytes, bytes_eq, bytes_eq_iff}
use pardosa.Prelude.{
  ◌≡◌, ◌≢◌, ◌↔◌, Option, some, refl, sym, ◌∙◌, inl, inr, true, false, false≢true, none, arith,
  Bool-cases,
}
use pardosa.Failure.{ok, ◌>>=◌}
use pardosa.Encoding.Envelope.{EventEnvelope, commitment}
use pardosa.Encoding.Envelope.Header.{zero_id, zero_hash}
use pardosa.Artefact.Precursor.{classify, admit_precursor_link}

-- An event's link to its past, said without the tests: it begins its fiber with zeroes, or it names an
-- event of the same fiber that is found, with that event's commitment.
pub data Links (blake3 : Bytes → Bytes) (fiber_id : Bytes) (resolve : Bytes → Option EventEnvelope)
    (e : EventEnvelope) : Type 0 where
  first :
      e.header.fiber_id ≡ fiber_id
      → e.header.precursor ≡ zero_id
      → e.header.precursor_hash ≡ zero_hash
      → Links blake3 fiber_id resolve e
  later :
      e.header.fiber_id ≡ fiber_id
      → e.header.precursor ≢ zero_id
      → (p : EventEnvelope) → resolve e.header.precursor ≡ some p
      → p.header.event_id ≡ e.header.precursor
      → p.header.fiber_id ≡ fiber_id
      → e.header.precursor_hash ≡ commitment blake3 p
      → Links blake3 fiber_id resolve e

module _ (blake3 : Bytes → Bytes) (fiber_id : Bytes) (resolve : Bytes → Option EventEnvelope)
    (e : EventEnvelope) where
  Links-first :
      bytes_eq e.header.precursor zero_id ≡ true
      → (classify e >>= λ link. admit_precursor_link blake3 fiber_id link resolve) ≡ ok tt
      → Links blake3 fiber_id resolve e
  unfolding classify admit_precursor_link
  Links-first z h =
      first (ground (arith, bytes_eq_iff e.header.fiber_id fiber_id))
        ((bytes_eq_iff e.header.precursor zero_id).0 z)
        (ground (arith, bytes_eq_iff e.header.precursor_hash zero_hash))

  Links-later :
      bytes_eq e.header.precursor zero_id ≡ false
      → (o : Option EventEnvelope) → resolve e.header.precursor ≡ o
      → (classify e >>= λ link. admit_precursor_link blake3 fiber_id link resolve) ≡ ok tt
      → Links blake3 fiber_id resolve e
  unfolding classify admit_precursor_link commitment
  Links-later z none r h = absurd (ground (arith, bytes_eq_iff e.header.fiber_id fiber_id))
  Links-later z (some p) r h =
      later (ground (arith, bytes_eq_iff e.header.fiber_id fiber_id))
        (λ same. false≢true (sym z ∙ (bytes_eq_iff e.header.precursor zero_id).1 same)) p r
        (ground (arith, bytes_eq_iff p.header.event_id e.header.precursor))
        (ground (arith, bytes_eq_iff p.header.fiber_id fiber_id))
        (ground (arith, bytes_eq_iff e.header.precursor_hash (commitment blake3 p)))

-- Classifying an event and admitting its link succeeds exactly when the event links to its past.
pub admit_precursor_link-Links :
    (blake3 : Bytes → Bytes) (fiber_id : Bytes) (resolve : Bytes → Option EventEnvelope)
    (e : EventEnvelope)
    → ((classify e >>= λ link. admit_precursor_link blake3 fiber_id link resolve) ≡ ok tt)
      ↔ Links blake3 fiber_id resolve e
unfolding classify admit_precursor_link commitment
admit_precursor_link-Links blake3 fiber_id resolve e = (accepted, back)
  where
    accepted :
        (classify e >>= λ link. admit_precursor_link blake3 fiber_id link resolve) ≡ ok tt
        → Links blake3 fiber_id resolve e
    accepted h = elim (Bool-cases (bytes_eq e.header.precursor zero_id)) [
      | inl z ↦ Links-first blake3 fiber_id resolve e z h
      | inr z ↦ Links-later blake3 fiber_id resolve e z (resolve e.header.precursor) refl h
    ]

    back :
        Links blake3 fiber_id resolve e
        → (classify e >>= λ link. admit_precursor_link blake3 fiber_id link resolve) ≡ ok tt
    back (first f z zh) = ground (
      arith,
      bytes_eq_iff e.header.fiber_id fiber_id,
      bytes_eq_iff e.header.precursor zero_id,
      bytes_eq_iff e.header.precursor_hash zero_hash,
    )
    back (later f nz p found id pf hash) = ground (
      arith,
      bytes_eq_iff e.header.fiber_id fiber_id,
      bytes_eq_iff e.header.precursor zero_id,
      bytes_eq_iff p.header.event_id e.header.precursor,
      bytes_eq_iff p.header.fiber_id fiber_id,
      bytes_eq_iff e.header.precursor_hash (commitment blake3 p),
    )
