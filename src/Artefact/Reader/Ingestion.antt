-- ===== src/Artefact/Reader/Ingestion.antt =====
-- The ingestion of a stream refuses at most once.
use pardosa.Encoding.Envelope.{EventEnvelope}
use pardosa.Artefact.Reader.{
  ReaderState, Ingested, ingest, with_stream, ingest_one, max_stream_items, mark_terminally_failed,
  charge,
}
use pardosa.Prelude.Bytes.{Bytes}
use pardosa.Prelude.Words.{saturating_add}
use pardosa.Prelude.{
  ℕ, ◌≡◌, refl, inl, inr, Bool, true, false, ◌||◌, Option, none, some, List, [], ◌∷◌, leb,
  if◌then◌else◌, Bool-cases,
}

module _ (capacity : Bytes → ℕ) where
  -- One refusal of the ingestion is pending at most.
  abbrev pub OneRefusal : ReaderState → Type 0
  OneRefusal s = s.capacity_refused ≡ true → s.byte_capacity_refused ≡ false

  -- The ingestion refuses once.
  abbrev RefusesOnce : Ingested capacity → Type 0
  RefusesOnce i = i.items_refused ≡ true → i.bytes_refused ≡ false

  ingest_one-RefusesOnce :
      (env : EventEnvelope) (retained : ℕ) (rest : ℕ → Ingested capacity) (c : Option ℕ)
      → ((r : ℕ) → RefusesOnce (rest r))
      → RefusesOnce (ingest_one capacity env retained rest c)
  ingest_one-RefusesOnce env retained rest (some r) once = once r
  ingest_one-RefusesOnce env retained rest none once = λ h. absurd (cc h)

  ingest-RefusesOnce :
      (count retained : ℕ) (envs : List EventEnvelope)
      → RefusesOnce (ingest capacity count retained envs)
  unfolding ingest
  ingest-RefusesOnce count retained [] = λ h. refl
  ingest-RefusesOnce count retained (env ∷ envs) =
      go _ (leb (saturating_add count 1) max_stream_items) (
        ingest_one-RefusesOnce env retained (λ r. ingest capacity (saturating_add count 1) r envs)
          (charge capacity retained env) (λ r. ingest-RefusesOnce (saturating_add count 1) r envs))
    where
      go :
          (i : Ingested capacity) (within : Bool)
          → RefusesOnce i
          → RefusesOnce (
              if within then i else record {
                taken = [];
                retained = retained;
                items_refused = true;
                bytes_refused = false;
              })
      go i true once = once
      go i false once = λ h. refl

  pub with_stream-OneRefusal : (envs : List EventEnvelope) → OneRefusal (with_stream capacity envs)
  unfolding with_stream mark_terminally_failed
  with_stream-OneRefusal envs =
      let i = ingest capacity 0 0 envs in
      elim (Bool-cases (i.items_refused || i.bytes_refused)) [
        | inl refused ↦ rw refused (ingest-RefusesOnce 0 0 envs)
        | inr whole ↦ rw whole (ingest-RefusesOnce 0 0 envs)
      ]
