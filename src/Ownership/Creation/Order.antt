-- ===== src/Ownership/Creation/Order.antt =====
-- The order of the creation protocol, and where a reopened artefact takes it up again.
use pardosa.Prelude.{◌≡◌, refl, ◌⊎◌, inl, inr, Bool, Option, none, some, subst, List, [], ◌∷◌, ◌++◌}
use pardosa.Failure.{ok, FailsWith, store_already_exists}
use pardosa.Ownership.Record.{OwnershipClaimRecord}
use pardosa.Ownership.Creation.{
  ArtefactPresence, nothing, CreationProgression, unseeded_ownership_record_created,
  ownership_claim_seeded, complete, begin, seed_claim, complete_event_data, presence, admit_open,
  ready, incomplete_creation, from, resume_incomplete_creation, IncompleteCreationState, unseeded,
  claimed, admit_create, ownership_record_only, event_data_only, both,
}

-- What a creation does to a place in storage, with the claims that it has seeded.
pub data Creation
    : ArtefactPresence → List OwnershipClaimRecord → CreationProgression → Type 0 where
  begun : {at : ArtefactPresence} {p : CreationProgression} → begin at ≡ ok p → Creation at [] p
  seeded :
      {at : ArtefactPresence} {cs : List OwnershipClaimRecord} {p q : CreationProgression}
      → Creation at cs p
      → (claim : OwnershipClaimRecord) → seed_claim p claim ≡ ok q
      → Creation at (cs ++ (claim ∷ [])) q
  completed :
      {at : ArtefactPresence} {cs : List OwnershipClaimRecord} {p q : CreationProgression}
      → Creation at cs p
      → complete_event_data p ≡ ok q
      → Creation at cs q

-- The claims that a progression has seeded.
unfoldable Fits : CreationProgression → List OwnershipClaimRecord → Type 0
Fits unseeded_ownership_record_created cs = cs ≡ []
Fits (ownership_claim_seeded c) cs = cs ≡ c ∷ []
Fits complete cs = (c : OwnershipClaimRecord) × (cs ≡ c ∷ [])

begin-Fits :
    (at : ArtefactPresence) (p : CreationProgression) → begin at ≡ ok p → (at ≡ nothing) × Fits p []
unfolding begin admit_create Fits
begin-Fits nothing unseeded_ownership_record_created h = (refl, refl)
begin-Fits nothing (ownership_claim_seeded c) h = absurd (cc h)
begin-Fits nothing complete h = absurd (cc h)
begin-Fits ownership_record_only p h = absurd (cc h)
begin-Fits event_data_only p h = absurd (cc h)
begin-Fits both p h = absurd (cc h)

seed_claim-Fits :
    (p q : CreationProgression) (c : OwnershipClaimRecord) (cs : List OwnershipClaimRecord)
    → Fits p cs
    → seed_claim p c ≡ ok q
    → Fits q (cs ++ (c ∷ []))
unfolding seed_claim Fits
seed_claim-Fits unseeded_ownership_record_created q c cs fits h =
    let same : ownership_claim_seeded c ≡ q = cc h in
    subst (λ x. Fits x (cs ++ (c ∷ []))) same (rw fits refl)
seed_claim-Fits (ownership_claim_seeded d) q c cs fits h = absurd (cc h)
seed_claim-Fits complete q c cs fits h = absurd (cc h)

complete_event_data-Fits :
    (p q : CreationProgression) (cs : List OwnershipClaimRecord)
    → Fits p cs
    → complete_event_data p ≡ ok q
    → Fits q cs
unfolding complete_event_data Fits
complete_event_data-Fits (ownership_claim_seeded d) q cs fits h =
    let same : complete ≡ q = cc h in subst (λ x. Fits x cs) same (d, fits)
complete_event_data-Fits unseeded_ownership_record_created q cs fits h = absurd (cc h)
complete_event_data-Fits complete q cs fits h = absurd (cc h)

Creation-Fits :
    {at : ArtefactPresence} {cs : List OwnershipClaimRecord} {p : CreationProgression}
    → Creation at cs p
    → (at ≡ nothing) × Fits p cs
Creation-Fits (begun h) = begin-Fits _ _ h
Creation-Fits (seeded d claim h) =
    let (free, fits) = Creation-Fits d in (free, seed_claim-Fits _ _ claim _ fits h)
Creation-Fits (completed d h) =
    let (free, fits) = Creation-Fits d in (free, complete_event_data-Fits _ _ _ fits h)

-- A creation that is complete began where nothing existed and seeded exactly one claim.
pub Creation-complete :
    {at : ArtefactPresence} {cs : List OwnershipClaimRecord}
    → Creation at cs complete
    → (at ≡ nothing) × (c : OwnershipClaimRecord) × (cs ≡ c ∷ [])
unfolding Fits
Creation-complete d = let (free, fits) = Creation-Fits d in (free, fits.0, fits.1)

-- The claim that the record of an artefact holds, of those that were seeded: the first.
unfoldable pub recorded_claim : List OwnershipClaimRecord → Option OwnershipClaimRecord
recorded_claim [] = none
recorded_claim (c ∷ _) = some c

-- Where a reopened artefact stands, by the progression of its creation and the claims it seeded.
abbrev Reopens : CreationProgression → List OwnershipClaimRecord → Bool → Type 0
Reopens p cs write_intent =
    ((p ≡ complete)
      × (c : OwnershipClaimRecord) × (recorded_claim cs ≡ some c)
      × ((read : Option OwnershipClaimRecord)
          → (admit_open (presence p) read write_intent ≡ ok ready)
            × FailsWith (resume_incomplete_creation (presence p) read) store_already_exists))
    ⊎ ((s : IncompleteCreationState) × (admit_open (presence p) (recorded_claim cs) write_intent
          ≡ ok (incomplete_creation s))
        × (resume_incomplete_creation (presence p) (recorded_claim cs) ≡ ok s)
        × (from s ≡ p))

Fits-Reopens :
    (p : CreationProgression) (cs : List OwnershipClaimRecord) (write_intent : Bool)
    → Fits p cs
    → Reopens p cs write_intent
unfolding Fits admit_open presence recorded_claim resume_incomplete_creation from
Fits-Reopens unseeded_ownership_record_created cs w fits =
    inr (unseeded, rw fits refl, rw fits refl, refl)
Fits-Reopens (ownership_claim_seeded c) cs w fits =
    inr (claimed c, rw fits refl, rw fits refl, refl)
Fits-Reopens complete cs w (c, fits) = inl (refl, c, rw fits refl, λ read. (refl, refl))

-- Whatever a creation has done when it stops, and whatever the intent of the open: a complete
-- artefact has recorded a claim, and `admit_open` finds it ready and
-- `resume_incomplete_creation` refuses it as existing, whatever is read of its claim; an incomplete
-- one, with the claim it has recorded, is admitted by both to the step at which it stopped.
pub admit_open-Creation :
    {at : ArtefactPresence} {cs : List OwnershipClaimRecord} {p : CreationProgression}
    → Creation at cs p
    → (write_intent : Bool)
    → ((p ≡ complete)
        × (c : OwnershipClaimRecord) × (recorded_claim cs ≡ some c)
        × ((read : Option OwnershipClaimRecord)
            → (admit_open (presence p) read write_intent ≡ ok ready)
              × FailsWith (resume_incomplete_creation (presence p) read) store_already_exists))
      ⊎ ((s : IncompleteCreationState) × (admit_open (presence p) (recorded_claim cs) write_intent
            ≡ ok (incomplete_creation s))
          × (resume_incomplete_creation (presence p) (recorded_claim cs) ≡ ok s)
          × (from s ≡ p))
admit_open-Creation d write_intent = Fits-Reopens _ _ write_intent (Creation-Fits d).1
