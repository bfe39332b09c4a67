-- ===== src/Ownership/Claim/Epochs.antt =====
-- Epochs of an artefact only grow, so a writer that lost its claim stays fenced.
use pardosa.Prelude.{
  ℕ, ◌≤◌, ◌<◌, ◌≡◌, refl, ◌↔◌, Option, none, some, List, [], ◌∷◌, arith, sym, subst, ==_iff,
}
use pardosa.Failure.{ok, FailsWith, stale_epoch}
use pardosa.Ownership.Record.{OwnershipClaimRecord}
use pardosa.Ownership.Claim.{RecordedOwnership, claimed, evaluate_claim_cas, fence_write}

-- Claims that the compare-and-set admits, one after the other, each recorded over the one before;
-- each claimant gives the epoch that it expects.
pub data Claims
    : RecordedOwnership → List (Option ℕ × OwnershipClaimRecord) → RecordedOwnership → Type 0 where
  none_made : {r : RecordedOwnership} → Claims r [] r
  claim_made :
      {r s : RecordedOwnership} {expected : Option ℕ} {c : OwnershipClaimRecord}
      {cs : List (Option ℕ × OwnershipClaimRecord)}
      → evaluate_claim_cas r expected c ≡ ok c.epoch
      → Claims (claimed c) cs s
      → Claims r ((expected, c) ∷ cs) s

pub evaluate_claim_cas-eq-ok :
    (existing c : OwnershipClaimRecord) (expected : Option ℕ)
    → (evaluate_claim_cas (claimed existing) expected c ≡ ok c.epoch)
      ↔ ((expected ≡ some existing.epoch) × (existing.epoch < c.epoch))
unfolding evaluate_claim_cas
evaluate_claim_cas-eq-ok existing c none = (λ h. absurd (cc h), λ h. absurd (cc (h.0)))
evaluate_claim_cas-eq-ok existing c (some e) = (
  (λ h. (ground (arith, ==_iff existing.epoch e), ground arith)),
  (λ (same, later). admitted (cc same) later),
)
  where
    admitted :
        e ≡ existing.epoch
        → existing.epoch < c.epoch
        → evaluate_claim_cas (claimed existing) (some e) c ≡ ok c.epoch
    admitted same later = ground (arith, ==_iff existing.epoch e)

Claims-grow :
    {r s : RecordedOwnership} {cs : List (Option ℕ × OwnershipClaimRecord)}
    → Claims r cs s
    → (c : OwnershipClaimRecord) → r ≡ claimed c
    → (d : OwnershipClaimRecord) × (s ≡ claimed d) × (c.epoch ≤ d.epoch)
Claims-grow none_made c e = (c, e, omega arith)
Claims-grow (claim_made {expected = expected} {c = d} h rest) c e =
    let (_, later) = (evaluate_claim_cas-eq-ok c d expected).0 (rw e at h) in
    let (final, same, le) = Claims-grow rest d refl in (final, same, omega arith)

-- Once a claim has been made over a recorded claim, and whatever claims were made after it, a
-- writer with the epoch of the first claim is refused with `StaleEpoch`.
pub fence_write-Claims :
    (c : OwnershipClaimRecord) {r : RecordedOwnership} {next : Option ℕ × OwnershipClaimRecord}
    {cs : List (Option ℕ × OwnershipClaimRecord)}
    → Claims (claimed c) (next ∷ cs) r
    → FailsWith (fence_write c.epoch r) stale_epoch
unfolding fence_write
fence_write-Claims c (claim_made {expected = expected} {c = d} h rest) =
    let (_, later) = (evaluate_claim_cas-eq-ok c d expected).0 h in
    let (final, same, le) = Claims-grow rest d refl in
    subst (λ r. FailsWith (fence_write c.epoch r) stale_epoch) (sym same) (ground arith)
