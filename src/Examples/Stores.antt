-- ===== src/Examples/Stores.antt =====
-- Ownership and admission at concrete inputs.
use pardosa.Ownership.Record.{consistent_hash}
use pardosa.Ownership.Record.Rule.{encode_rule, decode_rule, decode_rule-encode_rule}
use pardosa.Fiber.State.{FiberState}
use pardosa.Fiber.State
use pardosa.Encoding.Envelope.{EventEnvelope}
use pardosa.Prelude.Bytes.{Bytes, bytes_eq}
use pardosa.Failure.{◌>>=◌, FailsWith, ok, stale_epoch, err, store_already_exists}
use pardosa.Prelude.{
  ℕ, ◌≡◌, refl, ◌≢◌, ◌↔◌, ◌⊎◌, true, Option, none, some, [], ◌∷◌, map, if◌then◌else◌, replicate,
  All, List, ◌++◌, arith, length,
}
use pardosa.Ownership.Record.{OwnershipClaimRecord}
use pardosa.Ownership.Claim.{evaluate_claim_cas, fence_write, claimed}
use pardosa.Ownership.Claim.Epochs.{fence_write-Claims, Claims, claim_made, none_made}
use pardosa.Ownership.Creation.{
  nothing, complete, begin, seed_claim, complete_event_data, admit_create, admit_open, presence,
  ready, IncompleteCreationState, incomplete_creation, resume_incomplete_creation, from,
}
use pardosa.Ownership.Creation.Order.{
  Creation, Creation-complete, admit_open-Creation, recorded_claim, begun, seeded, completed,
}
use pardosa.Artefact.Open.{
  orphan_read, build, validate, steady, ReopenedStoreBoundary, ReopenedFiberState, to_fiber_state,
  IllegalOpenCombination, migrating, migrating_mode_on_reopen, removed_identities_on_reopen,
  locked_state_on_reopen,
}
use pardosa.Artefact.Open.Legal.{build-IsLegal, validate_cases, Breaks, IsLegal}
use pardosa.Artefact.Precursor.{classify, admit_precursor_link}
use pardosa.Artefact.Precursor.Links.{admit_precursor_link-Links, Links}
use pardosa.Examples.Data.{toy_hash, second_event, fiber_a, id_one, first_event}

abbrev claim_with_epoch : ℕ → OwnershipClaimRecord
claim_with_epoch n = record {
  epoch = n;
  machine_id = replicate 16 3;
  boot_id = replicate 16 4;
  process_id = 42;
  process_start_time_ns = 1000;
  claim_time_ns = 2000;
  operator_label = [];
}

-- Two claims over the claim of epoch 1.
second_claim_later :
    Claims
      (claimed (claim_with_epoch 1))
      ((some 1, claim_with_epoch 2) ∷ (some 2, claim_with_epoch 5) ∷ [])
      (claimed (claim_with_epoch 5))
unfolding evaluate_claim_cas
second_claim_later = claim_made refl (claim_made refl none_made)

fence_write-Claims_example : FailsWith (fence_write 1 (claimed (claim_with_epoch 5))) stale_epoch
fence_write-Claims_example = fence_write-Claims (claim_with_epoch 1) second_claim_later

whole_protocol : Creation nothing (claim_with_epoch 1 ∷ []) complete
unfolding begin admit_create seed_claim complete_event_data
whole_protocol = completed (seeded (begun refl) (claim_with_epoch 1) refl) refl

Creation-complete_example :
    (nothing ≡ nothing) × (c : OwnershipClaimRecord) × (claim_with_epoch 1 ∷ [] ≡ c ∷ [])
Creation-complete_example = Creation-complete whole_protocol

admit_open-Creation_example :
    ((complete ≡ complete)
      × (c : OwnershipClaimRecord) × (recorded_claim (claim_with_epoch 1 ∷ []) ≡ some c)
      × ((read : Option OwnershipClaimRecord)
          → (admit_open (presence complete) read true ≡ ok ready)
            × FailsWith (resume_incomplete_creation (presence complete) read) store_already_exists))
    ⊎ ((s : IncompleteCreationState) × (admit_open
            (presence complete)
            (recorded_claim (claim_with_epoch 1 ∷ []))
            true
          ≡ ok (incomplete_creation s))
        × (resume_incomplete_creation (presence complete) (recorded_claim (claim_with_epoch 1 ∷ []))
            ≡ ok s)
        × (from s ≡ complete))
admit_open-Creation_example = admit_open-Creation whole_protocol true

build-IsLegal_example :
    (IsLegal orphan_read × (build orphan_read ≡ ok orphan_read))
    ⊎ ((¬ IsLegal orphan_read)
        × (x : IllegalOpenCombination) × (build orphan_read ≡ err x)
        × Breaks x orphan_read.ownership orphan_read.generation orphan_read.supersession
            orphan_read.append_authority)
build-IsLegal_example = build-IsLegal orphan_read

abbrev one_defined : List (Bytes × FiberState)
one_defined = (fiber_a, State.defined) ∷ []

validate_cases_example :
    ((steady ≡ migrating) × (validate one_defined steady [] ≡ err migrating_mode_on_reopen))
    ⊎ ((steady ≡ steady)
        × (◌≢◌ {A = List Bytes} [] [])
        × (validate one_defined steady [] ≡ err removed_identities_on_reopen))
    ⊎ ((steady ≡ steady)
        × (◌≡◌ {A = List Bytes} [] [])
        × (¬ All (λ (p : Bytes × FiberState). p.1 ≢ State.locked) one_defined)
        × (validate one_defined steady [] ≡ err locked_state_on_reopen))
    ⊎ ((steady ≡ steady)
        × (◌≡◌ {A = List Bytes} [] [])
        × All (λ (p : Bytes × FiberState). p.1 ≢ State.locked) one_defined
        × (b : ReopenedStoreBoundary) × (validate one_defined steady [] ≡ ok b)
        × (b.mode ≡ steady)
        × (map (λ (p : Bytes × ReopenedFiberState). (p.0, to_fiber_state p.1)) b.fiber_states
            ≡ one_defined))
validate_cases_example = validate_cases one_defined steady []

abbrev lookup : Bytes → Option EventEnvelope
lookup id = if bytes_eq id id_one then some first_event else none

admit_precursor_link-Links_example :
    ((classify second_event >>= λ link. admit_precursor_link toy_hash fiber_a link lookup) ≡ ok tt)
    ↔ Links toy_hash fiber_a lookup second_event
admit_precursor_link-Links_example = admit_precursor_link-Links toy_hash fiber_a lookup second_event

decode_rule-encode_rule_example :
    decode_rule (encode_rule (consistent_hash 70000 64) [] ++ (9 ∷ []))
    ≡ ok (consistent_hash 70000 64, length (encode_rule (consistent_hash 70000 64) []))
decode_rule-encode_rule_example =
    decode_rule-encode_rule (consistent_hash 70000 64) (9 ∷ []) (omega arith, omega arith)
