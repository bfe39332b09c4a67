-- ===== src/Artefact/Open/Legal.antt =====
-- The combinations that an open result may have, and what a reopened store is.
use pardosa.Prelude.Bytes.{Bytes}
use pardosa.Prelude.{
  ◌≡◌, ◌≢◌, ◌↔◌, List, [], map, All, refl, none, ◌∷◌, arith, sym, ◌∙◌, Option, some, ◌⊎◌, inl, inr,
}
use pardosa.Failure.{ok, err}
use pardosa.Artefact.Open.{
  QualifiedOpenResult, unowned, current, holds_authority, illegal_combination, build,
  OwnershipStatus, GenerationKnowledge, SupersessionStatus, AppendAuthority, MigrationMode, steady,
  migrating, ReopenedFiberState, to_fiber_state, reopened_state, reopened_states, validate,
  ReopenedStoreBoundary, IllegalOpenCombination, locked_state_on_reopen, migrating_mode_on_reopen,
  unowned_must_have_unknown_generation, removed_identities_on_reopen,
  unknown_generation_cannot_be_current, unowned_cannot_hold_append_authority,
}
use pardosa.Fiber.State.{FiberState}

-- The rules, said of the result: an artefact that nobody owns has no known generation and
-- gives no authority to append, and one of unknown generation is not known to be current.
pub record IsLegal (r : QualifiedOpenResult) : Type 0 where
  pub generation_needs_owner : r.ownership ≡ unowned → r.generation ≡ GenerationKnowledge.unknown
  pub current_needs_generation :
      r.generation ≡ GenerationKnowledge.unknown → r.supersession ≢ current
  pub authority_needs_owner : r.ownership ≡ unowned → r.append_authority ≢ holds_authority

abbrev RulesHold :
    OwnershipStatus → GenerationKnowledge → SupersessionStatus → AppendAuthority → Type 0
RulesHold o g s a =
    (o ≡ unowned → g ≡ GenerationKnowledge.unknown)
    × (g ≡ GenerationKnowledge.unknown → s ≢ current)
    × (o ≡ unowned → a ≢ holds_authority)

rules :
    (o : OwnershipStatus) (g : GenerationKnowledge) (s : SupersessionStatus) (a : AppendAuthority)
    → (illegal_combination o g s a ≡ none) ↔ RulesHold o g s a
unfolding illegal_combination
rules o g s a = ground arith

-- The rule that an error names, broken.
abbrev pub Breaks :
    IllegalOpenCombination
    → OwnershipStatus
    → GenerationKnowledge
    → SupersessionStatus
    → AppendAuthority
    → Type 0
Breaks unowned_must_have_unknown_generation o g s a =
    (o ≡ unowned) × (g ≢ GenerationKnowledge.unknown)
Breaks unknown_generation_cannot_be_current o g s a =
    (g ≡ GenerationKnowledge.unknown) × (s ≡ current)
Breaks unowned_cannot_hold_append_authority o g s a = (o ≡ unowned) × (a ≡ holds_authority)
Breaks _ o g s a = ⊥

illegal_combination-Breaks :
    (x : IllegalOpenCombination) (o : OwnershipStatus) (g : GenerationKnowledge)
    (s : SupersessionStatus) (a : AppendAuthority)
    → illegal_combination o g s a ≡ some x
    → Breaks x o g s a
unfolding illegal_combination
illegal_combination-Breaks unowned_must_have_unknown_generation o g s a h = ground arith
illegal_combination-Breaks unknown_generation_cannot_be_current o g s a h = ground arith
illegal_combination-Breaks unowned_cannot_hold_append_authority o g s a h = ground arith
illegal_combination-Breaks locked_state_on_reopen o g s a h = ground arith
illegal_combination-Breaks migrating_mode_on_reopen o g s a h = ground arith
illegal_combination-Breaks removed_identities_on_reopen o g s a h = ground arith

-- `build` returns what it was given where the combination is legal, and refuses every other one
-- with an error whose rule the combination breaks.
pub build-IsLegal :
    (r : QualifiedOpenResult)
    → (IsLegal r × (build r ≡ ok r))
      ⊎ ((¬ IsLegal r)
          × (x : IllegalOpenCombination) × (build r ≡ err x)
          × Breaks x r.ownership r.generation r.supersession r.append_authority)
unfolding build
build-IsLegal r =
    go (illegal_combination r.ownership r.generation r.supersession r.append_authority) refl
  where
    go :
        (o : Option IllegalOpenCombination)
        → illegal_combination r.ownership r.generation r.supersession r.append_authority ≡ o
        → (IsLegal r × (build r ≡ ok r))
          ⊎ ((¬ IsLegal r)
              × (x : IllegalOpenCombination) × (build r ≡ err x)
              × Breaks x r.ownership r.generation r.supersession r.append_authority)
    go none e =
        let (g, s, a) = (rules r.ownership r.generation r.supersession r.append_authority).0 e in
        inl (
          record {
            generation_needs_owner = g;
            current_needs_generation = s;
            authority_needs_owner = a;
          },
          rw (e, build) refl,
        )
    go (some x) e = inr (
      λ legal. absurd (
          cc (
            sym e
            ∙ (rules r.ownership r.generation r.supersession r.append_authority).1 (
              legal.generation_needs_owner, legal.current_needs_generation,
              legal.authority_needs_owner,
            ))),
      x,
      rw (e, build) refl,
      illegal_combination-Breaks x r.ownership r.generation r.supersession r.append_authority e,
    )

-- The loop admits a list that has no locked fiber, and keeps the states.
reopened_states-eq-ok :
    (raw : List (Bytes × FiberState))
    → All (λ (p : Bytes × FiberState). p.1 ≢ FiberState.locked) raw
    → (states : List (Bytes × ReopenedFiberState)) × (reopened_states raw ≡ ok states)
      × (map (λ (p : Bytes × ReopenedFiberState). (p.0, to_fiber_state p.1)) states ≡ raw)
unfolding reopened_states reopened_state to_fiber_state
reopened_states-eq-ok [] h = ([], refl, refl)
reopened_states-eq-ok ((id, FiberState.locked) ∷ raw) h = absurd (h.0 refl)
reopened_states-eq-ok ((id, FiberState.undefined) ∷ raw) h =
    let (states, found, same) = reopened_states-eq-ok raw h.1 in
    ((id, ReopenedFiberState.undefined) ∷ states, rw found refl, rw same refl)
reopened_states-eq-ok ((id, FiberState.defined) ∷ raw) h =
    let (states, found, same) = reopened_states-eq-ok raw h.1 in
    ((id, ReopenedFiberState.defined) ∷ states, rw found refl, rw same refl)
reopened_states-eq-ok ((id, FiberState.detached) ∷ raw) h =
    let (states, found, same) = reopened_states-eq-ok raw h.1 in
    ((id, ReopenedFiberState.detached) ∷ states, rw found refl, rw same refl)
reopened_states-eq-ok ((id, FiberState.purged) ∷ raw) h =
    let (states, found, same) = reopened_states-eq-ok raw h.1 in
    ((id, ReopenedFiberState.purged) ∷ states, rw found refl, rw same refl)

-- The loop refuses every other list.
reopened_states_cases :
    (raw : List (Bytes × FiberState))
    → All (λ (p : Bytes × FiberState). p.1 ≢ FiberState.locked) raw
      ⊎ ((¬ All (λ (p : Bytes × FiberState). p.1 ≢ FiberState.locked) raw)
          × (reopened_states raw ≡ err locked_state_on_reopen))
unfolding reopened_states reopened_state
reopened_states_cases [] = inl tt
reopened_states_cases ((id, FiberState.locked) ∷ raw) = inr (λ free. free.0 refl, refl)
reopened_states_cases ((id, FiberState.undefined) ∷ raw) = elim (reopened_states_cases raw) [
  | inl free ↦ inl (λ e. absurd (cc e), free)
  | inr (some_locked, refused) ↦ inr (λ free. some_locked free.1, rw refused refl)
]
reopened_states_cases ((id, FiberState.defined) ∷ raw) = elim (reopened_states_cases raw) [
  | inl free ↦ inl (λ e. absurd (cc e), free)
  | inr (some_locked, refused) ↦ inr (λ free. some_locked free.1, rw refused refl)
]
reopened_states_cases ((id, FiberState.detached) ∷ raw) = elim (reopened_states_cases raw) [
  | inl free ↦ inl (λ e. absurd (cc e), free)
  | inr (some_locked, refused) ↦ inr (λ free. some_locked free.1, rw refused refl)
]
reopened_states_cases ((id, FiberState.purged) ∷ raw) = elim (reopened_states_cases raw) [
  | inl free ↦ inl (λ e. absurd (cc e), free)
  | inr (some_locked, refused) ↦ inr (λ free. some_locked free.1, rw refused refl)
]

-- How a validation ends: a store that migrates is refused, then one with a removed identity, then
-- one with a locked fiber; every other store is admitted, steady and with the states that were
-- read.
pub validate_cases :
    (raw : List (Bytes × FiberState)) (mode : MigrationMode) (removed : List Bytes)
    → ((mode ≡ migrating) × (validate raw mode removed ≡ err migrating_mode_on_reopen))
      ⊎ ((mode ≡ steady)
          × (removed ≢ [])
          × (validate raw mode removed ≡ err removed_identities_on_reopen))
      ⊎ ((mode ≡ steady)
          × (removed ≡ [])
          × (¬ All (λ (p : Bytes × FiberState). p.1 ≢ FiberState.locked) raw)
          × (validate raw mode removed ≡ err locked_state_on_reopen))
      ⊎ ((mode ≡ steady)
          × (removed ≡ [])
          × All (λ (p : Bytes × FiberState). p.1 ≢ FiberState.locked) raw
          × (b : ReopenedStoreBoundary) × (validate raw mode removed ≡ ok b)
          × (b.mode ≡ steady)
          × (map (λ (p : Bytes × ReopenedFiberState). (p.0, to_fiber_state p.1)) b.fiber_states
              ≡ raw))
unfolding validate
validate_cases raw migrating removed = inl (refl, refl)
validate_cases raw steady (x ∷ xs) = inr (inl (refl, λ e. absurd (cc e), refl))
validate_cases raw steady [] = elim (reopened_states_cases raw) [
  | inr (some_locked, refused) ↦ inr (inr (inl (refl, refl, some_locked, rw refused refl)))
  | inl free ↦
      let (states, found, same) = reopened_states-eq-ok raw free in
      inr (
        inr (
          inr (
            refl,
            refl,
            free,
            record { fiber_states = states; mode = steady },
            rw found refl,
            refl,
            same,
          )))
]
