-- ===== src/Fiber/Handle/Coherence.antt =====
-- What makes a handle coherent, and that every method keeps it.
use pardosa.Fiber.Handle.Steps.{check_event-eq-ok, perform, Method, appending, detaching, rescuing}
use pardosa.Encoding.Envelope.{commitment, genesis, EventEnvelope}
use pardosa.Prelude.Bytes.{bytes_eq, bytes_eq_iff, Bytes}
use pardosa.Failure.{
  Result, OperationFailure, ok, invariant_breaking_configuration, FailsWith, ◌>>◌, FailureCondition,
  err,
}
use pardosa.Prelude.{
  ◌≤◌, ◌<◌, ◌≡◌, ◌≢◌, ◌⊎◌, refl, inl, inr, not, ◌||◌, arith, ltb, ◌==◌, Bool-cases, String, sym,
  ◌∙◌, false≢true, ap,
}
use pardosa.Encoding.Envelope.Header.{zero_id, zero_hash}
use pardosa.Fiber.State.{FiberState, undefined, defined, detached, purged, locked}
use pardosa.Fiber.Handle.{
  FiberHandle, max_events_per_fiber, with_state, check_blank, check_live, check_state, advance,
  mint_genesis, check_event, Outcome, empty_failure, append_in, detach_in, rescue_in, mint_chained,
  append, detach, rescue,
}

-- No tip and no event, or a tip and between one and `MAX_EVENTS_PER_FIBER` events.
pub record IsBlank (h : FiberHandle) : Type 0 where
  pub precursor : h.precursor ≡ zero_id
  pub precursor_hash : h.precursor_hash ≡ zero_hash
  pub event_count : h.event_count ≡ 0

pub record IsLive (h : FiberHandle) : Type 0 where
  pub precursor : h.precursor ≢ zero_id
  pub precursor_hash : h.precursor_hash ≢ zero_hash
  pub some_event : 0 < h.event_count
  pub within : h.event_count ≤ max_events_per_fiber

abbrev pub CoherentIn : FiberState → FiberHandle → Type 0
CoherentIn undefined = IsBlank
CoherentIn purged = IsBlank
CoherentIn defined = IsLive
CoherentIn detached = IsLive
CoherentIn locked = IsLive

-- The state says which of the two holds.
abbrev pub IsCoherent : FiberHandle → Type 0
IsCoherent h = CoherentIn h.state h

abbrev pub with_fields_of : FiberHandle → Result OperationFailure FiberHandle
with_fields_of h = with_state h.fiber_id h.state h.precursor h.precursor_hash h.event_count

check_blank_cases :
    (h : FiberHandle)
    → let r = check_blank h.precursor h.precursor_hash h.event_count in
      (IsBlank h × (r ≡ ok tt)) ⊎ ((¬ IsBlank h) × FailsWith r invariant_breaking_configuration)
unfolding check_blank
check_blank_cases h =
    elim (Bool-cases (
      not (bytes_eq h.precursor zero_id)
      || not (bytes_eq h.precursor_hash zero_hash)
      || not (h.event_count == 0))) [
        | inl refused ↦ inr (
          λ (b : IsBlank h).
              ground
                (arith, bytes_eq_iff h.precursor zero_id, bytes_eq_iff h.precursor_hash zero_hash),
          rw refused refl,
        )
        | inr passed ↦ inl (
          ground (arith, bytes_eq_iff h.precursor zero_id, bytes_eq_iff h.precursor_hash zero_hash),
          rw passed refl,
        )
      ]

check_live_cases :
    (h : FiberHandle)
    → let r = check_live h.precursor h.precursor_hash h.event_count in
      (IsLive h × (r ≡ ok tt)) ⊎ ((¬ IsLive h) × FailsWith r invariant_breaking_configuration)
unfolding check_live
check_live_cases h =
    elim (Bool-cases (
      bytes_eq h.precursor zero_id
      || bytes_eq h.precursor_hash zero_hash
      || h.event_count == 0
      || ltb max_events_per_fiber h.event_count)) [
        | inl refused ↦ inr (
          λ (b : IsLive h). ground (
            arith,
            b.precursor,
            b.precursor_hash,
            bytes_eq_iff h.precursor zero_id,
            bytes_eq_iff h.precursor_hash zero_hash,
          ),
          rw refused refl,
        )
        | inr passed ↦ inl (
          record {
            precursor = λ e. ground (arith, bytes_eq_iff h.precursor zero_id);
            precursor_hash = λ e. ground (arith, bytes_eq_iff h.precursor_hash zero_hash);
            some_event = ground arith;
            within = ground arith;
          },
          rw passed refl,
        )
      ]

-- The test passes or fails as `P` holds or not.
abbrev Decides : Type 0 → Result OperationFailure (Unit {0}) → Type 0
Decides P r = (P × (r ≡ ok tt)) ⊎ ((¬ P) × FailsWith r invariant_breaking_configuration)

check_state_cases :
    (h : FiberHandle) (s : FiberState)
    → Decides (CoherentIn s h) (check_state s h.precursor h.precursor_hash h.event_count)
unfolding check_state
check_state_cases h undefined = check_blank_cases h
check_state_cases h purged = check_blank_cases h
check_state_cases h defined = check_live_cases h
check_state_cases h detached = check_live_cases h
check_state_cases h locked = check_live_cases h

FailsWith-bind {ℓ} :
    {A : Type ℓ} (m : Result OperationFailure (Unit {0})) (k : Result OperationFailure A)
    (c : FailureCondition)
    → FailsWith m c
    → FailsWith (m >> k) c
FailsWith-bind (ok a) k c f = elim f [ ]
FailsWith-bind (err e) k c f = f

-- `with_state` accepts the coherent combinations of state, tip and count, unchanged, and refuses
-- every other one.
pub with_state-IsCoherent :
    (h : FiberHandle)
    → (IsCoherent h × (with_fields_of h ≡ ok h))
      ⊎ ((¬ IsCoherent h) × FailsWith (with_fields_of h) invariant_breaking_configuration)
unfolding with_state
with_state-IsCoherent h = elim (check_state_cases h h.state) [
  | inl (coherent, passed) ↦ inl (coherent, rw passed refl)
  | inr (not_coherent, refused) ↦ inr (
    not_coherent,
    FailsWith-bind (check_state h.state h.precursor h.precursor_hash h.event_count) (ok h) _
        refused,
  )
]

-- No event that a call mints has zeroes as its commitment.
abbrev MintsNonzero : (Bytes → Bytes) → Outcome → Type 0
MintsNonzero blake3 o =
    (envelope : EventEnvelope) → o.0 ≡ ok envelope → commitment blake3 envelope ≢ zero_hash

-- The handle after an admitted event has a tip and a count within the bound.
module _ (blake3 : Bytes → Bytes) (h : FiberHandle) (event_id : Bytes) where
  advance-IsLive :
      (envelope : EventEnvelope) (s : FiberState)
      → check_event h event_id ≡ ok tt
      → commitment blake3 envelope ≢ zero_hash
      → IsLive (advance blake3 h event_id envelope s)
  unfolding advance
  advance-IsLive envelope s admitted nz =
      let (nonzero, _, below) = check_event-eq-ok h event_id admitted in
      record {
        precursor = λ e. false≢true (sym nonzero ∙ (bytes_eq_iff event_id zero_id).1 e);
        precursor_hash = nz;
        some_event = omega arith;
        within = omega arith;
      }

  mint_genesis-IsCoherent :
      (payload : Bytes) (detail : String)
      → check_event h event_id ≡ ok tt
      → IsCoherent h
      → MintsNonzero blake3 (mint_genesis blake3 h event_id payload detail)
      → IsCoherent (mint_genesis blake3 h event_id payload detail).1
  unfolding mint_genesis
  mint_genesis-IsCoherent payload detail admitted c =
      elim (genesis event_id h.fiber_id payload)
        as (λ r.
          let o = elim r as (λ _. Outcome) [
            | ok envelope ↦ (ok envelope, advance blake3 h event_id envelope defined)
            | err _ ↦ (err (empty_failure detail), h)
          ] in
          MintsNonzero blake3 o → IsCoherent o.1) [
            | ok envelope ↦
                λ nz. unfold advance in advance-IsLive envelope defined admitted (nz envelope refl)
            | err _ ↦ λ nz. c
          ]

  append_in-IsCoherent :
      (s : FiberState) (payload : Bytes)
      → h.state ≡ s
      → check_event h event_id ≡ ok tt
      → IsCoherent h
      → MintsNonzero blake3 (append_in blake3 s h event_id payload)
      → IsCoherent (append_in blake3 s h event_id payload).1
  unfolding append_in mint_chained
  append_in-IsCoherent undefined payload e admitted c nz =
      mint_genesis-IsCoherent payload _ admitted c nz
  append_in-IsCoherent purged payload e admitted c nz =
      mint_genesis-IsCoherent payload _ admitted c nz
  append_in-IsCoherent defined payload e admitted c nz =
      rw e (unfold advance in advance-IsLive _ defined admitted (nz _ refl))
  append_in-IsCoherent detached payload e admitted c nz = c
  append_in-IsCoherent locked payload e admitted c nz = c

  detach_in-IsCoherent :
      (s : FiberState) (payload : Bytes)
      → check_event h event_id ≡ ok tt
      → IsCoherent h
      → MintsNonzero blake3 (detach_in blake3 s h event_id payload)
      → IsCoherent (detach_in blake3 s h event_id payload).1
  unfolding detach_in mint_chained
  detach_in-IsCoherent defined payload admitted c nz =
      unfold advance in advance-IsLive _ detached admitted (nz _ refl)
  detach_in-IsCoherent _ payload admitted c nz = c

  rescue_in-IsCoherent :
      (s : FiberState) (payload : Bytes)
      → check_event h event_id ≡ ok tt
      → IsCoherent h
      → MintsNonzero blake3 (rescue_in blake3 s h event_id payload)
      → IsCoherent (rescue_in blake3 s h event_id payload).1
  unfolding rescue_in mint_chained
  rescue_in-IsCoherent detached payload admitted c nz =
      unfold advance in advance-IsLive _ defined admitted (nz _ refl)
  rescue_in-IsCoherent locked payload admitted c nz =
      mint_genesis-IsCoherent payload _ admitted c nz
  rescue_in-IsCoherent _ payload admitted c nz = c

  behind_check :
      (after : Outcome)
      → (check_event h event_id ≡ ok tt → MintsNonzero blake3 after → IsCoherent after.1)
      → IsCoherent h
      → MintsNonzero blake3
          (elim (check_event h event_id) as (λ _. Outcome) [ ok _ ↦ after | err e ↦ (err e, h) ])
      → IsCoherent
          (elim (check_event h event_id) as (λ _. Outcome) [ ok _ ↦ after | err e ↦ (err e, h) ]).1
  behind_check after kept c = go (check_event h event_id) refl
    where
      go :
          (r : Result OperationFailure (Unit {0}))
          → check_event h event_id ≡ r
          → MintsNonzero blake3 (elim r as (λ _. Outcome) [ ok _ ↦ after | err e ↦ (err e, h) ])
          → IsCoherent (elim r as (λ _. Outcome) [ ok _ ↦ after | err e ↦ (err e, h) ]).1
      go (ok u) e nz = kept e nz
      go (err x) e nz = c

perform-MintsNonzero :
    (blake3 : Bytes → Bytes) (m : Method) (h : FiberHandle) (event_id payload : Bytes)
    → IsCoherent h
    → MintsNonzero blake3 (perform blake3 m h event_id payload)
    → IsCoherent (perform blake3 m h event_id payload).1
unfolding perform append detach rescue
perform-MintsNonzero blake3 appending h event_id payload c =
    behind_check blake3 h event_id (append_in blake3 h.state h event_id payload)
      (λ admitted. append_in-IsCoherent blake3 h event_id h.state payload refl admitted c) c
perform-MintsNonzero blake3 detaching h event_id payload c =
    behind_check blake3 h event_id (detach_in blake3 h.state h event_id payload)
      (λ admitted. detach_in-IsCoherent blake3 h event_id h.state payload admitted c) c
perform-MintsNonzero blake3 rescuing h event_id payload c =
    behind_check blake3 h event_id (rescue_in blake3 h.state h event_id payload)
      (λ admitted. rescue_in-IsCoherent blake3 h event_id h.state payload admitted c) c

-- No method, whether it succeeds or is refused, leaves a handle whose tip or count contradicts its
-- state, unless it has minted an event whose commitment is the zero hash.
pub perform-IsCoherent :
    (blake3 : Bytes → Bytes) (m : Method) (h : FiberHandle) (event_id payload : Bytes)
    → IsCoherent h
    → IsCoherent (perform blake3 m h event_id payload).1
      ⊎ ((envelope : EventEnvelope) × ((perform blake3 m h event_id payload).0 ≡ ok envelope)
          × (commitment blake3 envelope ≡ zero_hash))
perform-IsCoherent blake3 m h event_id payload c = go (perform blake3 m h event_id payload).0 refl
  where
    go :
        (r : Result OperationFailure EventEnvelope)
        → (perform blake3 m h event_id payload).0 ≡ r
        → IsCoherent (perform blake3 m h event_id payload).1
          ⊎ ((envelope : EventEnvelope) × ((perform blake3 m h event_id payload).0 ≡ ok envelope)
              × (commitment blake3 envelope ≡ zero_hash))
    go (err x) e = inl (
        perform-MintsNonzero blake3 m h event_id payload c
          (λ envelope minted. absurd (cc (sym e ∙ minted))))
    go (ok envelope) e = elim (Bool-cases (bytes_eq (commitment blake3 envelope) zero_hash)) [
      | inl found ↦ inr (envelope, e, (bytes_eq_iff (commitment blake3 envelope) zero_hash).0 found)
      | inr nonzero ↦ inl (
          perform-MintsNonzero blake3 m h event_id payload c (λ other minted is_zero.
            let same : envelope ≡ other = cc (sym e ∙ minted) in
            false≢true (
              sym nonzero
              ∙ (bytes_eq_iff (commitment blake3 envelope) zero_hash).1
                  (ap (λ x. commitment blake3 x) same ∙ is_zero))))
    ]
