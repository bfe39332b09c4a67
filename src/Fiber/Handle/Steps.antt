-- ===== src/Fiber/Handle/Steps.antt =====
-- The three methods of a handle against the lifecycle of a fiber.
use pardosa.Prelude.Bytes.{Bytes, bytes_eq}
use pardosa.Prelude.Words.{u32_max}
use pardosa.Failure.{Result, OperationFailure, ok, err, invariant_breaking_configuration}
use pardosa.Prelude.{
  ◌+◌, ◌≤◌, ◌<◌, ◌≡◌, inl, inr, false, arith, leb, if◌then◌else◌, leb→le, leb-false→lt, Bool-cases,
  length, String, refl, leb-eq-true,
}
use pardosa.Encoding.Envelope
use pardosa.Encoding.Envelope.{EventEnvelope, commitment, genesis, envelope_wire_len}
use pardosa.Encoding.Envelope.RoundTrip.{envelope_wire_len-eq-ok, envelope_wire_len-eq-err}
use pardosa.Encoding.Envelope.Header.{zero_id, zero_hash}
use pardosa.Fiber.State.{
  FiberState, undefined, defined, detached, purged, locked, AttemptedTransition, create, update,
  IllegalStateTransition, apply_action,
}
use pardosa.Fiber.Handle.{
  FiberHandle, Outcome, max_events_per_fiber, append, detach, rescue, check_event, mint_genesis,
  append_in, detach_in, rescue_in, advance,
}

-- The methods, and the action of the lifecycle that each stands for: an append creates a fiber that
-- has no tip and updates any other.
pub data Method : Type 0 where
  appending detaching rescuing : Method

unfoldable pub perform : (blake3 : Bytes → Bytes) → Method → FiberHandle → Bytes → Bytes → Outcome
perform blake3 appending = append blake3
perform blake3 detaching = detach blake3
perform blake3 rescuing = rescue blake3

unfoldable pub action_of : Method → FiberState → AttemptedTransition
action_of appending undefined = create
action_of appending purged = create
action_of appending _ = update
action_of detaching _ = AttemptedTransition.detach
action_of rescuing _ = AttemptedTransition.rescue

-- `EventEnvelope::genesis` on an identifier that is not zero.
pub genesis_total :
    (event_id fiber_id payload : Bytes)
    → bytes_eq event_id zero_id ≡ false
    → genesis event_id fiber_id payload ≡ (
        if leb (length payload + 85) u32_max
        then ok (record {
          header = record {
            event_id = event_id;
            fiber_id = fiber_id;
            detached = false;
            precursor = zero_id;
            precursor_hash = zero_hash;
          };
          payload = payload;
        })
        else err Envelope.too_long_error)
unfolding genesis
genesis_total event_id fiber_id payload nonzero =
    elim (Bool-cases (leb (length payload + 85) u32_max)) [
      | inl fits ↦ rw (nonzero, envelope_wire_len-eq-ok (length payload) (leb→le _ _ fits), fits)
      | inr big ↦
          rw (nonzero, envelope_wire_len-eq-err (length payload) (leb-false→lt _ _ big), big)
    ]

pub check_event-eq-ok :
    (h : FiberHandle) (event_id : Bytes) {u : Unit {0}}
    → check_event h event_id ≡ ok u
    → (bytes_eq event_id zero_id ≡ false)
      × (bytes_eq event_id h.precursor ≡ false)
      × (h.event_count < max_events_per_fiber)
unfolding check_event
check_event-eq-ok h event_id e = ground arith

-- The outcome of a method agrees with the lifecycle: where the action has a target, the handle is
-- in it, the event is counted and is the tip, and the envelope is the handle's; where it has none
-- the call is refused and the handle is as it was.
abbrev pub Agrees :
    (Bytes → Bytes)
    → FiberHandle
    → Bytes
    → Bytes
    → Result IllegalStateTransition FiberState
    → Outcome
    → Type 0
Agrees blake3 h event_id payload (ok t) (ok env, h') =
    (h' ≡ record {
      fiber_id = h.fiber_id;
      state = t;
      precursor = event_id;
      precursor_hash = commitment blake3 env;
      event_count = h.event_count + 1;
    })
    × (env.header.event_id ≡ event_id)
    × (env.header.fiber_id ≡ h.fiber_id)
    × (env.payload ≡ payload)
Agrees blake3 h event_id payload (ok t) (err e, h') = ⊥
Agrees blake3 h event_id payload (err x) (ok env, h') = ⊥
Agrees blake3 h event_id payload (err x) (err e, h') =
    (h' ≡ h) × (e.condition ≡ invariant_breaking_configuration)

mint_genesis-Agrees :
    (blake3 : Bytes → Bytes) (h : FiberHandle) (event_id payload : Bytes) (detail : String)
    → bytes_eq event_id zero_id ≡ false
    → length payload + 85 ≤ u32_max
    → Agrees blake3 h event_id payload (ok defined) (mint_genesis blake3 h event_id payload detail)
unfolding mint_genesis advance
mint_genesis-Agrees blake3 h event_id payload detail nonzero fits =
    let minted =
      rw (leb-eq-true (length payload + 85) u32_max fits) at
        (genesis_total event_id h.fiber_id payload nonzero) in
    rw (minted, mint_genesis) (refl, refl, refl, refl)

append_in-Agrees :
    (blake3 : Bytes → Bytes) (s : FiberState) (h : FiberHandle) (event_id payload : Bytes)
    → h.state ≡ s
    → bytes_eq event_id zero_id ≡ false
    → length payload + 85 ≤ u32_max
    → Agrees blake3 h event_id payload
        (apply_action s (action_of appending s))
        (append_in blake3 s h event_id payload)
unfolding action_of apply_action append_in advance
append_in-Agrees blake3 undefined h event_id payload e nz fits =
    mint_genesis-Agrees blake3 h event_id payload _ nz fits
append_in-Agrees blake3 purged h event_id payload e nz fits =
    mint_genesis-Agrees blake3 h event_id payload _ nz fits
append_in-Agrees blake3 defined h event_id payload e nz fits = (rw e, refl, refl, refl)
append_in-Agrees blake3 detached h event_id payload e nz fits = (refl, refl)
append_in-Agrees blake3 locked h event_id payload e nz fits = (refl, refl)

detach_in-Agrees :
    (blake3 : Bytes → Bytes) (s : FiberState) (h : FiberHandle) (event_id payload : Bytes)
    → Agrees blake3 h event_id payload
        (apply_action s (action_of detaching s))
        (detach_in blake3 s h event_id payload)
unfolding action_of apply_action detach_in advance
detach_in-Agrees blake3 defined h event_id payload = (refl, refl, refl, refl)
detach_in-Agrees blake3 _ h event_id payload = (refl, refl)

rescue_in-Agrees :
    (blake3 : Bytes → Bytes) (s : FiberState) (h : FiberHandle) (event_id payload : Bytes)
    → bytes_eq event_id zero_id ≡ false
    → length payload + 85 ≤ u32_max
    → Agrees blake3 h event_id payload
        (apply_action s (action_of rescuing s))
        (rescue_in blake3 s h event_id payload)
unfolding action_of apply_action rescue_in advance
rescue_in-Agrees blake3 detached h event_id payload nz fits = (refl, refl, refl, refl)
rescue_in-Agrees blake3 locked h event_id payload nz fits =
    mint_genesis-Agrees blake3 h event_id payload _ nz fits
rescue_in-Agrees blake3 _ h event_id payload nz fits = (refl, refl)

-- On an admitted identifier and a payload that fits a frame, each method does in each state just
-- what the lifecycle says of its action.
pub perform-Agrees :
    (blake3 : Bytes → Bytes) (m : Method) (h : FiberHandle) (event_id payload : Bytes)
    → check_event h event_id ≡ ok tt
    → length payload + 85 ≤ u32_max
    → Agrees blake3 h event_id payload
        (apply_action h.state (action_of m h.state))
        (perform blake3 m h event_id payload)
unfolding perform append detach rescue
perform-Agrees blake3 appending h event_id payload admitted fits =
    rw (admitted, append)
      (append_in-Agrees blake3 h.state h event_id payload refl
        (check_event-eq-ok h event_id admitted).0 fits)
perform-Agrees blake3 detaching h event_id payload admitted fits =
    rw (admitted, detach) (detach_in-Agrees blake3 h.state h event_id payload)
perform-Agrees blake3 rescuing h event_id payload admitted fits =
    rw (admitted, rescue)
      (rescue_in-Agrees blake3 h.state h event_id payload (check_event-eq-ok h event_id admitted).0
        fits)

-- A refused call leaves the handle as it was, in every state and for every identifier and payload.
pub perform_error_unchanged :
    (blake3 : Bytes → Bytes) (m : Method) (h : FiberHandle) (event_id payload : Bytes)
    {e : OperationFailure}
    → (perform blake3 m h event_id payload).0 ≡ err e
    → (perform blake3 m h event_id payload).1 ≡ h
unfolding perform append detach rescue
perform_error_unchanged blake3 appending h event_id payload r = ground arith
perform_error_unchanged blake3 detaching h event_id payload r = ground arith
perform_error_unchanged blake3 rescuing h event_id payload r = ground arith
