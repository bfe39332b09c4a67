-- ===== src/Fiber/State/Lifecycle.antt =====
-- The transition relation of the lifecycle, and what it says of histories.
use pardosa.Failure.{ok, err, Result}
use pardosa.Prelude.{◌≡◌, refl, ◌⊎◌, arith, ap, ◌∙◌, inl, inr, false, List, [], ◌∷◌}
use pardosa.Fiber.State.{
  FiberState, undefined, defined, detached, purged, locked, keep, purge, lock_and_prune,
  AttemptedTransition, create, update, detach, rescue, migrate, illegal, apply_action,
  is_reopened_valid, IllegalStateTransition,
}

-- The ten transitions of the specification.
pub data Transition : FiberState → AttemptedTransition → FiberState → Type 0 where
  create_new : Transition undefined create defined
  create_again : Transition purged create defined
  update_defined : Transition defined update defined
  detach_defined : Transition defined detach detached
  rescue_detached : Transition detached rescue defined
  rescue_locked : Transition locked rescue defined
  keep_detached : Transition detached (migrate keep) detached
  purge_detached : Transition detached (migrate purge) purged
  lock_detached : Transition detached (migrate lock_and_prune) locked
  purge_locked : Transition locked (migrate purge) purged

ruleset transitions = (
  create_new, create_again, update_defined, detach_defined, rescue_detached, rescue_locked,
  keep_detached, purge_detached, lock_detached, purge_locked,
)

apply_action-of_Transition :
    {s t : FiberState} {a : AttemptedTransition} → Transition s a t → apply_action s a ≡ ok t
unfolding apply_action
apply_action-of_Transition create_new = refl
apply_action-of_Transition create_again = refl
apply_action-of_Transition update_defined = refl
apply_action-of_Transition detach_defined = refl
apply_action-of_Transition rescue_detached = refl
apply_action-of_Transition rescue_locked = refl
apply_action-of_Transition keep_detached = refl
apply_action-of_Transition purge_detached = refl
apply_action-of_Transition lock_detached = refl
apply_action-of_Transition purge_locked = refl

Transition-of_apply_action :
    (s : FiberState) (a : AttemptedTransition) {t : FiberState}
    → apply_action s a ≡ ok t
    → Transition s a t
unfolding apply_action
Transition-of_apply_action s a h = grind (arith, transitions)

err-apply_action :
    (s : FiberState) (a : AttemptedTransition) {x : IllegalStateTransition}
    → apply_action s a ≡ err x
    → x ≡ illegal s a
unfolding apply_action
err-apply_action s a h = ground arith

-- `apply_action` decides the relation: it returns the target of the transition where there is one,
-- and refuses with its own arguments just where the specification has none.
pub apply_action-Transition :
    (s : FiberState) (a : AttemptedTransition)
    → ((t : FiberState) × Transition s a t × (apply_action s a ≡ ok t))
      ⊎ (((t : FiberState) → ¬ Transition s a t) × (apply_action s a ≡ err (illegal s a)))
apply_action-Transition s a = go (apply_action s a) refl
  where
    go :
        (r : Result IllegalStateTransition FiberState)
        → apply_action s a ≡ r
        → ((t : FiberState) × Transition s a t × (apply_action s a ≡ ok t))
          ⊎ (((t : FiberState) → ¬ Transition s a t) × (apply_action s a ≡ err (illegal s a)))
    go (ok t) e = inl (t, Transition-of_apply_action s a e, e)
    go (err x) e =
        inr (λ t tr. cc (apply_action-of_Transition tr, e), e ∙ ap err (err-apply_action s a e))

-- Histories: the actions, the last one first.
pub data History (s : FiberState) : List AttemptedTransition → FiberState → Type 0 where
  start : History s [] s
  followed_by :
      {actions : List AttemptedTransition} {t u : FiberState} (a : AttemptedTransition)
      → History s actions t
      → apply_action t a ≡ ok u
      → History s (a ∷ actions) u

-- What the last step of a history that is not reopenable must have been.
last_lock :
    (t u : FiberState) (a : AttemptedTransition)
    → apply_action t a ≡ ok u
    → is_reopened_valid u ≡ false
    → a ≡ migrate lock_and_prune
unfolding apply_action is_reopened_valid
last_lock t u a h = ground arith

-- A state that may not be found in a reopened store is there from the start, or the history ends
-- with a migration that locks and prunes.
pub lock_needs_migration :
    {s t : FiberState} {actions : List AttemptedTransition}
    → History s actions t
    → is_reopened_valid t ≡ false
    → (s ≡ t) ⊎ ((bs : List AttemptedTransition) × (actions ≡ migrate lock_and_prune ∷ bs))
lock_needs_migration start h = inl refl
lock_needs_migration (followed_by {actions} {t} {u} a before step) h =
    inr (actions, ap (λ (b : AttemptedTransition). b ∷ actions) (last_lock t u a step h))
