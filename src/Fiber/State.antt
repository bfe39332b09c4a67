-- ===== src/Fiber/State.antt =====
-- The five states of a fiber and their transitions (`FiberState` of crates/pardosa/src/store.rs).
pub mod Lifecycle
use pardosa.Failure.{Result, ok, err}
use pardosa.Prelude.{Bool, true, false}

pub data FiberState : Type 0 where
  undefined defined detached purged locked : FiberState

pub data FiberMigrationPolicy : Type 0 where
  keep purge lock_and_prune : FiberMigrationPolicy

pub data LockedRescuePolicy : Type 0 where
  preserve_audit_trail accept_data_loss : LockedRescuePolicy

pub data AttemptedTransition : Type 0 where
  create update detach rescue : AttemptedTransition
  migrate : FiberMigrationPolicy → AttemptedTransition

-- The fields `from` and `attempted`.
pub data IllegalStateTransition : Type 0 where
  illegal : (source : FiberState) (attempted : AttemptedTransition) → IllegalStateTransition

-- `FiberState::apply_action`; `create`, `update`, `detach`, `rescue` and `migrate` call it with
-- their action.
unfoldable pub apply_action :
    FiberState → AttemptedTransition → Result IllegalStateTransition FiberState
apply_action defined detach = ok detached
apply_action detached (migrate keep) = ok detached
apply_action detached (migrate lock_and_prune) = ok locked
apply_action detached (migrate purge) = ok purged
apply_action locked (migrate purge) = ok purged
apply_action undefined create = ok defined
apply_action purged create = ok defined
apply_action defined update = ok defined
apply_action detached rescue = ok defined
apply_action locked rescue = ok defined
apply_action s a = err (illegal s a)

-- `FiberState::rescue_locked`, which does not read the policy.
unfoldable pub rescue_locked :
    FiberState → LockedRescuePolicy → Result IllegalStateTransition FiberState
rescue_locked locked policy = ok defined
rescue_locked s policy = err (illegal s rescue)

-- `FiberState::is_reopened_valid`.
unfoldable pub is_reopened_valid : FiberState → Bool
is_reopened_valid locked = false
is_reopened_valid _ = true

-- `==` on states.
abbrev pub state_eq : FiberState → FiberState → Bool
state_eq undefined undefined = true
state_eq defined defined = true
state_eq detached detached = true
state_eq purged purged = true
state_eq locked locked = true
state_eq _ _ = false
