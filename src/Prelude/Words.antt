-- ===== src/Prelude/Words.antt =====
-- Machine words: the bounds of `u32`, `u64` and `usize` (of a 64-bit target), and checked arithmetic.
use mathlib.Core.Path.{◌≡◌}
use mathlib.Core.Bool.{Bool, true, false}
use Prim.Native.Nat.{ℕ, ◌+◌, ◌%◌, min, ◌≤◌, ◌<◌}
use mathlib.Core.Option.{Option, none, some}
use pardosa.Prelude.Tests.{leb, if◌then◌else◌, leb-eq-true, leb-eq-false}

abbrev pub u32_max : ℕ
u32_max = 4294967295

abbrev pub u64_max : ℕ
u64_max = 18446744073709551615

abbrev pub usize_max : ℕ
usize_max = 18446744073709551615

-- `Option::and_then`, `Option::is_some` and `Option::filter`.
abbrev pub and_then {ℓ κ} : {A : Type ℓ} {B : Type κ} → Option A → (A → Option B) → Option B
and_then none f = none
and_then (some a) f = f a

abbrev pub is_some {ℓ} : {A : Type ℓ} → Option A → Bool
is_some (some a) = true
is_some none = false

abbrev pub filter_some {ℓ} : {A : Type ℓ} → (A → Bool) → Option A → Option A
filter_some p none = none
filter_some p (some a) = if p a then some a else none

-- `usize::checked_add`.
unfoldable pub checked_add : ℕ → ℕ → Option ℕ
checked_add a b = if leb (a + b) usize_max then some (a + b) else none

-- `u64::wrapping_add` and `u64::saturating_add`.
unfoldable pub wrapping_add : ℕ → ℕ → ℕ
wrapping_add a b = (a + b) % (u64_max + 1)

unfoldable pub saturating_add : ℕ → ℕ → ℕ
saturating_add a b = min (a + b) u64_max

-- `u32::try_from`.
unfoldable pub u32_try_from : ℕ → Option ℕ
u32_try_from a = if leb a u32_max then some a else none

pub checked_add-eq-some : (a b : ℕ) → a + b ≤ usize_max → checked_add a b ≡ some (a + b)
unfolding checked_add
checked_add-eq-some a b h = rw (leb-eq-true (a + b) usize_max h)

pub u32_try_from-eq-some : (a : ℕ) → a ≤ u32_max → u32_try_from a ≡ some a
unfolding u32_try_from
u32_try_from-eq-some a h = rw (leb-eq-true a u32_max h)

pub u32_try_from-eq-none : (a : ℕ) → u32_max < a → u32_try_from a ≡ none
unfolding u32_try_from
u32_try_from-eq-none a h = rw (leb-eq-false a u32_max h)
