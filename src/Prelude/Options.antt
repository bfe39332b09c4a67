-- ===== src/Prelude/Options.antt =====
-- Options and tests that came out one way.
use mathlib.Core.Option
use mathlib.Core.Option.{Option, none, some}
use mathlib.Core.Path.{◌≡◌, refl}
use mathlib.Core.Bool.{Bool, true, false, not}
use pardosa.Prelude.Tests.{if◌then◌else◌}
use pardosa.Prelude.Words.{is_some}

pub else-eq-some :
    {A : Type 0} (b : Bool) (x : Option A) {a : A}
    → (if b then none else x) ≡ some a
    → (b ≡ false) × (x ≡ some a)
else-eq-some true x h = absurd (cc h)
else-eq-some false x h = (refl, h)

pub map-eq-some :
    {A B : Type 0} (f : A → B) (x : Option A) {b : B}
    → Option.map f x ≡ some b
    → (a : A) × (x ≡ some a) × (f a ≡ b)
map-eq-some f none h = absurd (cc h)
map-eq-some f (some a) h = (a, refl, cc h)

pub is_some-eq-false : {A : Type 0} (x : Option A) → is_some x ≡ false → x ≡ none
is_some-eq-false none h = refl
is_some-eq-false (some a) h = absurd (cc h)

pub not-eq-false : (b : Bool) → not b ≡ false → b ≡ true
not-eq-false true h = refl
not-eq-false false h = absurd (cc h)

pub map-eq-none : {A B : Type 0} (f : A → B) (x : Option A) → Option.map f x ≡ none → x ≡ none
map-eq-none f none h = refl
map-eq-none f (some a) h = absurd (cc h)
