-- ===== src/Failure.antt =====
-- The error vocabulary: `ValueConstraint`, `DecodeError` and `EncodeError` of
-- crates/pardosa/src/encoding.rs, `CausalChainError`, `FailureCondition` and `OperationFailure` of
-- crates/pardosa/src/store.rs, and `Result`.
use pardosa.Prelude.{ℕ, String, ◌≡◌, refl, Bool, true, false, Option, none, some}

pub data Result {ℓ} (E : Type 0) (A : Type ℓ) : Type ℓ where
  ok : A → Result E A
  err : E → Result E A

-- The operator `?`.
infixl 5 ◌>>=◌ ◌>>◌
abbrev pub ◌>>=◌ {ℓ κ} :
    {E : Type 0} {A : Type ℓ} {B : Type κ} → Result E A → (A → Result E B) → Result E B
err e >>= k = err e
ok a >>= k = k a

abbrev pub ◌>>◌ {ℓ} : {E : Type 0} {B : Type ℓ} → Result E (Unit {0}) → Result E B → Result E B
m >> k = m >>= λ _. k

-- `if test { return Err(e) }`.
abbrev pub refuse_if : {E : Type 0} → Bool → E → Result E (Unit {0})
refuse_if true e = err e
refuse_if false e = ok tt

abbrev pub map_err {ℓ} : {E F : Type 0} {A : Type ℓ} → (E → F) → Result E A → Result F A
map_err f (ok a) = ok a
map_err f (err e) = err (f e)

abbrev pub ok_or {ℓ} : {E : Type 0} {A : Type ℓ} → Option A → E → Result E A
ok_or (some a) e = ok a
ok_or none e = err e

pub >>=-eq-ok {ℓ κ} :
    {E : Type 0} {A : Type ℓ} {B : Type κ} (call : Result E A) (rest : A → Result E B) {b : B}
    → call >>= rest ≡ ok b
    → (a : A) × (call ≡ ok a) × (rest a ≡ ok b)
>>=-eq-ok (err e) rest returned = cc
>>=-eq-ok (ok a) rest returned = (a, refl, returned)

pub >>=_assoc {ℓ κ μ} :
    {E : Type 0} {A : Type ℓ} {B : Type κ} {C : Type μ} (m : Result E A) (f : A → Result E B)
    (g : B → Result E C)
    → (m >>= λ a. f a >>= g) ≡ ((m >>= f) >>= g)
>>=_assoc (err e) f g = refl
>>=_assoc (ok a) f g = refl

pub >>=-ok {ℓ} : {E : Type 0} {A : Type ℓ} (m : Result E A) → (m >>= λ a. ok a) ≡ m
>>=-ok (err e) = refl
>>=-ok (ok a) = refl

pub map_err-eq-ok {ℓ} :
    {E F : Type 0} {A : Type ℓ} (f : E → F) (r : Result E A) {a : A} → map_err f r ≡ ok a → r ≡ ok a
map_err-eq-ok f (ok b) h = cc
map_err-eq-ok f (err e) h = cc

pub ok_or-eq-ok : {E A : Type 0} (x : Option A) (e : E) {a : A} → ok_or x e ≡ ok a → x ≡ some a
ok_or-eq-ok none e h = absurd (cc h)
ok_or-eq-ok (some b) e h = cc h

pub refuse_if-eq-ok :
    {E : Type 0} (b : Bool) (e : E) {u : Unit {0}} → refuse_if b e ≡ ok u → b ≡ false
refuse_if-eq-ok true e h = cc
refuse_if-eq-ok false e h = refl

pub data ValueConstraint : Type 0 where
  too_long empty not_real invalid_char invalid_utf8 : ValueConstraint

pub data DecodeError : Type 0 where
  invalid_magic : DecodeError
  unsupported_format_version : ℕ → DecodeError
  checksum_mismatch : (computed recorded : ℕ) → DecodeError
  truncated_payload : (expected available : ℕ) → DecodeError
  truncated_header : (expected available : ℕ) → DecodeError
  invalid_boolean_discriminant : ℕ → DecodeError
  invalid_boolean : ℕ → DecodeError
  length_exceeded : (length max : ℕ) → DecodeError
  empty_non_empty_string : DecodeError
  invalid_utf8_bytes : DecodeError
  item_count_exceeded : (count max : ℕ) → DecodeError
  invalid_option_tag : ℕ → DecodeError
  unknown_variant_discriminant : ℕ → DecodeError
  invalid_timestamp_sentinel : DecodeError
  unknown_record_tag : ℕ → DecodeError
  unknown_constructor_tag : ℕ → DecodeError
  unknown_partitioning_rule_tag : ℕ → DecodeError
  invalid_migration_status : ℕ → DecodeError
  invalid_rescue_policy : ℕ → DecodeError
  invalid_discriminant_width : ℕ → DecodeError
  cycle_detected : String → DecodeError
  unterminated_descriptor : DecodeError
  value_constraint_violated : ValueConstraint → DecodeError
  custom : String → DecodeError

pub data CausalChainError : Type 0 where
  precursor_out_of_range precursor_wrong_fiber : CausalChainError

pub data FailureCondition : Type 0 where
  store_already_exists no_artefact_exists concurrency_conflict stale_epoch : FailureCondition
  ownership_unestablished ownership_record_unreadable exclusion_unavailable : FailureCondition
  another_owner_holds_exclusion migration_exclusion_absent : FailureCondition
  migration_already_running : FailureCondition
  precursor_chain_broken : Option CausalChainError → FailureCondition
  uncovered_partition_membership schema_mismatch envelope_mismatch : FailureCondition
  mismatch_undetermined_subject artefact_mismatch : FailureCondition
  value_constraint_violated : ValueConstraint → FailureCondition
  unrecognised_wire_tag : ℕ → FailureCondition
  invariant_breaking_configuration missing_schema_descriptor : FailureCondition
  transformation_refused retired_migration_source transport_unavailable : FailureCondition

-- The `source` of a failure, an error object for display, is left out: `==` does not read it.
pub record OperationFailure : Type 0 where
  pub condition : FailureCondition
  pub detail : String

-- `OperationFailure::new`.
abbrev pub failure : FailureCondition → String → OperationFailure
failure c d = record { condition = c; detail = d }

abbrev pub too_long_failure : String → OperationFailure
too_long_failure = failure (FailureCondition.value_constraint_violated too_long)

abbrev pub chain_failure : String → OperationFailure
chain_failure = failure (precursor_chain_broken none)

-- `matches!(err.condition(), FailureCondition::PrecursorChainBroken(_))`.
abbrev pub is_chain_broken : OperationFailure → Bool
is_chain_broken e = elim (e.condition) [ precursor_chain_broken _ ↦ true | _ ↦ false ]

-- The call is refused, under this condition.
abbrev pub FailsWith {ℓ} : {A : Type ℓ} → Result OperationFailure A → FailureCondition → Type 0
FailsWith (ok a) c = ⊥
FailsWith (err e) c = e.condition ≡ c
