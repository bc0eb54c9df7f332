-- ===== src/Postgres/Errors.antt =====
-- db/errors.py: the adapter's errors, and what a call that may raise gives back.
use ezsql.Base.{String, Bool, true, false, Option, none, some, ◌≡◌, refl}

pub data DbErrorCategory : Type 0 where
  invalid_database_config database_version_unsupported unsafe_database_role : DbErrorCategory
  db_connection_failed db_acquire_timeout db_adapter_limit explain_timeout : DbErrorCategory
  explain_total_timeout statement_blocked parameter_types_required : DbErrorCategory
  explain_parse_failed plan_too_large db_internal_error : DbErrorCategory

pub record DbAdapterError : Type 0 where
  pub category : DbErrorCategory
  pub detail : String
  pub driver_exception : Option String

abbrev pub error : DbErrorCategory → String → DbAdapterError
error category detail = record { category = category; detail = detail; driver_exception = none }

-- A call returns a value, raises an error of the adapter, or raises anything else.
pub data Outcome {ℓ} (A : Type ℓ) : Type ℓ where
  returns : (value : A) → Outcome A
  raises : DbAdapterError → Outcome A
  raises_other : Outcome A

infixl 5 ◌>>=◌
abbrev pub ◌>>=◌ {ℓ κ} : {A : Type ℓ} {B : Type κ} → Outcome A → (A → Outcome B) → Outcome B
returns value >>= next = next value
raises e >>= next = raises e
raises_other >>= next = raises_other

-- What may raise something else than an error of the adapter.
abbrev pub attempt {ℓ} : {A : Type ℓ} → Option A → Outcome A
attempt none = raises_other
attempt (some a) = returns a

-- `if not test: raise e`
abbrev pub demand : Bool → DbAdapterError → Outcome (Unit {0})
demand true e = returns tt
demand false e = raises e

abbrev pub Ensures {ℓ κ} : {A : Type ℓ} → Outcome A → (A → Type κ) → Type κ
Ensures (returns a) P = P a
Ensures _ P = Unit

pub Ensures-bind {ℓ κ μ ν} :
    {A : Type ℓ} {B : Type κ} (m : Outcome A) (f : A → Outcome B) (P : A → Type μ) (Q : B → Type ν)
    → Ensures m P
    → ((a : A) → P a → Ensures (f a) Q)
    → Ensures (m >>= f) Q
Ensures-bind (returns a) f P Q h k = k a h
Ensures-bind (raises e) f P Q h k = tt
Ensures-bind raises_other f P Q h k = tt

pub Ensures-self {ℓ} : {A : Type ℓ} (m : Outcome A) → Ensures m (λ a. m ≡ returns a)
Ensures-self (returns a) = refl
Ensures-self (raises e) = tt
Ensures-self raises_other = tt

pub Ensures-demand : (b : Bool) (e : DbAdapterError) → Ensures (demand b e) (λ _. b ≡ true)
Ensures-demand true e = refl
Ensures-demand false e = tt

pub Ensures-elim {ℓ κ} :
    {A : Type ℓ} (m : Outcome A) (P : A → Type κ) {a : A} → Ensures m P → m ≡ returns a → P a
Ensures-elim m P h e = rw e at h

pub Ensures-map {ℓ κ μ} :
    {A : Type ℓ} (m : Outcome A) (P : A → Type κ) (Q : A → Type μ)
    → ((a : A) → P a → Q a)
    → Ensures m P
    → Ensures m Q
Ensures-map (returns a) P Q f h = f a h
Ensures-map (raises e) P Q f h = tt
Ensures-map raises_other P Q f h = tt

pub Ensures-attempt {ℓ} : {A : Type ℓ} (o : Option A) → Ensures (attempt o) (λ a. o ≡ some a)
Ensures-attempt none = tt
Ensures-attempt (some a) = refl

-- What holds whatever a step returns.
pub Ensures-skip {ℓ κ ν} :
    {A : Type ℓ} {B : Type κ} (m : Outcome A) (f : A → Outcome B) (Q : B → Type ν)
    → ((a : A) → Ensures (f a) Q)
    → Ensures (m >>= f) Q
Ensures-skip (returns a) f Q k = k a
Ensures-skip (raises e) f Q k = tt
Ensures-skip raises_other f Q k = tt

-- What is known of an error that is raised.
abbrev pub Fails {ℓ κ} : {A : Type ℓ} → Outcome A → (DbAdapterError → Type κ) → Type κ
Fails (raises e) E = E e
Fails _ E = Unit

pub Fails-bind {ℓ κ μ} :
    {A : Type ℓ} {B : Type κ} (m : Outcome A) (f : A → Outcome B) (E : DbAdapterError → Type μ)
    → Fails m E
    → ((a : A) → Fails (f a) E)
    → Fails (m >>= f) E
Fails-bind (returns a) f E h k = k a
Fails-bind (raises e) f E h k = h
Fails-bind raises_other f E h k = tt

pub Fails-demand {μ} :
    (b : Bool) (e : DbAdapterError) (E : DbAdapterError → Type μ) → E e → Fails (demand b e) E
Fails-demand true e E h = tt
Fails-demand false e E h = h

pub Fails-elim {ℓ μ} :
    {A : Type ℓ} (m : Outcome A) (E : DbAdapterError → Type μ) {e : DbAdapterError}
    → Fails m E
    → m ≡ raises e
    → E e
Fails-elim m E h same = rw same at h
