-- ===== src/Outcome.antt =====
-- What a C++ call comes back with: a value, or the reason why it does not return normally.
use gr4_torchdsp.Prelude.{
  Bool, true, false, if◌then◌else◌, ◌≡◌, refl, ap, subst, Option, none, some, ◌⊎◌, inl, inr,
}

pub data Fault : Type 0 where
  -- an index past the end of a vector, or `back` and `[0]` of an empty one
  out_of_range : Fault
  -- a member call through a null pointer
  null_pointer : Fault
  div_by_zero : Fault
  -- a variable is read that nothing has written
  uninitialised : Fault
  -- a library's assertion does not hold
  assertion_failed : Fault
  -- `std::runtime_error`
  runtime_error : Fault
  -- a wait for a condition that nothing will signal
  blocked_forever : Fault
  -- the rounds given to a loop of the model are used up
  out_of_fuel : Fault

pub data Outcome {ℓ} (A : Type ℓ) : Type ℓ where
  ok : A → Outcome A
  fault : Fault → Outcome A

infixl 5 ◌>>=◌
abbrev pub ◌>>=◌ {ℓ κ} : {A : Type ℓ} {B : Type κ} → Outcome A → (A → Outcome B) → Outcome B
fault why >>= next = fault why
ok value >>= next = next value

-- `v[i]`, where the lookup gave an option.
abbrev pub at {ℓ} : {A : Type ℓ} → Option A → Outcome A
at none = fault out_of_range
at (some a) = ok a

-- `p->...`, where the pointer may be null.
abbrev pub deref {ℓ} : {A : Type ℓ} → Option A → Outcome A
deref none = fault null_pointer
deref (some a) = ok a

-- What a library gives only for the values that it asserts.
abbrev pub asserted {ℓ} : {A : Type ℓ} → Option A → Outcome A
asserted none = fault assertion_failed
asserted (some a) = ok a

-- A chain that succeeds has a first part that succeeds.
pub >>=-eq-ok {ℓ κ} :
    {A : Type ℓ} {B : Type κ} (first : Outcome A) (next : A → Outcome B) {result : B}
    → (first >>= next) ≡ ok result
    → (value : A) × (first ≡ ok value) × (next value ≡ ok result)
>>=-eq-ok (fault why) next chain = cc
>>=-eq-ok (ok value) next chain = (value, refl, chain)

pub Outcome-cases {ℓ} :
    {A : Type ℓ} (m : Outcome A) → ((a : A) × (m ≡ ok a)) ⊎ ((x : Fault) × (m ≡ fault x))
Outcome-cases (ok a) = inl (a, refl)
Outcome-cases (fault x) = inr (x, refl)

-- `P` of the value, if there is one.
abbrev pub Holds {ℓ κ} : {A : Type ℓ} → (A → Type κ) → Outcome A → Type κ
Holds P (ok a) = P a
Holds P (fault x) = Unit

pub Holds->>= {ℓ κ ι} :
    {A : Type ℓ} {B : Type κ} (P : B → Type ι) (m : Outcome A) (f : A → Outcome B)
    → ((a : A) → Holds P (f a))
    → Holds P (m >>= f)
Holds->>= P (ok a) f h = h a
Holds->>= P (fault x) f h = tt

pub Holds-ok {ℓ κ} :
    {A : Type ℓ} (P : A → Type κ) {m : Outcome A} {a : A} → m ≡ ok a → Holds P m → P a
Holds-ok P e h = subst (Holds P) e h

-- The same with what is known of the first value.
pub Holds-seq {ℓ κ ι ο} :
    {A : Type ℓ} {B : Type κ} (Q : A → Type ο) (P : B → Type ι) (m : Outcome A) (f : A → Outcome B)
    → Holds Q m
    → ((a : A) → Q a → Holds P (f a))
    → Holds P (m >>= f)
Holds-seq Q P (ok a) f q h = h a q
Holds-seq Q P (fault x) f q h = tt

abbrev second : {A B : Type 0} → B → Outcome (A × B) → B
second d (ok x) = x.1
second d (fault f) = d

pub ok-snd : {A B : Type 0} {a : A} {b : B} {x : A × B} → ok x ≡ ok (a, b) → x.1 ≡ b
ok-snd {b = b} e = ap (second b) e

abbrev first : {A B : Type 0} → A → Outcome (A × B) → A
first d (ok x) = x.0
first d (fault f) = d

pub ok-fst : {A B : Type 0} {a : A} {b : B} {x : A × B} → ok x ≡ ok (a, b) → x.0 ≡ a
ok-fst {a = a} e = ap (first a) e

pub if_fault-ok {ℓ} :
    {A : Type ℓ} (test : Bool) (m : Outcome A) (why : Fault) {a : A}
    → (if test then m else fault why) ≡ ok a
    → m ≡ ok a
if_fault-ok true m why e = e
if_fault-ok false m why e = cc

pub ok-injective {ℓ} : {A : Type ℓ} {a b : A} → ok a ≡ ok b → a ≡ b
ok-injective e = cc
