-- ===== src/Prelude/Outcomes.antt =====
-- What a Go function returns: a value, an error, a panic, or, in the model alone, no more fuel;
-- and actions, which pass a state on whatever they return.
use Prim.Native.String.{String}
use mathlib.Core.Bool.{Bool, true, false}
use mathlib.Core.Option.{Option, none, some}
use mathlib.Core.Path.{◌≡◌, refl}
use mathlib.Core.Logic.{◌⊎◌, inl, inr}
use native.Mathlib.Omega.{arith}

-- The texts are the format strings of the source, with no arguments put in. `wrap` is a format
-- with `%w` and the error that it wraps. `redis.Nil` and `gorm.ErrRecordNotFound` say that a key or
-- a row is missing.
pub data Error : Type 0 where
  node_already_exists self_dependency redis_nil record_not_found : Error
  errorf : String → Error
  wrap : String → Error → Error

pub data Outcome (A : Type 0) : Type 0 where
  ok : A → Outcome A
  err : Error → Outcome A
  panic : Outcome A
  out_of_fuel : Outcome A

abbrev pub bind : {A B : Type 0} → Outcome A → (A → Outcome B) → Outcome B
bind (ok a) f = f a
bind (err e) f = err e
bind panic f = panic
bind out_of_fuel f = out_of_fuel

-- `if err != nil { return fmt.Errorf(text, err) }`
abbrev pub wrapping : {A : Type 0} → String → Outcome A → Outcome A
wrapping text (ok a) = ok a
wrapping text (err e) = err (wrap text e)
wrapping text panic = panic
wrapping text out_of_fuel = out_of_fuel

abbrev or_panic : {A : Type 0} → Option A → Outcome A
or_panic (some a) = ok a
or_panic none = panic

abbrev pub Action : Type 0 → Type 0 → Type 0
Action S A = S → Outcome A × S

abbrev pub continue : {S A B : Type 0} → (A → Action S B) → Outcome A × S → Outcome B × S
continue f (ok a, s) = f a s
continue f (err e, s) = (err e, s)
continue f (panic, s) = (panic, s)
continue f (out_of_fuel, s) = (out_of_fuel, s)

infixl 5 ◌>>=◌ ◌>>◌
abbrev pub ◌>>=◌ : {S A B : Type 0} → Action S A → (A → Action S B) → Action S B
◌>>=◌ m f s = continue f (m s)

abbrev pub ◌>>◌ : {S B : Type 0} → Action S (Unit {0}) → Action S B → Action S B
m >> k = m >>= λ _. k

abbrev pub pure : {S A : Type 0} → A → Action S A
pure a s = (ok a, s)

abbrev pub throw : {S A : Type 0} → Error → Action S A
throw e s = (err e, s)

abbrev pub lift : {S A : Type 0} → Outcome A → Action S A
lift r s = (r, s)

abbrev pub context : {S A : Type 0} → String → Action S A → Action S A
context text m s = let (r, s') = m s in (wrapping text r, s')

-- `if err != nil { return fmt.Errorf(text, err) }` of a format that does not wrap
abbrev reporting : {S A : Type 0} → String → Outcome A × S → Outcome A × S
reporting text (ok a, s) = (ok a, s)
reporting text (err e, s) = (err (errorf text), s)
reporting text (panic, s) = (panic, s)
reporting text (out_of_fuel, s) = (out_of_fuel, s)

abbrev pub report : {S A : Type 0} → String → Action S A → Action S A
report text m s = reporting text (m s)

reporting_state : {S A : Type 0} (text : String) (r : Outcome A × S) → (reporting text r).1 ≡ r.1
reporting_state text (ok a, s) = refl
reporting_state text (err e, s) = refl
reporting_state text (panic, s) = refl
reporting_state text (out_of_fuel, s) = refl

pub report_state :
    {S A : Type 0} (text : String) (m : Action S A) (s : S) → (report text m s).1 ≡ (m s).1
report_state text m s = reporting_state text (m s)

-- `if err != nil { return err }` of an error that a test injects
abbrev pub fail_if : {S : Type 0} → Option Error → Action S (Unit {0})
fail_if none s = (ok tt, s)
fail_if (some e) s = (err e, s)

-- `v, exists := …; if !exists { return nil, fmt.Errorf(text) }`
abbrev pub or_error : {S A : Type 0} → String → Option A → Action S A
or_error text (some a) s = (ok a, s)
or_error text none s = (err (errorf text), s)

abbrev pub gets : {S A : Type 0} → (S → A) → Action S A
gets f s = (ok (f s), s)

abbrev pub modify : {S : Type 0} → (S → S) → Action S (Unit {0})
modify f s = (ok tt, f s)

-- `if v, err := m(); err == nil { found } else { missing }`
abbrev pub attempt :
    {S A B : Type 0} → Outcome A × S → (A → Action S B) → (Error → Action S B) → Outcome B × S
attempt (ok a, s) found missing = found a s
attempt (err e, s) found missing = missing e s
attempt (panic, s) found missing = (panic, s)
attempt (out_of_fuel, s) found missing = (out_of_fuel, s)

-- a call through a nil pointer or interface panics
abbrev pub deref : {S A : Type 0} → Option A → Action S A
deref (some a) s = (ok a, s)
deref none s = (panic, s)

abbrev pub guard : {S : Type 0} → Bool → Error → Action S (Unit {0})
guard true e s = (ok tt, s)
guard false e s = (err e, s)

-- `if p == nil { return nil, e }`
abbrev pub require : {S A : Type 0} → Option A → Error → Action S A
require (some a) e s = (ok a, s)
require none e s = (err e, s)

-- What holds behind an attempt, where it holds behind each way to go on.
pub attempt-keeps :
    {S A B : Type 0} (P Q : S → Type 0) (t : Outcome A × S) (f : A → Action S B)
    (g : Error → Action S B)
    → P t.1
    → ((s : S) → P s → Q s)
    → ((a : A) (s : S) → P s → Q (f a s).1)
    → ((e : Error) (s : S) → P s → Q (g e s).1)
    → Q (attempt t f g).1
attempt-keeps P Q (ok a, s) f g p weak found missing = found a s p
attempt-keeps P Q (err e, s) f g p weak found missing = missing e s p
attempt-keeps P Q (panic, s) f g p weak found missing = weak s p
attempt-keeps P Q (out_of_fuel, s) f g p weak found missing = weak s p

pub continue-keeps :
    {S A B : Type 0} (P : S → Type 0) (t : Outcome A × S) (f : A → Action S B)
    → P t.1
    → ((a : A) (s : S) → P s → P (f a s).1)
    → P (continue f t).1
continue-keeps P (ok a, s) f p next = next a s p
continue-keeps P (err e, s) f p next = p
continue-keeps P (panic, s) f p next = p
continue-keeps P (out_of_fuel, s) f p next = p

-- Also to another property, that the first part may end with.
pub continue-leads :
    {S A B : Type 0} (P Q : S → Type 0) (t : Outcome A × S) (f : A → Action S B)
    → P t.1
    → ((s : S) → P s → Q s)
    → ((a : A) (s : S) → P s → Q (f a s).1)
    → Q (continue f t).1
continue-leads P Q (ok a, s) f p weak next = next a s p
continue-leads P Q (err e, s) f p weak next = weak s p
continue-leads P Q (panic, s) f p weak next = weak s p
continue-leads P Q (out_of_fuel, s) f p weak next = weak s p

-- Also with what the first part returned.
pub continue-keeps_ok :
    {S A B : Type 0} (P : S → Type 0) (t : Outcome A × S) (f : A → Action S B)
    → P t.1
    → ((a : A) (s : S) → t ≡ (ok a, s) → P s → P (f a s).1)
    → P (continue f t).1
continue-keeps_ok P (ok a, s) f p next = next a s refl p
continue-keeps_ok P (err e, s) f p next = p
continue-keeps_ok P (panic, s) f p next = p
continue-keeps_ok P (out_of_fuel, s) f p next = p

pub wrapping-ok :
    {S A : Type 0} (text : String) (t : Outcome A × S) (a : A) (s : S)
    → Path (Outcome A × S) (wrapping text t.0, t.1) (ok a, s)
    → t ≡ (ok a, s)
wrapping-ok text (ok b, r) a s h = h
wrapping-ok text (err e, r) a s h = ground (arith, h)
wrapping-ok text (panic, r) a s h = ground (arith, h)
wrapping-ok text (out_of_fuel, r) a s h = ground (arith, h)

abbrev pub is_ok : {A : Type 0} → Outcome A → Bool
is_ok (ok a) = true
is_ok (err e) = false
is_ok panic = false
is_ok out_of_fuel = false

pub Outcome-cases : {A : Type 0} (o : Outcome A) → ((a : A) × (o ≡ ok a)) ⊎ (is_ok o ≡ false)
Outcome-cases (ok a) = inl (a, refl)
Outcome-cases (err e) = inr refl
Outcome-cases panic = inr refl
Outcome-cases out_of_fuel = inr refl

pub Outcome-split :
    {A : Type 0} (o : Outcome A)
    → ((a : A) × (o ≡ ok a)) ⊎ ((e : Error) × (o ≡ err e)) ⊎ (o ≡ panic) ⊎ (o ≡ out_of_fuel)
Outcome-split (ok a) = inl (a, refl)
Outcome-split (err e) = inr (inl (e, refl))
Outcome-split panic = inr (inr (inl refl))
Outcome-split out_of_fuel = inr (inr (inr refl))
