-- ===== src/Storages/Agree.antt =====
-- Two backends agree on a call: both return the same value or both fail, and the states that they
-- leave are still related. The texts of the errors may differ.
use minefield.Prelude.{
  ◌≡◌, refl, wrapping, String, Error, Outcome, ok, err, panic, out_of_fuel, Action, context,
  continue, attempt, arith,
}

module _ {S T : Type 0} (Rel : S → T → Type 0) where
  pub data Agrees {A : Type 0} : Outcome A × S → Outcome A × T → Type 0 where
    both_ok : {a : A} {s : S} {t : T} → Rel s t → Agrees (ok a, s) (ok a, t)
    both_err : {e f : Error} {s : S} {t : T} → Rel s t → Agrees (err e, s) (err f, t)
    both_panic : {s : S} {t : T} → Rel s t → Agrees (panic, s) (panic, t)
    both_out_of_fuel : {s : S} {t : T} → Rel s t → Agrees (out_of_fuel, s) (out_of_fuel, t)

  pub continue-Agrees :
      {A C : Type 0} (x : Outcome A × S) (y : Outcome A × T) (f : A → Action S C)
      (g : A → Action T C)
      → Agrees x y
      → ((a : A) (s : S) (t : T) → x ≡ (ok a, s) → Rel s t → Agrees (f a s) (g a t))
      → Agrees (continue f x) (continue g y)
  continue-Agrees x y f g (both_ok {a} {s} {t} rel) next = next a s t refl rel
  continue-Agrees x y f g (both_err rel) next = both_err rel
  continue-Agrees x y f g (both_panic rel) next = both_panic rel
  continue-Agrees x y f g (both_out_of_fuel rel) next = both_out_of_fuel rel

  wrapping-Agrees :
      {A : Type 0} (text : String) (x : Outcome A × S) (y : Outcome A × T)
      → Agrees x y
      → Agrees (wrapping text x.0, x.1) (wrapping text y.0, y.1)
  wrapping-Agrees text x y (both_ok rel) = both_ok rel
  wrapping-Agrees text x y (both_err rel) = both_err rel
  wrapping-Agrees text x y (both_panic rel) = both_panic rel
  wrapping-Agrees text x y (both_out_of_fuel rel) = both_out_of_fuel rel

  pub context-Agrees :
      {A : Type 0} (text : String) (f : Action S A) (g : Action T A) (s : S) (t : T)
      → Agrees (f s) (g t)
      → Agrees (context text f s) (context text g t)
  context-Agrees text f g s t h = wrapping-Agrees text (f s) (g t) h

  pub attempt-Agrees :
      {A C : Type 0} (x : Outcome A × S) (y : Outcome A × T) (f : A → Action S C)
      (g : A → Action T C) (f' : Error → Action S C) (g' : Error → Action T C)
      → Agrees x y
      → ((a : A) (s : S) (t : T) → x ≡ (ok a, s) → Rel s t → Agrees (f a s) (g a t))
      → ((e e' : Error) (s : S) (t : T) → x ≡ (err e, s) → Rel s t → Agrees (f' e s) (g' e' t))
      → Agrees (attempt x f f') (attempt y g g')
  attempt-Agrees x y f g f' g' (both_ok {a} {s} {t} rel) found missing = found a s t refl rel
  attempt-Agrees x y f g f' g' (both_err {e} {f = e'} {s} {t} rel) found missing =
      missing e e' s t refl rel
  attempt-Agrees x y f g f' g' (both_panic rel) found missing = both_panic rel
  attempt-Agrees x y f g f' g' (both_out_of_fuel rel) found missing = both_out_of_fuel rel

  -- A result that does not come from the backend
  pub lift-Agrees : {A : Type 0} (x : Outcome A) (s : S) (t : T) → Rel s t → Agrees (x, s) (x, t)
  lift-Agrees (ok a) s t rel = both_ok rel
  lift-Agrees (err e) s t rel = both_err rel
  lift-Agrees panic s t rel = both_panic rel
  lift-Agrees out_of_fuel s t rel = both_out_of_fuel rel

  -- Where the first backend returns a value, so does the second.
  pub ok-Agrees :
      {A : Type 0} (a : A) (s : S) (y : Outcome A × T)
      → Agrees (ok a, s) y
      → (t : T) × (y ≡ (ok a, t)) × Rel s t
  ok-Agrees a s y (both_ok {t = t} rel) = (t, refl, rel)

  -- The states are related, whatever the two return.
  pub Agrees-states :
      {A : Type 0} (x : Outcome A × S) (y : Outcome A × T) → Agrees x y → Rel x.1 y.1
  Agrees-states x y (both_ok rel) = rel
  Agrees-states x y (both_err rel) = rel
  Agrees-states x y (both_panic rel) = rel
  Agrees-states x y (both_out_of_fuel rel) = rel

-- An action that returns under a wrapped error returns by itself.
pub context-ok :
    {S A : Type 0} (text : String) (a : A) (s : S) (x : Outcome A × S)
    → Path (Outcome A × S) (wrapping text x.0, x.1) (ok a, s)
    → x ≡ (ok a, s)
context-ok text a s (ok c, s') h = h
context-ok text a s (err e, s') h = ground (arith, h)
context-ok text a s (panic, s') h = h
context-ok text a s (out_of_fuel, s') h = h
