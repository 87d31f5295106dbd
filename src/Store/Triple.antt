-- ===== src/Store/Triple.antt =====
-- Reasoning about the query monad: pre- and postconditions, and a rule for each combinator.
use ligament_2fa.Prelude.{◌≡◌, refl, subst, Bool, true, false, if◌then◌else◌, Result, ok, err}
use ligament_2fa.Store.State.{World, Error, M, and_then, ◌>>=◌, attempt}

-- From a state with `P` the computation ends in a result and a state with `Q`.
pub record Triple {A : Type 0} (P : World → Type 0) (m : M A) (Q : Result Error A → World → Type 0)
    : Type 0 where
  pub run : (w : World) → P w → Q (m w).0 (m w).1

-- What a computation leaves true.
abbrev pub Keeps : {A : Type 0} → (World → Type 0) → M A → Type 0
Keeps P m = Triple P m (λ _. P)

-- A postcondition on success only.
abbrev pub OnOk : {A : Type 0} → (A → World → Type 0) → Result Error A → World → Type 0
OnOk Q (ok a) w = Q a w
OnOk Q (err e) w = Unit

module _ {A B : Type 0} {P : World → Type 0} {R : Result Error A → World → Type 0}
    {Q : Result Error B → World → Type 0} where
  pub bind_rule :
      (m : M A) (f : A → M B)
      → Triple P m R
      → ((a : A) → Triple (R (ok a)) (f a) Q)
      → ((e : Error) (w : World) → R (err e) w → Q (err e) w)
      → Triple P (m >>= f) Q
  bind_rule m f first next out = record { run = λ w p. go (m w) (first.run w p) }
    where
      go : (r : Result Error A × World) → R r.0 r.1 → Q (and_then r f).0 (and_then r f).1
      go (ok a, w') h = (next a).run w' h
      go (err e, w') h = out e w' h

  -- `r, err := m` followed by what is done with either.
  pub attempt_rule :
      (m : M A) (f : Result Error A → M B)
      → Triple P m R
      → ((a : A) → Triple (R (ok a)) (f (ok a)) Q)
      → ((e : Error) → Triple (R (err e)) (f (err e)) Q)
      → Triple P (attempt m >>= f) Q
  attempt_rule m f first next out = record { run = λ w p. go (m w) (first.run w p) }
    where
      go : (r : Result Error A × World) → R r.0 r.1 → Q (f r.0 r.1).0 (f r.0 r.1).1
      go (ok a, w') h = (next a).run w' h
      go (err e, w') h = (out e).run w' h

module _ {A : Type 0} {P : World → Type 0} {Q : Result Error A → World → Type 0} where
  pub if_rule :
      (b : Bool) (m k : M A)
      → (b ≡ true → Triple P m Q)
      → (b ≡ false → Triple P k Q)
      → Triple P (if b then m else k) Q
  if_rule true m k yes_case no_case = yes_case refl
  if_rule false m k yes_case no_case = no_case refl

-- Binding two computations that keep a property.
pub Keeps-bind :
    {A B : Type 0} {P : World → Type 0} (m : M A) (f : A → M B)
    → Keeps P m
    → ((a : A) → Keeps P (f a))
    → Keeps P (m >>= f)
Keeps-bind m f first next = bind_rule m f first next (λ e w h. h)

pub Keeps-attempt :
    {A B : Type 0} {P : World → Type 0} (m : M A) (f : Result Error A → M B)
    → Keeps P m
    → ((r : Result Error A) → Keeps P (f r))
    → Keeps P (attempt m >>= f)
Keeps-attempt m f first next = attempt_rule m f first (λ a. next (ok a)) (λ e. next (err e))

-- A postcondition on success is shown from the equation of success.
pub on_ok :
    {A : Type 0} (Q : A → World → Type 0) (r : Result Error A) (w : World)
    → ((a : A) → r ≡ ok a → Q a w)
    → OnOk Q r w
on_ok Q (ok a) w h = h a refl
on_ok Q (err e) w h = tt

pub ok_on :
    {A : Type 0} (Q : A → World → Type 0) {r : Result Error A} (w : World) {a : A}
    → r ≡ ok a
    → OnOk Q r w
    → Q a w
ok_on Q w e h = subst (λ r. OnOk Q r w) e h
