-- ===== src/Action/Ending.antt =====
-- How a computation ended, as a proposition on its result and its final world.
use mathlib.Core.Path.{subst}
use rental_property.Base.{◌≡◌, refl, sym, ap}
use rental_property.Action.Errors.{Error}
use rental_property.Action.Monad.{World, Result, ok, err, Action, ◌>>=◌, pure}

abbrev pub Ensures :
    {A : Type 0} → Result A × World → (A → World → Type 0) → (World → Type 0) → Type 0
Ensures (ok a, w) done failed = done a w
Ensures (err _, w) done failed = failed w

-- A first step whose result is known.
pub after_step :
    {A B : Type 0} (P : World → Type 0) (m : Action A) (k : A → Action B) (w : World)
    (x : Result A × World)
    → m w ≡ x
    → P (((λ _. x) >>= k) w).1
    → P ((m >>= k) w).1
after_step P m k w x e h = subst (λ y. P (((λ _. y) >>= k) w).1) (sym e) h

-- A last step that only computes leaves the world.
pub world-bind_pure :
    {A B : Type 0} (m : Action A) (f : A → B) (w : World) → ((m >>= λ a. pure (f a)) w).1 ≡ (m w).1
world-bind_pure {A} {B} m f w = go (m w)
  where
    go : (x : Result A × World) → (((λ _. x) >>= λ a. pure (f a)) w).1 ≡ x.1
    go (ok a, w') = refl
    go (err e, w') = refl

-- What follows a step that returned.
pub bind-ok :
    {A B : Type 0} (m : Action A) (k : A → Action B) (w : World) (a : A)
    → (m w).0 ≡ ok a
    → (m >>= k) w ≡ k a (m w).1
bind-ok {A} {B} m k w a e = go (m w) e
  where
    go : (x : Result A × World) → x.0 ≡ ok a → ((λ _. x) >>= k) w ≡ k a x.1
    go (r, w') e' = ap (λ (y : Result A). ((λ (_ : World). (y, w')) >>= k) w) e'

-- The same of what follows it, result included.
pub after_result :
    {A B : Type 0} (Q : Result B × World → Type 0) (m : Action A) (k : A → Action B) (w : World)
    (x : Result A × World)
    → m w ≡ x
    → Q (((λ _. x) >>= k) w)
    → Q ((m >>= k) w)
after_result Q m k w x e h = subst (λ y. Q (((λ _. y) >>= k) w)) (sym e) h

-- A computation whose answer is known.
pub Ensures-ok :
    {A : Type 0} (x : Result A × World) (done : A → World → Type 0) (failed : World → Type 0)
    (a : A)
    → x.0 ≡ ok a
    → done a x.1
    → Ensures x done failed
Ensures-ok (r, w) done failed a e h = subst (λ y. Ensures (y, w) done failed) (sym e) h

-- A computation by what it answers.
pub Ensures-cases :
    {A : Type 0} (x : Result A × World) (done : A → World → Type 0) (failed : World → Type 0)
    → ((a : A) → x.0 ≡ ok a → done a x.1)
    → ((e : Error) → x.0 ≡ err e → failed x.1)
    → Ensures x done failed
Ensures-cases (ok a, w) done failed succeeds fails = succeeds a refl
Ensures-cases (err e, w) done failed succeeds fails = fails e refl
