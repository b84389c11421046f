-- ===== src/Action/Keeping.antt =====
-- What a computation keeps true of the world, step by step.
use rental_property.Base.{Bool, true, false, if◌then◌else◌}
use rental_property.Action.Monad.{World, Result, ok, err, Action, ◌>>=◌}

module _ (P : World → Type 0) where
  abbrev pub Keeps : {A : Type 0} → Action A → Type 0
  Keeps m = (w : World) → P w → P (m w).1

  Keeps-after :
      {A B : Type 0} (k : A → Action B) (x : Result A × World)
      → P x.1
      → ((a : A) → Keeps (k a))
      → P (((λ (_ : World). x) >>= k) x.1).1
  Keeps-after k (ok a, w) h f = f a w h
  Keeps-after k (err e, w) h f = h

  pub Keeps-bind :
      {A B : Type 0} (m : Action A) (k : A → Action B)
      → Keeps m
      → ((a : A) → Keeps (k a))
      → Keeps (m >>= k)
  Keeps-bind m k hm hk w h = Keeps-after k (m w) (hm w h) hk

  pub Keeps-if :
      {A : Type 0} (c : Bool) (m n : Action A) → Keeps m → Keeps n → Keeps (if c then m else n)
  Keeps-if true m n hm hn = hm
  Keeps-if false m n hm hn = hn
