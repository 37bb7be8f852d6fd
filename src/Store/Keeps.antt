-- ===== src/Store/Keeps.antt =====
-- Invariants of actions, with a rule for each way to build one.
use syncore.Common.{suc, ◌≡◌, refl, Bool, true, false, if◌then◌else◌}
use syncore.Store.{refer, Store, Action, Result, ok, err, Error, ◌>>=◌, ◌>>◌, pure, raise, and_then}

-- The call keeps `P`, whether it returns or raises.
pub record Keeps {A : Type 0} (P : Store → Type 0) (m : Action A) : Type 0 where
  pub at : (s : Store) → P s → P (m s).1

module _ {P : Store → Type 0} {A : Type 0} where
  pub Keeps-pure : (a : A) → Keeps P (pure a)
  Keeps-pure a = record { at = λ s h. h }

  pub Keeps-raise : (e : Error) → Keeps {A = A} P (raise e)
  Keeps-raise e = record { at = λ s h. h }

  pub Keeps-if : (b : Bool) (m n : Action A) → Keeps P m → Keeps P n → Keeps P (if b then m else n)
  Keeps-if true m n km kn = km
  Keeps-if false m n km kn = kn

  -- with the outcome of the test
  pub Keeps-if_of :
      (b : Bool) (m n : Action A)
      → (b ≡ true → Keeps P m)
      → (b ≡ false → Keeps P n)
      → Keeps P (if b then m else n)
  Keeps-if_of true m n km kn = km refl
  Keeps-if_of false m n km kn = kn refl

module _ {P : Store → Type 0} {A B : Type 0} where
  and_then-Keeps :
      (out : Result A × Store) (f : A → Action B)
      → P out.1
      → ((a : A) → Keeps P (f a))
      → P (and_then out f).1
  and_then-Keeps (ok a, s) f h k = (k a).at s h
  and_then-Keeps (err e, s) f h k = h

  pub Keeps-bind :
      (m : Action A) (f : A → Action B) → Keeps P m → ((a : A) → Keeps P (f a)) → Keeps P (m >>= f)
  Keeps-bind m f km kf = record { at = λ s h. and_then-Keeps (m s) f (km.at s h) kf }

  pub Keeps-then : (m : Action A) (n : Action B) → Keeps P m → Keeps P n → Keeps P (m >> n)
  Keeps-then m n km kn = record { at = λ s h. and_then-Keeps (m s) (λ _. n) (km.at s h) (λ _. kn) }

pub ruleset keeps_rules = (Keeps-pure, Keeps-raise, Keeps-if, Keeps-bind, Keeps-then)

-- An INSERT: what holds when it is made and when it is refused.
pub refer-holds :
    {A : Type 0} (P : Store → Type 0) (b : Bool) (out : Result A × Store) (s : Store)
    → P out.1
    → P (record s { tick = suc s.tick })
    → P (refer b out s).1
refer-holds P true out s h k = h
refer-holds P false out s h k = k
