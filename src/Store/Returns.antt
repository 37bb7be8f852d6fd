-- ===== src/Store/Returns.antt =====
-- Calls that return, and what holds then.
use syncore.Common.{Bool, true, false, if◌then◌else◌, ◌≡◌, refl}
use syncore.Store.{Store, Action, Result, Error, ok, err, and_then, ◌>>=◌, ◌>>◌}
use syncore.Store.Keeps.{Keeps}

-- The call returned, and `Q` holds of its answer and the store.
abbrev pub Returns : {A : Type 0} → (A → Store → Type 0) → Result A × Store → Type 0
Returns Q (ok a, s) = Q a s
Returns Q (err e, s) = ⊥

-- If the call returned, `Q` holds of its answer and the store.
abbrev pub OnReturn : {A : Type 0} → (A → Store → Type 0) → Result A × Store → Type 0
OnReturn Q (ok a, s) = Q a s
OnReturn Q (err e, s) = Unit

module _ {A B : Type 0} (Q : A → Store → Type 0) (R : B → Store → Type 0) where
  pub Returns-and_then :
      (out : Result A × Store) (f : A → Action B)
      → Returns Q out
      → ((a : A) (s : Store) → Q a s → Returns R (f a s))
      → Returns R (and_then out f)
  Returns-and_then (ok a, s) f h k = k a s h
  Returns-and_then (err e, s) f h k = absurd h

  pub OnReturn-and_then :
      (out : Result A × Store) (f : A → Action B)
      → OnReturn Q out
      → ((a : A) (s : Store) → Q a s → OnReturn R (f a s))
      → OnReturn R (and_then out f)
  OnReturn-and_then (ok a, s) f h k = k a s h
  OnReturn-and_then (err e, s) f h k = tt

-- `Q` holds of the answer and the store, or the call raised what `E` says.
abbrev pub Ends : {A : Type 0} → (Error → Type 0) → (A → Store → Type 0) → Result A × Store → Type 0
Ends E Q (ok a, s) = Q a s
Ends E Q (err e, s) = E e

module _ {A B : Type 0} (E : Error → Type 0) (Q : A → Store → Type 0) (R : B → Store → Type 0) where
  pub Ends-and_then :
      (out : Result A × Store) (f : A → Action B)
      → Ends E Q out
      → ((a : A) (s : Store) → Q a s → Ends E R (f a s))
      → Ends E R (and_then out f)
  Ends-and_then (ok a, s) f h k = k a s h
  Ends-and_then (err e, s) f h k = h

pub Returns-Ends :
    {A : Type 0} (E : Error → Type 0) (Q R : A → Store → Type 0) (out : Result A × Store)
    → Returns Q out
    → ((a : A) (s : Store) → Q a s → R a s)
    → Ends E R out
Returns-Ends E Q R (ok a, s) h k = k a s h
Returns-Ends E Q R (err e, s) h k = absurd h

pub Ends-map :
    {A : Type 0} (E F : Error → Type 0) (Q R : A → Store → Type 0) (out : Result A × Store)
    → Ends E Q out
    → ((e : Error) → E e → F e)
    → ((a : A) (s : Store) → Q a s → R a s)
    → Ends F R out
Ends-map E F Q R (ok a, s) h j k = k a s h
Ends-map E F Q R (err e, s) h j k = j e h

pub if-Ends :
    {A : Type 0} (E : Error → Type 0) (Q : A → Store → Type 0) (b : Bool) (m n : Action A)
    (s : Store)
    → (b ≡ true → Ends E Q (m s))
    → (b ≡ false → Ends E Q (n s))
    → Ends E Q ((if b then m else n) s)
if-Ends E Q true m n s h k = h refl
if-Ends E Q false m n s h k = k refl

-- If the call starts with `P` and returns, `Q` holds.
pub record Gives {A : Type 0} (P : Store → Type 0) (Q : A → Store → Type 0) (m : Action A)
    : Type 0 where
  pub at : (s : Store) → P s → OnReturn Q (m s)

module _ {A B : Type 0} {P : Store → Type 0} {Q : B → Store → Type 0} where
  and_then-OnReturn :
      (out : Result A × Store) (f : A → Action B)
      → P out.1
      → ((a : A) → Gives P Q (f a))
      → OnReturn Q (and_then out f)
  and_then-OnReturn (ok a, s) f h k = (k a).at s h
  and_then-OnReturn (err e, s) f h k = tt

  pub Gives-bind :
      (m : Action A) (f : A → Action B)
      → Keeps P m
      → ((a : A) → Gives P Q (f a))
      → Gives P Q (m >>= f)
  Gives-bind m f km kf = record { at = λ s h. and_then-OnReturn (m s) f (km.at s h) kf }

  pub Gives-then : (m : Action A) (n : Action B) → Keeps P m → Gives P Q n → Gives P Q (m >> n)
  Gives-then m n km gn = record {
    at = λ s h. and_then-OnReturn (m s) (λ _. n) (km.at s h) (λ _. gn);
  }
