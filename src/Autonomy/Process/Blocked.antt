-- ===== src/Autonomy/Process/Blocked.antt =====
-- Actions that block the task whenever they answer that it failed, with a rule for each way to build
-- one.
pub mod Recovery
pub mod Outcomes
pub mod Stages
pub mod Loop
use syncore.Common.{
  ℕ, ◌≡◌, refl, arith, ◌==◌, ==_iff, if◌then◌else◌, Bool, true, false, Option, none, some, List, [],
  ◌∷◌, All, update_where, Bool-cases, inl, inr, String, first,
}
use syncore.Models.{Task, TaskStatus, blocked, to_status, Fields}
use syncore.Store.{Store, Action, Result, ok, err, Error, ◌>>=◌, ◌>>◌, pure, and_then, raise}
use syncore.Store.Keeps.{Keeps}
use syncore.Store.Tasks.{update_task, with_id, assign}
use syncore.Store.Events.{save_project_event}
use syncore.Autonomy.Stage.{
  LoopStatus, failed, AutonomyResult, StageContext, record_event, block_task,
}
use syncore.Autonomy.Process.{gated}
use syncore.Autonomy.Process.Gates.{Gate, pass, stop}

abbrev pub is_failed : LoopStatus → Bool
is_failed failed = true
is_failed _ = false

abbrev pub answers_failed : AutonomyResult → Bool
answers_failed r = is_failed r.status

abbrev pub stops_failed : Gate → Bool
stops_failed pass = false
stops_failed (stop status) = is_failed status

-- Each row of the task is blocked.
abbrev pub IsBlocked : ℕ → Store → Type 0
IsBlocked k s = All (λ t. with_id k t ≡ true → t.status ≡ blocked) s.tasks

abbrev pub Consistent : {A : Type 0} → (A → Bool) → ℕ → Result A × Store → Type 0
Consistent fails k (ok a, s) = fails a ≡ true → IsBlocked k s
Consistent fails k (err e, s) = Unit

-- From a state with `P`, a call that answers "failed" leaves the task blocked.
pub record Blocks {A : Type 0} (fails : A → Bool) (k : ℕ) (P : Store → Type 0) (m : Action A)
    : Type 0 where
  pub at : (s : Store) → P s → Consistent fails k (m s)

abbrev pub Always : Store → Type 0
Always s = Unit

module _ {A : Type 0} {fails : A → Bool} {k : ℕ} where
  pub Blocks-pure : {P : Store → Type 0} (a : A) → fails a ≡ false → Blocks fails k P (pure a)
  Blocks-pure a e = record { at = λ s p h. absurd (ground (arith, e, h)) }

  pub Blocks-IsBlocked : (a : A) → Blocks fails k (IsBlocked k) (pure a)
  Blocks-IsBlocked a = record { at = λ s p h. p }

  pub Blocks-if :
      {P : Store → Type 0} (b : Bool) {m n : Action A}
      → Blocks fails k P m
      → Blocks fails k P n
      → Blocks fails k P (if b then m else n)
  Blocks-if true x y = x
  Blocks-if false x y = y

module _ {A B : Type 0} {fails : B → Bool} {k : ℕ} where
  and_then-Consistent :
      {P : Store → Type 0} (out : Result A × Store) (f : A → Action B)
      → P out.1
      → ((a : A) → Blocks fails k P (f a))
      → Consistent fails k (and_then out f)
  and_then-Consistent (ok a, s) f p x = (x a).at s p
  and_then-Consistent (err e, s) f p x = tt

  -- Whatever the first call does.
  pub Blocks-bind :
      (m : Action A) (f : A → Action B)
      → ((a : A) → Blocks fails k Always (f a))
      → Blocks fails k Always (m >>= f)
  Blocks-bind m f x = record { at = λ s p. and_then-Consistent {P = Always} (m s) f tt x }

  pub Blocks-then :
      (m : Action A) (n : Action B) → Blocks fails k Always n → Blocks fails k Always (m >> n)
  Blocks-then m n x = record {
    at = λ s p. and_then-Consistent {P = Always} (m s) (λ _. n) tt (λ _. x);
  }

  -- With what the first call's answer is known to be.
  pub Blocks-bind_of :
      (Q : A → Type 0) (m : Action A) (f : A → Action B)
      → ((s : Store) (a : A) → (m s).0 ≡ ok a → Q a)
      → ((a : A) → Q a → Blocks fails k Always (f a))
      → Blocks fails k Always (m >>= f)
  Blocks-bind_of Q m f q x = record { at = λ s p. go (m s) (q s) }
    where
      go :
          (out : Result A × Store)
          → ((a : A) → out.0 ≡ ok a → Q a)
          → Consistent fails k (and_then out f)
      go (ok a, s) h = (x a (h a refl)).at s tt
      go (err e, s) h = tt

  -- With the task blocked, and kept so.
  pub Blocks-keep :
      (m : Action A) (n : Action B)
      → Keeps (IsBlocked k) m
      → Blocks fails k (IsBlocked k) n
      → Blocks fails k (IsBlocked k) (m >> n)
  Blocks-keep m n km x = record {
    at = λ s p. and_then-Consistent (m s) (λ _. n) (km.at s p) (λ _. x);
  }

  -- The first call blocks the task.
  pub Blocks-from :
      (m : Action A) (n : Action B)
      → ((s : Store) → IsBlocked k (m s).1)
      → Blocks fails k (IsBlocked k) n
      → Blocks fails k Always (m >> n)
  Blocks-from m n b x = record { at = λ s p. and_then-Consistent (m s) (λ _. n) (b s) (λ _. x) }

pub event-Keeps :
    (k task_id : ℕ) (event_type : String) (event_data : Fields)
    → Keeps (IsBlocked k) (record_event task_id event_type event_data)
unfolding save_project_event
event-Keeps k task_id event_type event_data = record { at = λ s p. p }

assign-IsBlocked :
    (k now : ℕ) (ts : List Task)
    → All
        (λ t. with_id k t ≡ true → t.status ≡ blocked)
        (update_where (with_id k) (assign (to_status blocked) now) ts)
assign-IsBlocked k now [] = tt
assign-IsBlocked k now (t ∷ ts) = elim (Bool-cases (with_id k t)) [
  | inl e ↦ rw e ((λ _. refl), assign-IsBlocked k now ts)
  | inr e ↦ rw e ((λ h. absurd (ground (arith, e, h))), assign-IsBlocked k now ts)
]

pub block_task-IsBlocked : (k : ℕ) (s : Store) → IsBlocked k (block_task k s).1
unfolding update_task
block_task-IsBlocked k s = assign-IsBlocked k (s.clock s.tick) s.tasks

-- Blocking the task, an event, and an answer.
pub Blocks-block :
    {B : Type 0} {fails : B → Bool} (k : ℕ) (n : Action B)
    → Blocks fails k (IsBlocked k) n
    → Blocks fails k Always (block_task k >> n)
Blocks-block k n x = Blocks-from (block_task k) n (block_task-IsBlocked k) x

pub Blocks-gated :
    (c : StageContext) {k : ℕ} {m : Action Gate} {rest : Action AutonomyResult}
    → Blocks stops_failed k Always m
    → Blocks answers_failed k Always rest
    → Blocks answers_failed k Always (m >>= gated c rest)
Blocks-gated c {k} {m} {rest} x y = record { at = λ s p. go (m s) (x.at s tt) }
  where
    go :
        (out : Result Gate × Store)
        → Consistent stops_failed k out
        → Consistent answers_failed k (and_then out (gated c rest))
    go (ok pass, s) h = y.at s tt
    go (ok (stop status), s) h = h
    go (err e, s) h = tt
