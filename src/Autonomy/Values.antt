-- ===== src/Autonomy/Values.antt =====
-- Reading event data: _event_int, _event_bool, _as_bool of autonomy_service.py, and `str(value or "")`.
use syncore.Common.{
  ℕ, zero, suc, ◌+◌, ◌/◌, ◌%◌, ltb, ◌==◌, if◌then◌else◌, Text, codes, text_eq, strip, lower,
  parse_int, ℤ, pos, negsuc, Bool, true, false, not, ◌||◌, Option, none, some, List, [], ◌∷◌, ◌++◌,
  String, ◌=s=◌, reverse, last_where,
}
use syncore.Models.{Value, null, flag, int, real, text, field, ProjectEvent}

-- The decimal digits of `n`, the last one first; each round takes one off, so n + 1 rounds are enough.
abbrev digits_up : ℕ → ℕ → Text
digits_up zero n = []
digits_up (suc fuel) n =
    let rest = digits_up fuel (n / 10) in if ltb n 10 then (48 + n) ∷ [] else (48 + n % 10) ∷ rest

abbrev pub decimal : ℕ → Text
decimal n = reverse (digits_up (n + 1) n)

abbrev pub show_int : ℤ → Text
show_int (pos n) = decimal n
show_int (negsuc n) = codes "-" ++ decimal (n + 1)

-- The six digits behind the point, without the zeros at their end but one.
abbrev drop_zeros : Text → Text
drop_zeros [] = codes "0"
drop_zeros (c ∷ s) = let rest = drop_zeros s in if c == 48 then rest else c ∷ s

abbrev show_real : ℕ → Text
show_real n =
    decimal (n / 1_000_000)
    ++ codes "."
    ++ reverse (drop_zeros (reverse (tail_of (decimal (1_000_000 + n % 1_000_000)))))
  where
    tail_of : Text → Text
    tail_of [] = []
    tail_of (c ∷ s) = s

-- `str(value or "")`
unfoldable pub text_or_empty : Value → Text
text_or_empty null = []
text_or_empty (flag b) = if b then codes "True" else []
text_or_empty (int n) = if is_zero n then [] else show_int n
  where
    is_zero : ℤ → Bool
    is_zero (pos n) = n == 0
    is_zero (negsuc n) = false
text_or_empty (real n) = if n == 0 then [] else show_real n
text_or_empty (text t) = t

-- `str(value or "").strip().lower()`
abbrev pub word : Value → Text
word v = lower (strip (text_or_empty v))

-- `normalized in {"1", "true", "yes", "on"}`
abbrev pub is_yes : Text → Bool
is_yes t =
    text_eq t (codes "1")
    || text_eq t (codes "true")
    || text_eq t (codes "yes")
    || text_eq t (codes "on")

unfoldable pub as_bool : Option Text → Bool
as_bool none = false
as_bool (some t) = is_yes (lower (strip t))

unfoldable pub event_bool : Value → Bool
unfolding as_bool
event_bool null = false
event_bool (flag b) = b
event_bool (int (pos n)) = not (n == 0)
event_bool (int (negsuc n)) = true
event_bool (real n) = not (n == 0)
event_bool (text t) = as_bool (some t)

unfoldable pub event_int : Value → Option ℤ
event_int null = none
event_int (flag b) = some (pos (if b then 1 else 0))
event_int (int n) = some n
event_int (real n) = some (pos (n / 1_000_000))
event_int (text t) = parse_int t

-- `self._event_int(value) or 1`
unfoldable pub int_or_one : Option ℤ → ℤ
int_or_one none = pos 1
int_or_one (some (pos n)) = if n == 0 then pos 1 else pos n
int_or_one (some (negsuc n)) = negsuc n

abbrev pub eqℤ : ℤ → ℕ → Bool
eqℤ (pos n) k = n == k
eqℤ (negsuc n) k = false

-- `(event_int(event.event_data.get("cycle")) or 1) == cycle`
unfoldable pub in_cycle : ℕ → ProjectEvent → Bool
unfolding int_or_one event_int
in_cycle cycle e = eqℤ (int_or_one (event_int (field "cycle" e.event_data))) cycle

-- `str(event.event_data.get("stage") or "").strip().lower()`
unfoldable pub stage_of : ProjectEvent → Text
unfolding text_or_empty
stage_of e = word (field "stage" e.event_data)

abbrev pub has_type : String → ProjectEvent → Bool
has_type t e = e.event_type =s= t

-- _latest_event
unfoldable pub latest_event : List ProjectEvent → String → Option ProjectEvent
latest_event events event_type = last_where (has_type event_type) events
