-- ===== src/Execution/Failover.antt =====
-- The order of the providers, and the failover through them.
pub mod Order
use syncore.Common.{
  ℕ, suc, ◌≤◌, ◌≡◌, refl, sym, ap, ◌∙◌, arith, ltb, Text, text_eq, text_eq→eq, text_eq_refl,
  is_empty, strip, lower, Bool, true, false, not, Option, none, some, List, [], ◌∷◌, ◌++◌, map,
  text_in, sort_texts, Bool-cases, inl, inr, ◌⊎◌, if◌then◌else◌,
}
use mathlib.Core.Path.{subst}
use syncore.Store.{Store, Result, ok, err, Error}
use syncore.Store.Returns.{Returns}
use syncore.Execution.{RunRequest, RunConfig, Provider, ProviderCall, entry}
use syncore.Execution.Providers.{
  provider_candidates, provider_names, explicit_of, primary_of, candidates_from, add_candidates,
  complete_with_failover, try_candidates, attempt, or_next, run_complete_with_timeout,
  within_timeout, call_of, timeout_of,
}
use syncore.Execution.Failover.Order.{
  IsDistinct, add_names-IsDistinct, add_candidates-IsDistinct, add_names-adds, text_in-sort,
  add_names-head, add_candidates-head,
}

-- What the order of the candidates promises, for a request that names no provider (`unasked`) or names
-- one.
pub record Candidates (unasked failover : Bool) (primary : Text) (configured names : List Text)
    : Type 0 where
  pub distinct : IsDistinct names
  pub primary_first : (rest : List Text) × (names ≡ primary ∷ rest)
  -- a provider that is asked for, or no failover: no other one is tried
  pub only_primary : (unasked ≡ false) ⊎ (failover ≡ false) → names ≡ primary ∷ []
  -- under failover every configured provider is tried
  pub all_configured :
      unasked ≡ true
      → failover ≡ true
      → (name : Text) → text_in name configured ≡ true
      → text_in name names ≡ true

alone :
    (unasked failover : Bool) (primary : Text) (configured : List Text)
    → (unasked ≡ true → failover ≡ true → ⊥)
    → Candidates unasked failover primary configured (primary ∷ [])
alone unasked failover primary configured not_both = record {
  distinct = (refl, tt);
  primary_first = ([], refl);
  only_primary = λ _. refl;
  all_configured = λ u f. absurd (not_both u f);
}

candidates_from-Candidates :
    (unasked failover : Bool) (primary : Text) (fallback configured : List Text)
    → Candidates unasked failover primary configured
        (candidates_from unasked failover primary fallback (sort_texts configured))
candidates_from-Candidates false failover primary fallback configured =
    alone false failover primary configured (λ u f. ground (arith, u))
candidates_from-Candidates true false primary fallback configured =
    alone true false primary configured (λ u f. ground (arith, f))
candidates_from-Candidates true true primary fallback configured =
    let some_names = add_candidates (primary ∷ []) fallback in
    let names = sort_texts configured in
    let head = add_candidates-head primary [] fallback in
    let all = add_names-head primary head.0 names in
    record {
      distinct =
          add_names-IsDistinct some_names names
            (add_candidates-IsDistinct (primary ∷ []) fallback (refl, tt));
      primary_first = (all.0, rw head.1 all.1);
      only_primary = λ x. absurd (neither x);
      all_configured =
          λ _ _ name h. add_names-adds name some_names names (text_in-sort name configured ∙ h);
    }
  where
    neither : (true ≡ false) ⊎ (true ≡ false) → ⊥
    neither (inl x) = ground (arith, x)
    neither (inr y) = ground (arith, y)

-- The candidates of a run are all different and begin with the primary provider; without failover, or
-- when the request names a provider, there is no other one, and under failover every configured
-- provider is among them.
pub provider_candidates-Candidates :
    (config : RunConfig) (requested : Option Text)
    → Candidates
        (is_empty (explicit_of requested))
        config.failover_enabled
        (primary_of config requested)
        (provider_names config)
        (provider_candidates config requested)
unfolding provider_candidates
provider_candidates-Candidates config requested =
    candidates_from-Candidates (is_empty (explicit_of requested)) config.failover_enabled
      (primary_of config requested) config.fallback_order (provider_names config)

-- A provider that answers every call within the timeout.
abbrev pub IsReliable : ℕ → Provider → Type 0
IsReliable timeout p =
    (tick : ℕ) (call : ProviderCall)
    → ((p.complete tick call).seconds ≤ timeout)
      × ((output : Text) × ((p.complete tick call).result ≡ ok output))

-- The answer comes of one of the names.
abbrev pub IsAnswerOf : List Text → Text × Text → Store → Type 0
IsAnswerOf names answer s = text_in answer.0 names ≡ true

module _ (config : RunConfig) (payload : RunRequest) (prompt : Text) where
  abbrev timeout : ℕ
  timeout = timeout_of config payload.timeout_seconds

  weaken :
      (name : Text) (names : List Text) (out : Result (Text × Text) × Store)
      → Returns (IsAnswerOf names) out
      → Returns (IsAnswerOf (name ∷ names)) out
  weaken name names (ok answer, s) h = ground (arith, h)
  weaken name names (err e, s) h = h

  -- A candidate that answers ends the search; another one leaves it to the rest.
  or_next-answers :
      (name : Text) (names errors : List Text) (out : Result Text × Store)
      → ((more : List Text) (s : Store)
          → Returns (IsAnswerOf names) (try_candidates config payload prompt timeout names more s))
      → Returns
          (IsAnswerOf (name ∷ names))
          (or_next name out (try_candidates config payload prompt timeout names) errors)
  or_next-answers name names errors (ok output, s) h = rw (text_eq_refl name) refl
  or_next-answers name names errors (err e, s) h = weaken name names _ (h _ s)

  attempt-answers :
      (name : Text) (names errors : List Text) (p : Option Provider) (s : Store)
      → ((more : List Text) (s : Store)
          → Returns (IsAnswerOf names) (try_candidates config payload prompt timeout names more s))
      → Returns (IsAnswerOf (name ∷ names)) (
          attempt name p payload prompt timeout
            (try_candidates config payload prompt timeout names)
            errors
            s)
  attempt-answers name names errors none s h = weaken name names _ (h errors s)
  attempt-answers name names errors (some p) s h =
      or_next-answers name names errors (run_complete_with_timeout p payload prompt timeout s) h

  reliable-answers :
      (name : Text) (names errors : List Text) (p : Provider) (s : Store)
      → IsReliable timeout p
      → Returns (IsAnswerOf (name ∷ names)) (
          attempt name
            (some p)
            payload
            prompt
            timeout
            (try_candidates config payload prompt timeout names)
            errors
            s)
  unfolding run_complete_with_timeout
  reliable-answers name names errors p s reliable =
      let answer = reliable s.tick (call_of payload prompt) in
      let in_time : ltb timeout (p.complete s.tick (call_of payload prompt)).seconds ≡ false =
        ground (arith, answer.0) in
      rw (in_time, answer.1.1, text_eq_refl name) refl

  try_candidates-answers :
      (name : Text) (p : Provider)
      → entry name config.providers ≡ some p
      → IsReliable timeout p
      → (names errors : List Text) (s : Store) → text_in name names ≡ true
      → Returns (IsAnswerOf names) (try_candidates config payload prompt timeout names errors s)
  try_candidates-answers name p found reliable [] errors s h = absurd (ground (arith, h))
  try_candidates-answers name p found reliable (c ∷ names) errors s h =
      elim (Bool-cases (text_eq c name)) [
        | inl e ↦
            subst
              (λ o. Returns (IsAnswerOf (c ∷ names)) (
                attempt c o payload prompt timeout
                  (try_candidates config payload prompt timeout names) errors s))
              (sym (ap (λ n. entry n config.providers) (text_eq→eq c name e) ∙ found))
              (reliable-answers c names errors p s reliable)
        | inr e ↦ attempt-answers c names errors (entry c config.providers) s (λ more s'.
            try_candidates-answers name p found reliable names more s' (ground (arith, e, h)))
      ]

  entry-text_in :
      {A : Type 0} (name : Text) (es : List (Text × A)) (a : A)
      → entry name es ≡ some a
      → text_in name (map (λ (e : Text × A). e.0) es) ≡ true
  entry-text_in name [] a h = absurd (ground (arith, h))
  entry-text_in name ((k, b) ∷ es) a h = elim (Bool-cases (text_eq k name)) [
    | inl e ↦ rw e refl
    | inr e ↦ rw e (entry-text_in name es a (ground (arith, e, h)))
  ]

  -- Where every call of a provider ends, after however long a time: under failover, a request that names
  -- no provider is answered, by one of the candidates, if one of the configured providers answers every
  -- call within the timeout, whether the others answer, raise or are too late. Nothing is said of how
  -- long that takes, since the source waits for a late call to end.
  pub complete_with_failover-answers :
      (name : Text) (p : Provider) (s : Store)
      → is_empty (explicit_of payload.provider) ≡ true
      → config.failover_enabled ≡ true
      → entry name config.providers ≡ some p
      → IsReliable (timeout_of config payload.timeout_seconds) p
      → Returns
          (IsAnswerOf (provider_candidates config payload.provider))
          (complete_with_failover config payload prompt s)
  unfolding complete_with_failover
  complete_with_failover-answers name p s unasked failover found reliable =
      try_candidates-answers name p found reliable (provider_candidates config payload.provider) []
        s
        ((provider_candidates-Candidates config payload.provider).all_configured unasked failover
          name (entry-text_in name config.providers p found))
