-- ===== src/Execution/Tests/Codec.antt =====
-- A text for a response, and the response of a text.
use syncore.Common.{
  if◌then◌else◌, ◌==◌, ℕ, zero, suc, ◌≡◌, refl, ap, Text, length, take, drop, Option, none, some,
  List, [], ◌∷◌, ◌++◌,
}
use syncore.Models.{AgentRunStatus, queued, running, blocked, completed, failed}
use syncore.Store.{Result, ok}
use syncore.Execution.{RunResponse}

abbrev put_status : AgentRunStatus → ℕ
put_status queued = 0
put_status running = 1
put_status blocked = 2
put_status completed = 3
put_status failed = 4

abbrev get_status : ℕ → AgentRunStatus
get_status n =
    if n == 0
    then queued
    else if n == 1
    then running
    else if n == 2
    then blocked
    else if n == 3
    then completed
    else failed

get-put_status : (st : AgentRunStatus) → get_status (put_status st) ≡ st
get-put_status queued = refl
get-put_status running = refl
get-put_status blocked = refl
get-put_status completed = refl
get-put_status failed = refl

abbrev put_option : Option ℕ → ℕ
put_option none = 0
put_option (some n) = suc n

abbrev get_option : ℕ → Option ℕ
get_option zero = none
get_option (suc n) = some n

get-put_option : (o : Option ℕ) → get_option (put_option o) ≡ o
get-put_option none = refl
get-put_option (some n) = refl

-- A text behind its length, in front of what follows.
abbrev put : Text → Text → Text
put t rest = length t ∷ t ++ rest

abbrev get : Text → Text × Text
get [] = ([], [])
get (n ∷ s) = (take n s, drop n s)

take-length : (t rest : Text) → take (length t) (t ++ rest) ≡ t
take-length [] rest = refl
take-length (c ∷ t) rest = ap (λ u. c ∷ u) (take-length t rest)

drop-length : (t rest : Text) → drop (length t) (t ++ rest) ≡ rest
drop-length [] rest = refl
drop-length (c ∷ t) rest = drop-length t rest

abbrev put_all : List Text → Text → Text
put_all [] rest = rest
put_all (t ∷ ts) rest = put t (put_all ts rest)

-- The next `n` texts.
abbrev get_all : ℕ → Text → List Text × Text
get_all zero s = ([], s)
get_all (suc n) s = let rest = get_all n (get s).1 in ((get s).0 ∷ rest.0, rest.1)

get_all-put_all :
    (ts : List Text) (rest : Text) → get_all (length ts) (put_all ts rest) ≡ (ts, rest)
get_all-put_all [] rest = refl
get_all-put_all (t ∷ ts) rest =
    rw (take-length t (put_all ts rest), drop-length t (put_all ts rest), get_all-put_all ts rest)
      refl

abbrev pub dump : RunResponse → Text
dump r =
    r.run_id
    ∷ r.task_id
    ∷ put_status r.status
    ∷ r.estimated_input_tokens
    ∷ r.estimated_output_tokens
    ∷ r.total_estimated_tokens
    ∷ put_option r.optimized_bundle_id
    ∷ r.created_at
    ∷ r.completed_at
    ∷ length r.included_refs
    ∷ length r.warnings
    ∷ put_all (r.provider ∷ r.target_agent ∷ r.target_model ∷ r.output_text ∷ [])
        (put_all r.included_refs (put_all r.warnings []))

abbrev pub load : Text → Result (Option RunResponse)
load
      (run ∷ task ∷ status ∷ input ∷ output ∷ total ∷ bundle ∷ created ∷ done ∷ refs ∷ warnings
        ∷ s) =
    let provider = get s in
    let agent = get provider.1 in
    let model = get agent.1 in
    let answer = get model.1 in
    let some_refs = get_all refs answer.1 in
    ok (
      some (record {
        run_id = run;
        task_id = task;
        status = get_status status;
        provider = provider.0;
        target_agent = agent.0;
        target_model = model.0;
        output_text = answer.0;
        estimated_input_tokens = input;
        estimated_output_tokens = output;
        total_estimated_tokens = total;
        optimized_bundle_id = get_option bundle;
        included_refs = some_refs.0;
        warnings = (get_all warnings some_refs.1).0;
        created_at = created;
        completed_at = done;
      }))
load _ = ok none

-- Every response is read back from its text.
pub load-dump : (r : RunResponse) → load (dump r) ≡ ok (some r)
load-dump r =
    let last = put_all r.warnings [] in
    let tail = put_all r.included_refs last in
    let after_model = put r.output_text tail in
    let after_agent = put r.target_model after_model in
    let after_provider = put r.target_agent after_agent in
    rw
      (
        take-length r.provider after_provider,
        drop-length r.provider after_provider,
        take-length r.target_agent after_agent,
        drop-length r.target_agent after_agent,
        take-length r.target_model after_model,
        drop-length r.target_model after_model,
        take-length r.output_text tail,
        drop-length r.output_text tail,
        get_all-put_all r.included_refs last,
        get_all-put_all r.warnings [],
        get-put_status r.status,
        get-put_option r.optimized_bundle_id,
      )
      refl
