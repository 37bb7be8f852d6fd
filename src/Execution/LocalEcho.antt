-- ===== src/Execution/LocalEcho.antt =====
-- services/orchestrator/app/runs/providers.py: LocalEchoProvider, the provider that needs no network.
use syncore.Common.{
  ℕ, zero, suc, ◌-◌, ◌*◌, ◌≤◌, ◌≡◌, refl, ap, sym, ◌∙◌, arith, Text, codes, is_empty, length, take,
  drop, Option, none, some, List, [], ◌∷◌, ◌++◌, append-nil, append_assoc, join, if◌then◌else◌,
}
use syncore.Store.{ok}
use syncore.Execution.{Provider, ProviderCall}
use syncore.Context.References.{compact}

-- value or "none"
abbrev or_none : Option Text → Text
or_none none = codes "none"
or_none (some t) = if is_empty t then codes "none" else t

abbrev preview : (Text → ℕ → Text) → ProviderCall → Text
preview shorten call =
    codes "[local_echo completion]\nsystem_prompt="
    ++ or_none call.system_prompt
    ++ codes
        "\nThis is a deterministic local provider output for orchestrator wiring.\nprompt_preview="
    ++ shorten (compact call.prompt) 1_600

-- LocalEchoProvider.complete
unfoldable pub echo_complete : (Text → ℕ → Text) → ProviderCall → Text
echo_complete shorten call = take (call.max_output_tokens * 4) (preview shorten call)

-- text[index : index + size] for index in range(0, len(text), size); each round takes a character at
-- least, so as many rounds as characters are enough.
abbrev pub pieces : ℕ → ℕ → Text → List Text
pieces zero size t = []
pieces (suc rounds) size [] = []
pieces (suc rounds) size (c ∷ t) = take size (c ∷ t) ∷ pieces rounds size (drop size (c ∷ t))

-- LocalEchoProvider.stream
unfoldable pub echo_stream : (Text → ℕ → Text) → ProviderCall → List Text
unfolding echo_complete
echo_stream shorten call =
    let output = echo_complete shorten call in pieces (length output) 160 output

-- It answers at once, and never raises.
abbrev pub local_echo : (Text → ℕ → Text) → Provider
local_echo shorten = record {
  complete = λ tick call. record { seconds = 0; result = ok (echo_complete shorten call) };
  stream = λ tick call. record { chunks = echo_stream shorten call; failure = none };
}

take-drop : (n : ℕ) (t : Text) → take n t ++ drop n t ≡ t
take-drop zero t = refl
take-drop (suc n) [] = refl
take-drop (suc n) (c ∷ t) = ap (λ u. c ∷ u) (take-drop n t)

length-drop : (n : ℕ) (t : Text) → length (drop n t) ≡ length t - n
length-drop zero t = omega arith
length-drop (suc n) [] = omega arith
length-drop (suc n) (c ∷ t) = omega (arith, length-drop n t)

join-cons : (t : Text) (ts : List Text) → join [] (t ∷ ts) ≡ t ++ join [] ts
join-cons t [] = sym (append-nil t)
join-cons t (u ∷ ts) = append_assoc t [] (join [] (u ∷ ts))

join-pieces :
    (rounds size : ℕ) (t : Text) → length t ≤ rounds → join [] (pieces rounds (suc size) t) ≡ t
join-pieces zero size [] h = refl
join-pieces zero size (c ∷ t) h = absurd (omega (arith, h))
join-pieces (suc rounds) size [] h = refl
join-pieces (suc rounds) size (c ∷ t) h =
    join-cons (take (suc size) (c ∷ t)) (pieces rounds (suc size) (drop size t))
    ∙ (ap (λ u. take (suc size) (c ∷ t) ++ u)
          (join-pieces rounds size (drop size t) (omega (arith, h, length-drop size t)))
        ∙ take-drop (suc size) (c ∷ t))

-- The pieces that local_echo streams, put together, are the text that it answers to the same call.
pub echo_stream-join :
    (shorten : Text → ℕ → Text) (call : ProviderCall)
    → join [] (echo_stream shorten call) ≡ echo_complete shorten call
unfolding echo_stream
echo_stream-join shorten call =
    let output = echo_complete shorten call in join-pieces (length output) 159 output (omega arith)
