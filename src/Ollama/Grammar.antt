-- ===== src/Ollama/Grammar.antt =====
-- In which order the lines of an Ollama stream come (app/ollama.py, `stream_response`), and what an
-- upstream must send for the stream to break off.
use llamaswap.Base.{
  ℕ, String, Bool, true, false, Option, none, some, List, [], ◌∷◌, ◌≡◌, ◌⊎◌, refl, ap, sym, ◌∙◌,
  subst,
}
use llamaswap.Json.{Json, bool, str, obj, Fields, end, lookup}
use llamaswap.Tokens.Meter.{iterated}
use llamaswap.Ollama.Values.{single, or_json, int_of, ns_of, fields_or_empty}
use llamaswap.Ollama.Answers.{Reading, Label, first_choice, zero_or}
use llamaswap.Ollama.Stream.{State, Flow, goes_on, returned, raised, Yield, after_lines, then_do}

module _ (loads : List ℕ → Option Json) (p : Reading) (l : Label) where
  -- What makes the reader raise: choices that cannot be indexed, tool calls that cannot be iterated,
  -- and counts and times that are no numbers.
  pub data IsMalformed (fs : Fields) : Type 0 where
    no_choice : first_choice (lookup (obj fs) "choices") ≡ none → IsMalformed fs
    no_calls :
        (choice : Json)
        → iterated (
            or_json
              (lookup (obj (fields_or_empty (lookup choice "delta"))) "tool_calls")
              (lookup choice "tool_calls"))
          ≡ none
        → first_choice (lookup (obj fs) "choices") ≡ some choice
        → IsMalformed fs
    no_count :
        (k : String)
        → int_of p.parse_int (zero_or (lookup (lookup (obj fs) "usage") k)) ≡ none
        → IsMalformed fs
    no_time :
        (k : String)
        → ns_of p.parse_ms (zero_or (lookup (lookup (obj fs) "timings") k)) ≡ none
        → IsMalformed fs

  -- The upstream may send an object that makes the reader raise.
  abbrev pub Bad : Type 0
  Bad = (d : List ℕ) × (fs : Fields) × (loads d ≡ some (obj fs)) × IsMalformed fs

  -- The fields are those of an object that the upstream may send, under the key, or none.
  abbrev pub IsSent : String → Fields → Type 0
  IsSent k u =
      (u ≡ end)
      ⊎ ((d : List ℕ) × (fs : Fields) × (loads d ≡ some (obj fs)) × (lookup (obj fs) k ≡ obj u))

  abbrev pub IsRead : State → Type 0
  IsRead s = IsSent "usage" s.usage × IsSent "timings" s.timings

  -- A line for the model, which is the last one or not.
  abbrev pub IsPayload : Bool → Json → Type 0
  IsPayload last j = (lookup j "done" ≡ bool last) × (lookup j "model" ≡ str l.model)

  -- The lines that follow, once the last one was sent or before it: parts of the answer come in any
  -- number, the last line once, and an error ends the stream. A stream that returns has sent the
  -- last line or an error.
  pub data Run : Bool → List Json → Flow → Type 0 where
    so_far : {b : Bool} → (s : State) → IsRead s → s.finished ≡ b → Run b [] (goes_on s)
    breaks : {b : Bool} → Bad → Run b [] raised
    ends : Run true [] returned
    part :
        {b : Bool} {j : Json} {ls : List Json} {e : Flow}
        → IsPayload false j
        → Run b ls e
        → Run b (j ∷ ls) e
    last :
        {j : Json} {ls : List Json} {e : Flow}
        → IsPayload true j
        → Run true ls e
        → Run false (j ∷ ls) e
    fails : {b : Bool} → (v : Json) → Run b (single "error" v ∷ []) returned

  abbrev pub Runs : Bool → Yield → Type 0
  Runs b (ls, e) = Run b ls e

  -- Two runs one after the other.
  Run-append :
      {b : Bool} {ls : List Json} {e : Flow}
      → (s : State) (f : State → Yield) → Run b ls e
      → e ≡ goes_on s
      → (IsRead s → Runs s.finished (f s))
      → Runs b (after_lines ls (f s))
  Run-append s f (so_far t r fin) same next =
      let one : t ≡ s = cc in
      subst (λ b. Runs b (f s)) (ap (λ t. t.finished) (sym one) ∙ fin) (next (subst IsRead one r))
  Run-append s f (breaks bad) same next = cc
  Run-append s f ends same next = cc
  Run-append s f (part i r) same next = part i (Run-append s f r same next)
  Run-append s f (last i r) same next = last i (Run-append s f r same next)
  Run-append s f (fails v) same next = cc

  pub then_do-Runs :
      {b : Bool}
      → (y : Yield) (f : State → Yield) → Runs b y
      → ((s : State) → IsRead s → Runs s.finished (f s))
      → Runs b (then_do y f)
  unfolding then_do
  then_do-Runs (ls, goes_on s) f r next = Run-append s f r refl (next s)
  then_do-Runs (ls, returned) f r next = r
  then_do-Runs (ls, raised) f r next = r
