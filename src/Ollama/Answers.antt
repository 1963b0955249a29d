-- ===== src/Ollama/Answers.antt =====
-- OpenAI responses in the Ollama shape (app/ollama.py, `_openai_text` to `generate_response`).
-- `none` stands for an exception. `parse_int` and `parse_ms` read a number from a text.
use llamaswap.Base.{
  ℕ, String, true, Option, none, some, List, [], ◌∷◌, if◌then◌else◌, eqb, ◌==◌, string_key,
}
use llamaswap.Json.{
  ℤ, pos, Json, null, bool, int, str, arr, obj, Fields, end, field, cons, to_list, of_list,
  put_field, lookup, truthy,
}
use llamaswap.Ollama.Values.{
  text_of, or_json, or_none, update, ◌>>=◌, ◌+ℤ◌, int_of, ns_of, fields_or_empty,
}
use llamaswap.Ollama.Calls.{tool_calls_to_ollama}

-- `choices = data.get("choices") or []` and `choices[0]`: null where there is no first choice that is
-- a dict, `none` where the index raises.
unfoldable pub first_choice : Json → Option Json
unfolding truthy
first_choice (arr (cons (obj fs) rest)) = some (obj fs)
first_choice (arr xs) = some null
first_choice (str s) = some null
first_choice v = if truthy v then none else some null

-- `choice.get("message") or {}`, whose `get` raises for another value.
abbrev message_of : Json → Option Json
unfolding truthy
message_of (obj fs) = some (obj fs)
message_of v = if truthy v then none else some (obj end)

module _ (shown : Json → String) where
  -- The text and the thinking, and the tool calls.
  abbrev text_in : Json → Json → String × String × Json
  text_in choice message = (
    text_of shown (or_none (lookup message "content") (or_none (lookup choice "text") (str ""))),
    text_of shown (
        or_json (lookup message "reasoning_content") (
          or_json (lookup message "thinking")
            (or_json (lookup choice "reasoning_content") (str "")))),
    lookup message "tool_calls",
  )

  -- `_openai_text`
  unfoldable pub openai_text : Fields → Option (String × String × Json)
  unfolding first_choice message_of
  openai_text body = elim (first_choice (lookup (obj body) "choices")) [
    | none ↦ none
    | some null ↦ some ("", "", null)
    | some choice ↦ elim (message_of (lookup choice "message")) [
      | none ↦ none
      | some message ↦ some (text_in choice message)
    ]
  ]

  abbrev pub reason_of : Json → String
  reason_of reason = text_of shown (or_json reason (str "stop"))

  -- `_done_reason`
  unfoldable pub done_reason : Fields → Option String
  unfolding first_choice
  done_reason body = elim (first_choice (lookup (obj body) "choices")) [
    | none ↦ none
    | some choice ↦ some (reason_of (lookup choice "finish_reason"))
  ]

abbrev pub zero_or : Json → Json
zero_or v = or_json v (int (pos 0))

-- What an answer is timed by.
pub record Timing : Type 0 where
  pub load_ns : ℕ
  pub total_ns : ℕ

abbrev pub metric_fields : ℤ → ℕ → ℤ → ℤ → ℤ → ℤ → Fields
metric_fields total load prompt_count prompt_ns count ns = field "total_duration" (int total) (
    field "load_duration" (int (pos load)) (
      field "prompt_eval_count" (int prompt_count) (
        field "prompt_eval_duration" (int prompt_ns)
          (field "eval_count" (int count) (field "eval_duration" (int ns) end)))))

module _ (parse_int parse_ms : String → Option ℤ) where
  abbrev total_of : Timing → ℤ → ℤ → ℤ
  total_of t prompt eval =
      if eqb t.total_ns 0 then pos t.load_ns +ℤ (prompt +ℤ eval) else pos t.total_ns

  -- `_metrics`
  unfoldable pub metrics : Fields → Timing → Option Fields
  unfolding int_of ns_of
  metrics body t =
      let usage = obj (fields_or_empty (lookup (obj body) "usage")) in
      let timings = obj (fields_or_empty (lookup (obj body) "timings")) in
      do
        prompt_ns ← ns_of parse_ms (zero_or (lookup timings "prompt_ms"))
        eval_ns ← ns_of parse_ms (zero_or (lookup timings "predicted_ms"))
        prompt_count ←
            int_of parse_int
              (zero_or (or_json (lookup usage "prompt_tokens") (lookup timings "prompt_n")))
        count ←
            int_of parse_int
              (zero_or (or_json (lookup usage "completion_tokens") (lookup timings "predicted_n")))
        some (
            metric_fields (total_of t prompt_ns eval_ns) t.load_ns prompt_count prompt_ns count
              eval_ns)

-- What a response is made with.
pub record Reading : Type 0 where
  pub shown : Json → String
  pub loads_text : String → Option Json
  pub dumps : Json → String
  pub parse_int : String → Option ℤ
  pub parse_ms : String → Option ℤ

-- The texts that head every payload: the model, and when it was made.
pub record Label : Type 0 where
  pub model : String
  pub created_at : String

abbrev pub headed : Label → Fields → Fields
headed l rest = field "model" (str l.model) (field "created_at" (str l.created_at) rest)

abbrev pub with_thinking : String → Fields → Fields
with_thinking thinking fs = if thinking == "" then fs else put_field fs "thinking" (str thinking)

abbrev pub with_calls : List Json → Fields → Fields
with_calls [] fs = fs
with_calls (c ∷ cs) fs = put_field fs "tool_calls" (arr (of_list (c ∷ cs)))

abbrev pub assistant : String → Fields
assistant content = field "role" (str "assistant") (field "content" (str content) end)

abbrev pub completed : String → Fields
completed reason = field "done" (bool true) (field "done_reason" (str reason) end)

abbrev pub chat_payload : Label → Fields → Fields → Fields
chat_payload l message rest = headed l (field "message" (obj message) rest)

abbrev pub generate_payload : Label → String → Fields → Fields
generate_payload l response rest = headed l (field "response" (str response) rest)

-- The calls of a list, none for another value.
abbrev listed_calls : (String → Option Json) → Json → List Json
unfolding tool_calls_to_ollama to_list
listed_calls loads (arr calls) = tool_calls_to_ollama loads (to_list calls)
listed_calls loads v = []

module _ (p : Reading) (l : Label) (t : Timing) where
  unfoldable pub chat_response : Fields → Option Json
  unfolding openai_text done_reason metrics update listed_calls
  chat_response body = do
    (content, thinking, calls) ← openai_text p.shown body
    reason ← done_reason p.shown body
    ms ← metrics p.parse_int p.parse_ms body t
    some (
        obj (
          update
            (chat_payload l
              (with_calls (listed_calls p.loads_text calls)
                (with_thinking thinking (assistant content)))
              (completed reason))
            ms))

  unfoldable pub generate_response : Fields → Option Json
  unfolding openai_text done_reason metrics update
  generate_response body = do
    (content, thinking, calls) ← openai_text p.shown body
    reason ← done_reason p.shown body
    ms ← metrics p.parse_int p.parse_ms body t
    some (obj (update (with_thinking thinking (generate_payload l content (completed reason))) ms))
