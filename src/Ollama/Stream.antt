-- ===== src/Ollama/Stream.antt =====
-- A stream of OpenAI events as the lines of an Ollama stream (app/ollama.py, `stream_response`).
-- Bytes are numbers, a line is the payload that is printed to it, and `loads` is `json.loads` on
-- bytes. `total` is the time that the stream has taken when its last line is made.
use llamaswap.Base.{
  ℕ, ◌-◌, String, Bool, true, false, not, ◌&&◌, Option, none, some, List, [], ◌∷◌, ◌++◌, eqb,
  if◌then◌else◌,
}
use llamaswap.Json.{ℤ, pos, Json, bool, str, obj, Fields, end, field, lookup, truthy, is_null}
use llamaswap.Tokens.Meter.{iterated, left_strip, right_strip, is_nil, same_bytes, end_mark}
use llamaswap.Ollama.Values.{
  text_of, or_json, or_none, update, single, ◌>>=◌, int_of, ns_of, is_zero, fields_or_empty,
}
use llamaswap.Ollama.Calls.{Calls, merge_all, accumulated_tool_calls}
use llamaswap.Ollama.Answers.{
  Reading, Label, first_choice, zero_or, metric_fields, assistant, with_calls, completed,
  chat_payload, generate_payload,
}

pub record State : Type 0 where
  pub buffer : List ℕ
  pub finished : Bool
  pub finish_reason : String
  pub usage : Fields
  pub timings : Fields
  pub tools : Calls

-- How the generator goes on after the lines that it has yielded.
pub data Flow : Type 0 where
  goes_on : State → Flow
  returned : Flow
  raised : Flow

abbrev pub Yield : Type 0
Yield = List Json × Flow

-- One part of the body, and the next one.
abbrev pub after_lines : List Json → Yield → Yield
after_lines ls (ms, e) = (ls ++ ms, e)

unfoldable pub then_do : Yield → (State → Yield) → Yield
then_do (ls, goes_on s) f = after_lines ls (f s)
then_do (ls, returned) f = (ls, returned)
then_do (ls, raised) f = (ls, raised)

-- `(buffer + chunk).replace(b"\r\n", b"\n")`
unfoldable pub with_newlines : List ℕ → List ℕ
with_newlines [] = []
with_newlines (a ∷ []) = a ∷ []
with_newlines (a ∷ b ∷ cs) =
    let rest = with_newlines (b ∷ cs) in if eqb a 13 && eqb b 10 then rest else a ∷ rest

-- The events that a blank line ends, and what comes after them.
abbrev put_on : ℕ → List (List ℕ) × List ℕ → List (List ℕ) × List ℕ
put_on c ([], rest) = ([], c ∷ rest)
put_on c (e ∷ es, rest) = ((c ∷ e) ∷ es, rest)

unfoldable pub split_events : List ℕ → List (List ℕ) × List ℕ
split_events [] = ([], [])
split_events (a ∷ []) = ([], a ∷ [])
split_events (a ∷ b ∷ cs) = elim (eqb a 10 && eqb b 10) [
  | true ↦ let (es, rest) = split_events cs in ([] ∷ es, rest)
  | false ↦ put_on a (split_events (b ∷ cs))
]

-- `event.split(b"\n")`
unfoldable pub lines_of : List ℕ → List (List ℕ)
lines_of [] = [] ∷ []
lines_of (c ∷ cs) =
    let rest = lines_of cs in
    if eqb c 10 then [] ∷ rest else elim rest [ [] ↦ (c ∷ []) ∷ [] | l ∷ ls ↦ (c ∷ l) ∷ ls ]

-- `line[5:]` of a line that starts with `data:`
unfoldable pub behind_data : List ℕ → Option (List ℕ)
behind_data (a ∷ b ∷ c ∷ d ∷ e ∷ rest) =
    if eqb a 100 && (eqb b 97 && (eqb c 116 && (eqb d 97 && eqb e 58))) then some rest else none
behind_data line = none

unfoldable pub data_lines : List (List ℕ) → List (List ℕ)
unfolding behind_data left_strip right_strip
data_lines [] = []
data_lines (line ∷ lines) =
    let rest = data_lines lines in
    elim (behind_data line) [ none ↦ rest | some d ↦ right_strip (left_strip d) ∷ rest ]

module _ (loads : List ℕ → Option Json) (p : Reading) (l : Label) (generate : Bool)
    (load_ns total : ℕ) where
  -- `final`: the metrics, `none` where a number of the upstream's cannot be read.
  unfoldable pub final_metrics : State → Option Fields
  unfolding ns_of int_of
  final_metrics s =
      let eval_or : ℤ → ℤ → ℤ =
        λ count ns. if is_zero ns && not (is_zero count) then pos (total - load_ns) else ns in
      do
        prompt_ns ← ns_of p.parse_ms (zero_or (lookup (obj s.timings) "prompt_ms"))
        eval_ns ← ns_of p.parse_ms (zero_or (lookup (obj s.timings) "predicted_ms"))
        count ← int_of p.parse_int (zero_or (lookup (obj s.usage) "completion_tokens"))
        prompt_count ← int_of p.parse_int (zero_or (lookup (obj s.usage) "prompt_tokens"))
        some
            (metric_fields (pos total) load_ns prompt_count prompt_ns count (eval_or count eval_ns))

  unfoldable pub last_payload : State → Fields
  unfolding accumulated_tool_calls
  last_payload s =
      if generate
      then generate_payload l "" (completed s.finish_reason)
      else chat_payload l (with_calls (accumulated_tool_calls p.loads_text s.tools) (assistant ""))
          (completed s.finish_reason)

  unfoldable pub last_line : Option Fields → State → Yield
  unfolding update
  last_line none s = ([], raised)
  last_line (some ms) s =
      (obj (update (last_payload s) ms) ∷ [], goes_on (record s { finished = true }))

  -- The mark that ends the upstream's stream.
  unfoldable pub take_mark : State → Yield
  unfolding final_metrics last_line
  take_mark s = if s.finished then ([], goes_on s) else last_line (final_metrics s) s

  abbrev more_to_come : Fields
  more_to_come = field "done" (bool false) end

  unfoldable pub content_line : String → Json
  content_line content = obj (
      if generate
      then generate_payload l content more_to_come
      else chat_payload l (assistant content) more_to_come)

  unfoldable pub thinking_line : String → Json
  thinking_line thinking = obj (
      if generate
      then generate_payload l "" (field "thinking" (str thinking) more_to_come)
      else chat_payload l
          (field "role" (str "assistant")
            (field "content" (str "") (field "thinking" (str thinking) end)))
          more_to_come)

  unfoldable pub if_truthy : Json → (String → Json) → List Json → List Json
  unfolding truthy
  if_truthy v line rest = if truthy v then line (text_of p.shown v) ∷ rest else rest

  abbrev reasoned : Json → State → State
  unfolding truthy
  reasoned reason s = record s {
    finish_reason = if truthy reason then text_of p.shown reason else s.finish_reason;
  }

  unfoldable pub choice_lines : Json → Json → List Json
  unfolding content_line thinking_line truthy
  choice_lines choice delta =
      if_truthy (or_none (lookup delta "content") (lookup choice "text")) content_line (
        if_truthy
          (or_json (lookup delta "reasoning_content")
            (or_json (lookup delta "thinking") (lookup choice "reasoning_content")))
          thinking_line [])

  -- A choice that is a dict; a delta that is none counts as an empty one.
  unfoldable pub take_choice : Json → State → Yield
  unfolding iterated merge_all truthy
  take_choice choice s =
      let delta = obj (fields_or_empty (lookup choice "delta")) in
      elim (iterated (or_json (lookup delta "tool_calls") (lookup choice "tool_calls"))) [
        | none ↦ ([], raised)
        | some calls ↦ (
          choice_lines choice delta,
          goes_on (
              reasoned (lookup choice "finish_reason")
                (record s { tools = merge_all p.dumps s.tools calls })),
        )
      ]

  abbrev pub if_fields : Json → Fields → Fields
  if_fields (obj fs) old = fs
  if_fields v old = old

  -- The usage and the timings of an object.
  abbrev pub counted : Fields → State → State
  counted fs s = record s {
    usage = if_fields (lookup (obj fs) "usage") s.usage;
    timings = if_fields (lookup (obj fs) "timings") s.timings;
  }

  unfoldable pub take_first : Option Json → State → Yield
  unfolding take_choice
  take_first none s = ([], raised)
  take_first (some (obj choice)) s = take_choice (obj choice) s
  take_first (some v) s = ([], goes_on s)

  unfoldable pub take_object : Fields → State → Yield
  unfolding first_choice take_first
  take_object fs s =
      if is_null (lookup (obj fs) "error")
      then take_first (first_choice (lookup (obj fs) "choices")) (counted fs s)
      else (single "error" (lookup (obj fs) "error") ∷ [], returned)

  unfoldable pub take_loaded : Option Json → State → Yield
  unfolding take_object
  take_loaded (some (obj fs)) s = take_object fs s
  take_loaded v s = ([], goes_on s)

  unfoldable pub take_data : List ℕ → State → Yield
  unfolding take_mark take_loaded same_bytes
  take_data d s =
      if is_nil d
      then ([], goes_on s)
      else if same_bytes d end_mark
      then take_mark s
      else take_loaded (loads d) s

  unfoldable pub take_all : List (List ℕ) → State → Yield
  unfolding take_data then_do
  take_all [] s = ([], goes_on s)
  take_all (d ∷ ds) s = then_do (take_data d s) (take_all ds)

  unfoldable pub take_events : List (List ℕ) → State → Yield
  unfolding take_all data_lines lines_of then_do
  take_events [] s = ([], goes_on s)
  take_events (e ∷ es) s = then_do (take_all (data_lines (lines_of e)) s) (take_events es)

  -- `if finished and not buffer.strip(): return`
  unfoldable pub check_end : State → Yield
  unfolding left_strip
  check_end s =
      if s.finished && is_nil (left_strip s.buffer) then ([], returned) else ([], goes_on s)

  unfoldable pub take_chunk : List ℕ → State → Yield
  unfolding take_events check_end split_events with_newlines then_do
  take_chunk chunk s =
      let (events, rest) = split_events (with_newlines (s.buffer ++ chunk)) in
      then_do (take_events events (record s { buffer = rest })) check_end

  -- The end of the upstream's stream.
  abbrev pub returning : Yield → Yield
  returning (ls, goes_on s) = (ls, returned)
  returning (ls, e) = (ls, e)

  unfoldable pub take_chunks : List (List ℕ) → State → Yield
  unfolding take_chunk take_mark then_do
  take_chunks [] s = returning (take_mark s)
  take_chunks (c ∷ cs) s = then_do (take_chunk c s) (take_chunks cs)

  abbrev pub start : State
  start = record {
    buffer = [];
    finished = false;
    finish_reason = "stop";
    usage = end;
    timings = end;
    tools = [];
  }

  unfoldable pub stream_response : List (List ℕ) → Yield
  unfolding take_chunks
  stream_response chunks = take_chunks chunks start
