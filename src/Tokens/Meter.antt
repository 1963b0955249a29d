-- ===== src/Tokens/Meter.antt =====
-- The token meter of a stream, and the count of a whole response (app/proxy.py, `_body_obj` to
-- `_stream_token_meter`). Bytes are numbers. `loads` is `json.loads` on bytes: `none` where it
-- raises.
use llamaswap.Base.{
  ℕ, ◌+◌, String, Bool, true, false, ◌&&◌, ◌||◌, Option, none, some, List, [], ◌∷◌, ◌++◌, eqb, leb,
  ltb, if◌then◌else◌,
}
use llamaswap.Json.{
  pos, Json, bool, int, str, arr, obj, Fields, to_list, lookup, truthy, is_arr, is_str, is_obj,
}
use llamaswap.Trim.{estimate_tokens}
use llamaswap.Metrics.{Metrics}
use llamaswap.Tokens.Store.{Store, Moment, record_usage}

unfoldable pub int_or_zero : Json → ℕ
int_or_zero (int (pos n)) = n
int_or_zero (bool true) = 1
int_or_zero v = 0

unfoldable pub is_chat_body : Fields → Bool
is_chat_body fs = is_arr (lookup (obj fs) "messages") || is_str (lookup (obj fs) "prompt")

unfoldable pub request_input_estimate : Fields → ℕ
unfolding estimate_tokens
request_input_estimate fs =
    if is_arr (lookup (obj fs) "messages")
    then estimate_tokens (lookup (obj fs) "messages")
    else if is_str (lookup (obj fs) "prompt")
    then estimate_tokens (lookup (obj fs) "prompt")
    else 0

-- `usage` is the last pair that the upstream named; `buf` is a line that has not ended.
pub record Meter : Type 0 where
  pub model : String
  pub buf : List ℕ
  pub usage : Option (ℕ × ℕ)
  pub out : ℕ
  pub input : ℕ

unfoldable pub init : String → Fields → Meter
unfolding request_input_estimate
init model body = record {
  model = model;
  buf = [];
  usage = none;
  out = 0;
  input = request_input_estimate body;
}

-- `for x in j or []`: `none` where that raises. The elements of a text or of a dict are texts, which
-- the loops pass over.
unfoldable pub iterated : Json → Option (List Json)
unfolding truthy to_list
iterated (arr xs) = some (to_list xs)
iterated (str s) = some []
iterated (obj fs) = some []
iterated v = if truthy v then none else some []

abbrev pub text_tokens : Json → ℕ
unfolding estimate_tokens
text_tokens (str s) = estimate_tokens (str s)
text_tokens v = 0

-- The arguments of a call in a delta.
unfoldable pub call_tokens : Json → ℕ
call_tokens (obj fs) =
    if is_obj (lookup (obj fs) "function")
    then text_tokens (lookup (lookup (obj fs) "function") "arguments")
    else 0
call_tokens v = 0

unfoldable pub calls_tokens : List Json → ℕ
unfolding call_tokens
calls_tokens [] = 0
calls_tokens (c ∷ cs) = call_tokens c + calls_tokens cs

unfoldable pub delta_tokens : Json → Option ℕ
unfolding iterated calls_tokens
delta_tokens (obj fs) = elim (iterated (lookup (obj fs) "tool_calls")) [
  | none ↦ none
  | some cs ↦ some (
      text_tokens (lookup (obj fs) "content")
      + (text_tokens (lookup (obj fs) "reasoning_content") + calls_tokens cs))
]
delta_tokens v = some 0

abbrev plus : ℕ → Option ℕ → Option ℕ
plus n none = none
plus n (some m) = some (n + m)

unfoldable pub choice_tokens : Json → Option ℕ
unfolding delta_tokens
choice_tokens (obj fs) =
    plus (text_tokens (lookup (obj fs) "text")) (delta_tokens (lookup (obj fs) "delta"))
choice_tokens v = some 0

unfoldable pub choices_tokens : List Json → Option ℕ
unfolding choice_tokens
choices_tokens [] = some 0
choices_tokens (c ∷ cs) = elim (choice_tokens c) [
  | none ↦ none
  | some n ↦ plus n (choices_tokens cs)
]

-- A chunk that carries a usage object counts by it alone.
unfoldable pub take_object : Fields → Meter → Option Meter
unfolding choices_tokens iterated int_or_zero
take_object fs m =
    if is_obj (lookup (obj fs) "usage")
    then (let prompt = int_or_zero (lookup (lookup (obj fs) "usage") "prompt_tokens") in
        let completion = int_or_zero (lookup (lookup (obj fs) "usage") "completion_tokens") in
        some (
          if ltb 0 prompt || ltb 0 completion
          then record m { usage = some (prompt, completion) }
          else m))
    else elim (iterated (lookup (obj fs) "choices")) [
      | none ↦ none
      | some cs ↦ elim (choices_tokens cs) [
        | none ↦ none
        | some n ↦ some (record m { out = m.out + n })
      ]
    ]

-- The lines that have ended, and what comes after them.
unfoldable pub put_byte : ℕ → List (List ℕ) × List ℕ → List (List ℕ) × List ℕ
put_byte c ([], rest) = ([], c ∷ rest)
put_byte c (l ∷ ls, rest) = ((c ∷ l) ∷ ls, rest)

unfoldable pub split_lines : List ℕ → List (List ℕ) × List ℕ
unfolding put_byte
split_lines [] = ([], [])
split_lines (c ∷ cs) =
    let (ls, rest) = split_lines cs in if eqb c 10 then ([] ∷ ls, rest) else put_byte c (ls, rest)

-- What stands behind `data: `, if that begins the line.
unfoldable pub after_data : List ℕ → Option (List ℕ)
after_data (a ∷ b ∷ c ∷ d ∷ e ∷ f ∷ rest) =
    if eqb a 100 && (eqb b 97 && (eqb c 116 && (eqb d 97 && (eqb e 58 && eqb f 32))))
    then some rest
    else none
after_data line = none

abbrev is_blank : ℕ → Bool
is_blank c = eqb c 32 || (leb 9 c && leb c 13)

unfoldable pub left_strip : List ℕ → List ℕ
left_strip [] = []
left_strip (c ∷ cs) = let rest = left_strip cs in if is_blank c then rest else c ∷ cs

abbrev pub is_nil : List ℕ → Bool
is_nil [] = true
is_nil (c ∷ cs) = false

unfoldable pub right_strip : List ℕ → List ℕ
right_strip [] = []
right_strip (c ∷ cs) =
    let rest = right_strip cs in if is_nil rest && is_blank c then [] else c ∷ rest

unfoldable pub same_bytes : List ℕ → List ℕ → Bool
same_bytes [] [] = true
same_bytes (x ∷ xs) (y ∷ ys) = let rest = same_bytes xs ys in eqb x y && rest
same_bytes xs ys = false

-- The mark that ends a stream.
abbrev pub end_mark : List ℕ
end_mark = 91 ∷ 68 ∷ 79 ∷ 78 ∷ 69 ∷ 93 ∷ []

unfoldable pub take_loaded : Option Json → Meter → Option Meter
unfolding take_object
take_loaded (some (obj fs)) m = take_object fs m
take_loaded j m = some m

unfoldable pub take_payload : (List ℕ → Option Json) → List ℕ → Meter → Option Meter
unfolding same_bytes take_loaded
take_payload loads payload m =
    if is_nil payload || same_bytes payload end_mark then some m else take_loaded (loads payload) m

unfoldable pub take_line : (List ℕ → Option Json) → List ℕ → Meter → Option Meter
unfolding after_data left_strip right_strip take_payload
take_line loads line m = elim (after_data line) [
  | none ↦ some m
  | some rest ↦ take_payload loads (right_strip (left_strip rest)) m
]

unfoldable pub take_lines : (List ℕ → Option Json) → List (List ℕ) → Meter → Option Meter
unfolding take_line
take_lines loads [] m = some m
take_lines loads (l ∷ ls) m = elim (take_line loads l m) [
  | none ↦ none
  | some m' ↦ take_lines loads ls m'
]

-- `none`: a chunk of the upstream's made it raise.
unfoldable pub feed : (List ℕ → Option Json) → List ℕ → Meter → Option Meter
unfolding split_lines take_lines
feed loads chunk m =
    let (ls, rest) = split_lines (m.buf ++ chunk) in take_lines loads ls (record m { buf = rest })

unfoldable pub finish : Moment → Moment → Meter → Metrics × Store → Metrics × Store
finish t u m p = elim m.usage [
  | none ↦ record_usage t u m.model m.input m.out p
  | some (prompt, completion) ↦ record_usage t u m.model prompt completion p
]

-- `_count_response_tokens`, on the two bodies as they were parsed.
unfoldable pub count_response :
    Moment → Moment → String → Option Fields → Json → Metrics × Store → Metrics × Store
unfolding is_chat_body int_or_zero request_input_estimate estimate_tokens
count_response t u model (some body) (obj answer) p =
    if is_chat_body body
    then (let prompt = int_or_zero (lookup (lookup (obj answer) "usage") "prompt_tokens") in
        let completion = int_or_zero (lookup (lookup (obj answer) "usage") "completion_tokens") in
        record_usage t u model (if leb prompt 0 then request_input_estimate body else prompt)
          (if leb completion 0 then estimate_tokens (lookup (obj answer) "choices") else completion)
          p)
    else p
count_response t u model body answer p = p
