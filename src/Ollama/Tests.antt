-- ===== src/Ollama/Tests.antt =====
-- A stream whose first event arrives in two chunks, and whose last chunk ends in the middle of one.
use llamaswap.Base.{
  ℕ, ◌≡◌, refl, false, Option, none, some, List, [], ◌∷◌, ◌++◌, map, if◌then◌else◌,
}
use llamaswap.Json.{pos, Json, null, int, str, obj, end, field, lookup, get_field, put_field}
use llamaswap.Tokens.Meter.{same_bytes}
use llamaswap.Ollama.Values.{single, only}
use llamaswap.Ollama.Answers.{Reading, Label}
use llamaswap.Ollama.Stream.{Flow, returned, stream_response, choice_lines, if_truthy, last_payload}
use llamaswap.Ollama.Grammar.{Runs}
use llamaswap.Ollama.InOrder.{IsOver, stream_response-InOrder}

-- An event that says hello, and one that ends the answer with its counts.
abbrev says_hello : Json
says_hello = single "choices" (only (single "delta" (single "content" (str "hello"))))

abbrev stops_there : Json
stops_there = obj (
    field "choices" (only (single "finish_reason" (str "length")))
      (field "usage" (single "completion_tokens" (int (pos 7))) end))

abbrev loads : List ℕ → Option Json
loads d =
    if same_bytes d (65 ∷ [])
    then some says_hello
    else if same_bytes d (66 ∷ [])
    then some stops_there
    else none

abbrev reading : Reading
reading = record {
  shown = λ v. "";
  loads_text = λ s. none;
  dumps = λ v. "";
  parse_int = λ s. none;
  parse_ms = λ s. none;
}

abbrev label : Label
label = record { model = "small"; created_at = "now" }

abbrev data_colon : List ℕ
data_colon = 100 ∷ 97 ∷ 116 ∷ 97 ∷ 58 ∷ 32 ∷ []

abbrev chunks : List (List ℕ)
chunks =
    (data_colon ++ (65 ∷ 10 ∷ []))
    ∷ (10 ∷ data_colon ++ (66 ∷ 13 ∷ 10 ∷ 13 ∷ 10 ∷ data_colon))
    ∷ ((91 ∷ 68 ∷ 79 ∷ 78 ∷ 69 ∷ 93 ∷ []) ++ (10 ∷ 10 ∷ data_colon ++ (65 ∷ [])))
    ∷ []

sent : List Json × Flow
sent = stream_response loads reading label false 5 9 chunks

-- The last event has no blank line behind it, and is lost.
says_once : map (λ j. lookup j "done_reason") sent.0 ≡ (null ∷ str "length" ∷ [])
unfolding sent stream_response get_field put_field choice_lines if_truthy last_payload
says_once = refl

comes_back : sent.1 ≡ returned
unfolding sent stream_response get_field
comes_back = refl

stream_response-InOrder_example :
    Runs loads reading label false (stream_response loads reading label false 5 9 chunks)
    × IsOver (stream_response loads reading label false 5 9 chunks).1
stream_response-InOrder_example = stream_response-InOrder loads reading label false 5 9 chunks
