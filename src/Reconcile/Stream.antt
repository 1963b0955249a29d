-- ===== src/Reconcile/Stream.antt =====
-- The reconciler of a stream of events (app/tool_reconcile.py, `StreamReconciler`). Bytes are
-- numbers. `loads_line` is `json.loads` on the bytes of a line, `dump_line` the compact
-- `json.dumps(...).encode()`, and `event_id` the id drawn for an event that has none.
use Prim.Native.String.{◌++◌ as str_append}
use llamaswap.Base.{
  ℕ, ◌+◌, max, String, Bool, true, false, ◌||◌, not, Option, none, some, List, [], ◌∷◌, ◌++◌,
  if◌then◌else◌, string_key,
}
use llamaswap.Json.{pos, Json, bool, int, str, obj, Fields, lookup, is_null}
use llamaswap.Tokens.Meter.{
  iterated, split_lines, after_data, left_strip, right_strip, same_bytes, end_mark,
}
use llamaswap.Reconcile.Rejected.{rejected_calls}
use llamaswap.Reconcile.Apply.{Record}

-- `text` is what the stream has said, `tail` the lines held back, `template` the last event, and
-- `next_index` the index behind the calls that the backend streamed itself.
pub record State : Type 0 where
  pub text : String
  pub tail : List (List ℕ)
  pub template : Option Fields
  pub next_index : ℕ
  pub records : List Record

-- `residual` is a line that has not ended.
pub record Stream : Type 0 where
  pub residual : List ℕ
  pub state : State
  pub done : Bool

unfoldable pub init : Stream
init = record {
  residual = [];
  state = record { text = ""; tail = []; template = none; next_index = 0; records = [] };
  done = false;
}

-- What is not a natural number counts as index 0.
abbrev pub index_of : Json → ℕ
index_of (int (pos n)) = n
index_of (bool true) = 1
index_of v = 0

unfoldable pub after_calls : List Json → ℕ → ℕ
after_calls [] n = n
after_calls (obj call ∷ calls) n =
    after_calls calls (max n (index_of (lookup (obj call) "index") + 1))
after_calls (call ∷ calls) n = after_calls calls n

abbrev pub text_of : Json → String
text_of (str content) = content
text_of v = ""

-- The text of a delta and the calls in it; `none` where the loop over its calls raises.
unfoldable pub read_delta : Json → String × ℕ → Option (String × ℕ)
read_delta (obj delta) (text, n) = elim (iterated (lookup (obj delta) "tool_calls")) [
  | none ↦ none
  | some calls ↦
      some (str_append text (text_of (lookup (obj delta) "content")), after_calls calls n)
]
read_delta v p = some p

unfoldable pub read_choice : Json → String × ℕ → Option (String × ℕ)
read_choice choice p = read_delta (lookup choice "delta") p

unfoldable pub read_choices : List Json → String × ℕ → Option (String × ℕ)
read_choices [] p = some p
read_choices (choice ∷ choices) p = elim (read_choice choice p) [
  | none ↦ none
  | some q ↦ read_choices choices q
]

unfoldable pub is_final : List Json → Bool
is_final [] = false
is_final (choice ∷ choices) = not (is_null (lookup choice "finish_reason")) || is_final choices

abbrev is_empty : List Fields → Bool
is_empty [] = true
is_empty (c ∷ cs) = false

-- What a line is: one to pass on, the mark that ends the stream, or an event.
pub data Kind : Type 0 where
  plain : Kind
  mark : Kind
  event : Fields → Kind

abbrev as_kind : Option Json → Kind
as_kind (some (obj fs)) = event fs
as_kind v = plain

-- A line with its end.
abbrev pub ended : List ℕ → List ℕ
ended line = line ++ (10 ∷ [])

abbrev pub joined : List (List ℕ) → List ℕ
joined [] = []
joined (l ∷ ls) = l ++ joined ls

module _ (loads_line : List ℕ → Option Json) (loads : String → Option Json)
    (dumps : Json → String) where
  unfoldable pub kind_of : List ℕ → Kind
  kind_of line = elim (after_data line) [
    | none ↦ plain
    | some rest ↦
        if same_bytes (right_strip (left_strip rest)) end_mark
        then mark
        else as_kind (loads_line (right_strip (left_strip rest)))
  ]

  -- `final or rejected_calls(obj)`
  unfoldable pub holds : Fields → List Json → Option Bool
  holds fs choices = elim (rejected_calls loads dumps fs) [
    | none ↦ none
    | some calls ↦ some (is_final choices || not (is_empty calls))
  ]

  -- The state behind a line, and what is passed on of it.
  abbrev pub place : List ℕ → State → Bool → State × List ℕ
  place line s true = (record s { tail = s.tail ++ (ended line ∷ []) }, [])
  place line s false = (s, ended line)

  unfoldable pub route_event : List ℕ → Fields → State → Option (State × List ℕ)
  route_event line fs s = elim (iterated (lookup (obj fs) "choices")) [
    | none ↦ none
    | some choices ↦ elim (read_choices choices (s.text, s.next_index)) [
      | none ↦ none
      | some (text, n) ↦ elim (holds fs choices) [
        | none ↦ none
        | some held ↦
            some (place line (record s { text = text; template = some fs; next_index = n }) held)
      ]
    ]
  ]

  unfoldable pub route : List ℕ → State → Option (State × List ℕ)
  route line s = elim (kind_of line) [
    | plain ↦ some (place line s false)
    | mark ↦ some (place line s true)
    | event fs ↦ route_event line fs s
  ]

  unfoldable pub route_lines : List (List ℕ) → State → Option (State × List ℕ)
  route_lines [] s = some (s, [])
  route_lines (line ∷ lines) s = elim (route line s) [
    | none ↦ none
    | some (s', out) ↦ elim (route_lines lines s') [
      | none ↦ none
      | some (s'', more_out) ↦ some (s'', out ++ more_out)
    ]
  ]

  unfoldable pub feed : List ℕ → Stream → Option (Stream × List ℕ)
  feed [] p = some (p, [])
  feed (c ∷ chunk) p =
      let (lines, rest) = split_lines (p.residual ++ c ∷ chunk) in
      elim (route_lines lines p.state) [
        | none ↦ none
        | some (s, out) ↦ some (record p { residual = rest; state = s }, out)
      ]
