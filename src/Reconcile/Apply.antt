-- ===== src/Reconcile/Apply.antt =====
-- The reconciled calls of a whole response (app/tool_reconcile.py, `apply_reconcile`).
-- `call_id n` is the id drawn for the n-th call that is emitted.
use llamaswap.Base.{
  ℕ, suc, String, Option, none, some, List, [], ◌∷◌, ◌++◌, if◌then◌else◌, contains, string_key,
}
use llamaswap.Json.{
  Json, str, arr, obj, end, field, Fields, get_field, put_field, to_list, of_list, lookup,
}
use llamaswap.Metrics.{Metrics, inc_tool_call_reconcile}
use llamaswap.Tokens.Meter.{iterated}
use llamaswap.Reconcile.Match.{Outcome, reconciled, ambiguous, unmatched, Ratio, match_name}
use llamaswap.Reconcile.Blocks.{arguments, text_tool_calls}
use llamaswap.Reconcile.Rejected.{call_name, assistant_message, rejected_calls, all_calls}

-- What is reported of a call: its name, the tool that it means, and the outcome.
abbrev pub Record : Type 0
Record = String × (Option String × Outcome)

-- `{call.get("function", {}).get("name") for call in message.get("tool_calls") or [] if ...}`, of
-- the calls: `none` where `function` is there and is no dictionary, or the name cannot be in a set.
-- Only its texts matter.
abbrev pub name_of : Json → Option (List String)
name_of (str name) = some (name ∷ [])
name_of (arr xs) = none
name_of (obj fs) = none
name_of v = some []

abbrev pub executed_name : Json → Option (List String)
executed_name (obj fs) = elim (get_field fs "function") [
  | none ↦ some []
  | some (obj fn) ↦ name_of (lookup (obj fn) "name")
  | some _ ↦ none
]
executed_name call = some []

unfoldable pub executed : List Json → Option (List String)
executed [] = some []
executed (call ∷ calls) = elim (executed_name call) [
  | none ↦ none
  | some names ↦ elim (executed calls) [ none ↦ none | some more ↦ some (names ++ more) ]
]

unfoldable pub outcome_name : Outcome → String
outcome_name reconciled = "reconciled"
outcome_name ambiguous = "ambiguous"
outcome_name unmatched = "unmatched"

-- One increment for each record.
unfoldable pub count_reconciliations : String → List Record → Metrics → Metrics
unfolding inc_tool_call_reconcile outcome_name
count_reconciliations model [] m = m
count_reconciliations model (x ∷ records) m =
    count_reconciliations model records (inc_tool_call_reconcile m model (outcome_name x.1.1))

-- The tool to call, where the outcome is `reconciled`.
unfoldable pub chosen : Option String × Outcome → Option String
chosen (tool, reconciled) = tool
chosen (tool, ambiguous) = none
chosen (tool, unmatched) = none

-- The value of `tool_calls`, if that is a list.
unfoldable pub as_list : Option Json → List Json
as_list (some (arr xs)) = to_list xs
as_list v = []

unfoldable pub existing : Fields → List Json
existing message = as_list (get_field message "tool_calls")

abbrev pub executed_in : Option (List Json) → Option (List String)
executed_in none = none
executed_in (some calls) = executed calls

-- The text blocks of a content that is a text and is not empty.
abbrev pub text_of : Json → String
text_of (str content) = content
text_of v = ""

-- The message is written only where a call is emitted.
unfoldable pub with_calls : Fields → List Json → Fields
unfolding existing
with_calls message [] = message
with_calls message (c ∷ cs) =
    put_field message "tool_calls" (arr (of_list (existing message ++ c ∷ cs)))

module _ (loads : String → Option Json) (dumps : Json → String) (call_id : ℕ → String) where
  abbrev pub call_fields : ℕ → String → Fields → Fields
  call_fields n name call = field "id" (str (call_id n)) (
      field "type" (str "function") (
        field "function"
          (obj (field "name" (str name) (field "arguments" (str (arguments loads dumps call)) end)))
          end))

  unfoldable pub emitted : ℕ → String → Fields → Json
  emitted n name call = obj (call_fields n name call)

  -- The loop over the calls: those that are emitted, and the records.
  unfoldable pub reconcile :
      Ratio → List String → ℕ → List String → List Fields → List Json × List Record
  reconcile r declared n done [] = ([], [])
  reconcile r declared n done (call ∷ calls) =
      let found = match_name r (call_name call) declared in
      let skipped = reconcile r declared n done calls in
      elim (chosen found) [
        | some name ↦
            if contains done name
            then (skipped.0, (call_name call, found) ∷ skipped.1)
            else (let later = reconcile r declared (suc n) (name ∷ done) calls in
                (emitted n name call ∷ later.0, (call_name call, found) ∷ later.1))
        | none ↦ (skipped.0, (call_name call, found) ∷ skipped.1)
      ]

  -- The calls to look at: the refused ones, else those in the text.
  abbrev pub calls_of : Fields → Option (List Fields) → Option (List Fields)
  calls_of message none = none
  calls_of message (some rejected) = some (
      all_calls loads dumps rejected
        (text_tool_calls loads dumps (text_of (lookup (obj message) "content"))))

  abbrev pub applied :
      Ratio
      → List String
      → Fields
      → Option (List Fields)
      → Option (List String)
      → Option (Option Fields × List Record)
  applied r declared message (some calls) (some done) =
      let (new, records) = reconcile r declared 0 done calls in
      some (some (with_calls message new), records)
  applied r declared message _ _ = none

  abbrev pub apply_to :
      Ratio → List String → Fields → Option Fields → Option (Option Fields × List Record)
  apply_to r [] answer message = some (message, [])
  apply_to r declared answer none = some (none, [])
  apply_to r declared answer (some message) =
      applied r declared message (calls_of message (rejected_calls loads dumps answer))
        (executed_in (iterated (lookup (obj message) "tool_calls")))

  abbrev pub apply_choices :
      Ratio → List String → Fields → Option (List Json) → Option (Option Fields × List Record)
  apply_choices r declared answer none = none
  apply_choices r declared answer (some choices) =
      apply_to r declared answer (assistant_message choices)

  -- The assistant message as it leaves, and the records; `none` where a part of the response makes
  -- it raise.
  unfoldable pub apply_reconcile :
      Ratio → List String → Fields → Option (Option Fields × List Record)
  apply_reconcile r declared answer =
      apply_choices r declared answer (iterated (lookup (obj answer) "choices"))
