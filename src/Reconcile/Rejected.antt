-- ===== src/Reconcile/Rejected.antt =====
-- The calls that a backend reports as refused, with the arguments of their text blocks
-- (app/tool_reconcile.py, `declared_tool_names`, `rejected_calls`, `_assistant_message` and
-- `_merge_arguments`).
use llamaswap.Base.{
  String, ◌&&◌, not, Option, none, some, List, [], ◌∷◌, ◌++◌, if◌then◌else◌, contains, ◌==◌,
  string_key,
}
use llamaswap.Json.{
  Json, str, arr, obj, end, field, Fields, get_field, put_field, to_list, is_obj, lookup,
}
use llamaswap.Tokens.Meter.{iterated}
use llamaswap.Reconcile.Match.{norm}
use llamaswap.Reconcile.Blocks.{arguments}

abbrev add_name : Json → List String → List String
add_name (str name) names =
    if not (name == "") && not (contains names name) then names ++ (name ∷ []) else names
add_name v names = names

-- `tool["function"]` if that is a dictionary, else the tool itself.
abbrev declared_in : Json → Json
declared_in tool = if is_obj (lookup tool "function") then lookup tool "function" else tool

unfoldable pub add_tools : List Json → List String → List String
add_tools [] names = names
add_tools (tool ∷ tools) names = add_tools tools (add_name (lookup (declared_in tool) "name") names)

-- `declared_tool_names` on the request as it was parsed; `none` where the loop over `tools` raises.
unfoldable pub declared_tool_names : Json → Option (List String)
unfolding iterated add_tools
declared_tool_names body = elim (iterated (lookup body "tools")) [
  | none ↦ none
  | some tools ↦ some (add_tools tools [])
]

-- `str(call.get("name") or "")`; the callers' calls have a text for a name.
unfoldable pub call_name : Fields → String
call_name call = elim (get_field call "name") [ some (str name) ↦ name | _ ↦ "" ]

-- `_assistant_message`, of the choices: the first message there is.
unfoldable pub assistant_message : List Json → Option Fields
assistant_message [] = none
assistant_message (choice ∷ choices) = elim (lookup choice "message") [
  | obj message ↦ some message
  | _ ↦ assistant_message choices
]

abbrev as_call : Json → Fields
as_call (obj fs) = fs
as_call item = field "name" item end

module _ (loads : String → Option Json) (dumps : Json → String) where
  -- `json.dumps(..., sort_keys=True)` of the name and the arguments.
  unfoldable pub key_id : Fields → String
  unfolding call_name arguments
  key_id call =
      dumps
        (obj (field "a" (str (arguments loads dumps call)) (field "n" (str (call_name call)) end)))

  -- The calls found, and the keys seen.
  abbrev pub Found : Type 0
  Found = List Fields × List String

  unfoldable pub take_call : Fields → Found → Found
  unfolding key_id
  take_call call (found, seen) = elim (get_field call "name") [
    | some (str name) ↦
        if contains seen (key_id call)
        then (found, seen)
        else (found ++ (call ∷ []), key_id call ∷ seen)
    | _ ↦ (found, seen)
  ]

  unfoldable pub take_items : List Json → Found → Found
  unfolding take_call
  take_items [] s = s
  take_items (item ∷ items) s = take_items items (take_call (as_call item) s)

  abbrev take_list : Json → Found → Found
  take_list (arr items) s = take_items (to_list items) s
  take_list value s = s

  -- `take(holder)`
  unfoldable pub take_holder : Json → Found → Found
  unfolding take_items to_list
  take_holder holder s = take_list (lookup holder "invalid_tool_calls") (
      take_list (lookup holder "rejected_tool_calls")
        (take_list (lookup holder "strata_rejected_tool_calls") s))

  unfoldable pub take_choices : List Json → Found → Found
  unfolding take_holder
  take_choices [] s = s
  take_choices (choice ∷ choices) s =
      take_choices choices (take_holder (lookup choice "message") (take_holder choice s))

  -- `none` where the loop over `choices` raises.
  unfoldable pub rejected_calls : Fields → Option (List Fields)
  unfolding iterated take_holder take_choices
  rejected_calls answer = elim (iterated (lookup (obj answer) "choices")) [
    | none ↦ none
    | some choices ↦ some ((take_choices choices (take_holder (obj answer) ([], []))).0)
  ]

  -- The first block with that name, and the others.
  unfoldable pub pick : String → List Fields → Option (Fields × List Fields)
  unfolding call_name norm
  pick name [] = none
  pick name (tc ∷ remaining) =
      let later = pick name remaining in
      if norm (call_name tc) == name
      then some (tc, remaining)
      else elim later [ none ↦ none | some (found, others) ↦ some (found, tc ∷ others) ]

  -- `tc.get("arguments", "{}")`
  abbrev block_arguments : Fields → Json
  block_arguments tc = elim (get_field tc "arguments") [ none ↦ str "{}" | some v ↦ v ]

  unfoldable pub merge_arguments : List Fields → List Fields → List Fields
  unfolding arguments call_name norm pick
  merge_arguments [] remaining = []
  merge_arguments (call ∷ rejected) remaining =
      elim (if arguments loads dumps call == "{}"
        then pick (norm (call_name call)) remaining
        else none) [
          | none ↦ call ∷ merge_arguments rejected remaining
          | some (tc, others) ↦
              put_field call "arguments" (block_arguments tc) ∷ merge_arguments rejected others
        ]

  -- `_merge_arguments(calls, text_calls) if calls else text_calls`
  unfoldable pub all_calls : List Fields → List Fields → List Fields
  unfolding merge_arguments
  all_calls [] text_calls = text_calls
  all_calls (call ∷ calls) text_calls = merge_arguments (call ∷ calls) text_calls
