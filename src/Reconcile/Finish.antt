-- ===== src/Reconcile/Finish.antt =====
-- The end of a reconciled stream (app/tool_reconcile.py, `StreamReconciler._synthesized` and
-- `finish`).
use llamaswap.Base.{
  ℕ, suc, ◌+◌, String, true, Option, none, some, List, [], ◌∷◌, ◌++◌, if◌then◌else◌,
}
use llamaswap.Json.{
  pos, Json, null, int, str, arr, obj, nil, cons, end, field, Fields, of_list, lookup, truthy,
}
use llamaswap.Tokens.Meter.{after_data, left_strip, right_strip}
use llamaswap.Reconcile.Match.{Ratio, match_name}
use llamaswap.Reconcile.Blocks.{text_tool_calls}
use llamaswap.Reconcile.Rejected.{call_name, rejected_calls, all_calls}
use llamaswap.Reconcile.Apply.{Record, chosen, call_fields}
use llamaswap.Reconcile.Stream.{State, Stream, joined, route}

abbrev pub json_or : Json → Json → Json
json_or v d = if truthy v then v else d

-- `data: ` and the bytes behind it.
abbrev pub data_mark : List ℕ
data_mark = 100 ∷ 97 ∷ 116 ∷ 97 ∷ 58 ∷ 32 ∷ []

-- The stream behind its last bytes.
abbrev pub ended_with : List ℕ → Option (State × List ℕ) → Option (Stream × List ℕ)
ended_with out none = none
ended_with out (some (s, event)) =
    some (record { residual = []; state = s; done = true }, out ++ event)

module _ (loads_line : List ℕ → Option Json) (dump_line : Json → List ℕ)
    (loads : String → Option Json) (dumps : Json → String) (call_id : ℕ → String)
    (event_id : String) (r : Ratio) (declared : List String) where
  -- `json.loads(line[6:].strip())` of a line of data.
  unfoldable pub data_of : List ℕ → Option Json
  data_of line = elim (after_data line) [
    | none ↦ none
    | some rest ↦ loads_line (right_strip (left_strip rest))
  ]

  -- The calls reported in the lines held back; a line that is no dictionary raises.
  unfoldable pub tail_calls : List (List ℕ) → Option (List Fields)
  tail_calls [] = some []
  tail_calls (line ∷ lines) = elim (data_of line) [
    | none ↦ tail_calls lines
    | some (obj fs) ↦ elim (rejected_calls loads dumps fs) [
      | none ↦ none
      | some calls ↦ elim (tail_calls lines) [ none ↦ none | some others ↦ some (calls ++ others) ]
    ]
    | some _ ↦ none
  ]

  -- The loop over the calls: the calls of the delta, numbered on from `index`, and the records.
  unfoldable pub delta_calls : ℕ → ℕ → List Fields → List Json × List Record
  delta_calls index n [] = ([], [])
  delta_calls index n (call ∷ calls) =
      let found = match_name r (call_name call) declared in
      let skipped = delta_calls index n calls in
      elim (chosen found) [
        | none ↦ (skipped.0, (call_name call, found) ∷ skipped.1)
        | some name ↦
            (let later = delta_calls index (suc n) calls in
              (
                obj (
                      field "index" (int (pos (index + n)))
                        (call_fields loads dumps call_id n name call))
                    ∷ later.0,
                (call_name call, found) ∷ later.1,
              ))
      ]

  abbrev pub template_of : Option Fields → Json
  template_of none = obj (field "object" (str "chat.completion.chunk") end)
  template_of (some fs) = elim fs [
    | end ↦ obj (field "object" (str "chat.completion.chunk") end)
    | field k v rest ↦ obj (field k v rest)
  ]

  unfoldable pub delta_event : Json → List Json → Json
  delta_event template calls = obj (
      field "id" (json_or (lookup template "id") (str event_id)) (
        field "object" (json_or (lookup template "object") (str "chat.completion.chunk")) (
          field "created" (json_or (lookup template "created") (int (pos 0))) (
            field "model" (json_or (lookup template "model") (str "")) (
              field "choices"
                (arr (
                  cons
                    (obj (
                      field "index" (int (pos 0)) (
                        field "delta" (obj (field "tool_calls" (arr (of_list calls)) end))
                          (field "finish_reason" null end))))
                    nil))
                end)))))

  -- The event, if there is a call for it.
  unfoldable pub delta_bytes : Json → List Json → List ℕ
  delta_bytes template [] = []
  delta_bytes template (call ∷ calls) =
      data_mark ++ (dump_line (delta_event template (call ∷ calls)) ++ (10 ∷ 10 ∷ []))

  -- `none` where a line held back makes it raise.
  unfoldable pub synthesized : State → Option (State × List ℕ)
  synthesized s = elim (tail_calls s.tail) [
    | none ↦ none
    | some rejected ↦
        let calls = all_calls loads dumps rejected (text_tool_calls loads dumps s.text) in
        let (new, records) = delta_calls s.next_index 0 calls in
        some (
          record s { tail = []; records = s.records ++ records },
          delta_bytes (template_of s.template) new ++ joined s.tail,
        )
  ]

  unfoldable pub with_rest : List ℕ → State → Option (State × List ℕ)
  with_rest [] s = some (s, [])
  with_rest (c ∷ residual) s = route loads_line loads dumps (c ∷ residual) s

  unfoldable pub finish : Stream → Option (Stream × List ℕ)
  finish p = elim (with_rest p.residual p.state) [
    | none ↦ none
    | some (s, out) ↦ ended_with out (synthesized s)
  ]
