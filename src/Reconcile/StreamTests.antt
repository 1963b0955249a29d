-- ===== src/Reconcile/StreamTests.antt =====
-- A response and a stream through the reconciler (app/tool_reconcile.py), and the theorems at
-- them.
use llamaswap.Base.{
  ℕ, String, true, Option, none, some, List, [], ◌∷◌, ◌++◌, if◌then◌else◌, string_key, codes, ◌≡◌,
  ◌<◌, All, refl, ends_with,
}
use llamaswap.Json.{
  Json, str, arr, obj, nil, cons, end, field, Fields, get_field, put_field, of_list,
}
use llamaswap.Tokens.Meter.{
  iterated, split_lines, put_byte, after_data, left_strip, right_strip, same_bytes,
}
use llamaswap.Reconcile.Match.{reconciled, match_name}
use llamaswap.Reconcile.Blocks.{text_tool_calls}
use llamaswap.Reconcile.Rejected.{rejected_calls, all_calls, assistant_message}
use llamaswap.Reconcile.Apply.{
  Record, apply_reconcile, reconcile, chosen, emitted, executed, as_list, with_calls,
}
use llamaswap.Reconcile.Applied.{Parts, apply_reconcile-IsApplied}
use llamaswap.Reconcile.Stream.{
  State, Stream, init, joined, kind_of, holds, is_final, read_delta, read_choice, read_choices,
  after_calls, route, route_event, route_lines, feed,
}
use llamaswap.Reconcile.Finish.{
  data_of, tail_calls, delta_calls, delta_event, delta_bytes, synthesized, with_rest, finish,
}
use llamaswap.Reconcile.Placed.{held, passed}
use llamaswap.Reconcile.Lines.{lines_of}
use llamaswap.Reconcile.Ending.{EndsWith}
use llamaswap.Reconcile.Relay.{relay, relay-InOrder}
use llamaswap.Reconcile.Said.{said, last_event, index_behind}
use llamaswap.Reconcile.Indices.{streamed, IsNumbered, delta_calls-no_collision}
use llamaswap.Reconcile.Tests.{three_quarters, loads, dumps}

abbrev call_id : ℕ → String
call_id n = "id"

-- A refused call without arguments; its block in the text has none either.
abbrev message : Fields
message =
    field "rejected_tool_calls" (arr (cons (str "unity_list") nil)) (field "content" (str "") end)

abbrev answer : Fields
answer = field "choices" (arr (cons (obj (field "message" (obj message) end)) nil)) end

abbrev called : Json
called = obj (
    field "id" (str "id") (
      field "type" (str "function") (
        field "function"
          (obj (field "name" (str "unity_unity_list") (field "arguments" (str "{}") end))) end)))

abbrev message_after : Fields
message_after =
    field "rejected_tool_calls" (arr (cons (str "unity_list") nil))
      (field "content" (str "") (field "tool_calls" (arr (cons called nil)) end))

abbrev reported : List Record
reported = ("unity_list", (some "unity_unity_list", reconciled)) ∷ []

abbrev declared : List String
declared = "write_file" ∷ []

applied :
    apply_reconcile loads dumps call_id three_quarters ("unity_unity_list" ∷ declared) answer
    ≡ some (some message_after, reported)
unfolding apply_reconcile iterated get_field assistant_message rejected_calls executed with_calls
    reconcile all_calls text_tool_calls chosen match_name ends_with put_field of_list as_list
    emitted
applied = refl

apply_reconcile-IsApplied_example :
    Parts loads dumps call_id three_quarters
      ("unity_unity_list" ∷ declared)
      answer
      message
      message_after
      reported
unfolding iterated get_field assistant_message
apply_reconcile-IsApplied_example =
    apply_reconcile-IsApplied loads dumps call_id three_quarters "unity_unity_list" declared answer
      message message_after (obj (field "message" (obj message) end) ∷ []) reported refl refl
      applied

-- The last event of a stream, and the line that carries it.
abbrev finished : Json
finished = obj (
    field "choices"
      (arr (
        cons
          (obj (
            field "delta" (obj (field "content" (str "<function=write-file></function>") end))
              (field "finish_reason" (str "stop") end)))
          nil))
      end)

abbrev loads_line : List ℕ → Option Json
unfolding same_bytes
loads_line bytes = if same_bytes bytes (codes "1") then some finished else none

abbrev dump_line : Json → List ℕ
dump_line j = codes "new"

abbrev line_feed : List ℕ
line_feed = 10 ∷ []

-- The end mark is cut in two.
abbrev chunks : List (List ℕ)
chunks =
    (codes "hi" ++ line_feed ++ codes "data: 1" ++ line_feed ++ codes "data: [DO")
    ∷ codes "NE]"
    ∷ []

abbrev relayed : List ℕ
relayed =
    codes "hi"
    ++ line_feed
    ++ codes "data: new"
    ++ line_feed
    ++ line_feed
    ++ codes "data: 1"
    ++ line_feed
    ++ codes "data: [DONE]"
    ++ line_feed

abbrev finished_fields : Fields
finished_fields = elim finished [ obj fs ↦ fs | _ ↦ end ]

abbrev after_stream : Stream
after_stream = record {
  residual = [];
  state = record {
    text = "<function=write-file></function>";
    tail = [];
    template = some finished_fields;
    next_index = 0;
    records = ("write-file", (some "write_file", reconciled)) ∷ [];
  };
  done = true;
}

relayed_lem :
    relay loads_line dump_line loads dumps call_id "event" three_quarters declared chunks init
    ≡ some (after_stream, relayed)
unfolding relay feed route_lines split_lines init route kind_of after_data same_bytes right_strip
    left_strip route_event iterated get_field read_choices read_choice read_delta holds is_final
    rejected_calls finish with_rest synthesized tail_calls data_of all_calls text_tool_calls
    delta_calls delta_event delta_bytes chosen match_name of_list ends_with loads_line put_byte
    after_calls
relayed_lem = refl

relay-InOrder_example :
    EndsWith loads_line dump_line loads dumps call_id "event" three_quarters declared
      (held loads_line loads dumps (lines_of (joined chunks)))
      (said loads_line loads dumps (lines_of (joined chunks)) "")
      (index_behind loads_line loads dumps (lines_of (joined chunks)) 0)
      (last_event loads_line loads dumps (lines_of (joined chunks)) none)
      (passed loads_line loads dumps (lines_of (joined chunks)))
      relayed
relay-InOrder_example =
    relay-InOrder loads_line dump_line loads dumps call_id "event" three_quarters declared chunks
      after_stream relayed relayed_lem

abbrev lines : List (List ℕ)
lines = codes "data: 1" ∷ []

abbrev routed : State
routed = record {
  text = "<function=write-file></function>";
  tail = (codes "data: 1" ++ line_feed) ∷ [];
  template = some finished_fields;
  next_index = 0;
  records = [];
}

routed_lem : route_lines loads_line loads dumps lines init.state ≡ some (routed, [])
unfolding route_lines route kind_of after_data same_bytes right_strip left_strip route_event
    iterated get_field read_choices read_choice read_delta holds rejected_calls is_final init
    after_calls
routed_lem = refl

delta_calls-no_collision_example :
    All (λ i. i < routed.next_index) (streamed loads_line loads dumps lines)
    × IsNumbered routed.next_index
        (delta_calls loads_line dump_line loads dumps call_id "event" three_quarters declared
          routed.next_index 0
          (field "name" (str "write-file") end ∷ [])).0
delta_calls-no_collision_example =
    delta_calls-no_collision loads_line dump_line loads dumps call_id "event" three_quarters
      declared lines init.state routed [] (field "name" (str "write-file") end ∷ []) routed_lem
