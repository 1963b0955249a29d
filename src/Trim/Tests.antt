-- ===== src/Trim/Tests.antt =====
-- A conversation with a tool turn, trimmed.
use llamaswap.Base.{◌≡◌, refl, ◌↔◌, ◌⊎◌, none, some, [], ◌∷◌, String, length, show}
use llamaswap.Json.{
  Json, str, arr, obj, Items, nil, cons, Fields, end, field, get_field, put_field, to_list, of_list,
  truthy,
}
use llamaswap.Trim.Estimate.{message_tokens}
use llamaswap.Trim.Groups.{turn_groups, concat, range, turn_groups-partition}
use llamaswap.Trim.Messages.{
  droppable, needed, cut, spliced, splice, trim_list, trim_messages, keep_head, total_tokens,
  group_tokens, drop_groups, marker,
}
use llamaswap.Trim.Laws.{IsTrimmed, trim_messages-IsTrimmed, trim_messages-none_iff}

abbrev pub message : String → String → Json
message role content = obj (field "role" (str role) (field "content" (str content) end))

abbrev pub caller : Json
caller = obj (
    field "role" (str "assistant")
      (field "tool_calls" (arr (cons (obj (field "id" (str "1") end)) nil)) end))

abbrev pub conversation : Items
conversation = cons (message "system" "SYSTEM") (
    cons (message "user" "a long question")
      (cons caller (cons (message "tool" "an answer") (cons (message "user" "LIVE") nil))))

abbrev pub request : Fields
request = field "model" (str "m") (field "messages" (arr conversation) end)

groups : turn_groups (to_list conversation) ≡ (0 ∷ []) ∷ (1 ∷ []) ∷ (2 ∷ 3 ∷ []) ∷ (4 ∷ []) ∷ []
unfolding turn_groups to_list truthy get_field
groups = refl

turn_groups-partition_example :
    concat (turn_groups (to_list conversation)) ≡ range 0 (length (to_list conversation))
turn_groups-partition_example = turn_groups-partition (to_list conversation)

abbrev trimmed : Fields
trimmed = field "model" (str "m") (
    field "messages"
      (arr (
        cons (message "system" "SYSTEM") (
          cons
            (message "system" "[llamaswap: dropped 1 earlier messages to fit the context window]")
            (cons caller (cons (message "tool" "an answer") (cons (message "user" "LIVE") nil))))))
      end)

trims : trim_messages request 1005 1300 300 ≡ some (trimmed, 1)
unfolding trim_messages trim_list splice spliced cut drop_groups droppable needed total_tokens
    group_tokens keep_head marker message_tokens turn_groups get_field put_field to_list of_list
    truthy show
trims = refl

trim_messages-IsTrimmed_example : IsTrimmed request 1005 1300 300 trimmed 1
trim_messages-IsTrimmed_example = trim_messages-IsTrimmed request 1005 1300 300 trimmed 1 trims

has_messages : get_field request "messages" ≡ some (arr conversation)
unfolding get_field
has_messages = refl

trim_messages-none_iff_example :
    (trim_messages request 900 1300 300 ≡ none)
    ↔ ((droppable (to_list conversation) ≡ []) ⊎ (needed (to_list conversation) 900 1300 300 ≡ 0))
trim_messages-none_iff_example =
    trim_messages-none_iff request conversation 900 1300 300 has_messages
