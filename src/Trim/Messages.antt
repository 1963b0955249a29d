-- ===== src/Trim/Messages.antt =====
-- Dropping the oldest turns of a chat request (app/proxy.py, `trim_messages`).
use Prim.Native.String.{◌++◌ as str_append}
use llamaswap.Base.{
  ℕ, suc, ◌+◌, ◌-◌, max, Bool, ◌&&◌, Option, none, some, List, [], ◌∷◌, ◌++◌, length, get_elem?,
  take, drop, keep, leb, ltb, eqb, if◌then◌else◌, show,
}
use llamaswap.Json.{
  Json, str, arr, obj, end, field, Fields, lookup, is_obj, is_text, get_field, put_field, to_list,
  of_list,
}
use llamaswap.Trim.Estimate.{message_tokens}
use llamaswap.Trim.Groups.{turn_groups}

abbrev pub is_system : Json → Bool
is_system m = is_obj m && is_text (lookup m "role") "system"

-- The leading system block, which never reaches the last message.
unfoldable pub keep_head : List Json → ℕ
keep_head [] = 0
keep_head (m ∷ []) = 0
keep_head (m ∷ next ∷ ms) = if is_system m then suc (keep_head (next ∷ ms)) else 0

-- `g[0]` and `g[-1]`; a group is never empty.
abbrev pub first_of : List ℕ → ℕ
first_of [] = 0
first_of (i ∷ g) = i

abbrev pub last_of : List ℕ → ℕ
last_of [] = 0
last_of (i ∷ []) = i
last_of (i ∷ j ∷ g) = last_of (j ∷ g)

abbrev pub tail_start : List Json → ℕ
tail_start ms = length ms - 1

-- The groups that lie between the system block and the last message.
unfoldable pub droppable : List Json → List (List ℕ)
droppable ms =
    keep (λ g. leb (keep_head ms) (first_of g) && ltb (last_of g) (tail_start ms)) (turn_groups ms)

unfoldable pub total_tokens : List Json → ℕ
total_tokens [] = 0
total_tokens (m ∷ ms) = message_tokens m + total_tokens ms

-- `max(prompt - (ctx - margin), total - (ctx - margin))`, with 0 for what is not positive.
unfoldable pub needed : List Json → ℕ → ℕ → ℕ → ℕ
needed ms prompt ctx margin = max prompt (total_tokens ms) + margin - ctx

tokens_at : List Json → ℕ → ℕ
tokens_at ms i = elim (get_elem? ms i) [ none ↦ 0 | some m ↦ message_tokens m ]

unfoldable pub group_tokens : List Json → List ℕ → ℕ
unfolding tokens_at
group_tokens ms [] = 0
group_tokens ms (i ∷ g) = tokens_at ms i + group_tokens ms g

-- The loop over the droppable groups: what is dropped so far, and the first index kept behind it.
unfoldable pub drop_groups : List Json → ℕ → List (List ℕ) → ℕ → ℕ → ℕ × ℕ
drop_groups ms need [] dropped keep_from = (dropped, keep_from)
drop_groups ms need (g ∷ gs) dropped keep_from =
    if leb need dropped
    then (dropped, keep_from)
    else drop_groups ms need gs (dropped + group_tokens ms g) (suc (last_of g))

unfoldable pub marker : ℕ → Json
marker n = obj (
    field "role" (str "system") (
      field "content"
        (str (
          str_append "[llamaswap: dropped "
            (str_append (show n) " earlier messages to fit the context window]")))
        end))

-- Where the messages are cut, and how many go; `none` where nothing is dropped.
unfoldable pub cut : List Json → ℕ → List (List ℕ) → Option (ℕ × ℕ)
cut ms need [] = none
cut ms need (g ∷ gs) =
    let keep_from = (drop_groups ms need (g ∷ gs) 0 (length ms)).1 in
    if eqb need 0
    then none
    else if leb keep_from (keep_head ms)
    then none
    else some (keep_from, keep_from - keep_head ms)

-- The messages around a cut, with the marker in place of what went.
unfoldable pub spliced : List Json → ℕ → ℕ → List Json
spliced ms keep_from n = take (keep_head ms) ms ++ (marker n ∷ drop keep_from ms)

-- The body that a cut makes.
unfoldable pub splice : Fields → List Json → Option (ℕ × ℕ) → Option (Fields × ℕ)
splice body ms none = none
splice body ms (some (keep_from, n)) =
    some (put_field body "messages" (arr (of_list (spliced ms keep_from n))), n)

unfoldable pub trim_list : Fields → List Json → ℕ → ℕ → ℕ → Option (Fields × ℕ)
trim_list body [] prompt ctx margin = none
trim_list body (m ∷ ms) prompt ctx margin =
    splice body (m ∷ ms) (cut (m ∷ ms) (needed (m ∷ ms) prompt ctx margin) (droppable (m ∷ ms)))

-- The test on the type of `messages`.
unfoldable pub trim_value : Fields → Option Json → ℕ → ℕ → ℕ → Option (Fields × ℕ)
unfolding trim_list
trim_value body (some (arr xs)) prompt ctx margin = trim_list body (to_list xs) prompt ctx margin
trim_value body _ prompt ctx margin = none

unfoldable pub trim_messages : Fields → ℕ → ℕ → ℕ → Option (Fields × ℕ)
unfolding trim_value
trim_messages body prompt ctx margin = trim_value body (get_field body "messages") prompt ctx margin
