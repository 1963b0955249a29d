-- ===== src/Forward/Tests.antt =====
-- Requests and answers on their way through the proxy (app/proxy.py), and the theorems at them.
use llamaswap.Base.{
  ℕ, zero, suc, ◌+◌, ◌*◌, ◌≤◌, ◌<◌, ◌%◌, String, true, Option, none, some, List, [], ◌∷◌, ◌++◌,
  if◌then◌else◌, string_key, codes, show, length, ◌≡◌, ◌↔◌, refl, arith,
}
use llamaswap.Json.{
  ℤ, int, float, pos, Json, null, str, arr, obj, end, field, Fields, lookup, get_field, put_field,
  to_list, of_list, truthy,
}
use llamaswap.Tokens.Store.{init, opens}
use llamaswap.Tokens.Meter.{same_bytes}
use llamaswap.Forward.Overflow.{lazily, overflow_info, strata_match, llama_match, search_in}
use llamaswap.Forward.Errors.{strata_error, strata_limit, too_large, exceeds}
use llamaswap.Forward.Reading.{overflow_info-reads}
use llamaswap.Forward.Retry.{
  Reply, answered, Exchange, Counts, proxy_json, attempts, next_body, trimmed_body, answer_of,
  renamed, margin_of,
}
use llamaswap.Forward.Retries.{Chain, Exhausted, Ends, proxy_json-Forwarded}
use llamaswap.Forward.Bodies.{fields_of, json_inject_field, json_remove_key, json_remove_key-inject}
use llamaswap.Forward.Subtitles.{stamp, ts_srt, ts_vtt, stamp_bounds}
use llamaswap.Forward.Transcripts.{cues_from, format_transcription}
use llamaswap.Forward.Cues.{InPlace, cues_from-InPlace}
use llamaswap.Fixtures.{world}
use llamaswap.Trim.Tests.{request}
use llamaswap.Trim.Groups.{turn_groups}
use llamaswap.Trim.Messages.{
  splice, cut, droppable, keep_head, needed, drop_groups, group_tokens, marker, spliced,
  total_tokens, trim_list, trim_messages,
}
use llamaswap.Trim.Estimate.{message_tokens}

abbrev before : List ℕ
before = codes "no: "

overflow_info-reads_example :
    (overflow_info (before ++ strata_error 7800 8192 (codes "; prompt (1 tokens)"))
      ≡ some (7800, 8192))
    × (overflow_info (before ++ strata_limit 7800 2000 8192 (codes "; prompt (1 tokens)"))
        ≡ some (7800, 8192))
    × (overflow_info (before ++ too_large 7800 8192 (codes ". skipping")) ≡ some (7800, 8192))
    × (overflow_info (before ++ exceeds 7800 8192 (codes ". skipping")) ≡ some (7800, 8192))
unfolding strata_match llama_match search_in
overflow_info-reads_example =
    overflow_info-reads before 7800 2000 8192 (codes "; prompt (1 tokens)") (codes ". skipping")
      (λ t. refl, (λ t. refl, (λ t. refl, (λ t. refl, tt))))
      (λ t. refl, (λ t. refl, (λ t. refl, (λ t. refl, tt)))) refl

-- The milliseconds of the last half thousandth of a second.
srt_carry : ts_srt 3661999600 ≡ "01:01:01,1000"
unfolding ts_srt show
srt_carry = refl

vtt_time : ts_vtt 3661250000 ≡ "01:01:01.250"
unfolding ts_vtt show
vtt_time = refl

stamp_bounds_example :
    ((stamp 61999600).m < 60)
    × ((stamp 61999600).sec < 60)
    × ((stamp 61999600).ms ≤ 1000)
    × (((stamp 61999600).ms ≡ 1000) ↔ (999500 ≤ 61999600 % 1000000))
    × (1000
          * (1000 * (3600 * (stamp 61999600).h + 60 * (stamp 61999600).m + (stamp 61999600).sec)
              + (stamp 61999600).ms)
        ≤ 61999600 + 500)
    × (61999600
        ≤ 1000
            * (1000 * (3600 * (stamp 61999600).h + 60 * (stamp 61999600).m + (stamp 61999600).sec)
                + (stamp 61999600).ms)
          + 500)
stamp_bounds_example = stamp_bounds 61999600

abbrev no_float : String → Option ℤ
no_float s = none

abbrev shown : Json → String
shown v = "?"

abbrev segments : List Json
segments =
    obj (field "start" (int (pos 2)) (field "end" (int (pos 1)) (field "text" (str " hi ") end)))
    ∷ null
    ∷ obj (field "start" (int (pos 3)) (field "end" (float (pos 3500000)) end))
    ∷ []

abbrev transcript : Fields
transcript = field "text" (str "hi") (field "segments" (arr (of_list segments)) end)

subtitles_of :
    format_transcription no_float shown (obj transcript) " SRT" null
    ≡ some (
      str "1\n00:00:02,000 --> 00:00:02,000\nhi\n\n3\n00:00:03,000 --> 00:00:03,500\n\n",
      "application/x-subrip",
    )
unfolding format_transcription of_list show
subtitles_of = refl

cues_from-InPlace_example : InPlace 1 4 (cues_from no_float shown 1 segments)
cues_from-InPlace_example = cues_from-InPlace no_float shown 1 4 segments (omega arith)

-- An upstream that refuses the long body and answers the short one.
abbrev pub answer : Fields
answer =
    field "model" (str "m2") (field "usage" (obj (field "prompt_tokens" (int (pos 3)) end)) end)

unfoldable pub loads : List ℕ → Option Json
unfolding same_bytes
loads body =
    if same_bytes body (codes "long")
    then some (obj request)
    else if same_bytes body (codes "ok")
    then some (obj answer)
    else none

abbrev pub dump_body : Json → List ℕ
dump_body v = codes "short"

abbrev pub upstream : ℕ → List ℕ → Reply
upstream k body = elim k [
  | zero ↦ answered 400 (strata_error 1005 1300 [])
  | suc n ↦ answered 200 (codes "ok")
]

abbrev pub exchange : Exchange
exchange = record {
  loads = loads;
  loads_decoded = loads;
  dump_body = dump_body;
  decode = λ bytes. "";
  settings = record { context_trim = true; context_trim_margin = 300 };
  t = record { wrote = true; now = 100; done = 101 };
  u = record { wrote = true; now = 102; done = 103 };
  model = "m";
  upstream = upstream;
}

abbrev pub counts : Counts
counts = (world.metrics, init opens 0 [])

abbrev answered_as : ℕ × Json
answered_as = (
  200,
  obj (field "model" (str "m") (field "usage" (obj (field "prompt_tokens" (int (pos 3)) end)) end)),
)

retried_answer : (proxy_json exchange (codes "long") counts).answer ≡ some answered_as
unfolding proxy_json attempts next_body trimmed_body overflow_info show lazily loads margin_of
    get_field trim_messages to_list splice cut droppable turn_groups keep_head needed drop_groups
    group_tokens marker spliced total_tokens trim_list message_tokens truthy put_field of_list
    answer_of renamed
retried_answer = refl

retried_bodies :
    (proxy_json exchange (codes "long") counts).sent ≡ codes "long" ∷ codes "short" ∷ []
unfolding proxy_json attempts next_body trimmed_body overflow_info show lazily loads margin_of
    get_field trim_messages to_list splice cut droppable turn_groups keep_head needed drop_groups
    group_tokens marker spliced total_tokens trim_list message_tokens truthy put_field of_list
    answer_of renamed
retried_bodies = refl

proxy_json-Forwarded_example :
    (rest : List (List ℕ)) × ((proxy_json exchange (codes "long") counts).sent
      ≡ codes "long" ∷ rest)
    × (length rest ≤ 3)
    × Chain exchange 0 (codes "long" ∷ rest)
    × Exhausted exchange 3 0 (codes "long" ∷ rest)
    × Ends exchange 0
        (codes "long" ∷ rest)
        (some answered_as)
        counts
        (proxy_json exchange (codes "long") counts).counts
proxy_json-Forwarded_example =
    proxy_json-Forwarded exchange (codes "long") counts answered_as retried_answer

-- A body with one key, and the body with the injected key behind it.
abbrev small : Fields
small = field "model" (str "m") end

abbrev loads_two : List ℕ → Option Json
unfolding same_bytes
loads_two body =
    if same_bytes body (codes "a")
    then some (obj small)
    else if same_bytes body (codes "b")
    then some (obj (field "model" (str "m") (field "n" (int (pos 1)) end)))
    else none

abbrev dumps_two : Json → List ℕ
unfolding get_field
dumps_two v = elim (lookup v "n") [ null ↦ codes "a" | _ ↦ codes "b" ]

json_remove_key-inject_example :
    (fields_of loads_two dumps_two
        (json_inject_field loads_two dumps_two (codes "a") "n" (int (pos 1)))
      ≡ some (put_field small "n" (int (pos 1))))
    × (json_remove_key loads_two dumps_two
          (json_inject_field loads_two dumps_two (codes "a") "n" (int (pos 1)))
          "n"
        ≡ dumps_two (obj small))
    × (json_inject_field loads_two dumps_two
          (json_inject_field loads_two dumps_two (codes "a") "n" (int (pos 1)))
          "n"
          null
        ≡ json_inject_field loads_two dumps_two (codes "a") "n" (int (pos 1)))
unfolding loads_two dumps_two get_field put_field same_bytes
json_remove_key-inject_example =
    json_remove_key-inject loads_two dumps_two (codes "a") "n" (int (pos 1)) null small refl refl
      refl
