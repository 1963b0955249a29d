-- ===== src/Forward/Stream.antt =====
-- A request that is answered by a stream: trimmed after an overflow error and sent again, and its
-- events under the name that the request has for the model (app/proxy.py, `proxy_stream`,
-- `_rewrite_chunk`, `_error_bytes` and `_stream_token_meter`). `dumps` is `json.dumps(...).encode()`.
use llamaswap.Base.{
  ℕ, zero, suc, String, Bool, true, false, ◌||◌, Option, none, some, List, [], ◌∷◌, ◌++◌,
  if◌then◌else◌, string_key, codes, is_some, map,
}
use llamaswap.Json.{
  Json, str, arr, obj, end, field, Fields, to_list, of_list, get_field, put_field, lookup, is_null,
  is_text,
}
use llamaswap.Tokens.Meter.{
  Meter, init, feed, finish, is_chat_body, split_lines, after_data, left_strip, right_strip, is_nil,
  same_bytes, end_mark,
}
use llamaswap.Forward.Retry.{Exchange, model_field, trimmed_body, trims, body_obj, Counts}

-- What a call of the upstream gets: no connection, another error of HTTP, an error's body, or a
-- stream of chunks, which may break off.
pub data StreamReply : Type 0 where
  unreachable : StreamReply
  failing : String → StreamReply
  denied : ℕ → List ℕ → StreamReply
  streaming : List (List ℕ) → Option String → StreamReply

abbrev named_choice : String → Json → Json
named_choice model (obj fs) =
    if is_some (get_field fs "model") then obj fs else obj (put_field fs "model" (str model))
named_choice model v = v

abbrev named_choices : String → Json → Fields → Fields
unfolding to_list of_list
named_choices model (arr xs) fs =
    put_field fs "choices" (arr (of_list (map (named_choice model) (to_list xs))))
named_choices model v fs = fs

-- The event under the request's name, if it has another.
unfoldable pub renamed_event : String → Json → Option Json
unfolding model_field named_choices put_field
renamed_event model (obj fs) =
    if is_null (model_field (obj fs)) || is_text (model_field (obj fs)) model
    then none
    else some
        (obj (named_choices model (lookup (obj fs) "choices") (put_field fs "model" (str model))))
renamed_event model v = none

take_text : ℕ → String → String
take_text zero s = ""
take_text (suc n) String.[] = ""
take_text (suc n) (String.◌∷◌ c s) = String.◌∷◌ c (take_text n s)

module _ (e : Exchange) (dumps : Json → List ℕ) where
  open e use {loads, dump_body, decode, model, t, u}

  abbrev renamed_line : List ℕ → Option Json → List ℕ
  unfolding renamed_event
  renamed_line line none = line
  renamed_line line (some v) = elim (renamed_event model v) [
    | none ↦ line
    | some v' ↦ codes "data: " ++ dump_body v'
  ]

  -- A line that carries an event is printed anew if the event's model has another name.
  unfoldable pub rewrite_line : List ℕ → List ℕ
  unfolding after_data left_strip right_strip same_bytes renamed_line
  rewrite_line line = elim (after_data line) [
    | none ↦ line
    | some rest ↦
        let d = right_strip (left_strip rest) in
        if is_nil d || same_bytes d end_mark then line else renamed_line line (loads d)
  ]

  abbrev joined : List (List ℕ) → List ℕ → List ℕ
  joined [] rest = rest
  joined (l ∷ ls) rest = l ++ (10 ∷ joined ls rest)

  -- `_rewrite_chunk`
  unfoldable pub rewrite_chunk : List ℕ → List ℕ
  unfolding split_lines rewrite_line
  rewrite_chunk chunk =
      let (ls, rest) = split_lines chunk in joined (map rewrite_line ls) (rewrite_line rest)

  abbrev error_value : List ℕ → Option Json → Json
  unfolding take_text
  error_value body none =
      obj (field "error" (obj (field "message" (str (take_text 500 (decode body))) end)) end)
  error_value body (some v) = v

  -- `_error_bytes`
  unfoldable pub error_bytes : List ℕ → List ℕ
  unfolding error_value
  error_bytes body =
      codes "event: error\ndata: "
      ++ dumps (obj (field "error" (error_value body (loads body)) end))
      ++ codes "\n\n"

  -- `_stream_token_meter`
  unfoldable pub stream_token_meter : List ℕ → Option Meter
  unfolding is_chat_body init
  stream_token_meter body = elim (body_obj e body) [
    | none ↦ none
    | some fs ↦ if is_chat_body fs then some (init model fs) else none
  ]

  -- The meter behind a chunk: `none` where it raises.
  unfoldable pub fed : List ℕ → Option Meter → Option (Option Meter)
  unfolding feed
  fed chunk none = some none
  fed chunk (some m) = elim (feed loads chunk m) [ none ↦ none | some m' ↦ some (some m') ]

  abbrev put_chunk :
      List ℕ → List (List ℕ) × Option (Option Meter) → List (List ℕ) × Option (Option Meter)
  put_chunk c (out, m) = (c ∷ out, m)

  -- The chunks that the client gets, and the meter behind them.
  unfoldable pub relayed : List (List ℕ) → Option Meter → List (List ℕ) × Option (Option Meter)
  unfolding fed rewrite_chunk
  relayed [] m = ([], some m)
  relayed (c ∷ cs) m = elim (is_nil c) [
    | true ↦ relayed cs m
    | false ↦ elim (fed c m) [
      | none ↦ ([], none)
      | some m' ↦ put_chunk (rewrite_chunk c) (relayed cs m')
    ]
  ]

  unfoldable pub metered : Option Meter → Counts → Counts
  unfolding finish
  metered none p = p
  metered (some m) p = finish t u m p

  -- The bodies that were sent, the chunks that the client gets, whether the generator comes to its
  -- end, and the counts.
  pub record StreamRun : Type 0 where
    pub sent : List (List ℕ)
    pub out : List (List ℕ)
    pub whole : Bool
    pub counts : Counts

  abbrev told : List ℕ → List ℕ → Counts → StreamRun
  told body err p = record { sent = body ∷ []; out = err ∷ []; whole = true; counts = p }

  -- A stream that broke off ends with the error, and is not counted.
  unfoldable pub streamed :
      List ℕ → Counts → Option String → List (List ℕ) × Option (Option Meter) → StreamRun
  unfolding metered
  streamed body p broken (out, none) = record {
    sent = body ∷ [];
    out = out;
    whole = false;
    counts = p;
  }
  streamed body p none (out, some m) = record {
    sent = body ∷ [];
    out = out;
    whole = true;
    counts = metered m p;
  }
  streamed body p (some text) (out, some m) = record {
    sent = body ∷ [];
    out = out ++ (error_bytes (codes text) ∷ []);
    whole = true;
    counts = p;
  }

  -- What the client gets for the last reply.
  unfoldable pub ending : StreamReply → List ℕ → Counts → StreamRun
  unfolding error_bytes stream_token_meter relayed streamed
  ending unreachable body p =
      told body (error_bytes (codes "backend llama-server is not reachable")) p
  ending (failing text) body p = told body (error_bytes (codes text)) p
  ending (denied status content) body p = told body (error_bytes content) p
  ending (streaming chunks broken) body p =
      streamed body p broken (relayed chunks (stream_token_meter body))

  -- The body of the next call, behind an error that is no success.
  unfoldable pub next_stream_body : StreamReply → List ℕ → Option (Option (List ℕ))
  next_stream_body (denied status content) body = trimmed_body e body content
  next_stream_body r body = some none

  abbrev behind : List ℕ → StreamRun → StreamRun
  behind body r = record r { sent = body ∷ r.sent }

  unfoldable pub stream_attempts : (ℕ → List ℕ → StreamReply) → ℕ → ℕ → List ℕ → Counts → StreamRun
  unfolding ending next_stream_body
  stream_attempts upstream zero k body p = ending (upstream k body) body p
  stream_attempts upstream (suc left) k body p = elim (next_stream_body (upstream k body) body) [
    | none ↦ record { sent = body ∷ []; out = []; whole = false; counts = p }
    | some none ↦ ending (upstream k body) body p
    | some (some body') ↦ behind body (stream_attempts upstream left (suc k) body' (trims e p))
  ]

  unfoldable pub proxy_stream : (ℕ → List ℕ → StreamReply) → List ℕ → Counts → StreamRun
  unfolding stream_attempts
  proxy_stream upstream body p = stream_attempts upstream 3 0 body p
