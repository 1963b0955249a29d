-- ===== src/Forward/Retry.antt =====
-- A request that is answered whole: trimmed after an overflow error and sent again (app/proxy.py,
-- `_model_field`, `_body_obj`, `_trimmed_body`, `_is_json` and `proxy_json`). Bytes are numbers.
-- `loads` is `json.loads`, `dump_body` the compact `json.dumps(...).encode()`, `decode` the text of
-- bytes, and `upstream k body` what the k-th call gets.
use llamaswap.Base.{
  ℕ, zero, suc, ◌/◌, max, String, Bool, true, false, ◌||◌, Option, none, some, List, [], ◌∷◌, eqb,
  if◌then◌else◌, string_key, codes,
}
use llamaswap.Json.{
  pos, negsuc, Json, null, bool, int, float, str, arr, obj, cons, end, field, Fields, get_field,
  put_field, lookup, truthy, is_null, is_text,
}
use llamaswap.Metrics.{Metrics, inc_context_trim}
use llamaswap.Trim.{trim_messages}
use llamaswap.Tokens.Store.{Store, Moment}
use llamaswap.Tokens.Meter.{count_response, left_strip, right_strip}
use llamaswap.Forward.Overflow.{overflow_info, decimal, is_digit}

-- The settings that the trim reads.
pub record Settings : Type 0 where
  pub context_trim : Bool
  pub context_trim_margin : ℕ

-- What a call of the upstream gets: no connection, another error of HTTP, or a status and a body.
pub data Reply : Type 0 where
  refused : Reply
  failed : String → Reply
  answered : ℕ → List ℕ → Reply

-- `val[0].get("model")` of a list that begins with a dictionary.
abbrev first_model : Json → Option Json
first_model (arr (cons (obj fs) xs)) = some (lookup (obj fs) "model")
first_model v = none

abbrev or_null : Option Json → Json
or_null none = null
or_null (some v) = v

abbrev or_first : Option Json → Option Json → Option Json
or_first none o = o
or_first (some v) o = some v

-- `None` is null.
unfoldable pub model_field : Json → Json
unfolding get_field
model_field (obj fs) = elim (get_field fs "model") [
  | some v ↦ v
  | none ↦
      or_null
        (or_first (first_model (lookup (obj fs) "choices")) (first_model (lookup (obj fs) "data")))
]
model_field v = null

-- The answer under the name that the request has for its model.
unfoldable pub renamed : String → Json → Json
unfolding model_field put_field
renamed model (obj fs) =
    if is_null (model_field (obj fs)) || is_text (model_field (obj fs)) model
    then obj fs
    else obj (put_field fs "model" (str model))
renamed model v = v

-- The digits of an integer's text, which may have an underscore between two of them.
unfoldable pub grouped : List ℕ → Option (List ℕ)
grouped [] = none
grouped (c ∷ []) = if is_digit c then some (c ∷ []) else none
grouped (c ∷ d ∷ s) =
    let plain = grouped (d ∷ s) in
    let behind_mark = grouped s in
    if is_digit c
    then elim (if eqb d 95 then behind_mark else plain) [ none ↦ none | some ds ↦ some (c ∷ ds) ]
    else none

abbrev unsigned : List ℕ → Option ℕ
unfolding grouped decimal
unsigned s = elim (grouped s) [ none ↦ none | some ds ↦ some (decimal 0 ds) ]

unfoldable pub int_text : List ℕ → Option ℕ
unfolding unsigned
int_text [] = none
int_text (c ∷ s) =
    if eqb c 45
    then elim (unsigned s) [ none ↦ none | some n ↦ some 0 ]
    else if eqb c 43
    then unsigned s
    else unsigned (c ∷ s)

-- `int(v)`, with 0 for what is negative; `none` where it raises.
unfoldable pub int_of : Json → Option ℕ
unfolding int_text left_strip right_strip
int_of (int (pos n)) = some n
int_of (int (negsuc n)) = some 0
int_of (bool true) = some 1
int_of (bool false) = some 0
int_of (float (pos x)) = some (x / 1000000)
int_of (float (negsuc x)) = some 0
int_of (str s) = int_text (right_strip (left_strip (codes s)))
int_of null = none
int_of (arr xs) = none
int_of (obj fs) = none

abbrev or_json : Json → Json → Json
unfolding truthy
or_json v w = if truthy v then v else w

abbrev pub at_least_256 : Option ℕ → Option ℕ
at_least_256 none = none
at_least_256 (some n) = some (max 256 n)

-- `max(256, int(...))`
unfoldable pub margin_of : Settings → Fields → Option ℕ
unfolding int_of or_json
margin_of st fs = at_least_256 (
    int_of (
      or_json (lookup (obj fs) "max_tokens")
        (or_json (lookup (obj fs) "max_completion_tokens") (int (pos st.context_trim_margin)))))

-- `head in (b"{", b"[")`
unfoldable pub is_json : List ℕ → Bool
unfolding left_strip
is_json content = elim (left_strip content) [ [] ↦ false | c ∷ s ↦ eqb c 123 || eqb c 91 ]

abbrev error_of : String → Json
error_of text = obj (field "error" (obj (field "message" (str text) end)) end)

-- What becomes of the metrics and of the token store.
abbrev pub Counts : Type 0
Counts = Metrics × Store

-- The bodies that were sent, in order, the answer, `none` where it raises, and the counts behind.
pub record Run : Type 0 where
  pub sent : List (List ℕ)
  pub answer : Option (ℕ × Json)
  pub counts : Counts

-- A request's surroundings; each count reads the clock twice. `loads_decoded` is `json.loads` of the
-- text that the bytes make with what is no UTF-8 replaced.
pub record Exchange : Type 0 where
  pub loads : List ℕ → Option Json
  pub loads_decoded : List ℕ → Option Json
  pub dump_body : Json → List ℕ
  pub decode : List ℕ → String
  pub settings : Settings
  pub t : Moment
  pub u : Moment
  pub model : String
  pub upstream : ℕ → List ℕ → Reply

module _ (e : Exchange) where
  open e use {loads, loads_decoded, dump_body, decode, settings, t, u, model, upstream}

  abbrev pub dumped : Option (Fields × ℕ) → Option (List ℕ)
  dumped none = none
  dumped (some (fs, n)) = some (dump_body (obj fs))

  -- The trim of a body that was parsed.
  abbrev pub trim_parsed : ℕ × ℕ → Option Json → Option (Option (List ℕ))
  trim_parsed (prompt, ctx) (some (obj fs)) = elim (margin_of settings fs) [
    | none ↦ none
    | some margin ↦ some (dumped (trim_messages fs prompt ctx margin))
  ]
  trim_parsed info v = some none

  -- `none` where it raises, and inside that None where there is nothing to send again.
  unfoldable pub trimmed_body : List ℕ → List ℕ → Option (Option (List ℕ))
  trimmed_body body err_text =
      if settings.context_trim
      then elim (overflow_info err_text) [
        | none ↦ some none
        | some info ↦ trim_parsed info (loads body)
      ]
      else some none

  -- The body of the next call, behind a reply that is no success.
  unfoldable pub next_body : Reply → List ℕ → Option (Option (List ℕ))
  next_body (answered status content) body =
      if eqb status 200 then some none else trimmed_body body content
  next_body refused body = some none
  next_body (failed text) body = some none

  -- The answer for a reply that is the last one.
  unfoldable pub answer_of : Reply → Option (ℕ × Json)
  answer_of refused = some (503, error_of "backend llama-server is not reachable")
  answer_of (failed text) = some (502, error_of text)
  answer_of (answered status content) =
      if eqb status 200
      then elim (loads content) [
        | none ↦ some (200, str (decode content))
        | some v ↦ some (200, renamed model v)
      ]
      else if is_json content
      then elim (loads content) [ none ↦ none | some v ↦ some (status, v) ]
      else some (status, str (decode content))

  -- `_body_obj`
  abbrev pub body_obj : List ℕ → Option Fields
  body_obj body = elim (loads_decoded body) [ some (obj fs) ↦ some fs | _ ↦ none ]

  -- A success is counted, on the body that brought it.
  unfoldable pub counted : Reply → List ℕ → Counts → Counts
  counted (answered status content) body p =
      if eqb status 200
      then elim (loads content) [
        | none ↦ p
        | some v ↦ count_response t u model (body_obj body) (renamed model v) p
      ]
      else p
  counted refused body p = p
  counted (failed text) body p = p

  unfoldable pub trims : Counts → Counts
  trims (m, s) = (inc_context_trim m model "trimmed", s)

  abbrev pub finished : Reply → List ℕ → Counts → Run
  finished reply body p = record {
    sent = body ∷ [];
    answer = answer_of reply;
    counts = counted reply body p;
  }

  abbrev pub behind_call : List ℕ → Run → Run
  behind_call body r = record r { sent = body ∷ r.sent }

  -- The calls from the k-th on, with `left` calls allowed behind it.
  unfoldable pub attempts : ℕ → ℕ → List ℕ → Counts → Run
  attempts zero k body p = finished (upstream k body) body p
  attempts (suc left) k body p = elim (next_body (upstream k body) body) [
    | none ↦ record { sent = body ∷ []; answer = none; counts = p }
    | some none ↦ finished (upstream k body) body p
    | some (some body') ↦ behind_call body (attempts left (suc k) body' (trims p))
  ]

  -- One call and three that retry.
  unfoldable pub proxy_json : List ℕ → Counts → Run
  proxy_json body p = attempts 3 0 body p
