-- ===== src/Gateway/Access.antt =====
-- Keys, the cap on requests in flight, and the request counters (`_GatewayMiddleware`).
use Prim.Native.Char.{code}
use llamaswap.Base.{
  ℕ, zero, suc, eqb, lower, starts_with, ends_with, foldl, ◌-◌, nat_key, String, Bool, true, false,
  Option, none, some, ◌&&◌, ◌||◌, List, [], ◌∷◌, Dict, get, put, is_some, or_else, ltb, leb,
  if◌then◌else◌, ◌==◌, string_key,
}

unfoldable pub is_admin : String → Bool
unfolding starts_with ends_with
is_admin path =
    (path == "/v1/reset" || path == "/v1/registry/reload")
    || (starts_with "/v1/models/" path && (ends_with "/load" path || ends_with "/unload" path))

-- `_headers`: names in lower case, and the first of a name counts.
unfoldable pub header_dict : List (String × String) → Dict String String
header_dict hs =
    foldl (λ d h. let k = lower h.0 in if is_some (get d k) then d else put d k h.1) [] hs

-- What `str.strip` strips in a header, which is Latin-1 text.
abbrev is_space : ℕ → Bool
is_space c = (leb 9 c && leb c 13) || ((leb 28 c && leb c 32) || (eqb c 133 || eqb c 160))

unfoldable pub left_strip : String → String
left_strip String.[] = String.[]
left_strip (String.◌∷◌ c s) =
    let rest = left_strip s in if is_space (code c) then rest else String.◌∷◌ c s

unfoldable pub right_strip : String → String
right_strip String.[] = String.[]
right_strip (String.◌∷◌ c s) =
    let rest = right_strip s in
    if rest == "" && is_space (code c) then String.[] else String.◌∷◌ c rest

abbrev strip : String → String
strip s = right_strip (left_strip s)

-- `s[n:]`
unfoldable pub skip : ℕ → String → String
skip zero s = s
skip (suc n) String.[] = String.[]
skip (suc n) (String.◌∷◌ c s) = skip n s

abbrev or_text : String → String → String
or_text a b = if a == "" then b else a

-- The key of a request, "" where it has none.
unfoldable pub provided_key : Dict String String → String
unfolding starts_with left_strip right_strip skip
provided_key headers =
    let auth = or_else (get headers "authorization") "" in
    if starts_with "bearer " (lower auth)
    then strip (skip 7 auth)
    else strip
        (or_text (or_else (get headers "x-api-key") "") (or_else (get headers "x-admin-key") ""))

-- The settings that the gateway reads; an empty key is no key.
pub record Policy : Type 0 where
  pub api_key : String
  pub admin_key : String
  pub max_concurrency : ℕ

-- The key that a path asks for.
unfoldable pub required_key : Policy → String → String
unfolding is_admin
required_key p path = if is_admin path then or_text p.admin_key p.api_key else p.api_key

unfoldable pub is_ascii : String → Bool
is_ascii String.[] = true
is_ascii (String.◌∷◌ c s) = let rest = is_ascii s in ltb (code c) 128 && rest

-- `hmac.compare_digest` of two texts: `none` where it raises, since it takes ASCII only.
unfoldable pub compare_digest : String → String → Option Bool
unfolding is_ascii
compare_digest a b = if is_ascii a && is_ascii b then some (a == b) else none

-- `given` is the key of the request, "" where it has none; `none` where the comparison raises.
unfoldable pub authorized : Policy → String → String → Option Bool
unfolding required_key compare_digest
authorized p path given =
    let required = required_key p path in
    if required == ""
    then some true
    else if given == ""
    then some false
    else compare_digest given required

-- A request: its method, its path and its headers as they came.
pub record Request : Type 0 where
  pub method : String
  pub path : String
  pub headers : List (String × String)

unfoldable pub provided : Request → String
unfolding provided_key header_dict
provided q = provided_key (header_dict q.headers)

-- The requests in flight, where they are capped, and the requests counted so far, each with its
-- status: what `inc_request` was called with.
pub record Gateway : Type 0 where
  pub inflight : ℕ
  pub counted : List (Request × ℕ)

-- `raised`: an exception comes out of the gateway.
pub data Entry : Type 0 where
  denied busy admitted raised : Entry

abbrev pub is_open : String → Bool
is_open path = path == "/health" || path == "/metrics"

-- The gateway's own answer, which is counted once it is sent: `sends` says whether the client takes
-- it, and sending raises where it does not.
unfoldable pub refuse : Bool → Request → ℕ → Entry → Gateway → Gateway × Entry
refuse true q status e g = (record g { counted = (q, status) ∷ g.counted }, e)
refuse false q status e g = (g, raised)

-- The cap, behind the key.
unfoldable pub pass : Policy → Bool → Request → Gateway → Gateway × Entry
unfolding refuse
pass p sends q g =
    if ltb 0 p.max_concurrency && leb p.max_concurrency g.inflight
    then refuse sends q 429 busy g
    else if ltb 0 p.max_concurrency
    then (record g { inflight = suc g.inflight }, admitted)
    else (g, admitted)

-- `__call__` up to the call of the application.
unfoldable pub enter : Policy → Bool → Request → Gateway → Gateway × Entry
unfolding authorized refuse pass
enter p sends q g =
    if is_open q.path then pass p sends q g else elim (authorized p q.path (provided q)) [
      | none ↦ (g, raised)
      | some true ↦ pass p sends q g
      | some false ↦ refuse sends q 401 denied g
    ]

-- Its `finally` block, with the status that was sent.
unfoldable pub leave : Policy → Request → ℕ → Gateway → Gateway
leave p q status g = record g {
  inflight = if ltb 0 p.max_concurrency then g.inflight - 1 else g.inflight;
  counted = (q, status) ∷ g.counted;
}
