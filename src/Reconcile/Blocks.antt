-- ===== src/Reconcile/Blocks.antt =====
-- The tool calls that a backend left in its answer as text (app/tool_reconcile.py,
-- `_JSON_BLOCK_RE`, `_XML_BLOCK_RE`, `_arguments` and `text_tool_calls`). `loads` is `json.loads`,
-- `none` where it raises, and `dumps` is `json.dumps`. White space and case are those of ASCII.
use Prim.Native.Char.{Char, code}
use Prim.Native.String.{count}
use llamaswap.Base.{
  ℕ, zero, suc, ◌-◌, String, Bool, ◌&&◌, ◌||◌, Option, none, some, List, [], ◌∷◌, ◌++◌, leb, eqb,
  if◌then◌else◌,
}
use llamaswap.Json.{Json, str, obj, end, field, Fields, get_field, is_str, lookup}

-- What stands behind `p`, if `p` begins the text.
unfoldable pub after : String → String → Option String
after String.[] s = some s
after (String.◌∷◌ c p) String.[] = none
after (String.◌∷◌ c p) (String.◌∷◌ d s) =
    let rest = after p s in if eqb (code c) (code d) then rest else none

abbrev pub is_space : Char → Bool
is_space c = eqb (code c) 32 || (leb 9 (code c) && leb (code c) 13)

-- `\s*`
unfoldable pub skip_space : String → String
skip_space String.[] = String.[]
skip_space (String.◌∷◌ c s) = let rest = skip_space s in if is_space c then rest else String.◌∷◌ c s

-- `\s*<\/?tool_call>`
unfoldable pub close_tag : String → Option String
unfolding after skip_space
close_tag s = elim (after "<tool_call>" (skip_space s)) [
  | some rest ↦ some rest
  | none ↦ after "</tool_call>" (skip_space s)
]

abbrev prefixed : Char → Option (String × String) → Option (String × String)
prefixed c none = none
prefixed c (some (g, rest)) = some (String.◌∷◌ c g, rest)

-- `.*?\}` with the closing tag: the shortest text that ends in a brace before such a tag.
unfoldable pub brace_body : String → Option (String × String)
unfolding close_tag
brace_body String.[] = none
brace_body (String.◌∷◌ c s) =
    let more = prefixed c (brace_body s) in
    elim (if eqb (code c) 125 then close_tag s else none) [
      | some rest ↦ some (String.◌∷◌ c String.[], rest)
      | none ↦ more
    ]

-- `(\{.*?\})\s*<\/?tool_call>`, at the start of a text.
unfoldable pub brace_group : String → Option (String × String)
unfolding brace_body
brace_group String.[] = none
brace_group (String.◌∷◌ c s) = if eqb (code c) 123 then prefixed c (brace_body s) else none

-- A match of `_JSON_BLOCK_RE` at the start of a text: the group, and what follows the match.
unfoldable pub json_block : String → Option (String × String)
unfolding after skip_space brace_group
json_block s = elim (after "<tool_call>" s) [
  | none ↦ none
  | some rest ↦ brace_group (skip_space rest)
]

-- `[A-Za-z0-9_.\-]`
abbrev is_name_char : Char → Bool
is_name_char c =
    (leb 48 (code c) && leb (code c) 57)
    || (leb 65 (code c) && leb (code c) 90)
    || (leb 97 (code c) && leb (code c) 122)
    || (eqb (code c) 95 || (eqb (code c) 46 || eqb (code c) 45))

-- The longest run of name characters, and what follows it.
unfoldable pub name_run : String → String × String
name_run String.[] = (String.[], String.[])
name_run (String.◌∷◌ c s) =
    let (n, rest) = name_run s in
    if is_name_char c then (String.◌∷◌ c n, rest) else (String.[], String.◌∷◌ c s)

-- `(.*?)</function>`
unfoldable pub function_body : String → Option (String × String)
unfolding after
function_body String.[] = none
function_body (String.◌∷◌ c s) =
    let more = prefixed c (function_body s) in
    elim (after "</function>" (String.◌∷◌ c s)) [ some rest ↦ some (String.[], rest) | none ↦ more ]

abbrev named_body : String × String → Option ((String × String) × String)
named_body (String.[], rest) = none
named_body (name, rest) = elim (after ">" (skip_space rest)) [
  | none ↦ none
  | some inner ↦ elim (function_body inner) [
    | none ↦ none
    | some (body, left) ↦ some ((name, body), left)
  ]
]

-- A match of `_XML_BLOCK_RE` at the start of a text.
unfoldable pub xml_block : String → Option ((String × String) × String)
unfolding after skip_space name_run function_body
xml_block s = elim (after "<function" s) [
  | none ↦ none
  | some rest ↦ elim (after "=" (skip_space rest)) [
    | none ↦ none
    | some inner ↦ named_body (name_run (skip_space inner))
  ]
]

-- `re.finditer`: the groups of the matches from the left, none of which overlap. The number is what
-- is left to pass over of the last match.
unfoldable pub find_all {ℓ} : {A : Type ℓ} → (String → Option (A × String)) → ℕ → String → List A
find_all block n String.[] = []
find_all block (suc n) (String.◌∷◌ c s) = find_all block n s
find_all block zero (String.◌∷◌ c s) = elim (block (String.◌∷◌ c s)) [
  | none ↦ find_all block zero s
  | some (group, rest) ↦ group ∷ find_all block (count s - count rest) s
]

-- `call.get("arguments", call.get("parameters", "{}"))`
unfoldable pub raw_arguments : Fields → Json
unfolding get_field
raw_arguments call = elim (get_field call "arguments") [
  | some v ↦ v
  | none ↦ elim (get_field call "parameters") [ some v ↦ v | none ↦ str "{}" ]
]

module _ (loads : String → Option Json) (dumps : Json → String) where
  unfoldable pub dumped : Json → String
  dumped (obj fs) = dumps (obj fs)
  dumped (str s) = elim (loads s) [ none ↦ "{}" | some v ↦ dumps v ]
  dumped v = "{}"

  unfoldable pub arguments : Fields → String
  unfolding raw_arguments dumped
  arguments call = dumped (raw_arguments call)

  abbrev text_call : Json → Json → Fields
  text_call name args =
      field "name" name (field "arguments" (str (arguments (field "arguments" args end))) end)

  -- `payload.get("arguments", payload.get("parameters"))`
  abbrev given : Fields → Json
  given fs = elim (get_field fs "arguments") [ some v ↦ v | none ↦ lookup (obj fs) "parameters" ]

  abbrev json_call : Option Json → List Fields
  json_call (some (obj fs)) =
      if is_str (lookup (obj fs) "name")
      then text_call (lookup (obj fs) "name") (given fs) ∷ []
      else []
  json_call v = []

  unfoldable pub json_calls : List String → List Fields
  unfolding arguments
  json_calls [] = []
  json_calls (g ∷ gs) = json_call (loads g) ++ json_calls gs

  unfoldable pub xml_calls : List (String × String) → List Fields
  unfolding arguments
  xml_calls [] = []
  xml_calls ((name, body) ∷ gs) = text_call (str name) (str body) ∷ xml_calls gs

  unfoldable pub text_tool_calls : String → List Fields
  unfolding find_all json_block xml_block json_calls xml_calls
  text_tool_calls content =
      json_calls (find_all json_block 0 content) ++ xml_calls (find_all xml_block 0 content)
