-- ===== src/Ollama/Calls.antt =====
-- Tool calls in the Ollama shape, and their accumulation over a stream (app/ollama.py,
-- `_tool_calls_to_ollama`, `_merge_tool_call` and `_accumulated_tool_calls`). `loads` is
-- `json.loads` of a text, `none` where it raises, and `dumps` is `json.dumps`.
use Prim.Native.String.{◌++◌ as str_append}
use llamaswap.Base.{
  String, Bool, true, false, Option, none, some, List, [], ◌∷◌, if◌then◌else◌, ltb, eqb, length,
}
use llamaswap.Json.{ℤ, pos, negsuc, Json, bool, int, str, obj, end, field, lookup, truthy}
use llamaswap.Ollama.Values.{single}

pub record Call : Type 0 where
  pub name : Json
  pub arguments : String

abbrev pub Calls : Type 0
Calls = List (ℤ × Call)

module _ (loads : String → Option Json) where
  -- Arguments that are a text are parsed, if they can be.
  abbrev pub parsed : Json → Json
  parsed (str s) = elim (loads s) [ none ↦ str s | some v ↦ v ]
  parsed v = v

  abbrev pub ollama_call : Json → Json → Json
  ollama_call name arguments =
      single "function" (obj (field "name" name (field "arguments" (parsed arguments) end)))

  -- A function that is falsy counts as an empty one, which has no name.
  unfoldable pub tool_calls_to_ollama : List Json → List Json
  unfolding truthy
  tool_calls_to_ollama [] = []
  tool_calls_to_ollama (call ∷ calls) =
      let fn = lookup call "function" in
      let rest = tool_calls_to_ollama calls in
      if truthy (lookup fn "name")
      then ollama_call (lookup fn "name") (lookup fn "arguments") ∷ rest
      else rest

-- `isinstance(index, int)`, where True is 1 and False is 0, and otherwise the number of calls.
abbrev index_of : Json → Calls → ℤ
index_of (int n) acc = n
index_of (bool true) acc = pos 1
index_of (bool false) acc = pos 0
index_of v acc = pos (length acc)

abbrev pub same_int : ℤ → ℤ → Bool
same_int (pos m) (pos n) = eqb m n
same_int (negsuc m) (negsuc n) = eqb m n
same_int m n = false

abbrev blank : Call
blank = record { name = str ""; arguments = "" }

-- `acc.setdefault(index, blank)`, and a change of the item.
unfoldable pub changed : ℤ → (Call → Call) → Calls → Calls
changed k f [] = (k, f blank) ∷ []
changed k f ((j, c) ∷ acc) = if same_int j k then (j, f c) ∷ acc else (j, c) ∷ changed k f acc

module _ (dumps : Json → String) where
  abbrev with_arguments : Json → Call → Call
  with_arguments (str s) c = record c { arguments = str_append c.arguments s }
  with_arguments (obj fs) c = record c { arguments = dumps (obj fs) }
  with_arguments v c = c

  abbrev with_name : Json → Call → Call
  unfolding truthy
  with_name name c = if truthy name then record c { name = name } else c

  unfoldable pub merge_tool_call : Calls → Json → Calls
  unfolding changed with_name
  merge_tool_call acc (obj fs) =
      let fn = lookup (obj fs) "function" in
      changed (index_of (lookup (obj fs) "index") acc)
        (λ c. with_arguments (lookup fn "arguments") (with_name (lookup fn "name") c)) acc
  merge_tool_call acc v = acc

  unfoldable pub merge_all : Calls → List Json → Calls
  unfolding merge_tool_call
  merge_all acc [] = acc
  merge_all acc (call ∷ calls) = merge_all (merge_tool_call acc call) calls

abbrev int_before : ℤ → ℤ → Bool
int_before (pos m) (pos n) = ltb m n
int_before (negsuc m) (negsuc n) = ltb n m
int_before (negsuc m) (pos n) = true
int_before (pos m) (negsuc n) = false

inserted : ℤ × Call → Calls → Calls
inserted p [] = p ∷ []
inserted p (q ∷ acc) = if int_before q.0 p.0 then q ∷ inserted p acc else p ∷ q ∷ acc

-- `sorted(acc)`
unfoldable pub sorted_calls : Calls → Calls
unfolding inserted
sorted_calls [] = []
sorted_calls (p ∷ acc) = inserted p (sorted_calls acc)

module _ (loads : String → Option Json) where
  unfoldable pub named_calls : Calls → List Json
  unfolding truthy
  named_calls [] = []
  named_calls ((k, c) ∷ acc) =
      let rest = named_calls acc in
      if truthy c.name then ollama_call loads c.name (str c.arguments) ∷ rest else rest

  -- `_accumulated_tool_calls`
  unfoldable pub accumulated_tool_calls : Calls → List Json
  unfolding named_calls sorted_calls
  accumulated_tool_calls acc = named_calls (sorted_calls acc)
