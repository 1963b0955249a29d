-- ===== src/Reconcile/Tests.antt =====
-- Runs of the reconciliation (app/tool_reconcile.py) and the theorems at them.
use llamaswap.Base.{
  String, Option, none, some, List, [], ◌∷◌, if◌then◌else◌, ◌==◌, string_key, ◌≡◌, ◌↔◌, refl,
  ends_with, starts_with,
}
use llamaswap.Json.{Json, str, obj, end, field, get_field}
use llamaswap.Reconcile.Match.{
  reconciled, ambiguous, unmatched, Ratio, norm, match_name, by_name, by_fit, by_ratio, is_similar,
}
use llamaswap.Reconcile.Blocks.{
  text_tool_calls, arguments, raw_arguments, dumped, after, skip_space, brace_group, name_run,
  function_body,
}
use llamaswap.Reconcile.Names.{Meant, match_name-Meant_iff}

-- Three quarters, the ratio of the settings.
abbrev pub three_quarters : Ratio
three_quarters = record { num = 3; den = 4 }

abbrev tools : List String
tools = "unity_unity_list" ∷ "Read_File" ∷ "write_file" ∷ []

match_exact : match_name three_quarters "read-file" tools ≡ (some "Read_File", reconciled)
unfolding match_name norm by_name by_fit by_ratio ends_with
match_exact = refl

match_prefix : match_name three_quarters "unity_list" tools ≡ (some "unity_unity_list", reconciled)
unfolding match_name by_fit ends_with norm by_name starts_with
match_prefix = refl

match_several : match_name three_quarters "file" tools ≡ (none, ambiguous)
unfolding match_name by_fit norm by_name ends_with
match_several = refl

match_near : match_name three_quarters "write_fill" tools ≡ (some "write_file", reconciled)
unfolding match_name is_similar by_ratio by_fit norm by_name ends_with
match_near = refl

match_nothing : match_name three_quarters "sing" tools ≡ (none, unmatched)
unfolding match_name is_similar by_ratio by_fit norm by_name ends_with
match_nothing = refl

-- A tool whose name has no letter or digit fits every name.
match_symbols : match_name three_quarters "sing" ("__" ∷ []) ≡ (some "__", reconciled)
unfolding match_name is_similar by_ratio by_fit norm by_name ends_with
match_symbols = refl

match_name-Meant_example :
    (match_name three_quarters "unity_list" tools ≡ (some "unity_unity_list", reconciled))
    ↔ Meant three_quarters "unity_list" tools "unity_unity_list"
match_name-Meant_example = match_name-Meant_iff three_quarters "unity_list" tools "unity_unity_list"

-- The only texts and bytes that parse here.
abbrev pub loads : String → Option Json
loads s = if s == "{}" then some (obj end) else none

abbrev pub dumps : Json → String
dumps j = "{}"

-- Each form of text block is found, and white space is passed over.
blocks_found :
    text_tool_calls loads dumps "see <function = go > {} </function> and <function=do></function>"
    ≡ field "name" (str "go") (field "arguments" (str "{}") end)
      ∷ field "name" (str "do") (field "arguments" (str "{}") end)
      ∷ []
unfolding text_tool_calls dumped function_body name_run after skip_space brace_group get_field
    arguments raw_arguments
blocks_found = refl
