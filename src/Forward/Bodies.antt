-- ===== src/Forward/Bodies.antt =====
-- Reading and changing the fields of a JSON request body (app/proxy.py, `extract_stream_flag` to
-- `json_remove_key`, without the multipart forms). `loads` is `json.loads`, `dumps` is
-- `json.dumps(...).encode()`, `shown` is `str` of a JSON value, and `multipart` what the form parser
-- finds, where the content type is that of a form.
use llamaswap.Base.{
  ℕ, String, ◌&&◌, Bool, true, false, Option, none, some, List, if◌then◌else◌, ◌==◌, string_key,
  ◌≡◌, refl, sym, Bool-cases, inl, inr, ap, ◌∙◌, arith, eq_iff, is_some, lower,
}
use llamaswap.Json.{
  Json, null, str, obj, end, field, Fields, get_field, put_field, get_field-put_field, lookup,
  truthy, is_null,
}
use llamaswap.Reconcile.Blocks.{skip_space, is_space as is_blank}

-- `obj.pop(key)`
unfoldable pub remove_field : Fields → String → Fields
remove_field end k = end
remove_field (field j v fs) k = if j == k then fs else field j v (remove_field fs k)

-- `s.strip()`
unfoldable pub strip_end : String → String
strip_end String.[] = String.[]
strip_end (String.◌∷◌ c s) =
    let rest = strip_end s in if rest == "" && is_blank c then String.[] else String.◌∷◌ c rest

unfoldable pub stripped : String → String
unfolding skip_space strip_end
stripped s = strip_end (skip_space s)

abbrev non_empty_or : Option String → String → String
non_empty_or none d = d
non_empty_or (some s) d = if s == "" then d else s

module _ (loads : List ℕ → Option Json) where
  unfoldable pub extract_stream_flag : List ℕ → Bool
  unfolding truthy
  extract_stream_flag body = elim (loads body) [
    | some (obj fs) ↦ truthy (lookup (obj fs) "stream")
    | _ ↦ false
  ]

  -- `extract_model`: null where it returns None.
  unfoldable pub extract_model : Option String → List ℕ → Json
  extract_model multipart body = elim (loads body) [
    | some (obj fs) ↦ lookup (obj fs) "model"
    | some _ ↦ null
    | none ↦ elim multipart [ none ↦ null | some name ↦ str name ]
  ]

module _ (loads : List ℕ → Option Json) (dumps : Json → List ℕ) where
  abbrev injected : List ℕ → String → Json → Option Json → List ℕ
  injected body key value (some (obj fs)) =
      if is_some (get_field fs key) then body else dumps (obj (put_field fs key value))
  injected body key value v = body

  unfoldable pub json_inject_field : List ℕ → String → Json → List ℕ
  json_inject_field body key value = injected body key value (loads body)

  abbrev removed : List ℕ → String → Option Json → List ℕ
  removed body key (some (obj fs)) =
      if is_some (get_field fs key) then dumps (obj (remove_field fs key)) else body
  removed body key v = body

  unfoldable pub json_remove_key : List ℕ → String → List ℕ
  json_remove_key body key = removed body key (loads body)

  -- What a body holds, once parsed: its fields, if it is a dictionary.
  abbrev pub fields_of : List ℕ → Option Fields
  fields_of body = elim (loads body) [ some (obj fs) ↦ some fs | _ ↦ none ]

module _ (loads : List ℕ → Option Json) (shown : Json → String) where
  -- `str(val)` of a value that is not None.
  abbrev as_text : Json → String
  as_text (str s) = s
  as_text v = shown v

  abbrev text_or : Option String → Json → Option String
  text_or o v = if is_null v then o else some (as_text v)

  unfoldable pub extract_text_field : Option String → List ℕ → String → Option String
  extract_text_field multipart body name = elim (loads body) [
    | some (obj fs) ↦ text_or multipart (lookup (obj fs) name)
    | _ ↦ multipart
  ]

  -- An empty text counts as none; the form's fields are given for both names.
  unfoldable pub extract_response_format : Option String → Option String → List ℕ → String
  unfolding extract_text_field stripped lower
  extract_response_format multipart multipart_alias body = lower (
      stripped (
        non_empty_or (extract_text_field multipart body "response_format")
          (non_empty_or (extract_text_field multipart_alias body "format") "json")))

  -- `isinstance(val, str) and val.strip()`
  abbrev speech_text : Json → Option String
  unfolding stripped lower
  speech_text (str s) = if stripped s == "" then none else some (lower (stripped s))
  speech_text v = none

  unfoldable pub extract_speech_format : List ℕ → Option String
  unfolding speech_text
  extract_speech_format body = elim (loads body) [
    | some (obj fs) ↦ speech_text (lookup (obj fs) "response_format")
    | _ ↦ none
  ]

remove-put :
    (fs : Fields) (k : String) (v : Json)
    → get_field fs k ≡ none
    → remove_field (put_field fs k v) k ≡ fs
unfolding remove_field put_field get_field
remove-put end k v h = ground (arith, eq_iff k k)
remove-put (field j w fs) k v h = elim (Bool-cases (j == k)) [
  | inl same ↦ cc (rw (same, get_field) at h)
  | inr other ↦
      rw (other, put_field)
        (rw (other, remove_field)
          (ap (λ r. field j w r) (remove-put fs k v (rw (other, get_field) at h))))
]

is_none : {o : Option Json} → o ≡ none → is_some o ≡ false
is_none h = rw h refl

is_some-eq : {o : Option Json} {v : Json} → o ≡ some v → is_some o ≡ true
is_some-eq h = rw h refl

-- Into a dictionary without the key, an injection writes the value under it and nothing else, and
-- a removal of the key takes it out again: the body then is that of the dictionary as it was. A
-- second injection changes nothing. What is asked of the parser is that it reads the one dictionary
-- back that the injection prints.
pub json_remove_key-inject :
    (loads : List ℕ → Option Json) (dumps : Json → List ℕ) (body : List ℕ) (key : String)
    (value other : Json) (fs : Fields)
    → loads body ≡ some (obj fs)
    → get_field fs key ≡ none
    → loads (dumps (obj (put_field fs key value))) ≡ some (obj (put_field fs key value))
    → (fields_of loads dumps (json_inject_field loads dumps body key value)
        ≡ some (put_field fs key value))
      × (json_remove_key loads dumps (json_inject_field loads dumps body key value) key
          ≡ dumps (obj fs))
      × (json_inject_field loads dumps (json_inject_field loads dumps body key value) key other
          ≡ json_inject_field loads dumps body key value)
unfolding json_inject_field json_remove_key
json_remove_key-inject loads dumps body key value other fs hl hn hr =
    let made : json_inject_field loads dumps body key value ≡ dumps (obj (put_field fs key value)) =
      ap (injected loads dumps body key value) hl ∙ rw (is_none hn, injected) refl in
    let there : get_field (put_field fs key value) key ≡ some value =
      get_field-put_field fs key key value ∙ rw ((eq_iff key key).1 refl) refl in
    (
      rw (made, hr, fields_of) refl,
      ap (λ b. json_remove_key loads dumps b key) made
          ∙ ap (removed loads dumps _ key) hr
          ∙ rw (is_some-eq there, removed) (ap (λ r. dumps (obj r)) (remove-put fs key value hn)),
      ap (λ b. json_inject_field loads dumps b key other) made
          ∙ ap (injected loads dumps _ key other) hr
          ∙ rw (is_some-eq there, injected) (sym made),
    )
