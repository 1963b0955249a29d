-- ===== src/Ollama/InOrder.antt =====
-- Every line of an Ollama stream stands where it may (app/ollama.py, `stream_response`).
use llamaswap.Base.{
  ℕ, String, Bool, false, Option, none, some, List, [], ◌∷◌, ◌++◌, ◌≡◌, inl, inr, refl, Bool-cases,
  Option-cases,
}
use llamaswap.Json.{Json, obj, Fields, lookup, is_null}
use llamaswap.Tokens.Meter.{iterated, left_strip, is_nil, same_bytes, end_mark}
use llamaswap.Ollama.Values.{or_json, fields_or_empty}
use llamaswap.Ollama.Answers.{Reading, Label, first_choice}
use llamaswap.Ollama.Stream.{
  State, Flow, goes_on, returned, raised, Yield, then_do, split_events, with_newlines, lines_of,
  data_lines, take_mark, choice_lines, take_choice, if_fields, counted, take_first, take_object,
  take_loaded, take_data, take_all, take_events, check_end, take_chunk, returning, take_chunks,
  start, stream_response,
}
use llamaswap.Ollama.Grammar.{
  no_choice, no_calls, IsSent, IsRead, so_far, breaks, ends, fails, Runs, then_do-Runs,
}
use llamaswap.Ollama.Laws.{
  take_mark-Runs, take_mark-ends, content_line-IsPayload, thinking_line-IsPayload, if_truthy-Run,
}

-- The generator goes on no more.
abbrev pub IsOver : Flow → Type 0
IsOver (goes_on s) = ⊥
IsOver e = Unit

then_do-IsOver :
    (y : Yield) (f : State → Yield) → ((s : State) → IsOver (f s).1) → IsOver (then_do y f).1
unfolding then_do
then_do-IsOver (ls, goes_on s) f over = over s
then_do-IsOver (ls, returned) f over = tt
then_do-IsOver (ls, raised) f over = tt

module _ (loads : List ℕ → Option Json) (p : Reading) (l : Label) (generate : Bool)
    (load_ns total : ℕ) where
  abbrev Keeps : (State → Yield) → Type 0
  Keeps f = (s : State) → IsRead loads p l s → Runs loads p l s.finished (f s)

  take_choice-Keeps :
      (fs : Fields) (d : List ℕ) (choice : Json)
      → loads d ≡ some (obj fs)
      → first_choice (lookup (obj fs) "choices") ≡ some choice
      → Keeps (take_choice loads p l generate load_ns total choice)
  unfolding take_choice choice_lines
  take_choice-Keeps fs d choice h first s r =
      elim (Option-cases (
        iterated (
          or_json (lookup (obj (fields_or_empty (lookup choice "delta"))) "tool_calls")
            (lookup choice "tool_calls")))) [
              | inl no_list ↦
                  rw (no_list, take_choice) (breaks (d, fs, h, no_calls choice no_list first))
              | inr (calls, list) ↦
                  rw (list, take_choice)
                    (if_truthy-Run loads p l generate load_ns total _ _
                      (content_line-IsPayload loads p l generate load_ns total generate)
                      (if_truthy-Run loads p l generate load_ns total _ _
                        (thinking_line-IsPayload loads p l generate load_ns total generate)
                        (so_far _ r refl)))
            ]

  if_fields-IsSent :
      (k : String) (d : List ℕ) (fs u : Fields) (v : Json)
      → loads d ≡ some (obj fs)
      → lookup (obj fs) k ≡ v
      → IsSent loads p l k u
      → IsSent loads p l k (if_fields loads p l generate load_ns total v u)
  if_fields-IsSent k d fs u (obj new) h at old = inr (d, fs, h, at)
  if_fields-IsSent k d fs u v h at old = old

  counted-IsRead :
      (d : List ℕ) (fs : Fields) (s : State)
      → loads d ≡ some (obj fs)
      → IsRead loads p l s
      → IsRead loads p l (counted loads p l generate load_ns total fs s)
  counted-IsRead d fs s h (u, t) = (
    if_fields-IsSent "usage" d fs s.usage _ h refl u,
    if_fields-IsSent "timings" d fs s.timings _ h refl t,
  )

  take_first-Keeps :
      (fs : Fields) (d : List ℕ) (o : Option Json)
      → loads d ≡ some (obj fs)
      → first_choice (lookup (obj fs) "choices") ≡ o
      → Keeps (take_first loads p l generate load_ns total o)
  unfolding take_first
  take_first-Keeps fs d none h first s r = breaks (d, fs, h, no_choice first)
  take_first-Keeps fs d (some (obj choice)) h first s r =
      take_choice-Keeps fs d (obj choice) h first s r
  take_first-Keeps fs d (some v) h first s r = so_far s r refl

  take_object-Keeps :
      (fs : Fields) (d : List ℕ)
      → loads d ≡ some (obj fs)
      → Keeps (take_object loads p l generate load_ns total fs)
  unfolding take_object
  take_object-Keeps fs d h s r = elim (Bool-cases (is_null (lookup (obj fs) "error"))) [
    | inl fine ↦
        rw (fine, take_object)
          (take_first-Keeps fs d _ h refl (counted loads p l generate load_ns total fs s)
            (counted-IsRead d fs s h r))
    | inr error ↦ rw (error, take_object) (fails (lookup (obj fs) "error"))
  ]

  take_loaded-Keeps :
      (d : List ℕ) (o : Option Json)
      → loads d ≡ o
      → Keeps (take_loaded loads p l generate load_ns total o)
  unfolding take_loaded
  take_loaded-Keeps d (some (obj fs)) h s r = take_object-Keeps fs d h s r
  take_loaded-Keeps d o h s r = so_far s r refl

  take_data-Keeps : (d : List ℕ) → Keeps (take_data loads p l generate load_ns total d)
  unfolding take_data
  take_data-Keeps d s r = elim (Bool-cases (is_nil d)) [
    | inl blank ↦ simp blank (so_far s r refl)
    | inr some_bytes ↦ elim (Bool-cases (same_bytes d end_mark)) [
      | inl mark ↦ rw (some_bytes, mark) (take_mark-Runs loads p l generate load_ns total s r)
      | inr other ↦ rw (some_bytes, other) (take_loaded-Keeps d (loads d) refl s r)
    ]
  ]

  take_all-Keeps : (ds : List (List ℕ)) → Keeps (take_all loads p l generate load_ns total ds)
  unfolding take_all
  take_all-Keeps [] s r = so_far s r refl
  take_all-Keeps (d ∷ ds) s r =
      then_do-Runs loads p l _ _ (take_data-Keeps d s r) (take_all-Keeps ds)

  take_events-Keeps : (es : List (List ℕ)) → Keeps (take_events loads p l generate load_ns total es)
  unfolding take_events
  take_events-Keeps [] s r = so_far s r refl
  take_events-Keeps (e ∷ es) s r =
      then_do-Runs loads p l _ _ (take_all-Keeps (data_lines (lines_of e)) s r)
        (take_events-Keeps es)

  check_end-Keeps : Keeps (check_end loads p l generate load_ns total)
  unfolding check_end
  check_end-Keeps s r = elim (Bool-cases s.finished) [
    | inr early ↦ simp early (so_far s r early)
    | inl done ↦ elim (Bool-cases (is_nil (left_strip s.buffer))) [
      | inl blank ↦ simp (done, blank) ends
      | inr more ↦ simp (done, more) (so_far s r done)
    ]
  ]

  take_chunk-Keeps : (chunk : List ℕ) → Keeps (take_chunk loads p l generate load_ns total chunk)
  unfolding take_chunk
  take_chunk-Keeps chunk s r =
      let (events, rest) = split_events (with_newlines (s.buffer ++ chunk)) in
      then_do-Runs loads p l _ _ (take_events-Keeps events (record s { buffer = rest }) r)
        check_end-Keeps

  take_chunks-Keeps :
      (chunks : List (List ℕ)) → Keeps (take_chunks loads p l generate load_ns total chunks)
  unfolding take_chunks
  take_chunks-Keeps [] s r = take_mark-ends loads p l generate load_ns total s r
  take_chunks-Keeps (c ∷ cs) s r =
      then_do-Runs loads p l _ _ (take_chunk-Keeps c s r) (take_chunks-Keeps cs)

  returning-IsOver : (y : Yield) → IsOver (returning loads p l generate load_ns total y).1
  returning-IsOver (ls, goes_on s) = tt
  returning-IsOver (ls, returned) = tt
  returning-IsOver (ls, raised) = tt

  take_chunks-IsOver :
      (chunks : List (List ℕ)) (s : State)
      → IsOver (take_chunks loads p l generate load_ns total chunks s).1
  unfolding take_chunks
  take_chunks-IsOver [] s = returning-IsOver (take_mark loads p l generate load_ns total s)
  take_chunks-IsOver (c ∷ cs) s =
      then_do-IsOver (take_chunk loads p l generate load_ns total c s) _ (take_chunks-IsOver cs)

  -- Whatever chunks the upstream's bytes come in, the stream comes to an end and its lines are in
  -- order: parts of the answer come in any number, the last line at most once, and an error ends the
  -- stream; a stream that returns has sent the last line or an error. Parts and the last line name the
  -- model that was asked. The stream breaks off by an exception only if the upstream may send an
  -- object whose choices cannot be indexed, whose tool calls cannot be iterated, or whose counts or
  -- times cannot be read as numbers.
  pub stream_response-InOrder :
      (chunks : List (List ℕ))
      → Runs loads p l false (stream_response loads p l generate load_ns total chunks)
        × IsOver (stream_response loads p l generate load_ns total chunks).1
  unfolding stream_response
  stream_response-InOrder chunks = (
    take_chunks-Keeps chunks (start loads p l generate load_ns total) (inl refl, inl refl),
    take_chunks-IsOver chunks _,
  )
