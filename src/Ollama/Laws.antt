-- ===== src/Ollama/Laws.antt =====
-- The lines of an Ollama stream come in order (app/ollama.py, `stream_response`).
use llamaswap.Base.{
  ℕ, String, Bool, true, false, Option, none, some, List, ◌≡◌, ◌⊎◌, inl, inr, refl, sym, subst,
  Bool-cases, Option-cases,
}
use llamaswap.Json.{ℤ, pos, Json, obj, Fields, lookup, get_field, put_field, truthy}
use llamaswap.Ollama.Values.{◌>>=◌, update, text_of, int_of, ns_of}
use llamaswap.Ollama.Answers.{Reading, Label, metric_fields, zero_or}
use llamaswap.Ollama.Stream.{
  State, Flow, final_metrics, last_payload, last_line, take_mark, content_line, thinking_line,
  if_truthy, returning,
}
use llamaswap.Ollama.Grammar.{
  no_count, no_time, Bad, IsSent, IsRead, IsPayload, Run, so_far, breaks, ends, part, last, Runs,
}

>>=-none {ℓ κ} :
    {A : Type ℓ} {B : Type κ}
    → (m : Option A) (f : A → Option B) → (m >>= f) ≡ none
    → (m ≡ none) ⊎ ((a : A) × (f a ≡ none))
>>=-none none f h = inl refl
>>=-none (some a) f h = inr (a, h)

>>=-some {ℓ κ} :
    {A : Type ℓ} {B : Type κ} {P : Type 0}
    → (m : Option A) (f : A → Option B) (b : B) → (m >>= f) ≡ some b
    → ((a : A) → f a ≡ some b → P)
    → P
>>=-some none f b h next = cc
>>=-some (some a) f b h next = next a h

some-inj : (a b : Fields) → some a ≡ some b → a ≡ b
some-inj a b h = cc

-- The metrics of a last line.
abbrev IsMetrics : Fields → Type 0
IsMetrics ms =
    (total : ℤ) × (load : ℕ) × (a : ℤ) × (b : ℤ) × (c : ℤ) × (d : ℤ) × (ms
      ≡ metric_fields total load a b c d)

module _ (loads : List ℕ → Option Json) (p : Reading) (l : Label) (generate : Bool)
    (load_ns total : ℕ) where
  abbrev time_at : State → String → Option ℤ
  time_at s k = ns_of p.parse_ms (zero_or (lookup (obj s.timings) k))

  abbrev count_at : State → String → Option ℤ
  count_at s k = int_of p.parse_int (zero_or (lookup (obj s.usage) k))

  bad_count :
      (u : Fields) (k : String)
      → IsSent loads p l "usage" u
      → int_of p.parse_int (zero_or (lookup (obj u) k)) ≡ none
      → Bad loads p l
  unfolding get_field int_of truthy
  bad_count u k (inl none_sent) h = cc (rw (none_sent, int_of, zero_or) at h)
  bad_count u k (inr (d, fs, e, stands)) h = (
    d,
    fs,
    e,
    no_count k (subst (λ j. int_of p.parse_int (zero_or (lookup j k)) ≡ none) (sym stands) h),
  )

  bad_time :
      (u : Fields) (k : String)
      → IsSent loads p l "timings" u
      → ns_of p.parse_ms (zero_or (lookup (obj u) k)) ≡ none
      → Bad loads p l
  unfolding get_field ns_of truthy
  bad_time u k (inl none_sent) h = cc (rw (none_sent, ns_of, zero_or) at h)
  bad_time u k (inr (d, fs, e, stands)) h = (
    d,
    fs,
    e,
    no_time k (subst (λ j. ns_of p.parse_ms (zero_or (lookup j k)) ≡ none) (sym stands) h),
  )

  final_metrics-none :
      (s : State)
      → IsRead loads p l s
      → final_metrics loads p l generate load_ns total s ≡ none
      → Bad loads p l
  unfolding final_metrics
  final_metrics-none s (u, t) h = elim (>>=-none (time_at s "prompt_ms") _ h) [
    | inl one ↦ bad_time s.timings "prompt_ms" t one
    | inr (a, more) ↦ elim (>>=-none (time_at s "predicted_ms") _ more) [
      | inl two ↦ bad_time s.timings "predicted_ms" t two
      | inr (b, more) ↦ elim (>>=-none (count_at s "completion_tokens") _ more) [
        | inl three ↦ bad_count s.usage "completion_tokens" u three
        | inr (c, more) ↦ elim (>>=-none (count_at s "prompt_tokens") _ more) [
          | inl four ↦ bad_count s.usage "prompt_tokens" u four
          | inr (d, more) ↦ cc
        ]
      ]
    ]
  ]

  final_metrics-IsMetrics :
      (s : State) (ms : Fields)
      → final_metrics loads p l generate load_ns total s ≡ some ms
      → IsMetrics ms
  unfolding final_metrics
  final_metrics-IsMetrics s ms h = >>=-some (time_at s "prompt_ms") _ ms h (λ a h.
      >>=-some (time_at s "predicted_ms") _ ms h (λ b h.
        >>=-some (count_at s "completion_tokens") _ ms h (λ c h.
          >>=-some (count_at s "prompt_tokens") _ ms h (λ d h.
            (_, _, _, _, _, _, sym (some-inj (metric_fields (pos total) load_ns d a c _) ms h))))))

  last_line-IsPayload :
      (b : Bool) (s : State) (ms : Fields)
      → IsMetrics ms
      → IsPayload loads p l true (obj (update (last_payload loads p l b load_ns total s) ms))
  unfolding update get_field put_field last_payload
  last_line-IsPayload true s ms (a, b, c, d, e, f, is) = rw is (refl, refl)
  last_line-IsPayload false s ms (a, b, c, d, e, f, is) = rw is (refl, refl)

  pub take_mark-Runs :
      (s : State)
      → IsRead loads p l s
      → Runs loads p l s.finished (take_mark loads p l generate load_ns total s)
  unfolding take_mark last_line
  take_mark-Runs s r = elim (Bool-cases s.finished) [
    | inl done ↦ simp (done) (so_far s r done)
    | inr early ↦ elim (Option-cases (final_metrics loads p l generate load_ns total s)) [
      | inl unread ↦ simp (early, unread) (breaks (final_metrics-none s r unread))
      | inr (ms, known) ↦
          simp (early, known)
            (last (last_line-IsPayload generate s ms (final_metrics-IsMetrics s ms known))
              (so_far (record s { finished = true }) r refl))
    ]
  ]

  -- At the end of the upstream's stream the last line is sent, if it was not.
  pub take_mark-ends :
      (s : State)
      → IsRead loads p l s
      → Runs loads p l s.finished (
          returning loads p l generate load_ns total (take_mark loads p l generate load_ns total s))
  unfolding take_mark last_line
  take_mark-ends s r = elim (Bool-cases s.finished) [
    | inl done ↦ simp done ends
    | inr early ↦ elim (Option-cases (final_metrics loads p l generate load_ns total s)) [
      | inl unread ↦ simp (early, unread) (breaks (final_metrics-none s r unread))
      | inr (ms, known) ↦
          simp (early, known)
            (last (last_line-IsPayload generate s ms (final_metrics-IsMetrics s ms known)) ends)
    ]
  ]

  pub content_line-IsPayload :
      (b : Bool) (content : String)
      → IsPayload loads p l false (content_line loads p l b load_ns total content)
  unfolding content_line get_field
  content_line-IsPayload true content = (refl, refl)
  content_line-IsPayload false content = (refl, refl)

  pub thinking_line-IsPayload :
      (b : Bool) (thinking : String)
      → IsPayload loads p l false (thinking_line loads p l b load_ns total thinking)
  unfolding thinking_line get_field
  thinking_line-IsPayload true thinking = (refl, refl)
  thinking_line-IsPayload false thinking = (refl, refl)

  pub if_truthy-Run :
      {b : Bool} {ls : List Json} {e : Flow}
      → (v : Json) (line : String → Json) → ((t : String) → IsPayload loads p l false (line t))
      → Run loads p l b ls e
      → Run loads p l b (if_truthy loads p l generate load_ns total v line ls) e
  unfolding if_truthy
  if_truthy-Run v line good r = elim (Bool-cases (truthy v)) [
    | inl yes_text ↦ rw yes_text (part (good (text_of p.shown v)) r)
    | inr none_there ↦ rw none_there r
  ]
