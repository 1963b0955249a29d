-- ===== src/Reconcile/Said.antt =====
-- What the events of a stream say together (app/tool_reconcile.py, `StreamReconciler._route`): their
-- text, the first index behind the calls in them, and the last of them.
use Prim.Native.String.{◌++◌ as str_append}
use mathlib.Core.List.{append_assoc}
use llamaswap.Base.{
  ℕ, ◌+◌, max, String, Bool, true, false, Option, none, some, List, [], ◌∷◌, ◌++◌, ◌≡◌, refl, sym,
  ap, ◌∙◌, Option-cases, inl, inr,
}
use llamaswap.Json.{Json, null, bool, int, float, str, arr, obj, Fields, lookup}
use llamaswap.Tokens.Meter.{iterated}
use llamaswap.Reconcile.Stream.{
  State, Kind, plain, mark, event, kind_of, holds, place, route, route_event, route_lines,
  read_delta, read_choice, read_choices, after_calls, index_of, text_of,
}
use llamaswap.Reconcile.Indices.{
  indices_of, delta_indices, choice_indices, choices_indices, event_indices, line_indices, streamed,
}

-- The least number that is not below `n` and above every index.
abbrev pub above : List ℕ → ℕ → ℕ
above [] n = n
above (i ∷ is) n = above is (max n (i + 1))

above-append : (is js : List ℕ) (n : ℕ) → above (is ++ js) n ≡ above js (above is n)
above-append [] js n = refl
above-append (i ∷ is) js n = above-append is js (max n (i + 1))

-- The text with that of more deltas.
abbrev pub said_delta : Json → String → String
said_delta (obj delta) text = str_append text (text_of (lookup (obj delta) "content"))
said_delta v text = text

abbrev pub said_choices : List Json → String → String
said_choices [] text = text
said_choices (choice ∷ choices) text =
    said_choices choices (said_delta (lookup choice "delta") text)

abbrev pub said_event : Option (List Json) → String → String
said_event none text = text
said_event (some choices) text = said_choices choices text

after_calls-above : (calls : List Json) (n : ℕ) → after_calls calls n ≡ above (indices_of calls) n
unfolding after_calls
after_calls-above [] n = refl
after_calls-above (obj call ∷ calls) n =
    after_calls-above calls (max n (index_of (lookup (obj call) "index") + 1))
after_calls-above (null ∷ calls) n = after_calls-above calls n
after_calls-above (bool b ∷ calls) n = after_calls-above calls n
after_calls-above (int i ∷ calls) n = after_calls-above calls n
after_calls-above (float x ∷ calls) n = after_calls-above calls n
after_calls-above (str s ∷ calls) n = after_calls-above calls n
after_calls-above (arr xs ∷ calls) n = after_calls-above calls n

-- What a reading leaves, if it does not raise.
abbrev pub ReadAs : String → ℕ → Option (String × ℕ) → Type 0
ReadAs text n none = Unit
ReadAs text n (some (t, m)) = (t ≡ text) × (m ≡ n)

read_delta-ReadAs :
    (delta : Json) (text : String) (n : ℕ)
    → ReadAs (said_delta delta text) (above (delta_indices delta) n) (read_delta delta (text, n))
unfolding read_delta
read_delta-ReadAs (obj delta) text n =
    elim (Option-cases (iterated (lookup (obj delta) "tool_calls"))) [
      | inl raises ↦ rw (raises, read_delta) tt
      | inr (calls, listed) ↦ rw (listed, read_delta) (refl, after_calls-above calls n)
    ]
read_delta-ReadAs null text n = (refl, refl)
read_delta-ReadAs (bool b) text n = (refl, refl)
read_delta-ReadAs (int i) text n = (refl, refl)
read_delta-ReadAs (float x) text n = (refl, refl)
read_delta-ReadAs (str s) text n = (refl, refl)
read_delta-ReadAs (arr xs) text n = (refl, refl)

ReadAs-cong :
    (t t' : String) (n n' : ℕ) (o : Option (String × ℕ))
    → t ≡ t'
    → n ≡ n'
    → ReadAs t n o
    → ReadAs t' n' o
ReadAs-cong t t' n n' none e f r = tt
ReadAs-cong t t' n n' (some p) e f r = (r.0 ∙ e, r.1 ∙ f)

pub read_choices-ReadAs :
    (choices : List Json) (text : String) (n : ℕ)
    → ReadAs
        (said_choices choices text)
        (above (choices_indices choices) n)
        (read_choices choices (text, n))
unfolding read_choices read_choice
read_choices-ReadAs [] text n = (refl, refl)
read_choices-ReadAs (choice ∷ choices) text n =
    elim (Option-cases (read_delta (lookup choice "delta") (text, n))) [
      | inl raises ↦ rw (raises, read_choices) tt
      | inr ((said, m), goes_on) ↦
          let (t, i) = rw goes_on at (read_delta-ReadAs (lookup choice "delta") text n) in
          rw (goes_on, read_choices)
            (ReadAs-cong _ _ _ _ (read_choices choices (said, m)) (ap (said_choices choices) t)
              (ap (above (choices_indices choices)) i
                ∙ sym (above-append (choice_indices choice) (choices_indices choices) n))
              (read_choices-ReadAs choices said m))
    ]

module _ (loads_line : List ℕ → Option Json) (loads : String → Option Json)
    (dumps : Json → String) where
  abbrev pub said_line : Kind → String → String
  said_line plain text = text
  said_line mark text = text
  said_line (event fs) text = said_event (iterated (lookup (obj fs) "choices")) text

  -- All the text that the lines of a stream carry, behind `text`.
  abbrev pub said : List (List ℕ) → String → String
  said [] text = text
  said (line ∷ lines) text = said lines (said_line (kind_of loads_line loads dumps line) text)

  abbrev pub event_or : Kind → Option Fields → Option Fields
  event_or (event fs) o = some fs
  event_or k o = o

  -- The last event of a stream.
  abbrev pub last_event : List (List ℕ) → Option Fields → Option Fields
  last_event [] o = o
  last_event (line ∷ lines) o = last_event lines (event_or (kind_of loads_line loads dumps line) o)

  pub said-append :
      (ls ms : List (List ℕ)) (text : String) → said (ls ++ ms) text ≡ said ms (said ls text)
  said-append [] ms text = refl
  said-append (l ∷ ls) ms text =
      said-append ls ms (said_line (kind_of loads_line loads dumps l) text)

  pub last_event-append :
      (ls ms : List (List ℕ)) (o : Option Fields)
      → last_event (ls ++ ms) o ≡ last_event ms (last_event ls o)
  last_event-append [] ms o = refl
  last_event-append (l ∷ ls) ms o =
      last_event-append ls ms (event_or (kind_of loads_line loads dumps l) o)

  -- The index behind the calls of the lines.
  abbrev pub index_behind : List (List ℕ) → ℕ → ℕ
  index_behind lines n = above (streamed loads_line loads dumps lines) n

  streamed-append :
      (ls ms : List (List ℕ))
      → streamed loads_line loads dumps (ls ++ ms)
        ≡ streamed loads_line loads dumps ls ++ streamed loads_line loads dumps ms
  streamed-append [] ms = refl
  streamed-append (l ∷ ls) ms =
      let first = line_indices loads_line loads dumps (kind_of loads_line loads dumps l) in
      let all = streamed loads_line loads dumps in
      ap (λ is. first ++ is) (streamed-append ls ms) ∙ sym (append_assoc first (all ls) (all ms))

  pub index_behind-append :
      (ls ms : List (List ℕ)) (n : ℕ)
      → index_behind (ls ++ ms) n ≡ index_behind ms (index_behind ls n)
  index_behind-append ls ms n =
      ap (λ is. above is n) (streamed-append ls ms)
      ∙ above-append (streamed loads_line loads dumps ls) (streamed loads_line loads dumps ms) n

  -- The state behind the lines knows what they say.
  abbrev pub Followed : List (List ℕ) → State → Option (State × List ℕ) → Type 0
  Followed lines s none = Unit
  Followed lines s (some (s', out)) =
      (s'.text ≡ said lines s.text)
      × (s'.next_index ≡ index_behind lines s.next_index)
      × (s'.template ≡ last_event lines s.template)

  place-Followed :
      (line : List ℕ) (s s0 : State) (b : Bool) (k : Kind)
      → kind_of loads_line loads dumps line ≡ k
      → s.text ≡ said_line k s0.text
      → s.next_index ≡ above (line_indices loads_line loads dumps k) s0.next_index
      → s.template ≡ event_or k s0.template
      → Followed (line ∷ []) s0 (some (place loads_line loads dumps line s b))
  place-Followed line s s0 true k e t i m =
      rw e (t, i ∙ sym (above-append (line_indices loads_line loads dumps k) [] s0.next_index), m)
  place-Followed line s s0 false k e t i m =
      rw e (t, i ∙ sym (above-append (line_indices loads_line loads dumps k) [] s0.next_index), m)

  event-Followed :
      (line : List ℕ) (fs : Fields) (s : State)
      → kind_of loads_line loads dumps line ≡ event fs
      → Followed (line ∷ []) s (route_event loads_line loads dumps line fs s)
  unfolding route_event
  event-Followed line fs s k = elim (Option-cases (iterated (lookup (obj fs) "choices"))) [
    | inl raises ↦ rw (raises, route_event) tt
    | inr (choices, listed) ↦ elim (Option-cases (read_choices choices (s.text, s.next_index))) [
      | inl raises ↦ rw (listed, route_event, raises) tt
      | inr ((text, n), counted) ↦ elim (Option-cases (holds loads_line loads dumps fs choices)) [
        | inl raises ↦ rw (listed, route_event, counted, raises) tt
        | inr (b, judged) ↦
            let (t, i) = rw counted at (read_choices-ReadAs choices s.text s.next_index) in
            simp (listed, route_event, counted, judged)
              (place-Followed line (record s { text = text; template = some fs; next_index = n }) s
                b (event fs) k (t ∙ ap (λ o. said_event o s.text) (sym listed))
                (i ∙ ap (λ o. above (event_indices o) s.next_index) (sym listed)) refl)
      ]
    ]
  ]

  pub route-Followed :
      (line : List ℕ) (s : State) (k : Kind)
      → kind_of loads_line loads dumps line ≡ k
      → Followed (line ∷ []) s (route loads_line loads dumps line s)
  unfolding route
  route-Followed line s plain k =
      rw (k, route) (place-Followed line s s false plain k refl refl refl)
  route-Followed line s mark k = rw (k, route) (place-Followed line s s true mark k refl refl refl)
  route-Followed line s (event fs) k = rw (k, route) (event-Followed line fs s k)

  Followed-append :
      (ls ms : List (List ℕ)) (s s' s'' : State) (out out' : List ℕ)
      → Followed ls s (some (s', out))
      → Followed ms s' (some (s'', out'))
      → Followed (ls ++ ms) s (some (s'', out ++ out'))
  Followed-append ls ms s s' s'' out out' (t, i, m) (t', i', m') = (
    t' ∙ ap (said ms) t ∙ sym (said-append ls ms s.text),
    i' ∙ ap (index_behind ms) i ∙ sym (index_behind-append ls ms s.next_index),
    m' ∙ ap (last_event ms) m ∙ sym (last_event-append ls ms s.template),
  )

  pub route_lines-Followed :
      (lines : List (List ℕ)) (s : State)
      → Followed lines s (route_lines loads_line loads dumps lines s)
  unfolding route_lines
  route_lines-Followed [] s = (refl, refl, refl)
  route_lines-Followed (line ∷ lines) s =
      elim (Option-cases (route loads_line loads dumps line s)) [
        | inl raises ↦ rw (raises, route_lines) tt
        | inr ((s', out), goes_on) ↦
            let first = rw goes_on at (route-Followed line s _ refl) in
            elim (Option-cases (route_lines loads_line loads dumps lines s')) [
              | inl raises ↦ rw (goes_on, route_lines, raises) tt
              | inr ((s'', out'), ends) ↦
                  rw (goes_on, route_lines, ends)
                    (Followed-append (line ∷ []) lines s s' s'' out out' first
                      (rw ends at (route_lines-Followed lines s')))
            ]
      ]
