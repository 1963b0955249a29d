-- ===== src/Reconcile/Placed.antt =====
-- Where the lines of a stream go (app/tool_reconcile.py, `StreamReconciler._route`).
use mathlib.Core.List.{append_assoc, append-nil}
use llamaswap.Base.{
  ℕ, String, Bool, true, false, not, Option, none, some, List, [], ◌∷◌, ◌++◌, keep, map, ◌≡◌, refl,
  sym, ap, ◌∙◌, Option-cases, Bool-cases, inl, inr,
}
use llamaswap.Json.{Json, obj, Fields, lookup}
use llamaswap.Tokens.Meter.{iterated}
use llamaswap.Reconcile.Stream.{
  State, Kind, plain, mark, event, ended, joined, kind_of, holds, place, route_event, route,
  route_lines, read_choices,
}

module _ (loads_line : List ℕ → Option Json) (loads : String → Option Json)
    (dumps : Json → String) where
  abbrev pub holds_in : Fields → Option (List Json) → Bool
  holds_in fs none = false
  holds_in fs (some choices) = elim (holds loads_line loads dumps fs choices) [
    | none ↦ false
    | some held ↦ held
  ]

  -- Is a line held back: the end mark, the last event of a choice, and an event with refused calls.
  abbrev pub is_held : List ℕ → Bool
  is_held line = elim (kind_of loads_line loads dumps line) [
    | plain ↦ false
    | mark ↦ true
    | event fs ↦ holds_in fs (iterated (lookup (obj fs) "choices"))
  ]

  abbrev pub held : List (List ℕ) → List (List ℕ)
  held lines = map ended (keep is_held lines)

  abbrev pub passed : List (List ℕ) → List ℕ
  passed lines = joined (map ended (keep (λ line. not (is_held line)) lines))

  -- What a step does with its lines.
  abbrev pub Placed : List (List ℕ) → State → Option (State × List ℕ) → Type 0
  Placed lines s none = Unit
  Placed lines s (some (s', out)) = (s'.tail ≡ s.tail ++ held lines) × (out ≡ passed lines)

  place-Placed :
      (line : List ℕ) (s s0 : State) (b : Bool)
      → s.tail ≡ s0.tail
      → is_held line ≡ b
      → Placed (line ∷ []) s0 (some (place loads_line loads dumps line s b))
  place-Placed line s s0 true e h = rw h (ap (λ t. t ++ (ended line ∷ [])) e, refl)
  place-Placed line s s0 false e h =
      rw h (e ∙ sym (append-nil s0.tail), sym (append-nil (ended line)))

  event-Placed :
      (line : List ℕ) (fs : Fields) (s : State)
      → kind_of loads_line loads dumps line ≡ event fs
      → Placed (line ∷ []) s (route_event loads_line loads dumps line fs s)
  unfolding route_event
  event-Placed line fs s k = elim (Option-cases (iterated (lookup (obj fs) "choices"))) [
    | inl raises ↦ rw (raises, route_event) tt
    | inr (choices, listed) ↦ elim (Option-cases (read_choices choices (s.text, s.next_index))) [
      | inl raises ↦ rw (listed, route_event, raises) tt
      | inr ((text, n), counted) ↦ elim (Option-cases (holds loads_line loads dumps fs choices)) [
        | inl raises ↦ rw (listed, route_event, counted, raises) tt
        | inr (b, judged) ↦
            rw (listed, route_event, counted, judged)
              (place-Placed line (record s { text = text; template = some fs; next_index = n }) s b
                refl (rw (k, is_held, listed, holds_in, judged) refl))
      ]
    ]
  ]

  pub route-Placed :
      (line : List ℕ) (s : State) (k : Kind)
      → kind_of loads_line loads dumps line ≡ k
      → Placed (line ∷ []) s (route loads_line loads dumps line s)
  unfolding route
  route-Placed line s plain k =
      rw (k, route) (place-Placed line s s false refl (rw (k, is_held) refl))
  route-Placed line s mark k =
      rw (k, route) (place-Placed line s s true refl (rw (k, is_held) refl))
  route-Placed line s (event fs) k = rw (k, route) (event-Placed line fs s k)

  pub held-append : (ls ms : List (List ℕ)) → held (ls ++ ms) ≡ held ls ++ held ms
  held-append [] ms = refl
  held-append (l ∷ ls) ms = elim (Bool-cases (is_held l)) [
    | inl is ↦ rw is (ap (λ t. ended l ∷ t) (held-append ls ms))
    | inr isnt ↦ rw isnt (held-append ls ms)
  ]

  pub passed-append : (ls ms : List (List ℕ)) → passed (ls ++ ms) ≡ passed ls ++ passed ms
  passed-append [] ms = refl
  passed-append (l ∷ ls) ms = elim (Bool-cases (is_held l)) [
    | inl is ↦ rw is (passed-append ls ms)
    | inr isnt ↦ rw isnt (
        ap (λ t. ended l ++ t) (passed-append ls ms)
        ∙ sym (append_assoc (ended l) (passed ls) (passed ms)))
  ]

  Placed-cons :
      (line : List ℕ) (lines : List (List ℕ)) (s s' s'' : State) (out out' : List ℕ)
      → Placed (line ∷ []) s (some (s', out))
      → Placed lines s' (some (s'', out'))
      → Placed (line ∷ lines) s (some (s'', out ++ out'))
  Placed-cons line lines s s' s'' out out' (t, o) (ts, os) = (
    ts
        ∙ ap (λ x. x ++ held lines) t
        ∙ append_assoc s.tail (held (line ∷ [])) (held lines)
        ∙ ap (λ x. s.tail ++ x) (sym (held-append (line ∷ []) lines)),
    ap (λ x. x ++ out') o
        ∙ ap (λ x. passed (line ∷ []) ++ x) os
        ∙ sym (passed-append (line ∷ []) lines),
  )

  pub route_lines-Placed :
      (lines : List (List ℕ)) (s : State)
      → Placed lines s (route_lines loads_line loads dumps lines s)
  unfolding route_lines
  route_lines-Placed [] s = (sym (append-nil s.tail), refl)
  route_lines-Placed (line ∷ lines) s = elim (Option-cases (route loads_line loads dumps line s)) [
    | inl raises ↦ rw (raises, route_lines) tt
    | inr ((s', out), goes_on) ↦
        let first = rw goes_on at (route-Placed line s _ refl) in
        elim (Option-cases (route_lines loads_line loads dumps lines s')) [
          | inl raises ↦ rw (goes_on, route_lines, raises) tt
          | inr ((s'', out'), ends) ↦
              rw (goes_on, route_lines, ends)
                (Placed-cons line lines s s' s'' out out' first
                  (rw ends at (route_lines-Placed lines s')))
        ]
  ]
