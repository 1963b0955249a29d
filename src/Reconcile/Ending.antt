-- ===== src/Reconcile/Ending.antt =====
-- How a reconciled stream ends (app/tool_reconcile.py, `StreamReconciler.finish` and
-- `_synthesized`).
use mathlib.Core.List.{append-nil}
use llamaswap.Base.{
  ℕ, String, Option, none, some, List, [], ◌∷◌, ◌++◌, ◌≡◌, refl, sym, subst, Option-cases, inl, inr,
}
use llamaswap.Json.{Json, Fields}
use llamaswap.Reconcile.Match.{Ratio}
use llamaswap.Reconcile.Blocks.{text_tool_calls}
use llamaswap.Reconcile.Rejected.{all_calls}
use llamaswap.Reconcile.Stream.{State, Stream, joined}
use llamaswap.Reconcile.Finish.{
  synthesized, with_rest, finish, ended_with, delta_bytes, delta_calls, tail_calls, template_of,
}
use llamaswap.Reconcile.Said.{said, last_event, index_behind, Followed, route-Followed}
use llamaswap.Reconcile.Announced.{
  or_empty, meant, numbered, IsAnnounced, delta_calls-numbered, delta_bytes-IsAnnounced,
}
use llamaswap.Reconcile.Placed.{Placed, held, passed, route-Placed}
use llamaswap.Reconcile.Lines.{open_line}

module _ (loads_line : List ℕ → Option Json) (dump_line : Json → List ℕ)
    (loads : String → Option Json) (dumps : Json → String) (call_id : ℕ → String)
    (event_id : String) (r : Ratio) (declared : List String) where
  -- How a stream ends that has held back `tail`, said `text` and has `index` behind its calls and
  -- `last` for its last event: behind the lines that pass comes the event with the new calls, and
  -- then the tail. The new calls are those that the tail reports as refused, with the arguments in
  -- the text, and else those in the text, as far as they mean a declared tool.
  abbrev pub EndsWith : List (List ℕ) → String → ℕ → Option Fields → List ℕ → List ℕ → Type 0
  EndsWith tail text index last before out =
      (refused : List Fields) × (event : List ℕ) × (tail_calls loads_line dump_line loads dumps
          call_id event_id r declared tail
        ≡ some refused)
      × IsAnnounced loads_line dump_line loads dumps call_id event_id r declared (or_empty last)
          (numbered loads_line dump_line loads dumps call_id event_id r declared index 0 (
            meant loads_line dump_line loads dumps call_id event_id r declared
              (all_calls loads dumps refused (text_tool_calls loads dumps text))))
          event
      × (out ≡ before ++ (event ++ joined tail))

  abbrev pub EndedAs :
      List (List ℕ) → String → ℕ → Option Fields → List ℕ → Option (Stream × List ℕ) → Type 0
  EndedAs tail text index last before none = Unit
  EndedAs tail text index last before (some (p, out)) = EndsWith tail text index last before out

  -- The end of a stream whose lines are still to come, unless it raises.
  abbrev pub Arranged : List (List ℕ) → State → Option (Stream × List ℕ) → Type 0
  Arranged lines s o =
      EndedAs (s.tail ++ held loads_line loads dumps lines)
        (said loads_line loads dumps lines s.text)
        (index_behind loads_line loads dumps lines s.next_index)
        (last_event loads_line loads dumps lines s.template) (passed loads_line loads dumps lines) o

  with_rest-Placed :
      (rest : List ℕ) (s : State)
      → Placed loads_line loads dumps
          (open_line rest)
          s
          (with_rest loads_line dump_line loads dumps call_id event_id r declared rest s)
  unfolding with_rest
  with_rest-Placed [] s = (sym (append-nil s.tail), refl)
  with_rest-Placed (c ∷ rest) s = route-Placed loads_line loads dumps (c ∷ rest) s _ refl

  with_rest-Followed :
      (rest : List ℕ) (s : State)
      → Followed loads_line loads dumps
          (open_line rest)
          s
          (with_rest loads_line dump_line loads dumps call_id event_id r declared rest s)
  unfolding with_rest
  with_rest-Followed [] s = (refl, refl, refl)
  with_rest-Followed (c ∷ rest) s = route-Followed loads_line loads dumps (c ∷ rest) s _ refl

  pub EndedAs-cong :
      (o : Option (Stream × List ℕ)) (tail tail' : List (List ℕ)) (text text' : String)
      (index index' : ℕ) (last last' : Option Fields) (before before' : List ℕ)
      → tail ≡ tail'
      → text ≡ text'
      → index ≡ index'
      → last ≡ last'
      → before ≡ before'
      → EndedAs tail text index last before o
      → EndedAs tail' text' index' last' before' o
  EndedAs-cong o tail tail' text text' index index' last last' before before' t x i l b e =
      subst (λ z. EndedAs z text' index' last' before' o) t
        (subst (λ z. EndedAs tail z index' last' before' o) x
          (subst (λ z. EndedAs tail text z last' before' o) i
            (subst (λ z. EndedAs tail text index z before' o) l
              (subst (λ z. EndedAs tail text index last z o) b e))))

  -- The event comes behind what was passed on, and the lines held back behind it.
  synthesized-EndedAs :
      (s : State) (out : List ℕ)
      → EndedAs s.tail s.text s.next_index s.template out (
          ended_with out
            (synthesized loads_line dump_line loads dumps call_id event_id r declared s))
  unfolding synthesized
  synthesized-EndedAs s out =
      elim (Option-cases
        (tail_calls loads_line dump_line loads dumps call_id event_id r declared s.tail)) [
          | inl raises ↦ rw (raises, synthesized) tt
          | inr (refused, reported) ↦
              let calls = all_calls loads dumps refused (text_tool_calls loads dumps s.text) in
              let announced =
                subst
                  (λ cs.
                    IsAnnounced loads_line dump_line loads dumps call_id event_id r declared
                      (or_empty s.template) cs
                      (delta_bytes loads_line dump_line loads dumps call_id event_id r declared
                        (template_of loads_line dump_line loads dumps call_id event_id r declared
                          s.template)
                        (delta_calls loads_line dump_line loads dumps call_id event_id r declared
                          s.next_index 0 calls).0))
                  (delta_calls-numbered loads_line dump_line loads dumps call_id event_id r declared
                    s.next_index 0 calls)
                  (delta_bytes-IsAnnounced loads_line dump_line loads dumps call_id event_id r
                    declared s.template _) in
              rw (reported, synthesized) (refused, _, reported, announced, refl)
        ]

  pub finish-Arranged :
      (p : Stream)
      → Arranged
          (open_line p.residual)
          p.state
          (finish loads_line dump_line loads dumps call_id event_id r declared p)
  unfolding finish
  finish-Arranged p =
      elim (Option-cases (
        with_rest loads_line dump_line loads dumps call_id event_id r declared p.residual
          p.state)) [
            | inl raises ↦ rw (raises, finish) tt
            | inr ((s, out), goes_on) ↦
                let (t, b) = rw goes_on at (with_rest-Placed p.residual p.state) in
                let (x, i, l) = rw goes_on at (with_rest-Followed p.residual p.state) in
                rw (goes_on, finish)
                  (EndedAs-cong _ _ _ _ _ _ _ _ _ _ _ t x i l b (synthesized-EndedAs s out))
          ]
