-- ===== src/Reconcile/Relay.antt =====
-- A whole stream through the reconciler (app/main.py, `_reconcile_stream`, over
-- app/tool_reconcile.py, `StreamReconciler`).
use mathlib.Core.List.{append_assoc, append-nil}
use llamaswap.Base.{
  ℕ, String, Option, none, some, List, [], ◌∷◌, ◌++◌, ◌≡◌, refl, sym, subst, ap, ◌∙◌, Option-cases,
  inl, inr,
}
use llamaswap.Json.{Json}
use llamaswap.Tokens.Meter.{split_lines}
use llamaswap.Reconcile.Match.{Ratio}
use llamaswap.Reconcile.Stream.{State, Stream, init, joined, route_lines, feed}
use llamaswap.Reconcile.Finish.{finish}
use llamaswap.Reconcile.Said.{
  said, last_event, index_behind, said-append, last_event-append, index_behind-append, Followed,
  route_lines-Followed,
}
use llamaswap.Reconcile.Lines.{
  open_line, lines_of, IsOpen, rest-IsOpen, lines_of-more, lines_of-open,
}
use llamaswap.Reconcile.Ending.{EndsWith, EndedAs-cong, Arranged, finish-Arranged}
use llamaswap.Reconcile.Placed.{
  Placed, held-append, passed-append, held, passed, route_lines-Placed,
}

-- More bytes, out after those.
abbrev pub behind : List ℕ → Option (Stream × List ℕ) → Option (Stream × List ℕ)
behind out none = none
behind out (some (p, rest)) = some (p, out ++ rest)

module _ (loads_line : List ℕ → Option Json) (dump_line : Json → List ℕ)
    (loads : String → Option Json) (dumps : Json → String) (call_id : ℕ → String)
    (event_id : String) (r : Ratio) (declared : List String) where
  -- The loop over the chunks of the stream: all that is passed to the client.
  unfoldable pub relay : List (List ℕ) → Stream → Option (Stream × List ℕ)
  relay [] p = finish loads_line dump_line loads dumps call_id event_id r declared p
  relay (chunk ∷ chunks) p = elim (feed loads_line loads dumps chunk p) [
    | none ↦ none
    | some (p', out) ↦ behind out (relay chunks p')
  ]

  -- The end of the later lines is that of all the lines.
  behind-Arranged :
      (ls ms : List (List ℕ)) (s s' : State) (out : List ℕ) (o : Option (Stream × List ℕ))
      → Placed loads_line loads dumps ls s (some (s', out))
      → Followed loads_line loads dumps ls s (some (s', out))
      → Arranged loads_line dump_line loads dumps call_id event_id r declared ms s' o
      → Arranged loads_line dump_line loads dumps call_id event_id r declared
          (ls ++ ms)
          s
          (behind out o)
  behind-Arranged ls ms s s' out none placed followed a = tt
  behind-Arranged ls ms s s' out (some (p, rest)) (t, b) (x, i, l) a =
      let (refused, event, reported, announced, e) = a in
      let all_held = held loads_line loads dumps in
      let all_passed = passed loads_line loads dumps in
      EndedAs-cong loads_line dump_line loads dumps call_id event_id r declared
        (some (p, out ++ rest)) (s'.tail ++ all_held ms) _ _ _ _ _ _ _ (out ++ all_passed ms) _
        (ap (λ xs. xs ++ all_held ms) t
          ∙ append_assoc s.tail (all_held ls) (all_held ms)
          ∙ ap (λ xs. s.tail ++ xs) (sym (held-append loads_line loads dumps ls ms)))
        (ap (said loads_line loads dumps ms) x
          ∙ sym (said-append loads_line loads dumps ls ms s.text))
        (ap (index_behind loads_line loads dumps ms) i
          ∙ sym (index_behind-append loads_line loads dumps ls ms s.next_index))
        (ap (last_event loads_line loads dumps ms) l
          ∙ sym (last_event-append loads_line loads dumps ls ms s.template))
        (ap (λ xs. xs ++ all_passed ms) b ∙ sym (passed-append loads_line loads dumps ls ms))
        (
          refused,
          event,
          reported,
          announced,
          ap (λ xs. out ++ xs) e
              ∙ sym (append_assoc out (all_passed ms) (event ++ joined (s'.tail ++ all_held ms))),
        )

  relay-Arranged :
      (chunks : List (List ℕ)) (p : Stream)
      → IsOpen p.residual
      → Arranged loads_line dump_line loads dumps call_id event_id r declared
          (lines_of (p.residual ++ joined chunks))
          p.state
          (relay chunks p)
  unfolding relay feed
  relay-Arranged [] p h =
      let e : lines_of (p.residual ++ []) ≡ open_line p.residual =
        ap lines_of (append-nil p.residual) ∙ lines_of-open p.residual h in
      subst
        (λ ls.
          Arranged loads_line dump_line loads dumps call_id event_id r declared ls p.state
            (relay [] p))
        (sym e) (finish-Arranged loads_line dump_line loads dumps call_id event_id r declared p)
  relay-Arranged ([] ∷ chunks) p h =
      behind-Arranged [] (lines_of (p.residual ++ joined chunks)) p.state p.state []
        (relay chunks p) (sym (append-nil p.state.tail), refl) (refl, refl, refl)
        (relay-Arranged chunks p h)
  relay-Arranged ((c ∷ chunk) ∷ chunks) p h =
      let bytes = p.residual ++ c ∷ chunk in
      let later = lines_of ((split_lines bytes).1 ++ joined chunks) in
      let e : lines_of (p.residual ++ joined ((c ∷ chunk) ∷ chunks))
          ≡ (split_lines bytes).0 ++ later =
        ap lines_of (sym (append_assoc p.residual (c ∷ chunk) (joined chunks)))
        ∙ lines_of-more bytes (joined chunks) in
      subst
        (λ ls.
          Arranged loads_line dump_line loads dumps call_id event_id r declared ls p.state
            (relay ((c ∷ chunk) ∷ chunks) p))
        (sym e)
        (elim (Option-cases (route_lines loads_line loads dumps (split_lines bytes).0 p.state)) [
          | inl raises ↦ rw (raises, relay, feed) tt
          | inr ((s', out), goes_on) ↦
              let p' : Stream = record p { residual = (split_lines bytes).1; state = s' } in
              rw (goes_on, relay, feed)
                (behind-Arranged (split_lines bytes).0 later p.state s' out (relay chunks p')
                  (rw goes_on at
                    (route_lines-Placed loads_line loads dumps (split_lines bytes).0 p.state))
                  (rw goes_on at
                    (route_lines-Followed loads_line loads dumps (split_lines bytes).0 p.state))
                  (relay-Arranged chunks p' (rest-IsOpen bytes)))
        ])

  -- However a stream is cut into chunks, where nothing raises, the client gets every line of it, in
  -- two parts: the lines that pass, in their order, and behind them the held ones, in theirs: the end
  -- marks, the events with a finish reason and those that report refused calls. Between the two
  -- stands one event with the calls that the held lines report as refused, their missing arguments
  -- taken from the calls written in the text of the whole stream, or where none is reported, with
  -- the written ones; only calls whose name means a declared
  -- tool are in it, in their order, under the names of those tools, and numbered on from the first
  -- index behind all the calls of the stream. Its id, object, time and model are those of the last
  -- event of the stream where that has them. Where no call is left there is no such event.
  pub relay-InOrder :
      (chunks : List (List ℕ)) (p : Stream) (out : List ℕ)
      → relay chunks init ≡ some (p, out)
      → EndsWith loads_line dump_line loads dumps call_id event_id r declared
          (held loads_line loads dumps (lines_of (joined chunks)))
          (said loads_line loads dumps (lines_of (joined chunks)) "")
          (index_behind loads_line loads dumps (lines_of (joined chunks)) 0)
          (last_event loads_line loads dumps (lines_of (joined chunks)) none)
          (passed loads_line loads dumps (lines_of (joined chunks)))
          out
  unfolding init split_lines
  relay-InOrder chunks p out h = rw h at (relay-Arranged chunks init refl)
