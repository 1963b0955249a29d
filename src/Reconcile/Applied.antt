-- ===== src/Reconcile/Applied.antt =====
-- A whole response behind `apply_reconcile` (app/tool_reconcile.py).
use mathlib.Core.List.{append-nil}
use llamaswap.Base.{
  ℕ, String, Option, none, some, List, [], ◌∷◌, ◌++◌, ◌≡◌, refl, sym, subst, ap, ◌∙◌,
}
use llamaswap.Json.{Json, obj, Fields, lookup, of_list, to_list-of_list, get_field-put_field, arr}
use llamaswap.Tokens.Meter.{iterated}
use llamaswap.Reconcile.Match.{Ratio}
use llamaswap.Reconcile.Blocks.{text_tool_calls}
use llamaswap.Reconcile.Rejected.{assistant_message, rejected_calls, all_calls}
use llamaswap.Reconcile.Apply.{
  Record, executed, existing, reconcile, with_calls, text_of, apply_reconcile, calls_of, applied,
  as_list, executed_in, apply_choices, apply_to,
}
use llamaswap.Reconcile.Laws.{
  IsFresh, AllCalled, records_of, reconcile-IsFresh, reconcile-AllCalled, reconcile-records,
}

existing-with_calls :
    (message : Fields) (new : List Json)
    → existing (with_calls message new) ≡ existing message ++ new
unfolding with_calls existing as_list
existing-with_calls message [] = sym (append-nil (existing message))
existing-with_calls message (c ∷ cs) =
    let calls = existing message ++ c ∷ cs in
    ap as_list (get_field-put_field message "tool_calls" "tool_calls" (arr (of_list calls)))
    ∙ to_list-of_list calls

-- What `apply_reconcile` leaves, for the message and the refused calls that it found.
pub record IsApplied (loads : String → Option Json) (dumps : Json → String) (r : Ratio)
    (declared : List String) (message : Fields) (rejected : List Fields) (done : List String)
    (message' : Fields) (records : List Record) : Type 0 where
  pub new : List Json
  pub kept : existing message' ≡ existing message ++ new
  pub fresh : IsFresh declared done new
  pub called : AllCalled done new records
  pub reported :
      records
      ≡ records_of r declared (
          all_calls loads dumps rejected
            (text_tool_calls loads dumps (text_of (lookup (obj message) "content"))))

-- The message and the records are those of the loop over the calls.
looped :
    (loads : String → Option Json) (dumps : Json → String) (call_id : ℕ → String) (r : Ratio)
    (declared : List String) (message message' : Fields) (rejected : List Fields)
    (done : List String) (records : List Record)
    → applied loads dumps call_id r declared message
        (calls_of loads dumps call_id message (some rejected))
        (some done)
      ≡ some (some message', records)
    → IsApplied loads dumps r declared message rejected done message' records
looped loads dumps call_id r declared message message' rejected done records h =
    let calls =
      all_calls loads dumps rejected
        (text_tool_calls loads dumps (text_of (lookup (obj message) "content"))) in
    let result = reconcile loads dumps call_id r declared 0 done calls in
    let same_message : with_calls message result.0 ≡ message' = cc in
    let same_records : result.1 ≡ records = cc in
    record {
      new = result.0;
      kept = rw (← same_message) (existing-with_calls message result.0);
      fresh = reconcile-IsFresh loads dumps call_id r declared 0 done calls;
      called =
          subst (AllCalled done result.0) same_records
            (reconcile-AllCalled loads dumps call_id r declared 0 done calls);
      reported = sym same_records ∙ reconcile-records loads dumps call_id r declared 0 done calls;
    }

module _ (loads : String → Option Json) (dumps : Json → String) (call_id : ℕ → String) (r : Ratio)
    (declared : List String) (answer message message' : Fields) (records : List Record) where
  -- The parts of which the message is made, none of which raised.
  abbrev pub Parts : Type 0
  Parts =
      (rejected : List Fields) × (calls : List Json) × (done : List String) × (rejected_calls loads
          dumps answer
        ≡ some rejected)
      × (iterated (lookup (obj message) "tool_calls") ≡ some calls)
      × (executed calls ≡ some done)
      × IsApplied loads dumps r declared message rejected done message' records

  abbrev result_of :
      Option (List Fields) → Option (List String) → Option (Option Fields × List Record)
  result_of o e =
      applied loads dumps call_id r declared message (calls_of loads dumps call_id message o) e

  parts :
      (o : Option (List Fields)) (i : Option (List Json)) (e : Option (List String))
      → rejected_calls loads dumps answer ≡ o
      → iterated (lookup (obj message) "tool_calls") ≡ i
      → executed_in i ≡ e
      → result_of o e ≡ some (some message', records)
      → Parts
  parts none i e ho hi he h = cc
  parts (some rejected) i none ho hi he h = cc
  parts (some rejected) none (some done) ho hi he h = cc
  parts (some rejected) (some calls) (some done) ho hi he h = (
    rejected,
    calls,
    done,
    ho,
    hi,
    he,
    looped loads dumps call_id r declared message message' rejected done records h,
  )

-- Of a response with an assistant message, for a request that declares tools, every call that was
-- refused, or else every call left in the text, is reported with what its name means. The message
-- keeps its calls in their places. Behind them stand the new ones: each names a declared tool, none
-- that the message calls already and none twice, and every tool that a name was reconciled with is
-- called.
pub apply_reconcile-IsApplied :
    (loads : String → Option Json) (dumps : Json → String) (call_id : ℕ → String) (r : Ratio)
    (d : String) (declared : List String) (answer message message' : Fields) (choices : List Json)
    (records : List Record)
    → iterated (lookup (obj answer) "choices") ≡ some choices
    → assistant_message choices ≡ some message
    → apply_reconcile loads dumps call_id r (d ∷ declared) answer ≡ some (some message', records)
    → Parts loads dumps call_id r (d ∷ declared) answer message message' records
unfolding apply_reconcile
apply_reconcile-IsApplied loads dumps call_id r d declared answer message message' choices records
      hc hm h =
    let chosen_one =
      ap (apply_choices loads dumps call_id r (d ∷ declared) answer) hc
      ∙ ap (apply_to loads dumps call_id r (d ∷ declared) answer) hm in
    parts loads dumps call_id r (d ∷ declared) answer message message' records _ _ _ refl refl refl
      (sym chosen_one ∙ h)
