-- ===== src/Reconcile/Announced.antt =====
-- The event that a reconciled stream ends with (app/tool_reconcile.py,
-- `StreamReconciler._synthesized`).
use llamaswap.Base.{
  ℕ, suc, ◌+◌, String, Option, none, some, List, [], ◌∷◌, ◌++◌, codes, ◌≡◌, refl, ap, Option-cases,
  inl, inr,
}
use llamaswap.Json.{
  pos, Json, null, int, str, arr, obj, nil, cons, end, field, Fields, of_list, lookup, get_field,
  truthy,
}
use llamaswap.Reconcile.Match.{Ratio, match_name}
use llamaswap.Reconcile.Rejected.{call_name}
use llamaswap.Reconcile.Apply.{chosen, call_fields}
use llamaswap.Reconcile.Finish.{delta_calls, delta_event, delta_bytes, template_of, json_or}

-- The calls of one choice, in a delta that ends nothing.
abbrev pub delta_choices : List Json → Json
delta_choices calls = arr (
    cons
      (obj (
        field "index" (int (pos 0)) (
          field "delta" (obj (field "tool_calls" (arr (of_list calls)) end))
            (field "finish_reason" null end))))
      nil)

abbrev pub or_empty : Option Fields → Json
or_empty none = obj end
or_empty (some fs) = obj fs

module _ (loads_line : List ℕ → Option Json) (dump_line : Json → List ℕ)
    (loads : String → Option Json) (dumps : Json → String) (call_id : ℕ → String)
    (event_id : String) (r : Ratio) (declared : List String) where
  -- The calls whose name means a declared tool, with that tool.
  abbrev pub meant : List Fields → List (String × Fields)
  meant [] = []
  meant (call ∷ calls) = elim (chosen (match_name r (call_name call) declared)) [
    | none ↦ meant calls
    | some name ↦ (name, call) ∷ meant calls
  ]

  -- Those calls, numbered from `index` on.
  abbrev pub numbered : ℕ → ℕ → List (String × Fields) → List Json
  numbered index n [] = []
  numbered index n ((name, call) ∷ calls) =
      obj (field "index" (int (pos (index + n))) (call_fields loads dumps call_id n name call))
      ∷ numbered index (suc n) calls

  pub delta_calls-numbered :
      (index n : ℕ) (calls : List Fields)
      → (delta_calls loads_line dump_line loads dumps call_id event_id r declared index n calls).0
        ≡ numbered index n (meant calls)
  unfolding delta_calls
  delta_calls-numbered index n [] = refl
  delta_calls-numbered index n (call ∷ calls) =
      elim (Option-cases (chosen (match_name r (call_name call) declared))) [
        | inl nothing ↦ rw (nothing, delta_calls, meant) (delta_calls-numbered index n calls)
        | inr (name, means) ↦
            rw (means, delta_calls, meant)
              (ap
                (λ cs.
                  obj (
                    field "index" (int (pos (index + n)))
                      (call_fields loads dumps call_id n name call))
                  ∷ cs)
                (delta_calls-numbered index (suc n) calls))
      ]

  -- The bytes of the event for calls, none where there are none: a line of data with the calls, an
  -- empty line behind it, and under the names of the last event where that has them.
  abbrev pub IsAnnounced : Json → List Json → List ℕ → Type 0
  IsAnnounced last [] bytes = bytes ≡ []
  IsAnnounced last (call ∷ calls) bytes =
      (v : Json) × (bytes ≡ codes "data: " ++ (dump_line v ++ (10 ∷ 10 ∷ [])))
      × (lookup v "choices" ≡ delta_choices (call ∷ calls))
      × (lookup v "id" ≡ json_or (lookup last "id") (str event_id))
      × (lookup v "object" ≡ json_or (lookup last "object") (str "chat.completion.chunk"))
      × (lookup v "created" ≡ json_or (lookup last "created") (int (pos 0)))
      × (lookup v "model" ≡ json_or (lookup last "model") (str ""))

  pub delta_bytes-IsAnnounced :
      (o : Option Fields) (calls : List Json)
      → IsAnnounced (or_empty o) calls (
          delta_bytes loads_line dump_line loads dumps call_id event_id r declared
            (template_of loads_line dump_line loads dumps call_id event_id r declared o)
            calls)
  unfolding delta_bytes delta_event get_field truthy
  delta_bytes-IsAnnounced o [] = refl
  delta_bytes-IsAnnounced none (call ∷ calls) = (_, refl, refl, refl, refl, refl, refl)
  delta_bytes-IsAnnounced (some end) (call ∷ calls) = (_, refl, refl, refl, refl, refl, refl)
  delta_bytes-IsAnnounced (some (field k v fs)) (call ∷ calls) =
      (_, refl, refl, refl, refl, refl, refl)
