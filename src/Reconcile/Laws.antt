-- ===== src/Reconcile/Laws.antt =====
-- What `apply_reconcile` adds to a message (app/tool_reconcile.py).
use llamaswap.Base.{
  ℕ, suc, String, Bool, true, false, Option, some, List, [], ◌∷◌, ◌++◌, map, contains, ◌≡◌, ◌⊎◌,
  inl, inr, refl, sym, subst, ap, ◌∙◌, arith, Bool-cases, Option-cases, ◌==◌, string_key, eq_iff,
  All,
}
use llamaswap.Json.{Json, str, Fields, get_field, lookup}
use llamaswap.Reconcile.Match.{Outcome, reconciled, ambiguous, unmatched, Ratio, match_name}
use llamaswap.Reconcile.Names.{Only, match_name-Meant_iff}
use llamaswap.Reconcile.Rejected.{call_name}
use llamaswap.Reconcile.Apply.{Record, emitted, reconcile, chosen}

-- The tool that an emitted call names.
abbrev pub tool_of : Json → Json
tool_of call = lookup (lookup call "function") "name"

-- Each call names a tool of the request that was not called before, in the message or in the list.
abbrev pub IsFresh : List String → List String → List Json → Type 0
IsFresh declared done [] = Unit
IsFresh declared done (e ∷ es) =
    (name : String) × (tool_of e ≡ str name)
    × (contains declared name ≡ true)
    × (contains done name ≡ false)
    × IsFresh declared (name ∷ done) es

-- The tool is called: by the message, or by a call of the list.
abbrev pub Called : List String → List Json → String → Type 0
Called done [] name = contains done name ≡ true
Called done (e ∷ es) name = (tool_of e ≡ str name) ⊎ Called done es name

-- Every record of a tool is of one that is called.
abbrev pub AllCalled : List String → List Json → List Record → Type 0
AllCalled done new records =
    All (λ record_. (name : String) → chosen record_.1 ≡ some name → Called done new name) records

-- What is reported: each call's name with what it means, in the order of the calls.
abbrev pub records_of : Ratio → List String → List Fields → List Record
records_of r declared calls =
    map (λ call. (call_name call, match_name r (call_name call) declared)) calls

Called-old :
    (done : List String) (new : List Json) (name : String)
    → contains done name ≡ true
    → Called done new name
Called-old done [] name h = h
Called-old done (e ∷ new) name h = inr (Called-old done new name h)

Called-shift :
    (done : List String) (new : List Json) (e : Json) (name tool : String)
    → tool_of e ≡ str name
    → Called (name ∷ done) new tool
    → Called done (e ∷ new) tool
Called-shift done [] e name tool is h = elim (Bool-cases (name == tool)) [
  | inl same ↦ inl (is ∙ ap str ((eq_iff name tool).0 same))
  | inr other ↦ inr (rw other at h)
]
Called-shift done (f ∷ new) e name tool is (inl h) = inr (inl h)
Called-shift done (f ∷ new) e name tool is (inr h) = elim (Called-shift done new e name tool is h) [
  | inl first ↦ inl first
  | inr later ↦ inr (inr later)
]

AllCalled-shift :
    (done : List String) (new : List Json) (e : Json) (name : String) (records : List Record)
    → tool_of e ≡ str name
    → AllCalled (name ∷ done) new records
    → AllCalled done (e ∷ new) records
AllCalled-shift done new e name [] is h = tt
AllCalled-shift done new e name (x ∷ records) is h = (
  λ tool means. Called-shift done new e name tool is (h.0 tool means),
  AllCalled-shift done new e name records is h.1,
)

some_inj : {a b : String} → some a ≡ some b → a ≡ b
some_inj h = cc

chosen-eq :
    (m : Option String × Outcome) (d : String) → chosen m ≡ some d → m ≡ (some d, reconciled)
unfolding chosen
chosen-eq (tool, reconciled) d h = ap (λ t. (t, reconciled)) h
chosen-eq (tool, ambiguous) d h = cc
chosen-eq (tool, unmatched) d h = cc

contains-middle : (pre post : List String) (d : String) → contains (pre ++ d ∷ post) d ≡ true
contains-middle [] post d = ground (arith, eq_iff d d)
contains-middle (x ∷ pre) post d = ground (arith, contains-middle pre post d)

contains-Only :
    {p : String → Bool} (d : String) (declared : List String)
    → Only p d declared
    → contains declared d ≡ true
contains-Only d declared (pre, post, e, is, before, behind) = rw e (contains-middle pre post d)

-- What a name means is declared.
contains-chosen :
    (r : Ratio) (name : String) (declared : List String) (d : String)
    → chosen (match_name r name declared) ≡ some d
    → contains declared d ≡ true
contains-chosen r name declared d h =
    let m =
      (match_name-Meant_iff r name declared d).0 (chosen-eq (match_name r name declared) d h) in
    elim (m.1) [
      | inl o ↦ contains-Only d declared o
      | inr (_, inl o) ↦ contains-Only d declared o
      | inr (_, inr (_, o)) ↦ contains-Only d declared o
    ]

module _ (loads : String → Option Json) (dumps : Json → String) (call_id : ℕ → String) (r : Ratio)
    (declared : List String) where
  pub reconcile-IsFresh :
      (n : ℕ) (done : List String) (calls : List Fields)
      → IsFresh declared done (reconcile loads dumps call_id r declared n done calls).0
  unfolding reconcile emitted get_field
  reconcile-IsFresh n done [] = tt
  reconcile-IsFresh n done (call ∷ calls) =
      elim (Option-cases (chosen (match_name r (call_name call) declared))) [
        | inl nothing ↦ rw (nothing, reconcile) (reconcile-IsFresh n done calls)
        | inr (name, means) ↦ elim (Bool-cases (contains done name)) [
          | inl old ↦ rw (means, reconcile) (rw old (reconcile-IsFresh n done calls))
          | inr new ↦
              rw (means, reconcile)
                (rw new (
                  name,
                  refl,
                  contains-chosen r (call_name call) declared name means,
                  new,
                  reconcile-IsFresh (suc n) (name ∷ done) calls,
                ))
        ]
      ]

  pub reconcile-records :
      (n : ℕ) (done : List String) (calls : List Fields)
      → (reconcile loads dumps call_id r declared n done calls).1 ≡ records_of r declared calls
  unfolding reconcile
  reconcile-records n done [] = refl
  reconcile-records n done (call ∷ calls) =
      elim (Option-cases (chosen (match_name r (call_name call) declared))) [
        | inl nothing ↦
            rw (nothing, reconcile)
              (ap (λ rs. (call_name call, match_name r (call_name call) declared) ∷ rs)
                (reconcile-records n done calls))
        | inr (name, means) ↦ elim (Bool-cases (contains done name)) [
          | inl old ↦
              rw (means, reconcile)
                (rw old (
                  ap (λ rs. (call_name call, match_name r (call_name call) declared) ∷ rs)
                    (reconcile-records n done calls)))
          | inr new ↦
              rw (means, reconcile)
                (rw new (
                  ap (λ rs. (call_name call, match_name r (call_name call) declared) ∷ rs)
                    (reconcile-records (suc n) (name ∷ done) calls)))
        ]
      ]

  pub reconcile-AllCalled :
      (n : ℕ) (done : List String) (calls : List Fields)
      → AllCalled done
          (reconcile loads dumps call_id r declared n done calls).0
          (reconcile loads dumps call_id r declared n done calls).1
  unfolding reconcile emitted get_field
  reconcile-AllCalled n done [] = tt
  reconcile-AllCalled n done (call ∷ calls) =
      elim (Option-cases (chosen (match_name r (call_name call) declared))) [
        | inl nothing ↦
            rw (nothing, reconcile)
              (λ tool means. cc (nothing, means), reconcile-AllCalled n done calls)
        | inr (name, means) ↦ elim (Bool-cases (contains done name)) [
          | inl old ↦
              rw (means, reconcile)
                (rw old (
                  λ tool h.
                      Called-old done _ tool
                        (subst (λ t. contains done t ≡ true) (some_inj (sym means ∙ h)) old),
                  reconcile-AllCalled n done calls,
                ))
          | inr new ↦
              rw (means, reconcile)
                (rw new (
                  λ tool h. inl (ap str (some_inj (sym means ∙ h))),
                  AllCalled-shift done _ (emitted loads dumps call_id n name call) name _ refl
                      (reconcile-AllCalled (suc n) (name ∷ done) calls),
                ))
        ]
      ]
