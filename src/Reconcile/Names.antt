-- ===== src/Reconcile/Names.antt =====
-- Which names `match_name` gives (app/tool_reconcile.py).
use llamaswap.Base.{
  String, Bool, true, false, some, List, [], ◌∷◌, ◌++◌, keep, All, ◌≡◌, ◌≢◌, ◌↔◌, ◌⊎◌, inl, inr,
  refl, arith, Bool-cases, ◌==◌, string_key, eq_iff,
}
use llamaswap.Reconcile.Match.{
  reconciled, Ratio, norm, is_exact, fits, is_near, match_name, by_name, by_fit, by_ratio,
}

-- `d` stands in the list and passes the test, and nothing else in the list does.
abbrev pub Only {ℓ} : {A : Type ℓ} → (A → Bool) → A → List A → Type ℓ
Only {A} p d xs =
    (pre : List A) × (post : List A) × (xs ≡ pre ++ d ∷ post)
    × (p d ≡ true)
    × All (λ x. p x ≡ false) pre
    × All (λ x. p x ≡ false) post

module _ {ℓ} {A : Type ℓ} (p : A → Bool) where
  keep_none : (xs : List A) → keep p xs ≡ [] → All (λ x. p x ≡ false) xs
  keep_none [] h = tt
  keep_none (x ∷ xs) h = elim (Bool-cases (p x)) [
    | inl is ↦ cc (rw is at h)
    | inr isnt ↦ (isnt, keep_none xs (rw isnt at h))
  ]

  none_keep : (xs : List A) → All (λ x. p x ≡ false) xs → keep p xs ≡ []
  none_keep [] h = refl
  none_keep (x ∷ xs) h = rw (h.0) (none_keep xs h.1)

  skipped : (x : A) → p x ≡ false → {xs : List A} {d : A} → Only p d xs → Only p d (x ∷ xs)
  skipped x isnt (pre, post, e, is, hs, ks) = (x ∷ pre, post, cc, is, (isnt, hs), ks)

  keep-Only : (xs : List A) (d : A) → keep p xs ≡ d ∷ [] → Only p d xs
  keep-Only [] d h = cc
  keep-Only (x ∷ xs) d h = elim (Bool-cases (p x)) [
    | inl is ↦
        let same : x ∷ keep p xs ≡ d ∷ [] = rw is at h in ([], xs, cc, cc, tt, keep_none xs (cc))
    | inr isnt ↦ skipped x isnt (keep-Only xs d (rw isnt at h))
  ]

  only_keep :
      (pre post : List A) (d : A)
      → p d ≡ true
      → All (λ x. p x ≡ false) pre
      → All (λ x. p x ≡ false) post
      → keep p (pre ++ d ∷ post) ≡ d ∷ []
  only_keep [] post d is hs ks = rw is (rw (none_keep post ks))
  only_keep (x ∷ pre) post d is hs ks = rw (hs.0) (only_keep pre post d is hs.1 ks)

  keep-Only_iff : (d : A) (xs : List A) → (keep p xs ≡ d ∷ []) ↔ Only p d xs
  keep-Only_iff d xs =
      (keep-Only xs d, λ (pre, post, e, is, hs, ks). rw e (only_keep pre post d is hs ks))

-- What `name` may mean: the one tool of its normal form; failing that, the one that it or that ends
-- in the other; failing any such, the one that is near it.
abbrev pub Meant : Ratio → String → List String → String → Type 0
Meant r name declared d =
    (norm name ≢ "")
    × (Only (is_exact (norm name)) d declared
        ⊎ (((e : String) → ¬ Only (is_exact (norm name)) e declared)
            × (Only (fits (norm name)) d declared
                ⊎ (All (λ x. fits (norm name) x ≡ false) declared
                    × Only (is_near r (norm name)) d declared))))

by_fit_iff :
    (fit good : List String) (d : String)
    → (by_fit fit good ≡ (some d, reconciled)) ↔ ((fit ≡ d ∷ []) ⊎ ((fit ≡ []) × (good ≡ d ∷ [])))
unfolding by_fit by_ratio
by_fit_iff [] [] d = ground arith
by_fit_iff [] (x ∷ []) d = ground arith
by_fit_iff [] (x ∷ y ∷ good) d = ground arith
by_fit_iff (x ∷ []) good d = ground arith
by_fit_iff (x ∷ y ∷ fit) good d = ground arith

by_name_iff :
    (exact fit good : List String) (d : String)
    → (by_name exact fit good ≡ (some d, reconciled)) ↔ (
        (exact ≡ d ∷ [])
        ⊎ (((e : String) → exact ≢ e ∷ []) × ((fit ≡ d ∷ []) ⊎ ((fit ≡ []) × (good ≡ d ∷ [])))))
unfolding by_name
by_name_iff [] fit good d =
    let (to, from) = by_fit_iff fit good d in
    (λ h. inr (λ e k. cc, to h), λ k. elim k [ inl k ↦ cc | inr (no_one, k) ↦ from k ])
by_name_iff (x ∷ []) fit good d =
    (λ h. inl (cc), λ k. elim k [ inl k ↦ cc | inr (no_one, k) ↦ absurd (no_one x refl) ])
by_name_iff (x ∷ y ∷ exact) fit good d =
    let (to, from) = by_fit_iff fit good d in
    (λ h. inr (λ e k. cc, to h), λ k. elim k [ inl k ↦ cc | inr (no_one, k) ↦ from k ])

module _ {p q : String → Bool} {good : String → Bool} (declared : List String) (d : String) where
  kept_to :
      (keep p declared ≡ d ∷ [])
        ⊎ (((e : String) → keep p declared ≢ e ∷ [])
            × ((keep q declared ≡ d ∷ [])
                ⊎ ((keep q declared ≡ []) × (keep good declared ≡ d ∷ []))))
      → Only p d declared
        ⊎ (((e : String) → ¬ Only p e declared)
            × (Only q d declared ⊎ (All (λ x. q x ≡ false) declared × Only good d declared)))
  kept_to (inl h) = inl (keep-Only p declared d h)
  kept_to (inr (no_one, inl h)) =
      inr (λ e o. no_one e ((keep-Only_iff p e declared).1 o), inl (keep-Only q declared d h))
  kept_to (inr (no_one, inr (none_fits, h))) = inr (
    λ e o. no_one e ((keep-Only_iff p e declared).1 o),
    inr (keep_none q declared none_fits, keep-Only good declared d h),
  )

  kept_from :
      Only p d declared
        ⊎ (((e : String) → ¬ Only p e declared)
            × (Only q d declared ⊎ (All (λ x. q x ≡ false) declared × Only good d declared)))
      → (keep p declared ≡ d ∷ [])
        ⊎ (((e : String) → keep p declared ≢ e ∷ [])
            × ((keep q declared ≡ d ∷ [])
                ⊎ ((keep q declared ≡ []) × (keep good declared ≡ d ∷ []))))
  kept_from (inl o) = inl ((keep-Only_iff p d declared).1 o)
  kept_from (inr (no_one, inl o)) =
      inr (λ e h. no_one e (keep-Only p declared e h), inl ((keep-Only_iff q d declared).1 o))
  kept_from (inr (no_one, inr (none_fits, o))) = inr (
    λ e h. no_one e (keep-Only p declared e h),
    inr (none_keep q declared none_fits, (keep-Only_iff good d declared).1 o),
  )

-- A name is reconciled with a declared tool exactly when it is not empty in its normal form and
-- the tool is the only one of that form; or no tool is that only one, and the tool is the only one
-- whose form ends in the name's or the other way round; or none is like that, and the tool is the
-- only one whose ratio reaches the least one.
pub match_name-Meant_iff :
    (r : Ratio) (name : String) (declared : List String) (d : String)
    → (match_name r name declared ≡ (some d, reconciled)) ↔ Meant r name declared d
unfolding match_name
match_name-Meant_iff r name declared d = elim (Bool-cases (norm name == "")) [
  | inl empty ↦
      (λ h. cc (rw empty at h), λ (named, _). absurd (named ((eq_iff (norm name) "").0 empty)))
  | inr named ↦
      let (to, from) =
        by_name_iff (keep (is_exact (norm name)) declared) (keep (fits (norm name)) declared)
          (keep (is_near r (norm name)) declared) d in
      (
        λ h.
            (λ e. cc (named, (eq_iff (norm name) "").1 e), kept_to declared d (to (rw named at h))),
        λ (_, m). rw named (from (kept_from declared d m)),
      )
]
