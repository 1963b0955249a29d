-- ===== src/Forward/Retries.antt =====
-- Every request that `proxy_json` answers (app/proxy.py).
use llamaswap.Base.{
  ℕ, zero, suc, ◌≤◌, max, Option, none, some, List, [], ◌∷◌, eqb, length, ◌≡◌, ◌≢◌, ◌⊎◌, inl, inr,
  refl, ap, arith, Bool-cases, Option-cases,
}
use llamaswap.Json.{Json, obj, Fields}
use llamaswap.Trim.{trim_messages}
use llamaswap.Forward.Overflow.{overflow_info}
use llamaswap.Forward.Retry.{
  Settings, Exchange, Reply, refused, failed, answered, margin_of, at_least_256, Counts, Run,
  trimmed_body, trim_parsed, next_body, answer_of, counted, trims, attempts, proxy_json,
}

abbrev pub pred : ℕ → ℕ
pred zero = zero
pred (suc n) = n

at_least_256-le : (o : Option ℕ) (n : ℕ) → at_least_256 o ≡ some n → 256 ≤ n
at_least_256-le none n h = cc
at_least_256-le (some m) n h = let e : max 256 m ≡ n = cc in omega arith

margin_of-le :
    (st : Settings) (fs : Fields) (margin : ℕ) → margin_of st fs ≡ some margin → 256 ≤ margin
unfolding margin_of
margin_of-le st fs margin h = at_least_256-le _ margin h

module _ (e : Exchange) where
  open e use {loads, dump_body, settings, upstream}

  -- A body is made from the one before: its reply was an error that names both counts, and the
  -- messages were trimmed to them.
  abbrev pub Trimmed : Reply → List ℕ → List ℕ → Type 0
  Trimmed reply body body' =
      (status : ℕ) × (content : List ℕ) × (prompt : ℕ) × (ctx : ℕ) × (margin : ℕ) × (fs : Fields)
      × (fs' : Fields) × (n : ℕ) × (reply ≡ answered status content)
      × (status ≢ 200)
      × (overflow_info content ≡ some (prompt, ctx))
      × (loads body ≡ some (obj fs))
      × (256 ≤ margin)
      × (trim_messages fs prompt ctx margin ≡ some (fs', n))
      × (body' ≡ dump_body (obj fs'))

  -- The calls from the k-th on: each body but the first is trimmed from the one before.
  abbrev pub Chain : ℕ → List (List ℕ) → Type 0
  Chain k [] = Unit
  Chain k (body ∷ []) = Unit
  Chain k (body ∷ body' ∷ sent) =
      Trimmed (upstream k body) body body' × Chain (suc k) (body' ∷ sent)

  -- `times` trims are counted.
  abbrev pub trims_by : ℕ → Counts → Counts
  trims_by zero p = p
  trims_by (suc n) p = trims_by n (trims e p)

  -- The last call decides: the answer is that of its reply, which alone is counted.
  abbrev pub Ends : ℕ → List (List ℕ) → Option (ℕ × Json) → Counts → Counts → Type 0
  Ends k [] answer p q = ⊥
  Ends k (body ∷ []) answer p q =
      (answer_of e (upstream k body) ≡ answer) × (q ≡ counted e (upstream k body) body p)
  Ends k (body ∷ body' ∷ sent) answer p q = Ends (suc k) (body' ∷ sent) answer (trims e p) q

  trim_parsed-Trimmed :
      (status : ℕ) (content body body' : List ℕ) (info : ℕ × ℕ)
      → status ≢ 200
      → overflow_info content ≡ some info
      → (o : Option Json) → loads body ≡ o
      → trim_parsed e info o ≡ some (some body')
      → Trimmed (answered status content) body body'
  trim_parsed-Trimmed status content body body' (prompt, ctx) hs hi (some (obj fs)) hl h =
      elim (Option-cases (margin_of settings fs)) [
        | inl raises ↦ cc (rw (raises, trim_parsed) at h)
        | inr (margin, m) ↦ elim (Option-cases (trim_messages fs prompt ctx margin)) [
          | inl nothing ↦ cc (rw (m, trim_parsed, nothing) at h)
          | inr ((fs', n), less) ↦
              let same : some (some (dump_body (obj fs'))) ≡ some (some body') =
                rw (m, trim_parsed, less) at h in
              (
                status,
                content,
                prompt,
                ctx,
                margin,
                fs,
                fs',
                n,
                refl,
                hs,
                hi,
                hl,
                margin_of-le settings fs margin m,
                less,
                cc,
              )
        ]
      ]
  trim_parsed-Trimmed status content body body' info hs hi o hl h = cc

  next_body-Trimmed :
      (reply : Reply) (body body' : List ℕ)
      → next_body e reply body ≡ some (some body')
      → Trimmed reply body body'
  unfolding next_body trimmed_body
  next_body-Trimmed refused body body' h = cc
  next_body-Trimmed (failed text) body body' h = cc
  next_body-Trimmed (answered status content) body body' h = elim (Bool-cases (eqb status 200)) [
    | inl success ↦ cc (rw success at h)
    | inr error ↦ elim (Bool-cases settings.context_trim) [
      | inl on ↦ elim (Option-cases (overflow_info content)) [
        | inl other ↦ cc (rw (error, on, other) at h)
        | inr (info, reads) ↦
            trim_parsed-Trimmed status content body body' info (λ same. ground (arith, error, same))
              reads (loads body) refl (rw (error, on, reads) at h)
      ]
      | inr off ↦ cc (rw (error, off) at h)
    ]
  ]

  -- No trim would help the last body, unless it was the fourth.
  abbrev pub Exhausted : ℕ → ℕ → List (List ℕ) → Type 0
  Exhausted left k [] = Unit
  Exhausted left k (body ∷ []) = (left ≡ 0) ⊎ (next_body e (upstream k body) body ≡ some none)
  Exhausted left k (body ∷ body' ∷ sent) = Exhausted (pred left) (suc k) (body' ∷ sent)

  -- The calls of a run that does not raise.
  abbrev Forwarded : ℕ → ℕ → List ℕ → Counts → Run → Type 0
  Forwarded left k body p r =
      (a : ℕ × Json)
      → r.answer ≡ some a
      → (rest : List (List ℕ)) × (r.sent ≡ body ∷ rest)
        × (length rest ≤ left)
        × Chain k (body ∷ rest)
        × Exhausted left k (body ∷ rest)
        × Ends k (body ∷ rest) (some a) p r.counts

  attempts-Forwarded :
      (left k : ℕ) (body : List ℕ) (p : Counts) → Forwarded left k body p (attempts e left k body p)
  unfolding attempts
  attempts-Forwarded zero k body p = λ a h. ([], refl, omega arith, tt, inl refl, (h, refl))
  attempts-Forwarded (suc left) k body p =
      elim (Option-cases (next_body e (upstream k body) body)) [
        | inl raises ↦ rw (raises, attempts) (λ a h. cc)
        | inr (none, still) ↦
            rw (still, attempts) (λ a h. ([], refl, omega arith, tt, inr still, (h, refl)))
        | inr (some body', again) ↦
            rw (again, attempts)
              (λ a h.
                let (rest, same, few, chain, tried, ends) =
                  attempts-Forwarded left (suc k) body' (trims e p) a h in
                (
                  body' ∷ rest,
                  ap (λ sent. body ∷ sent) same,
                  omega arith,
                  (next_body-Trimmed (upstream k body) body body' again, chain),
                  tried,
                  ends,
                ))
      ]

  -- A request is sent one to four times, first as it came. Each further body is trimmed from the
  -- one before it, whose reply was an error that named both counts; and no error is the answer that
  -- could have been trimmed for, but after four calls. The answer is that of the last reply, and of
  -- the replies it alone is counted; of the trims, each is.
  pub proxy_json-Forwarded :
      (body : List ℕ) (p : Counts) (a : ℕ × Json)
      → (proxy_json e body p).answer ≡ some a
      → (rest : List (List ℕ)) × ((proxy_json e body p).sent ≡ body ∷ rest)
        × (length rest ≤ 3)
        × Chain 0 (body ∷ rest)
        × Exhausted 3 0 (body ∷ rest)
        × Ends 0 (body ∷ rest) (some a) p (proxy_json e body p).counts
  unfolding proxy_json
  proxy_json-Forwarded body p a h = attempts-Forwarded 3 0 body p a h
