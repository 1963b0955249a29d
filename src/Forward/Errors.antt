-- ===== src/Forward/Errors.antt =====
-- The errors that the upstreams word, and the counts read from them (app/proxy.py,
-- `OVERFLOW_RES`).
use llamaswap.Base.{
  ℕ, Bool, true, false, Option, none, some, List, [], ◌∷◌, ◌++◌, All, ◌≡◌, refl, ap, ◌∙◌, arith,
  eqb, codes, show, Bool-cases, inl, inr, not, ◌&&◌, eqb_iff,
}
use llamaswap.Forward.Overflow.{
  lower_code, behind, marked, lazily, strata_context, paired, llama_context, strata_match,
  llama_match, search_in, is_digit,
}
use llamaswap.Forward.Digits.{number-show, show-Digits}

behind-append : (p s : List ℕ) → behind p (p ++ s) ≡ some s
unfolding behind
behind-append [] s = refl
behind-append (c ∷ p) s =
    rw (behind-append p s) (ground (arith, eqb_iff (lower_code c) (lower_code c)))

-- A mark, a number and an end are read as they were written.
marked-reads :
    (m : List ℕ) (n c : ℕ) (e rest : List ℕ)
    → is_digit c ≡ false
    → marked m (c ∷ e) (m ++ (codes (show n) ++ ((c ∷ e) ++ rest))) ≡ some (n, rest)
unfolding marked
marked-reads m n c e rest h =
    let s = codes (show n) ++ (c ∷ e ++ rest) in
    rw (behind-append m s, marked)
      (rw (number-show n c (e ++ rest) h, marked) (rw (behind-append (c ∷ e) rest, marked) refl))

-- A text that the pattern's first letter does not begin.
abbrev Lacks : ℕ → List ℕ → Type 0
Lacks a s = All (λ c. eqb a (lower_code c) ≡ false) s

pub other_letter :
    (a c : ℕ) (p e s : List ℕ)
    → eqb (lower_code a) (lower_code c) ≡ false
    → marked (a ∷ p) e (c ∷ s) ≡ none
unfolding marked behind
other_letter a c p e s h = rw (marked, behind, h) refl

-- No character of a text begins a match, and none ends the line.
abbrev quiet : ℕ → List ℕ → Bool
unfolding lower_code
quiet a [] = true
quiet a (c ∷ s) = not (eqb a (lower_code c)) && (not (eqb c 10) && quiet a s)

abbrev pub Starts {ℓ} : {A : Type ℓ} → ℕ → (List ℕ → Option A) → Type ℓ
Starts a f = (c : ℕ) (t : List ℕ) → eqb a (lower_code c) ≡ false → f (c ∷ t) ≡ none

lazily-skip :
    (a : ℕ) (f : List ℕ → Option ℕ) (pre s : List ℕ)
    → Starts a f
    → quiet a pre ≡ true
    → lazily f (pre ++ s) ≡ lazily f s
unfolding lazily quiet
lazily-skip a f [] s only q = refl
lazily-skip a f (c ∷ pre) s only q = elim (Bool-cases (eqb a (lower_code c))) [
  | inl begins ↦ cc (rw begins at q)
  | inr other ↦ elim (Bool-cases (eqb c 10)) [
    | inl line_ends ↦ cc (rw (other, line_ends) at q)
    | inr inside ↦
        rw (only c (pre ++ s) other, lazily)
          (rw inside (lazily-skip a f pre s only (rw (other, inside) at q)))
  ]
]

lazily-hit : (f : List ℕ → Option ℕ) (s : List ℕ) (n : ℕ) → f s ≡ some n → lazily f s ≡ some n
unfolding lazily
lazily-hit f [] n h = h
lazily-hit f (c ∷ s) n h = rw h refl

pub search-hit :
    (f : List ℕ → Option (ℕ × ℕ)) (s : List ℕ) (p : ℕ × ℕ) → f s ≡ some p → search_in f s ≡ some p
unfolding search_in
search-hit f [] p h = h
search-hit f (c ∷ s) p h = rw h refl

abbrev pub strata_error : ℕ → ℕ → List ℕ → List ℕ
strata_error n m rest =
    codes "prompt ("
    ++ (codes (show n)
        ++ (codes " tokens)"
            ++ (codes " leaves no room to answer in the "
                ++ (codes "context (" ++ (codes (show m) ++ (codes ")" ++ rest))))))

strata_context-reads :
    (m : ℕ) (rest : List ℕ)
    → strata_context (codes "context (" ++ (codes (show m) ++ (codes ")" ++ rest))) ≡ some m
unfolding strata_context
strata_context-reads m rest =
    rw (marked-reads (codes "context (") m 41 [] rest refl, strata_context) refl

strata_context-Starts : Starts 99 strata_context
unfolding strata_context
strata_context-Starts c t h =
    rw
      (
        other_letter 99 c (codes "ontext window (") (codes ")") t h,
        other_letter 99 c (codes "ontext (") (codes ")") t h,
        strata_context,
      )
      refl

pub strata_match-reads :
    (n m : ℕ) (rest : List ℕ) → strata_match (strata_error n m rest) ≡ some (n, m)
unfolding strata_match
strata_match-reads n m rest =
    let context = codes "context (" ++ (codes (show m) ++ (codes ")" ++ rest)) in
    let between = codes " leaves no room to answer in the " in
    let found : lazily strata_context (between ++ context) ≡ some m =
      lazily-skip 99 strata_context between context strata_context-Starts refl
      ∙ lazily-hit strata_context context m (strata_context-reads m rest) in
    ap (paired strata_context)
      (marked-reads (codes "prompt (") n 32 (codes "tokens)") (between ++ context) refl)
    ∙ rw (found, paired) refl

-- The wording where the answer's budget is named too.
abbrev pub strata_limit : ℕ → ℕ → ℕ → List ℕ → List ℕ
strata_limit n x m rest =
    codes "prompt ("
    ++ (codes (show n)
        ++ (codes " tokens)"
            ++ (codes " + max tokens ("
                ++ (codes (show x)
                    ++ (codes ") exceeds the "
                        ++ (codes "context (" ++ (codes (show m) ++ (codes ")" ++ rest))))))))

digits-quiet : (ds : List ℕ) → All (λ c. is_digit c ≡ true) ds → quiet 99 ds ≡ true
unfolding quiet lower_code
digits-quiet [] h = refl
digits-quiet (c ∷ ds) h = ground (arith, digits-quiet ds h.1)

lazily-step :
    (f : List ℕ → Option ℕ) (c : ℕ) (s : List ℕ)
    → f (c ∷ s) ≡ none
    → eqb c 10 ≡ false
    → lazily f (c ∷ s) ≡ lazily f s
unfolding lazily
lazily-step f c s miss inside = rw (miss, lazily) (rw inside refl)

pub strata_limit-reads :
    (n x m : ℕ) (rest : List ℕ) → strata_match (strata_limit n x m rest) ≡ some (n, m)
unfolding strata_match strata_context marked behind lower_code
strata_limit-reads n x m rest =
    let context = codes "context (" ++ (codes (show m) ++ (codes ")" ++ rest)) in
    let behind_budget = codes ") exceeds the " ++ context in
    let between = codes " + max tokens (" ++ (codes (show x) ++ behind_budget) in
    let found : lazily strata_context between ≡ some m =
      lazily-skip 99 strata_context (codes " + max tokens (") (codes (show x) ++ behind_budget)
        strata_context-Starts refl
      ∙ lazily-skip 99 strata_context (codes (show x)) behind_budget strata_context-Starts
          (digits-quiet (codes (show x)) (show-Digits x))
      ∙ lazily-skip 99 strata_context (codes ") ex") (codes "ceeds the " ++ context)
          strata_context-Starts refl
      ∙ lazily-step strata_context 99 (codes "eeds the " ++ context) refl refl
      ∙ lazily-skip 99 strata_context (codes "eeds the ") context strata_context-Starts refl
      ∙ lazily-hit strata_context context m (strata_context-reads m rest) in
    ap (paired strata_context) (marked-reads (codes "prompt (") n 32 (codes "tokens)") between refl)
    ∙ rw (found, paired) refl

marked_open-reads :
    (m : List ℕ) (n c : ℕ) (rest : List ℕ)
    → is_digit c ≡ false
    → marked m [] (m ++ (codes (show n) ++ (c ∷ rest))) ≡ some (n, c ∷ rest)
unfolding marked behind
marked_open-reads m n c rest h =
    rw (behind-append m (codes (show n) ++ (c ∷ rest)), marked)
      (rw (number-show n c rest h, marked) refl)

abbrev pub context_size : ℕ → List ℕ → List ℕ
context_size m rest = codes "context size (" ++ (codes (show m) ++ (codes " tokens)" ++ rest))

llama_context-reads : (m : ℕ) (rest : List ℕ) → llama_context (context_size m rest) ≡ some m
unfolding llama_context
llama_context-reads m rest =
    rw
      (
        marked_open-reads (codes "context size (") m 32 (codes "tokens)" ++ rest) refl,
        llama_context,
      )
      refl

llama_context-Starts : Starts 99 llama_context
unfolding llama_context
llama_context-Starts c t h =
    rw
      (
        other_letter 99 c (codes "ontext size (") [] t h,
        other_letter 99 c (codes "ontext window (") [] t h,
        llama_context,
      )
      refl

abbrev pub too_large : ℕ → ℕ → List ℕ → List ℕ
too_large n m rest =
    codes "input ("
    ++ (codes (show n)
        ++ (codes " tokens)" ++ (codes " is larger than the max " ++ context_size m rest)))

abbrev pub exceeds : ℕ → ℕ → List ℕ → List ℕ
exceeds n m rest =
    codes "request ("
    ++ (codes (show n)
        ++ (codes " tokens)" ++ (codes " exceeds the available " ++ context_size m rest)))

pub too_large-reads : (n m : ℕ) (rest : List ℕ) → llama_match (too_large n m rest) ≡ some (n, m)
unfolding llama_match
too_large-reads n m rest =
    let between = codes " is larger than the max " in
    let context = context_size m rest in
    let found : lazily llama_context (between ++ context) ≡ some m =
      lazily-skip 99 llama_context between context llama_context-Starts refl
      ∙ lazily-hit llama_context context m (llama_context-reads m rest) in
    rw
      (marked-reads (codes "input (") n 32 (codes "tokens)") (between ++ context) refl, llama_match)
      (rw (found, paired) refl)

pub exceeds-reads : (n m : ℕ) (rest : List ℕ) → llama_match (exceeds n m rest) ≡ some (n, m)
unfolding llama_match marked behind lower_code lazily llama_context
exceeds-reads n m rest =
    let context = context_size m rest in
    let found : lazily llama_context (codes " exceeds the available " ++ context) ≡ some m =
      lazily-skip 99 llama_context (codes "eeds the available ") context llama_context-Starts refl
      ∙ lazily-hit llama_context context m (llama_context-reads m rest) in
    rw
      (
        marked-reads (codes "request (") n 32 (codes "tokens)")
            (codes " exceeds the available " ++ context) refl,
        llama_match,
      )
      (rw (found, paired) refl)
