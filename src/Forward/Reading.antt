-- ===== src/Forward/Reading.antt =====
-- The counts that `overflow_info` reads from an upstream's error (app/proxy.py).
use llamaswap.Base.{
  ℕ, Bool, true, not, ◌&&◌, Option, none, some, List, [], ◌∷◌, ◌++◌, All, ◌≡◌, refl, ◌∙◌, arith,
  eqb, codes, show, Bool-cases, inl, inr,
}
use llamaswap.Forward.Overflow.{
  lower_code, behind, marked, strata_match, llama_match, search_in, overflow_info, is_digit,
}
use llamaswap.Forward.Digits.{show-Digits}
use llamaswap.Forward.Errors.{
  Starts, other_letter, search-hit, strata_error, strata_limit, strata_limit-reads, too_large,
  exceeds, context_size, strata_match-reads, too_large-reads, exceeds-reads,
}

-- No match begins in a text, whatever follows it.
abbrev pub IsClear : (List ℕ → Option (ℕ × ℕ)) → List ℕ → Type 0
IsClear f [] = Unit
IsClear f (c ∷ pre) = ((t : List ℕ) → f (c ∷ (pre ++ t)) ≡ none) × IsClear f pre

search-clear :
    (f : List ℕ → Option (ℕ × ℕ)) (pre s : List ℕ)
    → IsClear f pre
    → search_in f (pre ++ s) ≡ search_in f s
unfolding search_in
search-clear f [] s h = refl
search-clear f (c ∷ pre) s h = rw (h.0 s, search_in) (search-clear f pre s h.1)

lacks : ℕ → List ℕ → Bool
lacks a [] = true
lacks a (c ∷ s) = not (eqb a (lower_code c)) && lacks a s

lacks-IsClear :
    (a : ℕ) (f : List ℕ → Option (ℕ × ℕ)) (pre : List ℕ)
    → Starts a f
    → lacks a pre ≡ true
    → IsClear f pre
unfolding lacks
lacks-IsClear a f [] only q = tt
lacks-IsClear a f (c ∷ pre) only q = elim (Bool-cases (eqb a (lower_code c))) [
  | inl begins ↦ cc (rw begins at q)
  | inr other ↦ (λ t. only c (pre ++ t) other, lacks-IsClear a f pre only (rw other at q))
]

strata_match-Starts : Starts 112 strata_match
unfolding strata_match
strata_match-Starts c t h =
    rw (other_letter 112 c (codes "rompt (") (codes " tokens)") t h, strata_match) refl

-- No digit is a letter.
digits-lack : (ds : List ℕ) → All (λ c. is_digit c ≡ true) ds → lacks 112 ds ≡ true
unfolding lacks lower_code
digits-lack [] h = refl
digits-lack (c ∷ ds) h = ground (arith, digits-lack ds h.1)

strata-clear :
    (pre s : List ℕ)
    → lacks 112 pre ≡ true
    → search_in strata_match (pre ++ s) ≡ search_in strata_match s
strata-clear pre s h =
    search-clear strata_match pre s (lacks-IsClear 112 strata_match pre strata_match-Starts h)

-- llama-server's errors are none of Strata's.
size_clear :
    (m : ℕ) (rest : List ℕ)
    → search_in strata_match rest ≡ none
    → search_in strata_match (context_size m rest) ≡ none
unfolding lacks lower_code
size_clear m rest h =
    strata-clear (codes "context size (") (codes (show m) ++ (codes " tokens)" ++ rest)) refl
    ∙ strata-clear (codes (show m)) (codes " tokens)" ++ rest)
        (digits-lack (codes (show m)) (show-Digits m))
    ∙ strata-clear (codes " tokens)") rest refl
    ∙ h

too_large-clear :
    (n m : ℕ) (rest : List ℕ)
    → search_in strata_match rest ≡ none
    → search_in strata_match (too_large n m rest) ≡ none
unfolding lacks lower_code strata_match marked behind
too_large-clear n m rest h =
    let between = codes " tokens) is larger than the max " in
    let t = codes (show n) ++ (between ++ context_size m rest) in
    search-clear strata_match (codes "input (") t
      (λ t. refl, (λ t. refl, (λ t. refl, (λ t. refl, (λ t. refl, (λ t. refl, (λ t. refl, tt)))))))
    ∙ strata-clear (codes (show n)) (between ++ context_size m rest)
        (digits-lack (codes (show n)) (show-Digits n))
    ∙ strata-clear between (context_size m rest) refl
    ∙ size_clear m rest h

exceeds-clear :
    (n m : ℕ) (rest : List ℕ)
    → search_in strata_match rest ≡ none
    → search_in strata_match (exceeds n m rest) ≡ none
unfolding lacks lower_code
exceeds-clear n m rest h =
    let between = codes " tokens) exceeds the available " in
    let t = codes (show n) ++ (between ++ context_size m rest) in
    strata-clear (codes "request (") t refl
    ∙ strata-clear (codes (show n)) (between ++ context_size m rest)
        (digits-lack (codes (show n)) (show-Digits n))
    ∙ strata-clear between (context_size m rest) refl
    ∙ size_clear m rest h

-- The counts that an upstream writes into its error are the counts that are read from it, for all
-- numbers and for both wordings of Strata and both of llama-server that the patterns are made for.
-- The premises: no match of either pattern begins in the text before, and the text behind an error of
-- llama-server (`tail`) holds no match of Strata's pattern. What follows an error of Strata (`rest`)
-- is arbitrary.
pub overflow_info-reads :
    (pre : List ℕ) (n x m : ℕ) (rest tail : List ℕ)
    → IsClear strata_match pre
    → IsClear llama_match pre
    → search_in strata_match tail ≡ none
    → (overflow_info (pre ++ strata_error n m rest) ≡ some (n, m))
      × (overflow_info (pre ++ strata_limit n x m rest) ≡ some (n, m))
      × (overflow_info (pre ++ too_large n m tail) ≡ some (n, m))
      × (overflow_info (pre ++ exceeds n m tail) ≡ some (n, m))
unfolding overflow_info
overflow_info-reads pre n x m rest tail hs hl hr =
    let strata : search_in strata_match (pre ++ strata_error n m rest) ≡ some (n, m) =
      search-clear strata_match pre (strata_error n m rest) hs
      ∙ search-hit strata_match (strata_error n m rest) (n, m) (strata_match-reads n m rest) in
    let limit : search_in strata_match (pre ++ strata_limit n x m rest) ≡ some (n, m) =
      search-clear strata_match pre (strata_limit n x m rest) hs
      ∙ search-hit strata_match (strata_limit n x m rest) (n, m) (strata_limit-reads n x m rest) in
    let large = too_large n m tail in
    let beyond = exceeds n m tail in
    (
      rw (strata, overflow_info) refl,
      rw (limit, overflow_info) refl,
      rw (search-clear strata_match pre large hs ∙ too_large-clear n m tail hr, overflow_info)
          (search-clear llama_match pre large hl
            ∙ search-hit llama_match large (n, m) (too_large-reads n m tail)),
      rw (search-clear strata_match pre beyond hs ∙ exceeds-clear n m tail hr, overflow_info)
          (search-clear llama_match pre beyond hl
            ∙ search-hit llama_match beyond (n, m) (exceeds-reads n m tail)),
    )
