-- ===== src/Forward/Overflow.antt =====
-- The token counts in an upstream's overflow error (app/proxy.py, `OVERFLOW_RES` and
-- `overflow_info`). An error is the list of its characters; digits and case are those of ASCII.
use llamaswap.Base.{
  ℕ, ◌+◌, ◌-◌, ◌*◌, Bool, ◌&&◌, Option, none, some, List, [], ◌∷◌, leb, eqb, if◌then◌else◌, codes,
}

unfoldable pub lower_code : ℕ → ℕ
lower_code c = if leb 65 c && leb c 90 then c + 32 else c

-- What stands behind `p`, if `p` begins the text in whatever case.
unfoldable pub behind : List ℕ → List ℕ → Option (List ℕ)
unfolding lower_code
behind [] s = some s
behind (c ∷ p) [] = none
behind (c ∷ p) (d ∷ s) =
    let rest = behind p s in if eqb (lower_code c) (lower_code d) then rest else none

abbrev pub is_digit : ℕ → Bool
is_digit c = leb 48 c && leb c 57

-- The longest run of digits, and what follows it.
unfoldable pub digit_run : List ℕ → List ℕ × List ℕ
digit_run [] = ([], [])
digit_run (c ∷ s) =
    let (ds, rest) = digit_run s in if is_digit c then (c ∷ ds, rest) else ([], c ∷ s)

-- `int(...)` of digits.
unfoldable pub decimal : ℕ → List ℕ → ℕ
decimal n [] = n
decimal n (c ∷ ds) = decimal (n * 10 + (c - 48)) ds

-- `(\d+)`: the number, and what follows.
abbrev pub number_of : List ℕ × List ℕ → Option (ℕ × List ℕ)
number_of ([], rest) = none
number_of (c ∷ ds, rest) = some (decimal 0 (c ∷ ds), rest)

unfoldable pub number : List ℕ → Option (ℕ × List ℕ)
unfolding digit_run
number s = number_of (digit_run s)

-- `m (\d+) e`, of a mark and an end: the number, and what follows.
unfoldable pub marked : List ℕ → List ℕ → List ℕ → Option (ℕ × List ℕ)
unfolding behind number
marked m e s = elim (behind m s) [
  | none ↦ none
  | some s1 ↦ elim (number s1) [
    | none ↦ none
    | some (n, s2) ↦ elim (behind e s2) [ none ↦ none | some s3 ↦ some (n, s3) ]
  ]
]

abbrev pub or_try {ℓ} : {A : Type ℓ} → Option A → Option A → Option A
or_try none o = o
or_try (some a) o = some a

-- `.*?`, which ends with its line: the first place at which the rest matches.
unfoldable pub lazily : (List ℕ → Option ℕ) → List ℕ → Option ℕ
lazily f [] = f []
lazily f (c ∷ s) = let later = lazily f s in or_try (f (c ∷ s)) (if eqb c 10 then none else later)

abbrev pub first_of : Option (ℕ × List ℕ) → Option ℕ
first_of none = none
first_of (some (n, rest)) = some n

-- `context(?: window)? \((\d+)\)`
unfoldable pub strata_context : List ℕ → Option ℕ
unfolding marked
strata_context s = first_of (
    or_try (marked (codes "context window (") (codes ")") s)
      (marked (codes "context (") (codes ")") s))

-- `context (?:size|window) \((\d+)`
unfoldable pub llama_context : List ℕ → Option ℕ
unfolding marked
llama_context s =
    first_of
      (or_try (marked (codes "context size (") [] s) (marked (codes "context window (") [] s))

abbrev pub paired : (List ℕ → Option ℕ) → Option (ℕ × List ℕ) → Option (ℕ × ℕ)
paired f none = none
paired f (some (n, rest)) = elim (lazily f rest) [ none ↦ none | some m ↦ some (n, m) ]

-- A match of each pattern at the start of a text.
unfoldable pub strata_match : List ℕ → Option (ℕ × ℕ)
unfolding marked strata_context
strata_match s = paired strata_context (marked (codes "prompt (") (codes " tokens)") s)

unfoldable pub llama_match : List ℕ → Option (ℕ × ℕ)
unfolding marked llama_context
llama_match s = paired llama_context (
    or_try (marked (codes "input (") (codes " tokens)") s)
      (marked (codes "request (") (codes " tokens)") s))

-- `pattern.search`: the first place of a match.
unfoldable pub search_in : (List ℕ → Option (ℕ × ℕ)) → List ℕ → Option (ℕ × ℕ)
search_in f [] = f []
search_in f (c ∷ s) = let later = search_in f s in or_try (f (c ∷ s)) later

unfoldable pub overflow_info : List ℕ → Option (ℕ × ℕ)
unfolding search_in strata_match llama_match
overflow_info s = or_try (search_in strata_match s) (search_in llama_match s)
