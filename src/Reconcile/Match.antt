-- ===== src/Reconcile/Match.antt =====
-- The declared tool that a written name means (app/tool_reconcile.py, `_norm` and `match_name`;
-- difflib's ratio for texts below 200 characters, where no character counts as junk). Texts are
-- ASCII.
use llamaswap.Base.{
  ℕ, zero, suc, ◌+◌, ◌*◌, String, Bool, ◌||◌, Option, none, some, List, [], ◌∷◌, leb, ltb, eqb,
  if◌then◌else◌, keep, take, drop, length, codes, ends_with, alnum_only, lower, ◌==◌, string_key,
}

pub data Outcome : Type 0 where
  reconciled ambiguous unmatched : Outcome

unfoldable pub norm : String → String
unfolding lower alnum_only
norm name = alnum_only (lower name)

-- A block that two texts share: where it starts in each, and its size.
pub record Match : Type 0 where
  pub a_start : ℕ
  pub b_start : ℕ
  pub size : ℕ

unfoldable pub common_prefix : List ℕ → List ℕ → ℕ
common_prefix (x ∷ xs) (y ∷ ys) = let more = common_prefix xs ys in if eqb x y then suc more else 0
common_prefix xs ys = 0

-- The longest block wins, the earliest in `a` among those, and then the earliest in `b`.
abbrev larger : Match → Match → Match
larger old new = if ltb old.size new.size then new else old

unfoldable pub longest_at : ℕ → ℕ → List ℕ → List ℕ → Match → Match
unfolding common_prefix
longest_at i j xs [] best = best
longest_at i j xs (y ∷ ys) best =
    longest_at i (suc j) xs ys
      (larger best (record { a_start = i; b_start = j; size = common_prefix xs (y ∷ ys) }))

unfoldable pub longest_from : ℕ → List ℕ → List ℕ → Match → Match
unfolding longest_at
longest_from i [] ys best = best
longest_from i (x ∷ xs) ys best = longest_from (suc i) xs ys (longest_at i 0 (x ∷ xs) ys best)

unfoldable pub find_longest_match : List ℕ → List ℕ → Match
unfolding longest_from
find_longest_match xs ys = longest_from 0 xs ys (record { a_start = 0; b_start = 0; size = 0 })

-- The sizes of the matching blocks, left and right of the longest one too. Each round takes a
-- character of `xs` at least, so its length is fuel enough.
unfoldable pub matched : ℕ → List ℕ → List ℕ → ℕ
unfolding find_longest_match
matched zero xs ys = 0
matched (suc fuel) xs ys =
    let m = find_longest_match xs ys in
    let around =
      m.size
      + matched fuel (take m.a_start xs) (take m.b_start ys)
      + matched fuel (drop (m.a_start + m.size) xs) (drop (m.b_start + m.size) ys) in
    if eqb m.size 0 then 0 else around

-- `min_ratio` as a fraction.
pub record Ratio : Type 0 where
  pub num : ℕ
  pub den : ℕ

-- `SequenceMatcher(None, a, b).ratio() >= min_ratio`; two empty texts have the ratio 1.
unfoldable pub is_similar : Ratio → String → String → Bool
unfolding matched
is_similar r a b =
    let total = length (codes a) + length (codes b) in
    if eqb total 0
    then leb r.num r.den
    else leb (r.num * total) (2 * matched (length (codes a)) (codes a) (codes b) * r.den)

abbrev pub is_exact : String → String → Bool
unfolding norm
is_exact target d = norm d == target

-- `target.endswith(_norm(d)) or _norm(d).endswith(target)`
abbrev pub fits : String → String → Bool
fits target d = ends_with (norm d) target || ends_with target (norm d)

abbrev pub is_near : Ratio → String → String → Bool
is_near r target d = is_similar r (norm d) target

unfoldable pub by_ratio : List String → Option String × Outcome
by_ratio [] = (none, unmatched)
by_ratio (d ∷ []) = (some d, reconciled)
by_ratio (d ∷ e ∷ good) = (none, ambiguous)

-- One fit is it, several are ambiguous, and none leaves the ratio to decide.
unfoldable pub by_fit : List String → List String → Option String × Outcome
unfolding by_ratio
by_fit [] good = by_ratio good
by_fit (d ∷ []) good = (some d, reconciled)
by_fit (d ∷ e ∷ more) good = (none, ambiguous)

unfoldable pub by_name : List String → List String → List String → Option String × Outcome
unfolding by_fit
by_name (d ∷ []) fit good = (some d, reconciled)
by_name [] fit good = by_fit fit good
by_name (d ∷ e ∷ more) fit good = by_fit fit good

unfoldable pub match_name : Ratio → String → List String → Option String × Outcome
unfolding norm by_name
match_name r name declared =
    if norm name == ""
    then (none, unmatched)
    else by_name (keep (is_exact (norm name)) declared) (keep (fits (norm name)) declared)
        (keep (is_near r (norm name)) declared)
