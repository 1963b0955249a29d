-- ===== src/Reconcile/Lines.antt =====
-- The lines of a stream of bytes, the last one with its end or without (app/tool_reconcile.py,
-- `StreamReconciler.feed` and `finish`).
use mathlib.Core.List.{append_assoc}
use llamaswap.Base.{ℕ, false, List, [], ◌∷◌, ◌++◌, eqb, ◌≡◌, refl, ap, Bool-cases, inl, inr}
use llamaswap.Tokens.Meter.{split_lines, put_byte}
use llamaswap.Tokens.Chunks.{split_more}

-- The line that has not ended, if there is one.
abbrev pub open_line : List ℕ → List (List ℕ)
open_line [] = []
open_line (c ∷ rest) = (c ∷ rest) ∷ []

-- The lines of a stream, the last one with its end or without.
abbrev pub lines_of : List ℕ → List (List ℕ)
lines_of bytes = (split_lines bytes).0 ++ open_line (split_lines bytes).1

abbrev pub IsOpen : List ℕ → Type 0
IsOpen rest = split_lines rest ≡ ([], rest)

put-IsOpen :
    (c : ℕ) (p : List (List ℕ) × List ℕ) → eqb c 10 ≡ false → IsOpen p.1 → IsOpen (put_byte c p).1
unfolding split_lines put_byte
put-IsOpen c ([], rest) inside h = rw inside (ap (put_byte c) h)
put-IsOpen c (l ∷ ls, rest) inside h = h

pub rest-IsOpen : (bytes : List ℕ) → IsOpen (split_lines bytes).1
unfolding split_lines put_byte
rest-IsOpen [] = refl
rest-IsOpen (c ∷ bytes) = elim (Bool-cases (eqb c 10)) [
  | inl newline ↦ rw newline (rest-IsOpen bytes)
  | inr inside ↦ rw inside (put-IsOpen c (split_lines bytes) inside (rest-IsOpen bytes))
]

-- The lines of a stream in two parts.
pub lines_of-more :
    (xs ys : List ℕ)
    → lines_of (xs ++ ys) ≡ (split_lines xs).0 ++ lines_of ((split_lines xs).1 ++ ys)
lines_of-more xs ys = rw (split_more xs ys) (
    append_assoc (split_lines xs).0 (split_lines ((split_lines xs).1 ++ ys)).0
      (open_line (split_lines ((split_lines xs).1 ++ ys)).1))

pub lines_of-open : (rest : List ℕ) → IsOpen rest → lines_of rest ≡ open_line rest
lines_of-open rest h = ap (λ p. p.0 ++ open_line p.1) h
