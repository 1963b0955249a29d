-- ===== src/Trim/Least.antt =====
-- How much `trim_messages` drops (app/proxy.py).
use llamaswap.Base.{
  ℕ, zero, suc, ◌+◌, ◌≤◌, ◌<◌, ◌≡◌, refl, ◌⊎◌, inl, inr, List, [], ◌∷◌, Bool-cases, length, take,
  arith, leb, some, ◌∙◌,
}
use llamaswap.Json.{Json}
use llamaswap.Trim.Messages.{last_of, group_tokens, drop_groups, cut}

unfoldable pub tokens_of : List Json → List (List ℕ) → ℕ
tokens_of ms [] = 0
tokens_of ms (g ∷ gs) = group_tokens ms g + tokens_of ms gs

-- The first index behind the groups, or `start` where there is none.
unfoldable pub end_of : ℕ → List (List ℕ) → ℕ
end_of start [] = start
end_of start (g ∷ gs) = end_of (suc (last_of g)) gs

-- `k` of the groups go, `dropped` having gone before: they free what is needed or are all there
-- are, and one fewer would not have been enough.
pub record IsLeast (ms : List Json) (need : ℕ) (gs : List (List ℕ)) (dropped k : ℕ) : Type 0 where
  pub at_most : k ≤ length gs
  pub enough : (need ≤ dropped + tokens_of ms (take k gs)) ⊎ (k ≡ length gs)
  pub fewer : (j : ℕ) → j < k → dropped + tokens_of ms (take j gs) < need

IsLeast-suc :
    (ms : List Json) (need : ℕ) (g : List ℕ) (gs : List (List ℕ)) (dropped k : ℕ)
    → dropped < need
    → IsLeast ms need gs (dropped + group_tokens ms g) k
    → IsLeast ms need (g ∷ gs) dropped (suc k)
unfolding tokens_of
IsLeast-suc ms need g gs dropped k lt h = record {
  at_most = omega arith;
  enough = ground arith;
  fewer = elim [ zero ↦ λ j. omega arith | suc j ↦ λ lt'. omega (arith, h.fewer j) ];
}

drop_groups-least :
    (ms : List Json) (need : ℕ) (gs : List (List ℕ)) (dropped start : ℕ)
    → (k : ℕ) × IsLeast ms need gs dropped k
      × ((drop_groups ms need gs dropped start).1 ≡ end_of start (take k gs))
unfolding drop_groups tokens_of end_of
drop_groups-least ms need [] dropped start = (
  0,
  record { at_most = omega arith; enough = inr refl; fewer = λ j h. absurd (omega arith) },
  refl,
)
drop_groups-least ms need (g ∷ gs) dropped start = elim (Bool-cases (leb need dropped)) [
  | inl full ↦ (
    0,
    record {
      at_most = omega arith;
      enough = inl (ground arith);
      fewer = λ j h. absurd (omega arith);
    },
    rw full,
  )
  | inr more ↦
      let (k, h, e) =
        drop_groups-least ms need gs (dropped + group_tokens ms g) (suc (last_of g)) in
      (suc k, IsLeast-suc ms need g gs dropped k (ground arith) h, rw more e)
]

pub least_of :
    (ms : List Json) (need keep_from n : ℕ) (gs : List (List ℕ))
    → cut ms need gs ≡ some (keep_from, n)
    → (k : ℕ) × IsLeast ms need gs 0 k × (keep_from ≡ end_of (length ms) (take k gs))
unfolding cut
least_of ms need keep_from n [] h = cc
least_of ms need keep_from n (g ∷ gs) h =
    let (k, least, ends) = drop_groups-least ms need (g ∷ gs) 0 (length ms) in
    let same : keep_from ≡ (drop_groups ms need (g ∷ gs) 0 (length ms)).1 = ground arith in
    (k, least, same ∙ ends)
