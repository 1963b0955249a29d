-- ===== src/Trim/Cut.antt =====
-- Where `trim_messages` cuts (app/proxy.py).
use llamaswap.Base.{
  eqb, subst, ◌≢◌, ◌&&◌, ℕ, zero, suc, ◌+◌, ◌≤◌, ◌<◌, ◌≡◌, refl, ◌⊎◌, inl, inr, ◌↔◌, Bool, true,
  none, some, List, [], ◌∷◌, length, keep, All, arith, leb, ltb, Bool-cases, sym,
}
use llamaswap.Json.{Json}
use llamaswap.Trim.Groups.{turn_groups, turn_groups-Chain, Chain, link, range}
use llamaswap.Trim.Messages.{
  keep_head, first_of, last_of, tail_start, droppable, group_tokens, drop_groups, cut,
}

-- A cut at `b` splits no group.
abbrev pub Between : ℕ → List (List ℕ) → Type 0
Between b gs = All (λ g. (last_of g < b) ⊎ (b ≤ first_of g)) gs

last_of-range : (i k : ℕ) → last_of (range i (suc k)) ≡ i + k
last_of-range i zero = omega arith
last_of-range i (suc k) = omega (arith, last_of-range (suc i) k)

All-keep {ℓ} :
    {A : Type ℓ} (P : A → Type 0) (p : A → Bool) (xs : List A)
    → All P xs
    → All (λ x. P x × (p x ≡ true)) (keep p xs)
All-keep P p [] h = tt
All-keep P p (x ∷ xs) h = ground (arith, All-keep P p xs h.1)

All-map {ℓ} :
    {A : Type ℓ} (P Q : A → Type 0) → ((x : A) → P x → Q x) → (xs : List A) → All P xs → All Q xs
All-map P Q f [] h = tt
All-map P Q f (x ∷ xs) h = (f x h.0, All-map P Q f xs h.1)

All-both {ℓ} :
    {A : Type ℓ} (P Q R : A → Type 0)
    → ((x : A) → P x → Q x → R x)
    → (xs : List A) → All P xs
    → All Q xs
    → All R xs
All-both P Q R f [] h k = tt
All-both P Q R f (x ∷ xs) h k = (f x h.0 k.0, All-both P Q R f xs h.1 k.1)

-- Behind the first group of a chain every group starts later.
Chain-above :
    {i n : ℕ} {gs : List (List ℕ)} → Chain i n gs → (b : ℕ) → b ≤ i → All (λ g. b ≤ first_of g) gs
Chain-above (Chain.done e) b h = tt
Chain-above (link k c) b h = (h, Chain-above c b (omega arith))

abbrev IsCut : List (List ℕ) → List ℕ → Type 0
IsCut gs g = (first_of g ≤ last_of g) × Between (suc (last_of g)) gs

-- The end of each group of a chain splits no group of it.
Chain-IsCut : {i n : ℕ} {gs : List (List ℕ)} → Chain i n gs → All (IsCut gs) gs
Chain-IsCut (Chain.done e) = tt
Chain-IsCut {i} (link {gs = gs} k c) =
    let g₀ = range i (suc k) in
    let above = Chain-above c (i + suc k) (omega arith) in
    (
      (
        omega (arith, last_of-range i k),
        (
          inl (omega arith),
          All-map (λ g. i + suc k ≤ first_of g)
              (λ g. (last_of g < suc (last_of g₀)) ⊎ (suc (last_of g₀) ≤ first_of g))
              (λ g h. inr (omega (arith, last_of-range i k))) gs above,
        ),
      ),
      All-both (λ g. i + suc k ≤ first_of g) (IsCut gs) (IsCut (g₀ ∷ gs))
          (λ g h c'. (c'.0, (inl (omega (arith, last_of-range i k)), c'.1))) gs above
          (Chain-IsCut c),
    )

-- The loop ends at the end of one of the groups.
drop_groups-ends :
    (Q : ℕ → Type 0) (ms : List Json) (need : ℕ) (gs : List (List ℕ)) (dropped keep_from : ℕ)
    → All (λ g. Q (suc (last_of g))) gs
    → Q keep_from
    → Q (drop_groups ms need gs dropped keep_from).1
unfolding drop_groups
drop_groups-ends Q ms need [] dropped keep_from h q = q
drop_groups-ends Q ms need (g ∷ gs) dropped keep_from h q = elim (Bool-cases (leb need dropped)) [
  | inl enough ↦ rw enough q
  | inr more ↦
      rw more
        (drop_groups-ends Q ms need gs (dropped + group_tokens ms g) (suc (last_of g)) h.1 h.0)
]

-- Every droppable group lies behind the system block, ends before the last message, and may be
-- the last one dropped.
droppable-IsCut :
    (ms : List Json)
    → All
        (λ g.
          (keep_head ms < suc (last_of g))
          × (suc (last_of g) ≤ tail_start ms)
          × Between (suc (last_of g)) (turn_groups ms))
        (droppable ms)
unfolding droppable
droppable-IsCut ms =
    All-map
      (λ g.
        IsCut (turn_groups ms) g
        × ((leb (keep_head ms) (first_of g) && ltb (last_of g) (tail_start ms)) ≡ true))
      _ (λ g h. (ground arith, ground arith, h.0.1)) (droppable ms)
      (All-keep (IsCut (turn_groups ms)) _ (turn_groups ms) (Chain-IsCut (turn_groups-Chain ms)))

-- A cut at `keep_from` removes `n` messages from behind the system block, spares the last
-- message, and falls between two groups.
pub record IsCutOf (ms : List Json) (keep_from n : ℕ) : Type 0 where
  pub removes : 0 < n
  pub from_head : keep_from ≡ keep_head ms + n
  pub spares_last : keep_from < length ms
  pub whole_turns : Between keep_from (turn_groups ms)

abbrev MayCut : List Json → ℕ → Type 0
MayCut ms b = (keep_head ms < b) × (b ≤ tail_start ms) × Between b (turn_groups ms)

-- With something to drop, the first group goes.
cut-MayCut :
    (ms : List Json) (need : ℕ) (g : List ℕ) (gs : List (List ℕ))
    → All (λ g. MayCut ms (suc (last_of g))) (g ∷ gs)
    → need ≢ 0
    → MayCut ms (drop_groups ms need (g ∷ gs) 0 (length ms)).1
unfolding drop_groups
cut-MayCut ms need g gs h pos = elim (Bool-cases (leb need 0)) [
  | inl enough ↦ absurd (pos (ground arith))
  | inr more ↦
      rw more
        (drop_groups-ends (MayCut ms) ms need gs (0 + group_tokens ms g) (suc (last_of g)) h.1 h.0)
]

cut_of :
    (ms : List Json) (need keep_from n : ℕ) (gs : List (List ℕ))
    → All (λ g. MayCut ms (suc (last_of g))) gs
    → cut ms need gs ≡ some (keep_from, n)
    → IsCutOf ms keep_from n
unfolding cut
cut_of ms need keep_from n [] h e = cc
cut_of ms need keep_from n (g ∷ gs) h e =
    let b = (drop_groups ms need (g ∷ gs) 0 (length ms)).1 in
    let pos : need ≢ 0 = ground arith in
    let m : MayCut ms b = cut-MayCut ms need g gs h pos in
    let same : keep_from ≡ b = ground arith in
    record {
      removes = ground arith;
      from_head = ground arith;
      spares_last = ground arith;
      whole_turns = subst (λ k. Between k (turn_groups ms)) (sym same) m.2;
    }

pub cut-IsCutOf :
    (ms : List Json) (need keep_from n : ℕ)
    → cut ms need (droppable ms) ≡ some (keep_from, n)
    → IsCutOf ms keep_from n
cut-IsCutOf ms need keep_from n h = cut_of ms need keep_from n (droppable ms) (droppable-IsCut ms) h

cut_some :
    (ms : List Json) (need : ℕ) (g : List ℕ) (gs : List (List ℕ))
    → All (λ g. MayCut ms (suc (last_of g))) (g ∷ gs)
    → need ≢ 0
    → cut ms need (g ∷ gs) ≢ none
unfolding cut
cut_some ms need g gs h pos e =
    let m : MayCut ms (drop_groups ms need (g ∷ gs) 0 (length ms)).1 =
      cut-MayCut ms need g gs h pos in
    ground arith

none_of :
    (ms : List Json) (need : ℕ) (gs : List (List ℕ))
    → (gs ≡ []) ⊎ (need ≡ 0)
    → cut ms need gs ≡ none
unfolding cut
none_of ms need [] h = refl
none_of ms need (g ∷ gs) h = ground arith

of_none :
    (ms : List Json) (need : ℕ) (gs : List (List ℕ))
    → All (λ g. MayCut ms (suc (last_of g))) gs
    → cut ms need gs ≡ none
    → (gs ≡ []) ⊎ (need ≡ 0)
of_none ms need [] h e = inl refl
of_none ms need (g ∷ gs) h e = elim (Bool-cases (eqb need 0)) [
  | inl zero_need ↦ inr (ground arith)
  | inr some_need ↦ absurd (cut_some ms need g gs h (ground arith) e)
]

-- Nothing is cut exactly where no group may go or none has to.
pub cut-none_iff :
    (ms : List Json) (need : ℕ)
    → (cut ms need (droppable ms) ≡ none) ↔ ((droppable ms ≡ []) ⊎ (need ≡ 0))
cut-none_iff ms need =
    (of_none ms need (droppable ms) (droppable-IsCut ms), none_of ms need (droppable ms))
