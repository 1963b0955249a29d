-- ===== src/Trim/Laws.antt =====
-- The results of `trim_messages` (app/proxy.py).
use llamaswap.Base.{
  ℕ, ◌≡◌, refl, ◌⊎◌, inl, ◌↔◌, Option, none, some, List, [], ◌∷◌, length, take, arith,
}
use llamaswap.Json.{Json, arr, Items, Fields, get_field, put_field, to_list, of_list}
use llamaswap.Trim.Messages.{
  droppable, needed, cut, spliced, splice, trim_list, trim_value, trim_messages,
}
use llamaswap.Trim.Groups.{turn_groups}
use llamaswap.Trim.Cut.{IsCutOf, cut-IsCutOf, cut-none_iff}
use llamaswap.Trim.Least.{IsLeast, end_of, least_of}

-- A trimmed body, with the messages it was made from and the cut.
pub record IsTrimmed (body : Fields) (prompt ctx margin : ℕ) (out : Fields) (n : ℕ) : Type 0 where
  pub xs : Items
  pub keep_from : ℕ
  pub groups : ℕ
  pub had_messages : get_field body "messages" ≡ some (arr xs)
  pub cuts : IsCutOf (to_list xs) keep_from n
  pub least :
      IsLeast (to_list xs) (needed (to_list xs) prompt ctx margin) (droppable (to_list xs)) 0 groups
  pub ends : keep_from ≡ end_of (length (to_list xs)) (take groups (droppable (to_list xs)))
  pub body_of : out ≡ put_field body "messages" (arr (of_list (spliced (to_list xs) keep_from n)))

-- The cut that `trim_list` made.
splice-some :
    (body : Fields) (ms : List Json) (c : Option (ℕ × ℕ)) (out : Fields) (n : ℕ)
    → splice body ms c ≡ some (out, n)
    → (keep_from : ℕ) × (c ≡ some (keep_from, n))
      × (out ≡ put_field body "messages" (arr (of_list (spliced ms keep_from n))))
unfolding splice
splice-some body ms none out n h = cc
splice-some body ms (some (k, d)) out n h = (k, ground arith, ground arith)

list_IsTrimmed :
    (body : Fields) (xs : Items) (ms : List Json) (prompt ctx margin : ℕ) (out : Fields) (n : ℕ)
    → to_list xs ≡ ms
    → get_field body "messages" ≡ some (arr xs)
    → trim_list body ms prompt ctx margin ≡ some (out, n)
    → IsTrimmed body prompt ctx margin out n
unfolding trim_list
list_IsTrimmed body xs [] prompt ctx margin out n same g h = cc
list_IsTrimmed body xs (m ∷ ms) prompt ctx margin out n same g h =
    let need = needed (m ∷ ms) prompt ctx margin in
    let (keep_from, c, o) = splice-some body (m ∷ ms) _ out n h in
    let (groups, l, e) = least_of (m ∷ ms) need keep_from n (droppable (m ∷ ms)) c in
    record {
      xs = xs;
      keep_from = keep_from;
      groups = groups;
      had_messages = g;
      cuts = rw same (cut-IsCutOf (m ∷ ms) need keep_from n c);
      least = rw same l;
      ends = rw same e;
      body_of = rw same o;
    }

value_IsTrimmed :
    (body : Fields) (v : Option Json) (prompt ctx margin : ℕ) (out : Fields) (n : ℕ)
    → get_field body "messages" ≡ v
    → trim_value body v prompt ctx margin ≡ some (out, n)
    → IsTrimmed body prompt ctx margin out n
unfolding trim_value
value_IsTrimmed body (some (arr xs)) prompt ctx margin out n g h =
    list_IsTrimmed body xs (to_list xs) prompt ctx margin out n refl g h
value_IsTrimmed body _ prompt ctx margin out n g h = cc

-- Where a body is trimmed, it is the old body with other messages: the leading system block, a
-- marker with the count, and everything from the cut on. The cut removes at least one message,
-- spares the last one, splits no turn, and lies behind the fewest of the oldest droppable turns
-- that free what is needed, or behind all of them.
pub trim_messages-IsTrimmed :
    (body : Fields) (prompt ctx margin : ℕ) (out : Fields) (n : ℕ)
    → trim_messages body prompt ctx margin ≡ some (out, n)
    → IsTrimmed body prompt ctx margin out n
unfolding trim_messages
trim_messages-IsTrimmed body prompt ctx margin out n h =
    value_IsTrimmed body (get_field body "messages") prompt ctx margin out n refl h

splice-none :
    (body : Fields) (ms : List Json) (c : Option (ℕ × ℕ)) → (splice body ms c ≡ none) ↔ (c ≡ none)
unfolding splice
splice-none body ms none = (λ _. refl, λ _. refl)
splice-none body ms (some (k, d)) = (λ h. cc, λ h. cc)

list_none :
    (body : Fields) (ms : List Json) (prompt ctx margin : ℕ)
    → (trim_list body ms prompt ctx margin ≡ none)
      ↔ ((droppable ms ≡ []) ⊎ (needed ms prompt ctx margin ≡ 0))
unfolding trim_list
list_none body [] prompt ctx margin = (λ _. inl (unfold droppable turn_groups in refl), λ _. refl)
list_none body (m ∷ ms) prompt ctx margin =
    let s =
      splice-none body (m ∷ ms)
        (cut (m ∷ ms) (needed (m ∷ ms) prompt ctx margin) (droppable (m ∷ ms))) in
    let c = cut-none_iff (m ∷ ms) (needed (m ∷ ms) prompt ctx margin) in
    (λ h. c.0 (s.0 h), λ h. s.1 (c.1 h))

-- A body that carries a list of messages is left alone exactly where no turn lies between the
-- system block and the last message, or the larger of the two counts fits the window less the
-- margin.
pub trim_messages-none_iff :
    (body : Fields) (xs : Items) (prompt ctx margin : ℕ)
    → get_field body "messages" ≡ some (arr xs)
    → (trim_messages body prompt ctx margin ≡ none)
      ↔ ((droppable (to_list xs) ≡ []) ⊎ (needed (to_list xs) prompt ctx margin ≡ 0))
unfolding trim_messages
trim_messages-none_iff body xs prompt ctx margin h =
    rw h (unfold trim_value in list_none body (to_list xs) prompt ctx margin)
