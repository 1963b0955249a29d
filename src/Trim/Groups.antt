-- ===== src/Trim/Groups.antt =====
-- The indivisible removal units of a conversation (app/proxy.py, `_turn_groups`).
use native.Mathlib.Nat.{add-zero, zero-add, suc-add}
use llamaswap.Base.{
  ℕ, zero, suc, ◌+◌, ◌-◌, ◌≤◌, ◌≡◌, ap, ◌∙◌, Bool, not, ◌&&◌, List, [], ◌∷◌, ◌++◌, arith, length,
  drop, length-drop, if◌then◌else◌,
}
use llamaswap.Json.{Json, lookup, truthy, is_obj, is_text}

-- `isinstance(m, dict) and m.get("role") == "tool"`
abbrev pub is_tool : Json → Bool
is_tool m = is_obj m && is_text (lookup m "role") "tool"

-- The test under which a message takes the tool messages behind it.
abbrev pub opens_turn : Json → Bool
unfolding truthy
opens_turn m =
    is_obj m && (truthy (lookup m "tool_calls") && not (is_text (lookup m "role") "tool"))

-- How many tool messages stand in front: the inner `while`.
unfoldable pub tool_run : List Json → ℕ
tool_run [] = 0
tool_run (m ∷ ms) = if is_tool m then suc (tool_run ms) else 0

-- `[i, i + 1, ...]` of `n` entries.
abbrev pub range : ℕ → ℕ → List ℕ
range i zero = []
range i (suc n) = i ∷ range (suc i) n

-- How many messages behind `m` belong to its group.
unfoldable pub followers : Json → List Json → ℕ
unfolding tool_run
followers m ms = if opens_turn m then tool_run ms else 0

-- The outer `while`, a round for each group; the fuel is the number of messages left.
unfoldable pub groups_from : ℕ → ℕ → List Json → List (List ℕ)
unfolding followers
groups_from zero i ms = []
groups_from (suc fuel) i [] = []
groups_from (suc fuel) i (m ∷ ms) =
    range i (suc (followers m ms))
    ∷ groups_from fuel (i + suc (followers m ms)) (drop (followers m ms) ms)

unfoldable pub turn_groups : List Json → List (List ℕ)
unfolding groups_from
turn_groups ms = groups_from (length ms) 0 ms

-- The groups follow one another from `i` to `n`, each a run of indices.
pub data Chain : ℕ → ℕ → List (List ℕ) → Type 0 where
  done : {i n : ℕ} → i ≡ n → Chain i n []
  link :
      {i n : ℕ} {gs : List (List ℕ)} (k : ℕ)
      → Chain (i + suc k) n gs
      → Chain i n (range i (suc k) ∷ gs)

tool_run-le : (ms : List Json) → tool_run ms ≤ length ms
unfolding tool_run
tool_run-le [] = omega arith
tool_run-le (m ∷ ms) = ground (arith, tool_run-le ms)

followers-le : (m : Json) (ms : List Json) → followers m ms ≤ length ms
unfolding followers
followers-le m ms = ground (arith, tool_run-le ms)

groups_from-Chain :
    (fuel i n : ℕ) (ms : List Json)
    → length ms ≤ fuel
    → n ≡ i + length ms
    → Chain i n (groups_from fuel i ms)
unfolding groups_from
groups_from-Chain zero i n [] h e = done (omega arith)
groups_from-Chain zero i n (m ∷ ms) h e = absurd (omega arith)
groups_from-Chain (suc fuel) i n [] h e = done (omega arith)
groups_from-Chain (suc fuel) i n (m ∷ ms) h e = link (followers m ms) (
    groups_from-Chain fuel (i + suc (followers m ms)) n (drop (followers m ms) ms)
      (omega (arith, length-drop (followers m ms) ms, followers-le m ms))
      (omega (arith, length-drop (followers m ms) ms, followers-le m ms)))

pub turn_groups-Chain : (ms : List Json) → Chain 0 (length ms) (turn_groups ms)
unfolding turn_groups
turn_groups-Chain ms = groups_from-Chain (length ms) 0 (length ms) ms (omega arith) (omega arith)

abbrev pub concat {ℓ} : {A : Type ℓ} → List (List A) → List A
concat [] = []
concat (g ∷ gs) = g ++ concat gs

range-append : (i a b : ℕ) → range i a ++ range (i + a) b ≡ range i (a + b)
range-append i zero b = rw (add-zero, zero-add)
range-append i (suc a) b =
    let e : i + suc a ≡ suc i + a = omega arith in
    rw (suc-add, e) (ap (λ r. i ∷ r) (range-append (suc i) a b))

pub Chain-concat :
    {i n : ℕ} {gs : List (List ℕ)} → Chain i n gs → (i ≤ n) × (concat gs ≡ range i (n - i))
Chain-concat {i} {n} (done e) = let z : n - i ≡ 0 = omega arith in (omega arith, rw z)
Chain-concat {i} {n} (link k c) =
    let (le, eq) = Chain-concat c in
    (
      omega arith,
      ap (λ r. range i (suc k) ++ r) eq
          ∙ range-append i (suc k) (n - (i + suc k))
          ∙ ap (range i) (omega arith),
    )

-- Every message belongs to exactly one group, and the groups keep the order of the messages: one
-- after the other, the groups are the indices of the messages.
pub turn_groups-partition : (ms : List Json) → concat (turn_groups ms) ≡ range 0 (length ms)
turn_groups-partition ms = (Chain-concat (turn_groups-Chain ms)).1 ∙ ap (range 0) (omega arith)
