-- ===== src/Reconcile/Indices.antt =====
-- The indices of the calls in a stream (app/tool_reconcile.py, `StreamReconciler._route` and
-- `_synthesized`).
use llamaswap.Base.{
  ℕ, suc, ◌+◌, ◌<◌, ◌≤◌, String, Option, none, some, List, [], ◌∷◌, ◌++◌, All, ◌≡◌, refl, sym, ap,
  arith, Bool, true, false, Option-cases, inl, inr, max,
}
use llamaswap.Json.{Json, int, pos, obj, Fields, lookup, get_field, null, bool, float, str, arr}
use llamaswap.Tokens.Meter.{iterated}
use llamaswap.Reconcile.Match.{Ratio, match_name}
use llamaswap.Reconcile.Rejected.{call_name}
use llamaswap.Reconcile.Apply.{chosen}
use llamaswap.Reconcile.Stream.{
  State, Kind, plain, mark, event, kind_of, holds, route, place, route_event, route_lines,
  read_choice, read_delta, read_choices, after_calls, index_of,
}
use llamaswap.Reconcile.Finish.{delta_calls}

-- The calls of a delta count by their index, which is 0 where they name none.
abbrev pub indices_of : List Json → List ℕ
indices_of [] = []
indices_of (obj call ∷ calls) = index_of (lookup (obj call) "index") ∷ indices_of calls
indices_of (call ∷ calls) = indices_of calls

abbrev pub listed_indices : Option (List Json) → List ℕ
listed_indices none = []
listed_indices (some calls) = indices_of calls

abbrev pub delta_indices : Json → List ℕ
delta_indices (obj delta) = listed_indices (iterated (lookup (obj delta) "tool_calls"))
delta_indices v = []

abbrev pub choice_indices : Json → List ℕ
choice_indices choice = delta_indices (lookup choice "delta")

abbrev pub choices_indices : List Json → List ℕ
choices_indices [] = []
choices_indices (choice ∷ choices) = choice_indices choice ++ choices_indices choices

abbrev Below : ℕ → List ℕ → Type 0
Below n is = All (λ i. i < n) is

Below-le : (m n : ℕ) (is : List ℕ) → m ≤ n → Below m is → Below n is
Below-le m n [] le h = tt
Below-le m n (i ∷ is) le h = (omega arith, Below-le m n is le h.1)

Below-append : (n : ℕ) (is js : List ℕ) → Below n is → Below n js → Below n (is ++ js)
Below-append n [] js h k = k
Below-append n (i ∷ is) js h k = (h.0, Below-append n is js h.1 k)

after_calls-le : (calls : List Json) (n : ℕ) → n ≤ after_calls calls n
unfolding after_calls
after_calls-le [] n = omega arith
after_calls-le (obj call ∷ calls) n =
    omega (arith, after_calls-le calls (max n (index_of (lookup (obj call) "index") + 1)))
after_calls-le (null ∷ calls) n = after_calls-le calls n
after_calls-le (bool b ∷ calls) n = after_calls-le calls n
after_calls-le (int i ∷ calls) n = after_calls-le calls n
after_calls-le (float x ∷ calls) n = after_calls-le calls n
after_calls-le (str s ∷ calls) n = after_calls-le calls n
after_calls-le (arr xs ∷ calls) n = after_calls-le calls n

after_calls-Below : (calls : List Json) (n : ℕ) → Below (after_calls calls n) (indices_of calls)
unfolding after_calls
after_calls-Below [] n = tt
after_calls-Below (obj call ∷ calls) n =
    let m = max n (index_of (lookup (obj call) "index") + 1) in
    (omega (arith, after_calls-le calls m), after_calls-Below calls m)
after_calls-Below (null ∷ calls) n = after_calls-Below calls n
after_calls-Below (bool b ∷ calls) n = after_calls-Below calls n
after_calls-Below (int i ∷ calls) n = after_calls-Below calls n
after_calls-Below (float x ∷ calls) n = after_calls-Below calls n
after_calls-Below (str s ∷ calls) n = after_calls-Below calls n
after_calls-Below (arr xs ∷ calls) n = after_calls-Below calls n

-- What a reading leaves: no index that it met is at or above the next one, which only grows.
abbrev Read : List ℕ → ℕ → Option (String × ℕ) → Type 0
Read is n none = Unit
Read is n (some (text, m)) = (n ≤ m) × Below m is

read_delta-Read :
    (delta : Json) (text : String) (n : ℕ)
    → Read (delta_indices delta) n (read_delta delta (text, n))
unfolding read_delta
read_delta-Read (obj delta) text n =
    elim (Option-cases (iterated (lookup (obj delta) "tool_calls"))) [
      | inl raises ↦ rw (raises, read_delta) tt
      | inr (calls, listed) ↦
          rw (listed, read_delta) (after_calls-le calls n, after_calls-Below calls n)
    ]
read_delta-Read null text n = (omega arith, tt)
read_delta-Read (bool b) text n = (omega arith, tt)
read_delta-Read (int i) text n = (omega arith, tt)
read_delta-Read (float x) text n = (omega arith, tt)
read_delta-Read (str s) text n = (omega arith, tt)
read_delta-Read (arr xs) text n = (omega arith, tt)

-- Two readings in turn.
Read-append :
    (is js : List ℕ) (n m : ℕ) (o : Option (String × ℕ))
    → (n ≤ m) × Below m is
    → Read js m o
    → Read (is ++ js) n o
Read-append is js n m none h k = tt
Read-append is js n m (some (text, l)) h k =
    (omega arith, Below-append l is js (Below-le m l is k.0 h.1) k.1)

read_choices-Read :
    (choices : List Json) (text : String) (n : ℕ)
    → Read (choices_indices choices) n (read_choices choices (text, n))
unfolding read_choices read_choice
read_choices-Read [] text n = (omega arith, tt)
read_choices-Read (choice ∷ choices) text n =
    elim (Option-cases (read_delta (lookup choice "delta") (text, n))) [
      | inl raises ↦ rw (raises, read_choices) tt
      | inr ((said, m), goes_on) ↦
          rw (goes_on, read_choices)
            (Read-append (choice_indices choice) (choices_indices choices) n m
              (read_choices choices (said, m))
              (rw goes_on at (read_delta-Read (lookup choice "delta") text n))
              (read_choices-Read choices said m))
    ]

abbrev pub event_indices : Option (List Json) → List ℕ
event_indices none = []
event_indices (some choices) = choices_indices choices

module _ (loads_line : List ℕ → Option Json) (loads : String → Option Json)
    (dumps : Json → String) where
  abbrev pub line_indices : Kind → List ℕ
  line_indices plain = []
  line_indices mark = []
  line_indices (event fs) = event_indices (iterated (lookup (obj fs) "choices"))

  -- The indices of all calls that the lines of a stream carry.
  abbrev pub streamed : List (List ℕ) → List ℕ
  streamed [] = []
  streamed (line ∷ lines) = line_indices (kind_of loads_line loads dumps line) ++ streamed lines

  abbrev Routed : List ℕ → State → Option (State × List ℕ) → Type 0
  Routed is s none = Unit
  Routed is s (some (s', out)) = (s.next_index ≤ s'.next_index) × Below s'.next_index is

  place-Routed :
      (line : List ℕ) (s : State) (b : Bool) (n : ℕ) (is : List ℕ)
      → (n ≤ s.next_index) × Below s.next_index is
      → (n ≤ (place loads_line loads dumps line s b).0.next_index)
        × Below (place loads_line loads dumps line s b).0.next_index is
  place-Routed line s true n is h = h
  place-Routed line s false n is h = h

  route_event-Routed :
      (line : List ℕ) (fs : Fields) (s : State)
      → Routed
          (event_indices (iterated (lookup (obj fs) "choices")))
          s
          (route_event loads_line loads dumps line fs s)
  unfolding route_event
  route_event-Routed line fs s = elim (Option-cases (iterated (lookup (obj fs) "choices"))) [
    | inl raises ↦ rw (raises, route_event) tt
    | inr (choices, listed) ↦ elim (Option-cases (read_choices choices (s.text, s.next_index))) [
      | inl raises ↦ rw (listed, route_event, raises) tt
      | inr ((text, n), counted) ↦ elim (Option-cases (holds loads_line loads dumps fs choices)) [
        | inl raises ↦ rw (listed, route_event, counted, raises) tt
        | inr (b, judged) ↦
            rw (listed, route_event, counted, judged)
              (place-Routed line (record s { text = text; template = some fs; next_index = n }) b
                s.next_index (choices_indices choices)
                (rw counted at (read_choices-Read choices s.text s.next_index)))
      ]
    ]
  ]

  route-Routed :
      (line : List ℕ) (s : State) (k : Kind)
      → kind_of loads_line loads dumps line ≡ k
      → Routed (line_indices k) s (route loads_line loads dumps line s)
  unfolding route
  route-Routed line s plain k = rw (k, route) (omega arith, tt)
  route-Routed line s mark k = rw (k, route) (omega arith, tt)
  route-Routed line s (event fs) k = rw (k, route) (route_event-Routed line fs s)

  Routed-append :
      (is js : List ℕ) (s s' : State) (out out' : List ℕ) (s'' : State)
      → Routed is s (some (s', out))
      → Routed js s' (some (s'', out'))
      → Routed (is ++ js) s (some (s'', out ++ out'))
  Routed-append is js s s' out out' s'' h k = (
    omega arith,
    Below-append s''.next_index is js (Below-le s'.next_index s''.next_index is k.0 h.1) k.1,
  )

  route_lines-Routed :
      (lines : List (List ℕ)) (s : State)
      → Routed (streamed lines) s (route_lines loads_line loads dumps lines s)
  unfolding route_lines
  route_lines-Routed [] s = (omega arith, tt)
  route_lines-Routed (line ∷ lines) s = elim (Option-cases (route loads_line loads dumps line s)) [
    | inl raises ↦ rw (raises, route_lines) tt
    | inr ((s', out), goes_on) ↦ elim (Option-cases (route_lines loads_line loads dumps lines s')) [
      | inl raises ↦ rw (goes_on, route_lines, raises) tt
      | inr ((s'', out'), ends) ↦
          rw (goes_on, route_lines, ends)
            (Routed-append (line_indices (kind_of loads_line loads dumps line)) (streamed lines) s
              s' out out' s'' (rw goes_on at (route-Routed line s _ refl))
              (rw ends at (route_lines-Routed lines s')))
    ]
  ]

-- The calls carry the numbers from `k` on, in their order.
abbrev pub IsNumbered : ℕ → List Json → Type 0
IsNumbered k [] = Unit
IsNumbered k (call ∷ calls) = (lookup call "index" ≡ int (pos k)) × IsNumbered (suc k) calls

module _ (loads_line : List ℕ → Option Json) (dump_line : Json → List ℕ)
    (loads : String → Option Json) (dumps : Json → String) (call_id : ℕ → String)
    (event_id : String) (r : Ratio) (declared : List String) where
  delta_calls-IsNumbered :
      (index n k : ℕ) (calls : List Fields)
      → k ≡ index + n
      → IsNumbered k
          (delta_calls loads_line dump_line loads dumps call_id event_id r declared index n calls).0
  unfolding delta_calls get_field
  delta_calls-IsNumbered index n k [] e = tt
  delta_calls-IsNumbered index n k (call ∷ calls) e =
      elim (Option-cases (chosen (match_name r (call_name call) declared))) [
        | inl nothing ↦ rw (nothing, delta_calls) (delta_calls-IsNumbered index n k calls e)
        | inr (name, means) ↦
            rw (means, delta_calls)
              (
                ap (λ i. int (pos i)) (sym e),
                delta_calls-IsNumbered index (suc n) (suc k) calls (omega arith),
              )
      ]

  -- The new calls of a stream are numbered in a row, from a number that is above the index of
  -- every call that the backend streamed itself; so clients, which merge calls by their index, mix
  -- up no two.
  pub delta_calls-no_collision :
      (lines : List (List ℕ)) (s s' : State) (out : List ℕ) (calls : List Fields)
      → route_lines loads_line loads dumps lines s ≡ some (s', out)
      → All (λ i. i < s'.next_index) (streamed loads_line loads dumps lines)
        × IsNumbered s'.next_index
            (delta_calls loads_line dump_line loads dumps call_id event_id r declared s'.next_index
              0 calls).0
  delta_calls-no_collision lines s s' out calls h =
      let routed = rw h at (route_lines-Routed loads_line loads dumps lines s) in
      (routed.1, delta_calls-IsNumbered s'.next_index 0 s'.next_index calls (omega arith))
