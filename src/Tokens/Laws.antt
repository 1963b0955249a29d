-- ===== src/Tokens/Laws.antt =====
-- Where the tokens that were counted are (app/token_store.py).
use llamaswap.Base.{
  ℕ, ◌+◌, ◌-◌, none, subst, ◌≡◌, refl, ◌∙◌, sym, inl, inr, String, Bool, not, ◌||◌, [], ◌∷◌, put,
  bump, count_of, count_of-bump, get, same_pair, leb, ltb, arith, Bool-cases, if◌then◌else◌, ◌==◌,
  pair_key, same_pair_iff,
}
use llamaswap.Metrics.{Metrics, inc_tokens}
use llamaswap.Tokens.Store.{
  Totals, Store, flush, add, upsert_all, is_empty, flush_interval, Moment, record_one, record_usage,
  opens, init, Step, uses, flushes, Reach, here, next, load_baseline, combined,
}

-- The sum of a key's increments.
abbrev pub sum_of : Totals → String × String → ℕ
sum_of [] k = 0
sum_of ((j, n) ∷ rows) k = (if j == k then n else 0) + sum_of rows k

-- What an increment of one key is for another.
abbrev pub share : String × String → String × String → ℕ → ℕ
share j k n = if j == k then n else 0

count_bump :
    (d : Totals) (j k : String × String) (n : ℕ)
    → count_of (bump d j n) k ≡ count_of d k + share j k n
count_bump d j k n = elim (Bool-cases (same_pair j k)) [
  | inl hit ↦ count_of-bump {K = String × String} ⦃e = pair_key⦄ d j k n ∙ rw hit refl
  | inr miss ↦ count_of-bump {K = String × String} ⦃e = pair_key⦄ d j k n ∙ rw miss (omega arith)
]

count_upsert :
    (disk rows : Totals) (k : String × String)
    → count_of (upsert_all disk rows) k ≡ count_of disk k + sum_of rows k
unfolding upsert_all
count_upsert disk [] k = omega arith
count_upsert disk ((j, n) ∷ rows) k =
    omega (arith, count_upsert (bump disk j n) rows k, count_bump disk j k n)

sum_put :
    (d : Totals) (k j : String × String) (v : ℕ)
    → sum_of (put d k v) j + share k j (count_of d k) ≡ sum_of d j + share k j v
unfolding put get
sum_put [] k j v = ground (arith, same_pair_iff k j)
sum_put ((i, m) ∷ d) k j v =
    ground (arith, same_pair_iff i k, same_pair_iff k j, same_pair_iff i j, sum_put d k j v)

sum_bump :
    (d : Totals) (k j : String × String) (n : ℕ) → sum_of (bump d k n) j ≡ sum_of d j + share k j n
unfolding bump
sum_bump d k j n = ground (arith, sum_put d k j (count_of d k + n))

-- The tokens of a key that the store has taken in: on the disk, or still to be written.
abbrev pub held : Store → String × String → ℕ
held s k = count_of s.disk k + sum_of s.pending k

pub held-flush :
    (wrote : Bool) (done : ℕ) (s : Store) (k : String × String)
    → held (flush wrote done s) k ≡ held s k
unfolding flush
held-flush wrote done s k = elim (Bool-cases (is_empty s.pending || not s.db)) [
  | inl idle ↦ rw idle refl
  | inr due ↦ elim (Bool-cases wrote) [
    | inl committed ↦ rw (due, committed) (omega (arith, count_upsert s.disk s.pending k))
    | inr lost ↦ rw (due, lost) refl
  ]
]

-- Whatever becomes of the transactions, an addition adds its tokens to what the store holds of its
-- key, once, and nothing to any other key.
pub held-add :
    (wrote : Bool) (now done : ℕ) (model direction : String) (tokens : ℕ) (s : Store)
    (k : String × String)
    → held (add wrote now done model direction tokens s) k
      ≡ held s k + share (model, direction) k tokens
unfolding add
held-add wrote now done model direction tokens s k = elim (Bool-cases (leb tokens 0)) [
  | inl nothing ↦ rw nothing (ground (arith, nothing, same_pair_iff (model, direction) k))
  | inr some_tokens ↦
      let s' = record s { pending = bump s.pending (model, direction) tokens } in
      let b = sum_bump s.pending (model, direction) k tokens in
      elim (Bool-cases (leb flush_interval (now - s.last_flush))) [
        | inl due ↦ rw (some_tokens, due) (omega (arith, b, held-flush wrote done s' k))
        | inr early ↦ rw (some_tokens, early) (omega (arith, b))
      ]
]

-- Each key has one row.
abbrev pub IsTable : Totals → Type 0
IsTable [] = Unit
IsTable ((k, n) ∷ rows) = (get rows k ≡ none) × IsTable rows

sum_absent : (d : Totals) (k : String × String) → get d k ≡ none → sum_of d k ≡ 0
unfolding get
sum_absent [] k h = refl
sum_absent ((j, n) ∷ d) k h = ground (arith, sum_absent d k)

sum_count : (d : Totals) (k : String × String) → IsTable d → sum_of d k ≡ count_of d k
unfolding get
sum_count [] k h = refl
sum_count ((j, n) ∷ d) k h = elim (Bool-cases (same_pair j k)) [
  | inl hit ↦
      let same = (same_pair_iff j k).0 hit in
      rw hit (omega (arith, sum_absent d k (subst (λ x. get d x ≡ none) same h.0)))
  | inr miss ↦ rw miss (omega (arith, sum_count d k h.1))
]

empty_count : (k : String × String) → count_of {K = String × String} [] k ≡ 0
unfolding get
empty_count k = refl

count_combined :
    (m : Metrics) (k : String × String)
    → count_of (combined m) k ≡ sum_of m.token_baseline k + sum_of m.tokens k
unfolding combined
count_combined m k = omega (
  arith,
  count_upsert (upsert_all [] m.token_baseline) m.tokens k,
  count_upsert [] m.token_baseline k,
  empty_count k,
)

-- What the metrics page shows of a key is what the store holds of it.
abbrev pub IsShown : Metrics × Store → Type 0
IsShown p = (k : String × String) → sum_of p.0.token_baseline k + sum_of p.0.tokens k ≡ held p.1 k

one_IsShown :
    (t : Moment) (model direction : String) (tokens : ℕ) (p : Metrics × Store)
    → IsShown p
    → IsShown (record_one t model direction tokens p)
unfolding record_one
one_IsShown t model direction tokens (m, s) h = elim (Bool-cases (ltb 0 tokens)) [
  | inl counts ↦ rw counts (λ k.
      unfold inc_tokens in
      rw counts (
        omega (
          arith,
          h k,
          sum_bump m.tokens (model, direction) k tokens,
          held-add t.wrote t.now t.done model direction tokens s k,
        )))
  | inr nothing ↦ rw nothing h
]

Step-IsShown : (p q : Metrics × Store) → Step p q → IsShown p → IsShown q
Step-IsShown p q (uses t u model prompt completion e) h = subst IsShown (sym e) (
    unfold record_usage in
    one_IsShown u model "output" completion _ (one_IsShown t model "input" prompt p h))
Step-IsShown p q (flushes wrote done e) h =
    subst IsShown (sym e) (λ k. h k ∙ sym (held-flush wrote done p.1 k))

Reach-IsShown : {start p : Metrics × Store} → IsShown start → Reach start p → IsShown p
Reach-IsShown h here = h
Reach-IsShown h (next {p = a} {q = b} r s) = Step-IsShown a b s (Reach-IsShown h r)

start_IsShown :
    (now : ℕ) (disk : Totals) (m : Metrics)
    → IsTable disk
    → m.tokens ≡ []
    → IsShown (load_baseline (m, init opens now disk))
unfolding load_baseline init
start_IsShown now disk m table fresh = λ k. rw fresh (omega (arith, sum_count disk k table))

-- Once the table could be opened, whatever is recorded and however the flushes go, the total that
-- the metrics page shows for a model and a direction is what stands on the disk for it plus what
-- is still to be written: a restart neither loses written tokens nor counts any twice.
pub combined-held :
    (now : ℕ) (disk : Totals) (m : Metrics) (p : Metrics × Store) (k : String × String)
    → IsTable disk
    → m.tokens ≡ []
    → Reach (load_baseline (m, init opens now disk)) p
    → count_of (combined p.0) k ≡ held p.1 k
combined-held now disk m p k table fresh r =
    count_combined p.0 k ∙ Reach-IsShown (start_IsShown now disk m table fresh) r k
