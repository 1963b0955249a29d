-- ===== src/Tokens/Store.antt =====
-- `TokenStore` (app/token_store.py) and `_record_usage` (app/proxy.py). The table on the disk is
-- part of the store here; time is counted in milliseconds.
use llamaswap.Base.{
  ℕ, ◌-◌, ◌≡◌, String, Bool, true, false, not, ◌||◌, [], ◌∷◌, Dict, bump, leb, ltb, if◌then◌else◌,
  string_key, pair_key,
}
use llamaswap.Metrics.{Metrics, inc_tokens}

abbrev pub Totals : Type 0
Totals = Dict (String × String) ℕ

-- `db`: the table could be opened.
pub record Store : Type 0 where
  pub db : Bool
  pub pending : Totals
  pub baseline : Totals
  pub last_flush : ℕ
  pub disk : Totals

abbrev pub flush_interval : ℕ
flush_interval = 5000

-- What opening the table meets: its rows are read to the end, or the given ones are read before
-- it fails. A key has one row, so the dict of the rows is the table.
pub data Opening : Type 0 where
  opens : Opening
  fails : Totals → Opening

-- `__init__` and `_open`
unfoldable pub init : Opening → ℕ → Totals → Store
init opens now disk = record {
  db = true;
  pending = [];
  baseline = disk;
  last_flush = now;
  disk = disk;
}
init (fails rows) now disk = record {
  db = false;
  pending = [];
  baseline = rows;
  last_flush = now;
  disk = disk;
}

-- The upserts of a batch, one after the other.
unfoldable pub upsert_all : Totals → Totals → Totals
upsert_all disk [] = disk
upsert_all disk ((k, n) ∷ rows) = upsert_all (bump disk k n) rows

abbrev pub is_empty : Totals → Bool
is_empty [] = true
is_empty (r ∷ rows) = false

-- `wrote`: the transaction was committed; `done` is the time after it.
unfoldable pub flush : Bool → ℕ → Store → Store
unfolding upsert_all
flush wrote done s =
    if is_empty s.pending || not s.db
    then s
    else if wrote
    then record s { disk = upsert_all s.disk s.pending; pending = []; last_flush = done }
    else s

unfoldable pub add : Bool → ℕ → ℕ → String → String → ℕ → Store → Store
unfolding flush
add wrote now done model direction tokens s =
    if leb tokens 0
    then s
    else (let s' = record s { pending = bump s.pending (model, direction) tokens } in
        if leb flush_interval (now - s.last_flush) then flush wrote done s' else s')

-- The clock and the transaction at one call of `add`.
pub record Moment : Type 0 where
  pub wrote : Bool
  pub now : ℕ
  pub done : ℕ

unfoldable pub record_one : Moment → String → String → ℕ → Metrics × Store → Metrics × Store
record_one t model direction tokens (m, s) =
    if ltb 0 tokens
    then (inc_tokens m model direction tokens, add t.wrote t.now t.done model direction tokens s)
    else (m, s)

unfoldable pub record_usage : Moment → Moment → String → ℕ → ℕ → Metrics × Store → Metrics × Store
unfolding record_one
record_usage t u model prompt completion p =
    record_one u model "output" completion (record_one t model "input" prompt p)

-- `metrics.token_baseline.update(token_store.baseline)`, on counters that have no baseline yet.
unfoldable pub load_baseline : Metrics × Store → Metrics × Store
load_baseline (m, s) = (record m { token_baseline = s.baseline }, s)

-- The totals that the metrics page shows: baseline and session added up.
unfoldable pub combined : Metrics → Totals
unfolding upsert_all
combined m = upsert_all (upsert_all [] m.token_baseline) m.tokens

-- What happens to the counters and the store after the start.
pub data Step (p q : Metrics × Store) : Type 0 where
  uses :
      (t u : Moment) (model : String) (prompt completion : ℕ)
      → q ≡ record_usage t u model prompt completion p
      → Step p q
  flushes : (wrote : Bool) (done : ℕ) → q ≡ (p.0, flush wrote done p.1) → Step p q

pub data Reach (start : Metrics × Store) : Metrics × Store → Type 0 where
  here : Reach start start
  next : {p q : Metrics × Store} → Reach start p → Step p q → Reach start q
