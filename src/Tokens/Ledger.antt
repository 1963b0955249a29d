-- ===== src/Tokens/Ledger.antt =====
-- The token store as a ledger of tokens by model and direction (app/token_store.py, `TokenStore`).
use llamaswap.Base.{
  ℕ, ◌+◌, String, Bool, true, not, ◌||◌, List, [], ◌∷◌, count_of, pair_key, leb, ◌-◌, ◌≡◌, refl, ap,
  ◌∙◌, inl, inr, arith, bump, Bool-cases,
}
use llamaswap.Tokens.Store.{Totals, Store, flush, add, is_empty, flush_interval}
use llamaswap.Tokens.Laws.{sum_of, share, held, held-flush, held-add}

-- What is asked of the store.
pub data Action : Type 0 where
  adds : (wrote : Bool) → (now done : ℕ) → (model direction : String) → (tokens : ℕ) → Action
  flushes : (wrote : Bool) → (done : ℕ) → Action

abbrev pub perform : Action → Store → Store
perform (adds wrote now done model direction tokens) s = add wrote now done model direction tokens s
perform (flushes wrote done) s = flush wrote done s

unfoldable pub performed : List Action → Store → Store
performed [] s = s
performed (a ∷ acts) s = performed acts (perform a s)

-- The ledger forgets the disk, the batches and the clock.
abbrev pub Ledger : Type 0
Ledger = String × String → ℕ

abbrev pub entered : Action → Ledger → Ledger
entered (adds wrote now done model direction tokens) l =
    λ k. l k + share (model, direction) k tokens
entered (flushes wrote done) l = l

unfoldable pub ledger : List Action → Ledger → Ledger
ledger [] l = l
ledger (a ∷ acts) l = ledger acts (entered a l)

perform-held :
    (a : Action) (s : Store) (k : String × String) → held (perform a s) k ≡ entered a (held s) k
perform-held (adds wrote now done model direction tokens) s k =
    held-add wrote now done model direction tokens s k
perform-held (flushes wrote done) s k = held-flush wrote done s k

ledger-eq :
    (acts : List Action) (l l' : Ledger) (k : String × String)
    → ((j : String × String) → l j ≡ l' j)
    → ledger acts l k ≡ ledger acts l' k
unfolding ledger
ledger-eq [] l l' k h = h k
ledger-eq (adds wrote now done model direction tokens ∷ acts) l l' k h =
    ledger-eq acts _ _ k (λ j. ap (λ n. n + share (model, direction) j tokens) (h j))
ledger-eq (flushes wrote done ∷ acts) l l' k h = ledger-eq acts l l' k h

performed-held :
    (acts : List Action) (s : Store) (k : String × String)
    → held (performed acts s) k ≡ ledger acts (held s) k
unfolding performed ledger
performed-held [] s k = refl
performed-held (a ∷ acts) s k =
    performed-held acts (perform a s) k
    ∙ ledger-eq acts (held (perform a s)) (entered a (held s)) k (perform-held a s)

flush-db : (wrote : Bool) (done : ℕ) (s : Store) → (flush wrote done s).db ≡ s.db
unfolding flush
flush-db wrote done s = elim (Bool-cases (is_empty s.pending || not s.db)) [
  | inl idle ↦ rw idle refl
  | inr due ↦ elim (Bool-cases wrote) [
    | inl committed ↦ simp (due, committed) refl
    | inr lost ↦ simp (due, lost) refl
  ]
]

perform-db : (a : Action) (s : Store) → (perform a s).db ≡ s.db
unfolding add
perform-db (flushes wrote done) s = flush-db wrote done s
perform-db (adds wrote now done model direction tokens) s = elim (Bool-cases (leb tokens 0)) [
  | inl nothing ↦ rw nothing refl
  | inr some_tokens ↦ elim (Bool-cases (leb flush_interval (now - s.last_flush))) [
    | inl due ↦
        simp (some_tokens, due)
          (flush-db wrote done (record s { pending = bump s.pending (model, direction) tokens }))
    | inr early ↦ simp (some_tokens, early) refl
  ]
]

performed-db : (acts : List Action) (s : Store) → (performed acts s).db ≡ s.db
unfolding performed
performed-db [] s = refl
performed-db (a ∷ acts) s = performed-db acts (perform a s) ∙ perform-db a s

nothing_pending : (rows : Totals) (k : String × String) → is_empty rows ≡ true → sum_of rows k ≡ 0
nothing_pending [] k h = refl
nothing_pending (r ∷ rows) k h = cc

-- A flush that is committed leaves nothing to be written.
flush-written :
    (done : ℕ) (s : Store) (k : String × String)
    → s.db ≡ true
    → sum_of (flush true done s).pending k ≡ 0
unfolding flush
flush-written done s k open_table = elim (Bool-cases (is_empty s.pending)) [
  | inl idle ↦ rw (idle, flush) (nothing_pending s.pending k idle)
  | inr due ↦ simp (due, open_table, flush) refl
]

-- Whatever is added and however the flushes go, the store holds what a plain ledger of the same
-- additions holds; and where the table could be opened, a last flush that is committed puts the
-- whole of it on the disk.
pub performed-ledger :
    (acts : List Action) (done : ℕ) (s : Store) (k : String × String)
    → s.db ≡ true
    → (held (performed acts s) k ≡ ledger acts (held s) k)
      × (count_of (flush true done (performed acts s)).disk k ≡ ledger acts (held s) k)
performed-ledger acts done s k open_table =
    let end_state = performed acts s in
    let whole = performed-held acts s k in
    let kept = held-flush true done end_state k in
    let written = flush-written done end_state k (performed-db acts s ∙ open_table) in
    (whole, omega (arith, whole, kept, written))
