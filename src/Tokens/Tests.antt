-- ===== src/Tokens/Tests.antt =====
-- A proxy that is started on a table with one row, and records one response.
use llamaswap.Base.{
  ℕ, ◌≡◌, refl, true, false, Option, none, some, List, [], ◌∷◌, ◌++◌, count_of, get, pair_key,
  string_key,
}
use llamaswap.Metrics.{Metrics}
use llamaswap.Tokens.Store.{
  Totals, Store, Moment, init, opens, load_baseline, flush, record_usage, combined, uses, here,
  next,
}
use llamaswap.Tokens.Laws.{IsTable, held, combined-held}
use llamaswap.Tokens.Ledger.{Action, adds, performed, ledger, performed-ledger}
use llamaswap.Json.{Json, obj, int, pos, end, field, get_field}
use llamaswap.Tokens.Meter.{Meter, feed, take_object, int_or_zero}
use llamaswap.Tokens.Chunks.{then_feed, feed-append}
use llamaswap.Fixtures.{world}

abbrev table : Totals
table = (("small", "input"), 7) ∷ (("small", "output"), 5) ∷ []

abbrev opened : Metrics × Store
opened = load_baseline (world.metrics, init opens 0 table)

abbrev early : Moment
early = record { wrote = true; now = 100; done = 101 }

abbrev late : Moment
late = record { wrote = false; now = 6000; done = 6001 }

abbrev used : Metrics × Store
used = record_usage early late "small" 3 4 opened

-- Two additions, with a flush between them that is lost.
abbrev actions : List Action
actions =
    adds true 10 11 "small" "input" 3
    ∷ Action.flushes false 20
    ∷ adds true 6000 6001 "small" "input" 4
    ∷ []

table_open : (init opens 0 table).db ≡ true
unfolding init
table_open = refl

performed-ledger_example :
    (held (performed actions (init opens 0 table)) ("small", "input")
      ≡ ledger actions (held (init opens 0 table)) ("small", "input"))
    × (count_of (flush true 7000 (performed actions (init opens 0 table))).disk ("small", "input")
        ≡ ledger actions (held (init opens 0 table)) ("small", "input"))
performed-ledger_example =
    performed-ledger actions 7000 (init opens 0 table) ("small", "input") table_open

table_ok : IsTable table
unfolding get
table_ok = (refl, (refl, tt))

combined-held_example :
    count_of (combined used.0) ("small", "input") ≡ held used.1 ("small", "input")
combined-held_example =
    combined-held 0 table world.metrics used ("small", "input") table_ok refl
      (next here (uses early late "small" 3 4 refl))

-- An upstream whose every event is a usage object.
abbrev usage_event : List ℕ → Option Json
usage_event payload = some (
    obj (
      field "usage"
        (obj (field "prompt_tokens" (int (pos 3)) (field "completion_tokens" (int (pos 4)) end)))
        end))

abbrev meter : Meter
meter = record { model = "small"; buf = []; usage = none; out = 0; input = 9 }

-- `data: {}` and a newline, cut behind the colon.
abbrev head_bytes : List ℕ
head_bytes = 100 ∷ 97 ∷ 116 ∷ 97 ∷ 58 ∷ []

abbrev tail_bytes : List ℕ
tail_bytes = 32 ∷ 123 ∷ 125 ∷ 10 ∷ []

counts_usage :
    feed usage_event (head_bytes ++ tail_bytes) meter ≡ some (record meter { usage = some (3, 4) })
unfolding feed take_object int_or_zero get_field
counts_usage = refl

feed-append_example :
    feed usage_event (head_bytes ++ tail_bytes) meter
    ≡ then_feed usage_event tail_bytes (feed usage_event head_bytes meter)
feed-append_example = feed-append usage_event head_bytes tail_bytes meter
