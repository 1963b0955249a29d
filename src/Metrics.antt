-- ===== src/Metrics.antt =====
-- The in-memory counters (app/metrics.py). A key is the tuple of its labels; a `defaultdict`
-- reads 0 where it has no entry.
use llamaswap.Base.{ℕ, String, Dict, bump, ltb, if◌then◌else◌, pair_key, string_key}

pub record Metrics : Type 0 where
  pub loads : Dict (String × String) ℕ
  pub load_seconds : Dict (String × String) ℕ
  pub load_seconds_count : Dict (String × String) ℕ
  pub load_failures : Dict (String × String) ℕ
  pub unloads : Dict (String × String) ℕ
  pub swaps : Dict String ℕ
  pub tool_calls : Dict (String × String) ℕ
  pub context_trims : Dict (String × String) ℕ
  pub tokens : Dict (String × String) ℕ
  pub token_baseline : Dict (String × String) ℕ

unfoldable pub observe_load : Metrics → String → String → ℕ → Metrics
observe_load m role model seconds = record m {
  loads = bump m.loads (role, model) 1;
  load_seconds = bump m.load_seconds (role, model) seconds;
  load_seconds_count = bump m.load_seconds_count (role, model) 1;
}

unfoldable pub inc_load_failure : Metrics → String → String → Metrics
inc_load_failure m role model = record m { load_failures = bump m.load_failures (role, model) 1 }

unfoldable pub inc_unload : Metrics → String → String → Metrics
inc_unload m role model = record m { unloads = bump m.unloads (role, model) 1 }

unfoldable pub inc_swap : Metrics → String → String → String → Metrics
inc_swap m role from_model to_model = record m { swaps = bump m.swaps role 1 }

unfoldable pub inc_tool_call_reconcile : Metrics → String → String → Metrics
inc_tool_call_reconcile m model outcome = record m {
  tool_calls = bump m.tool_calls (model, outcome) 1;
}

unfoldable pub inc_context_trim : Metrics → String → String → Metrics
inc_context_trim m model outcome = record m {
  context_trims = bump m.context_trims (model, outcome) 1;
}

unfoldable pub inc_tokens : Metrics → String → String → ℕ → Metrics
inc_tokens m model direction tokens =
    if ltb 0 tokens then record m { tokens = bump m.tokens (model, direction) tokens } else m
