-- ===== src/Trim/Estimate.antt =====
-- The chars/4 estimate of a payload (app/proxy.py, `estimate_tokens` and `_message_tokens`).
use Prim.Native.String.{count}
use llamaswap.Base.{ℕ, ◌+◌, ◌/◌}
use llamaswap.Json.{
  Json, null, bool, int, float, str, arr, obj, Items, nil, cons, Fields, end, field, lookup,
}

unfoldable mutual
  pub estimate_tokens : Json → ℕ
  estimate_tokens (str s) = count s / 4 + 1
  estimate_tokens (obj fs) = estimate_fields fs
  estimate_tokens (arr xs) = estimate_items xs
  estimate_tokens null = 1
  estimate_tokens (bool b) = 1
  estimate_tokens (int n) = 1
  estimate_tokens (float x) = 1

  pub estimate_items : Items → ℕ
  estimate_items nil = 0
  estimate_items (cons j xs) = estimate_tokens j + estimate_items xs

  pub estimate_fields : Fields → ℕ
  estimate_fields end = 0
  estimate_fields (field k v fs) = (count k / 4 + 1) + estimate_tokens v + estimate_fields fs

-- What one key of a message adds; a missing key and `None` add nothing.
unfoldable pub key_tokens : Json → ℕ
unfolding estimate_tokens
key_tokens null = 0
key_tokens v = estimate_tokens v

unfoldable pub message_tokens : Json → ℕ
unfolding estimate_tokens key_tokens
message_tokens (obj fs) =
    8
    + key_tokens (lookup (obj fs) "content")
    + key_tokens (lookup (obj fs) "name")
    + key_tokens (lookup (obj fs) "tool_calls")
    + key_tokens (lookup (obj fs) "function_call")
message_tokens msg = estimate_tokens msg
