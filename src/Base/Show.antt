-- ===== src/Base/Show.antt =====
-- `str(n)` of a natural number.
use Prim.Native.Nat.{ℕ, zero, suc, ◌/◌, ◌%◌}
use Prim.Native.String.{String, char_at, ◌++◌}
use mathlib.Core.Bool.{true, false}
use llamaswap.Base.Tests.{ltb}

unfoldable pub digit : ℕ → String
digit d = String.◌∷◌ (char_at "0123456789" d) String.[]

unfoldable pub show_from : ℕ → ℕ → String
show_from zero n = ""
show_from (suc fuel) n = elim (ltb n 10) [
  | true ↦ digit n
  | false ↦ show_from fuel (n / 10) ++ digit (n % 10)
]

-- A number has at most as many digits as its value and one more.
unfoldable pub show : ℕ → String
unfolding show_from digit
show n = show_from (suc n) n
