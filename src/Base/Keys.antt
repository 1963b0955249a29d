-- ===== src/Base/Keys.antt =====
-- What a dictionary asks of its keys: a test that finds exactly the equal ones.
use Prim.Native.Nat.{ℕ}
use Prim.Native.String.{String}
use mathlib.Core.Path.{◌≡◌}
use mathlib.Core.Logic.{◌↔◌}
use mathlib.Core.Bool.{Bool, true, ◌&&◌}
use native.Mathlib.Omega.{arith}
use text.Mathlib.Text.{◌==◌ as same_text}
use text.Mathlib.TextEquality.{eq_iff}
use llamaswap.Base.Tests.{eqb, eqb_iff}

-- A type whose values can be keys.
pub record Key {κ} (K : Type κ) : Type κ where
  pub matches : K → K → Bool
  pub matches_iff : (j k : K) → (matches j k ≡ true) ↔ (j ≡ k)

-- Tuples of two keys, as Python compares them.
abbrev pub same_pair : String × String → String × String → Bool
same_pair p q = same_text p.0 q.0 && same_text p.1 q.1

pub same_pair_iff : (p q : String × String) → (same_pair p q ≡ true) ↔ (p ≡ q)
same_pair_iff p q = ground (arith, eq_iff p.0 q.0, eq_iff p.1 q.1)

instance abbrev pub pair_key : Key (String × String)
pair_key = record { matches = same_pair; matches_iff = same_pair_iff }

instance abbrev pub string_key : Key String
string_key = record { matches = same_text; matches_iff = eq_iff }

instance abbrev pub nat_key : Key ℕ
nat_key = record { matches = eqb; matches_iff = eqb_iff }

infix 50 ◌==◌
abbrev pub ◌==◌ {κ} : {K : Type κ} ⦃k : Key K⦄ → K → K → Bool
◌==◌ ⦃k⦄ = k.matches
