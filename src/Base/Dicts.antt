-- ===== src/Base/Dicts.antt =====
-- Python's `dict`: an association list in insertion order. A write to a key that is there keeps
-- its place. `defaultdict(int)` is read by `count_of` and written by `bump`.
use Prim.Native.Nat.{ℕ, ◌+◌}
use mathlib.Core.Path.{◌≡◌, refl}
use mathlib.Core.Bool.{Bool, true, false}
use mathlib.Core.Option.{Option, none, some}
use mathlib.Core.List.{List, [], ◌∷◌, map}
use native.Mathlib.Omega.{arith}
use llamaswap.Base.Tests.{if◌then◌else◌}
use llamaswap.Base.Keys.{Key, ◌==◌}

abbrev pub Dict {ℓ κ} : Type ℓ → Type κ → Type (ℓ ⊔ κ)
Dict K V = List (K × V)

abbrev pub keys {ℓ κ} : {K : Type ℓ} {V : Type κ} → Dict K V → List K
keys d = map (λ p. p.0) d

abbrev pub values {ℓ κ} : {K : Type ℓ} {V : Type κ} → Dict K V → List V
values d = map (λ p. p.1) d

abbrev pub is_some {ℓ} : {A : Type ℓ} → Option A → Bool
is_some none = false
is_some (some a) = true

abbrev pub or_else {ℓ} : {A : Type ℓ} → Option A → A → A
or_else none d = d
or_else (some a) d = a

module _ {ℓ κ} {K : Type ℓ} {V : Type κ} ⦃e : Key K⦄ where
  unfoldable pub get : Dict K V → K → Option V
  get [] k = none
  get ((j, v) ∷ d) k = if j == k then some v else get d k

  unfoldable pub put : Dict K V → K → V → Dict K V
  put [] k v = (k, v) ∷ []
  put ((j, w) ∷ d) k v = if j == k then (j, v) ∷ d else (j, w) ∷ put d k v

  pub get-put :
      (d : Dict K V) (k j : K) (v : V) → get (put d k v) j ≡ (if k == j then some v else get d j)
  unfolding get put
  get-put [] k j v = refl
  get-put ((i, w) ∷ d) k j v =
      ground (arith, e.matches_iff k j, e.matches_iff i k, e.matches_iff i j, get-put d k j v)

  pub get-put_self : (d : Dict K V) (k : K) (v : V) → get (put d k v) k ≡ some v
  get-put_self d k v = ground (arith, get-put d k k v, e.matches_iff k k)

module _ {ℓ} {K : Type ℓ} ⦃e : Key K⦄ where
  abbrev pub count_of : Dict K ℕ → K → ℕ
  count_of d k = or_else (get d k) 0

  -- `d[k] += n`
  unfoldable pub bump : Dict K ℕ → K → ℕ → Dict K ℕ
  bump d k n = put d k (count_of d k + n)

  pub count_of-bump :
      (d : Dict K ℕ) (k j : K) (n : ℕ)
      → count_of (bump d k n) j ≡ (if k == j then count_of d j + n else count_of d j)
  unfolding bump
  count_of-bump d k j n = ground (arith, get-put d k j (count_of d k + n), e.matches_iff k j)
