-- ===== src/Base/Text.antt =====
-- The texts that the managers make: ASCII lower case, and characters outside a class replaced.
use Prim.Native.Nat.{ℕ, zero, suc, ◌-◌}
use Prim.Native.Char.{Char, code}
use Prim.Native.String.{String, char_at, count, ◌++◌}
use mathlib.Core.Bool.{Bool, true, false, ◌&&◌, ◌||◌}
use mathlib.Core.List.{List, [], ◌∷◌}
use text.Mathlib.Text.{◌==◌ as str_eq}
use llamaswap.Base.Tests.{leb, eqb, if◌then◌else◌}

-- The code points of a text.
abbrev pub codes : String → List ℕ
codes String.[] = []
codes (String.◌∷◌ c s) = code c ∷ codes s

between : ℕ → ℕ → ℕ → Bool
between lo hi c = leb lo c && leb c hi

lower_char : Char → Char
lower_char c =
    if between 65 90 (code c) then char_at "abcdefghijklmnopqrstuvwxyz" (code c - 65) else c

-- `s.lower()` of an ASCII text.
unfoldable pub lower : String → String
unfolding lower_char between
lower String.[] = ""
lower (String.◌∷◌ c s) = String.◌∷◌ (lower_char c) (lower s)

abbrev pub is_alnum : Char → Bool
unfolding between
is_alnum c = between 97 122 (code c) || between 48 57 (code c)

-- `[a-z0-9_-]`
is_stem_char : Char → Bool
is_stem_char c = is_alnum c || (eqb (code c) 95 || eqb (code c) 45)

-- `re.sub(r"[^a-z0-9_-]", "-", s)`
unfoldable pub dashed : String → String
unfolding is_stem_char is_alnum
dashed String.[] = ""
dashed (String.◌∷◌ c s) = String.◌∷◌ (if is_stem_char c then c else char_at "-" 0) (dashed s)

-- `re.sub(r"[^a-z0-9]+", "", s)`
unfoldable pub alnum_only : String → String
unfolding is_alnum
alnum_only String.[] = ""
alnum_only (String.◌∷◌ c s) =
    let rest = alnum_only s in if is_alnum c then String.◌∷◌ c rest else rest

-- `s.startswith(p)` and `s.endswith(p)`
unfoldable pub starts_with : String → String → Bool
starts_with String.[] s = true
starts_with (String.◌∷◌ c p) String.[] = false
starts_with (String.◌∷◌ c p) (String.◌∷◌ d s) =
    let rest = starts_with p s in eqb (code c) (code d) && rest

unfoldable pub ends_with : String → String → Bool
unfolding starts_with
ends_with p String.[] = str_eq p ""
ends_with p (String.◌∷◌ d s) = let rest = ends_with p s in str_eq p (String.◌∷◌ d s) || rest

replace_from : ℕ → String → String → String → String
unfolding starts_with
replace_from n old new String.[] = String.[]
replace_from (suc n) old new (String.◌∷◌ c s) = replace_from n old new s
replace_from zero old new (String.◌∷◌ c s) = elim (starts_with old (String.◌∷◌ c s)) [
  | true ↦ new ++ replace_from (count old - 1) old new s
  | false ↦ String.◌∷◌ c (replace_from zero old new s)
]

-- `s.replace(old, new)`, for an `old` that is not empty.
unfoldable pub replaced : String → String → String → String
unfolding replace_from
replaced old new s = replace_from zero old new s
