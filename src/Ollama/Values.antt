-- ===== src/Ollama/Values.antt =====
-- How the Ollama adapter (app/ollama.py) reads the values of a JSON body. `shown` is `str` of a JSON
-- value that is no text.
use Prim.Native.Nat.{◌+◌, ◌*◌, ◌-◌, ◌/◌}
use llamaswap.Base.{
  ℕ, zero, suc, String, Bool, true, false, Option, none, some, if◌then◌else◌, ltb, starts_with,
}
use llamaswap.Json.{
  ℤ, pos, negsuc, Json, bool, int, float, str, arr, obj, Fields, end, field, nil, cons, put_field,
  truthy, is_null,
}
use Prim.Native.String.{◌++◌ as str_append}

infixl 5 ◌>>=◌
abbrev pub ◌>>=◌ {ℓ κ} : {A : Type ℓ} {B : Type κ} → Option A → (A → Option B) → Option B
none >>= f = none
some a >>= f = f a

-- `str(v)`
abbrev pub text_of : (Json → String) → Json → String
text_of shown (str s) = s
text_of shown v = shown v

-- `a or b`
abbrev pub or_json : Json → Json → Json
unfolding truthy
or_json a b = if truthy a then a else b

-- `a`, or `b` where it is None
abbrev pub or_none : Json → Json → Json
or_none a b = if is_null a then b else a

-- `d.update(e)`
unfoldable pub update : Fields → Fields → Fields
update d end = d
update d (field k v e) = update (put_field d k v) e

-- An object with one key.
abbrev pub single : String → Json → Json
single k v = obj (field k v end)

-- A list of at most one value.
abbrev pub only : Json → Json
only v = arr (cons v nil)

abbrev neg : ℕ → ℤ
neg zero = pos 0
neg (suc n) = negsuc n

abbrev sub : ℕ → ℕ → ℤ
sub m n = if ltb m n then negsuc (n - m - 1) else pos (m - n)

infixl 20 ◌+ℤ◌
abbrev pub ◌+ℤ◌ : ℤ → ℤ → ℤ
pos m +ℤ pos n = pos (m + n)
pos m +ℤ negsuc n = sub m (suc n)
negsuc m +ℤ pos n = sub n (suc m)
negsuc m +ℤ negsuc n = negsuc (suc (m + n))

abbrev pub is_zero : ℤ → Bool
is_zero (pos zero) = true
is_zero n = false

abbrev truncated : ℤ → ℤ
truncated (pos x) = pos (x / 1000000)
truncated (negsuc x) = neg (suc x / 1000000)

-- `int(v)`: `none` where it raises. `parse` is `int` of a text.
unfoldable pub int_of : (String → Option ℤ) → Json → Option ℤ
int_of parse (int n) = some n
int_of parse (bool true) = some (pos 1)
int_of parse (bool false) = some (pos 0)
int_of parse (float x) = some (truncated x)
int_of parse (str s) = parse s
int_of parse v = none

-- `int(float(v) * 1_000_000)`, of milliseconds. `parse` is that of a text.
unfoldable pub ns_of : (String → Option ℤ) → Json → Option ℤ
ns_of parse (int (pos n)) = some (pos (n * 1000000))
ns_of parse (int (negsuc n)) = some (negsuc (n * 1000000 + 999999))
ns_of parse (bool true) = some (pos 1000000)
ns_of parse (bool false) = some (pos 0)
ns_of parse (float x) = some x
ns_of parse (str s) = parse s
ns_of parse v = none

-- `isinstance(v, dict)`, and then `v`: otherwise an empty one.
abbrev pub fields_or_empty : Json → Fields
fields_or_empty (obj fs) = fs
fields_or_empty v = end

-- `_image_data_url`
unfoldable pub image_data_url : String → String
image_data_url value =
    let with_mime : String → String =
      λ mime. str_append "data:" (str_append mime (str_append ";base64," value)) in
    if starts_with "data:" value
    then value
    else if starts_with "iVBORw0KGgo" value
    then with_mime "image/png"
    else if starts_with "/9j/" value
    then with_mime "image/jpeg"
    else if starts_with "R0lGOD" value
    then with_mime "image/gif"
    else if starts_with "UklGR" value
    then with_mime "image/webp"
    else with_mime "image/png"
