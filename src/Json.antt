-- ===== src/Json.antt =====
-- The values that `json.loads` gives: the dictionaries, lists and scalars that the proxy inspects.
-- Parsing and printing are the standard library's; a function that calls them takes them.
use llamaswap.Base.{
  ℕ, zero, String, Bool, true, false, Option, none, some, List, [], ◌∷◌, if◌then◌else◌, ◌==◌,
  string_key, not, ◌≡◌, arith, eq_iff,
}

-- `negsuc n` is -(n + 1).
pub data ℤ : Type 0 where
  pos : ℕ → ℤ
  negsuc : ℕ → ℤ

-- A float is kept as its count of millionths.
mutual
  pub data Json : Type 0 where
    null : Json
    bool : Bool → Json
    int : ℤ → Json
    float : ℤ → Json
    str : String → Json
    arr : Items → Json
    obj : Fields → Json

  pub data Items : Type 0 where
    nil : Items
    cons : Json → Items → Items

  pub data Fields : Type 0 where
    end : Fields
    field : String → Json → Fields → Fields

unfoldable pub to_list : Items → List Json
to_list nil = []
to_list (cons j xs) = j ∷ to_list xs

unfoldable pub of_list : List Json → Items
of_list [] = nil
of_list (j ∷ xs) = cons j (of_list xs)

pub to_list-of_list : (xs : List Json) → to_list (of_list xs) ≡ xs
unfolding to_list of_list
to_list-of_list [] = λ i. []
to_list-of_list (j ∷ xs) = λ i. j ∷ to_list-of_list xs i

-- `fs.get(k)`
unfoldable pub get_field : Fields → String → Option Json
get_field end k = none
get_field (field j v fs) k = if j == k then some v else get_field fs k

-- `fs[k] = v`
unfoldable pub put_field : Fields → String → Json → Fields
put_field end k v = field k v end
put_field (field j w fs) k v = if j == k then field j v fs else field j w (put_field fs k v)

pub get_field-put_field :
    (fs : Fields) (k j : String) (v : Json)
    → get_field (put_field fs k v) j ≡ (if k == j then some v else get_field fs j)
unfolding get_field put_field
get_field-put_field end k j v = λ i. if k == j then some v else none
get_field-put_field (field i w fs) k j v =
    ground (arith, eq_iff k j, eq_iff i k, eq_iff i j, get_field-put_field fs k j v)

-- `j.get(k)` of a value that is a dictionary, `None` standing for a missing key.
abbrev pub lookup : Json → String → Json
lookup (obj fs) k = elim (get_field fs k) [ none ↦ null | some v ↦ v ]
lookup j k = null

abbrev pub is_obj : Json → Bool
is_obj (obj fs) = true
is_obj j = false

abbrev pub is_arr : Json → Bool
is_arr (arr xs) = true
is_arr j = false

abbrev pub is_str : Json → Bool
is_str (str s) = true
is_str j = false

abbrev pub is_null : Json → Bool
is_null null = true
is_null j = false

-- `bool(j)`
unfoldable pub truthy : Json → Bool
truthy null = false
truthy (bool b) = b
truthy (int (pos zero)) = false
truthy (int n) = true
truthy (float (pos zero)) = false
truthy (float x) = true
truthy (str s) = not (s == "")
truthy (arr nil) = false
truthy (arr xs) = true
truthy (obj end) = false
truthy (obj fs) = true

-- `j == "..."` of a value that need not be a text.
abbrev pub is_text : Json → String → Bool
is_text (str s) t = s == t
is_text j t = false

-- `for x in j or []`, over a value that is a list when it is not falsy.
abbrev pub elements : Json → List Json
unfolding to_list
elements (arr xs) = to_list xs
elements j = []
