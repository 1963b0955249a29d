-- ===== src/Forward/Digits.antt =====
-- The decimal digits of a number, read back (app/proxy.py, `overflow_info`).
use Prim.Native.Char.{code}
use Prim.Native.String.{◌++◌ as str_append}
use text.Mathlib.TextLemmas.{nil-append, cons-append}
use llamaswap.Base.{
  ℕ, zero, suc, ◌+◌, ◌-◌, ◌*◌, ◌/◌, ◌%◌, ◌<◌, String, true, false, List, [], ◌∷◌, ◌++◌, All, ◌≡◌,
  ◌≢◌, refl, subst, sym, ap, ◌∙◌, arith, Bool-cases, inl, inr, some, ltb, codes, show,
}
use llamaswap.Base.Show.{digit, show_from}
use llamaswap.Forward.Overflow.{is_digit, digit_run, decimal, number, number_of}

abbrev Digits : List ℕ → Type 0
Digits ds = All (λ c. is_digit c ≡ true) ds

codes-append : (s t : String) → codes (str_append s t) ≡ codes s ++ codes t
codes-append String.[] t = ap codes (nil-append t)
codes-append (String.◌∷◌ c s) t =
    ap codes (cons-append c s t) ∙ ap (λ r. code c ∷ r) (codes-append s t)

digit-codes : (d : ℕ) → d < 10 → codes (digit d) ≡ (48 + d) ∷ []
unfolding digit
digit-codes zero h = refl
digit-codes (suc zero) h = refl
digit-codes (suc (suc zero)) h = refl
digit-codes (suc (suc (suc zero))) h = refl
digit-codes (suc (suc (suc (suc zero)))) h = refl
digit-codes (suc (suc (suc (suc (suc zero))))) h = refl
digit-codes (suc (suc (suc (suc (suc (suc zero)))))) h = refl
digit-codes (suc (suc (suc (suc (suc (suc (suc zero))))))) h = refl
digit-codes (suc (suc (suc (suc (suc (suc (suc (suc zero)))))))) h = refl
digit-codes (suc (suc (suc (suc (suc (suc (suc (suc (suc zero))))))))) h = refl
digit-codes (suc (suc (suc (suc (suc (suc (suc (suc (suc (suc d)))))))))) h = absurd (omega arith)

decimal-append : (n : ℕ) (ds es : List ℕ) → decimal n (ds ++ es) ≡ decimal (decimal n ds) es
unfolding decimal
decimal-append n [] es = refl
decimal-append n (c ∷ ds) es = decimal-append (n * 10 + (c - 48)) ds es

Digits-append : (ds es : List ℕ) → Digits ds → Digits es → Digits (ds ++ es)
Digits-append [] es h k = k
Digits-append (c ∷ ds) es h k = (h.0, Digits-append ds es h.1 k)

-- The text of a number: digits, with its value.
abbrev IsText : ℕ → List ℕ → Type 0
IsText n ds = Digits ds × (decimal 0 ds ≡ n) × (ds ≢ [])

one-IsText : (d : ℕ) → d < 10 → IsText d ((48 + d) ∷ [])
unfolding decimal
one-IsText d h = ground arith

snoc-ne-nil : (ds : List ℕ) (c : ℕ) → ds ++ c ∷ [] ≢ []
snoc-ne-nil [] c h = cc
snoc-ne-nil (d ∷ ds) c h = cc

snoc-IsText :
    (n d : ℕ) (ds : List ℕ) → d < 10 → IsText n ds → IsText (n * 10 + d) (ds ++ (48 + d) ∷ [])
unfolding decimal
snoc-IsText n d ds h (k, e, _) = (
  Digits-append ds _ k (ground arith, tt),
  decimal-append 0 ds ((48 + d) ∷ []) ∙ (omega (arith, e)),
  snoc-ne-nil ds (48 + d),
)

show_from-IsText : (fuel n : ℕ) → n < fuel → IsText n (codes (show_from fuel n))
unfolding show_from
show_from-IsText zero n h = absurd (omega arith)
show_from-IsText (suc fuel) n h = elim (Bool-cases (ltb n 10)) [
  | inl small ↦
      rw (small, show_from)
        (subst (IsText n) (sym (digit-codes n (ground arith))) (one-IsText n (ground arith)))
  | inr large ↦
      let q : n / 10 < fuel = ground arith in
      let e : codes (str_append (show_from fuel (n / 10)) (digit (n % 10)))
          ≡ codes (show_from fuel (n / 10)) ++ (48 + n % 10) ∷ [] =
        codes-append (show_from fuel (n / 10)) (digit (n % 10))
        ∙ ap (λ ds. codes (show_from fuel (n / 10)) ++ ds) (digit-codes (n % 10) (omega arith)) in
      let k =
        snoc-IsText (n / 10) (n % 10) (codes (show_from fuel (n / 10))) (omega arith)
          (show_from-IsText fuel (n / 10) q) in
      rw (large, show_from) (subst (IsText n) (sym e) (k.0, k.1 ∙ omega arith, k.2))
]

digit_run-append :
    (ds : List ℕ) (c : ℕ) (rest : List ℕ)
    → Digits ds
    → is_digit c ≡ false
    → digit_run (ds ++ c ∷ rest) ≡ (ds, c ∷ rest)
unfolding digit_run
digit_run-append [] c rest h k = rw k refl
digit_run-append (d ∷ ds) c rest h k = rw (digit_run-append ds c rest h.1 k) (rw (h.0) refl)

number_of-IsText : (n : ℕ) (ds rest : List ℕ) → IsText n ds → number_of (ds, rest) ≡ some (n, rest)
number_of-IsText n [] rest h = absurd (h.2 refl)
number_of-IsText n (c ∷ ds) rest h = ap (λ m. some (m, rest)) h.1

show-IsText : (n : ℕ) → IsText n (codes (show n))
unfolding show
show-IsText n = show_from-IsText (suc n) n (omega arith)

pub show-Digits : (n : ℕ) → All (λ c. is_digit c ≡ true) (codes (show n))
show-Digits n = (show-IsText n).0

-- A number is read back from its text, if no digit stands behind it.
pub number-show :
    (n c : ℕ) (rest : List ℕ)
    → is_digit c ≡ false
    → number (codes (show n) ++ c ∷ rest) ≡ some (n, c ∷ rest)
unfolding number
number-show n c rest h =
    ap number_of (digit_run-append (codes (show n)) c rest (show-Digits n) h)
    ∙ number_of-IsText n (codes (show n)) (c ∷ rest) (show-IsText n)
