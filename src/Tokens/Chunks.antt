-- ===== src/Tokens/Chunks.antt =====
-- The chunks of a stream (app/proxy.py, `StreamTokenMeter.feed`).
use llamaswap.Base.{
  ℕ, ◌≡◌, refl, sym, ap, ◌∙◌, inl, inr, false, Option, none, some, List, [], ◌∷◌, ◌++◌, eqb, ltb,
  ◌||◌, Bool-cases, Option-cases,
}
use mathlib.Core.List.{append_assoc}
use llamaswap.Json.{Json, obj, Fields, lookup, is_obj}
use llamaswap.Tokens.Meter.{
  Meter, split_lines, put_byte, take_line, take_lines, feed, take_object, take_loaded, take_payload,
  is_nil, same_bytes, end_mark, int_or_zero, iterated, choices_tokens, after_data, left_strip,
  right_strip,
}

-- More bytes behind a text that was split.
abbrev pub more : List (List ℕ) × List ℕ → List (List ℕ) × List ℕ → List (List ℕ) × List ℕ
more p q = (p.0 ++ q.0, q.1)

put_more :
    (c : ℕ) (p : List (List ℕ) × List ℕ) (ys : List ℕ)
    → eqb c 10 ≡ false
    → put_byte c (more p (split_lines (p.1 ++ ys)))
      ≡ more (put_byte c p) (split_lines ((put_byte c p).1 ++ ys))
unfolding put_byte split_lines
put_more c ([], rest) ys inside = rw inside refl
put_more c (l ∷ ls, rest) ys inside = refl

pub split_more :
    (xs ys : List ℕ)
    → split_lines (xs ++ ys) ≡ more (split_lines xs) (split_lines ((split_lines xs).1 ++ ys))
unfolding split_lines
split_more [] ys = refl
split_more (c ∷ xs) ys = elim (Bool-cases (eqb c 10)) [
  | inl newline ↦
      rw newline (ap (λ (q : List (List ℕ) × List ℕ). ([] ∷ q.0, q.1)) (split_more xs ys))
  | inr inside ↦
      rw inside (ap (put_byte c) (split_more xs ys) ∙ put_more c (split_lines xs) ys inside)
]

-- The line that has not ended is read by no line that has.
abbrev with_buf : List ℕ → Option Meter → Option Meter
with_buf b none = none
with_buf b (some m) = some (record m { buf = b })

abbrev then_lines : (List ℕ → Option Json) → List (List ℕ) → Option Meter → Option Meter
then_lines loads ls none = none
then_lines loads ls (some m) = take_lines loads ls m

lines_append :
    (loads : List ℕ → Option Json) (ls ks : List (List ℕ)) (m : Meter)
    → take_lines loads (ls ++ ks) m ≡ then_lines loads ks (take_lines loads ls m)
unfolding take_lines
lines_append loads [] ks m = refl
lines_append loads (l ∷ ls) ks m = elim (Option-cases (take_line loads l m)) [
  | inl raises ↦ rw (raises, take_lines) refl
  | inr (m', goes_on) ↦ rw (goes_on, take_lines) (lines_append loads ls ks m')
]

object_frame :
    (fs : Fields) (m : Meter) (b : List ℕ)
    → take_object fs (record m { buf = b }) ≡ with_buf b (take_object fs m)
unfolding take_object
object_frame fs m b = elim (Bool-cases (is_obj (lookup (obj fs) "usage"))) [
  | inl named ↦
      let prompt = int_or_zero (lookup (lookup (obj fs) "usage") "prompt_tokens") in
      let completion = int_or_zero (lookup (lookup (obj fs) "usage") "completion_tokens") in
      elim (Bool-cases (ltb 0 prompt || ltb 0 completion)) [
        | inl counts ↦ rw (named, counts) refl
        | inr empty ↦ rw (named, empty) refl
      ]
  | inr unnamed ↦ elim (Option-cases (iterated (lookup (obj fs) "choices"))) [
    | inl raises ↦ rw (unnamed, raises) refl
    | inr (cs, listed) ↦ elim (Option-cases (choices_tokens cs)) [
      | inl raises ↦ rw (unnamed, listed, raises) refl
      | inr (n, counted) ↦ rw (unnamed, listed, counted) refl
    ]
  ]
]

loaded_frame :
    (j : Option Json) (m : Meter) (b : List ℕ)
    → take_loaded j (record m { buf = b }) ≡ with_buf b (take_loaded j m)
unfolding take_loaded
loaded_frame (some (obj fs)) m b = object_frame fs m b
loaded_frame _ m b = refl

payload_frame :
    (loads : List ℕ → Option Json) (payload : List ℕ) (m : Meter) (b : List ℕ)
    → take_payload loads payload (record m { buf = b }) ≡ with_buf b (take_payload loads payload m)
unfolding take_payload
payload_frame loads payload m b =
    elim (Bool-cases (is_nil payload || same_bytes payload end_mark)) [
      | inl skipped ↦ rw skipped refl
      | inr read ↦ rw read (loaded_frame (loads payload) m b)
    ]

line_frame :
    (loads : List ℕ → Option Json) (line : List ℕ) (m : Meter) (b : List ℕ)
    → take_line loads line (record m { buf = b }) ≡ with_buf b (take_line loads line m)
unfolding take_line
line_frame loads line m b = elim (Option-cases (after_data line)) [
  | inl other ↦ rw (other, take_line) refl
  | inr (rest, event) ↦
      rw (event, take_line) (payload_frame loads (right_strip (left_strip rest)) m b)
]

lines_frame :
    (loads : List ℕ → Option Json) (ls : List (List ℕ)) (m : Meter) (b : List ℕ)
    → take_lines loads ls (record m { buf = b }) ≡ with_buf b (take_lines loads ls m)
unfolding take_lines
lines_frame loads [] m b = refl
lines_frame loads (l ∷ ls) m b = elim (Option-cases (take_line loads l m)) [
  | inl raises ↦ let e = line_frame loads l m b in rw (take_lines, e, raises) refl
  | inr (m', goes_on) ↦
      let e = line_frame loads l m b in rw (take_lines, e, goes_on) (lines_frame loads ls m' b)
]

abbrev pub then_feed : (List ℕ → Option Json) → List ℕ → Option Meter → Option Meter
then_feed loads chunk none = none
then_feed loads chunk (some m) = feed loads chunk m

feed_rest :
    (loads : List ℕ → Option Json) (ys rest : List ℕ) (m : Option Meter)
    → then_lines loads (split_lines (rest ++ ys)).0 (with_buf (split_lines (rest ++ ys)).1 m)
      ≡ then_feed loads ys (with_buf rest m)
unfolding feed
feed_rest loads ys rest none = refl
feed_rest loads ys rest (some m) = refl

-- Two chunks count as one chunk of all their bytes: where a stream is cut, be it inside a line,
-- changes neither the counts nor whether the meter raises.
pub feed-append :
    (loads : List ℕ → Option Json) (xs ys : List ℕ) (m : Meter)
    → feed loads (xs ++ ys) m ≡ then_feed loads ys (feed loads xs m)
unfolding feed
feed-append loads xs ys m =
    let p = split_lines (m.buf ++ xs) in
    let q = split_lines (p.1 ++ ys) in
    let s : split_lines (m.buf ++ (xs ++ ys)) ≡ more p q =
      ap split_lines (sym (append_assoc m.buf xs ys)) ∙ split_more (m.buf ++ xs) ys in
    rw s (
      rw
        (
          lines_append loads p.0 q.0 (record m { buf = q.1 }),
          lines_frame loads p.0 m q.1,
          lines_frame loads p.0 m p.1,
        )
        (feed_rest loads ys p.1 (take_lines loads p.0 m)))
