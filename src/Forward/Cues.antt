-- ===== src/Forward/Cues.antt =====
-- The cues of a transcription (app/proxy.py, `_render_subtitles`).
use llamaswap.Base.{
  ℕ, suc, ◌+◌, ◌≤◌, ◌<◌, String, true, false, Option, List, [], ◌∷◌, length, ◌≡◌, refl, arith,
  Bool-cases, inl, inr,
}
use llamaswap.Json.{ℤ, pos, negsuc, Json, obj, Fields, lookup}
use llamaswap.Forward.Transcripts.{at_most, Cue, as_float, cue_of, cues_from}

at_most_refl : (a : ℤ) → at_most a a ≡ true
at_most_refl (pos a) = ground arith
at_most_refl (negsuc a) = ground arith

at_most_total : (a b : ℤ) → at_most a b ≡ false → at_most b a ≡ true
at_most_total (pos a) (pos b) h = ground arith
at_most_total (pos a) (negsuc b) h = refl
at_most_total (negsuc a) (pos b) h = cc
at_most_total (negsuc a) (negsuc b) h = ground arith

-- A cue lies in time, and has a number of its own.
abbrev pub InPlace : ℕ → ℕ → List Cue → Type 0
InPlace i n [] = Unit
InPlace i n (c ∷ cues) =
    (at_most c.start c.stop ≡ true)
    × (i ≤ c.number)
    × (c.number < n)
    × InPlace (suc c.number) n cues

InPlace-le : (i j n : ℕ) (cues : List Cue) → i ≤ j → InPlace j n cues → InPlace i n cues
InPlace-le i j n [] le h = tt
InPlace-le i j n (c ∷ cues) le h = (h.0, omega arith, h.2, h.3)

module _ (float_text : String → Option ℤ) (shown : Json → String) where
  cue_of-ends :
      (i : ℕ) (fs : Fields)
      → at_most (cue_of float_text shown i fs).start (cue_of float_text shown i fs).stop ≡ true
  unfolding cue_of
  cue_of-ends i fs =
      let start = as_float float_text shown (lookup (obj fs) "start") in
      let stop = as_float float_text shown (lookup (obj fs) "end") in
      elim (Bool-cases (at_most stop start)) [
        | inl before ↦ rw before (at_most_refl start)
        | inr behind ↦ rw behind (at_most_total stop start behind)
      ]

  -- No cue ends before it starts, and the numbers of the cues grow, from the first number on and up
  -- to as many as there are segments.
  pub cues_from-InPlace :
      (i n : ℕ) (segments : List Json)
      → i + length segments ≤ n
      → InPlace i n (cues_from float_text shown i segments)
  unfolding cues_from
  cues_from-InPlace i n [] h = tt
  cues_from-InPlace i n (obj fs ∷ segments) h = (
    cue_of-ends i fs,
    omega arith,
    omega arith,
    cues_from-InPlace (suc i) n segments (omega arith),
  )
  cues_from-InPlace i n (v ∷ segments) h =
      InPlace-le i (suc i) n _ (omega arith) (cues_from-InPlace (suc i) n segments (omega arith))
