-- ===== src/Forward/Transcripts.antt =====
-- Transcriptions in the format that a client asked for (app/proxy.py, `format_transcription` to
-- `_render_subtitles`). A time is a count of millionths of a second. `float_text` is `float` of a
-- text, `none` where it raises, and `shown` is `str` of a JSON value.
use Prim.Native.String.{◌++◌ as str_append}
use llamaswap.Base.{
  ℕ, zero, suc, ◌*◌, String, Bool, true, false, ◌&&◌, Option, none, some, List, [], ◌∷◌, ◌++◌, leb,
  if◌then◌else◌, ◌==◌, string_key, show, lower,
}
use llamaswap.Json.{
  ℤ, pos, negsuc, Json, null, bool, int, float, str, arr, obj, nil, end, field, Fields, get_field,
  lookup, truthy,
}
use llamaswap.Tokens.Meter.{iterated}
use llamaswap.Forward.Bodies.{stripped}
use llamaswap.Forward.Subtitles.{ts_srt, ts_vtt}

-- `a <= b`
abbrev pub at_most : ℤ → ℤ → Bool
at_most (pos a) (pos b) = leb a b
at_most (pos a) (negsuc b) = false
at_most (negsuc a) (pos b) = true
at_most (negsuc a) (negsuc b) = leb b a

-- `max(0.0, t)`
abbrev pub clamped : ℤ → ℕ
clamped (pos n) = n
clamped (negsuc n) = 0

abbrev times : ℤ → ℕ → ℤ
times (pos n) k = pos (n * k)
times (negsuc n) k = elim (suc n * k) [ zero ↦ pos 0 | suc m ↦ negsuc m ]

-- `"\n".join(lines)`
unfoldable pub join_lines : List String → String
join_lines [] = ""
join_lines (l ∷ []) = l
join_lines (l ∷ m ∷ ls) = str_append l (str_append "\n" (join_lines (m ∷ ls)))

-- `text.rstrip("\n") + "\n"`
unfoldable pub without_ends : String → String
without_ends String.[] = String.[]
without_ends (String.◌∷◌ c s) =
    let rest = without_ends s in
    if rest == "" && String.◌∷◌ c String.[] == "\n" then String.[] else String.◌∷◌ c rest

unfoldable pub plain_text : String → String
unfolding without_ends
plain_text s = str_append (without_ends s) "\n"

pub record Cue : Type 0 where
  pub number : ℕ
  pub start : ℤ
  pub stop : ℤ
  pub text : String

pub data Format : Type 0 where
  json text srt vtt verbose_json : Format

-- The names that are known; any other counts as json.
unfoldable pub format_named : String → Format
format_named s =
    if s == "text"
    then text
    else if s == "srt"
    then srt
    else if s == "vtt"
    then vtt
    else if s == "verbose_json"
    then verbose_json
    else json

-- `(fmt or "json").strip().lower()`
unfoldable pub format_of : String → Format
unfolding format_named stripped lower
format_of fmt = if fmt == "" then json else format_named (lower (stripped fmt))

unfoldable pub cue_lines : Bool → Cue → List String
unfolding ts_srt ts_vtt
cue_lines true c =
    show c.number
    ∷ str_append (ts_srt (clamped c.start)) (str_append " --> " (ts_srt (clamped c.stop)))
    ∷ c.text
    ∷ ""
    ∷ []
cue_lines false c =
    str_append (ts_vtt (clamped c.start)) (str_append " --> " (ts_vtt (clamped c.stop)))
    ∷ c.text
    ∷ ""
    ∷ []

unfoldable pub cues_lines : Bool → List Cue → List String
unfolding cue_lines
cues_lines is_srt [] = []
cues_lines is_srt (c ∷ cues) = cue_lines is_srt c ++ cues_lines is_srt cues

unfoldable pub cues_text : Bool → List Cue → String
unfolding join_lines cues_lines
cues_text true cues = join_lines (cues_lines true cues)
cues_text false cues = join_lines ("WEBVTT" ∷ "" ∷ cues_lines false cues)

module _ (float_text : String → Option ℤ) (shown : Json → String) where
  unfoldable pub as_float : Json → ℤ
  as_float (int n) = times n 1000000
  as_float (float x) = x
  as_float (bool true) = pos 1000000
  as_float (bool false) = pos 0
  as_float (str s) = elim (float_text s) [ none ↦ pos 0 | some x ↦ x ]
  as_float v = pos 0

  -- `str(v)`
  abbrev as_text : Json → String
  as_text (str s) = s
  as_text v = shown v

  -- `str(seg.get("text", "")).strip()`
  abbrev segment_text : Fields → String
  unfolding get_field stripped
  segment_text fs = elim (get_field fs "text") [ none ↦ "" | some v ↦ stripped (as_text v) ]

  -- The cue of a segment, which does not end before it starts.
  unfoldable pub cue_of : ℕ → Fields → Cue
  unfolding as_float segment_text
  cue_of i fs =
      let start = as_float (lookup (obj fs) "start") in
      let stop = as_float (lookup (obj fs) "end") in
      record {
        number = i;
        start = start;
        stop = if at_most stop start then start else stop;
        text = segment_text fs;
      }

  -- The cues of the segments that are dictionaries; all segments are numbered.
  unfoldable pub cues_from : ℕ → List Json → List Cue
  unfolding cue_of
  cues_from i [] = []
  cues_from i (obj fs ∷ segments) = cue_of i fs ∷ cues_from (suc i) segments
  cues_from i (v ∷ segments) = cues_from (suc i) segments

  unfoldable pub render_subtitles : Bool → List Json → String
  unfolding cues_text cues_from
  render_subtitles is_srt segments = cues_text is_srt (cues_from 1 segments)

  abbrev pub json_or : Json → Json → Json
  unfolding truthy
  json_or v w = if truthy v then v else w

  -- `None` for a language is null.
  unfoldable pub verbose_json_of : String → Json → Json
  unfolding json_or
  verbose_json_of content language = obj (
      field "task" (str "transcribe") (
        field "language" (json_or language (str "")) (
          field "duration" (float (pos 0))
            (field "text" (str content) (field "segments" (arr nil) end)))))

  abbrev words_of : Json → Fields
  words_of null = end
  words_of v = field "words" v end

  unfoldable pub verbose_dict : Fields → String → Json → Json
  unfolding get_field as_float json_or
  verbose_dict fs content language = obj (
      field "task" (elim (get_field fs "task") [ none ↦ str "transcribe" | some v ↦ v ])
        (field "language" (json_or (lookup (obj fs) "language") (json_or language (str ""))) (
          field "duration" (float (as_float (lookup (obj fs) "duration"))) (
            field "text" (str content) (
              field "segments" (json_or (lookup (obj fs) "segments") (arr nil))
                (words_of (lookup (obj fs) "words")))))))

  abbrev subtitle_type : Bool → String
  subtitle_type true = "application/x-subrip"
  subtitle_type false = "text/vtt"

  abbrev only_cue : Json → String → List Json
  only_cue duration content =
      obj (field "start" (float (pos 0)) (field "end" duration (field "text" (str content) end)))
      ∷ []

  -- Subtitles of a dictionary: of its segments, else one cue of its duration, else its plain text.
  unfoldable pub subtitles : Bool → Fields → String → Option (Json × String)
  unfolding truthy iterated render_subtitles as_float plain_text
  subtitles is_srt fs content =
      let duration = as_float (lookup (obj fs) "duration") in
      if truthy (lookup (obj fs) "segments")
      then elim (iterated (lookup (obj fs) "segments")) [
        | none ↦ none
        | some segments ↦ some (str (render_subtitles is_srt segments), subtitle_type is_srt)
      ]
      else if at_most duration (pos 0)
      then some (str (plain_text content), "text/plain")
      else some
          (str (render_subtitles is_srt (only_cue (float duration) content)), subtitle_type is_srt)

  -- A result that is a text already.
  unfoldable pub format_text : Format → Json → String → Json × String
  unfolding verbose_json_of
  format_text srt language s = (str s, "application/x-subrip")
  format_text vtt language s = (str s, "text/vtt")
  format_text text language s = (str s, "text/plain")
  format_text verbose_json language s = (verbose_json_of s language, "application/json")
  format_text json language s = (obj (field "text" (str s) end), "application/json")

  unfoldable pub format_dict : Format → Json → Fields → Option (Json × String)
  unfolding plain_text verbose_dict subtitles json_or
  format_dict text language fs =
      some (str (plain_text (as_text (json_or (lookup (obj fs) "text") (str "")))), "text/plain")
  format_dict verbose_json language fs = some (
    verbose_dict fs (as_text (json_or (lookup (obj fs) "text") (str ""))) language,
    "application/json",
  )
  format_dict srt language fs =
      subtitles true fs (as_text (json_or (lookup (obj fs) "text") (str "")))
  format_dict vtt language fs =
      subtitles false fs (as_text (json_or (lookup (obj fs) "text") (str "")))
  format_dict json language fs = some (obj fs, "application/json")

  -- The content and its type; `none` where a loop over the segments raises.
  unfoldable pub format_transcription : Json → String → Json → Option (Json × String)
  unfolding format_of format_text format_dict
  format_transcription (str s) fmt language = some (format_text (format_of fmt) language s)
  format_transcription (obj fs) fmt language = format_dict (format_of fmt) language fs
  format_transcription v fmt language =
      some (obj (field "text" (str (as_text v)) end), "application/json")
