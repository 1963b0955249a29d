-- ===== src/Forward/Subtitles.antt =====
-- Times of subtitles (app/proxy.py, `_ts_srt` and `_ts_vtt`). A time is a count of millionths of a
-- second.
use Prim.Native.String.{◌++◌ as str_append}
use llamaswap.Base.{
  ℕ, ◌+◌, ◌*◌, ◌/◌, ◌%◌, ◌≤◌, ◌<◌, String, ltb, if◌then◌else◌, show, ◌≡◌, ◌↔◌, arith,
}

-- Hours, minutes, seconds and milliseconds.
pub record Stamp : Type 0 where
  pub h : ℕ
  pub m : ℕ
  pub sec : ℕ
  pub ms : ℕ

-- `round(x / 1000)` of a count: to the nearest, and to the even one in the middle.
unfoldable pub rounded : ℕ → ℕ
rounded x =
    if ltb (x % 1000) 500
    then x / 1000
    else if ltb 500 (x % 1000)
    then x / 1000 + 1
    else x / 1000 + x / 1000 % 2

unfoldable pub stamp : ℕ → Stamp
unfolding rounded
stamp t = record {
  h = t / 1000000 / 3600;
  m = t / 1000000 % 3600 / 60;
  sec = t / 1000000 % 3600 % 60;
  ms = rounded (t % 1000000);
}

-- `f"{n:02d}"` and `f"{n:03d}"`
unfoldable pub pad2 : ℕ → String
pad2 n = if ltb n 10 then str_append "0" (show n) else show n

unfoldable pub pad3 : ℕ → String
unfolding pad2
pad3 n = if ltb n 100 then str_append "0" (pad2 n) else show n

unfoldable pub stamp_text : String → Stamp → String
unfolding pad2 pad3
stamp_text mark s = str_append (pad2 s.h) (
    str_append ":" (
      str_append (pad2 s.m)
        (str_append ":" (str_append (pad2 s.sec) (str_append mark (pad3 s.ms))))))

unfoldable pub ts_srt : ℕ → String
unfolding stamp_text stamp
ts_srt t = stamp_text "," (stamp t)

unfoldable pub ts_vtt : ℕ → String
unfolding stamp_text stamp
ts_vtt t = stamp_text "." (stamp t)

-- The fields of a time stay in their ranges, but for the milliseconds, which reach 1000 exactly in
-- the last half thousandth of a second; together they tell the time to half a millisecond.
pub stamp_bounds :
    (t : ℕ)
    → ((stamp t).m < 60)
      × ((stamp t).sec < 60)
      × ((stamp t).ms ≤ 1000)
      × (((stamp t).ms ≡ 1000) ↔ (999500 ≤ t % 1000000))
      × (1000 * (1000 * (3600 * (stamp t).h + 60 * (stamp t).m + (stamp t).sec) + (stamp t).ms)
          ≤ t + 500)
      × (t
          ≤ 1000 * (1000 * (3600 * (stamp t).h + 60 * (stamp t).m + (stamp t).sec) + (stamp t).ms)
            + 500)
unfolding stamp rounded
stamp_bounds t = ground arith
