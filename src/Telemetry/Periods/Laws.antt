-- ===== src/Telemetry/Periods/Laws.antt =====
-- analytics.go: `FormatACTime` and `TimeAgo`.
use Prim.Native.String
use io_t_fleet_management.Prelude.{
  inl, inr, true, false, ◌+◌, ℕ, ◌<◌, ◌*◌, ◌≡◌, String, if◌then◌else◌, ltb, ◌/◌, arith, ◌%◌,
  Bool-cases,
}
use io_t_fleet_management.Telemetry.Periods.{format_ac_time, time_ago, ago}
use io_t_fleet_management.Prelude.Int.{
  quot, rem, pos, ℤ, IsInt64, ◌-ℤ◌, pos_part, sub64_exact, negsuc, ltb_ℤ, leb_ℤ, eq_ℤ,
}
use io_t_fleet_management.Go.Text.Decimal.{decimal_ℤ, decimal}

-- A positive duration of `h` hours, `m` minutes and some seconds is shown as its hours and minutes,
-- without the hours if there are none; nothing else is shown.
pub format_ac_time_lem :
    (h m s : ℕ)
    → m < 60
    → s < 60
    → 0 < h * 3600 + m * 60 + s
    → format_ac_time (pos (h * 3600 + m * 60 + s)) ≡ (
        if ltb 0 h
        then String.◌++◌ (decimal h) (String.◌++◌ "h " (String.◌++◌ (decimal m) "m"))
        else String.◌++◌ (decimal m) "m")
unfolding format_ac_time quot rem decimal_ℤ
format_ac_time_lem h m s hm hs positive =
    let total = h * 3600 + m * 60 + s in
    let hours : total / 3600 ≡ h = omega arith in
    let minutes : total % 3600 / 60 ≡ m = omega arith in
    let more : leb_ℤ (pos total) (pos 0) ≡ false = ground arith in
    rw (more, hours, minutes) (ground arith)

-- The text of an age in seconds, by the largest unit that fits: under a minute, minutes under an
-- hour, hours under a day, and days.
abbrev pub age_text : ℕ → String
age_text age =
    if ltb age 60
    then "Just now"
    else if ltb age 3600
    then (if ltb age 120 then "1 min ago" else String.◌++◌ (decimal (age / 60)) " mins ago")
    else if ltb age 86400
    then (if ltb age 7200 then "1 hour ago" else String.◌++◌ (decimal (age / 3600)) " hours ago")
    else if ltb age 172800
    then "1 day ago"
    else String.◌++◌ (decimal (age / 86400)) " days ago"

ago_lem : (diff : ℤ) → ago diff ≡ age_text (pos_part diff)
unfolding ago quot decimal_ℤ
ago_lem (negsuc n) = let early : ltb_ℤ (negsuc n) (pos 60) ≡ true = ground arith in rw early
ago_lem (pos n) =
    let q : n / 60 / 60 ≡ n / 3600 = omega arith in
    let r : n / 3600 / 24 ≡ n / 86400 = omega arith in
    let a : ltb_ℤ (pos n) (pos 60) ≡ ltb n 60 = ground arith in
    let b : ltb_ℤ (pos (n / 60)) (pos 60) ≡ ltb n 3600 = ground arith in
    let c : ltb_ℤ (pos (n / 3600)) (pos 24) ≡ ltb n 86400 = ground arith in
    let x : ltb n 60 ≡ false → eq_ℤ (pos (n / 60)) (pos 1) ≡ ltb n 120 = λ h. ground arith in
    let y : ltb n 3600 ≡ false → eq_ℤ (pos (n / 3600)) (pos 1) ≡ ltb n 7200 = λ h. ground arith in
    let z : ltb n 86400 ≡ false → eq_ℤ (pos (n / 86400)) (pos 1) ≡ ltb n 172800 =
      λ h. ground arith in
    elim (Bool-cases (ltb n 60)) [
      | inl e ↦ rw (q, r, a, b, c, e)
      | inr e ↦ elim (Bool-cases (ltb n 3600)) [
        | inl f ↦ rw (q, r, a, b, c, e, f, x e)
        | inr f ↦ elim (Bool-cases (ltb n 86400)) [
          | inl g ↦ rw (q, r, a, b, c, e, f, g, y f)
          | inr g ↦ rw (q, r, a, b, c, e, f, g, z g)
        ]
      ]
    ]

-- A time that lies `age` seconds before the clock, whose difference fits an `int64`, is described by
-- that age; a time ahead of the clock is described as just now.
pub time_ago_lem :
    (ts now : ℤ) → IsInt64 (now -ℤ ts) → time_ago ts now ≡ age_text (pos_part (now -ℤ ts))
unfolding time_ago
time_ago_lem ts now fits = rw (sub64_exact now ts fits) (ago_lem (now -ℤ ts))
