-- ===== src/Telemetry/Periods.antt =====
-- analytics.go: periods, and durations as texts.
pub mod Laws
use Prim.Native.String
use io_t_fleet_management.Prelude.{[], ◌∷◌, ◌==◌, some, none, true, false, ◌+◌, if◌then◌else◌, ℕ}
use Prim.Native.String.{String}
use io_t_fleet_management.Prelude.Int.{ℤ, quot, sub64, ltb_ℤ, pos, rem, eq_ℤ, leb_ℤ}
use io_t_fleet_management.Go.Text.Decimal.{decimal_ℤ}

-- The local time zone: the hour of a Unix time, and `time.Unix(ts, 0).Format(layout)`.
pub record Zone : Type 0 where
  pub hour : ℤ → ℕ
  pub format : String → ℤ → String

unfoldable pub period_cutoff : ℤ → String → ℤ
period_cutoff now period =
    if period == "24h"
    then sub64 now (pos 86400)
    else if period == "7d"
    then sub64 now (pos 604800)
    else if period == "1m"
    then sub64 now (pos 2592000)
    else pos 0

unfoldable pub get_time_format : String → String
get_time_format period =
    if period == "24h"
    then "15:04"
    else if period == "7d"
    then "Mon"
    else if period == "1m"
    then "Jan 02"
    else "2006-01-02"

-- A count with its unit, `%d mins ago`.
abbrev counted : ℤ → String → String
counted n unit = String.◌++◌ (decimal_ℤ n) unit

-- The text for a difference of `diff` seconds.
unfoldable pub ago : ℤ → String
ago diff =
    let mins = quot diff 60 in
    let hours = quot mins 60 in
    let days = quot hours 24 in
    if ltb_ℤ diff (pos 60)
    then "Just now"
    else if ltb_ℤ mins (pos 60)
    then (if eq_ℤ mins (pos 1) then "1 min ago" else counted mins " mins ago")
    else if ltb_ℤ hours (pos 24)
    then (if eq_ℤ hours (pos 1) then "1 hour ago" else counted hours " hours ago")
    else if eq_ℤ days (pos 1)
    then "1 day ago"
    else counted days " days ago"

unfoldable pub time_ago : (ts now : ℤ) → String
time_ago ts now = ago (sub64 now ts)

unfoldable pub format_ac_time : ℤ → String
format_ac_time seconds =
    let hours = quot seconds 3600 in
    let minutes = quot (rem seconds 3600) 60 in
    if leb_ℤ seconds (pos 0)
    then "0m"
    else if ltb_ℤ (pos 0) hours
    then String.◌++◌ (decimal_ℤ hours) (String.◌++◌ "h " (String.◌++◌ (decimal_ℤ minutes) "m"))
    else String.◌++◌ (decimal_ℤ minutes) "m"
