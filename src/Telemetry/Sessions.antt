-- ===== src/Telemetry/Sessions.antt =====
-- analytics.go: the loops that pair the readings "on" and "off" of a device. A history lists the
-- newest reading first, and each loop runs from its end.
pub mod RunTime
use mathlib.Core.List.{reverse}
use io_t_fleet_management.Prelude.{
  [], ◌∷◌, ◌==◌, some, none, true, false, ◌+◌, ◌&&◌, List, String, ℕ, if◌then◌else◌, Option, nat_eq,
}
use io_t_fleet_management.Telemetry.Charts.{Table, ChartPoint, plus}
use io_t_fleet_management.Go.Float.{Float64, round1}
use io_t_fleet_management.Prelude.Int.{ℤ, sub64, eq_ℤ, ltb_ℤ, pos, add64}
use io_t_fleet_management.Models.{Telemetry}
use io_t_fleet_management.Telemetry.Periods.{Zone, get_time_format}
use io_t_fleet_management.Go.Value.{as_string, get}

-- `totalUnlockTime`, `unlockCycle` and `unlockTime`.
pub record Unlocking (F : Type 0) : Type 0 where
  pub total : F
  pub cycles : ℕ
  pub since : ℤ

-- `totalSeconds` and `onTime`.
pub record Running : Type 0 where
  pub total : ℤ
  pub since : ℤ

-- `dailyUsage` and `onTime`.
pub record Usage (F : Type 0) : Type 0 where
  pub daily : Table F
  pub since : ℤ

-- A period that ends at `end`, if it has a positive length.
abbrev pub add_run : ℤ → Running → Running
add_run end r =
    let duration = sub64 end r.since in
    if ltb_ℤ (pos 0) duration then record r { total = add64 r.total duration } else r

-- One round of the loop of `CalculateACRunTime`.
abbrev pub run_step : ℤ → String → Running → Running
run_step timestamp state r =
    if state == "ON" && eq_ℤ r.since (pos 0)
    then record r { since = timestamp }
    else if state == "OFF" && ltb_ℤ (pos 0) r.since
    then record (add_run timestamp r) { since = pos 0 }
    else r

-- What is left of a period that has not ended.
abbrev pub run_until : ℤ → Running → ℤ
run_until now r = if ltb_ℤ (pos 0) r.since then (add_run now r).total else r.total

module _ {F : Type 0} where
  -- The state of a reading under a key, if it is a text.
  abbrev pub state_of : String → Telemetry F → Option String
  state_of key t = as_string (get key t.payload)

  unfoldable pub run_loop : List (Telemetry F) → Running → Running
  run_loop [] r = r
  run_loop (t ∷ ts) r = elim (state_of "power_state" t) [
    | none ↦ run_loop ts r
    | some state ↦ run_loop ts (run_step t.timestamp state r)
  ]

  unfoldable pub calculate_ac_run_time : List (Telemetry F) → ℤ → ℤ
  calculate_ac_run_time [] now = pos 0
  calculate_ac_run_time (t ∷ ts) now =
      run_until now (run_loop (reverse (t ∷ ts)) (record { total = pos 0; since = pos 0 }))

module _ {F : Type 0} ⦃d : Float64 F⦄ where
  abbrev pub add_unlock : ℤ → Unlocking F → Unlocking F
  add_unlock end u =
      let duration = sub64 end u.since in
      if ltb_ℤ (pos 0) duration
      then record u { total = d.add u.total (d.of_int duration); cycles = u.cycles + 1 }
      else u

  -- One round of the loop of `CalculateAvgUnlock`.
  abbrev pub unlock_step : ℤ → String → Unlocking F → Unlocking F
  unlock_step timestamp state u =
      if state == "UNLOCKED" && eq_ℤ u.since (pos 0)
      then record u { since = timestamp }
      else if state == "LOCKED" && ltb_ℤ (pos 0) u.since
      then record (add_unlock timestamp u) { since = pos 0 }
      else u

  unfoldable pub unlock_loop : List (Telemetry F) → Unlocking F → Unlocking F
  unlock_loop [] u = u
  unlock_loop (t ∷ ts) u = elim (state_of "lock_state" t) [
    | none ↦ unlock_loop ts u
    | some state ↦ unlock_loop ts (unlock_step t.timestamp state u)
  ]

  abbrev pub unlock_until : ℤ → Unlocking F → Unlocking F
  unlock_until now u = if ltb_ℤ (pos 0) u.since then add_unlock now u else u

  unfoldable pub calculate_avg_unlock : List (Telemetry F) → ℤ → F
  calculate_avg_unlock [] now = d.of_int (pos 0)
  calculate_avg_unlock (t ∷ ts) now =
      let u = unlock_until now (
        unlock_loop (reverse (t ∷ ts))
          (record { total = d.of_int (pos 0); cycles = 0; since = pos 0 })) in
      if nat_eq u.cycles 0
      then d.of_int (pos 0)
      else round1 (d.div (d.div u.total (d.of_int (pos 60))) (d.of_int (pos u.cycles)))

  abbrev pub add_usage : Zone → String → ℤ → Usage F → Usage F
  add_usage zone time_format end u =
      let duration = sub64 end u.since in
      if ltb_ℤ (pos 0) duration
      then record u { daily = plus (d.of_int duration) (zone.format time_format u.since) u.daily }
      else u

  -- One round of the loop of `CalculateACUsage`.
  abbrev pub usage_step : Zone → String → ℤ → String → Usage F → Usage F
  usage_step zone time_format timestamp state u =
      if state == "ON" && eq_ℤ u.since (pos 0)
      then record u { since = timestamp }
      else if state == "OFF" && ltb_ℤ (pos 0) u.since
      then record (add_usage zone time_format timestamp u) { since = pos 0 }
      else u

  unfoldable pub usage_loop : Zone → String → List (Telemetry F) → Usage F → Usage F
  usage_loop zone time_format [] u = u
  usage_loop zone time_format (t ∷ ts) u = elim (state_of "power_state" t) [
    | none ↦ usage_loop zone time_format ts u
    | some state ↦ usage_loop zone time_format ts (usage_step zone time_format t.timestamp state u)
  ]

  abbrev pub usage_until : Zone → String → ℤ → Usage F → Usage F
  usage_until zone time_format now u =
      if ltb_ℤ (pos 0) u.since then add_usage zone time_format now u else u

  abbrev pub hours_of : Table F → List (ChartPoint F)
  hours_of [] = []
  hours_of ((label, total_seconds) ∷ table) =
      record { label = label; value = round1 (d.div total_seconds (d.of_int (pos 3600))) }
      ∷ hours_of table

  -- The points come in the order in which the map is visited.
  unfoldable pub calculate_ac_usage :
      (Table F → Table F) → Zone → List (Telemetry F) → ℤ → String → List (ChartPoint F)
  calculate_ac_usage visit zone [] now period = []
  calculate_ac_usage visit zone (t ∷ ts) now period =
      let time_format = get_time_format period in
      let u =
        usage_until zone time_format now
          (usage_loop zone time_format (reverse (t ∷ ts)) (record { daily = []; since = pos 0 })) in
      hours_of (visit u.daily)
