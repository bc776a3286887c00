-- ===== src/Api/Overview.antt =====
-- device_handler.go: `GetSystemOverview`.
pub mod Online
use Prim.Native.String
use io_t_fleet_management.Prelude.{
  [], ◌∷◌, some, none, true, false, ◌==◌, ◌+◌, if◌then◌else◌, List, ℕ, length, ltb, ◌++◌,
}
use io_t_fleet_management.Go.Value.{str, float}
use io_t_fleet_management.Prelude.Int.{pos}
use io_t_fleet_management.Go.Outcome.{ok, err, attempt, pure, ◌>>=◌, ◌>>◌}
use io_t_fleet_management.Api.{
  value, chart, charts, json, error_json, ChartPoint, Shown, Clock, DeviceHandler, DeviceState,
  Option, ℤ, Action, Answer, default_query,
}
use io_t_fleet_management.Go.Text.Decimal.{decimal}
use io_t_fleet_management.Api.Devices.{history_of, or_nil}
use Prim.Native.String.{String}
use io_t_fleet_management.Go.Float.{Float64}
use io_t_fleet_management.Cloud.{Host, Dynamo, reads}
use io_t_fleet_management.Telemetry.Charts.{calculate_energy, get_chart_max, Table, get_alerts}
use io_t_fleet_management.Telemetry.Periods.{Zone, period_cutoff}
use io_t_fleet_management.Devices.Store.{connection_status, get_all_states}
use io_t_fleet_management.Alerts.{get_all_alerts}
use io_t_fleet_management.Telemetry.Sessions.{calculate_ac_usage}

-- `onlineCount++` for a device that is online.
abbrev pub add_online : String → ℕ → ℕ
add_online status count = if status == "ONLINE" then count + 1 else count

abbrev pub system_status : ℕ → String
system_status online_count = if ltb 0 online_count then "Connected" else "Offline"

abbrev pub devices_online : ℕ → ℕ → String
devices_online online_count total =
    String.◌++◌ (decimal online_count) (String.◌++◌ " / " (decimal total))

module _ {F : Type 0} ⦃d : Float64 F⦄ where
  -- The chart of the alerts, with the maximum of both its parts.
  abbrev pub alerts_fields : List (ChartPoint F) × List (ChartPoint F) → List (String × Shown F)
  alerts_fields (warning, critical) =
      let warning_max = get_chart_max warning in
      let critical_max = get_chart_max critical in
      ("alerts_chart", charts (("warning", warning) ∷ ("critical", critical) ∷ []))
      ∷ (
        "alerts_chart_max",
        value (float (if d.lt warning_max critical_max then critical_max else warning_max)),
      )
      ∷ []

  abbrev pub energy_fields : List (ChartPoint F) → List (String × Shown F)
  energy_fields ac_usage =
      let energy_data = calculate_energy ac_usage in
      ("energy_consumption", chart energy_data)
      ∷ ("energy_chart_max", value (float (get_chart_max energy_data)))
      ∷ []

  abbrev pub status_fields : ℕ → ℕ → List (String × Shown F)
  status_fields online_count total =
      ("system_status", value (str (system_status online_count)))
      ∷ ("devices_online", value (str (devices_online online_count total)))
      ∷ []

module _ {F W Item Raw : Type 0} ⦃d : Float64 F⦄ (host : Host W) (clock : Clock W)
    (visit : Table F → Table F) (zone : Zone) (db : Dynamo F W Item Raw)
    (handler : DeviceHandler F W) where
  -- The loop over the states; each round reads the clock.
  unfoldable pub count_online : List (DeviceState F) → ℕ → Action W ℕ
  count_online [] count = pure count
  count_online (state ∷ others) count = do
    now_ns ← reads clock.nanoseconds
    count_online others (add_online (connection_status now_ns state.last_seen_at) count)

  unfoldable pub show_overview : String → ℤ → List (DeviceState F) → Action W (Answer F)
  show_overview time_filter now found = do
    let cutoff = period_cutoff now time_filter
    online_count ← count_online found 0
    alerts_list ← attempt (get_all_alerts host db handler.alert_store cutoff)
    ac_data ← history_of host clock zone db handler "ac-01" (pos 0) cutoff
    pure (
        json 200 (
          status_fields online_count (length found)
          ++ (alerts_fields (get_alerts visit zone (or_nil alerts_list) time_filter)
              ++ energy_fields (calculate_ac_usage visit zone (or_nil ac_data) now time_filter))))

  unfoldable pub get_system_overview : ℕ → (String → Option String) → Action W (Answer F)
  get_system_overview fuel query = do
    now ← reads host.clock
    fetched ← attempt (get_all_states host db handler.state_store fuel)
    elim fetched [
      | err _ ↦ pure (error_json 500 "Failed to fetch device states")
      | ok none ↦ pure none
      | ok (some found) ↦ show_overview (default_query query "period" "7d") now found
    ]
