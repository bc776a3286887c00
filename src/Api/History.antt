-- ===== src/Api/History.antt =====
-- device_handler.go: `GetDeviceTelemetry`.
use Prim.Native.String
use io_t_fleet_management.Prelude.{none, some, [], ◌∷◌, ◌++◌, ◌==◌, if◌then◌else◌, List, Bool, ◌||◌}
use io_t_fleet_management.Go.Value.{str, float}
use io_t_fleet_management.Prelude.Int.{pos}
use io_t_fleet_management.Go.Outcome.{ok, err, attempt, pure, ◌>>=◌, Error}
use io_t_fleet_management.Api.{
  value, chart, json, error_json, Shown, Clock, DeviceHandler, ℤ, Action, Option, Answer,
  default_query, some,
}
use io_t_fleet_management.Api.Devices.{history_of}
use Prim.Native.String.{String}
use io_t_fleet_management.Go.Float.{Float64}
use io_t_fleet_management.Cloud.{Host, Dynamo, reads}
use io_t_fleet_management.Telemetry.Charts.{Table, filter_time}
use io_t_fleet_management.Go.Message.{message}
use io_t_fleet_management.Telemetry.Periods.{Zone, format_ac_time, period_cutoff}
use io_t_fleet_management.Models.{Telemetry}
use io_t_fleet_management.Telemetry.Sessions.{calculate_ac_usage, calculate_ac_run_time}
use io_t_fleet_management.Devices.Store.{get_state_by_id}

unfoldable pub is_hot_tier : String → Bool
is_hot_tier period = period == "24h" || period == "7d"

abbrev pub failed_history : String → String → Error → String
failed_history device_id period db_err =
    String.◌++◌ "failed to fetch telemetry history: device_id=" (
      String.◌++◌ device_id
        (String.◌++◌ ", period=" (String.◌++◌ period (String.◌++◌ ", error=" (message db_err)))))

abbrev pub s3_key : String → String → String
s3_key device_id month =
    String.◌++◌ "processed-charts/"
      (String.◌++◌ device_id (String.◌++◌ "/" (String.◌++◌ month ".json")))

module _ {F : Type 0} where
  abbrev pub request_fields : String → String → String → List (String × Shown F)
  request_fields device_id period source =
      ("device_id", value (str device_id))
      ∷ ("period", value (str period))
      ∷ ("source", value (str source))
      ∷ []

module _ {F : Type 0} ⦃d : Float64 F⦄ (visit : Table F → Table F) (zone : Zone) where
  -- The additions for an air conditioner.
  unfoldable pub ac_fields : String → List (Telemetry F) → ℤ → String → List (String × Shown F)
  ac_fields type raw_data now period =
      if type == "ac-actuator"
      then (if period == "7d"
          then ("usage_bar", chart (calculate_ac_usage visit zone raw_data now period)) ∷ []
          else [])
        ++ (if period == "24h"
            then ("running_time", value (str (format_ac_time (calculate_ac_run_time raw_data now))))
              ∷ []
            else [])
      else []

  unfoldable pub hot_fields :
      String → List (Telemetry F) → (metric period : String) → ℤ → List (String × Shown F)
  hot_fields type raw_data metric period now =
      let (chart_data, chart_max) = filter_time visit zone raw_data metric period now in
      ("data", chart chart_data)
      ∷ ("chart_max", value (float chart_max))
      ∷ ac_fields type raw_data now period

module _ {F W Item Raw : Type 0} ⦃d : Float64 F⦄ (host : Host W) (clock : Clock W)
    (visit : Table F → Table F) (zone : Zone) (db : Dynamo F W Item Raw)
    (handler : DeviceHandler F W) where
  unfoldable pub hot_history : String → String → (metric period : String) → ℤ → Action W (Answer F)
  hot_history device_id type metric period now = do
    raw_data ← history_of host clock zone db handler device_id (pos 0) (period_cutoff now period)
    elim raw_data [
      | err db_err ↦ pure (error_json 500 (failed_history device_id period db_err))
      | ok history ↦ pure (
          json 200 (
            request_fields device_id period "DynamoDB"
            ++ hot_fields visit zone type history metric period now))
    ]

  -- An empty array stands for a chart that is not there.
  abbrev pub no_chart : Shown F
  no_chart = chart []

  unfoldable pub monthly_chart : String → String → Action W (Shown F)
  monthly_chart device_id period =
      if period == "1m"
      then (do
        month ← reads clock.month
        s3_data ← attempt (handler.s3_fetcher.get_monthly_chart (s3_key device_id month))
        pure (elim s3_data [ err _ ↦ no_chart | ok v ↦ value v ]))
      else pure no_chart

  unfoldable pub cold_history : String → String → Action W (Answer F)
  cold_history device_id period = do
    shown ← monthly_chart device_id period
    pure (json 200 (request_fields device_id period "S3 processed data" ++ (("data", shown) ∷ [])))

  unfoldable pub get_device_telemetry : String → (String → Option String) → Action W (Answer F)
  get_device_telemetry device_id query = do
    let period = default_query query "period" "24h"
    let metric = default_query query "metric" "temp"
    now ← reads host.clock
    found ← attempt (get_state_by_id host db handler.state_store device_id)
    elim found [
      | err _ ↦ pure (error_json 500 "Internal server error")
      | ok none ↦ pure (error_json 404 "Device not found")
      | ok (some state) ↦
          if is_hot_tier period
          then hot_history device_id state.type metric period now
          else cold_history device_id period
    ]
