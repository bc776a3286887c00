-- ===== src/Api/Keeps/Answers.antt =====
-- device_handler.go: the handlers of the GET requests for one device, for the alerts and for the
-- overview.

use io_t_fleet_management.Prelude.{[], ◌∷◌, some, none, String, List, ◌==◌, ◌++◌, Bool}
use io_t_fleet_management.Prelude.Int.{pos, sub64}
use io_t_fleet_management.Go.Value.{Payload}
use io_t_fleet_management.Go.Outcome.{ok, err, attempt, pure, Action, Result}
use io_t_fleet_management.Go.Float.{Float64}
use io_t_fleet_management.Go.Keeps.{
  IsPreorder, Keeps, pure-Keeps, >>=-Keeps, attempt-Keeps, reads-Keeps, if-Keeps, Result-Keeps,
}
use io_t_fleet_management.Cloud.{Host, Dynamo}
use io_t_fleet_management.Api.{
  Clock, DeviceHandler, Answer, json, error_json, value, chart, alerts, ℤ, Alert, DeviceState,
  Option, ℕ, default_query, Body,
}
use io_t_fleet_management.Api.Keeps.{ReadsKeep}
use io_t_fleet_management.Api.Keeps.Reads.{
  history_of-Keeps, show_door-Keeps, show_temp-Keeps, show_gas-Keeps, second-Keeps,
  nanoseconds-Keeps,
}
use io_t_fleet_management.Api.Devices.{
  get_device_by_id, show_ac, show_device, show_payload, with_device, with_light, with_ac_events,
  with_status,
}
use io_t_fleet_management.Telemetry.Periods.{Zone, period_cutoff}
use io_t_fleet_management.Api.Alerts.{get_device_alerts, get_sorted_alerts, newer_first}
use io_t_fleet_management.Devices.Store.{get_state_by_id, connection_status}
use io_t_fleet_management.Telemetry.Charts.{Table}
use io_t_fleet_management.Alerts.{get_all_alerts}
use io_t_fleet_management.Alerts.Keeps.{get_alerts_by_device-Keeps, get_all_alerts-Keeps}
use io_t_fleet_management.Api.History.{
  get_device_telemetry, hot_history, monthly_chart, cold_history, is_hot_tier, request_fields,
  hot_fields, s3_key, failed_history,
}
use io_t_fleet_management.Api.Overview.{count_online, add_online}
use io_t_fleet_management.Api.Views.{show_ac_stats, add_ac_stats, inside_temp}
use io_t_fleet_management.Devices.Store.Keeps.{get_state_by_id-Keeps}

module _ {F W Item Raw : Type 0} ⦃d : Float64 F⦄ (R : W → W → Type 0) (order : IsPreorder R)
    (host : Host W) (clock : Clock W) (zone : Zone) (db : Dynamo F W Item Raw)
    (handler : DeviceHandler F W) (calls : ReadsKeep R host clock db handler) where
  state-Keeps :
      (device_id : String)
      → Keeps R (attempt (get_state_by_id host db handler.state_store device_id))
  state-Keeps device_id =
      attempt-Keeps R order _
        (get_state_by_id-Keeps R order host db handler.state_store device_id calls.get_item)

  show_ac-Keeps :
      (device_id : String) (payload : Payload F)
      → Keeps R (show_ac host clock zone db handler device_id payload)
  unfolding show_ac show_ac_stats
  show_ac-Keeps device_id payload =
      >>=-Keeps R order _ _ (second-Keeps R order host clock zone db handler calls) λ now.
        >>=-Keeps R order _ _
          (history_of-Keeps R order host clock zone db handler calls device_id (pos 5) (pos 0))
          λ recent. >>=-Keeps R order _ _ (state-Keeps "temp-sensor-01") λ temp_state.
            pure-Keeps R order
              (add_ac_stats (with_ac_events zone recent payload) (inside_temp temp_state) now)

  show_payload-Keeps :
      (device_id type : String) (payload : Payload F)
      → Keeps R (show_payload host clock zone db handler device_id type payload)
  unfolding show_payload
  show_payload-Keeps device_id type payload =
      if-Keeps R order (type == "door-actuator") _ _
        (show_door-Keeps R order host clock zone db handler calls device_id payload)
        (if-Keeps R order (type == "ac-actuator") _ _ (show_ac-Keeps device_id payload) (
          if-Keeps R order (type == "temp-sensor") _ _
            (show_temp-Keeps R order host clock zone db handler calls device_id payload)
            (if-Keeps R order (type == "gas-sensor") _ _
              (show_gas-Keeps R order host clock zone db handler calls device_id payload)
              (pure-Keeps R order payload))))

  show_device-Keeps :
      (device_id : String) (state : DeviceState F)
      → Keeps R (show_device host clock zone db handler device_id state)
  unfolding show_device
  show_device-Keeps device_id state =
      >>=-Keeps R order _ _ (nanoseconds-Keeps R order host clock zone db handler calls) λ now_ns.
        >>=-Keeps R order _ _
          (show_payload-Keeps device_id (with_light (with_status now_ns state)).type
            (with_light (with_status now_ns state)).payload)
          λ payload. pure-Keeps R order (
            some (record {
              status = 200;
              body =
                  Body.device
                    (record (with_light (with_status now_ns state)) { payload = payload });
            }))

  with_device-Keeps :
      (device_id : String) (continue : DeviceState F → Action W (Answer F))
      → ((state : DeviceState F) → Keeps R (continue state))
      → Keeps R (with_device host clock zone db handler device_id continue)
  unfolding with_device
  with_device-Keeps device_id continue later = >>=-Keeps R order _ _ (state-Keeps device_id) go
    where
      go :
          (found : Result (Option (DeviceState F)))
          → Keeps R {A = Answer F} (elim found as (λ _. Action W (Answer F)) [
            | err _ ↦ pure (error_json 500 "Internal server error")
            | ok none ↦ pure (error_json 404 "Device not found")
            | ok (some state) ↦ continue state
          ])
      go (err e) = pure-Keeps R order (error_json 500 "Internal server error")
      go (ok none) = pure-Keeps R order (error_json 404 "Device not found")
      go (ok (some state)) = later state

  pub get_device_by_id-Keeps :
      (device_id : String) → Keeps R (get_device_by_id host clock zone db handler device_id)
  unfolding get_device_by_id with_device
  get_device_by_id-Keeps device_id =
      with_device-Keeps device_id (show_device host clock zone db handler device_id)
        (show_device-Keeps device_id)

  pub all_alerts-Keeps :
      (since : ℤ) → Keeps R (attempt (get_all_alerts host db handler.alert_store since))
  all_alerts-Keeps since =
      attempt-Keeps R order _
        (get_all_alerts-Keeps R order host db handler.alert_store since calls.scan)

  pub get_sorted_alerts-Keeps :
      (sort_slice : (Alert F → Alert F → Bool) → List (Alert F) → List (Alert F))
      → Keeps R (get_sorted_alerts host clock zone db handler sort_slice)
  unfolding get_sorted_alerts
  get_sorted_alerts-Keeps sort_slice =
      >>=-Keeps R order _ _ (second-Keeps R order host clock zone db handler calls) λ now.
        >>=-Keeps R order _ _ (all_alerts-Keeps (sub64 now (pos 604800))) λ fetched.
          Result-Keeps R order fetched _ _
            (λ alert_list.
              pure-Keeps R order
                (json 200 (("data", alerts (sort_slice newer_first alert_list)) ∷ [])))
            (λ e. pure-Keeps R order (error_json 500 "Failed to fetch global alerts"))

  pub get_device_alerts-Keeps :
      (device_id : String) → Keeps R (get_device_alerts host clock zone db handler device_id)
  unfolding get_device_alerts with_device
  get_device_alerts-Keeps device_id = with_device-Keeps device_id _ λ state.
      >>=-Keeps R order _ _
        (attempt-Keeps R order _ (
          get_alerts_by_device-Keeps R order host db handler.alert_store device_id (pos 0)
            calls.query))
        λ fetched.
          Result-Keeps R order fetched _ _
            (λ alert_list. pure-Keeps R order (json 200 (("data", alerts alert_list) ∷ [])))
            (λ e. pure-Keeps R order (error_json 500 "Failed to fetch alerts"))

  module _ (visit : Table F → Table F) where
    hot_history-Keeps :
        (device_id type metric period : String) (now : ℤ)
        → Keeps R (hot_history host clock visit zone db handler device_id type metric period now)
    unfolding hot_history
    hot_history-Keeps device_id type metric period now =
        >>=-Keeps R order _ _
          (history_of-Keeps R order host clock zone db handler calls device_id (pos 0)
            (period_cutoff now period))
          λ raw_data.
            Result-Keeps R order raw_data _ _
              (λ history. pure-Keeps R order (
                json 200 (
                  request_fields device_id period "DynamoDB"
                  ++ hot_fields visit zone type history metric period now)))
              (λ db_err.
                pure-Keeps R order (error_json 500 (failed_history device_id period db_err)))

    monthly_chart-Keeps :
        (device_id period : String)
        → Keeps R (monthly_chart host clock visit zone db handler device_id period)
    unfolding monthly_chart
    monthly_chart-Keeps device_id period =
        if-Keeps R order (period == "1m") _ _
          (>>=-Keeps R order _ _ (reads-Keeps R order clock.month calls.month) λ month.
            >>=-Keeps R order _ _ (attempt-Keeps R order _ (calls.fetch (s3_key device_id month)))
              λ s3_data. pure-Keeps R order (elim s3_data [ err _ ↦ chart [] | ok v ↦ value v ]))
          (pure-Keeps R order (chart []))

    pub get_device_telemetry-Keeps :
        (device_id : String) (query : String → Option String)
        → Keeps R (get_device_telemetry host clock visit zone db handler device_id query)
    unfolding get_device_telemetry cold_history with_device
    get_device_telemetry-Keeps device_id query =
        let period = default_query query "period" "24h" in
        >>=-Keeps R order _ _ (second-Keeps R order host clock zone db handler calls) λ now.
          with_device-Keeps device_id _ λ state.
            if-Keeps R order (is_hot_tier period) _ _
              (hot_history-Keeps device_id state.type (default_query query "metric" "temp") period
                now)
              (>>=-Keeps R order _ _ (monthly_chart-Keeps device_id period) λ shown.
                pure-Keeps R order (
                  json 200 (
                    request_fields device_id period "S3 processed data" ++ (("data", shown) ∷ []))))

    pub count_online-Keeps :
        (found : List (DeviceState F)) (count : ℕ)
        → Keeps R (count_online host clock visit zone db handler found count)
    unfolding count_online
    count_online-Keeps [] count = pure-Keeps R order count
    count_online-Keeps (state ∷ others) count =
        >>=-Keeps R order _ _ (nanoseconds-Keeps R order host clock zone db handler calls) λ now_ns.
          count_online-Keeps others (add_online (connection_status now_ns state.last_seen_at) count)
