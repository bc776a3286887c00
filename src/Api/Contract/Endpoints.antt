-- ===== src/Api/Contract/Endpoints.antt =====
-- device_handler.go: the answers for the telemetry of a device and for a command, and cmd/api-service
-- with all its endpoints.
use io_t_fleet_management.Prelude.{
  [], ◌∷◌, some, none, refl, String, List, ℕ, ◌==◌, ◌≡◌, Bool, true, false, inl, inr, ◌++◌,
  if◌then◌else◌, eq_iff,
}
use io_t_fleet_management.Prelude.Int.{ℤ, pos}
use io_t_fleet_management.Go.Outcome.{ok, err, Action, Result, pure}
use io_t_fleet_management.Go.Value.{str}
use io_t_fleet_management.Go.Float.{Float64}
use io_t_fleet_management.Go.Ends.{
  Ends, Any, >>=-Ends, pure-Ends, reads-Ends, attempt-Ends, if-Ends,
}
use io_t_fleet_management.Cloud.{Host, Dynamo}
use io_t_fleet_management.Models.{Telemetry, Alert}
use io_t_fleet_management.Api.{
  Clock, DeviceHandler, Answer, json, error_json, value, chart, Shown, default_query, Option,
}
use io_t_fleet_management.Api.Contract.{
  Fits, success, failure, ExtraKeys, archived, charted, with_usage, with_running_time, keys,
}
use io_t_fleet_management.Api.Contract.Calls.{
  CallsCalm, history_of-Ends, save_command-Calm, publish-Calm,
}
use io_t_fleet_management.Api.Contract.Replies.{
  get_devices-Ends, get_sorted_alerts-Ends, get_device_by_id-Ends, get_device_alerts-Ends,
  with_device-Ends, get_system_overview-Ends,
}
use io_t_fleet_management.Telemetry.Charts.{Table}
use io_t_fleet_management.Api.Routes.{
  Endpoint, ping, devices, sorted_alerts, device_by_id, device_telemetry, device_alerts,
  system_overview, commands, Request, serve,
}
use io_t_fleet_management.Telemetry.Periods.{Zone, format_ac_time, period_cutoff}
use io_t_fleet_management.Api.Commands.{
  send_command, dispatch_command, record_command, SendCommandRequest, command_id, command_record,
  command_topic, mqtt_payload,
}
use io_t_fleet_management.Api.History.{
  ac_fields, cold_history, get_device_telemetry, hot_history, monthly_chart, hot_fields,
  request_fields, s3_key, failed_history, no_chart, is_hot_tier,
}
use io_t_fleet_management.Telemetry.Sessions.{calculate_ac_usage, calculate_ac_run_time}
use io_t_fleet_management.Api.Devices.{with_device}

extra_keys :
    {F : Type 0} (a b c : Bool) (u v : Shown F)
    → (b ≡ true → c ≡ false)
    → ExtraKeys (
        "chart_max"
        ∷ keys (
            if a
            then (if b then ("usage_bar", u) ∷ [] else [])
              ++ (if c then ("running_time", v) ∷ [] else [])
            else []))
extra_keys false b c u v p = charted
extra_keys true false false u v p = charted
extra_keys true false true u v p = with_running_time
extra_keys true true c u v p = rw (p refl) with_usage

week_not_day : (period : String) → period == "7d" ≡ true → period == "24h" ≡ false
week_not_day period h = let e : period ≡ "7d" = (eq_iff period "7d").0 h in rw e refl

module _ {F W Item Raw : Type 0} ⦃d : Float64 F⦄ (host : Host W) (clock : Clock W) (zone : Zone)
    (db : Dynamo F W Item Raw) (handler : DeviceHandler F W) (calls : CallsCalm db handler) where
  module _ (visit : Table F → Table F) where
    ac_fields-ExtraKeys :
        (type : String) (raw_data : List (Telemetry F)) (now : ℤ) (period : String)
        → ExtraKeys ("chart_max" ∷ keys (ac_fields visit zone type raw_data now period))
    unfolding ac_fields
    ac_fields-ExtraKeys type raw_data now period =
        extra_keys (type == "ac-actuator") (period == "7d") (period == "24h")
          (chart (calculate_ac_usage visit zone raw_data now period))
          (value (str (format_ac_time (calculate_ac_run_time raw_data now)))) (week_not_day period)

    hot_history-Ends :
        (device_id type metric period : String) (now : ℤ)
        → Ends
            (Fits device_telemetry)
            (hot_history host clock visit zone db handler device_id type metric period now)
    unfolding hot_history hot_fields
    hot_history-Ends device_id type metric period now =
        >>=-Ends _ _
          (history_of-Ends host clock zone db handler calls device_id (pos 0)
            (period_cutoff now period))
          (λ r _. go r)
      where
        go :
            (raw_data : Result (List (Telemetry F)))
            → Ends {W = W}
                (Fits {F = F} device_telemetry)
                (elim raw_data as (λ _. Action W (Answer F)) [
                  | err db_err ↦ pure (error_json 500 (failed_history device_id period db_err))
                  | ok history ↦ pure (
                      json 200 (
                        request_fields device_id period "DynamoDB"
                        ++ hot_fields visit zone type history metric period now))
                ])
        go (err e) =
            pure-Ends _
              (failure device_telemetry 500 (failed_history device_id period e) (inr refl))
        go (ok history) = pure-Ends _ (
            success device_telemetry
              (request_fields device_id period "DynamoDB"
                ++ hot_fields visit zone type history metric period now)
              (_, refl, ac_fields-ExtraKeys type history now period))

    monthly_chart-Ends :
        (device_id period : String)
        → Ends Any (monthly_chart host clock visit zone db handler device_id period)
    unfolding monthly_chart
    monthly_chart-Ends device_id period =
        if-Ends (period == "1m") _ _
          (>>=-Ends _ _ (reads-Ends clock.month) λ month _.
            >>=-Ends _ _ (attempt-Ends _ (calls.fetch (s3_key device_id month))) λ s3_data _.
              pure-Ends
                (elim s3_data [
                  | err _ ↦ no_chart host clock visit zone db handler
                  | ok v ↦ value v
                ])
                tt)
          (pure-Ends (no_chart host clock visit zone db handler) tt)

    cold_history-Ends :
        (device_id period : String)
        → Ends
            (Fits device_telemetry)
            (cold_history host clock visit zone db handler device_id period)
    unfolding cold_history
    cold_history-Ends device_id period =
        >>=-Ends _ _ (monthly_chart-Ends device_id period) λ shown _. pure-Ends _ (
          success device_telemetry
            (request_fields device_id period "S3 processed data" ++ (("data", shown) ∷ []))
            ([], refl, archived))

    get_device_telemetry-Ends :
        (device_id : String) (query : String → Option String)
        → Ends
            (Fits device_telemetry)
            (get_device_telemetry host clock visit zone db handler device_id query)
    unfolding get_device_telemetry with_device
    get_device_telemetry-Ends device_id query =
        let period : String = default_query query "period" "24h" in
        let metric : String = default_query query "metric" "temp" in
        >>=-Ends _ _ (reads-Ends host.clock) λ now _.
          with_device-Ends host clock zone db handler calls device_telemetry device_id _ (inl refl)
            (inr refl)
            λ state.
              if-Ends (is_hot_tier period) _ _
                (hot_history-Ends device_id state.type metric period now)
                (cold_history-Ends device_id period)

  send_command-Ends :
      (device_id : String) (body : Option (SendCommandRequest F))
      → Ends (Fits commands) (send_command host clock db handler device_id body)
  unfolding send_command dispatch_command record_command
  send_command-Ends device_id none =
      pure-Ends _ (failure commands 400 "invalid command format! action is required." (inl refl))
  send_command-Ends device_id (some req) = >>=-Ends _ _ (reads-Ends clock.nanoseconds) λ now_ns _.
      >>=-Ends _ _
        (attempt-Ends _ (
          publish-Calm host clock zone db handler calls (command_topic device_id)
            (mqtt_payload (command_id now_ns) req)))
        (λ r _. go now_ns r)
    where
      go :
          (now_ns : ℤ) (sent : Result (Unit {0}))
          → Ends {W = W} (Fits {F = F} commands) (elim sent as (λ _. Action W (Answer F)) [
            | err _ ↦ pure (error_json 500 "Failed to communicate with device")
            | ok _ ↦ record_command host clock db handler (command_id now_ns) device_id req
          ])
      go now_ns (err e) =
          pure-Ends _ (failure commands 500 "Failed to communicate with device" (inr refl))
      go now_ns (ok _) = >>=-Ends _ _ (reads-Ends host.clock) λ now _.
          >>=-Ends _ _
            (attempt-Ends _ (
              save_command-Calm host clock zone db handler calls
                (command_record (command_id now_ns) device_id now req)))
            λ stored _. pure-Ends _ (
              success commands
                (("message", value (str "Command dispatched successfully"))
                  ∷ ("request_id", value (str (command_id now_ns)))
                  ∷ [])
                refl)

  -- If what the API calls does not panic, every request is answered: with the status of success and
  -- the fields of its endpoint (a device for `device_by_id`), or with a status of failure of that endpoint and one text under
  -- `error`. Where the scan of the devices has more pages than the fuel, there is no answer yet.
  pub serve-Fits :
      (visit : Table F → Table F)
      (sort_slice : (Alert F → Alert F → Bool) → List (Alert F) → List (Alert F)) (fuel : ℕ)
      (endpoint : Endpoint) (request : Request F)
      → Ends
          (Fits endpoint)
          (serve host clock visit zone sort_slice db handler fuel endpoint request)
  unfolding serve
  serve-Fits visit sort_slice fuel ping request = pure-Ends _ (success ping _ refl)
  serve-Fits visit sort_slice fuel devices request =
      get_devices-Ends host clock zone db handler calls fuel
  serve-Fits visit sort_slice fuel sorted_alerts request =
      get_sorted_alerts-Ends host clock zone db handler calls sort_slice
  serve-Fits visit sort_slice fuel device_by_id request =
      get_device_by_id-Ends host clock zone db handler calls request.id
  serve-Fits visit sort_slice fuel device_telemetry request =
      get_device_telemetry-Ends visit request.id request.query
  serve-Fits visit sort_slice fuel device_alerts request =
      get_device_alerts-Ends host clock zone db handler calls request.id
  serve-Fits visit sort_slice fuel system_overview request =
      get_system_overview-Ends host clock zone db handler calls visit fuel request.query
  serve-Fits visit sort_slice fuel commands request = send_command-Ends request.id request.body
