-- ===== src/Api/Keeps/Endpoints.antt =====
-- device_handler.go: the overview, the command, and every endpoint of cmd/api-service/main.go.
use Prim.Native.String
use io_t_fleet_management.Prelude.{[], ◌∷◌, some, none, String, List, ◌++◌, Bool, ◌≡◌, length, refl}
use io_t_fleet_management.Prelude.Int.{pos, eq_ℤ}
use io_t_fleet_management.Go.Value.{str, Value}
use io_t_fleet_management.Go.Outcome.{ok, err, pure, Action, Result}
use io_t_fleet_management.Go.Float.{Float64}
use io_t_fleet_management.Go.Keeps.{
  IsPreorder, Keeps, pure-Keeps, >>=-Keeps, attempt-Keeps, if-Keeps, Result-Keeps, annotate-Keeps,
  from-Keeps,
}
use io_t_fleet_management.Cloud.{Host, Dynamo, days_from}
use io_t_fleet_management.Api.{
  Clock, DeviceHandler, Answer, json, error_json, value, ℕ, Alert, Option, ℤ, DeviceState,
  default_query,
}
use io_t_fleet_management.Api.Keeps.{ReadsKeep}
use io_t_fleet_management.Api.Keeps.Reads.{
  history_of-Keeps, states-Keeps, second-Keeps, nanoseconds-Keeps, get_devices-Keeps,
}
use io_t_fleet_management.Api.Keeps.Answers.{
  count_online-Keeps, all_alerts-Keeps, get_sorted_alerts-Keeps, get_device_by_id-Keeps,
  get_device_telemetry-Keeps, get_device_alerts-Keeps,
}
use io_t_fleet_management.Iot.{publish, marshal}
use io_t_fleet_management.Api.Routes.{
  Endpoint, ping, devices, sorted_alerts, device_by_id, device_telemetry, device_alerts,
  system_overview, commands, serve, Request,
}
use io_t_fleet_management.Telemetry.Periods.{Zone, period_cutoff}
use io_t_fleet_management.Api.Commands.{
  record_command, send_command, SendCommandRequest, dispatch_command, command_record, command_topic,
  dispatched, mqtt_payload, command_id,
}
use io_t_fleet_management.Commands.{save_command}
use io_t_fleet_management.Telemetry.Charts.{Table, get_alerts}
use io_t_fleet_management.Api.Overview.{
  get_system_overview, show_overview, status_fields, alerts_fields, energy_fields,
}
use io_t_fleet_management.Models.{Command}
use io_t_fleet_management.Api.Devices.{or_nil}
use io_t_fleet_management.Telemetry.Sessions.{calculate_ac_usage}

-- What a command does beside reading the clock.
pub record CommandKeeps {F W Item Raw : Type 0} (R : W → W → Type 0) (db : Dynamo F W Item Raw)
    (handler : DeviceHandler F W) : Type 0 where
  pub put : (item : Item) → Keeps R (db.put_item handler.command_store.table_name item)
  pub publish :
      (topic : String) (payload : Value F) (qos : ℕ)
      → Keeps R (handler.iot_publisher.client.publish topic payload qos)

module _ {F W Item Raw : Type 0} ⦃d : Float64 F⦄ (R : W → W → Type 0) (order : IsPreorder R)
    (host : Host W) (clock : Clock W) (zone : Zone) (db : Dynamo F W Item Raw)
    (handler : DeviceHandler F W) (calls : ReadsKeep R host clock db handler) where
  module _ (visit : Table F → Table F) where
    show_overview-Keeps :
        (time_filter : String) (now : ℤ) (found : List (DeviceState F))
        → Keeps R (show_overview host clock visit zone db handler time_filter now found)
    unfolding show_overview
    show_overview-Keeps time_filter now found =
        >>=-Keeps R order _ _
          (count_online-Keeps R order host clock zone db handler calls visit found 0)
          λ online_count.
            >>=-Keeps R order _ _
              (all_alerts-Keeps R order host clock zone db handler calls
                (period_cutoff now time_filter))
              λ alerts_list.
                >>=-Keeps R order _ _
                  (history_of-Keeps R order host clock zone db handler calls "ac-01" (pos 0)
                    (period_cutoff now time_filter))
                  λ ac_data. pure-Keeps R order (
                    json 200 (
                      status_fields online_count (length found)
                      ++ (alerts_fields (get_alerts visit zone (or_nil alerts_list) time_filter)
                          ++ energy_fields
                              (calculate_ac_usage visit zone (or_nil ac_data) now time_filter))))

    get_system_overview-Keeps :
        (fuel : ℕ) (query : String → Option String)
        → Keeps R (get_system_overview host clock visit zone db handler fuel query)
    unfolding get_system_overview
    get_system_overview-Keeps fuel query =
        >>=-Keeps R order _ _ (second-Keeps R order host clock zone db handler calls) λ now.
          >>=-Keeps R order _ _ (states-Keeps R order host clock zone db handler calls fuel)
            (go now)
      where
        go :
            (now : ℤ) (fetched : Result (Option (List (DeviceState F))))
            → Keeps R {A = Answer F} (elim fetched as (λ _. Action W (Answer F)) [
              | err _ ↦ pure (error_json 500 "Failed to fetch device states")
              | ok none ↦ pure none
              | ok (some found) ↦
                  show_overview host clock visit zone db handler
                    (default_query query "period" "7d")
                    now
                    found
            ])
        go now (err e) = pure-Keeps R order (error_json 500 "Failed to fetch device states")
        go now (ok none) = pure-Keeps R order none
        go now (ok (some found)) = show_overview-Keeps (default_query query "period" "7d") now found

  module _ (writes : CommandKeeps R db handler) where
    save_command-Keeps :
        (cmd : Command F) → Keeps R (save_command host db handler.command_store cmd)
    unfolding save_command
    save_command-Keeps cmd =
        >>=-Keeps R order _ _
          (if-Keeps R order (eq_ℤ cmd.expires_at (pos 0)) _ _
            (>>=-Keeps R order _ _ (second-Keeps R order host clock zone db handler calls)
              λ now. pure-Keeps R order (record cmd { expires_at = days_from now 30 }))
            (pure-Keeps R order cmd))
          λ kept.
            >>=-Keeps R order _ _
              (if-Keeps R order (eq_ℤ kept.timestamp (pos 0)) _ _
                (>>=-Keeps R order _ _ (second-Keeps R order host clock zone db handler calls)
                  λ now. pure-Keeps R order (record kept { timestamp = now }))
                (pure-Keeps R order kept))
              λ dated.
                >>=-Keeps R order _ _
                  (annotate-Keeps R order "failed to marshal command" _
                    (from-Keeps R order (db.marshal_command dated)))
                  λ item.
                    annotate-Keeps R order "failed to store command in dynamodb" _ (writes.put item)

    publish-Keeps :
        (topic : String) (payload : Value F) → Keeps R (publish handler.iot_publisher topic payload)
    unfolding publish
    publish-Keeps topic payload =
        >>=-Keeps R order _ _
          (annotate-Keeps R order "failed to marshal payload for IoT" _
            (from-Keeps R order (marshal payload)))
          λ payload_data.
            annotate-Keeps R order (String.◌++◌ "failed to publish to topic " topic) _
              (writes.publish topic payload_data 1)

    record_command-Keeps :
        (request_id device_id : String) (req : SendCommandRequest F)
        → Keeps R (record_command host clock db handler request_id device_id req)
    unfolding record_command
    record_command-Keeps request_id device_id req =
        >>=-Keeps R order _ _ (second-Keeps R order host clock zone db handler calls) λ now.
          >>=-Keeps R order _ _
            (attempt-Keeps R order _
              (save_command-Keeps (command_record request_id device_id now req)))
            λ stored. pure-Keeps R order (dispatched request_id)

    send_command-Keeps :
        (device_id : String) (body : Option (SendCommandRequest F))
        → Keeps R (send_command host clock db handler device_id body)
    unfolding send_command dispatch_command
    send_command-Keeps device_id none =
        pure-Keeps R order (error_json 400 "invalid command format! action is required.")
    send_command-Keeps device_id (some req) =
        >>=-Keeps R order _ _ (nanoseconds-Keeps R order host clock zone db handler calls) λ now_ns.
          >>=-Keeps R order _ _
            (attempt-Keeps R order _
              (publish-Keeps (command_topic device_id) (mqtt_payload (command_id now_ns) req)))
            λ sent.
              Result-Keeps R order sent _ _
                (λ done. record_command-Keeps (command_id now_ns) device_id req)
                (λ e. pure-Keeps R order (error_json 500 "Failed to communicate with device"))

  module _ (visit : Table F → Table F)
      (sort_slice : (Alert F → Alert F → Bool) → List (Alert F) → List (Alert F)) (fuel : ℕ) where
    -- A request whose endpoint writes is one for a command.
    pub serve-Keeps :
        (endpoint : Endpoint) (request : Request F)
        → (endpoint ≡ commands → CommandKeeps R db handler)
        → Keeps R (serve host clock visit zone sort_slice db handler fuel endpoint request)
    unfolding serve
    serve-Keeps ping request writes =
        pure-Keeps R order (json 200 (("message", value (str "pong")) ∷ []))
    serve-Keeps devices request writes =
        get_devices-Keeps R order host clock zone db handler calls fuel
    serve-Keeps sorted_alerts request writes =
        get_sorted_alerts-Keeps R order host clock zone db handler calls sort_slice
    serve-Keeps device_by_id request writes =
        get_device_by_id-Keeps R order host clock zone db handler calls request.id
    serve-Keeps device_telemetry request writes =
        get_device_telemetry-Keeps R order host clock zone db handler calls visit request.id
          request.query
    serve-Keeps device_alerts request writes =
        get_device_alerts-Keeps R order host clock zone db handler calls request.id
    serve-Keeps system_overview request writes = get_system_overview-Keeps visit fuel request.query
    serve-Keeps commands request writes = send_command-Keeps (writes refl) request.id request.body
