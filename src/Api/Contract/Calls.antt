-- ===== src/Api/Contract/Calls.antt =====
-- device_handler.go over calls of the SDKs that return or fail: what the stores then do.
use io_t_fleet_management.Prelude.{[], none, some, zero, suc, String, List, ◌++◌, ℕ, Option}
use io_t_fleet_management.Prelude.Int.{ℤ}
use io_t_fleet_management.Go.Outcome.{attempt}
use io_t_fleet_management.Go.Value.{Value}
use io_t_fleet_management.Go.Float.{Float64}
use io_t_fleet_management.Go.Ends.{
  Calm, Ends, Any, calm, attempt-Ends, >>=-Calm, annotate-Calm, from-Calm, pure-Calm, Option-Calm,
}
use io_t_fleet_management.Cloud.{Host, Dynamo, QueryInput, ScanInput, Attr}
use io_t_fleet_management.Iot.{publish}
use io_t_fleet_management.Models.{Command}
use io_t_fleet_management.Api.{Clock, DeviceHandler, DeviceState}
use io_t_fleet_management.Alerts.{get_alerts_by_device, get_all_alerts}
use io_t_fleet_management.Telemetry.Periods.{Zone}
use io_t_fleet_management.Commands.{save_command}
use io_t_fleet_management.Devices.Store.{
  get_all_states, get_state_by_id, scan_pages, page_input, decoded_states, device_key,
}
use io_t_fleet_management.Telemetry.Store.{get_telemetry_history}
use io_t_fleet_management.Api.Devices.{history_of}

-- What the API calls, but for the clocks, returns or fails.
pub record CallsCalm {F W Item Raw : Type 0} (db : Dynamo F W Item Raw)
    (handler : DeviceHandler F W) : Type 0 where
  pub scan : (input : ScanInput Item Raw) → Calm (db.scan input)
  pub query : (input : QueryInput Raw) → Calm (db.query input)
  pub get_item : (name : String) (key : List (String × Attr Raw)) → Calm (db.get_item name key)
  pub put_item : (name : String) (item : Item) → Calm (db.put_item name item)
  pub fetch : (key : String) → Calm (handler.s3_fetcher.get_monthly_chart key)
  pub publish :
      (topic : String) (payload : Value F) (qos : ℕ)
      → Calm (handler.iot_publisher.client.publish topic payload qos)

module _ {F W Item Raw : Type 0} ⦃d : Float64 F⦄ (host : Host W) (clock : Clock W) (zone : Zone)
    (db : Dynamo F W Item Raw) (handler : DeviceHandler F W) (calls : CallsCalm db handler) where
  pub get_alerts_by_device-Calm :
      (device_id : String) (limit : ℤ)
      → Calm (get_alerts_by_device host db handler.alert_store device_id limit)
  unfolding get_alerts_by_device
  get_alerts_by_device-Calm device_id limit = search (calm, calls.query)

  pub get_all_alerts-Calm : (since : ℤ) → Calm (get_all_alerts host db handler.alert_store since)
  unfolding get_all_alerts
  get_all_alerts-Calm since = search (calm, calls.scan)

  get_telemetry_history-Calm :
      (device_id : String) (limit since : ℤ)
      → Calm (get_telemetry_history host db handler.telemetry_store device_id limit since)
  unfolding get_telemetry_history
  get_telemetry_history-Calm device_id limit since = search (calm, calls.query)

  pub history_of-Ends :
      (device_id : String) (limit since : ℤ)
      → Ends Any (history_of host clock zone db handler device_id limit since)
  history_of-Ends device_id limit since =
      attempt-Ends _ (get_telemetry_history-Calm device_id limit since)

  scan_pages-Calm :
      (fuel : ℕ) (start : Option Item) (states : List (DeviceState F))
      → Calm (scan_pages host db handler.state_store fuel start states)
  unfolding scan_pages
  scan_pages-Calm zero start states = pure-Calm none
  scan_pages-Calm (suc fuel) start states =
      >>=-Calm _ _
        (annotate-Calm "failed to scan device states" _
          (calls.scan (page_input host db handler.state_store start)))
        λ page.
          Option-Calm page.last_evaluated_key _ _
            (pure-Calm (some (states ++ decoded_states host db handler.state_store page.items)))
            λ key.
              scan_pages-Calm fuel (some key)
                (states ++ decoded_states host db handler.state_store page.items)

  pub states-Ends :
      (fuel : ℕ) → Ends Any (attempt (get_all_states host db handler.state_store fuel))
  unfolding get_all_states
  states-Ends fuel = attempt-Ends _ (scan_pages-Calm fuel none [])

  pub get_state_by_id-Calm :
      (device_id : String) → Calm (get_state_by_id host db handler.state_store device_id)
  unfolding get_state_by_id
  get_state_by_id-Calm device_id =
      >>=-Calm _ _
        (annotate-Calm "failed to get device" _
          (calls.get_item handler.state_store.table_name (device_key device_id)))
        λ found. Option-Calm found _ _ (pure-Calm none) λ x.
          >>=-Calm _ _
            (annotate-Calm "failed to unmarshal device state" _ (from-Calm (db.unmarshal_state x)))
            λ state. pure-Calm (some state)

  pub save_command-Calm : (cmd : Command F) → Calm (save_command host db handler.command_store cmd)
  unfolding save_command
  save_command-Calm cmd = search (calm, calls.put_item)

  pub publish-Calm :
      (topic : String) (payload : Value F) → Calm (publish handler.iot_publisher topic payload)
  unfolding publish
  publish-Calm topic payload = search (calm, calls.publish)
