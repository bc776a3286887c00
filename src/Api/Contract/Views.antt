-- ===== src/Api/Contract/Views.antt =====
-- device_handler.go over calls of the SDKs that return or fail: the loops over the devices, and what
-- is shown of one.
use io_t_fleet_management.Prelude.{[], ◌∷◌, String, List, ℕ, ◌==◌}
use io_t_fleet_management.Prelude.Int.{pos, sub64}
use io_t_fleet_management.Go.Outcome.{ok, err, Result}
use io_t_fleet_management.Go.Value.{Payload}
use io_t_fleet_management.Go.Float.{Float64}
use io_t_fleet_management.Go.Ends.{
  Ends, Any, >>=-Ends, pure-Ends, reads-Ends, attempt-Ends, if-Ends,
}
use io_t_fleet_management.Cloud.{Host, Dynamo}
use io_t_fleet_management.Models.{Telemetry}
use io_t_fleet_management.Api.{Clock, DeviceHandler, DeviceState}
use io_t_fleet_management.Api.Contract.Calls.{CallsCalm, history_of-Ends, get_state_by_id-Calm}
use io_t_fleet_management.Telemetry.Charts.{Table, calculate_temp_state}
use io_t_fleet_management.Telemetry.Periods.{Zone}
use io_t_fleet_management.Api.Devices.{
  gas_clock, show_ac, show_door, show_gas, show_payload, show_temp, with_statuses, with_gas_events,
  with_insights, with_stats, with_light, or_nil, with_ac_events, with_status,
}
use io_t_fleet_management.Api.Overview.{count_online, add_online}
use io_t_fleet_management.Api.Views.{show_ac_stats, add_ac_stats, show_door_stats, inside_temp}
use io_t_fleet_management.Devices.Store.{connection_status}

module _ {F W Item Raw : Type 0} ⦃d : Float64 F⦄ (host : Host W) (clock : Clock W) (zone : Zone)
    (db : Dynamo F W Item Raw) (handler : DeviceHandler F W) (calls : CallsCalm db handler) where
  pub with_statuses-Ends :
      (found : List (DeviceState F)) → Ends Any (with_statuses host clock zone db handler found)
  unfolding with_statuses
  with_statuses-Ends [] = pure-Ends [] tt
  with_statuses-Ends (state ∷ others) = >>=-Ends _ _ (reads-Ends clock.nanoseconds) λ now_ns _.
      >>=-Ends _ _ (with_statuses-Ends others)
        λ rest _. pure-Ends (with_light (with_status now_ns state) ∷ rest) tt

  pub count_online-Ends :
      (visit : Table F → Table F) (found : List (DeviceState F)) (count : ℕ)
      → Ends Any (count_online host clock visit zone db handler found count)
  unfolding count_online
  count_online-Ends visit [] count = pure-Ends count tt
  count_online-Ends visit (state ∷ others) count =
      >>=-Ends _ _ (reads-Ends clock.nanoseconds) λ now_ns _.
        count_online-Ends visit others
          (add_online (connection_status now_ns state.last_seen_at) count)

  show_door-Ends :
      (device_id : String) (payload : Payload F)
      → Ends Any (show_door host clock zone db handler device_id payload)
  unfolding show_door
  show_door-Ends device_id payload = >>=-Ends _ _ (reads-Ends host.clock) λ now _.
      >>=-Ends _ _ (history_of-Ends host clock zone db handler calls device_id (pos 5) (pos 0))
        λ recent _.
          >>=-Ends _ _
            (history_of-Ends host clock zone db handler calls device_id (pos 0)
              (sub64 now (pos 86400)))
            λ day _.
              pure-Ends (with_insights day now (show_door_stats zone payload (or_nil recent) now))
                tt

  show_ac-Ends :
      (device_id : String) (payload : Payload F)
      → Ends Any (show_ac host clock zone db handler device_id payload)
  unfolding show_ac show_ac_stats
  show_ac-Ends device_id payload = >>=-Ends _ _ (reads-Ends host.clock) λ now _.
      >>=-Ends _ _ (history_of-Ends host clock zone db handler calls device_id (pos 5) (pos 0))
        λ recent _.
          >>=-Ends _ _
            (attempt-Ends _
              (get_state_by_id-Calm host clock zone db handler calls "temp-sensor-01"))
            λ temp_state _.
              pure-Ends
                (add_ac_stats (with_ac_events zone recent payload) (inside_temp temp_state) now) tt

  show_temp-Ends :
      (device_id : String) (payload : Payload F)
      → Ends Any (show_temp host clock zone db handler device_id payload)
  unfolding show_temp
  show_temp-Ends device_id payload = >>=-Ends _ _ (reads-Ends host.clock) λ now _.
      >>=-Ends _ _
        (history_of-Ends host clock zone db handler calls device_id (pos 0) (sub64 now (pos 86400)))
        λ day _.
          pure-Ends
            (elim day [
              | err _ ↦ payload
              | ok history ↦ with_stats (calculate_temp_state history "temp" now) payload
            ])
            tt

  gas_clock-Ends :
      (recent : Result (List (Telemetry F)))
      → Ends Any (gas_clock host clock zone db handler recent)
  gas_clock-Ends (err e) = pure-Ends (pos 0) tt
  gas_clock-Ends (ok []) = pure-Ends (pos 0) tt
  gas_clock-Ends (ok (t ∷ history)) = reads-Ends host.clock

  show_gas-Ends :
      (device_id : String) (payload : Payload F)
      → Ends Any (show_gas host clock zone db handler device_id payload)
  unfolding show_gas
  show_gas-Ends device_id payload =
      >>=-Ends _ _ (history_of-Ends host clock zone db handler calls device_id (pos 50) (pos 0))
        λ recent _.
          >>=-Ends _ _ (gas_clock-Ends recent)
            λ now _. pure-Ends (with_gas_events now recent payload) tt

  pub show_payload-Ends :
      (device_id type : String) (payload : Payload F)
      → Ends Any (show_payload host clock zone db handler device_id type payload)
  unfolding show_payload
  show_payload-Ends device_id type payload =
      if-Ends (type == "door-actuator") _ _ (show_door-Ends device_id payload) (
        if-Ends (type == "ac-actuator") _ _ (show_ac-Ends device_id payload) (
          if-Ends (type == "temp-sensor") _ _ (show_temp-Ends device_id payload) (
            if-Ends (type == "gas-sensor") _ _ (show_gas-Ends device_id payload)
              (pure-Ends payload tt))))
