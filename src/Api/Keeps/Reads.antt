-- ===== src/Api/Keeps/Reads.antt =====
-- device_handler.go: the handlers of the GET requests.

use io_t_fleet_management.Prelude.{[], ◌∷◌, some, none, String, List}
use io_t_fleet_management.Prelude.Int.{pos, sub64}
use io_t_fleet_management.Go.Value.{Payload}
use io_t_fleet_management.Go.Outcome.{ok, err, attempt, pure, ◌>>=◌, Action, Result}
use io_t_fleet_management.Go.Float.{Float64}
use io_t_fleet_management.Go.Keeps.{
  IsPreorder, Keeps, pure-Keeps, >>=-Keeps, attempt-Keeps, reads-Keeps,
}
use io_t_fleet_management.Cloud.{Host, Dynamo, reads}
use io_t_fleet_management.Api.{
  Clock, DeviceHandler, Answer, json, error_json, states, ℕ, ℤ, DeviceState, Option,
}
use io_t_fleet_management.Api.Keeps.{ReadsKeep}
use io_t_fleet_management.Telemetry.Periods.{Zone}
use io_t_fleet_management.Api.Devices.{
  get_devices, show_door, show_gas, show_temp, with_statuses, history_of, with_gas_events,
  with_insights, with_stats, with_light, or_nil, with_status, gas_clock,
}
use io_t_fleet_management.Models.{Telemetry}
use io_t_fleet_management.Devices.Store.{get_all_states}
use io_t_fleet_management.Api.Views.{show_door_stats}
use io_t_fleet_management.Devices.Store.Keeps.{get_all_states-Keeps}
use io_t_fleet_management.Telemetry.Charts.{calculate_temp_state}
use io_t_fleet_management.Telemetry.Store.Keeps.{get_telemetry_history-Keeps}

module _ {F W Item Raw : Type 0} ⦃d : Float64 F⦄ (R : W → W → Type 0) (order : IsPreorder R)
    (host : Host W) (clock : Clock W) (zone : Zone) (db : Dynamo F W Item Raw)
    (handler : DeviceHandler F W) (calls : ReadsKeep R host clock db handler) where
  pub second-Keeps : Keeps R (reads host.clock)
  second-Keeps = reads-Keeps R order host.clock calls.second

  pub nanoseconds-Keeps : Keeps R (reads clock.nanoseconds)
  nanoseconds-Keeps = reads-Keeps R order clock.nanoseconds calls.nanoseconds

  pub history_of-Keeps :
      (device_id : String) (limit since : ℤ)
      → Keeps R (history_of host clock zone db handler device_id limit since)
  history_of-Keeps device_id limit since = attempt-Keeps R order _ (
      get_telemetry_history-Keeps R order host db handler.telemetry_store calls.query device_id
        limit since)

  pub states-Keeps :
      (fuel : ℕ) → Keeps R (attempt (get_all_states host db handler.state_store fuel))
  states-Keeps fuel =
      attempt-Keeps R order _
        (get_all_states-Keeps R order host db handler.state_store calls.scan fuel)

  with_statuses-Keeps :
      (found : List (DeviceState F)) → Keeps R (with_statuses host clock zone db handler found)
  unfolding with_statuses
  with_statuses-Keeps [] = pure-Keeps R order []
  with_statuses-Keeps (state ∷ others) = >>=-Keeps R order _ _ nanoseconds-Keeps λ now_ns.
      >>=-Keeps R order _ _ (with_statuses-Keeps others)
        λ rest. pure-Keeps R order (with_light (with_status now_ns state) ∷ rest)

  pub get_devices-Keeps : (fuel : ℕ) → Keeps R (get_devices host clock zone db handler fuel)
  unfolding get_devices
  get_devices-Keeps fuel = >>=-Keeps R order _ _ (states-Keeps fuel) go
    where
      go :
          (fetched : Result (Option (List (DeviceState F))))
          → Keeps R {A = Answer F} (elim fetched as (λ _. Action W (Answer F)) [
            | err _ ↦ pure (error_json 500 "Failed to fetch device states")
            | ok none ↦ pure none
            | ok (some found) ↦ do
              shown ← with_statuses host clock zone db handler found
              pure (json 200 (("data", states shown) ∷ []))
          ])
      go (err e) = pure-Keeps R order (error_json 500 "Failed to fetch device states")
      go (ok none) = pure-Keeps R order none
      go (ok (some found)) =
          >>=-Keeps R order _ _ (with_statuses-Keeps found)
            λ shown. pure-Keeps R order (json 200 (("data", states shown) ∷ []))

  pub show_door-Keeps :
      (device_id : String) (payload : Payload F)
      → Keeps R (show_door host clock zone db handler device_id payload)
  unfolding show_door
  show_door-Keeps device_id payload = >>=-Keeps R order _ _ second-Keeps λ now.
      >>=-Keeps R order _ _ (history_of-Keeps device_id (pos 5) (pos 0)) λ recent.
        >>=-Keeps R order _ _ (history_of-Keeps device_id (pos 0) (sub64 now (pos 86400))) λ day.
          pure-Keeps R order
            (with_insights day now (show_door_stats zone payload (or_nil recent) now))

  pub show_temp-Keeps :
      (device_id : String) (payload : Payload F)
      → Keeps R (show_temp host clock zone db handler device_id payload)
  unfolding show_temp
  show_temp-Keeps device_id payload = >>=-Keeps R order _ _ second-Keeps λ now.
      >>=-Keeps R order _ _ (history_of-Keeps device_id (pos 0) (sub64 now (pos 86400))) λ day.
        pure-Keeps R order (elim day [
          | err _ ↦ payload
          | ok history ↦ with_stats (calculate_temp_state history "temp" now) payload
        ])

  gas_clock-Keeps :
      (recent : Result (List (Telemetry F))) → Keeps R (gas_clock host clock zone db handler recent)
  gas_clock-Keeps (err e) = pure-Keeps R order (pos 0)
  gas_clock-Keeps (ok []) = pure-Keeps R order (pos 0)
  gas_clock-Keeps (ok (t ∷ history)) = second-Keeps

  pub show_gas-Keeps :
      (device_id : String) (payload : Payload F)
      → Keeps R (show_gas host clock zone db handler device_id payload)
  unfolding show_gas
  show_gas-Keeps device_id payload =
      >>=-Keeps R order _ _ (history_of-Keeps device_id (pos 50) (pos 0)) λ recent.
        >>=-Keeps R order _ _ (gas_clock-Keeps recent)
          λ now. pure-Keeps R order (with_gas_events now recent payload)
