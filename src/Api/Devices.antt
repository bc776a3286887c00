-- ===== src/Api/Devices.antt =====
-- device_handler.go: `GetDevices` and `GetDeviceByID`.
use io_t_fleet_management.Prelude.{[], ◌∷◌, some, none, ◌==◌, if◌then◌else◌, List, ℕ}
use io_t_fleet_management.Go.Value.{float, maps, Payload, put}
use io_t_fleet_management.Prelude.Int.{pos, sub64}
use io_t_fleet_management.Go.Outcome.{ok, err, attempt, pure, ◌>>=◌, Result}
use io_t_fleet_management.Api.{
  Body, states, DeviceState, ℤ, Clock, DeviceHandler, Action, String, Answer, error_json, json,
}
use io_t_fleet_management.Go.Float.{Float64}
use io_t_fleet_management.Api.Views.{
  add_light_status, add_door_insights, maps_of, show_ac_stats, show_door_stats,
}
use io_t_fleet_management.Cloud.{Host, Dynamo, reads}
use io_t_fleet_management.Devices.Store.{connection_status, get_all_states, get_state_by_id}
use io_t_fleet_management.Models.{Telemetry}
use io_t_fleet_management.Telemetry.Charts.{TempState, calculate_temp_state}
use io_t_fleet_management.Telemetry.Periods.{Zone}
use io_t_fleet_management.Telemetry.Events.{format_ac_events, get_gas_events}
use io_t_fleet_management.Telemetry.Store.{get_telemetry_history}

-- A slice that a failed call leaves nil.
abbrev pub or_nil {ℓ} : {A : Type ℓ} → Result (List A) → List A
or_nil (ok xs) = xs
or_nil (err _) = []

module _ {F : Type 0} where
  abbrev pub with_light : DeviceState F → DeviceState F
  with_light state =
      if state.type == "light-sensor"
      then record state { payload = add_light_status state.payload state.operational_state }
      else state

  abbrev pub with_status : ℤ → DeviceState F → DeviceState F
  with_status now_ns state = record state { status = connection_status now_ns state.last_seen_at }

module _ {F : Type 0} ⦃d : Float64 F⦄ where
  abbrev pub with_stats : Result (TempState F) → Payload F → Payload F
  with_stats (err _) payload =
      put "Average" (float (d.of_int (pos 0)))
        (put "Max" (float (d.of_int (pos 0))) (put "Min" (float (d.of_int (pos 0))) payload))
  with_stats (ok stats) payload =
      put "Average" (float stats.average)
        (put "Max" (float stats.max) (put "Min" (float stats.min) payload))

  -- `GetGasEvents` is given only a history that is not empty.
  abbrev pub with_gas_events : ℤ → Result (List (Telemetry F)) → Payload F → Payload F
  with_gas_events now (ok (t ∷ history)) payload =
      put "recent_events" (maps (maps_of (get_gas_events now (t ∷ history)))) payload
  with_gas_events now _ payload = payload

  abbrev pub with_ac_events : Zone → Result (List (Telemetry F)) → Payload F → Payload F
  with_ac_events zone (ok (t ∷ history)) payload =
      put "recent_events" (maps (maps_of (format_ac_events zone (t ∷ history)))) payload
  with_ac_events zone _ payload = payload

  abbrev pub with_insights : Result (List (Telemetry F)) → ℤ → Payload F → Payload F
  with_insights (ok history) now payload = add_door_insights payload history now
  with_insights (err _) now payload = payload

module _ {F W Item Raw : Type 0} ⦃d : Float64 F⦄ (host : Host W) (clock : Clock W) (zone : Zone)
    (db : Dynamo F W Item Raw) (handler : DeviceHandler F W) where
  -- The loop of `GetDevices`; each round reads the clock.
  unfoldable pub with_statuses : List (DeviceState F) → Action W (List (DeviceState F))
  with_statuses [] = pure []
  with_statuses (state ∷ others) = do
    now_ns ← reads clock.nanoseconds
    rest ← with_statuses others
    pure (with_light (with_status now_ns state) ∷ rest)

  unfoldable pub get_devices : ℕ → Action W (Answer F)
  get_devices fuel = do
    fetched ← attempt (get_all_states host db handler.state_store fuel)
    elim fetched [
      | err _ ↦ pure (error_json 500 "Failed to fetch device states")
      | ok none ↦ pure none
      | ok (some found) ↦ do
        shown ← with_statuses found
        pure (json 200 (("data", states shown) ∷ []))
    ]

  abbrev pub history_of : String → ℤ → ℤ → Action W (Result (List (Telemetry F)))
  history_of device_id limit since =
      attempt (get_telemetry_history host db handler.telemetry_store device_id limit since)

  unfoldable pub show_door : String → Payload F → Action W (Payload F)
  show_door device_id payload = do
    now ← reads host.clock
    recent ← history_of device_id (pos 5) (pos 0)
    day ← history_of device_id (pos 0) (sub64 now (pos 86400))
    pure (with_insights day now (show_door_stats zone payload (or_nil recent) now))

  unfoldable pub show_ac : String → Payload F → Action W (Payload F)
  show_ac device_id payload = do
    now ← reads host.clock
    recent ← history_of device_id (pos 5) (pos 0)
    show_ac_stats host db handler (with_ac_events zone recent payload) now

  unfoldable pub show_temp : String → Payload F → Action W (Payload F)
  show_temp device_id payload = do
    now ← reads host.clock
    day ← history_of device_id (pos 0) (sub64 now (pos 86400))
    pure (elim day [
      | err _ ↦ payload
      | ok history ↦ with_stats (calculate_temp_state history "temp" now) payload
    ])

  -- `GetGasEvents` reads the clock, if it is called.
  abbrev pub gas_clock : Result (List (Telemetry F)) → Action W ℤ
  gas_clock (ok (t ∷ history)) = reads host.clock
  gas_clock _ = pure (pos 0)

  unfoldable pub show_gas : String → Payload F → Action W (Payload F)
  show_gas device_id payload = do
    recent ← history_of device_id (pos 50) (pos 0)
    now ← gas_clock recent
    pure (with_gas_events now recent payload)

  -- The tests of the type, of which one can hold.
  unfoldable pub show_payload : String → String → Payload F → Action W (Payload F)
  show_payload device_id type payload =
      if type == "door-actuator"
      then show_door device_id payload
      else if type == "ac-actuator"
      then show_ac device_id payload
      else if type == "temp-sensor"
      then show_temp device_id payload
      else if type == "gas-sensor"
      then show_gas device_id payload
      else pure payload

  unfoldable pub show_device : String → DeviceState F → Action W (Answer F)
  show_device device_id state = do
    now_ns ← reads clock.nanoseconds
    let lit = with_light (with_status now_ns state)
    payload ← show_payload device_id lit.type lit.payload
    pure (some (record { status = 200; body = Body.device (record lit { payload = payload }) }))

  -- What the three handlers for one device have in common, for the proofs on them: reading the device,
  -- or the answer if it cannot be read or is unknown.
  unfoldable pub with_device : String → (DeviceState F → Action W (Answer F)) → Action W (Answer F)
  with_device device_id continue = do
    found ← attempt (get_state_by_id host db handler.state_store device_id)
    elim found [
      | err _ ↦ pure (error_json 500 "Internal server error")
      | ok none ↦ pure (error_json 404 "Device not found")
      | ok (some state) ↦ continue state
    ]

  unfoldable pub get_device_by_id : String → Action W (Answer F)
  get_device_by_id device_id = do
    found ← attempt (get_state_by_id host db handler.state_store device_id)
    elim found [
      | err _ ↦ pure (error_json 500 "Internal server error")
      | ok none ↦ pure (error_json 404 "Device not found")
      | ok (some state) ↦ show_device device_id state
    ]
