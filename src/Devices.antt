-- ===== src/Devices.antt =====
-- backend/internal/devices: the rule table of device_rules.go and `ExtractState`. The state store is
-- in `Store`.
pub mod Classification
pub mod Store
use io_t_fleet_management.Prelude.{
  ◌≡◌, Bool, true, false, ◌||◌, String, Option, none, some, ◌==◌, if◌then◌else◌,
}
use io_t_fleet_management.Prelude.Int.{pos}
use io_t_fleet_management.Go.Float.{Float64}
use io_t_fleet_management.Go.Value.{Payload, get, as_bool, as_float, as_string}
use io_t_fleet_management.Go.Text.{lower_eq, to_lower, eq_codes}

pub record DeviceRules (F : Type 0) : Type 0 where
  pub extract_operational : Payload F → String
  pub evaluate_health : String → String

-- The `EvaluateHealth` functions of the table.
abbrev temp_health : String → String
temp_health op =
    if op == "HOT"
    then "DEGRADED"
    else if op == "COLD" || op == "NORMAL"
    then "HEALTHY"
    else "DEGRADED"

abbrev always_healthy : String → String
always_healthy op = "HEALTHY"

abbrev healthy_if_known : String → String
healthy_if_known op = if op == "UNKNOWN" then "DEGRADED" else "HEALTHY"

abbrev gas_health : String → String
gas_health op = if op == "SAFE" then "HEALTHY" else "DEGRADED"

module _ {F : Type 0} ⦃d : Float64 F⦄ where
  unfoldable pub temp_operational : Payload F → String
  temp_operational payload = elim (as_float (get "temp" payload)) [
    | none ↦ "UNKNOWN"
    | some temp ↦
        if d.lt (d.of_int (pos 30)) temp
        then "HOT"
        else if d.lt temp (d.of_int (pos 18))
        then "COLD"
        else "NORMAL"
  ]

  unfoldable pub light_operational : Payload F → String
  light_operational payload = elim (as_float (get "light_level" payload)) [
    | none ↦ "UNKNOWN"
    | some level ↦
        if d.lt (d.of_int (pos 600)) level
        then "BRIGHT"
        else if d.lt level (d.of_int (pos 200))
        then "DARK"
        else "NORMAL"
  ]

  unfoldable pub lock_operational : Payload F → String
  lock_operational payload = elim (as_string (get "lock_state" payload)) [
    | none ↦ "UNKNOWN"
    | some state ↦ state
  ]

  -- The second assertion is tried only if the first fails.
  unfoldable pub door_operational : Payload F → String
  door_operational payload = elim (as_bool (get "open" payload)) [
    | some open_now ↦ if open_now then "OPEN" else "CLOSED"
    | none ↦ elim (as_string (get "open" payload)) [
      | some text ↦ if lower_eq text "true" || lower_eq text "open" then "OPEN" else "CLOSED"
      | none ↦ "UNKNOWN"
    ]
  ]

  unfoldable pub gas_operational : Payload F → String
  gas_operational payload = elim (as_bool (get "alarm_on" payload)) [
    | some alarm_on ↦ if alarm_on then "DANGER" else "SAFE"
    | none ↦ elim (as_string (get "status" payload)) [ some status ↦ status | none ↦ "UNKNOWN" ]
  ]

  unfoldable pub ac_operational : Payload F → String
  ac_operational payload = elim (as_string (get "power_state" payload)) [
    | none ↦ "UNKNOWN"
    | some state ↦ state
  ]

  -- `Rules[deviceType]`, with `ok` as the option.
  unfoldable pub rules : String → Option (DeviceRules F)
  rules device_type =
      if device_type == "temp-sensor"
      then some (record { extract_operational = temp_operational; evaluate_health = temp_health })
      else if device_type == "light-sensor"
      then some
          (record { extract_operational = light_operational; evaluate_health = always_healthy })
      else if device_type == "door-actuator"
      then some
          (record { extract_operational = lock_operational; evaluate_health = always_healthy })
      else if device_type == "door-sensor"
      then some
          (record { extract_operational = door_operational; evaluate_health = healthy_if_known })
      else if device_type == "gas-sensor"
      then some (record { extract_operational = gas_operational; evaluate_health = gas_health })
      else if device_type == "ac-actuator"
      then some
          (record { extract_operational = ac_operational; evaluate_health = healthy_if_known })
      else none

  -- The operational state and the health.
  unfoldable pub extract_state : String → Payload F → String × String
  extract_state device_type payload = elim (rules device_type) [
    | none ↦ ("UNKNOWN", "DEGRADED")
    | some r ↦
        let op_state = r.extract_operational payload in (op_state, r.evaluate_health op_state)
  ]
