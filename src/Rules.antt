-- ===== src/Rules.antt =====
-- backend/internal/rules: the alert engine of engine.go, and the rules of gas_rules.go.
pub mod Gas
pub mod Door
use Prim.Native.String
use io_t_fleet_management.Prelude.{
  none, some, [], ◌∷◌, ◌==◌, false, true, ◌||◌, ◌&&◌, Option, if◌then◌else◌, not,
}
use io_t_fleet_management.Go.Outcome.{◌>>=◌, ◌>>◌, ok, err, Action, pure, attempt}
use io_t_fleet_management.Go.Value.{
  str, entry, empty, float, Payload, as_float, get, or_false, as_bool, as_int, or_empty, as_string,
}
use io_t_fleet_management.Alerts.{AlertStore, save_alert}
use io_t_fleet_management.Go.Float.{Float64}
use Prim.Native.String.{String}
use io_t_fleet_management.Cloud.{Host, Dynamo, Messaging, reads}
use io_t_fleet_management.Devices.Store.{StateStore}
use io_t_fleet_management.Prelude.Int.{ℤ, pos}
use io_t_fleet_management.Models.{Alert}
use io_t_fleet_management.Go.Text.Decimal.{decimal_ℤ}
use io_t_fleet_management.Notifications.{send_push_notification}

pub record AlertEngine (W : Type 0) : Type 0 where
  pub alert_store : AlertStore
  pub state_store : StateStore
  pub notifier : Option (Messaging W)

-- `NewAlertEngine`.
abbrev pub new_alert_engine :
    {W : Type 0} → AlertStore → StateStore → Option (Messaging W) → AlertEngine W
new_alert_engine alert_store state_store notifier = record {
  alert_store = alert_store;
  state_store = state_store;
  notifier = notifier;
}

module _ {F : Type 0} ⦃d : Float64 F⦄ where
  -- `%.0f PPM` of a float and `%d PPM` of an `int`.
  unfoldable pub ppm_level : Payload F → String
  ppm_level payload = elim (as_float (get "gas_level" payload)) [
    | some val ↦ String.◌++◌ (d.format0 val) " PPM"
    | none ↦ elim (as_int (get "gas_level" payload)) [
      | some int_val ↦ String.◌++◌ (decimal_ℤ int_val) " PPM"
      | none ↦ "Unknown"
    ]
  ]

  -- Severity and description of the alert that a reading triggers, if it triggers one.
  unfoldable pub gas_alarm : Payload F → Option (String × String)
  gas_alarm payload =
      let alarm_on = or_false (as_bool (get "alarm_on" payload)) in
      let status = or_empty (as_string (get "status" payload)) in
      if alarm_on || status == "WARNING" || status == "CRITICAL"
      then some (
          if status == "WARNING" && not alarm_on
          then ("WARNING", "Gas spike detected")
          else ("CRITICAL", "Gas level critical"))
      else none

  abbrev pub gas_alert : String → ℤ → String × String → Payload F → Alert F
  gas_alert device_id now (severity, description) payload = record {
    alert_id = "";
    device_id = device_id;
    timestamp = now;
    type = "gas-sensor";
    severity = severity;
    payload =
        entry "description" (str description) (entry "gas_level" (str (ppm_level payload)) empty);
    expires_at = pos 0;
  }

module _ {F W Item Raw : Type 0} ⦃d : Float64 F⦄ (host : Host W) (db : Dynamo F W Item Raw)
    (engine : AlertEngine W) where
  unfoldable pub handle_gas : String → Payload F → Action W (Unit {0})
  handle_gas device_id payload = elim (gas_alarm payload) [
    | none ↦ pure tt
    | some (severity, description) ↦ do
      now ← reads host.clock
      saved ← attempt (
          save_alert host db engine.alert_store
            (gas_alert device_id now (severity, description) payload))
      elim saved [
        | err _ ↦ pure tt
        | ok _ ↦ send_push_notification engine.notifier device_id "Gas Alert" description
      ]
  ]
