-- ===== src/Api/Commands.antt =====
-- device_handler.go: `SendCommand`. `ShouldBindJSON` is given by its result, `none` for a body that
-- it refuses.
pub mod Delivery
use Prim.Native.String
use io_t_fleet_management.Iot.{publish}
use io_t_fleet_management.Prelude.{[], ◌∷◌, some, none, true, false, String, Option}
use io_t_fleet_management.Go.Value.{str, object, null, entry, empty, Payload, Value, float}
use io_t_fleet_management.Prelude.Int.{pos}
use io_t_fleet_management.Go.Outcome.{ok, err, attempt, pure, ◌>>=◌, ◌>>◌}
use io_t_fleet_management.Api.{
  value, json, error_json, Answer, ℤ, Clock, DeviceHandler, Action, Publisher,
}
use io_t_fleet_management.Go.Float.{Float64}
use io_t_fleet_management.Cloud.{Host, Dynamo, reads}
use io_t_fleet_management.Go.Text.Decimal.{decimal_ℤ}
use io_t_fleet_management.Models.{Command}
use io_t_fleet_management.Commands.{save_command}

-- The parameters are nil if the body has none.
pub record SendCommandRequest (F : Type 0) : Type 0 where
  pub action : String
  pub parameters : Option (Payload F)

module _ {F : Type 0} where
  abbrev pub parameters_value : Option (Payload F) → Value F
  parameters_value none = null
  parameters_value (some m) = object m

  -- A nil map is stored as one without entries.
  abbrev pub entries_of : Option (Payload F) → Payload F
  entries_of none = empty
  entries_of (some m) = m

  unfoldable pub mqtt_payload : String → SendCommandRequest F → Value F
  mqtt_payload request_id req = object (
      entry "request_id" (str request_id) (
        entry "action" (str req.action)
          (entry "parameters" (parameters_value req.parameters) empty)))

  unfoldable pub command_record : String → String → ℤ → SendCommandRequest F → Command F
  command_record request_id device_id now req = record {
    request_id = request_id;
    device_id = device_id;
    timestamp = now;
    action = req.action;
    parameters = entries_of req.parameters;
    expires_at = pos 0;
  }

  abbrev pub dispatched : String → Answer F
  dispatched request_id = json 202 (
      ("message", value (str "Command dispatched successfully"))
      ∷ ("request_id", value (str request_id))
      ∷ [])

abbrev pub command_topic : String → String
command_topic device_id = String.◌++◌ "devices/" (String.◌++◌ device_id "/command")

abbrev pub command_id : ℤ → String
command_id now_ns = String.◌++◌ "cmd-" (decimal_ℤ now_ns)

module _ {F W Item Raw : Type 0} ⦃d : Float64 F⦄ (host : Host W) (clock : Clock W)
    (db : Dynamo F W Item Raw) (handler : DeviceHandler F W) where
  -- The record of a command that has been sent; that it cannot be stored is only logged.
  unfoldable pub record_command : String → String → SendCommandRequest F → Action W (Answer F)
  record_command request_id device_id req = do
    now ← reads host.clock
    stored ←
        attempt
          (save_command host db handler.command_store (command_record request_id device_id now req))
    pure (dispatched request_id)

  unfoldable pub dispatch_command : String → SendCommandRequest F → Action W (Answer F)
  dispatch_command device_id req = do
    now_ns ← reads clock.nanoseconds
    sent ← attempt (
        publish handler.iot_publisher (command_topic device_id)
          (mqtt_payload (command_id now_ns) req))
    elim sent [
      | err _ ↦ pure (error_json 500 "Failed to communicate with device")
      | ok _ ↦ record_command (command_id now_ns) device_id req
    ]

  unfoldable pub send_command : String → Option (SendCommandRequest F) → Action W (Answer F)
  send_command device_id none = pure (error_json 400 "invalid command format! action is required.")
  send_command device_id (some req) = dispatch_command device_id req
