-- ===== src/Api.antt =====
-- backend/internal/api/handlers/device_handler.go: the handler of the API and its answers. The
-- functions that fill in a payload are in `Views`, the handlers in the other children.
--
-- A request is given by what the handlers read of it: the parameter `id`, the query, and the body.
-- The payload of a state that has a type is one that `UpdateFromTelemetry` has stored, so that the
-- maps into which the handlers write are not nil.
pub mod Views
pub mod Devices
pub mod History
pub mod Alerts
pub mod Overview
pub mod Commands
pub mod Routes
pub mod Contract
pub mod Keeps
use io_t_fleet_management.Prelude.{[], ◌∷◌, some, none, ℕ, List, String, Option}
use io_t_fleet_management.Go.Outcome.{Action}
use io_t_fleet_management.Go.Value.{Value}
use io_t_fleet_management.Devices.Store.{StateStore}
use io_t_fleet_management.Models.{DeviceState, Alert}
use io_t_fleet_management.Prelude.Int.{ℤ}
use io_t_fleet_management.Telemetry.Store.{TelemetryStore}
use io_t_fleet_management.Alerts.{AlertStore}
use io_t_fleet_management.Telemetry.Charts.{ChartPoint}
use io_t_fleet_management.Commands.{CommandStore}
use io_t_fleet_management.Iot.{Publisher}

-- `internal/iot` has no `S3Client`; it is given.
pub record S3Client (F W : Type 0) : Type 0 where
  pub get_monthly_chart : (key : String) → Action W (Value F)

pub record DeviceHandler (F W : Type 0) : Type 0 where
  pub state_store : StateStore
  pub telemetry_store : TelemetryStore
  pub alert_store : AlertStore
  pub command_store : CommandStore
  pub iot_publisher : Publisher F W
  pub s3_fetcher : S3Client F W

-- What the handlers read of the clock beside the second: `UnixNano` and `Format("2006-01")`.
pub record Clock (W : Type 0) : Type 0 where
  pub nanoseconds : W → ℤ × W
  pub month : W → String × W

-- A value of a `gin.H`.
pub data Shown (F : Type 0) : Type 0 where
  value : Value F → Shown F
  states : List (DeviceState F) → Shown F
  alerts : List (Alert F) → Shown F
  chart : List (ChartPoint F) → Shown F
  charts : List (String × List (ChartPoint F)) → Shown F

pub data Body (F : Type 0) : Type 0 where
  object : List (String × Shown F) → Body F
  device : DeviceState F → Body F

-- What is given to `context.JSON`.
pub record Response (F : Type 0) : Type 0 where
  pub status : ℕ
  pub body : Body F

-- An answer, or `none` where the fuel of a scan ran out.
abbrev pub Answer : Type 0 → Type 0
Answer F = Option (Response F)

module _ {F : Type 0} where
  abbrev pub json : ℕ → List (String × Shown F) → Answer F
  json status fields = some (record { status = status; body = Body.object fields })

  abbrev pub error_json : ℕ → String → Answer F
  error_json status text = json status (("error", value (Value.str text)) ∷ [])

-- `context.DefaultQuery`.
abbrev pub default_query : (String → Option String) → String → String → String
default_query query key default = elim (query key) [ some given ↦ given | none ↦ default ]
