-- ===== src/Api/Routes.antt =====
-- backend/cmd/api-service/main.go: the routes, and what each one calls. Matching a path with a
-- pattern is the router's.
use io_t_fleet_management.Prelude.{[], ◌∷◌, List, String, Option, ℕ, Bool}
use io_t_fleet_management.Go.Value.{str}
use io_t_fleet_management.Go.Outcome.{pure, Action}
use io_t_fleet_management.Api.{value, json, Clock, Alert, DeviceHandler, Answer}
use io_t_fleet_management.Api.Commands.{SendCommandRequest, send_command}
use io_t_fleet_management.Go.Float.{Float64}
use io_t_fleet_management.Cloud.{Host, Dynamo}
use io_t_fleet_management.Telemetry.Charts.{Table}
use io_t_fleet_management.Telemetry.Periods.{Zone}
use io_t_fleet_management.Api.Devices.{get_devices, get_device_by_id}
use io_t_fleet_management.Api.Alerts.{get_sorted_alerts, get_device_alerts}
use io_t_fleet_management.Api.History.{get_device_telemetry}
use io_t_fleet_management.Api.Overview.{get_system_overview}

pub data Endpoint : Type 0 where
  ping devices sorted_alerts device_by_id device_telemetry device_alerts system_overview commands :
      Endpoint

-- What the handlers read of a request.
pub record Request (F : Type 0) : Type 0 where
  pub id : String
  pub query : String → Option String
  pub body : Option (SendCommandRequest F)

abbrev pub routes : List (String × String × Endpoint)
routes =
    ("GET", "/ping", ping)
    ∷ ("GET", "/api/v1/devices", devices)
    ∷ ("GET", "/api/v1/alerts", sorted_alerts)
    ∷ ("GET", "/api/v1/devices/:id", device_by_id)
    ∷ ("GET", "/api/v1/devices/:id/telemetry", device_telemetry)
    ∷ ("GET", "/api/v1/devices/:id/alerts", device_alerts)
    ∷ ("GET", "/api/v1/system/overview", system_overview)
    ∷ ("POST", "/api/v1/devices/:id/commands", commands)
    ∷ []

module _ {F W Item Raw : Type 0} ⦃d : Float64 F⦄ (host : Host W) (clock : Clock W)
    (visit : Table F → Table F) (zone : Zone)
    (sort_slice : (Alert F → Alert F → Bool) → List (Alert F) → List (Alert F))
    (db : Dynamo F W Item Raw) (handler : DeviceHandler F W) (fuel : ℕ) where
  unfoldable pub serve : Endpoint → Request F → Action W (Answer F)
  serve ping request = pure (json 200 (("message", value (str "pong")) ∷ []))
  serve devices request = get_devices host clock zone db handler fuel
  serve sorted_alerts request = get_sorted_alerts host clock zone db handler sort_slice
  serve device_by_id request = get_device_by_id host clock zone db handler request.id
  serve device_telemetry request =
      get_device_telemetry host clock visit zone db handler request.id request.query
  serve device_alerts request = get_device_alerts host clock zone db handler request.id
  serve system_overview request =
      get_system_overview host clock visit zone db handler fuel request.query
  serve commands request = send_command host clock db handler request.id request.body
