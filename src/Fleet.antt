-- ===== src/Fleet.antt =====
-- The parts of backend side by side, on one world: the ingestion of the messages and the API, the two
-- programs of backend/cmd, and the check of the doors, which backend/internal/rules offers. A step is
-- one invocation of one of them, as a whole.
pub mod Seen
pub mod Safety
use io_t_fleet_management.Prelude.{Bool, List, ℕ}
use io_t_fleet_management.Go.Value.{Payload, float}
use io_t_fleet_management.Go.Float.{Float64}
use io_t_fleet_management.Cloud.{Host, Dynamo}
use io_t_fleet_management.Models.{Alert}
use io_t_fleet_management.Telemetry.Charts.{Table}
use io_t_fleet_management.Telemetry.Periods.{Zone}
use io_t_fleet_management.Ingestion.{Service, handle_request}
use io_t_fleet_management.Rules.{AlertEngine}
use io_t_fleet_management.Rules.Door.{DoorAlert, check_door_timeouts}
use io_t_fleet_management.Api.{Clock, DeviceHandler}
use io_t_fleet_management.Api.Routes.{Endpoint, Request, serve}

pub record Deployment (F W Item Raw : Type 0) : Type 0 where
  pub host : Host W
  pub clock : Clock W
  pub zone : Zone
  pub visit : Table F → Table F
  pub sort_slice : (Alert F → Alert F → Bool) → List (Alert F) → List (Alert F)
  pub db : Dynamo F W Item Raw
  pub service : Service W
  pub engine : AlertEngine W
  pub handler : DeviceHandler F W

module _ {F W Item Raw : Type 0} ⦃d : Float64 F⦄ (fleet : Deployment F W Item Raw) where
  abbrev pub answering : ℕ → Endpoint → Request F → W → W
  answering fuel endpoint request w =
      (serve fleet.host fleet.clock fleet.visit fleet.zone fleet.sort_slice fleet.db fleet.handler
        fuel endpoint request w).1

  abbrev pub ingesting : Payload F → W → W
  ingesting event w = (handle_request fleet.host fleet.db fleet.service event w).1

  abbrev pub checking : (List DoorAlert → List DoorAlert) → ℕ → W → W
  checking schedule fuel w =
      (check_door_timeouts fleet.host fleet.db fleet.engine schedule fuel w).1

  pub data Step : W → W → Type 0 where
    ingest : (event : Payload F) (w : W) → Step w (ingesting event w)
    check :
        (schedule : List DoorAlert → List DoorAlert) (fuel : ℕ) (w : W)
        → Step w (checking schedule fuel w)
    answer :
        (fuel : ℕ) (endpoint : Endpoint) (request : Request F) (w : W)
        → Step w (answering fuel endpoint request w)

  pub data Run : W → W → Type 0 where
    start : (w : W) → Run w w
    next : (u v w : W) → Run u v → Step v w → Run u w
