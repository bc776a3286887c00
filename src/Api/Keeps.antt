-- ===== src/Api/Keeps.antt =====
-- backend/internal/api/handlers/device_handler.go over a relation between worlds that each call of
-- the handler keeps.
pub mod Reads
pub mod Answers
pub mod Endpoints
use io_t_fleet_management.Prelude.{[], ◌∷◌, true, false, some, none, String, List}
use io_t_fleet_management.Go.Value.{float}
use io_t_fleet_management.Go.Keeps.{Keeps}
use io_t_fleet_management.Cloud.{Host, Dynamo, QueryInput, ScanInput, Attr}
use io_t_fleet_management.Api.{Clock, DeviceHandler}

-- What the handlers read.
pub record ReadsKeep {F W Item Raw : Type 0} (R : W → W → Type 0) (host : Host W) (clock : Clock W)
    (db : Dynamo F W Item Raw) (handler : DeviceHandler F W) : Type 0 where
  pub second : (w : W) → R w (host.clock w).1
  pub nanoseconds : (w : W) → R w (clock.nanoseconds w).1
  pub month : (w : W) → R w (clock.month w).1
  pub scan : (input : ScanInput Item Raw) → Keeps R (db.scan input)
  pub query : (input : QueryInput Raw) → Keeps R (db.query input)
  pub get_item : (name : String) (key : List (String × Attr Raw)) → Keeps R (db.get_item name key)
  pub fetch : (key : String) → Keeps R (handler.s3_fetcher.get_monthly_chart key)
