-- ===== src/Cloud.antt =====
-- What lies outside the repository, as interfaces: the clock and the waiting of the process, the AWS
-- SDK for DynamoDB, the IoT data plane, and Firebase messaging. `W` is the world that they act on.

use Prim.Native.String.{String}
use io_t_fleet_management.Go.Outcome.{Action, Result, returned, Error}
use io_t_fleet_management.Models.{Telemetry, Alert, Command, DeviceState}
use io_t_fleet_management.Prelude.{List, Option, ℕ, Bool, ◌*◌}
use io_t_fleet_management.Prelude.Int.{ℤ, add64, pos}
use io_t_fleet_management.Go.Value.{Value, Payload}

-- `time.Now().Unix()`, `uuid.NewString()`, and a wait of some milliseconds that `ctx` may end early,
-- with `ctx.Err()`.
pub record Host (W : Type 0) : Type 0 where
  pub clock : W → ℤ × W
  pub uuid : W → String × W
  pub wait : ℕ → W → Option Error × W

-- `types.AttributeValue`: a text, a number by its text, or what `attributevalue.Marshal` gives.
pub data Attr (Raw : Type 0) : Type 0 where
  text : String → Attr Raw
  number : String → Attr Raw
  marshalled : Raw → Attr Raw

pub record UpdateItemInput (Raw : Type 0) : Type 0 where
  pub table_name : String
  pub key : List (String × Attr Raw)
  pub condition_expression : String
  pub update_expression : String
  pub names : List (String × String)
  pub values : List (String × Attr Raw)

pub record QueryInput (Raw : Type 0) : Type 0 where
  pub table_name : String
  pub index_name : Option String
  pub key_condition : String
  pub names : List (String × String)
  pub values : List (String × Attr Raw)
  pub scan_index_forward : Bool
  pub limit : Option ℤ

pub record ScanInput (Item Raw : Type 0) : Type 0 where
  pub table_name : String
  pub filter_expression : Option String
  pub names : List (String × String)
  pub values : List (String × Attr Raw)
  pub exclusive_start_key : Option Item

pub record ScanPage (Item : Type 0) : Type 0 where
  pub items : List Item
  pub last_evaluated_key : Option Item

-- The client of DynamoDB and the package `attributevalue`. `Item` is a map of attribute values.
pub record Dynamo (F W Item Raw : Type 0) : Type 0 where
  pub marshal_telemetry : Telemetry F → Result Item
  pub marshal_alert : Alert F → Result Item
  pub marshal_command : Command F → Result Item
  pub marshal_payload : Payload F → Result Raw
  pub unmarshal_telemetry : Item → Result (Telemetry F)
  pub unmarshal_alert : Item → Result (Alert F)
  pub unmarshal_state : Item → Result (DeviceState F)
  pub put_item : (table_name : String) → Item → Action W (Unit {0})
  pub update_item : UpdateItemInput Raw → Action W (Unit {0})
  -- without `ConsistentRead`, which the code does not set: the read is eventually consistent
  pub get_item : (table_name : String) → List (String × Attr Raw) → Action W (Option Item)
  pub query : QueryInput Raw → Action W (List Item)
  pub scan : ScanInput Item Raw → Action W (ScanPage Item)
  -- the result is the list of the requests that were not processed
  pub batch_write_item : (table_name : String) → List Item → Action W (List Item)

-- A Firebase message to a topic; the result is the response's text.
pub record Messaging (W : Type 0) : Type 0 where
  pub send : (topic title body : String) → Action W String

-- The IoT data plane; the payload stands for its JSON text.
pub record DataPlane (F W : Type 0) : Type 0 where
  pub publish : (topic : String) (payload : Value F) (qos : ℕ) → Action W (Unit {0})

-- A reading that cannot fail, as a step of an action.
abbrev pub reads : {W A : Type 0} → (W → A × W) → Action W A
reads f w = let (a, w') = f w in (returned a, w')

-- `time.Now().Add(days * 24 * time.Hour).Unix()`.
abbrev pub days_from : ℤ → ℕ → ℤ
days_from now days = add64 now (pos (days * 86400))
