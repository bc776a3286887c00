-- ===== src/Models.antt =====
-- backend/models: the records that the components exchange.
pub mod AlertId
use Prim.Native.String
use io_t_fleet_management.Prelude.{String}
use io_t_fleet_management.Prelude.Int.{ℤ}
use io_t_fleet_management.Go.Value.{Payload}
use io_t_fleet_management.Go.Text.Decimal.{decimal_ℤ}

pub record Alert (F : Type 0) : Type 0 where
  pub alert_id : String
  pub device_id : String
  pub timestamp : ℤ
  pub type : String
  pub severity : String
  pub payload : Payload F
  pub expires_at : ℤ

pub record Command (F : Type 0) : Type 0 where
  pub request_id : String
  pub device_id : String
  pub timestamp : ℤ
  pub action : String
  pub parameters : Payload F
  pub expires_at : ℤ

pub record DeviceState (F : Type 0) : Type 0 where
  pub device_id : String
  pub type : String
  pub status : String
  pub operational_state : String
  pub health : String
  pub payload : Payload F
  pub last_seen_at : ℤ
  pub last_updated : ℤ

pub record MqttEnvelope (F : Type 0) : Type 0 where
  pub device_id : String
  pub timestamp : ℤ
  pub type : String
  pub payload : Payload F

pub record Telemetry (F : Type 0) : Type 0 where
  pub device_id : String
  pub timestamp : ℤ
  pub type : String
  pub payload : Payload F
  pub expires_at : ℤ

-- `fmt.Sprintf("%s#%d", a.DeviceID, a.Timestamp)`
unfoldable pub generate_id : {F : Type 0} → Alert F → Alert F
generate_id a = record a {
  alert_id = String.◌++◌ a.device_id (String.◌++◌ "#" (decimal_ℤ a.timestamp));
}
