-- ===== src/Ingestion.antt =====
-- backend/internal/ingestion/handler.go. The logger's calls have no effect on what is modelled and
-- are left out.
pub mod Batch
pub mod Flow
pub mod AlertFlow
pub mod Logging
pub mod Registered
pub mod ReadingDone
pub mod BatchFlow
pub mod BatchDone
pub mod Keeps
use Prim.Native.String
use io_t_fleet_management.Prelude.{
  none, some, [], ◌∷◌, ◌==◌, false, true, ◌||◌, ◌&&◌, List, Option, if◌then◌else◌, ◌++◌, Bool,
}
use io_t_fleet_management.Go.Outcome.{
  ◌>>=◌, ◌>>◌, ok, err, Action, fail, pure, returned, failed, from, plain, panicked,
}
use io_t_fleet_management.Go.Value.{
  nil, cons, float, Items, Payload, Value, as_map, as_float, as_list, get, or_empty, as_string,
}
use io_t_fleet_management.Go.Float.{Float64}
use io_t_fleet_management.Models.{Telemetry, MqttEnvelope, Alert, generate_id}
use io_t_fleet_management.Telemetry.Store.{TelemetryStore, save_telemetry, save_telemetry_batch}
use Prim.Native.String.{String}
use io_t_fleet_management.Alerts.{AlertStore, save_alert}
use io_t_fleet_management.Cloud.{Host, Dynamo, reads}
use io_t_fleet_management.Prelude.Int.{pos, eq_ℤ, ltb_ℤ, ℤ}
use io_t_fleet_management.Devices.Store.{StateStore, update_heartbeat, update_from_telemetry}
use io_t_fleet_management.Rules.{AlertEngine, handle_gas}
use io_t_fleet_management.Validation.{Message, validate_payload, validate_message}

pub record Service (W : Type 0) : Type 0 where
  pub telemetry_store : TelemetryStore
  pub alert_store : AlertStore
  pub state_store : StateStore
  pub engine : AlertEngine W

-- The reading and the readings so far.
pub record Collected (F : Type 0) : Type 0 where
  pub telemetry_list : List (Telemetry F)
  pub latest_reading : Telemetry F

abbrev pub zero_reading : {F : Type 0} → Telemetry F
zero_reading = record {
  device_id = "";
  timestamp = pos 0;
  type = "";
  payload = Payload.empty;
  expires_at = pos 0;
}

module _ {F : Type 0} where
  -- `if latestReading.Timestamp == 0 || t.Timestamp > latestReading.Timestamp`.
  abbrev pub later_reading : Telemetry F → Telemetry F → Telemetry F
  later_reading latest t =
      if eq_ℤ latest.timestamp (pos 0) || ltb_ℤ latest.timestamp t.timestamp then t else latest

  abbrev pub collect_one : Collected F → Option (Telemetry F) → Collected F
  collect_one c none = c
  collect_one c (some t) = record {
    telemetry_list = c.telemetry_list ++ (t ∷ []);
    latest_reading = later_reading c.latest_reading t;
  }

  abbrev pub nothing_collected : Collected F
  nothing_collected = record { telemetry_list = []; latest_reading = zero_reading }

module _ {F : Type 0} ⦃d : Float64 F⦄ where
  -- `int64(itemTs)` if the item has a number under `ts`.
  abbrev pub item_timestamp : MqttEnvelope F → Payload F → ℤ
  item_timestamp envelope item = elim (as_float (get "ts" item)) [
    | none ↦ envelope.timestamp
    | some item_ts ↦ d.to_int item_ts
  ]

  abbrev pub item_reading : String → MqttEnvelope F → Payload F → Telemetry F
  item_reading device_id envelope item = record {
    device_id = device_id;
    timestamp = item_timestamp envelope item;
    type = envelope.type;
    payload = item;
    expires_at = pos 0;
  }

  -- The reading of one item; an item that is no map or whose payload is malformed is skipped.
  unfoldable pub accepted_item : String → MqttEnvelope F → Value F → Option (Telemetry F)
  accepted_item device_id envelope item_raw = elim (as_map item_raw) [
    | none ↦ none
    | some item ↦ elim (validate_payload envelope.type item) [
      | err _ ↦ none
      | ok _ ↦ some (item_reading device_id envelope item)
    ]
  ]

  -- The loop over the items of a batch.
  unfoldable pub collect : String → MqttEnvelope F → Items F → Collected F → Collected F
  collect device_id envelope nil c = c
  collect device_id envelope (cons item items) c =
      collect device_id envelope items (collect_one c (accepted_item device_id envelope item))

module _ {F : Type 0} where
  abbrev pub single_reading : MqttEnvelope F → Telemetry F
  single_reading envelope = record {
    device_id = envelope.device_id;
    timestamp = envelope.timestamp;
    type = envelope.type;
    payload = envelope.payload;
    expires_at = pos 0;
  }

  abbrev pub alert_of : String → MqttEnvelope F → Alert F
  alert_of device_id envelope = generate_id (record {
    alert_id = "";
    device_id = device_id;
    timestamp = envelope.timestamp;
    type = envelope.type;
    severity = or_empty (as_string (get "severity" envelope.payload));
    payload = envelope.payload;
    expires_at = pos 0;
  })

-- The deferred function: a panic becomes an error.
abbrev pub recovered : {W : Type 0} → Action W (Unit {0}) → Action W (Unit {0})
recovered m w =
    let (r, w') = m w in
    elim r [
      | returned a ↦ (returned a, w')
      | failed e ↦ (failed e, w')
      | panicked ↦ (failed (plain "internal server error!!"), w')
    ]

module _ {F W Item Raw : Type 0} ⦃d : Float64 F⦄ (host : Host W) (db : Dynamo F W Item Raw)
    (service : Service W) where
  -- What is done with the readings of a batch.
  unfoldable pub store_collected : Collected F → Action W (Unit {0})
  store_collected c = elim c.telemetry_list [
    | [] ↦ pure tt
    | _ ↦ do
      save_telemetry_batch host db service.telemetry_store c.telemetry_list
      update_from_telemetry host db service.state_store c.latest_reading
  ]

  unfoldable pub handle_single : MqttEnvelope F → Action W (Unit {0})
  handle_single envelope = do
    (if envelope.type == "gas-sensor"
        then handle_gas host db service.engine envelope.device_id envelope.payload
        else pure tt)
    save_telemetry host db service.telemetry_store (single_reading envelope)
    update_from_telemetry host db service.state_store (single_reading envelope)

  unfoldable pub handle_telemetry : String → MqttEnvelope F → Bool → Action W (Unit {0})
  handle_telemetry device_id envelope true = elim (as_list (get "items" envelope.payload)) [
    | none ↦ fail (plain "invalid batch format: items is not a list")
    | some items ↦ store_collected (collect device_id envelope items nothing_collected)
  ]
  handle_telemetry device_id envelope false = handle_single envelope

  unfoldable pub handle_alert : String → MqttEnvelope F → Action W (Unit {0})
  handle_alert device_id envelope = do
    save_alert host db service.alert_store (alert_of device_id envelope)
    update_heartbeat host db service.state_store device_id

  -- The switch on the message type.
  unfoldable pub dispatch : Message F → Action W (Unit {0})
  dispatch m =
      if m.message_type == "telemetry"
      then handle_telemetry m.device_id m.envelope m.is_batch
      else if m.message_type == "alerts"
      then handle_alert m.device_id m.envelope
      else fail (plain (String.◌++◌ "unknown message type: " m.message_type))

  -- The clock is read where `validateEnvelope` does.
  unfoldable pub handle_request : Payload F → Action W (Unit {0})
  handle_request event =
      recovered
        (do now ← reads host.clock; message ← from (validate_message now event); dispatch message)
