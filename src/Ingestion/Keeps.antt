-- ===== src/Ingestion/Keeps.antt =====
-- backend/internal/ingestion/handler.go, and what it calls, over a relation between worlds that every
-- call of the service keeps.
use io_t_fleet_management.Prelude.{[], ◌∷◌, true, false, some, ℕ, ◌≡◌, List, String, ◌==◌, Bool}
use io_t_fleet_management.Rules.{handle_gas, gas_alarm, gas_alert}
use io_t_fleet_management.Validation.{Message, validate_message}
use io_t_fleet_management.Models.{MqttEnvelope, Telemetry}
use io_t_fleet_management.Telemetry.Store.Keeps.{save_telemetry_batch-Keeps, save_telemetry-Keeps}
use io_t_fleet_management.Go.Outcome.{
  ◌>>◌, returned, failed, panicked, pure, plain, Action, Outcome,
}
use io_t_fleet_management.Go.Value.{Payload, as_list, get}
use io_t_fleet_management.Go.Float.{Float64}
use io_t_fleet_management.Cloud.{Host, Dynamo, reads, Messaging}
use io_t_fleet_management.Go.Keeps.{
  IsPreorder, Keeps, >>=-Keeps, reads-Keeps, from-Keeps, if-Keeps, Option-Keeps, fail-Keeps,
  pure-Keeps, attempt-Keeps, Result-Keeps,
}
use io_t_fleet_management.Ingestion.{
  Service, dispatch, handle_alert, handle_request, handle_single, handle_telemetry, recovered,
  store_collected, Collected, alert_of, single_reading, collect, nothing_collected,
  save_telemetry_batch,
}
use io_t_fleet_management.Telemetry.Store.{save_telemetry}
use io_t_fleet_management.Notifications.Keeps.{push-Keeps}
use io_t_fleet_management.Prelude.Int.{ℤ}
use io_t_fleet_management.Devices.Store.{telemetry_input, heartbeat_input, update_from_telemetry}
use io_t_fleet_management.Devices.Store.Keeps.{update_from_telemetry-Keeps, update_heartbeat-Keeps}
use io_t_fleet_management.Alerts.Keeps.{save_alert-Keeps}

-- The calls of the ingestion, with the names of the tables that they are given.
pub record CallsKeep {F W Item Raw : Type 0} ⦃d : Float64 F⦄ (R : W → W → Type 0) (host : Host W)
    (db : Dynamo F W Item Raw) (service : Service W) : Type 0 where
  pub clock : (w : W) → R w (host.clock w).1
  pub uuid : (w : W) → R w (host.uuid w).1
  pub wait : (n : ℕ) (w : W) → R w (host.wait n w).1
  pub put_reading : (item : Item) → Keeps R (db.put_item service.telemetry_store.table_name item)
  pub put_alert : (item : Item) → Keeps R (db.put_item service.alert_store.table_name item)
  pub put_alarm : (item : Item) → Keeps R (db.put_item service.engine.alert_store.table_name item)
  pub write_batch :
      (items : List Item) → Keeps R (db.batch_write_item service.telemetry_store.table_name items)
  pub update_state :
      (tel : Telemetry F) (now : ℤ) (payload : Raw)
      → Keeps R (db.update_item (telemetry_input host db service.state_store tel now payload))
  pub update_seen :
      (device_id : String) (now : ℤ)
      → Keeps R (db.update_item (heartbeat_input host db service.state_store device_id now))
  pub send :
      (client : Messaging W) (topic title body : String)
      → service.engine.notifier ≡ some client
      → Keeps R (client.send topic title body)

recovered-Keeps :
    {W : Type 0} (R : W → W → Type 0) (m : Action W (Unit {0})) → Keeps R m → Keeps R (recovered m)
recovered-Keeps {W} R m p = record { at = λ w. go w (m w).0 }
  where
    go :
        (w : W) (r : Outcome (Unit {0}))
        → R w
            (elim r as (λ _. Outcome (Unit {0}) × W) [
              | returned a ↦ (returned a, (m w).1)
              | failed e ↦ (failed e, (m w).1)
              | panicked ↦ (failed (plain "internal server error!!"), (m w).1)
            ]).1
    go w (returned a) = p.at w
    go w (failed e) = p.at w
    go w panicked = p.at w

module _ {F W Item Raw : Type 0} ⦃d : Float64 F⦄ (R : W → W → Type 0) (order : IsPreorder R)
    (host : Host W) (db : Dynamo F W Item Raw) (service : Service W)
    (calls : CallsKeep R host db service) where
  clock-Keeps : Keeps R (reads host.clock)
  clock-Keeps = reads-Keeps R order host.clock calls.clock

  uuid-Keeps : Keeps R (reads host.uuid)
  uuid-Keeps = reads-Keeps R order host.uuid calls.uuid

  handle_gas-Keeps :
      (device_id : String) (payload : Payload F)
      → Keeps R (handle_gas host db service.engine device_id payload)
  unfolding handle_gas
  handle_gas-Keeps device_id payload =
      Option-Keeps R order (gas_alarm payload) _ _ (pure-Keeps R order tt) λ alarm.
        >>=-Keeps R order _ _ clock-Keeps λ now.
          >>=-Keeps R order _ _
            (attempt-Keeps R order _ (
              save_alert-Keeps R order host db service.engine.alert_store
                (gas_alert device_id now alarm payload) clock-Keeps uuid-Keeps calls.put_alarm))
            λ saved.
              Result-Keeps R order saved _ _
                (λ done.
                  push-Keeps R order service.engine.notifier device_id "Gas Alert" alarm.1
                    calls.send)
                (λ e. pure-Keeps R order tt)

  store_reading-Keeps :
      (t : Telemetry F) → Keeps R (save_telemetry host db service.telemetry_store t)
  store_reading-Keeps t =
      save_telemetry-Keeps R order host db service.telemetry_store clock-Keeps t calls.put_reading

  store_state-Keeps :
      (t : Telemetry F) → Keeps R (update_from_telemetry host db service.state_store t)
  store_state-Keeps t =
      update_from_telemetry-Keeps R order host db service.state_store t clock-Keeps
        (calls.update_state t)

  handle_single-Keeps :
      (envelope : MqttEnvelope F) → Keeps R (handle_single host db service envelope)
  unfolding handle_single
  handle_single-Keeps envelope =
      >>=-Keeps R order _ _
        (if-Keeps R order (envelope.type == "gas-sensor") _ _
          (handle_gas-Keeps envelope.device_id envelope.payload) (pure-Keeps R order tt))
        λ checked.
          >>=-Keeps R order _ _ (store_reading-Keeps (single_reading envelope))
            λ stored. store_state-Keeps (single_reading envelope)

  store_collected-Keeps : (c : Collected F) → Keeps R (store_collected host db service c)
  unfolding store_collected
  store_collected-Keeps c = go c.telemetry_list
    where
      go :
          (readings : List (Telemetry F))
          → Keeps R (elim readings as (λ _. Action W (Unit {0})) [
            | [] ↦ pure tt
            | _ ↦ do
              save_telemetry_batch host db service.telemetry_store c.telemetry_list
              update_from_telemetry host db service.state_store c.latest_reading
          ])
      go [] = pure-Keeps R order tt
      go (x ∷ xs) =
          >>=-Keeps R order _ _
            (save_telemetry_batch-Keeps R order host db service.telemetry_store clock-Keeps
              calls.wait calls.write_batch c.telemetry_list)
            λ stored. store_state-Keeps c.latest_reading

  handle_telemetry-Keeps :
      (device_id : String) (envelope : MqttEnvelope F) (is_batch : Bool)
      → Keeps R (handle_telemetry host db service device_id envelope is_batch)
  unfolding handle_telemetry
  handle_telemetry-Keeps device_id envelope true =
      Option-Keeps R order (as_list (get "items" envelope.payload)) _ _
        (fail-Keeps R order _ (plain "invalid batch format: items is not a list"))
        λ items. store_collected-Keeps (collect device_id envelope items nothing_collected)
  handle_telemetry-Keeps device_id envelope false = handle_single-Keeps envelope

  handle_alert-Keeps :
      (device_id : String) (envelope : MqttEnvelope F)
      → Keeps R (handle_alert host db service device_id envelope)
  unfolding handle_alert
  handle_alert-Keeps device_id envelope =
      >>=-Keeps R order _ _
        (save_alert-Keeps R order host db service.alert_store (alert_of device_id envelope)
          clock-Keeps uuid-Keeps calls.put_alert)
        λ saved.
          update_heartbeat-Keeps R order host db service.state_store device_id clock-Keeps
            (calls.update_seen device_id)

  dispatch-Keeps : (m : Message F) → Keeps R (dispatch host db service m)
  unfolding dispatch
  dispatch-Keeps m =
      if-Keeps R order (m.message_type == "telemetry") _ _
        (handle_telemetry-Keeps m.device_id m.envelope m.is_batch)
        (if-Keeps R order (m.message_type == "alerts") _ _
          (handle_alert-Keeps m.device_id m.envelope) (fail-Keeps R order _ _))

  pub handle_request-Keeps : (event : Payload F) → Keeps R (handle_request host db service event)
  unfolding handle_request
  handle_request-Keeps event = recovered-Keeps R _ (
      >>=-Keeps R order _ _ clock-Keeps λ now.
        >>=-Keeps R order _ _ (from-Keeps R order (validate_message now event))
          λ message. dispatch-Keeps message)
