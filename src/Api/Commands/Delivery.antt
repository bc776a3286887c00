-- ===== src/Api/Commands/Delivery.antt =====
-- device_handler.go: how `SendCommand` ends.

use io_t_fleet_management.Prelude.{refl, inl, inr, ◌⊎◌, ◌∙◌, some, none, String, ◌≡◌}
use io_t_fleet_management.Go.Float.{Float64}
use io_t_fleet_management.Go.Outcome.{
  returned, failed, ok, err, Action, Outcome, attempt, pure, Error, Result,
}
use io_t_fleet_management.Go.Steps.{chain-returned, attempt-of-failed, attempt-of-returned}
use io_t_fleet_management.Cloud.{Host, Dynamo}
use io_t_fleet_management.Api.{Clock, DeviceHandler, Answer, error_json}
use io_t_fleet_management.Api.Commands.{
  SendCommandRequest, send_command, mqtt_payload, command_topic, command_id, command_record,
  dispatched, record_command, dispatch_command,
}
use io_t_fleet_management.Commands.{save_command}
use io_t_fleet_management.Iot.{publish}

module _ {F W Item Raw : Type 0} ⦃d : Float64 F⦄ (host : Host W) (clock : Clock W)
    (db : Dynamo F W Item Raw) (handler : DeviceHandler F W) where
  -- The identifier that a command gets in the world `w`.
  abbrev pub id_at : W → String
  id_at w = command_id (clock.nanoseconds w).0

  -- The command sent over MQTT, from the world that the reading of the clock leaves.
  abbrev pub sending : String → SendCommandRequest F → W → Outcome (Unit {0}) × W
  sending device_id req w =
      publish handler.iot_publisher (command_topic device_id) (mqtt_payload (id_at w) req)
        (clock.nanoseconds w).1

  -- The record of the command kept, from the world that sending it leaves.
  abbrev pub keeping : String → SendCommandRequest F → (w v : W) → Outcome (Unit {0}) × W
  keeping device_id req w v =
      save_command host db handler.command_store
        (command_record (id_at w) device_id (host.clock v).0 req) (host.clock v).1

  -- What is done once it is known whether the command was sent.
  abbrev after : String → SendCommandRequest F → String → Result (Unit {0}) → Action W (Answer F)
  after device_id req id sent = elim sent [
    | err _ ↦ pure (error_json 500 "Failed to communicate with device")
    | ok _ ↦ record_command host clock db handler id device_id req
  ]

  recorded :
      (device_id : String) (req : SendCommandRequest F) (w v u : W) (r : Result (Unit {0}))
      → attempt (λ x. keeping device_id req w v) v ≡ (returned r, u)
      → record_command host clock db handler (id_at w) device_id req v
        ≡ (returned (dispatched (id_at w)), u)
  unfolding record_command
  recorded device_id req w v u r h =
      chain-returned
        (attempt (
          save_command host db handler.command_store
            (command_record (id_at w) device_id (host.clock v).0 req)))
        (λ stored. pure (dispatched (id_at w))) (host.clock v).1 u r h

  sent_lem :
      (device_id : String) (req : SendCommandRequest F) (w v : W)
      → sending device_id req w ≡ (returned tt, v)
      → send_command host clock db handler device_id (some req) w
        ≡ record_command host clock db handler (id_at w) device_id req v
  unfolding send_command dispatch_command
  sent_lem device_id req w v h =
      let start = (clock.nanoseconds w).1 in
      let m =
        publish handler.iot_publisher (command_topic device_id) (mqtt_payload (id_at w) req) in
      chain-returned (attempt m) (after device_id req (id_at w)) start v (ok tt)
        (attempt-of-returned m start v tt h)

  unsent_lem :
      (device_id : String) (req : SendCommandRequest F) (w v : W) (e : Error)
      → sending device_id req w ≡ (failed e, v)
      → send_command host clock db handler device_id (some req) w
        ≡ (returned (error_json 500 "Failed to communicate with device"), v)
  unfolding send_command dispatch_command
  unsent_lem device_id req w v e h =
      let start = (clock.nanoseconds w).1 in
      let m =
        publish handler.iot_publisher (command_topic device_id) (mqtt_payload (id_at w) req) in
      chain-returned (attempt m) (after device_id req (id_at w)) start v (err e)
        (attempt-of-failed m start v e h)

  -- A body that is refused gets 400 and changes nothing. A command that cannot be sent gets 500, in
  -- the world that the attempt to send it leaves. A command that is sent gets 202 with its
  -- identifier, in the world that the attempt to keep its record leaves, whether that returns or
  -- fails.
  pub send_command_lem :
      (device_id : String) (req : SendCommandRequest F) (w v u : W) (e : Error)
      → (send_command host clock db handler device_id none w
          ≡ (returned (error_json 400 "invalid command format! action is required."), w))
        × (sending device_id req w ≡ (failed e, v)
            → send_command host clock db handler device_id (some req) w
              ≡ (returned (error_json 500 "Failed to communicate with device"), v))
        × (sending device_id req w ≡ (returned tt, v)
            → (keeping device_id req w v ≡ (returned tt, u))
              ⊎ (keeping device_id req w v ≡ (failed e, u))
            → send_command host clock db handler device_id (some req) w
              ≡ (returned (dispatched (id_at w)), u))
  unfolding send_command
  send_command_lem device_id req w v u e = (refl, unsent_lem device_id req w v e, go)
    where
      go :
          sending device_id req w ≡ (returned tt, v)
          → (keeping device_id req w v ≡ (returned tt, u))
            ⊎ (keeping device_id req w v ≡ (failed e, u))
          → send_command host clock db handler device_id (some req) w
            ≡ (returned (dispatched (id_at w)), u)
      go h (inl k) =
          sent_lem device_id req w v h
          ∙ recorded device_id req w v u (ok tt)
              (attempt-of-returned (λ x. keeping device_id req w v) v u tt k)
      go h (inr k) =
          sent_lem device_id req w v h
          ∙ recorded device_id req w v u (err e)
              (attempt-of-failed (λ x. keeping device_id req w v) v u e k)
