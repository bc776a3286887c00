-- ===== src/Ingestion/Flow.antt =====
-- backend/internal/ingestion/handler.go: the flow of `HandleRequest`.
use io_t_fleet_management.Prelude.{refl, true, false, some, none, ap, ◌∙◌, ◌≡◌, ◌==◌, arith, eq_iff}
use io_t_fleet_management.Go.Outcome.{
  ok, err, returned, failed, panicked, Outcome, Action, plain, Error, ◌>>=◌, from,
}
use io_t_fleet_management.Ingestion.{
  single_reading, handle_single, handle_request, recovered, Service, MqttEnvelope, save_telemetry,
  validate_message, dispatch, handle_telemetry, Message, String, handle_gas,
}
use io_t_fleet_management.Go.Float.{Float64}
use io_t_fleet_management.Cloud.{Host, Dynamo, reads}
use io_t_fleet_management.Go.Value.{Payload}
use io_t_fleet_management.Go.Steps.{chain-failed, chain-panicked}
use io_t_fleet_management.Devices.Store.{update_from_telemetry}
use io_t_fleet_management.Rules.{gas_alarm}
use io_t_fleet_management.Rules.Gas.{saving_alarm, handle_gas-alarm}

abbrev pub recovered_result : {W : Type 0} → Outcome (Unit {0}) × W → Outcome (Unit {0}) × W
recovered_result p = recovered (λ _. p) p.1

recovered-returns : {W : Type 0} (m : Action W (Unit {0})) (w : W) → ¬ (recovered m w).0 ≡ panicked
recovered-returns {W} m w = go (m w).0
  where
    go :
        (r : Outcome (Unit {0}))
        → ¬ (elim r as (λ _. Outcome (Unit {0}) × W) [
          | returned a ↦ (returned a, (m w).1)
          | failed e ↦ (failed e, (m w).1)
          | panicked ↦ (failed (plain "internal server error!!"), (m w).1)
        ]).0
          ≡ panicked
    go (returned a) h = cc
    go (failed e) h = cc
    go panicked h = cc

module _ {F W Item Raw : Type 0} ⦃d : Float64 F⦄ (host : Host W) (db : Dynamo F W Item Raw)
    (service : Service W) where
  -- The request ends with a result or an error, never with a panic, whatever the event is.
  pub handle_request-no-panic :
      (event : Payload F) (w : W) → ¬ (handle_request host db service event w).0 ≡ panicked
  unfolding handle_request
  handle_request-no-panic event w h =
      recovered-returns
        (reads host.clock >>= λ now. from (validate_message now event) >>= dispatch host db service)
        w h

  -- An event that the validation rejects ends with its error, and nothing but the clock is used.
  pub handle_request-rejected :
      (event : Payload F) (w : W) (e : Error)
      → validate_message (host.clock w).0 event ≡ err e
      → handle_request host db service event w ≡ (failed e, (host.clock w).1)
  unfolding handle_request
  handle_request-rejected event w e h =
      ap (λ r. recovered (from r >>= dispatch host db service) (host.clock w).1) h

  -- If a reading that is not of a gas sensor cannot be stored, its handling ends with the error of
  -- that, and the state of the device is left alone: the world is the one that the failed call left.
  pub handle_single-not-stored :
      (envelope : MqttEnvelope F) (w v : W) (e : Error)
      → ¬ envelope.type ≡ "gas-sensor"
      → save_telemetry host db service.telemetry_store (single_reading envelope) w ≡ (failed e, v)
      → handle_single host db service envelope w ≡ (failed e, v)
  unfolding handle_single
  handle_single-not-stored envelope w v e k h =
      let other : (envelope.type == "gas-sensor") ≡ false =
        ground (arith, eq_iff envelope.type "gas-sensor") in
      rw other (
        chain-failed (save_telemetry host db service.telemetry_store (single_reading envelope))
          (λ _. update_from_telemetry host db service.state_store (single_reading envelope)) w v e
          h)

  handle_single-panics :
      (envelope : MqttEnvelope F) (w v : W)
      → envelope.type ≡ "gas-sensor"
      → handle_gas host db service.engine envelope.device_id envelope.payload w ≡ (panicked, v)
      → handle_single host db service envelope w ≡ (panicked, v)
  unfolding handle_single
  handle_single-panics envelope w v k h =
      let gas : (envelope.type == "gas-sensor") ≡ true = rw k refl in
      rw gas (
        chain-panicked (handle_gas host db service.engine envelope.device_id envelope.payload)
          (λ _. save_telemetry host db service.telemetry_store (single_reading envelope) >>= λ _.
            update_from_telemetry host db service.state_store (single_reading envelope))
          w v h)

  -- An accepted gas reading, not of a batch, that raises an alarm, with no notifier and its alert
  -- saved after the clock is read: the request ends in the error of a recovered panic, in the world that the saving left, so that neither the reading
  -- nor the state of the device is stored.
  pub handle_request-no-notifier :
      (event : Payload F) (m : Message F) (alarm : String × String) (w v : W)
      → validate_message (host.clock w).0 event ≡ ok m
      → m.message_type ≡ "telemetry"
      → m.is_batch ≡ false
      → m.envelope.type ≡ "gas-sensor"
      → gas_alarm m.envelope.payload ≡ some alarm
      → service.engine.notifier ≡ none
      → saving_alarm host db service.engine m.envelope.device_id m.envelope.payload alarm
          (host.clock w).1
        ≡ (returned tt, v)
      → handle_request host db service event w ≡ (failed (plain "internal server error!!"), v)
  unfolding handle_request dispatch handle_telemetry handle_single
  handle_request-no-notifier event m alarm w v accepted kind single gas raised nobody saved =
      let start = (host.clock w).1 in
      let gas_panics : handle_gas host db service.engine m.envelope.device_id m.envelope.payload
            start
          ≡ (panicked, v) =
        (handle_gas-alarm host db service.engine m.envelope.device_id m.envelope.payload alarm start
            v raised).1
          saved nobody in
      let single_panics = handle_single-panics m.envelope start v gas gas_panics in
      let step : dispatch host db service m start ≡ (panicked, v) =
        rw (kind, single) single_panics in
      ap (λ r. recovered (from r >>= dispatch host db service) start) accepted
      ∙ ap recovered_result step
