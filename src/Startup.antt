-- ===== src/Startup.antt =====
-- The start of the two services: `init` and `main` of backend/cmd/iot-ingestion/main.go, and `main`
-- of backend/cmd/api-service/main.go, but for its routes. What the SDKs make of a configuration is
-- given. `panic(err)` is `panicked`.
pub mod Ready
pub mod ApiReady
use io_t_fleet_management.Prelude.{some, none, ◌==◌, if◌then◌else◌, String, Option, Bool}
use io_t_fleet_management.Go.Outcome.{ok, err, returned, panicked, Outcome, Result}
use io_t_fleet_management.Cloud.{DataPlane, Messaging}
use io_t_fleet_management.Api.{S3Client, DeviceHandler}
use io_t_fleet_management.Database.{Connection, new_dynamodb_client, is_ready}
use io_t_fleet_management.Ingestion.{Service}
use io_t_fleet_management.Telemetry.Store.{new_telemetry_store}
use io_t_fleet_management.Alerts.{new_alert_store}
use io_t_fleet_management.Devices.Store.{new_state_store}
use io_t_fleet_management.Commands.{new_command_store}
use io_t_fleet_management.Notifications.{new_service}
use io_t_fleet_management.Iot.{new_publisher}
use io_t_fleet_management.Rules.{new_alert_engine}

-- `if err != nil { panic(err) }`.
abbrev pub or_panic : {A B : Type 0} → Result A → (A → Outcome B) → Outcome B
or_panic (ok a) f = f a
or_panic (err _) f = panicked

abbrev pub firebase_key_path : (String → String) → String
firebase_key_path getenv =
    let path = getenv "FIREBASE_CREDENTIALS" in
    if path == "" then "./firebase-adminsdk.json" else path

-- A service that cannot be set up is only logged, and stays nil.
abbrev pub or_no_notifier : {W : Type 0} → Result (Messaging W) → Option (Messaging W)
or_no_notifier (ok client) = some client
or_no_notifier (err _) = none

module _ {W Config Client App : Type 0} (new_from_config : Config → Client)
    (new_app : String → Result App) (messaging : App → Result (Messaging W))
    (getenv : String → String) where
  -- The stores and the engine, once the client has been asked for.
  unfoldable pub ingestion_service : Bool → Outcome (Service W)
  ingestion_service ready = or_panic (new_telemetry_store getenv) λ telemetry_store.
      or_panic (new_alert_store getenv ready) λ alert_store.
        or_panic (new_state_store getenv ready) λ state_store.
          let notifier =
            or_no_notifier (new_service new_app messaging (firebase_key_path getenv)) in
          returned (record {
            telemetry_store = telemetry_store;
            alert_store = alert_store;
            state_store = state_store;
            engine = new_alert_engine alert_store state_store notifier;
          })

  unfoldable pub start_ingestion :
      Result Config → Connection Client → Outcome (Service W) × Connection Client
  start_ingestion loaded c =
      let (connected, c') = new_dynamodb_client new_from_config loaded c in
      (or_panic connected (λ _. ingestion_service (is_ready c')), c')

module _ {F W Config Client : Type 0} (new_from_config : Config → Client)
    (new_data_plane : Config → DataPlane F W) (nil_fetcher : S3Client F W)
    (getenv : String → String) where
  -- The handler; its `S3Fetcher` is not set. What a method of a nil `*iot.S3Client` does is given, since
  -- the repository has no code of it.
  unfoldable pub device_handler : Config → Bool → Outcome (DeviceHandler F W)
  device_handler cfg ready = or_panic (new_state_store getenv ready) λ state_store.
      or_panic (new_telemetry_store getenv) λ telemetry_store.
        or_panic (new_alert_store getenv ready) λ alert_store.
          or_panic (new_command_store getenv ready) λ command_store. returned (record {
            state_store = state_store;
            telemetry_store = telemetry_store;
            alert_store = alert_store;
            command_store = command_store;
            iot_publisher = new_publisher new_data_plane cfg;
            s3_fetcher = nil_fetcher;
          })

  -- The configuration is loaded for the client and once more for the publisher.
  unfoldable pub start_api :
      (loaded loaded_again : Result Config)
      → Connection Client
      → Outcome (DeviceHandler F W) × Connection Client
  start_api loaded loaded_again c =
      let (connected, c') = new_dynamodb_client new_from_config loaded c in
      (
        or_panic connected (λ _. or_panic loaded_again (λ cfg. device_handler cfg (is_ready c'))),
        c',
      )

-- How the API is served: by `lambda.Start`, or by `router.Run` on a port.
pub data Serving : Type 0 where
  on_lambda : Serving
  on_port : (port : String) → Serving

unfoldable pub serving : (String → String) → Serving
serving getenv =
    if getenv "AWS_LAMBDA_FUNCTION_NAME" == ""
    then (let port = getenv "PORT" in on_port (if port == "" then "8080" else port))
    else on_lambda
