-- ===== src/Tests/Startup.antt =====
-- The theorems on the start of the programs and on the client of the database, at concrete inputs.
use io_t_fleet_management.Prelude.{refl, true, false, String, ◌≡◌, ◌==◌, if◌then◌else◌, ◌↔◌, ◌≢◌}
use io_t_fleet_management.Go.Float.{milli_float, Milli}
use io_t_fleet_management.Go.Outcome.{ok, err, returned, external, Error, Result, restated}
use io_t_fleet_management.Cloud.{Messaging, DataPlane}
use io_t_fleet_management.Startup.Ready.{start_ingestion_iff, Starts}
use io_t_fleet_management.Database.Calls.{new_dynamodb_client_twice}
use io_t_fleet_management.Tests.Board.{Board, board_publisher, no_charts}
use io_t_fleet_management.Startup.ApiReady.{start_api_iff, IsStarted, IsLoaded, AreApiTablesNamed}
use io_t_fleet_management.Startup.{start_api, serving, on_lambda, on_port, start_ingestion}
use io_t_fleet_management.Database.{new_dynamodb_client, unconnected, is_ready}

abbrev environment : String → String
environment name = if name == "FIREBASE_CREDENTIALS" then "" else "Table"

abbrev no_app : String → Result String
no_app path = err (external "no key")

abbrev silent : String → Result (Messaging Board)
silent app = ok (record { send = λ topic title body w. (returned "", w) })

table≢empty : ¬ ◌≡◌ {A = String} "Table" ""
table≢empty h = cc

start_ingestion_iff_example :
    Starts {Config = String} {Client = String}
      (λ cfg. cfg)
      no_app
      silent
      environment
      (start_ingestion {Config = String} {Client = String}
        (λ cfg. cfg)
        no_app
        silent
        environment
        (ok "eu-west-1")
        unconnected).0
start_ingestion_iff_example =
    (start_ingestion_iff {Config = String} {Client = String} (λ cfg. cfg) no_app silent environment
        (ok "eu-west-1")).1
      (("eu-west-1", refl), (table≢empty, table≢empty, table≢empty))

new_dynamodb_client_twice_example :
    let c =
      (new_dynamodb_client {Config = String} {Client = String}
        (λ cfg. cfg)
        (err (external "no region"))
        unconnected).1 in
    (new_dynamodb_client {Config = String} {Client = String} (λ cfg. cfg) (ok "eu-west-1") c
      ≡ (ok tt, c))
    × ((is_ready c ≡ true)
        ↔ ((cfg : String) × (◌≡◌ {A = Result String} (err (external "no region")) (ok cfg))))
    × ((is_ready c ≡ false) ↔ (
        (e : Error) × ((new_dynamodb_client {Config = String} {Client = String}
            (λ cfg. cfg)
            (err (external "no region"))
            unconnected).0
          ≡ err (restated "unable to load SDK config" e))))
new_dynamodb_client_twice_example =
    new_dynamodb_client_twice (λ cfg. cfg) (err (external "no region")) (ok "eu-west-1")

abbrev silent_plane : String → DataPlane Milli Board
silent_plane cfg = board_publisher

start_api_iff_example :
    (IsStarted {Config = String} {Client = String}
        (λ cfg. cfg)
        silent_plane
        no_charts
        environment
        (ok "eu-west-1")
        (start_api {Config = String} {Client = String}
          (λ cfg. cfg)
          silent_plane
          no_charts
          environment
          (ok "eu-west-1")
          (ok "eu-west-1")
          unconnected).0
      ↔ (IsLoaded {Config = String} (ok "eu-west-1")
          × IsLoaded {Config = String} (ok "eu-west-1")
          × AreApiTablesNamed {Config = String} {Client = String}
              (λ cfg. cfg)
              silent_plane
              no_charts
              environment))
    × ((serving environment ≡ on_lambda) ↔ (environment "AWS_LAMBDA_FUNCTION_NAME" ≢ ""))
    × ((port : String) → serving environment ≡ on_port port → port ≢ "")
start_api_iff_example =
    start_api_iff {Config = String} {Client = String} (λ cfg. cfg) silent_plane no_charts
      environment (ok "eu-west-1") (ok "eu-west-1")
