-- ===== src/Lib.antt =====
-- A model of the cloud side of the fleet, the Go module under backend, with theorems on its parts.
--
-- Devices publish readings and alerts over MQTT. The ingestion Lambda validates an event, stores
-- readings, alerts and the live state of the device in DynamoDB, and raises gas alarms with a push
-- notification; the API reads the same tables and shows charts and events computed from them.
--
-- Which file models which part:
--   Ingestion       backend/internal/ingestion/handler.go: HandleRequest is `handle_request`,
--                   handleTelemetry is `handle_telemetry` (with `handle_single` and `collect` for its
--                   two halves), handleAlert is `handle_alert`
--   Validation      backend/internal/validation/validator.go, function by function; Envelopes and Known
--                   describe the envelopes and the payloads without its tests
--   Devices         backend/internal/devices/device_rules.go and ExtractState
--   Devices.Store   backend/internal/devices/store_state.go, the table of live states
--   Alerts          backend/internal/alerts/store_alerts.go
--   Commands        backend/internal/commands/store_command.go
--   Telemetry.Store backend/internal/telemetry/store_telemetry.go, with chunks and retries
--   Telemetry.*     backend/internal/telemetry/analytics.go: Periods holds the periods and the texts of
--                   durations, Charts the grouping into points, Sessions the loops that pair on and
--                   off, Events the lists of events
--   Rules           backend/internal/rules/engine.go and gas_rules.go; door_rules.go is Rules.Door
--   Api             backend/internal/api/handlers/device_handler.go: Views holds the functions that fill
--                   in a payload, Devices, History, Alerts, Overview and Commands the handlers, and
--                   Routes the table of cmd/api-service/main.go
--   Iot             backend/internal/iot/publisher.go
--   Database        backend/pkg/db/client.go, with the state of `once` and `Client`
--   Startup         the start of backend/cmd/iot-ingestion and backend/cmd/api-service, and how the
--                   latter is served
--   Fleet           these parts on one world: what each leaves to the others, step by step
--   Notifications   backend/internal/notifications/service.go
--   Models          backend/models
--   Cloud           no code of the repository: the clock, DynamoDB, the IoT data plane and Firebase as
--                   records of operations on a world `W`, which every stateful definition takes
--   Go              no code of the repository either: dynamic values, errors and panics, `float64` as an
--                   interface, texts, and JSON as far as the ingestion uses it
--   Prelude         shared names, lists, tests and integers
--   Tests           the theorems at concrete inputs
--
-- A method that returns an error is an `Action`: from a world to an outcome (a value, an error or a
-- panic) and a world, so that what was done before an error stays done. A service that is nil is an
-- option. An `int64` wraps around where the source adds or subtracts; `time.Now` reads the clock of
-- the host, or is an argument `now` where a pure function reads it once. The order in which a Go map
-- is visited is an argument of the analytics that depend on it, and so is the time zone.
--
-- Fuel: `save_chunks` takes the number of readings, and each round passes 25 of them, so that the
-- loop ends by its own test; `write_attempts` counts the four attempts of the source. Only the scan
-- of `get_all_states` has a length that the database decides: its fuel is an argument, and running
-- out of it is a result of its own.
--
-- Files called Keeps have the lemmas for a relation between worlds that each call of a service keeps.
-- Devices.Store.Register has a register of the latest readings, as an abstract view of the table of
-- states. What DynamoDB does is in records of laws, which the theorems name. The laws on an update
-- spell out the texts of its condition and its expression; a read is eventually consistent, since
-- the code does not set `ConsistentRead`, and a batch call takes 25 items with different keys.
--
-- A request to the API is what the handlers read of it, and an answer what they give to gin. The maps
-- of the payloads that the API fills in are those of stored states; a nil map, on which such a write
-- panics, is not told apart from an empty one. The client of S3 is not declared in the repository and
-- is given, as is `sort.Slice`, whose documented behaviour is the law `SortsSlices`.
--
-- The goroutines of the door rules run one after the other, each as a whole, in an order that is an
-- argument; Rules.Door.Threads has them interleaved, with each call that a goroutine makes as a step
-- of its own. Go.Ends is about how an action ends whatever the world is, and Api.Contract about the
-- answers of each endpoint.
--
-- Not modelled: the lines of the log but those for rejected events (Ingestion.Logging), and the
-- serving of HTTP and Lambda events, which is that of libraries; the simulators, the mobile
-- application and the infrastructure are not Go.
pub mod Prelude
pub mod Go
pub mod Models
pub mod Devices
pub mod Validation
pub mod Cloud
pub mod Alerts
pub mod Commands
pub mod Telemetry
pub mod Notifications
pub mod Rules
pub mod Ingestion
pub mod Iot
pub mod Database
pub mod Api
pub mod Startup
pub mod Fleet
pub mod Tests
