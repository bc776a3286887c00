-- ===== src/Tests/Stateful.antt =====
-- The theorems on stateful code, at concrete inputs.
use mathlib.Core.List.{Perm}
use io_t_fleet_management.Prelude.{
  [], ◌∷◌, refl, some, none, true, false, List, String, ◌≡◌, ◌≤◌, arith,
}
use io_t_fleet_management.Prelude.Int.{pos, add64, wrap64, ◌+ℤ◌}
use io_t_fleet_management.Go.Float.{Milli, milli, milli_float}
use io_t_fleet_management.Go.Value.{float, str, object, empty, entry, bool, Payload, get, put}
use io_t_fleet_management.Go.Outcome.{ok, returned, failed, Error, restated, external, plain}
use io_t_fleet_management.Tests.Memory.{
  World, Stored, reading, live, alarm, still, memory, refusing, memory-WritesBatches,
}
use io_t_fleet_management.Alerts.{save_alert}
use io_t_fleet_management.Devices.Store.{StateStore, get_all_states, scan_pages}
use io_t_fleet_management.Devices.Store.Pages.{get_all_states_lem, next, last, Decodes}
use io_t_fleet_management.Ingestion.{Service, handle_request, single_reading}
use io_t_fleet_management.Models.{MqttEnvelope, Telemetry, DeviceState}
use io_t_fleet_management.Rules.{gas_alarm, gas_alert, ppm_level}
use io_t_fleet_management.Telemetry.Store.{
  TelemetryStore, save_telemetry, save_telemetry_batch, write_batch_with_retry, write_requests,
  save_chunks, write_attempts,
}
use io_t_fleet_management.Validation.{
  Message, validate_message, validate_event, validate_topic, decode_envelope, unmarshal_envelope,
  validate_envelope, validate_body, validate_payload, validate_severity, is_batch_of,
}
use io_t_fleet_management.Rules.Gas.{saving_alarm}
use io_t_fleet_management.Ingestion.Flow.{handle_request-no-notifier}
use io_t_fleet_management.Telemetry.Store.Chunks.{save_telemetry_batch-written, Encoded}
use io_t_fleet_management.Telemetry.Store.Retry.{write_batch_with_retry_lem}
use io_t_fleet_management.Go.Text.Split.{split}
use io_t_fleet_management.Go.Json.{marshal_size, sort_entries, names_field, unmarshal_map}
use io_t_fleet_management.Go.Text.Decimal.{decimal_ℤ}
use io_t_fleet_management.Devices.{rules, temp_operational, gas_operational}

abbrev start : World
start = record { time = pos 1000; table = []; calls = 0 }

abbrev store : TelemetryStore
store = record { table_name = "Telemetry" }

abbrev cold_reading : Telemetry Milli
cold_reading = record {
  device_id = "temp-1";
  timestamp = pos 990;
  type = "temp-sensor";
  payload = entry "temp" (float (milli (pos 12000))) empty;
  expires_at = pos 0;
}

write_batch_with_retry_lem_example :
    ((write_batch_with_retry still memory store (reading cold_reading ∷ []) start).1.calls ≤ 4)
    × ((w' : World)
        → write_batch_with_retry still memory store (reading cold_reading ∷ []) start
          ≡ (returned tt, w')
        → Perm w'.table (reading cold_reading ∷ []))
write_batch_with_retry_lem_example =
    write_batch_with_retry_lem still memory store (λ w. w.table) (λ w. w.calls)
      (memory-WritesBatches "Telemetry") (reading cold_reading ∷ []) start

batch_saved : save_telemetry_batch still memory store (cold_reading ∷ []) start ≡ (
  returned tt,
  record {
    time = pos 1000;
    table = reading (record cold_reading { expires_at = pos 605800 }) ∷ [];
    calls = 1;
  },
)
unfolding save_telemetry_batch save_chunks write_requests write_batch_with_retry write_attempts
    add64 wrap64 ◌+ℤ◌
batch_saved = refl

save_telemetry_batch-written_example :
    (items : List Stored) × Encoded memory (pos 605800) (cold_reading ∷ []) items
    × Perm (reading (record cold_reading { expires_at = pos 605800 }) ∷ []) items
unfolding add64 wrap64 ◌+ℤ◌
save_telemetry_batch-written_example =
    save_telemetry_batch-written still memory store (λ w. w.table) (λ w. w.calls)
      (memory-WritesBatches "Telemetry") (cold_reading ∷ []) start
      (record {
        time = pos 1000;
        table = reading (record cold_reading { expires_at = pos 605800 }) ∷ [];
        calls = 1;
      })
      (λ v. refl) batch_saved

abbrev service : Service World
service = record {
  telemetry_store = store;
  alert_store = record { table_name = "Alerts" };
  state_store = record { table_name = "DeviceState" };
  engine = record {
    alert_store = record { table_name = "Alerts" };
    state_store = record { table_name = "DeviceState" };
    notifier = none;
  };
}

abbrev gas_payload : Payload Milli
gas_payload = entry "gas_level" (float (milli (pos 900000))) (entry "alarm_on" (bool true) empty)

abbrev gas_envelope : MqttEnvelope Milli
gas_envelope = record {
  device_id = "gas-1";
  timestamp = pos 1000;
  type = "gas-sensor";
  payload = gas_payload;
}

abbrev gas_message : Message Milli
gas_message = record {
  device_id = "gas-1";
  message_type = "telemetry";
  envelope = gas_envelope;
  is_batch = false;
}

abbrev gas_request : Payload Milli
gas_request = entry "topic" (str "devices/gas-1/telemetry") (
    entry "payload"
      (object (
        entry "device_id" (str "gas-1") (
          entry "timestamp" (float (milli (pos 1000000)))
            (entry "type" (str "gas-sensor") (entry "payload" (object gas_payload) empty)))))
      empty)

abbrev warned : World
warned = record {
  time = pos 1000;
  table =
      alarm (record (gas_alert "gas-1" (pos 1000) ("CRITICAL", "Gas level critical") gas_payload) {
        alert_id = "id";
        expires_at = pos 2593000;
      })
      ∷ [];
  calls = 0;
}

gas_accepted : validate_message (pos 1000) gas_request ≡ ok gas_message
unfolding validate_message validate_event get validate_topic split decode_envelope marshal_size
    decimal_ℤ unmarshal_envelope sort_entries names_field unmarshal_map validate_envelope
    validate_body validate_payload validate_severity is_batch_of rules temp_operational
    gas_operational add64 wrap64 ◌+ℤ◌ put
gas_accepted = refl

gas_raised : gas_alarm gas_payload ≡ some ("CRITICAL", "Gas level critical")
unfolding gas_alarm get
gas_raised = refl

gas_saved :
    saving_alarm still memory service.engine "gas-1" gas_payload
      ("CRITICAL", "Gas level critical")
      start
    ≡ (returned tt, warned)
unfolding save_alert add64 wrap64 ◌+ℤ◌ ppm_level
gas_saved = refl

handle_request-no-notifier_example :
    handle_request still memory service gas_request start
    ≡ (failed (plain "internal server error!!"), warned)
handle_request-no-notifier_example =
    handle_request-no-notifier still memory service gas_request gas_message
      ("CRITICAL", "Gas level critical") start warned gas_accepted refl refl refl gas_raised refl
      gas_saved

abbrev cold_envelope : MqttEnvelope Milli
cold_envelope = record {
  device_id = "temp-1";
  timestamp = pos 990;
  type = "temp-sensor";
  payload = cold_reading.payload;
}

abbrev not_stored : Error
not_stored = restated "failed to store data into DynamoDB" (external "refused")

reading_refused :
    save_telemetry still refusing store (single_reading cold_envelope) start
    ≡ (failed not_stored, start)
unfolding save_telemetry
reading_refused = refl

abbrev live_state : String → DeviceState Milli
live_state id = record {
  device_id = id;
  type = "light-sensor";
  status = "ONLINE";
  operational_state = "DARK";
  health = "HEALTHY";
  payload = empty;
  last_seen_at = pos 900;
  last_updated = pos 901;
}

-- A reading stands between the states of two devices, and does not decode to a state.
abbrev stray : Telemetry Milli
stray = record {
  device_id = "c";
  timestamp = pos 900;
  type = "light-sensor";
  payload = empty;
  expires_at = pos 0;
}

abbrev two_states : World
two_states = record {
  time = pos 1000;
  table = live (live_state "a") ∷ reading stray ∷ live (live_state "b") ∷ [];
  calls = 0;
}

abbrev state_store : StateStore
state_store = record { table_name = "DeviceState" }

get_all_states_lem_example :
    (states : List (DeviceState Milli)) × (get_all_states still memory state_store 2 two_states
      ≡ (returned (some states), two_states))
    × Decodes still memory state_store
        (live (live_state "a") ∷ reading stray ∷ live (live_state "b") ∷ [])
        states
get_all_states_lem_example =
    get_all_states_lem still memory state_store 2 two_states two_states
      ((live (live_state "a") ∷ []) ∷ (reading stray ∷ live (live_state "b") ∷ []) ∷ [])
      (next refl (last refl)) (omega arith)

both_states :
    get_all_states still memory state_store 2 two_states
    ≡ (returned (some (live_state "a" ∷ live_state "b" ∷ [])), two_states)
unfolding get_all_states scan_pages
both_states = refl
