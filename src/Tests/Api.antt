-- ===== src/Tests/Api.antt =====
-- The theorems on the handling and the charts of alerts and on the alert shown for a door, at concrete
-- inputs.
use mathlib.Core.List.Permᴰ
use mathlib.Core.List.{Permᴰ}
use io_t_fleet_management.Telemetry.Charts.{Table, get_alerts, filter_time}
use io_t_fleet_management.Telemetry.Charts.Visit.{filter_time-visit}
use io_t_fleet_management.Telemetry.Periods.{Zone}
use io_t_fleet_management.Prelude.{[], refl, none, true, false, ◌≡◌, ◌∷◌, ℕ}
use io_t_fleet_management.Prelude.Int.{pos, sub64, wrap64, ◌-ℤ◌, add64, ◌+ℤ◌, ℤ}
use io_t_fleet_management.Go.Float.{Milli, milli, milli_float, Milli-IsOrdered, ◌≼◌}
use io_t_fleet_management.Go.Value.{float, str, object, empty, entry, Payload, get, put}
use io_t_fleet_management.Go.Outcome.{ok, failed, external, wrap, returned}
use io_t_fleet_management.Api.Views.{security_alert, alert_status}
use io_t_fleet_management.Api.Views.Door.{security_alert_iff, minutes_since, IsUnlocked}
use io_t_fleet_management.Ingestion.AlertFlow.{handle_request-alert}
use io_t_fleet_management.Ingestion.{handle_request, Service}
use io_t_fleet_management.Validation.{
  Message, validate_message, validate_event, validate_topic, decode_envelope, unmarshal_envelope,
  validate_envelope, validate_body, validate_payload, validate_severity, is_batch_of,
}
use io_t_fleet_management.Go.Json.{marshal_size, sort_entries, names_field, unmarshal_map}
use io_t_fleet_management.Go.Text.Split.{split}
use io_t_fleet_management.Go.Text.Decimal.{decimal_ℤ}
use io_t_fleet_management.Devices.{rules, temp_operational, gas_operational}
use io_t_fleet_management.Tests.Memory.{World, alarm, still, refusing, memory}
use io_t_fleet_management.Models.{Alert, Telemetry}
use io_t_fleet_management.Devices.Store.{update_heartbeat}

abbrev unlocked : Payload Milli
unlocked = entry "lock_state" (str "UNLOCKED") empty

unlocked_warns : security_alert unlocked (pos 100) (pos 1000) ≡ "WARNING"
unfolding security_alert alert_status get sub64 wrap64 ◌-ℤ◌
unlocked_warns = refl

security_alert_iff_example :
    let m : Milli = minutes_since (pos 100) (pos 1000) in
    IsUnlocked unlocked × (milli_float.lt (milli (pos 7000)) m ≡ true) × (m ≼ milli (pos 15000))
security_alert_iff_example =
    (security_alert_iff Milli-IsOrdered unlocked (pos 100) (pos 1000) refl).1.0 unlocked_warns

abbrev hot_payload : Payload Milli
hot_payload = entry "severity" (str "HIGH") (entry "temp" (float (milli (pos 35000))) empty)

abbrev hot_message : Message Milli
hot_message = record {
  device_id = "temp-1";
  message_type = "alerts";
  envelope = record {
    device_id = "temp-1";
    timestamp = pos 1000;
    type = "temp-sensor";
    payload = hot_payload;
  };
  is_batch = false;
}

abbrev hot_request : Payload Milli
hot_request = entry "topic" (str "devices/temp-1/alerts") (
    entry "payload"
      (object (
        entry "device_id" (str "temp-1") (
          entry "timestamp" (float (milli (pos 1000000)))
            (entry "type" (str "temp-sensor") (entry "payload" (object hot_payload) empty)))))
      empty)

hot_accepted : validate_message (pos 1000) hot_request ≡ ok hot_message
unfolding validate_message validate_event get validate_topic split decode_envelope marshal_size
    decimal_ℤ unmarshal_envelope sort_entries names_field unmarshal_map validate_envelope
    validate_body validate_payload validate_severity is_batch_of rules temp_operational
    gas_operational add64 wrap64 ◌+ℤ◌ put
hot_accepted = refl

abbrev start : World
start = record { time = pos 1000; table = []; calls = 0 }

abbrev service : Service World
service = record {
  telemetry_store = record { table_name = "Readings" };
  alert_store = record { table_name = "Alerts" };
  state_store = record { table_name = "States" };
  engine = record {
    alert_store = record { table_name = "Alerts" };
    state_store = record { table_name = "States" };
    notifier = none;
  };
}

-- The alert of the message, as it is kept.
abbrev hot_alert : Alert Milli
hot_alert = record {
  alert_id = "temp-1#1000";
  device_id = "temp-1";
  timestamp = pos 1000;
  type = "temp-sensor";
  severity = "HIGH";
  payload = hot_payload;
  expires_at = pos 2593000;
}

abbrev alerted : World
alerted = record start { table = alarm hot_alert ∷ [] }

handle_request-alert_example :
    handle_request still memory service hot_request start ≡ (returned tt, alerted)
unfolding get decimal_ℤ add64 wrap64 ◌+ℤ◌ update_heartbeat
handle_request-alert_example =
    (handle_request-alert still memory service hot_request hot_message (alarm hot_alert) start
        alerted (external "refused") hot_accepted refl refl).1
      refl

alert_refused :
    handle_request still refusing service hot_request start
    ≡ (failed (wrap "failed to store alert in dynamodb" (external "refused")), start)
unfolding get decimal_ℤ add64 wrap64 ◌+ℤ◌
alert_refused =
    (handle_request-alert still refusing service hot_request hot_message (alarm hot_alert) start
        start (external "refused") hot_accepted refl refl).0
      refl

-- The first two entries the other way round.
abbrev second_first : Table Milli → Table Milli
second_first [] = []
second_first (a ∷ []) = a ∷ []
second_first (a ∷ b ∷ table) = b ∷ a ∷ table

second_first_perm : (table : Table Milli) → Permᴰ table (second_first table)
second_first_perm [] = Permᴰ.nil
second_first_perm (a ∷ []) = Permᴰ.refl (a ∷ [])
second_first_perm (a ∷ b ∷ table) = Permᴰ.swap refl refl

abbrev by_second : Zone
by_second = record { hour = λ t. 0; format = λ layout t. decimal_ℤ t }

abbrev warning_at : ℤ → Alert Milli
warning_at timestamp = record {
  alert_id = "";
  device_id = "gas-1";
  timestamp = timestamp;
  type = "gas-sensor";
  severity = "WARNING";
  payload = empty;
  expires_at = pos 0;
}

abbrev cold_at : ℕ → Telemetry Milli
cold_at timestamp = record {
  device_id = "temp-1";
  timestamp = pos timestamp;
  type = "temp-sensor";
  payload = entry "temp" (float (milli (pos 12000))) empty;
  expires_at = pos 0;
}

filter_time-visit_example :
    ((filter_time (λ table. table) by_second (cold_at 7 ∷ cold_at 5 ∷ []) "temp" "7d" (pos 9)).0
      ≡ (filter_time second_first by_second (cold_at 7 ∷ cold_at 5 ∷ []) "temp" "7d" (pos 9)).0)
    × (get_alerts (λ table. table) by_second (warning_at (pos 7) ∷ warning_at (pos 5) ∷ []) "7d"
        ≡ get_alerts second_first by_second (warning_at (pos 7) ∷ warning_at (pos 5) ∷ []) "7d")
filter_time-visit_example =
    filter_time-visit (λ table. table) second_first by_second (cold_at 7 ∷ cold_at 5 ∷ [])
      (warning_at (pos 7) ∷ warning_at (pos 5) ∷ []) "temp" "7d" (pos 9) (λ table. Permᴰ.refl table)
      second_first_perm
