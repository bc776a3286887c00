-- ===== src/Tests/Pure.antt =====
-- The theorems on pure code, at concrete inputs.

use mathlib.Core.List.{reverse}
use io_t_fleet_management.Telemetry.Sessions.RunTime.{
  run, rest, later, done, calculate_ac_run_time-IsRuns, calculate_ac_run_time-bounds, IsRuns,
}
use io_t_fleet_management.Prelude.{
  [], ◌∷◌, refl, some, false, All, List, ℕ, ◌*◌, ◌+◌, ◌≡◌, ◌≢◌, take, ◌<◌, ◌↔◌, ◌≤◌, ◌⊎◌, arith,
  true,
}
use io_t_fleet_management.Prelude.Int.{pos, negsuc, ℤ, ◌-ℤ◌, add64, wrap64, ◌+ℤ◌, sub64}
use io_t_fleet_management.Go.Float.{Milli, milli, milli_float, Milli-IsOrdered, ◌≼◌}
use io_t_fleet_management.Go.Value.{
  nil, cons, float, str, object, empty, entry, bool, Items, Payload, Value, get, as_float, put,
}
use io_t_fleet_management.Go.Outcome.{ok, invalid_event}
use Prim.Native.String.{String}
use io_t_fleet_management.Devices.{extract_state, temp_operational, rules, gas_operational}
use io_t_fleet_management.Devices.Classification.{temp_operational_iff}
use io_t_fleet_management.Ingestion.{collect, nothing_collected, accepted_item}
use io_t_fleet_management.Models.{MqttEnvelope, generate_id, Alert, Telemetry}
use io_t_fleet_management.Rules.Gas.{IsAlarmOn, HasStatus, gas_alarm_iff}
use io_t_fleet_management.Telemetry.Events.{get_gas_events}
use io_t_fleet_management.Telemetry.Sessions.{calculate_ac_run_time}
use io_t_fleet_management.Validation.{
  Message, validate_message, validate_event, invalid, validate_payload, validate_topic,
  decode_envelope, unmarshal_envelope, validate_envelope, validate_body, validate_severity,
  is_batch_of,
}
use io_t_fleet_management.Validation.Messages.{IsAccepted, validate_message_iff}
use io_t_fleet_management.Validation.Topic.{topic_of, validate_topic_iff}
use io_t_fleet_management.Telemetry.Charts.{ChartPoint, get_chart_max}
use io_t_fleet_management.Go.Text.Split.{NoSlash, split}
use io_t_fleet_management.Ingestion.Batch.{IsLatest, collect-IsLatest, readings_of}
use io_t_fleet_management.Validation.Payloads.{validate_payload_iff}
use io_t_fleet_management.Devices.Store.Freshness.{connection_status_iff}
use io_t_fleet_management.Models.AlertId.{generate_id_iff}
use io_t_fleet_management.Telemetry.Charts.Maximum.{get_chart_max_lem}
use io_t_fleet_management.Telemetry.Events.Gas.{abnormal_events, get_gas_events-eq-take}
use io_t_fleet_management.Devices.Store.{connection_status}
use io_t_fleet_management.Rules.{gas_alarm}
use io_t_fleet_management.Go.Json.{marshal_size, sort_entries, names_field, unmarshal_map}
use io_t_fleet_management.Go.Text.Decimal.{decimal_ℤ}
use io_t_fleet_management.Rules.Door.{
  door_alarm, minutes_unlocked, is_open, start_timestamp, door_critical,
}
use io_t_fleet_management.Rules.Door.Windows.{door_alarm_iff}

-- A temperature of 21.5 degrees.
abbrev pub mild : Payload Milli
mild = entry "temp" (float (milli (pos 21500))) empty

-- The document that the device temp-1 publishes.
abbrev envelope_value : Value Milli
envelope_value = object (
    entry "device_id" (str "temp-1") (
      entry "timestamp" (float (milli (pos 1000000)))
        (entry "type" (str "temp-sensor") (entry "payload" (object mild) empty))))

abbrev event : Payload Milli
event = entry "topic" (str "devices/temp-1/telemetry") (entry "payload" envelope_value empty)

abbrev mild_envelope : MqttEnvelope Milli
mild_envelope = record {
  device_id = "temp-1";
  timestamp = pos 1000;
  type = "temp-sensor";
  payload = mild;
}

abbrev message : Message Milli
message = record {
  device_id = "temp-1";
  message_type = "telemetry";
  envelope = mild_envelope;
  is_batch = false;
}

event_accepted : validate_message (pos 1000) event ≡ ok message
unfolding validate_message validate_event get validate_topic split decode_envelope marshal_size
    decimal_ℤ unmarshal_envelope sort_entries names_field unmarshal_map validate_envelope
    validate_body validate_payload validate_severity is_batch_of rules temp_operational
    gas_operational add64 wrap64 ◌+ℤ◌ put
event_accepted = refl

validate_message_iff_example : IsAccepted (pos 1000) event message
validate_message_iff_example = (validate_message_iff (pos 1000) event message).0 event_accepted

topic_accepted : validate_topic "devices/door-1/alerts" ≡ ok ("door-1", "alerts")
unfolding validate_topic split
topic_accepted = refl

validate_topic_iff_example :
    let id : String = "door-1" in
    let type : String = "alerts" in
    (topic_of id type ≡ topic_of id type)
    × (id ≢ "")
    × NoSlash id
    × ((type ≡ "telemetry") ⊎ (type ≡ "alerts"))
validate_topic_iff_example =
    (validate_topic_iff (topic_of "door-1" "alerts") "door-1" "alerts").0 topic_accepted

mild_accepted : validate_payload "temp-sensor" mild ≡ ok tt
unfolding validate_payload rules temp_operational get
mild_accepted = refl

validate_payload_iff_example : (extract_state "temp-sensor" mild).0 ≢ "UNKNOWN"
validate_payload_iff_example = (validate_payload_iff "temp-sensor" mild).0 mild_accepted

no_topic_rejected :
    validate_message (pos 1000) mild ≡ invalid invalid_event "missing or invalid topic"
unfolding validate_message validate_event get
no_topic_rejected = refl

abbrev spiking : Payload Milli
spiking = entry "status" (str "WARNING") (entry "alarm_on" (bool false) empty)

spiking_raised : gas_alarm spiking ≡ some ("WARNING", "Gas spike detected")
unfolding gas_alarm get
spiking_raised = refl

gas_alarm_iff_example : (¬ IsAlarmOn spiking) × HasStatus spiking "WARNING"
gas_alarm_iff_example = (gas_alarm_iff spiking).1.0 spiking_raised

mild_known : as_float (get "temp" mild) ≡ some (milli (pos 21500))
unfolding get
mild_known = refl

mild_normal : temp_operational mild ≡ "NORMAL"
unfolding temp_operational get
mild_normal = refl

temp_operational_iff_example :
    (milli (pos 18000) ≼ milli (pos 21500)) × (milli (pos 21500) ≼ milli (pos 30000))
temp_operational_iff_example =
    (temp_operational_iff Milli-IsOrdered mild (milli (pos 21500)) mild_known refl refl refl
        refl).2.0
      mild_normal

two_minutes_ago : connection_status (pos (1121 * 1_000_000_000)) (pos 1000) ≡ "OFFLINE"
unfolding connection_status ◌-ℤ◌
two_minutes_ago = refl

connection_status_iff_example : 1000 * 1_000_000_000 + 120 * 1_000_000_000 < 1121 * 1_000_000_000
connection_status_iff_example =
    (connection_status_iff (1121 * 1_000_000_000) 1000).0.0 two_minutes_ago

abbrev points : List (ChartPoint Milli)
points =
    record { label = "Mon"; value = milli (pos 1000) }
    ∷ record { label = "Tue"; value = milli (pos 3000) }
    ∷ []

get_chart_max_lem_example : All (λ (pt : ChartPoint Milli). pt.value ≼ get_chart_max points) points
get_chart_max_lem_example = get_chart_max_lem Milli-IsOrdered points refl (refl, (refl, tt))

abbrev switched : ℤ → String → Telemetry Milli
switched timestamp state = record {
  device_id = "ac-01";
  timestamp = timestamp;
  type = "ac-actuator";
  payload = entry "power_state" (str state) empty;
  expires_at = pos 0;
}

-- On from 100 to 160 and from 200 to 205.
abbrev ac_history : List (Telemetry Milli)
ac_history =
    switched (pos 205) "OFF"
    ∷ switched (pos 200) "ON"
    ∷ switched (pos 160) "OFF"
    ∷ switched (pos 100) "ON"
    ∷ []

ac_history-IsRuns : IsRuns (reverse ac_history) 65
unfolding get
ac_history-IsRuns =
    run {t = switched (pos 100) "ON"} {u = switched (pos 160) "OFF"} 100 160 refl refl refl refl
      (omega arith) (omega arith) (omega arith)
      (run {t = switched (pos 200) "ON"} {u = switched (pos 205) "OFF"} 200 205 refl refl refl refl
        (omega arith) (omega arith) (omega arith) rest)

calculate_ac_run_time-IsRuns_example : calculate_ac_run_time ac_history (pos 300) ≡ pos 65
calculate_ac_run_time-IsRuns_example =
    calculate_ac_run_time-IsRuns ac_history 65 (pos 300) ac_history-IsRuns (omega arith)

calculate_ac_run_time-bounds_example :
    (seconds : ℕ) × (calculate_ac_run_time ac_history (pos 300) ≡ pos seconds)
    × (100 + seconds ≤ 300)
calculate_ac_run_time-bounds_example =
    calculate_ac_run_time-bounds ac_history 100 300 (omega arith) (omega arith) (
      later 100 refl (omega arith) (
        later 160 refl (omega arith)
          (later 200 refl (omega arith) (later 205 refl (omega arith) (done (omega arith))))))

abbrev gas_reading : String → Telemetry Milli
gas_reading status = record {
  device_id = "gas-1";
  timestamp = pos 900;
  type = "gas-sensor";
  payload = entry "status" (str status) empty;
  expires_at = pos 0;
}

abbrev gas_history : List (Telemetry Milli)
gas_history = gas_reading "SAFE" ∷ gas_reading "WARNING" ∷ gas_reading "CRITICAL" ∷ []

get_gas_events-eq-take_example :
    get_gas_events (pos 1000) gas_history ≡ take 5 (abnormal_events (pos 1000) gas_history)
get_gas_events-eq-take_example = get_gas_events-eq-take (pos 1000) gas_history

abbrev alert_at : ℤ → Alert Milli
alert_at timestamp = record {
  alert_id = "";
  device_id = "gas-1";
  timestamp = timestamp;
  type = "gas-sensor";
  severity = "CRITICAL";
  payload = empty;
  expires_at = pos 0;
}

generate_id_iff_example :
    ((generate_id (alert_at (pos 5))).alert_id ≡ (generate_id (alert_at (pos 6))).alert_id)
    ↔ (((alert_at (pos 5)).device_id ≡ (alert_at (pos 6)).device_id) × (pos 5 ≡ pos 6))
generate_id_iff_example = generate_id_iff (alert_at (pos 5)) (alert_at (pos 6))

abbrev batch : Items Milli
batch =
    cons (object (entry "ts" (float (milli (pos 5000))) mild))
      (cons (object empty) (cons (object (entry "ts" (float (milli (pos 7000))) mild)) nil))

abbrev ts_milli : ℤ → ℤ
ts_milli (pos n) = pos (n * 1000)
ts_milli (negsuc n) = negsuc n

abbrev batch_reading : ℤ → Telemetry Milli
batch_reading ts = record {
  device_id = "temp-1";
  timestamp = ts;
  type = "temp-sensor";
  payload = entry "ts" (float (milli (ts_milli ts))) mild;
  expires_at = pos 0;
}

batch_readings :
    readings_of "temp-1" mild_envelope batch ≡ batch_reading (pos 5) ∷ batch_reading (pos 7) ∷ []
unfolding accepted_item validate_payload rules temp_operational get
batch_readings = refl

collect-IsLatest_example :
    let c = collect "temp-1" mild_envelope batch nothing_collected in
    (c.telemetry_list ≡ batch_reading (pos 5) ∷ batch_reading (pos 7) ∷ [])
    × IsLatest c.latest_reading (batch_reading (pos 5) ∷ batch_reading (pos 7) ∷ [])
collect-IsLatest_example =
    collect-IsLatest "temp-1" mild_envelope batch (batch_reading (pos 5))
      (batch_reading (pos 7) ∷ []) batch_readings (omega arith, (omega arith, tt))

-- Open since the second 100.
abbrev left_open : Payload Milli
left_open = entry "open" (bool true) (entry "last_unlock" (float (milli (pos 100000))) empty)

left_open_critical : door_alarm (pos 1000) left_open ≡ some door_critical
unfolding door_alarm is_open start_timestamp get sub64 wrap64 ◌-ℤ◌
left_open_critical = refl

door_alarm_iff_example :
    let minutes : Milli = minutes_unlocked (pos 1000) (start_timestamp left_open) in
    ((is_open left_open ≡ true) × (¬ start_timestamp left_open ≡ pos 0))
    × (milli (pos 15000) ≼ minutes)
    × (milli_float.lt minutes (milli (pos 16000)) ≡ true)
door_alarm_iff_example =
    (door_alarm_iff Milli-IsOrdered (pos 1000) left_open refl).0.0 left_open_critical
