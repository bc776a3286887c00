-- ===== src/Tests/Journey.antt =====
-- The theorems on whole requests, of the ingestion and of the API, over the world of `Board`.
use io_t_fleet_management.Prelude.{
  [], ◌∷◌, refl, some, none, ◌≡◌, ℕ, arith, true, String, inl, false, ap,
}
use io_t_fleet_management.Prelude.Int.{pos, add64, wrap64, ◌+ℤ◌, pos_part}
use io_t_fleet_management.Go.Float.{Milli, milli, milli_float}
use io_t_fleet_management.Go.Value.{
  as_list, float, empty, entry, Payload, str, object, list, nil, cons, Items, get, put,
}
use io_t_fleet_management.Go.Outcome.{returned, ok}
use io_t_fleet_management.Go.Ends.{Ends, by_value}
use io_t_fleet_management.Models.{Telemetry, MqttEnvelope}
use io_t_fleet_management.Ingestion.{
  Service, handle_request, accepted_item, dispatch, handle_telemetry, collect, store_collected,
}
use io_t_fleet_management.Ingestion.Batch.{readings_of}
use io_t_fleet_management.Ingestion.BatchFlow.{BatchStored, handle_request-batch}
use io_t_fleet_management.Ingestion.BatchDone.{handle_request-BatchStored}
use io_t_fleet_management.Telemetry.Store.Success.{IsReliable, IsDistinct, reading_key, all_keys}
use io_t_fleet_management.Ingestion.ReadingDone.{
  TakesReadings, ReadingStored, handle_request-ReadingStored,
}
use io_t_fleet_management.Devices.Store.Register.{Row, TableLaws}
use io_t_fleet_management.Cloud.{Dynamo}
use io_t_fleet_management.Validation.{
  Message, validate_message, validate_event, validate_payload, validate_topic, decode_envelope,
  unmarshal_envelope, validate_envelope, validate_body, validate_severity, is_batch_of,
}
use io_t_fleet_management.Api.Contract.{Fits}
use io_t_fleet_management.Api.Contract.Calls.{CallsCalm}
use io_t_fleet_management.Api.Contract.Endpoints.{serve-Fits}
use io_t_fleet_management.Api.Routes.{serve, Request, device_telemetry}
use io_t_fleet_management.Tests.Board.{
  Board, board_db, board_host, board_clock, board-TableLaws, board-WritesBatches,
  board-update_quiet, utc,
}
use io_t_fleet_management.Tests.Fleet.{empty_board, board_handler}
use io_t_fleet_management.Devices.{
  rules, light_operational, extract_state, temp_operational, gas_operational,
}
use io_t_fleet_management.Go.Text.Split.{split}
use io_t_fleet_management.Telemetry.Store.{
  save_telemetry_batch, save_chunks, write_requests, write_batch_with_retry, write_attempts,
}
use io_t_fleet_management.Go.Json.{marshal_size, sort_entries, names_field, unmarshal_map}
use io_t_fleet_management.Go.Text.Decimal.{decimal_ℤ}
use io_t_fleet_management.Devices.Store.{update_from_telemetry}

board-CallsCalm : CallsCalm board_db board_handler
board-CallsCalm = record {
  scan = λ input. record { at = λ w. by_value _ };
  query = λ input. record { at = λ w. by_value _ };
  get_item = λ name key. record { at = λ w. by_value _ };
  put_item = λ name item. record { at = λ w. by_value _ };
  fetch = λ key. record { at = λ w. by_value _ };
  publish = λ topic payload qos. record { at = λ w. by_value _ };
}

abbrev a_request : Request Milli
a_request = record { id = "light-1"; query = λ key. none; body = none }

serve-Fits_example : Ends (Fits device_telemetry) (
    serve board_host board_clock
      (λ t. t)
      utc
      (λ less xs. xs)
      board_db
      board_handler
      1
      device_telemetry
      a_request)
serve-Fits_example =
    serve-Fits board_host board_clock utc board_db board_handler board-CallsCalm (λ t. t)
      (λ less xs. xs) 1 device_telemetry a_request

abbrev batch_service : Service Board
batch_service = record {
  telemetry_store = record { table_name = "Readings" };
  alert_store = record { table_name = "Alerts" };
  state_store = record { table_name = "States" };
  engine = record {
    alert_store = record { table_name = "Alerts" };
    state_store = record { table_name = "States" };
    notifier = none;
  };
}

abbrev lux_item : ℕ → Payload Milli
lux_item ts =
    entry "ts" (float (milli (pos ts))) (entry "light_level" (float (milli (pos 90000))) empty)

abbrev lux_items : Items Milli
lux_items = cons (object (lux_item 480000)) (cons (object (lux_item 490000)) nil)

abbrev lux_payload : Payload Milli
lux_payload = entry "items" (list lux_items) empty

abbrev lux_envelope : MqttEnvelope Milli
lux_envelope = record {
  device_id = "light-1";
  timestamp = pos 495;
  type = "light-sensor";
  payload = lux_payload;
}

abbrev lux_event : Payload Milli
lux_event = entry "topic" (str "devices/light-1/telemetry") (
    entry "payload"
      (object (
        entry "device_id" (str "light-1") (
          entry "timestamp" (float (milli (pos 495000)))
            (entry "type" (str "light-sensor") (entry "payload" (object lux_payload) empty)))))
      empty)

abbrev lux_message : Message Milli
lux_message = record {
  device_id = "light-1";
  message_type = "telemetry";
  envelope = lux_envelope;
  is_batch = true;
}

lux_accepted : validate_message (pos 500) lux_event ≡ ok lux_message
unfolding validate_message validate_event get validate_topic split decode_envelope marshal_size
    decimal_ℤ unmarshal_envelope sort_entries names_field unmarshal_map validate_envelope
    validate_body validate_payload validate_severity is_batch_of rules temp_operational
    gas_operational add64 wrap64 ◌+ℤ◌ put
lux_accepted = refl

abbrev lux_reading : ℕ → ℕ → Telemetry Milli
lux_reading ts milliseconds = record {
  device_id = "light-1";
  timestamp = pos ts;
  type = "light-sensor";
  payload = lux_item milliseconds;
  expires_at = pos 0;
}

lux_listed : as_list (get "items" lux_payload) ≡ some lux_items
unfolding get
lux_listed = refl

lux_readings :
    readings_of "light-1" lux_envelope lux_items
    ≡ lux_reading 480 480000 ∷ lux_reading 490 490000 ∷ []
unfolding accepted_item validate_payload rules light_operational get
lux_readings = refl

abbrev lux_stored : Board
lux_stored = (handle_request board_host board_db batch_service lux_event empty_board).1

lux_done :
    handle_request board_host board_db batch_service lux_event empty_board
    ≡ (returned tt, lux_stored)
unfolding handle_request dispatch handle_telemetry collect store_collected save_telemetry_batch
    save_chunks write_requests write_batch_with_retry write_attempts update_from_telemetry
    extract_state accepted_item validate_payload rules light_operational validate_message
    validate_event get validate_topic split decode_envelope marshal_size decimal_ℤ
    unmarshal_envelope sort_entries names_field unmarshal_map validate_envelope validate_body
    validate_severity is_batch_of add64 wrap64 ◌+ℤ◌ put
lux_done = refl

handle_request-batch_example :
    BatchStored board_host board_db batch_service
      (λ w. w.rows)
      (λ w. w.written)
      (lux_reading 480 480000 ∷ lux_reading 490 490000 ∷ [])
      empty_board
      lux_stored
handle_request-batch_example =
    handle_request-batch board_host board_db batch_service (λ w. w.rows) (λ w. w.written)
      (λ w. w.calls) (board-TableLaws "States") (board-WritesBatches "Readings") (λ v. refl)
      board-update_quiet (λ p. (p, refl)) lux_event lux_message lux_items (lux_reading 480 480000)
      (lux_reading 490 490000 ∷ []) empty_board lux_stored lux_accepted refl refl lux_listed
      lux_readings (omega arith, (omega arith, tt)) lux_done

-- The key of an item is that of its device and its time.
board-IsReliable : (name : String) → IsReliable board_db name (λ e. (e.0, e.1.last_seen_at))
board-IsReliable name = record {
  encodes = λ t. (_, refl, refl);
  takes = λ requests w some_left few distinct. (_, refl);
}

lux-IsDistinct :
    IsDistinct (all_keys reading_key (lux_reading 480 480000 ∷ lux_reading 490 490000 ∷ []))
lux-IsDistinct = (
  (
    (λ h. let e : pos 480 ≡ pos 490 = ap (λ k. k.1) h in absurd (ground (arith, ap pos_part e))),
    tt,
  ),
  (tt, tt),
)

handle_request-BatchStored_example :
    (w' : Board) × (handle_request board_host board_db batch_service lux_event empty_board
      ≡ (returned tt, w'))
    × BatchStored board_host board_db batch_service
        (λ w. w.rows)
        (λ w. w.written)
        (lux_reading 480 480000 ∷ lux_reading 490 490000 ∷ [])
        empty_board
        w'
handle_request-BatchStored_example =
    handle_request-BatchStored board_host board_db batch_service (λ w. w.rows) (λ w. w.written)
      (λ w. w.calls) (board-TableLaws "States") (board-WritesBatches "Readings")
      (λ e. (e.0, e.1.last_seen_at)) (board-IsReliable "Readings") (λ v. refl) board-update_quiet
      (λ n v id. refl) (λ items v id. refl) (λ p. (p, refl)) lux_event lux_message lux_items
      (lux_reading 480 480000) (lux_reading 490 490000 ∷ []) empty_board lux_accepted refl refl
      lux_listed lux_readings (omega arith, (omega arith, tt)) lux-IsDistinct tt

-- The board with a table that takes single readings.
abbrev taking_db : Dynamo Milli Board (String × Row (Payload Milli)) (Payload Milli)
taking_db = record board_db {
  put_item = λ name item w. (returned tt, record w { written = item ∷ w.written });
}

taking-TableLaws : TableLaws board_host taking_db "States" (λ w. w.rows)
taking-TableLaws =
    let laws = board-TableLaws "States" in
    record { clock = laws.clock; accepts = laws.accepts; refuses = laws.refuses }

taking-TakesReadings : TakesReadings taking_db "Readings" (λ w. w.written) (λ w. w.rows)
taking-TakesReadings = record {
  encodes = λ t. (_, refl);
  takes = λ item w. (_, refl, refl, λ id. refl);
}

abbrev bright_envelope : MqttEnvelope Milli
bright_envelope = record {
  device_id = "light-1";
  timestamp = pos 495;
  type = "light-sensor";
  payload = lux_item 495000;
}

abbrev bright_event : Payload Milli
bright_event = entry "topic" (str "devices/light-1/telemetry") (
    entry "payload"
      (object (
        entry "device_id" (str "light-1") (
          entry "timestamp" (float (milli (pos 495000))) (
            entry "type" (str "light-sensor") (entry "payload" (object (lux_item 495000)) empty)))))
      empty)

abbrev bright_message : Message Milli
bright_message = record {
  device_id = "light-1";
  message_type = "telemetry";
  envelope = bright_envelope;
  is_batch = false;
}

bright_accepted : validate_message (pos 500) bright_event ≡ ok bright_message
unfolding validate_message validate_event get validate_topic split decode_envelope marshal_size
    decimal_ℤ unmarshal_envelope sort_entries names_field unmarshal_map validate_envelope
    validate_body validate_payload validate_severity is_batch_of rules light_operational add64
    wrap64 ◌+ℤ◌ put
bright_accepted = refl

handle_request-ReadingStored_example :
    (w' : Board) × (handle_request board_host taking_db batch_service bright_event empty_board
      ≡ (returned tt, w'))
    × ReadingStored board_host taking_db batch_service
        (λ w. w.rows)
        (λ w. w.written)
        bright_envelope
        empty_board
        w'
handle_request-ReadingStored_example =
    handle_request-ReadingStored board_host taking_db batch_service (λ w. w.rows) (λ w. w.written)
      taking-TableLaws taking-TakesReadings (λ v. refl) board-update_quiet (λ p. (p, refl))
      bright_event bright_message empty_board bright_accepted refl refl
      (inl (λ h. let e : ◌≡◌ {A = String} "light-sensor" "gas-sensor" = h in cc)) tt
