-- ===== src/Ingestion/ReadingDone.antt =====
-- backend/internal/ingestion/handler.go with the stores: a single reading from the event to the
-- tables.
use io_t_fleet_management.Prelude.{
  ◌∷◌, refl, some, none, false, ap, ◌∙◌, ◌≡◌, ◌⊎◌, String, List, Option, inl, inr, ◌==◌, eq_iff,
  if◌then◌else◌, Bool-cases,
}
use io_t_fleet_management.Prelude.Int.{ℤ, add64}
use io_t_fleet_management.Go.Value.{Payload}
use io_t_fleet_management.Go.Float.{Float64}
use io_t_fleet_management.Go.Steps.{chain-returned}
use io_t_fleet_management.Go.Outcome.{ok, returned, Action, Result, ◌>>=◌, from, pure, restate}
use io_t_fleet_management.Cloud.{Host, Dynamo, UpdateItemInput, days_from}
use io_t_fleet_management.Models.{Telemetry, MqttEnvelope}
use io_t_fleet_management.Devices.Store.{update_from_telemetry}
use io_t_fleet_management.Devices.Store.Register.{Row, TableLaws}
use io_t_fleet_management.Telemetry.Store.{save_telemetry}
use io_t_fleet_management.Rules.{gas_alarm, handle_gas}
use io_t_fleet_management.Validation.{Message, validate_message}
use io_t_fleet_management.Ingestion.{
  Service, handle_request, recovered, dispatch, handle_telemetry, handle_single, single_reading,
  pos,
}
use io_t_fleet_management.Ingestion.Flow.{recovered_result}
use io_t_fleet_management.Ingestion.Registered.{NotAfter, updated_lem, registered_lem}
use io_t_fleet_management.Devices.{extract_state}

-- The reading is not one of a gas sensor that raises an alarm.
abbrev pub RaisesNothing : {F : Type 0} ⦃d : Float64 F⦄ → MqttEnvelope F → Type 0
RaisesNothing envelope = (¬ envelope.type ≡ "gas-sensor") ⊎ (gas_alarm envelope.payload ≡ none)

-- Every reading can be encoded, and putting an item into the table writes it, and nothing else.
pub record TakesReadings {F W Item Raw : Type 0} (db : Dynamo F W Item Raw) (name : String)
    (written : W → List Item) (rows : W → String → Option (Row Raw)) : Type 0 where
  pub encodes : (t : Telemetry F) → (item : Item) × (db.marshal_telemetry t ≡ ok item)
  pub takes :
      (item : Item) (w : W)
      → (w' : W) × (db.put_item name item w ≡ (returned tt, w'))
        × (written w' ≡ item ∷ written w)
        × ((id : String) → rows w' id ≡ rows w id)

module _ {F W Item Raw : Type 0} ⦃d : Float64 F⦄ (host : Host W) (db : Dynamo F W Item Raw)
    (service : Service W) where
  -- The reading of an envelope has been written, and the register holds it for its device.
  pub record ReadingStored (rows : W → String → Option (Row Raw)) (written : W → List Item)
      (envelope : MqttEnvelope F) (w w' : W) : Type 0 where
    pub item : Item
    pub encoded :
        db.marshal_telemetry (record {
          device_id = envelope.device_id;
          timestamp = envelope.timestamp;
          type = envelope.type;
          payload = envelope.payload;
          expires_at = add64 (host.clock (host.clock w).1).0 (pos 604800);
        })
        ≡ ok item
    pub one_written : written w' ≡ item ∷ written w
    pub now : ℤ
    pub raw : Raw
    pub payload_encoded : db.marshal_payload envelope.payload ≡ ok raw
    pub registered :
        rows w' envelope.device_id
        ≡ some (record {
          type = envelope.type;
          status = "ONLINE";
          operational_state = (extract_state envelope.type envelope.payload).0;
          health = (extract_state envelope.type envelope.payload).1;
          payload = raw;
          last_seen_at = envelope.timestamp;
          updated_at = now;
        })

module _ {F W Item Raw : Type 0} ⦃d : Float64 F⦄ (host : Host W) (db : Dynamo F W Item Raw)
    (service : Service W) (rows : W → String → Option (Row Raw)) (written : W → List Item)
    (table : TableLaws host db service.state_store.table_name rows)
    (readings : TakesReadings db service.telemetry_store.table_name written rows)
    (clock_quiet : (v : W) → written (host.clock v).1 ≡ written v)
    (update_quiet : (input : UpdateItemInput Raw) (v : W)
      → written (db.update_item input v).1 ≡ written v)
    (encodes : (p : Payload F) → (raw : Raw) × (db.marshal_payload p ≡ ok raw)) where
  no_alarm :
      (id : String) (payload : Payload F) (w : W)
      → gas_alarm payload ≡ none
      → handle_gas host db service.engine id payload w ≡ (returned tt, w)
  unfolding handle_gas
  no_alarm id payload w h = rw (handle_gas, h) refl

  nothing_raised :
      (envelope : MqttEnvelope F) (w : W)
      → RaisesNothing envelope
      → (if envelope.type == "gas-sensor"
            then handle_gas host db service.engine envelope.device_id envelope.payload
            else pure tt)
          w
        ≡ (returned tt, w)
  nothing_raised envelope w h = elim (Bool-cases (envelope.type == "gas-sensor")) [
    | inr other ↦ rw other refl
    | inl gas ↦ elim h [
      | inl other ↦ absurd (other ((eq_iff envelope.type "gas-sensor").0 gas))
      | inr quiet ↦ rw gas (no_alarm envelope.device_id envelope.payload w quiet)
    ]
  ]

  saved_lem :
      (envelope : MqttEnvelope F) (item : Item) (w v : W)
      → db.marshal_telemetry
          (record (single_reading envelope) { expires_at = days_from (host.clock w).0 7 })
        ≡ ok item
      → db.put_item service.telemetry_store.table_name item (host.clock w).1 ≡ (returned tt, v)
      → save_telemetry host db service.telemetry_store (single_reading envelope) w
        ≡ (returned tt, v)
  unfolding save_telemetry
  saved_lem envelope item w v e h =
      let start = (host.clock w).1 in
      let put : Item → Action W (Unit {0}) = λ x.
        restate "failed to store data into DynamoDB"
          (db.put_item service.telemetry_store.table_name x) in
      ap (λ (m : Result Item). (restate "failed to marshal telemetry data" (from m) >>= put) start)
        e
      ∙ ap (λ p. restate "failed to store data into DynamoDB" (λ _. p) start) h

  -- Over tables that obey `TableLaws` and `TakesReadings`, where neither the clock nor an update of a
  -- state writes a reading and every payload can be encoded: the request of an accepted reading, not
  -- of a batch and without an alarm, returns, if the register holds nothing later for its device; and
  -- then the reading has been written, with the fields of the envelope and an expiry a week after the
  -- clock, and the register holds for the device its type, its payload, the state that they give, and
  -- its time.
  pub handle_request-ReadingStored :
      (event : Payload F) (m : Message F) (w : W)
      → validate_message (host.clock w).0 event ≡ ok m
      → m.message_type ≡ "telemetry"
      → m.is_batch ≡ false
      → RaisesNothing m.envelope
      → NotAfter (rows w m.envelope.device_id) m.envelope.timestamp
      → (w' : W) × (handle_request host db service event w ≡ (returned tt, w'))
        × ReadingStored host db service rows written m.envelope w w'
  unfolding handle_request dispatch handle_telemetry handle_single
  handle_request-ReadingStored event m w accepted kind single quiet fresh =
      let start = (host.clock w).1 in
      let t = single_reading m.envelope in
      let id = m.envelope.device_id in
      let gas : Action W (Unit {0}) =
        (if m.envelope.type == "gas-sensor"
          then handle_gas host db service.engine m.envelope.device_id m.envelope.payload
          else pure tt) in
      let save : Action W (Unit {0}) = save_telemetry host db service.telemetry_store t in
      let update : Action W (Unit {0}) = update_from_telemetry host db service.state_store t in
      let (item, encoded) =
        readings.encodes (record t { expires_at = days_from (host.clock start).0 7 }) in
      let (v, put, one, same) = readings.takes item (host.clock start).1 in
      let kept : rows v id ≡ rows w id = same id ∙ table.clock start id ∙ table.clock w id in
      let (w', updated) =
        updated_lem host db service.state_store rows written table clock_quiet update_quiet encodes
          t v (rw kept fresh) in
      let (left, now, raw, payload, row) =
        registered_lem host db service.state_store rows written table clock_quiet update_quiet
          encodes t v w' updated in
      let handled : handle_single host db service m.envelope start ≡ (returned tt, w') =
        chain-returned gas (λ _. save >>= λ _. update) start start tt
          (nothing_raised m.envelope start quiet)
        ∙ chain-returned save (λ _. update) start v tt
            (saved_lem m.envelope item start v encoded put)
        ∙ updated in
      let step : dispatch host db service m start ≡ (returned tt, w') = rw (kind, single) handled in
      (
        w',
        ap (λ r. recovered (from r >>= dispatch host db service) start) accepted
            ∙ ap recovered_result step,
        record {
          item = item;
          encoded = encoded;
          one_written = left ∙ one ∙ ap (λ xs. item ∷ xs) (clock_quiet start ∙ clock_quiet w);
          now = now;
          raw = raw;
          payload_encoded = payload;
          registered = row;
        },
      )
