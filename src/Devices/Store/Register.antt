-- ===== src/Devices/Store/Register.antt =====
-- A register in which the latest reading of a device wins, to compare store_state.go with; and what
-- the table does, as laws.
pub mod Latest
pub mod Order
pub mod Redelivery
use io_t_fleet_management.Prelude.{
  [], ◌∷◌, none, some, true, false, refl, inl, inr, String, List, ◌≡◌, ◌⊎◌, ◌∙◌, ap, sym, Option,
  ◌==◌, if◌then◌else◌, arith, eq_iff, eq_refl, Bool-cases,
}
use io_t_fleet_management.Prelude.Int.{ℤ, leb_ℤ, pos, ◌≤ℤ◌}
use io_t_fleet_management.Go.Value.{float, Payload}
use io_t_fleet_management.Go.Float.{Float64}
use io_t_fleet_management.Go.Outcome.{
  returned, failed, ok, err, Error, Outcome, wrap, Action, annotate, from,
}
use io_t_fleet_management.Go.Steps.{chain-returned, annotate-of-returned, annotate-of-failed}
use io_t_fleet_management.Go.Text.Decimal.{decimal_ℤ}
use io_t_fleet_management.Cloud.{
  Host, Dynamo, Attr, text, number, marshalled, UpdateItemInput, reads,
}
use io_t_fleet_management.Models.{Telemetry, DeviceState}
use io_t_fleet_management.Devices.{extract_state, Bool}
use io_t_fleet_management.Devices.Store.{
  StateStore, update_from_telemetry, get_state_by_id, fresh_condition, telemetry_update, device_key,
  telemetry_input,
}

-- A row of the table, with the payload as it is stored.
pub record Row (Raw : Type 0) : Type 0 where
  pub type : String
  pub status : String
  pub operational_state : String
  pub health : String
  pub payload : Raw
  pub last_seen_at : ℤ
  pub updated_at : ℤ

module _ {Raw : Type 0} where
  abbrev pub is_newer : Option (Row Raw) → Row Raw → Bool
  is_newer none row = true
  is_newer (some old) row = leb_ℤ old.last_seen_at row.last_seen_at

  -- The register: a row is replaced by one that is not older.
  abbrev pub latest : Option (Row Raw) → Row Raw → Option (Row Raw)
  latest old row = if is_newer old row then some row else old

  abbrev pub write_latest :
      (String → Option (Row Raw)) → String → Row Raw → String → Option (Row Raw)
  write_latest rows device_id row id = if id == device_id then latest (rows id) row else rows id

  -- What the update sets: the attributes of the row, under their names.
  pub record Sets (name : String) (device_id : String) (row : Row Raw) (input : UpdateItemInput Raw)
      : Type 0 where
    pub table : input.table_name ≡ name
    pub condition :
        input.condition_expression
        ≡ "attribute_not_exists(last_seen_at) OR last_seen_at <= :last_seen"
    pub expression :
        input.update_expression
        ≡ "SET #type = :type, #status = :status, operational_state = :op_state, health = :health, payload = :payload, last_seen_at = :last_seen, updated_at = :updated_at"
    pub names : input.names ≡ ("#type", "type") ∷ ("#status", "status") ∷ []
    pub key : input.key ≡ ("device_id", text device_id) ∷ []
    pub values :
        input.values
        ≡ (":type", text row.type)
          ∷ (":status", text row.status)
          ∷ (":op_state", text row.operational_state)
          ∷ (":health", text row.health)
          ∷ (":payload", marshalled row.payload)
          ∷ (":last_seen", number (decimal_ℤ row.last_seen_at))
          ∷ (":updated_at", number (decimal_ℤ row.updated_at))
          ∷ []

-- The state that a row decodes to.
abbrev pub state_of : {F Raw : Type 0} → (Raw → Payload F) → String → Row Raw → DeviceState F
state_of decode device_id row = record {
  device_id = device_id;
  type = row.type;
  status = row.status;
  operational_state = row.operational_state;
  health = row.health;
  payload = decode row.payload;
  last_seen_at = row.last_seen_at;
  last_updated = row.updated_at;
}

-- What the table does with one update: the condition is tested and the attributes set in one step.
-- Only the condition decides whether the update is made.
pub record TableLaws {F W Item Raw : Type 0} (host : Host W) (db : Dynamo F W Item Raw)
    (name : String) (rows : W → String → Option (Row Raw)) : Type 0 where
  pub clock : (w : W) (id : String) → rows (host.clock w).1 id ≡ rows w id
  pub accepts :
      (device_id : String) (row : Row Raw) (input : UpdateItemInput Raw) (w : W)
      → Sets name device_id row input
      → is_newer (rows w device_id) row ≡ true
      → (v : W) × (db.update_item input w ≡ (returned tt, v))
        × (rows v device_id ≡ some row)
        × ((other : String) → ¬ other ≡ device_id → rows v other ≡ rows w other)
  pub refuses :
      (device_id : String) (row : Row Raw) (input : UpdateItemInput Raw) (w : W)
      → Sets name device_id row input
      → is_newer (rows w device_id) row ≡ false
      → (e : Error) × (v : W) × (db.update_item input w ≡ (failed e, v))
        × ((other : String) → rows v other ≡ rows w other)

-- What a read of the table gives, which is eventually consistent, since `ConsistentRead` is not set:
-- the row that the service serves for the device, which is not always the one of the last write. An
-- item is decoded attribute by attribute.
pub record ReadLaws {F W Item Raw : Type 0} (db : Dynamo F W Item Raw) (name : String)
    (served : W → String → Option (Row Raw)) (decode : Raw → Payload F) : Type 0 where
  pub reads_none :
      (device_id : String) (w : W)
      → served w device_id ≡ none
      → db.get_item name (("device_id", text device_id) ∷ []) w ≡ (returned none, w)
  pub reads_some :
      (device_id : String) (row : Row Raw) (w : W)
      → served w device_id ≡ some row
      → (item : Item) × (db.get_item name (("device_id", text device_id) ∷ []) w
          ≡ (returned (some item), w))
        × (db.unmarshal_state item ≡ ok (state_of decode device_id row))

module _ {F Raw : Type 0} ⦃d : Float64 F⦄ where
  -- The row that a reading asks for.
  abbrev pub row_of : Telemetry F → ℤ → Raw → Row Raw
  row_of tel now raw = record {
    type = tel.type;
    status = "ONLINE";
    operational_state = (extract_state tel.type tel.payload).0;
    health = (extract_state tel.type tel.payload).1;
    payload = raw;
    last_seen_at = tel.timestamp;
    updated_at = now;
  }

module _ {F W Item Raw : Type 0} ⦃d : Float64 F⦄ (host : Host W) (db : Dynamo F W Item Raw)
    (store : StateStore) where
  pub input-Sets :
      (tel : Telemetry F) (now : ℤ) (raw : Raw)
      → Sets store.table_name tel.device_id
          (row_of tel now raw)
          (telemetry_input host db store tel now raw)
  input-Sets tel now raw = record {
    table = refl;
    condition = refl;
    expression = refl;
    names = refl;
    key = refl;
    values = refl;
  }

  -- The update of a reading whose payload can be encoded, as that of one item.
  pub update_lem :
      (tel : Telemetry F) (raw : Raw) (w : W)
      → db.marshal_payload tel.payload ≡ ok raw
      → update_from_telemetry host db store tel w
        ≡ annotate "failed to update device state"
            (db.update_item (telemetry_input host db store tel (host.clock w).0 raw))
            (host.clock w).1
  unfolding update_from_telemetry
  update_lem tel raw w h =
      let v = (host.clock w).1 in
      let encoding : Action W Raw =
        annotate "failed to marshal payload" (from (db.marshal_payload tel.payload)) in
      let encoded : encoding v ≡ (returned raw, v) =
        annotate-of-returned "failed to marshal payload" (from (db.marshal_payload tel.payload)) v v
          raw (ap (λ r. from r v) h) in
      chain-returned encoding
        (λ payload.
          annotate "failed to update device state"
            (db.update_item (telemetry_input host db store tel (host.clock w).0 payload)))
        v v raw encoded
