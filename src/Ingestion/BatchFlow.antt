-- ===== src/Ingestion/BatchFlow.antt =====
-- backend/internal/ingestion/handler.go with the stores: a batch from the event to the tables.
use mathlib.Core.List.{Perm}
use io_t_fleet_management.Prelude.{
  ◌∷◌, ◌++◌, refl, some, true, sym, ap, ◌∙◌, ◌≡◌, String, List, ℕ, All,
}
use io_t_fleet_management.Prelude.Int.{ℤ}
use io_t_fleet_management.Go.Value.{Payload, Items, as_list, get}
use io_t_fleet_management.Go.Float.{Float64}
use io_t_fleet_management.Go.Outcome.{
  ok, returned, failed, panicked, Outcome, Action, plain, ◌>>=◌, ◌>>◌, from, >>=-returned,
  failed≢returned,
}
use io_t_fleet_management.Cloud.{reads, Host, Dynamo, days_from, UpdateItemInput}
use io_t_fleet_management.Models.{Telemetry}
use io_t_fleet_management.Devices.Store.{update_from_telemetry}
use io_t_fleet_management.Devices.Store.Register.{Row, TableLaws, row_of}
use io_t_fleet_management.Telemetry.Store.{save_telemetry_batch}
use io_t_fleet_management.Telemetry.Store.Retry.{WritesBatches}
use io_t_fleet_management.Telemetry.Store.Chunks.{save_telemetry_batch-written, Encoded}
use io_t_fleet_management.Validation.{Message, validate_message}
use io_t_fleet_management.Ingestion.Registered.{registered_lem}
use io_t_fleet_management.Ingestion.{
  Service, Collected, handle_request, recovered, dispatch, handle_telemetry, store_collected,
  collect, nothing_collected, Option,
}
use io_t_fleet_management.Ingestion.Batch.{readings_of, IsLatest, IsDated, collect-IsLatest}

recovered-returned :
    {W : Type 0} (m : Action W (Unit {0})) (w w' : W)
    → recovered m w ≡ (returned tt, w')
    → m w ≡ (returned tt, w')
recovered-returned {W} m w w' h = go (m w) refl h
  where
    go :
        (r : Outcome (Unit {0}) × W)
        → m w ≡ r
        → elim r.0 as (λ _. Outcome (Unit {0}) × W) [
          | returned a ↦ (returned a, r.1)
          | failed e ↦ (failed e, r.1)
          | panicked ↦ (failed (plain "internal server error!!"), r.1)
        ]
          ≡ (returned tt, w')
        → m w ≡ (returned tt, w')
    go (returned a, v) e k = e ∙ k
    go (failed x, v) e k = absurd (failed≢returned k)
    go (panicked, v) e k = absurd (failed≢returned k)

module _ {F W Item Raw : Type 0} ⦃d : Float64 F⦄ (host : Host W) (db : Dynamo F W Item Raw)
    (service : Service W) where
  -- A batch with readings is stored, and then its latest reading updates the state.
  store_collected-returned :
      (c : Collected F) (t : Telemetry F) (others : List (Telemetry F)) (w w' : W)
      → c.telemetry_list ≡ t ∷ others
      → store_collected host db service c w ≡ (returned tt, w')
      → (v : W) × (save_telemetry_batch host db service.telemetry_store (t ∷ others) w
          ≡ (returned tt, v))
        × (update_from_telemetry host db service.state_store c.latest_reading v ≡ (returned tt, w'))
  unfolding store_collected
  store_collected-returned c t others w w' e h =
      let save : List (Telemetry F) → Action W (Unit {0}) =
        save_telemetry_batch host db service.telemetry_store in
      let update : Action W (Unit {0}) =
        update_from_telemetry host db service.state_store c.latest_reading in
      let run : (save (t ∷ others) >> update) w ≡ (returned tt, w') = rw e at h in
      let (_, v, saved, updated) = >>=-returned (save (t ∷ others)) (λ _. update) w w' tt run in
      (v, saved, updated)

  dispatched_batch :
      (event : Payload F) (m : Message F) (items : Items F) (w w' : W)
      → validate_message (host.clock w).0 event ≡ ok m
      → m.message_type ≡ "telemetry"
      → m.is_batch ≡ true
      → as_list (get "items" m.envelope.payload) ≡ some items
      → handle_request host db service event w ≡ (returned tt, w')
      → store_collected host db service
          (collect m.device_id m.envelope items nothing_collected)
          (host.clock w).1
        ≡ (returned tt, w')
  unfolding handle_request dispatch handle_telemetry
  dispatched_batch event m items w w' accepted kind batch listed h =
      let start = (host.clock w).1 in
      let work : Action W (Unit {0}) = reads host.clock >>= λ now.
      from (validate_message now event) >>= dispatch host db service in
      let run : dispatch host db service m start ≡ (returned tt, w') =
        sym (ap (λ r. (from r >>= dispatch host db service) start) accepted)
        ∙ recovered-returned work w w' h in
      rw (kind, batch, handle_telemetry, listed) at run

  -- The put requests of the items of the readings have been carried out, and the register holds the
  -- first of the latest. `written` lists the requests carried out; in the table, which is keyed by
  -- device and time, a later item takes the place of an earlier one with the same key.
  pub record BatchStored (rows : W → String → Option (Row Raw)) (written : W → List Item)
      (readings : List (Telemetry F)) (w w' : W) : Type 0 where
    pub items : List Item
    pub encoded : Encoded db (days_from (host.clock (host.clock w).1).0 7) readings items
    pub all_written : Perm (written w') (written w ++ items)
    pub latest : Telemetry F
    pub is_latest : IsLatest latest readings
    pub now : ℤ
    pub raw : Raw
    pub payload_encoded : db.marshal_payload latest.payload ≡ ok raw
    pub registered : rows w' latest.device_id ≡ some (row_of latest now raw)

  module _ (rows : W → String → Option (Row Raw)) (written : W → List Item) (calls : W → ℕ)
      (table : TableLaws host db service.state_store.table_name rows)
      (batches : WritesBatches host db service.telemetry_store.table_name written calls)
      (clock_quiet : (v : W) → written (host.clock v).1 ≡ written v)
      (update_quiet : (input : UpdateItemInput Raw) (v : W)
        → written (db.update_item input v).1 ≡ written v)
      (encodes : (p : Payload F) → (raw : Raw) × (db.marshal_payload p ≡ ok raw)) where
    -- Over tables that obey `TableLaws` and `WritesBatches`, where neither the clock nor an update of a
    -- state writes a reading and every payload can be encoded: if the request of an accepted batch,
    -- which has accepted items, all with positive timestamps, returns without an error, then exactly
    -- these readings, in their order, have been encoded to items, with an expiry a week after the clock
    -- where they had none, the put requests of exactly these items have been carried out, and the
    -- register holds for its device the first of the latest of them, with its payload.
    pub handle_request-batch :
        (event : Payload F) (m : Message F) (items : Items F) (t : Telemetry F)
        (others : List (Telemetry F)) (w w' : W)
        → validate_message (host.clock w).0 event ≡ ok m
        → m.message_type ≡ "telemetry"
        → m.is_batch ≡ true
        → as_list (get "items" m.envelope.payload) ≡ some items
        → readings_of m.device_id m.envelope items ≡ t ∷ others
        → All IsDated (t ∷ others)
        → handle_request host db service event w ≡ (returned tt, w')
        → BatchStored rows written (t ∷ others) w w'
    handle_request-batch event m items t others w w' accepted kind batch listed readings dated h =
        let c = collect m.device_id m.envelope items nothing_collected in
        let (list, latest) =
          collect-IsLatest m.device_id m.envelope items t others readings dated in
        let run = dispatched_batch event m items w w' accepted kind batch listed h in
        let (v, saved, updated) =
          store_collected-returned c t others (host.clock w).1 w' list run in
        let (stored, encoded, perm) =
          save_telemetry_batch-written host db service.telemetry_store written calls batches
            (t ∷ others) (host.clock w).1 v clock_quiet saved in
        let (same, now, raw, payload, row) =
          registered_lem host db service.state_store rows written table clock_quiet update_quiet
            encodes c.latest_reading v w' updated in
        record {
          items = stored;
          encoded = encoded;
          all_written = rw same (rw (clock_quiet w) at perm);
          latest = c.latest_reading;
          is_latest = latest;
          now = now;
          raw = raw;
          payload_encoded = payload;
          registered = row;
        }
