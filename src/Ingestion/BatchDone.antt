-- ===== src/Ingestion/BatchDone.antt =====
-- backend/internal/ingestion/handler.go with the stores: a batch over tables that are reliable.
use io_t_fleet_management.Prelude.{
  ◌∷◌, refl, some, true, sym, ap, ◌∙◌, ◌≡◌, String, List, ℕ, All, Option,
}
use io_t_fleet_management.Go.Value.{Payload, Items, as_list, get}
use io_t_fleet_management.Go.Float.{Float64}
use io_t_fleet_management.Go.Keeps.{IsPreorder, Keeps}
use io_t_fleet_management.Go.Steps.{chain-returned}
use io_t_fleet_management.Go.Outcome.{ok, returned, Action, ◌>>=◌, from}
use io_t_fleet_management.Cloud.{Host, Dynamo, UpdateItemInput}
use io_t_fleet_management.Models.{Telemetry}
use io_t_fleet_management.Devices.Store.{update_from_telemetry}
use io_t_fleet_management.Devices.Store.Register.{Row, TableLaws}
use io_t_fleet_management.Telemetry.Store.{save_telemetry_batch}
use io_t_fleet_management.Telemetry.Store.Keeps.{save_telemetry_batch-Keeps}
use io_t_fleet_management.Telemetry.Store.Retry.{WritesBatches}
use io_t_fleet_management.Telemetry.Store.Success.{
  IsReliable, save_telemetry_batch-returned, IsDistinct, all_keys, reading_key,
}
use io_t_fleet_management.Validation.{Message, validate_message}
use io_t_fleet_management.Ingestion.{
  Service, Collected, handle_request, recovered, dispatch, handle_telemetry, store_collected,
  collect, nothing_collected, ℤ,
}
use io_t_fleet_management.Ingestion.Flow.{recovered_result}
use io_t_fleet_management.Ingestion.Batch.{readings_of, IsDated, collect-IsLatest}
use io_t_fleet_management.Ingestion.Registered.{NotAfter, updated_lem}
use io_t_fleet_management.Ingestion.BatchFlow.{BatchStored, handle_request-batch}

module _ {F W Item Raw : Type 0} ⦃d : Float64 F⦄ (host : Host W) (db : Dynamo F W Item Raw)
    (service : Service W) (rows : W → String → Option (Row Raw)) (written : W → List Item)
    (calls : W → ℕ) (table : TableLaws host db service.state_store.table_name rows)
    (batches : WritesBatches host db service.telemetry_store.table_name written calls)
    (key : Item → String × ℤ) (reliable : IsReliable db service.telemetry_store.table_name key)
    (clock_quiet : (v : W) → written (host.clock v).1 ≡ written v)
    (update_quiet : (input : UpdateItemInput Raw) (v : W)
      → written (db.update_item input v).1 ≡ written v)
    (wait_quiet : (n : ℕ) (v : W) (id : String) → rows (host.wait n v).1 id ≡ rows v id)
    (batch_quiet : (items : List Item) (v : W) (id : String)
      → rows (db.batch_write_item service.telemetry_store.table_name items v).1 id ≡ rows v id)
    (encodes : (p : Payload F) → (raw : Raw) × (db.marshal_payload p ≡ ok raw)) where
  SameRows : W → W → Type 0
  SameRows v v' = (id : String) → rows v' id ≡ rows v id

  SameRows-IsPreorder : IsPreorder SameRows
  unfolding SameRows
  SameRows-IsPreorder = record { same = λ w id. refl; chain = λ u v w p q id. q id ∙ p id }

  saved-SameRows :
      (xs : List (Telemetry F))
      → Keeps SameRows (save_telemetry_batch host db service.telemetry_store xs)
  unfolding SameRows
  saved-SameRows xs =
      save_telemetry_batch-Keeps SameRows SameRows-IsPreorder host db service.telemetry_store
        (record { at = λ w. table.clock w }) wait_quiet (λ items. record { at = batch_quiet items })
        xs

  stored_lem :
      (c : Collected F) (t : Telemetry F) (others : List (Telemetry F)) (w : W)
      → c.telemetry_list ≡ t ∷ others
      → IsDistinct (all_keys reading_key (t ∷ others))
      → NotAfter (rows w c.latest_reading.device_id) c.latest_reading.timestamp
      → (w' : W) × (store_collected host db service c w ≡ (returned tt, w'))
  unfolding store_collected SameRows
  stored_lem c t others w e distinct fresh =
      let save : Action W (Unit {0}) =
        save_telemetry_batch host db service.telemetry_store (t ∷ others) in
      let update : Action W (Unit {0}) =
        update_from_telemetry host db service.state_store c.latest_reading in
      let (v, saved) =
        save_telemetry_batch-returned host db service.telemetry_store key reliable (t ∷ others) w
          distinct in
      let id = c.latest_reading.device_id in
      let same : rows v id ≡ rows w id =
        ap (λ x. rows x.1 id) (sym saved) ∙ (saved-SameRows (t ∷ others)).at w id in
      let (w', updated) =
        updated_lem host db service.state_store rows written table clock_quiet update_quiet encodes
          c.latest_reading v (rw same fresh) in
      (w', rw e (chain-returned save (λ _. update) w v tt saved ∙ updated))

  -- Over tables that obey `TableLaws` and `WritesBatches` and take every batch of at most 25 items
  -- with different keys, where the calls for one table leave the others alone and every payload can be
  -- encoded: the request of an accepted batch, which has accepted items, all with positive timestamps
  -- and no two with the same, returns, if the register holds nothing later for the device than the
  -- latest reading; and then the put requests of exactly these readings have been carried out, and the
  -- register holds the first of the latest of them, with its payload.
  pub handle_request-BatchStored :
      (event : Payload F) (m : Message F) (items : Items F) (t : Telemetry F)
      (others : List (Telemetry F)) (w : W)
      → validate_message (host.clock w).0 event ≡ ok m
      → m.message_type ≡ "telemetry"
      → m.is_batch ≡ true
      → as_list (get "items" m.envelope.payload) ≡ some items
      → readings_of m.device_id m.envelope items ≡ t ∷ others
      → All IsDated (t ∷ others)
      → IsDistinct (all_keys reading_key (t ∷ others))
      → let latest = (collect m.device_id m.envelope items nothing_collected).latest_reading in
        NotAfter (rows w latest.device_id) latest.timestamp
        → (w' : W) × (handle_request host db service event w ≡ (returned tt, w'))
          × BatchStored host db service rows written (t ∷ others) w w'
  unfolding handle_request dispatch handle_telemetry
  handle_request-BatchStored event m items t others w accepted kind batch listed readings dated
        distinct fresh =
      let start = (host.clock w).1 in
      let c = collect m.device_id m.envelope items nothing_collected in
      let id = c.latest_reading.device_id in
      let (list, latest) = collect-IsLatest m.device_id m.envelope items t others readings dated in
      let (w', stored) = stored_lem c t others start list distinct (rw (table.clock w id) fresh) in
      let step : dispatch host db service m start ≡ (returned tt, w') =
        rw (kind, batch, handle_telemetry, listed) stored in
      let run : handle_request host db service event w ≡ (returned tt, w') =
        ap (λ r. recovered (from r >>= dispatch host db service) start) accepted
        ∙ ap recovered_result step in
      (
        w',
        run,
        handle_request-batch host db service rows written calls table batches clock_quiet
            update_quiet encodes event m items t others w w' accepted kind batch listed readings
            dated run,
      )
