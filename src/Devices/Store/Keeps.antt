-- ===== src/Devices/Store/Keeps.antt =====
-- store_state.go over a relation between worlds that each call keeps.
use io_t_fleet_management.Prelude.{[], some, none, zero, suc, ◌++◌}
use io_t_fleet_management.Go.Keeps.{
  keeps, IsPreorder, Keeps, pure-Keeps, >>=-Keeps, annotate-Keeps, Option-Keeps, from-Keeps,
}
use io_t_fleet_management.Go.Float.{Float64}
use io_t_fleet_management.Cloud.{Host, Dynamo, ScanInput, reads, Attr}
use io_t_fleet_management.Devices.Store.{
  StateStore, get_state_by_id, update_from_telemetry, update_heartbeat, String, Telemetry, List,
  get_all_states, scan_pages, ℕ, ℤ, Option, heartbeat_input, telemetry_input, DeviceState,
  device_key, page_input, decoded_states,
}

module _ {F W Item Raw : Type 0} ⦃d : Float64 F⦄ (R : W → W → Type 0) (order : IsPreorder R)
    (host : Host W) (db : Dynamo F W Item Raw) (store : StateStore) where
  pub update_from_telemetry-Keeps :
      (tel : Telemetry F)
      → Keeps R (reads host.clock)
      → ((now : ℤ) (payload : Raw)
          → Keeps R (db.update_item (telemetry_input host db store tel now payload)))
      → Keeps R (update_from_telemetry host db store tel)
  unfolding update_from_telemetry
  update_from_telemetry-Keeps tel clock update = >>=-Keeps R order _ _ clock λ now.
      >>=-Keeps R order _ _
        (annotate-Keeps R order "failed to marshal payload" _
          (from-Keeps R order (db.marshal_payload tel.payload)))
        λ payload. annotate-Keeps R order "failed to update device state" _ (update now payload)

  pub update_heartbeat-Keeps :
      (device_id : String)
      → Keeps R (reads host.clock)
      → ((now : ℤ) → Keeps R (db.update_item (heartbeat_input host db store device_id now)))
      → Keeps R (update_heartbeat host db store device_id)
  unfolding update_heartbeat
  update_heartbeat-Keeps device_id clock update = search (keeps, clock, update)

  module _ (scan : (input : ScanInput Item Raw) → Keeps R (db.scan input)) where
    scan_pages-Keeps :
        (fuel : ℕ) (start : Option Item) (states : List (DeviceState F))
        → Keeps R (scan_pages host db store fuel start states)
    unfolding scan_pages
    scan_pages-Keeps zero start states = pure-Keeps R order none
    scan_pages-Keeps (suc fuel) start states =
        >>=-Keeps R order _ _
          (annotate-Keeps R order "failed to scan device states" _
            (scan (page_input host db store start)))
          λ page.
            Option-Keeps R order page.last_evaluated_key _ _
              (pure-Keeps R order (some (states ++ decoded_states host db store page.items)))
              λ key.
                scan_pages-Keeps fuel (some key) (states ++ decoded_states host db store page.items)

    pub get_all_states-Keeps : (fuel : ℕ) → Keeps R (get_all_states host db store fuel)
    unfolding get_all_states
    get_all_states-Keeps fuel = scan_pages-Keeps fuel none []

  pub get_state_by_id-Keeps :
      (device_id : String)
      → ((name : String) (key : List (String × Attr Raw)) → Keeps R (db.get_item name key))
      → Keeps R (get_state_by_id host db store device_id)
  unfolding get_state_by_id
  get_state_by_id-Keeps device_id item =
      >>=-Keeps R order _ _
        (annotate-Keeps R order "failed to get device" _
          (item store.table_name (device_key device_id)))
        λ found. Option-Keeps R order found _ _ (pure-Keeps R order none) λ x.
          >>=-Keeps R order _ _
            (annotate-Keeps R order "failed to unmarshal device state" _
              (from-Keeps R order (db.unmarshal_state x)))
            λ state. pure-Keeps R order (some state)
