-- ===== src/Ingestion/Registered.antt =====
-- store_state.go as the ingestion calls it: what an update that returns has done, and when it returns.
use io_t_fleet_management.Prelude.{
  refl, some, none, true, sym, ap, ◌∙◌, ◌≡◌, String, List, Option, inl, inr, arith, Bool-cases,
  eq_refl,
}
use io_t_fleet_management.Prelude.Int.{ℤ, ◌≤ℤ◌}
use io_t_fleet_management.Go.Value.{Payload}
use io_t_fleet_management.Go.Float.{Float64}
use io_t_fleet_management.Go.Outcome.{ok, returned, failed≢returned, annotate-world}
use io_t_fleet_management.Cloud.{Host, Dynamo, UpdateItemInput}
use io_t_fleet_management.Models.{Telemetry}
use io_t_fleet_management.Devices.Store.{StateStore, update_from_telemetry, telemetry_input}
use io_t_fleet_management.Devices.Store.Register.{Row, TableLaws, is_newer, row_of, update_lem}
use io_t_fleet_management.Devices.Store.Register.Latest.{update_from_telemetry-write_latest}

-- The row is not later than a time, if there is one.
abbrev pub NotAfter : {Raw : Type 0} → Option (Row Raw) → ℤ → Type 0
NotAfter none time = Unit {0}
NotAfter (some row) time = row.last_seen_at ≤ℤ time

is_newer-NotAfter :
    {Raw : Type 0} (old : Option (Row Raw)) (row : Row Raw)
    → NotAfter old row.last_seen_at
    → is_newer old row ≡ true
is_newer-NotAfter none row h = refl
is_newer-NotAfter (some old) row h = ground arith

module _ {F W Item Raw : Type 0} ⦃d : Float64 F⦄ (host : Host W) (db : Dynamo F W Item Raw)
    (store : StateStore) (rows : W → String → Option (Row Raw)) (written : W → List Item)
    (table : TableLaws host db store.table_name rows)
    (clock_quiet : (v : W) → written (host.clock v).1 ≡ written v)
    (update_quiet : (input : UpdateItemInput Raw) (v : W)
      → written (db.update_item input v).1 ≡ written v)
    (encodes : (p : Payload F) → (raw : Raw) × (db.marshal_payload p ≡ ok raw)) where
  pub registered_lem :
      (tel : Telemetry F) (v w' : W)
      → update_from_telemetry host db store tel v ≡ (returned tt, w')
      → (written w' ≡ written v)
        × (now : ℤ) × (raw : Raw) × (db.marshal_payload tel.payload ≡ ok raw)
        × (rows w' tel.device_id ≡ some (row_of tel now raw))
  registered_lem tel v w' h =
      let (raw, e) = encodes tel.payload in
      let start = (host.clock v).1 in
      let row = row_of tel (host.clock v).0 raw in
      let input = telemetry_input host db store tel (host.clock v).0 raw in
      let left : w' ≡ (update_from_telemetry host db store tel v).1 = ap (λ x. x.1) (sym h) in
      let (register, _, refuses) =
        update_from_telemetry-write_latest host db store rows table tel raw v e in
      let quiet : written w' ≡ written v =
        ap written left
        ∙ ap (λ x. written x.1) (update_lem host db store tel raw v e)
        ∙ ap written (annotate-world "failed to update device state" (db.update_item input) start)
        ∙ update_quiet input start
        ∙ clock_quiet v in
      elim (Bool-cases (is_newer (rows v tel.device_id) row)) [
        | inl newer ↦ (
          quiet,
          (host.clock v).0,
          raw,
          e,
          ap (λ x. rows x tel.device_id) left
              ∙ register tel.device_id
              ∙ rw (eq_refl tel.device_id, newer) refl,
        )
        | inr older ↦ absurd (failed≢returned (sym (refuses older).1 ∙ h))
      ]

  pub updated_lem :
      (tel : Telemetry F) (v : W)
      → NotAfter (rows v tel.device_id) tel.timestamp
      → (w' : W) × (update_from_telemetry host db store tel v ≡ (returned tt, w'))
  updated_lem tel v h =
      let (raw, e) = encodes tel.payload in
      let (_, returns, _) =
        update_from_telemetry-write_latest host db store rows table tel raw v e in
      (_, returns (is_newer-NotAfter (rows v tel.device_id) (row_of tel (host.clock v).0 raw) h))
