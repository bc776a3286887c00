-- ===== src/Devices/Store/Register/Latest.antt =====
-- store_state.go: updates and reads over the register.
use mathlib.Core.Option
use io_t_fleet_management.Prelude.{
  none, some, true, false, refl, inl, inr, String, ◌≡◌, ◌∙◌, ap, sym, Option, ◌==◌, arith, eq_iff,
  Bool-cases,
}
use io_t_fleet_management.Go.Value.{Payload}
use io_t_fleet_management.Go.Float.{Float64}
use io_t_fleet_management.Go.Outcome.{
  returned, failed, ok, Error, wrap, Action, annotate, from, pure, ◌>>=◌,
}
use io_t_fleet_management.Go.Steps.{chain-returned, annotate-of-returned, annotate-of-failed}
use io_t_fleet_management.Cloud.{Host, Dynamo}
use io_t_fleet_management.Models.{Telemetry, DeviceState}
use io_t_fleet_management.Devices.Store.{
  StateStore, update_from_telemetry, get_state_by_id, device_key, telemetry_input, Bool,
}
use io_t_fleet_management.Devices.Store.Register.{
  Row, TableLaws, is_newer, write_latest, row_of, state_of, update_lem, input-Sets, ReadLaws,
}

true≢false : ¬ ◌≡◌ {A = Bool} true false
true≢false h = cc

write_latest_kept :
    {Raw : Type 0} (rows : String → Option (Row Raw)) (device_id : String) (row : Row Raw)
    → is_newer (rows device_id) row ≡ false
    → (id : String) → rows id ≡ write_latest rows device_id row id
write_latest_kept rows device_id row older id = elim (Bool-cases (id == device_id)) [
  | inl e ↦ let p : id ≡ device_id = (eq_iff id device_id).0 e in rw (e, p, older) refl
  | inr e ↦ rw e refl
]

module _ {F W Item Raw : Type 0} ⦃d : Float64 F⦄ (host : Host W) (db : Dynamo F W Item Raw)
    (store : StateStore) (rows : W → String → Option (Row Raw))
    (laws : TableLaws host db store.table_name rows) where
  module _ (tel : Telemetry F) (raw : Raw) (w : W) where
    -- The row that the reading asks for at the time of the update, and the world after the update.
    abbrev row : Row Raw
    row = row_of tel (host.clock w).0 raw

    abbrev after : W
    after = (update_from_telemetry host db store tel w).1

    accepted :
        db.marshal_payload tel.payload ≡ ok raw
        → is_newer (rows w tel.device_id) row ≡ true
        → (v : W) × (update_from_telemetry host db store tel w ≡ (returned tt, v))
          × ((id : String) → rows v id ≡ write_latest (rows w) tel.device_id row id)
    accepted h newer =
        let start = (host.clock w).1 in
        let input = telemetry_input host db store tel (host.clock w).0 raw in
        let newer' : is_newer (rows start tel.device_id) row ≡ true =
          rw (laws.clock w tel.device_id) newer in
        let (v, done, set, others) =
          laws.accepts tel.device_id row input start
            (input-Sets host db store tel (host.clock w).0 raw) newer' in
        (
          v,
          update_lem host db store tel raw w h
              ∙ annotate-of-returned "failed to update device state" (db.update_item input) start v
                  tt done,
          λ id. elim (Bool-cases (id == tel.device_id)) [
            | inl e ↦
                let p : id ≡ tel.device_id = (eq_iff id tel.device_id).0 e in
                rw e (rw (p, newer) set)
            | inr e ↦
                let p : ¬ id ≡ tel.device_id = λ q. ground (arith, eq_iff id tel.device_id) in
                rw e (others id p ∙ laws.clock w id)
          ],
        )

    refused :
        db.marshal_payload tel.payload ≡ ok raw
        → is_newer (rows w tel.device_id) row ≡ false
        → (e : Error) × (v : W) × (update_from_telemetry host db store tel w ≡ (failed e, v))
          × ((id : String) → rows v id ≡ write_latest (rows w) tel.device_id row id)
    refused h older =
        let start = (host.clock w).1 in
        let input = telemetry_input host db store tel (host.clock w).0 raw in
        let older' : is_newer (rows start tel.device_id) row ≡ false =
          rw (laws.clock w tel.device_id) older in
        let (e, v, done, same) =
          laws.refuses tel.device_id row input start
            (input-Sets host db store tel (host.clock w).0 raw) older' in
        (
          wrap "failed to update device state" e,
          v,
          update_lem host db store tel raw w h
              ∙ annotate-of-failed "failed to update device state" (db.update_item input) start v e
                  done,
          λ id. same id ∙ laws.clock w id ∙ write_latest_kept (rows w) tel.device_id row older id,
        )

    -- An update by a reading whose payload can be encoded writes to the register of the devices, and
    -- returns if the row is replaced.
    pub update_from_telemetry-write_latest :
        db.marshal_payload tel.payload ≡ ok raw
        → ((id : String) → rows after id ≡ write_latest (rows w) tel.device_id row id)
          × (is_newer (rows w tel.device_id) row ≡ true
              → update_from_telemetry host db store tel w ≡ (returned tt, after))
          × (is_newer (rows w tel.device_id) row ≡ false
              → (e : Error) × (update_from_telemetry host db store tel w ≡ (failed e, after)))
    update_from_telemetry-write_latest h = elim (Bool-cases (is_newer (rows w tel.device_id) row)) [
      | inl newer ↦
          let (v, run, set) = accepted h newer in
          (
            (λ id. ap (λ x. rows x.1 id) run ∙ set id),
            (λ g. run ∙ ap (λ x. (returned tt, x)) (sym (ap (λ x. x.1) run))),
            (λ older. absurd (true≢false (sym newer ∙ older))),
          )
      | inr older ↦
          let (e, v, run, set) = refused h older in
          (
            (λ id. ap (λ x. rows x.1 id) run ∙ set id),
            (λ newer. absurd (true≢false (sym newer ∙ older))),
            (λ g. (e, run ∙ ap (λ x. (failed e, x)) (sym (ap (λ x. x.1) run)))),
          )
    ]

module _ {F W Item Raw : Type 0} ⦃d : Float64 F⦄ (host : Host W) (db : Dynamo F W Item Raw)
    (store : StateStore) (served : W → String → Option (Row Raw)) (decode : Raw → Payload F)
    (reading : ReadLaws db store.table_name served decode) where
  -- A read gives the state that is served for the device, and none if none is.
  pub get_state_by_id_lem :
      (device_id : String) (w : W)
      → get_state_by_id host db store device_id w
        ≡ (returned (Option.map (state_of decode device_id) (served w device_id)), w)
  unfolding get_state_by_id
  get_state_by_id_lem device_id w = go (served w device_id) refl
    where
      continue : Option Item → Action W (Option (DeviceState F))
      continue item = elim item [
        | none ↦ pure none
        | some found ↦ do
          state ← annotate "failed to unmarshal device state" (from (db.unmarshal_state found))
          pure (some state)
      ]

      go :
          (r : Option (Row Raw))
          → served w device_id ≡ r
          → get_state_by_id host db store device_id w
            ≡ (returned (Option.map (state_of decode device_id) (served w device_id)), w)
      go none h = rw h (
          chain-returned
            (annotate "failed to get device" (db.get_item store.table_name (device_key device_id)))
            continue w w none
            (annotate-of-returned "failed to get device"
              (db.get_item store.table_name (device_key device_id)) w w none
              (reading.reads_none device_id w h)))
      go (some kept) h =
          let (item, got, decoded) = reading.reads_some device_id kept w h in
          let state = state_of decode device_id kept in
          let decoding : Action W (DeviceState F) =
            annotate "failed to unmarshal device state" (from (db.unmarshal_state item)) in
          let run : decoding w ≡ (returned state, w) =
            annotate-of-returned "failed to unmarshal device state" (from (db.unmarshal_state item))
              w w state (ap (λ r. from r w) decoded) in
          let read =
            chain-returned
              (annotate "failed to get device"
                (db.get_item store.table_name (device_key device_id)))
              continue w w (some item)
              (annotate-of-returned "failed to get device"
                (db.get_item store.table_name (device_key device_id)) w w (some item) got) in
          rw h (read ∙ chain-returned decoding (λ s. pure (some s)) w w state run)

module _ {F W Item Raw : Type 0} ⦃d : Float64 F⦄ (host : Host W) (db : Dynamo F W Item Raw)
    (store : StateStore) (rows served : W → String → Option (Row Raw)) (decode : Raw → Payload F)
    (laws : TableLaws host db store.table_name rows)
    (reading : ReadLaws db store.table_name served decode) where
  -- Over a table that obeys `TableLaws` and `ReadLaws`: after the update by a reading whose payload
  -- can be encoded, a read of a device, which has caught up with the last write of it, returns what
  -- the register then holds: for the device of the reading its new state, or the old one where that
  -- is newer, so that an older reading is not given back, and for every other device what it was.
  pub get_state_by_id-update :
      (tel : Telemetry F) (raw : Raw) (w : W) (device_id : String)
      → db.marshal_payload tel.payload ≡ ok raw
      → let after = (update_from_telemetry host db store tel w).1 in
        served after device_id ≡ rows after device_id
        → get_state_by_id host db store device_id after ≡ (
          returned (
              Option.map
                (state_of decode device_id)
                (write_latest (rows w) tel.device_id (row_of tel (host.clock w).0 raw) device_id)),
          after,
        )
  get_state_by_id-update tel raw w device_id h caught_up =
      let after = (update_from_telemetry host db store tel w).1 in
      get_state_by_id_lem host db store served decode reading device_id after
      ∙ ap (λ r. (returned (Option.map (state_of decode device_id) r), after))
          (caught_up
            ∙ (update_from_telemetry-write_latest host db store rows laws tel raw w h).0 device_id)
