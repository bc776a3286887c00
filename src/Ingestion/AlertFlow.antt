-- ===== src/Ingestion/AlertFlow.antt =====
-- backend/internal/ingestion/handler.go: an accepted message of the type alerts, from the event to the
-- tables.
use Prim.Native.String
use io_t_fleet_management.Prelude.{refl, false, ◌≡◌, ◌==◌, ap, ◌∙◌, Option-cases, inl, inr, none}
use io_t_fleet_management.Prelude.Int.{ℤ, add64}
use io_t_fleet_management.Go.Value.{Payload, as_string, get}
use io_t_fleet_management.Go.Float.{Float64}
use io_t_fleet_management.Go.Outcome.{ok, returned, failed, Error, annotate, from, wrap, ◌>>=◌}
use io_t_fleet_management.Go.Steps.{
  chain-returned, chain-failed, annotate-of-returned, annotate-of-failed,
}
use io_t_fleet_management.Cloud.{Host, Dynamo, days_from}
use io_t_fleet_management.Models.{Alert, generate_id}
use io_t_fleet_management.Models.AlertId.{generate_id_named}
use io_t_fleet_management.Alerts.{save_alert}
use io_t_fleet_management.Devices.Store.{update_heartbeat}
use io_t_fleet_management.Ingestion.{
  Service, handle_request, dispatch, handle_alert, alert_of, recovered, some, pos,
}
use io_t_fleet_management.Validation.{Message, validate_message}
use io_t_fleet_management.Ingestion.Flow.{recovered_result}
use io_t_fleet_management.Go.Text.Decimal.{decimal_ℤ}

module _ {F : Type 0} where
  -- The alert of a message as it is kept at the time `now`: the fields of the envelope, the severity
  -- that its payload gives, and the device and the time, with a hash between them, as identifier.
  abbrev pub kept_alert : Message F → ℤ → Alert F
  kept_alert m now = record {
    alert_id = String.◌++◌ m.device_id (String.◌++◌ "#" (decimal_ℤ m.envelope.timestamp));
    device_id = m.device_id;
    timestamp = m.envelope.timestamp;
    type = m.envelope.type;
    severity = elim (as_string (get "severity" m.envelope.payload)) [
      | some text ↦ text
      | none ↦ ""
    ];
    payload = m.envelope.payload;
    expires_at = add64 now (pos 2592000);
  }

  kept_alert_lem :
      (m : Message F) (now : ℤ)
      → record (alert_of m.device_id m.envelope) { expires_at = days_from now 30 }
        ≡ kept_alert m now
  unfolding generate_id
  kept_alert_lem m now = elim (Option-cases (as_string (get "severity" m.envelope.payload))) [
    | inl e ↦ rw e refl
    | inr (text, e) ↦ rw e refl
  ]

module _ {F W Item Raw : Type 0} ⦃d : Float64 F⦄ (host : Host W) (db : Dynamo F W Item Raw)
    (service : Service W) where
  save_lem :
      (m : Message F) (item : Item) (w : W)
      → db.marshal_alert (kept_alert m (host.clock w).0) ≡ ok item
      → save_alert host db service.alert_store (alert_of m.device_id m.envelope) w
        ≡ annotate "failed to store alert in dynamodb"
            (db.put_item service.alert_store.table_name item)
            (host.clock w).1
  unfolding save_alert generate_id
  save_lem m item w h =
      let v = (host.clock w).1 in
      let alert : Alert F = record (alert_of m.device_id m.envelope) {
        expires_at = days_from (host.clock w).0 30;
      } in
      let named : (alert_of m.device_id m.envelope).alert_id == "" ≡ false =
        generate_id_named (alert_of m.device_id m.envelope) in
      rw named (
        chain-returned (annotate "failed to marshal alert" (from (db.marshal_alert alert)))
          (λ x.
            annotate "failed to store alert in dynamodb"
              (db.put_item service.alert_store.table_name x))
          v v item
          (annotate-of-returned "failed to marshal alert" (from (db.marshal_alert alert)) v v item
            (ap (λ r. from r v) (ap db.marshal_alert (kept_alert_lem m (host.clock w).0) ∙ h))))

  -- What becomes of an accepted alert, after the clock is read for the validation.
  accepted_lem :
      (event : Payload F) (m : Message F) (w : W)
      → validate_message (host.clock w).0 event ≡ ok m
      → m.message_type ≡ "alerts"
      → handle_request host db service event w
        ≡ recovered (handle_alert host db service m.device_id m.envelope) (host.clock w).1
  unfolding handle_request dispatch
  accepted_lem event m w accepted kind =
      ap (λ r. recovered (from r >>= dispatch host db service) (host.clock w).1) accepted
      ∙ rw kind refl

  -- An accepted message of the type alerts, whose alert can be encoded, with the identifier of its
  -- device and time, the severity of its payload and an expiry 30 days ahead of the clock: if the database does not take the item,
  -- the request ends with that error and the device is not marked as seen; if it does, the request
  -- goes on with the update by the heartbeat of the device of the topic.
  pub handle_request-alert :
      (event : Payload F) (m : Message F) (item : Item) (w v : W) (e : Error)
      → validate_message (host.clock w).0 event ≡ ok m
      → m.message_type ≡ "alerts"
      → let (now, u) = host.clock (host.clock w).1 in
        db.marshal_alert (kept_alert m now) ≡ ok item
        → (db.put_item service.alert_store.table_name item u ≡ (failed e, v)
            → handle_request host db service event w
              ≡ (failed (wrap "failed to store alert in dynamodb" e), v))
          × (db.put_item service.alert_store.table_name item u ≡ (returned tt, v)
              → handle_request host db service event w
                ≡ recovered (update_heartbeat host db service.state_store m.device_id) v)
  unfolding handle_alert
  handle_request-alert event m item w v e accepted kind encoded =
      let start = (host.clock w).1 in
      let u = (host.clock start).1 in
      let save = save_alert host db service.alert_store (alert_of m.device_id m.envelope) in
      let put = db.put_item service.alert_store.table_name item in
      let beat = update_heartbeat host db service.state_store m.device_id in
      let saving = save_lem m item start encoded in
      let run = accepted_lem event m w accepted kind in
      (
        (λ h.
            run
            ∙ ap recovered_result (
                chain-failed save (λ x. beat) start v (wrap "failed to store alert in dynamodb" e)
                  (saving ∙ annotate-of-failed "failed to store alert in dynamodb" put u v e h))),
        (λ h.
            run
            ∙ ap recovered_result (
                chain-returned save (λ x. beat) start v tt
                  (saving
                    ∙ annotate-of-returned "failed to store alert in dynamodb" put u v tt h))),
      )
