-- ===== src/Alerts/Keeps.antt =====
-- backend/internal/alerts/store_alerts.go over a relation between worlds that each call keeps.
use io_t_fleet_management.Prelude.{◌==◌}
use io_t_fleet_management.Go.Keeps.{
  keeps, IsPreorder, Keeps, >>=-Keeps, annotate-Keeps, from-Keeps, if-Keeps, pure-Keeps,
}
use io_t_fleet_management.Cloud.{Host, Dynamo, QueryInput, ScanInput}
use io_t_fleet_management.Alerts.{
  AlertStore, get_alerts_by_device, get_all_alerts, save_alert, Alert, String, ℤ, reads,
  with_alert_id, with_expiry, eq_ℤ, pos, days_from,
}

module _ {F W Item Raw : Type 0} (R : W → W → Type 0) (order : IsPreorder R) (host : Host W)
    (db : Dynamo F W Item Raw) (store : AlertStore) where
  with_alert_id-Keeps :
      (a : Alert F) → Keeps R (reads host.uuid) → Keeps R (with_alert_id host db store a)
  with_alert_id-Keeps a uuid =
      if-Keeps R order (a.alert_id == "") _ _
        (>>=-Keeps R order _ _ uuid λ id. pure-Keeps R order (record a { alert_id = id }))
        (pure-Keeps R order a)

  with_expiry-Keeps :
      (a : Alert F) → Keeps R (reads host.clock) → Keeps R (with_expiry host db store a)
  with_expiry-Keeps a clock =
      if-Keeps R order (eq_ℤ a.expires_at (pos 0)) _ _
        (>>=-Keeps R order _ _ clock
          λ now. pure-Keeps R order (record a { expires_at = days_from now 30 }))
        (pure-Keeps R order a)

  pub save_alert-Keeps :
      (a : Alert F)
      → Keeps R (reads host.clock)
      → Keeps R (reads host.uuid)
      → ((item : Item) → Keeps R (db.put_item store.table_name item))
      → Keeps R (save_alert host db store a)
  unfolding save_alert
  save_alert-Keeps a clock uuid put = >>=-Keeps R order _ _ (with_alert_id-Keeps a uuid) λ named.
      >>=-Keeps R order _ _ (with_expiry-Keeps named clock) λ kept.
        >>=-Keeps R order _ _
          (annotate-Keeps R order "failed to marshal alert" _
            (from-Keeps R order (db.marshal_alert kept)))
          λ item. annotate-Keeps R order "failed to store alert in dynamodb" _ (put item)

  pub get_alerts_by_device-Keeps :
      (device_id : String) (limit : ℤ)
      → ((input : QueryInput Raw) → Keeps R (db.query input))
      → Keeps R (get_alerts_by_device host db store device_id limit)
  unfolding get_alerts_by_device
  get_alerts_by_device-Keeps device_id limit query = search (keeps, query)

  pub get_all_alerts-Keeps :
      (since : ℤ)
      → ((input : ScanInput Item Raw) → Keeps R (db.scan input))
      → Keeps R (get_all_alerts host db store since)
  unfolding get_all_alerts
  get_all_alerts-Keeps since scan = search (keeps, scan)
