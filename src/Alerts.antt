-- ===== src/Alerts.antt =====
-- backend/internal/alerts/store_alerts.go.
pub mod Keeps
use Prim.Native.String
use io_t_fleet_management.Prelude.{[], ◌∷◌, ◌==◌, some, none, false, Bool, List, if◌then◌else◌, not}
use io_t_fleet_management.Go.Outcome.{
  ◌>>=◌, Result, Action, err, ok, annotate, bind, plain, from, pure,
}
use Prim.Native.String.{String}
use io_t_fleet_management.Cloud.{Host, Dynamo, reads, number, text, days_from}
use io_t_fleet_management.Prelude.Int.{ℤ, pos, leb_ℤ, eq_ℤ}
use io_t_fleet_management.Models.{Alert}
use io_t_fleet_management.Go.Text.Decimal.{decimal_ℤ}

pub record AlertStore : Type 0 where
  pub table_name : String

-- `ready` tells whether `db.Client` is set; `getenv` is the environment.
unfoldable pub new_alert_store : (String → String) → Bool → Result AlertStore
new_alert_store getenv ready =
    let table_name = getenv "DYNAMODB_ALERTS_TABLE" in
    if table_name == ""
    then err (plain "DYNAMODB_ALERTS_TABLE environment variable is not set")
    else if not ready
    then err (plain "dynamodb client is not initialized")
    else ok (record { table_name = table_name })

abbrev default_limit : ℤ
default_limit = pos 20

-- `limit <= 0` stands for the default.
abbrev effective_limit : ℤ → ℤ
effective_limit limit = if leb_ℤ limit (pos 0) then default_limit else limit

-- `attributevalue.UnmarshalListOfMaps`, which stops at the first item that does not decode.
unfoldable pub unmarshal_all {ℓ} :
    {I : Type 0} {A : Type ℓ} → (I → Result A) → List I → Result (List A)
unmarshal_all f [] = ok []
unmarshal_all f (item ∷ items) =
    let rest = unmarshal_all f items in bind (f item) λ a. bind rest λ others. ok (a ∷ others)

module _ {F W Item Raw : Type 0} (host : Host W) (db : Dynamo F W Item Raw)
    (store : AlertStore) where
  -- The identifier and the expiry are filled in where they are missing.
  abbrev with_alert_id : Alert F → Action W (Alert F)
  with_alert_id alert =
      if alert.alert_id == ""
      then (do id ← reads host.uuid; pure (record alert { alert_id = id }))
      else pure alert

  abbrev with_expiry : Alert F → Action W (Alert F)
  with_expiry alert =
      if eq_ℤ alert.expires_at (pos 0)
      then (do now ← reads host.clock; pure (record alert { expires_at = days_from now 30 }))
      else pure alert

  unfoldable pub save_alert : Alert F → Action W (Unit {0})
  save_alert alert = do
    named ← with_alert_id alert
    kept ← with_expiry named
    item ← annotate "failed to marshal alert" (from (db.marshal_alert kept))
    annotate "failed to store alert in dynamodb" (db.put_item store.table_name item)

  unfoldable pub get_alerts_by_severity : String → ℤ → Action W (List (Alert F))
  get_alerts_by_severity severity limit = do
    items ← annotate "failed to query alerts by severity" (
        db.query (record {
          table_name = store.table_name;
          index_name = some "SeverityIndex";
          key_condition = "severity = :severity";
          names = [];
          values = (":severity", text severity) ∷ [];
          scan_index_forward = false;
          limit = some (effective_limit limit);
        }))
    annotate "failed to unmarshal alerts" (from (unmarshal_all db.unmarshal_alert items))

  unfoldable pub get_alerts_by_device : String → ℤ → Action W (List (Alert F))
  get_alerts_by_device device_id limit = do
    items ← annotate (String.◌++◌ "failed to query alerts for device " device_id) (
        db.query (record {
          table_name = store.table_name;
          index_name = none;
          key_condition = "device_id = :id";
          names = [];
          values = (":id", text device_id) ∷ [];
          scan_index_forward = false;
          limit = some (effective_limit limit);
        }))
    annotate (String.◌++◌ "failed to unmarshal alerts for device " device_id)
        (from (unmarshal_all db.unmarshal_alert items))

  unfoldable pub get_all_alerts : ℤ → Action W (List (Alert F))
  get_all_alerts since = do
    page ← annotate "failed to scan all alerts" (
        db.scan (record {
          table_name = store.table_name;
          filter_expression = some "#ts >= :since";
          names = ("#ts", "timestamp") ∷ [];
          values = (":since", number (decimal_ℤ since)) ∷ [];
          exclusive_start_key = none;
        }))
    annotate "failed to unmarshal alerts" (from (unmarshal_all db.unmarshal_alert page.items))
