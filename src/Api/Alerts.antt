-- ===== src/Api/Alerts.antt =====
-- device_handler.go: `GetSortedAlerts` and `GetDeviceAlerts`. `sort_slice` is `sort.Slice`, which is
-- given the order on the elements.
pub mod Newest
use io_t_fleet_management.Prelude.{none, some, [], ◌∷◌, List, Bool}
use io_t_fleet_management.Prelude.Int.{pos, ltb_ℤ, sub64}
use io_t_fleet_management.Go.Outcome.{ok, err, attempt, pure, ◌>>=◌}
use io_t_fleet_management.Api.{
  json, error_json, alerts, Alert, Clock, DeviceHandler, Action, String, Answer, some,
}
use io_t_fleet_management.Api.Devices.{with_device}
use io_t_fleet_management.Go.Float.{Float64}
use io_t_fleet_management.Cloud.{Host, Dynamo, reads}
use io_t_fleet_management.Telemetry.Periods.{Zone}
use io_t_fleet_management.Alerts.{get_alerts_by_device, get_all_alerts}
use io_t_fleet_management.Devices.Store.{get_state_by_id}

abbrev pub newer_first : {F : Type 0} → Alert F → Alert F → Bool
newer_first a b = ltb_ℤ b.timestamp a.timestamp

module _ {F W Item Raw : Type 0} ⦃d : Float64 F⦄ (host : Host W) (clock : Clock W) (zone : Zone)
    (db : Dynamo F W Item Raw) (handler : DeviceHandler F W) where
  unfoldable pub get_sorted_alerts :
      ((Alert F → Alert F → Bool) → List (Alert F) → List (Alert F)) → Action W (Answer F)
  get_sorted_alerts sort_slice = do
    now ← reads host.clock
    fetched ← attempt (get_all_alerts host db handler.alert_store (sub64 now (pos 604800)))
    elim fetched [
      | err _ ↦ pure (error_json 500 "Failed to fetch global alerts")
      | ok alert_list ↦ pure (json 200 (("data", alerts (sort_slice newer_first alert_list)) ∷ []))
    ]

  unfoldable pub get_device_alerts : String → Action W (Answer F)
  get_device_alerts device_id = do
    found ← attempt (get_state_by_id host db handler.state_store device_id)
    elim found [
      | err _ ↦ pure (error_json 500 "Internal server error")
      | ok none ↦ pure (error_json 404 "Device not found")
      | ok (some state) ↦ do
        fetched ← attempt (get_alerts_by_device host db handler.alert_store device_id (pos 0))
        elim fetched [
          | err _ ↦ pure (error_json 500 "Failed to fetch alerts")
          | ok alert_list ↦ pure (json 200 (("data", alerts alert_list) ∷ []))
        ]
    ]
