-- ===== src/Api/Contract/Replies.antt =====
-- device_handler.go: the answer of each handler, over calls of the SDKs that return or fail.
use io_t_fleet_management.Prelude.{
  [], ◌∷◌, some, none, refl, String, List, ℕ, Bool, inl, inr, ◌++◌, length,
}
use io_t_fleet_management.Prelude.Int.{ℤ, pos, sub64}
use io_t_fleet_management.Go.Outcome.{ok, err, Action, Result, ◌>>=◌, pure}
use io_t_fleet_management.Go.Float.{Float64}
use io_t_fleet_management.Go.Ends.{Ends, >>=-Ends, pure-Ends, reads-Ends, attempt-Ends}
use io_t_fleet_management.Cloud.{Host, Dynamo}
use io_t_fleet_management.Models.{DeviceState, Alert}
use io_t_fleet_management.Api.{
  Clock, DeviceHandler, Answer, json, error_json, states, alerts, default_query, Option,
}
use io_t_fleet_management.Api.Contract.{
  Fits, unlisted, unsurveyed, shown_device, success, failure, IsErrorStatus,
}
use io_t_fleet_management.Api.Contract.Calls.{
  CallsCalm, history_of-Ends, get_state_by_id-Calm, states-Ends, get_all_alerts-Calm,
  get_alerts_by_device-Calm,
}
use io_t_fleet_management.Api.Contract.Views.{
  with_statuses-Ends, count_online-Ends, show_payload-Ends,
}
use io_t_fleet_management.Telemetry.Charts.{Table, get_alerts}
use io_t_fleet_management.Api.Routes.{
  Endpoint, devices, sorted_alerts, device_by_id, device_alerts, system_overview,
}
use io_t_fleet_management.Telemetry.Periods.{Zone, period_cutoff}
use io_t_fleet_management.Api.Alerts.{get_device_alerts, get_sorted_alerts, newer_first}
use io_t_fleet_management.Api.Devices.{
  get_device_by_id, get_devices, with_device, show_device, with_light, with_statuses, with_status,
  or_nil,
}
use io_t_fleet_management.Api.Overview.{
  get_system_overview, show_overview, status_fields, alerts_fields, energy_fields,
}
use io_t_fleet_management.Telemetry.Sessions.{calculate_ac_usage}

module _ {F W Item Raw : Type 0} ⦃d : Float64 F⦄ (host : Host W) (clock : Clock W) (zone : Zone)
    (db : Dynamo F W Item Raw) (handler : DeviceHandler F W) (calls : CallsCalm db handler) where
  pub get_devices-Ends :
      (fuel : ℕ) → Ends (Fits devices) (get_devices host clock zone db handler fuel)
  unfolding get_devices
  get_devices-Ends fuel =
      >>=-Ends _ _ (states-Ends host clock zone db handler calls fuel) (λ r _. go r)
    where
      go :
          (fetched : Result (Option (List (DeviceState F))))
          → Ends {W = W} (Fits {F = F} devices) (elim fetched as (λ _. Action W (Answer F)) [
            | err _ ↦ pure (error_json 500 "Failed to fetch device states")
            | ok none ↦ pure none
            | ok (some found) ↦ do
              shown ← with_statuses host clock zone db handler found
              pure (json 200 (("data", states shown) ∷ []))
          ])
      go (err e) = pure-Ends _ (failure devices 500 "Failed to fetch device states" refl)
      go (ok none) = pure-Ends _ unlisted
      go (ok (some found)) =
          >>=-Ends _ _ (with_statuses-Ends host clock zone db handler calls found)
            λ shown _. pure-Ends _ (success devices (("data", states shown) ∷ []) refl)

  pub get_sorted_alerts-Ends :
      (sort_slice : (Alert F → Alert F → Bool) → List (Alert F) → List (Alert F))
      → Ends (Fits sorted_alerts) (get_sorted_alerts host clock zone db handler sort_slice)
  unfolding get_sorted_alerts
  get_sorted_alerts-Ends sort_slice = >>=-Ends _ _ (reads-Ends host.clock) λ now _.
      >>=-Ends _ _
        (attempt-Ends _
          (get_all_alerts-Calm host clock zone db handler calls (sub64 now (pos 604800))))
        (λ r _. go r)
    where
      go :
          (fetched : Result (List (Alert F)))
          → Ends {W = W} (Fits {F = F} sorted_alerts) (elim fetched as (λ _. Action W (Answer F)) [
            | err _ ↦ pure (error_json 500 "Failed to fetch global alerts")
            | ok alert_list ↦
                pure (json 200 (("data", alerts (sort_slice newer_first alert_list)) ∷ []))
          ])
      go (err e) = pure-Ends _ (failure sorted_alerts 500 "Failed to fetch global alerts" refl)
      go (ok found) =
          pure-Ends _
            (success sorted_alerts (("data", alerts (sort_slice newer_first found)) ∷ []) refl)

  pub with_device-Ends :
      (endpoint : Endpoint) (device_id : String) (continue : DeviceState F → Action W (Answer F))
      → IsErrorStatus endpoint 404
      → IsErrorStatus endpoint 500
      → ((state : DeviceState F) → Ends (Fits endpoint) (continue state))
      → Ends (Fits endpoint) (with_device host clock zone db handler device_id continue)
  unfolding with_device
  with_device-Ends endpoint device_id continue missing broken k =
      >>=-Ends _ _
        (attempt-Ends _ (get_state_by_id-Calm host clock zone db handler calls device_id))
        (λ r _. go r)
    where
      go :
          (found : Result (Option (DeviceState F)))
          → Ends {W = W} (Fits {F = F} endpoint) (elim found as (λ _. Action W (Answer F)) [
            | err _ ↦ pure (error_json 500 "Internal server error")
            | ok none ↦ pure (error_json 404 "Device not found")
            | ok (some state) ↦ continue state
          ])
      go (err e) = pure-Ends _ (failure endpoint 500 "Internal server error" broken)
      go (ok none) = pure-Ends _ (failure endpoint 404 "Device not found" missing)
      go (ok (some state)) = k state

  pub get_device_by_id-Ends :
      (device_id : String)
      → Ends (Fits device_by_id) (get_device_by_id host clock zone db handler device_id)
  unfolding get_device_by_id show_device with_device
  get_device_by_id-Ends device_id =
      with_device-Ends device_by_id device_id _ (inl refl) (inr refl) λ state.
        >>=-Ends _ _ (reads-Ends clock.nanoseconds) λ now_ns _.
          let lit : DeviceState F = with_light (with_status now_ns state) in
          >>=-Ends _ _
            (show_payload-Ends host clock zone db handler calls device_id lit.type lit.payload)
            λ payload _. pure-Ends _ (shown_device (record lit { payload = payload }))

  pub get_device_alerts-Ends :
      (device_id : String)
      → Ends (Fits device_alerts) (get_device_alerts host clock zone db handler device_id)
  unfolding get_device_alerts with_device
  get_device_alerts-Ends device_id =
      with_device-Ends device_alerts device_id _ (inl refl) (inr refl) λ state.
        >>=-Ends _ _
          (attempt-Ends _
            (get_alerts_by_device-Calm host clock zone db handler calls device_id (pos 0)))
          (λ r _. go r)
    where
      go :
          (fetched : Result (List (Alert F)))
          → Ends {W = W} (Fits {F = F} device_alerts) (elim fetched as (λ _. Action W (Answer F)) [
            | err _ ↦ pure (error_json 500 "Failed to fetch alerts")
            | ok alert_list ↦ pure (json 200 (("data", alerts alert_list) ∷ []))
          ])
      go (err e) = pure-Ends _ (failure device_alerts 500 "Failed to fetch alerts" (inr refl))
      go (ok found) = pure-Ends _ (success device_alerts (("data", alerts found) ∷ []) refl)

  pub get_system_overview-Ends :
      (visit : Table F → Table F) (fuel : ℕ) (query : String → Option String)
      → Ends
          (Fits system_overview)
          (get_system_overview host clock visit zone db handler fuel query)
  unfolding get_system_overview show_overview
  get_system_overview-Ends visit fuel query =
      >>=-Ends _ _ (reads-Ends host.clock)
        λ now _. >>=-Ends _ _ (states-Ends host clock zone db handler calls fuel) (λ r _. go now r)
    where
      go :
          (now : ℤ) (fetched : Result (Option (List (DeviceState F))))
          → Ends {W = W}
              (Fits {F = F} system_overview)
              (elim fetched as (λ _. Action W (Answer F)) [
                | err _ ↦ pure (error_json 500 "Failed to fetch device states")
                | ok none ↦ pure none
                | ok (some found) ↦
                    show_overview host clock visit zone db handler
                      (default_query query "period" "7d")
                      now
                      found
              ])
      go now (err e) =
          pure-Ends _ (failure system_overview 500 "Failed to fetch device states" refl)
      go now (ok none) = pure-Ends _ unsurveyed
      go now (ok (some found)) =
          let time_filter : String = default_query query "period" "7d" in
          >>=-Ends _ _ (count_online-Ends host clock zone db handler calls visit found 0)
            λ online_count _.
              >>=-Ends _ _
                (attempt-Ends _ (
                  get_all_alerts-Calm host clock zone db handler calls
                    (period_cutoff now time_filter)))
                λ alerts_list _.
                  >>=-Ends _ _
                    (history_of-Ends host clock zone db handler calls "ac-01" (pos 0)
                      (period_cutoff now time_filter))
                    λ ac_data _. pure-Ends _ (
                      success system_overview
                        (status_fields online_count (length found)
                          ++ (alerts_fields (get_alerts visit zone (or_nil alerts_list) time_filter)
                              ++ energy_fields
                                  (calculate_ac_usage visit zone (or_nil ac_data) now time_filter)))
                        refl)
