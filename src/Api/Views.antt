-- ===== src/Api/Views.antt =====
-- device_handler.go: what the handlers add to the payload of a state.

pub mod Door
use io_t_fleet_management.Prelude.{[], ◌∷◌, some, none, ◌==◌, ◌&&◌, if◌then◌else◌, List, Option}
use io_t_fleet_management.Go.Value.{
  str, float, maps, no_maps, one_more, Payload, get, put, as_string, as_float, Maps, or_empty,
}
use io_t_fleet_management.Prelude.Int.{pos, ℤ, eq_ℤ, ltb_ℤ, sub64}
use io_t_fleet_management.Go.Outcome.{ok, err, attempt, pure, ◌>>=◌, Result}
use Prim.Native.String.{String}
use io_t_fleet_management.Go.Float.{Float64}
use io_t_fleet_management.Cloud.{Host, Dynamo}
use io_t_fleet_management.Models.{Telemetry, DeviceState}
use io_t_fleet_management.Telemetry.Periods.{Zone, time_ago, format_ac_time}
use io_t_fleet_management.Telemetry.Sessions.{calculate_avg_unlock}
use io_t_fleet_management.Api.{DeviceHandler, Action}
use io_t_fleet_management.Telemetry.Events.{format_door_events}
use io_t_fleet_management.Devices.Store.{get_state_by_id}

-- `[]map[string]interface{}`.
abbrev pub maps_of : {F : Type 0} → List (Payload F) → Maps F
maps_of [] = no_maps
maps_of (m ∷ ms) = one_more m (maps_of ms)

module _ {F : Type 0} where
  unfoldable pub add_light_status : Payload F → String → Payload F
  add_light_status payload operational_state =
      if operational_state == "BRIGHT"
      then put "light_status" (str "Bright") payload
      else if operational_state == "DARK"
      then put "light_status" (str "Dark") payload
      else if operational_state == "NORMAL"
      then put "light_status" (str "Normal") payload
      else payload

module _ {F : Type 0} ⦃d : Float64 F⦄ where
  -- The alert for a door that has been unlocked for some minutes.
  unfoldable pub alert_status : F → String
  alert_status minutes =
      if d.lt (d.of_int (pos 15)) minutes
      then "CRITICAL_ALERT"
      else if d.lt (d.of_int (pos 7)) minutes && d.le minutes (d.of_int (pos 15))
      then "WARNING"
      else "SAFE"

  -- The alert for the payload of a door whose newest reading has that time.
  unfoldable pub security_alert : Payload F → ℤ → ℤ → String
  security_alert payload newest now =
      if or_empty (as_string (get "lock_state" payload)) == "UNLOCKED"
      then alert_status (d.div (d.of_int (sub64 now newest)) (d.of_int (pos 60)))
      else "SAFE"

  unfoldable pub show_door_stats : Zone → Payload F → List (Telemetry F) → ℤ → Payload F
  show_door_stats zone payload [] now =
      put "security_alert" (str "SAFE")
        (put "last_activity_time" (str "No activity") (put "recent_events" (maps no_maps) payload))
  show_door_stats zone payload (newest ∷ others) now =
      let shown = put "last_activity_time" (str (time_ago newest.timestamp now)) (
        put "recent_events" (maps (maps_of (format_door_events zone (newest ∷ others)))) payload) in
      put "security_alert" (str (security_alert shown newest.timestamp now)) shown

  abbrev pub normal_duration : Payload F → F
  normal_duration payload = elim (as_float (get "normal_unlock_duration" payload)) [
    | some user_pref ↦ user_pref
    | none ↦ d.of_int (pos 15)
  ]

  -- `state.Payload` is the same map as `payload`.
  unfoldable pub add_door_insights : Payload F → List (Telemetry F) → ℤ → Payload F
  add_door_insights payload history now =
      let avg_unlock = calculate_avg_unlock history now in
      let shown = put "average_unlock" (float avg_unlock) payload in
      put "unlock_duration_status"
        (str (if d.lt (normal_duration shown) avg_unlock then "Above Normal" else "Normal")) shown

  -- The remaining time of a timer.
  unfoldable pub time_remaining : Option F → ℤ → String
  time_remaining none now = "No active timer"
  time_remaining (some end) now =
      let timer_end = d.to_int end in
      if eq_ℤ timer_end (pos 0)
      then "No active timer"
      else if ltb_ℤ now timer_end
      then format_ac_time (sub64 timer_end now)
      else "Ended"

  unfoldable pub running_time : Payload F → ℤ → String
  running_time payload now =
      if or_empty (as_string (get "power_state" payload)) == "ON"
      then elim (as_float (get "last_turned_on" payload)) [
        | some last_on ↦ format_ac_time (sub64 now (d.to_int last_on))
        | none ↦ "Unknown"
      ]
      else "Off"

  -- The temperature inside; a failed read and a missing value leave 0.
  abbrev pub inside_temp : Result (Option (DeviceState F)) → F
  inside_temp (err _) = d.of_int (pos 0)
  inside_temp (ok none) = d.of_int (pos 0)
  inside_temp (ok (some state)) = elim (as_float (get "temp" state.payload)) [
    | some val ↦ val
    | none ↦ d.of_int (pos 0)
  ]

  -- The entries of `showACStats`, in its order.
  unfoldable pub add_ac_stats : Payload F → F → ℤ → Payload F
  add_ac_stats payload inside now =
      let outside =
        put "outside_temp" (float (d.of_int (pos 36))) (put "inside_temp" (float inside) payload) in
      let timed =
        put "time_remaining"
          (str (time_remaining (as_float (get "timer_end_timestamp" outside)) now)) outside in
      put "running_time" (str (running_time timed now)) timed

module _ {F W Item Raw : Type 0} ⦃d : Float64 F⦄ (host : Host W) (db : Dynamo F W Item Raw)
    (handler : DeviceHandler F W) where
  unfoldable pub show_ac_stats : Payload F → ℤ → Action W (Payload F)
  show_ac_stats payload now = do
    temp_state ← attempt (get_state_by_id host db handler.state_store "temp-sensor-01")
    pure (add_ac_stats payload (inside_temp temp_state) now)
