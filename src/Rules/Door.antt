-- ===== src/Rules/Door.antt =====
-- backend/internal/rules/door_rules.go. The alerts of a round are goroutines; `schedule` is the order
-- in which they happen to run, each as a whole; in `Threads` their steps are interleaved.
pub mod Windows
pub mod Threads
pub mod Keeps
use Prim.Native.String
use io_t_fleet_management.Prelude.{
  [], ◌∷◌, some, none, true, false, ◌==◌, ◌||◌, ◌&&◌, if◌then◌else◌, Bool, ℕ, List, Option, not,
}
use io_t_fleet_management.Go.Outcome.{◌>>=◌, ◌>>◌, ok, err, Action, pure, attempt}
use io_t_fleet_management.Go.Value.{str, entry, empty, Payload, get, as_bool, as_string, as_float}
use io_t_fleet_management.Go.Float.{Float64}
use Prim.Native.String.{String}
use io_t_fleet_management.Cloud.{Host, Dynamo, reads}
use io_t_fleet_management.Prelude.Int.{ℤ, pos, sub64, eq_ℤ}
use io_t_fleet_management.Go.Text.{lower_eq}
use io_t_fleet_management.Models.{DeviceState, Alert}
use io_t_fleet_management.Rules.{AlertEngine}
use io_t_fleet_management.Devices.Store.{get_all_states}
use io_t_fleet_management.Alerts.{save_alert}
use io_t_fleet_management.Notifications.{send_push_notification}

-- What `triggerDoorAlert` is called with.
pub record DoorAlert : Type 0 where
  pub device_id : String
  pub device_type : String
  pub severity : String
  pub description : String

abbrev pub door_warning : String × String
door_warning = ("WARNING", "Warning: The door was left open.")

abbrev pub door_critical : String × String
door_critical = ("CRITICAL", "Critical: The door has been open for 15 minutes. Please secure it.")

abbrev pub is_door : String → Bool
is_door type = type == "door-sensor" || type == "door-actuator"

-- Severity and description, where the later window overwrites the earlier one.
abbrev pub alarm_of : (warning critical : Bool) → Option (String × String)
alarm_of warning critical =
    if critical then some door_critical else if warning then some door_warning else none

module _ {F : Type 0} ⦃d : Float64 F⦄ where
  unfoldable pub is_open : Payload F → Bool
  is_open payload = elim (as_bool (get "open" payload)) [
    | some open_bool ↦ open_bool
    | none ↦ elim (as_string (get "open" payload)) [
      | some open_str ↦ lower_eq open_str "true" || lower_eq open_str "open"
      | none ↦ false
    ]
  ]

  unfoldable pub start_timestamp : Payload F → ℤ
  start_timestamp payload = elim (as_float (get "last_unlock" payload)) [
    | some last_unlock ↦ d.to_int last_unlock
    | none ↦ elim (as_float (get "last_change" payload)) [
      | some last_change ↦ d.to_int last_change
      | none ↦ pos 0
    ]
  ]

  abbrev pub minutes_unlocked : ℤ → ℤ → F
  minutes_unlocked now start = d.div (d.of_int (sub64 now start)) (d.of_int (pos 60))

  -- From `first` minutes on and before `last`.
  abbrev pub in_window : (first last : ℕ) → F → Bool
  in_window first last minutes =
      d.le (d.of_int (pos first)) minutes && d.lt minutes (d.of_int (pos last))

  -- The alarm of a door for its payload, if it has one.
  unfoldable pub door_alarm : ℤ → Payload F → Option (String × String)
  door_alarm now payload =
      let start = start_timestamp payload in
      let minutes = minutes_unlocked now start in
      if is_open payload && not (eq_ℤ start (pos 0))
      then alarm_of (in_window 7 8 minutes) (in_window 15 16 minutes)
      else none

  -- The loop over the states.
  unfoldable pub door_alerts : ℤ → List (DeviceState F) → List DoorAlert
  door_alerts now [] = []
  door_alerts now (state ∷ states) =
      let rest = door_alerts now states in
      if is_door state.type
      then elim (door_alarm now state.payload) [
        | none ↦ rest
        | some (severity, description) ↦
            record {
              device_id = state.device_id;
              device_type = state.type;
              severity = severity;
              description = description;
            }
            ∷ rest
      ]
      else rest

module _ {F W Item Raw : Type 0} ⦃d : Float64 F⦄ (host : Host W) (db : Dynamo F W Item Raw)
    (engine : AlertEngine W) where
  abbrev pub door_alert : ℤ → DoorAlert → Alert F
  door_alert now a = record {
    alert_id = "";
    device_id = a.device_id;
    timestamp = now;
    type = a.device_type;
    severity = a.severity;
    payload = entry "description" (str a.description) empty;
    expires_at = pos 0;
  }

  unfoldable pub trigger_door_alert : DoorAlert → Action W (Unit {0})
  trigger_door_alert a = do
    now ← reads host.clock
    saved ← attempt (save_alert host db engine.alert_store (door_alert now a))
    elim saved [
      | err _ ↦ pure tt
      | ok _ ↦ send_push_notification engine.notifier a.device_id a.severity a.description
    ]

  unfoldable pub trigger_all : List DoorAlert → Action W (Unit {0})
  trigger_all [] = pure tt
  trigger_all (a ∷ alerts) = do trigger_door_alert a; trigger_all alerts

  -- `none` means that the fuel of the scan ran out; an error of the scan is only logged.
  unfoldable pub check_door_timeouts :
      (List DoorAlert → List DoorAlert) → (fuel : ℕ) → Action W (Option (Unit {0}))
  check_door_timeouts schedule fuel = do
    fetched ← attempt (get_all_states host db engine.state_store fuel)
    elim fetched [
      | err _ ↦ pure (some tt)
      | ok none ↦ pure none
      | ok (some states) ↦ do
        now ← reads host.clock
        trigger_all (schedule (door_alerts now states))
        pure (some tt)
    ]
