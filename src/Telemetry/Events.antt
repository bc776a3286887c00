-- ===== src/Telemetry/Events.antt =====
-- analytics.go: the lists of recent events that the app shows. `clock` is the format of a time.
pub mod Gas
use Prim.Native.String
use io_t_fleet_management.Prelude.{
  [], ◌∷◌, ◌==◌, some, none, true, false, ◌+◌, ◌&&◌, ◌++◌, List, Bool, if◌then◌else◌, nat_eq, not,
  length,
}
use io_t_fleet_management.Go.Value.{
  entry, empty, str, int64, float, Payload, as_float, as_string, get, or_empty, as_int, or_false,
  as_bool,
}
use io_t_fleet_management.Go.Float.{Float64}
use io_t_fleet_management.Telemetry.Periods.{Zone, time_ago}
use Prim.Native.String.{String}
use io_t_fleet_management.Prelude.Int.{ℤ}
use io_t_fleet_management.Models.{Telemetry}
use io_t_fleet_management.Go.Text.Decimal.{decimal_ℤ}

-- A formatted event, `map[string]interface{}`.
abbrev event_of : {F : Type 0} → Zone → String → ℤ → Payload F
event_of zone label timestamp = entry "event" (str label) (
    entry "time" (str (zone.format "3:04 PM" timestamp))
      (entry "timestamp" (int64 timestamp) empty))

module _ {F : Type 0} where
  unfoldable pub format_door_events : Zone → List (Telemetry F) → List (Payload F)
  format_door_events zone [] = []
  format_door_events zone (t ∷ history) =
      let rest = format_door_events zone history in
      elim (as_string (get "lock_state" t.payload)) [
        | none ↦ rest
        | some state ↦
            event_of zone (if state == "UNLOCKED" then "Door unlocked" else "Door locked")
              t.timestamp
            ∷ rest
      ]

  unfoldable pub format_ac_events : Zone → List (Telemetry F) → List (Payload F)
  format_ac_events zone [] = []
  format_ac_events zone (t ∷ history) =
      let rest = format_ac_events zone history in
      elim (as_string (get "power_state" t.payload)) [
        | none ↦ rest
        | some state ↦ event_of zone (String.◌++◌ "A/C turned " state) t.timestamp ∷ rest
      ]

module _ {F : Type 0} ⦃d : Float64 F⦄ where
  -- A normal reading: the status is SAFE and the alarm is off.
  abbrev pub is_normal : Payload F → Bool
  is_normal payload =
      or_empty (as_string (get "status" payload)) == "SAFE"
      && not (or_false (as_bool (get "alarm_on" payload)))

  abbrev level_text : Payload F → String
  level_text payload = elim (as_float (get "gas_level" payload)) [
    | some val ↦ String.◌++◌ (d.format0 val) " PPM"
    | none ↦ elim (as_int (get "gas_level" payload)) [
      | some int_val ↦ String.◌++◌ (decimal_ℤ int_val) " PPM"
      | none ↦ ""
    ]
  ]

  abbrev pub gas_event : ℤ → Telemetry F → Payload F
  gas_event now t =
      let status = or_empty (as_string (get "status" t.payload)) in
      entry "description"
        (str (if status == "WARNING" then "Gas spike detected" else "Gas level Exceed safe limit"))
        (entry "gas_level" (str (level_text t.payload)) (
          entry "time" (str (time_ago t.timestamp now))
            (entry "timestamp" (int64 t.timestamp) empty)))

  -- The loop over the history, which ends when five events are formatted.
  unfoldable pub gas_events_from : ℤ → List (Telemetry F) → List (Payload F) → List (Payload F)
  gas_events_from now [] formatted = formatted
  gas_events_from now (t ∷ history) formatted =
      let rest =
        gas_events_from now history
          (if is_normal t.payload then formatted else formatted ++ (gas_event now t ∷ [])) in
      if nat_eq (length formatted) 5 then formatted else rest

  unfoldable pub get_gas_events : ℤ → List (Telemetry F) → List (Payload F)
  get_gas_events now history = gas_events_from now history []
