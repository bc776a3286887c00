-- ===== src/Rules/Door/Threads/Once.antt =====
-- door_rules.go: a round of `CheckDoorTimeouts` over the states, and how often a door is heard of.
use io_t_fleet_management.Prelude.{
  [], ◌∷◌, ◌+◌, ◌≤◌, ◌≡◌, ◌==◌, some, List, String, Bool, All, arith, inl, inr, Bool-cases,
  Option-cases,
}
use io_t_fleet_management.Prelude.Int.{ℤ}
use io_t_fleet_management.Go.Float.{Float64}
use io_t_fleet_management.Cloud.{Host, Dynamo, Messaging}
use io_t_fleet_management.Models.{DeviceState}
use io_t_fleet_management.Rules.{AlertEngine}
use io_t_fleet_management.Rules.Door.{door_alerts, door_alarm, is_door}
use io_t_fleet_management.Rules.Door.Threads.{Goroutine, IsDone, Steps}
use io_t_fleet_management.Rules.Door.Threads.Records.{
  Notice, RecordsRound, count, each, handed_by, refused_by, notice_of,
}
use io_t_fleet_management.Rules.Door.Threads.Exactly.{Steps-exactly}

-- Whether a notice is about a device.
abbrev pub is_about : String → Notice → Bool
is_about id n = n.0 == id

-- The states of a device.
abbrev pub is_of : {F : Type 0} → String → DeviceState F → Bool
is_of id state = state.device_id == id

module _ {F : Type 0} ⦃d : Float64 F⦄ where
  alerts_of_device :
      (id : String) (now : ℤ) (states : List (DeviceState F))
      → count (λ a. is_about id (notice_of a)) (door_alerts now states) ≤ count (is_of id) states
  unfolding door_alerts
  alerts_of_device id now [] = omega arith
  alerts_of_device id now (state ∷ states) =
      let others = alerts_of_device id now states in
      elim (Bool-cases (is_door state.type)) [
        | inr other ↦ rw other (omega (arith, others))
        | inl door ↦ elim (Option-cases (door_alarm now state.payload)) [
          | inl e ↦ rw (door, e) (omega (arith, others))
          | inr (alarm, e) ↦ rw (door, e) (omega (arith, others))
        ]
      ]

module _ {F W Item Raw : Type 0} ⦃d : Float64 F⦄ (host : Host W) (db : Dynamo F W Item Raw)
    (engine : AlertEngine W) (client : Messaging W) (notice : Item → Notice)
    (confirmed handed : W → List Notice)
    (records : RecordsRound host db engine client notice confirmed handed)
    (notified : engine.notifier ≡ some client) where
  -- With a notifier, and logs of calls that obey `RecordsRound`: however the goroutines for the alerts
  -- of some states are interleaved with each other and with the loop that starts them, when all are
  -- done the alerts that pass a test have been confirmed by the database as often as they have been
  -- handed to the messaging, delivered or not, by the goroutines that have finished; storing the others
  -- has ended in an error, and each alert is one or the other. Of a device no more messages have been
  -- handed over than it has states.
  pub door_alerts-exactly :
      (p : Notice → Bool) (now : ℤ) (states : List (DeviceState F)) (goroutines : List Goroutine)
      (w w' : W)
      → Steps host db engine
          (record { waiting = door_alerts now states; goroutines = []; world = w })
          (record { waiting = []; goroutines = goroutines; world = w' })
      → All IsDone goroutines
      → (count p (confirmed w')
          ≡ count p (confirmed w) + count (λ a. p (notice_of a)) (each handed_by goroutines))
        × (count p (handed w')
            ≡ count p (handed w) + count (λ a. p (notice_of a)) (each handed_by goroutines))
        × (count (λ a. p (notice_of a)) (door_alerts now states)
            ≡ count (λ a. p (notice_of a)) (each handed_by goroutines)
              + count (λ a. p (notice_of a)) (each refused_by goroutines))
        × ((id : String)
            → count (is_about id) (handed w')
              ≤ count (is_about id) (handed w) + count (is_of id) states)
  door_alerts-exactly p now states goroutines w w' steps done =
      let (stores, sends, all) =
        Steps-exactly host db engine client notice confirmed handed records notified p
          (door_alerts now states) goroutines w w' steps done in
      (
        stores,
        sends,
        all,
        λ id.
            let r =
              Steps-exactly host db engine client notice confirmed handed records notified
                (is_about id) (door_alerts now states) goroutines w w' steps done in
            omega (arith, r.1, r.2, alerts_of_device id now states),
      )
