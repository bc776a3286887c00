-- ===== src/Rules/Door/Threads.antt =====
-- door_rules.go: the goroutines of one round of `CheckDoorTimeouts`, interleaved. Each call of the
-- SDKs and of the clock in `triggerDoorAlert` is one step; between two steps of a goroutine the
-- others, and the loop that starts them, may take any number.
pub mod Records
pub mod Exactly
pub mod Alone
pub mod Once
use io_t_fleet_management.Prelude.{[], ◌∷◌, ◌++◌, List, String, Option, none, some, ◌≡◌, ◌⊎◌, map}
use io_t_fleet_management.Prelude.Int.{ℤ}
use io_t_fleet_management.Go.Outcome.{ok, err, Outcome, returned, failed, panicked}
use io_t_fleet_management.Cloud.{Host, Dynamo, days_from}
use io_t_fleet_management.Models.{Alert}
use io_t_fleet_management.Rules.{AlertEngine}
use io_t_fleet_management.Rules.Door.{DoorAlert, door_alert}
use io_t_fleet_management.Go.Float.{Float64}

-- How far a goroutine has come: the clock is read, the identifier is drawn, the expiry is set, the
-- alert is stored and then sent. `crashed` is a panic, which ends the program.
pub data Stage : Type 0 where
  called : Stage
  stamped : (now : ℤ) → Stage
  named : (now : ℤ) (id : String) → Stage
  dated : (now : ℤ) (id : String) (expires_at : ℤ) → Stage
  pushing finished refused crashed : Stage

abbrev pub Goroutine : Type 0
Goroutine = DoorAlert × Stage

abbrev pub after_store : Outcome (Unit {0}) → Stage
after_store (returned _) = pushing
after_store (failed _) = refused
after_store panicked = crashed

abbrev pub after_send : Outcome String → Stage
after_send (returned _) = finished
after_send (failed _) = finished
after_send panicked = crashed

-- `wg.Done` has been called.
abbrev pub IsDone : Goroutine → Type 0
IsDone (a, finished) = Unit {0}
IsDone (a, refused) = Unit {0}
IsDone _ = ⊥

-- The alerts that the loop has not started yet, the goroutines, and the world.
pub record Round (W : Type 0) : Type 0 where
  pub waiting : List DoorAlert
  pub goroutines : List (Goroutine)
  pub world : W

module _ {F W Item Raw : Type 0} ⦃d : Float64 F⦄ (host : Host W) (db : Dynamo F W Item Raw)
    (engine : AlertEngine W) where
  -- The alert of a goroutine, with what it has drawn so far.
  abbrev pub alert_with : DoorAlert → (now : ℤ) → (id : String) → (expires_at : ℤ) → Alert F
  alert_with a now id expires_at = record (door_alert host db engine now a) {
    alert_id = id;
    expires_at = expires_at;
  }

  unfoldable pub advance : DoorAlert → Stage → W → Stage × W
  advance a called w = let (now, w') = host.clock w in (stamped now, w')
  advance a (stamped now) w = let (id, w') = host.uuid w in (named now id, w')
  advance a (named now id) w =
      let (present, w') = host.clock w in (dated now id (days_from present 30), w')
  advance a (dated now id expires_at) w = elim (db.marshal_alert (alert_with a now id expires_at)) [
    | err _ ↦ (refused, w)
    | ok item ↦
        let (stored, w') = db.put_item engine.alert_store.table_name item w in
        (after_store stored, w')
  ]
  advance a pushing w = elim engine.notifier [
    | none ↦ (crashed, w)
    | some client ↦
        let (sent, w') = client.send a.device_id a.severity a.description w in (after_send sent, w')
  ]
  advance a finished w = (finished, w)
  advance a refused w = (refused, w)
  advance a crashed w = (crashed, w)

  abbrev pub moved :
      (waiting : List DoorAlert) (before after : List (Goroutine)) (a : DoorAlert)
      → Stage × W
      → Round W
  moved waiting before after a (stage, w) = record {
    waiting = waiting;
    goroutines = before ++ ((a, stage) ∷ after);
    world = w;
  }

  -- `wg.Add(1)` and `go` for the next alert, or a step of one goroutine.
  pub data Step : Round W → Round W → Type 0 where
    spawn :
        (a : DoorAlert) (waiting : List DoorAlert) (goroutines : List (Goroutine)) (w : W)
        → Step
            (record { waiting = a ∷ waiting; goroutines = goroutines; world = w })
            (record { waiting = waiting; goroutines = (a, called) ∷ goroutines; world = w })
    move :
        (waiting : List DoorAlert) (before after : List (Goroutine)) (a : DoorAlert) (stage : Stage)
        (w : W)
        → Step
            (moved waiting before after a (stage, w))
            (moved waiting before after a (advance a stage w))

  pub data Steps : Round W → Round W → Type 0 where
    start : (r : Round W) → Steps r r
    next : (r s t : Round W) → Step r s → Steps s t → Steps r t
