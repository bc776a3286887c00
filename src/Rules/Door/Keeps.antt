-- ===== src/Rules/Door/Keeps.antt =====
-- backend/internal/rules/door_rules.go over a relation between worlds that each call keeps.
use io_t_fleet_management.Prelude.{[], ◌∷◌, none, some, String, ℕ, List, ◌≡◌, Option}
use io_t_fleet_management.Go.Float.{Float64}
use io_t_fleet_management.Go.Outcome.{ok, err, pure, ◌>>=◌, ◌>>◌, Action, Result}
use io_t_fleet_management.Go.Keeps.{
  IsPreorder, Keeps, pure-Keeps, >>=-Keeps, attempt-Keeps, reads-Keeps, Result-Keeps,
}
use io_t_fleet_management.Cloud.{Host, Dynamo, ScanInput, Messaging, reads}
use io_t_fleet_management.Rules.{AlertEngine}
use io_t_fleet_management.Rules.Door.{
  DoorAlert, check_door_timeouts, trigger_all, trigger_door_alert, door_alerts, door_alert,
}
use io_t_fleet_management.Notifications.Keeps.{push-Keeps}
use io_t_fleet_management.Alerts.Keeps.{save_alert-Keeps}
use io_t_fleet_management.Models.{DeviceState}
use io_t_fleet_management.Devices.Store.Keeps.{get_all_states-Keeps}

-- The calls of a round.
pub record RoundKeeps {F W Item Raw : Type 0} (R : W → W → Type 0) (host : Host W)
    (db : Dynamo F W Item Raw) (engine : AlertEngine W) : Type 0 where
  pub clock : (w : W) → R w (host.clock w).1
  pub uuid : (w : W) → R w (host.uuid w).1
  pub scan : (input : ScanInput Item Raw) → Keeps R (db.scan input)
  pub put_alarm : (item : Item) → Keeps R (db.put_item engine.alert_store.table_name item)
  pub send :
      (client : Messaging W) (topic title body : String)
      → engine.notifier ≡ some client
      → Keeps R (client.send topic title body)

module _ {F W Item Raw : Type 0} ⦃d : Float64 F⦄ (R : W → W → Type 0) (order : IsPreorder R)
    (host : Host W) (db : Dynamo F W Item Raw) (engine : AlertEngine W)
    (calls : RoundKeeps R host db engine) where
  clock-Keeps : Keeps R (reads host.clock)
  clock-Keeps = reads-Keeps R order host.clock calls.clock

  trigger_door_alert-Keeps : (a : DoorAlert) → Keeps R (trigger_door_alert host db engine a)
  unfolding trigger_door_alert
  trigger_door_alert-Keeps a = >>=-Keeps R order _ _ clock-Keeps λ now.
      >>=-Keeps R order _ _
        (attempt-Keeps R order _ (
          save_alert-Keeps R order host db engine.alert_store (door_alert host db engine now a)
            clock-Keeps (reads-Keeps R order host.uuid calls.uuid) calls.put_alarm))
        λ saved.
          Result-Keeps R order saved _ _
            (λ done.
              push-Keeps R order engine.notifier a.device_id a.severity a.description calls.send)
            (λ e. pure-Keeps R order tt)

  trigger_all-Keeps : (alerts : List DoorAlert) → Keeps R (trigger_all host db engine alerts)
  unfolding trigger_all
  trigger_all-Keeps [] = pure-Keeps R order tt
  trigger_all-Keeps (a ∷ alerts) =
      >>=-Keeps R order _ _ (trigger_door_alert-Keeps a) λ done. trigger_all-Keeps alerts

  pub check_door_timeouts-Keeps :
      (schedule : List DoorAlert → List DoorAlert) (fuel : ℕ)
      → Keeps R (check_door_timeouts host db engine schedule fuel)
  unfolding check_door_timeouts
  check_door_timeouts-Keeps schedule fuel =
      >>=-Keeps R order _ _
        (attempt-Keeps R order _
          (get_all_states-Keeps R order host db engine.state_store calls.scan fuel))
        go
    where
      go :
          (fetched : Result (Option (List (DeviceState F))))
          → Keeps R {A = Option (Unit {0})} (elim fetched as (λ _. Action W (Option (Unit {0}))) [
            | err _ ↦ pure (some tt)
            | ok none ↦ pure none
            | ok (some states) ↦ do
              now ← reads host.clock
              trigger_all host db engine (schedule (door_alerts now states))
              pure (some tt)
          ])
      go (err e) = pure-Keeps R order (some tt)
      go (ok none) = pure-Keeps R order none
      go (ok (some states)) = >>=-Keeps R order _ _ clock-Keeps λ now.
          >>=-Keeps R order _ _ (trigger_all-Keeps (schedule (door_alerts now states)))
            λ done. pure-Keeps R order (some tt)
