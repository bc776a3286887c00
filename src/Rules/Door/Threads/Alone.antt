-- ===== src/Rules/Door/Threads/Alone.antt =====
-- door_rules.go: goroutines that are not interrupted, beside the calls of `triggerDoorAlert`.
use io_t_fleet_management.Prelude.{◌≡◌, refl, none, some, String, Option}
use io_t_fleet_management.Go.Outcome.{
  ok, err, Outcome, returned, failed, panicked, Result, Action, annotate, attempt, from, ◌>>=◌,
  pure,
}
use io_t_fleet_management.Go.Float.{Float64}
use io_t_fleet_management.Cloud.{Host, Dynamo, Messaging, days_from}
use io_t_fleet_management.Rules.{AlertEngine}
use io_t_fleet_management.Rules.Door.{DoorAlert, trigger_door_alert}
use io_t_fleet_management.Rules.Door.Threads.{
  Stage, called, refused, crashed, advance, alert_with, after_store, after_send,
}
use io_t_fleet_management.Alerts.{save_alert}
use io_t_fleet_management.Notifications.{send_push_notification}

-- How the call of a goroutine at that stage ends.
abbrev pub ending : Stage → Outcome (Unit {0})
ending crashed = panicked
ending _ = returned tt

module _ {F W Item Raw : Type 0} ⦃d : Float64 F⦄ (host : Host W) (db : Dynamo F W Item Raw)
    (engine : AlertEngine W) where
  abbrev advanced : DoorAlert → Stage × W → Stage × W
  advanced a (stage, w) = advance host db engine a stage w

  -- Five steps without interruption.
  abbrev pub alone : DoorAlert → W → Stage × W
  alone a w = advanced a (advanced a (advanced a (advanced a (advanced a (called, w)))))

  abbrev pub ended : Stage × W → Outcome (Unit {0}) × W
  ended (stage, w) = (ending stage, w)

  sent_alone :
      (v : W) (p : Outcome String × W)
      → (attempt (λ _. p) >>= λ _. pure tt) v ≡ ended (after_send p.0, p.1)
  sent_alone v (returned x, u) = refl
  sent_alone v (failed x, u) = refl
  sent_alone v (panicked, u) = refl

  pushed_alone :
      (a : DoorAlert) (v : W) (n : Option (Messaging W))
      → send_push_notification n a.device_id a.severity a.description v
        ≡ ended (elim n as (λ _. Stage × W) [
          | none ↦ (crashed, v)
          | some client ↦
              let (sent, w') = client.send a.device_id a.severity a.description v in
              (after_send sent, w')
        ])
  unfolding send_push_notification
  pushed_alone a v none = refl
  pushed_alone a v (some client) = sent_alone v (client.send a.device_id a.severity a.description v)

  -- `triggerDoorAlert` once its alert is to be saved.
  abbrev triggered : DoorAlert → Action W (Unit {0}) → Action W (Unit {0})
  triggered a save = do
    saved ← attempt save
    elim saved [
      | err _ ↦ pure tt
      | ok _ ↦ send_push_notification engine.notifier a.device_id a.severity a.description
    ]

  stored_alone :
      (a : DoorAlert) (v : W) (p : Outcome (Unit {0}) × W)
      → triggered a (annotate "failed to store alert in dynamodb" (λ _. p)) v
        ≡ ended (advanced a (after_store p.0, p.1))
  unfolding advance
  stored_alone a v (returned x, u) = pushed_alone a u engine.notifier
  stored_alone a v (failed x, u) = refl
  stored_alone a v (panicked, u) = refl

  abbrev putting : Item → Action W (Unit {0})
  putting item = db.put_item engine.alert_store.table_name item

  encoded_alone :
      (a : DoorAlert) (v : W) (m : Result Item)
      → triggered a
          (annotate "failed to marshal alert" (from m) >>= λ item.
            annotate "failed to store alert in dynamodb" (putting item))
          v
        ≡ ended (
            advanced a (elim m as (λ _. Stage × W) [
              | err _ ↦ (refused, v)
              | ok item ↦ let (stored, w') = putting item v in (after_store stored, w')
            ]))
  unfolding advance
  encoded_alone a v (err e) = refl
  encoded_alone a v (ok item) = stored_alone a v (putting item v)

  -- A goroutine that takes its five steps without interruption ends as a call of `triggerDoorAlert`
  -- does, in the same world.
  pub trigger_door_alert-alone :
      (a : DoorAlert) (w : W) → trigger_door_alert host db engine a w ≡ ended (alone a w)
  unfolding trigger_door_alert save_alert advance
  trigger_door_alert-alone a w =
      let (now, w1) = host.clock w in
      let (id, w2) = host.uuid w1 in
      let (present, w3) = host.clock w2 in
      encoded_alone a w3
        (db.marshal_alert (alert_with host db engine a now id (days_from present 30)))
