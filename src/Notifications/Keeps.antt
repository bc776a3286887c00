-- ===== src/Notifications/Keeps.antt =====
-- backend/internal/notifications/service.go over a relation between worlds that sending keeps.
use io_t_fleet_management.Prelude.{none, some, Option, String, ◌≡◌, refl}
use io_t_fleet_management.Go.Keeps.{
  IsPreorder, Keeps, >>=-Keeps, attempt-Keeps, pure-Keeps, panic-Keeps,
}
use io_t_fleet_management.Cloud.{Messaging}
use io_t_fleet_management.Notifications.{send_push_notification}

module _ {W : Type 0} (R : W → W → Type 0) (order : IsPreorder R) where
  pub push-Keeps :
      (notifier : Option (Messaging W)) (device_id title body : String)
      → ((client : Messaging W) (topic title body : String)
          → notifier ≡ some client
          → Keeps R (client.send topic title body))
      → Keeps R (send_push_notification notifier device_id title body)
  unfolding send_push_notification
  push-Keeps none device_id title body send = panic-Keeps R order _
  push-Keeps (some client) device_id title body send =
      >>=-Keeps R order _ _ (attempt-Keeps R order _ (send client device_id title body refl))
        λ sent. pure-Keeps R order tt
