-- ===== src/Notifications.antt =====
-- backend/internal/notifications/service.go. A `*Service` is an option: `main` goes on with nil if
-- Firebase cannot be set up, and a call of a method then dereferences nil.
pub mod Keeps
use io_t_fleet_management.Prelude.{none, some, Option, String}
use io_t_fleet_management.Go.Outcome.{◌>>=◌, ok, err, Result, Action, wrap, panic, attempt, pure}
use io_t_fleet_management.Cloud.{Messaging}

-- `firebase.NewApp` and `app.Messaging` are given.
unfoldable pub new_service :
    {W App : Type 0}
    → (String → Result App)
    → (App → Result (Messaging W))
    → String
    → Result (Messaging W)
new_service new_app messaging credentials_file = elim (new_app credentials_file) [
  | err e ↦ err (wrap "error initializing firebase app" e)
  | ok app ↦ elim (messaging app) [
    | err e ↦ err (wrap "error getting Messaging client" e)
    | ok client ↦ ok client
  ]
]

-- A message that is not sent is only logged.
unfoldable pub send_push_notification :
    {W : Type 0} → Option (Messaging W) → (device_id title body : String) → Action W (Unit {0})
send_push_notification none device_id title body = panic
send_push_notification (some client) device_id title body = do
  sent ← attempt (client.send device_id title body)
  pure tt
