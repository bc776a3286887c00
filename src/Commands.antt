-- ===== src/Commands.antt =====
-- backend/internal/commands/store_command.go.
use io_t_fleet_management.Prelude.{◌==◌, String, Bool, if◌then◌else◌, not}
use io_t_fleet_management.Go.Outcome.{◌>>=◌, Result, Action, annotate, err, from, plain, ok, pure}
use io_t_fleet_management.Cloud.{Host, Dynamo, reads, days_from}
use io_t_fleet_management.Models.{Command}
use io_t_fleet_management.Prelude.Int.{eq_ℤ, pos}

pub record CommandStore : Type 0 where
  pub table_name : String

unfoldable pub new_command_store : (String → String) → Bool → Result CommandStore
new_command_store getenv ready =
    let table_name = getenv "DYNAMODB_COMMANDS_TABLE" in
    if table_name == ""
    then err (plain "DYNAMODB_COMMANDS_TABLE environment variable is not set")
    else if not ready
    then err (plain "dynamodb client is not initialized")
    else ok (record { table_name = table_name })

module _ {F W Item Raw : Type 0} (host : Host W) (db : Dynamo F W Item Raw)
    (store : CommandStore) where
  abbrev with_expiry : Command F → Action W (Command F)
  with_expiry cmd =
      if eq_ℤ cmd.expires_at (pos 0)
      then (do now ← reads host.clock; pure (record cmd { expires_at = days_from now 30 }))
      else pure cmd

  abbrev with_timestamp : Command F → Action W (Command F)
  with_timestamp cmd =
      if eq_ℤ cmd.timestamp (pos 0)
      then (do now ← reads host.clock; pure (record cmd { timestamp = now }))
      else pure cmd

  unfoldable pub save_command : Command F → Action W (Unit {0})
  save_command cmd = do
    kept ← with_expiry cmd
    dated ← with_timestamp kept
    item ← annotate "failed to marshal command" (from (db.marshal_command dated))
    annotate "failed to store command in dynamodb" (db.put_item store.table_name item)
