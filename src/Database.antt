-- ===== src/Database.antt =====
-- backend/pkg/db/client.go: the client that the stores share. `once` and `Client` are the state.
pub mod Calls
use io_t_fleet_management.Prelude.{some, none, true, false, Bool, Option, if◌then◌else◌}
use io_t_fleet_management.Go.Outcome.{ok, err, Result, restated}

pub record Connection (Client : Type 0) : Type 0 where
  pub done : Bool
  pub client : Option Client

abbrev pub unconnected : {Client : Type 0} → Connection Client
unconnected = record { done = false; client = none }

-- `db.Client != nil`.
abbrev pub is_ready : {Client : Type 0} → Connection Client → Bool
is_ready c = elim c.client [ none ↦ false | some _ ↦ true ]

module _ {Config Client : Type 0} (new_from_config : Config → Client) where
  -- The function that `once` runs; `once` counts as done whatever it comes to.
  unfoldable pub connect : Result Config → Connection Client → Result (Unit {0}) × Connection Client
  connect (err e) c = (err (restated "unable to load SDK config" e), record c { done = true })
  connect (ok cfg) c = (ok tt, record { done = true; client = some (new_from_config cfg) })

  -- `config.LoadDefaultConfig` is given by its result.
  unfoldable pub new_dynamodb_client :
      Result Config → Connection Client → Result (Unit {0}) × Connection Client
  new_dynamodb_client loaded c = if c.done then (ok tt, c) else connect loaded c
