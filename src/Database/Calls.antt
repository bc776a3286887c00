-- ===== src/Database/Calls.antt =====
-- backend/pkg/db/client.go: `NewDynamoDBClient` called again.
use io_t_fleet_management.Prelude.{refl, true, false, ◌≡◌, ◌↔◌}
use io_t_fleet_management.Go.Outcome.{ok, err, Result, restated, Error}
use io_t_fleet_management.Database.{unconnected, is_ready, connect, new_dynamodb_client}

module _ {Config Client : Type 0} (new_from_config : Config → Client) where
  -- Of two calls in a process, the second one always reports success and changes nothing, whatever
  -- configuration it would load; there is a client after it exactly when the first one could load its
  -- configuration.
  pub new_dynamodb_client_twice :
      (first second : Result Config)
      → let c = (new_dynamodb_client new_from_config first unconnected).1 in
        (new_dynamodb_client new_from_config second c ≡ (ok tt, c))
        × ((is_ready c ≡ true) ↔ ((cfg : Config) × (first ≡ ok cfg)))
        × ((is_ready c ≡ false) ↔ (
            (e : Error) × ((new_dynamodb_client new_from_config first unconnected).0
              ≡ err (restated "unable to load SDK config" e))))
  unfolding new_dynamodb_client connect
  new_dynamodb_client_twice (ok cfg) second = (
    refl,
    ((λ h. (cfg, refl)), (λ h. refl)),
    (
      (λ h. absurd cc),
      (λ h.
          let e : ◌≡◌ {A = Result (Unit {0})} (ok tt)
              (err (restated "unable to load SDK config" h.0)) =
            h.1 in
          cc),
    ),
  )
  new_dynamodb_client_twice (err e) second = (
    refl,
    ((λ h. absurd cc), (λ h. let k : ◌≡◌ {A = Result Config} (err e) (ok h.0) = h.1 in cc)),
    ((λ h. (e, refl)), (λ h. refl)),
  )
