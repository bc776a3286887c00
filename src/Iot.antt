-- ===== src/Iot.antt =====
-- backend/internal/iot/publisher.go. The client of the data plane is given.
use Prim.Native.String
use io_t_fleet_management.Prelude.{some, none, String}
use io_t_fleet_management.Go.Outcome.{◌>>=◌, ok, err, Action, annotate, from, external, Result}
use io_t_fleet_management.Go.Value.{Value}
use io_t_fleet_management.Cloud.{DataPlane}
use io_t_fleet_management.Go.Float.{Float64}
use io_t_fleet_management.Go.Json.{marshal_size}

pub record Publisher (F W : Type 0) : Type 0 where
  pub client : DataPlane F W

abbrev pub new_publisher :
    {F W Config : Type 0} → (new_from_config : Config → DataPlane F W) → Config → Publisher F W
new_publisher new_from_config cfg = record { client = new_from_config cfg }

-- `json.Marshal`; the payload then stands for its text.
unfoldable pub marshal : {F : Type 0} ⦃d : Float64 F⦄ → Value F → Result (Value F)
marshal payload = elim (marshal_size payload) [
  | none ↦ err (external "json: unsupported value")
  | some _ ↦ ok payload
]

module _ {F W : Type 0} ⦃d : Float64 F⦄ where
  unfoldable pub publish : Publisher F W → String → Value F → Action W (Unit {0})
  publish publisher topic payload = do
    payload_data ← annotate "failed to marshal payload for IoT" (from (marshal payload))
    annotate (String.◌++◌ "failed to publish to topic " topic)
        (publisher.client.publish topic payload_data 1)
