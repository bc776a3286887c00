-- ===== src/Api/Contract.antt =====
-- cmd/api-service/main.go and device_handler.go: what a client may read in the answer of each
-- endpoint. `Calls` is about the stores, `Views` about the payloads, `Replies` and
-- `Endpoints` about the handlers.
pub mod Calls
pub mod Views
pub mod Replies
pub mod Endpoints
use io_t_fleet_management.Prelude.{[], ◌∷◌, List, String, ℕ, ◌≡◌, some, none, ◌⊎◌}
use io_t_fleet_management.Go.Value.{str}
use io_t_fleet_management.Models.{DeviceState}
use io_t_fleet_management.Api.{Answer, Response, Body, Shown, value}
use io_t_fleet_management.Api.Routes.{
  Endpoint, ping, devices, sorted_alerts, device_by_id, device_telemetry, device_alerts,
  system_overview, commands,
}

abbrev pub success_status : Endpoint → ℕ
success_status commands = 202
success_status _ = 200

-- The statuses of the failures of an endpoint.
abbrev pub IsErrorStatus : Endpoint → ℕ → Type 0
IsErrorStatus ping status = ⊥
IsErrorStatus devices status = status ≡ 500
IsErrorStatus sorted_alerts status = status ≡ 500
IsErrorStatus system_overview status = status ≡ 500
IsErrorStatus commands status = (status ≡ 400) ⊎ (status ≡ 500)
IsErrorStatus _ status = (status ≡ 404) ⊎ (status ≡ 500)

abbrev pub keys : {F : Type 0} → List (String × Shown F) → List String
keys [] = []
keys ((key, _) ∷ fields) = key ∷ keys fields

-- The fields that the answer of a device's telemetry may have beside its data.
pub data ExtraKeys : List String → Type 0 where
  archived : ExtraKeys []
  charted : ExtraKeys ("chart_max" ∷ [])
  with_usage : ExtraKeys ("chart_max" ∷ "usage_bar" ∷ [])
  with_running_time : ExtraKeys ("chart_max" ∷ "running_time" ∷ [])

-- The fields of a success, where it is an object.
abbrev pub HasKeys : Endpoint → List String → Type 0
HasKeys ping names = names ≡ "message" ∷ []
HasKeys devices names = names ≡ "data" ∷ []
HasKeys sorted_alerts names = names ≡ "data" ∷ []
HasKeys device_alerts names = names ≡ "data" ∷ []
HasKeys device_by_id names = ⊥
HasKeys device_telemetry names =
    (extra : List String) × (names ≡ "device_id" ∷ "period" ∷ "source" ∷ "data" ∷ extra)
    × ExtraKeys extra
HasKeys system_overview names =
    names
    ≡ "system_status" ∷ "devices_online" ∷ "alerts_chart" ∷ "alerts_chart_max"
      ∷ "energy_consumption" ∷ "energy_chart_max" ∷ []
HasKeys commands names = names ≡ "message" ∷ "request_id" ∷ []

-- The device itself, or an object with the fields of the endpoint. Where the fuel of a scan ran out
-- there is no answer.
pub data Fits {F : Type 0} : Endpoint → Answer F → Type 0 where
  unlisted : Fits devices none
  unsurveyed : Fits system_overview none
  shown_device :
      (state : DeviceState F)
      → Fits device_by_id (some (record { status = 200; body = Body.device state }))
  success :
      (endpoint : Endpoint) (fields : List (String × Shown F))
      → HasKeys endpoint (keys fields)
      → Fits endpoint
          (some (record { status = success_status endpoint; body = Body.object fields }))
  failure :
      (endpoint : Endpoint) (status : ℕ) (text : String)
      → IsErrorStatus endpoint status
      → Fits endpoint
          (some (record { status = status; body = Body.object (("error", value (str text)) ∷ []) }))
