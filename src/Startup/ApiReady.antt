-- ===== src/Startup/ApiReady.antt =====
-- backend/cmd/api-service/main.go: when it starts, and what it then serves.
use io_t_fleet_management.Prelude.{
  refl, true, inl, inr, ◌≡◌, ◌≢◌, ◌↔◌, ◌==◌, String, eq_iff, Bool-cases, subst, sym, ◌∙◌,
}
use io_t_fleet_management.Go.Outcome.{ok-injective, ok, err, Result, returned, panicked, Outcome}
use io_t_fleet_management.Cloud.{DataPlane}
use io_t_fleet_management.Api.{S3Client, DeviceHandler}
use io_t_fleet_management.Telemetry.Store.{new_telemetry_store}
use io_t_fleet_management.Alerts.{new_alert_store}
use io_t_fleet_management.Commands.{new_command_store}
use io_t_fleet_management.Devices.Store.{new_state_store}
use io_t_fleet_management.Database.{unconnected, connect, new_dynamodb_client}
use io_t_fleet_management.Startup.Ready.{is_named}
use io_t_fleet_management.Startup.{start_api, device_handler, serving, on_lambda, on_port}

abbrev pub IsLoaded : {Config : Type 0} → Result Config → Type 0
IsLoaded {Config} loaded = (cfg : Config) × (loaded ≡ ok cfg)

port-injective : {a b : String} → on_port a ≡ on_port b → a ≡ b
port-injective h = cc

module _ {F W Config Client : Type 0} (new_from_config : Config → Client)
    (new_data_plane : Config → DataPlane F W) (nil_fetcher : S3Client F W)
    (getenv : String → String) where
  -- Whether the four tables of the API are named in the environment.
  abbrev pub AreApiTablesNamed : Type 0
  AreApiTablesNamed =
      (getenv "DYNAMODB_DEVICE_STATE_TABLE" ≢ "")
      × (getenv "DYNAMODB_TABLE_NAME" ≢ "")
      × (getenv "DYNAMODB_ALERTS_TABLE" ≢ "")
      × (getenv "DYNAMODB_COMMANDS_TABLE" ≢ "")

  -- A handler whose stores have the names of the environment, and whose publisher has that
  -- configuration.
  pub record Handles (cfg : Config) (handler : DeviceHandler F W) : Type 0 where
    pub states : handler.state_store.table_name ≡ getenv "DYNAMODB_DEVICE_STATE_TABLE"
    pub readings : handler.telemetry_store.table_name ≡ getenv "DYNAMODB_TABLE_NAME"
    pub alerts : handler.alert_store.table_name ≡ getenv "DYNAMODB_ALERTS_TABLE"
    pub orders : handler.command_store.table_name ≡ getenv "DYNAMODB_COMMANDS_TABLE"
    pub publisher : handler.iot_publisher.client ≡ new_data_plane cfg

  abbrev pub StartsApi : Config → Outcome (DeviceHandler F W) → Type 0
  StartsApi cfg r = (handler : DeviceHandler F W) × (r ≡ returned handler) × Handles cfg handler

  abbrev Handled : Config → Type 0
  Handled cfg =
      StartsApi cfg (device_handler new_from_config new_data_plane nil_fetcher getenv cfg true)

  abbrev pub IsStarted : Result Config → Outcome (DeviceHandler F W) → Type 0
  IsStarted loaded r = (cfg : Config) × (loaded ≡ ok cfg) × StartsApi cfg r

  panicked-stops : (cfg : Config) → ¬ StartsApi cfg panicked
  panicked-stops cfg h =
      let e : ◌≡◌ {A = Outcome (DeviceHandler F W)} panicked (returned h.0) = h.1 in cc

  handled_lem : (cfg : Config) → Handled cfg ↔ AreApiTablesNamed
  unfolding device_handler new_telemetry_store new_alert_store new_state_store new_command_store
  handled_lem cfg = elim (Bool-cases (getenv "DYNAMODB_DEVICE_STATE_TABLE" == "")) [
    | inl a ↦
        let p = (eq_iff (getenv "DYNAMODB_DEVICE_STATE_TABLE") "").0 a in
        rw a ((λ h. absurd (panicked-stops cfg h)), (λ h. absurd (h.0 p)))
    | inr a ↦ elim (Bool-cases (getenv "DYNAMODB_TABLE_NAME" == "")) [
      | inl b ↦
          let p = (eq_iff (getenv "DYNAMODB_TABLE_NAME") "").0 b in
          rw (a, b) ((λ h. absurd (panicked-stops cfg h)), (λ h. absurd (h.1 p)))
      | inr b ↦ elim (Bool-cases (getenv "DYNAMODB_ALERTS_TABLE" == "")) [
        | inl c ↦
            let p = (eq_iff (getenv "DYNAMODB_ALERTS_TABLE") "").0 c in
            rw (a, b, c) ((λ h. absurd (panicked-stops cfg h)), (λ h. absurd (h.2 p)))
        | inr c ↦ elim (Bool-cases (getenv "DYNAMODB_COMMANDS_TABLE" == "")) [
          | inl g ↦
              let p = (eq_iff (getenv "DYNAMODB_COMMANDS_TABLE") "").0 g in
              rw (a, b, c, g) ((λ h. absurd (panicked-stops cfg h)), (λ h. absurd (h.3 p)))
          | inr g ↦
              rw (a, b, c, g)
                (
                  (λ h. (is_named _ a, is_named _ b, is_named _ c, is_named _ g)),
                  (λ h. (
                    _,
                    refl,
                    record {
                      states = refl;
                      readings = refl;
                      alerts = refl;
                      orders = refl;
                      publisher = refl;
                    },
                  )),
                )
        ]
      ]
    ]
  ]

  serving_lem : (serving getenv ≡ on_lambda) ↔ (getenv "AWS_LAMBDA_FUNCTION_NAME" ≢ "")
  unfolding serving
  serving_lem = elim (Bool-cases (getenv "AWS_LAMBDA_FUNCTION_NAME" == "")) [
    | inl a ↦
        let p = (eq_iff (getenv "AWS_LAMBDA_FUNCTION_NAME") "").0 a in
        rw a ((λ h. cc), (λ h. absurd (h p)))
    | inr a ↦ rw a ((λ h. is_named _ a), (λ h. refl))
  ]

  port_lem : (port : String) → serving getenv ≡ on_port port → port ≢ ""
  unfolding serving
  port_lem port h = elim (Bool-cases (getenv "AWS_LAMBDA_FUNCTION_NAME" == "")) [
    | inl a ↦ elim (Bool-cases (getenv "PORT" == "")) [
      | inl b ↦
          let e : on_port "8080" ≡ on_port port = rw (a, b) at h in
          λ k. let f : "8080" ≡ port = port-injective e in cc
      | inr b ↦
          let e : on_port (getenv "PORT") ≡ on_port port = rw (a, b) at h in
          λ k. let f : getenv "PORT" ≡ port = port-injective e in is_named _ b (f ∙ k)
    ]
    | inr a ↦ let e : on_lambda ≡ on_port port = rw a at h in cc
  ]

  -- The API starts, with stores that have the names of the environment and a publisher of the second
  -- configuration, exactly when both configurations can be loaded and the environment names the four
  -- tables; it is served by Lambda exactly when that is named in the environment, and otherwise on a
  -- port that is not empty.
  pub start_api_iff :
      (loaded loaded_again : Result Config)
      → (IsStarted loaded_again
            (start_api new_from_config new_data_plane nil_fetcher getenv loaded loaded_again
              unconnected).0
          ↔ (IsLoaded loaded × IsLoaded loaded_again × AreApiTablesNamed))
        × ((serving getenv ≡ on_lambda) ↔ (getenv "AWS_LAMBDA_FUNCTION_NAME" ≢ ""))
        × ((port : String) → serving getenv ≡ on_port port → port ≢ "")
  unfolding start_api new_dynamodb_client connect
  start_api_iff (ok first) (ok cfg) = (
    (
      (λ h. (
        (first, refl),
        (cfg, refl),
        (handled_lem cfg).0 (subst (λ c. StartsApi c _) (sym (ok-injective h.1)) h.2),
      )),
      (λ h. (cfg, refl, (handled_lem cfg).1 h.2)),
    ),
    serving_lem,
    port_lem,
  )
  start_api_iff (ok first) (err e) = (
    (
      (λ h. absurd (panicked-stops h.0 h.2)),
      (λ h. absurd (let k : ◌≡◌ {A = Result Config} (err e) (ok h.1.0) = h.1.1 in cc)),
    ),
    serving_lem,
    port_lem,
  )
  start_api_iff (err e) again = (
    (
      (λ h. absurd (panicked-stops h.0 h.2)),
      (λ h. absurd (let k : ◌≡◌ {A = Result Config} (err e) (ok h.0.0) = h.0.1 in cc)),
    ),
    serving_lem,
    port_lem,
  )
