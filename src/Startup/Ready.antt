-- ===== src/Startup/Ready.antt =====
-- The start of the two services, and what it leaves.
use io_t_fleet_management.Prelude.{
  refl, true, false, inl, inr, ◌≡◌, ◌≢◌, ◌↔◌, ◌==◌, String, eq_iff, arith, Bool-cases,
}
use io_t_fleet_management.Go.Outcome.{ok, err, Result, returned, panicked, Outcome}
use io_t_fleet_management.Cloud.{Messaging}
use io_t_fleet_management.Telemetry.Store.{new_telemetry_store}
use io_t_fleet_management.Alerts.{new_alert_store}
use io_t_fleet_management.Devices.Store.{new_state_store}
use io_t_fleet_management.Database.{unconnected, connect, new_dynamodb_client}
use io_t_fleet_management.Ingestion.{Service}
use io_t_fleet_management.Startup.{start_ingestion, ingestion_service}

pub is_named : (s : String) → s == "" ≡ false → s ≢ ""
is_named s e p = ground (arith, eq_iff s "")

module _ {W Config Client App : Type 0} (new_from_config : Config → Client)
    (new_app : String → Result App) (messaging : App → Result (Messaging W))
    (getenv : String → String) where
  -- Whether the three tables of the ingestion are named in the environment.
  abbrev pub AreTablesNamed : Type 0
  AreTablesNamed =
      (getenv "DYNAMODB_TABLE_NAME" ≢ "")
      × (getenv "DYNAMODB_ALERTS_TABLE" ≢ "")
      × (getenv "DYNAMODB_DEVICE_STATE_TABLE" ≢ "")

  -- A service whose stores have the names of the environment, and whose engine shares them.
  pub record FromEnvironment (service : Service W) : Type 0 where
    pub readings : service.telemetry_store.table_name ≡ getenv "DYNAMODB_TABLE_NAME"
    pub alerts : service.alert_store.table_name ≡ getenv "DYNAMODB_ALERTS_TABLE"
    pub states : service.state_store.table_name ≡ getenv "DYNAMODB_DEVICE_STATE_TABLE"
    pub alarms : service.engine.alert_store.table_name ≡ service.alert_store.table_name
    pub door_states : service.engine.state_store.table_name ≡ service.state_store.table_name

  abbrev pub Starts : Outcome (Service W) → Type 0
  Starts r = (service : Service W) × (r ≡ returned service) × FromEnvironment service

  panicked-stops : ¬ Starts panicked
  panicked-stops h = let e : ◌≡◌ {A = Outcome (Service W)} panicked (returned h.0) = h.1 in cc

  named_lem :
      Starts (ingestion_service new_from_config new_app messaging getenv true) ↔ AreTablesNamed
  unfolding ingestion_service new_telemetry_store new_alert_store new_state_store
  named_lem = elim (Bool-cases (getenv "DYNAMODB_TABLE_NAME" == "")) [
    | inl e ↦
        let p = (eq_iff (getenv "DYNAMODB_TABLE_NAME") "").0 e in
        rw e ((λ h. absurd (panicked-stops h)), (λ h. absurd (h.0 p)))
    | inr e ↦ elim (Bool-cases (getenv "DYNAMODB_ALERTS_TABLE" == "")) [
      | inl f ↦
          let p = (eq_iff (getenv "DYNAMODB_ALERTS_TABLE") "").0 f in
          rw (e, f) ((λ h. absurd (panicked-stops h)), (λ h. absurd (h.1 p)))
      | inr f ↦ elim (Bool-cases (getenv "DYNAMODB_DEVICE_STATE_TABLE" == "")) [
        | inl g ↦
            let p = (eq_iff (getenv "DYNAMODB_DEVICE_STATE_TABLE") "").0 g in
            rw (e, f, g) ((λ h. absurd (panicked-stops h)), (λ h. absurd (h.2 p)))
        | inr g ↦
            rw (e, f, g)
              (
                (λ h. (is_named _ e, is_named _ f, is_named _ g)),
                (λ h. (
                  _,
                  refl,
                  record {
                    readings = refl;
                    alerts = refl;
                    states = refl;
                    alarms = refl;
                    door_states = refl;
                  },
                )),
              )
      ]
    ]
  ]

  -- The ingestion starts, with stores that have the names of the environment, exactly when the
  -- configuration of AWS can be loaded and the environment names the three tables; the notifications
  -- need not be set up.
  pub start_ingestion_iff :
      (loaded : Result Config)
      → Starts (start_ingestion new_from_config new_app messaging getenv loaded unconnected).0
        ↔ (((cfg : Config) × (loaded ≡ ok cfg)) × AreTablesNamed)
  unfolding start_ingestion new_dynamodb_client connect
  start_ingestion_iff (ok cfg) = ((λ h. ((cfg, refl), named_lem.0 h)), (λ h. named_lem.1 h.1))
  start_ingestion_iff (err e) = (
    (λ h. absurd (panicked-stops h)),
    (λ h. absurd (let k : ◌≡◌ {A = Result Config} (err e) (ok h.0.0) = h.0.1 in cc)),
  )
