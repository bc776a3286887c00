-- ===== src/Tests/Seen.antt =====
-- The theorems on every run of the deployed programs, over a world of a clock and of the times at
-- which the devices were last seen. The table tests the condition of an update and sets the time;
-- every other call succeeds and changes nothing.

use io_t_fleet_management.Go.Text.Order.{not_equal}
use io_t_fleet_management.Prelude.{
  [], ◌∷◌, refl, some, none, true, false, List, Option, String, ◌≡◌, Bool, ◌==◌, if◌then◌else◌,
  eq_iff, eq_refl, Bool-cases, inl, inr, arith, ◌⊎◌,
}
use io_t_fleet_management.Prelude.Int.{ℤ, pos, leb_ℤ}
use io_t_fleet_management.Go.Outcome.{ok, err, returned, failed, external, Outcome}
use io_t_fleet_management.Go.Float.{Milli, milli_float, milli}
use io_t_fleet_management.Go.Value.{object, Payload, null, entry, empty, str, float}
use io_t_fleet_management.Go.Text.Decimal.{parse_ℤ, parse_ℤ-decimal_ℤ}
use io_t_fleet_management.Cloud.{Dynamo, Host, Attr, text, number, UpdateItemInput}
use io_t_fleet_management.Devices.Store.{StateStore}
use io_t_fleet_management.Api.{Clock, DeviceHandler}
use io_t_fleet_management.Api.Routes.{system_overview, commands, Request}
use io_t_fleet_management.Ingestion.{Service}
use io_t_fleet_management.Rules.{AlertEngine}
use io_t_fleet_management.Fleet.{
  Deployment, start, next, ingest, check, answer, answering, ingesting, checking,
}
use io_t_fleet_management.Fleet.Seen.{
  SeenLaws, TablesDiffer, NoEarlier, value_of, Admits, FreshUpdate,
}
use io_t_fleet_management.Fleet.Safety.{Run-NoEarlier, tables-answering}

record Sight : Type 0 where
  time : ℤ
  seen : String → Option ℤ

abbrev sight_host : Host Sight
sight_host = record { clock = λ w. (w.time, w); uuid = λ w. ("id", w); wait = λ n w. (none, w) }

abbrev sight_clock : Clock Sight
sight_clock = record { nanoseconds = λ w. (w.time, w); month = λ w. ("2026-01", w) }

abbrev admits : Option ℤ → ℤ → Bool
admits none t = true
admits (some a) t = leb_ℤ a t

abbrev sighted : Sight → String → ℤ → Sight
sighted w id t = record w { seen = λ other. if other == id then some t else w.seen other }

-- The update of the device of a key, by the time that the values give.
abbrev sight_set :
    List (String × Attr (Payload Milli))
    → Option (Attr (Payload Milli))
    → Sight
    → Outcome (Unit {0}) × Sight
sight_set ((name, text id) ∷ []) (some (number t)) w = (returned tt, sighted w id (parse_ℤ t))
sight_set _ _ w = (failed (external "unknown update"), w)

abbrev sight_met :
    List (String × Attr (Payload Milli)) → Option (Attr (Payload Milli)) → Sight → Bool
sight_met ((name, text id) ∷ []) (some (number t)) w = admits (w.seen id) (parse_ℤ t)
sight_met _ _ w = false

-- The conditions that the table knows: none, and that the row is fresh.
abbrev sight_meets : UpdateItemInput (Payload Milli) → Sight → Bool
sight_meets input w =
    if input.condition_expression
      == "attribute_not_exists(last_seen_at) OR last_seen_at <= :last_seen"
    then sight_met input.key (value_of ":last_seen" input.values) w
    else input.condition_expression == ""

-- The expressions of updates that the table knows.
abbrev sight_knows : String → Bool
sight_knows expression =
    if expression
      == "SET #type = :type, #status = :status, operational_state = :op_state, health = :health, payload = :payload, last_seen_at = :last_seen, updated_at = :updated_at"
    then true
    else expression == "SET #status = :status, last_seen_at = :last_seen"

abbrev sight_update : UpdateItemInput (Payload Milli) → Sight → Outcome (Unit {0}) × Sight
sight_update input w =
    if sight_knows input.update_expression
    then if sight_meets input w
      then sight_set input.key (value_of ":last_seen" input.values) w
      else (failed (external "the condition does not hold"), w)
    else (failed (external "unknown update"), w)

abbrev sight_db : Dynamo Milli Sight String (Payload Milli)
sight_db = record {
  marshal_telemetry = λ t. ok t.device_id;
  marshal_alert = λ a. ok a.device_id;
  marshal_command = λ c. ok c.device_id;
  marshal_payload = λ p. ok p;
  unmarshal_telemetry = λ e. err (external "no reading");
  unmarshal_alert = λ e. err (external "no alert");
  unmarshal_state = λ e. err (external "no state");
  put_item = λ name item w. (returned tt, w);
  update_item = sight_update;
  get_item = λ name key w. (returned none, w);
  query = λ input w. (returned [], w);
  scan = λ input w. (returned (record { items = []; last_evaluated_key = none }), w);
  batch_write_item = λ name requests w. (returned [], w);
}

abbrev state_store : StateStore
state_store = record { table_name = "States" }

abbrev sight_engine : AlertEngine Sight
sight_engine = record {
  alert_store = record { table_name = "Alerts" };
  state_store = state_store;
  notifier = none;
}

abbrev sight_service : Service Sight
sight_service = record {
  telemetry_store = record { table_name = "Readings" };
  alert_store = record { table_name = "Alerts" };
  state_store = state_store;
  engine = sight_engine;
}

abbrev sight_handler : DeviceHandler Milli Sight
sight_handler = record {
  state_store = state_store;
  telemetry_store = record { table_name = "Readings" };
  alert_store = record { table_name = "Alerts" };
  command_store = record { table_name = "Commands" };
  iot_publisher = record { client = record { publish = λ topic payload qos w. (returned tt, w) } };
  s3_fetcher = record { get_monthly_chart = λ key w. (returned null, w) };
}

abbrev fleet : Deployment Milli Sight String (Payload Milli)
fleet = record {
  host = sight_host;
  clock = sight_clock;
  zone = record { hour = λ t. 0; format = λ layout t. layout };
  visit = λ t. t;
  sort_slice = λ less xs. xs;
  db = sight_db;
  service = sight_service;
  engine = sight_engine;
  handler = sight_handler;
}

names_differ : (a b : String) → a == b ≡ false → ¬ a ≡ b
names_differ a b e h = ground (arith, eq_iff a b)

admits-Admits : (seen : Option ℤ) (t : ℤ) → admits seen t ≡ true → Admits seen t
admits-Admits none t e = tt
admits-Admits (some a) t e = ground arith

sight-knows :
    (expression : String)
    → (expression
        ≡ "SET #type = :type, #status = :status, operational_state = :op_state, health = :health, payload = :payload, last_seen_at = :last_seen, updated_at = :updated_at")
      ⊎ (expression ≡ "SET #status = :status, last_seen_at = :last_seen")
    → sight_knows expression ≡ true
sight-knows expression (inl e) = rw e refl
sight-knows expression (inr e) = rw e refl

sight-conditional :
    (input : UpdateItemInput (Payload Milli)) (id : String) (t : ℤ) (w : Sight)
    → FreshUpdate "States" input id t
    → ((other : String) → w.seen other ≡ (sight_update input w).1.seen other)
      ⊎ (Admits (w.seen id) t
          × ((sight_update input w).1.seen id ≡ some t)
          × ((other : String) → ¬ other ≡ id → w.seen other ≡ (sight_update input w).1.seen other))
sight-conditional input id t w fresh =
    let known = sight-knows input.update_expression fresh.expression in
    elim (Bool-cases (admits (w.seen id) t)) [
      | inl e ↦ inr (
        admits-Admits (w.seen id) t e,
        rw (known, fresh.condition, fresh.key, fresh.time)
            (rw (parse_ℤ-decimal_ℤ t, e) (rw (eq_refl id) refl)),
        λ other h.
            rw (known, fresh.condition, fresh.key, fresh.time)
              (rw (parse_ℤ-decimal_ℤ t, e) (rw (not_equal other id h) refl)),
      )
      | inr e ↦ inl (λ other.
          rw (known, fresh.condition, fresh.key, fresh.time) (rw (parse_ℤ-decimal_ℤ t, e) refl))
    ]

fleet-SeenLaws : SeenLaws fleet (λ w. w.seen)
fleet-SeenLaws = record {
  conditional = sight-conditional;
  put_item = λ name item h. record { at = λ w id. refl };
  batch_write_item = λ name items h. record { at = λ w id. refl };
  scan = λ input. record { at = λ w id. refl };
  query = λ input. record { at = λ w id. refl };
  get_item = λ name key. record { at = λ w id. refl };
  clock = λ w id. refl;
  uuid = λ w id. refl;
  wait = λ n w id. refl;
  nanoseconds = λ w id. refl;
  month = λ w id. refl;
  fetch = λ key. record { at = λ w id. refl };
  publish = λ topic payload qos. record { at = λ w id. refl };
  push = λ client topic title body h. elim h [ inl k ↦ absurd cc | inr k ↦ absurd cc ];
}

fleet-TablesDiffer : TablesDiffer fleet
fleet-TablesDiffer = record {
  readings = names_differ "Readings" "States" refl;
  alerts = names_differ "Alerts" "States" refl;
  alarms = names_differ "Alerts" "States" refl;
  door_alarms = names_differ "Alerts" "States" refl;
  commands = names_differ "Commands" "States" refl;
}

overview≢commands : ¬ system_overview ≡ commands
overview≢commands h = cc

abbrev overview : Request Milli
overview = record { id = "light-1"; query = λ key. none; body = none }

abbrev temp_request : Payload Milli
temp_request = entry "topic" (str "devices/temp-1/telemetry") (
    entry "payload"
      (object (
        entry "device_id" (str "temp-1") (
          entry "timestamp" (float (milli (pos 1000000))) (
            entry "type" (str "temp-sensor")
              (entry "payload" (object (entry "temp" (float (milli (pos 25000))) empty)) empty)))))
      empty)

abbrev first_sight : Sight
first_sight = record { time = pos 1000; seen = λ id. some (pos 900) }

Run-NoEarlier_example :
    NoEarlier
      (λ w. w.seen)
      first_sight
      (checking fleet
        (λ alerts. alerts)
        1
        (answering fleet 1 system_overview overview (ingesting fleet temp_request first_sight)))
Run-NoEarlier_example =
    Run-NoEarlier fleet (λ w. w.seen) fleet-SeenLaws fleet-TablesDiffer first_sight _
      (next _ _ _
        (next _ _ _ (next _ _ _ (start first_sight) (ingest temp_request first_sight))
          (answer 1 system_overview overview _))
        (check (λ alerts. alerts) 1 _))

tables-answering_example :
    first_sight.seen ≡ (answering fleet 1 system_overview overview first_sight).seen
tables-answering_example =
    tables-answering fleet (λ w. w.seen)
      (record {
        second = λ w. refl;
        nanoseconds = λ w. refl;
        month = λ w. refl;
        scan = λ input. record { at = λ w. refl };
        query = λ input. record { at = λ w. refl };
        get_item = λ name key. record { at = λ w. refl };
        fetch = λ key. record { at = λ w. refl };
      })
      1 system_overview overview first_sight overview≢commands
