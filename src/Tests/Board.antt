-- ===== src/Tests/Board.antt =====
-- A world of a clock and the rows of the table of the states, for evaluation. The table tests the
-- condition of an update and sets the attributes; a batch is added to what has been written;
-- every other call succeeds and changes nothing.

use mathlib.Core.List.Perm
use io_t_fleet_management.Go.Text.Order.{not_equal}
use io_t_fleet_management.Telemetry.Store.Retry.{WritesBatches}
use io_t_fleet_management.Prelude.{
  ℕ, ◌+◌, ◌++◌, append-nil, ◌≡◌, [], ◌∷◌, refl, some, none, List, Option, String, if◌then◌else◌,
  eq_refl, Bool, Option-cases, ◌==◌, inl, inr, Bool-cases,
}
use io_t_fleet_management.Prelude.Int.{ℤ, pos}
use io_t_fleet_management.Go.Outcome.{ok, err, returned, failed, external, Outcome}
use io_t_fleet_management.Go.Float.{Milli, milli_float}
use io_t_fleet_management.Go.Value.{Payload, null}
use io_t_fleet_management.Go.Text.Decimal.{parse_ℤ, parse_ℤ-decimal_ℤ}
use io_t_fleet_management.Cloud.{
  Dynamo, Host, Attr, text, number, marshalled, DataPlane, UpdateItemInput,
}
use io_t_fleet_management.Devices.Store.Register.{
  row_of, Row, is_newer, TableLaws, state_of, ReadLaws,
}
use io_t_fleet_management.Api.{Clock, S3Client}
use io_t_fleet_management.Telemetry.Periods.{Zone}

pub record Board : Type 0 where
  pub time : ℤ
  pub rows : String → Option (Row (Payload Milli))
  pub written : List (String × Row (Payload Milli))
  pub calls : ℕ

-- A row with its device.
abbrev pub Entry : Type 0
Entry = String × Row (Payload Milli)

abbrev pub board_host : Host Board
board_host = record { clock = λ w. (w.time, w); uuid = λ w. ("id", w); wait = λ n w. (none, w) }

abbrev pub board_clock : Clock Board
board_clock = record { nanoseconds = λ w. (w.time, w); month = λ w. ("2026-01", w) }

abbrev device_of : List (String × Attr (Payload Milli)) → String
device_of ((name, text id) ∷ []) = id
device_of _ = ""

-- The row that the values of an update by telemetry describe.
abbrev row_from : List (String × Attr (Payload Milli)) → Option (Row (Payload Milli))
row_from
      ((a, text type)
        ∷ (b, text status)
        ∷ (c, text operational_state)
        ∷ (e, text health)
        ∷ (f, marshalled payload)
        ∷ (g, number seen)
        ∷ (h, number updated)
        ∷ []) =
    some (record {
      type = type;
      status = status;
      operational_state = operational_state;
      health = health;
      payload = payload;
      last_seen_at = parse_ℤ seen;
      updated_at = parse_ℤ updated;
    })
row_from _ = none

abbrev set_row : Board → String → Row (Payload Milli) → Board
set_row w device_id row = record w { rows = λ id. if id == device_id then some row else w.rows id }

-- The conditions that the table knows: none, and that the row is fresh.
abbrev meets : String → Option (Row (Payload Milli)) → Row (Payload Milli) → Bool
meets condition old row =
    if condition == "attribute_not_exists(last_seen_at) OR last_seen_at <= :last_seen"
    then is_newer old row
    else condition == ""

-- An update by the expression that sets every attribute of a row; another one is unknown.
abbrev updated :
    UpdateItemInput (Payload Milli)
    → Option (Row (Payload Milli))
    → Board
    → Outcome (Unit {0}) × Board
updated input none w = (failed (external "unknown update"), w)
updated input (some row) w =
    if input.update_expression
      == "SET #type = :type, #status = :status, operational_state = :op_state, health = :health, payload = :payload, last_seen_at = :last_seen, updated_at = :updated_at"
    then if meets input.condition_expression (w.rows (device_of input.key)) row
      then (returned tt, set_row w (device_of input.key) row)
      else (failed (external "the condition does not hold"), w)
    else (failed (external "unknown update"), w)

abbrev pub board_db : Dynamo Milli Board Entry (Payload Milli)
board_db = record {
  marshal_telemetry = λ t. ok (t.device_id, row_of t (pos 0) t.payload);
  marshal_alert = λ a. err (external "not used");
  marshal_command = λ c. err (external "not used");
  marshal_payload = λ p. ok p;
  unmarshal_telemetry = λ e. err (external "no reading");
  unmarshal_alert = λ e. err (external "no alert");
  unmarshal_state = λ e. ok (state_of (λ p. p) e.0 e.1);
  put_item = λ name item w. (returned tt, w);
  update_item = λ input w. updated input (row_from input.values) w;
  get_item = λ name key w. (
    returned (elim (w.rows (device_of key)) [ none ↦ none | some row ↦ some (device_of key, row) ]),
    w,
  );
  query = λ input w. (returned [], w);
  scan = λ input w. (returned (record { items = []; last_evaluated_key = none }), w);
  batch_write_item = λ name requests w.
      (returned [], record w { written = w.written ++ requests; calls = w.calls + 1 });
}

abbrev pub utc : Zone
utc = record { hour = λ t. 0; format = λ layout t. layout }

abbrev pub board_publisher : DataPlane Milli Board
board_publisher = record { publish = λ topic payload qos w. (returned tt, w) }

abbrev pub no_charts : S3Client Milli Board
no_charts = record { get_monthly_chart = λ key w. (returned null, w) }

pub board-TableLaws : (name : String) → TableLaws board_host board_db name (λ w. w.rows)
board-TableLaws name = record {
  clock = λ w id. refl;
  accepts = λ device_id row input w sets newer. (
    set_row w device_id row,
    rw (sets.values, sets.key, sets.condition, sets.expression)
        (rw (parse_ℤ-decimal_ℤ row.last_seen_at, parse_ℤ-decimal_ℤ row.updated_at) (rw newer refl)),
    rw (eq_refl device_id) refl,
    λ other h. rw (not_equal other device_id h) refl,
  );
  refuses = λ device_id row input w sets older. (
    external "the condition does not hold",
    w,
    rw (sets.values, sets.key, sets.condition, sets.expression)
        (rw (parse_ℤ-decimal_ℤ row.last_seen_at, parse_ℤ-decimal_ℤ row.updated_at) (rw older refl)),
    λ other. refl,
  );
}

pub board-ReadLaws : (name : String) → ReadLaws board_db name (λ w. w.rows) (λ p. p)
board-ReadLaws name = record {
  reads_none = λ device_id w h. rw h refl;
  reads_some = λ device_id row w h. ((device_id, row), rw h refl, refl);
}

pub board-WritesBatches :
    (name : String) → WritesBatches board_host board_db name (λ w. w.written) (λ w. w.calls)
board-WritesBatches name = record {
  partition = λ requests unprocessed w w' h.
      let e : [] ≡ unprocessed = cc in
      let f : w.written ++ requests ≡ w'.written = cc in rw (← e, ← f, append-nil) (Perm.refl _);
  one_call = λ requests w. refl;
  wait_writes = λ n w. refl;
  wait_calls = λ n w. refl;
}

pub board-update_quiet :
    (input : UpdateItemInput (Payload Milli)) (w : Board)
    → (board_db.update_item input w).1.written ≡ w.written
board-update_quiet input w = elim (Option-cases (row_from input.values)) [
  | inl unknown ↦ rw unknown refl
  | inr (row, e) ↦
      rw e
        (elim (Bool-cases (
          input.update_expression
          == "SET #type = :type, #status = :status, operational_state = :op_state, health = :health, payload = :payload, last_seen_at = :last_seen, updated_at = :updated_at")) [
            | inr other ↦ rw other refl
            | inl known ↦
                elim (Bool-cases
                  (meets input.condition_expression (w.rows (device_of input.key)) row)) [
                    | inl met ↦ rw (known, met) refl
                    | inr unmet ↦ rw (known, unmet) refl
                  ]
          ])
]
