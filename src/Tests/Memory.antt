-- ===== src/Tests/Memory.antt =====
-- A world of a clock and one table, for evaluation: the clock stands still, every wait ends, every
-- write succeeds, and a scan serves the first item of the table and then the others.
use mathlib.Core.List.Perm
use io_t_fleet_management.Prelude.{
  [], ◌∷◌, refl, some, none, ◌++◌, drop, append-nil, List, Option, String, ℕ, ◌+◌, ◌≡◌,
}
use io_t_fleet_management.Go.Outcome.{ok, err, returned, failed, Result, external}
use io_t_fleet_management.Go.Float.{Milli, milli_float}
use io_t_fleet_management.Cloud.{Dynamo, Host, ScanPage}
use io_t_fleet_management.Models.{Telemetry, Alert, DeviceState, Command}
use io_t_fleet_management.Prelude.Int.{ℤ}
use io_t_fleet_management.Go.Value.{Payload}
use io_t_fleet_management.Telemetry.Store.Retry.{WritesBatches}

pub data Stored : Type 0 where
  reading : Telemetry Milli → Stored
  alarm : Alert Milli → Stored
  order : Command Milli → Stored
  live : DeviceState Milli → Stored

pub record World : Type 0 where
  pub time : ℤ
  pub table : List Stored
  pub calls : ℕ

abbrev pub still : Host World
still = record { clock = λ w. (w.time, w); uuid = λ w. ("id", w); wait = λ n w. (none, w) }

abbrev decode_reading : Stored → Result (Telemetry Milli)
decode_reading (reading t) = ok t
decode_reading _ = err (external "no reading")

abbrev decode_alarm : Stored → Result (Alert Milli)
decode_alarm (alarm a) = ok a
decode_alarm _ = err (external "no alert")

abbrev decode_live : Stored → Result (DeviceState Milli)
decode_live (live s) = ok s
decode_live _ = err (external "no state")

abbrev first_page : List Stored → ScanPage Stored
first_page [] = record { items = []; last_evaluated_key = none }
first_page (x ∷ xs) = record { items = x ∷ []; last_evaluated_key = some x }

abbrev page_from : Option Stored → List Stored → ScanPage Stored
page_from none table = first_page table
page_from (some key) table = record { items = drop 1 table; last_evaluated_key = none }

abbrev pub memory : Dynamo Milli World Stored (Payload Milli)
memory = record {
  marshal_telemetry = λ t. ok (reading t);
  marshal_alert = λ a. ok (alarm a);
  marshal_command = λ c. ok (order c);
  marshal_payload = λ p. ok p;
  unmarshal_telemetry = decode_reading;
  unmarshal_alert = decode_alarm;
  unmarshal_state = decode_live;
  put_item = λ name item w. (returned tt, record w { table = w.table ++ (item ∷ []) });
  update_item = λ input w. (returned tt, w);
  get_item = λ name key w. (returned none, w);
  query = λ input w. (returned w.table, w);
  scan = λ input w. (returned (page_from input.exclusive_start_key w.table), w);
  batch_write_item = λ name requests w.
      (returned [], record w { table = w.table ++ requests; calls = w.calls + 1 });
}

-- A table that refuses every write.
abbrev pub refusing : Dynamo Milli World Stored (Payload Milli)
refusing = record memory { put_item = λ name item w. (failed (external "refused"), w) }

pub memory-WritesBatches :
    (name : String) → WritesBatches still memory name (λ w. w.table) (λ w. w.calls)
memory-WritesBatches name = record {
  partition = λ requests unprocessed w w' h.
      let e : [] ≡ unprocessed = cc in
      let f : w.table ++ requests ≡ w'.table = cc in rw (← e, ← f, append-nil) (Perm.refl _);
  one_call = λ requests w. refl;
  wait_writes = λ n w. refl;
  wait_calls = λ n w. refl;
}
