-- ===== src/Tests/Fleet.antt =====
-- The theorems on the table of states and on the API, over the world of `Board`.
use mathlib.Core.List.{Memᴰ}
use mathlib.Core.List.Permᴰ
use io_t_fleet_management.Devices.Store.Register.Redelivery.{Redelivers, all_updated-redelivered}
use io_t_fleet_management.Prelude.{[], ◌∷◌, refl, some, none, ℕ, ◌≡◌, inr, sym, ap, ◌∙◌, ◌≤◌, ◌↔◌}
use io_t_fleet_management.Prelude.Int.{pos, ℤ, ◌+ℤ◌}
use io_t_fleet_management.Go.Float.{Milli, milli, milli_float}
use io_t_fleet_management.Go.Value.{float, empty, entry, Payload}
use io_t_fleet_management.Go.Outcome.{returned, failed, external, wrap}
use io_t_fleet_management.Models.{Telemetry, DeviceState}
use io_t_fleet_management.Devices.Store.{StateStore, update_from_telemetry, get_state_by_id}
use io_t_fleet_management.Devices.Store.Register.{Row, row_of, state_of}
use io_t_fleet_management.Devices.Store.Register.Latest.{get_state_by_id-update}
use io_t_fleet_management.Devices.Store.Register.Order.{all_updated, undated, Agree, said}
use io_t_fleet_management.Api.{DeviceHandler, Clock}
use io_t_fleet_management.Api.Overview.Online.{count_online_lem, Any}
use io_t_fleet_management.Api.Commands.Delivery.{send_command_lem, keeping, sending}
use io_t_fleet_management.Go.Text.Decimal.{decimal_ℤ}
use io_t_fleet_management.Iot.{publish, marshal}
use io_t_fleet_management.Tests.Board.{
  Board, board_db, board_host, board_clock, board_publisher, no_charts, board-TableLaws, utc,
  board-ReadLaws,
}
use io_t_fleet_management.Api.Commands.{
  SendCommandRequest, send_command, command_record, dispatched, mqtt_payload,
}
use io_t_fleet_management.Api.Overview.{count_online, system_status}
use io_t_fleet_management.Commands.{save_command}
use io_t_fleet_management.Go.Json.{marshal_size}

abbrev state_store : StateStore
state_store = record { table_name = "States" }

abbrev pub board_handler : DeviceHandler Milli Board
board_handler = record {
  state_store = state_store;
  telemetry_store = record { table_name = "Readings" };
  alert_store = record { table_name = "Alerts" };
  command_store = record { table_name = "Commands" };
  iot_publisher = record { client = board_publisher };
  s3_fetcher = no_charts;
}

abbrev pub empty_board : Board
empty_board = record { time = pos 500; rows = λ id. none; written = []; calls = 0 }

abbrev lit : ℤ → Telemetry Milli
lit timestamp = record {
  device_id = "light-1";
  timestamp = timestamp;
  type = "light-sensor";
  payload = entry "lux" (float (milli timestamp)) empty;
  expires_at = pos 0;
}

abbrev row_at : ℤ → ℤ → Row (Payload Milli)
row_at timestamp now = row_of (lit timestamp) now (lit timestamp).payload

abbrev updated_board : Board
updated_board =
    (update_from_telemetry board_host board_db state_store (lit (pos 490)) empty_board).1

get_state_by_id-update_example :
    get_state_by_id board_host board_db state_store "light-1" updated_board
    ≡ (returned (some (state_of (λ p. p) "light-1" (row_at (pos 490) (pos 500)))), updated_board)
get_state_by_id-update_example =
    get_state_by_id-update board_host board_db state_store (λ w. w.rows) (λ w. w.rows) (λ p. p)
      (board-TableLaws "States") (board-ReadLaws "States") (lit (pos 490)) (lit (pos 490)).payload
      empty_board "light-1" refl refl

abbrev IsLit : Telemetry Milli → Type 0
IsLit t = (timestamp : ℤ) × (t ≡ lit timestamp)

lit-Agree : (t u : Telemetry Milli) → IsLit t → IsLit u → Agree (λ p. p) t u
lit-Agree t u (a, p) (b, q) same h =
    let k : a ≡ b = sym (ap (λ t. t.timestamp) p) ∙ h ∙ ap (λ t. t.timestamp) q in
    ap (said (λ p. p)) (p ∙ ap lit k ∙ sym q)

abbrev delivered_again :
    Redelivers
      (lit (pos 480) ∷ lit (pos 490) ∷ [])
      (lit (pos 480) ∷ lit (pos 490) ∷ lit (pos 480) ∷ [])
delivered_again = record {
  again = lit (pos 480) ∷ [];
  known = (Memᴰ.head refl, tt);
  arranged = Permᴰ.refl _;
}

all_updated-redelivered_example :
    undated (
      (all_updated board_host board_db state_store
          (lit (pos 480) ∷ lit (pos 490) ∷ [])
          empty_board).rows
        "light-1")
    ≡ undated (
        (all_updated board_host board_db state_store
            (lit (pos 480) ∷ lit (pos 490) ∷ lit (pos 480) ∷ [])
            empty_board).rows
          "light-1")
all_updated-redelivered_example =
    all_updated-redelivered board_host board_db state_store (λ w. w.rows) (λ p. p)
      (board-TableLaws "States") (λ p. refl) IsLit lit-Agree (lit (pos 480) ∷ lit (pos 490) ∷ [])
      (lit (pos 480) ∷ lit (pos 490) ∷ lit (pos 480) ∷ []) empty_board "light-1" delivered_again
      ((pos 480, refl), ((pos 490, refl), tt))

abbrev seen_light : DeviceState Milli
seen_light = state_of (λ p. p) "light-1" (row_at (pos 490) (pos 500))

-- A clock that goes on by two minutes and a second with each reading.
abbrev long_round : Clock Board
long_round = record board_clock {
  nanoseconds = λ w. (w.time, record w { time = w.time +ℤ pos 121_000_000_000 });
}

abbrev round_start : Board
round_start = record empty_board { time = pos 490_000_000_000 }

count_online_lem_example :
    (n : ℕ) × (count_online board_host long_round
        (λ t. t)
        utc
        board_db
        board_handler
        (seen_light ∷ seen_light ∷ [])
        0
        round_start
      ≡ (returned n, record round_start { time = pos 732_000_000_000 }))
    × (n ≤ 2)
    × ((system_status n ≡ "Connected")
        ↔ Any ((pos 490_000_000_000, seen_light) ∷ (pos 611_000_000_000, seen_light) ∷ []))
    × ((system_status n ≡ "Offline")
        ↔ ¬ Any ((pos 490_000_000_000, seen_light) ∷ (pos 611_000_000_000, seen_light) ∷ []))
unfolding ◌+ℤ◌
count_online_lem_example =
    count_online_lem board_host long_round (λ t. t) utc board_db board_handler
      (seen_light ∷ seen_light ∷ []) round_start

abbrev switch_on : SendCommandRequest Milli
switch_on = record { action = "ON"; parameters = none }

switched_on :
    sending board_host board_clock board_db board_handler "light-1" switch_on empty_board
    ≡ (returned tt, empty_board)
unfolding publish marshal mqtt_payload marshal_size
switched_on = refl

not_kept :
    keeping board_host board_clock board_db board_handler "light-1" switch_on empty_board
      empty_board
    ≡ (failed (wrap "failed to marshal command" (external "not used")), empty_board)
unfolding save_command command_record
not_kept = refl

send_command_lem_example :
    send_command board_host board_clock board_db board_handler "light-1"
      (some switch_on)
      empty_board
    ≡ (returned (dispatched "cmd-500"), empty_board)
unfolding decimal_ℤ
send_command_lem_example =
    (send_command_lem board_host board_clock board_db board_handler "light-1" switch_on empty_board
        empty_board empty_board (wrap "failed to marshal command" (external "not used"))).2
      switched_on (inr not_kept)
