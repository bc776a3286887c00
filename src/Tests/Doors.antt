-- ===== src/Tests/Doors.antt =====
-- The theorem on the goroutines of the door check, over a world that records what is stored and sent.
use io_t_fleet_management.Prelude.{
  [], ◌∷◌, refl, some, none, String, List, ℕ, ◌≡◌, true, Bool, false, ◌≤◌, ◌+◌, ◌-◌, ◌*◌,
  Bool-cases, if◌then◌else◌, ◌==◌, inl, inr,
}
use io_t_fleet_management.Prelude.Int.{pos, sub64, wrap64, ◌-ℤ◌, ◌+ℤ◌}
use io_t_fleet_management.Go.Float.{Milli, milli_float, milli}
use io_t_fleet_management.Go.Value.{get, as_string, or_empty, entry, bool, float, empty}
use io_t_fleet_management.Go.Outcome.{returned, ok, err, external, failed}
use io_t_fleet_management.Go.Ends.{by_value, by_error}
use io_t_fleet_management.Cloud.{Host, Dynamo, Messaging}
use io_t_fleet_management.Rules.{AlertEngine}
use io_t_fleet_management.Rules.Door.{DoorAlert, door_alerts, door_alarm, is_open, start_timestamp}
use io_t_fleet_management.Rules.Door.Threads.{
  Stage, called, finished, Round, Steps, Step, spawn, move, start, next, advance,
}
use io_t_fleet_management.Rules.Door.Threads.Records.{Notice, RecordsRound, count, notice_of}
use io_t_fleet_management.Rules.Door.Threads.Once.{door_alerts-exactly, is_about, is_of}
use io_t_fleet_management.Models.{DeviceState}

pub record House : Type 0 where
  pub stored : List Notice
  pub sent : List Notice

abbrev house_host : Host House
house_host = record { clock = λ w. (pos 1000, w); uuid = λ w. ("id", w); wait = λ n w. (none, w) }

abbrev house_db : Dynamo Milli House Notice String
house_db = record {
  marshal_telemetry = λ t. err (external "not used");
  marshal_alert =
      λ a. ok (a.device_id, a.severity, or_empty (as_string (get "description" a.payload)));
  marshal_command = λ c. err (external "not used");
  marshal_payload = λ p. err (external "not used");
  unmarshal_telemetry = λ e. err (external "no reading");
  unmarshal_alert = λ e. err (external "no alert");
  unmarshal_state = λ e. err (external "no state");
  put_item = λ name item w. (returned tt, record w { stored = item ∷ w.stored });
  update_item = λ input w. (returned tt, w);
  get_item = λ name key w. (returned none, w);
  query = λ input w. (returned [], w);
  scan = λ input w. (returned (record { items = []; last_evaluated_key = none }), w);
  batch_write_item = λ name requests w. (returned [], w);
}

-- A message to the topic back is refused; every call of `send` is recorded.
abbrev phones : Messaging House
phones = record {
  send = λ topic title body w. (
    if topic == "back" then failed (external "refused") else returned "",
    record w { sent = (topic, title, body) ∷ w.sent },
  );
}

abbrev house_engine : AlertEngine House
house_engine = record {
  alert_store = record { table_name = "Alerts" };
  state_store = record { table_name = "States" };
  notifier = some phones;
}

house-RecordsRound :
    RecordsRound house_host house_db house_engine phones (λ n. n) (λ w. w.stored) (λ w. w.sent)
unfolding get
house-RecordsRound = record {
  clock_confirmed = λ w. refl;
  clock_handed = λ w. refl;
  uuid_confirmed = λ w. refl;
  uuid_handed = λ w. refl;
  encodes = λ now expires_at id a item h. cc;
  put_confirmed = λ item w w' h. cc;
  put_failed = λ item e w w' h. cc;
  put_handed = λ item w. refl;
  put_calm = λ item. record { at = λ w. by_value _ };
  send_handed = λ topic title body w. refl;
  send_confirmed = λ topic title body w. refl;
  send_calm = λ topic title body. record {
    at = λ w. elim (Bool-cases (topic == "back")) [
      | inl refused_topic ↦ rw refused_topic (by_error _)
      | inr other ↦ rw other (by_value _)
    ];
  };
}

abbrev front : DoorAlert
front = record {
  device_id = "front";
  device_type = "door-sensor";
  severity = "WARNING";
  description = "Warning: The door was left open.";
}

abbrev back : DoorAlert
back = record {
  device_id = "back";
  device_type = "door-sensor";
  severity = "CRITICAL";
  description = "Critical: The door has been open for 15 minutes. Please secure it.";
}

-- A door that has been open for so many seconds at the time 1000.
abbrev door_state : String → ℕ → DeviceState Milli
door_state device_id seconds = record {
  device_id = device_id;
  type = "door-sensor";
  status = "ONLINE";
  operational_state = "OPEN";
  health = "OK";
  payload =
      entry "open" (bool true)
        (entry "last_unlock" (float (milli (pos ((1000 - seconds) * 1000)))) empty);
  last_seen_at = pos 990;
  last_updated = pos 990;
}

abbrev doors : List (DeviceState Milli)
doors = door_state "front" 430 ∷ door_state "side" 60 ∷ door_state "back" 910 ∷ []

abbrev quiet : House
quiet = record { stored = []; sent = [] }

-- The goroutine of the given place, 0 or 1, makes a step.
abbrev Both : Type 0
Both = Stage × Stage × House

abbrev round : Both → Round House
round (f, b, w) = record { waiting = []; goroutines = (back, b) ∷ (front, f) ∷ []; world = w }

abbrev front_moved : Both → Both
front_moved (f, b, w) =
    let (f', w') = advance house_host house_db house_engine front f w in (f', b, w')

abbrev back_moved : Both → Both
back_moved (f, b, w) =
    let (b', w') = advance house_host house_db house_engine back b w in (f, b', w')

abbrev turn : Bool → Both → Both
turn true s = front_moved s
turn false s = back_moved s

abbrev turns : List Bool → Both → Both
turns [] s = s
turns (b ∷ bs) s = turns bs (turn b s)

turn-Step :
    (b : Bool) (s : Both) → Step house_host house_db house_engine (round s) (round (turn b s))
turn-Step true (f, b, w) = move [] ((back, b) ∷ []) [] front f w
turn-Step false (f, b, w) = move [] [] ((front, f) ∷ []) back b w

turns-Steps :
    (bs : List Bool) (s : Both)
    → Steps house_host house_db house_engine (round s) (round (turns bs s))
turns-Steps [] s = start (round s)
turns-Steps (b ∷ bs) s = next _ _ _ (turn-Step b s) (turns-Steps bs (turn b s))

-- An interleaving in which both alerts are stored before either is sent.
abbrev order : List Bool
order = true ∷ false ∷ true ∷ false ∷ false ∷ true ∷ false ∷ true ∷ true ∷ false ∷ []

abbrev last_state : Both
last_state = turns order (called, called, quiet)

both_run :
    Steps house_host house_db house_engine
      (record { waiting = door_alerts (pos 1000) doors; goroutines = []; world = quiet })
      (record {
        waiting = [];
        goroutines = (back, finished) ∷ (front, finished) ∷ [];
        world = last_state.2;
      })
unfolding advance get door_alerts door_alarm is_open start_timestamp sub64 wrap64 ◌-ℤ◌ ◌+ℤ◌
both_run = next _ _ _ (spawn front (back ∷ []) [] quiet) (
    next _ _ _ (spawn back [] ((front, called) ∷ []) quiet)
      (turns-Steps order (called, called, quiet)))

abbrev all : Notice → Bool
all n = true

door_alerts-exactly_example :
    (count all last_state.2.stored ≡ 2)
    × (count all last_state.2.sent ≡ 2)
    × (count (λ a. all (notice_of a)) (door_alerts (pos 1000) doors) ≡ 2)
    × ((id : String)
        → count (is_about id) last_state.2.sent ≤ count (is_about id) [] + count (is_of id) doors)
door_alerts-exactly_example =
    door_alerts-exactly house_host house_db house_engine phones (λ n. n) (λ w. w.stored)
      (λ w. w.sent) house-RecordsRound refl all (pos 1000) doors
      ((back, finished) ∷ (front, finished) ∷ []) quiet last_state.2 both_run (tt, (tt, tt))
