-- ===== src/Devices/Store.antt =====
-- backend/internal/devices/store_state.go, the table of live device states.
pub mod Pages
pub mod Keeps
pub mod Freshness
pub mod Register
use Prim.Native.String
use io_t_fleet_management.Prelude.{
  [], ◌∷◌, ◌==◌, some, none, true, false, ℕ, Bool, List, if◌then◌else◌, ◌*◌, ltb, Option, suc, ◌^◌,
  ◌-◌, not, ◌++◌, zero,
}
use io_t_fleet_management.Go.Outcome.{
  ◌>>=◌, ◌>>◌, Result, Action, err, annotate, ok, plain, pure, from,
}
use Prim.Native.String.{String}
use io_t_fleet_management.Go.Float.{Float64}
use io_t_fleet_management.Prelude.Int.{ℤ, pos, ltb_ℤ, negsuc, ◌-ℤ◌, pos_part, neg_part}
use io_t_fleet_management.Cloud.{
  Host, Attr, Dynamo, UpdateItemInput, text, ScanInput, number, reads, marshalled,
}
use io_t_fleet_management.Models.{DeviceState, Telemetry}
use io_t_fleet_management.Devices.{extract_state}
use io_t_fleet_management.Go.Text.Decimal.{decimal_ℤ}

pub record StateStore : Type 0 where
  pub table_name : String

unfoldable pub new_state_store : (String → String) → Bool → Result StateStore
new_state_store getenv ready =
    let table_name = getenv "DYNAMODB_DEVICE_STATE_TABLE" in
    if table_name == ""
    then err (plain "DYNAMODB_DEVICE_STATE_TABLE is not set")
    else if not ready
    then err (plain "dynamodb client not initialized")
    else ok (record { table_name = table_name })

-- `OfflineLimit`, in nanoseconds.
abbrev pub offline_limit : ℕ
offline_limit = 120 * 1_000_000_000

-- `time.Since(time.Unix(lastSeenAt, 0))` for a clock reading in nanoseconds: the difference, kept in
-- the range of `time.Duration`. Only its order against two minutes counts.
abbrev saturated : ℤ → ℤ
saturated a =
    if ltb (2 ^ 63 - 1) (pos_part a)
    then pos (2 ^ 63 - 1)
    else if ltb (2 ^ 63) (neg_part a)
    then negsuc (2 ^ 63 - 1)
    else a

abbrev nanoseconds : ℤ → ℤ
nanoseconds (pos n) = pos (n * 1_000_000_000)
nanoseconds (negsuc n) = negsuc (suc n * 1_000_000_000 - 1)

unfoldable pub connection_status : (now_ns last_seen_at : ℤ) → String
connection_status now_ns last_seen_at =
    if ltb_ℤ (pos offline_limit) (saturated (now_ns -ℤ nanoseconds last_seen_at))
    then "OFFLINE"
    else "ONLINE"

abbrev pub fresh_condition : String
fresh_condition = "attribute_not_exists(last_seen_at) OR last_seen_at <= :last_seen"

-- The expressions of the two updates, without the layout of the first.
abbrev pub telemetry_update : String
telemetry_update =
    "SET #type = :type, #status = :status, operational_state = :op_state, health = :health, payload = :payload, last_seen_at = :last_seen, updated_at = :updated_at"

abbrev pub heartbeat_update : String
heartbeat_update = "SET #status = :status, last_seen_at = :last_seen"

abbrev pub device_key : {Raw : Type 0} → String → List (String × Attr Raw)
device_key device_id = ("device_id", text device_id) ∷ []

module _ {F W Item Raw : Type 0} ⦃d : Float64 F⦄ (host : Host W) (db : Dynamo F W Item Raw)
    (store : StateStore) where
  abbrev pub telemetry_input : Telemetry F → ℤ → Raw → UpdateItemInput Raw
  telemetry_input tel now payload =
      let (op_state, health) = extract_state tel.type tel.payload in
      record {
        table_name = store.table_name;
        key = device_key tel.device_id;
        condition_expression = fresh_condition;
        update_expression = telemetry_update;
        names = ("#type", "type") ∷ ("#status", "status") ∷ [];
        values =
            (":type", text tel.type)
            ∷ (":status", text "ONLINE")
            ∷ (":op_state", text op_state)
            ∷ (":health", text health)
            ∷ (":payload", marshalled payload)
            ∷ (":last_seen", number (decimal_ℤ tel.timestamp))
            ∷ (":updated_at", number (decimal_ℤ now))
            ∷ [];
      }

  unfoldable pub update_from_telemetry : Telemetry F → Action W (Unit {0})
  update_from_telemetry tel = do
    now ← reads host.clock
    payload ← annotate "failed to marshal payload" (from (db.marshal_payload tel.payload))
    annotate "failed to update device state" (db.update_item (telemetry_input tel now payload))

  abbrev pub heartbeat_input : String → ℤ → UpdateItemInput Raw
  heartbeat_input device_id now = record {
    table_name = store.table_name;
    key = device_key device_id;
    condition_expression = fresh_condition;
    update_expression = heartbeat_update;
    names = ("#status", "status") ∷ [];
    values = (":status", text "ONLINE") ∷ (":last_seen", number (decimal_ℤ now)) ∷ [];
  }

  unfoldable pub update_heartbeat : String → Action W (Unit {0})
  update_heartbeat device_id = do
    now ← reads host.clock
    db.update_item (heartbeat_input device_id now)

  -- The items of one page that decode; the others are skipped with a warning.
  abbrev pub decoded_states : List Item → List (DeviceState F)
  decoded_states [] = []
  decoded_states (item ∷ items) = elim (db.unmarshal_state item) [
    | ok state ↦ state ∷ decoded_states items
    | err _ ↦ decoded_states items
  ]

  abbrev pub page_input : Option Item → ScanInput Item Raw
  page_input start = record {
    table_name = store.table_name;
    filter_expression = none;
    names = [];
    values = [];
    exclusive_start_key = start;
  }

  -- The loop over the pages. The service decides how many there are: `none` means that the fuel ran
  -- out before the last one.
  unfoldable pub scan_pages :
      ℕ → Option Item → List (DeviceState F) → Action W (Option (List (DeviceState F)))
  scan_pages zero start states = pure none
  scan_pages (suc fuel) start states = do
    page ← annotate "failed to scan device states" (db.scan (page_input start))
    let states' = states ++ decoded_states page.items
    elim page.last_evaluated_key [
      | none ↦ pure (some states')
      | some key ↦ scan_pages fuel (some key) states'
    ]

  unfoldable pub get_all_states : ℕ → Action W (Option (List (DeviceState F)))
  get_all_states fuel = scan_pages fuel none []

  unfoldable pub get_state_by_id : String → Action W (Option (DeviceState F))
  get_state_by_id device_id = do
    item ← annotate "failed to get device" (db.get_item store.table_name (device_key device_id))
    elim item [
      | none ↦ pure none
      | some found ↦ do
        state ← annotate "failed to unmarshal device state" (from (db.unmarshal_state found))
        pure (some state)
    ]
