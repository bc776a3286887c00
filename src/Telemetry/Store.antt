-- ===== src/Telemetry/Store.antt =====
-- backend/internal/telemetry/store_telemetry.go.
pub mod Chunks
pub mod Retry
pub mod Success
pub mod Keeps
use Prim.Native.String
use io_t_fleet_management.Prelude.{
  [], ◌∷◌, ◌==◌, some, none, true, false, List, ℕ, Bool, ◌^◌, if◌then◌else◌, ◌-◌, suc, ◌*◌, ◌+◌,
  ltb, length, take, zero, drop,
}
use io_t_fleet_management.Go.Outcome.{
  ◌>>=◌, ◌>>◌, Result, Action, Error, annotate, err, fail, ok, plain, pure, from, returned, wrap,
  bind, failed, restate, wrapping,
}
use Prim.Native.String.{String}
use io_t_fleet_management.Cloud.{Host, Dynamo, QueryInput, reads, days_from, text, number}
use io_t_fleet_management.Models.{Telemetry}
use io_t_fleet_management.Prelude.Int.{ℤ, eq_ℤ, ltb_ℤ, pos}
use io_t_fleet_management.Alerts.{unmarshal_all}
use io_t_fleet_management.Go.Text.Decimal.{decimal_ℤ, decimal}

abbrev pub dynamo_batch_limit : ℕ
dynamo_batch_limit = 25

abbrev pub max_retries : ℕ
max_retries = 3

pub record TelemetryStore : Type 0 where
  pub table_name : String

-- Unlike the other stores this one does not ask whether the client is set.
unfoldable pub new_telemetry_store : (String → String) → Result TelemetryStore
new_telemetry_store getenv =
    let table_name = getenv "DYNAMODB_TABLE_NAME" in
    if table_name == ""
    then err (plain "DYNAMODB_TABLE_NAME environment variable is not set")
    else ok (record { table_name = table_name })

-- `1<<uint(attempt-1)` times 100 milliseconds.
abbrev pub backoff : ℕ → ℕ
backoff attempt = 2 ^ (attempt - 1) * 100

-- The loop ends if the length of `UnprocessedItems[table]` is zero.
abbrev pub unless_done :
    {W Item : Type 0} → List Item → (List Item → Action W (Unit {0})) → Action W (Unit {0})
unless_done [] retry = pure tt
unless_done (item ∷ items) retry = retry (item ∷ items)

module _ {F W Item Raw : Type 0} (host : Host W) (db : Dynamo F W Item Raw)
    (store : TelemetryStore) where
  abbrev with_expiry : ℤ → Telemetry F → Telemetry F
  with_expiry expiry t = if eq_ℤ t.expires_at (pos 0) then record t { expires_at = expiry } else t

  abbrev with_own_expiry : Telemetry F → Action W (Telemetry F)
  with_own_expiry t =
      if eq_ℤ t.expires_at (pos 0)
      then (do now ← reads host.clock; pure (record t { expires_at = days_from now 7 }))
      else pure t

  unfoldable pub save_telemetry : Telemetry F → Action W (Unit {0})
  save_telemetry t = do
    kept ← with_own_expiry t
    item ← restate "failed to marshal telemetry data" (from (db.marshal_telemetry kept))
    restate "failed to store data into DynamoDB" (db.put_item store.table_name item)

  -- The wait before every attempt but the first; `ctx` may end it with an error.
  abbrev back_off : ℕ → Action W (Unit {0})
  back_off zero w = (returned tt, w)
  back_off (suc n) w =
      let (ended, w') = host.wait (backoff (suc n)) w in
      elim ended [ none ↦ (returned tt, w') | some e ↦ (failed e, w') ]

  still_unprocessed : List Item → Error
  still_unprocessed pending = plain (
      String.◌++◌ "batch write: " (
        String.◌++◌ (decimal (length pending)) (
          String.◌++◌ " items still unprocessed after "
            (String.◌++◌ (decimal max_retries) " retries"))))

  abbrev pub write_once : ℕ → List Item → Action W (List Item)
  write_once attempt pending =
      annotate (String.◌++◌ "batch write attempt " (String.◌++◌ (decimal (attempt + 1)) " failed"))
        (db.batch_write_item store.table_name pending)

  -- The loop of `writeBatchWithRetry`, with `left` attempts to go from the attempt of that number on.
  unfoldable pub write_attempts : (left attempt : ℕ) → List Item → Action W (Unit {0})
  unfolding still_unprocessed
  write_attempts zero attempt pending = fail (still_unprocessed pending)
  write_attempts (suc left) attempt pending = do
    back_off attempt
    unprocessed ← write_once attempt pending
    unless_done unprocessed (write_attempts left (attempt + 1))

  unfoldable pub write_batch_with_retry : List Item → Action W (Unit {0})
  write_batch_with_retry requests = write_attempts (suc max_retries) 0 requests

  -- The write requests of one chunk.
  unfoldable pub write_requests : ℤ → List (Telemetry F) → Result (List Item)
  write_requests expiry [] = ok []
  write_requests expiry (t ∷ chunk) =
      let rest = write_requests expiry chunk in
      bind (wrapping "failed to marshal batch item" (db.marshal_telemetry (with_expiry expiry t)))
        λ item. bind rest λ items. ok (item ∷ items)

  -- `dataList[i:end]`.
  abbrev pub chunk_at : ℕ → List (Telemetry F) → List (Telemetry F)
  chunk_at i data_list =
      let end = i + dynamo_batch_limit in
      let stop = if ltb (length data_list) end then length data_list else end in
      take (stop - i) (drop i data_list)

  -- The loop over the chunks from the index `i` on; it ends by its test if the fuel is at least the
  -- number of readings.
  unfoldable pub save_chunks : (fuel i : ℕ) → ℤ → List (Telemetry F) → Action W (Unit {0})
  save_chunks zero i expiry data_list = pure tt
  save_chunks (suc fuel) i expiry data_list = elim (ltb i (length data_list)) [
    | false ↦ pure tt
    | true ↦ do
      requests ← from (write_requests expiry (chunk_at i data_list))
      write_batch_with_retry requests
      save_chunks fuel (i + dynamo_batch_limit) expiry data_list
  ]

  unfoldable pub save_telemetry_batch : List (Telemetry F) → Action W (Unit {0})
  save_telemetry_batch [] = pure tt
  save_telemetry_batch (t ∷ others) = do
    now ← reads host.clock
    save_chunks (suc (length others)) 0 (days_from now 7) (t ∷ others)

  -- The query for the readings of a device, newest first.
  abbrev pub history_input : String → ℤ → ℤ → QueryInput Raw
  history_input device_id limit since = record {
    table_name = store.table_name;
    index_name = none;
    key_condition =
        if ltb_ℤ (pos 0) since then "device_id = :id AND #ts >= :since" else "device_id = :id";
    names = if ltb_ℤ (pos 0) since then ("#ts", "timestamp") ∷ [] else [];
    values =
        (":id", text device_id)
        ∷ (if ltb_ℤ (pos 0) since then (":since", number (decimal_ℤ since)) ∷ [] else []);
    scan_index_forward = false;
    limit = if ltb_ℤ (pos 0) limit then some limit else none;
  }

  unfoldable pub get_telemetry_history : String → ℤ → ℤ → Action W (List (Telemetry F))
  get_telemetry_history device_id limit since = do
    items ←
        annotate (String.◌++◌ "failed to query telemetry history for device " device_id)
          (db.query (history_input device_id limit since))
    annotate (String.◌++◌ "failed to unmarshal telemetry history for device " device_id)
        (from (unmarshal_all db.unmarshal_telemetry items))
