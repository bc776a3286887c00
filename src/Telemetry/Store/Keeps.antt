-- ===== src/Telemetry/Store/Keeps.antt =====
-- backend/internal/telemetry/store_telemetry.go over a relation between worlds that each call of the
-- service keeps.
use Prim.Native.String
use Prim.Native.String.{String}
use io_t_fleet_management.Prelude.{
  [], ◌∷◌, some, none, zero, suc, ℕ, List, Option, ◌+◌, ltb, length,
}
use io_t_fleet_management.Go.Outcome.{returned, failed, Action, Error, Outcome}
use io_t_fleet_management.Go.Keeps.{
  IsPreorder, Keeps, >>=-Keeps, from-Keeps, pure-Keeps, keeps, fail-Keeps, Bool-Keeps,
  annotate-Keeps,
}
use io_t_fleet_management.Cloud.{Host, Dynamo, reads, QueryInput}
use io_t_fleet_management.Telemetry.Store.{
  TelemetryStore, save_telemetry, with_own_expiry, back_off, save_chunks, save_telemetry_batch,
  write_attempts, write_once, backoff, unless_done, write_batch_with_retry, write_requests,
  chunk_at, get_telemetry_history, history_input,
}
use io_t_fleet_management.Models.{Telemetry}
use io_t_fleet_management.Prelude.Int.{ℤ}
use io_t_fleet_management.Alerts.{unmarshal_all}

module _ {F W Item Raw : Type 0} (R : W → W → Type 0) (order : IsPreorder R) (host : Host W)
    (db : Dynamo F W Item Raw) (store : TelemetryStore) (clock : Keeps R (reads host.clock)) where
  with_own_expiry-Keeps : (t : Telemetry F) → Keeps R (with_own_expiry host db store t)
  with_own_expiry-Keeps t = search keeps

  pub save_telemetry-Keeps :
      (t : Telemetry F)
      → ((item : Item) → Keeps R (db.put_item store.table_name item))
      → Keeps R (save_telemetry host db store t)
  unfolding save_telemetry
  save_telemetry-Keeps t put = search (keeps, with_own_expiry-Keeps)

  module _ (wait : (n : ℕ) (w : W) → R w (host.wait n w).1)
      (batch : (items : List Item) → Keeps R (db.batch_write_item store.table_name items)) where
    ended-Keeps :
        (ended : Option Error × W) (w : W)
        → R w ended.1
        → R w
            (elim ended.0 as (λ _. Outcome (Unit {0}) × W) [
              | none ↦ (returned tt, ended.1)
              | some e ↦ (failed e, ended.1)
            ]).1
    ended-Keeps (none, v) w h = h
    ended-Keeps (some e, v) w h = h

    back_off-Keeps : (attempt : ℕ) → Keeps R (back_off host db store attempt)
    back_off-Keeps zero = record { at = order.same }
    back_off-Keeps (suc n) = record {
      at = λ w. ended-Keeps (host.wait (backoff (suc n)) w) w (wait (backoff (suc n)) w);
    }

    write_once-Keeps :
        (attempt : ℕ) (pending : List Item) → Keeps R (write_once host db store attempt pending)
    write_once-Keeps attempt pending = search (keeps, batch)

    unless_done-Keeps :
        (unprocessed : List Item) (retry : List Item → Action W (Unit {0}))
        → ((later : List Item) → Keeps R (retry later))
        → Keeps R (unless_done unprocessed retry)
    unless_done-Keeps [] retry h = pure-Keeps R order tt
    unless_done-Keeps (x ∷ xs) retry h = h (x ∷ xs)

    write_attempts-Keeps :
        (left attempt : ℕ) (pending : List Item)
        → Keeps R (write_attempts host db store left attempt pending)
    unfolding write_attempts
    write_attempts-Keeps zero attempt pending = fail-Keeps R order _ _
    write_attempts-Keeps (suc left) attempt pending =
        let later = write_attempts-Keeps left (attempt + 1) in
        search (keeps, back_off-Keeps, write_once-Keeps, unless_done-Keeps, later)

    write_batch-Keeps :
        (requests : List Item) → Keeps R (write_batch_with_retry host db store requests)
    unfolding write_batch_with_retry
    write_batch-Keeps requests = write_attempts-Keeps 4 0 requests

    save_chunks-Keeps :
        (fuel i : ℕ) (expiry : ℤ) (xs : List (Telemetry F))
        → Keeps R (save_chunks host db store fuel i expiry xs)
    unfolding save_chunks
    save_chunks-Keeps zero i expiry xs = pure-Keeps R order tt
    save_chunks-Keeps (suc fuel) i expiry xs =
        let later = save_chunks-Keeps fuel (i + 25) expiry xs in
        Bool-Keeps R order (ltb i (length xs)) _ _ (pure-Keeps R order tt) (
          >>=-Keeps R order _ _
            (from-Keeps R order (write_requests host db store expiry (chunk_at host db store i xs)))
            λ requests. >>=-Keeps R order _ _ (write_batch-Keeps requests) λ done. later)

    pub save_telemetry_batch-Keeps :
        (xs : List (Telemetry F)) → Keeps R (save_telemetry_batch host db store xs)
    unfolding save_telemetry_batch
    save_telemetry_batch-Keeps [] = pure-Keeps R order tt
    save_telemetry_batch-Keeps (x ∷ xs) = search (keeps, save_chunks-Keeps)

module _ {F W Item Raw : Type 0} (R : W → W → Type 0) (order : IsPreorder R) (host : Host W)
    (db : Dynamo F W Item Raw) (store : TelemetryStore)
    (query : (input : QueryInput Raw) → Keeps R (db.query input)) where
  pub get_telemetry_history-Keeps :
      (device_id : String) (limit since : ℤ)
      → Keeps R (get_telemetry_history host db store device_id limit since)
  unfolding get_telemetry_history
  get_telemetry_history-Keeps device_id limit since =
      >>=-Keeps R order _ _
        (annotate-Keeps R order
          (String.◌++◌ "failed to query telemetry history for device " device_id) _
          (query (history_input host db store device_id limit since)))
        λ items.
          annotate-Keeps R order
            (String.◌++◌ "failed to unmarshal telemetry history for device " device_id) _
            (from-Keeps R order (unmarshal_all db.unmarshal_telemetry items))
