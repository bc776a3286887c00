-- ===== src/Telemetry/Store/Retry.antt =====
-- backend/internal/telemetry/store_telemetry.go: the attempts of `writeBatchWithRetry`.
use Prim.Native.String
use native.Mathlib.Nat.{le_trans}
use mathlib.Core.List.{Perm}
use mathlib.Core.List.Perm
use io_t_fleet_management.Prelude.{
  [], ◌∷◌, ◌++◌, refl, String, List, ℕ, ◌≡◌, suc, ◌+◌, zero, arith, ◌≤◌, subst, append-nil,
}
use io_t_fleet_management.Go.Outcome.{
  returned, Action, failed≢returned, annotate-world, >>=-world, >>=-returned, annotate-returned,
  ◌>>=◌,
}
use io_t_fleet_management.Cloud.{Host, Dynamo}
use io_t_fleet_management.Telemetry.Store.{
  TelemetryStore, back_off, backoff, write_attempts, write_batch_with_retry, write_once,
  unless_done, decimal,
}

-- What the store relies on: `written` is the content of the table and `calls` counts the batch
-- calls. A call that succeeds has written the requests that it does not give back, and a wait
-- writes nothing. Of a call that fails nothing is known but that it is one call.
pub record WritesBatches {F W Item Raw : Type 0} (host : Host W) (db : Dynamo F W Item Raw)
    (table : String) (written : W → List Item) (calls : W → ℕ) : Type 0 where
  pub partition :
      (requests unprocessed : List Item) (w w' : W)
      → db.batch_write_item table requests w ≡ (returned unprocessed, w')
      → Perm (written w' ++ unprocessed) (written w ++ requests)
  pub one_call :
      (requests : List Item) (w : W) → calls (db.batch_write_item table requests w).1 ≡ calls w + 1
  pub wait_writes : (n : ℕ) (w : W) → written (host.wait n w).1 ≡ written w
  pub wait_calls : (n : ℕ) (w : W) → calls (host.wait n w).1 ≡ calls w

attempt_text : ℕ → String
attempt_text attempt =
    String.◌++◌ "batch write attempt " (String.◌++◌ (decimal (attempt + 1)) " failed")

module _ {F W Item Raw : Type 0} (host : Host W) (db : Dynamo F W Item Raw) (store : TelemetryStore)
    (written : W → List Item) (calls : W → ℕ)
    (laws : WritesBatches host db store.table_name written calls) where
  back_off-written :
      (attempt : ℕ) (w w' : W)
      → back_off host db store attempt w ≡ (returned tt, w')
      → (written w' ≡ written w) × (calls w' ≡ calls w)
  back_off-written zero w w' h = ground arith
  back_off-written (suc n) w w' h =
      ground (arith, laws.wait_writes (backoff (suc n)) w, laws.wait_calls (backoff (suc n)) w)

  back_off-calls : (attempt : ℕ) (w : W) → calls (back_off host db store attempt w).1 ≡ calls w
  back_off-calls zero w = refl
  back_off-calls (suc n) w = ground (arith, laws.wait_calls (backoff (suc n)) w)

  write_once-returned :
      (attempt : ℕ) (pending unprocessed : List Item) (w w' : W)
      → write_once host db store attempt pending w ≡ (returned unprocessed, w')
      → db.batch_write_item store.table_name pending w ≡ (returned unprocessed, w')
  unfolding attempt_text
  write_once-returned attempt pending unprocessed w w' h =
      annotate-returned (attempt_text attempt) (db.batch_write_item store.table_name pending) w w'
        unprocessed h

  -- What the loop has written when it returns: all that was pending.
  write_attempts-written :
      (left attempt : ℕ) (pending : List Item) (w w' : W)
      → write_attempts host db store left attempt pending w ≡ (returned tt, w')
      → Perm (written w') (written w ++ pending)
  unfolding write_attempts
  write_attempts-written zero attempt pending w w' h = absurd (failed≢returned h)
  write_attempts-written (suc left) attempt pending w w' h =
      let rest : List Item → Action W (Unit {0}) =
        λ unprocessed. unless_done unprocessed (write_attempts host db store left (attempt + 1)) in
      let (_, w1, waited, h1) =
        >>=-returned (back_off host db store attempt)
          (λ _. write_once host db store attempt pending >>= rest) w w' tt h in
      let (unprocessed, w2, wrote, h2) =
        >>=-returned (write_once host db store attempt pending) rest w1 w' tt h1 in
      let (same, _) = back_off-written attempt w w1 waited in
      let part =
        laws.partition pending unprocessed w1 w2
          (write_once-returned attempt pending unprocessed w1 w2 wrote) in
      go unprocessed (write_attempts-written left (attempt + 1)) w2 (rw same at part) h2
    where
      go :
          (unprocessed : List Item)
          → ((later : List Item) (v v' : W)
              → write_attempts host db store left (attempt + 1) later v ≡ (returned tt, v')
              → Perm (written v') (written v ++ later))
          → (v : W) → Perm (written v ++ unprocessed) (written w ++ pending)
          → unless_done unprocessed (write_attempts host db store left (attempt + 1)) v
            ≡ (returned tt, w')
          → Perm (written w') (written w ++ pending)
      go [] ih v part k =
          let same : v ≡ w' = cc in
          subst (λ u. Perm (written u) (written w ++ pending)) same (rw append-nil at part)
      go (x ∷ xs) ih v part k = Perm.trans (ih (x ∷ xs) v w' k) part

  -- Each attempt is at most one call.
  write_attempts-calls :
      (left attempt : ℕ) (pending : List Item) (w : W)
      → calls (write_attempts host db store left attempt pending w).1 ≤ calls w + left
  unfolding write_attempts attempt_text
  write_attempts-calls zero attempt pending w = omega arith
  write_attempts-calls (suc left) attempt pending w =
      let bound : W → Type 0 = λ v. calls v ≤ calls w + suc left in
      let w1 = (back_off host db store attempt w).1 in
      let w2 = (db.batch_write_item store.table_name pending w1).1 in
      let waited : calls w1 ≡ calls w = back_off-calls attempt w in
      let called : calls w2 ≡ calls w1 + 1 = laws.one_call pending w1 in
      let same =
        annotate-world (attempt_text attempt) (db.batch_write_item store.table_name pending) w1 in
      let rest : List Item → Action W (Unit {0}) =
        λ unprocessed. unless_done unprocessed (write_attempts host db store left (attempt + 1)) in
      let first : bound w1 = omega arith in
      let second : bound w2 = omega arith in
      >>=-world bound (back_off host db store attempt)
        (λ _. write_once host db store attempt pending >>= rest) w first
        λ _.
          >>=-world bound (write_once host db store attempt pending) rest w1 (rw same second)
            λ unprocessed. rw same (
              again unprocessed w2 second (λ later.
                let ih = write_attempts-calls left (attempt + 1) later w2 in
                let step : calls w2 + left ≤ calls w + suc left = omega arith in le_trans ih step))
    where
      again :
          (unprocessed : List Item) (v : W)
          → calls v ≤ calls w + suc left
          → ((later : List Item)
              → calls (write_attempts host db store left (attempt + 1) later v).1
                ≤ calls w + suc left)
          → calls (unless_done unprocessed (write_attempts host db store left (attempt + 1)) v).1
            ≤ calls w + suc left
      again [] v h k = h
      again (x ∷ xs) v h k = k (x ∷ xs)

  -- On a service that obeys `WritesBatches`, a batch takes at most four calls, however it ends; and if
  -- it reports success, every request of the batch has been written, and nothing else.
  pub write_batch_with_retry_lem :
      (requests : List Item) (w : W)
      → (calls (write_batch_with_retry host db store requests w).1 ≤ calls w + 4)
        × ((w' : W)
            → write_batch_with_retry host db store requests w ≡ (returned tt, w')
            → Perm (written w') (written w ++ requests))
  unfolding write_batch_with_retry
  write_batch_with_retry_lem requests w =
      (write_attempts-calls 4 0 requests w, λ w' h. write_attempts-written 4 0 requests w w' h)
