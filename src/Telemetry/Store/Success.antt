-- ===== src/Telemetry/Store/Success.antt =====
-- backend/internal/telemetry/store_telemetry.go: `SaveTelemetryBatch` on a service that takes every
-- request that its documentation allows.
use io_t_fleet_management.Prelude.{
  [], ◌∷◌, refl, inl, inr, zero, suc, ap, ◌∙◌, String, List, ℕ, ◌≡◌, Bool-cases, length, ltb, ◌+◌,
  All, arith, drop, take, ◌<◌, ◌≤◌, length-drop, ◌-◌, length-take,
}
use io_t_fleet_management.Go.Outcome.{◌>>=◌, ok, returned, lift, Action, from}
use io_t_fleet_management.Go.Steps.{chain-returned, annotate-of-returned}
use io_t_fleet_management.Cloud.{Dynamo, Host, days_from}
use io_t_fleet_management.Telemetry.Store.{
  TelemetryStore, save_chunks, save_telemetry_batch, write_batch_with_retry, write_requests,
  write_attempts, with_expiry, unless_done, chunk_at, write_once,
}
use io_t_fleet_management.Models.{Telemetry}
use io_t_fleet_management.Prelude.Int.{ℤ, eq_ℤ, pos}

-- No element comes twice.
abbrev pub IsDistinct : {A : Type 0} → List A → Type 0
IsDistinct [] = Unit {0}
IsDistinct (x ∷ xs) = All (λ y. ¬ x ≡ y) xs × IsDistinct xs

-- The key of a reading in the table.
abbrev pub reading_key : {F : Type 0} → Telemetry F → String × ℤ
reading_key t = (t.device_id, t.timestamp)

abbrev pub all_keys : {A : Type 0} → (A → String × ℤ) → List A → List (String × ℤ)
all_keys key [] = []
all_keys key (x ∷ xs) = key x ∷ all_keys key xs

-- Every reading can be encoded, to an item with its device and its time as the key, and every batch
-- call with at least one and at most 25 requests for different keys writes all of them.
pub record IsReliable {F W Item Raw : Type 0} (db : Dynamo F W Item Raw) (table : String)
    (key : Item → String × ℤ) : Type 0 where
  pub encodes :
      (t : Telemetry F)
      → (item : Item) × (db.marshal_telemetry t ≡ ok item) × (key item ≡ reading_key t)
  pub takes :
      (requests : List Item) (w : W)
      → 0 < length requests
      → length requests ≤ 25
      → IsDistinct (all_keys key requests)
      → (w' : W) × (db.batch_write_item table requests w ≡ (returned [], w'))

module _ {A : Type 0} (key : A → String × ℤ) where
  keys-take-All :
      (P : String × ℤ → Type 0) (n : ℕ) (xs : List A)
      → All P (all_keys key xs)
      → All P (all_keys key (take n xs))
  keys-take-All P zero xs h = tt
  keys-take-All P (suc n) [] h = tt
  keys-take-All P (suc n) (x ∷ xs) (h, hs) = (h, keys-take-All P n xs hs)

  take-IsDistinct :
      (n : ℕ) (xs : List A) → IsDistinct (all_keys key xs) → IsDistinct (all_keys key (take n xs))
  take-IsDistinct zero xs h = tt
  take-IsDistinct (suc n) [] h = tt
  take-IsDistinct (suc n) (x ∷ xs) (h, hs) = (keys-take-All _ n xs h, take-IsDistinct n xs hs)

  drop-IsDistinct :
      (n : ℕ) (xs : List A) → IsDistinct (all_keys key xs) → IsDistinct (all_keys key (drop n xs))
  drop-IsDistinct zero xs h = h
  drop-IsDistinct (suc n) [] h = tt
  drop-IsDistinct (suc n) (x ∷ xs) (h, hs) = drop-IsDistinct n xs hs

module _ {F W Item Raw : Type 0} (host : Host W) (db : Dynamo F W Item Raw) (store : TelemetryStore)
    (key : Item → String × ℤ) (reliable : IsReliable db store.table_name key) where
  -- A chunk has at least one reading and at most 25.
  length-chunk_at :
      (i : ℕ) (xs : List (Telemetry F))
      → i < length xs
      → (0 < length (chunk_at host db store i xs)) × (length (chunk_at host db store i xs) ≤ 25)
  length-chunk_at i xs h =
      let left = length-drop i xs in
      elim (Bool-cases (ltb (length xs) (i + 25))) [
        | inl over ↦
            let n = length-take (length xs - i) (drop i xs) in
            rw over (ground (arith, n, left), ground (arith, n, left))
        | inr within ↦
            let n = length-take (i + 25 - i) (drop i xs) in
            rw within (ground (arith, n, left), ground (arith, n, left))
      ]

  write_batch_with_retry-returned :
      (requests : List Item) (w : W)
      → 0 < length requests
      → length requests ≤ 25
      → IsDistinct (all_keys key requests)
      → (w' : W) × (write_batch_with_retry host db store requests w ≡ (returned tt, w'))
  unfolding write_batch_with_retry write_attempts
  write_batch_with_retry-returned requests w some_left few distinct =
      let (w', e) = reliable.takes requests w some_left few distinct in
      let rest : List Item → Action W (Unit {0}) =
        λ unprocessed. unless_done unprocessed (write_attempts host db store 3 1) in
      (
        w',
        chain-returned (write_once host db store 0 requests) rest w w' []
            (annotate-of-returned _ (db.batch_write_item store.table_name requests) w w' [] e),
      )

  key_kept :
      (expiry : ℤ) (t : Telemetry F)
      → reading_key (with_expiry host db store expiry t) ≡ reading_key t
  key_kept expiry t = elim (Bool-cases (eq_ℤ t.expires_at (pos 0))) [
    | inl e ↦ rw e refl
    | inr e ↦ rw e refl
  ]

  write_requests-ok :
      (expiry : ℤ) (xs : List (Telemetry F))
      → (items : List Item) × (write_requests host db store expiry xs ≡ ok items)
        × (all_keys key items ≡ all_keys reading_key xs)
        × (length items ≡ length xs)
  unfolding write_requests
  write_requests-ok expiry [] = ([], refl, refl, refl)
  write_requests-ok expiry (x ∷ xs) =
      let (item, e, k) = reliable.encodes (with_expiry host db store expiry x) in
      let (items, h, same, long) = write_requests-ok expiry xs in
      let first : key item ≡ reading_key x = k ∙ key_kept expiry x in
      (
        item ∷ items,
        rw (e, h),
        ap (λ y. y ∷ all_keys key items) first ∙ ap (λ ys. reading_key x ∷ ys) same,
        omega (arith, long),
      )

  save_chunks-returned :
      (fuel i : ℕ) (expiry : ℤ) (xs : List (Telemetry F)) (w : W)
      → IsDistinct (all_keys reading_key xs)
      → (w' : W) × (save_chunks host db store fuel i expiry xs w ≡ (returned tt, w'))
  unfolding save_chunks
  save_chunks-returned zero i expiry xs w distinct = (w, refl)
  save_chunks-returned (suc fuel) i expiry xs w distinct = elim (Bool-cases (ltb i (length xs))) [
    | inr done ↦ (w, rw (done, save_chunks) refl)
    | inl more ↦
        let chunk = chunk_at host db store i xs in
        let next : Action W (Unit {0}) = save_chunks host db store fuel (i + 25) expiry xs in
        let write : List Item → Action W (Unit {0}) = write_batch_with_retry host db store in
        let prepared : Action W (List Item) = from (write_requests host db store expiry chunk) in
        let (requests, ready, same, long) = write_requests-ok expiry chunk in
        let (some_left, few) = length-chunk_at i xs (ground arith) in
        let apart : IsDistinct (all_keys reading_key chunk) =
          take-IsDistinct reading_key _ (drop i xs) (drop-IsDistinct reading_key i xs distinct) in
        let (w1, wrote) =
          write_batch_with_retry-returned requests w (omega (arith, some_left, long))
            (omega (arith, few, long)) (rw same apart) in
        let (w2, others) = save_chunks-returned fuel (i + 25) expiry xs w1 distinct in
        (
          w2,
          rw (more, save_chunks)
              (chain-returned prepared (λ rs. write rs >>= λ _. next) w w requests
                  (ap (λ r. (lift r, w)) ready)
                ∙ chain-returned (write requests) (λ _. next) w w1 tt wrote
                ∙ others),
        )
  ]

  -- On a service that can encode every reading and takes every batch of at most 25 requests for
  -- different keys, storing a batch of any length, with no two readings of one device for one time,
  -- reports success.
  pub save_telemetry_batch-returned :
      (xs : List (Telemetry F)) (w : W)
      → IsDistinct (all_keys reading_key xs)
      → (w' : W) × (save_telemetry_batch host db store xs w ≡ (returned tt, w'))
  unfolding save_telemetry_batch
  save_telemetry_batch-returned [] w distinct = (w, refl)
  save_telemetry_batch-returned (x ∷ xs) w distinct =
      save_chunks-returned (suc (length xs)) 0 (days_from (host.clock w).0 7) (x ∷ xs)
        (host.clock w).1 distinct
