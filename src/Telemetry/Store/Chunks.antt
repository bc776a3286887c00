-- ===== src/Telemetry/Store/Chunks.antt =====
-- backend/internal/telemetry/store_telemetry.go: the chunks of `SaveTelemetryBatch`.
use native.Mathlib.Nat.{zero-add}
use mathlib.Core.List.{Perm}
use mathlib.Core.List.Perm
use io_t_fleet_management.Prelude.{
  [], ◌∷◌, ◌++◌, refl, inl, inr, suc, zero, ◌+◌, ◌-◌, ℕ, List, drop, length, ◌≡◌, ◌≤◌, arith, take,
  ◌<◌, Bool-cases, ltb, append-nil, length-drop, ◌∙◌, sym, take-append-drop, append_assoc, subst,
  ap,
}
use io_t_fleet_management.Go.Outcome.{
  returned, ok, bind-eq-ok, ok-injective, Action, Result, wrapping, from, >>=-returned, bind, ◌>>=◌,
  from-returned, wrapping-ok,
}
use io_t_fleet_management.Cloud.{Host, Dynamo, days_from}
use io_t_fleet_management.Telemetry.Store.{
  TelemetryStore, write_requests, chunk_at, save_chunks, write_batch_with_retry, with_expiry,
  save_telemetry_batch,
}
use io_t_fleet_management.Models.{Telemetry}
use io_t_fleet_management.Prelude.Int.{ℤ, eq_ℤ, pos, eq_of_parts, pos_part, neg_part}
use io_t_fleet_management.Telemetry.Store.Retry.{WritesBatches, write_batch_with_retry_lem}

module _ {ℓ} {A : Type ℓ} where
  drop_all : (n : ℕ) (xs : List A) → length xs ≤ n → drop n xs ≡ []
  drop_all zero [] h = refl
  drop_all zero (x ∷ xs) h = absurd (omega arith)
  drop_all (suc n) [] h = refl
  drop_all (suc n) (x ∷ xs) h = drop_all n xs (omega arith)

  drop-drop : (i k : ℕ) (xs : List A) → drop k (drop i xs) ≡ drop (i + k) xs
  drop-drop zero k xs = rw zero-add
  drop-drop (suc i) k [] = drop_all k [] (omega arith) ∙ sym (drop_all (suc i + k) [] (omega arith))
  drop-drop (suc i) k (x ∷ xs) =
      let e : suc i + k ≡ suc (i + k) = omega arith in rw e (drop-drop i k xs)

  take_all : (n : ℕ) (xs : List A) → length xs ≤ n → take n xs ≡ xs
  take_all zero [] h = refl
  take_all zero (x ∷ xs) h = absurd (omega arith)
  take_all (suc n) [] h = refl
  take_all (suc n) (x ∷ xs) h = rw (take_all n xs (omega arith))

module _ {F W Item Raw : Type 0} (db : Dynamo F W Item Raw) where
  -- The item is the reading, with its own expiry, or the given one where it has none.
  pub record IsEncoded (expiry : ℤ) (t : Telemetry F) (item : Item) : Type 0 where
    pub unset :
        t.expires_at ≡ pos 0 → db.marshal_telemetry (record t { expires_at = expiry }) ≡ ok item
    pub own : ¬ t.expires_at ≡ pos 0 → db.marshal_telemetry t ≡ ok item

  -- The items are all the readings, one for one and in their order.
  abbrev pub Encoded : ℤ → List (Telemetry F) → List Item → Type 0
  Encoded expiry [] [] = Unit {0}
  Encoded expiry [] (item ∷ items) = ⊥
  Encoded expiry (t ∷ ts) [] = ⊥
  Encoded expiry (t ∷ ts) (item ∷ items) = IsEncoded expiry t item × Encoded expiry ts items

module _ {F W Item Raw : Type 0} (host : Host W) (db : Dynamo F W Item Raw)
    (store : TelemetryStore) where
  with_expiry-IsEncoded :
      (expiry : ℤ) (t : Telemetry F) (item : Item)
      → db.marshal_telemetry (with_expiry host db store expiry t) ≡ ok item
      → IsEncoded db expiry t item
  with_expiry-IsEncoded expiry t item h = elim (Bool-cases (eq_ℤ t.expires_at (pos 0))) [
    | inl e ↦ record {
      unset = λ _. rw e at h;
      own = λ ne. absurd (ne (eq_of_parts t.expires_at (pos 0) (ground arith)));
    }
    | inr e ↦ record {
      unset = λ same. absurd (ground (arith, ap pos_part same, ap neg_part same));
      own = λ _. rw e at h;
    }
  ]

  write_requests-Encoded :
      (expiry : ℤ) (xs : List (Telemetry F)) (items : List Item)
      → write_requests host db store expiry xs ≡ ok items
      → Encoded db expiry xs items
  unfolding write_requests
  write_requests-Encoded expiry [] items h =
      let e : [] ≡ items = ok-injective h in subst (Encoded db expiry []) e tt
  write_requests-Encoded expiry (x ∷ xs) items h =
      let one : Result Item =
        wrapping "failed to marshal batch item"
          (db.marshal_telemetry (with_expiry host db store expiry x)) in
      let rest = write_requests host db store expiry xs in
      let onto : Item → List Item → Result (List Item) = λ item items. ok (item ∷ items) in
      let (item, e, h1) = bind-eq-ok one (λ item. bind rest (onto item)) h in
      let (others, e', h2) = bind-eq-ok rest (onto item) h1 in
      subst (Encoded db expiry (x ∷ xs)) (ok-injective h2) (
        with_expiry-IsEncoded expiry x item (wrapping-ok "failed to marshal batch item" _ e),
        write_requests-Encoded expiry xs others e',
      )

  -- A chunk and what is behind it.
  chunk_at-append-drop :
      (i : ℕ) (xs : List (Telemetry F))
      → i < length xs
      → chunk_at host db store i xs ++ drop (i + 25) xs ≡ drop i xs
  chunk_at-append-drop i xs h = elim (Bool-cases (ltb (length xs) (i + 25))) [
    | inl over ↦
        rw (over, drop_all (i + 25) xs (ground arith), append-nil)
          (take_all (length xs - i) (drop i xs) (omega (arith, length-drop i xs)))
    | inr within ↦
        let full : i + 25 - i ≡ 25 = omega arith in
        rw (within, full, ← drop-drop i 25 xs) (take-append-drop 25 (drop i xs))
  ]

  write_requests-append :
      (expiry : ℤ) (xs ys : List (Telemetry F)) (is js : List Item)
      → write_requests host db store expiry xs ≡ ok is
      → write_requests host db store expiry ys ≡ ok js
      → write_requests host db store expiry (xs ++ ys) ≡ ok (is ++ js)
  unfolding write_requests
  write_requests-append expiry [] ys is js h k = let e : [] ≡ is = cc in rw (← e) k
  write_requests-append expiry (x ∷ xs) ys is js h k =
      let one : Result Item =
        wrapping "failed to marshal batch item"
          (db.marshal_telemetry (with_expiry host db store expiry x)) in
      let rest = write_requests host db store expiry xs in
      let onto : Item → List Item → Result (List Item) = λ item items. ok (item ∷ items) in
      let (item, e, h1) = bind-eq-ok one (λ item. bind rest (onto item)) h in
      let (items, e', h2) = bind-eq-ok rest (onto item) h1 in
      let same : item ∷ items ≡ is = ok-injective h2 in
      rw (e, write_requests-append expiry xs ys items js e' k, ← same)

  module _ (written : W → List Item) (calls : W → ℕ)
      (laws : WritesBatches host db store.table_name written calls) where
    save_chunks-written :
        (fuel i : ℕ) (expiry : ℤ) (xs : List (Telemetry F)) (w w' : W)
        → length xs ≤ i + fuel
        → save_chunks host db store fuel i expiry xs w ≡ (returned tt, w')
        → (items : List Item) × (write_requests host db store expiry (drop i xs) ≡ ok items)
          × Perm (written w') (written w ++ items)
    unfolding save_chunks
    save_chunks-written zero i expiry xs w w' enough h =
        let same : w ≡ w' = cc in
        (
          [],
          rw (drop_all i xs (omega arith)) (unfold write_requests in refl),
          rw (same, append-nil) (Perm.refl _),
        )
    save_chunks-written (suc fuel) i expiry xs w w' enough h =
        elim (Bool-cases (ltb i (length xs))) [
          | inr done ↦
              let same : w ≡ w' = cc in
              (
                [],
                rw (drop_all i xs (ground arith)) (unfold write_requests in refl),
                rw (same, append-nil) (Perm.refl _),
              )
          | inl more ↦
              let chunk = chunk_at host db store i xs in
              let write : List Item → Action W (Unit {0}) = write_batch_with_retry host db store in
              let next : Action W (Unit {0}) = save_chunks host db store fuel (i + 25) expiry xs in
              let prepared : Action W (List Item) =
                from (write_requests host db store expiry chunk) in
              let (requests, w1, e1, h1) =
                >>=-returned prepared (λ rs. write rs >>= λ _. next) w w' tt
                  (rw (more, save_chunks) at h) in
              let (_, w2, e2, h2) = >>=-returned (write requests) (λ _. next) w1 w' tt h1 in
              let (later, e3, p3) =
                save_chunks-written fuel (i + 25) expiry xs w2 w' (omega arith) h2 in
              let (ready, same) =
                from-returned (write_requests host db store expiry chunk) w w1 requests e1 in
              let whole = chunk_at-append-drop i xs (ground arith) in
              let put =
                (write_batch_with_retry_lem host db store written calls laws requests w1).1 in
              let p2 : Perm (written w2) (written w ++ requests) = rw same (put w2 e2) in
              (
                requests ++ later,
                rw (← whole)
                    (write_requests-append expiry chunk (drop (i + 25) xs) requests later ready e3),
                Perm.trans p3
                    (rw (← append_assoc (written w) requests later) (Perm.append_right later p2)),
              )
        ]

    -- On a service that obeys `WritesBatches`, where reading the clock writes nothing: if storing a
    -- batch reports success, then every reading of it, in its order, has been encoded to an item, with
    -- an expiry a week after the clock where it had none, and the put requests of exactly those items
    -- have been carried out.
    pub save_telemetry_batch-written :
        (xs : List (Telemetry F)) (w w' : W)
        → ((v : W) → written (host.clock v).1 ≡ written v)
        → save_telemetry_batch host db store xs w ≡ (returned tt, w')
        → (items : List Item) × Encoded db (days_from (host.clock w).0 7) xs items
          × Perm (written w') (written w ++ items)
    unfolding save_telemetry_batch
    save_telemetry_batch-written [] w w' quiet h =
        let same : w ≡ w' = cc in ([], tt, rw (same, append-nil) (Perm.refl _))
    save_telemetry_batch-written (x ∷ xs) w w' quiet h =
        let (now, w1) = host.clock w in
        let (items, e, p) =
          save_chunks-written (suc (length xs)) 0 (days_from now 7) (x ∷ xs) w1 w' (omega arith)
            h in
        (items, write_requests-Encoded (days_from now 7) (x ∷ xs) items e, rw (quiet w) at p)
