-- ===== src/Ingestion/Batch.antt =====
-- backend/internal/ingestion/handler.go: the loop over the items of a batch.
use io_t_fleet_management.Prelude.{
  none, some, [], ◌∷◌, ◌++◌, refl, inl, inr, false, List, String, All, ◌≡◌, Bool-cases, arith,
  append-nil, Option-cases, append_assoc,
}
use io_t_fleet_management.Go.Value.{nil, cons, Items}
use io_t_fleet_management.Go.Float.{Float64}
use io_t_fleet_management.Models.{Telemetry, MqttEnvelope}
use io_t_fleet_management.Prelude.Int.{pos, ◌<ℤ◌, ◌≤ℤ◌}
use io_t_fleet_management.Ingestion.{
  later_reading, accepted_item, ltb_ℤ, collect, eq_ℤ, Collected, nothing_collected, Option,
}

abbrev cons_some {ℓ} : {A : Type ℓ} → Option A → List A → List A
cons_some none xs = xs
cons_some (some x) xs = x ∷ xs

-- The accepted items of a batch, in order.
abbrev pub readings_of :
    {F : Type 0} ⦃d : Float64 F⦄ → String → MqttEnvelope F → Items F → List (Telemetry F)
readings_of device_id envelope nil = []
readings_of device_id envelope (cons item items) =
    cons_some (accepted_item device_id envelope item) (readings_of device_id envelope items)

abbrev Later : {F : Type 0} → Telemetry F → Telemetry F → Type 0
Later t r = r.timestamp <ℤ t.timestamp

abbrev NotLater : {F : Type 0} → Telemetry F → Telemetry F → Type 0
NotLater t r = r.timestamp ≤ℤ t.timestamp

abbrev pub IsDated : {F : Type 0} → Telemetry F → Type 0
IsDated t = pos 0 <ℤ t.timestamp

-- The reading is in the list, later than all before it, and none behind it is later.
pub record IsLatest {F : Type 0} (t : Telemetry F) (readings : List (Telemetry F)) : Type 0 where
  pub before : List (Telemetry F)
  pub after : List (Telemetry F)
  pub placed : readings ≡ before ++ (t ∷ after)
  pub later : All (Later t) before
  pub not_later : All (NotLater t) after

module _ {F : Type 0} where
  -- `latestReading` over a list.
  latest_of : Telemetry F → List (Telemetry F) → Telemetry F
  latest_of t [] = t
  latest_of t (r ∷ rs) = latest_of (later_reading t r) rs

  Later-trans :
      (t u : Telemetry F) (rs : List (Telemetry F))
      → t.timestamp ≤ℤ u.timestamp
      → All (Later t) rs
      → All (Later u) rs
  Later-trans t u [] h _ = tt
  Later-trans t u (r ∷ rs) h (p, ps) = (omega arith, Later-trans t u rs h ps)

  abbrev latest_at :
      (t : Telemetry F) (before after readings : List (Telemetry F))
      → readings ≡ before ++ (t ∷ after)
      → All (Later t) before
      → All (NotLater t) after
      → IsLatest t readings
  latest_at t before after readings p l n = record {
    before = before;
    after = after;
    placed = p;
    later = l;
    not_later = n;
  }

  -- One more reading at the front, which is earlier than the first of the others.
  push_earlier :
      (t r u : Telemetry F) (rs before after : List (Telemetry F))
      → Later r t
      → r ∷ rs ≡ before ++ (u ∷ after)
      → All (Later u) before
      → All (NotLater u) after
      → IsLatest u (t ∷ r ∷ rs)
  push_earlier t r u rs [] after h p l n =
      let same : r ≡ u = cc in latest_at u (t ∷ []) after _ (cc) (rw same at h, tt) n
  push_earlier t r u rs (b ∷ before) after h p (l, ls) n =
      let same : r ≡ b = cc in
      let h' : Later b t = rw same at h in
      latest_at u (t ∷ b ∷ before) after _ (cc) (omega arith, (l, ls)) n

  -- One more reading behind the first, which is not later than it.
  insert_second :
      (t r u : Telemetry F) (rs before after : List (Telemetry F))
      → NotLater t r
      → t ∷ rs ≡ before ++ (u ∷ after)
      → All (Later u) before
      → All (NotLater u) after
      → IsLatest u (t ∷ r ∷ rs)
  insert_second t r u rs [] after h p l n =
      let same : t ≡ u = cc in latest_at u [] (r ∷ after) _ (cc) tt (rw same at h, n)
  insert_second t r u rs (b ∷ before) after h p (l, ls) n =
      let same : t ≡ b = cc in
      let h' : NotLater b r = rw same at h in
      latest_at u (b ∷ r ∷ before) after _ (cc) (l, (omega arith, ls)) n

  latest_of-IsLatest :
      (t : Telemetry F) (rs : List (Telemetry F))
      → IsDated t
      → All IsDated rs
      → IsLatest (latest_of t rs) (t ∷ rs)
  unfolding latest_of
  latest_of-IsLatest t [] h hs = latest_at t [] [] _ refl tt tt
  latest_of-IsLatest t (r ∷ rs) h (k, ks) =
      let dated : eq_ℤ t.timestamp (pos 0) ≡ false = ground arith in
      let first = latest_of-IsLatest r rs k ks in
      let kept = latest_of-IsLatest t rs h ks in
      elim (Bool-cases (ltb_ℤ t.timestamp r.timestamp)) [
        | inl newer ↦
            rw (dated, newer)
              (push_earlier t r _ rs first.before first.after (ground arith) first.placed
                first.later first.not_later)
        | inr older ↦
            rw (dated, older)
              (insert_second t r _ rs kept.before kept.after (ground arith) kept.placed kept.later
                kept.not_later)
      ]

module _ {F : Type 0} ⦃d : Float64 F⦄ (device_id : String) (envelope : MqttEnvelope F) where
  collect_lem :
      (items : Items F) (c : Collected F)
      → let readings = readings_of device_id envelope items in
        collect device_id envelope items c ≡ record {
          telemetry_list = c.telemetry_list ++ readings;
          latest_reading = latest_of c.latest_reading readings;
        }
  unfolding collect latest_of
  collect_lem nil c = rw append-nil
  collect_lem (cons item items) c = elim (Option-cases (accepted_item device_id envelope item)) [
    | inl e ↦ rw (e, collect_lem items c)
    | inr (t, e) ↦ rw (e, collect_lem items _, append_assoc)
  ]

  -- If a batch has accepted items, all of them with positive timestamps, it collects them in order, and
  -- the reading for the device state is the first of the latest ones.
  pub collect-IsLatest :
      (items : Items F) (t : Telemetry F) (others : List (Telemetry F))
      → readings_of device_id envelope items ≡ t ∷ others
      → All IsDated (t ∷ others)
      → let c = collect device_id envelope items nothing_collected in
        (c.telemetry_list ≡ t ∷ others) × IsLatest c.latest_reading (t ∷ others)
  unfolding latest_of
  collect-IsLatest items t others e (h, hs) =
      rw (collect_lem, e) (refl, latest_of-IsLatest t others h hs)
