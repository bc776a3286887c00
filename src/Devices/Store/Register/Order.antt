-- ===== src/Devices/Store/Register/Order.antt =====
-- store_state.go: the updates of several readings, in different orders.
use mathlib.Core.List.{Permᴰ}
use io_t_fleet_management.Prelude.{
  [], ◌∷◌, none, some, false, refl, inl, inr, String, List, ◌≡◌, ◌∙◌, ap, sym, Option, ◌==◌,
  if◌then◌else◌, arith, eq_iff, Bool-cases, All, All-perm,
}
use io_t_fleet_management.Prelude.Int.{ℤ, pos, leb_ℤ, eq_of_parts}
use io_t_fleet_management.Go.Value.{Payload}
use io_t_fleet_management.Go.Float.{Float64}
use io_t_fleet_management.Go.Outcome.{ok}
use io_t_fleet_management.Cloud.{Host, Dynamo}
use io_t_fleet_management.Models.{Telemetry}
use io_t_fleet_management.Devices.Store.{StateStore, update_from_telemetry}
use io_t_fleet_management.Devices.Store.Register.{Row, TableLaws, latest, write_latest, row_of}
use io_t_fleet_management.Devices.Store.Register.Latest.{update_from_telemetry-write_latest}

module _ {Raw : Type 0} where
  -- A row without the time at which it was written.
  abbrev pub undated : Option (Row Raw) → Option (Row Raw)
  undated none = none
  undated (some row) = some (record row { updated_at = pos 0 })

  undated-latest :
      (old : Option (Row Raw)) (row : Row Raw)
      → undated (latest old row) ≡ latest (undated old) (record row { updated_at = pos 0 })
  undated-latest none row = refl
  undated-latest (some old) row = elim (Bool-cases (leb_ℤ old.last_seen_at row.last_seen_at)) [
    | inl e ↦ rw e refl
    | inr e ↦ rw e refl
  ]

  latest-pair :
      (a b : Row Raw)
      → (a.last_seen_at ≡ b.last_seen_at → a ≡ b)
      → latest (some a) b ≡ latest (some b) a
  latest-pair a b same =
      let x = a.last_seen_at in
      let y = b.last_seen_at in
      elim (Bool-cases (leb_ℤ x y)) [
        | inl e ↦ elim (Bool-cases (leb_ℤ y x)) [
          | inl f ↦
              let p : x ≡ y = eq_of_parts x y (ground arith) in rw (e, f) (ap some (sym (same p)))
          | inr f ↦ rw (e, f) refl
        ]
        | inr e ↦ elim (Bool-cases (leb_ℤ y x)) [
          | inl f ↦ rw (e, f) refl
          | inr f ↦ absurd (ground arith)
        ]
      ]

  latest-swap :
      (old : Option (Row Raw)) (a b : Row Raw)
      → (a.last_seen_at ≡ b.last_seen_at → a ≡ b)
      → latest (latest old a) b ≡ latest (latest old b) a
  latest-swap none a b same = latest-pair a b same
  latest-swap (some old) a b same =
      let o = old.last_seen_at in
      let x = a.last_seen_at in
      let y = b.last_seen_at in
      elim (Bool-cases (leb_ℤ o x)) [
        | inl e ↦ elim (Bool-cases (leb_ℤ o y)) [
          | inl f ↦ rw (e, f) (latest-pair a b same)
          | inr f ↦ let g : leb_ℤ x y ≡ false = ground arith in rw (e, f) (rw (g, e) refl)
        ]
        | inr e ↦ elim (Bool-cases (leb_ℤ o y)) [
          | inl f ↦ let g : leb_ℤ y x ≡ false = ground arith in rw (e, f) (rw g refl)
          | inr f ↦ rw (e, f) (rw e refl)
        ]
      ]

-- What a reading says of the state of its device.
module _ {F Raw : Type 0} ⦃d : Float64 F⦄ (encode : Payload F → Raw) where
  abbrev pub said : Telemetry F → Row Raw
  said t = row_of t (pos 0) (encode t.payload)

  abbrev pub heard : String → Option (Row Raw) → Telemetry F → Option (Row Raw)
  heard id old t = if id == t.device_id then latest old (said t) else old

  abbrev pub all_heard : String → List (Telemetry F) → Option (Row Raw) → Option (Row Raw)
  all_heard id [] old = old
  all_heard id (t ∷ ts) old = all_heard id ts (heard id old t)

  undated-write_latest :
      (id : String) (kept : String → Option (Row Raw)) (t : Telemetry F) (now : ℤ)
      → undated (write_latest kept t.device_id (record (said t) { updated_at = now }) id)
        ≡ heard id (undated (kept id)) t
  undated-write_latest id kept t now = elim (Bool-cases (id == t.device_id)) [
    | inl e ↦ rw e (undated-latest (kept id) (record (said t) { updated_at = now }))
    | inr e ↦ rw e refl
  ]

  -- Two readings of one device for one time say the same.
  abbrev pub Agree : Telemetry F → Telemetry F → Type 0
  Agree t u = t.device_id ≡ u.device_id → t.timestamp ≡ u.timestamp → said t ≡ said u

  pub heard-swap :
      (id : String) (t u : Telemetry F) (old : Option (Row Raw))
      → Agree t u
      → heard id (heard id old t) u ≡ heard id (heard id old u) t
  heard-swap id t u old agree = elim (Bool-cases (id == t.device_id)) [
    | inl e ↦ elim (Bool-cases (id == u.device_id)) [
      | inl f ↦
          let p : id ≡ t.device_id = (eq_iff id t.device_id).0 e in
          let q : id ≡ u.device_id = (eq_iff id u.device_id).0 f in
          rw (e, f) (latest-swap old (said t) (said u) (agree (sym p ∙ q)))
      | inr f ↦ rw (e, f) refl
    ]
    | inr e ↦ elim (Bool-cases (id == u.device_id)) [
      | inl f ↦ rw (e, f) refl
      | inr f ↦ rw (e, f) refl
    ]
  ]

  module _ (P : Telemetry F → Type 0) (agree : (t u : Telemetry F) → P t → P u → Agree t u) where
    all_heard-perm :
        (id : String) (ts us : List (Telemetry F)) (old : Option (Row Raw))
        → Permᴰ ts us
        → All P ts
        → all_heard id ts old ≡ all_heard id us old
    all_heard-perm id _ _ old Permᴰ.nil h = refl
    all_heard-perm id _ _ old (Permᴰ.cons {a = a} {b = b} {l₁ = ts} {l₂ = us} e p) h =
        all_heard-perm id ts us (heard id old a) p h.1
        ∙ ap (λ t. all_heard id us (heard id old t)) e
    all_heard-perm id _ _ old (Permᴰ.swap {a = a} {b = b} {a' = a'} {l = l} e f) h =
        ap (all_heard id l) (
          heard-swap id a b old (agree a b h.0 h.1.0)
          ∙ ap (λ t. heard id (heard id old t) a) f
          ∙ ap (heard id (heard id old a')) e)
    all_heard-perm id _ _ old (Permᴰ.trans {l₁ = ts} {l₂ = us} {l₃ = vs} p q) h =
        all_heard-perm id ts us old p h ∙ all_heard-perm id us vs old q (All-perm P p h)

module _ {F W Item Raw : Type 0} ⦃d : Float64 F⦄ (host : Host W) (db : Dynamo F W Item Raw)
    (store : StateStore) where
  -- The world after the updates of some readings, one after the other, where an update that is refused
  -- does not stop the next one.
  abbrev pub all_updated : List (Telemetry F) → W → W
  all_updated [] w = w
  all_updated (t ∷ ts) w = all_updated ts (update_from_telemetry host db store t w).1

module _ {F W Item Raw : Type 0} ⦃d : Float64 F⦄ (host : Host W) (db : Dynamo F W Item Raw)
    (store : StateStore) (rows : W → String → Option (Row Raw)) (encode : Payload F → Raw)
    (laws : TableLaws host db store.table_name rows)
    (encodes : (p : Payload F) → db.marshal_payload p ≡ ok (encode p)) where
  pub all_updated_lem :
      (id : String) (ts : List (Telemetry F)) (w : W)
      → undated (rows (all_updated host db store ts w) id)
        ≡ all_heard encode id ts (undated (rows w id))
  all_updated_lem id [] w = refl
  all_updated_lem id (t ∷ ts) w =
      all_updated_lem id ts (update_from_telemetry host db store t w).1
      ∙ ap (all_heard encode id ts) (
          ap undated (
            (update_from_telemetry-write_latest host db store rows laws t (encode t.payload) w
                (encodes t.payload)).0
              id)
          ∙ undated-write_latest encode id (rows w) t (host.clock w).0)

  -- Over a table that obeys `TableLaws`, readings leave the same states in whatever order they arrive,
  -- but for the time of the last write: if every payload can be encoded, and those of the readings that are of one device and for one time
  -- say the same, then the updates of the readings and those of a permutation of them, from the same
  -- world, end with the same row for every device.
  pub all_updated-perm :
      (P : Telemetry F → Type 0)
      → ((t u : Telemetry F) → P t → P u → Agree encode t u)
      → (ts us : List (Telemetry F)) (w : W) (id : String) → Permᴰ ts us
      → All P ts
      → undated (rows (all_updated host db store ts w) id)
        ≡ undated (rows (all_updated host db store us w) id)
  all_updated-perm P agree ts us w id p h =
      all_updated_lem id ts w
      ∙ all_heard-perm encode P agree id ts us (undated (rows w id)) p h
      ∙ sym (all_updated_lem id us w)
