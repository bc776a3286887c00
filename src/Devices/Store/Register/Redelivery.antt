-- ===== src/Devices/Store/Register/Redelivery.antt =====
-- store_state.go: readings that arrive in another order, and more than once.

use mathlib.Core.List.{Permᴰ, Memᴰ}
use io_t_fleet_management.Prelude.{
  [], ◌∷◌, ◌++◌, none, some, true, refl, inl, inr, String, List, ◌≡◌, ◌∙◌, ap, sym, Option, ◌==◌,
  Bool-cases, All, All-append, arith, subst,
}
use io_t_fleet_management.Prelude.Int.{leb_ℤ}
use io_t_fleet_management.Go.Value.{Payload}
use io_t_fleet_management.Go.Float.{Float64}
use io_t_fleet_management.Go.Outcome.{ok}
use io_t_fleet_management.Cloud.{Host, Dynamo}
use io_t_fleet_management.Models.{Telemetry}
use io_t_fleet_management.Devices.Store.{StateStore}
use io_t_fleet_management.Devices.Store.Register.{Row, TableLaws, latest}
use io_t_fleet_management.Devices.Store.Register.Order.{
  undated, said, heard, all_heard, Agree, heard-swap, all_updated, all_updated-perm,
  all_updated_lem,
}

-- The readings, and some of them again, in any order.
pub record Redelivers {A : Type 0} (ts us : List A) : Type 0 where
  pub again : List A
  pub known : All (λ t. Memᴰ t ts) again
  pub arranged : Permᴰ (ts ++ again) us

module _ {Raw : Type 0} where
  latest_twice :
      (old : Option (Row Raw)) (row : Row Raw) → latest (latest old row) row ≡ latest old row
  latest_twice none row =
      let e : leb_ℤ row.last_seen_at row.last_seen_at ≡ true = ground arith in rw e refl
  latest_twice (some old) row = elim (Bool-cases (leb_ℤ old.last_seen_at row.last_seen_at)) [
    | inl e ↦
        let f : leb_ℤ row.last_seen_at row.last_seen_at ≡ true = ground arith in rw e (rw f refl)
    | inr e ↦ rw e (rw e refl)
  ]

module _ {F Raw : Type 0} ⦃d : Float64 F⦄ (encode : Payload F → Raw) (id : String) where
  heard_twice :
      (old : Option (Row Raw)) (t : Telemetry F)
      → heard encode id (heard encode id old t) t ≡ heard encode id old t
  heard_twice old t = elim (Bool-cases (id == t.device_id)) [
    | inl e ↦ rw e (latest_twice old (said encode t))
    | inr e ↦ rw e refl
  ]

  all_heard-append :
      (ts us : List (Telemetry F)) (old : Option (Row Raw))
      → all_heard encode id (ts ++ us) old ≡ all_heard encode id us (all_heard encode id ts old)
  all_heard-append [] us old = refl
  all_heard-append (t ∷ ts) us old = all_heard-append ts us (heard encode id old t)

  module _ (P : Telemetry F → Type 0)
      (agree : (t u : Telemetry F) → P t → P u → Agree encode t u) where
    -- One more reading may as well come first.
    heard-all_heard :
        (t : Telemetry F) (ts : List (Telemetry F)) (old : Option (Row Raw))
        → P t
        → All P ts
        → heard encode id (all_heard encode id ts old) t
          ≡ all_heard encode id ts (heard encode id old t)
    heard-all_heard t [] old h _ = refl
    heard-all_heard t (u ∷ us) old h (k, ks) =
        heard-all_heard t us (heard encode id old u) h ks
        ∙ ap (all_heard encode id us) (heard-swap encode id u t old (agree u t k h))

    known_heard :
        (t : Telemetry F) (ts : List (Telemetry F)) (old : Option (Row Raw))
        → Memᴰ t ts
        → All P ts
        → heard encode id (all_heard encode id ts old) t ≡ all_heard encode id ts old
    known_heard t [] old m h = elim m [ ]
    known_heard t (u ∷ us) old (Memᴰ.head e) h =
        ap (λ x. heard encode id (all_heard encode id us (heard encode id old x)) t) (sym e)
        ∙ heard-all_heard t us (heard encode id old t) (subst P (sym e) h.0) h.1
        ∙ ap (all_heard encode id us) (heard_twice old t)
        ∙ ap (λ x. all_heard encode id us (heard encode id old x)) e
    known_heard t (u ∷ us) old (Memᴰ.tail m) h = known_heard t us (heard encode id old u) m h.1

    all_known_heard :
        (again ts : List (Telemetry F)) (old : Option (Row Raw))
        → All (λ t. Memᴰ t ts) again
        → All P ts
        → all_heard encode id again (all_heard encode id ts old) ≡ all_heard encode id ts old
    all_known_heard [] ts old m h = refl
    all_known_heard (t ∷ again) ts old (m, ms) h =
        ap (all_heard encode id again) (known_heard t ts old m h)
        ∙ all_known_heard again ts old ms h

    known-All :
        (again ts : List (Telemetry F)) → All (λ t. Memᴰ t ts) again → All P ts → All P again
    known-All [] ts m h = tt
    known-All (t ∷ again) ts (m, ms) h = (member ts m h, known-All again ts ms h)
      where
        member : (xs : List (Telemetry F)) → Memᴰ t xs → All P xs → P t
        member [] m k = elim m [ ]
        member (x ∷ xs) (Memᴰ.head e) k = subst P (sym e) k.0
        member (x ∷ xs) (Memᴰ.tail n) k = member xs n k.1

module _ {F W Item Raw : Type 0} ⦃d : Float64 F⦄ (host : Host W) (db : Dynamo F W Item Raw)
    (store : StateStore) (rows : W → String → Option (Row Raw)) (encode : Payload F → Raw)
    (laws : TableLaws host db store.table_name rows)
    (encodes : (p : Payload F) → db.marshal_payload p ≡ ok (encode p)) where
  -- Over a table that obeys `TableLaws`, where every payload can be encoded, and readings of one device
  -- for one time say the same: the updates by some readings, and those by the same readings in any
  -- order, any of them once more as often as one likes, from the same world, leave the same row for
  -- every device, but for the time of the last write.
  pub all_updated-redelivered :
      (P : Telemetry F → Type 0)
      → ((t u : Telemetry F) → P t → P u → Agree encode t u)
      → (ts us : List (Telemetry F)) (w : W) (id : String) → Redelivers ts us
      → All P ts
      → undated (rows (all_updated host db store ts w) id)
        ≡ undated (rows (all_updated host db store us w) id)
  all_updated-redelivered P agree ts us w id r h =
      all_updated_lem host db store rows encode laws encodes id ts w
      ∙ sym (all_known_heard encode id P agree r.again ts (undated (rows w id)) r.known h)
      ∙ sym (all_heard-append encode id ts r.again (undated (rows w id)))
      ∙ sym (all_updated_lem host db store rows encode laws encodes id (ts ++ r.again) w)
      ∙ all_updated-perm host db store rows encode laws encodes P agree (ts ++ r.again) us w id
          r.arranged (All-append P ts r.again h (known-All encode id P agree r.again ts r.known h))
