-- ===== src/Api/Alerts/Newest.antt =====
-- device_handler.go: the order of the alerts that `GetSortedAlerts` shows.
use mathlib.Core.List.{Permᴰ}
use io_t_fleet_management.Prelude.{[], ◌∷◌, false, true, ◌≡◌, List, Bool, All, arith}
use io_t_fleet_management.Prelude.Int.{pos, sub64, ◌≤ℤ◌}
use io_t_fleet_management.Go.Float.{Float64}
use io_t_fleet_management.Go.Outcome.{
  ok, err, returned, failed, Error, attempt, pure, Action, Result,
}
use io_t_fleet_management.Go.Steps.{chain-returned, attempt-of-returned, attempt-of-failed}
use io_t_fleet_management.Cloud.{Host, Dynamo}
use io_t_fleet_management.Models.{Alert}
use io_t_fleet_management.Api.{Clock, DeviceHandler, json, error_json, alerts, Answer}
use io_t_fleet_management.Api.Alerts.{newer_first, get_sorted_alerts}
use io_t_fleet_management.Alerts.{get_all_alerts}
use io_t_fleet_management.Telemetry.Periods.{Zone}

-- What `sort.Slice` asks of the order: a strict weak order.
pub record IsStrictWeak {A : Type 0} (less : A → A → Bool) : Type 0 where
  pub irreflexive : (a : A) → less a a ≡ false
  pub transitive : (a b c : A) → less a b ≡ true → less b c ≡ true → less a c ≡ true
  pub level : (a b c : A) → less a b ≡ false → less b c ≡ false → less a c ≡ false

-- No element is less than one before it.
abbrev pub IsSorted : {A : Type 0} → (A → A → Bool) → List A → Type 0
IsSorted less [] = Unit {0}
IsSorted less (a ∷ others) = All (λ b. less b a ≡ false) others × IsSorted less others

-- `sort.Slice` as it is documented.
pub record SortsSlices {A : Type 0} (sort : (A → A → Bool) → List A → List A) : Type 0 where
  pub arranges : (less : A → A → Bool) (xs : List A) → Permᴰ xs (sort less xs)
  pub sorts :
      (less : A → A → Bool) → IsStrictWeak less → (xs : List A) → IsSorted less (sort less xs)

-- No alert is newer than one before it.
abbrev pub NewestFirst : {F : Type 0} → List (Alert F) → Type 0
NewestFirst [] = Unit {0}
NewestFirst (a ∷ others) = All (λ b. b.timestamp ≤ℤ a.timestamp) others × NewestFirst others

module _ {F : Type 0} where
  newer_first-IsStrictWeak : IsStrictWeak (newer_first {F = F})
  newer_first-IsStrictWeak = record {
    irreflexive = λ a. ground arith;
    transitive = λ a b c p q. ground arith;
    level = λ a b c p q. ground arith;
  }

  not_newer :
      (a : Alert F) (others : List (Alert F))
      → All (λ b. newer_first b a ≡ false) others
      → All (λ b. b.timestamp ≤ℤ a.timestamp) others
  not_newer a [] h = tt
  not_newer a (b ∷ bs) (h, hs) = (ground arith, not_newer a bs hs)

  sorted-NewestFirst : (others : List (Alert F)) → IsSorted newer_first others → NewestFirst others
  sorted-NewestFirst [] h = tt
  sorted-NewestFirst (a ∷ others) (h, hs) = (not_newer a others h, sorted-NewestFirst others hs)

module _ {F W Item Raw : Type 0} ⦃d : Float64 F⦄ (host : Host W) (clock : Clock W) (zone : Zone)
    (db : Dynamo F W Item Raw) (handler : DeviceHandler F W)
    (sort_slice : (Alert F → Alert F → Bool) → List (Alert F) → List (Alert F))
    (sorts : SortsSlices sort_slice) where
  abbrev respond : Result (List (Alert F)) → Action W (Answer F)
  respond fetched = elim fetched [
    | err _ ↦ pure (error_json 500 "Failed to fetch global alerts")
    | ok alert_list ↦ pure (json 200 (("data", alerts (sort_slice newer_first alert_list)) ∷ []))
  ]

  -- With a `sort.Slice` that sorts as it is documented: if the alerts since a week before the clock can
  -- be fetched, the answer shows exactly these, none newer than one before it; if not, the answer is an
  -- error of status 500.
  pub get_sorted_alerts-NewestFirst :
      (w v : W)
      → ((found : List (Alert F))
          → get_all_alerts host db handler.alert_store
              (sub64 (host.clock w).0 (pos 604800))
              (host.clock w).1
            ≡ (returned found, v)
          → (shown : List (Alert F)) × (get_sorted_alerts host clock zone db handler sort_slice w
              ≡ (returned (json 200 (("data", alerts shown) ∷ [])), v))
            × Permᴰ found shown
            × NewestFirst shown)
        × ((e : Error)
            → get_all_alerts host db handler.alert_store
                (sub64 (host.clock w).0 (pos 604800))
                (host.clock w).1
              ≡ (failed e, v)
            → get_sorted_alerts host clock zone db handler sort_slice w
              ≡ (returned (error_json 500 "Failed to fetch global alerts"), v))
  unfolding get_sorted_alerts
  get_sorted_alerts-NewestFirst w v =
      let start = (host.clock w).1 in
      let fetch : Action W (List (Alert F)) =
        get_all_alerts host db handler.alert_store (sub64 (host.clock w).0 (pos 604800)) in
      (
        (λ found h. (
          sort_slice newer_first found,
          chain-returned (attempt fetch) respond start v (ok found)
              (attempt-of-returned fetch start v found h),
          sorts.arranges newer_first found,
          sorted-NewestFirst _ (sorts.sorts newer_first newer_first-IsStrictWeak found),
        )),
        (λ e h.
            chain-returned (attempt fetch) respond start v (err e)
              (attempt-of-failed fetch start v e h)),
      )
