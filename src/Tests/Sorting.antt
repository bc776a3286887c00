-- ===== src/Tests/Sorting.antt =====
-- A sort that obeys the law of `sort.Slice`, by insertion, and the theorem on the order of the alerts.
use mathlib.Core.List.Permᴰ
use mathlib.Core.List.{Permᴰ}
use io_t_fleet_management.Prelude.{
  [], ◌∷◌, refl, true, false, inl, inr, ◌≡◌, List, Bool, All, if◌then◌else◌, Bool-cases, ℕ, none,
}
use io_t_fleet_management.Go.Float.{milli_float, Milli}
use io_t_fleet_management.Api.{json, alerts, Clock, DeviceHandler}
use io_t_fleet_management.Api.Alerts.{get_sorted_alerts}
use io_t_fleet_management.Alerts.{get_all_alerts, unmarshal_all}
use io_t_fleet_management.Models.{Alert}
use io_t_fleet_management.Go.Value.{Payload, empty, null}
use io_t_fleet_management.Prelude.Int.{pos, sub64}
use io_t_fleet_management.Tests.Memory.{World, Stored, alarm, memory, still}
use io_t_fleet_management.Tests.Board.{utc}
use io_t_fleet_management.Cloud.{Dynamo}
use io_t_fleet_management.Api.Alerts.Newest.{
  get_sorted_alerts-NewestFirst, NewestFirst, IsStrictWeak, IsSorted, SortsSlices,
}
use io_t_fleet_management.Go.Outcome.{returned}

module _ {A : Type 0} (less : A → A → Bool) where
  abbrev insert : A → List A → List A
  insert x [] = x ∷ []
  insert x (y ∷ ys) = let rest = insert x ys in if less x y then x ∷ y ∷ ys else y ∷ rest

  abbrev pub sorted : List A → List A
  sorted [] = []
  sorted (x ∷ xs) = insert x (sorted xs)

  insert-perm : (x : A) (ys : List A) → Permᴰ (x ∷ ys) (insert x ys)
  insert-perm x [] = Permᴰ.refl (x ∷ [])
  insert-perm x (y ∷ ys) = elim (Bool-cases (less x y)) [
    | inl e ↦ rw e (Permᴰ.refl (x ∷ y ∷ ys))
    | inr e ↦ rw e (Permᴰ.trans (Permᴰ.swap refl refl) (Permᴰ.cons refl (insert-perm x ys)))
  ]

  sorted-perm : (xs : List A) → Permᴰ xs (sorted xs)
  sorted-perm [] = Permᴰ.nil
  sorted-perm (x ∷ xs) = Permᴰ.trans (Permᴰ.cons refl (sorted-perm xs)) (insert-perm x (sorted xs))

  module _ (order : IsStrictWeak less) where
    -- What is not less than `y` is not less than an element less than `y`.
    below :
        (x y : A)
        → less x y ≡ true
        → (ys : List A) → All (λ b. less b y ≡ false) ys
        → All (λ b. less b x ≡ false) ys
    below x y e [] h = tt
    below x y e (b ∷ bs) (h, hs) = (one, below x y e bs hs)
      where
        one : less b x ≡ false
        one = elim (Bool-cases (less b x)) [
          | inl g ↦ let k : less b y ≡ true = order.transitive b x y g e in cc
          | inr g ↦ g
        ]

    after : (x y : A) → less x y ≡ true → less y x ≡ false
    after x y e = elim (Bool-cases (less y x)) [
      | inl g ↦
          let k : less x x ≡ true = order.transitive x y x e g in
          let i : less x x ≡ false = order.irreflexive x in cc
      | inr g ↦ g
    ]

    insert-All : (P : A → Type 0) (x : A) (ys : List A) → P x → All P ys → All P (insert x ys)
    insert-All P x [] p h = (p, tt)
    insert-All P x (y ∷ ys) p (h, hs) = elim (Bool-cases (less x y)) [
      | inl e ↦ rw e (p, (h, hs))
      | inr e ↦ rw e (h, insert-All P x ys p hs)
    ]

    insert-IsSorted : (x : A) (ys : List A) → IsSorted less ys → IsSorted less (insert x ys)
    insert-IsSorted x [] h = (tt, tt)
    insert-IsSorted x (y ∷ ys) (h, hs) = elim (Bool-cases (less x y)) [
      | inl e ↦ rw e ((after x y e, below x y e ys h), (h, hs))
      | inr e ↦ rw e (insert-All (λ b. less b y ≡ false) x ys e h, insert-IsSorted x ys hs)
    ]

    sorted-IsSorted : (xs : List A) → IsSorted less (sorted xs)
    sorted-IsSorted [] = tt
    sorted-IsSorted (x ∷ xs) = insert-IsSorted x (sorted xs) (sorted-IsSorted xs)

sorted-SortsSlices : {A : Type 0} → SortsSlices {A = A} sorted
sorted-SortsSlices = record {
  arranges = λ less xs. sorted-perm less xs;
  sorts = λ less order xs. sorted-IsSorted less order xs;
}

-- A table that is scanned in one page.
abbrev one_page : Dynamo Milli World Stored (Payload Milli)
one_page = record memory {
  scan = λ input w. (returned (record { items = w.table; last_evaluated_key = none }), w);
}

abbrev alert_at : ℕ → Alert Milli
alert_at timestamp = record {
  alert_id = "id";
  device_id = "gas-1";
  timestamp = pos timestamp;
  type = "gas-sensor";
  severity = "WARNING";
  payload = empty;
  expires_at = pos 0;
}

abbrev two_alerts : World
two_alerts = record {
  time = pos 1000;
  table = alarm (alert_at 5) ∷ alarm (alert_at 7) ∷ [];
  calls = 0;
}

abbrev world_clock : Clock World
world_clock = record { nanoseconds = λ w. (w.time, w); month = λ w. ("2026-01", w) }

abbrev world_handler : DeviceHandler Milli World
world_handler = record {
  state_store = record { table_name = "States" };
  telemetry_store = record { table_name = "Readings" };
  alert_store = record { table_name = "Alerts" };
  command_store = record { table_name = "Commands" };
  iot_publisher = record { client = record { publish = λ topic payload qos w. (returned tt, w) } };
  s3_fetcher = record { get_monthly_chart = λ key w. (returned null, w) };
}

two_fetched :
    get_all_alerts still one_page world_handler.alert_store
      (sub64 (pos 1000) (pos 604800))
      two_alerts
    ≡ (returned (alert_at 5 ∷ alert_at 7 ∷ []), two_alerts)
unfolding get_all_alerts unmarshal_all
two_fetched = refl

abbrev Shows : List (Alert Milli) → Type 0
Shows found =
    (shown : List (Alert Milli)) × (get_sorted_alerts still world_clock utc one_page world_handler
        sorted two_alerts
      ≡ (returned (json 200 (("data", alerts shown) ∷ [])), two_alerts))
    × Permᴰ found shown
    × NewestFirst shown

get_sorted_alerts-NewestFirst_example : Shows (alert_at 5 ∷ alert_at 7 ∷ [])
get_sorted_alerts-NewestFirst_example =
    (get_sorted_alerts-NewestFirst still world_clock utc one_page world_handler sorted
        sorted-SortsSlices two_alerts two_alerts).0
      (alert_at 5 ∷ alert_at 7 ∷ []) two_fetched
