-- ===== src/Telemetry/Charts.antt =====
-- analytics.go: grouping readings into charts. A Go map of numbers is a list of entries with
-- distinct keys; `visit` is the order in which a `for range` over it happens to go.
pub mod Maximum
pub mod Insertion
pub mod Order
pub mod Visit
use Prim.Native.Nat.{Ordering, ℕ}
use Prim.Native.String
use Prim.Native.String.{compare, String}
use io_t_fleet_management.Go.Text.Decimal.{decimal}
use io_t_fleet_management.Prelude.{
  [], ◌∷◌, ◌==◌, some, none, true, false, ◌+◌, ◌++◌, List, Bool, Option, if◌then◌else◌, ◌/◌, ltb,
  ◌*◌, ◌||◌, ◌&&◌, nat_eq,
}
use io_t_fleet_management.Go.Float.{Float64, round1}
use io_t_fleet_management.Telemetry.Periods.{Zone, get_time_format, period_cutoff}
use io_t_fleet_management.Go.Value.{Value, as_float, get, as_int, or_empty, as_string}
use io_t_fleet_management.Models.{Alert, Telemetry}
use io_t_fleet_management.Prelude.Int.{pos, ℤ, ltb_ℤ, sub64}
use io_t_fleet_management.Go.Outcome.{Result, err, plain, ok}

pub record ChartPoint (F : Type 0) : Type 0 where
  pub label : String
  pub value : F

pub record TempState (F : Type 0) : Type 0 where
  pub min : F
  pub max : F
  pub average : F

abbrev pub Table : Type 0 → Type 0
Table A = List (String × A)

-- `table[label]`.
unfoldable pub lookup : {A : Type 0} → String → Table A → Option A
lookup key [] = none
lookup key ((k, v) ∷ table) = if k == key then some v else lookup key table

-- `table[label] = f(table[label])`, where a missing entry reads as `zero_value`.
unfoldable pub update : {A : Type 0} → A → (A → A) → String → Table A → Table A
update zero_value f key [] = (key, f zero_value) ∷ []
update zero_value f key ((k, v) ∷ table) =
    if k == key then (k, f v) ∷ table else (k, v) ∷ update zero_value f key table

-- `%02d:00`.
abbrev two_digits : ℕ → String
two_digits n = if ltb n 10 then String.◌++◌ "0" (decimal n) else decimal n

abbrev hour_label : ℕ → String
hour_label hour = String.◌++◌ (two_digits (hour / 2 * 2)) ":00"

pub record Groups (F : Type 0) : Type 0 where
  pub grouped : Table F
  pub counts : Table ℕ

-- The label of a reading's group.
unfoldable pub time_label : Zone → String → ℤ → String
time_label zone period timestamp =
    if period == "24h"
    then hour_label (zone.hour timestamp)
    else zone.format (get_time_format period) timestamp

-- `cmp.Compare(a.Label, b.Label) < 0` decides the place of a point.
insert_point : {F : Type 0} → ChartPoint F → List (ChartPoint F) → List (ChartPoint F)
insert_point p [] = p ∷ []
insert_point p (q ∷ chart) = elim (compare q.label p.label) [
  | Ordering.gt ↦ p ∷ q ∷ chart
  | _ ↦ q ∷ insert_point p chart
]

unfoldable pub sort_points : {F : Type 0} → List (ChartPoint F) → List (ChartPoint F)
unfolding insert_point
sort_points [] = []
sort_points (p ∷ chart) = insert_point p (sort_points chart)

abbrev pub count_one : String → Table ℕ → Table ℕ
count_one = update 0 (λ n. n + 1)

-- The severities that are counted.
abbrev pub is_warning : String → Bool
is_warning severity = severity == "WARNING" || severity == "warning"

abbrev pub is_critical : String → Bool
is_critical severity = severity == "CRITICAL" || severity == "critical"

-- The running minimum, maximum, sum and count of `CalculateTempState`.
pub record Overall (F : Type 0) : Type 0 where
  pub low : F
  pub high : F
  pub total : F
  pub count : ℕ

module _ {F : Type 0} ⦃d : Float64 F⦄ where
  abbrev zero_float : F
  zero_float = d.of_int (pos 0)

  abbrev lowest : F
  lowest = d.neg d.max_float

  abbrev pub plus : F → String → Table F → Table F
  plus x = update zero_float (λ total. d.add total x)

  -- What one value adds: 0.083 for "ON", and a number with its count.
  abbrev pub add_value : String → Value F → Groups F → Groups F
  add_value label v g = elim (as_float (some v)) [
    | some x ↦ record { grouped = plus x label g.grouped; counts = count_one label g.counts }
    | none ↦ elim (as_int (some v)) [
      | some n ↦ record {
        grouped = plus (d.of_int n) label g.grouped;
        counts = count_one label g.counts;
      }
      | none ↦
          if or_empty (as_string (some v)) == "ON"
          then record g { grouped = plus (d.decimal 83 3) label g.grouped }
          else g
    ]
  ]

  -- The loop of `FilterTime`; it ends at the first reading before the cutoff.
  unfoldable pub group_history :
      Zone → String → String → ℤ → List (Telemetry F) → Groups F → Groups F
  group_history zone metric period cutoff [] g = g
  group_history zone metric period cutoff (reading ∷ history) g =
      let g' : Groups F = elim (get metric reading.payload) [
        | none ↦ g
        | some v ↦ add_value (time_label zone period reading.timestamp) v g
      ] in
      let rest = group_history zone metric period cutoff history g' in
      if ltb_ℤ (pos 0) cutoff && ltb_ℤ reading.timestamp cutoff then g else rest

  -- The value of a group: the mean where numbers were counted.
  abbrev pub final_value : Table ℕ → String × F → F
  final_value counts (label, total) = elim (lookup label counts) [
    | none ↦ total
    | some count ↦ if ltb 0 count then d.div total (d.of_int (pos count)) else total
  ]

  -- The loop over the groups, with the running maximum.
  unfoldable pub chart_points :
      Table ℕ → Table F → F → List (ChartPoint F) → List (ChartPoint F) × F
  chart_points counts [] max_val chart = (chart, max_val)
  chart_points counts (e ∷ groups) max_val chart =
      let v = final_value counts e in
      chart_points counts groups (if d.lt max_val v then v else max_val)
        (chart ++ (record { label = e.0; value = round1 v } ∷ []))

  unfoldable pub filter_time :
      (Table F → Table F)
      → Zone
      → List (Telemetry F)
      → (metric period : String) (now : ℤ) → List (ChartPoint F) × F
  filter_time visit zone history metric period now =
      let g =
        group_history zone metric period (period_cutoff now period) history
          (record { grouped = []; counts = [] }) in
      let (chart, max_val) = chart_points g.counts (visit g.grouped) lowest [] in
      (sort_points chart, round1 (if d.eq max_val lowest then zero_float else max_val))

  unfoldable pub max_from : F → List (ChartPoint F) → F
  max_from max_val [] = max_val
  max_from max_val (pt ∷ points) =
      max_from (if d.lt max_val pt.value then pt.value else max_val) points

  unfoldable pub get_chart_max : List (ChartPoint F) → F
  get_chart_max [] = zero_float
  get_chart_max (pt ∷ points) = max_from lowest (pt ∷ points)

  -- The loop of `GetAlerts`: the warnings and the critical alerts for each label.
  unfoldable pub count_alerts :
      Zone → String → List (Alert F) → Table F × Table F → Table F × Table F
  count_alerts zone time_format [] tables = tables
  count_alerts zone time_format (alert ∷ alerts) (warning, critical) =
      let label = zone.format time_format alert.timestamp in
      let one = d.of_int (pos 1) in
      count_alerts zone time_format alerts (
        if is_warning alert.severity
        then (plus one label warning, critical)
        else if is_critical alert.severity
        then (warning, plus one label critical)
        else (warning, critical))

  abbrev pub points_of : Table F → List (ChartPoint F)
  points_of [] = []
  points_of ((k, v) ∷ table) = record { label = k; value = v } ∷ points_of table

  -- The charts under "warning" and "critical".
  unfoldable pub get_alerts :
      (Table F → Table F)
      → Zone
      → List (Alert F)
      → String
      → List (ChartPoint F) × List (ChartPoint F)
  get_alerts visit zone alerts period =
      let (warning, critical) = count_alerts zone (get_time_format period) alerts ([], []) in
      (sort_points (points_of (visit warning)), sort_points (points_of (visit critical)))

  unfoldable pub calculate_energy : List (ChartPoint F) → List (ChartPoint F)
  calculate_energy [] = []
  calculate_energy (point ∷ usage) =
      let daily_ac = d.mul point.value (d.decimal 15 1) in
      let total_consumption = d.add daily_ac (d.decimal 132 3) in
      record { label = point.label; value = round1 total_consumption } ∷ calculate_energy usage

  abbrev pub add_number : F → Overall F → Overall F
  add_number num o = record {
    low = if d.lt num o.low then num else o.low;
    high = if d.lt o.high num then num else o.high;
    total = d.add o.total num;
    count = o.count + 1;
  }

  -- A float or an `int` as a number.
  abbrev pub number_of : Option (Value F) → Option F
  number_of v = elim (as_float v) [
    | some x ↦ some x
    | none ↦ elim (as_int v) [ none ↦ none | some n ↦ some (d.of_int n) ]
  ]

  unfoldable pub overall_of : String → ℤ → List (Telemetry F) → Overall F → Overall F
  overall_of metric cutoff [] o = o
  overall_of metric cutoff (reading ∷ history) o =
      let o' : Overall F = elim (number_of (get metric reading.payload)) [
        | none ↦ o
        | some num ↦ add_number num o
      ] in
      let rest = overall_of metric cutoff history o' in
      if ltb_ℤ reading.timestamp cutoff then o else rest

  unfoldable pub calculate_temp_state : List (Telemetry F) → String → ℤ → Result (TempState F)
  calculate_temp_state [] metric now = err (plain "no data")
  calculate_temp_state (reading ∷ history) metric now =
      let o =
        overall_of metric (sub64 now (pos 86400)) (reading ∷ history)
          (record { low = d.max_float; high = lowest; total = zero_float; count = 0 }) in
      if nat_eq o.count 0
      then ok (record { min = zero_float; max = zero_float; average = zero_float })
      else ok (record {
        min = round1 o.low;
        max = round1 o.high;
        average = round1 (d.div o.total (d.of_int (pos o.count)));
      })
