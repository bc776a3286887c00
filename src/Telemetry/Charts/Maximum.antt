-- ===== src/Telemetry/Charts/Maximum.antt =====
-- analytics.go: the maximum of a chart.
use io_t_fleet_management.Prelude.{[], ◌∷◌, inl, inr, List, All, Bool-cases, arith, if◌then◌else◌}
use io_t_fleet_management.Telemetry.Charts.{ChartPoint, max_from, get_chart_max, lowest}
use io_t_fleet_management.Go.Float.{Float64, IsOrdered, IsNumber, ◌≼◌}

module _ {F : Type 0} ⦃d : Float64 F⦄ (laws : IsOrdered F) where
  larger_lem :
      (a b : F)
      → IsNumber a
      → IsNumber b
      → (a ≼ (if d.lt a b then b else a))
        × (b ≼ (if d.lt a b then b else a))
        × IsNumber (if d.lt a b then b else a)
  larger_lem a b n m =
      let order = laws.lt-eq-not-le a b n m in
      elim (Bool-cases (d.lt a b)) [
        | inl e ↦
            let up : a ≼ b = elim (laws.le_total a b n m) [ inl h ↦ h | inr h ↦ ground arith ] in
            rw e (up, m, m)
        | inr e ↦ let down : b ≼ a = ground arith in rw e (n, down, n)
      ]

  max_from_lem :
      (max_val : F) (points : List (ChartPoint F))
      → IsNumber max_val
      → All (λ (pt : ChartPoint F). IsNumber pt.value) points
      → (max_val ≼ max_from max_val points)
        × All (λ (pt : ChartPoint F). pt.value ≼ max_from max_val points) points
  unfolding max_from
  max_from_lem max_val [] n ns = (n, tt)
  max_from_lem max_val (pt ∷ points) n (m, ns) =
      let (a, b, number) = larger_lem max_val pt.value n m in
      let larger = if d.lt max_val pt.value then pt.value else max_val in
      let (over, all) = max_from_lem larger points number ns in
      (
        laws.le_trans max_val larger (max_from larger points) a over,
        (laws.le_trans pt.value larger (max_from larger points) b over, all),
      )

  -- Under the order of IEEE 754, no point of a chart lies above the chart's maximum, if the values of the chart and the least
  -- number, from which the search starts, are numbers.
  pub get_chart_max_lem :
      (chart : List (ChartPoint F))
      → IsNumber {F = F} lowest
      → All (λ (pt : ChartPoint F). IsNumber pt.value) chart
      → All (λ (pt : ChartPoint F). pt.value ≼ get_chart_max chart) chart
  unfolding get_chart_max
  get_chart_max_lem [] n ns = tt
  get_chart_max_lem (pt ∷ points) n ns = (max_from_lem (lowest {F = F}) (pt ∷ points) n ns).1
