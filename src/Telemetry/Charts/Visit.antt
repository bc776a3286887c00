-- ===== src/Telemetry/Charts/Visit.antt =====
-- analytics.go: the chart of `FilterTime`, and the order in which its map is visited.
use mathlib.Core.List.{Permᴰ}
use io_t_fleet_management.Prelude.{
  [], ◌∷◌, ◌++◌, some, refl, String, List, ◌≡◌, ◌∙◌, ap, sym, ℕ, All, append_assoc, append-nil,
  Bool-cases, Option-cases, inr, inl, ◌&&◌, ◌==◌,
}
use io_t_fleet_management.Prelude.Int.{ℤ, ltb_ℤ, pos}
use io_t_fleet_management.Go.Float.{Float64}
use io_t_fleet_management.Go.Value.{float, int, str, Value, get}
use io_t_fleet_management.Models.{Telemetry, Alert}
use io_t_fleet_management.Telemetry.Periods.{Zone, period_cutoff}
use io_t_fleet_management.Telemetry.Charts.{
  ChartPoint, Table, Groups, sort_points, filter_time, chart_points, final_value, group_history,
  add_value, lookup, lowest, round1, get_alerts, zero_float, points_of, time_label,
}
use io_t_fleet_management.Telemetry.Charts.Insertion.{sort_points-perm}
use io_t_fleet_management.Telemetry.Charts.Order.{
  IsDistinct, update-IsDistinct, IsEntry, points_of-IsEntry, get_alerts-visit,
}

module _ {F : Type 0} ⦃d : Float64 F⦄ where
  abbrev point_of : Table ℕ → String × F → ChartPoint F
  point_of counts e = record { label = e.0; value = round1 (final_value counts e) }

  abbrev averages : Table ℕ → Table F → List (ChartPoint F)
  averages counts [] = []
  averages counts (e ∷ table) = point_of counts e ∷ averages counts table

  chart_points_lem :
      (counts : Table ℕ) (table : Table F) (m : F) (chart : List (ChartPoint F))
      → (chart_points counts table m chart).0 ≡ chart ++ averages counts table
  unfolding chart_points
  chart_points_lem counts [] m chart = sym (append-nil chart)
  chart_points_lem counts (e ∷ table) m chart =
      chart_points_lem counts table _ _
      ∙ append_assoc chart (point_of counts e ∷ []) (averages counts table)

  -- The point of an entry.
  IsAverage : Table ℕ → Table F → ChartPoint F → Type 0
  IsAverage counts table p =
      (v : F) × (lookup p.label table ≡ some v)
      × (p.value ≡ round1 (final_value counts (p.label, v)))

  averages-IsAverage :
      (counts : Table ℕ) (whole : Table F) (table : Table F)
      → All (λ e. lookup e.0 whole ≡ some e.1) table
      → All (IsAverage counts whole) (averages counts table)
  unfolding IsAverage
  averages-IsAverage counts whole [] h = tt
  averages-IsAverage counts whole ((k, v) ∷ table) (h, hs) =
      ((v, h, refl), averages-IsAverage counts whole table hs)

  averages_agree :
      (counts : Table ℕ) (table : Table F) (p q : ChartPoint F)
      → IsAverage counts table p
      → IsAverage counts table q
      → p.label ≡ q.label
      → p ≡ q
  unfolding IsAverage
  averages_agree counts table p q (u, hp, ep) (v, hq, eq) same =
      let e : some u ≡ some v = sym hp ∙ ap (λ s. lookup s table) same ∙ hq in
      let uv : u ≡ v = cc in
      let values : p.value ≡ q.value =
        ep ∙ ap (λ x. round1 (final_value counts x)) (λ i. (same i, uv i)) ∙ sym eq in
      λ i. record { label = same i; value = values i }

  entries_from :
      (whole table : Table F)
      → All (IsEntry whole) (points_of table)
      → All (λ e. lookup e.0 whole ≡ some e.1) table
  unfolding IsEntry
  entries_from whole [] h = tt
  entries_from whole ((k, v) ∷ table) (h, hs) = (h, entries_from whole table hs)

  entries_of : (table : Table F) → IsDistinct table → All (λ e. lookup e.0 table ≡ some e.1) table
  entries_of table h = entries_from table table (points_of-IsEntry table h)

  averages-perm :
      (counts : Table ℕ) (t u : Table F) → Permᴰ t u → Permᴰ (averages counts t) (averages counts u)
  averages-perm counts _ _ Permᴰ.nil = Permᴰ.nil
  averages-perm counts _ _ (Permᴰ.cons {l₁ = t} {l₂ = u} e p) =
      Permᴰ.cons (ap (point_of counts) e) (averages-perm counts t u p)
  averages-perm counts _ _ (Permᴰ.swap e f) =
      Permᴰ.swap (ap (point_of counts) e) (ap (point_of counts) f)
  averages-perm counts _ _ (Permᴰ.trans {l₁ = t} {l₂ = u} {l₃ = x} p q) =
      Permᴰ.trans (averages-perm counts t u p) (averages-perm counts u x q)

  add_value-IsDistinct :
      (label : String) (v : Value F) (g : Groups F)
      → IsDistinct g.grouped
      → IsDistinct (add_value label v g).grouped
  add_value-IsDistinct label (float x) g h =
      update-IsDistinct zero_float (λ total. d.add total x) label g.grouped h
  add_value-IsDistinct label (int n) g h =
      update-IsDistinct zero_float (λ total. d.add total (d.of_int n)) label g.grouped h
  add_value-IsDistinct label (str s) g h = elim (Bool-cases (s == "ON")) [
    | inl on ↦
        rw on
          (update-IsDistinct zero_float (λ total. d.add total (d.decimal 83 3)) label g.grouped h)
    | inr off ↦ rw off h
  ]
  add_value-IsDistinct label _ g h = h

  group_history-IsDistinct :
      (zone : Zone) (metric period : String) (cutoff : ℤ) (history : List (Telemetry F))
      (g : Groups F)
      → IsDistinct g.grouped
      → IsDistinct (group_history zone metric period cutoff history g).grouped
  unfolding group_history
  group_history-IsDistinct zone metric period cutoff [] g h = h
  group_history-IsDistinct zone metric period cutoff (reading ∷ history) g h =
      elim (Bool-cases (ltb_ℤ (pos 0) cutoff && ltb_ℤ reading.timestamp cutoff)) [
        | inl old ↦ rw old h
        | inr recent ↦ elim (Option-cases (get metric reading.payload)) [
          | inl e ↦ rw (recent, e) (group_history-IsDistinct zone metric period cutoff history g h)
          | inr (v, e) ↦
              rw (recent, e)
                (group_history-IsDistinct zone metric period cutoff history _
                  (add_value-IsDistinct (time_label zone period reading.timestamp) v g h))
        ]
      ]

  averaged :
      (counts : Table ℕ) (visit : Table F → Table F) (table : Table F) (m : F)
      → Permᴰ table (visit table)
      → IsDistinct table
      → sort_points (chart_points counts (visit table) m []).0 ≡ sort_points (averages counts table)
  averaged counts visit table m p h =
      ap sort_points (chart_points_lem counts (visit table) m [])
      ∙ sym (
          sort_points-perm (IsAverage counts table) (averages_agree counts table)
            (averages counts table) (averages counts (visit table))
            (averages-perm counts table (visit table) p)
            (averages-IsAverage counts table table (entries_of table h)))

  -- The points of the chart of a history, and the charts of the alerts, are the same in whatever
  -- orders the maps of their groups are visited.
  pub filter_time-visit :
      (visit visit' : Table F → Table F) (zone : Zone) (history : List (Telemetry F))
      (alerts : List (Alert F)) (metric period : String) (now : ℤ)
      → ((table : Table F) → Permᴰ table (visit table))
      → ((table : Table F) → Permᴰ table (visit' table))
      → ((filter_time visit zone history metric period now).0
          ≡ (filter_time visit' zone history metric period now).0)
        × (get_alerts visit zone alerts period ≡ get_alerts visit' zone alerts period)
  unfolding filter_time
  filter_time-visit visit visit' zone history alerts metric period now p q =
      let g : Groups F =
        group_history zone metric period (period_cutoff now period) history
          (record { grouped = []; counts = [] }) in
      let distinct =
        group_history-IsDistinct zone metric period (period_cutoff now period) history
          (record { grouped = []; counts = [] }) tt in
      (
        averaged g.counts visit g.grouped lowest (p g.grouped) distinct
            ∙ sym (averaged g.counts visit' g.grouped lowest (q g.grouped) distinct),
        get_alerts-visit visit visit' zone alerts period p q,
      )
