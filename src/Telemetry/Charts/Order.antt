-- ===== src/Telemetry/Charts/Order.antt =====
-- analytics.go: the charts of the alerts, and the order in which a map is visited.
use mathlib.Core.List.{Permᴰ}
use io_t_fleet_management.Prelude.{
  [], ◌∷◌, none, some, true, false, refl, inl, inr, String, List, ◌≡◌, ◌∙◌, ap, sym, Option, ◌==◌,
  if◌then◌else◌, arith, eq_iff, eq_refl, Bool-cases, All, Bool,
}
use io_t_fleet_management.Go.Float.{Float64}
use io_t_fleet_management.Go.Text.Order.{not_equal}
use io_t_fleet_management.Telemetry.Charts.Insertion.{sort_points-perm}
use io_t_fleet_management.Models.{Alert}
use io_t_fleet_management.Telemetry.Periods.{Zone, get_time_format}
use io_t_fleet_management.Telemetry.Charts.{
  ChartPoint, Table, sort_points, points_of, update, lookup, count_alerts, get_alerts, is_warning,
  is_critical, zero_float, plus,
}
use io_t_fleet_management.Prelude.Int.{pos}

module _ {F : Type 0} ⦃d : Float64 F⦄ where
  none≢some : {v : F} → ¬ ◌≡◌ {A = Option F} none (some v)
  none≢some h = cc

  -- No label has two entries.
  abbrev pub IsDistinct : Table F → Type 0
  IsDistinct [] = Unit
  IsDistinct ((k, v) ∷ table) = (lookup k table ≡ none) × IsDistinct table

  lookup-update :
      (zero_value : F) (f : F → F) (key k : String) (table : Table F)
      → ¬ key ≡ k
      → lookup k (update zero_value f key table) ≡ lookup k table
  unfolding lookup update
  lookup-update z f key k [] h = rw (not_equal key k h) refl
  lookup-update z f key k ((k', v) ∷ table) h =
      let later = lookup-update z f key k table h in
      elim (Bool-cases (k' == key)) [
        | inl e ↦
            let p : ¬ k' ≡ k = λ q. h (sym ((eq_iff k' key).0 e) ∙ q) in
            rw e (rw (not_equal k' k p) refl)
        | inr e ↦ elim (Bool-cases (k' == k)) [
          | inl g ↦ rw e (rw g refl)
          | inr g ↦ rw e (rw g later)
        ]
      ]

  pub update-IsDistinct :
      (zero_value : F) (f : F → F) (key : String) (table : Table F)
      → IsDistinct table
      → IsDistinct (update zero_value f key table)
  unfolding lookup update
  update-IsDistinct z f key [] h = (refl, tt)
  update-IsDistinct z f key ((k, v) ∷ table) h =
      let later = update-IsDistinct z f key table h.1 in
      elim (Bool-cases (k == key)) [
        | inl e ↦ rw e h
        | inr e ↦
            let p : ¬ key ≡ k = λ q. ground (arith, eq_iff k key, sym q) in
            rw e (lookup-update z f key k table p ∙ h.0, later)
      ]

  unfoldable pub IsEntry : Table F → ChartPoint F → Type 0
  IsEntry table p = lookup p.label table ≡ some p.value

  pub points_of-IsEntry :
      (table : Table F) → IsDistinct table → All (IsEntry table) (points_of table)
  unfolding lookup IsEntry
  points_of-IsEntry [] h = tt
  points_of-IsEntry ((k, v) ∷ table) h =
      (rw (eq_refl k) refl, later (points_of table) (points_of-IsEntry table h.1))
    where
      entry : (p : ChartPoint F) → IsEntry table p → IsEntry ((k, v) ∷ table) p
      entry p e = elim (Bool-cases (k == p.label)) [
        | inl g ↦
            let same : k ≡ p.label = (eq_iff k p.label).0 g in
            absurd (none≢some (sym h.0 ∙ ap (λ s. lookup s table) same ∙ e))
        | inr g ↦ rw g e
      ]

      later :
          (ps : List (ChartPoint F)) → All (IsEntry table) ps → All (IsEntry ((k, v) ∷ table)) ps
      later [] hs = tt
      later (p ∷ ps) hs = (entry p hs.0, later ps hs.1)

  points_of-perm : (t u : Table F) → Permᴰ t u → Permᴰ (points_of t) (points_of u)
  points_of-perm _ _ Permᴰ.nil = Permᴰ.nil
  points_of-perm _ _ (Permᴰ.cons {l₁ = t} {l₂ = u} e p) =
      Permᴰ.cons (ap (λ (k, v). record { label = k; value = v }) e) (points_of-perm t u p)
  points_of-perm _ _ (Permᴰ.swap e f) =
      Permᴰ.swap (ap (λ (k, v). record { label = k; value = v }) e)
        (ap (λ (k, v). record { label = k; value = v }) f)
  points_of-perm _ _ (Permᴰ.trans {l₁ = t} {l₂ = u} {l₃ = x} p q) =
      Permᴰ.trans (points_of-perm t u p) (points_of-perm u x q)

  entries_agree :
      (table : Table F) (p q : ChartPoint F)
      → IsEntry table p
      → IsEntry table q
      → p.label ≡ q.label
      → p ≡ q
  unfolding IsEntry
  entries_agree table p q hp hq same =
      let e : some p.value ≡ some q.value = sym hp ∙ ap (λ s. lookup s table) same ∙ hq in
      let v : p.value ≡ q.value = cc in λ i. record { label = same i; value = v i }

  visited :
      (visit : Table F → Table F) (table : Table F)
      → Permᴰ table (visit table)
      → IsDistinct table
      → sort_points (points_of table) ≡ sort_points (points_of (visit table))
  visited visit table p h =
      sort_points-perm (IsEntry table) (entries_agree table) (points_of table)
        (points_of (visit table)) (points_of-perm table (visit table) p) (points_of-IsEntry table h)

  abbrev AreDistinct : Table F × Table F → Type 0
  AreDistinct tables = IsDistinct tables.0 × IsDistinct tables.1

  -- The counting of one alert.
  counted-AreDistinct :
      (warns crits : Bool) (label : String) (one : F) (tables : Table F × Table F)
      → AreDistinct tables
      → AreDistinct (
          if warns
          then (plus one label tables.0, tables.1)
          else if crits
          then (tables.0, plus one label tables.1)
          else tables)
  counted-AreDistinct true crits label one tables h =
      (update-IsDistinct zero_float (λ total. d.add total one) label tables.0 h.0, h.1)
  counted-AreDistinct false true label one tables h =
      (h.0, update-IsDistinct zero_float (λ total. d.add total one) label tables.1 h.1)
  counted-AreDistinct false false label one tables h = h

  count_alerts-AreDistinct :
      (zone : Zone) (time_format : String) (alerts : List (Alert F)) (tables : Table F × Table F)
      → AreDistinct tables
      → AreDistinct (count_alerts zone time_format alerts tables)
  unfolding count_alerts
  count_alerts-AreDistinct zone time_format [] tables h = h
  count_alerts-AreDistinct zone time_format (alert ∷ alerts) tables h =
      count_alerts-AreDistinct zone time_format alerts _ (
        counted-AreDistinct (is_warning alert.severity) (is_critical alert.severity)
          (zone.format time_format alert.timestamp) (d.of_int (pos 1)) tables h)

  -- The charts of the alerts are the same in whatever orders the maps of their counts are visited.
  pub get_alerts-visit :
      (visit visit' : Table F → Table F) (zone : Zone) (alerts : List (Alert F)) (period : String)
      → ((table : Table F) → Permᴰ table (visit table))
      → ((table : Table F) → Permᴰ table (visit' table))
      → get_alerts visit zone alerts period ≡ get_alerts visit' zone alerts period
  unfolding get_alerts
  get_alerts-visit visit visit' zone alerts period p q =
      let tables = count_alerts zone (get_time_format period) alerts ([], []) in
      let distinct =
        count_alerts-AreDistinct zone (get_time_format period) alerts ([], []) (tt, tt) in
      let w =
        sym (visited visit tables.0 (p tables.0) distinct.0)
        ∙ visited visit' tables.0 (q tables.0) distinct.0 in
      let c =
        sym (visited visit tables.1 (p tables.1) distinct.1)
        ∙ visited visit' tables.1 (q tables.1) distinct.1 in
      λ i. (w i, c i)
