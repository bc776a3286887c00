-- ===== src/Rules/Door/Windows.antt =====
-- backend/internal/rules/door_rules.go: the windows of the two alarms.
use io_t_fleet_management.Prelude.{
  refl, true, false, some, none, Bool, Option, String, ◌≡◌, ◌↔◌, ap, if◌then◌else◌, sym, ◌&&◌,
  arith, not,
}
use io_t_fleet_management.Go.Float.{Float64, IsOrdered, ◌≼◌}
use io_t_fleet_management.Rules.Door.{
  door_critical, alarm_of, door_alarm, door_warning, in_window, minutes_unlocked, start_timestamp,
  is_open,
}
use io_t_fleet_management.Prelude.Int.{pos, ℤ, eq_ℤ}
use io_t_fleet_management.Go.Value.{Payload}

kind_of : Option (String × String) → String
kind_of none = ""
kind_of (some (severity, _)) = severity

critical≢warning : ¬ some door_critical ≡ some door_warning
unfolding kind_of
critical≢warning h = let e : ◌≡◌ {A = String} "CRITICAL" "WARNING" = ap kind_of h in cc

alarm_of_lem :
    (warning critical : Bool)
    → (warning ≡ true → critical ≡ true → ⊥)
    → ((alarm_of warning critical ≡ some door_critical) ↔ (critical ≡ true))
      × ((alarm_of warning critical ≡ some door_warning) ↔ (warning ≡ true))
alarm_of_lem true true h = absurd (h refl refl)
alarm_of_lem true false h =
    (((λ e. absurd (critical≢warning (sym e))), (λ e. cc)), ((λ e. refl), (λ e. refl)))
alarm_of_lem false true h =
    (((λ e. refl), (λ e. refl)), ((λ e. absurd (critical≢warning e)), (λ e. cc)))
alarm_of_lem false false h = (((λ e. cc), (λ e. cc)), ((λ e. cc), (λ e. cc)))

-- The same behind the two tests of a door.
guarded_lem :
    (opened started : Bool) (alarm : Option (String × String)) (a : String × String)
    (window : Type 0)
    → ((alarm ≡ some a) ↔ window)
    → ((if opened && started then alarm else none) ≡ some a)
      ↔ ((opened ≡ true) × (started ≡ true) × window)
guarded_lem true true alarm a window h = ((λ e. (refl, refl, h.0 e)), (λ e. h.1 e.2))
guarded_lem true false alarm a window h = ((λ e. cc), (λ e. cc))
guarded_lem false started alarm a window h = ((λ e. cc), (λ e. cc))

module _ {F : Type 0} ⦃d : Float64 F⦄ (laws : IsOrdered F) where
  windows_disjoint :
      (minutes : F)
      → d.of_int (pos 8) ≼ d.of_int (pos 15)
      → in_window 7 8 minutes ≡ true
      → in_window 15 16 minutes ≡ true
      → ⊥
  windows_disjoint minutes below w c =
      let early : d.lt minutes (d.of_int (pos 8)) ≡ true = ground arith in
      let late : d.of_int (pos 15) ≼ minutes = ground arith in
      let (n, n8) = laws.lt_number minutes (d.of_int (pos 8)) early in
      let order = laws.lt-eq-not-le minutes (d.of_int (pos 8)) n n8 in
      let over = laws.le_trans (d.of_int (pos 8)) (d.of_int (pos 15)) minutes below late in
      ground arith

  -- Under the order of IEEE 754, where 8 is at most 15: a door raises the critical alarm exactly when
  -- its payload says that it is open and since when, and the minutes from then to the clock lie in the
  -- window from 15 on and before 16; and the warning exactly so for the window from 7 on and before 8.
  pub door_alarm_iff :
      (now : ℤ) (payload : Payload F)
      → d.of_int (pos 8) ≼ d.of_int (pos 15)
      → let minutes = minutes_unlocked {F = F} now (start_timestamp payload) in
        let IsTimed = (is_open payload ≡ true) × (¬ start_timestamp payload ≡ pos 0) in
        ((door_alarm now payload ≡ some door_critical)
          ↔ (IsTimed × (d.of_int (pos 15) ≼ minutes) × (d.lt minutes (d.of_int (pos 16)) ≡ true)))
        × ((door_alarm now payload ≡ some door_warning)
            ↔ (IsTimed × (d.of_int (pos 7) ≼ minutes) × (d.lt minutes (d.of_int (pos 8)) ≡ true)))
  unfolding door_alarm
  door_alarm_iff now payload below =
      let start = start_timestamp payload in
      let minutes = minutes_unlocked {F = F} now start in
      let warn = in_window 7 8 minutes in
      let crit = in_window 15 16 minutes in
      let (c, w) = alarm_of_lem warn crit (windows_disjoint minutes below) in
      let c' =
        guarded_lem (is_open payload) (not (eq_ℤ start (pos 0))) (alarm_of warn crit) door_critical
          (crit ≡ true) c in
      let w' =
        guarded_lem (is_open payload) (not (eq_ℤ start (pos 0))) (alarm_of warn crit) door_warning
          (warn ≡ true) w in
      (
        (
          λ e. let (o, t, i) = c'.0 e in ((o, ground arith), ground arith, ground arith),
          λ (timed, from15, before16). c'.1 (timed.0, ground arith, ground arith),
        ),
        (
          λ e. let (o, t, i) = w'.0 e in ((o, ground arith), ground arith, ground arith),
          λ (timed, from7, before8). w'.1 (timed.0, ground arith, ground arith),
        ),
      )
