-- ===== src/Rules/Gas.antt =====
-- backend/internal/rules/gas_rules.go: the conditions of an alarm and its handling.
use io_t_fleet_management.Go.Outcome.{
  ok, err, returned, failed, panicked, Action, Error, Result, pure, attempt,
}
use io_t_fleet_management.Prelude.{
  refl, inl, inr, true, false, some, none, String, ◌≡◌, ◌↔◌, ◌⊎◌, arith, eq_iff, Bool, Bool-cases,
  Option, if◌then◌else◌, ◌||◌, ◌==◌, ◌&&◌, not, ap, sym, ◌∙◌,
}
use io_t_fleet_management.Go.Value.{Payload, get, or_false, as_bool, or_empty, as_string}
use io_t_fleet_management.Go.Float.{Float64}
use io_t_fleet_management.Cloud.{Host, Dynamo}
use io_t_fleet_management.Rules.{gas_alarm, AlertEngine, handle_gas, gas_alert}
use io_t_fleet_management.Alerts.{save_alert}
use io_t_fleet_management.Notifications.{send_push_notification}
use io_t_fleet_management.Go.Steps.{chain-returned, attempt-of-failed, attempt-of-returned}

abbrev alarm_for : Bool → String → Option (String × String)
alarm_for on status =
    if on || status == "WARNING" || status == "CRITICAL"
    then some (
        if status == "WARNING" && not on
        then ("WARNING", "Gas spike detected")
        else ("CRITICAL", "Gas level critical"))
    else none

abbrev spike : Option (String × String)
spike = some ("WARNING", "Gas spike detected")

abbrev critical : Option (String × String)
critical = some ("CRITICAL", "Gas level critical")

kind_of : Option (String × String) → String
kind_of none = ""
kind_of (some (severity, _)) = severity

spike≢critical : ¬ spike ≡ critical
unfolding kind_of
spike≢critical h = let e : ◌≡◌ {A = String} "WARNING" "CRITICAL" = ap kind_of h in cc

warning≢critical : (status : String) → status ≡ "WARNING" → ¬ status ≡ "CRITICAL"
warning≢critical status h k = let e : ◌≡◌ {A = String} "WARNING" "CRITICAL" = sym h ∙ k in cc

-- The three kinds of alarm, for the flag and the status.
alarm_iff :
    (on : Bool) (status : String)
    → ((alarm_for on status ≡ none)
        ↔ ((¬ on ≡ true) × (¬ status ≡ "WARNING") × (¬ status ≡ "CRITICAL")))
      × ((alarm_for on status ≡ spike) ↔ ((¬ on ≡ true) × (status ≡ "WARNING")))
      × ((alarm_for on status ≡ critical) ↔ ((on ≡ true) ⊎ (status ≡ "CRITICAL")))
alarm_iff true status = elim (Bool-cases (status == "WARNING")) [
  | inl e ↦ rw e (
    ((λ h. cc), (λ h. absurd (h.0 refl))),
    ((λ h. absurd (spike≢critical (sym h))), (λ h. absurd (h.0 refl))),
    ((λ h. inl refl), (λ h. refl)),
  )
  | inr e ↦ rw e (
    ((λ h. cc), (λ h. absurd (h.0 refl))),
    ((λ h. absurd (spike≢critical (sym h))), (λ h. absurd (h.0 refl))),
    ((λ h. inl refl), (λ h. refl)),
  )
]
alarm_iff false status = elim (Bool-cases (status == "WARNING")) [
  | inl e ↦
      let w : status ≡ "WARNING" = (eq_iff status "WARNING").0 e in
      rw e (
        ((λ h. cc), (λ h. absurd (h.1 w))),
        ((λ h. ((λ t. cc), w)), (λ h. refl)),
        (
          (λ h. absurd (spike≢critical h)),
          (λ h. absurd (ground (arith, warning≢critical status w))),
        ),
      )
  | inr e ↦
      let not_w : ¬ status ≡ "WARNING" = λ w. ground (arith, eq_iff status "WARNING") in
      elim (Bool-cases (status == "CRITICAL")) [
        | inl f ↦
            let c : status ≡ "CRITICAL" = (eq_iff status "CRITICAL").0 f in
            rw (e, f)
              (
                ((λ h. cc), (λ h. absurd (h.2 c))),
                ((λ h. absurd (spike≢critical (sym h))), (λ h. absurd (not_w h.1))),
                ((λ h. inr c), (λ h. refl)),
              )
        | inr f ↦
            let not_c : ¬ status ≡ "CRITICAL" = λ w. ground (arith, eq_iff status "CRITICAL") in
            rw (e, f)
              (
                ((λ h. ((λ t. cc), not_w, not_c)), (λ h. refl)),
                ((λ h. cc), (λ h. absurd (not_w h.1))),
                ((λ h. cc), (λ h. absurd (ground (arith, not_c)))),
              )
      ]
]

module _ {F : Type 0} ⦃d : Float64 F⦄ where
  abbrev pub IsAlarmOn : Payload F → Type 0
  IsAlarmOn payload = or_false (as_bool (get "alarm_on" payload)) ≡ true

  abbrev pub HasStatus : Payload F → String → Type 0
  HasStatus payload status = or_empty (as_string (get "status" payload)) ≡ status

  -- A gas reading raises no alarm exactly when its alarm flag is off and its status is neither
  -- WARNING nor CRITICAL, a WARNING exactly when its status is WARNING with the flag off, and a
  -- CRITICAL alarm exactly when its flag is on or its status is CRITICAL.
  pub gas_alarm_iff :
      (payload : Payload F)
      → ((gas_alarm payload ≡ none) ↔ (
          (¬ IsAlarmOn payload)
          × (¬ HasStatus payload "WARNING")
          × (¬ HasStatus payload "CRITICAL")))
        × ((gas_alarm payload ≡ some ("WARNING", "Gas spike detected"))
            ↔ ((¬ IsAlarmOn payload) × HasStatus payload "WARNING"))
        × ((gas_alarm payload ≡ some ("CRITICAL", "Gas level critical"))
            ↔ (IsAlarmOn payload ⊎ HasStatus payload "CRITICAL"))
  unfolding gas_alarm
  gas_alarm_iff payload =
      let on = or_false (as_bool (get "alarm_on" payload)) in
      let status = or_empty (as_string (get "status" payload)) in
      elim (Bool-cases on) [
        | inl o ↦ rw o (alarm_iff true status)
        | inr o ↦ rw o (alarm_iff false status)
      ]

module _ {F W Item Raw : Type 0} ⦃d : Float64 F⦄ (host : Host W) (db : Dynamo F W Item Raw)
    (engine : AlertEngine W) where
  -- Saving the alert of an alarm, after the clock is read.
  abbrev pub saving_alarm : String → Payload F → String × String → Action W (Unit {0})
  saving_alarm device_id payload alarm w =
      let (now, v) = host.clock w in
      save_alert host db engine.alert_store (gas_alert device_id now alarm payload) v

  -- An alarm whose alert cannot be saved is not an error and sends no message; one whose alert is
  -- saved panics if there is no notifier.
  pub handle_gas-alarm :
      (device_id : String) (payload : Payload F) (alarm : String × String) (w v : W)
      → gas_alarm payload ≡ some alarm
      → ((e : Error)
          → saving_alarm device_id payload alarm w ≡ (failed e, v)
          → handle_gas host db engine device_id payload w ≡ (returned tt, v))
        × (saving_alarm device_id payload alarm w ≡ (returned tt, v)
            → engine.notifier ≡ none
            → handle_gas host db engine device_id payload w ≡ (panicked, v))
  unfolding handle_gas send_push_notification
  handle_gas-alarm device_id payload (severity, description) w v h =
      let now = (host.clock w).0 in
      let start = (host.clock w).1 in
      let saving : Action W (Unit {0}) =
        save_alert host db engine.alert_store
          (gas_alert device_id now (severity, description) payload) in
      let notify : Result (Unit {0}) → Action W (Unit {0}) = λ saved. elim saved [
        | err _ ↦ pure tt
        | ok _ ↦ send_push_notification engine.notifier device_id "Gas Alert" description
      ] in
      (
        λ e k.
            rw (h, handle_gas)
              (chain-returned (attempt saving) notify start v (err e)
                (attempt-of-failed saving start v e k)),
        λ k n.
            rw (h, handle_gas)
              (chain-returned (attempt saving) notify start v (ok tt)
                  (attempt-of-returned saving start v tt k)
                ∙ rw n refl),
      )
