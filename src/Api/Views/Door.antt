-- ===== src/Api/Views/Door.antt =====
-- device_handler.go: the alert that `showDoorStats` shows for a door.
use io_t_fleet_management.Prelude.{
  refl, inl, inr, true, false, ◌≡◌, ◌↔◌, ◌⊎◌, ◌&&◌, ◌==◌, if◌then◌else◌, not, Bool, String, arith,
  eq_iff, Bool-cases, ap, sym, ◌∙◌,
}
use io_t_fleet_management.Prelude.Int.{ℤ, pos, sub64}
use io_t_fleet_management.Go.Value.{Payload, get, or_empty, as_string}
use io_t_fleet_management.Go.Float.{Float64, IsOrdered, ◌≼◌}
use io_t_fleet_management.Api.Views.{alert_status, security_alert}

abbrev status_of : (past7 past15 upto15 : Bool) → String
status_of past7 past15 upto15 =
    if past15 then "CRITICAL_ALERT" else if past7 && upto15 then "WARNING" else "SAFE"

true≢false : ¬ ◌≡◌ {A = Bool} true false
true≢false h = cc

status_of_lem :
    (past7 past15 upto15 : Bool)
    → (past15 ≡ true → past7 ≡ true)
    → (past7 ≡ true → past15 ≡ not upto15)
    → ((status_of past7 past15 upto15 ≡ "CRITICAL_ALERT") ↔ (past15 ≡ true))
      × ((status_of past7 past15 upto15 ≡ "WARNING") ↔ ((past7 ≡ true) × (upto15 ≡ true)))
      × ((status_of past7 past15 upto15 ≡ "SAFE") ↔ ¬ past7 ≡ true)
status_of_lem past7 true true a b = absurd (true≢false (b (a refl)))
status_of_lem false true false a b = absurd (true≢false (sym (a refl)))
status_of_lem true true false a b =
    (((λ h. refl), (λ h. refl)), ((λ h. cc), (λ h. cc)), ((λ h. cc), (λ h. absurd (h refl))))
status_of_lem true false true a b = (
  ((λ h. cc), (λ h. cc)),
  ((λ h. (refl, refl)), (λ h. refl)),
  ((λ h. cc), (λ h. absurd (h refl))),
)
status_of_lem true false false a b = absurd (true≢false (sym (b refl)))
status_of_lem false false upto15 a b =
    (((λ h. cc), (λ h. cc)), ((λ h. cc), (λ h. cc)), ((λ h k. cc), (λ h. refl)))

module _ {F : Type 0} ⦃d : Float64 F⦄ where
  abbrev pub IsUnlocked : Payload F → Type 0
  IsUnlocked payload = or_empty (as_string (get "lock_state" payload)) ≡ "UNLOCKED"

  -- The minutes from the newest reading to the clock.
  abbrev pub minutes_since : ℤ → ℤ → F
  minutes_since newest now = d.div (d.of_int (sub64 now newest)) (d.of_int (pos 60))

module _ {F : Type 0} ⦃d : Float64 F⦄ (laws : IsOrdered F) where
  alert_status_lem :
      (m : F)
      → d.of_int (pos 7) ≼ d.of_int (pos 15)
      → ((alert_status m ≡ "CRITICAL_ALERT") ↔ (d.lt (d.of_int (pos 15)) m ≡ true))
        × ((alert_status m ≡ "WARNING")
            ↔ ((d.lt (d.of_int (pos 7)) m ≡ true) × (m ≼ d.of_int (pos 15))))
        × ((alert_status m ≡ "SAFE") ↔ ¬ d.lt (d.of_int (pos 7)) m ≡ true)
  unfolding alert_status
  alert_status_lem m below =
      let (n7, n15) = laws.number_of_le (d.of_int (pos 7)) (d.of_int (pos 15)) below in
      status_of_lem (d.lt (d.of_int (pos 7)) m) (d.lt (d.of_int (pos 15)) m)
        (d.le m (d.of_int (pos 15)))
        (λ h.
          let (_, n) = laws.lt_number (d.of_int (pos 15)) m h in
          let e = laws.lt-eq-not-le (d.of_int (pos 15)) m n15 n in
          let f = laws.lt-eq-not-le (d.of_int (pos 7)) m n7 n in
          let g = laws.le_trans m (d.of_int (pos 7)) (d.of_int (pos 15)) in
          elim (Bool-cases (d.le m (d.of_int (pos 7)))) [
            | inl k ↦ absurd (true≢false (sym h ∙ e ∙ ap not (g k below)))
            | inr k ↦ f ∙ ap not k
          ])
        (λ h.
          let (_, n) = laws.lt_number (d.of_int (pos 7)) m h in
          laws.lt-eq-not-le (d.of_int (pos 15)) m n15 n)

  -- Under the order of IEEE 754, where 7 is at most 15: the API shows a door as critical exactly when it
  -- is unlocked and its newest reading is more than 15 minutes old, as a warning exactly when it is
  -- unlocked and that is more than 7 minutes old and at most 15, and as safe exactly when it is not
  -- unlocked or that is not more than 7 minutes old.
  pub security_alert_iff :
      (payload : Payload F) (newest now : ℤ)
      → d.of_int (pos 7) ≼ d.of_int (pos 15)
      → let m = minutes_since {F = F} newest now in
        let past7 = d.lt (d.of_int (pos 7)) m ≡ true in
        ((security_alert payload newest now ≡ "CRITICAL_ALERT")
          ↔ (IsUnlocked payload × (d.lt (d.of_int (pos 15)) m ≡ true)))
        × ((security_alert payload newest now ≡ "WARNING")
            ↔ (IsUnlocked payload × past7 × (m ≼ d.of_int (pos 15))))
        × ((security_alert payload newest now ≡ "SAFE") ↔ ((¬ IsUnlocked payload) ⊎ (¬ past7)))
  unfolding security_alert
  security_alert_iff payload newest now below =
      let lock = or_empty (as_string (get "lock_state" payload)) in
      let (c, w, s) = alert_status_lem (minutes_since {F = F} newest now) below in
      elim (Bool-cases (lock == "UNLOCKED")) [
        | inl e ↦
            let u : IsUnlocked payload = (eq_iff lock "UNLOCKED").0 e in
            rw e (
              ((λ h. (u, c.0 h)), (λ h. c.1 h.1)),
              ((λ h. let k = w.0 h in (u, k.0, k.1)), (λ h. w.1 (h.1, h.2))),
              ((λ h. inr (s.0 h)), (λ h. s.1 (elim h [ inl k ↦ absurd (k u) | inr k ↦ k ]))),
            )
        | inr e ↦
            let u : ¬ IsUnlocked payload = λ k. ground (arith, eq_iff lock "UNLOCKED") in
            rw e (
              ((λ h. cc), (λ h. absurd (u h.0))),
              ((λ h. cc), (λ h. absurd (u h.0))),
              ((λ h. inl u), (λ h. refl)),
            )
      ]
