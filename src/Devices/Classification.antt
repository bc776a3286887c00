-- ===== src/Devices/Classification.antt =====
-- backend/internal/devices/device_rules.go: the classes of a temperature.
use io_t_fleet_management.Prelude.{
  refl, inl, inr, true, false, some, ◌≡◌, ◌⊎◌, ◌↔◌, if◌then◌else◌, not,
}
use io_t_fleet_management.Go.Value.{Payload, get}
use io_t_fleet_management.Devices.{temp_operational, Float64, as_float, String, pos, Bool}
use io_t_fleet_management.Go.Float.{IsOrdered, IsNumber, ◌≼◌}

abbrev class_of : (cool warm : Bool) → String
class_of cool warm = if not cool then "HOT" else if not warm then "COLD" else "NORMAL"

class_iff :
    (cool warm : Bool)
    → (cool ≡ true) ⊎ (warm ≡ true)
    → ((class_of cool warm ≡ "HOT") ↔ (¬ cool ≡ true))
      × ((class_of cool warm ≡ "COLD") ↔ (¬ warm ≡ true))
      × ((class_of cool warm ≡ "NORMAL") ↔ ((warm ≡ true) × (cool ≡ true)))
class_iff true true e = (
  ((λ h. cc), (λ h. absurd (h refl))),
  ((λ h. cc), (λ h. absurd (h refl))),
  ((λ h. (refl, refl)), (λ h. refl)),
)
class_iff true false e =
    (((λ h. cc), (λ h. absurd (h refl))), ((λ h k. cc), (λ h. refl)), ((λ h. cc), (λ h. cc)))
class_iff false true e =
    (((λ h k. cc), (λ h. refl)), ((λ h. cc), (λ h. absurd (h refl))), ((λ h. cc), (λ h. cc)))
class_iff false false (inl e) = cc
class_iff false false (inr e) = cc

module _ {F : Type 0} ⦃d : Float64 F⦄ (laws : IsOrdered F) where
  -- Under the order of IEEE 754, a temperature that is a number is HOT exactly above 30, COLD exactly below 18, and NORMAL exactly
  -- from 18 to 30; the two limits are numbers, in this order.
  pub temp_operational_iff :
      (payload : Payload F) (temp : F)
      → as_float (get "temp" payload) ≡ some temp
      → IsNumber temp
      → IsNumber (d.of_int (pos 18))
      → IsNumber (d.of_int (pos 30))
      → d.of_int (pos 18) ≼ d.of_int (pos 30)
      → ((temp_operational payload ≡ "HOT") ↔ (¬ temp ≼ d.of_int (pos 30)))
        × ((temp_operational payload ≡ "COLD") ↔ (¬ d.of_int (pos 18) ≼ temp))
        × ((temp_operational payload ≡ "NORMAL")
            ↔ ((d.of_int (pos 18) ≼ temp) × (temp ≼ d.of_int (pos 30))))
  unfolding temp_operational
  temp_operational_iff payload temp known n n18 n30 below =
      let hot = laws.lt-eq-not-le (d.of_int (pos 30)) temp n30 n in
      let cold = laws.lt-eq-not-le temp (d.of_int (pos 18)) n n18 in
      let both = laws.le_trans (d.of_int (pos 18)) (d.of_int (pos 30)) temp below in
      let total = laws.le_total (d.of_int (pos 30)) temp n30 n in
      rw (known, temp_operational, hot, cold)
        (class_iff (d.le temp (d.of_int (pos 30))) (d.le (d.of_int (pos 18)) temp)
          (elim total [ inl h ↦ inr (both h) | inr h ↦ inl h ]))
