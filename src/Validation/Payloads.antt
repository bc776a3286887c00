-- ===== src/Validation/Payloads.antt =====
-- validator.go: `ValidatePayload`, beside `ExtractState` of the devices.
use io_t_fleet_management.Prelude.{
  refl, inl, inr, ◌≢◌, String, ◌≡◌, true, ◌↔◌, Option-cases, arith, eq_iff, some, ◌==◌, ap, ◌&&◌,
  not, sym, false, Bool-cases,
}
use mathlib.Core.Option.{some-injective}
use io_t_fleet_management.Go.Float.{Float64}
use io_t_fleet_management.Devices.{temp_operational, extract_state, rules, DeviceRules}
use io_t_fleet_management.Validation.{validate_payload, is_some}
use io_t_fleet_management.Go.Value.{Payload, as_float, get}
use io_t_fleet_management.Go.Outcome.{ok}

module _ {F : Type 0} ⦃d : Float64 F⦄ where
  -- A temperature that is no number has the state UNKNOWN, so the test on `temp` refuses nothing more.
  temp_known :
      (payload : Payload F)
      → temp_operational payload ≢ "UNKNOWN"
      → is_some (as_float (get "temp" payload)) ≡ true
  unfolding temp_operational
  temp_known payload h = elim (Option-cases (as_float (get "temp" payload))) [
    | inl e ↦ absurd (h (rw (e, temp_operational)))
    | inr (t, e) ↦ rw e
  ]

  temp_rules :
      (device_type : String) (r : DeviceRules F)
      → (device_type == "temp-sensor") ≡ true
      → rules device_type ≡ some r
      → r.extract_operational ≡ temp_operational
  unfolding rules
  temp_rules device_type r e h =
      let h' = some-injective _ _ (rw e at h) in ap DeviceRules.extract_operational (sym h')

  no_further_test :
      (device_type : String) (payload : Payload F) (r : DeviceRules F)
      → rules device_type ≡ some r
      → r.extract_operational payload ≢ "UNKNOWN"
      → (device_type == "temp-sensor" && not (is_some (as_float (get "temp" payload)))) ≡ false
  no_further_test device_type payload r h ne = elim (Bool-cases (device_type == "temp-sensor")) [
    | inr other ↦ rw other
    | inl temp ↦
        let op = temp_rules device_type r temp h in
        rw (temp, temp_known payload (λ u. ne (rw op u)))
  ]

  -- A payload is accepted for a device type exactly when the operational state that `ExtractState`
  -- gives is not UNKNOWN.
  pub validate_payload_iff :
      (device_type : String) (payload : Payload F)
      → (validate_payload device_type payload ≡ ok tt)
        ↔ ((extract_state device_type payload).0 ≢ "UNKNOWN")
  unfolding validate_payload extract_state
  validate_payload_iff device_type payload = elim (Option-cases (rules {F = F} device_type)) [
    | inl e ↦ rw (e, validate_payload, extract_state) ((λ h u. cc), (λ h. absurd (h refl)))
    | inr (r, e) ↦
        rw (e, validate_payload, extract_state)
          (
            (λ h u. ground (arith, eq_iff (r.extract_operational payload) "UNKNOWN")),
            λ ne. ground (
              arith,
              eq_iff (r.extract_operational payload) "UNKNOWN",
              no_further_test device_type payload r e ne,
            ),
          )
  ]
