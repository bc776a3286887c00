-- ===== src/Validation/Known.antt =====
-- validator.go and device_rules.go: the payloads whose operational state is known.
use io_t_fleet_management.Prelude.{
  refl, inl, inr, ◌≢◌, String, ◌≡◌, true, false, ◌↔◌, ◌==◌, Option-cases, Bool-cases, arith, eq_iff,
  some, Bool, Option, ◌⊎◌, if◌then◌else◌,
}
use io_t_fleet_management.Go.Float.{Float64}
use io_t_fleet_management.Go.Value.{Payload, as_float, as_string, as_bool, get}
use io_t_fleet_management.Devices.{
  extract_state, rules, temp_operational, light_operational, lock_operational, door_operational,
  gas_operational, ac_operational,
}

-- The text is there, and is not UNKNOWN.
pub record IsNamed (text : Option String) : Type 0 where
  pub state : String
  pub found : text ≡ some state
  pub named : state ≢ "UNKNOWN"

is_known : (text : String) → text == "UNKNOWN" ≡ false → text ≢ "UNKNOWN"
is_known text e h = ground (arith, eq_iff text "UNKNOWN")

either_known :
    (b : Bool) (s t : String) → s ≢ "UNKNOWN" → t ≢ "UNKNOWN" → (if b then s else t) ≢ "UNKNOWN"
either_known true s t h k = h
either_known false s t h k = k

module _ {F : Type 0} ⦃d : Float64 F⦄ where
  -- What a payload holds for its state to be known, for each type of device.
  pub data IsKnown (type : String) (payload : Payload F) : Type 0 where
    temperature :
        {x : F}
        → type ≡ "temp-sensor"
        → as_float (get "temp" payload) ≡ some x
        → IsKnown type payload
    light :
        {x : F}
        → type ≡ "light-sensor"
        → as_float (get "light_level" payload) ≡ some x
        → IsKnown type payload
    lock :
        type ≡ "door-actuator"
        → IsNamed (as_string (get "lock_state" payload))
        → IsKnown type payload
    door :
        {b : Bool}
        → type ≡ "door-sensor"
        → as_bool (get "open" payload) ≡ some b
        → IsKnown type payload
    door_text :
        {s : String}
        → type ≡ "door-sensor"
        → as_string (get "open" payload) ≡ some s
        → IsKnown type payload
    gas :
        {b : Bool}
        → type ≡ "gas-sensor"
        → as_bool (get "alarm_on" payload) ≡ some b
        → IsKnown type payload
    gas_text :
        type ≡ "gas-sensor" → IsNamed (as_string (get "status" payload)) → IsKnown type payload
    power :
        type ≡ "ac-actuator"
        → IsNamed (as_string (get "power_state" payload))
        → IsKnown type payload

  module _ (payload : Payload F) where
    temp_iff :
        (temp_operational payload ≢ "UNKNOWN")
        ↔ ((x : F) × (as_float (get "temp" payload) ≡ some x))
    unfolding temp_operational
    temp_iff = elim (Option-cases (as_float (get "temp" payload))) [
      | inl e ↦ rw (e, temp_operational) ((λ h. absurd (h refl)), λ (x, h). cc)
      | inr (x, e) ↦
          rw (e, temp_operational)
            (
              (λ h. (x, refl)),
              λ h.
                  either_known _ "HOT" _ (is_known "HOT" refl) (
                    either_known _ "COLD" "NORMAL" (is_known "COLD" refl) (is_known "NORMAL" refl)),
            )
    ]

    light_iff :
        (light_operational payload ≢ "UNKNOWN")
        ↔ ((x : F) × (as_float (get "light_level" payload) ≡ some x))
    unfolding light_operational
    light_iff = elim (Option-cases (as_float (get "light_level" payload))) [
      | inl e ↦ rw (e, light_operational) ((λ h. absurd (h refl)), λ (x, h). cc)
      | inr (x, e) ↦
          rw (e, light_operational)
            (
              (λ h. (x, refl)),
              λ h.
                  either_known _ "BRIGHT" _ (is_known "BRIGHT" refl) (
                    either_known _ "DARK" "NORMAL" (is_known "DARK" refl) (is_known "NORMAL" refl)),
            )
    ]

    lock_iff :
        (lock_operational payload ≢ "UNKNOWN") ↔ IsNamed (as_string (get "lock_state" payload))
    unfolding lock_operational
    lock_iff = elim (Option-cases (as_string (get "lock_state" payload))) [
      | inl e ↦ rw (e, lock_operational) ((λ h. absurd (h refl)), λ n u. let f = n.found in cc)
      | inr (s, e) ↦
          rw (e, lock_operational)
            (
              (λ h. record { state = s; found = refl; named = h }),
              λ n u. n.named (let f = n.found in cc),
            )
    ]

    power_iff :
        (ac_operational payload ≢ "UNKNOWN") ↔ IsNamed (as_string (get "power_state" payload))
    unfolding ac_operational
    power_iff = elim (Option-cases (as_string (get "power_state" payload))) [
      | inl e ↦ rw (e, ac_operational) ((λ h. absurd (h refl)), λ n u. let f = n.found in cc)
      | inr (s, e) ↦
          rw (e, ac_operational)
            (
              (λ h. record { state = s; found = refl; named = h }),
              λ n u. n.named (let f = n.found in cc),
            )
    ]

    door_iff : (door_operational payload ≢ "UNKNOWN") ↔ (
        ((b : Bool) × (as_bool (get "open" payload) ≡ some b))
        ⊎ ((s : String) × (as_string (get "open" payload) ≡ some s)))
    unfolding door_operational
    door_iff = elim (Option-cases (as_bool (get "open" payload))) [
      | inr (b, e) ↦
          rw (e, door_operational)
            (
              (λ h. inl (b, refl)),
              λ h. either_known _ "OPEN" "CLOSED" (is_known "OPEN" refl) (is_known "CLOSED" refl),
            )
      | inl e ↦ elim (Option-cases (as_string (get "open" payload))) [
        | inl f ↦
            rw (e, f, door_operational)
              (
                (λ h. absurd (h refl)),
                λ k u. elim k [ inl (b, h) ↦ absurd cc | inr (s, h) ↦ absurd cc ],
              )
        | inr (s, f) ↦
            rw (e, f, door_operational)
              (
                (λ h. inr (s, refl)),
                λ h. either_known _ "OPEN" "CLOSED" (is_known "OPEN" refl) (is_known "CLOSED" refl),
              )
      ]
    ]

    gas_iff : (gas_operational payload ≢ "UNKNOWN") ↔ (
        ((b : Bool) × (as_bool (get "alarm_on" payload) ≡ some b))
        ⊎ IsNamed (as_string (get "status" payload)))
    unfolding gas_operational
    gas_iff = elim (Option-cases (as_bool (get "alarm_on" payload))) [
      | inr (b, e) ↦
          rw (e, gas_operational)
            (
              (λ h. inl (b, refl)),
              λ h. either_known _ "DANGER" "SAFE" (is_known "DANGER" refl) (is_known "SAFE" refl),
            )
      | inl e ↦ elim (Option-cases (as_string (get "status" payload))) [
        | inl f ↦
            rw (e, f, gas_operational)
              (
                (λ h. absurd (h refl)),
                λ k u. elim k [ inl (b, h) ↦ absurd cc | inr n ↦ let g = n.found in absurd cc ],
              )
        | inr (s, f) ↦
            rw (e, f, gas_operational)
              (
                (λ h. inr (record { state = s; found = refl; named = h })),
                λ k u. elim k [
                  | inl (b, h) ↦ absurd cc
                  | inr n ↦ absurd (n.named (let g = n.found in cc))
                ],
              )
      ]
    ]

    -- The state that the device's rules give is known exactly for these payloads.
    pub extract_state-IsKnown :
        (type : String) → ((extract_state type payload).0 ≢ "UNKNOWN") ↔ IsKnown type payload
    unfolding extract_state rules
    extract_state-IsKnown type = (
      (λ h. elim (Bool-cases (type == "temp-sensor")) [
        | inl e ↦
            let (x, k) = temp_iff.0 (rw (extract_state, rules, e) at h) in
            temperature ((eq_iff type "temp-sensor").0 e) k
        | inr e1 ↦ elim (Bool-cases (type == "light-sensor")) [
          | inl e ↦
              let (x, k) = light_iff.0 (rw (extract_state, rules, e1, e) at h) in
              light ((eq_iff type "light-sensor").0 e) k
          | inr e2 ↦ elim (Bool-cases (type == "door-actuator")) [
            | inl e ↦
                lock ((eq_iff type "door-actuator").0 e)
                  (lock_iff.0 (rw (extract_state, rules, e1, e2, e) at h))
            | inr e3 ↦ elim (Bool-cases (type == "door-sensor")) [
              | inl e ↦
                  let same = (eq_iff type "door-sensor").0 e in
                  elim (door_iff.0 (rw (extract_state, rules, e1, e2, e3, e) at h)) [
                    | inl (b, k) ↦ door same k
                    | inr (s, k) ↦ door_text same k
                  ]
              | inr e4 ↦ elim (Bool-cases (type == "gas-sensor")) [
                | inl e ↦
                    let same = (eq_iff type "gas-sensor").0 e in
                    elim (gas_iff.0 (rw (extract_state, rules, e1, e2, e3, e4, e) at h)) [
                      | inl (b, k) ↦ gas same k
                      | inr k ↦ gas_text same k
                    ]
                | inr e5 ↦ elim (Bool-cases (type == "ac-actuator")) [
                  | inl e ↦
                      power ((eq_iff type "ac-actuator").0 e)
                        (power_iff.0 (rw (extract_state, rules, e1, e2, e3, e4, e5, e) at h))
                  | inr e6 ↦ absurd (h (rw (extract_state, rules, e1, e2, e3, e4, e5, e6) refl))
                ]
              ]
            ]
          ]
        ]
      ]),
      known,
    )
      where
        known : IsKnown type payload → (extract_state type payload).0 ≢ "UNKNOWN"
        known (temperature {x = x} e k) = rw (e, extract_state) (temp_iff.1 (x, k))
        known (light {x = x} e k) = rw (e, extract_state) (light_iff.1 (x, k))
        known (lock e k) = rw (e, extract_state) (lock_iff.1 k)
        known (door {b = b} e k) = rw (e, extract_state) (door_iff.1 (inl (b, k)))
        known (door_text {s = s} e k) = rw (e, extract_state) (door_iff.1 (inr (s, k)))
        known (gas {b = b} e k) = rw (e, extract_state) (gas_iff.1 (inl (b, k)))
        known (gas_text e k) = rw (e, extract_state) (gas_iff.1 (inr k))
        known (power e k) = rw (e, extract_state) (power_iff.1 k)
