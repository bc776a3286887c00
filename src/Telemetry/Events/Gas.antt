-- ===== src/Telemetry/Events/Gas.antt =====
-- analytics.go: `GetGasEvents`.
use io_t_fleet_management.Prelude.{
  [], ◌∷◌, ◌++◌, refl, inl, inr, suc, zero, ◌-◌, ◌≤◌, List, ◌≡◌, length, take, arith, append-nil,
  if◌then◌else◌, ℕ, Bool-cases, nat_eq, length-append, ◌∙◌, append_assoc,
}
use io_t_fleet_management.Go.Float.{Float64}
use io_t_fleet_management.Prelude.Int.{ℤ}
use io_t_fleet_management.Telemetry.Events.{get_gas_events, gas_events_from, is_normal, gas_event}
use io_t_fleet_management.Models.{Telemetry}
use io_t_fleet_management.Go.Value.{Payload}

take_nil {ℓ} : {A : Type ℓ} (k : ℕ) → take {A = A} k [] ≡ []
take_nil zero = refl
take_nil (suc k) = refl

module _ {F : Type 0} ⦃d : Float64 F⦄ where
  -- The events of all readings that are not normal.
  abbrev pub abnormal_events : ℤ → List (Telemetry F) → List (Payload F)
  abnormal_events now [] = []
  abnormal_events now (t ∷ history) =
      let rest = abnormal_events now history in
      if is_normal t.payload then rest else gas_event now t ∷ rest

  gas_events_from-eq-take :
      (now : ℤ) (history : List (Telemetry F)) (formatted : List (Payload F))
      → length formatted ≤ 5
      → gas_events_from now history formatted
        ≡ formatted ++ take (5 - length formatted) (abnormal_events now history)
  unfolding gas_events_from
  gas_events_from-eq-take now [] formatted h = rw (take_nil, append-nil)
  gas_events_from-eq-take now (t ∷ history) formatted h =
      elim (Bool-cases (nat_eq (length formatted) 5)) [
        | inl full ↦
            let none_left : 5 - length formatted ≡ 0 = ground arith in
            rw (full, none_left, append-nil)
        | inr room ↦ elim (Bool-cases (is_normal t.payload)) [
          | inl normal ↦ rw (room, normal) (gas_events_from-eq-take now history formatted h)
          | inr abnormal ↦
              let event = gas_event now t in
              let more = formatted ++ (event ∷ []) in
              let longer = length-append formatted (event ∷ []) in
              let step : 5 - length formatted ≡ suc (5 - length more) = ground (arith, longer) in
              rw (room, abnormal, step)
                (gas_events_from-eq-take now history more (ground (arith, longer))
                  ∙ append_assoc formatted (event ∷ []) _)
        ]
      ]

  -- The events are those of the first five readings of the history that are not normal, in order.
  pub get_gas_events-eq-take :
      (now : ℤ) (history : List (Telemetry F))
      → get_gas_events now history ≡ take 5 (abnormal_events now history)
  unfolding get_gas_events
  get_gas_events-eq-take now history = gas_events_from-eq-take now history [] (omega arith)
