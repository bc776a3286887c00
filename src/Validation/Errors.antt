-- ===== src/Validation/Errors.antt =====
-- validator.go: the errors of `ValidateMessage`.
use io_t_fleet_management.Go.Float.{Float64}
use io_t_fleet_management.Go.Outcome.{
  Error, Result, is, bind, invalid_event, ok, err, invalid_topic, invalid_envelope, invalid_payload,
}
use io_t_fleet_management.Go.Value.{Value, Payload}
use io_t_fleet_management.Prelude.{List, String, ◌≡◌, arith, true, ◌∷◌, ◌⊎◌, [], subst, Bool}
use io_t_fleet_management.Validation.{
  validate_envelope, validate_event, decode_envelope, topic_parts, validate_body, validate_message,
  validate_payload, validate_topic, validate_severity, is_batch_of,
}
use io_t_fleet_management.Prelude.Int.{ℤ}
use io_t_fleet_management.Models.{MqttEnvelope}
use io_t_fleet_management.Go.Text.Split.{split}

-- The error wraps one of the sentinels.
abbrev pub IsKnown : Error → Type 0
IsKnown e =
    (is e invalid_event ≡ true)
    ⊎ (is e invalid_topic ≡ true)
    ⊎ (is e invalid_envelope ≡ true)
    ⊎ (is e invalid_payload ≡ true)

-- A result whose error, if there is one, wraps a sentinel.
abbrev FailsKnown {ℓ} : {A : Type ℓ} → Result A → Type 0
FailsKnown (ok _) = Unit
FailsKnown (err e) = IsKnown e

bind-FailsKnown {ℓ κ} :
    {A : Type ℓ} {B : Type κ} (m : Result A) (f : A → Result B)
    → FailsKnown m
    → ((a : A) → FailsKnown (f a))
    → FailsKnown (bind m f)
bind-FailsKnown (ok a) f h k = k a
bind-FailsKnown (err e) f h k = h

topic_parts-FailsKnown : (parts : List String) → FailsKnown (topic_parts parts)
unfolding is
topic_parts-FailsKnown [] = ground arith
topic_parts-FailsKnown (a ∷ []) = ground arith
topic_parts-FailsKnown (a ∷ b ∷ []) = ground arith
topic_parts-FailsKnown (a ∷ b ∷ c ∷ []) = ground arith
topic_parts-FailsKnown (a ∷ b ∷ c ∷ e ∷ r) = ground arith

module _ {F : Type 0} ⦃d : Float64 F⦄ where
  validate_event-FailsKnown : (event : Payload F) → FailsKnown (validate_event event)
  unfolding validate_event is
  validate_event-FailsKnown event = ground arith

  decode_envelope-FailsKnown : (raw : Value F) → FailsKnown (decode_envelope raw)
  unfolding decode_envelope is
  decode_envelope-FailsKnown raw = ground arith

  validate_envelope-FailsKnown :
      (now : ℤ) (env : MqttEnvelope F) (id : String) → FailsKnown (validate_envelope now env id)
  unfolding validate_envelope is
  validate_envelope-FailsKnown now env id = ground arith

  validate_body-FailsKnown :
      (type : String) (env : MqttEnvelope F) (batch : Bool)
      → FailsKnown (validate_body type env batch)
  unfolding validate_body validate_payload validate_severity is
  validate_body-FailsKnown type env batch = ground arith

  -- Every error of `ValidateMessage` wraps one of the four sentinel errors of the package.
  pub validate_message-IsKnown :
      (now : ℤ) (event : Payload F) (e : Error) → validate_message now event ≡ err e → IsKnown e
  unfolding validate_message validate_topic
  validate_message-IsKnown now event e h = subst FailsKnown h (
      bind-FailsKnown _ _ (validate_event-FailsKnown event) λ raw.
        bind-FailsKnown _ _ (topic_parts-FailsKnown (split raw.0)) λ topic.
          bind-FailsKnown _ _ (decode_envelope-FailsKnown raw.1) λ env.
            bind-FailsKnown _ _ (validate_envelope-FailsKnown now env topic.0) λ _.
              bind-FailsKnown _ _
                (validate_body-FailsKnown topic.1 env (is_batch_of topic.1 env.payload)) λ _. tt)
