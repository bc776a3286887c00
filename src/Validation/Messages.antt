-- ===== src/Validation/Messages.antt =====
-- validator.go: `ValidateMessage` as a whole.
use text.Mathlib.TextLemmas.{append-eq-nil_iff}
use mathlib.Core.Option.{some-injective}
use io_t_fleet_management.Prelude.{
  refl, inl, inr, String, Bool, ◌≡◌, ◌≢◌, false, ◌↔◌, arith, eq_iff, some, Option-cases, Bool-cases,
  true, ◌==◌, ◌⊎◌, subst, ◌∙◌, ap,
}
use io_t_fleet_management.Go.Float.{Float64}
use io_t_fleet_management.Go.Value.{Payload, Value, as_string, get, is_empty}
use io_t_fleet_management.Prelude.Int.{ℤ, ◌≤ℤ◌, add64, pos}
use io_t_fleet_management.Validation.{
  validate_envelope, validate_severity, validate_event, validate_body, Message, validate_message,
  decode_envelope, is_batch_of, validate_topic,
}
use io_t_fleet_management.Models.{MqttEnvelope}
use io_t_fleet_management.Go.Outcome.{ok, bind-eq-ok, ok-injective}
use io_t_fleet_management.Validation.Envelopes.{
  IsBatch, is_batch_of_iff, IsDecoded, decode_envelope_iff,
}
use io_t_fleet_management.Validation.Topic.{topic_of, validate_topic_iff}
use io_t_fleet_management.Go.Text.Split.{NoSlash}
use io_t_fleet_management.Validation.Payloads.{validate_payload_iff}
use io_t_fleet_management.Validation.Known.{extract_state-IsKnown, IsKnown}

topic_of-ne-nil : (id type : String) → topic_of id type ≢ ""
topic_of-ne-nil id type h = ground (arith, (append-eq-nil_iff.0 h).0, eq_iff "devices" "")

same_truth : (a b : Bool) → (a ≡ true → b ≡ true) → (b ≡ true → a ≡ true) → a ≡ b
same_truth true true h k = refl
same_truth true false h k = absurd (let e = h refl in cc)
same_truth false true h k = absurd (let e = k refl in cc)
same_truth false false h k = refl

module _ {F : Type 0} ⦃d : Float64 F⦄ where
  validate_event_iff :
      (event : Payload F) (topic : String) (raw : Value F)
      → (validate_event event ≡ ok (topic, raw)) ↔ (
          (as_string (get "topic" event) ≡ some topic)
          × (topic ≢ "")
          × (get "payload" event ≡ some raw))
  unfolding validate_event
  validate_event_iff event topic raw = elim (Option-cases (as_string (get "topic" event))) [
    | inl e ↦ rw (e, validate_event) ((λ h. cc), λ h. cc)
    | inr (t, e) ↦ elim (Option-cases (get "payload" event)) [
      | inl e' ↦ rw (e, e', validate_event) (grind (arith, eq_iff t ""))
      | inr (r, e') ↦ rw (e, e', validate_event) (grind (arith, eq_iff t ""))
    ]
  ]

  -- What `validateEnvelope` asks for.
  pub record IsEnvelope (now : ℤ) (env : MqttEnvelope F) (device_id : String) : Type 0 where
    pub named : device_id ≢ ""
    pub same_device : env.device_id ≡ device_id
    pub in_time : env.timestamp ≤ℤ add64 now (pos 60)
    pub typed : env.type ≢ ""
    pub filled : is_empty env.payload ≡ false

  validate_envelope_iff :
      (now : ℤ) (env : MqttEnvelope F) (device_id : String)
      → (validate_envelope now env device_id ≡ ok tt) ↔ IsEnvelope now env device_id
  unfolding validate_envelope
  validate_envelope_iff now env device_id = (
    λ h.
        ground (arith, eq_iff env.device_id "", eq_iff env.device_id device_id, eq_iff env.type ""),
    λ h.
        ground (arith, eq_iff env.device_id "", eq_iff env.device_id device_id, eq_iff env.type ""),
  )

  -- A message that is no batch has a payload whose state is known for the type of its device, and an
  -- alert a severity.
  pub record IsBody (type : String) (env : MqttEnvelope F) (batch : Bool) : Type 0 where
    pub known : batch ≡ false → IsKnown env.type env.payload
    pub severe :
        batch ≡ false
        → type ≡ "alerts"
        → (s : String) × (as_string (get "severity" env.payload) ≡ some s) × (s ≢ "")

  validate_severity_iff :
      (type : String) (payload : Payload F)
      → (validate_severity type payload ≡ ok tt) ↔ (
          type ≡ "alerts" → (s : String) × (as_string (get "severity" payload) ≡ some s) × (s ≢ ""))
  unfolding validate_severity
  validate_severity_iff type payload = elim (Option-cases (as_string (get "severity" payload))) [
    | inl e ↦
        rw (e, validate_severity)
          (
            (λ h a. ground (arith, eq_iff type "alerts")),
            λ h. elim (Bool-cases (type == "alerts")) [
              | inl yes_alert ↦ let (s, never, _) = h ((eq_iff type "alerts").0 yes_alert) in cc
              | inr other ↦ rw other
            ],
          )
    | inr (s, e) ↦
        rw (e, validate_severity)
          (
            (λ h a. (s, refl, ground (arith, eq_iff type "alerts", eq_iff s ""))),
            λ h. elim (Bool-cases (type == "alerts")) [
              | inl yes_alert ↦
                  let (t, same, ne) = h ((eq_iff type "alerts").0 yes_alert) in
                  ground (arith, eq_iff s "", some-injective _ _ same)
              | inr other ↦ rw other
            ],
          )
  ]

  validate_body_iff :
      (type : String) (env : MqttEnvelope F) (batch : Bool)
      → (validate_body type env batch ≡ ok tt) ↔ IsBody type env batch
  unfolding validate_body
  validate_body_iff type env true = ((λ _. record { known = λ h. cc; severe = λ h. cc }), λ _. refl)
  validate_body_iff type env false = (
    λ h.
        let (_, p, s) = bind-eq-ok _ _ h in
        record {
          known = λ _.
              (extract_state-IsKnown env.payload env.type).0
                ((validate_payload_iff env.type env.payload).0 p);
          severe = λ _. (validate_severity_iff type env.payload).0 s;
        },
    λ b.
        rw
          ((validate_payload_iff env.type env.payload).1
            ((extract_state-IsKnown env.payload env.type).1 (b.known refl)))
          ((validate_severity_iff type env.payload).1 (b.severe refl)),
  )

  -- What is asked of an event for `m` to be its message.
  pub record IsAccepted (now : ℤ) (event : Payload F) (m : Message F) : Type 0 where
    pub raw : Value F
    pub topic_given : as_string (get "topic" event) ≡ some (topic_of m.device_id m.message_type)
    pub payload_given : get "payload" event ≡ some raw
    pub no_slash : NoSlash m.device_id
    pub message_kind : (m.message_type ≡ "telemetry") ⊎ (m.message_type ≡ "alerts")
    pub decoded : IsDecoded raw m.envelope
    pub envelope_ok : IsEnvelope now m.envelope m.device_id
    pub batch_exactly : (m.is_batch ≡ true) ↔ IsBatch m.message_type m.envelope.payload
    pub body_ok : IsBody m.message_type m.envelope m.is_batch

  abbrev message_of : String × String → MqttEnvelope F → Message F
  message_of topic env = record {
    device_id = topic.0;
    message_type = topic.1;
    envelope = env;
    is_batch = is_batch_of topic.1 env.payload;
  }

  steps-IsAccepted :
      (now : ℤ) (event : Payload F) (raw : String × Value F) (topic : String × String)
      (env : MqttEnvelope F)
      → validate_event event ≡ ok raw
      → validate_topic raw.0 ≡ ok topic
      → decode_envelope raw.1 ≡ ok env
      → validate_envelope now env topic.0 ≡ ok tt
      → validate_body topic.1 env (is_batch_of topic.1 env.payload) ≡ ok tt
      → IsAccepted now event (message_of topic env)
  steps-IsAccepted now event raw topic env h1 h2 h3 h4 h5 =
      let (given, _, payload_given) = (validate_event_iff event raw.0 raw.1).0 h1 in
      let (shape, _, plain, kind) = (validate_topic_iff raw.0 topic.0 topic.1).0 h2 in
      record {
        raw = raw.1;
        topic_given = given ∙ ap some shape;
        payload_given = payload_given;
        no_slash = plain;
        message_kind = kind;
        decoded = (decode_envelope_iff raw.1 env).0 h3;
        envelope_ok = (validate_envelope_iff now env topic.0).0 h4;
        batch_exactly = is_batch_of_iff topic.1 env.payload;
        body_ok = (validate_body_iff topic.1 env _).0 h5;
      }

  validate_message_sound :
      (now : ℤ) (event : Payload F) (m : Message F)
      → validate_message now event ≡ ok m
      → IsAccepted now event m
  unfolding validate_message
  validate_message_sound now event m h =
      let (raw, h1, k1) = bind-eq-ok _ _ h in
      let (topic, h2, k2) = bind-eq-ok _ _ k1 in
      let (env, h3, k3) = bind-eq-ok _ _ k2 in
      let (u, h4, k4) = bind-eq-ok _ _ k3 in
      let (v, h5, k5) = bind-eq-ok _ _ k4 in
      subst (IsAccepted now event) (ok-injective k5)
        (steps-IsAccepted now event raw topic env h1 h2 h3 h4 h5)

  validate_message_complete :
      (now : ℤ) (event : Payload F) (m : Message F)
      → IsAccepted now event m
      → validate_message now event ≡ ok m
  unfolding validate_message
  validate_message_complete now event m a =
      let text = topic_of m.device_id m.message_type in
      let h1 =
        (validate_event_iff event text a.raw).1
          (a.topic_given, topic_of-ne-nil m.device_id m.message_type, a.payload_given) in
      let h2 =
        (validate_topic_iff text m.device_id m.message_type).1
          (refl, a.envelope_ok.named, a.no_slash, a.message_kind) in
      let h4 = (validate_envelope_iff now m.envelope m.device_id).1 a.envelope_ok in
      let h5 = (validate_body_iff m.message_type m.envelope m.is_batch).1 a.body_ok in
      let h3 = (decode_envelope_iff a.raw m.envelope).1 a.decoded in
      let same : m.is_batch ≡ is_batch_of m.message_type m.envelope.payload =
        same_truth m.is_batch (is_batch_of m.message_type m.envelope.payload)
          (λ b. (is_batch_of_iff m.message_type m.envelope.payload).1 (a.batch_exactly.0 b))
          (λ b. a.batch_exactly.1 ((is_batch_of_iff m.message_type m.envelope.payload).0 b)) in
      rw (h1, h2, h3, h4, ← same, h5)

  -- `ValidateMessage` returns `m` exactly when the event has a payload and the topic of `m`'s device
  -- and message type, the payload is JSON of at most 32768 bytes and decodes to an envelope of that
  -- device that is not more than a minute ahead of the clock and has a type and a payload, `is_batch`
  -- is set exactly for telemetry with a list of at least one item, and, but for a batch, the payload
  -- holds what a state of its type of device is known by, spelled out for the six types, and an alert
  -- has a severity.
  pub validate_message_iff :
      (now : ℤ) (event : Payload F) (m : Message F)
      → (validate_message now event ≡ ok m) ↔ IsAccepted now event m
  validate_message_iff now event m =
      (validate_message_sound now event m, validate_message_complete now event m)
