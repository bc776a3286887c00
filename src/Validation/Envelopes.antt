-- ===== src/Validation/Envelopes.antt =====
-- validator.go: the size and the fields of the JSON payload, and what makes it a batch.
use mathlib.Core.Option.{some-injective}
use io_t_fleet_management.Prelude.{
  refl, inl, inr, String, ◌≡◌, ◌↔◌, arith, eq_iff, some, none, Option-cases, Bool-cases, true, ◌==◌,
  ◌∙◌, ap, ℕ, ◌≤◌, sym, Option, ltb, ◌*◌,
}
use io_t_fleet_management.Go.Float.{Float64}
use io_t_fleet_management.Go.Value.{Payload, Value, Items, nil, cons, as_list, get}
use io_t_fleet_management.Go.Json.{marshal_size}
use io_t_fleet_management.Go.Outcome.{ok, ok-injective}
use io_t_fleet_management.Models.{MqttEnvelope}
use io_t_fleet_management.Validation.{decode_envelope, is_batch_of, has_items, unmarshal_envelope}

module _ {F : Type 0} ⦃d : Float64 F⦄ where
  -- Telemetry with a list of at least one item.
  pub record IsBatch (type : String) (payload : Payload F) : Type 0 where
    pub is_telemetry : type ≡ "telemetry"
    pub item : Value F
    pub others : Items F
    pub listed : as_list (get "items" payload) ≡ some (cons item others)

  has_items_iff :
      (found : Option (Items F))
      → (has_items found ≡ true)
        ↔ ((item : Value F) × (others : Items F) × (found ≡ some (cons item others)))
  has_items_iff none = ((λ h. cc), λ (item, others, h). cc)
  has_items_iff (some nil) = ((λ h. absurd (ground arith)), λ (item, others, h). absurd cc)
  has_items_iff (some (cons item others)) = ((λ h. (item, others, refl)), λ h. ground arith)

  pub is_batch_of_iff :
      (type : String) (payload : Payload F)
      → (is_batch_of type payload ≡ true) ↔ IsBatch type payload
  unfolding is_batch_of
  is_batch_of_iff type payload = elim (Bool-cases (type == "telemetry")) [
    | inr other ↦
        rw (is_batch_of, other)
          ((λ h. cc), λ b. let k = (eq_iff type "telemetry").1 b.is_telemetry in cc)
    | inl telemetry ↦
        rw (is_batch_of, telemetry)
          (
            (λ h.
                let (item, others, e) = (has_items_iff (as_list (get "items" payload))).0 h in
                record {
                  is_telemetry = (eq_iff type "telemetry").0 telemetry;
                  item = item;
                  others = others;
                  listed = e;
                }),
            λ b. (has_items_iff (as_list (get "items" payload))).1 (b.item, b.others, b.listed),
          )
  ]

  -- What makes the raw payload of an event an envelope: JSON of at most 32 KiB.
  pub record IsDecoded (raw : Value F) (env : MqttEnvelope F) : Type 0 where
    pub size : ℕ
    pub measured : marshal_size raw ≡ some size
    pub small : size ≤ 32768
    pub fields : unmarshal_envelope raw ≡ some env

  pub decode_envelope_iff :
      (raw : Value F) (env : MqttEnvelope F) → (decode_envelope raw ≡ ok env) ↔ IsDecoded raw env
  unfolding decode_envelope
  decode_envelope_iff raw env = elim (Option-cases (marshal_size raw)) [
    | inl e ↦ rw (decode_envelope, e) ((λ h. cc), λ k. let m = k.measured in cc)
    | inr (size, e) ↦ elim (Bool-cases (ltb (32 * 1024) size)) [
      | inl large ↦
          rw (decode_envelope, e, large)
            (
              (λ h. cc),
              λ k.
                  let same : size ≡ k.size = some-injective _ _ (sym e ∙ k.measured) in
                  absurd (ground (arith, k.small)),
            )
      | inr small ↦ elim (Option-cases (unmarshal_envelope raw)) [
        | inl f ↦ rw (decode_envelope, e, small, f) ((λ h. cc), λ k. let m = k.fields in cc)
        | inr (found, f) ↦
            rw (decode_envelope, e, small, f)
              (
                (λ h. record {
                  size = size;
                  measured = e;
                  small = ground arith;
                  fields = f ∙ ap some (ok-injective h);
                }),
                λ k. ap ok (some-injective _ _ (sym f ∙ k.fields)),
              )
      ]
    ]
  ]
