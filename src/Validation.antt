-- ===== src/Validation.antt =====
-- backend/internal/validation/validator.go. `fmt.Errorf("%w: text", ErrX)` is `wrap "text"` of the
-- sentinel; the clock's reading is the argument `now`.
pub mod Topic
pub mod Payloads
pub mod Known
pub mod Envelopes
pub mod Messages
pub mod Errors
use mathlib.Core.Option
use io_t_fleet_management.Prelude.{
  [], ◌&&◌, ◌||◌, not, true, false, List, Option, String, Bool, if◌then◌else◌, some, ◌==◌, ltb,
  none, ◌*◌, ◌∷◌,
}
use io_t_fleet_management.Go.Outcome.{
  ok, err, bind, Sentinel, Result, wrap, invalid_envelope, sentinel, invalid_event, invalid_payload,
  invalid_topic,
}
use io_t_fleet_management.Go.Float.{Float64}
use io_t_fleet_management.Go.Value.{
  Items, Payload, Value, as_string, object, str, as_list, empty, entry, get, item_count, null,
  as_float, is_empty,
}
use io_t_fleet_management.Models.{MqttEnvelope}
use io_t_fleet_management.Prelude.Int.{ℤ, pos, ltb_ℤ, add64}
use io_t_fleet_management.Devices.{rules}
use io_t_fleet_management.Go.Json.{
  marshal_size, json_int64, names_field, sort_entries, unmarshal_map,
}
use io_t_fleet_management.Go.Text.Split.{split}

-- The error of a failed test.
abbrev pub invalid {ℓ} : {A : Type ℓ} → Sentinel → String → Result A
invalid s text = err (wrap text (sentinel s))

abbrev is_some {ℓ} : {A : Type ℓ} → Option A → Bool
is_some none = false
is_some (some _) = true

-- The value that four result variables carry out of `ValidateMessage`.
pub record Message (F : Type 0) : Type 0 where
  pub device_id : String
  pub message_type : String
  pub envelope : MqttEnvelope F
  pub is_batch : Bool

-- `deviceID, messageType` of a topic with the three parts.
abbrev topic_parts : List String → Result (String × String)
topic_parts (root ∷ device_id ∷ message_type ∷ []) =
    if not (root == "devices")
    then invalid invalid_topic "invalid topic root"
    else if device_id == ""
    then invalid invalid_topic "empty device id"
    else if message_type == "telemetry" || message_type == "alerts"
    then ok (device_id, message_type)
    else invalid invalid_topic "unsupported message type"
topic_parts _ = invalid invalid_topic "expected devices/{id}/{type}"

unfoldable pub validate_topic : String → Result (String × String)
validate_topic topic = topic_parts (split topic)

module _ {F : Type 0} ⦃d : Float64 F⦄ where
  unfoldable pub validate_event : Payload F → Result (String × Value F)
  validate_event event = elim (as_string (get "topic" event)) [
    | none ↦ invalid invalid_event "missing or invalid topic"
    | some topic ↦
        if topic == ""
        then invalid invalid_event "missing or invalid topic"
        else elim (get "payload" event) [
          | none ↦ invalid invalid_event "missing payload"
          | some payload ↦ ok (topic, payload)
        ]
  ]

  abbrev no_envelope : MqttEnvelope F
  no_envelope = record { device_id = ""; timestamp = pos 0; type = ""; payload = empty }

  -- One entry of the JSON object, stored into the field that it names; `null` leaves a text or a
  -- number as it is, and makes the map nil.
  abbrev set_device_id : MqttEnvelope F → Value F → Option (MqttEnvelope F)
  set_device_id env (str s) = some (record env { device_id = s })
  set_device_id env null = some env
  set_device_id env _ = none

  abbrev set_timestamp : MqttEnvelope F → Value F → Option (MqttEnvelope F)
  set_timestamp env null = some env
  set_timestamp env v = Option.map (λ n. record env { timestamp = n }) (json_int64 v)

  abbrev set_type : MqttEnvelope F → Value F → Option (MqttEnvelope F)
  set_type env (str s) = some (record env { type = s })
  set_type env null = some env
  set_type env _ = none

  abbrev set_payload : MqttEnvelope F → Value F → Option (MqttEnvelope F)
  set_payload env (object m) = some (record env { payload = unmarshal_map m env.payload })
  set_payload env null = some (record env { payload = empty })
  set_payload env _ = none

  abbrev pub set_field : String → Value F → MqttEnvelope F → Option (MqttEnvelope F)
  set_field key v env =
      if names_field key "device_id"
      then set_device_id env v
      else if names_field key "timestamp"
      then set_timestamp env v
      else if names_field key "type"
      then set_type env v
      else if names_field key "payload"
      then set_payload env v
      else some env

  abbrev pub set_fields : Payload F → MqttEnvelope F → Option (MqttEnvelope F)
  set_fields empty env = some env
  set_fields (entry k v rest) env = elim (set_field k v env) [
    | none ↦ none
    | some env' ↦ set_fields rest env'
  ]

  -- `json.Unmarshal` into an envelope of zero values.
  unfoldable pub unmarshal_envelope : Value F → Option (MqttEnvelope F)
  unmarshal_envelope (object m) = set_fields (sort_entries m) no_envelope
  unmarshal_envelope null = some no_envelope
  unmarshal_envelope _ = none

  unfoldable pub decode_envelope : Value F → Result (MqttEnvelope F)
  decode_envelope payload_raw = elim (marshal_size payload_raw) [
    | none ↦ invalid invalid_envelope "payload marshal failed"
    | some size ↦
        if ltb (32 * 1024) size
        then invalid invalid_payload "payload too large"
        else elim (unmarshal_envelope payload_raw) [
          | none ↦ invalid invalid_envelope "payload unmarshal failed"
          | some env ↦ ok env
        ]
  ]

  unfoldable pub validate_envelope : ℤ → MqttEnvelope F → String → Result (Unit {0})
  validate_envelope now env topic_device_id =
      if env.device_id == ""
      then invalid invalid_envelope "missing device_id"
      else if not (env.device_id == topic_device_id)
      then invalid invalid_envelope "device_id mismatch"
      else if ltb_ℤ (add64 now (pos 60)) env.timestamp
      then invalid invalid_envelope "timestamp in the future"
      else if env.type == ""
      then invalid invalid_envelope "missing device type"
      else if is_empty env.payload
      then invalid invalid_envelope "empty payload"
      else ok tt

  unfoldable pub validate_payload : String → Payload F → Result (Unit {0})
  validate_payload device_type payload = elim (rules device_type) [
    | none ↦ invalid invalid_payload "unknown device type"
    | some r ↦
        if r.extract_operational payload == "UNKNOWN"
        then invalid invalid_payload "payload does not match device type"
        else if device_type == "temp-sensor" && not (is_some (as_float (get "temp" payload)))
        then invalid invalid_payload "temp must be numeric"
        else ok tt
  ]

  -- The alert's test of the severity.
  unfoldable pub validate_severity : String → Payload F → Result (Unit {0})
  validate_severity message_type payload =
      if message_type == "alerts"
      then elim (as_string (get "severity" payload)) [
        | none ↦ invalid invalid_payload "alert missing or invalid severity"
        | some severity ↦
            if severity == ""
            then invalid invalid_payload "alert missing or invalid severity"
            else ok tt
      ]
      else ok tt

  -- `items` is a list with at least one element.
  abbrev pub has_items : Option (Items F) → Bool
  has_items none = false
  has_items (some items) = ltb 0 (item_count items)

  unfoldable pub is_batch_of : String → Payload F → Bool
  is_batch_of message_type payload =
      message_type == "telemetry" && has_items (as_list (get "items" payload))

  unfoldable pub validate_body : String → MqttEnvelope F → Bool → Result (Unit {0})
  validate_body message_type env is_batch =
      if is_batch
      then ok tt
      else bind (validate_payload env.type env.payload)
          λ _. validate_severity message_type env.payload

  unfoldable pub validate_message : ℤ → Payload F → Result (Message F)
  validate_message now event = bind (validate_event event) λ raw.
      bind (validate_topic raw.0) λ topic. bind (decode_envelope raw.1) λ env.
        let batch = is_batch_of topic.1 env.payload in
        bind (validate_envelope now env topic.0) λ _. bind (validate_body topic.1 env batch) λ _.
          ok (record {
            device_id = topic.0;
            message_type = topic.1;
            envelope = env;
            is_batch = batch;
          })
