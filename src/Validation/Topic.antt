-- ===== src/Validation/Topic.antt =====
-- validator.go: `validateTopic`.
use Prim.Native.String
use io_t_fleet_management.Prelude.{[], ◌∷◌, List, ◌≡◌, ◌≢◌, ◌↔◌, ◌⊎◌, arith, eq_iff, inl, inr}
use Prim.Native.String.{String}
use io_t_fleet_management.Validation.{validate_topic, topic_parts}
use io_t_fleet_management.Go.Text.Split.{slash, NoSlash, join, split, split_iff}
use io_t_fleet_management.Go.Outcome.{ok}

-- The text of the topic.
abbrev pub topic_of : String → String → String
topic_of id type = String.◌++◌ "devices" (String.◌∷◌ slash (String.◌++◌ id (String.◌∷◌ slash type)))

-- The parts of an accepted topic.
abbrev IsTopicParts : List String → String → String → Type 0
IsTopicParts parts id type =
    (parts ≡ "devices" ∷ id ∷ type ∷ []) × (id ≢ "") × ((type ≡ "telemetry") ⊎ (type ≡ "alerts"))

topic_parts_iff :
    (parts : List String) (id type : String)
    → (topic_parts parts ≡ ok (id, type)) ↔ IsTopicParts parts id type
topic_parts_iff [] id type = ground arith
topic_parts_iff (a ∷ []) id type = ground arith
topic_parts_iff (a ∷ b ∷ []) id type = ground arith
topic_parts_iff (a ∷ b ∷ c ∷ []) id type =
    ground (arith, eq_iff a "devices", eq_iff b "", eq_iff c "telemetry", eq_iff c "alerts")
topic_parts_iff (a ∷ b ∷ c ∷ e ∷ r) id type = ground arith

devices-NoSlash : NoSlash "devices"
devices-NoSlash = omega arith

kind-NoSlash : (type : String) → (type ≡ "telemetry") ⊎ (type ≡ "alerts") → NoSlash type
kind-NoSlash type (inl e) = rw e (omega arith)
kind-NoSlash type (inr e) = rw e (omega arith)

-- A topic is accepted, with a device and a message type, exactly when it is devices/{id}/{type} for
-- a device identifier that is not empty and holds no slash, and the type telemetry or alerts.
pub validate_topic_iff :
    (topic id type : String)
    → (validate_topic topic ≡ ok (id, type)) ↔ (
        (topic ≡ topic_of id type)
        × (id ≢ "")
        × NoSlash id
        × ((type ≡ "telemetry") ⊎ (type ≡ "alerts")))
unfolding validate_topic join
validate_topic_iff topic id type =
    let parts = topic_parts_iff (split topic) id type in
    let text = split_iff topic "devices" (id ∷ type ∷ []) in
    (
      λ e.
          let (p, ne, kind) = parts.0 e in
          let (same, root, plain) = text.0 p in (same, ne, plain.0, kind),
      λ (same, ne, plain, kind).
          parts.1 (text.1 (same, devices-NoSlash, (plain, (kind-NoSlash type kind, tt))), ne, kind),
    )
