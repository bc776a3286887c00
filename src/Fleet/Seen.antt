-- ===== src/Fleet/Seen.antt =====
-- The time at which a device was last seen: what the services do to it, as laws.
use io_t_fleet_management.Prelude.{
  [], ◌∷◌, none, some, inl, inr, String, ℕ, List, ◌≡◌, ◌⊎◌, Option, ◌==◌, if◌then◌else◌, arith,
  Bool-cases, subst, eq_iff,
}
use io_t_fleet_management.Prelude.Int.{ℤ, ◌≤ℤ◌, ≤ℤ_refl, ≤ℤ_trans}
use io_t_fleet_management.Go.Value.{Value}
use io_t_fleet_management.Go.Float.{Float64}
use io_t_fleet_management.Go.Outcome.{Action}
use io_t_fleet_management.Go.Text.Decimal.{decimal_ℤ}
use io_t_fleet_management.Go.Keeps.{IsPreorder, Keeps}
use io_t_fleet_management.Cloud.{
  Attr, text, number, UpdateItemInput, QueryInput, ScanInput, Messaging,
}
use io_t_fleet_management.Fleet.{Deployment}

-- The attribute that a name stands for.
abbrev pub value_of : {Raw : Type 0} → String → List (String × Attr Raw) → Option (Attr Raw)
value_of name [] = none
value_of name ((key, attr) ∷ values) =
    let rest = value_of name values in if key == name then some attr else rest

-- A device that has been seen stays seen, and no earlier.
abbrev pub IsNoEarlier : Option ℤ → Option ℤ → Type 0
IsNoEarlier none later = Unit
IsNoEarlier (some a) none = ⊥
IsNoEarlier (some a) (some b) = a ≤ℤ b

-- A row whose `last_seen_at` meets the condition of the updates for the time `t`.
abbrev pub Admits : Option ℤ → ℤ → Type 0
Admits none t = Unit
Admits (some a) t = a ≤ℤ t

abbrev pub NoEarlier : {W : Type 0} → (W → String → Option ℤ) → W → W → Type 0
NoEarlier seen w v = (id : String) → IsNoEarlier (seen w id) (seen v id)

abbrev pub SameSeen : {W : Type 0} → (W → String → Option ℤ) → W → W → Type 0
SameSeen seen w v = (id : String) → seen w id ≡ seen v id

-- An update under the condition that the row is fresh, which sets the time `t` for the device `id`.
pub record FreshUpdate {Raw : Type 0} (name : String) (input : UpdateItemInput Raw) (id : String)
    (t : ℤ) : Type 0 where
  pub table : input.table_name ≡ name
  pub condition :
      input.condition_expression
      ≡ "attribute_not_exists(last_seen_at) OR last_seen_at <= :last_seen"
  pub expression :
      (input.update_expression
        ≡ "SET #type = :type, #status = :status, operational_state = :op_state, health = :health, payload = :payload, last_seen_at = :last_seen, updated_at = :updated_at")
      ⊎ (input.update_expression ≡ "SET #status = :status, last_seen_at = :last_seen")
  pub key : input.key ≡ ("device_id", text id) ∷ []
  pub time : value_of ":last_seen" input.values ≡ some (number (decimal_ℤ t))

-- What DynamoDB and the other services do to the times of the table of the states.
pub record SeenLaws {F W Item Raw : Type 0} (fleet : Deployment F W Item Raw)
    (seen : W → String → Option ℤ) : Type 0 where
  -- A conditional update leaves the table as it is, or finds its condition to hold and sets the time
  -- of the one device.
  pub conditional :
      (input : UpdateItemInput Raw) (id : String) (t : ℤ) (w : W)
      → FreshUpdate fleet.service.state_store.table_name input id t
      → SameSeen seen w (fleet.db.update_item input w).1
        ⊎ (Admits (seen w id) t
            × (seen (fleet.db.update_item input w).1 id ≡ some t)
            × ((other : String)
                → ¬ other ≡ id
                → seen w other ≡ seen (fleet.db.update_item input w).1 other))
  -- Writes to other tables do not reach it.
  pub put_item :
      (name : String) (item : Item)
      → ¬ name ≡ fleet.service.state_store.table_name
      → Keeps (SameSeen seen) (fleet.db.put_item name item)
  pub batch_write_item :
      (name : String) (items : List Item)
      → ¬ name ≡ fleet.service.state_store.table_name
      → Keeps (SameSeen seen) (fleet.db.batch_write_item name items)
  -- Reading does not change it, nor do the clock, the messages and the other services.
  pub scan : (input : ScanInput Item Raw) → Keeps (SameSeen seen) (fleet.db.scan input)
  pub query : (input : QueryInput Raw) → Keeps (SameSeen seen) (fleet.db.query input)
  pub get_item :
      (name : String) (key : List (String × Attr Raw))
      → Keeps (SameSeen seen) (fleet.db.get_item name key)
  pub clock : (w : W) → SameSeen seen w (fleet.host.clock w).1
  pub uuid : (w : W) → SameSeen seen w (fleet.host.uuid w).1
  pub wait : (n : ℕ) (w : W) → SameSeen seen w (fleet.host.wait n w).1
  pub nanoseconds : (w : W) → SameSeen seen w (fleet.clock.nanoseconds w).1
  pub month : (w : W) → SameSeen seen w (fleet.clock.month w).1
  pub fetch :
      (key : String) → Keeps (SameSeen seen) (fleet.handler.s3_fetcher.get_monthly_chart key)
  pub publish :
      (topic : String) (payload : Value F) (qos : ℕ)
      → Keeps (SameSeen seen) (fleet.handler.iot_publisher.client.publish topic payload qos)
  pub push :
      (client : Messaging W) (topic title body : String)
      → (fleet.service.engine.notifier ≡ some client) ⊎ (fleet.engine.notifier ≡ some client)
      → Keeps (SameSeen seen) (client.send topic title body)

-- The table of the states is none of the others.
pub record TablesDiffer {F W Item Raw : Type 0} (fleet : Deployment F W Item Raw) : Type 0 where
  pub readings : ¬ fleet.service.telemetry_store.table_name ≡ fleet.service.state_store.table_name
  pub alerts : ¬ fleet.service.alert_store.table_name ≡ fleet.service.state_store.table_name
  pub alarms : ¬ fleet.service.engine.alert_store.table_name ≡ fleet.service.state_store.table_name
  pub door_alarms : ¬ fleet.engine.alert_store.table_name ≡ fleet.service.state_store.table_name
  pub commands : ¬ fleet.handler.command_store.table_name ≡ fleet.service.state_store.table_name

IsNoEarlier-refl : (a : Option ℤ) → IsNoEarlier a a
IsNoEarlier-refl none = tt
IsNoEarlier-refl (some a) = ≤ℤ_refl a

IsNoEarlier-trans : (a b c : Option ℤ) → IsNoEarlier a b → IsNoEarlier b c → IsNoEarlier a c
IsNoEarlier-trans none b c h k = tt
IsNoEarlier-trans (some a) none c h k = absurd h
IsNoEarlier-trans (some a) (some b) none h k = absurd k
IsNoEarlier-trans (some a) (some b) (some c) h k = ≤ℤ_trans a b c h k

admitted-IsNoEarlier : (a : Option ℤ) (t : ℤ) → Admits a t → IsNoEarlier a (some t)
admitted-IsNoEarlier none t h = tt
admitted-IsNoEarlier (some a) t h = h

module _ {F W Item Raw : Type 0} ⦃d : Float64 F⦄ (fleet : Deployment F W Item Raw)
    (seen : W → String → Option ℤ) where
  pub NoEarlier-IsPreorder : IsPreorder (NoEarlier seen)
  NoEarlier-IsPreorder = record {
    same = λ w id. IsNoEarlier-refl (seen w id);
    chain = λ u v w h k id. IsNoEarlier-trans (seen u id) (seen v id) (seen w id) (h id) (k id);
  }

  pub relaxed : (w v : W) → SameSeen seen w v → NoEarlier seen w v
  relaxed w v h id = subst (IsNoEarlier (seen w id)) (h id) (IsNoEarlier-refl (seen w id))

  pub relaxed-Keeps :
      {A : Type 0} (m : Action W A) → Keeps (SameSeen seen) m → Keeps (NoEarlier seen) m
  relaxed-Keeps m h = record { at = λ w. relaxed w (m w).1 (h.at w) }

  module _ (laws : SeenLaws fleet seen) (differ : TablesDiffer fleet) where
    pub fresh-Keeps :
        (input : UpdateItemInput Raw) (id : String) (t : ℤ)
        → FreshUpdate fleet.service.state_store.table_name input id t
        → Keeps (NoEarlier seen) (fleet.db.update_item input)
    fresh-Keeps input id t fresh = record {
      at = λ w other. elim (laws.conditional input id t w fresh) [
        | inl same ↦ relaxed w _ same other
        | inr set ↦ elim (Bool-cases (other == id)) [
          | inl e ↦
              let p : other ≡ id = (eq_iff other id).0 e in
              rw (p, set.1) (admitted-IsNoEarlier (seen w id) t set.0)
          | inr e ↦
              let p : ¬ other ≡ id = λ q. ground (arith, eq_iff other id) in
              subst (IsNoEarlier (seen w other)) (set.2 other p) (IsNoEarlier-refl (seen w other))
        ]
      ];
    }
