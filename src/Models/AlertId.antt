-- ===== src/Models/AlertId.antt =====
-- backend/models/alert.go: `Alert.GenerateID`.
use Prim.Native.String
use text.Mathlib.TextLemmas.{nil-append, cons-append}
use io_t_fleet_management.Prelude.{◌↔◌, ◌≡◌, ap, ◌∙◌, String, ◌==◌, ◌≢◌, false, sym, arith, eq_iff}
use io_t_fleet_management.Go.Text.Decimal.{
  decimal_ℤ-injective, decimal_ℤ-IsNot_hash, hash, append-hash-injective, decimal_ℤ,
}
use io_t_fleet_management.Models.{Alert, generate_id}

hash-append : (s : String) → String.◌++◌ "#" s ≡ String.◌∷◌ hash s
hash-append s = cons-append hash "" s ∙ ap (String.◌∷◌ hash) (nil-append s)

-- Two alerts are given the same identifier exactly when they have the same device and the same
-- timestamp, whatever characters the device identifiers hold.
pub generate_id_iff :
    {F : Type 0} (a b : Alert F)
    → ((generate_id a).alert_id ≡ (generate_id b).alert_id)
      ↔ ((a.device_id ≡ b.device_id) × (a.timestamp ≡ b.timestamp))
unfolding generate_id
generate_id_iff a b = (
  λ e.
      let e' = rw (hash-append, hash-append) at e in
      let (same, text) =
        append-hash-injective a.device_id b.device_id _ _ (decimal_ℤ-IsNot_hash a.timestamp)
          (decimal_ℤ-IsNot_hash b.timestamp) e' in
      (same, decimal_ℤ-injective a.timestamp b.timestamp text),
  λ (p, q). cc,
)

append-not_empty : (s t : String) → String.◌++◌ s (String.◌++◌ "#" t) ≢ ""
append-not_empty String.[] t h =
    let k : String.◌∷◌ hash t ≡ "" = sym (nil-append _ ∙ hash-append t) ∙ h in cc
append-not_empty (String.◌∷◌ c s) t h =
    let k : String.◌∷◌ c (String.◌++◌ s (String.◌++◌ "#" t)) ≡ "" = sym (cons-append c s _) ∙ h in
    cc

-- An identifier that is generated is not empty.
pub generate_id_named : {F : Type 0} (a : Alert F) → (generate_id a).alert_id == "" ≡ false
unfolding generate_id
generate_id_named a =
    let h = append-not_empty a.device_id (decimal_ℤ a.timestamp) in
    ground (arith, h, eq_iff (String.◌++◌ a.device_id (String.◌++◌ "#" (decimal_ℤ a.timestamp))) "")
