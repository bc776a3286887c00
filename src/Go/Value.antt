-- ===== src/Go/Value.antt =====
-- `interface{}` values and `map[string]interface{}`. A JSON document holds the first six kinds; the
-- handlers also store `int64` numbers and lists of maps (`[]map[string]interface{}`).
use io_t_fleet_management.Prelude.{
  ℕ, suc, ◌≡◌, refl, Bool, true, false, String, Option, none, some, arith, ◌==◌, eq_iff,
  if◌then◌else◌,
}
use io_t_fleet_management.Prelude.Int.{ℤ}

mutual
  pub data Value (F : Type 0) : Type 0 where
    null : Value F
    bool : Bool → Value F
    float : F → Value F
    str : String → Value F
    list : Items F → Value F
    object : Payload F → Value F
    int : ℤ → Value F
    int64 : ℤ → Value F
    maps : Maps F → Value F

  pub data Items (F : Type 0) : Type 0 where
    nil : Items F
    cons : Value F → Items F → Items F

  -- A Go map as its entries; of two entries for one key the first counts.
  pub data Payload (F : Type 0) : Type 0 where
    empty : Payload F
    entry : String → Value F → Payload F → Payload F

  pub data Maps (F : Type 0) : Type 0 where
    no_maps : Maps F
    one_more : Payload F → Maps F → Maps F

-- `payload[key]`.
unfoldable pub get : {F : Type 0} → String → Payload F → Option (Value F)
get key empty = none
get key (entry k v rest) = if k == key then some v else get key rest

-- `payload[key] = v`.
unfoldable pub put : {F : Type 0} → String → Value F → Payload F → Payload F
put key v empty = entry key v empty
put key v (entry k w rest) = if k == key then entry k v rest else entry k w (put key v rest)

-- `len(payload) == 0`.
abbrev pub is_empty : {F : Type 0} → Payload F → Bool
is_empty empty = true
is_empty (entry _ _ _) = false

pub get-put :
    {F : Type 0} (key j : String) (v : Value F) (m : Payload F)
    → get j (put key v m) ≡ (if key == j then some v else get j m)
unfolding get put
get-put key j v empty = refl
get-put key j v (entry k w m) =
    ground (arith, eq_iff key j, eq_iff k key, eq_iff k j, get-put key j v m)

-- The two-valued type assertions `x, ok := v.(T)`; a missing key is a nil interface, which is of no
-- type.
abbrev pub as_bool : {F : Type 0} → Option (Value F) → Option Bool
as_bool (some (bool b)) = some b
as_bool _ = none

abbrev pub as_float : {F : Type 0} → Option (Value F) → Option F
as_float (some (float x)) = some x
as_float _ = none

abbrev pub as_string : {F : Type 0} → Option (Value F) → Option String
as_string (some (str s)) = some s
as_string _ = none

abbrev pub as_int : {F : Type 0} → Option (Value F) → Option ℤ
as_int (some (int n)) = some n
as_int _ = none

abbrev pub as_list : {F : Type 0} → Option (Value F) → Option (Items F)
as_list (some (list xs)) = some xs
as_list _ = none

abbrev pub as_map : {F : Type 0} → Value F → Option (Payload F)
as_map (object m) = some m
as_map _ = none

-- The one-valued form `s, _ := v.(T)` leaves the zero value.
abbrev pub or_empty : Option String → String
or_empty none = ""
or_empty (some s) = s

abbrev pub or_false : Option Bool → Bool
or_false none = false
or_false (some b) = b

-- `len(items)`.
abbrev pub item_count : {F : Type 0} → Items F → ℕ
item_count nil = 0
item_count (cons _ xs) = suc (item_count xs)
