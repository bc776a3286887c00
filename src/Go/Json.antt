-- ===== src/Go/Json.antt =====
-- `encoding/json`, as far as the ingestion uses it: the size of an encoded value, and what decoding
-- that text again gives. The entries of an object are written in the order of their keys; a key is
-- matched with a field of a struct whatever its case.
use Prim.Native.Char.{code, len_utf8}
use Prim.Native.Nat.{Ordering}
use Prim.Native.String.{[], ◌∷◌, len, compare}
use io_t_fleet_management.Prelude.{
  ℕ, ◌+◌, true, false, ◌||◌, String, Option, none, some, [], ◌∷◌, ltb, nat_eq, if◌then◌else◌, List,
  leb, Bool, ◌&&◌,
}
use io_t_fleet_management.Go.Float.{Float64}
use io_t_fleet_management.Go.Text.Decimal.{decimal_ℤ}
use io_t_fleet_management.Go.Value.{
  Value, null, bool, float, str, list, object, int, int64, maps, Items, nil, cons, Payload, empty,
  entry, Maps, no_maps, one_more, put,
}
use io_t_fleet_management.Go.Text.{eq_codes, codes}
use io_t_fleet_management.Prelude.Int.{ℤ}

-- The bytes of one character inside a string: `\n` takes two, `<` is written `\u003c`.
abbrev char_size : ℕ → ℕ → ℕ
char_size c plain =
    if nat_eq c b'"'
      || nat_eq c 0x5c
      || nat_eq c 8
      || nat_eq c 9
      || nat_eq c 10
      || nat_eq c 12
      || nat_eq c 13
    then 2
    else if ltb c 32
        || nat_eq c b'<'
        || nat_eq c b'>'
        || nat_eq c b'&'
        || nat_eq c 0x2028
        || nat_eq c 0x2029
    then 6
    else plain

chars_size : String → ℕ
chars_size [] = 0
chars_size (c ∷ s) = char_size (code c) (len_utf8 c) + chars_size s

abbrev string_size : String → ℕ
string_size s = 2 + chars_size s

-- The size of a comma-separated list with brackets, from the sizes of its `n` elements.
abbrev sum? : Option ℕ → Option ℕ → Option ℕ
sum? none _ = none
sum? (some a) none = none
sum? (some a) (some b) = some (a + b)

module _ {F : Type 0} ⦃d : Float64 F⦄ where
  -- `none` where `json.Marshal` fails, on NaN and the infinities. Each element of a list is counted
  -- with the comma or the bracket behind it, and a list that is empty has two brackets too.
  mutual
    value_size : Value F → Option ℕ
    value_size null = some 4
    value_size (bool true) = some 4
    value_size (bool false) = some 5
    value_size (float x) = d.json_size x
    value_size (str s) = some (string_size s)
    value_size (list nil) = some 2
    value_size (list (cons x xs)) = sum? (some 1) (items_size (cons x xs))
    value_size (object empty) = some 2
    value_size (object (entry k v rest)) = sum? (some 1) (payload_size (entry k v rest))
    value_size (int n) = some (len (decimal_ℤ n))
    value_size (int64 n) = some (len (decimal_ℤ n))
    value_size (maps no_maps) = some 2
    value_size (maps (one_more m ms)) = sum? (some 1) (maps_size (one_more m ms))

    items_size : Items F → Option ℕ
    items_size nil = some 0
    items_size (cons x xs) = sum? (sum? (some 1) (value_size x)) (items_size xs)

    payload_size : Payload F → Option ℕ
    payload_size empty = some 0
    payload_size (entry k v rest) =
        sum? (sum? (some (string_size k + 2)) (value_size v)) (payload_size rest)

    maps_size : Maps F → Option ℕ
    maps_size no_maps = some 0
    maps_size (one_more empty ms) = sum? (some 3) (maps_size ms)
    maps_size (one_more (entry k v rest) ms) =
        sum? (sum? (some 2) (payload_size (entry k v rest))) (maps_size ms)

  -- What a value is after `json.Marshal` and `json.Unmarshal` into an `interface{}`.
  mutual
    reread : Value F → Value F
    reread null = null
    reread (bool b) = bool b
    reread (float x) = float x
    reread (str s) = str s
    reread (list xs) = list (reread_items xs)
    reread (object m) = object (reread_payload m)
    reread (int n) = float (d.of_int n)
    reread (int64 n) = float (d.of_int n)
    reread (maps ms) = list (reread_maps ms)

    reread_items : Items F → Items F
    reread_items nil = nil
    reread_items (cons x xs) = cons (reread x) (reread_items xs)

    reread_payload : Payload F → Payload F
    reread_payload empty = empty
    reread_payload (entry k v rest) = entry k (reread v) (reread_payload rest)

    reread_maps : Maps F → Items F
    reread_maps no_maps = nil
    reread_maps (one_more m ms) = cons (object (reread_payload m)) (reread_maps ms)

  -- `json.Marshal(v)` and the length of the text.
  unfoldable pub marshal_size : Value F → Option ℕ
  unfolding value_size chars_size
  marshal_size v = value_size v

  -- One entry among entries that are in the order of their keys.
  sorted_entry : String → Value F → Payload F → Payload F
  sorted_entry k v empty = entry k v empty
  sorted_entry k v (entry j w rest) = elim (compare j k) [
    | Ordering.gt ↦ entry k v (entry j w rest)
    | _ ↦ entry j w (sorted_entry k v rest)
  ]

  -- The entries in the order in which `json.Marshal` writes them.
  unfoldable pub sort_entries : Payload F → Payload F
  unfolding sorted_entry
  sort_entries empty = empty
  sort_entries (entry k v rest) = sorted_entry k v (sort_entries rest)

  -- `json.Unmarshal` of an object into a map: its entries are added to those that are there.
  unfoldable pub unmarshal_map : Payload F → Payload F → Payload F
  unfolding reread
  unmarshal_map empty into = into
  unmarshal_map (entry k v rest) into = unmarshal_map rest (put k (reread v) into)

  -- The integer that a value gives a field of type `int64`.
  abbrev pub json_int64 : Value F → Option ℤ
  json_int64 (float x) = d.json_int x
  json_int64 (int n) = some n
  json_int64 (int64 n) = some n
  json_int64 _ = none

-- Letters that differ in case only are one, with `ſ` and the Kelvin sign as `s` and `k`.
abbrev fold_rune : ℕ → ℕ
fold_rune c =
    if leb b'A' c && leb c b'Z'
    then c + 32
    else if nat_eq c 0x17f
    then b's'
    else if nat_eq c 0x212a
    then b'k'
    else c

fold : List ℕ → List ℕ
fold [] = []
fold (c ∷ cs) = fold_rune c ∷ fold cs

-- Does the key of an object name the field?
unfoldable pub names_field : String → String → Bool
unfolding fold eq_codes
names_field key field = eq_codes (fold (codes key)) (codes field)
