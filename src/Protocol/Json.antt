-- ===== src/Protocol/Json.antt =====
-- JSON values as crates/protocol reads them: `Value`, `Map` and `Number` of serde_json, with the
-- operations on a map and on a value that the sources call. A map keeps the order of its keys and
-- has each key once, so of two entries with one key it does not matter which is read.
pub mod Laws
use quotamiser.Prelude.{
  ℕ, String, Option, none, some, List, [], ◌∷◌, Bool, true, false, ◌&&◌, ◌||◌, str_eq,
  if◌then◌else◌, and_then, is_some, leb,
}
use quotamiser.Prelude.Int.{ℤ, pos, negsuc, fits_i64, u64_max}

-- An integer of a JSON text, or a number with a fraction or an exponent, by its digits.
pub data Number : Type 0 where
  integer : ℤ → Number
  float : String → Number

mutual
  pub data Value : Type 0 where
    null : Value
    bool : Bool → Value
    number : Number → Value
    string : String → Value
    array : Items → Value
    object : Fields → Value

  pub data Items : Type 0 where
    nil : Items
    cons : Value → Items → Items

  pub data Fields : Type 0 where
    end : Fields
    field : String → Value → Fields → Fields

-- The entry of a map that is read: none, unless a later one has the key.
abbrev pub later_or : Option Value → Bool → Value → Option Value
later_or (some later) hit value = some later
later_or none hit value = if hit then some value else none

unfoldable pub get : Fields → String → Option Value
get end key = none
get (field k value rest) key = later_or (get rest key) (str_eq k key) value

abbrev pub contains_key : Fields → String → Bool
contains_key fields key = is_some (get fields key)

-- `Map::insert`: a key that is there keeps its place.
unfoldable pub insert : String → Value → Fields → Fields
insert key value end = field key value end
insert key value (field k v rest) =
    let later = insert key value rest in
    if str_eq k key then field k value rest else field k v later

-- `Map::shift_remove`
unfoldable pub shift_remove : String → Fields → Fields
shift_remove key end = end
shift_remove key (field k v rest) =
    let later = shift_remove key rest in if str_eq k key then rest else field k v later

-- `Value::get` by a key: nothing, unless the value is an object.
abbrev pub value_get : Value → String → Option Value
value_get (Value.object fields) key = get fields key
value_get _ key = none

abbrev pub as_str : Value → Option String
as_str (Value.string text) = some text
as_str _ = none

abbrev pub number_u64 : Number → Option ℕ
number_u64 (integer (pos n)) = if leb n u64_max then some n else none
number_u64 _ = none

abbrev pub as_u64 : Value → Option ℕ
as_u64 (Value.number n) = number_u64 n
as_u64 _ = none

abbrev pub number_i64 : Number → Option ℤ
number_i64 (integer z) = if fits_i64 z then some z else none
number_i64 (float _) = none

abbrev pub as_i64 : Value → Option ℤ
as_i64 (Value.number n) = number_i64 n
as_i64 _ = none

abbrev pub is_null : Value → Bool
is_null Value.null = true
is_null _ = false

abbrev pub is_object : Value → Bool
is_object (Value.object _) = true
is_object _ = false

abbrev pub is_string : Value → Bool
is_string (Value.string _) = true
is_string _ = false

-- `value.get(key).and_then(Value::as_str)`
abbrev pub text_at : Value → String → Option String
text_at value key = and_then (value_get value key) as_str

-- `value.get("type").and_then(Value::as_str) == Some(kind)`
abbrev pub has_type : String → Value → Bool
has_type kind value = elim (text_at value "type") [ none ↦ false | some t ↦ str_eq t kind ]
