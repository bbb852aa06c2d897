-- ===== src/Protocol/Request/Shape.antt =====
-- The shapes of objects in crates/protocol/src/request.rs: which fields an object may have, what
-- is checked of each, and which fields are left out of the normalized object.
use quotamiser.Prelude.{
  ℕ, suc, String, Option, none, some, List, [], ◌∷◌, not, str_eq, find?, Result, ok, err, ◌>>=◌,
  if◌then◌else◌,
}
use quotamiser.Protocol.Json.{
  Value, Items, nil, cons, Fields, end, field, get, contains_key, insert,
}
use quotamiser.Protocol.Request.Code.{Rejection}
use quotamiser.Protocol.Request.Refusals.{
  join, item_path, invalid, missing_parameter, unsupported_field,
}

abbrev pub Checked : Type 0 → Type 0
Checked A = Result Rejection A

-- A check returns the normalized value; the text is the path of the value.
abbrev pub Check : Type 0
Check = Value → String → Checked Value

pub data Rule : Type 0 where
  keep : (Value → String → Checked Value) → Rule
  strip : Rule

pub record Shape : Type 0 where
  pub what : String
  pub fields : List (String × Rule)
  pub required : List String

abbrev pub rule_of : List (String × Rule) → String → Option Rule
rule_of [] key = none
rule_of ((name, rule) ∷ fields) key = if str_eq name key then some rule else rule_of fields key

-- The loop of `Shape::apply`, with the normalized object so far.
unfoldable pub apply_fields : Shape → String → Fields → Fields → Checked Fields
apply_fields shape path end normalized = ok normalized
apply_fields shape path (field key value rest) normalized = elim (rule_of shape.fields key) [
  | none ↦ err (unsupported_field (join path key) shape.what key)
  | some strip ↦ apply_fields shape path rest normalized
  | some (keep check) ↦ elim (check value (join path key)) [
    | err rejected ↦ err rejected
    | ok kept ↦ apply_fields shape path rest (insert key kept normalized)
  ]
]

-- The first of the required names that is missing.
abbrev pub missing : List String → Fields → Option String
missing required fields = find? (λ name. not (contains_key fields name)) required

abbrev pub refuse_missing : Option String → String → Fields → Checked Fields
refuse_missing (some name) path normalized = err (missing_parameter (join path name))
refuse_missing none path normalized = ok normalized

unfoldable pub apply : Shape → Fields → String → Checked Fields
apply shape fields path = do
  normalized ← apply_fields shape path fields end
  refuse_missing (missing shape.required normalized) path normalized

abbrev pub as_object : Checked Fields → Checked Value
as_object checked = checked >>= λ fields. ok (Value.object fields)

-- `each`, from an index on.
unfoldable pub each_from : ℕ → Items → String → Check → Checked Items
each_from index nil path check = ok nil
each_from index (cons item items) path check = do
  item' ← check item (item_path path index)
  items' ← each_from (suc index) items path check
  ok (cons item' items')

unfoldable pub each : Items → String → Check → Checked Value
each items path check = each_from 0 items path check >>= λ items. ok (Value.array items)

unfoldable pub array_of : Check → Check
array_of check (Value.array items) path = each items path check
array_of check _ path = err (invalid path "must be an array")

unfoldable pub object_of : Shape → Check
object_of shape (Value.object fields) path = as_object (apply shape fields path)
object_of shape _ path = err (invalid path "must be an object")

-- The value of an object's `type`, which has to be a string.
abbrev pub kind_of : Option Value → String → Checked String
kind_of (some (Value.string kind)) path = ok kind
kind_of (some _) path = err (invalid (join path "type") "must be a string")
kind_of none path = err (missing_parameter (join path "type"))

abbrev pub with_kind : Checked String → Fields → Checked (String × Fields)
with_kind (err rejected) fields = err rejected
with_kind (ok kind) fields = ok (kind, fields)

unfoldable pub typed_object : Value → String → Checked (String × Fields)
typed_object (Value.object fields) path = with_kind (kind_of (get fields "type") path) fields
typed_object _ path = err (invalid path "must be an object")

-- The checks that begin with `typed_object` and go on with the shape that the kind selects.
unfoldable pub by_kind : (String → String → Checked Shape) → Check
by_kind shape_of value path = do
  (kind, fields) ← typed_object value path
  shape ← shape_of kind path
  as_object (apply shape fields path)
