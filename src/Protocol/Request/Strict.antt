-- ===== src/Protocol/Request/Strict.antt =====
-- Strict parsing in crates/protocol/src/request.rs: the visitor that refuses a repeated key. What
-- the JSON parser hands to the visitor is a tree in which a syntax error stands where the parser
-- meets it, since the visitor goes through the text in order.
use quotamiser.Prelude.{String, ◌<>◌, Option, none, some, Bool, true, false, Result, ok, err, ◌>>=◌}
use quotamiser.Protocol.Json.{Number, Value, Items, Fields, contains_key, insert}
use quotamiser.Protocol.Json.Laws.{IsDistinct}
use quotamiser.Protocol.Request.Code.{RejectionCode, Rejection}

mutual
  pub data Raw : Type 0 where
    null : Raw
    bool : Bool → Raw
    number : Number → Raw
    string : String → Raw
    seq : RawItems → Raw
    map : RawFields → Raw
    broken : String → Raw

  pub data RawItems : Type 0 where
    nil : RawItems
    cons : Raw → RawItems → RawItems
    cut : String → RawItems

  pub data RawFields : Type 0 where
    end : RawFields
    field : String → Raw → RawFields → RawFields
    broken_off : String → RawFields

-- A body: its value, and the error of `Deserializer::end` if something follows it.
pub record Body : Type 0 where
  pub raw : Raw
  pub trailing : Option String

-- An error is one of the text's syntax, or the visitor's own.
pub data ParseError : Type 0 where
  syntax : String → ParseError
  duplicate : String → ParseError

unfoldable mutual
  pub visit : Raw → Result ParseError Value
  visit Raw.null = ok Value.null
  visit (Raw.bool b) = ok (Value.bool b)
  visit (Raw.number n) = ok (Value.number n)
  visit (Raw.string text) = ok (Value.string text)
  visit (Raw.seq items) = visit_seq items >>= λ items. ok (Value.array items)
  visit (Raw.map fields) = visit_map fields Fields.end >>= λ fields. ok (Value.object fields)
  visit (Raw.broken error) = err (syntax error)

  pub visit_seq : RawItems → Result ParseError Items
  visit_seq RawItems.nil = ok Items.nil
  visit_seq (RawItems.cons item items) =
      visit item >>= λ item. visit_seq items >>= λ items. ok (Items.cons item items)
  visit_seq (RawItems.cut error) = err (syntax error)

  pub visit_map : RawFields → Fields → Result ParseError Fields
  visit_map RawFields.end object = ok object
  visit_map (RawFields.field key value rest) object = elim (contains_key object key) [
    | true ↦ err (duplicate ("duplicate key `" <> key <> "`"))
    | false ↦ visit value >>= λ value. visit_map rest (insert key value object)
  ]
  visit_map (RawFields.broken_off error) object = err (syntax error)

abbrev pub no_trailing : Option String → Value → Result ParseError Value
no_trailing none value = ok value
no_trailing (some error) value = err (syntax error)

abbrev pub refusal_of : (ParseError → String) → ParseError → Rejection
refusal_of describe error = record {
  code = elim error [
    | syntax _ ↦ RejectionCode.invalid_json
    | duplicate _ ↦ RejectionCode.duplicate_key
  ];
  param = none;
  message = "The request body is not acceptable JSON: " <> describe error <> ".";
}

abbrev pub or_refusal : (ParseError → String) → Result ParseError Value → Result Rejection Value
or_refusal describe (ok value) = ok value
or_refusal describe (err error) = err (refusal_of describe error)

-- `describe` is the text of an error of the JSON library, with its place in the body.
unfoldable pub parse_strict : (ParseError → String) → Body → Result Rejection Value
parse_strict describe body =
    or_refusal describe (visit body.raw >>= λ value. no_trailing body.trailing value)

-- No object in the value has a key twice.
abbrev mutual
  pub IsStrict : Value → Type 0
  IsStrict (Value.array items) = AreStrict items
  IsStrict (Value.object fields) = IsDistinct fields × HoldStrict fields
  IsStrict _ = Unit {0}

  pub AreStrict : Items → Type 0
  AreStrict Items.nil = Unit {0}
  AreStrict (Items.cons item items) = IsStrict item × AreStrict items

  pub HoldStrict : Fields → Type 0
  HoldStrict Fields.end = Unit {0}
  HoldStrict (Fields.field key value rest) = IsStrict value × HoldStrict rest
