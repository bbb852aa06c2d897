-- ===== src/Protocol/Request/Upstream.antt =====
-- What the bodies of crates/protocol/src/request.rs hold, for the requests that were accepted.
use quotamiser.Prelude.{
  suc, String, ◌≡◌, refl, ap, Option, none, some, List, [], ◌∷◌, Bool, true, false, str_eq,
  if◌then◌else◌, ok, arith, length, map,
}
use quotamiser.Protocol.Json.{Value, Items, nil, get, insert, value_get}
use quotamiser.Protocol.Json.Laws.{insert-IsDistinct, get-insert, Entries-get}
use quotamiser.Protocol.Request.{CreateRequest, parse_object}
use quotamiser.Protocol.Request.Normal.{IsKept, parse_object-IsNormal}
use quotamiser.Protocol.Request.Bodies.{
  flat_text, flat_of, adds_input, some_of, is_used, FlatText, openai_body_with_background,
  upstream_service_tier, tool_usage, no_tools, absorb_at, absorb_tools, input_count_bodies,
  tools_items,
}

flat_of-parts :
    (input instructions : Option Value) (added : Bool) {flat : FlatText}
    → flat_of input instructions added ≡ some flat
    → (input ≡ some (Value.string flat.input)) × (added ≡ false)
flat_of-parts (some (Value.string text)) none added h = (ground arith, ground arith)
flat_of-parts (some (Value.string text)) (some (Value.string more)) added h =
    (ground arith, ground arith)
flat_of-parts input instructions added h = ground arith

absorb_at-unused :
    (tools : Option Value) → some_of is_used tools ≡ false → absorb_at tools no_tools ≡ no_tools
unfolding absorb_tools
absorb_at-unused (some (Value.array nil)) h = refl
absorb_at-unused none h = refl
absorb_at-unused tools h = ground arith

-- A request in flat form carries no tool of any kind, chooses none, has its input in one text, and
-- needs one body to be counted.
pub flat_text-tool_usage :
    (r : CreateRequest) (flat : FlatText)
    → flat_text r ≡ some flat
    → (get r.fields "input" ≡ some (Value.string flat.input))
      × (tool_usage r ≡ no_tools)
      × (get r.fields "tool_choice" ≡ none)
      × (length (input_count_bodies r) ≡ 1)
unfolding flat_text tool_usage input_count_bodies
flat_text-tool_usage r flat h =
    let (at_input, plain) =
      flat_of-parts (get r.fields "input") (get r.fields "instructions") (adds_input r.fields) h in
    let unused : some_of is_used (get r.fields "tools") ≡ false = ground arith in
    let unchosen : get r.fields "tool_choice" ≡ none = ground arith in
    (at_input, rw at_input (absorb_at-unused (get r.fields "tools") unused), unchosen, rw at_input)

length-map {ℓ κ} :
    {A : Type ℓ} {B : Type κ} (f : A → B) (xs : List A) → length (map f xs) ≡ length xs
length-map f [] = refl
length-map f (x ∷ xs) = ap suc (length-map f xs)

-- One body is counted for the request, and one more for each `additional_tools` item.
pub input_count_bodies-length :
    (r : CreateRequest) (items : Items)
    → get r.fields "input" ≡ some (Value.array items)
    → length (input_count_bodies r) ≡ suc (length (tools_items items))
unfolding input_count_bodies
input_count_bodies-length r items h = rw h (ap suc (length-map _ (tools_items items)))

-- A field of an accepted request is one that the allowlist keeps, and passes its check.
pub field-IsKept :
    (value : Value) (r : CreateRequest) (key : String) (kept : Value)
    → parse_object value ≡ ok r
    → get r.fields key ≡ some kept
    → IsKept key kept
field-IsKept value r key kept h found =
    Entries-get IsKept r.fields key (parse_object-IsNormal value r h).0 found

-- The body for OpenAI has the fields of the accepted request, with four that are set whatever the
-- client sent.
pub openai_body-get :
    (background : Bool) (value : Value) (r : CreateRequest) (key : String)
    → parse_object value ≡ ok r
    → value_get (openai_body_with_background background r) key ≡ (
        if str_eq "service_tier" key
        then some (Value.string upstream_service_tier)
        else if str_eq "stream" key
        then some (Value.bool true)
        else if str_eq "store" key
        then some (Value.bool true)
        else if str_eq "background" key
        then some (Value.bool background)
        else get r.fields key)
unfolding openai_body_with_background
openai_body-get background value r key h =
    let (n, d) = parse_object-IsNormal value r h in
    let one = insert "background" (Value.bool background) r.fields in
    let two = insert "store" (Value.bool true) one in
    let three = insert "stream" (Value.bool true) two in
    let d1 = insert-IsDistinct "background" (Value.bool background) r.fields d in
    let d2 = insert-IsDistinct "store" (Value.bool true) one d1 in
    let d3 = insert-IsDistinct "stream" (Value.bool true) two d2 in
    rw (
      get-insert "service_tier" (Value.string upstream_service_tier) three key d3,
      get-insert "stream" (Value.bool true) two key d2,
      get-insert "store" (Value.bool true) one key d1,
      get-insert "background" (Value.bool background) r.fields key d,
    )
