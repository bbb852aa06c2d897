-- ===== src/Protocol/Request/StableParts.antt =====
-- Lists and typed objects of crates/protocol/src/request.rs: their checks, too, accept their own
-- results and change nothing of them.
use quotamiser.Prelude.{
  ℕ, suc, String, ◌≡◌, refl, sym, subst, Option, none, some, arith, ok, err, >>=-eq-ok,
}
use quotamiser.Protocol.Json.{Value, Items, nil, cons, Fields, get}
use quotamiser.Protocol.Request.Refusals.{item_path}
use quotamiser.Protocol.Request.Checks.{string}
use quotamiser.Protocol.Request.Shape.{
  Check, Checked, keep, Shape, rule_of, apply, as_object, each_from, each, array_of, object_of,
  kind_of, with_kind, typed_object, by_kind,
}
use quotamiser.Protocol.Request.Stable.{Stable, StableRules, apply-again, apply-get}

pub as_object-ok :
    (checked : Checked Fields) {kept : Value}
    → as_object checked ≡ ok kept
    → (out : Fields) × (checked ≡ ok out) × (kept ≡ Value.object out)
as_object-ok (ok out) h = (out, refl, ground arith)
as_object-ok (err rejected) h = cc

pub object_of-Stable : (shape : Shape) → StableRules shape.fields → Stable (object_of shape)
unfolding object_of
object_of-Stable shape s (Value.object fields) kept path other h =
    let (out, applies, same) = as_object-ok (apply shape fields path) h in
    rw same (rw (apply-again shape fields path other s applies))
object_of-Stable shape s value kept path other h = ground arith

the_items : {a b : Items} → ◌≡◌ {A = Checked Items} (ok a) (ok b) → a ≡ b
the_items h = ground arith

each_from-again :
    (check : Check) (index other_index : ℕ) (items : Items) (path other : String) {out : Items}
    → Stable check
    → each_from index items path check ≡ ok out
    → each_from other_index out other check ≡ ok out
unfolding each_from
each_from-again check index other_index nil path other {out} s h =
    subst (λ out. each_from other_index out other check ≡ ok out) (the_items h) refl
each_from-again check index other_index (cons item items) path other {out} s h =
    let (item', first, later) = >>=-eq-ok (check item _) _ h in
    let (items', others, last) = >>=-eq-ok (each_from (suc index) items path check) _ later in
    let again = each_from-again check (suc index) (suc other_index) items path other s others in
    subst (λ out. each_from other_index out other check ≡ ok out) (the_items last)
      (rw (s item item' _ (item_path other other_index) first) (rw again))

-- A list that `each` returned is an array, and is returned again.
pub each-again :
    (check : Check) (items : Items) (path other : String) {kept : Value}
    → Stable check
    → each items path check ≡ ok kept
    → (out : Items) × (kept ≡ Value.array out) × (each out other check ≡ ok (Value.array out))
unfolding each
each-again check items path other s h =
    let (out, eachs, last) = >>=-eq-ok (each_from 0 items path check) _ h in
    (out, ground arith, rw (each_from-again check 0 0 items path other s eachs))

pub array_of-Stable : (check : Check) → Stable check → Stable (array_of check)
unfolding array_of
array_of-Stable check s (Value.array items) kept path other h =
    let (out, same, again) = each-again check items path other s h in
    subst (λ kept. array_of check kept other ≡ ok kept) (sym same) again
array_of-Stable check s value kept path other h = ground arith

kind_of-ok :
    (found : Option Value) (path : String) (fields : Fields) {kind : String} {out : Fields}
    → with_kind (kind_of found path) fields ≡ ok (kind, out)
    → (found ≡ some (Value.string kind)) × (fields ≡ out)
kind_of-ok (some (Value.string text)) path fields h = (ground arith, ground arith)
kind_of-ok (some value) path fields h = (ground arith, ground arith)
kind_of-ok none path fields h = (ground arith, ground arith)

-- `string` gives back what it takes.
pub string-exact : (value kept : Value) (path : String) → string value path ≡ ok kept → value ≡ kept
unfolding string
string-exact value kept path h = ground arith

-- A kind keeps its shape, whose rules are stable and keep the kind.
abbrev pub StableKinds : (String → String → Checked Shape) → Type 0
StableKinds shape_of =
    (kind path other : String) (shape : Shape)
    → shape_of kind path ≡ ok shape
    → (shape_of kind other ≡ ok shape)
      × StableRules shape.fields
      × (rule_of shape.fields "type" ≡ some (keep string))

by_kind_again :
    (shape_of : String → String → Checked Shape) (fields : Fields) (kind path other : String)
    (shape : Shape) {out : Fields}
    → get fields "type" ≡ some (Value.string kind)
    → shape_of kind other ≡ ok shape
    → StableRules shape.fields
    → rule_of shape.fields "type" ≡ some (keep string)
    → apply shape fields path ≡ ok out
    → by_kind shape_of (Value.object out) other ≡ ok (Value.object out)
unfolding by_kind typed_object
by_kind_again shape_of fields kind path other shape named again rules at_type applies =
    let read = apply-get shape path fields "type" at_type string-exact applies in
    let twice = apply-again shape fields path other rules applies in rw (read, named, again, twice)

pub by_kind-Stable :
    (shape_of : String → String → Checked Shape) → StableKinds shape_of → Stable (by_kind shape_of)
unfolding by_kind typed_object
by_kind-Stable shape_of s (Value.object fields) kept path other h =
    let ((kind, fields'), typed, later) = >>=-eq-ok (typed_object (Value.object fields) path) _ h in
    let (shape, chosen, last) = >>=-eq-ok (shape_of kind path) _ later in
    let (out, applies, same) = as_object-ok (apply shape fields' path) last in
    let (again, rules, at_type) = s kind path other shape chosen in
    let (named, whole) = kind_of-ok (get fields "type") path fields typed in
    subst (λ kept. by_kind shape_of kept other ≡ ok kept) (sym same)
      (by_kind_again shape_of fields kind path other shape named again rules at_type
        (subst (λ fields. apply shape fields path ≡ ok out) (sym whole) applies))
by_kind-Stable shape_of s value kept path other h = ground arith

-- A check by kinds returns an object.
pub by_kind-object :
    (shape_of : String → String → Checked Shape) (value : Value) (path : String) {kept : Value}
    → by_kind shape_of value path ≡ ok kept
    → (out : Fields) × (kept ≡ Value.object out)
unfolding by_kind
by_kind-object shape_of value path h =
    let ((kind, fields), typed, later) = >>=-eq-ok (typed_object value path) _ h in
    let (shape, chosen, last) = >>=-eq-ok (shape_of kind path) _ later in
    let (out, applies, same) = as_object-ok (apply shape fields path) last in (out, same)
