-- ===== src/Protocol/Request/Stable.antt =====
-- Checking what a check of crates/protocol/src/request.rs returned: the checks of shapes, lists
-- and typed objects accept their own results and change nothing of them.
use quotamiser.Prelude.{
  String, ◌≡◌, refl, sym, subst, ◌⊎◌, Option, none, some, List, [], ◌∷◌, arith, str_eq, eq_iff, inl,
  inr, Bool-cases, ok, >>=-eq-ok, Option-cases, Result-cases,
}
use quotamiser.Protocol.Json.{Value, Fields, end, field, get, insert}
use quotamiser.Protocol.Json.Laws.{
  IsDistinct, append, append-end, append_assoc, or_earlier, insert-new, get-insert, Entries,
  insert-Entries, insert-IsDistinct, get-append_mid,
}
use quotamiser.Protocol.Request.Refusals.{join}
use quotamiser.Protocol.Request.Shape.{
  Check, Rule, keep, strip, Shape, rule_of, apply_fields, missing, refuse_missing, apply,
}

-- A check takes its results back as they are, wherever they stand.
abbrev pub Stable : Check → Type 0
Stable check =
    (value kept : Value) (path other : String)
    → check value path ≡ ok kept
    → check kept other ≡ ok kept

abbrev pub StableRules : List (String × Rule) → Type 0
StableRules [] = Unit {0}
StableRules ((name, keep check) ∷ rules) = Stable check × StableRules rules
StableRules ((name, strip) ∷ rules) = StableRules rules

StableRules-rule_of :
    (rules : List (String × Rule)) (key : String) {check : Check}
    → StableRules rules
    → rule_of rules key ≡ some (keep check)
    → Stable check
StableRules-rule_of [] key s h = cc
StableRules-rule_of ((name, keep c) ∷ rules) key {check} s h = elim (Bool-cases (str_eq name key)) [
  | inl hit ↦ let same : c ≡ check = ground (arith, hit) in rw same at (s.0)
  | inr miss ↦ StableRules-rule_of rules key s.1 (rw miss at h)
]
StableRules-rule_of ((name, strip) ∷ rules) key s h = elim (Bool-cases (str_eq name key)) [
  | inl hit ↦ ground (arith, hit)
  | inr miss ↦ StableRules-rule_of rules key s (rw miss at h)
]

-- Every entry is one that the shape keeps as it is.
abbrev IsKept : Shape → String → Value → Type 0
IsKept shape key value =
    (check : Check) × (rule_of shape.fields key ≡ some (keep check))
    × ((path : String) → check value path ≡ ok value)

abbrev pub IsNormal : Shape → Fields → Type 0
IsNormal shape = Entries (IsKept shape)

-- A step of the loop of `Shape::apply` leaves the field out, or keeps what its check returned.
abbrev Steps : Shape → String → String → Value → Fields → Fields → Fields → Type 0
Steps shape path key value rest normalized out =
    ((rule_of shape.fields key ≡ some strip) × (apply_fields shape path rest normalized ≡ ok out))
    ⊎ ((check : Check) × (kept : Value) × (rule_of shape.fields key ≡ some (keep check))
        × (check value (join path key) ≡ ok kept)
        × (apply_fields shape path rest (insert key kept normalized) ≡ ok out))

apply_fields-Steps :
    (shape : Shape) (path key : String) (value : Value) (rest normalized : Fields) {out : Fields}
    → apply_fields shape path (field key value rest) normalized ≡ ok out
    → Steps shape path key value rest normalized out
unfolding apply_fields
apply_fields-Steps shape path key value rest normalized {out} h =
    elim (Option-cases (rule_of shape.fields key)) [
      | inl none_at ↦ ground arith
      | inr (strip, at_key) ↦
          let later : apply_fields shape path rest normalized ≡ ok out = ground arith in
          inl (at_key, later)
      | inr (keep check, at_key) ↦ elim (Result-cases (check value (join path key))) [
        | inl (kept, passes) ↦
            let later : apply_fields shape path rest (insert key kept normalized) ≡ ok out =
              ground arith in
            inr (check, kept, at_key, passes, later)
        | inr (rejected, fails) ↦ ground arith
      ]
    ]

-- The loop of `Shape::apply` builds a normal object.
apply_fields-IsNormal :
    (shape : Shape) (path : String) (fields normalized : Fields) {out : Fields}
    → StableRules shape.fields
    → IsNormal shape normalized
    → IsDistinct normalized
    → apply_fields shape path fields normalized ≡ ok out
    → IsNormal shape out × IsDistinct out
unfolding apply_fields
apply_fields-IsNormal shape path end normalized {out} s n d h =
    let same : normalized ≡ out = ground arith in
    (subst (IsNormal shape) same n, subst IsDistinct same d)
apply_fields-IsNormal shape path (field key value rest) normalized s n d h =
    elim (apply_fields-Steps shape path key value rest normalized h) [
      | inl (at_key, skipped) ↦ apply_fields-IsNormal shape path rest normalized s n d skipped
      | inr (check, kept, at_key, passes, later) ↦
          let stable = StableRules-rule_of shape.fields key s at_key in
          apply_fields-IsNormal shape path rest (insert key kept normalized) s
            (insert-Entries (IsKept shape) key kept normalized
              (check, at_key, λ other. stable value kept _ other passes) n)
            (insert-IsDistinct key kept normalized d) later
    ]

-- A normal object goes through the loop as it is.
apply_fields_again :
    (shape : Shape) (path : String) (fields before : Fields)
    → IsNormal shape fields
    → IsDistinct (append before fields)
    → apply_fields shape path fields before ≡ ok (append before fields)
unfolding apply_fields
apply_fields_again shape path end before n d = rw (append-end before)
apply_fields_again shape path (field key value rest) before ((check, at_key, passes), n) d =
    let fresh = insert-new key value before (get-append_mid before key value rest d) in
    let shifted = append_assoc before (field key value end) rest in
    let later =
      apply_fields_again shape path rest (append before (field key value end)) n
        (subst IsDistinct (sym shifted) d) in
    ground (arith, at_key, passes (join path key), fresh, shifted, later)

complete_parts :
    (found : Option String) (normalized : Fields) (path : String) {out : Fields}
    → refuse_missing found path normalized ≡ ok out
    → (found ≡ none) × (normalized ≡ out)
complete_parts none normalized path h = (refl, ground arith)
complete_parts (some name) normalized path h = ground arith

-- An object that a shape of stable rules returned is returned again.
pub apply-again :
    (shape : Shape) (fields : Fields) (path other : String) {out : Fields}
    → StableRules shape.fields
    → apply shape fields path ≡ ok out
    → apply shape out other ≡ ok out
unfolding apply
apply-again shape fields path other {out} s h =
    let (normalized, loops, checks) = >>=-eq-ok (apply_fields shape path fields end) _ h in
    let (complete, same) =
      complete_parts (missing shape.required normalized) normalized path checks in
    let (n, d) = apply_fields-IsNormal shape path fields end s tt tt loops in
    let again = apply_fields_again shape other normalized end n d in
    subst (λ out. apply shape out other ≡ ok out) same (rw again (rw complete))

-- The value of a key that is checked and not rewritten.
get-apply_fields :
    (shape : Shape) (path : String) (fields normalized : Fields) (key : String) {check : Check}
    {out : Fields}
    → rule_of shape.fields key ≡ some (keep check)
    → ((value kept : Value) (at_path : String) → check value at_path ≡ ok kept → value ≡ kept)
    → IsDistinct normalized
    → apply_fields shape path fields normalized ≡ ok out
    → get out key ≡ or_earlier (get fields key) (get normalized key)
unfolding apply_fields get
get-apply_fields shape path end normalized key at_key exact d h = ground arith
get-apply_fields shape path (field k value rest) normalized key {check} {out} at_key exact d h =
    elim (Bool-cases (str_eq k key)) [
      | inl hit ↦
          let same : k ≡ key = (eq_iff k key).0 hit in
          let here : rule_of shape.fields k ≡ some (keep check) = rw same at_key in
          elim (apply_fields-Steps shape path k value rest normalized h) [
            | inl (stripped, later) ↦ ground (arith, here)
            | inr (c, kept, at_k, passes, later) ↦
                let one : c ≡ check = ground (arith, here) in
                let unchanged : value ≡ kept = exact value kept _ (rw one at passes) in
                let read = get-insert k kept normalized key d in
                let fresh = insert-IsDistinct k kept normalized d in
                let ih =
                  get-apply_fields shape path rest (insert k kept normalized) key at_key exact fresh
                    later in
                rw (hit, ih, read, unchanged) (ground (arith, hit))
          ]
      | inr miss ↦ elim (apply_fields-Steps shape path k value rest normalized h) [
        | inl (stripped, later) ↦
            ground
              (arith, miss, get-apply_fields shape path rest normalized key at_key exact d later)
        | inr (c, kept, at_k, passes, later) ↦
            let read = get-insert k kept normalized key d in
            let fresh = insert-IsDistinct k kept normalized d in
            let ih =
              get-apply_fields shape path rest (insert k kept normalized) key at_key exact fresh
                later in
            ground (arith, miss, read, ih)
      ]
    ]

pub apply-get :
    (shape : Shape) (path : String) (fields : Fields) (key : String) {check : Check} {out : Fields}
    → rule_of shape.fields key ≡ some (keep check)
    → ((value kept : Value) (at_path : String) → check value at_path ≡ ok kept → value ≡ kept)
    → apply shape fields path ≡ ok out
    → get out key ≡ get fields key
unfolding apply get
apply-get shape path fields key {out} at_key exact h =
    let (normalized, loops, checks) = >>=-eq-ok (apply_fields shape path fields end) _ h in
    let (complete, same) =
      complete_parts (missing shape.required normalized) normalized path checks in
    let read = get-apply_fields shape path fields end key at_key exact tt loops in
    ground (arith, read)
