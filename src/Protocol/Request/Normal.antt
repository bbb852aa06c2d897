-- ===== src/Protocol/Request/Normal.antt =====
-- What `CreateRequest::parse` of crates/protocol/src/request.rs promises of a normalized request.
use quotamiser.Prelude.{
  String, ◌≡◌, refl, sym, ap, subst, ◌∙◌, ◌⊎◌, Option, none, some, List, [], ◌∷◌, true, str_eq, ok,
  ◌>>=◌, >>=-eq-ok, Bool-cases, inl, inr, arith,
}
use quotamiser.Protocol.Json.{Value, Fields, end, field, get, insert}
use quotamiser.Protocol.Json.Laws.{
  IsDistinct, append, append-end, append_assoc, insert-new, insert-IsDistinct, Entries,
  insert-Entries, get-append_mid,
}
use quotamiser.Protocol.Request.{
  CreateRequest, Action, kept, checked, dropped, stream_flag, background_flag, server_side_state,
  request_actions, action_of, Progress, admit_field, admit_fields, at_start, conclude, parse_object,
  check_stream, require_string,
}
use quotamiser.Protocol.Request.Shape.{Check}
use quotamiser.Protocol.Request.Stable.{Stable}
use quotamiser.Protocol.Request.StableChecks.{
  string-Stable, non_empty_string-Stable, boolean-Stable, number-Stable, positive_integer-Stable,
  metadata-Stable, include-Stable,
}
use quotamiser.Protocol.Request.StableTools.{
  tool_list-Stable, tool_choice-Stable, text-Stable, reasoning-Stable,
}
use quotamiser.Protocol.Request.StableItems.{input-Stable}

abbrev StableActions : List (String × Action) → Type 0
StableActions [] = Unit {0}
StableActions ((name, kept check) ∷ actions) = Stable check × StableActions actions
StableActions ((name, action) ∷ actions) = StableActions actions

request_actions_stable : StableActions request_actions
request_actions_stable = (
  non_empty_string-Stable,
  (
    input-Stable,
    (
      string-Stable,
      (
        string-Stable,
        (
          tool_list-Stable,
          (
            tool_choice-Stable,
            (
              boolean-Stable,
              (
                reasoning-Stable,
                (
                  text-Stable,
                  (
                    include-Stable,
                    (
                      positive_integer-Stable,
                      (number-Stable, (number-Stable, (metadata-Stable, tt))),
                    ),
                  ),
                ),
              ),
            ),
          ),
        ),
      ),
    ),
  ),
)

StableActions-action_of :
    (actions : List (String × Action)) (key : String) {check : Check}
    → StableActions actions
    → action_of actions key ≡ some (kept check)
    → Stable check
StableActions-action_of [] key s h = cc
StableActions-action_of ((name, kept c) ∷ actions) key {check} s h =
    elim (Bool-cases (str_eq name key)) [
      | inl hit ↦ let same : c ≡ check = ground (arith, hit) in subst Stable same s.0
      | inr miss ↦ StableActions-action_of actions key s.1 (rw miss at h)
    ]
StableActions-action_of ((name, action) ∷ actions) key s h = elim (Bool-cases (str_eq name key)) [
  | inl hit ↦ ground (arith, hit)
  | inr miss ↦ StableActions-action_of actions key s (rw miss at h)
]

-- Every field is one that the request keeps as it is.
abbrev pub IsKept : String → Value → Type 0
IsKept key value =
    (check : Check) × (action_of request_actions key ≡ some (kept check))
    × (check value key ≡ ok value)

abbrev pub IsNormal : Fields → Type 0
IsNormal = Entries IsKept

-- A field leaves the normalized fields alone, or is kept as its check returned it.
admit_field-Keeps :
    (action : Option Action) (key : String) (value : Value) (p : Progress) {q : Progress}
    → admit_field action key value p ≡ ok q
    → (q.fields ≡ p.fields)
      ⊎ ((check : Check) × (value' : Value) × (action ≡ some (kept check))
          × (check value key ≡ ok value')
          × (q.fields ≡ insert key value' p.fields))
unfolding admit_field
admit_field-Keeps none key value p h = ground arith
admit_field-Keeps (some (kept check)) key value p {q} h =
    let (value', passes, last) = >>=-eq-ok (check value key) _ h in
    let same : q.fields ≡ insert key value' p.fields = ground arith in
    inr (check, value', refl, passes, same)
admit_field-Keeps (some (checked check)) key value p {q} h =
    let (value', passes, last) = >>=-eq-ok (check value key) _ h in
    let same : q.fields ≡ p.fields = ground arith in inl same
admit_field-Keeps (some dropped) key value p h = inl (ground arith)
admit_field-Keeps (some stream_flag) key value p h = inl (ground arith)
admit_field-Keeps (some background_flag) key value p h = inl (ground arith)
admit_field-Keeps (some server_side_state) key value p h = inl (ground arith)

admit_fields-IsNormal :
    (fields : Fields) (p : Progress) {q : Progress}
    → IsNormal p.fields
    → IsDistinct p.fields
    → admit_fields fields p ≡ ok q
    → IsNormal q.fields × IsDistinct q.fields
unfolding admit_fields
admit_fields-IsNormal end p {q} n d h =
    let same : p ≡ q = ground arith in
    (subst (λ p. IsNormal p.fields) same n, subst (λ p. IsDistinct p.fields) same d)
admit_fields-IsNormal (field key value rest) p n d h =
    let (p', first, later) =
      >>=-eq-ok (admit_field (action_of request_actions key) key value p) _ h in
    elim (admit_field-Keeps (action_of request_actions key) key value p first) [
      | inl same ↦
          admit_fields-IsNormal rest p' (subst IsNormal (sym same) n)
            (subst IsDistinct (sym same) d) later
      | inr (check, value', at_key, passes, same) ↦
          let stable = StableActions-action_of request_actions key request_actions_stable at_key in
          admit_fields-IsNormal rest p'
            (subst IsNormal (sym same) (
              insert-Entries IsKept key value' p.fields
                (check, at_key, stable value value' key key passes) n))
            (subst IsDistinct (sym same) (insert-IsDistinct key value' p.fields d)) later
    ]

admit_fields_again :
    (fields : Fields) (p : Progress)
    → IsNormal fields
    → IsDistinct (append p.fields fields)
    → admit_fields fields p ≡ ok (record p { fields = append p.fields fields })
unfolding admit_fields admit_field
admit_fields_again end p n d = rw (append-end p.fields)
admit_fields_again (field key value rest) p ((check, at_key, passes), n) d =
    let fresh = insert-new key value p.fields (get-append_mid p.fields key value rest d) in
    let shifted = append_assoc p.fields (field key value end) rest in
    let p' : Progress = record p { fields = append p.fields (field key value end) } in
    let later = admit_fields_again rest p' n (subst IsDistinct (sym shifted) d) in
    rw (at_key, passes, fresh) (later ∙ ap (λ fields. ok (record p { fields = fields })) shifted)

-- The checks after the loop look at `stream` for nothing but its being true.
conclude-stream :
    (p : Progress) {r : CreateRequest}
    → conclude p ≡ ok r
    → (conclude (record p { stream = some (Value.bool true) }) ≡ ok r) × (r.fields ≡ p.fields)
unfolding conclude
conclude-stream p {r} h =
    let (_, streams, later) = >>=-eq-ok (check_stream p.stream) _ h in
    let (model, named, last) = >>=-eq-ok (require_string (get p.fields "model")) _ later in
    let same : r.fields ≡ p.fields = ground arith in (later, same)

pub parse_object-IsNormal :
    (value : Value) (r : CreateRequest)
    → parse_object value ≡ ok r
    → IsNormal r.fields × IsDistinct r.fields
unfolding parse_object
parse_object-IsNormal (Value.object fields) r h =
    let (p, loops, concludes) = >>=-eq-ok (admit_fields fields at_start) _ h in
    let (streamed, same) = conclude-stream p concludes in
    subst (λ fields. IsNormal fields × IsDistinct fields) (sym same)
      (admit_fields-IsNormal fields at_start tt tt loops)
parse_object-IsNormal value r h = ground arith

-- A normalized request is a fixed point: sent again as it is, with `stream: true` in front, it is
-- accepted and normalized to itself.
pub parse_object-again :
    (value : Value) (r : CreateRequest)
    → parse_object value ≡ ok r
    → parse_object (Value.object (field "stream" (Value.bool true) r.fields)) ≡ ok r
unfolding parse_object admit_fields admit_field
parse_object-again (Value.object fields) r h =
    let (p, loops, concludes) = >>=-eq-ok (admit_fields fields at_start) _ h in
    let (n, d) = admit_fields-IsNormal fields at_start tt tt loops in
    let (streamed, same) = conclude-stream p concludes in
    let q : Progress = record { fields = end; stream = some (Value.bool true) } in
    let again = admit_fields_again p.fields q n d in
    subst (λ fields. admit_fields fields q >>= conclude ≡ ok r) (sym same)
      (ap (λ m. m >>= conclude) again ∙ streamed)
parse_object-again value r h = ground arith
