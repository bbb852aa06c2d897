-- ===== src/Protocol/Request/StableKinds.antt =====
-- The tables of kinds in crates/protocol/src/request.rs, and the shapes that they select.
use quotamiser.Prelude.{
  String, ◌≡◌, refl, subst, Bool, some, if◌then◌else◌, arith, ok, err, Bool-cases, inl, inr,
}
use quotamiser.Protocol.Request.Code.{Rejection}
use quotamiser.Protocol.Request.Shape.{Checked, Shape, keep, rule_of}
use quotamiser.Protocol.Request.Checks.{string}
use quotamiser.Protocol.Request.Stable.{StableRules}
use quotamiser.Protocol.Request.StableParts.{StableKinds}

pub the_shape : {a b : Shape} → ◌≡◌ {A = Checked Shape} (ok a) (ok b) → a ≡ b
the_shape h = ground arith

not_refused : {r : Rejection} {a : Shape} → ◌≡◌ {A = Checked Shape} (err r) (ok a) → ⊥
not_refused h = cc

-- A table of kinds is stable if each of its shapes is.
pub refused-StableKinds :
    (refuse : String → String → Rejection) → StableKinds (λ kind path. err (refuse kind path))
refused-StableKinds refuse kind path other shape h = ground arith

pub chosen-StableKinds :
    (test : String → Bool) (shape : Shape) (next : String → String → Checked Shape)
    → StableRules shape.fields
    → rule_of shape.fields "type" ≡ some (keep string)
    → StableKinds next
    → StableKinds (λ kind path. if test kind then ok shape else next kind path)
chosen-StableKinds test shape next s at_type others kind path other chosen h =
    elim (Bool-cases (test kind)) [
      | inl hit ↦
          let same : shape ≡ chosen = the_shape (rw hit at h) in
          subst
            (λ chosen.
              ((if test kind then ok shape else next kind other) ≡ ok chosen)
              × StableRules chosen.fields
              × (rule_of chosen.fields "type" ≡ some (keep string)))
            same (rw hit, s, at_type)
      | inr miss ↦
          let (again, rules, named) = others kind path other chosen (rw miss at h) in
          (rw miss again, rules, named)
    ]

pub skipped-StableKinds :
    (test : String → Bool) (refuse : String → Rejection) (next : String → String → Checked Shape)
    → StableKinds next
    → StableKinds (λ kind path. if test kind then err (refuse path) else next kind path)
skipped-StableKinds test refuse next others kind path other chosen h =
    elim (Bool-cases (test kind)) [
      | inl hit ↦ absurd (not_refused (rw hit at h))
      | inr miss ↦
          let (again, rules, named) = others kind path other chosen (rw miss at h) in
          (rw miss again, rules, named)
    ]

pub always-StableKinds :
    (shape : Shape)
    → StableRules shape.fields
    → rule_of shape.fields "type" ≡ some (keep string)
    → StableKinds (λ kind path. ok shape)
always-StableKinds shape s at_type kind path other chosen h =
    subst
      (λ chosen.
        (◌≡◌ {A = Checked Shape} (ok shape) (ok chosen))
        × StableRules chosen.fields
        × (rule_of chosen.fields "type" ≡ some (keep string)))
      (the_shape h) (refl, s, at_type)

pub guarded-StableKinds :
    (test : String → Bool) (next : String → String → Checked Shape)
    (refuse : String → String → Rejection)
    → StableKinds next
    → StableKinds (λ kind path. if test kind then next kind path else err (refuse kind path))
guarded-StableKinds test next refuse others kind path other chosen h =
    elim (Bool-cases (test kind)) [
      | inl hit ↦
          let (again, rules, named) = others kind path other chosen (rw hit at h) in
          (rw hit again, rules, named)
      | inr miss ↦ absurd (not_refused (rw miss at h))
    ]
