-- ===== src/Ledger/Reserve/Wanted.antt =====
-- Sorting the keys that a request needs and dropping the repeats (crates/ledger/src/ledger.rs,
-- `reserve`) keeps which keys they are.
use quotamiser.Prelude.{
  ℕ, ◌+◌, String, ◌≡◌, refl, sym, ap, subst, ◌∙◌, inl, inr, Bool, true, false, List, [], ◌∷◌, arith,
  str_eq, eq_iff, ◌||◌, if◌then◌else◌, any, All, Bool-cases,
}
use quotamiser.Ledger.Reserve.{sort_keys, dedup}
use quotamiser.Ledger.Reserve.Distinct.{Differs, IsDistinct}
use quotamiser.Ledger.Reserve.Keys.{before, insert_key, drop_same}

-- The liability as often as the key stands in the list.
abbrev pub due : ℕ → String → List String → ℕ
due liability key [] = 0
due liability key (j ∷ keys) = (if str_eq j key then liability else 0) + due liability key keys

-- Whether a key is among those that a request names.
abbrev pub wants : String → List String → Bool
wants key keys = any (λ j. str_eq j key) keys

pub due-unwanted :
    (liability : ℕ) (key : String) (keys : List String)
    → wants key keys ≡ false
    → due liability key keys ≡ 0
due-unwanted liability key [] h = refl
due-unwanted liability key (j ∷ keys) h = ground (arith, due-unwanted liability key keys)

swapped : (p q r s : Bool) → r ≡ (p || s) → (q || r) ≡ (p || (q || s))
swapped true true r s e = refl
swapped true false r s e = e
swapped false true r s e = refl
swapped false false r s e = e

wants-insert_key :
    (key a : String) (keys : List String) → wants key (insert_key a keys) ≡ wants key (a ∷ keys)
wants-insert_key key a [] = refl
wants-insert_key key a (b ∷ keys) = placed (before a b) (wants-insert_key key a keys)
  where
    placed :
        (c : Bool)
        → wants key (insert_key a keys) ≡ wants key (a ∷ keys)
        → wants key (if c then a ∷ b ∷ keys else b ∷ insert_key a keys) ≡ wants key (a ∷ b ∷ keys)
    placed true later = refl
    placed false later =
        swapped (str_eq a key) (str_eq b key) (wants key (insert_key a keys)) (wants key keys) later

wants-drop_same :
    (key a : String) (keys : List String) → wants key (drop_same a keys) ≡ wants key (a ∷ keys)
wants-drop_same key a [] = refl
wants-drop_same key a (b ∷ keys) = dropped (str_eq a b) refl
  where
    dropped :
        (c : Bool)
        → str_eq a b ≡ c
        → wants key (if c then b ∷ keys else a ∷ b ∷ keys) ≡ wants key (a ∷ b ∷ keys)
    dropped true e =
        subst (λ k. wants key (b ∷ keys) ≡ wants key (k ∷ b ∷ keys)) (sym ((eq_iff _ _).0 e))
          (twice (str_eq b key) (wants key keys))
      where
        twice : (p q : Bool) → (p || q) ≡ (p || (p || q))
        twice true q = refl
        twice false q = refl
    dropped false e = refl

pub wants-sort_keys :
    (key : String) (keys : List String) → wants key (sort_keys keys) ≡ wants key keys
unfolding sort_keys
wants-sort_keys key [] = refl
wants-sort_keys key (a ∷ keys) =
    wants-insert_key key a (sort_keys keys) ∙ ap (λ b. str_eq a key || b) (wants-sort_keys key keys)

pub wants-dedup : (key : String) (keys : List String) → wants key (dedup keys) ≡ wants key keys
unfolding dedup
wants-dedup key [] = refl
wants-dedup key (a ∷ keys) =
    wants-drop_same key a (dedup keys) ∙ ap (λ b. str_eq a key || b) (wants-dedup key keys)

pub All-wanted :
    (P : String → Type 0) (keys : List String)
    → ((key : String) → wants key keys ≡ true → P key)
    → All P keys
All-wanted P [] h = tt
All-wanted P (a ∷ keys) h =
    (h a (ground (arith, eq_iff a a)), All-wanted P keys (λ key is. h key (ground arith)))

pub wanted-All :
    (P : String → Type 0) (key : String) (keys : List String)
    → All P keys
    → wants key keys ≡ true
    → P key
wanted-All P key [] ps h = ground arith
wanted-All P key (a ∷ keys) (p, ps) h = elim (Bool-cases (str_eq a key)) [
  | inl is ↦ subst P ((eq_iff _ _).0 is) p
  | inr not_it ↦ wanted-All P key keys ps (ground arith)
]

Differs-wants : (key : String) (keys : List String) → Differs key keys → wants key keys ≡ false
Differs-wants key [] d = refl
Differs-wants key (j ∷ keys) (n, d) = other (str_eq j key) refl (Differs-wants key keys d)
  where
    other : (b : Bool) → str_eq j key ≡ b → wants key keys ≡ false → wants key (j ∷ keys) ≡ false
    other false is later = rw is later
    other true is later = ground (arith, n, (eq_iff j key).0 is, (eq_iff key j).1)

-- Where no key repeats, a key that stands in the list stands there once.
pub due-once :
    (liability : ℕ) (key : String) (keys : List String)
    → IsDistinct keys
    → wants key keys ≡ true
    → due liability key keys ≡ liability
due-once liability key [] d h = cc
due-once liability key (j ∷ keys) (n, d) h = elim (Bool-cases (str_eq j key)) [
  | inl is ↦ ground (
    arith,
    due-unwanted liability key keys
        (subst (λ k. wants k keys ≡ false) ((eq_iff j key).0 is) (Differs-wants j keys n)),
  )
  | inr other ↦ ground (arith, due-once liability key keys d)
]
