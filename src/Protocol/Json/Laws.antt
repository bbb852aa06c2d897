-- ===== src/Protocol/Json/Laws.antt =====
-- The maps of the JSON values in crates/protocol: keys that are distinct, and where an inserted
-- entry is read.
use quotamiser.Prelude.{
  String, ◌≡◌, refl, sym, subst, ap, ◌∙◌, Option, none, some, arith, str_eq, eq_iff, if◌then◌else◌,
  inl, inr, Bool-cases, Option-cases,
}
use quotamiser.Protocol.Json.{Value, Fields, end, field, get, insert}

-- No key stands twice.
abbrev pub IsDistinct : Fields → Type 0
IsDistinct end = Unit {0}
IsDistinct (field k v rest) = (get rest k ≡ none) × IsDistinct rest

abbrev pub append : Fields → Fields → Fields
append end later = later
append (field k v rest) later = field k v (append rest later)

pub append-end : (fields : Fields) → append fields end ≡ fields
append-end end = refl
append-end (field k v rest) = ap (field k v) (append-end rest)

pub append_assoc : (a b c : Fields) → append (append a b) c ≡ append a (append b c)
append_assoc end b c = refl
append_assoc (field k v rest) b c = ap (field k v) (append_assoc rest b c)

pub insert-new :
    (key : String) (value : Value) (fields : Fields)
    → get fields key ≡ none
    → insert key value fields ≡ append fields (field key value end)
unfolding get insert
insert-new key value end h = refl
insert-new key value (field k v rest) h = ground (arith, insert-new key value rest)

-- A map without repeated keys reads what was inserted last.
pub get-insert :
    (key : String) (value : Value) (fields : Fields) (other : String)
    → IsDistinct fields
    → get (insert key value fields) other
      ≡ (if str_eq key other then some value else get fields other)
unfolding get insert
get-insert key value end other d = ground arith
get-insert key value (field k v rest) other d = ground (
  arith,
  d.0,
  eq_iff k key,
  eq_iff key other,
  eq_iff k other,
  get-insert key value rest other d.1,
)

pub insert-IsDistinct :
    (key : String) (value : Value) (fields : Fields)
    → IsDistinct fields
    → IsDistinct (insert key value fields)
unfolding get insert
insert-IsDistinct key value end d = (refl, tt)
insert-IsDistinct key value (field k v rest) d = elim (Bool-cases (str_eq k key)) [
  | inl same ↦ rw same d
  | inr other ↦ rw other (
    ground (arith, d.0, eq_iff k key, eq_iff key k, get-insert key value rest k d.1),
    insert-IsDistinct key value rest d.1,
  )
]

-- The later of two values, if there is one.
abbrev pub or_earlier : Option Value → Option Value → Option Value
or_earlier (some later) earlier = some later
or_earlier none earlier = earlier

pub get-append :
    (fields later : Fields) (key : String)
    → get (append fields later) key ≡ or_earlier (get later key) (get fields key)
unfolding get
get-append end later key = ground arith
get-append (field k v rest) later key = ground (arith, get-append rest later key)

-- The key of an entry in the middle stands in no entry before it.
pub get-append_mid :
    (before : Fields) (key : String) (value : Value) (later : Fields)
    → IsDistinct (append before (field key value later))
    → get before key ≡ none
unfolding get
get-append_mid end key value later d = refl
get-append_mid (field k v rest) key value later d = ground (
  arith,
  d.0,
  eq_iff k key,
  eq_iff key k,
  get-append rest (field key value later) k,
  get-append_mid rest key value later d.1,
)

-- What holds of every entry.
abbrev pub Entries : (String → Value → Type 0) → Fields → Type 0
Entries P end = Unit {0}
Entries P (field key value rest) = P key value × Entries P rest

pub insert-Entries :
    (P : String → Value → Type 0) (key : String) (value : Value) (fields : Fields)
    → P key value
    → Entries P fields
    → Entries P (insert key value fields)
unfolding insert
insert-Entries P key value end e h = (e, tt)
insert-Entries P key value (field k v rest) e h = elim (Bool-cases (str_eq k key)) [
  | inl same ↦ rw same (subst (λ k. P k value) (sym ((eq_iff k key).0 same)) e, h.1)
  | inr other ↦ rw other (h.0, insert-Entries P key value rest e h.1)
]

the_value : {a b : Value} → some a ≡ some b → a ≡ b
the_value h = ground arith

pub Entries-get :
    (P : String → Value → Type 0) (fields : Fields) (key : String) {value : Value}
    → Entries P fields
    → get fields key ≡ some value
    → P key value
unfolding get
Entries-get P end key h e = cc
Entries-get P (field k v rest) key {value} h e = elim (Option-cases (get rest key)) [
  | inr (later, at_key) ↦ Entries-get P rest key h.1 (at_key ∙ ap some (the_value (rw at_key at e)))
  | inl none_at ↦ elim (Bool-cases (str_eq k key)) [
    | inl same ↦
        let one : v ≡ value = ground arith in
        subst (λ k. P k value) ((eq_iff k key).0 same) (subst (P k) one h.0)
    | inr other ↦ ground (arith, other)
  ]
]
