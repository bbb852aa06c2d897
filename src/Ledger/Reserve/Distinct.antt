-- ===== src/Ledger/Reserve/Distinct.antt =====
-- Why sorting the keys and dropping the repeats beside each other leaves no key twice
-- (crates/ledger/src/ledger.rs, `reserve`).
use mathlib.Core.Bool.{false≢true}
use quotamiser.Prelude.{
  String, ◌≡◌, refl, sym, ◌∙◌, subst, Bool, true, false, List, [], ◌∷◌, str_eq, eq_iff, All,
  if◌then◌else◌,
}
use quotamiser.Ledger.Reserve.{sort_keys, dedup}
use quotamiser.Ledger.Reserve.Keys.{before, insert_key, drop_same}
use quotamiser.Ledger.Reserve.Ordered.{before_trans, before_total, before_antisym}

abbrev Leads : String → List String → Type 0
Leads a keys = All (λ b. before a b ≡ true) keys

abbrev IsOrdered : List String → Type 0
IsOrdered [] = Unit {0}
IsOrdered (a ∷ keys) = Leads a keys × IsOrdered keys

abbrev pub Differs : String → List String → Type 0
Differs a keys = All (λ b. str_eq a b ≡ false) keys

abbrev pub IsDistinct : List String → Type 0
IsDistinct [] = Unit {0}
IsDistinct (a ∷ keys) = Differs a keys × IsDistinct keys

Leads-trans : (a b : String) (keys : List String) → before a b ≡ true → Leads b keys → Leads a keys
Leads-trans a b [] h l = tt
Leads-trans a b (c ∷ keys) h (l, ls) = (before_trans a b c h l, Leads-trans a b keys h ls)

insert_key-Leads :
    (x a : String) (keys : List String)
    → before x a ≡ true
    → Leads x keys
    → Leads x (insert_key a keys)
insert_key-Leads x a [] h l = (h, tt)
insert_key-Leads x a (b ∷ keys) h (l, ls) = placed (before a b) (insert_key-Leads x a keys h ls)
  where
    placed :
        (c : Bool)
        → Leads x (insert_key a keys)
        → Leads x (if c then a ∷ b ∷ keys else b ∷ insert_key a keys)
    placed true later = (h, (l, ls))
    placed false later = (l, later)

insert_key-IsOrdered :
    (a : String) (keys : List String) → IsOrdered keys → IsOrdered (insert_key a keys)
insert_key-IsOrdered a [] o = (tt, tt)
insert_key-IsOrdered a (b ∷ keys) (l, o) = placed (before a b) refl (insert_key-IsOrdered a keys o)
  where
    placed :
        (c : Bool)
        → before a b ≡ c
        → IsOrdered (insert_key a keys)
        → IsOrdered (if c then a ∷ b ∷ keys else b ∷ insert_key a keys)
    placed true h later = ((h, Leads-trans a b keys h l), (l, o))
    placed false h later = (insert_key-Leads b a keys (before_total a b h) l, later)

sort_keys-IsOrdered : (keys : List String) → IsOrdered (sort_keys keys)
unfolding sort_keys
sort_keys-IsOrdered [] = tt
sort_keys-IsOrdered (a ∷ keys) = insert_key-IsOrdered a (sort_keys keys) (sort_keys-IsOrdered keys)

drop_same-Leads :
    (x a : String) (keys : List String)
    → before x a ≡ true
    → Leads x keys
    → Leads x (drop_same a keys)
drop_same-Leads x a [] h l = (h, tt)
drop_same-Leads x a (b ∷ keys) h l = dropped (str_eq a b)
  where
    dropped : (c : Bool) → Leads x (if c then b ∷ keys else a ∷ b ∷ keys)
    dropped true = l
    dropped false = (h, l)

dedup-Leads : (x : String) (keys : List String) → Leads x keys → Leads x (dedup keys)
unfolding dedup
dedup-Leads x [] l = tt
dedup-Leads x (a ∷ keys) (l, ls) = drop_same-Leads x a (dedup keys) l (dedup-Leads x keys ls)

-- A key before the first of an ordered list is none of it, unless it is the first.
Differs-all :
    (a b : String) (keys : List String)
    → str_eq a b ≡ false
    → before a b ≡ true
    → Leads b keys
    → Differs a keys
Differs-all a b [] n h l = tt
Differs-all a b (c ∷ keys) n h (l, ls) = (not_it (str_eq a c) refl, Differs-all a b keys n h ls)
  where
    not_it : (e : Bool) → str_eq a c ≡ e → e ≡ false
    not_it false is = refl
    not_it true is =
        let same : b ≡ a =
          before_antisym b a (subst (λ k. before b k ≡ true) (sym ((eq_iff _ _).0 is)) l) h in
        absurd (false≢true (sym n ∙ (eq_iff a b).1 (sym same)))

drop_same-IsDistinct :
    (a : String) (keys : List String)
    → Leads a keys
    → IsOrdered keys
    → IsDistinct keys
    → IsOrdered (drop_same a keys) × IsDistinct (drop_same a keys)
drop_same-IsDistinct a [] l o d = ((tt, tt), (tt, tt))
drop_same-IsDistinct a (b ∷ keys) (h, l) (l', o) d = dropped (str_eq a b) refl
  where
    dropped :
        (c : Bool)
        → str_eq a b ≡ c
        → IsOrdered (if c then b ∷ keys else a ∷ b ∷ keys)
          × IsDistinct (if c then b ∷ keys else a ∷ b ∷ keys)
    dropped true is = ((l', o), d)
    dropped false n = (((h, l), (l', o)), ((n, Differs-all a b keys n h l'), d))

dedup-IsDistinct :
    (keys : List String) → IsOrdered keys → IsOrdered (dedup keys) × IsDistinct (dedup keys)
unfolding dedup
dedup-IsDistinct [] o = (tt, tt)
dedup-IsDistinct (a ∷ keys) (l, o) =
    let (o', d) = dedup-IsDistinct keys o in
    drop_same-IsDistinct a (dedup keys) (dedup-Leads a keys l) o' d

-- Sorted and without the repeats beside each other, the keys have no repeat at all.
pub dedup-sort_keys : (keys : List String) → IsDistinct (dedup (sort_keys keys))
dedup-sort_keys keys = (dedup-IsDistinct (sort_keys keys) (sort_keys-IsOrdered keys)).1
