-- ===== src/Ledger/Reserve/Keys.antt =====
-- The keys of the safety inputs that a request needs, sorted and with repeats dropped, as
-- `Vec::sort` and `Vec::dedup` do (crates/ledger/src/ledger.rs, `reserve`).
use Prim.Native.Nat.{Ordering}
use Prim.Native.String.{compare}
use quotamiser.Prelude.{String, Bool, true, false, List, [], ◌∷◌, str_eq, if◌then◌else◌}

abbrev pub before : String → String → Bool
before a b = elim (compare a b) [ Ordering.gt ↦ false | _ ↦ true ]

abbrev pub insert_key : String → List String → List String
insert_key a [] = a ∷ []
insert_key a (b ∷ keys) = if before a b then a ∷ b ∷ keys else b ∷ insert_key a keys

unfoldable pub sort_keys : List String → List String
sort_keys [] = []
sort_keys (a ∷ keys) = insert_key a (sort_keys keys)

-- Drops a key that repeats the one before it.
abbrev pub drop_same : String → List String → List String
drop_same a [] = a ∷ []
drop_same a (b ∷ keys) = if str_eq a b then b ∷ keys else a ∷ b ∷ keys

unfoldable pub dedup : List String → List String
dedup [] = []
dedup (a ∷ keys) = drop_same a (dedup keys)
