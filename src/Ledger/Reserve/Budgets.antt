-- ===== src/Ledger/Reserve/Budgets.antt =====
-- What the debits of an admission (crates/ledger/src/ledger.rs, `reserve`) leave of the budget of
-- each safety input.
use quotamiser.Prelude.{
  ℕ, ◌+◌, ◌-◌, String, ◌≡◌, refl, sym, ap, subst, ◌∙◌, inl, inr, Bool, true, false, Option, none,
  some, List, [], ◌∷◌, arith, ok, err, str_eq, eq_iff, is_some, ltb, ◌&&◌, if◌then◌else◌, find?,
  update, Bool-cases,
}
use quotamiser.Ledger.Error.{sqlite}
use quotamiser.Ledger.Schema.{SafetyInput}
use quotamiser.Ledger.Reserve.{has_key, debit_input, debit_inputs}
use quotamiser.Ledger.Reserve.Wanted.{due}

abbrev pub budget_of : String → List SafetyInput → Option ℕ
budget_of key [] = none
budget_of key (input ∷ safety) =
    if str_eq input.key key then some input.budget_remaining else budget_of key safety

-- What a budget is after so much was taken off it.
abbrev pub less : ℕ → Option ℕ → Option ℕ
less n none = none
less n (some b) = some (b - n)

budget_of-debit :
    (liability : ℕ) (j key : String) (safety : List SafetyInput)
    → budget_of key (update (has_key j) (debit_input liability) safety)
      ≡ (if str_eq j key then less liability (budget_of key safety) else budget_of key safety)
budget_of-debit liability j key [] = ground arith
budget_of-debit liability j key (input ∷ safety) =
    put (has_key j input) refl (budget_of-debit liability j key safety)
  where
    put :
        (b : Bool)
        → has_key j input ≡ b
        → budget_of key (update (has_key j) (debit_input liability) safety)
          ≡ (if str_eq j key then less liability (budget_of key safety) else budget_of key safety)
        → budget_of key (
            (if b then debit_input liability input else input)
            ∷ update (has_key j) (debit_input liability) safety)
          ≡ (if str_eq j key
              then less liability (budget_of key (input ∷ safety))
              else budget_of key (input ∷ safety))
    put true e later = elim (Bool-cases (str_eq j key)) [
      | inl same ↦
          rw same (rw (subst (λ k. str_eq k key ≡ true) (sym ((eq_iff _ _).0 e)) same) refl)
      | inr other ↦
          let away : str_eq input.key key ≡ false =
            subst (λ k. str_eq k key ≡ false) (sym ((eq_iff _ _).0 e)) other in
          rw other (rw away (ground (arith, later)))
    ]
    put false e later = elim (Bool-cases (str_eq j key)) [
      | inl same ↦
          let away : str_eq input.key key ≡ false =
            subst (λ k. str_eq input.key k ≡ false) ((eq_iff _ _).0 same) e in
          rw same (rw away (ground (arith, later)))
      | inr other ↦ elim (Bool-cases (str_eq input.key key)) [
        | inl here ↦ rw other (rw here refl)
        | inr away ↦ rw other (rw away (ground (arith, later)))
      ]
    ]

less-less : (m n : ℕ) (o : Option ℕ) → less m (less n o) ≡ less (n + m) o
less-less m n none = refl
less-less m n (some b) = ap some (omega arith)

pub less-zero : (o : Option ℕ) → o ≡ less 0 o
less-zero none = refl
less-zero (some b) = ap some (omega arith)

-- What the debits leave of each budget.
pub debit_inputs-budget :
    (liability : ℕ) (key : String) (keys : List String) (safety : List SafetyInput)
    {safety' : List SafetyInput}
    → debit_inputs liability keys safety ≡ ok safety'
    → budget_of key safety' ≡ less (due liability key keys) (budget_of key safety)
unfolding debit_inputs
debit_inputs-budget liability key [] safety h = ground (arith, less-zero (budget_of key safety))
debit_inputs-budget liability key (j ∷ keys) safety {safety'} h =
    debited (is_some (find? (λ i. has_key j i && ltb i.budget_remaining liability) safety)) h
      (debit_inputs-budget liability key keys (update (has_key j) (debit_input liability) safety))
  where
    both :
        (b : Bool)
        → less
            (due liability key keys)
            (if b then less liability (budget_of key safety) else budget_of key safety)
          ≡ less ((if b then liability else 0) + due liability key keys) (budget_of key safety)
    both true = less-less (due liability key keys) liability (budget_of key safety)
    both false = ap (λ n. less n (budget_of key safety)) (omega arith)

    debited :
        (b : Bool)
        → (if b
            then err sqlite
            else debit_inputs liability keys (update (has_key j) (debit_input liability) safety))
          ≡ ok safety'
        → (debit_inputs liability keys (update (has_key j) (debit_input liability) safety)
              ≡ ok safety'
            → budget_of key safety'
              ≡ less
                  (due liability key keys)
                  (budget_of key (update (has_key j) (debit_input liability) safety)))
        → budget_of key safety' ≡ less (due liability key (j ∷ keys)) (budget_of key safety)
    debited true h later = ground arith
    debited false h later =
        later h
        ∙ ap (less (due liability key keys)) (budget_of-debit liability j key safety)
        ∙ both (str_eq j key)
