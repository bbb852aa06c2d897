-- ===== src/Ledger/Reserve/Vouched.antt =====
-- What vouches for an admission of crates/ledger/src/ledger.rs (`reserve`): the latches, the safety
-- inputs and their budgets, said without the code's own tests and loops.
use quotamiser.Prelude.{
  ℕ, ◌≤◌, String, ◌<>◌, ◌≡◌, ◌≢◌, refl, sym, ap, ◌∙◌, ◌⊎◌, inl, inr, true, false, Option, none,
  some, List, [], ◌∷◌, arith, ok, err, str_eq, eq_iff, is_none, find?, All, Bool-cases, >>=-eq-ok,
  ok_or-eq-ok, ok_or,
}
use quotamiser.Prelude.Int.{ℤ, pos, ◌+ℤ◌, ◌≤ℤ◌, ◌<ℤ◌, checked_add_ℤ}
use quotamiser.Ledger.Error.{overflow}
use quotamiser.Ledger.Trust.{trusted}
use quotamiser.Ledger.Schema.{Db, SafetyInput, Latch}
use quotamiser.Ledger.Store.{Ledger}
use quotamiser.Ledger.Reserve.{
  ReservationRequest, blocks, has_key, latch_refusal, check_input, check_inputs, or_next, reserved,
  reserve, sort_keys, dedup,
}
use quotamiser.Ledger.Reserve.Effects.{reserve-Reserves}
use quotamiser.Ledger.Reserve.Distinct.{dedup-sort_keys}
use quotamiser.Ledger.Reserve.Wanted.{
  due, wants, due-once, due-unwanted, wants-sort_keys, wants-dedup, All-wanted, wanted-All,
}
use quotamiser.Ledger.Reserve.Budgets.{budget_of, less, less-zero, debit_inputs-budget}

-- A latch is cleared, or is of another scope.
abbrev pub IsLifted : String → String → Latch → Type 0
IsLifted pool_id model latch =
    (is_none latch.cleared ≡ false)
    ⊎ ((latch.scope ≢ "global") × (latch.scope ≢ pool_id) × (latch.scope ≢ "model:" <> model))

-- The input of a key is there, is fresh, and has the budget.
abbrev pub Vouches : List SafetyInput → ℕ → ℤ → String → Type 0
Vouches safety liability now key =
    (input : SafetyInput) × (find? (λ i. str_eq i.key key) safety ≡ some input)
    × ((input.verified_at ≤ℤ now)
        × (now <ℤ input.verified_at +ℤ pos input.ttl_seconds)
        × (liability ≤ input.budget_remaining))

lifted :
    (pool_id model : String) (latches : List Latch)
    → latch_refusal latches pool_id model ≡ none
    → All (IsLifted pool_id model) latches
lifted pool_id model [] h = tt
lifted pool_id model (latch ∷ latches) h = elim (Bool-cases (blocks pool_id model latch)) [
  | inl stops ↦ ground arith
  | inr passes ↦ (free passes, lifted pool_id model latches (ground arith))
]
  where
    free : blocks pool_id model latch ≡ false → IsLifted pool_id model latch
    free e = elim (Bool-cases (is_none latch.cleared)) [
      | inr cleared ↦ inl cleared
      | inl uncleared ↦ inr (
        (λ is. ground (arith, (eq_iff _ _).1 is)),
        (λ is. ground (arith, (eq_iff _ _).1 is)),
        (λ is. ground (arith, (eq_iff _ _).1 is)),
      )
    ]

check_input-Vouches :
    (safety : List SafetyInput) (liability : ℕ) (now : ℤ) (key : String)
    → check_input key liability now (find? (has_key key) safety) ≡ ok none
    → Vouches safety liability now key
unfolding check_input
check_input-Vouches safety liability now key h = found (find? (has_key key) safety) refl h
  where
    found :
        (o : Option SafetyInput)
        → find? (has_key key) safety ≡ o
        → check_input key liability now o ≡ ok none
        → Vouches safety liability now key
    found none e h = ground arith
    found (some input) e h =
        let (expires, sum, later) =
          >>=-eq-ok (ok_or (checked_add_ℤ input.verified_at (pos input.ttl_seconds)) overflow) _
            h in
        let is =
          ok_or-eq-ok (checked_add_ℤ input.verified_at (pos input.ttl_seconds)) overflow sum in
        let same : expires ≡ input.verified_at +ℤ pos input.ttl_seconds = ground arith in
        (input, e, (ground arith, ground arith, ground arith))

check_inputs-Vouches :
    (safety : List SafetyInput) (liability : ℕ) (now : ℤ) (keys : List String)
    → check_inputs safety liability now keys ≡ ok none
    → All (Vouches safety liability now) keys
unfolding check_inputs
check_inputs-Vouches safety liability now [] h = tt
check_inputs-Vouches safety liability now (key ∷ keys) h =
    let (first, rest) =
      passed (check_input key liability now (find? (has_key key) safety))
        (check_inputs safety liability now keys) h in
    (
      check_input-Vouches safety liability now key first,
      check_inputs-Vouches safety liability now keys rest,
    )
  where
    passed : (first next : _) → or_next first next ≡ ok none → (first ≡ ok none) × (next ≡ ok none)
    passed (err e) next h = cc
    passed (ok (some r)) next h = ground arith
    passed (ok none) next h = (refl, h)

-- What vouches for an admission, and what it takes from the budgets.
pub record IsVouched (request : ReservationRequest) (now : ℤ) (db db' : Db) : Type 0 where
  pub lifts : All (IsLifted request.pool_id request.model_snapshot) db.latches
  pub vouched : All (Vouches db.safety request.liability now) request.required_safety_inputs
  pub debited :
      All
        (λ key. budget_of key db'.safety ≡ less request.liability (budget_of key db.safety))
        request.required_safety_inputs
  pub spared :
      (key : String)
      → (wants key request.required_safety_inputs ≡ true)
        ⊎ (budget_of key db'.safety ≡ budget_of key db.safety)

wants-needed :
    (key : String) (keys : List String) → wants key (dedup (sort_keys keys)) ≡ wants key keys
wants-needed key keys = wants-dedup key (sort_keys keys) ∙ wants-sort_keys key keys

-- An admission comes only from a trusted ledger in which every latch of the request's scopes was
-- cleared and each safety input it requires is there, has not expired, was not verified later
-- than now, and has the liability left; it takes the liability from the budget of each once, even
-- if the request names it twice, and leaves the other budgets as they were.
pub reserve-IsVouched :
    (request : ReservationRequest) (now : ℤ) (l l' : Ledger) {id : ℕ}
    → reserve request now l ≡ (ok (reserved id), l')
    → (l.trust ≡ trusted) × IsVouched request now l.db l'.db
reserve-IsVouched request now l l' h =
    let keys = request.required_safety_inputs in
    let needed = dedup (sort_keys keys) in
    let n = request.liability in
    let (is, r, _) = reserve-Reserves request now l l' h in
    let left : (key : String)
        → budget_of key l'.db.safety ≡ less (due n key needed) (budget_of key l.db.safety) =
      λ key. debit_inputs-budget n key needed l.db.safety r.debits.debited in
    (
      is,
      record {
        lifts = lifted request.pool_id request.model_snapshot l.db.latches r.unlatched;
        vouched = All-wanted (Vouches l.db.safety n now) keys (λ key is.
            wanted-All (Vouches l.db.safety n now) key needed
              (check_inputs-Vouches l.db.safety n now needed r.inputs)
              (wants-needed key keys ∙ is));
        debited = All-wanted _ keys (λ key is.
            left key
            ∙ ap (λ m. less m (budget_of key l.db.safety))
                (due-once n key needed (dedup-sort_keys keys) (wants-needed key keys ∙ is)));
        spared = λ key. elim (Bool-cases (wants key keys)) [
          | inl is ↦ inl is
          | inr is ↦ inr (
              left key
              ∙ ap (λ m. less m (budget_of key l.db.safety))
                  (due-unwanted n key needed (wants-needed key keys ∙ is))
              ∙ sym (less-zero (budget_of key l.db.safety)))
        ];
      },
    )
