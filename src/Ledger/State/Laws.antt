-- ===== src/Ledger/State/Laws.antt =====
-- What the transition table of crates/ledger/src/state.rs allows, and the stored texts.
use quotamiser.Prelude.{
  String, ℕ, ◌≡◌, refl, ◌≢◌, ◌⊎◌, inl, true, false, some, List, [], ◌∷◌, arith, find?-holds, length,
  ◌+◌, ◌≤◌, ◌++◌, str_eq, eq_iff,
}
use quotamiser.Ledger.State.{
  State, Transition, state_eq, as_str, parse, is_active, possibly_sent, target, allowed_from,
  all_states,
}

-- Two states are equal exactly when the derived comparison says so.
pub state_eq-eq : (a b : State) → state_eq a b ≡ true → a ≡ b
state_eq-eq State.reserved b h = ground arith
state_eq-eq State.dispatching b h = ground arith
state_eq-eq State.dispatched_with_id b h = ground arith
state_eq-eq State.dispatched_id_unknown b h = ground arith
state_eq-eq State.settled b h = ground arith
state_eq-eq State.consumed_unrecoverable b h = ground arith
state_eq-eq State.released_unsent b h = ground arith
state_eq-eq State.rejected_before_processing b h = ground arith

pub state_eq_refl : (a : State) → state_eq a a ≡ true
state_eq_refl State.reserved = refl
state_eq_refl _ = refl

-- A stored state text reads back as the state that was written.
pub parse-as_str : (s : State) → parse (as_str s) ≡ some s
unfolding parse
parse-as_str State.reserved = refl
parse-as_str _ = refl

-- A text that reads as a state is that state's text.
pub as_str-parse : (text : String) (s : State) → parse text ≡ some s → as_str s ≡ text
unfolding parse
as_str-parse text s h =
    (eq_iff (as_str s) text).0 (find?-holds (λ x. str_eq (as_str x) text) all_states h)

-- A reservation that has ended allows no transition, and one that is active allows some.
pub allowed_from-is_active :
    (s : State)
    → ((t : Transition) → is_active s ≡ false → allowed_from t s ≡ false)
      × (is_active s ≡ true → (t : Transition) × (allowed_from t s ≡ true))
allowed_from-is_active State.reserved = (λ t h. cc, λ h. (Transition.begin_dispatch, refl))
allowed_from-is_active State.dispatching = (λ t h. cc, λ h. (Transition.settle, refl))
allowed_from-is_active State.dispatched_with_id = (λ t h. cc, λ h. (Transition.settle, refl))
allowed_from-is_active State.dispatched_id_unknown =
    (λ t h. cc, λ h. (Transition.unrecoverable, refl))
allowed_from-is_active State.settled = (λ t h. ground arith, λ h. cc)
allowed_from-is_active State.consumed_unrecoverable = (λ t h. ground arith, λ h. cc)
allowed_from-is_active State.released_unsent = (λ t h. ground arith, λ h. cc)
allowed_from-is_active State.rejected_before_processing = (λ t h. ground arith, λ h. cc)

-- The transitions that a group can go through, one after another.
pub data Run (s : State) : List Transition → State → Type 0 where
  here : Run s [] s
  next :
      {u : State} {ts : List Transition} (t : Transition)
      → allowed_from t u ≡ true
      → Run s ts u
      → Run s (t ∷ ts) (target t)

-- How many transitions can still follow at most.
abbrev rank : State → ℕ
rank State.reserved = 3
rank State.dispatching = 2
rank State.dispatched_with_id = 1
rank State.dispatched_id_unknown = 1
rank _ = 0

rank-target : (t : Transition) (s : State) → allowed_from t s ≡ true → rank (target t) + 1 ≤ rank s
rank-target Transition.begin_dispatch s h = ground arith
rank-target _ s h = ground arith

run-rank : {s s' : State} {ts : List Transition} → Run s ts s' → rank s' + length ts ≤ rank s
run-rank here = omega arith
run-rank (next {u} t ok r) = omega (arith, run-rank r, rank-target t u ok)

rank-le : (s : State) → rank s ≤ 3
rank-le State.reserved = omega arith
rank-le _ = omega arith

-- The shortest way to an end.
ending :
    (s' : State) → (ts : List Transition) × (s'' : State) × Run s' ts s'' × (is_active s'' ≡ false)
ending State.reserved =
    (Transition.release_unsent ∷ [], _, next Transition.release_unsent refl here, refl)
ending State.dispatching = (Transition.settle ∷ [], _, next Transition.settle refl here, refl)
ending State.dispatched_with_id =
    (Transition.settle ∷ [], _, next Transition.settle refl here, refl)
ending State.dispatched_id_unknown =
    (Transition.unrecoverable ∷ [], _, next Transition.unrecoverable refl here, refl)
ending State.settled = ([], _, here, refl)
ending State.consumed_unrecoverable = ([], _, here, refl)
ending State.released_unsent = ([], _, here, refl)
ending State.rejected_before_processing = ([], _, here, refl)

run-append :
    {s s' s'' : State} {ts later : List Transition}
    → Run s ts s'
    → Run s' later s''
    → Run s (later ++ ts) s''
run-append r here = r
run-append r (next t ok later) = next t ok (run-append r later)

-- No reservation is stuck, and none goes on for ever: whatever transitions it went through, further
-- ones lead it to a state that is no longer active, and all of them together are three at most.
pub run_ends :
    {s s' : State} {ts : List Transition}
    → Run s ts s'
    → (later : List Transition) × (s'' : State) × Run s (later ++ ts) s''
      × (is_active s'' ≡ false)
      × (length (later ++ ts) ≤ 3)
run_ends {s} {s'} r =
    let (later, s'', way, ended) = ending s' in
    let whole = run-append r way in
    (later, s'', whole, ended, omega (arith, run-rank whole, rank-le s))

-- States of a request that may have been sent, or that has ended with evidence of what happened.
abbrev pub WasSent : State → Type 0
WasSent s = (s ≢ State.reserved) × (s ≢ State.released_unsent)

WasSent-target :
    (t : Transition) (s : State) → allowed_from t s ≡ true → WasSent s → WasSent (target t)
WasSent-target t s h w = ground arith

-- A request that may have been sent is never released as unsent, whatever transitions follow.
pub run-WasSent :
    {s s' : State} {ts : List Transition} → possibly_sent s ≡ true → Run s ts s' → WasSent s'
run-WasSent p here = ground arith
run-WasSent p (next {u} t ok r) = WasSent-target t u ok (run-WasSent p r)

-- Without a response id nothing can settle: such a request can only be written off in full.
pub run_id_unknown :
    {s' : State} {ts : List Transition}
    → Run State.dispatched_id_unknown ts s'
    → (s' ≡ State.dispatched_id_unknown) ⊎ (s' ≡ State.consumed_unrecoverable)
run_id_unknown here = inl refl
run_id_unknown (next t ok r) = ground (arith, run_id_unknown r)

pub allowed_from_active :
    (t : Transition) (s : State) → allowed_from t s ≡ true → is_active s ≡ true
allowed_from_active t s h = ground arith
