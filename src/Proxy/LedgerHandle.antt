-- ===== src/Proxy/LedgerHandle.antt =====
-- crates/proxy/src/ledger_handle.rs: the ledger behind its mutex. Between two calls of one task the
-- others take their turns, which are any calls of the ledger. An operation that panics leaves the
-- mutex poisoned, and its transaction is not committed.
use quotamiser.Prelude.{
  ◌≡◌, refl, sym, ap, ◌∙◌, Bool, true, false, List, [], ◌∷◌, ◌++◌, Result, ok, err, arith,
}
use quotamiser.Ledger.Error.{LedgerError, Outcome}
use quotamiser.Ledger.Store.{Ledger, Operation}
use quotamiser.Ledger.History.{Call, after, history}

-- A task that fails to join is one that panicked, so that it is the next caller's `poisoned`.
pub data LedgerAccessError : Type 0 where
  ledger_failed : LedgerError → LedgerAccessError
  poisoned : LedgerAccessError

-- What the others did before the lock was taken, and whether it is poisoned then.
pub record Turn : Type 0 where
  pub calls : List Call
  pub is_poisoned : Bool

pub record LedgerHandle : Type 0 where
  pub ledger : Ledger
  pub turns : List Turn

abbrev pub first_turn : List Turn → Turn
first_turn [] = record { calls = []; is_poisoned = false }
first_turn (turn ∷ turns) = turn

abbrev pub later_turns : List Turn → List Turn
later_turns [] = []
later_turns (turn ∷ turns) = turns

abbrev pub accessed : {A : Type 0} → Outcome A → Result LedgerAccessError A
accessed (ok a) = ok a
accessed (err e) = err (ledger_failed e)

abbrev pub run_locked :
    {A : Type 0}
    → Bool
    → Operation A
    → List Turn
    → Ledger
    → Result LedgerAccessError A × LedgerHandle
run_locked true operation turns l = (err poisoned, record { ledger = l; turns = turns })
run_locked false operation turns l =
    let (outcome, l') = operation l in (accessed outcome, record { ledger = l'; turns = turns })

-- `LedgerHandle::with`.
unfoldable pub with_ledger :
    {A : Type 0} → Operation A → LedgerHandle → Result LedgerAccessError A × LedgerHandle
with_ledger operation h =
    let turn = first_turn h.turns in
    run_locked turn.is_poisoned operation (later_turns h.turns) (history turn.calls h.ledger)

-- From one handle to a later one the ledger went through calls of the ledger, and nothing else.
abbrev pub Follows : LedgerHandle → LedgerHandle → Type 0
Follows h h' = (calls : List Call) × (h'.ledger ≡ history calls h.ledger)

pub history-append :
    (calls later : List Call) (l : Ledger)
    → history (calls ++ later) l ≡ history later (history calls l)
unfolding history
history-append [] later l = refl
history-append (c ∷ calls) later l = history-append calls later (after c l)

pub Follows-refl : (h : LedgerHandle) → Follows h h
unfolding history
Follows-refl h = ([], refl)

pub Follows-trans : (a b c : LedgerHandle) → Follows a b → Follows b c → Follows a c
Follows-trans a b c (calls, e) (later, e') =
    (calls ++ later, e' ∙ ap (history later) e ∙ sym (history-append calls later a.ledger))

run_locked-Follows :
    {A : Type 0} (stuck : Bool) (operation : Operation A) (call : Call) (turns : List Turn)
    (calls : List Call) (h : LedgerHandle)
    → ((l : Ledger) → (operation l).1 ≡ after call l)
    → Follows h (run_locked stuck operation turns (history calls h.ledger)).1
unfolding history
run_locked-Follows true operation call turns calls h same = (calls, refl)
run_locked-Follows false operation call turns calls h same = (
  calls ++ call ∷ [],
  same (history calls h.ledger) ∙ sym (history-append calls (call ∷ []) h.ledger),
)

-- An operation that is a call of the ledger is one step of its history, after those of the others.
pub with_ledger-Follows :
    {A : Type 0} (operation : Operation A) (call : Call) (h : LedgerHandle)
    → ((l : Ledger) → (operation l).1 ≡ after call l)
    → Follows h (with_ledger operation h).1
unfolding with_ledger
with_ledger-Follows operation call h same =
    let turn = first_turn h.turns in
    run_locked-Follows turn.is_poisoned operation call (later_turns h.turns) turn.calls h same

accessed-ok : {A : Type 0} (outcome : Outcome A) {a : A} → accessed outcome ≡ ok a → outcome ≡ ok a
accessed-ok (ok a) h = ground arith
accessed-ok (err e) h = cc

-- A success was that of the operation, on the ledger that it found.
run_locked-ok :
    {A : Type 0} (stuck : Bool) (operation : Operation A) (turns : List Turn) (l : Ledger) {a : A}
    → (run_locked stuck operation turns l).0 ≡ ok a
    → operation l ≡ (ok a, (run_locked stuck operation turns l).1.ledger)
run_locked-ok true operation turns l h = ground arith
run_locked-ok false operation turns l h =
    ap (λ outcome. (outcome, (operation l).1)) (accessed-ok (operation l).0 h)

pub with_ledger-ok :
    {A : Type 0} (operation : Operation A) (h : LedgerHandle) {a : A}
    → (with_ledger operation h).0 ≡ ok a
    → (calls : List Call) × (operation (history calls h.ledger)
        ≡ (ok a, (with_ledger operation h).1.ledger))
unfolding with_ledger
with_ledger-ok operation h e =
    let turn = first_turn h.turns in
    (
      turn.calls,
      run_locked-ok turn.is_poisoned operation (later_turns h.turns) (history turn.calls h.ledger)
          e,
    )

run_locked-reads :
    {A : Type 0} (stuck : Bool) (operation : Operation A) (turns : List Turn) (l : Ledger)
    → ((l : Ledger) → (operation l).1 ≡ l)
    → (run_locked stuck operation turns l).1.ledger ≡ l
run_locked-reads true operation turns l same = refl
run_locked-reads false operation turns l same = same l

-- An operation that only reads adds nothing to what the others did.
pub with_ledger-reads :
    {A : Type 0} (operation : Operation A) (h : LedgerHandle)
    → ((l : Ledger) → (operation l).1 ≡ l)
    → Follows h (with_ledger operation h).1
unfolding with_ledger
with_ledger-reads operation h same =
    let turn = first_turn h.turns in
    (
      turn.calls,
      run_locked-reads turn.is_poisoned operation (later_turns h.turns)
          (history turn.calls h.ledger) same,
    )
