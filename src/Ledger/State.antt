-- ===== src/Ledger/State.antt =====
-- crates/ledger/src/state.rs: the states of a reservation, the transitions between them, and
-- the text under which a state is stored.
pub mod Laws
mod Tests
use quotamiser.Prelude.{
  ℕ, String, ◌≡◌, Bool, true, false, ◌&&◌, ◌||◌, Option, List, [], ◌∷◌, arith, ◌==◌, str_eq, find?,
}

pub data State : Type 0 where
  reserved dispatching dispatched_with_id dispatched_id_unknown : State
  settled consumed_unrecoverable released_unsent rejected_before_processing : State

-- The derived `==`: two states are equal when their discriminants are.
abbrev pub discriminant : State → ℕ
discriminant State.reserved = 0
discriminant State.dispatching = 1
discriminant State.dispatched_with_id = 2
discriminant State.dispatched_id_unknown = 3
discriminant State.settled = 4
discriminant State.consumed_unrecoverable = 5
discriminant State.released_unsent = 6
discriminant State.rejected_before_processing = 7

abbrev pub state_eq : State → State → Bool
state_eq a b = discriminant a == discriminant b

-- `State::ALL`.
abbrev pub all_states : List State
all_states =
    State.reserved ∷ State.dispatching ∷ State.dispatched_with_id ∷ State.dispatched_id_unknown
    ∷ State.settled ∷ State.consumed_unrecoverable ∷ State.released_unsent
    ∷ State.rejected_before_processing ∷ []

unfoldable pub as_str : State → String
as_str State.reserved = "RESERVED"
as_str State.dispatching = "DISPATCHING"
as_str State.dispatched_with_id = "DISPATCHED_WITH_ID"
as_str State.dispatched_id_unknown = "DISPATCHED_ID_UNKNOWN"
as_str State.settled = "SETTLED"
as_str State.consumed_unrecoverable = "CONSUMED_UNRECOVERABLE"
as_str State.released_unsent = "RELEASED_UNSENT"
as_str State.rejected_before_processing = "REJECTED_BEFORE_PROCESSING"

unfoldable pub parse : String → Option State
unfolding as_str
parse s = find? (λ state. str_eq (as_str state) s) all_states

-- The row carries its liability in `pool_epoch.reserved`.
abbrev pub is_active : State → Bool
is_active State.reserved = true
is_active State.dispatching = true
is_active State.dispatched_with_id = true
is_active State.dispatched_id_unknown = true
is_active State.settled = false
is_active State.consumed_unrecoverable = false
is_active State.released_unsent = false
is_active State.rejected_before_processing = false

abbrev pub possibly_sent : State → Bool
possibly_sent State.dispatching = true
possibly_sent State.dispatched_with_id = true
possibly_sent State.dispatched_id_unknown = true
possibly_sent _ = false

pub data Transition : Type 0 where
  begin_dispatch attach_response_id mark_id_unknown settle : Transition
  unrecoverable release_unsent reject_before_processing : Transition

abbrev pub target : Transition → State
target Transition.begin_dispatch = State.dispatching
target Transition.attach_response_id = State.dispatched_with_id
target Transition.mark_id_unknown = State.dispatched_id_unknown
target Transition.settle = State.settled
target Transition.unrecoverable = State.consumed_unrecoverable
target Transition.release_unsent = State.released_unsent
target Transition.reject_before_processing = State.rejected_before_processing

abbrev pub allowed_from : Transition → State → Bool
allowed_from Transition.begin_dispatch from = state_eq from State.reserved
allowed_from Transition.attach_response_id from = state_eq from State.dispatching
allowed_from Transition.mark_id_unknown from = state_eq from State.dispatching
allowed_from Transition.settle from =
    state_eq from State.dispatching || state_eq from State.dispatched_with_id
allowed_from Transition.unrecoverable from = possibly_sent from
allowed_from Transition.release_unsent from = state_eq from State.reserved
allowed_from Transition.reject_before_processing from = state_eq from State.dispatching
