-- ===== src/Ledger/History.antt =====
-- The ledger as its owner drives it: every operation of crates/ledger/src, in any order.
pub mod Calls
pub mod Frames
pub mod Books
pub mod Consumption
pub mod Numbers
pub mod Marks
use quotamiser.Prelude.{ℕ, String, Option, List, [], ◌∷◌}
use quotamiser.Prelude.Int.{ℤ}
use quotamiser.Ledger.Store.{Ledger}
use quotamiser.Ledger.Transitions.{
  WriteOutcome, begin_dispatch, attach_response_id, mark_id_unknown, settle, write_off,
  release_unsent, release_rejected,
}
use quotamiser.Ledger.Transitions.Usage.{CompletedResponse}
use quotamiser.Ledger.Reserve.{
  ReservationRequest, reserve, revalidate_safety_input, invalidate_safety_input, set_latch,
  clear_latches,
}
use quotamiser.Ledger.Restart.{mark_clean_shutdown, open_ledger}
use quotamiser.Ledger.Rollover.{rollover, adopt_recovered_consumption}
use quotamiser.Ledger.Requests.{RequestWindow, take_request_slot}

-- A call, with its arguments and, where it writes the external record, how that write ends.
pub data Call : Type 0 where
  reserving : ReservationRequest → ℤ → Call
  beginning_dispatch : ℕ → WriteOutcome → Call
  attaching : ℕ → String → Call
  marking_unknown : ℕ → Call
  settling : ℕ → CompletedResponse → ℤ → ℤ → Call
  writing_off : ℕ → Call
  releasing_unsent : ℕ → Call
  releasing_rejected : ℕ → Call
  rolling_over : ℕ → List (String × ℕ) → Call
  adopting : List (String × ℕ × ℕ) → WriteOutcome → Call
  taking_slot : String → ℕ → ℕ → RequestWindow → ℤ → Call
  revalidating : String → ℤ → ℤ → ℕ → Call
  invalidating : String → Call
  setting_latch : String → String → Option String → ℤ → Call
  clearing_latches : String → String → ℤ → Call
  shutting_down : Call
  -- the process ends, cleanly or not, and the ledger is opened again
  reopening : Call

-- The ledger after a call, whether the call succeeded or not.
unfoldable pub after : Call → Ledger → Ledger
after (reserving request now) l = (reserve request now l).1
after (beginning_dispatch id written_as) l = (begin_dispatch id written_as l).1
after (attaching id response_id) l = (attach_response_id id response_id l).1
after (marking_unknown id) l = (mark_id_unknown id l).1
after (settling id response accounting_rev now) l = (settle id response accounting_rev now l).1
after (writing_off id) l = (write_off id l).1
after (releasing_unsent id) l = (release_unsent id l).1
after (releasing_rejected id) l = (release_rejected id l).1
after (rolling_over new_epoch grants) l = (rollover new_epoch grants l).1
after (adopting adoptions written_as) l = (adopt_recovered_consumption adoptions written_as l).1
after (taking_slot provider epoch limit window now) l =
    (take_request_slot provider epoch limit window now l).1
after (revalidating key now ttl_seconds budget) l =
    (revalidate_safety_input key now ttl_seconds budget l).1
after (invalidating key) l = (invalidate_safety_input key l).1
after (setting_latch scope reason evidence now) l = (set_latch scope reason evidence now l).1
after (clearing_latches scope cleared_by now) l = (clear_latches scope cleared_by now l).1
after shutting_down l = (mark_clean_shutdown l).1
after reopening l = (open_ledger l.db l.hwm).1

-- The ledger after a sequence of calls.
unfoldable pub history : List Call → Ledger → Ledger
history [] l = l
history (c ∷ calls) l = history calls (after c l)
