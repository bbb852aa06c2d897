-- ===== src/Proxy/Dispatch/Course.antt =====
-- The course that a dispatch of crates/proxy/src/dispatch.rs takes with its reservation: which of
-- the ledger's calls it may make next, by what came of those before.

pub mod Notes
pub mod Loop
pub mod Dispatch
use quotamiser.Prelude.{String, ℕ, ◌≡◌, refl, subst, sym, Option, none, some, Result, ok, err}
use quotamiser.Prelude.Int.{ℤ}
use quotamiser.Ledger.Transitions.{
  WriteOutcome, attach_response_id, settle, begin_dispatch, release_unsent, release_rejected,
  mark_id_unknown, write_off,
}
use quotamiser.Ledger.Transitions.Usage.{Settlement, CompletedResponse}
use quotamiser.Proxy.LedgerHandle.{LedgerHandle, LedgerAccessError, with_ledger}
use quotamiser.Proxy.Dispatch.{
  Disposition, settled, awaiting_retrieval, held_as_unknown, written_off, released_unsent,
  released_rejected, ledger_failed, World, disposed, finishing,
}

-- Where a reservation is, as its supervisor knows it: with no request sent, with a dispatch that
-- could not be made durable, with a request whose answer may come and the response id that is
-- attached, settled, or left for good.
pub data Phase : Type 0 where
  reserved unbegun : Phase
  in_flight : Option String → Phase
  settled_up : Settlement → Phase
  over : Disposition → Phase

-- The calls that a supervisor may make, in the order in which it may make them. Other tasks take
-- their turns within each, as `with_ledger` lets them.
pub data Course (r : ℕ) (written_as : WriteOutcome) (start : LedgerHandle)
    : Phase → LedgerHandle → Type 0 where
  begin : Course r written_as start reserved start
  held_back :
      {h : LedgerHandle}
      → Course r written_as start reserved h
      → Course r written_as start
          (over (disposed released_unsent (with_ledger (release_unsent r) h).0))
          (with_ledger (release_unsent r) h).1
  begun :
      {h : LedgerHandle}
      → Course r written_as start reserved h
      → (with_ledger (begin_dispatch r written_as) h).0 ≡ ok tt
      → Course r written_as start (in_flight none) (with_ledger (begin_dispatch r written_as) h).1
  not_begun :
      {h : LedgerHandle} {error : LedgerAccessError}
      → Course r written_as start reserved h
      → (with_ledger (begin_dispatch r written_as) h).0 ≡ err error
      → Course r written_as start unbegun (with_ledger (begin_dispatch r written_as) h).1
  given_up :
      {h : LedgerHandle}
      → Course r written_as start unbegun h
      → Course r written_as start
          (over (disposed released_unsent (with_ledger (release_unsent r) h).0))
          (with_ledger (release_unsent r) h).1
  rejected :
      {h : LedgerHandle}
      → Course r written_as start (in_flight none) h
      → Course r written_as start
          (over (disposed released_rejected (with_ledger (release_rejected r) h).0))
          (with_ledger (release_rejected r) h).1
  lost :
      {h : LedgerHandle}
      → Course r written_as start (in_flight none) h
      → Course r written_as start
          (over (disposed held_as_unknown (with_ledger (mark_id_unknown r) h).0))
          (with_ledger (mark_id_unknown r) h).1
  wrote_off :
      {h : LedgerHandle} {attached_id : Option String}
      → Course r written_as start (in_flight attached_id) h
      → Course r written_as start
          (over (disposed written_off (with_ledger (write_off r) h).0))
          (with_ledger (write_off r) h).1
  attached :
      {h : LedgerHandle} {before : Option String}
      → (id : String) → Course r written_as start (in_flight before) h
      → (with_ledger (attach_response_id r id) h).0 ≡ ok tt
      → Course r written_as start (in_flight (some id)) (with_ledger (attach_response_id r id) h).1
  not_attached :
      {h : LedgerHandle} {before : Option String} {error : LedgerAccessError}
      → (id : String) → Course r written_as start (in_flight before) h
      → (with_ledger (attach_response_id r id) h).0 ≡ err error
      → Course r written_as start
          (over (ledger_failed error))
          (with_ledger (attach_response_id r id) h).1
  attached_late :
      {h : LedgerHandle} {settlement : Settlement}
      → (id : String) → Course r written_as start (settled_up settlement) h
      → (with_ledger (attach_response_id r id) h).0 ≡ ok tt
      → Course r written_as start
          (settled_up settlement)
          (with_ledger (attach_response_id r id) h).1
  not_attached_late :
      {h : LedgerHandle} {settlement : Settlement} {error : LedgerAccessError}
      → (id : String) → Course r written_as start (settled_up settlement) h
      → (with_ledger (attach_response_id r id) h).0 ≡ err error
      → Course r written_as start
          (over (ledger_failed error))
          (with_ledger (attach_response_id r id) h).1
  settles :
      {h : LedgerHandle} {before : Option String} {settlement : Settlement}
      → (response : CompletedResponse) (rev now : ℤ)
      → Course r written_as start (in_flight before) h
      → (with_ledger (settle r response rev now) h).0 ≡ ok settlement
      → Course r written_as start
          (settled_up settlement)
          (with_ledger (settle r response rev now) h).1
  not_settled :
      {h : LedgerHandle} {before : Option String} {error : LedgerAccessError}
      → (response : CompletedResponse) (rev now : ℤ)
      → Course r written_as start (in_flight before) h
      → (with_ledger (settle r response rev now) h).0 ≡ err error
      → Course r written_as start
          (over (ledger_failed error))
          (with_ledger (settle r response rev now) h).1

-- Where a supervisor leaves the reservation.
abbrev pub left_in : Disposition → Phase
left_in (settled settlement) = settled_up settlement
left_in (awaiting_retrieval id) = in_flight (some id)
left_in disposition = over disposition

abbrev pub IsUnderWay : Phase → Type 0
IsUnderWay (in_flight id) = Unit {0}
IsUnderWay (settled_up settlement) = Unit {0}
IsUnderWay _ = ⊥

-- A disposition is where the course has ended; without one it is still under way.
abbrev pub Runs : ℕ → WriteOutcome → LedgerHandle → Option Disposition × World → Type 0
Runs r written_as start (some disposition, w) =
    Course r written_as start (left_in disposition) w.handle
Runs r written_as start (none, w) =
    (phase : Phase) × IsUnderWay phase × Course r written_as start phase w.handle

-- A call whose success is the disposition leaves the reservation for good.
pub left_in-disposed :
    {A : Type 0} (disposition : Disposition)
    → left_in disposition ≡ over disposition
    → (outcome : Result LedgerAccessError A)
    → over (disposed disposition outcome) ≡ left_in (disposed disposition outcome)
left_in-disposed disposition h (ok a) = sym h
left_in-disposed disposition h (err error) = refl
