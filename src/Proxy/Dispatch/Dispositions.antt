-- ===== src/Proxy/Dispatch/Dispositions.antt =====
-- The disposition that crates/proxy/src/dispatch.rs reports is what the ledger did.
use quotamiser.Prelude.{
  ℕ, String, ◌≡◌, refl, ◌∙◌, ◌++◌, sym, ap, subst, Option, none, some, List, [], Result, ok, err,
}
use quotamiser.Prelude.Int.{ℤ}
use quotamiser.Ledger.Store.{Ledger, Operation}
use quotamiser.Ledger.Transitions.{
  attach_response_id, settle, release_unsent, release_rejected, mark_id_unknown, write_off,
}
use quotamiser.Ledger.History.{Call, history}
use quotamiser.Ledger.Transitions.Usage.{Settlement, CompletedResponse}
use quotamiser.Proxy.LedgerHandle.{
  LedgerHandle, LedgerAccessError, with_ledger, with_ledger-ok, Follows, Follows-trans,
  history-append,
}
use quotamiser.Proxy.Dispatch.{
  Disposition, settled, awaiting_retrieval, held_as_unknown, written_off, released_unsent,
  released_rejected, ledger_failed, World, disposed, finishing, hold_as_unknown,
}
use quotamiser.Proxy.Dispatch.Relay.{
  Relay, and_go_on, and_loop, Turnout, goes_on, ends, after_attach, after_settle,
}

-- The operation succeeded on a ledger that `start` came to, and what it left came to `h`.
abbrev pub Succeeded : {A : Type 0} → LedgerHandle → LedgerHandle → Operation A → A → Type 0
Succeeded start h operation a =
    (calls : List Call) × (l : Ledger) × (later : List Call) × (operation
        (history calls start.ledger)
      ≡ (ok a, l))
    × (h.ledger ≡ history later l)

abbrev pub IsSettledAs : LedgerHandle → LedgerHandle → ℕ → Settlement → Type 0
IsSettledAs start h reservation settlement =
    (response : CompletedResponse) × (rev : ℤ) × (now : ℤ) × Succeeded start h
      (settle reservation response rev now) settlement

-- What a disposition says of the reservation.
abbrev pub Holds : LedgerHandle → ℕ → LedgerHandle → Disposition → Type 0
Holds start r h (settled settlement) = IsSettledAs start h r settlement
Holds start r h (awaiting_retrieval id) = Succeeded start h (attach_response_id r id) tt
Holds start r h held_as_unknown = Succeeded start h (mark_id_unknown r) tt
Holds start r h written_off = Succeeded start h (write_off r) tt
Holds start r h released_unsent = Succeeded start h (release_unsent r) tt
Holds start r h released_rejected = Succeeded start h (release_rejected r) tt
Holds start r h (ledger_failed error) = Unit {0}

abbrev pub IfSome : {A : Type 0} → (A → Type 0) → Option A → Type 0
IfSome P none = Unit {0}
IfSome P (some a) = P a

Succeeded-later :
    {A : Type 0} (operation : Operation A) (a : A) (start h h' : LedgerHandle)
    → Follows h h'
    → Succeeded start h operation a
    → Succeeded start h' operation a
Succeeded-later operation a start h h' (more, e) (calls, l, later, done, comes) =
    (calls, l, later ++ more, done, e ∙ ap (history more) comes ∙ sym (history-append later more l))

pub succeeded :
    {A : Type 0} (operation : Operation A) (start h : LedgerHandle) {a : A}
    → Follows start h
    → (with_ledger operation h).0 ≡ ok a
    → Succeeded start (with_ledger operation h).1 operation a
unfolding history
succeeded operation start h {a} (before, was) e =
    let (calls, done) = with_ledger-ok operation h e in
    let l = (with_ledger operation h).1.ledger in
    let found : history calls h.ledger ≡ history (before ++ calls) start.ledger =
      ap (history calls) was ∙ sym (history-append before calls start.ledger) in
    (before ++ calls, l, [], subst (λ found. operation found ≡ (ok a, l)) found done, refl)

pub disposed-Holds :
    (start h : LedgerHandle) (r : ℕ) (disposition : Disposition)
    (outcome : Result LedgerAccessError (Unit {0}))
    → (outcome ≡ ok tt → Holds start r h disposition)
    → Holds start r h (disposed disposition outcome)
disposed-Holds start h r disposition (ok u) backed = backed refl
disposed-Holds start h r disposition (err error) backed = tt

module _ (start : LedgerHandle) (r : ℕ) where
  -- What is reported with a world, if anything is.
  abbrev pub Reports : Option Disposition × World → Type 0
  Reports (reported, w) = IfSome (Holds start r w.handle) reported

  abbrev pub HasEnded : LedgerHandle → Option Settlement → Type 0
  HasEnded h ended = IfSome (λ settlement. IsSettledAs start h r settlement) ended

  abbrev pub HasId : LedgerHandle → Option String → Type 0
  HasId h id = IfSome (λ id. Succeeded start h (attach_response_id r id) tt) id

  -- What the loop's variables say.
  abbrev pub Knows : Relay → World → Type 0
  Knows s w = Follows start w.handle × HasEnded w.handle s.settled × HasId w.handle s.response_id

  abbrev pub TurnsOut : Turnout → Type 0
  TurnsOut (goes_on s w) = Knows s w
  TurnsOut (ends disposition w) = Holds start r w.handle disposition

  HasEnded-later :
      (h h' : LedgerHandle) (ended : Option Settlement)
      → Follows h h'
      → HasEnded h ended
      → HasEnded h' ended
  HasEnded-later h h' none f e = tt
  HasEnded-later h h' (some settlement) f (response, rev, now, was) =
      (response, rev, now, Succeeded-later (settle r response rev now) settlement start h h' f was)

  HasId-later : (h h' : LedgerHandle) (id : Option String) → Follows h h' → HasId h id → HasId h' id
  HasId-later h h' none f e = tt
  HasId-later h h' (some id) f was = Succeeded-later (attach_response_id r id) tt start h h' f was

  pub hold-Holds :
      (w : World)
      → Follows start w.handle
      → let (disposition, w') = hold_as_unknown r w in Holds start r w'.handle disposition
  unfolding hold_as_unknown finishing
  hold-Holds w f =
      disposed-Holds start (with_ledger (mark_id_unknown r) w.handle).1 r held_as_unknown _
        (succeeded (mark_id_unknown r) start w.handle f)

  pub write_off-Holds :
      (w : World)
      → Follows start w.handle
      → let (disposition, w') = finishing (write_off r) written_off w in
        Holds start r w'.handle disposition
  unfolding finishing
  write_off-Holds w f =
      disposed-Holds start (with_ledger (write_off r) w.handle).1 r written_off _
        (succeeded (write_off r) start w.handle f)

  pub after_attach-TurnsOut :
      (id : String) (s : Relay) (w : World)
      (done : Result LedgerAccessError (Unit {0}) × LedgerHandle)
      → (done.0 ≡ ok tt → Succeeded start done.1 (attach_response_id r id) tt)
      → Follows w.handle done.1
      → Knows s w
      → TurnsOut (after_attach id s w done)
  after_attach-TurnsOut id s w (ok tt, handle) h g (f, e, _) = (
    Follows-trans start w.handle handle f g,
    HasEnded-later w.handle handle s.settled g e,
    h refl,
  )
  after_attach-TurnsOut id s w (err error, handle) h g k = tt

  pub after_settle-TurnsOut :
      (s : Relay) (w : World) (done : Result LedgerAccessError Settlement × LedgerHandle)
      → ((settlement : Settlement) → done.0 ≡ ok settlement → IsSettledAs start done.1 r settlement)
      → Follows w.handle done.1
      → Knows s w
      → TurnsOut (after_settle s w done)
  after_settle-TurnsOut s w (ok settlement, handle) h g (f, _, i) = (
    Follows-trans start w.handle handle f g,
    h settlement refl,
    HasId-later w.handle handle s.response_id g i,
  )
  after_settle-TurnsOut s w (err error, handle) h g k = tt

  pub and_go_on-TurnsOut :
      (next : Relay → World → Turnout) (first : Turnout)
      → TurnsOut first
      → ((s : Relay) (w : World) → Knows s w → TurnsOut (next s w))
      → TurnsOut (and_go_on next first)
  and_go_on-TurnsOut next (goes_on s w) k h = h s w k
  and_go_on-TurnsOut next (ends disposition w) k h = k

  pub and_loop-Reports :
      (next : Relay → World → Option Disposition × World) (first : Turnout)
      → TurnsOut first
      → ((s : Relay) (w : World) → Knows s w → Reports (next s w))
      → Reports (and_loop next first)
  and_loop-Reports next (goes_on s w) k h = h s w k
  and_loop-Reports next (ends disposition w) k h = k
