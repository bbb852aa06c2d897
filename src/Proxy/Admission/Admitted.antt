-- ===== src/Proxy/Admission/Admitted.antt =====
-- From the request to the permit, in crates/proxy/src/admission.rs: an admission is backed by what
-- came before it, and by the ledger's own reservation.
use quotamiser.Prelude.{
  ℕ, ◌+◌, ◌≤◌, String, ◌≡◌, refl, subst, some, List, Result, ok, err, ok_or, ◌>>=◌, arith,
  >>=-eq-ok, ok_or-eq-ok,
}
use quotamiser.Prelude.Int.{ℤ}
use quotamiser.Admission.Epoch.{Window}
use quotamiser.Admission.Liability.{
  EstimateError, Liability, known, needs_exact_input, output_bound, with_exact_input, add_u64,
}
use quotamiser.Ledger.Reserve.{reserve, reserved}
use quotamiser.Ledger.Reserve
use quotamiser.Ledger.Reserve.Books.{reserve_within_grant}
use quotamiser.Ledger.Core.Pools.{reserved_of, consumed_of, granted_of}
use quotamiser.Ledger.History.{Call, reserving, after, history}
use quotamiser.Protocol.Request.{CreateRequest}
use quotamiser.Protocol.Request.Bodies
use quotamiser.Proxy.Dispatch.{DispatchPermit}
use quotamiser.Proxy.LedgerHandle.{
  LedgerHandle, LedgerAccessError, with_ledger, with_ledger-ok, with_ledger-Follows, Follows,
  Follows-refl,
}
use quotamiser.Proxy.Admission.{
  CatalogEntry, AdmissionPolicy, Surroundings, Refused, Prepared, admitted, find_entry,
  check_window, is_background, estimate_for, estimated, shape_of, complete, count_bodies, prepare,
  reservation_for, permit_for, decide, ask, admit,
}
use quotamiser.Proxy.Admission.Laws.{Covers, estimate_for-Covers, estimated-eq-ok}

-- The bound of the output is covered by the liability, and decides whether to run in the background.
pub record IsPrepared (policy : AdmissionPolicy) (catalog : List (String × CatalogEntry))
    (request : CreateRequest) (window : Window) (p : Prepared) : Type 0 where
  pub is_open : window ≡ Window.opened
  pub is_known : find_entry catalog request.model ≡ some p.entry
  pub bound : ℕ
  pub bounds : output_bound p.entry.spec request.max_output_tokens ≡ ok bound
  pub covers : bound ≤ p.liability
  pub runs : p.background ≡ is_background policy request.max_output_tokens bound

complete-Covers :
    (env : Surroundings) (request : CreateRequest) (bound : ℕ) (l : Liability) {n : ℕ}
    → Covers bound (ok l)
    → complete env request l ≡ ok n
    → bound ≤ n
unfolding complete with_exact_input
complete-Covers env request bound (known liability) covers h = ground arith
complete-Covers env request bound (needs_exact_input b) covers h =
    let (counted, sum, last) =
      >>=-eq-ok (count_bodies env 0 (Bodies.input_count_bodies request) 0) _ h in
    let fits = ok_or-eq-ok (add_u64 counted b) EstimateError.overflow (estimated-eq-ok _ last) in
    ground (arith, fits, covers)

ok_inj : {a b : Prepared} → ◌≡◌ {A = Result Refused Prepared} (ok a) (ok b) → a ≡ b
ok_inj h = cc

check_window-ok :
    (window : Window) {u : Unit {0}} → check_window window ≡ ok u → window ≡ Window.opened
check_window-ok Window.opened h = refl
check_window-ok (Window.closed reason) h = cc
check_window-ok (Window.rollover_due epoch) h = cc

pub prepare-IsPrepared :
    (env : Surroundings) (policy : AdmissionPolicy) (catalog : List (String × CatalogEntry))
    (request : CreateRequest) (window : Window) (p : Prepared)
    → prepare env policy catalog request window ≡ ok p
    → IsPrepared policy catalog request window p
unfolding prepare
prepare-IsPrepared env policy catalog request window p h =
    let (entry, found, h1) = >>=-eq-ok (ok_or (find_entry catalog request.model) _) _ h in
    let (u, checked, h2) = >>=-eq-ok (check_window window) _ h1 in
    let (bound, bounded, h3) =
      >>=-eq-ok (estimated (output_bound entry.spec request.max_output_tokens)) _ h2 in
    let background = is_background policy request.max_output_tokens bound in
    let estimate =
      estimate_for policy background entry.spec (shape_of (Bodies.flat_text request))
        request.max_output_tokens in
    let (n, both, last) = >>=-eq-ok (estimated estimate >>= complete env request) _ h3 in
    let (l, reckoned, completed) = >>=-eq-ok (estimated estimate) (complete env request) both in
    let bounds = estimated-eq-ok (output_bound entry.spec request.max_output_tokens) bounded in
    let covers =
      estimate_for-Covers policy background entry.spec (shape_of (Bodies.flat_text request))
        request.max_output_tokens bound bounds in
    let least =
      complete-Covers env request bound l
        (subst (Covers bound) (estimated-eq-ok estimate reckoned) covers) completed in
    subst (IsPrepared policy catalog request window) (ok_inj last) (record {
      is_open = check_window-ok window checked;
      is_known = ok_or-eq-ok (find_entry catalog request.model) _ found;
      bound = bound;
      bounds = bounds;
      covers = least;
      runs = refl;
    })

decide-admitted :
    (permit : ℕ → DispatchPermit) (answer : Result LedgerAccessError Reserve.Admission)
    {got : DispatchPermit}
    → decide permit answer ≡ admitted got
    → (id : ℕ) × (answer ≡ ok (reserved id)) × (got ≡ permit id)
decide-admitted permit (ok (reserved id)) h = (id, refl, ground arith)
decide-admitted permit (ok (Reserve.refused refusal)) h = cc
decide-admitted permit (err error) h = cc

ask-admitted :
    (env : Surroundings) (policy : AdmissionPolicy) (request : CreateRequest) (now : ℤ)
    (prepared : Result Refused Prepared) (h : LedgerHandle) {permit : DispatchPermit}
    → (ask env policy request now prepared h).0 ≡ admitted permit
    → (p : Prepared) × (prepared ≡ ok p)
      × (id : ℕ) × (permit ≡ permit_for env policy request p id)
      × (calls : List Call) × (reserve
            (reservation_for env policy request p)
            now
            (history calls h.ledger)
          ≡ (ok (reserved id), (ask env policy request now prepared h).1.ledger))
ask-admitted env policy request now (err why) h e = cc
ask-admitted env policy request now (ok p) h e =
    let operation = reserve (reservation_for env policy request p) now in
    let (id, answered, is) =
      decide-admitted (permit_for env policy request p) (with_ledger operation h).0 e in
    let (calls, did) = with_ledger-ok operation h answered in (p, refl, id, is, calls, did)

-- What stands behind a permit: what was prepared, and the ledger's reservation of it on the ledger
-- that the other tasks left, which keeps the pool within its grant.
abbrev pub IsBacked :
    Surroundings
    → AdmissionPolicy
    → List (String × CatalogEntry)
    → CreateRequest
    → ℤ
    → Window
    → LedgerHandle
    → LedgerHandle
    → DispatchPermit
    → Type 0
IsBacked env policy catalog request now window h h' permit =
    (p : Prepared) × IsPrepared policy catalog request window p
    × (id : ℕ) × (permit ≡ permit_for env policy request p id)
    × (calls : List Call) × (let l = history calls h.ledger in
        let pools = h'.ledger.db.pools in
        let pool = p.entry.pool_id in
        let e = l.db.meta.current_epoch in
        (reserve (reservation_for env policy request p) now l ≡ (ok (reserved id), h'.ledger))
        × (consumed_of pools pool e + reserved_of pools pool e ≤ granted_of pools pool e)
        × (reserved_of pools pool e ≡ reserved_of l.db.pools pool e + p.liability))

-- A request that is admitted stood in the catalog, the window was open, the bound of the output is
-- covered by the liability, and the permit is for the reservation that the ledger made of exactly
-- that liability, after what the other tasks did, in the pool of the entry, which stays within its
-- grant.
pub admit-IsBacked :
    (env : Surroundings) (policy : AdmissionPolicy) (catalog : List (String × CatalogEntry))
    (request : CreateRequest) (now : ℤ) (window : Window) (h : LedgerHandle)
    {permit : DispatchPermit}
    → (admit env policy catalog request now window h).0 ≡ admitted permit
    → IsBacked env policy catalog request now window h
        (admit env policy catalog request now window h).1
        permit
unfolding admit
admit-IsBacked env policy catalog request now window h admits =
    let prepared = prepare env policy catalog request window in
    let (p, was, id, is, calls, did) = ask-admitted env policy request now prepared h admits in
    let (within, risen, _) =
      reserve_within_grant (reservation_for env policy request p) now (history calls h.ledger) _
        did in
    (
      p,
      prepare-IsPrepared env policy catalog request window p was,
      id,
      is,
      calls,
      (did, within, risen),
    )

ask-Follows :
    (env : Surroundings) (policy : AdmissionPolicy) (request : CreateRequest) (now : ℤ)
    (prepared : Result Refused Prepared) (h : LedgerHandle)
    → Follows h (ask env policy request now prepared h).1
unfolding after
ask-Follows env policy request now (err why) h = Follows-refl h
ask-Follows env policy request now (ok p) h =
    let order = reservation_for env policy request p in
    with_ledger-Follows (reserve order now) (reserving order now) h λ l. refl

-- An admission, whatever it decides, takes the ledger through its calls only.
pub admit-Follows :
    (env : Surroundings) (policy : AdmissionPolicy) (catalog : List (String × CatalogEntry))
    (request : CreateRequest) (now : ℤ) (window : Window) (h : LedgerHandle)
    → Follows h (admit env policy catalog request now window h).1
unfolding admit
admit-Follows env policy catalog request now window h =
    ask-Follows env policy request now (prepare env policy catalog request window) h
