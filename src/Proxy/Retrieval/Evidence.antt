-- ===== src/Proxy/Retrieval/Evidence.antt =====
-- What a sweep of crates/proxy/src/retrieval.rs does, it does on evidence.
use quotamiser.Prelude.{
  ℕ, ◌<>◌, ◌==◌, ◌≤◌, String, ◌≡◌, refl, Option, none, some, Bool, true, not, ◌&&◌, leb, str_eq,
  inl, inr, Bool-cases, Result, ok, err, arith, and_then, keep_if, eq_iff, subst,
}
use quotamiser.Prelude.Int.{ℤ}
use quotamiser.Ledger.State.{State}
use quotamiser.Ledger.History.{Call, after, settling, writing_off}
use quotamiser.Ledger.Store.{Ledger, Operation}
use quotamiser.Ledger.Transitions.{settle, write_off}
use quotamiser.Protocol.Json.{Value}
use quotamiser.Protocol.Request.Refusals.{decimal}
use quotamiser.Protocol.Responses.{ResponseSummary, from_object, is_terminal}
use quotamiser.Protocol.Sse.{Bytes}
use quotamiser.Proxy.Dispatch.Relay.{completed_response}
use quotamiser.Proxy.LedgerHandle.{
  LedgerHandle, LedgerAccessError, with_ledger, Follows, Follows-trans, with_ledger-Follows,
}
use quotamiser.Proxy.Retrieval.{
  RetrievalPolicy, no_response_id, not_found_upstream, Outcome, settled, still_running, written_off,
  retry_later, RetrievalWorker, Retrieved, Attempt, Answered, and_with, ending, retry, schedule,
  after_summary, summary_in, after_body, after_response, handle, remove,
}

-- Where an answer leaves the ledger, and what it says if it is no error.
abbrev pub Turns : {A : Type 0} → LedgerHandle → (A → Type 0) → Answered A → Type 0
Turns start P (ok a, w) = Follows start w.handle × P a
Turns start P (err error, w) = Follows start w.handle

pub Turns-Follows :
    {A : Type 0} (start : LedgerHandle) (P : A → Type 0) (answer : Answered A)
    → Turns start P answer
    → Follows start answer.1.handle
Turns-Follows start P (ok a, w) t = t.0
Turns-Follows start P (err error, w) t = t

ok_inj : {A : Type 0} {a b : A} → ◌≡◌ {A = Result LedgerAccessError A} (ok a) (ok b) → a ≡ b
ok_inj h = cc

pub Turns-ok :
    {A : Type 0} (start : LedgerHandle) (P : A → Type 0) (answer : Answered A) {a : A}
    → Turns start P answer
    → answer.0 ≡ ok a
    → P a
Turns-ok start P (ok a, w) t h = subst P (ok_inj h) t.1
Turns-ok start P (err error, w) t h = cc

pub and_with-Turns :
    {A B : Type 0} (start : LedgerHandle) (P : A → Type 0) (Q : B → Type 0) (first : Answered A)
    (next : A → RetrievalWorker → Answered B)
    → Turns start P first
    → ((a : A) (w : RetrievalWorker) → Follows start w.handle → P a → Turns start Q (next a w))
    → Turns start Q (and_with first next)
and_with-Turns start P Q (ok a, w) next t rest = rest a w t.0 t.1
and_with-Turns start P Q (err error, w) next t rest = t

keep_if-some :
    {A : Type 0} (p : A → Bool) (o : Option A) (a : A)
    → keep_if p o ≡ some a
    → (o ≡ some a) × (p a ≡ true)
keep_if-some p none a h = cc
keep_if-some p (some b) a h = (ground arith, ground arith)

module _ (policy : RetrievalPolicy) (from_slice : Bytes → Option Value) where
  -- What has to be the case for an outcome: the state and the response id of the dispatch, what its
  -- retrieval met, and its age.
  abbrev pub IsWarranted : State → Option String → Result String Retrieved → ℕ → Outcome → Type 0
  IsWarranted state response_id response age (settled settlement) =
      (id : String) × (response_id ≡ some id)
      × (r : Retrieved) × (response ≡ ok r)
      × (body : Bytes) × (r.body ≡ ok body)
      × (summary : ResponseSummary) × ((r.status ≡ 200)
          × (and_then (from_slice body) from_object ≡ some summary)
          × (summary.id ≡ id)
          × (is_terminal summary ≡ true))
  IsWarranted state response_id response age (written_off no_response_id) =
      (state ≡ State.dispatched_id_unknown) × (policy.write_off_unknown_after ≤ age)
  IsWarranted state response_id response age (written_off not_found_upstream) =
      (state ≡ State.dispatched_with_id)
      × (r : Retrieved) × ((response ≡ ok r)
          × (r.status ≡ 404)
          × (policy.trust_not_found_after ≤ age))
  IsWarranted state response_id response age outcome = Unit {0}

  pub ending-Turns :
      {A : Type 0} (start : LedgerHandle) (P : Outcome → Type 0) (id : ℕ) (operation : Operation A)
      (outcome : A → Outcome) (call : Call) (w : RetrievalWorker)
      → ((l : Ledger) → (operation l).1 ≡ after call l)
      → Follows start w.handle
      → ((a : A) → P (outcome a))
      → Turns start P (ending policy id operation outcome w)
  ending-Turns start P id operation outcome call w same f means =
      let (answer, handle) = with_ledger operation w.handle in
      answered-Turns answer handle
        (Follows-trans start w.handle handle f (with_ledger-Follows operation call w.handle same))
    where
      answered-Turns :
          (answer : Result LedgerAccessError _) (handle : LedgerHandle)
          → Follows start handle
          → Turns start P (
              and_with
                (answer, record w { handle = handle })
                λ a w. (ok (outcome a), record w { backoff = remove id w.backoff }))
      answered-Turns (ok a) handle f = (f, means a)
      answered-Turns (err error) handle f = f

  retry-Turns :
      (start : LedgerHandle) (P : Outcome → Type 0) (id now : ℕ) (why : String)
      (w : RetrievalWorker)
      → Follows start w.handle
      → P (retry_later why)
      → Turns start P (retry policy id now why w)
  unfolding schedule
  retry-Turns start P id now why w f p = (f, p)

  summary_in-some :
      (id : String) (body : Bytes) {summary : ResponseSummary}
      → summary_in policy from_slice id body ≡ some summary
      → (and_then (from_slice body) from_object ≡ some summary) × (summary.id ≡ id)
  summary_in-some id body {summary} h =
      let (read, same) =
        keep_if-some (λ s. str_eq s.id id) (and_then (from_slice body) from_object) summary h in
      (read, (eq_iff summary.id id).0 same)

  after_summary-Turns :
      (start : LedgerHandle) (P : Outcome → Type 0) (id : ℕ) (attempt : Attempt) (now_unix : ℤ)
      (found : Option ResponseSummary) (w : RetrievalWorker)
      → Follows start w.handle
      → ((settlement : _) (summary : ResponseSummary)
          → found ≡ some summary
          → is_terminal summary ≡ true
          → P (settled settlement))
      → ((why : String) → P (retry_later why))
      → P still_running
      → Turns start P (after_summary policy id attempt now_unix found w)
  unfolding after schedule
  after_summary-Turns start P id attempt now_unix none w f s r p = (f, r _)
  after_summary-Turns start P id attempt now_unix (some summary) w f s r p =
      elim (Bool-cases (is_terminal summary)) [
        | inl ended ↦ rw ended (
            ending-Turns start P id
              (settle id (completed_response summary) policy.accounting_rev now_unix) settled
              (settling id (completed_response summary) policy.accounting_rev now_unix) w
              (λ l. refl) f (λ settlement. s settlement summary refl ended))
        | inr runs ↦ rw runs (f, p)
      ]

  -- What a retrieval of the response `id` warrants.
  abbrev Found : String → Result String Retrieved → ℕ → Outcome → Type 0
  Found id = IsWarranted State.dispatched_with_id (some id)

  after_body-Turns :
      (start : LedgerHandle) (id : ℕ) (response_id : String) (attempt : Attempt) (age : ℕ)
      (now_unix : ℤ) (r : Retrieved) (body : Result String Bytes) (w : RetrievalWorker)
      → Follows start w.handle
      → r.status ≡ 200
      → r.body ≡ body
      → Turns start
          (Found response_id (ok r) age)
          (after_body policy from_slice id response_id attempt now_unix body w)
  after_body-Turns start id response_id attempt age now_unix r (err error) w f good same =
      retry-Turns start (Found response_id (ok r) age) id attempt.scheduled_at error w f tt
  after_body-Turns start id response_id attempt age now_unix r (ok body) w f good same =
      after_summary-Turns start (Found response_id (ok r) age) id attempt now_unix
        (summary_in policy from_slice response_id body) w f
        (λ settlement summary found ended.
          let (read, is) = summary_in-some response_id body found in
          (response_id, refl, r, refl, body, same, summary, (good, read, is, ended)))
        (λ why. tt) tt

  pub after_response-Turns :
      (start : LedgerHandle) (id : ℕ) (response_id : String) (attempt : Attempt) (age : ℕ)
      (now_unix : ℤ) (response : Result String Retrieved) (w : RetrievalWorker)
      → Follows start w.handle
      → Turns start
          (Found response_id response age)
          (after_response policy from_slice id response_id attempt age now_unix response w)
  unfolding after
  after_response-Turns start id response_id attempt age now_unix (err error) w f =
      retry-Turns start (Found response_id (err error) age) id attempt.scheduled_at error w f tt
  after_response-Turns start id response_id attempt age now_unix (ok r) w f =
      elim (Bool-cases (r.status == 404 && leb policy.trust_not_found_after age)) [
        | inl gone ↦ rw gone (
            ending-Turns start (Found response_id (ok r) age) id (write_off id)
              (λ _. written_off not_found_upstream) (writing_off id) w (λ l. refl) f
              (λ _. (refl, r, (refl, ground arith, ground arith))))
        | inr other ↦ elim (Bool-cases (not (r.status == 200))) [
          | inl bad ↦ rw other (
              rw bad (
                retry-Turns start (Found response_id (ok r) age) id attempt.scheduled_at
                  ("upstream returned " <> decimal r.status) w f tt))
          | inr good ↦ rw other (
              rw good (
                after_body-Turns start id response_id attempt age now_unix r r.body w f
                  (ground arith) refl))
        ]
      ]
