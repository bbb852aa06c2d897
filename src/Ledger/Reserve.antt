-- ===== src/Ledger/Reserve.antt =====
-- Admission in crates/ledger/src/ledger.rs: `reserve`, the safety inputs and the latches.
pub mod Keys
pub mod Effects
pub mod Ordered
pub mod Distinct
pub mod Wanted
pub mod Budgets
pub mod Vouched
pub mod Books
pub mod Latched
unfoldable pub use Keys.{sort_keys, dedup}
use quotamiser.Prelude.{
  ℕ, zero, suc, ◌+◌, ◌-◌, String, ◌<>◌, Bool, true, false, ◌&&◌, ◌||◌, not, Option, none, some,
  List, [], ◌∷◌, ◌++◌, ltb, leb, ◌==◌, str_eq, if◌then◌else◌, Result, ok, err, ◌>>=◌, ◌>>◌, ensure,
  ok_or, find?, update, select, count, is_some, is_none,
}
use quotamiser.Prelude.Int.{
  ℤ, pos, pos_part, ltb_ℤ, leb_ℤ, sub_ℕ, try_i64, checked_add_ℤ, checked_sub_ℤ,
}
use quotamiser.Ledger.State.{State}
use quotamiser.Ledger.Error.{LedgerError, Outcome, overflow, sqlite}
use quotamiser.Ledger.Trust.{TrustVerdict, trusted, unknown}
use quotamiser.Ledger.Schema.{PoolEpoch, Reservation, SafetyInput, Latch, Evidence, Db, max_id}
use quotamiser.Ledger.Core.{PoolCounters, pool_counters, adjust_pool, insert_latch}
use quotamiser.Ledger.Store.{Ledger, Operation, Transaction, transact}

pub record ReservationRequest : Type 0 where
  pub pool_id : String
  pub liability : ℕ
  pub request_digest : String
  pub model_snapshot : String
  pub service_tier : String
  pub accounting_rev : ℤ
  pub required_safety_inputs : List String

pub data Refusal : Type 0 where
  untrusted : TrustVerdict → Refusal
  latched : String → String → Refusal
  safety_input_missing safety_input_expired : String → Refusal
  safety_budget_exhausted : String → ℕ → Refusal
  pool_not_open : String → ℕ → Refusal
  insufficient_quota : ℤ → ℕ → Refusal

pub data Admission : Type 0 where
  reserved : ℕ → Admission
  refused : Refusal → Admission

-- cleared_at IS NULL AND scope IN ('global', ?1, 'model:' || ?2)
abbrev pub blocks : String → String → Latch → Bool
blocks pool_id model_snapshot latch =
    is_none latch.cleared
    && (str_eq latch.scope "global"
        || str_eq latch.scope pool_id
        || str_eq latch.scope ("model:" <> model_snapshot))

abbrev pub latch_refusal : List Latch → String → String → Option Refusal
latch_refusal latches pool_id model_snapshot =
    elim (find? (blocks pool_id model_snapshot) latches) [
      | none ↦ none
      | some latch ↦ some (latched latch.scope latch.reason)
    ]

abbrev pub has_key : String → SafetyInput → Bool
has_key key input = str_eq input.key key

-- What one safety input says: `ok none` lets the request pass.
unfoldable pub check_input : String → ℕ → ℤ → Option SafetyInput → Outcome (Option Refusal)
check_input key liability now none = ok (some (safety_input_missing key))
check_input key liability now (some input) = do
  expires ← ok_or (checked_add_ℤ input.verified_at (pos input.ttl_seconds)) overflow
  ok (
      if leb_ℤ expires now || ltb_ℤ now input.verified_at
      then some (safety_input_expired key)
      else if ltb input.budget_remaining liability
      then some (safety_budget_exhausted key input.budget_remaining)
      else none)

abbrev pub or_next : Outcome (Option Refusal) → Outcome (Option Refusal) → Outcome (Option Refusal)
or_next (err e) next = err e
or_next (ok (some r)) next = ok (some r)
or_next (ok none) next = next

-- The loop over the keys stops at the first refusal.
unfoldable pub check_inputs : List SafetyInput → ℕ → ℤ → List String → Outcome (Option Refusal)
check_inputs safety liability now [] = ok none
check_inputs safety liability now (key ∷ keys) =
    or_next (check_input key liability now (find? (has_key key) safety))
      (check_inputs safety liability now keys)

-- UPDATE safety_input SET budget_remaining = budget_remaining - ?1 WHERE key = ?2, for each key.
-- A budget that would fall below zero fails the CHECK.
abbrev pub debit_input : ℕ → SafetyInput → SafetyInput
debit_input liability input = record input { budget_remaining = input.budget_remaining - liability }

unfoldable pub debit_inputs : ℕ → List String → List SafetyInput → Outcome (List SafetyInput)
debit_inputs liability [] safety = ok safety
debit_inputs liability (key ∷ keys) safety =
    if is_some (find? (λ i. has_key key i && ltb i.budget_remaining liability) safety)
    then err sqlite
    else debit_inputs liability keys (update (has_key key) (debit_input liability) safety)

abbrev pub new_row : ReservationRequest → ℕ → ℕ → ℕ → ℤ → Reservation
new_row request id epoch liability now = record {
  id = id;
  root_id = id;
  pool_id = request.pool_id;
  epoch = epoch;
  state = State.reserved;
  liability = liability;
  settled = none;
  response_id = none;
  request_digest = request.request_digest;
  model_snapshot = request.model_snapshot;
  service_tier = request.service_tier;
  accounting_rev = request.accounting_rev;
  created_at = now;
}

-- What is left of a pool: granted - consumed - reserved, each step checked.
unfoldable pub remaining_of : PoolCounters → Outcome ℤ
remaining_of c = do
  unspent ← ok_or (checked_sub_ℤ (pos c.granted) (pos c.consumed)) overflow
  ok_or (checked_sub_ℤ unspent (pos c.reserved)) overflow

-- The debits of an admission, once every check has passed.
unfoldable pub debit : ReservationRequest → ℕ → List String → ℕ → ℤ → Transaction Admission
debit request liability keys epoch now db = do
  pools ← adjust_pool db.pools request.pool_id epoch (pos liability) (pos 0)
  safety ← debit_inputs liability keys db.safety
  let id = suc (max_id db.rows)
  ok (
    reserved id,
    record db {
      pools = pools;
      safety = safety;
      rows = db.rows ++ new_row request id epoch liability now ∷ [];
    },
  )

-- The quota test, against the counters of the current epoch.
unfoldable pub check_quota :
    ReservationRequest → ℕ → List String → ℤ → Option PoolCounters → Transaction Admission
check_quota request liability keys now none db =
    ok (refused (pool_not_open request.pool_id db.meta.current_epoch), db)
check_quota request liability keys now (some counters) db = do
  remaining ← remaining_of counters
  if ltb_ℤ remaining (pos liability)
      then ok (refused (insufficient_quota remaining liability), db)
      else debit request liability keys db.meta.current_epoch now db

abbrev pub unless_refused : Option Refusal → Transaction Admission → Transaction Admission
unless_refused none next db = next db
unless_refused (some r) next db = ok (refused r, db)

unfoldable pub reserve_body : ReservationRequest → ℕ → List String → ℤ → Transaction Admission
reserve_body request liability keys now db =
    unless_refused (latch_refusal db.latches request.pool_id request.model_snapshot)
      (λ db. do
        refusal ← check_inputs db.safety liability now keys
        unless_refused refusal
            (check_quota request liability keys now
              (pool_counters db.pools request.pool_id db.meta.current_epoch))
            db)
      db

unfoldable pub reserve : ReservationRequest → ℤ → Operation Admission
reserve request now l = elim l.trust [
  | unknown reason ↦ (ok (refused (untrusted (unknown reason))), l)
  | trusted ↦ elim (try_i64 request.liability) [
    | none ↦ (err overflow, l)
    | some liability ↦
        transact
          (reserve_body request liability (dedup (sort_keys request.required_safety_inputs)) now) l
  ]
]

-- INSERT ... ON CONFLICT (key) DO UPDATE: the row is put in place of the old one.
abbrev pub upsert_input : SafetyInput → List SafetyInput → List SafetyInput
upsert_input input [] = input ∷ []
upsert_input input (i ∷ safety) =
    if str_eq i.key input.key then input ∷ safety else i ∷ upsert_input input safety

-- A window of no length fails the CHECK on `ttl_seconds`.
unfoldable pub revalidate_safety_input : String → ℤ → ℤ → ℕ → Operation (Unit {0})
revalidate_safety_input key now ttl_seconds budget l = elim (try_i64 budget) [
  | none ↦ (err overflow, l)
  | some budget ↦ if leb_ℤ ttl_seconds (pos 0) then (err sqlite, l) else (
    ok tt,
    record l {
      db = record l.db {
        safety =
            upsert_input
              (record {
                key = key;
                verified_at = now;
                ttl_seconds = pos_part ttl_seconds;
                budget_initial = budget;
                budget_remaining = budget;
              })
              l.db.safety;
      };
    },
  )
]

unfoldable pub invalidate_safety_input : String → Operation (Unit {0})
invalidate_safety_input key l = (
  ok tt,
  record l { db = record l.db { safety = select (λ i. not (has_key key i)) l.db.safety } },
)

unfoldable pub set_latch : String → String → Option String → ℤ → Operation (Unit {0})
set_latch scope reason evidence now l =
    let proof : Option Evidence = elim evidence [
      | none ↦ none
      | some words ↦ some (Evidence.text words)
    ] in
    (
      ok tt,
      record l { db = record l.db { latches = insert_latch scope reason proof now l.db.latches } },
    )

-- scope = ?3 AND cleared_at IS NULL
abbrev pub stands : String → Latch → Bool
stands scope latch = str_eq latch.scope scope && is_none latch.cleared

unfoldable pub clear_latches : String → String → ℤ → Operation ℕ
clear_latches scope cleared_by now l = (
  ok (count (stands scope) l.db.latches),
  record l {
    db = record l.db {
      latches =
          update (stands scope) (λ latch. record latch { cleared = some (now, cleared_by) })
            l.db.latches;
    };
  },
)
