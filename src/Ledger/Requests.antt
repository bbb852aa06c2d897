-- ===== src/Ledger/Requests.antt =====
-- crates/ledger/src/requests.rs: counting requests against a daily limit and a short window.
pub mod Slots
use quotamiser.Prelude.{
  ℕ, zero, suc, ◌+◌, ◌-◌, String, Bool, true, false, ◌&&◌, ◌||◌, not, Option, none, some, List, [],
  ◌∷◌, ◌++◌, map, ltb, leb, ◌==◌, str_eq, if◌then◌else◌, Result, ok, err, ◌>>=◌, ◌>>◌, ensure,
  ok_or, and_then, find?, update, select, count, any, is_none, unwrap_or,
}
use quotamiser.Prelude.Int.{ℤ, pos, ltb_ℤ, leb_ℤ, ◌+ℤ◌, ◌-ℤ◌, try_i64, checked_sub_ℤ}
use quotamiser.Ledger.Error.{LedgerError, Outcome, overflow, sqlite}
use quotamiser.Ledger.Schema.{RequestCounter, RequestDispatch, Db}
use quotamiser.Ledger.Store.{Ledger, Operation, Transaction, transact}

pub record RequestWindow : Type 0 where
  pub max_in_window : ℕ
  pub window_seconds : ℤ

pub data RequestSlot : Type 0 where
  -- used, limit
  granted exhausted : ℕ → ℕ → RequestSlot
  -- retry_after_seconds
  window_full : ℤ → RequestSlot

-- The primary key of `request_counter`.
abbrev pub counts_for : String → ℕ → RequestCounter → Bool
counts_for provider epoch c = str_eq c.provider provider && c.epoch == epoch

-- INSERT ... ON CONFLICT (provider, epoch) DO UPDATE SET limit_per_day = excluded.limit_per_day
abbrev pub upsert_counter : String → ℕ → ℕ → List RequestCounter → List RequestCounter
upsert_counter provider epoch limit [] =
    record { provider = provider; epoch = epoch; limit_per_day = limit; used = 0 } ∷ []
upsert_counter provider epoch limit (c ∷ counters) =
    if counts_for provider epoch c
    then record c { limit_per_day = limit } ∷ counters
    else c ∷ upsert_counter provider epoch limit counters

abbrev pub used_of : String → ℕ → List RequestCounter → Option ℕ
used_of provider epoch counters =
    and_then (find? (counts_for provider epoch) counters) (λ c. some c.used)

-- provider = ?1 AND at < ?2
abbrev pub is_stale : String → ℤ → RequestDispatch → Bool
is_stale provider start d = str_eq d.provider provider && ltb_ℤ d.at start

-- provider = ?1 AND at >= ?2
abbrev pub is_recent : String → ℤ → RequestDispatch → Bool
is_recent provider start d = str_eq d.provider provider && leb_ℤ start d.at

-- SELECT MIN(at) over some rows.
abbrev pub oldest : List RequestDispatch → Option ℤ
oldest [] = none
oldest (d ∷ dispatches) = elim (oldest dispatches) [
  | none ↦ some d.at
  | some at ↦ if ltb_ℤ at d.at then some at else some d.at
]

abbrev pub at_least_one : ℤ → ℤ
at_least_one n = if ltb_ℤ n (pos 1) then pos 1 else n

-- (oldest + window_seconds - now).max(1), or 1. The sum is one of times, far from the bounds.
abbrev pub retry_after : Option ℤ → ℤ → ℤ → ℤ
retry_after none window_seconds now = pos 1
retry_after (some at) window_seconds now = at_least_one (at +ℤ window_seconds -ℤ now)

-- SET used = used + 1
abbrev pub use_slot : RequestCounter → RequestCounter
use_slot c = record c { used = c.used + 1 }

-- The window, once the day's total has room.
unfoldable pub take_in_window : String → ℕ → ℕ → ℕ → RequestWindow → ℤ → Transaction RequestSlot
take_in_window provider epoch limit used window now db = do
  start ← ok_or (checked_sub_ℤ now window.window_seconds) overflow
  let dispatches = select (λ d. not (is_stale provider start d)) db.dispatches
  if leb window.max_in_window (count (is_recent provider start) dispatches)
      then ok (
        window_full (
            retry_after (oldest (select (is_recent provider start) dispatches))
              window.window_seconds now),
        record db { dispatches = dispatches },
      )
      else ok (
        granted (used + 1) limit,
        record db {
          counters = update (counts_for provider epoch) use_slot db.counters;
          dispatches = dispatches ++ record { provider = provider; at = now } ∷ [];
        },
      )

unfoldable pub take_body : String → ℕ → ℕ → RequestWindow → ℤ → Transaction RequestSlot
take_body provider epoch limit window now db = do
  let counters = upsert_counter provider epoch limit db.counters
  used ← ok_or (used_of provider epoch counters) sqlite
  if leb limit used
      then ok (exhausted used limit, record db { counters = counters })
      else take_in_window provider epoch limit used window now (record db { counters = counters })

unfoldable pub take_request_slot : String → ℕ → ℕ → RequestWindow → ℤ → Operation RequestSlot
take_request_slot provider epoch limit_per_day window now l = elim (try_i64 limit_per_day) [
  | none ↦ (err overflow, l)
  | some limit ↦ transact (take_body provider epoch limit window now) l
]

unfoldable pub request_counts : Ledger → String → ℕ → Option (ℕ × ℕ)
request_counts l provider epoch =
    and_then (find? (counts_for provider epoch) l.db.counters) (λ c. some (c.used, c.limit_per_day))

unfoldable pub requests_in_window : Ledger → String → ℤ → ℕ
requests_in_window l provider since = count (is_recent provider since) l.db.dispatches
