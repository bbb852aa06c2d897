-- ===== src/Ledger/Tests/Admitted.antt =====
-- Admissions, and sequences of calls, on the ledger of the tests.
use quotamiser.Prelude.{◌+◌, ◌≤◌, ◌≡◌, ◌≢◌, refl, List, [], ◌∷◌, arith, ok, none}
use quotamiser.Prelude.Int.{pos, ◌+ℤ◌, ◌-ℤ◌}
use quotamiser.Ledger.State.{State}
use quotamiser.Ledger.Trust.{UnknownReason, trusted, unknown}
use quotamiser.Ledger.Schema.{Db, SafetyInput, Latch}
use quotamiser.Ledger.Core.{pool_counters, adjust_pool}
use quotamiser.Ledger.Core.Pools.{reserved_of, consumed_of, granted_of}
use quotamiser.Ledger.Tests.{fresh_db, fresh, request_for, admitted_db, admitted, response_50}
use quotamiser.Ledger.Sound.{IsSound}
use quotamiser.Ledger.Reserve.{
  ReservationRequest, check_input, reserved, refused, reserve, insufficient_quota, reserve_body,
  check_inputs, check_quota, remaining_of, debit, debit_inputs, sort_keys, dedup,
}
use quotamiser.Ledger.Reserve.Vouched.{IsVouched, reserve-IsVouched}
use quotamiser.Ledger.Reserve.Books.{reserve_within_grant, reserve_refused}
use quotamiser.Ledger.Restart.{assess_trust}
use quotamiser.Ledger.Transitions.{written, written_unsynced}
use quotamiser.Ledger.History.{
  Call, history, reserving, beginning_dispatch, attaching, settling, reopening, rolling_over,
}
use quotamiser.Ledger.History.Books.{history-IsSound}
use quotamiser.Ledger.History.Marks.{never_behind}
use quotamiser.Ledger.History.Consumption.{Rises, history-Rises}
use quotamiser.Ledger.Requests.{RequestWindow, granted, take_body, take_in_window}
use quotamiser.Ledger.Requests.Slots.{Answers, take_body-Answers}

reserve_40 : reserve (request_for 40) (pos 5) fresh ≡ (ok (reserved 1), admitted)
unfolding reserve reserve_body check_inputs check_quota remaining_of debit debit_inputs
    pool_counters adjust_pool sort_keys dedup ◌+ℤ◌ ◌-ℤ◌
reserve_40 = refl

reserve_101 :
    reserve (request_for 101) (pos 5) fresh
    ≡ (ok (refused (insufficient_quota (pos 100) 101)), fresh)
unfolding reserve reserve_body check_inputs check_quota remaining_of debit debit_inputs
    pool_counters adjust_pool sort_keys dedup ◌+ℤ◌ ◌-ℤ◌
reserve_101 = refl

reserve_within_grant_example :
    (consumed_of admitted_db.pools "small" 1 + reserved_of admitted_db.pools "small" 1
      ≤ granted_of admitted_db.pools "small" 1)
    × (reserved_of admitted_db.pools "small" 1 ≡ reserved_of fresh_db.pools "small" 1 + 40)
    × (consumed_of admitted_db.pools "small" 1 ≡ consumed_of fresh_db.pools "small" 1)
reserve_within_grant_example =
    reserve_within_grant (request_for 40) (pos 5) fresh admitted reserve_40

reserve_refused_example : fresh ≡ fresh
reserve_refused_example =
    reserve_refused (request_for 101) (pos 5) fresh fresh (insufficient_quota (pos 100) 101)
      reserve_101

-- A safety input with a budget of 100, verified at 0 and good for 1000 seconds.
abbrev data_sharing : SafetyInput
data_sharing = record {
  key = "data_sharing";
  verified_at = pos 0;
  ttl_seconds = 1000;
  budget_initial = 100;
  budget_remaining = 100;
}

-- A latch of another model, which stops nothing here.
abbrev other_model : Latch
other_model = record {
  scope = "model:other";
  reason = "over budget";
  evidence = none;
  set_at = pos 1;
  cleared = none;
}

abbrev vouching_db : Db
vouching_db = record fresh_db { safety = data_sharing ∷ []; latches = other_model ∷ [] }

abbrev vouched_db : Db
vouched_db = record vouching_db {
  pools = admitted_db.pools;
  rows = admitted_db.rows;
  safety = record data_sharing { budget_remaining = 60 } ∷ [];
}

abbrev needing : ReservationRequest
needing = record (request_for 40) { required_safety_inputs = "data_sharing" ∷ "data_sharing" ∷ [] }

reserve-needing :
    reserve needing (pos 5) (record fresh { db = vouching_db })
    ≡ (ok (reserved 1), record fresh { db = vouched_db })
unfolding reserve reserve_body check_input check_inputs check_quota remaining_of debit debit_inputs
    pool_counters adjust_pool sort_keys dedup ◌+ℤ◌ ◌-ℤ◌
reserve-needing = refl

reserve-IsVouched_example : (trusted ≡ trusted) × IsVouched needing (pos 5) vouching_db vouched_db
reserve-IsVouched_example =
    reserve-IsVouched needing (pos 5) (record fresh { db = vouching_db })
      (record fresh { db = vouched_db }) reserve-needing

fresh_db-IsSound : IsSound fresh_db
unfolding pool_counters
fresh_db-IsSound = record {
  totals = λ q f. ground arith;
  grouped = ((λ root. (State.reserved, 0)), tt);
  keyed = tt;
  checked = tt;
  rooted = tt;
}

-- An admission, its dispatch, a restart in the middle of it, and a rollover.
abbrev calls : List Call
calls =
    reserving (request_for 40) (pos 5)
    ∷ beginning_dispatch 1 written
    ∷ attaching 1 "response"
    ∷ settling 1 response_50 (pos 1) (pos 9)
    ∷ reserving (request_for 20) (pos 10)
    ∷ beginning_dispatch 2 written_unsynced
    ∷ reopening
    ∷ rolling_over 2 (("small", 100) ∷ [])
    ∷ []

history-IsSound_example : IsSound (history calls fresh).db
history-IsSound_example = history-IsSound calls fresh fresh_db-IsSound

never_behind_example :
    ((assess_trust (history calls fresh)).verdict ≢ unknown UnknownReason.external_behind_ledger)
    × ((assess_trust (history calls fresh)).verdict ≢ unknown UnknownReason.external_missing)
never_behind_example = never_behind calls fresh (omega arith, omega arith)

abbrev window : RequestWindow
window = record { max_in_window = 2; window_seconds = pos 60 }

-- The database after a first request of a provider.
abbrev counted_db : Db
counted_db = record fresh_db {
  counters = record { provider = "provider"; epoch = 1; limit_per_day = 50; used = 1 } ∷ [];
  dispatches = record { provider = "provider"; at = pos 100 } ∷ [];
}

take_first : take_body "provider" 1 50 window (pos 100) fresh_db ≡ ok (granted 1 50, counted_db)
unfolding take_body take_in_window ◌-ℤ◌ ◌+ℤ◌
take_first = refl

take_body-Answers_example :
    Answers "provider" 1 50 window (pos 100) fresh_db (granted 1 50) counted_db
take_body-Answers_example =
    take_body-Answers "provider" 1 50 window (pos 100) fresh_db counted_db (granted 1 50)
      (omega arith) take_first

history-Rises_example : Rises fresh_db.pools (history calls fresh).db.pools
history-Rises_example = history-Rises calls fresh
