-- ===== src/Ledger/Tests/Restarted.antt =====
-- A restart in the middle of a dispatch, and a rollover, on the ledger of the tests.
use quotamiser.Prelude.{◌≡◌, refl, true, false, some, [], ◌∷◌, map, arith, ok, any, all}
use quotamiser.Prelude.Int.{◌+ℤ◌}
use quotamiser.Ledger.State.{State}
use quotamiser.Ledger.Trust.{Assessment, UnknownReason, unknown, assess}
use quotamiser.Ledger.Schema.{Db}
use quotamiser.Ledger.Core.{pool_counters, adjust_pool, load_group, ensure_allowed, update_rows}
use quotamiser.Ledger.Store.{Ledger}
use quotamiser.Ledger.Tests.{pool, fresh_db, row_1, admitted_db, group_1, mark_1}
use quotamiser.Ledger.Sound.{IsSound}
use quotamiser.Ledger.Transitions.{prepare_dispatch, load_allowed, next_mark}
use quotamiser.Ledger.Restart.{
  open_ledger, check_integrity, normalize_after_restart, normalize_body, promote,
  normalize_dispatching, normalize_reserved, relabel_rows, release_rows, rows_interpretable,
  assess_trust, split_groups,
}
use quotamiser.Ledger.Restart.Opening.{crash_mid_dispatch, open_ledger-rows, strays}
use quotamiser.Ledger.Restart.Fates.{fated}
use quotamiser.Ledger.Rollover.{advanced, advance, open_pools, carry, carry_rows, carry_row}
use quotamiser.Ledger.Rollover.Coverage.{rollover_covers, is_covered}

prepare_1 : prepare_dispatch admitted_db 1 ≡ ok (group_1, mark_1)
unfolding prepare_dispatch load_allowed load_group ensure_allowed next_mark
prepare_1 = refl

-- The ledger after the restart.
abbrev reopened : Ledger
reopened = record {
  db = record admitted_db {
    rows = record row_1 { state = State.dispatched_id_unknown } ∷ [];
    meta = record fresh_db.meta { generation = 1; cumulative_liability = 40 };
  };
  hwm = ok (some mark_1);
  trust = unknown UnknownReason.unclean_shutdown;
}

abbrev promoted : Assessment
promoted = record {
  verdict = unknown UnknownReason.unclean_shutdown;
  promote_to_id_unknown = some 1;
}

open_1 : open_ledger admitted_db (ok (some mark_1)) ≡ (ok promoted, reopened)
unfolding open_ledger check_integrity split_groups assess_trust assess normalize_after_restart
    normalize_body promote normalize_dispatching normalize_reserved relabel_rows release_rows
    update_rows
open_1 = refl

crash_mid_dispatch_example :
    (promoted.verdict ≡ unknown UnknownReason.unclean_shutdown)
    × (any (strays 1 State.dispatched_id_unknown) reopened.db.rows ≡ false)
    × (reopened.db.meta.generation ≡ mark_1.generation)
    × (reopened.db.meta.cumulative_liability ≡ mark_1.cumulative_liability)
crash_mid_dispatch_example =
    crash_mid_dispatch admitted_db 1 group_1 mark_1 reopened promoted prepare_1 refl refl open_1

open_ledger-rows_example :
    reopened.db.rows
    ≡ map
        (fated (rows_interpretable promoted.verdict) promoted.promote_to_id_unknown)
        admitted_db.rows
open_ledger-rows_example = open_ledger-rows admitted_db (ok (some mark_1)) reopened open_1

admitted_db-IsSound : IsSound admitted_db
unfolding pool_counters
admitted_db-IsSound = record {
  totals = λ q f. ground arith;
  grouped = ((λ root. (State.reserved, 40)), ((refl, refl), tt));
  keyed = (refl, tt);
  checked = (refl, tt);
  rooted = (omega arith, tt);
}

-- The next day, with the reservation carried.
abbrev next_day : Db
next_day = record admitted_db {
  pools = record pool { reserved = 40 } ∷ record pool { epoch = 2; reserved = 40 } ∷ [];
  rows = row_1 ∷ record row_1 { id = 2; epoch = 2 } ∷ [];
  meta = record fresh_db.meta { current_epoch = 2 };
}

advance_1 : advance 2 (("small", 100) ∷ []) admitted_db ≡ ok (advanced 1, next_day)
unfolding advance open_pools carry carry_rows carry_row pool_counters adjust_pool ◌+ℤ◌
advance_1 = refl

rollover_covers_example : all (is_covered 2 next_day.rows) admitted_db.rows ≡ true
rollover_covers_example =
    rollover_covers 2 (("small", 100) ∷ []) admitted_db next_day (advanced 1) advance_1
      admitted_db-IsSound
