-- ===== src/Ledger/Tests/Sent.antt =====
-- The transitions of a reservation, and the counters of its pool, on the ledger of the tests.
use quotamiser.Prelude.{◌≡◌, ◌≢◌, refl, true, none, some, [], ◌∷◌, ok}
use quotamiser.Prelude.Int.{pos, ◌+ℤ◌}
use quotamiser.Ledger.State.{State}
use quotamiser.Ledger.Schema.{Db}
use quotamiser.Ledger.Core.{
  Group, read_group_row, pool_counters, adjust_pool, load_group, ensure_allowed, update_rows,
  expect_rows, update_group, insert_latch,
}
use quotamiser.Ledger.Reserve.{reserved, reserve}
use quotamiser.Ledger.Reserve.Latched.{settle_body-reserve}
use quotamiser.Ledger.Tests.{request_for, admitted, pool, row_1, admitted_db, sent_db, response_50}
use quotamiser.Ledger.Transitions.{settle_body, settle_as, load_allowed, finish, adjust_rows}
use quotamiser.Ledger.Transitions.Usage.{validate, settled_as}
use quotamiser.Ledger.Schema.{Evidence}

-- After the response, with the model latched for the overrun.
abbrev settled_db : Db
settled_db = record sent_db {
  pools = record pool { consumed = 50; reserved = 0 } ∷ [];
  rows = record row_1 { state = State.settled; settled = some 50 } ∷ [];
  latches =
      record {
        scope = "model:model";
        reason = "reported usage exceeded the reserved liability";
        evidence = some (Evidence.of_overrun 1 50 40);
        set_at = pos 9;
        cleared = none;
      }
      ∷ [];
}

settle_50 : settle_body 1 response_50 (pos 1) (pos 9) sent_db ≡ ok (settled_as 50 true, settled_db)
unfolding settle_body settle_as load_allowed load_group ensure_allowed validate finish adjust_rows
    adjust_pool pool_counters update_group update_rows expect_rows insert_latch ◌+ℤ◌
settle_50 = refl

abbrev sent_group : Group
sent_group = record {
  root = 1;
  head = read_group_row (record row_1 { state = State.dispatching });
  rest = [];
}

load_1 : load_group sent_db.rows 1 ≡ ok sent_group
unfolding load_group
load_1 = refl

settle_body-reserve_example :
    reserve (request_for 10) (pos 10) (record admitted { db = settled_db })
    ≢ (ok (reserved 2), admitted)
settle_body-reserve_example =
    settle_body-reserve 1 response_50 (pos 1) (pos 9) sent_db (record admitted { db = settled_db })
      admitted (settled_as 50 true) sent_group (request_for 10) (pos 10) 2 settle_50 load_1 refl

-- The reservation that was never sent, released.
abbrev released_db : Db
released_db = record admitted_db {
  pools = pool ∷ [];
  rows = record row_1 { state = State.released_unsent } ∷ [];
}
