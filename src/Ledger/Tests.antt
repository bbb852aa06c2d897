-- ===== src/Ledger/Tests.antt =====
-- A ledger with one pool, a request for 40 of its 100 tokens, and what follows: the concrete
-- inputs of the tests.
mod Admitted
mod Sent
mod Restarted
mod Table
use quotamiser.Prelude.{ℕ, false, Option, none, some, List, [], ◌∷◌, ok}
use quotamiser.Prelude.Int.{pos}
use quotamiser.Ledger.State.{State}
use quotamiser.Ledger.Trust.{HighWaterMark, trusted}
use quotamiser.Ledger.Schema.{PoolEpoch, Reservation, Db}
use quotamiser.Ledger.Core.{Group, read_group_row}
use quotamiser.Ledger.Store.{Ledger}
use quotamiser.Ledger.Reserve.{ReservationRequest}
use quotamiser.Ledger.Transitions.Usage.{CompletedResponse}

abbrev pub pool : PoolEpoch
pool = record { pool_id = "small"; epoch = 1; granted = 100; consumed = 0; reserved = 0 }

abbrev pub fresh_db : Db
fresh_db = record {
  pools = pool ∷ [];
  rows = [];
  meta = record {
    generation = 0;
    cumulative_liability = 0;
    current_epoch = 1;
    clean_shutdown = false;
  };
  safety = [];
  counters = [];
  dispatches = [];
  latches = [];
}

abbrev pub fresh : Ledger
fresh = record { db = fresh_db; hwm = ok none; trust = trusted }

abbrev pub request_for : ℕ → ReservationRequest
request_for liability = record {
  pool_id = "small";
  liability = liability;
  request_digest = "digest";
  model_snapshot = "model";
  service_tier = "default";
  accounting_rev = pos 1;
  required_safety_inputs = [];
}

-- The ledger after an admission of 40 tokens.
abbrev pub row_1 : Reservation
row_1 = record {
  id = 1;
  root_id = 1;
  pool_id = "small";
  epoch = 1;
  state = State.reserved;
  liability = 40;
  settled = none;
  response_id = none;
  request_digest = "digest";
  model_snapshot = "model";
  service_tier = "default";
  accounting_rev = pos 1;
  created_at = pos 5;
}

abbrev pub admitted_db : Db
admitted_db = record fresh_db { pools = record pool { reserved = 40 } ∷ []; rows = row_1 ∷ [] }

abbrev pub admitted : Ledger
admitted = record fresh { db = admitted_db }

-- The group of the reservation, and the mark that its dispatch writes.
abbrev pub group_1 : Group
group_1 = record { root = 1; head = read_group_row row_1; rest = [] }

abbrev pub mark_1 : HighWaterMark
mark_1 = record { generation = 1; cumulative_liability = 40; last_reservation = 1 }

-- The same reservation while it is being dispatched.
abbrev pub sent_db : Db
sent_db = record admitted_db {
  rows = record row_1 { state = State.dispatching } ∷ [];
  meta = record fresh_db.meta { generation = 1; cumulative_liability = 40 };
}

-- A response that reports 50 tokens, more than were reserved.
abbrev pub response_50 : CompletedResponse
response_50 = record {
  usage = some (record { input_tokens = pos 20; output_tokens = pos 30 });
  model = "model";
  service_tier = "default";
}
