-- ===== src/Proxy/Retrieval/Tests.antt =====
-- A sweep of crates/proxy/src/retrieval.rs over a ledger with one open dispatch.
use quotamiser.Prelude.{ℕ, ◌≡◌, refl, Option, none, some, List, [], ◌∷◌, false, ok, err}
use quotamiser.Prelude.Int.{pos, ◌-ℤ◌}
use quotamiser.Ledger.State.{State}
use quotamiser.Ledger.History.{history}
use quotamiser.Ledger.Schema.{Db}
use quotamiser.Ledger.Queries.{OpenDispatch, open_dispatches}
use quotamiser.Ledger.Tests.{fresh, sent_db, row_1}
use quotamiser.Protocol.Json.{Value}
use quotamiser.Protocol.Sse.{Bytes}
use quotamiser.Proxy.LedgerHandle.{with_ledger}
use quotamiser.Proxy.Retrieval.{
  RetrievalPolicy, SweepEntry, RetrievalWorker, Attempt, retry_later, handle, handle_all, sweep,
}
use quotamiser.Proxy.Retrieval.Sweeps.{AreWarranted, WereOpen, sweep-AreWarranted}

abbrev policy : RetrievalPolicy
policy = record {
  initial_backoff = 60;
  max_backoff = 600;
  write_off_unknown_after = 300000000000;
  trust_not_found_after = 120000000000;
  escalate_after = 900000000000;
  accounting_rev = pos 1;
}

abbrev from_slice : Bytes → Option Value
from_slice body = none

abbrev waiting_db : Db
waiting_db = record sent_db {
  rows = record row_1 { state = State.dispatched_with_id; response_id = some "resp_1" } ∷ [];
}

abbrev worker : RetrievalWorker
worker = record {
  handle = record { ledger = record fresh { db = waiting_db }; turns = [] };
  backoff = [];
}

-- The provider cannot be reached.
abbrev attempts : ℕ → Attempt
attempts id = record { due_at = 1; scheduled_at = 2; response = err "unreachable" }

abbrev entries : List SweepEntry
entries = record { reservation = 1; outcome = retry_later "unreachable"; escalate = false } ∷ []

swept : (sweep policy from_slice attempts (pos 65) worker).0 ≡ ok entries
unfolding sweep handle_all handle with_ledger history open_dispatches ◌-ℤ◌
swept = refl

sweep-AreWarranted_example :
    (pending : List OpenDispatch) × WereOpen policy from_slice attempts
      (pos 65)
      worker.handle
      pending
    × AreWarranted policy from_slice attempts (pos 65) pending entries
sweep-AreWarranted_example =
    sweep-AreWarranted policy from_slice attempts (pos 65) worker entries swept
