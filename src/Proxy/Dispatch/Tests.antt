-- ===== src/Proxy/Dispatch/Tests.antt =====
-- Dispatches of crates/proxy/src/dispatch.rs at concrete worlds.
use quotamiser.Prelude.{◌≡◌, refl, none, some, [], ◌∷◌, true, ok, err}
use quotamiser.Prelude.Int.{pos}
use quotamiser.Ledger.Core.{load_group, ensure_allowed, update_rows, expect_rows, update_group}
use quotamiser.Ledger.History.{history}
use quotamiser.Ledger.Transitions.{
  written, mark_id_unknown, begin_dispatch, prepare_dispatch, load_allowed, next_mark,
  commit_dispatch, relabel,
}
use quotamiser.Ledger.Tests.{admitted}
use quotamiser.Protocol.Responses.{Reader}
use quotamiser.Proxy.RateLimit.{Limit, closed_for}
use quotamiser.Proxy.FailureBreaker.{default_policy, new_breaker, open_for}
use quotamiser.Proxy.LedgerHandle.{with_ledger}
use quotamiser.Proxy.Dispatch.{
  DispatchPermit, DispatchPolicy, held_as_unknown, World, hold_as_unknown, finishing,
}
use quotamiser.Proxy.Dispatch.Relay.{chunk, upstream_ended, client_closed}
use quotamiser.Proxy.Dispatch.Supervisor.{Answer, Surroundings, take_answer, supervise}
use quotamiser.Proxy.Dispatch.Course.{Runs}
use quotamiser.Proxy.Dispatch.Course.Dispatch.{supervise-Runs}
use quotamiser.Proxy.Dispatch.Dispositions.{Succeeded}
use quotamiser.Proxy.Dispatch.Supervised.{supervise-Holds}
use quotamiser.Proxy.Dispatch.Told.{IsTold, supervise-IsTold}

abbrev policy : DispatchPolicy
policy = record {
  id_wait_after_disconnect = 1000;
  max_error_body_bytes = 100;
  breaker = default_policy;
}

-- A parser that reads nothing.
abbrev reader : Reader
reader = record { text = λ bytes. ""; from_str = λ text. none }

-- The permit of the reservation that the ledger of the tests holds.
abbrev permit : DispatchPermit
permit = record { reservation = 1; body = []; accounting_rev = pos 1; background = true }

abbrev world : World
world = record {
  handle = record { ledger = admitted; turns = [] };
  gate = none;
  breaker = new_breaker default_policy;
  head = none;
  cancelled = none;
  sent = [];
}

-- A gate that a 429 has closed.
abbrev limited : World
limited = record world { gate = some 500 }

abbrev silent : Limit
silent = record { remaining = none; reset = none }

abbrev success : Answer
success = record {
  status = 200;
  headers = record { retry_after = none; requests = silent; tokens = silent };
  content_type = none;
  error_chunks = [];
}

-- The provider takes the request, sends one chunk, and breaks off; the client has gone.
abbrev broken_off : Surroundings
broken_off = record {
  gate_checked = 1;
  breaker_checked = 2;
  answered = 3;
  failed = 4;
  relayed = 5;
  written_as = written;
  answer = ok success;
  client_waits = true;
  rounds =
      record { checked_at = 6; event = chunk (58 ∷ 10 ∷ []) (pos 7) true 8 }
      ∷ record { checked_at = 9; event = client_closed 10 }
      ∷ record { checked_at = 11; event = upstream_ended 12 }
      ∷ [];
}

-- The transport fails.
abbrev unreached : Surroundings
unreached = record broken_off { answer = err "connection reset" }

supervise-Runs_example :
    Runs 1 written world.handle (supervise policy reader broken_off permit world)
supervise-Runs_example = supervise-Runs policy reader broken_off permit world

is_held : (supervise policy reader unreached permit world).0 ≡ some held_as_unknown
unfolding supervise closed_for open_for new_breaker with_ledger begin_dispatch prepare_dispatch
    load_allowed load_group history ensure_allowed next_mark commit_dispatch update_rows expect_rows
    take_answer hold_as_unknown finishing mark_id_unknown relabel update_group
is_held = refl

supervise-Holds_example :
    Succeeded world.handle
      (supervise policy reader unreached permit world).1.handle
      (mark_id_unknown 1)
      tt
supervise-Holds_example =
    supervise-Holds policy reader unreached permit world held_as_unknown is_held

supervise-IsTold_example : IsTold (supervise policy reader broken_off permit world).1
supervise-IsTold_example = supervise-IsTold policy reader broken_off permit world
