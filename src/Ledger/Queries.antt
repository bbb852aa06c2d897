-- ===== src/Ledger/Queries.antt =====
-- The queries of crates/ledger/src/ledger.rs that read the reservations.
use quotamiser.Prelude.{
  ℕ, String, Option, List, [], ◌∷◌, map, Bool, ◌&&◌, ◌||◌, ◌==◌, leb, if◌then◌else◌, select, ok,
}
use quotamiser.Prelude.Int.{ℤ}
use quotamiser.Ledger.State.{State, state_eq}
use quotamiser.Ledger.Schema.{Reservation}
use quotamiser.Ledger.Store.{Operation}

pub record OpenDispatch : Type 0 where
  pub id : ℕ
  pub state : State
  pub response_id : Option String
  pub created_at : ℤ

-- WHERE id = root_id AND state IN ('DISPATCHED_WITH_ID', 'DISPATCHED_ID_UNKNOWN')
abbrev pub is_open_dispatch : Reservation → Bool
is_open_dispatch row =
    row.id == row.root_id
    && (state_eq row.state State.dispatched_with_id
        || state_eq row.state State.dispatched_id_unknown)

abbrev pub read_dispatch : Reservation → OpenDispatch
read_dispatch row = record {
  id = row.root_id;
  state = row.state;
  response_id = row.response_id;
  created_at = row.created_at;
}

abbrev pub insert_by_id : OpenDispatch → List OpenDispatch → List OpenDispatch
insert_by_id d [] = d ∷ []
insert_by_id d (e ∷ es) = if leb d.id e.id then d ∷ e ∷ es else e ∷ insert_by_id d es

-- ORDER BY root_id
abbrev pub order_by_id : List OpenDispatch → List OpenDispatch
order_by_id [] = []
order_by_id (d ∷ ds) = insert_by_id d (order_by_id ds)

unfoldable pub open_dispatches : Operation (List OpenDispatch)
open_dispatches l = (ok (order_by_id (map read_dispatch (select is_open_dispatch l.db.rows))), l)
