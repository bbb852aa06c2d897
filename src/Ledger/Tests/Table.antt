-- ===== src/Ledger/Tests/Table.antt =====
-- The transition table and the assessment of trust at concrete inputs.
use quotamiser.Prelude.{
  ℕ, ◌≤◌, ◌≡◌, ◌↔◌, refl, true, Option, none, some, List, [], ◌∷◌, ◌++◌, false, ok, length,
}
use quotamiser.Ledger.State.{State, Transition, as_str, parse, is_active}
use quotamiser.Ledger.Trust.{LedgerMeta, trusted, assess}
use quotamiser.Ledger.Tests.{mark_1}
use quotamiser.Ledger.State.Laws.{Run, here, next, run_ends, run-WasSent, WasSent}
use quotamiser.Ledger.Trust.Laws.{Agrees, assess_trusted_iff}

-- A request that is dispatched and loses its id.
abbrev unknown_id :
    Run State.reserved
      (Transition.mark_id_unknown ∷ Transition.begin_dispatch ∷ [])
      State.dispatched_id_unknown
unknown_id = next Transition.mark_id_unknown refl (next Transition.begin_dispatch refl here)

run_ends_example :
    (later : List Transition) × (s'' : State) × Run State.reserved
      (later ++ Transition.mark_id_unknown ∷ Transition.begin_dispatch ∷ [])
      s''
    × (is_active s'' ≡ false)
    × (length (later ++ Transition.mark_id_unknown ∷ Transition.begin_dispatch ∷ []) ≤ 3)
run_ends_example = run_ends unknown_id

abbrev rejected :
    Run State.dispatching
      (Transition.reject_before_processing ∷ [])
      State.rejected_before_processing
rejected = next Transition.reject_before_processing refl here

run-WasSent_example : WasSent State.rejected_before_processing
run-WasSent_example = run-WasSent refl rejected

parse_settled : parse "SETTLED" ≡ some State.settled
unfolding parse as_str
parse_settled = refl

-- A ledger that was shut down cleanly after one dispatch.
abbrev meta_1 : LedgerMeta
meta_1 = record {
  generation = 1;
  cumulative_liability = 40;
  current_epoch = 1;
  clean_shutdown = true;
}

abbrev no_row : ℕ → Option (State × ℕ)
no_row id = none

assess_trusted_iff_example :
    ((assess meta_1 (ok (some mark_1)) no_row).verdict ≡ trusted)
    ↔ Agrees meta_1 no_row (ok (some mark_1))
assess_trusted_iff_example = assess_trusted_iff meta_1 no_row (ok (some mark_1))

abbrev row_of_1 : ℕ → Option (State × ℕ)
row_of_1 id = some (State.reserved, 40)
