-- ===== src/Ledger/State/Tests.antt =====
-- Concrete runs of crates/ledger/src/state.rs.
use quotamiser.Prelude.{◌≡◌, refl, none}
use quotamiser.Ledger.State.{parse}

parse_unknown : parse "NOPE" ≡ none
unfolding parse
parse_unknown = refl
