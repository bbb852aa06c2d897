-- ===== src/Ledger/Trust.antt =====
-- crates/ledger/src/trust.rs: the startup assessment, with the `HighWaterMark` of
-- crates/ledger/src/hwm.rs. Generations and totals are at least zero, by the CHECKs of the
-- table and by the tests of the record's parser, so they are natural numbers.
pub mod Laws
use quotamiser.Prelude.{
  ℕ, ◌-◌, Bool, true, false, ◌&&◌, ◌||◌, Option, none, some, ltb, ◌==◌, not, if◌then◌else◌, Result,
  ok, err, ◌>>=◌, is_some,
}
use quotamiser.Ledger.State.{State, state_eq}

pub record HighWaterMark : Type 0 where
  pub generation : ℕ
  pub cumulative_liability : ℕ
  pub last_reservation : ℕ

pub record LedgerMeta : Type 0 where
  pub generation : ℕ
  pub cumulative_liability : ℕ
  pub current_epoch : ℕ
  pub clean_shutdown : Bool

pub data UnknownReason : Type 0 where
  uninitialized external_missing external_unreadable external_behind_ledger : UnknownReason
  ledger_rolled_back inconsistent unclean_shutdown : UnknownReason

pub data TrustVerdict : Type 0 where
  trusted : TrustVerdict
  unknown : UnknownReason → TrustVerdict

pub record Assessment : Type 0 where
  pub verdict : TrustVerdict
  pub promote_to_id_unknown : Option ℕ

-- What reading the external record gives: `Err(())` is `err tt`.
abbrev pub External : Type 0
External = Result (Unit {0}) (Option HighWaterMark)

-- The closure `unknown`.
abbrev pub unknown_for : UnknownReason → Assessment
unknown_for reason = record { verdict = unknown reason; promote_to_id_unknown = none }

-- The row that the record names, against the gap between the two totals.
abbrev pub promotion : ℕ → ℕ → Option (State × ℕ) → Result UnknownReason (Option ℕ)
promotion last gap none = err ledger_rolled_back
promotion last gap (some (state, liability)) =
    if state_eq state State.reserved && liability == gap
    then ok (some last)
    else err ledger_rolled_back

-- `match external.generation - meta.generation`.
abbrev pub compare_marks :
    LedgerMeta → HighWaterMark → (ℕ → Option (State × ℕ)) → Result UnknownReason (Option ℕ)
compare_marks meta external row =
    let ahead = external.generation - meta.generation in
    if ahead == 0
    then (if external.cumulative_liability == meta.cumulative_liability
        then ok none
        else err inconsistent)
    else if ahead == 1
    then promotion external.last_reservation
        (external.cumulative_liability - meta.cumulative_liability) (row external.last_reservation)
    else err ledger_rolled_back

abbrev pub conclude : LedgerMeta → Result UnknownReason (Option ℕ) → Assessment
conclude meta (err reason) = unknown_for reason
conclude meta (ok promote) =
    if is_some promote && meta.clean_shutdown then unknown_for inconsistent else record {
      verdict = if meta.clean_shutdown then trusted else unknown unclean_shutdown;
      promote_to_id_unknown = promote;
    }

unfoldable pub assess : LedgerMeta → External → (ℕ → Option (State × ℕ)) → Assessment
assess meta (err _) row = unknown_for external_unreadable
assess meta (ok none) row =
    if meta.generation == 0 then unknown_for uninitialized else unknown_for external_missing
assess meta (ok (some external)) row =
    if ltb external.generation meta.generation
      || ltb external.cumulative_liability meta.cumulative_liability
    then unknown_for external_behind_ledger
    else conclude meta (compare_marks meta external row)
