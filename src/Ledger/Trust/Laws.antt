-- ===== src/Ledger/Trust/Laws.antt =====
-- When crates/ledger/src/trust.rs trusts a ledger, and which reservation it promotes.
use quotamiser.Prelude.{
  ℕ, ap, ◌+◌, ◌≡◌, refl, ◌↔◌, inl, inr, true, false, Option, none, some, arith, ok, err,
  Option-cases,
}
use quotamiser.Ledger.State.{State}
use quotamiser.Ledger.State.Laws.{state_eq-eq}
use quotamiser.Ledger.Trust.{
  HighWaterMark, LedgerMeta, UnknownReason, trusted, unknown, External, assess,
}

module _ (meta : LedgerMeta) (row : ℕ → Option (State × ℕ)) where
  -- The shutdown was clean, and the external record agrees with the ledger in both numbers.
  abbrev pub Agrees : External → Type 0
  Agrees external =
      (e : HighWaterMark) × (external ≡ ok (some e))
      × (e.generation ≡ meta.generation)
      × (e.cumulative_liability ≡ meta.cumulative_liability)
      × (meta.clean_shutdown ≡ true)

  trusted-Agrees :
      (external : External) → (assess meta external row).verdict ≡ trusted → Agrees external
  unfolding assess
  trusted-Agrees (err _) h = cc
  trusted-Agrees (ok none) h = ground arith
  trusted-Agrees (ok (some e)) h = (e, refl, ground arith, ground arith, ground arith)

  Agrees-trusted :
      (external : External) → Agrees external → (assess meta external row).verdict ≡ trusted
  unfolding assess
  Agrees-trusted external (e, h, g, c, s) = rw h (ground arith)

  -- The ledger is trusted exactly when the shutdown was clean and the external record agrees.
  pub assess_trusted_iff :
      (external : External) → ((assess meta external row).verdict ≡ trusted) ↔ Agrees external
  assess_trusted_iff external = (trusted-Agrees external, Agrees-trusted external)

  -- Exactly one dispatch reached the external record and not the ledger: that of the RESERVED
  -- row `id`, and the process did not shut down cleanly.
  abbrev pub OneAhead : External → ℕ → Type 0
  OneAhead external id =
      (e : HighWaterMark) × (liability : ℕ) × (external ≡ ok (some e))
      × (e.last_reservation ≡ id)
      × (e.generation ≡ meta.generation + 1)
      × (row id ≡ some (State.reserved, liability))
      × (e.cumulative_liability ≡ meta.cumulative_liability + liability)
      × (meta.clean_shutdown ≡ false)

  pub promotes-OneAhead :
      (external : External) (id : ℕ)
      → (assess meta external row).promote_to_id_unknown ≡ some id
      → OneAhead external id
  unfolding assess
  promotes-OneAhead (err _) id h = cc
  promotes-OneAhead (ok none) id h = ground arith
  promotes-OneAhead (ok (some e)) id h = elim (Option-cases (row e.last_reservation)) [
    | inl gone ↦ ground arith
    | inr ((state, liability), found) ↦ (
      e,
      liability,
      refl,
      ground arith,
      ground arith,
      ground (arith, state_eq-eq state State.reserved),
      ground arith,
      ground arith,
    )
  ]

  OneAhead-promotes :
      (external : External) (id : ℕ)
      → OneAhead external id
      → assess meta external row ≡ record {
        verdict = unknown UnknownReason.unclean_shutdown;
        promote_to_id_unknown = some id;
      }
  unfolding assess
  OneAhead-promotes external id (e, l, h, i, g, r, c, s) = rw h (ground arith)

  pub assess_promotes_iff :
      (external : External) (id : ℕ)
      → (assess meta external row ≡ record {
        verdict = unknown UnknownReason.unclean_shutdown;
        promote_to_id_unknown = some id;
      })
        ↔ OneAhead external id
  assess_promotes_iff external id = (
    λ h. promotes-OneAhead external id (ap (λ a. a.promote_to_id_unknown) h),
    OneAhead-promotes external id,
  )
