-- ===== src/Proxy/Dispatch/Sent.antt =====
-- What a dispatch of crates/proxy/src/dispatch.rs sends to the provider, and when.
use quotamiser.Prelude.{◌≡◌, ◌⊎◌, List, ◌∷◌, Bool, true, false, ◌&&◌, Result, ok, err, is_none}
use quotamiser.Ledger.Transitions.{begin_dispatch}
use quotamiser.Ledger.History.{Call, history}
use quotamiser.Proxy.LedgerHandle.{LedgerHandle, with_ledger}
use quotamiser.Proxy.StatusPolicy
use quotamiser.Proxy.Dispatch.{DispatchPermit, World}
use quotamiser.Proxy.Dispatch.Supervisor.{Surroundings, held_back}

abbrev pub is_ok : {E A : Type 0} → Result E A → Bool
is_ok (ok a) = true
is_ok (err e) = false

-- Nothing holds the request back, and its dispatch becomes durable.
abbrev pub begins : Surroundings → DispatchPermit → World → Bool
begins env permit w =
    is_none (held_back env w)
    && is_ok (with_ledger (begin_dispatch permit.reservation env.written_as) w.handle).0

-- The dispatch did not begin and nothing was sent; or its body was sent, once, and the ledger was
-- at that moment what a successful `begin_dispatch` had left.
abbrev pub SendsOnce : Surroundings → DispatchPermit → World → World → Type 0
SendsOnce env permit w w' =
    ((begins env permit w ≡ false) × (w'.sent ≡ w.sent))
    ⊎ ((h : LedgerHandle) × (w'.sent ≡ (permit.body, h) ∷ w.sent)
        × ((calls : List Call) × (begin_dispatch permit.reservation env.written_as
                (history calls w.handle.ledger)
              ≡ (ok tt, h.ledger))))
