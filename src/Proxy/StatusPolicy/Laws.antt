-- ===== src/Proxy/StatusPolicy/Laws.antt =====
-- What the decisions of crates/proxy/src/status_policy.rs promise.
use quotamiser.Prelude.{ℕ, ◌≡◌, ◌↔◌, ◌≤◌, ◌<◌, Bool, true, ◌&&◌, ◌||◌, leb, ◌==◌, arith}
use quotamiser.Proxy.StatusPolicy.{
  decide, relay, return_error, try_next_provider, keep, back_off, settle, release_rejected,
  hold_as_unknown,
}

-- A client error that shows that processing never started.
abbrev pub is_refusal : ℕ → Bool
is_refusal status = (leb 400 status && leb status 404) || status == 422 || status == 429

-- A reservation is released exactly for the statuses 400 to 404, 422 and 429.
pub releases_iff :
    (status : ℕ) → ((decide status).reservation ≡ release_rejected) ↔ (is_refusal status ≡ true)
unfolding decide
releases_iff status = ground arith

-- A response is relayed exactly where its reservation is settled, which is for a success.
pub settles_iff :
    (status : ℕ)
    → (((decide status).reservation ≡ settle) ↔ ((decide status).client ≡ relay))
      × (((decide status).reservation ≡ settle) ↔ (200 ≤ status) × (status < 300))
unfolding decide
settles_iff status = (ground arith, ground arith)

-- An error that may have reached generation is never the client's, and never releases: where the
-- reservation is held, the next provider is tried; and a client who gets the error has the
-- reservation released and the provider kept open.
pub errors_are_consistent :
    (status : ℕ)
    → ((decide status).reservation ≡ hold_as_unknown → (decide status).client ≡ try_next_provider)
      × ((decide status).client ≡ return_error
          → ((decide status).reservation ≡ release_rejected) × ((decide status).provider ≡ keep))
      × ((decide status).provider ≡ back_off → status ≡ 429)
unfolding decide
errors_are_consistent status =
    (λ h. ground arith, λ h. (ground arith, ground arith), λ h. ground arith)
