-- ===== src/Proxy/StatusPolicy.antt =====
-- crates/proxy/src/status_policy.rs: what an upstream HTTP status means for the client, the
-- provider, and the reservation.
pub mod Laws
use quotamiser.Prelude.{ℕ, Bool, ◌&&◌, ◌||◌, leb, ◌==◌, if◌then◌else◌}

pub data ClientAction : Type 0 where
  relay return_error try_next_provider : ClientAction

pub data ProviderAction : Type 0 where
  keep close_until_remediated back_off : ProviderAction

pub data ReservationAction : Type 0 where
  settle release_rejected hold_as_unknown : ReservationAction

pub record StatusDecision : Type 0 where
  pub client : ClientAction
  pub provider : ProviderAction
  pub reservation : ReservationAction

abbrev pub decision : ClientAction → ProviderAction → ReservationAction → StatusDecision
decision client provider reservation = record {
  client = client;
  provider = provider;
  reservation = reservation;
}

-- The arms of the match, in their order.
unfoldable pub decide : ℕ → StatusDecision
decide status =
    if leb 200 status && leb status 299
    then decision relay keep settle
    else if leb 300 status && leb status 399
    then decision try_next_provider close_until_remediated hold_as_unknown
    else if status == 400 || status == 422
    then decision return_error keep release_rejected
    else if status == 401 || status == 402 || status == 403 || status == 404
    then decision try_next_provider close_until_remediated release_rejected
    else if status == 429
    then decision try_next_provider back_off release_rejected
    else decision try_next_provider keep hold_as_unknown
