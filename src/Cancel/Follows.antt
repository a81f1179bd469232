-- ===== src/Cancel/Follows.antt =====
-- The cancellation of a market follows the ledger (src/consumers/workers/bet.cancel.service.ts).
use betting_service.Prelude.{ℕ, String, Bool, List, [], ◌∷◌}
use betting_service.Entity.Slip.{BetSlip}
use betting_service.Store.{System}
use betting_service.Ledger.{Ledger}
use betting_service.Ledger.Rules.{Follows, following}
use betting_service.Cancel.{
  CancelMessage, Market, refund, cancel_bets, cancel_saved, save_cancel, cancel_found,
  cancel_market, process_bet_cancel, process_outrights_bet_cancel,
}

module _ {N : Type 0} (l : Ledger N) (sys : System N) (msg : CancelMessage) where
  cancel_bets-Follows :
      (event_type : String) (market : Market) (ids : List ℕ)
      → Follows l (cancel_bets sys msg event_type market ids)
  unfolding cancel_bets cancel_saved save_cancel refund
  cancel_bets-Follows event_type market ids = search following depth 9

  cancel_found-Follows :
      (event_type : String) (market : Market) (ids : List ℕ)
      → Follows l (cancel_found sys msg event_type market ids)
  unfolding cancel_found
  cancel_found-Follows event_type market [] = search following
  cancel_found-Follows event_type market (id ∷ ids) =
      cancel_bets-Follows event_type market (id ∷ ids)

  cancel_market-Follows :
      (in_scope : CancelMessage → Market → BetSlip N → Bool) (event_type : String) (market : Market)
      → Follows l (cancel_market sys in_scope msg event_type market)
  unfolding cancel_market
  cancel_market-Follows in_scope event_type market = search (following, cancel_found-Follows)

  pub process_bet_cancel-Follows : Follows l (process_bet_cancel sys msg)
  unfolding process_bet_cancel
  process_bet_cancel-Follows = search (following, cancel_market-Follows)

  pub process_outrights_bet_cancel-Follows : Follows l (process_outrights_bet_cancel sys msg)
  unfolding process_outrights_bet_cancel
  process_outrights_bet_cancel-Follows = search (following, cancel_market-Follows)
