-- ===== src/Rollback/Follows.antt =====
-- A rollback follows the ledger (src/consumers/workers/settlement.rollback.service.ts).
use betting_service.Prelude.{Bool}
use betting_service.Entity.Slip.{BetSlip}
use betting_service.Entity.Records.{Settlement}
use betting_service.Store.{System}
use betting_service.Ledger.{Ledger}
use betting_service.Ledger.Rules.{Follows, following}
use betting_service.Rollback.Reach.{reset_bets-Keeps, delete_winning-Keeps}
use betting_service.Rollback.{
  RollbackMessage, Market, save_rollback, take_back, roll_back_slips, roll_back_market,
  create_settlement_rollback, create_outright_settlement_rollback,
}

module _ {N : Type 0} (l : Ledger N) (sys : System N) (msg : RollbackMessage) where
  roll_back_slips-Follows :
      (in_scope : RollbackMessage → Market → BetSlip N → Bool) (market : Market)
      → Follows l (roll_back_slips sys in_scope msg market)
  unfolding roll_back_slips save_rollback take_back
  roll_back_slips-Follows in_scope market =
      search (following, reset_bets-Keeps, delete_winning-Keeps) depth 9

  roll_back_market-Follows :
      (settles : RollbackMessage → Market → Settlement N → Bool)
      (in_scope : RollbackMessage → Market → BetSlip N → Bool) (market : Market)
      → Follows l (roll_back_market sys settles in_scope msg market)
  unfolding roll_back_market
  roll_back_market-Follows settles in_scope market = search (following, roll_back_slips-Follows)

  pub create_settlement_rollback-Follows : Follows l (create_settlement_rollback sys msg)
  unfolding create_settlement_rollback
  create_settlement_rollback-Follows = search (following, roll_back_market-Follows)

  pub create_outright_settlement_rollback-Follows :
      Follows l (create_outright_settlement_rollback sys msg)
  unfolding create_outright_settlement_rollback
  create_outright_settlement_rollback-Follows = search (following, roll_back_market-Follows)
