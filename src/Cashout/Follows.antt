-- ===== src/Cashout/Follows.antt =====
-- A cash-out follows the ledger (src/bets/cashout.service.ts).
use betting_service.Prelude.{ℕ, List, Option, none, some}
use betting_service.Entity.Bet.{Bet}
use betting_service.Entity.Records.{Winning}
use betting_service.Entity.Games.{CashoutLadder}
use betting_service.Store.{System}
use betting_service.Store.Keeps.{Keeps-return, Keeps-throw, Leaves}
use betting_service.Ledger.{Ledger, view}
use betting_service.Ledger.Rules.{Follows, following, paying, PaysOnce}
use betting_service.Closing.Follows.{Follows-save_try}
use betting_service.Cashout.{
  reply_with, after_winning, cash_out, at_offer, at_products, process_bet, process_cashout,
}

module _ {N : Type 0} where
  reply_with-view : (balance : Option N) → Leaves view (reply_with balance)
  unfolding reply_with
  reply_with-view none c = Keeps-throw
  reply_with-view (some balance) c = Keeps-return _

  after_winning-PaysOnce :
      (sys : System N) (amount : N) (bet : Bet N) (w : Winning N)
      → PaysOnce (after_winning sys amount bet (some w))
  unfolding after_winning
  after_winning-PaysOnce sys amount bet w = search (paying, reply_with-view)

  module _ (l : Ledger N) (sys : System N) (id : ℕ) (amount : N) where
    after_winning-Follows : (bet : Bet N) → Follows l (after_winning sys amount bet none)
    unfolding after_winning
    after_winning-Follows bet = search following

    cash_out-Follows : (bet : Bet N) → Follows l (cash_out sys id amount bet)
    unfolding cash_out
    cash_out-Follows bet =
        search (following, Follows-save_try, after_winning-PaysOnce, after_winning-Follows)

    at_offer-Follows : (bet : Bet N) (offered : N) → Follows l (at_offer sys id amount bet offered)
    unfolding at_offer
    at_offer-Follows bet offered = search (following, cash_out-Follows)

    at_products-Follows :
        (bet : Bet N) (ladders : List (CashoutLadder N)) (lost_games : ℕ)
        (products : Option (N × N))
        → Follows l (at_products sys id amount bet ladders lost_games products)
    unfolding at_products
    at_products-Follows bet ladders lost_games none = search following
    at_products-Follows bet ladders lost_games (some (odds, p)) = at_offer-Follows bet _

    process_bet-Follows : (bet : Option (Bet N)) → Follows l (process_bet sys id amount bet)
    unfolding process_bet
    process_bet-Follows none = search following
    process_bet-Follows (some bet) = search (following, at_products-Follows)

    pub process_cashout-Follows : Follows l (process_cashout sys id amount)
    unfolding process_cashout
    process_cashout-Follows = search (following, process_bet-Follows)
