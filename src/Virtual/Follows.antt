-- ===== src/Virtual/Follows.antt =====
-- Virtual bets are no part of the ledger (src/bets/virtual-bet.service.ts).
use betting_service.Prelude.{ℕ, String, arith}
use betting_service.Store.{System}
use betting_service.Ledger.{Ledger}
use betting_service.Ledger.Rules.{Follows, following}
use betting_service.Virtual.{
  PlaceVirtualBetRequest, SettleVirtualBetRequest, insert_virtual_bet, place_virtual_bet,
  get_virtual_ticket, settle_bet,
}

module _ {N : Type 0} (l : Ledger N) (sys : System N) where
  insert_virtual_bet-Follows :
      (req : PlaceVirtualBetRequest N) → Follows l (insert_virtual_bet sys req)
  unfolding insert_virtual_bet
  insert_virtual_bet-Follows req = record { at = λ s h. ground arith }

  pub place_virtual_bet-Follows :
      (req : PlaceVirtualBetRequest N) → Follows l (place_virtual_bet sys req)
  unfolding place_virtual_bet
  place_virtual_bet-Follows req = search (following, insert_virtual_bet-Follows)

  pub get_virtual_ticket-Follows :
      (client_id : ℕ) (game_id transaction_id : String)
      → Follows l (get_virtual_ticket sys client_id game_id transaction_id)
  unfolding get_virtual_ticket
  get_virtual_ticket-Follows client_id game_id transaction_id = search following

  pub settle_bet-Follows : (req : SettleVirtualBetRequest N) → Follows l (settle_bet sys req)
  unfolding settle_bet
  settle_bet-Follows req = search following
