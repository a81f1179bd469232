-- ===== src/Casino/Follows.antt =====
-- Casino bets are no part of the ledger (src/bets/casino-bet.service.ts).
use betting_service.Prelude.{ℕ, zero, suc, String, Bool, List, [], ◌∷◌, Option, none, some}
use betting_service.Entity.Games.{CasinoBet}
use betting_service.Store.{System}
use betting_service.Ledger.{Ledger}
use betting_service.Ledger.Rules.{Follows, following}
use betting_service.Casino.{
  SettleCasinoBetRequest, PlaceCasinoBetRequest, update_bets, cancel_found, cancel_casino_bet,
  close_casino_round, save_casino_bet, place_on_bonus, place_casino_bet, settle_single,
  settle_found, settle_casino_bet,
}

module _ {N : Type 0} (l : Ledger N) (sys : System N) where
  update_bets-Follows :
      (which : CasinoBet N → Bool) (write : CasinoBet N → CasinoBet N)
      → Follows l (update_bets sys which write)
  unfolding update_bets
  update_bets-Follows which write = search following

  cancel_found-Follows :
      (id : String) (operator : Option (CasinoBet N)) → Follows l (cancel_found sys id operator)
  unfolding cancel_found
  cancel_found-Follows id none = search following
  cancel_found-Follows id (some operator) = search (following, update_bets-Follows)

  pub cancel_casino_bet-Follows : (id : String) → Follows l (cancel_casino_bet sys id)
  unfolding cancel_casino_bet
  cancel_casino_bet-Follows id = search (following, cancel_found-Follows)

  pub close_casino_round-Follows : (id : String) → Follows l (close_casino_round sys id)
  unfolding close_casino_round
  close_casino_round-Follows id = search (following, update_bets-Follows)

  place_on_bonus-Follows :
      (req : PlaceCasinoBetRequest N) (id : ℕ) (bonus : Option ℕ)
      → Follows l (place_on_bonus sys req id bonus)
  unfolding place_on_bonus
  place_on_bonus-Follows req id none = search following
  place_on_bonus-Follows req id (some zero) = search following
  place_on_bonus-Follows req id (some (suc k)) = search following

  pub place_casino_bet-Follows :
      (req : PlaceCasinoBetRequest N) → Follows l (place_casino_bet sys req)
  unfolding place_casino_bet save_casino_bet
  place_casino_bet-Follows req = search (following, place_on_bonus-Follows) depth 8

  settle_found-Follows :
      (req : SettleCasinoBetRequest N) (bets : List (CasinoBet N))
      → Follows l (settle_found sys req bets)
  unfolding settle_found settle_single
  settle_found-Follows req [] = search following
  settle_found-Follows req (b ∷ bs) = search (following, update_bets-Follows) depth 9

  pub settle_casino_bet-Follows :
      (req : SettleCasinoBetRequest N) → Follows l (settle_casino_bet sys req)
  unfolding settle_casino_bet
  settle_casino_bet-Follows req = search (following, settle_found-Follows)
